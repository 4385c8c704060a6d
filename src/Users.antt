-- ===== src/Users.antt =====
-- hysteria/user_compat.py: what a user's record in users.json must be, and what it says.
-- Dates are ordinal day numbers. What the code uses of `datetime` and `uuid`, and of `str` on values
-- other than texts and integers, is the record `Library`.
pub mod Rules
pub mod Strictness
use hy.Prelude.{
  ℕ, ◌+◌, ◌-◌, String, Bool, true, false, not, ◌&&◌, ◌||◌, Option, none, some, List, [], ◌∷◌, ltb,
  leb, ◌==◌, str_eq, if◌then◌else◌, all, length, drop,
}
use hy.Text.{codes, len}
use hy.Python.Numbers.{ℤ, pos, negsuc, is_negative, at_least_zero, strip, show, codes_eq}
use hy.Python.Json.{
  Value, null, boolean, int, float, text, array, object, Fields, get_field, truthy, Conversion,
  converted, refused, overflows, to_int, is_blank, is_boolean, is_text,
}
use hy.Store.{Result, ok, err, overflow_error, ◌>>=◌}

-- A datetime: its local time in seconds, and its offset from UTC in seconds, if it has one; offsets
-- are counted from 24 hours before UTC.
pub record Moment : Type 0 where
  pub local : ℕ
  pub zone : Option ℕ

pub record Library : Type 0 where
  -- datetime.strptime(s, "%Y-%m-%d").date(), as its ordinal; none is a ValueError
  pub strptime_day : List ℕ → Option ℕ
  -- datetime.fromisoformat(s)
  pub fromisoformat : List ℕ → Option Moment
  -- uuid.UUID(s).hex
  pub uuid_hex : List ℕ → Option String
  -- str(value), for a value that is neither a text nor an integer
  pub str_value : Value → List ℕ

abbrev pub to_text : Library → Value → List ℕ
to_text lib (text s) = codes s
to_text lib (int z) = show z
to_text lib null = lib.str_value null
to_text lib (boolean b) = lib.str_value (boolean b)
to_text lib (float f) = lib.str_value (float f)
to_text lib (array vs) = lib.str_value (array vs)
to_text lib (object fs) = lib.str_value (object fs)

-- [A-Za-z0-9_.-]
unfoldable pub name_code : ℕ → Bool
name_code c =
    (leb 65 c && leb c 90)
    || (leb 97 c && leb c 122)
    || (leb 48 c && leb c 57)
    || c == 95
    || c == 46
    || c == 45

unfoldable pub ends_with : List ℕ → List ℕ → Bool
unfolding codes_eq
ends_with suffix s =
    leb (length suffix) (length s) && codes_eq (drop (length s - length suffix) s) suffix

unfoldable pub is_valid_username : String → Bool
unfolding len all name_code ends_with
is_valid_username s =
    leb 1 (len s)
    && leb (len s) 64
    && all name_code (codes s)
    && not (ends_with (codes ".json") (codes s))

-- The reasons of `authorization_config_error`.
pub data ConfigError : Type 0 where
  not_an_object bad_uuid bad_expiry bad_disabled_until : ConfigError
  not_boolean not_count not_string : String → ConfigError

-- One test after another: the first reason stands, and an exception too.
abbrev pub or_else :
    Result (Option ConfigError) → Result (Option ConfigError) → Result (Option ConfigError)
or_else (ok none) later = later
or_else (ok (some e)) later = ok (some e)
or_else (err fault) later = err fault

abbrev pub each_field :
    (String → Result (Option ConfigError)) → List String → Result (Option ConfigError)
each_field test [] = ok none
each_field test (name ∷ names) = or_else (test name) (each_field test names)

unfoldable pub check_boolean : Fields → String → Result (Option ConfigError)
unfolding get_field is_boolean
check_boolean cfg name = elim (get_field name cfg) [
  | none ↦ ok none
  | some v ↦ ok (if is_boolean v then none else some (not_boolean name))
]

-- isinstance(value, str) and str(parsed) != value.strip()
unfoldable pub not_canonical : Value → ℤ → Bool
unfolding codes_eq show strip
not_canonical (text s) z = not (codes_eq (show z) (strip (codes s)))
not_canonical null z = false
not_canonical (boolean b) z = false
not_canonical (int n) z = false
not_canonical (float f) z = false
not_canonical (array vs) z = false
not_canonical (object fs) z = false

unfoldable pub count_reason : String → Value → Conversion → Result (Option ConfigError)
unfolding not_canonical
count_reason name v refused = ok (some (not_count name))
count_reason name v overflows = err overflow_error
count_reason name v (converted z) =
    ok (if is_negative z || not_canonical v z then some (not_count name) else none)

unfoldable pub check_count : Fields → String → Result (Option ConfigError)
unfolding get_field is_boolean count_reason to_int
check_count cfg name = elim (get_field name cfg) [
  | none ↦ ok none
  | some v ↦ if is_boolean v then ok (some (not_count name)) else count_reason name v (to_int v)
]

unfoldable pub is_text_or_null : Value → Bool
unfolding is_text
is_text_or_null null = true
is_text_or_null (text s) = true
is_text_or_null (boolean b) = false
is_text_or_null (int z) = false
is_text_or_null (float f) = false
is_text_or_null (array vs) = false
is_text_or_null (object fs) = false

unfoldable pub check_string : Fields → String → Result (Option ConfigError)
unfolding get_field is_text_or_null
check_string cfg name = elim (get_field name cfg) [
  | none ↦ ok none
  | some v ↦ ok (if is_text_or_null v then none else some (not_string name))
]

-- cfg.get(name)
unfoldable pub value_of : String → Fields → Value
unfolding get_field
value_of name cfg = elim (get_field name cfg) [ none ↦ null | some v ↦ v ]

abbrev pub boolean_fields : List String
boolean_fields =
    "disabled" ∷ "metered" ∷ "guest" ∷ "tuic_enabled" ∷ "panel_password_must_change" ∷ []

abbrev pub count_fields : List String
count_fields = "monthly_quota_bytes" ∷ "quota_extra_bytes" ∷ "max_devices" ∷ []

abbrev pub string_fields : List String
string_fields = "sub_token" ∷ "vless_uuid" ∷ "password_hash" ∷ "panel_pass_hash" ∷ []

unfoldable pub parse_expiry_date : Library → Value → Option ℕ
unfolding is_blank strip
parse_expiry_date lib raw =
    if is_blank raw then none else lib.strptime_day (strip (to_text lib raw))

unfoldable pub parse_disabled_until : Library → Value → Option Moment
unfolding is_blank strip
parse_disabled_until lib raw =
    if is_blank raw then none else lib.fromisoformat (strip (to_text lib raw))

abbrev missing {ℓ} : {A : Type ℓ} → Option A → Bool
missing none = true
missing (some a) = false

-- The tests of the values that are read further.
unfoldable pub check_values : Library → Fields → Option ConfigError
unfolding value_of is_blank parse_expiry_date parse_disabled_until
check_values lib cfg =
    if not (is_blank (value_of "vless_uuid" cfg))
      && missing (lib.uuid_hex (to_text lib (value_of "vless_uuid" cfg)))
    then some bad_uuid
    else if not (is_blank (value_of "expires_at" cfg))
        && missing (parse_expiry_date lib (value_of "expires_at" cfg))
    then some bad_expiry
    else if not (is_blank (value_of "disabled_until" cfg))
        && missing (parse_disabled_until lib (value_of "disabled_until" cfg))
    then some bad_disabled_until
    else none

unfoldable pub config_error : Library → Fields → Result (Option ConfigError)
unfolding check_boolean check_count check_string check_values
config_error lib cfg = or_else (each_field (check_boolean cfg) boolean_fields) (
    or_else (each_field (check_count cfg) count_fields)
      (or_else (each_field (check_string cfg) string_fields) (ok (check_values lib cfg))))

unfoldable pub authorization_config_error : Library → Value → Result (Option ConfigError)
unfolding config_error
authorization_config_error lib (object cfg) = config_error lib cfg
authorization_config_error lib null = ok (some not_an_object)
authorization_config_error lib (boolean b) = ok (some not_an_object)
authorization_config_error lib (int z) = ok (some not_an_object)
authorization_config_error lib (float f) = ok (some not_an_object)
authorization_config_error lib (text s) = ok (some not_an_object)
authorization_config_error lib (array vs) = ok (some not_an_object)
