-- ===== src/Auth/Inputs.antt =====
-- hysteria/auth_backend.py: the validators of the state that a decision reads. StateUnavailable is the
-- fault `state_unavailable`.
use hy.Prelude.{
  ℕ, ◌+◌, String, Bool, true, not, ◌&&◌, ◌||◌, Option, none, some, List, [], ◌∷◌, leb, ◌==◌,
  if◌then◌else◌, str_eq, length,
}
use hy.Dict.{Dict, get, put}
use hy.Text.{codes}
use hy.Python.Numbers.{int_max_str_digits, pos, negsuc, strip, all_digits, value_from}
use hy.Python.Json.{
  Value, null, boolean, int, float, text, array, object, Fields, end, field, get_field,
}
use hy.Store.{Result, ok, err, state_unavailable, ◌>>=◌, File, absent, corrupt, raises, holds}
use hy.Users.{Library, is_valid_username, value_of}
use hy.Users.Rules.{field_or}
use hy.Cycle.{cycle_length_min, cycle_length_max}

abbrev pub object_or_unavailable : Value → Result Fields
object_or_unavailable (object fs) = ok fs
object_or_unavailable null = err state_unavailable
object_or_unavailable (boolean b) = err state_unavailable
object_or_unavailable (int z) = err state_unavailable
object_or_unavailable (float f) = err state_unavailable
object_or_unavailable (text s) = err state_unavailable
object_or_unavailable (array vs) = err state_unavailable

-- load_json(path, {}, required=required)
unfoldable pub load_json : Bool → File Value → Result Fields
load_json required absent = if required then err state_unavailable else ok end
load_json required corrupt = err state_unavailable
load_json required (raises f) = err f
load_json required (holds v) = object_or_unavailable v

unfoldable pub digits_text : List ℕ → Result ℕ
unfolding all_digits value_from
digits_text s =
    if all_digits s && leb (length s) int_max_str_digits
    then ok (value_from 0 s)
    else err state_unavailable

unfoldable pub non_negative_integer : Value → Result ℕ
unfolding digits_text strip
non_negative_integer (int (pos n)) = ok n
non_negative_integer (int (negsuc n)) = err state_unavailable
non_negative_integer (text s) = digits_text (strip (codes s))
non_negative_integer null = err state_unavailable
non_negative_integer (boolean b) = err state_unavailable
non_negative_integer (float f) = err state_unavailable
non_negative_integer (array vs) = err state_unavailable
non_negative_integer (object fs) = err state_unavailable

abbrev pub usage_field : String → Bool
usage_field k = str_eq k "tx" || str_eq k "rx" || str_eq k "total"

abbrev pub only_usage_fields : Fields → Bool
only_usage_fields end = true
only_usage_fields (field k v fs) = usage_field k && only_usage_fields fs

unfoldable pub usage_of_fields : Fields → Result ℕ
unfolding non_negative_integer field_or
usage_of_fields entry =
    if not (only_usage_fields entry)
    then err state_unavailable
    else non_negative_integer (field_or (int (pos 0)) "tx" entry) >>= λ tx.
        non_negative_integer (field_or (int (pos 0)) "rx" entry) >>= λ rx.
        non_negative_integer (field_or (int (pos (tx + rx))) "total" entry) >>= λ total.
        if total == tx + rx then ok total else err state_unavailable

unfoldable pub usage_total : Value → Result ℕ
unfolding usage_of_fields non_negative_integer
usage_total (object entry) = usage_of_fields entry
usage_total null = non_negative_integer null
usage_total (boolean b) = non_negative_integer (boolean b)
usage_total (int z) = non_negative_integer (int z)
usage_total (float f) = non_negative_integer (float f)
usage_total (text s) = non_negative_integer (text s)
usage_total (array vs) = non_negative_integer (array vs)

-- A value that is tested, and the rest of a loop of such tests.
abbrev pub and_then {ℓ} : {A : Type ℓ} → Result A → Result Bool → Result Bool
and_then (ok a) rest = rest
and_then (err e) rest = err e

unfoldable pub validate_rows : Fields → Result Bool
unfolding usage_total
validate_rows end = ok true
validate_rows (field username entry rows) =
    let rest = validate_rows rows in
    if str_eq username "" then err state_unavailable else and_then (usage_total entry) rest

-- Whether `datetime.strptime(s, "%Y-%m-%d")` reads a text that `strftime` writes back as it is.
pub record Dates : Type 0 where
  pub is_iso_day : String → Bool
  -- date.strftime("%Y-%m-%d") of an ordinal
  pub day_key : ℕ → String

unfoldable pub validate_daily_usage : Dates → Fields → Result Bool
unfolding validate_rows
validate_daily_usage lib end = ok true
validate_daily_usage lib (field day_key rows daily) =
    let rest = validate_daily_usage lib daily in
    if lib.is_iso_day day_key
    then and_then (object_or_unavailable rows >>= validate_rows) rest
    else err state_unavailable

unfoldable pub check_range : ℕ → ℕ → Option Value → Result Bool
unfolding non_negative_integer
check_range low high none = ok true
check_range low high (some v) = non_negative_integer v >>= λ n.
    if leb low n && leb n high then ok true else err state_unavailable

unfoldable pub check_anchor : Dates → Value → Result Bool
check_anchor lib (text s) =
    if str_eq s "" then ok true else if lib.is_iso_day s then ok true else err state_unavailable
check_anchor lib null = ok true
check_anchor lib (boolean b) = err state_unavailable
check_anchor lib (int z) = err state_unavailable
check_anchor lib (float f) = err state_unavailable
check_anchor lib (array vs) = err state_unavailable
check_anchor lib (object fs) = err state_unavailable

unfoldable pub validate_meta : Dates → Fields → Result Bool
unfolding check_range check_anchor get_field value_of
validate_meta lib meta = and_then (check_range 1 28 (get_field "settlement_day" meta)) (
    and_then (check_range cycle_length_min cycle_length_max (get_field "cycle_length_days" meta))
      (check_anchor lib (value_of "cycle_anchor_date" meta)))

-- The canonical form of a `vless_uuid`: none is the lack of one, which is passed over.
unfoldable pub canonical_uuid : Library → Value → Result (Option String)
canonical_uuid lib (text s) =
    if str_eq s ""
    then ok none
    else elim (lib.uuid_hex (codes s)) [ none ↦ err state_unavailable | some hex ↦ ok (some hex) ]
canonical_uuid lib null = ok none
canonical_uuid lib (boolean b) = err state_unavailable
canonical_uuid lib (int z) = err state_unavailable
canonical_uuid lib (float f) = err state_unavailable
canonical_uuid lib (array vs) = err state_unavailable
canonical_uuid lib (object fs) = err state_unavailable

-- The users seen so far, by their canonical uuid, with one more; a uuid is seen once.
unfoldable pub see : String → Option String → Dict String → Result (Dict String)
unfolding get put
see username none seen = ok seen
see username (some canonical) seen = elim (get canonical seen) [
  | some previous ↦ err state_unavailable
  | none ↦ ok (put canonical username seen)
]

-- The loop of `validate_unique_vless_uuids`, from the users seen so far.
unfoldable pub unique_uuids : Library → Dict String → Fields → Result Bool
unfolding is_valid_username value_of canonical_uuid see
unique_uuids lib seen end = ok true
unique_uuids lib seen (field username cfg users) =
    if not (is_valid_username username)
    then err state_unavailable
    else object_or_unavailable cfg >>= λ fields.
        canonical_uuid lib (value_of "vless_uuid" fields) >>= λ uuid.
        see username uuid seen >>= λ seen'. unique_uuids lib seen' users

unfoldable pub validate_unique_vless_uuids : Library → Fields → Result Bool
unfolding unique_uuids
validate_unique_vless_uuids lib users = unique_uuids lib [] users

abbrev pub online_max_users : ℕ
online_max_users = 10_000

unfoldable pub field_count : Fields → ℕ
field_count end = 0
field_count (field k v fs) = field_count fs + 1

-- The counts of an object of online users, whose keys are distinct.
unfoldable pub online_counts : Fields → Result (Dict ℕ)
unfolding is_valid_username non_negative_integer
online_counts end = ok []
online_counts (field username count online) =
    let rest = online_counts online in
    if is_valid_username username
    then (non_negative_integer count >>= λ n. rest >>= λ counts. ok ((username, n) ∷ counts))
    else err state_unavailable

unfoldable pub validate_online_counts : Value → Result (Dict ℕ)
unfolding field_count online_counts
validate_online_counts online = object_or_unavailable online >>= λ fields.
    if leb (field_count fields) online_max_users
    then online_counts fields
    else err state_unavailable
