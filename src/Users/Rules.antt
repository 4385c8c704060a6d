-- ===== src/Users/Rules.antt =====
-- hysteria/user_compat.py: what a user's record says of metering, quota, expiry and inactivity.
use hy.Prelude.{ℕ, ◌+◌, Bool, false, not, ◌||◌, Option, none, some, ltb, leb, String}
use hy.Python.Numbers.{ℤ, pos, at_least_zero}
use hy.Python.Json.{
  Value, null, boolean, int, float, text, array, object, Fields, get_field, truthy, Conversion,
  converted, refused, overflows, to_int,
}
use hy.Store.{Result, ok, err, overflow_error, ◌>>=◌}
use hy.Users.{Library, Moment, value_of, parse_expiry_date, parse_disabled_until}

-- The fields of an object; nothing for another value, which every rule below answers with a default.
unfoldable pub fields_of : Value → Option Fields
fields_of (object cfg) = some cfg
fields_of null = none
fields_of (boolean b) = none
fields_of (int z) = none
fields_of (float f) = none
fields_of (text s) = none
fields_of (array vs) = none

-- cfg.get(name, default)
unfoldable pub field_or : Value → String → Fields → Value
unfolding get_field
field_or default name cfg = elim (get_field name cfg) [ none ↦ default | some v ↦ v ]

unfoldable pub metered_fields : Fields → Bool
unfolding get_field truthy field_or
metered_fields cfg = elim (get_field "metered" cfg) [
  | some v ↦ truthy v
  | none ↦ truthy (field_or (boolean false) "guest" cfg)
]

unfoldable pub is_metered : Value → Bool
unfolding fields_of metered_fields
is_metered v = elim (fields_of v) [ none ↦ false | some cfg ↦ metered_fields cfg ]

unfoldable pub tuic_enabled : Value → Bool
unfolding fields_of get_field truthy metered_fields
tuic_enabled v = elim (fields_of v) [
  | none ↦ false
  | some cfg ↦ elim (get_field "tuic_enabled" cfg) [
    | some w ↦ truthy w
    | none ↦ not (metered_fields cfg)
  ]
]

unfoldable pub conversion_or : ℤ → Conversion → Result ℤ
conversion_or default (converted z) = ok z
conversion_or default refused = ok default
conversion_or default overflows = err overflow_error

unfoldable pub as_int : Value → ℤ → Result ℤ
unfolding to_int conversion_or
as_int v default = conversion_or default (to_int v)

-- max(0, _as_int(cfg.get(name), 0))
unfoldable pub count_of : String → Fields → Result ℕ
unfolding as_int value_of
count_of name cfg = as_int (value_of name cfg) (pos 0) >>= λ z. ok (at_least_zero z)

unfoldable pub quota_extra_bytes : Value → Result ℕ
unfolding fields_of count_of
quota_extra_bytes v = elim (fields_of v) [
  | none ↦ ok 0
  | some cfg ↦ count_of "quota_extra_bytes" cfg
]

unfoldable pub total_quota_bytes : Value → Result ℕ
unfolding fields_of count_of
total_quota_bytes v = elim (fields_of v) [
  | none ↦ ok 0
  | some cfg ↦ count_of "monthly_quota_bytes" cfg >>= λ base.
      count_of "quota_extra_bytes" cfg >>= λ extra. ok (base + extra)
]

unfoldable pub expiry_date : Library → Value → Option ℕ
unfolding fields_of value_of parse_expiry_date
expiry_date lib v = elim (fields_of v) [
  | none ↦ none
  | some cfg ↦ parse_expiry_date lib (value_of "expires_at" cfg)
]

unfoldable pub disabled_until : Library → Value → Option Moment
unfolding fields_of value_of parse_disabled_until
disabled_until lib v = elim (fields_of v) [
  | none ↦ none
  | some cfg ↦ parse_disabled_until lib (value_of "disabled_until" cfg)
]

unfoldable pub zone_or : ℕ → Moment → ℕ
zone_or default m = elim m.zone [ none ↦ default | some z ↦ z ]

-- until <= current, where a moment without a zone takes the other one's; two without compare as they
-- stand, which any common zone does too.
unfoldable pub not_after : Moment → Moment → Bool
unfolding zone_or
not_after until current =
    leb (until.local + zone_or (zone_or 0 until) current)
      (current.local + zone_or (zone_or 0 current) until)

unfoldable pub temporary_disable_expired : Library → Value → Moment → Bool
unfolding disabled_until not_after
temporary_disable_expired lib v now = elim (disabled_until lib v) [
  | none ↦ false
  | some until ↦ not_after until now
]

unfoldable pub is_expired : Library → Value → ℕ → Bool
unfolding expiry_date
is_expired lib v today = elim (expiry_date lib v) [ none ↦ false | some day ↦ ltb day today ]

unfoldable pub is_inactive : Library → Value → ℕ → Bool
unfolding fields_of value_of truthy is_expired
is_inactive lib v today = elim (fields_of v) [
  | none ↦ false
  | some cfg ↦ truthy (value_of "disabled" cfg) || is_expired lib v today
]
