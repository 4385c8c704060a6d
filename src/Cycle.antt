-- ===== src/Cycle.antt =====
-- hysteria/cycle.py: the billing cycle. A date is its ordinal day number. Of the current moment the
-- code uses its date's ordinal, its day of the month, and the length of the month before, on which
-- `replace(day=...)` lands from its last day.
pub mod Tiling
pub mod Window
use hy.Prelude.{
  ℕ, zero, suc, ◌+◌, ◌-◌, ◌*◌, ◌/◌, Bool, Option, none, some, List, [], ◌∷◌, String, min, max, ltb,
  leb, if◌then◌else◌,
}
use hy.Python.Numbers.{ℤ, pos, negsuc}
use hy.Python.Json.{
  Value, null, int, Fields, truthy, Conversion, converted, refused, overflows, to_int,
}
use hy.Store.{Result, ok, err, overflow_error, ◌>>=◌}
use hy.Users.{Library, to_text, value_of}
use hy.Users.Rules.{field_or}

abbrev pub settlement_day_default : ℕ
settlement_day_default = 12

abbrev pub cycle_length_days_default : ℕ
cycle_length_days_default = 30

abbrev pub cycle_length_min : ℕ
cycle_length_min = 1

abbrev pub cycle_length_max : ℕ
cycle_length_max = 90

pub record Now : Type 0 where
  pub today : ℕ
  pub day : ℕ
  pub last_month_days : ℕ

-- max(low, min(high, z)), for bounds that are not negative
unfoldable pub clamp : ℕ → ℕ → ℤ → ℕ
clamp low high (pos n) = max low (min high n)
clamp low high (negsuc n) = low

unfoldable pub clamp_or : ℕ → ℕ → ℕ → Conversion → Result ℕ
unfolding clamp
clamp_or low high default (converted z) = ok (clamp low high z)
clamp_or low high default refused = ok default
clamp_or low high default overflows = err overflow_error

unfoldable pub clamp_settlement_day : Value → ℕ → Result ℕ
unfolding clamp_or to_int
clamp_settlement_day value default = clamp_or 1 28 default (to_int value)

unfoldable pub clamp_cycle_length : Value → ℕ → Result ℕ
unfolding clamp_or to_int
clamp_cycle_length value default = clamp_or cycle_length_min cycle_length_max default (to_int value)

unfoldable pub settlement_day_from_meta : Fields → Result ℕ
unfolding clamp_settlement_day field_or
settlement_day_from_meta meta =
    clamp_settlement_day (field_or (int (pos settlement_day_default)) "settlement_day" meta)
      settlement_day_default

unfoldable pub cycle_length_from_meta : Fields → Result ℕ
unfolding clamp_cycle_length field_or
cycle_length_from_meta meta =
    clamp_cycle_length (field_or (int (pos cycle_length_days_default)) "cycle_length_days" meta)
      cycle_length_days_default

-- The most recent date whose day of the month is `day`.
unfoldable pub settlement_anchor : Now → ℕ → ℕ
settlement_anchor now day =
    if leb day now.day
    then now.today - (now.day - day)
    else now.today - now.day - (now.last_month_days - day)

unfoldable pub settlement_anchor_date : Now → Value → Result ℕ
unfolding clamp_settlement_day settlement_anchor
settlement_anchor_date now settlement_day =
    clamp_settlement_day settlement_day settlement_day_default >>= λ day.
    ok (settlement_anchor now day)

-- The persisted origin, if it is a date. `str(raw)` is not stripped here.
unfoldable pub persisted_anchor : Library → Fields → Option ℕ
unfolding value_of truthy
persisted_anchor lib meta =
    if truthy (value_of "cycle_anchor_date" meta)
    then lib.strptime_day (to_text lib (value_of "cycle_anchor_date" meta))
    else none

-- cycle_anchor_date(now, meta)
unfoldable pub cycle_anchor_date : Library → Now → Fields → Result ℕ
unfolding persisted_anchor settlement_day_from_meta settlement_anchor
cycle_anchor_date lib now meta = elim (persisted_anchor lib meta) [
  | some anchor ↦ ok anchor
  | none ↦ settlement_day_from_meta meta >>= λ day. ok (settlement_anchor now day)
]

-- Where the cycle that holds a day begins.
unfoldable pub start_of : ℕ → ℕ → ℕ → ℕ
start_of anchor length today =
    if ltb today anchor then anchor else anchor + (today - anchor) / length * length

-- The anchor that is given, the one of a settlement day that is given, or the metadata's.
unfoldable pub anchor_for : Library → Now → Option Value → Option ℕ → Fields → Result ℕ
anchor_for lib now day (some anchor) meta = ok anchor
anchor_for lib now none none meta = cycle_anchor_date lib now meta
anchor_for lib now (some day) none meta = settlement_anchor_date now day

-- The start's date; a length that is not given is None.
unfoldable pub cycle_start_for : Library → Now → Option Value → Value → Option ℕ → Fields → Result ℕ
cycle_start_for lib now day length anchor meta = anchor_for lib now day anchor meta >>= λ origin.
    cycle_length_from_meta meta >>= λ default.
    clamp_cycle_length length default >>= λ days. ok (start_of origin days now.today)

-- The days from one on, and how many.
unfoldable pub days_from : ℕ → ℕ → List ℕ
days_from day zero = []
days_from day (suc n) = day ∷ days_from (day + 1) n

-- The days of the cycle that have begun, in order.
unfoldable pub days_of : ℕ → ℕ → ℕ → List ℕ
unfolding days_from
days_of start length today = days_from start (min (start + length - 1) today + 1 - start)

unfoldable pub cycle_days :
    Library → Now → Option Value → Value → Option ℕ → Fields → Result (List ℕ)
cycle_days lib now day length anchor meta = cycle_length_from_meta meta >>= λ default.
    clamp_cycle_length length default >>= λ days.
    cycle_start_for lib now day (int (pos days)) anchor meta >>= λ start.
    ok (days_of start days now.today)
