-- ===== src/Auth/Quota.antt =====
-- hysteria/auth_backend.py, `authenticate`: the traffic of a metered user in the running cycle, against
-- the quota of its record.
use hy.Prelude.{
  ℕ, ◌+◌, String, Bool, true, false, not, ◌&&◌, Option, none, List, [], ◌∷◌, ltb, if◌then◌else◌,
}
use hy.Python.Numbers.{pos}
use hy.Python.Json.{Value, null, boolean, int, float, text, array, object, Fields, truthy}
use hy.Store.{Result, ok, err, state_unavailable, value_error, attribute_error, ◌>>=◌, File}
use hy.Users.{Library, value_of}
use hy.Users.Rules.{is_metered, total_quota_bytes, field_or}
use hy.Cycle.{Now, cycle_days}
use hy.Display.{Multiplier, Floats, effective_display_multiplier_strict}
use hy.Auth.Inputs.{Dates, load_json, usage_total, validate_meta, validate_daily_usage}

-- The library. `reaches used m quota` is Decimal(used) * Decimal(str(m)) >= Decimal(quota).
pub record Policy : Type 0 where
  pub users : Library
  pub dates : Dates
  pub floats : Floats
  pub deployed : Multiplier
  pub reaches : ℕ → Multiplier → ℕ → Bool

-- The files and the environment that the quota is computed from, and the moment.
pub record Ledgers : Type 0 where
  pub now : Now
  pub meta : File Value
  pub daily : File Value
  pub multiplier : File Value
  pub environment : Option String

-- rows.get(username, 0), of a value that counts as true
unfoldable pub usage_in_rows : String → Value → Result ℕ
unfolding usage_total field_or
usage_in_rows username (object rows) = usage_total (field_or (int (pos 0)) username rows)
usage_in_rows username null = err attribute_error
usage_in_rows username (boolean b) = err attribute_error
usage_in_rows username (int z) = err attribute_error
usage_in_rows username (float f) = err attribute_error
usage_in_rows username (text s) = err attribute_error
usage_in_rows username (array vs) = err attribute_error

-- usage_total((daily.get(day_key) or {}).get(username, 0))
unfoldable pub usage_on : Dates → Fields → String → ℕ → Result ℕ
unfolding value_of truthy usage_in_rows usage_total
usage_on lib daily username day =
    if truthy (value_of (lib.day_key day) daily)
    then usage_in_rows username (value_of (lib.day_key day) daily)
    else usage_total (int (pos 0))

-- sum(...) over the days
unfoldable pub used_on : Dates → Fields → String → List ℕ → Result ℕ
unfolding usage_on
used_on lib daily username [] = ok 0
used_on lib daily username (day ∷ days) =
    let rest = used_on lib daily username days in
    usage_on lib daily username day >>= λ n. rest >>= λ m. ok (n + m)

-- What the first `try` block reads: the metadata, the daily usage and the multiplier.
unfoldable pub read_ledgers : Policy → Ledgers → Result (Fields × Fields × Multiplier)
unfolding load_json validate_meta validate_daily_usage effective_display_multiplier_strict
read_ledgers p l = load_json true l.meta >>= λ meta. load_json true l.daily >>= λ daily.
    validate_meta p.dates meta >>= λ sound. validate_daily_usage p.dates daily >>= λ counted.
    effective_display_multiplier_strict p.floats p.deployed l.environment l.multiplier >>= λ m.
    ok (meta, daily, m)

unfoldable pub cycle_usage : Policy → Ledgers → String → Fields → Fields → Result ℕ
unfolding cycle_days used_on
cycle_usage p l username meta daily =
    cycle_days p.users l.now none null none meta >>= λ days. used_on p.dates daily username days

-- The end of a `try` block: `except StateUnavailable: return None`, and the same with ValueError.
abbrev pub unless_unavailable {ℓ} : {A : Type ℓ} → Result A → (A → Result Bool) → Result Bool
unless_unavailable (ok a) next = next a
unless_unavailable (err state_unavailable) next = ok false
unless_unavailable (err fault) next = err fault

abbrev pub unless_invalid {ℓ} : {A : Type ℓ} → Result A → (A → Result Bool) → Result Bool
unless_invalid (ok a) next = next a
unless_invalid (err state_unavailable) next = ok false
unless_invalid (err value_error) next = ok false
unless_invalid (err fault) next = err fault

unfoldable pub below_quota : Policy → Fields → ℕ → Multiplier → Result Bool
unfolding total_quota_bytes
below_quota p user used m =
    total_quota_bytes (object user) >>= λ quota. ok (not (ltb 0 quota && p.reaches used m quota))

-- Whether the request goes on: the user is not metered, or has used less than the quota, if any.
unfoldable pub within_quota : Policy → Ledgers → String → Fields → Result Bool
unfolding is_metered read_ledgers cycle_usage below_quota
within_quota p l username user =
    if is_metered (object user)
    then unless_invalid (read_ledgers p l) (λ (meta, daily, m).
      unless_unavailable (cycle_usage p l username meta daily) (λ used. below_quota p user used m))
    else ok true
