-- ===== src/Online.antt =====
-- hysteria/online_snapshot.py: the cached online counts, and the metadata that binds and dates them.
-- An instant is in microseconds, as a natural number (the source has floats of seconds).
pub mod Freshness
use hy.Prelude.{
  ℕ, ◌+◌, String, Bool, true, false, ◌&&◌, ◌||◌, not, Option, none, some, ltb, leb, ◌==◌,
  if◌then◌else◌, str_eq, all,
}
use hy.Text.{codes, len}
use hy.Python.Numbers.{pos, negsuc}
use hy.Python.Json.{
  Value, null, boolean, int, float, finite, infinite, not_a_number, text, array, object, Fields,
}
use hy.Store.{Result, ok, err, invalid_state, overflow_error, type_error, ◌>>=◌}

-- A number of seconds that is finite and not negative, an integer that no float holds (the
-- OverflowError of `math.isfinite`), or any other value, Booleans included.
pub data Stamp : Type 0 where
  instant : ℕ → Stamp
  overflowing no_instant : Stamp

-- A metadata object with exactly the three fields.
pub record Metadata : Type 0 where
  pub schema_version : Value
  pub captured_at_unix : Stamp
  pub snapshot_sha256 : Value

-- The library: `json.dumps` with sorted keys and `allow_nan=False` (none is its ValueError), and the
-- hexadecimal SHA-256 of what it writes.
pub record Canonical : Type 0 where
  pub dumps : Value → Option String
  pub sha256 : String → String

-- Every InvalidOnlineSnapshot is the fault `invalid_state`.
unfoldable pub snapshot_sha256 : Canonical → Value → Result String
snapshot_sha256 lib (object fs) = elim (lib.dumps (object fs)) [
  | none ↦ err invalid_state
  | some payload ↦ ok (lib.sha256 payload)
]
snapshot_sha256 lib null = err invalid_state
snapshot_sha256 lib (boolean b) = err invalid_state
snapshot_sha256 lib (int z) = err invalid_state
snapshot_sha256 lib (float f) = err invalid_state
snapshot_sha256 lib (text s) = err invalid_state
snapshot_sha256 lib (array vs) = err invalid_state

abbrev pub schema_version : Value
schema_version = int (pos 1)

unfoldable pub build_metadata : Canonical → Value → Stamp → Result Metadata
build_metadata lib snapshot no_instant = err invalid_state
build_metadata lib snapshot overflowing = err overflow_error
build_metadata lib snapshot (instant t) = snapshot_sha256 lib snapshot >>= λ digest. ok (record {
  schema_version = schema_version;
  captured_at_unix = instant t;
  snapshot_sha256 = text digest;
})

-- value == 1, which True and 1.0 are too
unfoldable pub is_schema_version : Value → Bool
is_schema_version (int (pos n)) = n == 1
is_schema_version (int (negsuc n)) = false
is_schema_version (boolean b) = b
is_schema_version (float (finite (pos n) integral zero)) = n == 1 && integral
is_schema_version (float (finite (negsuc n) integral zero)) = false
is_schema_version (float infinite) = false
is_schema_version (float not_a_number) = false
is_schema_version null = false
is_schema_version (text s) = false
is_schema_version (array vs) = false
is_schema_version (object fs) = false

-- 0 <= captured_at <= current, and current - captured_at <= ttl
unfoldable pub is_fresh : Stamp → ℕ → ℕ → Bool
is_fresh no_instant current ttl = false
is_fresh overflowing current ttl = false
is_fresh (instant t) current ttl = leb t current && leb current (t + ttl)

-- The digest that the metadata gives, if it is a text of 64 characters.
unfoldable pub expected_digest : Value → Option String
unfolding len
expected_digest (text s) = if len s == 64 then some s else none
expected_digest null = none
expected_digest (boolean b) = none
expected_digest (int z) = none
expected_digest (float f) = none
expected_digest (array vs) = none
expected_digest (object fs) = none

-- `hmac.compare_digest` raises TypeError for a text that is not ASCII; a digest is.
unfoldable pub check_digest : Canonical → Value → Option String → Result Value
check_digest lib snapshot none = err invalid_state
check_digest lib snapshot (some expected) = snapshot_sha256 lib snapshot >>= λ digest.
    if not (all (λ c. ltb c 128) (codes expected))
    then err type_error
    else if str_eq digest expected
    then ok snapshot
    else err invalid_state

-- The tests on the metadata's stamp, then on its digest.
unfoldable pub check_stamp : Canonical → Value → Metadata → ℕ → ℕ → Result Value
unfolding is_fresh check_digest expected_digest
check_stamp lib snapshot m current ttl = elim m.captured_at_unix [
  | overflowing ↦ err overflow_error
  | no_instant ↦ err invalid_state
  | instant t ↦
      if is_fresh (instant t) current ttl
      then check_digest lib snapshot (expected_digest m.snapshot_sha256)
      else err invalid_state
]

-- `metadata` is none unless it is an object with exactly the three fields.
unfoldable pub validate_fresh_snapshot :
    Canonical → Value → Option Metadata → Stamp → Stamp → Result Value
validate_fresh_snapshot lib snapshot metadata no_instant ttl_seconds = err invalid_state
validate_fresh_snapshot lib snapshot metadata overflowing ttl_seconds = err overflow_error
validate_fresh_snapshot lib snapshot metadata (instant current) no_instant = err invalid_state
validate_fresh_snapshot lib snapshot metadata (instant current) overflowing = err overflow_error
validate_fresh_snapshot lib snapshot none (instant current) (instant ttl) = err invalid_state
validate_fresh_snapshot lib snapshot (some m) (instant current) (instant ttl) =
    if ttl == 0 || not (is_schema_version m.schema_version)
    then err invalid_state
    else check_stamp lib snapshot m current ttl
