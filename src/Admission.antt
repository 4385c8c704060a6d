-- ===== src/Admission.antt =====
-- hysteria/auth_backend.py, `reserve_device_admission`: the ledger of short-lived device slots.
-- Instants are microseconds, as natural numbers (the source has floats of seconds), and the test
-- `stamp > current - TTL` is written without the subtraction. A fault of a transaction stands for
-- the source's `StateUnavailable`, but for an OverflowError (of `math.isfinite`, on an integer stamp that
-- no float holds) or a RecursionError, which the operation lets through. A ledger file that does not
-- decode to records is `corrupt`; one whose decoding raises such an exception is `raises` of it.
pub mod Pruning
pub mod Slots
pub mod Burst
pub mod Limit
pub mod History
use hy.Prelude.{
  ℕ, ◌+◌, ◌-◌, String, Bool, true, false, not, ◌&&◌, ◌||◌, Option, none, some, List, [], ◌∷◌, ◌++◌,
  min, ltb, ◌==◌, str_eq, if◌then◌else◌, length, drop, keep,
}
use hy.Dict.{Dict, get, put, remove, all_items}
use hy.Store.{Result, ok, err, value_error, File, Host, transact}

abbrev pub device_admission_ttl : ℕ
device_admission_ttl = 20_000_000

-- A record in the first format, a bare list of stamps, has no observed count.
pub record Admissions : Type 0 where
  pub observed : Option ℕ
  pub pending : List ℕ

abbrev pub Ledger : Type 0
Ledger = Dict Admissions

abbrev pub is_nil : List ℕ → Bool
is_nil [] = true
is_nil (x ∷ l) = false

-- The validation of `_load_device_admissions` on the keys.
unfoldable pub ledger_valid : Ledger → Bool
unfolding all_items
ledger_valid = all_items (λ username r. not (str_eq username ""))

unfoldable pub stamps_eq : List ℕ → List ℕ → Bool
stamps_eq [] [] = true
stamps_eq [] (y ∷ m) = false
stamps_eq (x ∷ l) [] = false
stamps_eq (x ∷ l) (y ∷ m) = x == y && stamps_eq l m

unfoldable pub observed_eq : Option ℕ → Option ℕ → Bool
observed_eq none none = true
observed_eq none (some n) = false
observed_eq (some n) none = false
observed_eq (some n) (some m) = n == m

abbrev same_record : Admissions → Option Admissions → Bool
same_record r none = false
same_record r (some s) = observed_eq r.observed s.observed && stamps_eq r.pending s.pending

-- a == b, as dicts
unfoldable pub ledger_eq : Ledger → Ledger → Bool
unfolding get all_items stamps_eq observed_eq
ledger_eq a b = length a == length b && all_items (λ k r. same_record r (get k b)) a

-- stamp > current - TTL
unfoldable pub live : ℕ → ℕ → Bool
live current stamp = ltb current (stamp + device_admission_ttl)

unfoldable pub prune : ℕ → Ledger → Ledger
unfolding live keep
prune current [] = []
prune current ((user, r) ∷ d) =
    let pending = keep (live current) r.pending in
    let rest = prune current d in
    if is_nil pending then rest else (user, record r { pending = pending }) ∷ rest

-- pruned.get(username, {"observed": observed, "pending": []})
unfoldable pub record_of : ℕ → Option Admissions → Admissions
record_of observed none = record { observed = some observed; pending = [] }
record_of observed (some r) = r

unfoldable pub observed_or : ℕ → Option ℕ → ℕ
observed_or observed none = observed
observed_or observed (some n) = n

-- How many devices the online count gained since the record was written.
unfoldable pub reflected : ℕ → Admissions → ℕ
unfolding observed_or
reflected observed r = observed - observed_or observed r.observed

-- The reservations that the online count does not show yet.
unfoldable pub unreflected : ℕ → Admissions → List ℕ
unfolding reflected
unreflected observed r = drop (min (reflected observed r) (length r.pending)) r.pending

unfoldable pub admits : ℕ → ℕ → Admissions → Bool
unfolding unreflected
admits maximum observed r = ltb (observed + length (unreflected observed r)) maximum

unfoldable pub pending_after : ℕ → ℕ → ℕ → Admissions → List ℕ
unfolding admits unreflected
pending_after maximum observed current r =
    if admits maximum observed r
    then unreflected observed r ++ current ∷ []
    else unreflected observed r

unfoldable pub write_back : String → ℕ → List ℕ → Ledger → Ledger
unfolding put remove
write_back username observed pending pruned =
    if is_nil pending
    then remove username pruned
    else put username (record { observed = some observed; pending = pending }) pruned

unfoldable pub changed : ℕ → ℕ → Ledger → Ledger → Admissions → Bool
unfolding ledger_eq admits reflected observed_eq
changed maximum observed admissions pruned r =
    not (ledger_eq pruned admissions)
    || admits maximum observed r
    || not (reflected observed r == 0)
    || not (observed_eq r.observed (some observed))

-- The critical section, after the ledger is loaded.
unfoldable pub reserve_body : String → ℕ → ℕ → ℕ → Ledger → Result (Bool × Option Ledger)
unfolding prune record_of admits pending_after write_back changed get
reserve_body username maximum observed current admissions =
    let pruned = prune current admissions in
    let r = record_of observed (get username pruned) in
    ok (
      admits maximum observed r,
      (if changed maximum observed admissions pruned r
          then some (write_back username observed (pending_after maximum observed current r) pruned)
          else none),
    )

unfoldable pub reserve_device_admission :
    Host → String → ℕ → ℕ → ℕ → File Ledger → Result Bool × File Ledger
unfolding reserve_body transact ledger_valid
reserve_device_admission host username max_devices online_count current file =
    if str_eq username "" || max_devices == 0
    then (err value_error, file)
    else transact ledger_valid [] (reserve_body username max_devices online_count current) host file
