-- ===== src/Admission/Slots.antt =====
-- How many devices `reserve_device_admission` lets in while their stamps are live.
use hy.Prelude.{
  ℕ, ◌+◌, ◌-◌, ◌≤◌, ◌<◌, String, true, false, ◌≡◌, refl, inl, inr, List, [], ◌∷◌, arith, Option,
  none, some, str_eq, str_eq_refl, Bool-cases, keep, length, if◌then◌else◌, min,
}
use hy.Dict.{get, Distinct, get-put, get-remove, put-Distinct, remove-Distinct}
use hy.Admission.{
  Admissions, Ledger, is_nil, live, record_of, observed_or, unreflected, admits, pending_after,
  write_back,
}
use hy.Admission.Pruning.{pruned_record, fresh, fresh-append, fresh-drop, fresh-keep}

-- The devices that are accounted for, once the online count is `o`: those it shows, and the stamps
-- from `start` on that it does not show yet.
abbrev pub credit : ℕ → ℕ → Option Admissions → ℕ
credit start o none = o
credit start o (some r) = o + (fresh start r.pending - (o - observed_or o r.observed))

is_nil-fresh : (start : ℕ) (l : List ℕ) → is_nil l ≡ true → fresh start l ≡ 0
unfolding fresh
is_nil-fresh start [] h = refl
is_nil-fresh start (x ∷ l) h = absurd (ground arith)

pub credit-pruned :
    (start o current : ℕ) (r : Option Admissions)
    → current < start + 20_000_000
    → credit start o (pruned_record current r) ≡ credit start o r
credit-pruned start o current none h = refl
credit-pruned start o current (some r) h = ground (
  arith,
  fresh-keep start current r.pending h,
  is_nil-fresh start (keep (live current) r.pending),
)

pub credit-unreflected :
    (start n : ℕ) (r : Option Admissions)
    → credit start n r ≤ n + fresh start (unreflected n (record_of n r))
unfolding unreflected record_of fresh
credit-unreflected start n none = omega arith
credit-unreflected start n (some r) =
    omega
      (arith, fresh-drop start (min (n - observed_or n r.observed) (length r.pending)) r.pending)

pub credit-write_back :
    (start o n : ℕ) (user : String) (pending : List ℕ) (d : Ledger)
    → n ≤ o
    → n + fresh start pending ≤ credit start o (get user (write_back user n pending d))
unfolding write_back
credit-write_back start o n user pending d h = elim (Bool-cases (is_nil pending)) [
  | inl e ↦
      rw (e, get-remove user user d, str_eq_refl user) (omega (arith, is_nil-fresh start pending e))
  | inr e ↦
      rw
        (e, get-put user user (record { observed = some n; pending = pending }) d, str_eq_refl user)
        (unfold observed_or in omega arith)
]

pub get-write_back_ne :
    (user k : String) (n : ℕ) (pending : List ℕ) (d : Ledger)
    → str_eq user k ≡ false
    → get k (write_back user n pending d) ≡ get k d
unfolding write_back
get-write_back_ne user k n pending d ne =
    ground (
      arith,
      get-remove user k d,
      get-put user k (record { observed = some n; pending = pending }) d,
    )

pub write_back-Distinct :
    (user : String) (n : ℕ) (pending : List ℕ) (d : Ledger)
    → Distinct d
    → Distinct (write_back user n pending d)
unfolding write_back
write_back-Distinct user n pending d u = elim (Bool-cases (is_nil pending)) [
  | inl e ↦ rw e (remove-Distinct user d u)
  | inr e ↦ rw e (put-Distinct user (record { observed = some n; pending = pending }) d u)
]

pub fresh-pending_after :
    (start maximum n current : ℕ) (r : Admissions)
    → start ≤ current
    → fresh start (pending_after maximum n current r)
      ≡ fresh start (unreflected n r) + (if admits maximum n r then 1 else 0)
unfolding pending_after fresh
fresh-pending_after start maximum n current r h =
    ground (arith, fresh-append start (unreflected n r) (current ∷ []))
