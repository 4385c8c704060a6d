-- ===== src/Admission/Pruning.antt =====
-- Pruning drops the stamps that are too old, and the records that are left without any.
use hy.Prelude.{
  zero, suc, ℕ, ◌+◌, ◌≤◌, ◌<◌, String, ◌≡◌, refl, inl, inr, List, [], ◌∷◌, ◌++◌, arith, Option,
  none, some, str_eq_iff, Bool-cases, keep, length, leb, if◌then◌else◌, drop,
}
use hy.Dict.{get, Distinct}
use hy.Admission.{Admissions, Ledger, is_nil, prune, live}

abbrev pub pruned_record : ℕ → Option Admissions → Option Admissions
pruned_record current none = none
pruned_record current (some r) =
    let pending = keep (live current) r.pending in
    if is_nil pending then none else some (record r { pending = pending })

prune_absent :
    (current : ℕ) (k : String) (d : Ledger) → get k d ≡ none → get k (prune current d) ≡ none
unfolding get prune
prune_absent current k [] h = refl
prune_absent current k ((j, r) ∷ d) h = ground (arith, prune_absent current k d)

pub get-prune :
    (current : ℕ) (k : String) (d : Ledger)
    → Distinct d
    → get k (prune current d) ≡ pruned_record current (get k d)
unfolding get prune
get-prune current k [] u = refl
get-prune current k ((j, r) ∷ d) u =
    ground (arith, get-prune current k d u.1, prune_absent current k d, str_eq_iff j k)

pub prune-Distinct : (current : ℕ) (d : Ledger) → Distinct d → Distinct (prune current d)
unfolding prune
prune-Distinct current [] u = tt
prune-Distinct current ((j, r) ∷ d) u = elim (Bool-cases (is_nil (keep (live current) r.pending))) [
  | inl e ↦ rw e (prune-Distinct current d u.1)
  | inr e ↦ rw e (prune_absent current j d u.0, prune-Distinct current d u.1)
]

-- How many stamps are not older than `start`.
unfoldable pub fresh : ℕ → List ℕ → ℕ
fresh start [] = 0
fresh start (s ∷ l) = if leb start s then fresh start l + 1 else fresh start l

pub fresh-le-length : (start : ℕ) (l : List ℕ) → fresh start l ≤ length l
unfolding fresh
fresh-le-length start [] = omega arith
fresh-le-length start (s ∷ l) = ground (arith, fresh-le-length start l)

pub fresh-append : (start : ℕ) (l m : List ℕ) → fresh start (l ++ m) ≡ fresh start l + fresh start m
unfolding fresh
fresh-append start [] m = omega arith
fresh-append start (s ∷ l) m = ground (arith, fresh-append start l m)

pub fresh-drop : (start n : ℕ) (l : List ℕ) → fresh start l ≤ fresh start (drop n l) + n
unfolding fresh
fresh-drop start zero l = omega arith
fresh-drop start (suc n) [] = omega arith
fresh-drop start (suc n) (s ∷ l) = ground (arith, fresh-drop start n l)

-- No stamp from `start` on is too old before `start` + TTL.
pub fresh-keep :
    (start current : ℕ) (l : List ℕ)
    → current < start + 20_000_000
    → fresh start (keep (live current) l) ≡ fresh start l
unfolding fresh keep live
fresh-keep start current [] h = refl
fresh-keep start current (s ∷ l) h = ground (arith, fresh-keep start current l h)
