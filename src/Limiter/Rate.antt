-- ===== src/Limiter/Rate.antt =====
-- How many times PBKDF2 work is granted in one window.
use hy.Prelude.{
  ℕ, ◌+◌, ◌-◌, ◌≤◌, ◌<◌, String, Bool, true, ◌≡◌, refl, ◌⊎◌, zero, suc, inl, inr, Option, none,
  some, List, [], ◌∷◌, ◌++◌, arith, leb, ◌==◌, if◌then◌else◌, length, Bool-cases, ◌||◌,
}
use hy.Limiter.{
  Limiter, prune, exhausted, tracked, granted, acceptable, try_acquire, release, released?,
  mark_released,
}
use hy.Limiter.Bounds.{Call, acquires, releases}

-- The remembered attempts from `start` on.
unfoldable pub since : ℕ → List ℕ → ℕ
since start [] = 0
since start (e ∷ events) = if leb start e then since start events + 1 else since start events

since-append :
    (start e : ℕ) (l : List ℕ) → start ≤ e → since start (l ++ e ∷ []) ≡ since start l + 1
unfolding since
since-append start e [] h = ground arith
since-append start e (x ∷ l) h = ground (arith, since-append start e l h)

since-length : (start : ℕ) (l : List ℕ) → since start l ≤ length l
unfolding since
since-length start [] = omega arith
since-length start (x ∷ l) = ground (arith, since-length start l)

since-prune :
    (start window now : ℕ) (l : List ℕ)
    → now < start + window
    → since start (prune window now l) ≡ since start l
unfolding since prune
since-prune start window now [] h = refl
since-prune start window now (x ∷ l) h = ground (arith, since-prune start window now l h)

abbrev pub grants : Option ℕ → ℕ
grants none = 0
grants (some lease) = 1

-- The acquisitions of a history that were granted.
unfoldable pub total_grants : Limiter → List Call → ℕ
total_grants l [] = 0
total_grants l (acquires source deadline now ∷ calls) =
    let r = try_acquire l source deadline now in grants r.1 + total_grants r.0 calls
total_grants l (releases lease ∷ calls) = total_grants (release l lease) calls

-- Every acquisition falls in the window from `start` on.
abbrev pub Within : ℕ → ℕ → List Call → Type 0
Within start window [] = Unit {0}
Within start window (acquires source deadline now ∷ calls) =
    (start ≤ now) × (now < start + window) × Within start window calls
Within start window (releases lease ∷ calls) = Within start window calls

-- What an acquisition does to the remembered attempts.
pub record Counted (start : ℕ) (l l' : Limiter) (count : ℕ) : Type 0 where
  pub same_burst : l'.global_burst ≡ l.global_burst
  pub same_window : l'.window ≡ l.window
  pub counted : since start l'.global_attempts ≡ since start l.global_attempts + count
  pub room : (count ≡ 0) ⊎ (since start l.global_attempts + count ≤ l.global_burst)

module _ (start : ℕ) (l : Limiter) (source : String) (deadline : Option ℕ) (now : ℕ)
    (begun : start ≤ now) (in_window : now < start + l.window) where
  try_acquire-Counted :
      Counted start l
        (try_acquire l source deadline now).0
        (grants (try_acquire l source deadline now).1)
  unfolding try_acquire
  try_acquire-Counted = elim (Bool-cases (acceptable source deadline now)) [
    | inr e ↦ rw e (ground arith)
    | inl e ↦ elim (Bool-cases (exhausted l source now || l.permits == 0)) [
      | inl full ↦
          rw (e, full)
            (unfold tracked in
              ground (arith, since-prune start l.window now l.global_attempts in_window))
      | inr free ↦
          rw (e, free)
            (unfold granted exhausted in
              ground (
                arith,
                free,
                since-prune start l.window now l.global_attempts in_window,
                since-append start now (prune l.window now l.global_attempts) begun,
                since-length start (prune l.window now l.global_attempts),
              ))
    ]
  ]

release-Counted : (start : ℕ) (l : Limiter) (lease : ℕ) → Counted start l (release l lease) 0
unfolding release
release-Counted start l lease = ground arith

total_grants_bound :
    (start : ℕ) (l : Limiter) (calls : List Call)
    → Within start l.window calls
    → total_grants l calls ≤ l.global_burst - since start l.global_attempts
unfolding total_grants
total_grants_bound start l [] w = omega arith
total_grants_bound start l (acquires source deadline now ∷ calls) w =
    let c = try_acquire-Counted start l source deadline now w.0 w.1 in
    omega (
      arith,
      c.same_burst,
      c.counted,
      c.room,
      total_grants_bound start (try_acquire l source deadline now).0 calls (rw c.same_window w.2),
    )
total_grants_bound start l (releases lease ∷ calls) w =
    let c = release-Counted start l lease in
    omega (
      arith,
      c.same_burst,
      c.counted,
      total_grants_bound start (release l lease) calls (rw c.same_window w),
    )

-- In any history whose acquisitions fall in one window of the limiter's length, wherever it begins
-- and whatever the limiter remembers, at most `global_burst` acquisitions are granted, over all
-- sources and deadlines, with releases in between.
pub try_acquire_rate :
    (start : ℕ) (l : Limiter) (calls : List Call)
    → Within start l.window calls
    → total_grants l calls ≤ l.global_burst
try_acquire_rate start l calls w = omega (arith, total_grants_bound start l calls w)

released?-mark_released : (rs : List Bool) (i : ℕ) → released? (mark_released rs i) i ≡ true
unfolding released? mark_released
released?-mark_released [] i = refl
released?-mark_released (r ∷ rs) zero = refl
released?-mark_released (r ∷ rs) (suc i) = released?-mark_released rs i

-- A lease that is released again, at once, gives no second permit back.
pub release_twice : (l : Limiter) (lease : ℕ) → release (release l lease) lease ≡ release l lease
unfolding release
release_twice l lease = elim (Bool-cases (released? l.leases lease)) [
  | inl e ↦ rw (e, e)
  | inr e ↦ rw (e, released?-mark_released l.leases lease)
]
