-- ===== src/Admission/Burst.antt =====
-- Device limits under a burst of authentications that see a stale online count.
use mathlib.Core.Path.{subst}
use hy.Prelude.{
  ℕ, ◌+◌, ◌≤◌, ◌<◌, String, Bool, true, false, ◌≡◌, sym, inl, inr, List, [], arith, str_eq,
  str_eq_iff, Bool-cases, if◌then◌else◌,
}
use hy.Dict.{get, Distinct}
use hy.Store.{Result, ok, err, File, holds, load_strict}
use hy.Admission.{
  Ledger, prune, record_of, unreflected, admits, pending_after, write_back, ledger_valid,
}
use hy.Admission.Pruning.{get-prune, prune-Distinct, fresh-le-length}
use hy.Admission.Slots.{
  credit, credit-pruned, credit-unreflected, credit-write_back, get-write_back_ne,
  write_back-Distinct, fresh-pending_after,
}

-- The ledger accounts for `base` devices of the user at every online count from `last` on.
abbrev pub Counts : ℕ → String → ℕ → ℕ → Ledger → Type 0
Counts start user base last d =
    Distinct d × ((o : ℕ) → last ≤ o → base ≤ credit start o (get user d))

-- What a call in the window of `start` leaves in the ledger.
module _ (start current : ℕ) (in_window : current < start + 20_000_000) (user : String)
    (base last : ℕ) (d : Ledger) (counts : Counts start user base last d) where
  credit_before : (o : ℕ) → last ≤ o → base ≤ credit start o (get user (prune current d))
  credit_before o h =
      rw (get-prune current user d counts.0)
        (omega (arith, counts.1 o h, credit-pruned start o current (get user d) in_window))

  Counts-self :
      (maximum n : ℕ)
      → start ≤ current
      → last ≤ n
      → let r = record_of n (get user (prune current d)) in
        Counts start user
          (base + (if admits maximum n r then 1 else 0))
          n
          (write_back user n (pending_after maximum n current r) (prune current d))
  Counts-self maximum n begun h = (
    write_back-Distinct user n _ (prune current d) (prune-Distinct current d counts.0),
    λ o le. omega (
      arith,
      credit_before n h,
      credit-unreflected start n (get user (prune current d)),
      fresh-pending_after start maximum n current (record_of n (get user (prune current d))) begun,
      credit-write_back start o n user
          (pending_after maximum n current (record_of n (get user (prune current d))))
          (prune current d) le,
    ),
  )

  admits_room :
      (maximum n : ℕ)
      → last ≤ n
      → admits maximum n (record_of n (get user (prune current d))) ≡ true
      → base + 1 ≤ maximum
  unfolding admits
  admits_room maximum n h e = ground (
    arith,
    credit_before n h,
    credit-unreflected start n (get user (prune current d)),
    fresh-le-length start (unreflected n (record_of n (get user (prune current d)))),
  )

  Counts-other :
      (other : String) (n : ℕ) (pending : List ℕ)
      → str_eq other user ≡ false
      → Counts start user base last (write_back other n pending (prune current d))
  Counts-other other n pending ne = (
    write_back-Distinct other n pending (prune current d) (prune-Distinct current d counts.0),
    λ o le. rw (get-write_back_ne other user n pending (prune current d) ne) (credit_before o le),
  )

abbrev pub FileCounts : ℕ → String → ℕ → ℕ → File Ledger → Type 0
FileCounts start user base last file =
    (d : Ledger) → load_strict ledger_valid [] file ≡ ok d → Counts start user base last d

Counts-later :
    (start : ℕ) (user : String) (base last later : ℕ) (d : Ledger)
    → last ≤ later
    → Counts start user base last d
    → Counts start user base later d
Counts-later start user base last later d h counts = (counts.0, λ o le. counts.1 o (omega arith))

pub holds_loads : (new d : Ledger) → load_strict ledger_valid [] (holds new) ≡ ok d → d ≡ new
unfolding load_strict
holds_loads new d h = ground arith

-- One device was let in as `user`.
abbrev pub count : Result Bool → ℕ
count (ok allowed) = if allowed then 1 else 0
count (err e) = 0

abbrev pub lets_in : String → String → Result Bool → ℕ
lets_in user username r = if str_eq username user then count r else 0

-- What a call leaves, with the devices that it counts.
abbrev pub Next : ℕ → String → ℕ → ℕ → String → ℕ → ℕ → Ledger → Type 0
Next start user base last username n more =
    Counts start user (base + more) (if str_eq username user then n else last)

-- The ledger that a call writes.
abbrev pub written : ℕ → String → ℕ → ℕ → Ledger → Ledger
written current username maximum n d =
    let r = record_of n (get username (prune current d)) in
    write_back username n (pending_after maximum n current r) (prune current d)

abbrev pub let_in : ℕ → String → ℕ → ℕ → Ledger → Bool
let_in current username maximum n d =
    admits maximum n (record_of n (get username (prune current d)))

module _ (start current : ℕ) (in_window : current < start + 20_000_000) (begun : start ≤ current)
    (user : String) (base last : ℕ) (username : String) (maximum n : ℕ)
    (rising : str_eq username user ≡ true → last ≤ n) where
  pub written-Next :
      (d : Ledger)
      → Counts start user base last d
      → Next start user base last username n
          (lets_in user username (ok (let_in current username maximum n d)))
          (written current username maximum n d)
  written-Next d counts = elim (Bool-cases (str_eq username user)) [
    | inl e ↦
        let eq : username ≡ user = (str_eq_iff username user).0 e in
        rw e (
          subst
            (λ u.
              Counts start u (base + (if let_in current username maximum n d then 1 else 0)) n
                (written current username maximum n d))
            eq
            (Counts-self start current in_window username base last d
              (subst (λ u. Counts start u base last d) (sym eq) counts) maximum n begun (rising e)))
    | inr e ↦
        let other : Counts start user base last (written current username maximum n d) =
          Counts-other start current in_window user base last d counts username n _ e in
        rw e (other.0, λ o le. omega (arith, other.1 o le))
  ]

  -- A call that changes nothing lets nobody in.
  pub same-Next :
      (d : Ledger) → Counts start user base last d → Next start user base last username n 0 d
  same-Next d counts = (counts.0, λ o le. ground (arith, counts.1 o, rising))

  pub let_in_room :
      (d : Ledger)
      → Counts start user base last d
      → str_eq username user ≡ true
      → let_in current username maximum n d ≡ true
      → base + 1 ≤ maximum
  let_in_room d counts e admitted =
      let eq : username ≡ user = (str_eq_iff username user).0 e in
      admits_room start current in_window username base last d
        (subst (λ u. Counts start u base last d) (sym eq) counts) maximum n (rising e) admitted
