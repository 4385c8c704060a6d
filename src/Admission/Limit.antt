-- ===== src/Admission/Limit.antt =====
-- The device limit over a whole window of calls, with the file, its lock and its faults.
use mathlib.Core.Path.{subst}
use hy.Prelude.{
  ℕ, ◌+◌, ◌≤◌, ◌<◌, String, Bool, true, false, ◌≡◌, sym, ap, ◌⊎◌, inl, inr, [], arith, none, some,
  str_eq, Bool-cases, ◌||◌, ◌==◌,
}
use hy.Store.{
  value_error, Fault, Result, ok, err, File, holds, Host, load_strict, transact, transact_atomic,
  transact_ok, Result-cases,
}
use hy.Admission.{Ledger, reserve_body, reserve_device_admission, ledger_valid}
use hy.Admission.Burst.{
  FileCounts, holds_loads, lets_in, Next, written, let_in, written-Next, same-Next, let_in_room,
}

module _ (username : String) (maximum n current : ℕ) (d : Ledger) where
  body_written :
      {a : Bool} {new : Ledger}
      → reserve_body username maximum n current d ≡ ok (a, some new)
      → (a ≡ let_in current username maximum n d) × (new ≡ written current username maximum n d)
  unfolding reserve_body
  body_written h = (ground arith, ground arith)

  body_silent : {a : Bool} → reserve_body username maximum n current d ≡ ok (a, none) → a ≡ false
  unfolding reserve_body
  body_silent h = ground arith

abbrev pub FileNext : ℕ → String → ℕ → ℕ → String → ℕ → ℕ → File Ledger → Type 0
FileNext start user base last username n more file =
    (d : Ledger)
    → load_strict ledger_valid [] file ≡ ok d
    → Next start user base last username n more d

module _ (start current : ℕ) (in_window : current < start + 20_000_000) (begun : start ≤ current)
    (user : String) (base last : ℕ) (username : String) (maximum n : ℕ)
    (rising : str_eq username user ≡ true → last ≤ n) (host : Host) (file : File Ledger)
    (counts : FileCounts start user base last file) where
  -- The transaction of the call.
  abbrev section_of : Result Bool × File Ledger
  section_of = transact ledger_valid [] (reserve_body username maximum n current) host file

  silent : FileNext start user base last username n 0 file
  silent d l =
      same-Next start current in_window begun user base last username maximum n rising d
        (counts d l)

  wrote :
      (d : Ledger)
      → load_strict ledger_valid [] file ≡ ok d
      → FileNext start user base last username n
          (lets_in user username (ok (let_in current username maximum n d)))
          (holds (written current username maximum n d))
  wrote d l d' l' = subst (Next start user base last username n _) (sym (holds_loads _ d' l')) (
      written-Next start current in_window begun user base last username maximum n rising d
        (counts d l))

  no_room : lets_in user username (ok false) ≡ 0
  no_room = ground arith

  room :
      (d : Ledger)
      → load_strict ledger_valid [] file ≡ ok d
      → lets_in user username (ok (let_in current username maximum n d)) ≡ 1
      → base + 1 ≤ maximum
  room d l e = elim (Bool-cases (str_eq username user)) [
    | inl eq ↦
        let_in_room start current in_window begun user base last username maximum n rising d
          (counts d l) eq (ground arith)
    | inr ne ↦ absurd (ground arith)
  ]

  returned :
      (a : Bool)
      → section_of ≡ (ok a, section_of.1)
      → FileNext start user base last username n (lets_in user username (ok a)) section_of.1
        × (lets_in user username (ok a) ≡ 1 → base + 1 ≤ maximum)
  returned a e = go (
      transact_ok ledger_valid [] (reserve_body username maximum n current) host file a section_of.1
        e)
    where
      go :
          ((d : Ledger) × (load_strict ledger_valid [] file ≡ ok d)
            × (((reserve_body username maximum n current d ≡ ok (a, none)) × (section_of.1 ≡ file))
                ⊎ ((new : Ledger) × (reserve_body username maximum n current d ≡ ok (a, some new))
                    × (section_of.1 ≡ holds new))))
          → FileNext start user base last username n (lets_in user username (ok a)) section_of.1
            × (lets_in user username (ok a) ≡ 1 → base + 1 ≤ maximum)
      go (d, l, inl (b, w)) =
          let refused : a ≡ false = body_silent username maximum n current d b in
          rw (refused, no_room, w) (silent, λ one. absurd (omega arith))
      go (d, l, inr (new, b, w)) =
          let (eq, eq') = body_written username maximum n current d b in
          rw (eq, w, eq') (wrote d l, room d l)

  raised : FileNext start user base last username n 0 section_of.1
  raised =
      elim (transact_atomic ledger_valid [] (reserve_body username maximum n current) host file) [
        | inl same ↦ rw same silent
        | inr (d, a, new, l, b, w) ↦
            rw (w, (body_written username maximum n current d b).1)
              (λ d' l'.
                let next : Next start user base last username n _ d' = wrote d l d' l' in
                (next.0, λ o le. omega (arith, next.1 o le)))
      ]

  -- What a call leaves accounts for the device that it let in, if any, and it lets one in only
  -- within the limit.
  abbrev pub Accounts : Result Bool × File Ledger → Type 0
  Accounts r =
      FileNext start user base last username n (lets_in user username r.0) r.1
      × (lets_in user username r.0 ≡ 1 → base + 1 ≤ maximum)

  quiet :
      (f : Fault) (file' : File Ledger)
      → FileNext start user base last username n 0 file'
      → Accounts (err f, file')
  quiet f file' next = rw (no_device f) (next, λ one. absurd (omega arith))
    where
      no_device : (f : Fault) → lets_in user username (err f) ≡ 0
      no_device f = ground arith

  section-Accounts : Accounts section_of
  section-Accounts = elim (Result-cases section_of.0) [
    | inl (a, r) ↦
        let whole : section_of ≡ (ok a, section_of.1) = ap (λ x. (x, section_of.1)) r in
        subst Accounts (sym whole) (returned a whole)
    | inr (f, r) ↦
        let whole : section_of ≡ (err f, section_of.1) = ap (λ x. (x, section_of.1)) r in
        subst Accounts (sym whole) (quiet f section_of.1 raised)
  ]

  pub call-Accounts : Accounts (reserve_device_admission host username maximum n current file)
  unfolding reserve_device_admission
  call-Accounts = elim (Bool-cases (str_eq username "" || maximum == 0)) [
    | inl e ↦ rw e (quiet value_error file silent)
    | inr e ↦ rw e section-Accounts
  ]
