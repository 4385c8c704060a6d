-- ===== src/Admission/History.antt =====
-- Histories of calls within the time to live of one admission.
use mathlib.Core.Path.{subst}
use hy.Prelude.{
  ℕ, ◌+◌, ◌-◌, ◌≤◌, ◌<◌, String, Bool, true, ◌≡◌, sym, ◌⊎◌, inl, inr, List, [], ◌∷◌, arith, Option,
  none, some, str_eq, if◌then◌else◌,
}
use hy.Dict.{get, Distinct}
use hy.Store.{Result, ok, err, File, holds, absent, corrupt, raises, Host, load_strict}
use hy.Admission.Slots.{credit}
use hy.Admission.{Admissions, Ledger, reserve_device_admission}
use hy.Admission.Burst.{Counts, FileCounts, holds_loads, lets_in}
use hy.Admission.Limit.{call-Accounts}

pub record Attempt : Type 0 where
  pub host : Host
  pub username : String
  pub max_devices : ℕ
  pub online_count : ℕ
  pub current : ℕ

abbrev attempt : Attempt → File Ledger → Result Bool × File Ledger
attempt a file =
    reserve_device_admission a.host a.username a.max_devices a.online_count a.current file

-- How many calls of a history let the user in.
unfoldable pub admitted : String → File Ledger → List Attempt → ℕ
admitted user file [] = 0
admitted user file (a ∷ attempts) =
    let r = attempt a file in lets_in user a.username r.0 + admitted user r.1 attempts

-- The calls fall in the 20 seconds from `start` on, and those for the user give one limit and an
-- online count that does not fall below the last one.
abbrev pub Window : ℕ → String → ℕ → ℕ → List Attempt → Type 0
Window start user limit last [] = Unit {0}
Window start user limit last (a ∷ attempts) =
    (start ≤ a.current)
    × (a.current < start + 20_000_000)
    × (str_eq a.username user ≡ true → a.max_devices ≡ limit)
    × (str_eq a.username user ≡ true → last ≤ a.online_count)
    × Window start user limit (if str_eq a.username user then a.online_count else last) attempts

lets_in_cases :
    (user username : String) (r : Result Bool)
    → (lets_in user username r ≡ 0)
      ⊎ ((lets_in user username r ≡ 1) × (str_eq username user ≡ true))
lets_in_cases user username (err f) = ground arith
lets_in_cases user username (ok a) = ground arith

admitted_bound :
    (start : ℕ) (user : String) (limit base last : ℕ) (file : File Ledger) (attempts : List Attempt)
    → Window start user limit last attempts
    → FileCounts start user base last file
    → admitted user file attempts ≤ limit - base
unfolding admitted
admitted_bound start user limit base last file [] w counts = omega arith
admitted_bound start user limit base last file (a ∷ attempts) w counts =
    let m : ℕ = lets_in user a.username (attempt a file).0 in
    let accounts =
      call-Accounts start a.current w.1 w.0 user base last a.username a.max_devices a.online_count
        w.3 a.host file counts in
    let rest =
      admitted_bound start user limit (base + m)
        (if str_eq a.username user then a.online_count else last) (attempt a file).1 attempts w.4
        accounts.0 in
    elim (lets_in_cases user a.username (attempt a file).0) [
      | inl nobody ↦ omega (arith, rest, nobody)
      | inr (one, same) ↦ omega (arith, rest, one, accounts.1 one, w.2 same)
    ]

-- A ledger file is a JSON object: its keys are distinct.
abbrev pub IsObject : File Ledger → Type 0
IsObject (holds d) = Distinct d
IsObject file = Unit {0}

credit_ge : (start o : ℕ) (r : Option Admissions) → o ≤ credit start o r
credit_ge start o none = omega arith
credit_ge start o (some r) = omega arith

IsObject-Counts :
    (start : ℕ) (user : String) (first : ℕ) (file : File Ledger)
    → IsObject file
    → FileCounts start user first first file
unfolding load_strict
IsObject-Counts start user first absent u d l = (ground (arith, tt), λ o le. ground arith)
IsObject-Counts start user first corrupt u d l = absurd (ground arith)
IsObject-Counts start user first (raises f) u d l = absurd (ground arith)
IsObject-Counts start user first (holds p) u d l =
    subst (Counts start user first first) (sym (holds_loads p d l))
      (u, λ o le. omega (arith, credit_ge start o (get user p)))

-- Whatever the ledger holds and whatever the host does to each call, over any history of calls for
-- any users within the 20 seconds from `start` on, in which the calls for one user have one limit and
-- see an online count that starts at `first` or above and never falls: the calls that let that user
-- in are at most `limit - first`, so concurrent authentications never pass the device limit.
pub reserve_device_admission_limit :
    (start : ℕ) (user : String) (limit first : ℕ) (file : File Ledger) (attempts : List Attempt)
    → IsObject file
    → Window start user limit first attempts
    → admitted user file attempts ≤ limit - first
reserve_device_admission_limit start user limit first file attempts object w =
    admitted_bound start user limit first first file attempts w
      (IsObject-Counts start user first file object)
