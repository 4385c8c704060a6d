-- ===== src/Revocation/Leases.antt =====
-- A claimed task is leased: nobody else gets it before the lease is over.
use mathlib.Core.Path.{subst}
use hy.Prelude.{
  ℕ, ◌+◌, ◌≤◌, ◌<◌, String, true, false, ◌≡◌, refl, ap, ◌⊎◌, inl, inr, List, [], ◌∷◌, arith, Option,
  none, some, str_eq, str_eq_iff, Bool-cases, Option-cases,
}
use hy.Dict.{get, put, get-put, get-put_self, get-remove}
use hy.Store.{File, holds, Host, load_strict, ok, Result, transact_ok}
use hy.Revocation.Tasks.{
  Task, Queue, wanted, new_task, more_services, queue_valid, first_due, due, leased,
}
use hy.Revocation.{
  Call, claims, step, releases, completes, discards, claim_due, claim_body, transaction,
}
use hy.Revocation.Edits.{
  Edits, Edit, resaved, added, extended, claimed, freed, retried, completed, discarded, step-Edits,
}
use hy.Revocation.Order.{first_due-get, first_due-due}
use hy.Revocation.Soundness.{IsSound, step-IsSound, loaded-eq, Event, run, Timely}

-- The task `k` is there, and leased up to `until` at least.
abbrev pub Held : String → ℕ → Queue → Type 0
Held k until q = (t : Task) × (get k q ≡ some t) × (until ≤ t.lease_until)

-- The call does not end the lease of `k`.
abbrev pub Keeps : String → Call → Type 0
Keeps k (releases j delay) = str_eq j k ≡ false
Keeps k (completes j kick_ok stopped) = str_eq j k ≡ false
Keeps k (discards j) = str_eq j k ≡ false
Keeps k c = Unit {0}

abbrev pub Kept : String → List Event → Type 0
Kept k [] = Unit {0}
Kept k (e ∷ events) = Keeps k e.call × Kept k events

module _ (k : String) (until : ℕ) (q : Queue) (h : Held k until q) where
  put_ne-Held : (j : String) (u : Task) → str_eq j k ≡ false → Held k until (put j u q)
  put_ne-Held j u ne = (h.0, ground (arith, get-put j k u q), h.2)

  put-Held :
      (j : String) (s u : Task)
      → get j q ≡ some s
      → (until ≤ s.lease_until → until ≤ u.lease_until)
      → Held k until (put j u q)
  put-Held j s u e longer = elim (Bool-cases (str_eq j k)) [
    | inr ne ↦ put_ne-Held j u ne
    | inl eq ↦ (u, ground (arith, get-put j k u q), longer (ground (arith, (str_eq_iff j k).0 eq)))
  ]

  new-Held : (j : String) (u : Task) → get j q ≡ none → Held k until (put j u q)
  new-Held j u e = elim (Bool-cases (str_eq j k)) [
    | inr ne ↦ put_ne-Held j u ne
    | inl eq ↦ absurd (ground (arith, (str_eq_iff j k).0 eq))
  ]

more_services_lease :
    (s : Task) (services : List String) (now : ℕ)
    → (more_services services now s).lease_until ≡ s.lease_until
unfolding more_services
more_services_lease s services now = refl

leased_lease : (s : Task) (now : ℕ) → (leased now s).lease_until ≡ now + 15
unfolding leased
leased_lease s now = refl

due_lease : (s : Task) (now : ℕ) → due now s ≡ true → s.lease_until ≤ now
unfolding due
due_lease s now h = ground arith

Edit-Held :
    {now : ℕ} {q new : Queue} {c : Call} (k : String) (until : ℕ)
    → IsSound (holds q)
    → Keeps k c
    → Held k until q
    → Edit now q c new
    → Held k until new
Edit-Held k until f keeps h (resaved s e b) = h
Edit-Held {now} {q} k until f keeps h (added {k = j} {b} {services} l w e room) =
    new-Held k until q h j (new_task b (wanted services) now) e
Edit-Held {now} {q} k until f keeps h (extended {k = j} {services} s w e) =
    put-Held k until q h j s _ e (λ le. omega (arith, more_services_lease s (wanted services) now))
Edit-Held {now} {q} k until f keeps h (claimed j s e) =
    put-Held k until q h j s _ (first_due-get now q j s f.2 e)
      (λ le. omega (arith, leased_lease s now, due_lease s now (first_due-due now q j s e)))
Edit-Held {now} {q} k until f keeps h (freed {k = j} {delay} s e) =
    put_ne-Held k until q h j _ keeps
Edit-Held {now} {q} k until f keeps h (retried {k = j} s e u) = put_ne-Held k until q h j _ keeps
Edit-Held {now} {q} k until f keeps h (completed {k = j} s e u) =
    (h.0, ground (arith, get-remove j k q), h.2)
Edit-Held {now} {q} k until f keeps h (discarded {k = j} s e) =
    (h.0, ground (arith, get-remove j k q), h.2)

-- The file holds the task `k`, leased up to `until` at least.
abbrev pub Leased : String → ℕ → File Queue → Type 0
Leased k until file = (q : Queue) × (file ≡ holds q) × IsSound (holds q) × Held k until q

step-Leased :
    (host : Host) (c : Call) (now : ℕ) (k : String) (until : ℕ) (file : File Queue)
    → 0 < now
    → Keeps k c
    → Leased k until file
    → Leased k until (step host c now file)
step-Leased host c now k until file h keeps (q, e, s, held) =
    rw e (after (step-Edits host c now (holds q)))
  where
    sound : IsSound (step host c now (holds q))
    sound = step-IsSound host c now (holds q) h s

    after :
        Edits now c (holds q) (step host c now (holds q))
        → Leased k until (step host c now (holds q))
    after (inl same) = (q, same, s, held)
    after (inr (p, new, l, edit, w)) = (
      new,
      w,
      subst IsSound w sound,
      Edit-Held k until s keeps held (subst (λ r. Edit now r c new) (loaded-eq q p l) edit),
    )

run-Leased :
    (k : String) (until : ℕ) (file : File Queue) (events : List Event)
    → Timely events
    → Kept k events
    → Leased k until file
    → Leased k until (run file events)
unfolding run
run-Leased k until file [] h s l = l
run-Leased k until file (e ∷ events) h s l =
    run-Leased k until (step e.host e.call e.now file) events h.1 s.1
      (step-Leased e.host e.call e.now k until file h.0 s.0 l)

-- What a claim that returned a task has read and written.
pub claimed_lem :
    (host : Host) (now : ℕ) (file file' : File Queue) (k : String) (t : Task)
    → claim_due host now file ≡ (ok (some (k, t)), file')
    → (q : Queue) × (s : Task) × (load_strict queue_valid [] file ≡ ok q)
      × (first_due now q ≡ some (k, s))
      × (t ≡ leased now s)
      × (file' ≡ holds (put k t q))
unfolding claim_due transaction claim_body
claimed_lem host now file file' k t h =
    go (transact_ok queue_valid [] (claim_body now) host file _ file' h)
  where
    go :
        ((q : Queue) × (load_strict queue_valid [] file ≡ ok q)
          × (((claim_body now q ≡ ok (some (k, t), none)) × (file' ≡ file))
              ⊎ ((new : Queue) × (claim_body now q ≡ ok (some (k, t), some new))
                  × (file' ≡ holds new))))
        → (q : Queue) × (s : Task) × (load_strict queue_valid [] file ≡ ok q)
          × (first_due now q ≡ some (k, s))
          × (t ≡ leased now s)
          × (file' ≡ holds (put k t q))
    go (q, l, inl (b, w)) = elim (Option-cases (first_due now q)) [
      | inl e ↦ absurd (ground arith)
      | inr ((j, s), e) ↦ absurd (ground arith)
    ]
    go (q, l, inr (new, b, w)) = elim (Option-cases (first_due now q)) [
      | inl e ↦ absurd (ground arith)
      | inr ((j, s), e) ↦ (q, s, l, ground arith, ground arith, ground arith)
    ]

second_claim :
    (host : Host) (now until : ℕ) (k : String) (u : Task) (file file' : File Queue)
    → Leased k until file
    → claim_due host now file ≡ (ok (some (k, u)), file')
    → until ≤ now
second_claim host now until k u file file' (q, e, sound, (v, there, le)) second =
    let (p, r, l, first, leased_u, w) = claimed_lem host now file file' k u second in
    let same : p ≡ q = loaded-eq q p (rw e at l) in
    let first' : first_due now q ≡ some (k, r) =
      subst (λ x. first_due now x ≡ some (k, r)) same first in
    let here : get k q ≡ some r = first_due-get now q k r sound.2 first' in
    let eq : r ≡ v = cc (here, there) in
    omega
      (arith, due_lease r now (first_due-due now q k r first'), ap (λ (x : Task). x.lease_until) eq)

-- From a sound file, once a claim at `now` has returned the task `k`, any other claim that returns
-- `k` is at least 15 seconds later, whatever calls come in between at positive instants and whatever
-- their hosts do, as long as none of them releases, completes or discards `k`.
pub claim_due_exclusive :
    (host host' : Host) (now now' : ℕ) (file file1 file2 : File Queue) (events : List Event)
    (k : String) (t u : Task)
    → 0 < now
    → IsSound file
    → Timely events
    → Kept k events
    → claim_due host now file ≡ (ok (some (k, t)), file1)
    → claim_due host' now' (run file1 events) ≡ (ok (some (k, u)), file2)
    → now + 15 ≤ now'
unfolding step
claim_due_exclusive host host' now now' file file1 file2 events k t u h s timely kept first second =
    let (q, r, l, e, leased_t, w) = claimed_lem host now file file1 k t first in
    let sound : IsSound file1 =
      subst IsSound (ap (λ (x : Result (Option (String × Task)) × File Queue). x.1) first)
        (step-IsSound host claims now file h s) in
    let held : Leased k (now + 15) file1 = (
      put k t q,
      w,
      subst IsSound w sound,
      (
        t,
        get-put_self k t q,
        omega (arith, leased_lease r now, ap (λ (x : Task). x.lease_until) leased_t),
      ),
    ) in
    second_claim host' now' (now + 15) k u (run file1 events) file2
      (run-Leased k (now + 15) file1 events timely kept held) second
