-- ===== src/Revocation/Edits.antt =====
-- The queue's operations as a step relation on its tasks.
use mathlib.Core.Path.{subst}
use hy.Prelude.{
  ℕ, ◌<◌, String, Bool, true, false, ◌≡◌, ◌⊎◌, inl, inr, Option, none, some, List, [], ◌∷◌, arith,
  ◌==◌, length, Option-cases, List-cases, Bool-cases,
}
use hy.Dict.{get, put, remove}
use hy.Text.{len}
use hy.Store.{Result, ok, File, holds, Host, load_strict, transact_atomic}
use hy.Revocation.Tasks.{
  Task, Queue, Binding, allowed, queue_valid, bound_to, wanted, new_task, more_services, first_due,
  leased, released, attempted, finished, rescheduled,
}
use hy.Revocation.{
  transaction, prepare_body, prepare, add_services_body, add_static_services, claim_body, claim_due,
  release_body, release_claim, complete_body, complete_attempt, discard_body, discard, Call,
  prepares, adds, claims, releases, completes, discards, step, Attempt,
}

pub data Edit (now : ℕ) (q : Queue) : Call → Queue → Type 0 where
  resaved :
      {k : String} {b : Binding} {services : List String} (t : Task)
      → get k q ≡ some t
      → bound_to b t ≡ ok true
      → Edit now q (prepares k b services) q
  added :
      {k : String} {b : Binding} {services : List String}
      → (len k == 64) ≡ true
      → allowed (wanted services) ≡ true
      → get k q ≡ none
      → length q < 512
      → Edit now q (prepares k b services) (put k (new_task b (wanted services) now) q)
  extended :
      {k : String} {services : List String} (t : Task)
      → allowed (wanted services) ≡ true
      → get k q ≡ some t
      → Edit now q (adds k services) (put k (more_services (wanted services) now t) q)
  claimed :
      (k : String) (t : Task)
      → first_due now q ≡ some (k, t)
      → Edit now q claims (put k (leased now t) q)
  freed :
      {k : String} {delay : ℕ} (t : Task)
      → get k q ≡ some t
      → Edit now q (releases k delay) (put k (released delay now t) q)
  retried :
      {k : String} {kick_ok : Bool} {stopped : List String} (t : Task)
      → get k q ≡ some t
      → finished (attempted kick_ok stopped t) ≡ false
      → Edit now q
          (completes k kick_ok stopped)
          (put k (rescheduled kick_ok now (attempted kick_ok stopped t)) q)
  completed :
      {k : String} {kick_ok : Bool} {stopped : List String} (t : Task)
      → get k q ≡ some t
      → finished (attempted kick_ok stopped t) ≡ true
      → Edit now q (completes k kick_ok stopped) (remove k q)
  discarded : {k : String} (t : Task) → get k q ≡ some t → Edit now q (discards k) (remove k q)

module _ {now : ℕ} {q new : Queue} where
  prepare_body-Edit :
      (k : String) (b : Binding) (services : List String) {a : Task}
      → (len k == 64) ≡ true
      → allowed (wanted services) ≡ true
      → prepare_body k b (wanted services) now q ≡ ok (a, some new)
      → Edit now q (prepares k b services) new
  unfolding prepare_body
  prepare_body-Edit k b services l w h = elim (Option-cases (get k q)) [
    | inl e ↦ subst (Edit now q (prepares k b services)) (ground arith) (added l w e (ground arith))
    | inr (t, e) ↦
        subst (Edit now q (prepares k b services)) (ground arith) (resaved t e (ground arith))
  ]

  add_services_body-Edit :
      (k : String) (services : List String) {a : Bool}
      → allowed (wanted services) ≡ true
      → add_services_body k (wanted services) now q ≡ ok (a, some new)
      → Edit now q (adds k services) new
  unfolding add_services_body
  add_services_body-Edit k services w h = elim (Option-cases (get k q)) [
    | inl e ↦ absurd (ground arith)
    | inr (t, e) ↦ subst (Edit now q (adds k services)) (ground arith) (extended t w e)
  ]

  claim_body-Edit :
      {a : Option (String × Task)} → claim_body now q ≡ ok (a, some new) → Edit now q claims new
  unfolding claim_body
  claim_body-Edit h = elim (Option-cases (first_due now q)) [
    | inl e ↦ absurd (ground arith)
    | inr ((k, t), e) ↦ subst (Edit now q claims) (ground arith) (claimed k t e)
  ]

  release_body-Edit :
      (k : String) (delay : ℕ) {a : Bool}
      → release_body k delay now q ≡ ok (a, some new)
      → Edit now q (releases k delay) new
  unfolding release_body
  release_body-Edit k delay h = elim (Option-cases (get k q)) [
    | inl e ↦ absurd (ground arith)
    | inr (t, e) ↦ subst (Edit now q (releases k delay)) (ground arith) (freed t e)
  ]

  complete_body-Edit :
      (k : String) (kick_ok : Bool) (stopped : List String) {a : Attempt}
      → complete_body k kick_ok stopped now q ≡ ok (a, some new)
      → Edit now q (completes k kick_ok stopped) new
  unfolding complete_body
  complete_body-Edit k kick_ok stopped h = elim (Option-cases (get k q)) [
    | inl e ↦ absurd (ground arith)
    | inr (t, e) ↦ elim (Bool-cases (finished (attempted kick_ok stopped t))) [
      | inl f ↦ subst (Edit now q (completes k kick_ok stopped)) (ground arith) (completed t e f)
      | inr f ↦ subst (Edit now q (completes k kick_ok stopped)) (ground arith) (retried t e f)
    ]
  ]

  discard_body-Edit :
      (k : String) {a : Unit {0}}
      → discard_body k q ≡ ok (a, some new)
      → Edit now q (discards k) new
  unfolding discard_body
  discard_body-Edit k h = elim (Option-cases (get k q)) [
    | inl e ↦ absurd (ground arith)
    | inr (t, e) ↦ subst (Edit now q (discards k)) (ground arith) (discarded t e)
  ]

-- The file is left alone, or the tasks that it held are replaced by one edit of the call.
abbrev pub Edits : ℕ → Call → File Queue → File Queue → Type 0
Edits now c file file' =
    (file' ≡ file)
    ⊎ ((q : Queue) × (new : Queue) × (load_strict queue_valid [] file ≡ ok q)
        × Edit now q c new
        × (file' ≡ holds new))

module _ {A : Type 0} (now : ℕ) (c : Call) (body : Queue → Result (A × Option Queue))
    (edit : (q new : Queue) (a : A) → body q ≡ ok (a, some new) → Edit now q c new) where
  transaction-Edits :
      (host : Host) (file : File Queue) → Edits now c file (transaction body host file).1
  unfolding transaction
  transaction-Edits host file = elim (transact_atomic queue_valid [] body host file) [
    | inl same ↦ inl same
    | inr (q, a, new, l, e, w) ↦ inr (q, new, l, edit q new a e, w)
  ]

prepare-Edits :
    (host : Host) (k : String) (b : Binding) (services : List String) (now : ℕ) (file : File Queue)
    → Edits now (prepares k b services) file (prepare host k b services now file).1
unfolding prepare
prepare-Edits host k b services now file = elim (Bool-cases (len k == 64)) [
  | inr l ↦ inl (rw l)
  | inl l ↦ elim (Bool-cases (allowed (wanted services))) [
    | inr w ↦ inl (rw (l, w))
    | inl w ↦
        rw (l, w)
          (transaction-Edits now (prepares k b services) (prepare_body k b (wanted services) now)
            (λ q new a. prepare_body-Edit k b services l w) host file)
  ]
]

add_static_services-Edits :
    (host : Host) (k : String) (services : List String) (now : ℕ) (file : File Queue)
    → Edits now (adds k services) file (add_static_services host k services now file).1
unfolding add_static_services
add_static_services-Edits host k services now file = elim (List-cases (wanted services)) [
  | inl e ↦ inl (rw (e, add_static_services))
  | inr (s, more, e) ↦ elim (Bool-cases (allowed (s ∷ more))) [
    | inr w ↦ inl (rw (e, add_static_services, w))
    | inl w ↦
        rw (e, add_static_services, w)
          (transaction-Edits now (adds k services) (add_services_body k (s ∷ more) now)
            (λ q new a h. add_services_body-Edit k services {a = a} (rw e w) (rw e h)) host file)
  ]
]

-- Every operation, on every outcome of its host, leaves the file as it was or makes one edit of the
-- step relation, on the tasks that a valid file held.
pub step-Edits :
    (host : Host) (c : Call) (now : ℕ) (file : File Queue) → Edits now c file (step host c now file)
unfolding step claim_due release_claim complete_attempt discard
step-Edits host (prepares k b services) now file = prepare-Edits host k b services now file
step-Edits host (adds k services) now file = add_static_services-Edits host k services now file
step-Edits host claims now file =
    transaction-Edits now claims (claim_body now) (λ q new a. claim_body-Edit) host file
step-Edits host (releases k delay) now file =
    transaction-Edits now (releases k delay) (release_body k delay now)
      (λ q new a. release_body-Edit k delay) host file
step-Edits host (completes k kick_ok stopped) now file =
    transaction-Edits now (completes k kick_ok stopped) (complete_body k kick_ok stopped now)
      (λ q new a. complete_body-Edit k kick_ok stopped) host file
step-Edits host (discards k) now file =
    transaction-Edits now (discards k) (discard_body k) (λ q new a. discard_body-Edit k) host file
