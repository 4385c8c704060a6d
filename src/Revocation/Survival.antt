-- ===== src/Revocation/Survival.antt =====
-- A pending task leaves the queue only by `discard` or by a second successful kick.
use mathlib.Core.Path.{subst}
use hy.Prelude.{
  ◌∙◌, ℕ, ◌≤◌, ◌<◌, String, Bool, true, false, ◌≡◌, refl, ◌⊎◌, inl, inr, List, [], ◌∷◌, arith, not,
  none, some, str_eq, str_eq_iff, str_eq_refl, Bool-cases, keep, all, ap,
}
use hy.Dict.{get, put, remove, get-put, get-remove}
use hy.Text.{contains}
use hy.Store.{File, holds, Host}
use hy.Revocation.Tasks.{
  Task, Queue, wanted, new_task, more_services, leased, released, attempted, rescheduled, finished,
  is_empty,
}
use hy.Revocation.{Call, step, completes, discards}
use hy.Revocation.Edits.{
  Edit, resaved, added, extended, claimed, freed, retried, completed, discarded, step-Edits,
}
use hy.Revocation.Order.{first_due-get}
use hy.Revocation.Soundness.{Fits, Edit-Fits, loaded-eq, Event, run, Timely}

-- What no operation changes in a task.
pub record Same (t u : Task) : Type 0 where
  pub user : u.user ≡ t.user
  pub previous_generation : u.previous_generation ≡ t.previous_generation
  pub target_generation : u.target_generation ≡ t.target_generation
  pub created_at : u.created_at ≡ t.created_at

-- The calls that take the task `k` out of the queue while it is `t`.
pub data Leaves (k : String) (t : Task) : Call → Type 0 where
  by_discard : {c : Call} → c ≡ discards k → Leaves k t c
  by_completion :
      {c : Call} (stopped : List String)
      → c ≡ completes k true stopped
      → 1 ≤ t.kick_successes
      → all (λ s. contains s stopped) t.static_services ≡ true
      → Leaves k t c

abbrev pub Pending : String → Task → Queue → Type 0
Pending k t q = (u : Task) × (get k q ≡ some u) × Same t u

module _ (q : Queue) (k : String) (t : Task) (here : get k q ≡ some t) where
  put-Pending : (j : String) (s u : Task) → get j q ≡ some s → Same s u → Pending k t (put j u q)
  put-Pending j s u e same = elim (Bool-cases (str_eq j k)) [
    | inl eq ↦ (u, ground (arith, get-put j k u q), ground (arith, str_eq_iff j k))
    | inr ne ↦ (
      t,
      ground (arith, get-put j k u q),
      record {
        user = refl;
        previous_generation = refl;
        target_generation = refl;
        created_at = refl;
      },
    )
  ]

all_stopped :
    (stopped services : List String)
    → is_empty (keep (λ s. not (contains s stopped)) services) ≡ true
    → all (λ s. contains s stopped) services ≡ true
unfolding keep all
all_stopped stopped [] h = refl
all_stopped stopped (s ∷ services) h = ground (arith, all_stopped stopped services)

finished-Leaves :
    (k j : String) (t : Task) (kick_ok : Bool) (stopped : List String)
    → j ≡ k
    → finished (attempted kick_ok stopped t) ≡ true
    → Leaves k t (completes j kick_ok stopped)
unfolding finished attempted
finished-Leaves k j t true stopped e h =
    by_completion stopped (ap (λ i. completes i true stopped) e) (ground arith)
      (all_stopped stopped t.static_services (ground arith))
finished-Leaves k j t false stopped e h = absurd (ground arith)

Same-refl : (t : Task) → Same t t
Same-refl t = record {
  user = refl;
  previous_generation = refl;
  target_generation = refl;
  created_at = refl;
}

more_services-Same :
    (s : Task) (services : List String) (now : ℕ) → Same s (more_services services now s)
unfolding more_services
more_services-Same s services now = ground arith

leased-Same : (s : Task) (now : ℕ) → Same s (leased now s)
unfolding leased
leased-Same s now = ground arith

released-Same : (s : Task) (delay now : ℕ) → Same s (released delay now s)
unfolding released
released-Same s delay now = ground arith

retried-Same :
    (s : Task) (kick_ok : Bool) (stopped : List String) (now : ℕ)
    → Same s (rescheduled kick_ok now (attempted kick_ok stopped s))
unfolding rescheduled attempted
retried-Same s kick_ok stopped now = ground arith

remove-Pending :
    (q : Queue) (k j : String) (t : Task)
    → get k q ≡ some t
    → str_eq j k ≡ false
    → Pending k t (remove j q)
remove-Pending q k j t here ne = (t, ground (arith, get-remove j k q), Same-refl t)

absent-ne :
    (q : Queue) (k j : String) (t : Task) → get k q ≡ some t → get j q ≡ none → str_eq j k ≡ false
absent-ne q k j t here e = elim (Bool-cases (str_eq j k)) [
  | inl eq ↦ absurd (cc (here, e, ap (λ i. get i q) ((str_eq_iff j k).0 eq)))
  | inr ne ↦ ne
]

-- Every edit keeps the task `k` pending, or is one of the two that take it out.
Edit-Pending :
    {now : ℕ} {q new : Queue} {c : Call} (k : String) (t : Task)
    → Fits q
    → get k q ≡ some t
    → Edit now q c new
    → Pending k t new ⊎ Leaves k t c
Edit-Pending k t f here (resaved s e b) = inl (t, here, Same-refl t)
Edit-Pending {now} {q} k t f here (added {k = j} {b} {services} l w e room) = inl (
  t,
  ground (arith, get-put j k (new_task b (wanted services) now) q, absent-ne q k j t here e),
  Same-refl t,
)
Edit-Pending {now} {q} k t f here (extended {k = j} {services} s w e) =
    inl (put-Pending q k t here j s _ e (more_services-Same s (wanted services) now))
Edit-Pending {now} {q} k t f here (claimed j s e) =
    inl (put-Pending q k t here j s _ (first_due-get now q j s f.2 e) (leased-Same s now))
Edit-Pending {now} {q} k t f here (freed {k = j} {delay} s e) =
    inl (put-Pending q k t here j s _ e (released-Same s delay now))
Edit-Pending {now} {q} k t f here (retried {k = j} {kick_ok} {stopped} s e u) =
    inl (put-Pending q k t here j s _ e (retried-Same s kick_ok stopped now))
Edit-Pending {now} {q} k t f here (completed {k = j} {kick_ok} {stopped} s e u) =
    elim (Bool-cases (str_eq j k)) [
      | inl eq ↦ inr (
          finished-Leaves k j t kick_ok stopped ((str_eq_iff j k).0 eq)
            (ground (arith, u, e, here, (str_eq_iff j k).0 eq)))
      | inr ne ↦ inl (remove-Pending q k j t here ne)
    ]
Edit-Pending {now} {q} k t f here (discarded {k = j} s e) = elim (Bool-cases (str_eq j k)) [
  | inl eq ↦ inr (by_discard (ap discards ((str_eq_iff j k).0 eq)))
  | inr ne ↦ inl (remove-Pending q k j t here ne)
]

-- The file holds the task `k` still.
abbrev pub Stays : String → Task → File Queue → Type 0
Stays k t file = (new : Queue) × (file ≡ holds new) × Fits new × Pending k t new

Pending-trans :
    (k : String) (t : Task) (q : Queue) (u : Task) → Same t u → Pending k u q → Pending k t q
Pending-trans k t q u same (v, e, more) = (
  v,
  e,
  record {
    user = more.user ∙ same.user;
    previous_generation = more.previous_generation ∙ same.previous_generation;
    target_generation = more.target_generation ∙ same.target_generation;
    created_at = more.created_at ∙ same.created_at;
  },
)

-- A call at a positive instant, whatever its host does, leaves a task of a sound file in it, bound
-- to the same user and generations, unless the call discards that task or completes it: a kick that
-- succeeded after an earlier success, when every static service of the task has been stopped.
pub step-Stays :
    (host : Host) (c : Call) (now : ℕ) (k : String) (t : Task) (q : Queue)
    → 0 < now
    → Fits q
    → get k q ≡ some t
    → Stays k t (step host c now (holds q)) ⊎ Leaves k t c
step-Stays host c now k t q h f here = elim (step-Edits host c now (holds q)) [
  | inl same ↦ inl (q, same, f, (t, here, Same-refl t))
  | inr (p, new, l, e, w) ↦
      let eq : p ≡ q = loaded-eq q p l in
      let e' : Edit now q c new = subst (λ r. Edit now r c new) eq e in
      elim (Edit-Pending k t f here e') [
        | inl pending ↦ inl (new, w, Edit-Fits h f e', pending)
        | inr leaves ↦ inr leaves
      ]
]

-- The call is neither a discard of `k` nor a successful kick for it.
abbrev pub Spares : String → Call → Type 0
Spares k (discards j) = str_eq j k ≡ false
Spares k (completes j true stopped) = str_eq j k ≡ false
Spares k c = Unit {0}

abbrev pub Spared : String → List Event → Type 0
Spared k [] = Unit {0}
Spared k (e ∷ events) = Spares k e.call × Spared k events

Spares-Leaves : (k : String) (t : Task) (c : Call) → Spares k c → Leaves k t c → ⊥
Spares-Leaves k t c s (by_discard e) =
    let same : str_eq k k ≡ false = subst (Spares k) e s in cc (str_eq_refl k)
Spares-Leaves k t c s (by_completion stopped e n a) =
    let same : str_eq k k ≡ false = subst (Spares k) e s in cc (str_eq_refl k)

-- Over a history at positive instants that neither discards the task nor records a successful kick
-- for it, a task of a sound file stays in it, bound to the same user and generations.
pub run-Stays :
    (k : String) (t : Task) (q : Queue) (events : List Event)
    → Timely events
    → Spared k events
    → Fits q
    → get k q ≡ some t
    → Stays k t (run (holds q) events)
unfolding run
run-Stays k t q [] h s f here = (q, refl, f, (t, here, Same-refl t))
run-Stays k t q (e ∷ events) h s f here = elim (step-Stays e.host e.call e.now k t q h.0 f here) [
  | inr leaves ↦ absurd (Spares-Leaves k t e.call s.0 leaves)
  | inl (p, w, fits, (u, there, same)) ↦
      let (r, w', fits', pending) = run-Stays k u p events h.1 s.1 fits there in
      (r, rw w w', fits', Pending-trans k t r u same pending)
]
