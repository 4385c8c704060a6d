-- ===== src/Revocation/Soundness.antt =====
-- What the queue saves, it can load again; and it never holds more than its capacity.
use hy.Prelude.{
  ℕ, ◌≤◌, ◌<◌, String, Bool, true, ◌≡◌, refl, inl, inr, List, [], ◌∷◌, ◌++◌, arith, length,
  all-append, all-keep, not, ◌==◌, some,
}
use hy.Dict.{
  Distinct, put-Distinct, remove-Distinct, get, put, remove, length-put-le, length-put,
  length-remove-le, all_items-put, all_items-remove, all_items-get,
}
use hy.Text.{len, contains, all-sorted_set}
use hy.Store.{File, absent, corrupt, raises, holds, Host, load_strict, ok}
use hy.Revocation.Tasks.{
  Task, Queue, Binding, allowed, allowed_static_services, task_valid, queue_valid, wanted, new_task,
  more_services, leased, released, attempted, rescheduled,
}
use hy.Revocation.{Call, step}
use hy.Revocation.Edits.{
  Edit, resaved, added, extended, claimed, freed, retried, completed, discarded, step-Edits,
}
use hy.Revocation.Order.{first_due-get}

new_task_valid :
    (k : String) (b : Binding) (services : List String) (now : ℕ)
    → (len k == 64) ≡ true
    → allowed services ≡ true
    → 0 < now
    → task_valid k (new_task b services now) ≡ true
unfolding task_valid new_task
new_task_valid k b services now l w h =
    ground (arith, all-sorted_set (λ s. contains s allowed_static_services) services w)

module _ (k : String) (t : Task) (now : ℕ) (v : task_valid k t ≡ true) where
  more_services_valid :
      (services : List String)
      → allowed services ≡ true
      → task_valid k (more_services services now t) ≡ true
  unfolding task_valid more_services
  more_services_valid services w = ground (
    arith,
    all-sorted_set (λ s. contains s allowed_static_services) (t.static_services ++ services),
    all-append (λ s. contains s allowed_static_services) t.static_services services,
  )

  leased_valid : task_valid k (leased now t) ≡ true
  unfolding task_valid leased
  leased_valid = ground arith

  released_valid : (delay : ℕ) → task_valid k (released delay now t) ≡ true
  unfolding task_valid released
  released_valid delay = ground arith

  retried_valid :
      (kick_ok : Bool) (stopped : List String)
      → task_valid k (rescheduled kick_ok now (attempted kick_ok stopped t)) ≡ true
  unfolding task_valid rescheduled attempted
  retried_valid kick_ok stopped = ground (
    arith,
    all-keep (λ s. contains s allowed_static_services) (λ s. not (contains s stopped))
        t.static_services,
  )

abbrev pub Fits : Queue → Type 0
Fits q = (queue_valid q ≡ true) × (length q ≤ 512) × Distinct q

-- An update of a task that is there.
update-Fits :
    (q : Queue) (k : String) (t u : Task)
    → Fits q
    → get k q ≡ some t
    → (task_valid k t ≡ true → task_valid k u ≡ true)
    → Fits (put k u q)
unfolding queue_valid
update-Fits q k t u f e keeps = (
  all_items-put task_valid k u q (keeps (all_items-get task_valid k t q f.0 e)) f.0,
  omega (arith, length-put k u t q e, f.1),
  put-Distinct k u q f.2,
)

remove-Fits : (q : Queue) (k : String) → Fits q → Fits (remove k q)
unfolding queue_valid
remove-Fits q k f = (
  all_items-remove task_valid k q f.0,
  omega (arith, length-remove-le k q, f.1),
  remove-Distinct k q f.2,
)

pub Edit-Fits :
    {now : ℕ} {q new : Queue} {c : Call} → 0 < now → Fits q → Edit now q c new → Fits new
Edit-Fits h f (resaved t e b) = f
Edit-Fits {now} {q} h f (added {k} {b} {services} l w e room) = (
  unfold queue_valid in
      all_items-put task_valid k (new_task b (wanted services) now) q
        (new_task_valid k b (wanted services) now l w h) f.0,
  omega (arith, length-put-le k (new_task b (wanted services) now) q),
  put-Distinct k (new_task b (wanted services) now) q f.2,
)
Edit-Fits {now} {q} h f (extended {k} {services} t w e) =
    update-Fits q k t _ f e (λ v. more_services_valid k t now v (wanted services) w)
Edit-Fits {now} {q} h f (claimed k t e) =
    update-Fits q k t _ f (first_due-get now q k t f.2 e) (λ v. leased_valid k t now v)
Edit-Fits {now} {q} h f (freed {k} {delay} t e) =
    update-Fits q k t _ f e (λ v. released_valid k t now v delay)
Edit-Fits {now} {q} h f (retried {k} {kick_ok} {stopped} t e u) =
    update-Fits q k t _ f e (λ v. retried_valid k t now v kick_ok stopped)
Edit-Fits {now} {q} h f (completed {k} t e u) = remove-Fits q k f
Edit-Fits {now} {q} h f (discarded {k} t e) = remove-Fits q k f

-- The file is absent, or holds tasks that `_load` accepts, at most 512 of them.
abbrev pub IsSound : File Queue → Type 0
IsSound absent = Unit {0}
IsSound corrupt = ⊥
IsSound (raises f) = ⊥
IsSound (holds q) = Fits q

pub loaded-Fits :
    (file : File Queue) (q : Queue) → IsSound file → load_strict queue_valid [] file ≡ ok q → Fits q
unfolding load_strict queue_valid
loaded-Fits absent q s l = ground arith
loaded-Fits corrupt q s l = absurd s
loaded-Fits (raises f) q s l = absurd s
loaded-Fits (holds p) q s l = ground arith

pub IsSound-loads :
    (file : File Queue) → IsSound file → (q : Queue) × (load_strict queue_valid [] file ≡ ok q)
unfolding load_strict
IsSound-loads absent s = ([], refl)
IsSound-loads corrupt s = absurd s
IsSound-loads (raises f) s = absurd s
IsSound-loads (holds q) s = (q, rw s.0)

-- One call, whatever its host does, keeps the file sound.
pub step-IsSound :
    (host : Host) (c : Call) (now : ℕ) (file : File Queue)
    → 0 < now
    → IsSound file
    → IsSound (step host c now file)
step-IsSound host c now file h s = elim (step-Edits host c now file) [
  | inl same ↦ rw same s
  | inr (q, new, l, e, w) ↦ rw w (Edit-Fits h (loaded-Fits file q s l) e)
]

pub record Event : Type 0 where
  pub host : Host
  pub call : Call
  pub now : ℕ

-- A history of calls: each at its own instant, each with its own host outcome.
unfoldable pub run : File Queue → List Event → File Queue
run file [] = file
run file (e ∷ events) = run (step e.host e.call e.now file) events

abbrev pub Timely : List Event → Type 0
Timely [] = Unit {0}
Timely (e ∷ events) = (0 < e.now) × Timely events

-- From a sound file, such as none, a history at positive instants ends in a file that the next call
-- can load: it is absent, or holds at most 512 tasks, each of which `_load` accepts.
pub run-IsSound :
    (file : File Queue) (events : List Event)
    → Timely events
    → IsSound file
    → IsSound (run file events)
unfolding run
run-IsSound file [] h s = s
run-IsSound file (e ∷ events) h s =
    run-IsSound (step e.host e.call e.now file) events h.1
      (step-IsSound e.host e.call e.now file h.0 s)

pub loaded-eq : (q p : Queue) → load_strict queue_valid [] (holds q) ≡ ok p → p ≡ q
unfolding load_strict
loaded-eq q p h = ground arith
