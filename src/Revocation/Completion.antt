-- ===== src/Revocation/Completion.antt =====
-- What `complete_attempt` does to a task, and what a retried `prepare` finds.
use hy.Prelude.{
  ◌∙◌, ℕ, ◌<◌, String, Bool, true, ◌≡◌, refl, List, [], ◌∷◌, arith, not, none, some, str_eq,
  str_eq_refl, ◌&&◌, leb, if◌then◌else◌, all, keep, ◌==◌, length, ◌+◌, min,
}
use hy.Dict.{get, put, remove, get-put, get-remove, get-put_self}
use hy.Text.{len, contains}
use hy.Python.Digests.{is_ascii_text, compare_digest_ascii}
use hy.Store.{
  holds, calm, Result, ok, err, write_failed, durability_uncertain, Save, durable, refused,
  uncertain, permission_error,
}
use hy.Revocation.Tasks.{
  Task, Queue, Binding, count_kick, attempted, finished, is_empty, rescheduled, bound_to, new_task,
  wanted, allowed,
}
use hy.Revocation.{complete_attempt, recorded, prepare}
use hy.Revocation.Soundness.{Fits, Edit-Fits}
use hy.Revocation.Edits.{added}

keep_empty :
    (stopped services : List String)
    → is_empty (keep (λ s. not (contains s stopped)) services)
      ≡ all (λ s. contains s stopped) services
unfolding keep all
keep_empty stopped [] = refl
keep_empty stopped (s ∷ services) = ground (arith, keep_empty stopped services)

-- The attempt completes the revocation.
abbrev pub completes_now : Bool → List String → Task → Bool
completes_now kick_ok stopped t =
    kick_ok && leb 1 t.kick_successes && all (λ s. contains s stopped) t.static_services

finished-attempted :
    (kick_ok : Bool) (stopped : List String) (t : Task)
    → finished (attempted kick_ok stopped t) ≡ completes_now kick_ok stopped t
unfolding finished attempted
finished-attempted kick_ok stopped t = ground (arith, keep_empty stopped t.static_services)

-- The task after an attempt that does not complete it: a failed kick starts the count again, a stopped
-- service is no longer pending, the lease is given up, and the next attempt is 2 seconds after a
-- successful kick and 5 after a failed one.
abbrev pub after_attempt : Bool → List String → ℕ → Task → Task
after_attempt kick_ok stopped now t = record t {
  kick_successes = if kick_ok then min 2 (t.kick_successes + 1) else 0;
  static_services = keep (λ s. not (contains s stopped)) t.static_services;
  lease_until = 0;
  next_attempt_at = now + (if kick_ok then 2 else 5);
}

after_attempt-rescheduled :
    (kick_ok : Bool) (stopped : List String) (now : ℕ) (t : Task)
    → rescheduled kick_ok now (attempted kick_ok stopped t) ≡ after_attempt kick_ok stopped now t
unfolding rescheduled attempted count_kick
after_attempt-rescheduled kick_ok stopped now t = refl

-- On a sound queue with the task `k`, an attempt whose transaction goes through reports completion
-- exactly when its kick succeeded, an earlier kick had succeeded with no failure since, and every
-- static service still pending has been stopped. Then the task is gone; otherwise it stays with the
-- new count of successes, which a failed kick sets to 0, without the services that were stopped,
-- without its lease, and with its next attempt 2 seconds after a successful kick and 5 after a failed
-- one. No other task changes.
pub complete_attempt_lem :
    (k : String) (t : Task) (q : Queue) (kick_ok : Bool) (stopped : List String) (now : ℕ)
    → Fits q
    → get k q ≡ some t
    → let u = after_attempt kick_ok stopped now t in
      let done = completes_now kick_ok stopped t in
      (new : Queue) × (complete_attempt calm k kick_ok stopped now (holds q)
        ≡ (ok (recorded done u.kick_successes u.static_services), holds new))
      × ((j : String)
          → get j new ≡ (if str_eq k j then (if done then none else some u) else get j q))
unfolding complete_attempt
complete_attempt_lem k t q kick_ok stopped now f here = (
  settled,
  ground (
    arith,
    f.0,
    here,
    finished-attempted kick_ok stopped t,
    after_attempt-rescheduled kick_ok stopped now t,
  ),
  λ j. ground (arith, get-put k j (after_attempt kick_ok stopped now t) q, get-remove k j q),
)
  where
    settled : Queue
    settled =
        if completes_now kick_ok stopped t
        then remove k q
        else put k (after_attempt kick_ok stopped now t) q

-- The successes counted over the outcomes of the attempts on a task, the latest first.
abbrev pub kicks : List Bool → ℕ
kicks [] = 0
kicks (kick_ok ∷ older) = count_kick kick_ok (kicks older)

-- Two successes are counted exactly when the last two attempts succeeded, whatever came before.
pub count_kick_lem :
    (last previous : Bool) (older : List Bool)
    → leb 2 (kicks (last ∷ previous ∷ older)) ≡ (last && previous)
unfolding count_kick
count_kick_lem last previous older = ground arith

new_task-bound :
    (b : Binding) (services : List String) (now : ℕ)
    → let t = new_task b services now in
      (str_eq t.user b.user
        && str_eq t.previous_generation b.previous_generation
        && str_eq t.target_generation b.target_generation)
      ≡ true
unfolding new_task
new_task-bound b services now =
    ground (
      arith,
      str_eq_refl b.user,
      str_eq_refl b.previous_generation,
      str_eq_refl b.target_generation,
    )

-- What a save that does not change the data makes of a result, by what becomes of it.
abbrev pub saved_as : Save → Task → Result Task
saved_as durable t = ok t
saved_as refused t = err write_failed
saved_as uncertain t = err durability_uncertain

-- The generations are ASCII texts, as the hexadecimal digests of the program are.
abbrev pub AsciiBinding : Binding → Type 0
AsciiBinding b =
    (is_ascii_text b.previous_generation ≡ true) × (is_ascii_text b.target_generation ≡ true)

abbrev pub AsciiTask : Task → Type 0
AsciiTask t =
    (is_ascii_text t.previous_generation ≡ true) × (is_ascii_text t.target_generation ≡ true)

bound_to-ascii :
    (b : Binding) (t : Task)
    → AsciiBinding b
    → AsciiTask t
    → bound_to b t
      ≡ ok (
          str_eq t.user b.user
          && str_eq t.previous_generation b.previous_generation
          && str_eq t.target_generation b.target_generation)
unfolding bound_to
bound_to-ascii b t (bp, bt) (tp, tt') =
    rw
      (
        compare_digest_ascii t.previous_generation b.previous_generation tp bp,
        compare_digest_ascii t.target_generation b.target_generation tt' bt,
      )
      (ground arith)

-- On a sound queue that holds a task under the id, `prepare` for the same user, previous generation and
-- target generation saves the queue as it is again, and returns that task if the save is durable,
-- whatever services and instant it is given, and raises otherwise; for any other of the three it is
-- refused and saves nothing. The generations are ASCII texts.
pub prepare_again :
    (k : String) (b : Binding) (services : List String) (now : ℕ) (t : Task) (q : Queue) (s : Save)
    → (len k == 64) ≡ true
    → allowed (wanted services) ≡ true
    → Fits q
    → get k q ≡ some t
    → AsciiBinding b
    → AsciiTask t
    → prepare (record calm { save = s }) k b services now (holds q) ≡ (
        if str_eq t.user b.user
          && str_eq t.previous_generation b.previous_generation
          && str_eq t.target_generation b.target_generation
        then (saved_as s t, holds q)
        else (err permission_error, holds q))
unfolding prepare
prepare_again k b services now t q durable l w f here c d =
    ground (arith, l, w, f.0, here, bound_to-ascii b t c d)
prepare_again k b services now t q refused l w f here c d =
    ground (arith, l, w, f.0, here, bound_to-ascii b t c d)
prepare_again k b services now t q uncertain l w f here c d =
    ground (arith, l, w, f.0, here, bound_to-ascii b t c d)

prepare_uncertain :
    (k : String) (b : Binding) (services : List String) (now : ℕ) (q : Queue)
    → (len k == 64) ≡ true
    → allowed (wanted services) ≡ true
    → Fits q
    → length q < 512
    → get k q ≡ none
    → prepare (record calm { save = uncertain }) k b services now (holds q)
      ≡ (err durability_uncertain, holds (put k (new_task b (wanted services) now) q))
unfolding prepare
prepare_uncertain k b services now q l w f room none_yet = ground (arith, l, w, f.0, none_yet)

-- A `prepare` of a new task on a sound queue with room, whose replacement of the file becomes visible
-- but whose durability is uncertain, raises; the same call again, at any later instant, saves the queue
-- once more, with the task that the first one wrote, and returns that task only if this save is durable.
-- The generations are ASCII texts.
pub prepare_retry :
    (k : String) (b : Binding) (services : List String) (now later : ℕ) (q : Queue) (s : Save)
    → (len k == 64) ≡ true
    → allowed (wanted services) ≡ true
    → 0 < now
    → Fits q
    → length q < 512
    → get k q ≡ none
    → AsciiBinding b
    → let t = new_task b (wanted services) now in
      let first = prepare (record calm { save = uncertain }) k b services now (holds q) in
      (first.0 ≡ err durability_uncertain)
      × (prepare (record calm { save = s }) k b services later first.1
          ≡ (saved_as s t, holds (put k t q)))
prepare_retry k b services now later q s l w h f room none_yet ascii = rw first (refl, retried)
  where
    t : Task
    t = new_task b (wanted services) now

    first :
        prepare (record calm { save = uncertain }) k b services now (holds q)
        ≡ (err durability_uncertain, holds (put k t q))
    first = prepare_uncertain k b services now q l w f room none_yet

    retried :
        prepare (record calm { save = s }) k b services later (holds (put k t q))
        ≡ (saved_as s t, holds (put k t q))
    retried =
        prepare_again k b services later t (put k t q) s l w
          (Edit-Fits h f (added {k = k} {b = b} {services = services} l w none_yet room))
          (get-put_self k t q) ascii (unfold new_task in ascii)
        ∙ ground (arith, new_task-bound b (wanted services) now)
