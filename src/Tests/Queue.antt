-- ===== src/Tests/Queue.antt =====
-- hysteria/revocation_queue.py and hysteria/state_store.py: a queue of one task, due and with one
-- kick that succeeded.
use hy.Prelude.{
  ℕ, ◌+◌, ◌≤◌, String, Bool, true, false, ◌&&◌, ◌≡◌, refl, ◌⊎◌, List, [], ◌∷◌, arith, leb, length,
  Option, none, some, if◌then◌else◌, str_eq,
}
use hy.Dict.{get, put}
use hy.Store.{
  ok, err, write_failed, durability_uncertain, permission_error, absent, holds, calm, durable,
  refused, uncertain,
}
use hy.Revocation.Tasks.{
  Task, Queue, Binding, queue_valid, first_due, due, before, leased, attempted, count_kick,
  rescheduled, wanted, new_task, bound_to,
}
use hy.Revocation.{
  Call, claims, prepares, releases, completes, step, recorded, claim_due, claim_body,
  complete_attempt, prepare,
}
use hy.Revocation.Soundness.{Fits, IsSound, Event, run, run-IsSound}
use hy.Revocation.Survival.{Stays, Leaves, step-Stays, run-Stays}
use hy.Revocation.Leases.{claim_due_exclusive}
use hy.Revocation.Completion.{
  complete_attempt_lem, kicks, count_kick_lem, prepare_again, prepare_retry,
}
use hy.Revocation.Precedence.{HasTurn, claim_due_first}

abbrev task_id : String
task_id = "0123456789abcdef0123456789abcdef0123456789abcdef0123456789abcdef"

abbrev other_id : String
other_id = "1123456789abcdef0123456789abcdef0123456789abcdef0123456789abcdef"

abbrev binding : Binding
binding = record { user = "alice"; previous_generation = "g1"; target_generation = "g2" }

abbrev task : Task
task = record {
  user = "alice";
  previous_generation = "g1";
  target_generation = "g2";
  created_at = 100;
  expires_at = 700;
  next_attempt_at = 102;
  lease_until = 0;
  kick_successes = 1;
  attempts = 1;
  static_services = "xray.service" ∷ [];
}

abbrev later_task : Task
later_task = record task { next_attempt_at = 150 }

abbrev queue : Queue
queue = (task_id, task) ∷ []

queue-Fits : Fits queue
unfolding queue_valid get
queue-Fits = (refl, ground arith, (refl, tt))

task_there : get task_id queue ≡ some task
unfolding get
task_there = refl

abbrev events : List Event
events =
    record { host = calm; call = claims; now = 200 }
    ∷ record {
      host = record calm { save = uncertain };
      call = completes task_id false [];
      now = 203;
    }
    ∷ []

step-Stays_example :
    Stays task_id task (step calm claims 200 (holds queue)) ⊎ Leaves task_id task claims
step-Stays_example =
    step-Stays calm claims 200 task_id task queue (ground arith) queue-Fits task_there

claimed_first :
    claim_due calm 200 (holds queue)
    ≡ (ok (some (task_id, leased 200 task)), holds ((task_id, leased 200 task) ∷ []))
unfolding claim_due
claimed_first = refl

claimed_second : claim_due calm 300 (run (holds ((task_id, leased 200 task) ∷ [])) []) ≡ (
  ok (some (task_id, leased 300 (leased 200 task))),
  holds ((task_id, leased 300 (leased 200 task)) ∷ []),
)
unfolding claim_due run
claimed_second = refl

claim_due_exclusive_example : 200 + 15 ≤ 300
claim_due_exclusive_example =
    claim_due_exclusive calm calm 200 300 (holds queue) (holds ((task_id, leased 200 task) ∷ []))
      (holds ((task_id, leased 300 (leased 200 task)) ∷ [])) [] task_id (leased 200 task)
      (leased 300 (leased 200 task)) (ground arith) queue-Fits tt tt claimed_first claimed_second

complete_attempt_lem_example :
    (new : Queue) × (complete_attempt calm task_id true ("xray.service" ∷ []) 205 (holds queue)
      ≡ (ok (recorded true 2 []), holds new))
    × ((j : String) → get j new ≡ (if str_eq task_id j then none else get j queue))
unfolding hy.Prelude.all count_kick attempted
complete_attempt_lem_example =
    complete_attempt_lem task_id task queue true ("xray.service" ∷ []) 205 queue-Fits task_there

run-IsSound_example : IsSound (run absent events)
run-IsSound_example = run-IsSound absent events (ground arith, (ground arith, tt)) tt

run-Stays_example : Stays task_id task (run (holds queue) events)
run-Stays_example =
    run-Stays task_id task queue events (ground arith, (ground arith, tt)) (tt, (tt, tt)) queue-Fits
      task_there

abbrev two_tasks : Queue
two_tasks = (other_id, later_task) ∷ (task_id, task) ∷ []

two-Fits : Fits two_tasks
unfolding queue_valid get
two-Fits = (refl, ground arith, (refl, (refl, tt)))

first_claimed : claim_due calm 200 (holds two_tasks) ≡ (
  ok (some (task_id, leased 200 task)),
  holds ((other_id, later_task) ∷ (task_id, leased 200 task) ∷ []),
)
unfolding claim_due before
first_claimed = refl

other_there : get other_id two_tasks ≡ some later_task
unfolding get
other_there = refl

claim_due_first_example :
    (held : Task) × (get task_id two_tasks ≡ some held)
    × (leased 200 task ≡ leased 200 held)
    × HasTurn task_id held other_id later_task
claim_due_first_example =
    claim_due_first 200 two_tasks (holds ((other_id, later_task) ∷ (task_id, leased 200 task) ∷ []))
      task_id other_id (leased 200 task) later_task two-Fits first_claimed other_there
      (ground arith) (ground arith)

prepare_retry_example :
    let t = new_task binding (wanted ("xray.service" ∷ [])) 100 in
    let first =
      prepare
        (record calm { save = uncertain })
        task_id
        binding
        ("xray.service" ∷ [])
        100
        (holds []) in
    (first.0 ≡ err durability_uncertain)
    × (prepare (record calm { save = refused }) task_id binding ("xray.service" ∷ []) 130 first.1
        ≡ (err write_failed, holds (put task_id t [])))
unfolding hy.Text.len hy.Revocation.Tasks.allowed wanted queue_valid get
    hy.Python.Digests.is_ascii_text
prepare_retry_example =
    prepare_retry task_id binding ("xray.service" ∷ []) 100 130 [] refused refl refl (ground arith)
      (refl, ground arith, tt) (ground arith) refl (refl, refl)

prepare_again_example :
    prepare calm task_id (record binding { user = "bob" }) [] 300 (holds queue) ≡ (
      if str_eq task.user "bob"
        && str_eq task.previous_generation binding.previous_generation
        && str_eq task.target_generation binding.target_generation
      then (ok task, holds queue)
      else (err permission_error, holds queue))
unfolding hy.Text.len hy.Revocation.Tasks.allowed wanted get hy.Python.Digests.is_ascii_text
prepare_again_example =
    prepare_again task_id (record binding { user = "bob" }) [] 300 task queue durable refl refl
      queue-Fits task_there (refl, refl) (refl, refl)

count_kick_lem_example : leb 2 (kicks (true ∷ false ∷ true ∷ [])) ≡ (true && false)
count_kick_lem_example = count_kick_lem true false (true ∷ [])
