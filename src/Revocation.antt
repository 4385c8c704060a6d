-- ===== src/Revocation.antt =====
-- hysteria/revocation_queue.py: the durable retry queue of credential revocations.
-- The queue's file is a `File` of tasks by their id. Each operation is one transaction of `Store`,
-- whose host outcome is its first argument and whose clock (`int(time.time())`) is an argument too.
-- A file whose entries have not the types of `Task` is `corrupt`.
pub mod Tasks
pub mod Edits
pub mod Order
pub mod Precedence
pub mod Soundness
pub mod Survival
pub mod Leases
pub mod Completion
use hy.Prelude.{
  ℕ, String, Bool, true, false, not, Option, none, some, List, [], ◌∷◌, leb, ◌==◌, if◌then◌else◌,
  length,
}
use hy.Dict.{get, put, remove}
use hy.Text.{len}
use hy.Store.{
  Result, ◌>>=◌, ok, err, value_error, permission_error, capacity_error, File, Host, transact,
}
use Tasks.{
  Task, Queue, Binding, task_max_entries, allowed, queue_valid, bound_to, wanted, new_task,
  more_services, first_due, leased, released, attempted, finished, rescheduled,
}

-- A transaction of the queue.
unfoldable pub transaction {ℓ} :
    {A : Type ℓ} → (Queue → Result (A × Option Queue)) → Host → File Queue → Result A × File Queue
unfolding transact queue_valid
transaction body = transact queue_valid [] body

unfoldable pub prepare_body :
    String → Binding → List String → ℕ → Queue → Result (Task × Option Queue)
unfolding get put bound_to new_task
prepare_body task_id b pending now queue = elim (get task_id queue) [
  | some existing ↦ bound_to b existing >>= λ same.
      if same then ok (existing, some queue) else err permission_error
  | none ↦
      if leb task_max_entries (length queue)
      then err capacity_error
      else ok (new_task b pending now, some (put task_id (new_task b pending now) queue))
]

unfoldable pub prepare :
    Host → String → Binding → List String → ℕ → File Queue → Result Task × File Queue
unfolding prepare_body transaction wanted allowed len
prepare host task_id b services now file =
    if not (len task_id == 64)
    then (err value_error, file)
    else if allowed (wanted services)
    then transaction (prepare_body task_id b (wanted services) now) host file
    else (err value_error, file)

unfoldable pub add_services_body : String → List String → ℕ → Queue → Result (Bool × Option Queue)
unfolding get put more_services
add_services_body task_id wanted_services now queue = elim (get task_id queue) [
  | none ↦ ok (false, none)
  | some task ↦ ok (true, some (put task_id (more_services wanted_services now task) queue))
]

unfoldable pub add_static_services :
    Host → String → List String → ℕ → File Queue → Result Bool × File Queue
unfolding add_services_body transaction wanted allowed
add_static_services host task_id services now file = elim (wanted services) [
  | [] ↦ (ok false, file)
  | s ∷ more ↦
      if allowed (s ∷ more)
      then transaction (add_services_body task_id (s ∷ more) now) host file
      else (err value_error, file)
]

unfoldable pub claim_body : ℕ → Queue → Result (Option (String × Task) × Option Queue)
unfolding first_due leased put
claim_body now queue = elim (first_due now queue) [
  | none ↦ ok (none, none)
  | some (key, task) ↦ ok (some (key, leased now task), some (put key (leased now task) queue))
]

unfoldable pub claim_due : Host → ℕ → File Queue → Result (Option (String × Task)) × File Queue
unfolding claim_body transaction
claim_due host now file = transaction (claim_body now) host file

unfoldable pub release_body : String → ℕ → ℕ → Queue → Result (Bool × Option Queue)
unfolding get put released
release_body task_id delay now queue = elim (get task_id queue) [
  | none ↦ ok (false, none)
  | some task ↦ ok (true, some (put task_id (released delay now task) queue))
]

unfoldable pub release_claim : Host → String → ℕ → ℕ → File Queue → Result Bool × File Queue
unfolding release_body transaction
release_claim host task_id delay now file = transaction (release_body task_id delay now) host file

-- What `complete_attempt` returns.
pub data Attempt : Type 0 where
  missing : Attempt
  recorded : Bool → ℕ → List String → Attempt

unfoldable pub settle : String → Bool → ℕ → Task → Queue → Result (Attempt × Option Queue)
unfolding finished rescheduled put remove
settle task_id kick_ok now task queue = ok (
  recorded (finished task) task.kick_successes task.static_services,
  some (
      if finished task
      then remove task_id queue
      else put task_id (rescheduled kick_ok now task) queue),
)

unfoldable pub complete_body :
    String → Bool → List String → ℕ → Queue → Result (Attempt × Option Queue)
unfolding get attempted settle
complete_body task_id kick_ok stopped now queue = elim (get task_id queue) [
  | none ↦ ok (missing, none)
  | some task ↦ settle task_id kick_ok now (attempted kick_ok stopped task) queue
]

unfoldable pub complete_attempt :
    Host → String → Bool → List String → ℕ → File Queue → Result Attempt × File Queue
unfolding complete_body transaction
complete_attempt host task_id kick_ok stopped now file =
    transaction (complete_body task_id kick_ok stopped now) host file

unfoldable pub discard_body : String → Queue → Result (Unit {0} × Option Queue)
unfolding get remove
discard_body task_id queue = elim (get task_id queue) [
  | none ↦ ok (tt, none)
  | some task ↦ ok (tt, some (remove task_id queue))
]

unfoldable pub discard : Host → String → File Queue → Result (Unit {0}) × File Queue
unfolding discard_body transaction
discard host task_id file = transaction (discard_body task_id) host file

-- The calls that reach the queue.
pub data Call : Type 0 where
  prepares : String → Binding → List String → Call
  adds : String → List String → Call
  claims : Call
  releases : String → ℕ → Call
  completes : String → Bool → List String → Call
  discards : String → Call

-- The file after a call at an instant.
unfoldable pub step : Host → Call → ℕ → File Queue → File Queue
step host (prepares k b services) now file = (prepare host k b services now file).1
step host (adds k services) now file = (add_static_services host k services now file).1
step host claims now file = (claim_due host now file).1
step host (releases k delay) now file = (release_claim host k delay now file).1
step host (completes k kick_ok stopped) now file =
    (complete_attempt host k kick_ok stopped now file).1
step host (discards k) now file = (discard host k file).1
