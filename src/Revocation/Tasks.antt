-- ===== src/Revocation/Tasks.antt =====
-- hysteria/revocation_queue.py: the tasks of the queue, and what the operations do to one task.
-- Instants are natural numbers (`int(time.time())`).
use hy.Prelude.{
  ℕ, ◌+◌, String, Bool, true, false, not, ◌&&◌, ◌||◌, Option, none, some, List, [], ◌∷◌, ◌++◌, min,
  max, ltb, leb, ◌==◌, str_eq, if◌then◌else◌, all, keep,
}
use hy.Dict.{Dict, all_items}
use hy.Store.{Result, ok, ◌>>=◌}
use hy.Python.Digests.{compare_digest}
use hy.Text.{len, text_lt, contains, sorted_set}

abbrev pub task_ttl_seconds : ℕ
task_ttl_seconds = 600

abbrev pub task_max_entries : ℕ
task_max_entries = 512

abbrev pub claim_lease_seconds : ℕ
claim_lease_seconds = 15

abbrev pub second_kick_delay_seconds : ℕ
second_kick_delay_seconds = 2

abbrev pub retry_delay_seconds : ℕ
retry_delay_seconds = 5

abbrev pub allowed_static_services : List String
allowed_static_services = "tuic-server.service" ∷ "xray.service" ∷ []

pub record Task : Type 0 where
  pub user : String
  pub previous_generation : String
  pub target_generation : String
  pub created_at : ℕ
  pub expires_at : ℕ
  pub next_attempt_at : ℕ
  pub lease_until : ℕ
  pub kick_successes : ℕ
  pub attempts : ℕ
  pub static_services : List String

abbrev pub Queue : Type 0
Queue = Dict Task

-- pending_services.issubset(ALLOWED_STATIC_SERVICES)
unfoldable pub allowed : List String → Bool
unfolding all contains
allowed services = all (λ s. contains s allowed_static_services) services

-- The tests of `_load` on one entry.
unfoldable pub task_valid : String → Task → Bool
unfolding allowed len
task_valid key task =
    len key == 64
    && allowed task.static_services
    && ltb 0 task.created_at
    && ltb task.created_at task.expires_at
    && leb task.kick_successes 2

unfoldable pub queue_valid : Queue → Bool
unfolding all_items task_valid
queue_valid = all_items task_valid

-- What a caller of `prepare` binds the task to.
pub record Binding : Type 0 where
  pub user : String
  pub previous_generation : String
  pub target_generation : String

-- The tests on a task that is already there, one after another.
unfoldable pub bound_to : Binding → Task → Result Bool
unfolding compare_digest
bound_to b task =
    if not (str_eq task.user b.user)
    then ok false
    else compare_digest task.previous_generation b.previous_generation >>= λ previous.
        if previous then compare_digest task.target_generation b.target_generation else ok false

-- {str(service) for service in services if service}
unfoldable pub wanted : List String → List String
unfolding keep
wanted services = keep (λ s. not (str_eq s "")) services

unfoldable pub new_task : Binding → List String → ℕ → Task
unfolding sorted_set
new_task b pending now = record {
  user = b.user;
  previous_generation = b.previous_generation;
  target_generation = b.target_generation;
  created_at = now;
  expires_at = now + task_ttl_seconds;
  next_attempt_at = now;
  lease_until = 0;
  kick_successes = 0;
  attempts = 0;
  static_services = sorted_set pending;
}

unfoldable pub more_services : List String → ℕ → Task → Task
unfolding sorted_set
more_services wanted_services now task = record task {
  static_services = sorted_set (task.static_services ++ wanted_services);
  next_attempt_at = min task.next_attempt_at now;
}

unfoldable pub due : ℕ → Task → Bool
due now task = leb task.next_attempt_at now && leb task.lease_until now

-- The order of the sort key: next attempt, creation, task id.
unfoldable pub before : String × Task → String × Task → Bool
unfolding text_lt
before (k, t) (j, u) =
    ltb t.next_attempt_at u.next_attempt_at
    || (t.next_attempt_at == u.next_attempt_at
        && (ltb t.created_at u.created_at || (t.created_at == u.created_at && text_lt k j)))

unfoldable pub earlier : String × Task → Option (String × Task) → String × Task
earlier x none = x
earlier x (some y) = if before y x then y else x

-- The first of the due tasks in that order.
unfoldable pub first_due : ℕ → Queue → Option (String × Task)
unfolding due earlier
first_due now [] = none
first_due now ((k, t) ∷ queue) =
    let rest = first_due now queue in if due now t then some (earlier (k, t) rest) else rest

unfoldable pub leased : ℕ → Task → Task
leased now task = record task {
  lease_until = now + claim_lease_seconds;
  attempts = task.attempts + 1;
}

unfoldable pub released : ℕ → ℕ → Task → Task
released delay now task = record task { lease_until = 0; next_attempt_at = now + max 1 delay }

-- The successes after one more attempt: a failure starts the count again.
unfoldable pub count_kick : Bool → ℕ → ℕ
count_kick kick_ok successes = if kick_ok then min 2 (successes + 1) else 0

unfoldable pub attempted : Bool → List String → Task → Task
unfolding count_kick keep contains
attempted kick_ok stopped task = record task {
  kick_successes = count_kick kick_ok task.kick_successes;
  static_services = keep (λ s. not (contains s stopped)) task.static_services;
}

abbrev pub is_empty : List String → Bool
is_empty [] = true
is_empty (s ∷ l) = false

unfoldable pub finished : Task → Bool
finished task = leb 2 task.kick_successes && is_empty task.static_services

unfoldable pub rescheduled : Bool → ℕ → Task → Task
rescheduled kick_ok now task = record task {
  lease_until = 0;
  next_attempt_at = now + (if kick_ok then second_kick_delay_seconds else retry_delay_seconds);
}
