-- ===== src/Service.antt =====
-- hysteria/static_access.py: the fail-closed stop of a static proxy service, and its recovery.
-- The runner (`systemctl`) is a function from the service's running generation to an outcome and to
-- the generation that runs after it, or none; what becomes of the marker's file is an argument.
pub mod Recovery
use hy.Prelude.{
  ℕ, zero, suc, String, Bool, true, false, not, ◌&&◌, Option, none, some, if◌then◌else◌,
}

pub data Command : Type 0 where
  stop start is_active : Command

-- An exit with 0, an exit with another code, or an OSError or TimeoutExpired.
pub data Exit : Type 0 where
  success nonzero : Exit
  unavailable : String → Exit

-- What one command does to the process that runs, if any.
abbrev pub Runner : Type 0
Runner = ℕ → Command → Option ℕ → Exit × Option ℕ

pub record State : Type 0 where
  -- The recovery marker exists.
  pub marker : Bool
  -- The process that runs.
  pub process : Option ℕ
  -- How many commands were run.
  pub clock : ℕ

-- An atomic write of the marker that returns, that raises with no effect, or that raises when the
-- marker is in place already.
pub data Mark : Type 0 where
  marked unmarked half_marked : Mark

pub data Code : Type 0 where
  not_live nonzero_exit stopped stopped_marker_pending : Code
  exception : String → Code

pub record ServiceActionResult : Type 0 where
  pub attempted : Bool
  pub ok : Bool
  pub effect_confirmed : Bool
  pub marker_persisted : Bool
  pub code : Code
  pub retryable : Bool

-- run(["systemctl", ...])
unfoldable pub command : Runner → Command → State → Exit × State
command run c s =
    let (exit, process) = run s.clock c s.process in
    (exit, record s { process = process; clock = suc s.clock })

unfoldable pub mark_pending : Mark → State → Bool × State
mark_pending marked s = (true, record s { marker = true })
mark_pending unmarked s = (false, s)
mark_pending half_marked s = (false, record s { marker = true })

unfoldable pub stop_result : Bool → Exit → ServiceActionResult
stop_result persisted success = record {
  attempted = true;
  ok = persisted;
  effect_confirmed = true;
  marker_persisted = persisted;
  code = if persisted then stopped else stopped_marker_pending;
  retryable = not persisted;
}
stop_result persisted nonzero = record {
  attempted = true;
  ok = false;
  effect_confirmed = false;
  marker_persisted = persisted;
  code = nonzero_exit;
  retryable = true;
}
stop_result persisted (unavailable name) = record {
  attempted = true;
  ok = false;
  effect_confirmed = false;
  marker_persisted = persisted;
  code = exception name;
  retryable = true;
}

unfoldable pub stop_fail_closed : Bool → Mark → Runner → State → ServiceActionResult × State
unfolding mark_pending command stop_result
stop_fail_closed live mark run s =
    let (persisted, s1) = mark_pending mark s in
    let (exit, s2) = command run stop s1 in
    if live then (stop_result persisted exit, s2) else (
      record {
        attempted = false;
        ok = false;
        effect_confirmed = false;
        marker_persisted = false;
        code = not_live;
        retryable = false;
      },
      s,
    )

abbrev pub is_success : Exit → Bool
is_success success = true
is_success nonzero = false
is_success (unavailable name) = false

-- The probes that must all succeed.
unfoldable pub probes : Runner → ℕ → State → Bool × State
unfolding command
probes run zero s = (true, s)
probes run (suc n) s =
    let (exit, s1) = command run is_active s in
    let rest = probes run n s1 in if is_success exit then rest else (false, s1)

-- The removal of the marker: done and durable, refused, or done and then not surely durable.
pub data Unlink : Type 0 where
  cleared kept half_cleared : Unlink

unfoldable pub clear_marker : Unlink → State → Bool × State
clear_marker cleared s = (true, record s { marker = false })
clear_marker kept s = (false, s)
clear_marker half_cleared s = (false, record s { marker = false })

abbrev pub stability_probes : ℕ
stability_probes = 3

-- The commands after each one that succeeded: stop, start, the probes, and the marker's removal.
unfoldable pub probe_and_clear : Unlink → Runner → State → Bool × State
unfolding probes clear_marker
probe_and_clear unlink run s =
    let (ready, s1) = probes run stability_probes s in
    if ready then clear_marker unlink s1 else (false, s1)

unfoldable pub start_again : Unlink → Runner → State → Bool × State
unfolding command probe_and_clear
start_again unlink run s =
    let (exit, s1) = command run start s in
    if is_success exit then probe_and_clear unlink run s1 else (false, s1)

unfoldable pub recover_if_pending : Bool → Unlink → Runner → State → Bool × State
unfolding command start_again
recover_if_pending live unlink run s =
    let (exit, s1) = command run stop s in
    if live && s.marker
    then (if is_success exit then start_again unlink run s1 else (false, s1))
    else (false, s)
