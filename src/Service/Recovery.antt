-- ===== src/Service/Recovery.antt =====
-- What a stop guarantees of the process and of the marker.
use hy.Prelude.{ℕ, Bool, true, false, ◌≡◌, refl, Option, none, arith}
use hy.Service.{
  stop, Exit, success, nonzero, unavailable, Runner, State, Mark, marked, unmarked, half_marked,
  command, mark_pending, stop_result, stop_fail_closed, is_success,
}

-- `systemctl stop` that exits with 0 leaves no process.
pub record IsSystemctl (run : Runner) : Type 0 where
  pub stops : (n : ℕ) (p : Option ℕ) → is_success (run n stop p).0 ≡ true → (run n stop p).1 ≡ none

stop_result_ok :
    (persisted : Bool) (e : Exit)
    → (stop_result persisted e).ok ≡ true
    → (persisted ≡ true) × (is_success e ≡ true)
unfolding stop_result
stop_result_ok persisted success h = (h, refl)
stop_result_ok persisted nonzero h = absurd (ground arith)
stop_result_ok persisted (unavailable name) h = absurd (ground arith)

module _ (run : Runner) (sys : IsSystemctl run) where
  -- With a runner that behaves as systemctl does, a stop that reports success has left no process and a marker, from any state, however its marker
  -- is written; so the recovery is pending.
  pub stop_fail_closed_ok :
      (live : Bool) (mark : Mark) (s : State)
      → (stop_fail_closed live mark run s).0.ok ≡ true
      → ((stop_fail_closed live mark run s).1.process ≡ none)
        × ((stop_fail_closed live mark run s).1.marker ≡ true)
  unfolding stop_fail_closed mark_pending command stop_result
  stop_fail_closed_ok false mark s h = absurd (ground arith)
  stop_fail_closed_ok true marked s h =
      (sys.stops s.clock s.process (stop_result_ok true (run s.clock stop s.process).0 h).1, refl)
  stop_fail_closed_ok true unmarked s h =
      let never = (stop_result_ok false (run s.clock stop s.process).0 h).0 in absurd (ground arith)
  stop_fail_closed_ok true half_marked s h =
      let never = (stop_result_ok false (run s.clock stop s.process).0 h).0 in absurd (ground arith)
