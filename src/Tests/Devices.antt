-- ===== src/Tests/Devices.antt =====
-- hysteria/auth_backend.py, `reserve_device_admission`: a user with a limit of two devices, one online.
use hy.Prelude.{◌-◌, ◌≤◌, List, [], ◌∷◌, arith, refl, some}
use hy.Store.{holds, calm, uncertain}
use hy.Admission.{Ledger}
use hy.Admission.History.{Window, Attempt, admitted, reserve_device_admission_limit}

abbrev ledger : Ledger
ledger = ("alice", record { observed = some 1; pending = 900_000 ∷ [] }) ∷ []

abbrev attempts : List Attempt
attempts =
    record {
      host = record calm { save = uncertain };
      username = "alice";
      max_devices = 2;
      online_count = 1;
      current = 1_000_000;
    }
    ∷ record {
      host = calm;
      username = "bob";
      max_devices = 1;
      online_count = 0;
      current = 1_000_001;
    }
    ∷ record {
      host = calm;
      username = "alice";
      max_devices = 2;
      online_count = 1;
      current = 1_000_002;
    }
    ∷ []

window : Window 1_000_000 "alice" 2 1 attempts
window = (
  ground arith,
  ground arith,
  (λ e. refl),
  (λ e. ground arith),
  (
    ground arith,
    ground arith,
    (λ e. absurd (ground (arith, e))),
    (λ e. absurd (ground (arith, e))),
    (ground arith, ground arith, (λ e. refl), (λ e. ground arith), tt),
  ),
)

reserve_device_admission_limit_example : admitted "alice" (holds ledger) attempts ≤ 2 - 1
unfolding hy.Dict.get
reserve_device_admission_limit_example =
    reserve_device_admission_limit 1_000_000 "alice" 2 1 (holds ledger) attempts (refl, tt) window
