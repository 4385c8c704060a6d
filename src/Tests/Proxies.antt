-- ===== src/Tests/Proxies.antt =====
-- hysteria/static_access.py: a proxy that runs, stopped and recovered by a runner whose commands succeed.
use hy.Prelude.{ℕ, true, false, ◌≡◌, refl, Option, some, none}
use hy.Service.{Command, stop, start, is_active, Exit, success, State, marked, stop_fail_closed}
use hy.Service.Recovery.{IsSystemctl, stop_fail_closed_ok}

abbrev systemctl : ℕ → Command → Option ℕ → Exit × Option ℕ
systemctl n stop p = (success, none)
systemctl n start none = (success, some n)
systemctl n start (some p) = (success, some p)
systemctl n is_active p = (success, p)

systemctl-IsSystemctl : IsSystemctl systemctl
systemctl-IsSystemctl = record { stops = λ n p h. refl }

abbrev running : State
running = record { marker = false; process = some 7; clock = 20 }

abbrev pending : State
pending = record { marker = true; process = some 7; clock = 30 }

stop_fail_closed_ok_example :
    ((stop_fail_closed true marked systemctl running).1.process ≡ none)
    × ((stop_fail_closed true marked systemctl running).1.marker ≡ true)
unfolding stop_fail_closed
stop_fail_closed_ok_example =
    stop_fail_closed_ok systemctl systemctl-IsSystemctl true marked running refl
