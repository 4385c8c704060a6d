-- ===== src/Tests/Cycles.antt =====
-- hysteria/cycle.py: a cycle of seven days from day 90 on, on day 100.
use hy.Prelude.{
  ℕ, ◌+◌, ◌-◌, ◌*◌, ◌/◌, ◌≤◌, ◌≡◌, refl, arith, some, none, List, [], ◌∷◌, any, length, ◌==◌, leb,
  ◌&&◌,
}
use hy.Python.Numbers.{pos}
use hy.Python.Json.{int, end}
use hy.Store.{ok}
use hy.Cycle.{start_of, cycle_days, anchor_for}
use hy.Cycle.Window.{LengthOf, cycle_days_lem}
use hy.Users.Rules.{field_or}
use hy.Tests.World.{library, now}

abbrev days_listed : List ℕ
days_listed = 97 ∷ 98 ∷ 99 ∷ 100 ∷ []

listed : cycle_days library now none (int (pos 7)) (some 90) end ≡ ok days_listed
unfolding cycle_days hy.Cycle.cycle_start_for hy.Cycle.anchor_for hy.Cycle.clamp_cycle_length
    hy.Cycle.cycle_length_from_meta hy.Cycle.days_of start_of
listed = refl

anchored : anchor_for library now none (some 90) end ≡ ok 90
unfolding anchor_for
anchored = refl

cycle_days_lem_example :
    (default days : ℕ) × LengthOf (field_or (int (pos 30)) "cycle_length_days" end) 30 default
    × LengthOf (int (pos 7)) default days
    × (1 ≤ days)
    × (days ≤ 90)
    × (1 ≤ length days_listed)
    × (length days_listed ≤ days)
    × ((d : ℕ)
        → any (λ e. e == d) days_listed ≡ (leb (90 + (100 - 90) / days * days) d && leb d 100))
cycle_days_lem_example =
    cycle_days_lem library now none (int (pos 7)) (some 90) end 90 days_listed anchored
      (ground arith) listed
