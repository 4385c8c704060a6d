-- ===== src/Traffic/Meter.antt =====
-- hysteria/tuic_meter.py: the totals of the firewall's counters, and their deltas from the saved state.
use hy.Prelude.{
  ℕ, ◌+◌, ◌-◌, String, Bool, not, Option, none, some, List, [], ◌∷◌, leb, ◌==◌, if◌then◌else◌, keep,
  str_eq, max,
}
use hy.Text.{contains}
use hy.Store.{Result, err, invalid_state, File, absent, corrupt, raises, holds, Save, save_json}
use hy.Traffic.{Usage}

-- The counters of one reading, and the state file of the meter.
pub record Counters : Type 0 where
  pub rx : ℕ
  pub tx : ℕ

pub record MeterState : Type 0 where
  pub port : ℕ
  pub rx : ℕ
  pub tx : ℕ
  pub total : ℕ

unfoldable pub delta : ℕ → Option ℕ → ℕ
delta current none = 0
delta current (some previous) = if leb previous current then current - previous else current

unfoldable pub previous_state : ℕ → Option MeterState → Option MeterState
previous_state port none = none
previous_state port (some s) = if s.port == port then some s else none

unfoldable pub previous_rx : Option MeterState → Option ℕ
previous_rx none = none
previous_rx (some s) = some s.rx

unfoldable pub previous_tx : Option MeterState → Option ℕ
previous_tx none = none
previous_tx (some s) = some s.tx

-- The delta of a reading, and the state that is saved with it.
unfoldable pub metered : ℕ → Counters → Option MeterState → Usage × MeterState
unfolding delta previous_state previous_rx previous_tx
metered port current state =
    let before = previous_state port state in
    let rx = delta current.rx (previous_rx before) in
    let tx = delta current.tx (previous_tx before) in
    (
      record { tx = tx; rx = rx; total = rx + tx },
      record { port = port; rx = current.rx; tx = current.tx; total = current.rx + current.tx },
    )

unfoldable pub save_metered :
    Save → Usage × MeterState → File MeterState → Result Usage × File MeterState
unfolding save_json
save_metered host (usage, state) file = save_json host usage state file

-- An absent file is an empty state.
unfoldable pub counter_delta :
    Save → ℕ → Counters → File MeterState → Result Usage × File MeterState
unfolding metered save_metered
counter_delta host port current absent = save_metered host (metered port current none) absent
counter_delta host port current corrupt = (err invalid_state, corrupt)
counter_delta host port current (raises f) = (err f, raises f)
counter_delta host port current (holds s) =
    save_metered host (metered port current (some s)) (holds s)

-- A rule of the firewall's ruleset: whether it stands in the meter's family and table, the comments of
-- the rule and of its expressions, and the expressions' counters that are not empty, as their bytes.
pub record Rule : Type 0 where
  pub own : Bool
  pub comment : String
  pub expr_comments : List String
  pub counters : List ℕ

-- _rule_comment_set: the comments that are not empty
unfoldable pub rule_comment_set : Rule → List String
unfolding keep
rule_comment_set rule = keep (λ c. not (str_eq c "")) (rule.comment ∷ rule.expr_comments)

unfoldable pub larger : String → Rule → ℕ → ℕ → ℕ
unfolding rule_comment_set contains
larger wanted rule bytes total =
    if contains wanted (rule_comment_set rule) then max total bytes else total

-- The totals so far, after one rule.
unfoldable pub count_rule : String → String → Rule → Counters → Counters
unfolding larger
count_rule wanted_rx wanted_tx rule totals = elim rule.counters [
  | [] ↦ totals
  | n ∷ more ↦
      if rule.own
      then record { rx = larger wanted_rx rule n totals.rx; tx = larger wanted_tx rule n totals.tx }
      else totals
]

unfoldable pub count_rules : String → String → List Rule → Counters → Counters
unfolding count_rule
count_rules wanted_rx wanted_tx [] totals = totals
count_rules wanted_rx wanted_tx (rule ∷ rules) totals =
    count_rules wanted_rx wanted_tx rules (count_rule wanted_rx wanted_tx rule totals)

-- extract_counters, for the two comments of the port
unfoldable pub extract_counters : String → String → List Rule → Counters
unfolding count_rules
extract_counters wanted_rx wanted_tx rules =
    count_rules wanted_rx wanted_tx rules (record { rx = 0; tx = 0 })
