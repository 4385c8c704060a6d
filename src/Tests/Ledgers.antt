-- ===== src/Tests/Ledgers.antt =====
-- hysteria/traffic_limiter.py and hysteria/tuic_meter.py: a tick on a ledger in both formats, and
-- readings with a reset.
use hy.Prelude.{◌+◌, ◌≡◌, refl, List, [], ◌∷◌, some, none}
use hy.Store.{holds, durable}
use hy.Traffic.{
  Traffic, Ledger, bytes, fields, merge_traffic, traffic_totals, tick, accumulate_daily,
}
use hy.Traffic.Meter.{Counters, MeterState}
use hy.Traffic.Accounting.{Ticked, accumulate_daily_lem, merge_traffic_total}
use hy.Traffic.Metering.{total_metered, total_metered_lem}

abbrev traffic : Traffic
traffic = ("alice", record { tx = 5; rx = 7 }) ∷ ("bob", record { tx = 1; rx = 2 }) ∷ []

abbrev other_traffic : Traffic
other_traffic = ("alice", record { tx = 10; rx = 20 }) ∷ []

abbrev ledger : Ledger
ledger =
    ("2024-01-01", ("alice", bytes 9) ∷ [])
    ∷ ("2024-05-02", ("alice", bytes 100) ∷ ("carol", fields (some 1) none none) ∷ [])
    ∷ []

accumulate_daily_lem_example :
    (holds (tick "2024-05-02" "2024-02-01" traffic ledger)
      ≡ holds (tick "2024-05-02" "2024-02-01" traffic ledger))
    × Ticked "alice" "2024-05-02" "2024-05-02" "2024-02-01" traffic ledger
        (tick "2024-05-02" "2024-02-01" traffic ledger)
unfolding accumulate_daily hy.Dict.get
accumulate_daily_lem_example =
    accumulate_daily_lem durable "2024-05-02" "2024-02-01" traffic ledger
      (tick "2024-05-02" "2024-02-01" traffic ledger) (holds ledger)
      (holds (tick "2024-05-02" "2024-02-01" traffic ledger)) "alice" "2024-05-02"
      (refl, (refl, tt)) refl

merge_traffic_total_example : (traffic_totals (merge_traffic traffic other_traffic)).total ≡ 15 + 30
unfolding traffic_totals
merge_traffic_total_example = merge_traffic_total traffic other_traffic

abbrev readings : List Counters
readings = record { rx = 150; tx = 80 } ∷ record { rx = 10; tx = 90 } ∷ []

abbrev meter_state : MeterState
meter_state = record { port = 443; rx = 100; tx = 50; total = 150 }

total_metered_lem_example : 150 + total_metered 443 readings (holds meter_state) ≡ 100 + 150
total_metered_lem_example = total_metered_lem 443 readings meter_state refl
