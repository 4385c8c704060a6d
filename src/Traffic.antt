-- ===== src/Traffic.antt =====
-- hysteria/traffic_limiter.py: the usage ledgers, and how a tick adds traffic to them. Byte counts are natural numbers, as the ledgers' validation asks.
-- A ledger's buckets are keyed by the text of a day or an hour; `cutoff` is the text of the oldest one
-- kept, which the source computes from the clock.
pub mod Buckets
pub mod Accounting
pub mod Meter
pub mod Metering
pub mod Plan
pub mod Enforcement
pub mod Validation
pub mod Agreement
use hy.Prelude.{
  ℕ, ◌+◌, ◌-◌, String, Bool, not, Option, none, some, List, [], ◌∷◌, leb, ◌==◌, if◌then◌else◌, keep,
  str_eq, max,
}
use hy.Dict.{Dict, get, put, keep_items}
use hy.Text.{text_lt, contains}
use hy.Store.{Result, err, invalid_state, File, absent, corrupt, holds, Save, save_json}

-- What a source counted for one user.
pub record Stat : Type 0 where
  pub tx : ℕ
  pub rx : ℕ

abbrev pub Traffic : Type 0
Traffic = Dict Stat

pub record Usage : Type 0 where
  pub tx : ℕ
  pub rx : ℕ
  pub total : ℕ

-- An entry of a ledger: a bare count of bytes, or an object whose fields may be missing.
pub data Entry : Type 0 where
  bytes : ℕ → Entry
  fields : Option ℕ → Option ℕ → Option ℕ → Entry

abbrev pub Bucket : Type 0
Bucket = Dict Entry

abbrev pub Ledger : Type 0
Ledger = Dict Bucket

unfoldable pub or_default : ℕ → Option ℕ → ℕ
or_default default none = default
or_default default (some n) = n

unfoldable pub normalize_usage_entry : Entry → Usage
unfolding or_default
normalize_usage_entry (bytes n) = record { tx = 0; rx = n; total = n }
normalize_usage_entry (fields t r s) =
    let tx = or_default 0 t in
    let rx = or_default 0 r in record { tx = tx; rx = rx; total = or_default (tx + rx) s }

-- normalize_usage_entry(bucket.get(uid, 0))
unfoldable pub usage_of : Option Entry → Usage
unfolding normalize_usage_entry
usage_of none = normalize_usage_entry (bytes 0)
usage_of (some e) = normalize_usage_entry e

unfoldable pub stat_of : Option Stat → Stat
stat_of none = record { tx = 0; rx = 0 }
stat_of (some s) = s

unfoldable pub merge_stat : Stat → Stat → Stat
merge_stat a b = record { tx = a.tx + b.tx; rx = a.rx + b.rx }

-- merge_traffic(dst, src)
unfoldable pub merge_traffic : Traffic → Traffic → Traffic
unfolding get put stat_of merge_stat
merge_traffic dst [] = dst
merge_traffic dst ((uid, stat) ∷ src) =
    merge_traffic (put uid (merge_stat (stat_of (get uid dst)) stat) dst) src

unfoldable pub add_usage : Usage → Stat → Usage
add_usage u s = record { tx = u.tx + s.tx; rx = u.rx + s.rx; total = u.total + (s.tx + s.rx) }

unfoldable pub as_entry : Usage → Entry
as_entry u = fields (some u.tx) (some u.rx) (some u.total)

-- The loop over the traffic, on the bucket of the tick.
unfoldable pub accumulate : Traffic → Bucket → Bucket
unfolding get put usage_of add_usage as_entry
accumulate [] bucket = bucket
accumulate ((uid, stat) ∷ traffic) bucket =
    accumulate traffic (put uid (as_entry (add_usage (usage_of (get uid bucket)) stat)) bucket)

unfoldable pub bucket_at : String → Ledger → Bucket
unfolding get
bucket_at key ledger = elim (get key ledger) [ none ↦ [] | some bucket ↦ bucket ]

-- prune_daily, prune_hourly
unfoldable pub prune : String → Ledger → Ledger
unfolding keep_items text_lt
prune cutoff = keep_items (λ key bucket. not (text_lt key cutoff))

-- The ledger that a tick saves.
unfoldable pub tick : String → String → Traffic → Ledger → Ledger
unfolding put bucket_at accumulate prune
tick key cutoff traffic ledger =
    prune cutoff (put key (accumulate traffic (bucket_at key ledger)) ledger)

-- accumulate_daily, with the ledger given, or loaded from the file.
unfoldable pub accumulate_daily :
    Save → String → String → Traffic → Ledger → File Ledger → Result Ledger × File Ledger
unfolding tick save_json
accumulate_daily host key cutoff traffic daily file =
    let after = tick key cutoff traffic daily in save_json host after after file

-- accumulate_hourly
unfoldable pub accumulate_hourly :
    Save → String → String → Traffic → Ledger → File Ledger → Result (Unit {0}) × File Ledger
unfolding tick save_json
accumulate_hourly host key cutoff traffic hourly file =
    save_json host tt (tick key cutoff traffic hourly) file

unfoldable pub traffic_totals : Traffic → Usage
traffic_totals [] = record { tx = 0; rx = 0; total = 0 }
traffic_totals ((uid, s) ∷ traffic) =
    let rest = traffic_totals traffic in
    record { tx = s.tx + rest.tx; rx = s.rx + rest.rx; total = (s.tx + s.rx) + rest.total }

unfoldable pub add_totals : Usage → Usage → Usage
add_totals u v = record { tx = u.tx + v.tx; rx = u.rx + v.rx; total = u.total + v.total }

-- The loop over the protocols that had traffic.
unfoldable pub accumulate_protocols : Dict Traffic → Bucket → Bucket
unfolding get put usage_of as_entry add_totals traffic_totals
accumulate_protocols [] bucket = bucket
accumulate_protocols ((proto, []) ∷ protocols) bucket = accumulate_protocols protocols bucket
accumulate_protocols ((proto, s ∷ traffic) ∷ protocols) bucket = accumulate_protocols protocols (
    put proto (as_entry (add_totals (usage_of (get proto bucket)) (traffic_totals (s ∷ traffic))))
      bucket)

unfoldable pub accumulate_protocol_hourly :
    Save → String → String → Dict Traffic → Ledger → File Ledger → Result Ledger × File Ledger
unfolding put bucket_at accumulate_protocols prune save_json
accumulate_protocol_hourly host key cutoff protocols hourly file =
    let after =
      prune cutoff (put key (accumulate_protocols protocols (bucket_at key hourly)) hourly) in
    save_json host after after file
