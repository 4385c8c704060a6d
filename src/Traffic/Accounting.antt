-- ===== src/Traffic/Accounting.antt =====
-- What a tick adds to a ledger, and what merging sources keeps.
use hy.Prelude.{
  ◌+◌, String, not, ◌≡◌, refl, sym, ◌∙◌, inl, inr, none, some, [], ◌∷◌, arith, str_eq,
  if◌then◌else◌, Bool-cases, Option-cases, ap, ℕ, Option, true, false, ◌⊎◌,
}
use hy.Dict.{get, put, get-keep_items_key, Distinct}
use hy.Text.{text_lt}
use hy.Store.{ok, File, holds, Save, durable, refused, uncertain, save_json}
use hy.Traffic.{
  Stat, Traffic, Usage, Entry, bytes, fields, Bucket, Ledger, usage_of, stat_of, merge_stat,
  merge_traffic, add_usage, accumulate, bucket_at, prune, tick, accumulate_daily, traffic_totals,
}
use hy.Traffic.Buckets.{accounted, added, accounted-tick}

-- What an entry says, without the code's normalization: a bare count is received bytes, a missing
-- direction counts 0, and a missing total the sum of both.
abbrev pub tx_of : Option Entry → ℕ
tx_of none = 0
tx_of (some (bytes n)) = 0
tx_of (some (fields none r total)) = 0
tx_of (some (fields (some t) r total)) = t

abbrev pub rx_of : Option Entry → ℕ
rx_of none = 0
rx_of (some (bytes n)) = n
rx_of (some (fields t none total)) = 0
rx_of (some (fields t (some r) total)) = r

abbrev pub total_of : Option Entry → ℕ
total_of none = 0
total_of (some (bytes n)) = n
total_of (some (fields t r none)) = tx_of (some (fields t r none)) + rx_of (some (fields t r none))
total_of (some (fields t r (some n))) = n

usage_of-parts :
    (e : Option Entry) → usage_of e ≡ record { tx = tx_of e; rx = rx_of e; total = total_of e }
unfolding usage_of
usage_of-parts none = refl
usage_of-parts (some (bytes n)) = refl
usage_of-parts (some (fields none none none)) = refl
usage_of-parts (some (fields none none (some n))) = refl
usage_of-parts (some (fields none (some r) none)) = refl
usage_of-parts (some (fields none (some r) (some n))) = refl
usage_of-parts (some (fields (some t) none none)) = refl
usage_of-parts (some (fields (some t) none (some n))) = refl
usage_of-parts (some (fields (some t) (some r) none)) = refl
usage_of-parts (some (fields (some t) (some r) (some n))) = refl

abbrev pub entry_in : String → Option Bucket → Option Entry
entry_in user none = none
entry_in user (some bucket) = get user bucket

-- The entry of a user in a bucket, if there are both.
abbrev pub entry : String → String → Ledger → Option Entry
entry user j ledger = entry_in user (get j ledger)

entry_in-bucket :
    (user : String) (o : Option Bucket)
    → get user (elim o [ none ↦ [] | some bucket ↦ bucket ]) ≡ entry_in user o
unfolding get
entry_in-bucket user none = refl
entry_in-bucket user (some bucket) = refl

entry-bucket_at :
    (user j : String) (ledger : Ledger) → get user (bucket_at j ledger) ≡ entry user j ledger
unfolding bucket_at
entry-bucket_at user j ledger = entry_in-bucket user (get j ledger)

accounted-entry :
    (user j : String) (ledger : Ledger)
    → accounted user j ledger ≡ record {
      tx = tx_of (entry user j ledger);
      rx = rx_of (entry user j ledger);
      total = total_of (entry user j ledger);
    }
accounted-entry user j ledger =
    ap usage_of (entry-bucket_at user j ledger) ∙ usage_of-parts (entry user j ledger)

-- The bytes that a user sent and received in the traffic of a tick on the bucket `key`, for the bucket `j`.
abbrev pub sent : String → String → String → Traffic → ℕ
sent user j key traffic =
    if str_eq key j then (elim (get user traffic) [ none ↦ 0 | some stat ↦ stat.tx ]) else 0

abbrev pub received : String → String → String → Traffic → ℕ
received user j key traffic =
    if str_eq key j then (elim (get user traffic) [ none ↦ 0 | some stat ↦ stat.rx ]) else 0

added-parts :
    (user j key : String) (traffic : Traffic)
    → added user j key traffic
      ≡ record { tx = sent user j key traffic; rx = received user j key traffic }
unfolding stat_of
added-parts user j key traffic = elim (Bool-cases (str_eq key j)) [
  | inr other ↦ rw other refl
  | inl same ↦ elim (Option-cases (get user traffic)) [
    | inl absent ↦ rw (same, absent) refl
    | inr (stat, here) ↦ rw (same, here) refl
  ]
]

-- What a tick leaves of a bucket: nothing of one before the cutoff; and of another, each user's entry has
-- what it had, with the bytes that the user sent and received, if it is the tick's bucket.
abbrev pub Ticked : String → String → String → String → Traffic → Ledger → Ledger → Type 0
Ticked user j key cutoff traffic daily after =
    ((text_lt j cutoff ≡ true) × (get j after ≡ none))
    ⊎ ((text_lt j cutoff ≡ false)
        × (tx_of (entry user j after) ≡ tx_of (entry user j daily) + sent user j key traffic)
        × (rx_of (entry user j after) ≡ rx_of (entry user j daily) + received user j key traffic)
        × (total_of (entry user j after)
            ≡ total_of (entry user j daily)
              + (sent user j key traffic + received user j key traffic)))

kept_parts :
    (user j key cutoff : String) (traffic : Traffic) (daily : Ledger)
    → Distinct traffic
    → text_lt j cutoff ≡ false
    → let e = entry user j (tick key cutoff traffic daily) in
      ◌≡◌ {A = Usage}
        (record { tx = tx_of e; rx = rx_of e; total = total_of e })
        (add_usage
          (record {
            tx = tx_of (entry user j daily);
            rx = rx_of (entry user j daily);
            total = total_of (entry user j daily);
          })
          (record { tx = sent user j key traffic; rx = received user j key traffic }))
kept_parts user j key cutoff traffic daily d kept =
    sym (accounted-entry user j (tick key cutoff traffic daily))
    ∙ accounted-tick key cutoff user j traffic daily d
    ∙ rw (kept, added-parts user j key traffic, accounted-entry user j daily) refl

tick-Ticked :
    (user j key cutoff : String) (traffic : Traffic) (daily : Ledger)
    → Distinct traffic
    → Ticked user j key cutoff traffic daily (tick key cutoff traffic daily)
unfolding add_usage
tick-Ticked user j key cutoff traffic daily d = elim (Bool-cases (text_lt j cutoff)) [
  | inl old ↦ inl (
    old,
    unfold tick prune in
        ground (
          arith,
          old,
          get-keep_items_key (λ k. not (text_lt k cutoff)) j
              (put key (accumulate traffic (bucket_at key daily)) daily),
        ),
  )
  | inr kept ↦
      let parts = kept_parts user j key cutoff traffic daily d kept in
      inr (
        kept,
        ap (λ (u : Usage). u.tx) parts,
        ap (λ (u : Usage). u.rx) parts,
        ap (λ (u : Usage). u.total) parts,
      )
]

-- A tick of the daily ledger that returns has saved what it returns. There, no bucket before the cutoff
-- is left; and in every other bucket, each user's entry has what it had, in `tx`, `rx` and `total`,
-- with, in the tick's bucket, the bytes that the user sent and received in this tick. An entry that is
-- missing counts 0, a bare number counts as received bytes, and a missing total is the sum of both
-- directions. The traffic's users are distinct.
pub accumulate_daily_lem :
    (host : Save) (key cutoff : String) (traffic : Traffic) (daily after : Ledger)
    (file file' : File Ledger) (user j : String)
    → Distinct traffic
    → accumulate_daily host key cutoff traffic daily file ≡ (ok after, file')
    → (file' ≡ holds after) × Ticked user j key cutoff traffic daily after
unfolding accumulate_daily save_json
accumulate_daily_lem durable key cutoff traffic daily after file file' user j d e =
    let same : after ≡ tick key cutoff traffic daily = ground arith in
    (ground arith, rw same (tick-Ticked user j key cutoff traffic daily d))
accumulate_daily_lem refused key cutoff traffic daily after file file' user j d e =
    absurd (ground arith)
accumulate_daily_lem uncertain key cutoff traffic daily after file file' user j d e =
    absurd (ground arith)

traffic_totals-put :
    (uid : String) (w : Stat) (d : Traffic)
    → (traffic_totals (put uid w d)).total + ((stat_of (get uid d)).tx + (stat_of (get uid d)).rx)
      ≡ (traffic_totals d).total + (w.tx + w.rx)
unfolding traffic_totals put get stat_of
traffic_totals-put uid w [] = omega arith
traffic_totals-put uid w ((v, t) ∷ d) = elim (Bool-cases (str_eq v uid)) [
  | inl e ↦ rw e (omega arith)
  | inr e ↦ rw e (omega (arith, traffic_totals-put uid w d))
]

-- Merging a source into the traffic of a tick keeps every byte: the total is the sum of both totals.
-- The users of the merged source need not be distinct.
pub merge_traffic_total :
    (dst src : Traffic)
    → (traffic_totals (merge_traffic dst src)).total
      ≡ (traffic_totals dst).total + (traffic_totals src).total
unfolding merge_traffic traffic_totals merge_stat
merge_traffic_total dst [] = omega arith
merge_traffic_total dst ((uid, s) ∷ src) = omega (
  arith,
  merge_traffic_total (put uid (merge_stat (stat_of (get uid dst)) s) dst) src,
  traffic_totals-put uid (merge_stat (stat_of (get uid dst)) s) dst,
)
