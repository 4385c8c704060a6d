-- ===== src/Traffic/Buckets.antt =====
-- hysteria/traffic_limiter.py: the usage that a bucket holds after a tick, in the terms of the code.
use hy.Prelude.{
  String, not, ◌≡◌, refl, sym, ◌∙◌, inl, inr, none, some, [], ◌∷◌, arith, str_eq, str_eq_iff,
  str_eq_refl, if◌then◌else◌, Bool-cases,
}
use hy.Dict.{get, put, get-put, get-put_self, get-keep_items_key, Distinct}
use hy.Text.{text_lt}
use hy.Traffic.{
  Stat, Traffic, Usage, Bucket, Ledger, usage_of, stat_of, add_usage, as_entry, accumulate,
  bucket_at, prune, tick,
}

abbrev pub no_stat : Stat
no_stat = record { tx = 0; rx = 0 }

usage_of-as_entry : (u : Usage) → usage_of (some (as_entry u)) ≡ u
unfolding usage_of as_entry
usage_of-as_entry u = refl

add_usage_nothing : (u : Usage) → add_usage u no_stat ≡ u
unfolding add_usage
add_usage_nothing u = ground arith

accumulate_usage :
    (user : String) (traffic : Traffic) (bucket : Bucket)
    → Distinct traffic
    → usage_of (get user (accumulate traffic bucket))
      ≡ add_usage (usage_of (get user bucket)) (stat_of (get user traffic))
unfolding accumulate stat_of get
accumulate_usage user [] bucket d = sym (add_usage_nothing (usage_of (get user bucket)))
accumulate_usage user ((uid, stat) ∷ traffic) bucket (fresh, d) =
    let entry = as_entry (add_usage (usage_of (get uid bucket)) stat) in
    accumulate_usage user traffic (put uid entry bucket) d ∙ elim (Bool-cases (str_eq uid user)) [
      | inl e ↦
          rw
            (
              sym ((str_eq_iff uid user).0 e),
              get-put_self uid entry bucket,
              fresh,
              str_eq_refl uid,
              add_usage_nothing (usage_of (some entry)),
            )
            (usage_of-as_entry (add_usage (usage_of (get uid bucket)) stat))
      | inr e ↦ rw (e, get-put uid user entry bucket, e) refl
    ]

bucket_at-put :
    (key j : String) (b : Bucket) (ledger : Ledger)
    → bucket_at j (put key b ledger) ≡ (if str_eq key j then b else bucket_at j ledger)
unfolding bucket_at
bucket_at-put key j b ledger = ground (arith, get-put key j b ledger)

bucket_at-prune :
    (cutoff j : String) (ledger : Ledger)
    → bucket_at j (prune cutoff ledger) ≡ (if text_lt j cutoff then [] else bucket_at j ledger)
unfolding bucket_at prune
bucket_at-prune cutoff j ledger =
    ground (arith, get-keep_items_key (λ key. not (text_lt key cutoff)) j ledger)

-- What a ledger accounts to a user in a bucket.
abbrev pub accounted : String → String → Ledger → Usage
accounted user j ledger = usage_of (get user (bucket_at j ledger))

-- What a tick adds there.
abbrev pub added : String → String → String → Traffic → Stat
added user j key traffic = if str_eq key j then stat_of (get user traffic) else no_stat

pub accounted-tick :
    (key cutoff user j : String) (traffic : Traffic) (ledger : Ledger)
    → Distinct traffic
    → accounted user j (tick key cutoff traffic ledger) ≡ (
        if text_lt j cutoff
        then usage_of none
        else add_usage (accounted user j ledger) (added user j key traffic))
unfolding tick
accounted-tick key cutoff user j traffic ledger d =
    let bucket = accumulate traffic (bucket_at key ledger) in
    elim (Bool-cases (text_lt j cutoff)) [
      | inl old ↦ rw (bucket_at-prune cutoff j (put key bucket ledger), old) (unfold get in refl)
      | inr kept ↦
          rw
            (
              bucket_at-prune cutoff j (put key bucket ledger),
              kept,
              bucket_at-put key j bucket ledger,
            )
            (elim (Bool-cases (str_eq key j)) [
              | inl e ↦
                  rw (sym ((str_eq_iff key j).0 e), str_eq_refl key)
                    (accumulate_usage user traffic (bucket_at key ledger) d)
              | inr e ↦ rw (e) (sym (add_usage_nothing (accounted user j ledger)))
            ])
    ]
