-- ===== src/Limiter/Bounds.antt =====
-- The limiter never passes its bounds, and a lease gives its permit back once.
use hy.Prelude.{
  ℕ, zero, suc, ◌+◌, ◌≤◌, ◌<◌, String, Bool, true, false, ◌≡◌, refl, inl, inr, Option, some, List,
  [], ◌∷◌, ◌++◌, arith, leb, ◌==◌, if◌then◌else◌, length, length-append, Bool-cases, Option-cases,
}
use hy.Dict.{Dict, get, remove, length-remove-le, all_items, all_items-remove, all_items-get}
use hy.Limiter.{
  Config, Limiter, config_valid, init, prune, cleanup_sources, evict, make_room, take_source,
  tracked, exhausted, granted, acceptable, try_acquire, released?, mark_released, release,
}

pub length-prune :
    (window now : ℕ) (events : List ℕ) → length (prune window now events) ≤ length events
unfolding prune
length-prune window now [] = omega arith
length-prune window now (e ∷ events) = ground (arith, length-prune window now events)

-- The leases that have not been released.
abbrev pub outstanding : List Bool → ℕ
outstanding [] = 0
outstanding (r ∷ rs) = if r then outstanding rs else outstanding rs + 1

length-evict : (m : ℕ) (d : Dict (List ℕ)) → 0 < m → length (evict m d) + 1 ≤ m
unfolding evict
length-evict m [] h = omega arith
length-evict m (s ∷ d) h = ground (arith, length-evict m d h)

-- A source that is tracked makes room for itself.
length-remove-lt :
    (k : String) (events : List ℕ) (d : Dict (List ℕ))
    → get k d ≡ some events
    → length (remove k d) + 1 ≤ length d
unfolding get remove
length-remove-lt k events [] h = absurd (ground arith)
length-remove-lt k events ((j, e) ∷ d) h =
    ground (arith, length-remove-lt k events d, length-remove-le k d)

length-take_source :
    (l : Limiter) (source : String) (now : ℕ)
    → 0 < l.max_sources
    → length l.sources ≤ l.max_sources
    → length (take_source l source now).0 + 1 ≤ l.max_sources
unfolding take_source make_room
length-take_source l source now h s = elim (Option-cases (get source l.sources)) [
  | inl e ↦ rw (e, take_source) (length-evict l.max_sources _ h)
  | inr (events, e) ↦
      rw (e, take_source) (omega (arith, length-remove-lt source events l.sources e))
]

-- No source has more events than its burst.
abbrev pub few_events : ℕ → Dict (List ℕ) → Bool
few_events burst = all_items (λ source events. leb (length events) burst)

module _ (burst window now : ℕ) where
  few_events-cleanup :
      (d : Dict (List ℕ))
      → few_events burst d ≡ true
      → few_events burst (cleanup_sources window now d) ≡ true
  unfolding all_items cleanup_sources
  few_events-cleanup [] h = refl
  few_events-cleanup ((k, events) ∷ d) h =
      ground (arith, few_events-cleanup d, length-prune window now events)

few_events-evict :
    (burst m : ℕ) (d : Dict (List ℕ))
    → few_events burst d ≡ true
    → few_events burst (evict m d) ≡ true
unfolding all_items evict
few_events-evict burst m [] h = refl
few_events-evict burst m (s ∷ d) h = ground (arith, few_events-evict burst m d)

few_events-append :
    (burst : ℕ) (d : Dict (List ℕ)) (k : String) (events : List ℕ)
    → few_events burst d ≡ true
    → length events ≤ burst
    → few_events burst (d ++ (k, events) ∷ []) ≡ true
unfolding all_items
few_events-append burst [] k events h le = ground arith
few_events-append burst (s ∷ d) k events h le = ground (arith, few_events-append burst d k events)

few_events-take_source :
    (burst : ℕ) (l : Limiter) (source : String) (now : ℕ)
    → few_events burst l.sources ≡ true
    → (few_events burst (take_source l source now).0 ≡ true)
      × (length (take_source l source now).1 ≤ burst)
unfolding take_source make_room
few_events-take_source burst l source now h = elim (Option-cases (get source l.sources)) [
  | inl e ↦
      rw (e, take_source)
        (
          ground (
            arith,
            few_events-evict burst l.max_sources l.sources h,
            few_events-evict burst l.max_sources (cleanup_sources l.window now l.sources),
            few_events-cleanup burst l.window now l.sources h,
          ),
          omega arith,
        )
  | inr (events, e) ↦
      rw (e, take_source)
        (
          all_items-remove _ source l.sources h,
          ground (
            arith,
            length-prune l.window now events,
            all_items-get (λ source events. leb (length events) burst) source events l.sources h e,
          ),
        )
]

pub record IsBounded (l : Limiter) : Type 0 where
  pub valid : config_valid l.config ≡ true
  pub few_sources : length l.sources ≤ l.max_sources
  pub few_attempts : length l.global_attempts ≤ l.global_burst
  pub few_each : few_events l.per_source_burst l.sources ≡ true
  pub permits_back : l.permits + outstanding l.leases ≡ l.max_concurrent

init-IsBounded : (c : Config) (l : Limiter) → init c ≡ some l → IsBounded l
unfolding init all_items
init-IsBounded c l h = ground arith

valid_sources : (l : Limiter) → config_valid l.config ≡ true → 0 < l.max_sources
unfolding config_valid
valid_sources l h = ground arith

outstanding-append : (rs : List Bool) → outstanding (rs ++ false ∷ []) ≡ outstanding rs + 1
outstanding-append [] = omega arith
outstanding-append (r ∷ rs) = ground (arith, outstanding-append rs)

module _ (l : Limiter) (source : String) (now : ℕ) (v : IsBounded l) where
  tracked-IsBounded : IsBounded (tracked l source now)
  unfolding tracked
  tracked-IsBounded = record {
    valid = v.valid;
    few_sources = omega (
      arith,
      length-append (take_source l source now).0 ((source, (take_source l source now).1) ∷ []),
      length-take_source l source now (valid_sources l v.valid) v.few_sources,
    );
    few_attempts = omega (arith, v.few_attempts, length-prune l.window now l.global_attempts);
    few_each =
        few_events-append l.per_source_burst (take_source l source now).0 source
          (take_source l source now).1
          (few_events-take_source l.per_source_burst l source now v.few_each).0
          (few_events-take_source l.per_source_burst l source now v.few_each).1;
    permits_back = v.permits_back;
  }

  granted-IsBounded :
      exhausted l source now ≡ false → (l.permits == 0) ≡ false → IsBounded (granted l source now)
  unfolding granted exhausted
  granted-IsBounded fresh free = record {
    valid = v.valid;
    few_sources = omega (
      arith,
      length-append (take_source l source now).0
          ((source, (take_source l source now).1 ++ now ∷ []) ∷ []),
      length-take_source l source now (valid_sources l v.valid) v.few_sources,
    );
    few_attempts = ground (arith, length-append (prune l.window now l.global_attempts) (now ∷ []));
    few_each =
        few_events-append l.per_source_burst (take_source l source now).0 source
          ((take_source l source now).1 ++ now ∷ [])
          (few_events-take_source l.per_source_burst l source now v.few_each).0
          (ground (arith, length-append (take_source l source now).1 (now ∷ [])));
    permits_back = ground (arith, outstanding-append l.leases, v.permits_back);
  }

  try_acquire-IsBounded : (deadline : Option ℕ) → IsBounded (try_acquire l source deadline now).0
  unfolding try_acquire
  try_acquire-IsBounded deadline = elim (Bool-cases (acceptable source deadline now)) [
    | inr e ↦ rw e v
    | inl e ↦ elim (Bool-cases (exhausted l source now)) [
      | inl full ↦ rw (e, full) tracked-IsBounded
      | inr fresh ↦ elim (Bool-cases (l.permits == 0)) [
        | inl busy ↦ rw (e, fresh, busy) tracked-IsBounded
        | inr free ↦ rw (e, fresh, free) (granted-IsBounded fresh free)
      ]
    ]
  ]

outstanding-mark_released :
    (rs : List Bool) (i : ℕ)
    → released? rs i ≡ false
    → outstanding (mark_released rs i) + 1 ≡ outstanding rs
unfolding released? mark_released
outstanding-mark_released [] i h = absurd (ground arith)
outstanding-mark_released (r ∷ rs) zero h = ground arith
outstanding-mark_released (r ∷ rs) (suc i) h = ground (arith, outstanding-mark_released rs i h)

release-IsBounded : (l : Limiter) (lease : ℕ) → IsBounded l → IsBounded (release l lease)
unfolding release
release-IsBounded l lease v = elim (Bool-cases (released? l.leases lease)) [
  | inl e ↦ rw e v
  | inr e ↦ rw e (record {
    valid = v.valid;
    few_sources = v.few_sources;
    few_attempts = v.few_attempts;
    few_each = v.few_each;
    permits_back = omega (arith, outstanding-mark_released l.leases lease e, v.permits_back);
  })
]

pub data Call : Type 0 where
  acquires : String → Option ℕ → ℕ → Call
  releases : ℕ → Call

unfoldable pub step : Limiter → Call → Limiter
step l (acquires source deadline now) = (try_acquire l source deadline now).0
step l (releases lease) = release l lease

unfoldable pub run : Limiter → List Call → Limiter
run l [] = l
run l (c ∷ calls) = run (step l c) calls

-- A history keeps the bounds.
run-IsBounded : (l : Limiter) (calls : List Call) → IsBounded l → IsBounded (run l calls)
unfolding run step
run-IsBounded l [] v = v
run-IsBounded l (acquires source deadline now ∷ calls) v =
    run-IsBounded (try_acquire l source deadline now).0 calls
      (try_acquire-IsBounded l source now v deadline)
run-IsBounded l (releases lease ∷ calls) v =
    run-IsBounded (release l lease) calls (release-IsBounded l lease v)

-- After any history of acquisitions and releases on a limiter that its constructor returns: at most
-- `max_sources` sources are tracked, at most `global_burst` attempts are remembered and
-- `per_source_burst` of each source, and the free permits and the outstanding leases together are
-- `max_concurrent`, so that no more than `max_concurrent` leases are outstanding.
pub init-run-IsBounded :
    (c : Config) (l : Limiter) (calls : List Call) → init c ≡ some l → IsBounded (run l calls)
init-run-IsBounded c l calls h = run-IsBounded l calls (init-IsBounded c l h)
