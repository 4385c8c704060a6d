-- ===== src/Limiter.antt =====
-- hysteria/auth_service.py, `PasswordWorkLimiter` and `_PasswordWorkLease`: the budget of PBKDF2 work.
-- Instants of the monotonic clock are natural numbers, and `event <= now - window` is written without
-- the subtraction. The lock makes each method atomic, so a method is a function on the state. A lease
-- is the index of its `_released` flag in `leases`.
pub mod Bounds
pub mod Rate
use hy.Prelude.{
  ℕ, zero, suc, ◌+◌, ◌-◌, String, Bool, true, false, not, ◌&&◌, ◌||◌, Option, none, some, List, [],
  ◌∷◌, ◌++◌, ltb, leb, ◌==◌, str_eq, if◌then◌else◌, length,
}
use hy.Dict.{Dict, get, put, remove}
use hy.Text.{len}

pub record Config : Type 0 where
  pub window : ℕ
  pub per_source_burst : ℕ
  pub global_burst : ℕ
  pub max_sources : ℕ
  pub max_concurrent : ℕ

pub record Limiter : Type 0 where
  pub config : Config
  pub open config use *
  pub global_attempts : List ℕ
  pub sources : Dict (List ℕ)
  -- How many times the semaphore can be acquired.
  pub permits : ℕ
  -- The `_released` flags of the leases that were handed out, the oldest first.
  pub leases : List Bool

-- The tests of the constructor: every bound is positive.
unfoldable pub config_valid : Config → Bool
config_valid c =
    ltb 0 c.window
    && ltb 0 c.per_source_burst
    && ltb 0 c.global_burst
    && ltb 0 c.max_sources
    && ltb 0 c.max_concurrent

-- `PasswordWorkLimiter(...)`: none is its `ValueError`.
unfoldable pub init : Config → Option Limiter
unfolding config_valid
init c =
    if config_valid c
    then some (record {
      config = c;
      global_attempts = [];
      sources = [];
      permits = c.max_concurrent;
      leases = [];
    })
    else none

-- while events and events[0] <= now - window: events.popleft()
unfoldable pub prune : ℕ → ℕ → List ℕ → List ℕ
prune window now [] = []
prune window now (e ∷ events) =
    let rest = prune window now events in if leb (e + window) now then rest else e ∷ events

abbrev pub is_nil : List ℕ → Bool
is_nil [] = true
is_nil (e ∷ events) = false

unfoldable pub cleanup_sources : ℕ → ℕ → Dict (List ℕ) → Dict (List ℕ)
unfolding prune
cleanup_sources window now [] = []
cleanup_sources window now ((source, events) ∷ d) =
    let kept = prune window now events in
    let rest = cleanup_sources window now d in if is_nil kept then rest else (source, kept) ∷ rest

-- while len(sources) >= max_sources: sources.popitem(last=False)
unfoldable pub evict : ℕ → Dict (List ℕ) → Dict (List ℕ)
evict max_sources [] = []
evict max_sources (s ∷ d) =
    let rest = evict max_sources d in if leb max_sources (length (s ∷ d)) then rest else s ∷ d

-- Room for a source that is not tracked.
unfoldable pub make_room : Limiter → ℕ → Dict (List ℕ) → Dict (List ℕ)
unfolding cleanup_sources evict
make_room l now d =
    evict l.max_sources (if leb l.max_sources (length d) then cleanup_sources l.window now d else d)

-- The tracked sources without `source`, and its events.
unfoldable pub take_source : Limiter → String → ℕ → Dict (List ℕ) × List ℕ
unfolding get remove make_room prune
take_source l source now = elim (get source l.sources) [
  | none ↦ (make_room l now l.sources, [])
  | some events ↦ (remove source l.sources, prune l.window now events)
]

-- The state when the budgets are tested: pruned, with the source tracked last.
unfoldable pub tracked : Limiter → String → ℕ → Limiter
unfolding take_source prune
tracked l source now = record l {
  global_attempts = prune l.window now l.global_attempts;
  sources = (take_source l source now).0 ++ (source, (take_source l source now).1) ∷ [];
}

unfoldable pub exhausted : Limiter → String → ℕ → Bool
unfolding take_source prune
exhausted l source now =
    leb l.global_burst (length (prune l.window now l.global_attempts))
    || leb l.per_source_burst (length (take_source l source now).1)

unfoldable pub granted : Limiter → String → ℕ → Limiter
unfolding take_source prune
granted l source now = record l {
  global_attempts = prune l.window now l.global_attempts ++ now ∷ [];
  sources = (take_source l source now).0 ++ (source, (take_source l source now).1 ++ now ∷ []) ∷ [];
  permits = l.permits - 1;
  leases = l.leases ++ false ∷ [];
}

unfoldable pub acceptable : String → Option ℕ → ℕ → Bool
unfolding len
acceptable source deadline now =
    not (str_eq source "")
    && leb (len source) 128
    && (elim deadline [ none ↦ true | some d ↦ ltb now d ])

-- A lease, if there is one, is the index of its flag.
unfoldable pub try_acquire : Limiter → String → Option ℕ → ℕ → Limiter × Option ℕ
unfolding acceptable exhausted tracked granted
try_acquire l source deadline now =
    if not (acceptable source deadline now)
    then (l, none)
    else if exhausted l source now || l.permits == 0
    then (tracked l source now, none)
    else (granted l source now, some (length l.leases))

unfoldable pub released? : List Bool → ℕ → Bool
released? [] i = true
released? (r ∷ rs) zero = r
released? (r ∷ rs) (suc i) = released? rs i

unfoldable pub mark_released : List Bool → ℕ → List Bool
mark_released [] i = []
mark_released (r ∷ rs) zero = true ∷ rs
mark_released (r ∷ rs) (suc i) = r ∷ mark_released rs i

-- `_PasswordWorkLease.release`
unfoldable pub release : Limiter → ℕ → Limiter
unfolding released? mark_released
release l lease =
    if released? l.leases lease
    then l
    else record l { permits = l.permits + 1; leases = mark_released l.leases lease }

unfoldable pub tracked_source_count : Limiter → ℕ
tracked_source_count l = length l.sources
