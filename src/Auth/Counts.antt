-- ===== src/Auth/Counts.antt =====
-- hysteria/auth_backend.py, `get_online_counts`: the live online counts, or a fresh snapshot of them.
use hy.Prelude.{
  ℕ, ◌+◌, ◌-◌, Bool, false, not, ◌||◌, Option, none, some, min, ltb, leb, ◌==◌, if◌then◌else◌,
}
use hy.Dict.{Dict}
use hy.Python.Json.{Value}
use hy.Store.{
  Result, ok, err, invalid_state, state_unavailable, ◌>>=◌, File, absent, corrupt, raises, holds,
}
use hy.Online.{Canonical, Metadata, Stamp, instant, validate_fresh_snapshot}
use hy.Auth.Inputs.{validate_online_counts, object_or_unavailable}

-- Instants are in microseconds.
abbrev pub online_snapshot_ttl : ℕ
online_snapshot_ttl = 20_000_000

abbrev pub online_api_timeout : ℕ
online_api_timeout = 1_500_000

abbrev pub online_response_max_bytes : ℕ
online_response_max_bytes = 1_048_576

abbrev pub metadata_max_bytes : ℕ
metadata_max_bytes = 4096

-- A deadline, if there is one, against the monotonic clock.
unfoldable pub deadline_expired : Option ℕ → ℕ → Bool
deadline_expired none clock = false
deadline_expired (some deadline) clock = leb deadline clock

-- The time that is left, at most `maximum`.
unfoldable pub remaining_timeout : Option ℕ → ℕ → ℕ → Result ℕ
remaining_timeout none maximum clock = ok maximum
remaining_timeout (some deadline) maximum clock =
    if leb deadline clock then err state_unavailable else ok (min maximum (deadline - clock))

-- The API's answer: its status, its size, and its strict JSON, if it is that; none is any exception.
pub record Reply : Type 0 where
  pub status : ℕ
  pub size : ℕ
  pub json : Option Value

-- A file that is read up to a size; what it holds is strict JSON.
pub record Bounded {ℓ} (D : Type ℓ) : Type ℓ where
  pub size : ℕ
  pub file : File D

-- The instants of one call, and what the world shows it.
pub record Call : Type 0 where
  -- The monotonic clock at the start, after the response, and in the fallback.
  pub started : ℕ
  pub answered : ℕ
  pub fallback : ℕ
  pub reply : Option Reply
  pub snapshot : Bounded Value
  -- None is an object without exactly the three fields, or another value.
  pub metadata : Bounded (Option Metadata)
  -- time.time()
  pub now : Stamp

unfoldable pub load_bounded {ℓ} : {D : Type ℓ} → ℕ → Bounded D → Result D
load_bounded maximum b = elim b.file [
  | absent ↦ err state_unavailable
  | corrupt ↦ err state_unavailable
  | raises f ↦ if ltb maximum b.size then err state_unavailable else err f
  | holds d ↦ if ltb maximum b.size then err state_unavailable else ok d
]

unfoldable pub parsed_reply : Option ℕ → ℕ → Reply → Result (Dict ℕ)
unfolding deadline_expired validate_online_counts
parsed_reply deadline answered reply =
    if not (reply.status == 200)
      || deadline_expired deadline answered
      || ltb online_response_max_bytes reply.size
    then err state_unavailable
    else elim reply.json [ none ↦ err state_unavailable | some v ↦ validate_online_counts v ]

-- The live part; every exception of it stands for the fault.
unfoldable pub live_counts : Option ℕ → Call → Result (Dict ℕ)
unfolding remaining_timeout parsed_reply
live_counts deadline call =
    remaining_timeout deadline online_api_timeout call.started >>= λ timeout. elim call.reply [
      | none ↦ err state_unavailable
      | some reply ↦ parsed_reply deadline call.answered reply
    ]

-- The end of the fallback: StateUnavailable and InvalidOnlineSnapshot are a StateUnavailable, and another
-- exception goes on.
abbrev pub unavailable {ℓ} : {A : Type ℓ} → Result A → Result A
unavailable (ok a) = ok a
unavailable (err invalid_state) = err state_unavailable
unavailable (err e) = err e

unfoldable pub snapshot_counts : Canonical → Call → Result (Dict ℕ)
unfolding load_bounded validate_fresh_snapshot validate_online_counts
snapshot_counts lib call = load_bounded online_response_max_bytes call.snapshot >>= λ snapshot.
    object_or_unavailable snapshot >>= λ fields.
    load_bounded metadata_max_bytes call.metadata >>= λ metadata.
    validate_fresh_snapshot lib snapshot metadata call.now (instant online_snapshot_ttl)
    >>= λ fresh. validate_online_counts fresh

unfoldable pub or_snapshot : Canonical → Option ℕ → Bool → Call → Result (Dict ℕ) → Result (Dict ℕ)
unfolding deadline_expired snapshot_counts
or_snapshot lib deadline allow_snapshot call (ok counts) = ok counts
or_snapshot lib deadline allow_snapshot call (err e) =
    if deadline_expired deadline call.fallback || not allow_snapshot
    then err state_unavailable
    else unavailable (snapshot_counts lib call)

-- The deadline of the request: the one given, or the API's timeout from now.
abbrev request_deadline : Option ℕ → ℕ → Option ℕ
request_deadline (some deadline) started = some deadline
request_deadline none started = some (started + online_api_timeout)

unfoldable pub get_online_counts : Canonical → Option ℕ → Bool → Call → Result (Dict ℕ)
unfolding live_counts or_snapshot
get_online_counts lib deadline allow_snapshot call =
    or_snapshot lib (request_deadline deadline call.started) allow_snapshot call
      (live_counts (request_deadline deadline call.started) call)
