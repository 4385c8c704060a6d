-- ===== src/Auth/Decision.antt =====
-- hysteria/auth_backend.py, `authenticate`: the decision, on every path.
use hy.Prelude.{
  ℕ, zero, suc, String, Bool, true, false, not, ◌||◌, Option, none, some, List, if◌then◌else◌,
  str_eq,
}
use hy.Dict.{Dict, get}
use hy.Python.Numbers.{pos}
use hy.Python.Json.{Value, int, Fields}
use hy.Store.{
  Fault, Result, ok, err, overflow_error, recursion_error, state_unavailable, File, Host,
}
use hy.Users.{is_valid_username}
use hy.Users.Rules.{field_or}
use hy.Admission.{Ledger, reserve_device_admission}
use hy.Limiter.{Limiter}
use hy.Online.{Canonical}
use hy.Auth.Inputs.{non_negative_integer}
use hy.Auth.Password.{Crypto}
use hy.Auth.Counts.{Call, get_online_counts, deadline_expired}
use hy.Auth.User.{read_user}
use hy.Auth.Credential.{Clock, verify_user_credential}
use hy.Auth.Quota.{Policy, Ledgers, within_quota}

-- The library that a decision uses.
pub record Setting : Type 0 where
  pub policy : Policy
  pub open policy use *
  pub crypto : Crypto
  pub canonical : Canonical

pub record Request : Type 0 where
  pub username : String
  pub password : List ℕ
  pub addr : Option String
  pub source : Option String
  pub deadline : Option ℕ
  pub allow_password : Bool

-- What one call of `authenticate` sees: users.json and the date at its two readings, the ledgers, the
-- online counts, the host's part in the device reservation with its instant, and the clocks.
pub record Visit : Type 0 where
  pub users_before : File Value
  pub today_before : ℕ
  pub users_after : File Value
  pub today_after : ℕ
  pub ledgers : Ledgers
  pub online : Call
  pub host : Host
  pub instant : ℕ
  pub entered : ℕ
  pub clock : Clock
  pub left : ℕ

-- What a call changes: the ledger of device slots, and the limiter of password work, if there is one.
pub record Server : Type 0 where
  pub slots : File Ledger
  pub limiter : Option Limiter

-- `None`, a user, or an exception.
abbrev pub Answer : Type 0
Answer = Result (Option String)

-- source or addr or "unknown"
unfoldable pub source_of : Option String → Option String → String
source_of none none = "unknown"
source_of none (some addr) = if str_eq addr "" then "unknown" else addr
source_of (some source) none = if str_eq source "" then "unknown" else source
source_of (some source) (some addr) =
    if str_eq source "" then (if str_eq addr "" then "unknown" else addr) else source

-- The end of a `try` block: StateUnavailable is answered with None, another exception goes on.
abbrev pub failed : Fault → Answer
failed state_unavailable = ok none
failed fault = err fault

-- The second reading of users.json, compared with the first.
unfoldable pub confirmed : Setting → Visit → Request → String → Result (Fields × String) → Answer
unfolding deadline_expired
confirmed s v r generation (err fault) = failed fault
confirmed s v r generation (ok (user, current)) =
    if deadline_expired r.deadline v.left || not (str_eq generation current)
    then ok none
    else ok (some r.username)

unfoldable pub confirm : Setting → Visit → Request → String → Answer
confirm s v r generation =
    confirmed s v r generation
      (read_user s.users s.canonical v.users_after r.username v.today_after)

-- The reservation's fault: `reserve_device_admission` turns an OSError or a ValueError into a
-- StateUnavailable, and the latter is answered with None; another exception goes on.
abbrev pub unreserved : Fault → Answer
unreserved overflow_error = err overflow_error
unreserved recursion_error = err recursion_error
unreserved fault = ok none

unfoldable pub after_slot :
    Setting → Visit → Request → String → Server → Result Bool × File Ledger → Answer × Server
after_slot s v r generation server (err fault, slots) =
    (unreserved fault, record server { slots = slots })
after_slot s v r generation server (ok false, slots) = (ok none, record server { slots = slots })
after_slot s v r generation server (ok true, slots) =
    (confirm s v r generation, record server { slots = slots })

unfoldable pub online_count : Dict ℕ → String → ℕ
unfolding get
online_count counts username = elim (get username counts) [ none ↦ 0 | some n ↦ n ]

unfoldable pub with_counts :
    Setting → Visit → Request → String → ℕ → Server → Result (Dict ℕ) → Answer × Server
with_counts s v r generation max_devices server (err fault) = (failed fault, server)
with_counts s v r generation max_devices server (ok counts) = after_slot s v r generation server (
    reserve_device_admission v.host r.username max_devices (online_count counts r.username)
      v.instant server.slots)

unfoldable pub with_devices :
    Setting → Visit → Request → String → Server → Result ℕ → Answer × Server
with_devices s v r generation server (err fault) = (err fault, server)
with_devices s v r generation server (ok zero) = (confirm s v r generation, server)
with_devices s v r generation server (ok (suc n)) =
    with_counts s v r generation (suc n) server
      (get_online_counts s.canonical r.deadline true v.online)

-- user.get("max_devices", 0), outside every `try` block
unfoldable pub max_devices : Fields → Result ℕ
unfolding non_negative_integer field_or
max_devices user = non_negative_integer (field_or (int (pos 0)) "max_devices" user)

unfoldable pub with_quota :
    Setting → Visit → Request → Fields → String → Server → Result Bool → Answer × Server
with_quota s v r user generation server (err fault) = (err fault, server)
with_quota s v r user generation server (ok false) = (ok none, server)
with_quota s v r user generation server (ok true) =
    with_devices s v r generation server (max_devices user)

unfoldable pub with_credential :
    Setting → Visit → Request → Fields → String → Server → Bool × Option Limiter → Answer × Server
with_credential s v r user generation server (false, limiter) =
    (ok none, record server { limiter = limiter })
with_credential s v r user generation server (true, limiter) =
    with_quota s v r user generation (record server { limiter = limiter })
      (within_quota s.policy v.ledgers r.username user)

unfoldable pub with_user :
    Setting → Visit → Request → Server → Result (Fields × String) → Answer × Server
with_user s v r server (err fault) = (failed fault, server)
with_user s v r server (ok (user, generation)) = with_credential s v r user generation server (
    verify_user_credential s.users s.crypto user r.password (source_of r.source r.addr) r.deadline
      v.clock r.allow_password server.limiter)

unfoldable pub authenticate : Setting → Visit → Request → Server → Answer × Server
authenticate s v r server =
    if not (is_valid_username r.username) || deadline_expired r.deadline v.entered
    then (ok none, server)
    else with_user s v r server
        (read_user s.users s.canonical v.users_before r.username v.today_before)
