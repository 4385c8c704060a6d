-- ===== src/Auth/FailClosed.antt =====
-- hysteria/auth_backend.py: what must have held for `authenticate` to return a user.
use hy.Prelude.{ℕ, String, Bool, true, false, ◌≡◌, refl, ◌⊎◌, inl, inr, some, arith, Bool-cases, ap}
use hy.Python.Json.{Fields, object}
use hy.Store.{
  Result, ok, err, lock_timeout, invalid_state, write_failed, durability_uncertain, value_error,
  permission_error, capacity_error, overflow_error, attribute_error, type_error, recursion_error,
  state_unavailable, invalid_request, >>=-ok,
}
use hy.Users.{is_valid_username}
use hy.Users.Rules.{is_metered, total_quota_bytes}
use hy.Display.{Multiplier}
use hy.Auth.Counts.{deadline_expired}
use hy.Auth.User.{read_user}
use hy.Auth.Meaning.{HoldsActive, Digests, read_user-HoldsActive, read_user-Digests}
use hy.Auth.Accepted.{HasSecret, verify_user_credential-HasSecret}
use hy.Auth.Quota.{
  Policy, within_quota, read_ledgers, cycle_usage, below_quota, unless_invalid, unless_unavailable,
}
use hy.Auth.Decision.{
  Setting, Request, Visit, Server, Answer, authenticate, with_user, confirm, source_of,
}
use hy.Auth.Stages.{
  SlotGranted, credential_accepted, WithinQuota, failed_none, confirmed_same,
  with_credential_granted,
}

unless_invalid_ok {ℓ} :
    {A : Type ℓ} (read : Result A) (next : A → Result Bool)
    → unless_invalid read next ≡ ok true
    → (a : A) × (read ≡ ok a) × (next a ≡ ok true)
unless_invalid_ok (ok a) next h = (a, refl, h)
unless_invalid_ok (err lock_timeout) next h = absurd (ground arith)
unless_invalid_ok (err invalid_state) next h = absurd (ground arith)
unless_invalid_ok (err write_failed) next h = absurd (ground arith)
unless_invalid_ok (err durability_uncertain) next h = absurd (ground arith)
unless_invalid_ok (err value_error) next h = absurd (ground arith)
unless_invalid_ok (err permission_error) next h = absurd (ground arith)
unless_invalid_ok (err capacity_error) next h = absurd (ground arith)
unless_invalid_ok (err overflow_error) next h = absurd (ground arith)
unless_invalid_ok (err attribute_error) next h = absurd (ground arith)
unless_invalid_ok (err type_error) next h = absurd (ground arith)
unless_invalid_ok (err recursion_error) next h = absurd (ground arith)
unless_invalid_ok (err state_unavailable) next h = absurd (ground arith)
unless_invalid_ok (err invalid_request) next h = absurd (ground arith)

unless_unavailable_ok {ℓ} :
    {A : Type ℓ} (read : Result A) (next : A → Result Bool)
    → unless_unavailable read next ≡ ok true
    → (a : A) × (read ≡ ok a) × (next a ≡ ok true)
unless_unavailable_ok (ok a) next h = (a, refl, h)
unless_unavailable_ok (err lock_timeout) next h = absurd (ground arith)
unless_unavailable_ok (err invalid_state) next h = absurd (ground arith)
unless_unavailable_ok (err write_failed) next h = absurd (ground arith)
unless_unavailable_ok (err durability_uncertain) next h = absurd (ground arith)
unless_unavailable_ok (err value_error) next h = absurd (ground arith)
unless_unavailable_ok (err permission_error) next h = absurd (ground arith)
unless_unavailable_ok (err capacity_error) next h = absurd (ground arith)
unless_unavailable_ok (err overflow_error) next h = absurd (ground arith)
unless_unavailable_ok (err attribute_error) next h = absurd (ground arith)
unless_unavailable_ok (err type_error) next h = absurd (ground arith)
unless_unavailable_ok (err recursion_error) next h = absurd (ground arith)
unless_unavailable_ok (err state_unavailable) next h = absurd (ground arith)
unless_unavailable_ok (err invalid_request) next h = absurd (ground arith)

below_quota_holds :
    (p : Policy) (user : Fields) (used : ℕ) (m : Multiplier)
    → below_quota p user used m ≡ ok true
    → (quota : ℕ) × (total_quota_bytes (object user) ≡ ok quota)
      × ((quota ≡ 0) ⊎ (p.reaches used m quota ≡ false))
unfolding below_quota
below_quota_holds p user used m h =
    let (quota, e, k) = >>=-ok (total_quota_bytes (object user)) _ h in
    (
      quota,
      e,
      elim (Bool-cases (p.reaches used m quota)) [
        | inl reached ↦ inl (ground (arith, k, reached))
        | inr below ↦ inr below
      ],
    )

within_quota_holds :
    (s : Setting) (v : Visit) (r : Request) (user : Fields)
    → within_quota s.policy v.ledgers r.username user ≡ ok true
    → WithinQuota s v r user
unfolding within_quota
within_quota_holds s v r user h = elim (Bool-cases (is_metered (object user))) [
  | inr unmetered ↦ inl unmetered
  | inl metered ↦
      let opened : unless_invalid (read_ledgers s.policy v.ledgers) (λ (meta, daily, m).
        unless_unavailable (cycle_usage s.policy v.ledgers r.username meta daily)
          (λ used. below_quota s.policy user used m))
          ≡ ok true =
        ground (arith, h, metered) in
      let ((meta, daily, m), read, k) =
        unless_invalid_ok (read_ledgers s.policy v.ledgers) _ opened in
      let (used, counted, l) =
        unless_unavailable_ok (cycle_usage s.policy v.ledgers r.username meta daily) _ k in
      let (quota, e, below) = below_quota_holds s.policy user used m l in
      inr (meta, daily, m, used, quota, read, counted, e, below)
]

with_user_granted :
    (s : Setting) (v : Visit) (r : Request) (server server' : Server) (u : String)
    (read : Result (Fields × String))
    → with_user s v r server read ≡ (ok (some u), server')
    → (user : Fields) × (generation : String) × (read ≡ ok (user, generation))
      × (credential_accepted s v r user server ≡ true)
      × (within_quota s.policy v.ledgers r.username user ≡ ok true)
      × SlotGranted s v r user server server'
      × (confirm s v r generation ≡ ok (some u))
unfolding with_user
with_user_granted s v r server server' u (err f) h =
    absurd (failed_none f u (ap (λ (p : Answer × Server). p.0) h))
with_user_granted s v r server server' u (ok (user, generation)) h =
    let (accepted, below, slot, done) =
      with_credential_granted s v r u user generation server server' _ h in
    (user, generation, refl, accepted, below, slot, done)

-- What a returned user means.
abbrev pub Authorized : Setting → Visit → Request → Server → Server → String → Type 0
Authorized s v r server server' u =
    (user current : Fields) × (generation : String) × (u ≡ r.username)
    × (is_valid_username r.username ≡ true)
    × (deadline_expired r.deadline v.entered ≡ false)
    × (deadline_expired r.deadline v.left ≡ false)
    × HoldsActive s.users v.users_before r.username v.today_before user
    × HoldsActive s.users v.users_after r.username v.today_after current
    × Digests s.canonical user generation
    × Digests s.canonical current generation
    × HasSecret s.crypto user r.password (source_of r.source r.addr) r.deadline v.clock
        r.allow_password server.limiter
    × WithinQuota s v r user
    × SlotGranted s v r user server server'

-- `authenticate` returns a user only if it is the one of the request, under a valid name, and the deadline,
-- if there is one, had passed neither on entry nor at the end. The object that users.json held under the
-- name, and the one that it holds when it is read again, are each not disabled and not past an expiry, and
-- the digests of both are the same. The secret's bytes are those of the user's token, which is not empty;
-- or passwords were allowed, the stored hash is of `pbkdf2_sha256`, with 100,000 to 1,000,000 rounds and
-- a salt of 16 bytes, its digest of 32 bytes is the one that the secret has with them, and the limiter, if
-- there is one, granted a lease. A metered user's traffic in the cycle, from sound ledgers, did not reach
-- the quota, if there is one; and a user whose devices are limited was granted a slot.
pub authenticate_fail_closed :
    (s : Setting) (v : Visit) (r : Request) (server server' : Server) (u : String)
    → authenticate s v r server ≡ (ok (some u), server')
    → Authorized s v r server server' u
unfolding authenticate
authenticate_fail_closed s v r server server' u h =
    elim (Bool-cases (is_valid_username r.username)) [
      | inr invalid ↦ absurd (ground (arith, h, invalid))
      | inl valid ↦ elim (Bool-cases (deadline_expired r.deadline v.entered)) [
        | inl late ↦ absurd (ground (arith, h, valid, late))
        | inr early ↦
            let opened : with_user s v r server
                  (read_user s.users s.canonical v.users_before r.username v.today_before)
                ≡ (ok (some u), server') =
              ground (arith, h, valid, early) in
            let (user, generation, read, accepted, below, slot, done) =
              with_user_granted s v r server server' u _ opened in
            let (same, intime, (current, again)) =
              confirmed_same s v r u generation
                (read_user s.users s.canonical v.users_after r.username v.today_after)
                (unfold confirm in done) in
            let (before, passes) =
              read_user-HoldsActive s.users s.canonical v.users_before r.username v.today_before
                user generation read in
            let (after, passes_again) =
              read_user-HoldsActive s.users s.canonical v.users_after r.username v.today_after
                current generation again in
            (
              user,
              current,
              generation,
              same,
              valid,
              early,
              intime,
              before,
              after,
              read_user-Digests s.users s.canonical v.users_before r.username v.today_before user
                  generation read,
              read_user-Digests s.users s.canonical v.users_after r.username v.today_after current
                  generation again,
              verify_user_credential-HasSecret s.users s.crypto user r.password
                  (source_of r.source r.addr) r.deadline v.clock r.allow_password server.limiter
                  passes accepted,
              within_quota_holds s v r user below,
              slot,
            )
      ]
    ]
