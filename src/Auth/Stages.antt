-- ===== src/Auth/Stages.antt =====
-- hysteria/auth_backend.py: what each stage of `authenticate` says when a user is returned.
use hy.Prelude.{
  ℕ, zero, suc, String, Bool, true, false, ◌≡◌, refl, ◌⊎◌, inl, inr, Option, some, str_eq, arith,
  Bool-cases, str_eq_iff, sym, ap,
}
use hy.Dict.{Dict}
use hy.Python.Json.{Fields, object}
use hy.Store.{
  Fault, Result, ok, err, lock_timeout, invalid_state, write_failed, durability_uncertain,
  value_error, permission_error, capacity_error, overflow_error, attribute_error, type_error,
  recursion_error, state_unavailable, invalid_request, File,
}
use hy.Users.Rules.{is_metered, total_quota_bytes}
use hy.Admission.{Ledger, reserve_device_admission}
use hy.Limiter.{Limiter}
use hy.Display.{Multiplier}
use hy.Auth.Counts.{get_online_counts, deadline_expired}
use hy.Auth.Credential.{verify_user_credential}
use hy.Auth.Quota.{within_quota, read_ledgers, cycle_usage}
use hy.Auth.Decision.{
  Setting, Request, Visit, Server, Answer, with_credential, with_quota, with_devices, with_counts,
  after_slot, confirm, confirmed, max_devices, online_count, source_of, failed,
}

-- A device slot was granted, if the user's devices are limited.
abbrev pub SlotGranted : Setting → Visit → Request → Fields → Server → Server → Type 0
SlotGranted s v r user server server' =
    ((max_devices user ≡ ok 0) × (server'.slots ≡ server.slots))
    ⊎ ((n : ℕ) × (counts : Dict ℕ) × (max_devices user ≡ ok (suc n))
        × (get_online_counts s.canonical r.deadline true v.online ≡ ok counts)
        × (reserve_device_admission v.host r.username (suc n) (online_count counts r.username)
              v.instant server.slots
            ≡ (ok true, server'.slots)))

-- Whether the secret is accepted.
abbrev pub credential_accepted : Setting → Visit → Request → Fields → Server → Bool
credential_accepted s v r user server =
    (verify_user_credential s.users s.crypto user r.password (source_of r.source r.addr) r.deadline
      v.clock r.allow_password server.limiter).0

pub failed_none : (f : Fault) (u : String) → ¬ (failed f ≡ ok (some u))
failed_none lock_timeout u h = absurd (ground arith)
failed_none invalid_state u h = absurd (ground arith)
failed_none write_failed u h = absurd (ground arith)
failed_none durability_uncertain u h = absurd (ground arith)
failed_none value_error u h = absurd (ground arith)
failed_none permission_error u h = absurd (ground arith)
failed_none capacity_error u h = absurd (ground arith)
failed_none overflow_error u h = absurd (ground arith)
failed_none attribute_error u h = absurd (ground arith)
failed_none type_error u h = absurd (ground arith)
failed_none recursion_error u h = absurd (ground arith)
failed_none state_unavailable u h = absurd (ground arith)
failed_none invalid_request u h = absurd (ground arith)

module _ (s : Setting) (v : Visit) (r : Request) (u : String) where
  pub confirmed_same :
      (generation : String) (read : Result (Fields × String))
      → confirmed s v r generation read ≡ ok (some u)
      → (u ≡ r.username)
        × (deadline_expired r.deadline v.left ≡ false)
        × ((current : Fields) × (read ≡ ok (current, generation)))
  unfolding confirmed
  confirmed_same generation (err f) h = absurd (failed_none f u h)
  confirmed_same generation (ok (current, g)) h =
      elim (Bool-cases (deadline_expired r.deadline v.left)) [
        | inl late ↦ absurd (ground (arith, late))
        | inr early ↦ elim (Bool-cases (str_eq generation g)) [
          | inr differs ↦ absurd (ground (arith, early, differs))
          | inl same ↦
              let g_same : generation ≡ g = (str_eq_iff generation g).0 same in
              (
                ground (arith, early, same),
                early,
                (current, ap (λ x. ok (current, x)) (sym g_same)),
              )
        ]
      ]

  after_slot_granted :
      (generation : String) (server server' : Server) (slot : Result Bool × File Ledger)
      → after_slot s v r generation server slot ≡ (ok (some u), server')
      → (slot ≡ (ok true, server'.slots)) × (confirm s v r generation ≡ ok (some u))
  unfolding after_slot
  after_slot_granted generation server server' (err f, slots) h = absurd (ground arith)
  after_slot_granted generation server server' (ok false, slots) h = absurd (ground arith)
  after_slot_granted generation server server' (ok true, slots) h =
      (ap (λ (p : Answer × Server). (ok true, p.1.slots)) h, ap (λ (p : Answer × Server). p.0) h)

  with_counts_granted :
      (generation : String) (n : ℕ) (server server' : Server) (read : Result (Dict ℕ))
      → with_counts s v r generation n server read ≡ (ok (some u), server')
      → (counts : Dict ℕ) × (read ≡ ok counts)
        × (reserve_device_admission v.host r.username n
              (online_count counts r.username)
              v.instant
              server.slots
            ≡ (ok true, server'.slots))
        × (confirm s v r generation ≡ ok (some u))
  unfolding with_counts
  with_counts_granted generation n server server' (err f) h =
      absurd (failed_none f u (ap (λ (p : Answer × Server). p.0) h))
  with_counts_granted generation n server server' (ok counts) h =
      let (granted, done) = after_slot_granted generation server server' _ h in
      (counts, refl, granted, done)

  with_devices_granted :
      (user : Fields) (generation : String) (server server' : Server) (limit : Result ℕ)
      → max_devices user ≡ limit
      → with_devices s v r generation server limit ≡ (ok (some u), server')
      → SlotGranted s v r user server server' × (confirm s v r generation ≡ ok (some u))
  unfolding with_devices
  with_devices_granted user generation server server' (err f) e h = absurd (ground arith)
  with_devices_granted user generation server server' (ok zero) e h = (
    inl (e, sym (ap (λ (p : Answer × Server). p.1.slots) h)),
    ap (λ (p : Answer × Server). p.0) h,
  )
  with_devices_granted user generation server server' (ok (suc n)) e h =
      let (counts, read, granted, done) =
        with_counts_granted generation (suc n) server server' _ h in
      (inr (n, counts, e, read, granted), done)

  with_quota_granted :
      (user : Fields) (generation : String) (server server' : Server) (quota : Result Bool)
      → with_quota s v r user generation server quota ≡ (ok (some u), server')
      → (quota ≡ ok true)
        × SlotGranted s v r user server server'
        × (confirm s v r generation ≡ ok (some u))
  unfolding with_quota
  with_quota_granted user generation server server' (err f) h = absurd (ground arith)
  with_quota_granted user generation server server' (ok false) h = absurd (ground arith)
  with_quota_granted user generation server server' (ok true) h =
      let (granted, done) =
        with_devices_granted user generation server server' (max_devices user) refl h in
      (refl, granted, done)

  pub with_credential_granted :
      (user : Fields) (generation : String) (server server' : Server)
      (checked : Bool × Option Limiter)
      → with_credential s v r user generation server checked ≡ (ok (some u), server')
      → (checked.0 ≡ true)
        × (within_quota s.policy v.ledgers r.username user ≡ ok true)
        × SlotGranted s v r user server server'
        × (confirm s v r generation ≡ ok (some u))
  unfolding with_credential
  with_credential_granted user generation server server' (false, limiter) h = absurd (ground arith)
  with_credential_granted user generation server server' (true, limiter) h =
      let (below, granted, done) =
        with_quota_granted user generation (record server { limiter = limiter }) server' _ h in
      (refl, below, granted, done)

-- A metered user's traffic in the cycle, read from sound files, does not reach the quota, if there is one.
abbrev pub WithinQuota : Setting → Visit → Request → Fields → Type 0
WithinQuota s v r user =
    (is_metered (object user) ≡ false)
    ⊎ ((meta daily : Fields) × (m : Multiplier) × (used quota : ℕ) × (read_ledgers s.policy
            v.ledgers
          ≡ ok (meta, daily, m))
        × (cycle_usage s.policy v.ledgers r.username meta daily ≡ ok used)
        × (total_quota_bytes (object user) ≡ ok quota)
        × ((quota ≡ 0) ⊎ (s.policy.reaches used m quota ≡ false)))
