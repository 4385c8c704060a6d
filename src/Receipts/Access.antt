-- ===== src/Receipts/Access.antt =====
-- Who reads a receipt, for how long, and what a retried rotation gets.
use hy.Prelude.{
  ℕ, ◌<◌, String, true, false, not, ◌||◌, ◌≡◌, ap, inl, inr, Option, none, some, [], arith, ◌==◌,
  str_eq, Bool-cases, length,
}
use hy.Dict.{get, all_items, keep_items-get, all_items-keep_items_self, all_items-length}
use hy.Store.{absent, corrupt, raises, ok, File, holds, Host, calm, load_strict, transact_ok}
use hy.Python.Digests.{is_ascii_text}
use hy.Receipts.Form.{Receipt, Receipts, receipts_valid, valid_request_id, live, prune}
use hy.Receipts.{
  Caller, Rotation, lookup_body, lookup_bound, prepare, transaction, receipt_key, bound_session,
  readable,
}
use hy.Receipts.Replay.{Hexadecimal, Bounded, prepare-Holds, held_lookup, held_prepare}

prepare_admits :
    (sha256_hex : String → String) (caller : Caller) (host : Host) (rotation : Rotation) (now : ℕ)
    (file : File Receipts) (item : Receipt) (file' : File Receipts)
    → prepare sha256_hex host caller rotation now file ≡ (ok item, file')
    → (valid_request_id caller.request_id ≡ true) × (str_eq caller.session_id "" ≡ false)
unfolding prepare
prepare_admits sha256_hex caller host rotation now file item file' e =
    elim (Bool-cases (not (valid_request_id caller.request_id) || str_eq caller.session_id "")) [
      | inl bad ↦ absurd (ground (arith, bad))
      | inr good ↦ (ground arith, ground arith)
    ]

-- After a `prepare` that returned a receipt, and until the receipt expires, the same caller gets that
-- very receipt from a `lookup_bound` whose transaction goes through: a lost response can be replayed.
-- The digests are 64 characters long, the first call's instant is positive, and its token and uuid are
-- within the bounds of `_load`.
pub prepare_replay :
    (sha256_hex : String → String)
    → Hexadecimal sha256_hex
    → (caller : Caller) (host : Host) (rotation : Rotation) (now : ℕ) (file : File Receipts)
      (item : Receipt) (file' : File Receipts)
    → Bounded rotation
    → 0 < now
    → prepare sha256_hex host caller rotation now file ≡ (ok item, file')
    → (later : ℕ) → later < item.expires_at
    → (lookup_bound sha256_hex calm caller later file').0 ≡ ok (some item)
prepare_replay sha256_hex hex caller host rotation now file item file' b h e later alive =
    let (id_ok, session_ok) =
      prepare_admits sha256_hex caller host rotation now file item file' e in
    held_lookup sha256_hex hex caller item file'
      (prepare-Holds sha256_hex hex caller host rotation now file item file' b h e) later alive
      id_ok session_ok

-- After a `prepare` that returned a receipt, and until the receipt expires, another `prepare` of the
-- same caller for the same old generation, whose transaction goes through, returns the first receipt
-- whatever new credential it proposes: a retry never mints a second credential. The digests are 64
-- characters long, the old generation is an ASCII text, as a hexadecimal digest is, the first call's
-- instant is positive, and its token and uuid are within the bounds of `_load`.
pub prepare_idempotent :
    (sha256_hex : String → String)
    → Hexadecimal sha256_hex
    → (caller : Caller) (host : Host) (rotation : Rotation) (now : ℕ) (file : File Receipts)
      (item : Receipt) (file' : File Receipts)
    → Bounded rotation
    → 0 < now
    → prepare sha256_hex host caller rotation now file ≡ (ok item, file')
    → (later : ℕ) (again : Rotation) → later < item.expires_at
    → is_ascii_text again.old_generation ≡ true
    → str_eq item.old_generation again.old_generation ≡ true
    → (prepare sha256_hex calm caller again later file').0 ≡ ok item
prepare_idempotent sha256_hex hex caller host rotation now file item file' b h e later again alive
      ascii same =
    let (id_ok, session_ok) =
      prepare_admits sha256_hex caller host rotation now file item file' e in
    held_prepare sha256_hex hex caller item file'
      (prepare-Holds sha256_hex hex caller host rotation now file item file' b h e) later alive
      id_ok session_ok again ascii same

-- No receipt of the file has expired.
abbrev pub AllLive : ℕ → File Receipts → Type 0
AllLive now absent = Unit {0}
AllLive now corrupt = Unit {0}
AllLive now (raises f) = Unit {0}
AllLive now (holds q) = all_items (live now) q ≡ true

module _ (sha256_hex : String → String) (caller : Caller) (now : ℕ) where
  readable_bound :
      (session_id : String) (o : Option Receipt) (item : Receipt)
      → readable sha256_hex session_id o ≡ some item
      → (o ≡ some item) × (bound_session sha256_hex session_id item ≡ true)
  unfolding readable
  readable_bound session_id none item h = absurd (ground arith)
  readable_bound session_id (some i) item h =
      elim (Bool-cases (bound_session sha256_hex session_id i)) [
        | inl e ↦ let same : i ≡ item = ground (arith, e) in (ap some same, ground (arith, e, same))
        | inr e ↦ absurd (ground (arith, e))
      ]

  lookup_body_bound :
      (q : Receipts) (item : Receipt) (new : Option Receipts)
      → lookup_body sha256_hex caller now q ≡ ok (some item, new)
      → (now < item.expires_at) × (bound_session sha256_hex caller.session_id item ≡ true)
  unfolding lookup_body prune
  lookup_body_bound q item new h =
      let (found, bound) =
        readable_bound caller.session_id
          (get (receipt_key sha256_hex caller.user caller.request_id) (prune now q)) item
          (ground arith) in
      let fresh =
        keep_items-get (live now) (receipt_key sha256_hex caller.user caller.request_id) item q
          found in
      (unfold live in ground (arith, fresh), bound)

  lookup_body_pruned :
      (q : Receipts) (r : Option Receipt)
      → (lookup_body sha256_hex caller now q ≡ ok (r, none) → all_items (live now) q ≡ true)
        × ((p : Receipts)
            → lookup_body sha256_hex caller now q ≡ ok (r, some p)
            → all_items (live now) p ≡ true)
  unfolding lookup_body prune
  lookup_body_pruned q r = elim (Bool-cases (length (prune now q) == length q)) [
    | inl e ↦
        (λ h. all_items-length (live now) q (ground (arith, e)), λ p h. absurd (ground (arith, e)))
    | inr e ↦ (
      λ h. absurd (ground (arith, e)),
      λ p h.
          let same : p ≡ prune now q = ground (arith, e) in
          rw same (all_items-keep_items_self (live now) q),
    )
  ]

loaded_AllLive :
    (now : ℕ) (file : File Receipts) (q : Receipts)
    → load_strict receipts_valid [] file ≡ ok q
    → all_items (live now) q ≡ true
    → AllLive now file
unfolding load_strict
loaded_AllLive now absent q l h = tt
loaded_AllLive now corrupt q l h = tt
loaded_AllLive now (raises f) q l h = tt
loaded_AllLive now (holds p) q l h = let same : p ≡ q = ground arith in rw same h

-- A `lookup_bound` that returns a receipt returns one that has not expired and that lists the digest
-- of the caller's session; and no receipt that the file then holds has expired.
pub lookup_bound_lem :
    (sha256_hex : String → String) (caller : Caller) (host : Host) (now : ℕ) (file : File Receipts)
    (item : Receipt) (file' : File Receipts)
    → lookup_bound sha256_hex host caller now file ≡ (ok (some item), file')
    → (now < item.expires_at)
      × (bound_session sha256_hex caller.session_id item ≡ true)
      × AllLive now file'
unfolding lookup_bound transaction
lookup_bound_lem sha256_hex caller host now file item file' h =
    elim (Bool-cases (not (valid_request_id caller.request_id) || str_eq caller.session_id "")) [
      | inl bad ↦ absurd (ground (arith, bad))
      | inr good ↦
          let (q, loaded, w) =
            transact_ok receipts_valid [] (lookup_body sha256_hex caller now) host file (some item)
              file' (ground (arith, good)) in
          elim w [
            | inl (body, same) ↦
                let (alive, bound) = lookup_body_bound sha256_hex caller now q item none body in
                (
                  alive,
                  bound,
                  rw same (
                      loaded_AllLive now file q loaded
                        ((lookup_body_pruned sha256_hex caller now q (some item)).0 body)),
                )
            | inr (new, body, saved) ↦
                let (alive, bound) =
                  lookup_body_bound sha256_hex caller now q item (some new) body in
                (
                  alive,
                  bound,
                  rw saved ((lookup_body_pruned sha256_hex caller now q (some item)).1 new body),
                )
          ]
    ]
