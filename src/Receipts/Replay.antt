-- ===== src/Receipts/Replay.antt =====
-- A receipt survives the loss of its response: the session that prepared it reads it again.
use Prim.Native.String.{◌++◌ as ◌++ₛ◌}
use hy.Prelude.{
  ℕ, ◌≤◌, ◌<◌, String, true, false, not, ◌||◌, ◌≡◌, refl, inl, inr, Option, none, some, [], arith,
  ◌==◌, str_eq, str_eq_iff, str_eq_refl, Bool-cases, Option-cases, all,
}
use hy.Dict.{get, put, get-put_self, get-keep_items, all_items-keep_items, all_items-put}
use hy.Text.{len, contains}
use hy.Store.{
  ok, File, absent, corrupt, raises, holds, Host, calm, load_strict, transact, finish, save_json,
  transact_ok,
}
use hy.Python.Digests.{is_ascii_text, compare_digest_ascii}
use hy.Receipts.Form.{
  Receipt, Receipts, receipt_valid, receipts_valid, valid_request_id, live, prune,
}
use hy.Receipts.{
  Caller, Rotation, lookup_body, lookup_bound, prepare_body, prepare, transaction, receipt_key,
  digest, session_digest, bound_session, readable, bound_to, new_receipt,
}

-- Every digest is 64 characters long.
abbrev pub Hexadecimal : (String → String) → Type 0
Hexadecimal sha256_hex = (value : String) → (len (sha256_hex value) == 64) ≡ true

-- What `prepare` may write so that `_load` accepts it.
abbrev pub Bounded : Rotation → Type 0
Bounded rotation = (len rotation.new_token ≤ 512) × (len rotation.new_uuid ≤ 128)

module _ (sha256_hex : String → String) (hex : Hexadecimal sha256_hex) (caller : Caller) where
  -- The file holds the receipt for the caller.
  abbrev pub Holds : Receipt → File Receipts → Type 0
  Holds item file =
      (q : Receipts) × (file ≡ holds q)
      × (receipts_valid q ≡ true)
      × (get (receipt_key sha256_hex caller.user caller.request_id) q ≡ some item)
      × (bound_session sha256_hex caller.session_id item ≡ true)
      × (item.user ≡ caller.user)

  receipt_key-len : (len (receipt_key sha256_hex caller.user caller.request_id) == 64) ≡ true
  unfolding receipt_key digest
  receipt_key-len = hex _

  new_receipt-valid :
      (rotation : Rotation) (now : ℕ)
      → Bounded rotation
      → 0 < now
      → receipt_valid
          (receipt_key sha256_hex caller.user caller.request_id)
          (new_receipt sha256_hex caller rotation now)
        ≡ true
  unfolding receipt_valid new_receipt all session_digest digest
  new_receipt-valid rotation now b h =
      ground (arith, hex ("rotation-session" ++ₛ ("\0" ++ₛ caller.session_id)), receipt_key-len)

  new_receipt-bound :
      (rotation : Rotation) (now : ℕ)
      → bound_session sha256_hex caller.session_id (new_receipt sha256_hex caller rotation now)
        ≡ true
  unfolding bound_session new_receipt contains
  new_receipt-bound rotation now =
      ground (arith, str_eq_refl (session_digest sha256_hex caller.session_id))

  added_Holds :
      (rotation : Rotation) (now : ℕ) (q : Receipts)
      → Bounded rotation
      → 0 < now
      → receipts_valid q ≡ true
      → Holds (new_receipt sha256_hex caller rotation now) (
          holds (
            put
              (receipt_key sha256_hex caller.user caller.request_id)
              (new_receipt sha256_hex caller rotation now)
              (prune now q)))
  unfolding receipts_valid prune
  added_Holds rotation now q b h v =
      let key = receipt_key sha256_hex caller.user caller.request_id in
      let item = new_receipt sha256_hex caller rotation now in
      (
        put key item (prune now q),
        refl,
        all_items-put receipt_valid key item (prune now q) (new_receipt-valid rotation now b h)
            (all_items-keep_items (live now) receipt_valid q v),
        get-put_self key item (prune now q),
        new_receipt-bound rotation now,
        unfold new_receipt in refl,
      )

  kept_Holds :
      (old_generation : String) (now : ℕ) (q : Receipts) (item : Receipt)
      → receipts_valid q ≡ true
      → get (receipt_key sha256_hex caller.user caller.request_id) (prune now q) ≡ some item
      → bound_to sha256_hex caller old_generation item ≡ ok true
      → Holds item (holds (prune now q))
  unfolding receipts_valid prune bound_to
  kept_Holds old_generation now q item v here b = (
    prune now q,
    refl,
    all_items-keep_items (live now) receipt_valid q v,
    here,
    ground arith,
    ground (arith, str_eq_iff item.user caller.user),
  )

  prepare_body-holds :
      (rotation : Rotation) (now : ℕ) (q : Receipts) (item : Receipt) (new : Option Receipts)
      → Bounded rotation
      → 0 < now
      → receipts_valid q ≡ true
      → prepare_body sha256_hex caller rotation now q ≡ ok (item, new)
      → (p : Receipts) × (new ≡ some p) × Holds item (holds p)
  unfolding prepare_body
  prepare_body-holds rotation now q item new b h v e =
      elim (Option-cases
        (get (receipt_key sha256_hex caller.user caller.request_id) (prune now q))) [
          | inl gone ↦
              let same : item ≡ new_receipt sha256_hex caller rotation now = ground (arith, gone) in
              (
                put (receipt_key sha256_hex caller.user caller.request_id)
                    (new_receipt sha256_hex caller rotation now) (prune now q),
                ground (arith, gone),
                rw same (added_Holds rotation now q b h v),
              )
          | inr (existing, here) ↦
              let bound : bound_to sha256_hex caller rotation.old_generation existing ≡ ok true =
                ground (arith, here) in
              let same : item ≡ existing = ground (arith, here) in
              (
                prune now q,
                ground (arith, here),
                rw same (kept_Holds rotation.old_generation now q existing v here bound),
              )
        ]

  loaded_valid :
      (file : File Receipts) (q : Receipts)
      → load_strict receipts_valid [] file ≡ ok q
      → receipts_valid q ≡ true
  unfolding load_strict receipts_valid
  loaded_valid absent q l = ground arith
  loaded_valid corrupt q l = absurd (ground arith)
  loaded_valid (raises f) q l = absurd (ground arith)
  loaded_valid (holds p) q l = ground arith

  pub prepare-Holds :
      (host : Host) (rotation : Rotation) (now : ℕ) (file : File Receipts) (item : Receipt)
      (file' : File Receipts)
      → Bounded rotation
      → 0 < now
      → prepare sha256_hex host caller rotation now file ≡ (ok item, file')
      → Holds item file'
  unfolding prepare
  prepare-Holds host rotation now file item file' b h e =
      elim (Bool-cases (not (valid_request_id caller.request_id) || str_eq caller.session_id "")) [
        | inl bad ↦ absurd (ground (arith, bad))
        | inr good ↦
            let (q, loaded, w) =
              transact_ok receipts_valid [] (prepare_body sha256_hex caller rotation now) host file
                item file' (unfold transaction in ground (arith, good)) in
            elim w [
              | inl (body, same) ↦
                  let (p, eq, held) =
                    prepare_body-holds rotation now q item none b h (loaded_valid file q loaded)
                      body in
                  absurd (ground (arith, eq))
              | inr (new, body, saved) ↦
                  let (p, eq, held) =
                    prepare_body-holds rotation now q item (some new) b h
                      (loaded_valid file q loaded) body in
                  let same : new ≡ p = ground (arith, eq) in rw (saved, same) held
            ]
      ]

  -- What a caller who holds a receipt gets, as long as the receipt lives.
  module _ (item : Receipt) (file : File Receipts) (held : Holds item file) (now : ℕ)
      (alive : now < item.expires_at) (id_ok : valid_request_id caller.request_id ≡ true)
      (session_ok : str_eq caller.session_id "" ≡ false) where
    still_there :
        get (receipt_key sha256_hex caller.user caller.request_id) (prune now held.0) ≡ some item
    unfolding prune live
    still_there =
        get-keep_items (live now) (receipt_key sha256_hex caller.user caller.request_id) item held.0
          held.3 (ground arith)

    pub held_lookup : (lookup_bound sha256_hex calm caller now file).0 ≡ ok (some item)
    unfolding lookup_bound transaction transact load_strict finish save_json lookup_body readable
    held_lookup = rw held.1 (ground (arith, id_ok, session_ok, held.2, held.4, still_there))

    pub held_prepare :
        (rotation : Rotation)
        → is_ascii_text rotation.old_generation ≡ true
        → str_eq item.old_generation rotation.old_generation ≡ true
        → (prepare sha256_hex calm caller rotation now file).0 ≡ ok item
    unfolding prepare transaction transact load_strict finish save_json prepare_body bound_to
    held_prepare rotation ascii g = rw held.1 (
        ground (
          arith,
          compare_digest_ascii item.old_generation rotation.old_generation
              (rw ((str_eq_iff item.old_generation rotation.old_generation).0 g) ascii) ascii,
          id_ok,
          session_ok,
          held.2,
          held.4,
          still_there,
          g,
          str_eq_iff item.user caller.user,
          held.5,
        ))
