-- ===== src/Receipts.antt =====
-- hysteria/rotation_recovery.py: short-lived receipts that let the browser session that rotated a
-- credential, and no other, read the new credential again when the response was lost.
-- Each operation is one transaction of `Store`. A file whose entries have not the types of `Receipt`
-- is `corrupt`. `sha256_hex` stands for `hashlib.sha256(...).hexdigest()` of a text.
pub mod Form
pub mod Replay
pub mod Access
use Prim.Native.String.{◌++◌ as ◌++ₛ◌}
use hy.Prelude.{
  ℕ, ◌+◌, ◌-◌, String, Bool, true, false, not, ◌&&◌, ◌||◌, Option, none, some, List, [], ◌∷◌, ◌++◌,
  ltb, leb, ◌==◌, str_eq, if◌then◌else◌, length, drop, all,
}
use hy.Dict.{Dict, get, put, remove, all_items, keep_items}
use hy.Text.{codes, len, contains}
use hy.Python.Digests.{compare_digest}
use hy.Store.{
  Result, ◌>>=◌, ok, err, value_error, permission_error, capacity_error, File, absent, Host,
  transact,
}
use Form.{
  receipt_ttl_seconds, receipt_max_entries, Receipt, Receipts, receipts_valid, valid_request_id,
  prune,
}

unfoldable pub transaction {ℓ} :
    {A : Type ℓ}
    → (Receipts → Result (A × Option Receipts))
    → Host
    → File Receipts
    → Result A × File Receipts
unfolding transact receipts_valid
transaction body = transact receipts_valid [] body

unfoldable pub prune_body : ℕ → Receipts → Result (ℕ × Option Receipts)
unfolding prune
prune_body now original =
    let removed = length original - length (prune now original) in
    ok (removed, if removed == 0 then none else some (prune now original))

unfoldable pub prune_expired : Host → ℕ → File Receipts → Result ℕ × File Receipts
unfolding prune_body transaction
prune_expired host now absent = (ok 0, absent)
prune_expired host now file = transaction (prune_body now) host file

-- The caller of an operation: `user`, `request_id` and `session_id` (an absent session is empty).
pub record Caller : Type 0 where
  pub user : String
  pub request_id : String
  pub session_id : String

-- What a rotation is about to write: `old_generation`, `new_generation`, `new_token`, `new_uuid`.
pub record Rotation : Type 0 where
  pub old_generation : String
  pub new_generation : String
  pub new_token : String
  pub new_uuid : String

module _ (sha256_hex : String → String) where
  -- `_digest`
  unfoldable pub digest : String → String → String
  digest label value = sha256_hex (label ++ₛ ("\0" ++ₛ value))

  unfoldable pub receipt_key : String → String → String
  unfolding digest
  receipt_key user request_id = digest "rotation-request" (user ++ₛ ("\0" ++ₛ request_id))

  unfoldable pub session_digest : String → String
  unfolding digest
  session_digest session_id = digest "rotation-session" session_id

  -- any(compare_digest(supplied, expected) for expected in item["session_digests"])
  unfoldable pub bound_session : String → Receipt → Bool
  unfolding session_digest contains
  bound_session session_id item = contains (session_digest session_id) item.session_digests

  -- What a session may read of a receipt.
  unfoldable pub readable : String → Option Receipt → Option Receipt
  unfolding bound_session
  readable session_id none = none
  readable session_id (some item) = if bound_session session_id item then some item else none

  -- `data` is `original` less the receipts that expired, so they differ when their lengths do.
  unfoldable pub lookup_body : Caller → ℕ → Receipts → Result (Option Receipt × Option Receipts)
  unfolding prune receipt_key readable get
  lookup_body caller now original =
      let pruned = prune now original in
      let key = receipt_key caller.user caller.request_id in
      ok (
        readable caller.session_id (get key pruned),
        if length pruned == length original then none else some pruned,
      )

  unfoldable pub lookup_bound :
      Host → Caller → ℕ → File Receipts → Result (Option Receipt) × File Receipts
  unfolding lookup_body transaction valid_request_id
  lookup_bound host caller now file =
      if not (valid_request_id caller.request_id) || str_eq caller.session_id ""
      then (ok none, file)
      else transaction (lookup_body caller now) host file

  unfoldable pub new_receipt : Caller → Rotation → ℕ → Receipt
  unfolding session_digest
  new_receipt caller rotation now = record {
    user = caller.user;
    old_generation = rotation.old_generation;
    new_generation = rotation.new_generation;
    new_token = rotation.new_token;
    new_uuid = rotation.new_uuid;
    session_digests = session_digest caller.session_id ∷ [];
    created_at = now;
    expires_at = now + receipt_ttl_seconds;
  }

  -- The tests on a receipt that is already there, one after another.
  unfoldable pub bound_to : Caller → String → Receipt → Result Bool
  unfolding bound_session compare_digest
  bound_to caller old_generation existing =
      if not (str_eq existing.user caller.user) || not (bound_session caller.session_id existing)
      then ok false
      else compare_digest existing.old_generation old_generation

  unfoldable pub prepare_body :
      Caller → Rotation → ℕ → Receipts → Result (Receipt × Option Receipts)
  unfolding prune receipt_key bound_to new_receipt get put
  prepare_body caller rotation now original =
      let receipts = prune now original in
      let key = receipt_key caller.user caller.request_id in
      elim (get key receipts) [
        | some existing ↦ bound_to caller rotation.old_generation existing >>= λ same.
            if same then ok (existing, some receipts) else err permission_error
        | none ↦
            if leb receipt_max_entries (length receipts)
            then err capacity_error
            else ok (
              new_receipt caller rotation now,
              some (put key (new_receipt caller rotation now) receipts),
            )
      ]

  unfoldable pub prepare :
      Host → Caller → Rotation → ℕ → File Receipts → Result Receipt × File Receipts
  unfolding prepare_body transaction valid_request_id
  prepare host caller rotation now file =
      if not (valid_request_id caller.request_id) || str_eq caller.session_id ""
      then (err value_error, file)
      else transaction (prepare_body caller rotation now) host file

  -- The receipt that a replacement session may read too: it keeps the last four digests.
  unfoldable pub with_session : String → Receipt → Receipt
  unfolding bound_session session_digest
  with_session replacement item =
      let digests = item.session_digests ++ (session_digest replacement ∷ []) in
      if bound_session replacement item
      then item
      else record item { session_digests = drop (length digests - 4) digests }

  unfoldable pub bind_body : Caller → String → ℕ → Receipts → Result (Bool × Option Receipts)
  unfolding prune receipt_key bound_session with_session get put
  bind_body caller replacement now original =
      let receipts = prune now original in
      let key = receipt_key caller.user caller.request_id in
      elim (get key receipts) [
        | none ↦ ok (false, none)
        | some item ↦
            if bound_session caller.session_id item
            then ok (true, some (put key (with_session replacement item) receipts))
            else ok (false, none)
      ]

  -- `caller.session_id` is the original session.
  unfoldable pub bind_replacement_session :
      Host → Caller → String → ℕ → File Receipts → Result Bool × File Receipts
  unfolding bind_body transaction
  bind_replacement_session host caller replacement now file =
      if str_eq replacement ""
      then (ok false, file)
      else transaction (bind_body caller replacement now) host file

  unfoldable pub discard_body : String → String → Receipts → Result (Unit {0} × Option Receipts)
  unfolding receipt_key get remove
  discard_body user request_id receipts = elim (get (receipt_key user request_id) receipts) [
    | none ↦ ok (tt, none)
    | some item ↦ ok (tt, some (remove (receipt_key user request_id) receipts))
  ]

  unfoldable pub discard :
      Host → String → String → File Receipts → Result (Unit {0}) × File Receipts
  unfolding discard_body transaction valid_request_id
  discard host user request_id file =
      if valid_request_id request_id
      then transaction (discard_body user request_id) host file
      else (ok tt, file)
