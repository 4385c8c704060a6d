-- ===== src/Tests/Rotations.antt =====
-- hysteria/rotation_recovery.py: a rotation prepared and read again. The digest is a constant text of
-- 64 characters for every text.
use hy.Prelude.{◌<◌, ◌≡◌, refl, String, true, [], ◌∷◌, arith, some}
use hy.Store.{ok, absent, holds, calm}
use hy.Receipts.Form.{Receipt}
use hy.Receipts.{Caller, Rotation, prepare, lookup_bound, bound_session}
use hy.Receipts.Replay.{Hexadecimal}
use hy.Receipts.Access.{prepare_replay, prepare_idempotent, lookup_bound_lem, AllLive}

abbrev sha256_hex : String → String
sha256_hex value = "0123456789abcdef0123456789abcdef0123456789abcdef0123456789abcdef"

abbrev caller : Caller
caller = record { user = "alice"; request_id = "request-0123456789-abc"; session_id = "cookie" }

abbrev rotation : Rotation
rotation = record {
  old_generation = "g1";
  new_generation = "g2";
  new_token = "secret";
  new_uuid = "u";
}

abbrev second_rotation : Rotation
second_rotation = record rotation { new_token = "another" }

sha256_hex-Hexadecimal : Hexadecimal sha256_hex
unfolding hy.Text.len
sha256_hex-Hexadecimal value = refl

abbrev receipt : Receipt
receipt = record {
  user = "alice";
  old_generation = "g1";
  new_generation = "g2";
  new_token = "secret";
  new_uuid = "u";
  session_digests = sha256_hex "" ∷ [];
  created_at = 1000;
  expires_at = 1300;
}

prepared :
    prepare sha256_hex calm caller rotation 1000 absent
    ≡ (ok receipt, holds ((sha256_hex "", receipt) ∷ []))
unfolding prepare
prepared = refl

prepare_replay_example :
    (lookup_bound sha256_hex calm caller 1200 (holds ((sha256_hex "", receipt) ∷ []))).0
    ≡ ok (some receipt)
unfolding hy.Text.len
prepare_replay_example =
    prepare_replay sha256_hex sha256_hex-Hexadecimal caller calm rotation 1000 absent receipt
      (holds ((sha256_hex "", receipt) ∷ [])) (ground arith, ground arith) (ground arith) prepared
      1200 (ground arith)

prepare_idempotent_example :
    (prepare sha256_hex calm caller second_rotation 1200 (holds ((sha256_hex "", receipt) ∷ []))).0
    ≡ ok receipt
unfolding hy.Text.len hy.Python.Digests.is_ascii_text
prepare_idempotent_example =
    prepare_idempotent sha256_hex sha256_hex-Hexadecimal caller calm rotation 1000 absent receipt
      (holds ((sha256_hex "", receipt) ∷ [])) (ground arith, ground arith) (ground arith) prepared
      1200 second_rotation (ground arith) refl refl

looked_up :
    lookup_bound sha256_hex calm caller 1200 (holds ((sha256_hex "", receipt) ∷ []))
    ≡ (ok (some receipt), holds ((sha256_hex "", receipt) ∷ []))
unfolding lookup_bound
looked_up = refl

lookup_bound_lem_example :
    (1200 < 1300)
    × (bound_session sha256_hex "cookie" receipt ≡ true)
    × AllLive 1200 (holds ((sha256_hex "", receipt) ∷ []))
lookup_bound_lem_example =
    lookup_bound_lem sha256_hex caller calm 1200 (holds ((sha256_hex "", receipt) ∷ [])) receipt
      (holds ((sha256_hex "", receipt) ∷ [])) looked_up
