-- ===== src/Receipts/Form.antt =====
-- hysteria/rotation_recovery.py: the receipts, and the tests of `_load` and `_prune` on them.
use hy.Prelude.{ℕ, String, Bool, true, false, ◌&&◌, ◌||◌, List, [], ◌∷◌, ltb, leb, ◌==◌, all}
use hy.Dict.{Dict, all_items, keep_items}
use hy.Text.{codes, len}

abbrev pub receipt_ttl_seconds : ℕ
receipt_ttl_seconds = 300

abbrev pub receipt_max_entries : ℕ
receipt_max_entries = 256

pub record Receipt : Type 0 where
  pub user : String
  pub old_generation : String
  pub new_generation : String
  pub new_token : String
  pub new_uuid : String
  pub session_digests : List String
  pub created_at : ℕ
  pub expires_at : ℕ

abbrev pub Receipts : Type 0
Receipts = Dict Receipt

-- [A-Za-z0-9_-]
unfoldable pub id_code : ℕ → Bool
id_code c =
    (leb 65 c && leb c 90)
    || (leb 97 c && leb c 122)
    || (leb 48 c && leb c 57)
    || c == 95
    || c == 45

unfoldable pub valid_request_id : String → Bool
unfolding all id_code len
valid_request_id value = leb 20 (len value) && leb (len value) 128 && all id_code (codes value)

unfoldable pub has_digests : List String → Bool
has_digests [] = false
has_digests (d ∷ digests) = true

-- The tests of `_load` on one entry.
unfoldable pub receipt_valid : String → Receipt → Bool
unfolding all len has_digests
receipt_valid key item =
    len key == 64
    && all (λ value. len value == 64) item.session_digests
    && ltb 0 item.created_at
    && ltb item.created_at item.expires_at
    && leb (len item.new_token) 512
    && leb (len item.new_uuid) 128
    && has_digests item.session_digests

unfoldable pub receipts_valid : Receipts → Bool
unfolding all_items receipt_valid
receipts_valid = all_items receipt_valid

unfoldable pub live : ℕ → String → Receipt → Bool
live now key item = ltb now item.expires_at

-- `_prune`
unfoldable pub prune : ℕ → Receipts → Receipts
unfolding keep_items live
prune now = keep_items (live now)
