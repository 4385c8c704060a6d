-- ===== src/Bridge/Message.antt =====
-- hysteria/auth_service.py, `decode_auth_request`: the body of a request.
use hy.Prelude.{
  ℕ, ◌+◌, String, Bool, true, false, ◌&&◌, ◌||◌, Option, none, some, List, ltb, leb, ◌==◌,
  if◌then◌else◌, length, str_eq,
}
use hy.Text.{codes}
use hy.Python.Numbers.{pos, negsuc}
use hy.Python.Json.{
  Value, null, boolean, int, float, text, array, object, Fields, end, field, get_field,
}
use hy.Store.{Result, ok, err, invalid_request, ◌>>=◌}
use hy.Users.{value_of}
use hy.Bridge.Address.{Net, check_text, normalize_client_addr}

abbrev pub max_body_bytes : ℕ
max_body_bytes = 2048

abbrev pub max_auth_chars : ℕ
max_auth_chars = 64 + 1 + 256

abbrev pub max_auth_bytes : ℕ
max_auth_bytes = 64 + 1 + 1024

abbrev pub max_tx_rate : ℕ
max_tx_rate = 18_446_744_073_709_551_615

pub record AuthRequest : Type 0 where
  pub addr : List ℕ
  pub source : List ℕ
  pub auth : String
  pub tx : ℕ

-- The library: UTF-8 and strict JSON, without duplicate fields or constants that are no numbers; none is
-- an error of either.
pub record Wire : Type 0 where
  pub net : Net
  -- json.loads of the decoded body; its own errors and those of its hooks are `invalid_request`, and a
  -- RecursionError is not.
  pub parse : List ℕ → Result Value

abbrev pub known_field : String → Bool
known_field k = str_eq k "addr" || str_eq k "auth" || str_eq k "tx"

abbrev pub only_known : Fields → Bool
only_known end = true
only_known (field k v fs) = known_field k && only_known fs

abbrev pub is_there : Option Value → Bool
is_there none = false
is_there (some v) = true

-- set(payload) == {"addr", "auth", "tx"}
unfoldable pub exact_fields : Fields → Bool
unfolding get_field
exact_fields fs =
    only_known fs
    && is_there (get_field "addr" fs)
    && is_there (get_field "auth" fs)
    && is_there (get_field "tx" fs)

unfoldable pub auth_text : Net → Value → Result String
unfolding check_text
auth_text lib (text s) =
    (if ltb max_auth_chars (length (codes s))
      then err invalid_request
      else check_text lib max_auth_bytes (codes s))
    >>= λ sound. ok s
auth_text lib null = err invalid_request
auth_text lib (boolean b) = err invalid_request
auth_text lib (int z) = err invalid_request
auth_text lib (float f) = err invalid_request
auth_text lib (array vs) = err invalid_request
auth_text lib (object fs) = err invalid_request

unfoldable pub tx_rate : Value → Result ℕ
tx_rate (int (pos n)) = if leb n max_tx_rate then ok n else err invalid_request
tx_rate (int (negsuc n)) = err invalid_request
tx_rate (text s) = err invalid_request
tx_rate null = err invalid_request
tx_rate (boolean b) = err invalid_request
tx_rate (float f) = err invalid_request
tx_rate (array vs) = err invalid_request
tx_rate (object fs) = err invalid_request

unfoldable pub decode_fields : Net → Fields → Result AuthRequest
decode_fields lib fs =
    if exact_fields fs
    then (normalize_client_addr lib (value_of "addr" fs) >>= λ client.
        auth_text lib (value_of "auth" fs) >>= λ auth. tx_rate (value_of "tx" fs) >>= λ tx.
        ok (record { addr = client.0; source = client.1; auth = auth; tx = tx }))
    else err invalid_request

unfoldable pub decode_value : Net → Value → Result AuthRequest
decode_value lib (object fs) = decode_fields lib fs
decode_value lib null = err invalid_request
decode_value lib (boolean b) = err invalid_request
decode_value lib (int z) = err invalid_request
decode_value lib (float f) = err invalid_request
decode_value lib (text s) = err invalid_request
decode_value lib (array vs) = err invalid_request

unfoldable pub decode_auth_request : Wire → List ℕ → Result AuthRequest
decode_auth_request lib body =
    if length body == 0 || ltb max_body_bytes (length body)
    then err invalid_request
    else lib.parse body >>= λ v. decode_value lib.net v
