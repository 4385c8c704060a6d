-- ===== src/Bridge/Handler.antt =====
-- hysteria/auth_service.py, `AuthHandler`: the answers to GET and POST. Headers are Latin-1 texts.
use hy.Prelude.{
  ℕ, ◌+◌, String, Bool, true, false, not, ◌&&◌, ◌||◌, Option, none, some, List, [], ◌∷◌, ltb, leb,
  ◌==◌, if◌then◌else◌, length, str_eq, all, ◌⊎◌, inl, inr,
}
use hy.Text.{codes}
use hy.Python.Numbers.{int_max_str_digits, strip, all_digits, value_from, codes_eq}
use hy.Store.{Fault, Result, ok, err, value_error, invalid_request}
use hy.Auth.Decision.{Setting, Request, Visit, Server, Answer}
use hy.Auth.Payload.{authenticate_payload}
use hy.Bridge.Message.{Wire, AuthRequest, decode_auth_request, max_body_bytes}

-- What a POST shows. A body that is not read before the deadline is none.
pub record Post : Type 0 where
  pub path : String
  pub has_transfer_encoding : Bool
  pub content_lengths : List (List ℕ)
  pub content_type : List ℕ
  pub body : Option (List ℕ)

-- A status with `{"ok": ..., "id": ...}`.
pub record Response : Type 0 where
  pub status : ℕ
  pub accepted : Bool
  pub id : Option String

abbrev pub refusal : ℕ → Response
refusal status = record { status = status; accepted = false; id = none }

-- c.lower(), of the letters A to Z
unfoldable pub lower : ℕ → ℕ
lower c = if leb 65 c && leb c 90 then c + 32 else c

abbrev pub lower_all : List ℕ → List ℕ
lower_all [] = []
lower_all (c ∷ s) = lower c ∷ lower_all s

abbrev pub onto_part : ℕ → List (List ℕ) → List (List ℕ)
onto_part c [] = []
onto_part c (part ∷ parts) = (c ∷ part) ∷ parts

-- s.split(";")
unfoldable pub split_semicolon : List ℕ → List (List ℕ)
split_semicolon [] = [] ∷ []
split_semicolon (c ∷ s) =
    let rest = split_semicolon s in if c == 59 then [] ∷ rest else onto_part c rest

abbrev pub is_part : String → List ℕ → Bool
is_part wanted part = codes_eq (lower_all (strip part)) (codes wanted)

unfoldable pub json_parts : List (List ℕ) → Bool
unfolding all codes_eq strip lower
json_parts [] = false
json_parts (part ∷ parts) = is_part "application/json" part && all (is_part "charset=utf-8") parts

unfoldable pub content_type_is_json : List ℕ → Bool
unfolding split_semicolon json_parts
content_type_is_json raw = json_parts (split_semicolon raw)

-- An exception of the authentication is answered like a refusal.
unfoldable pub response_of : Answer × Server → Response × Server
response_of (ok (some user_id), server) =
    (record { status = 200; accepted = true; id = some user_id }, server)
response_of (ok none, server) = (refusal 200, server)
response_of (err fault, server) = (refusal 200, server)

-- Texts that the request carries on, as the strings that they are.
pub record Strings : Type 0 where
  pub from_codes : List ℕ → String

-- The request that a decoded message makes, within the deadline of its connection.
unfoldable pub request_of : Strings → ℕ → AuthRequest → Request
request_of lib deadline message = record {
  username = "";
  password = [];
  addr = some (lib.from_codes message.addr);
  source = some (lib.from_codes message.source);
  deadline = some deadline;
  allow_password = true;
}

-- The end of the decoding: an InvalidRequest and a UnicodeError are answered, another exception goes on.
abbrev pub undecoded : Fault → Server → Result (Response × Server)
undecoded invalid_request server = ok (refusal 400, server)
undecoded value_error server = ok (refusal 400, server)
undecoded fault server = err fault

unfoldable pub decided :
    Setting → Visit → Strings → ℕ → Server → Result AuthRequest → Result (Response × Server)
unfolding response_of request_of
decided s v lib deadline server (err fault) = undecoded fault server
decided s v lib deadline server (ok message) =
    ok
      (response_of (authenticate_payload s v (request_of lib deadline message) message.auth server))

unfoldable pub with_body :
    Setting → Wire → Visit → Strings → ℕ → Server → ℕ → Option (List ℕ) → Result (Response × Server)
with_body s w v lib deadline server content_length none = ok (refusal 408, server)
with_body s w v lib deadline server content_length (some body) =
    if length body == content_length
    then decided s v lib deadline server (decode_auth_request w body)
    else ok (refusal 400, server)

-- The headers' part: the content length, or the status that refuses them.
unfoldable pub content_length_of : List (List ℕ) → Result (ℕ ⊎ ℕ)
unfolding strip all_digits value_from
content_length_of [] = ok (inl 411)
content_length_of (raw ∷ other ∷ more) = ok (inl 411)
content_length_of (raw ∷ []) =
    if not (all_digits (strip raw))
    then ok (inl 400)
    else if ltb int_max_str_digits (length (strip raw))
    then err value_error
    else if ltb max_body_bytes (value_from 0 (strip raw))
    then ok (inl 413)
    else if value_from 0 (strip raw) == 0
    then ok (inl 400)
    else ok (inr (value_from 0 (strip raw)))

unfoldable pub with_length :
    Setting
    → Wire
    → Visit
    → Strings
    → ℕ
    → Server
    → Post
    → Result (ℕ ⊎ ℕ)
    → Result (Response × Server)
with_length s w v lib deadline server post (err fault) = err fault
with_length s w v lib deadline server post (ok (inl status)) = ok (refusal status, server)
with_length s w v lib deadline server post (ok (inr content_length)) =
    if content_type_is_json post.content_type
    then with_body s w v lib deadline server content_length post.body
    else ok (refusal 415, server)

-- The answer to a POST, or an exception, which leaves it without one and changes nothing.
unfoldable pub do_post :
    Setting → Wire → Visit → Strings → ℕ → Server → Post → Result (Response × Server)
do_post s w v lib deadline server post =
    if not (str_eq post.path "/auth")
    then ok (refusal 404, server)
    else if post.has_transfer_encoding
    then ok (refusal 400, server)
    else with_length s w v lib deadline server post (content_length_of post.content_lengths)

-- `ready` is the deep readiness of the authentication.
unfoldable pub do_get : String → Bool → Response
do_get path ready =
    if str_eq path "/livez"
    then record { status = 200; accepted = true; id = none }
    else if not (str_eq path "/readyz" || str_eq path "/healthz")
    then refusal 404
    else record { status = if ready then 200 else 503; accepted = ready; id = none }
