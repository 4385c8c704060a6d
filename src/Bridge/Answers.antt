-- ===== src/Bridge/Answers.antt =====
-- hysteria/auth_service.py: what must have held for a POST to be answered with a user, and the bounds of
-- the source that the limiter counts.
use hy.Prelude.{
  ℕ, String, true, false, ◌≡◌, refl, ◌⊎◌, inl, inr, Option, none, some, List, arith, ◌==◌, length,
  str_eq, Bool-cases, ap, sym, str_eq_iff,
}
use hy.Store.{
  Fault, Result, ok, err, lock_timeout, invalid_state, write_failed, durability_uncertain,
  value_error, permission_error, capacity_error, overflow_error, attribute_error, type_error,
  recursion_error, state_unavailable, invalid_request,
}
use hy.Auth.Decision.{Setting, Visit, Server, Answer}
use hy.Auth.Payload.{authenticate_payload}
use hy.Bridge.Headers.{Announces, announces, IsJson, content_type-IsJson}
use hy.Bridge.Message.{Wire, AuthRequest, decode_auth_request}
use hy.Bridge.Handler.{
  Post, Response, Strings, refusal, content_type_is_json, response_of, request_of, decided,
  with_body, content_length_of, with_length, do_post, undecoded,
}

module _ (s : Setting) (w : Wire) (v : Visit) (lib : Strings) (deadline : ℕ)
    (server server' : Server) (response : Response) where
  -- The answer of the authentication to a decoded message.
  abbrev pub answer_to : AuthRequest → Answer × Server
  answer_to message = authenticate_payload s v (request_of lib deadline message) message.auth server

  -- A message that was decoded from a body of the announced length, and the user it was accepted for.
  abbrev pub AcceptedAs : Option (List ℕ) → ℕ → Type 0
  AcceptedAs body announced =
      (u : String) × (raw : List ℕ) × (message : AuthRequest) × (body ≡ some raw)
      × (length raw ≡ announced)
      × (decode_auth_request w raw ≡ ok message)
      × (answer_to message ≡ (ok (some u), server'))
      × (response.id ≡ some u)

  abbrev answer_or : Response × Server → Result (Response × Server) → Response × Server
  answer_or p (ok q) = q
  answer_or p (err f) = p

  response_accepts :
      (answer : Answer × Server)
      → response_of answer ≡ (response, server')
      → response.accepted ≡ true
      → (u : String) × (answer ≡ (ok (some u), server')) × (response.id ≡ some u)
  unfolding response_of
  response_accepts (ok (some u), left) h a = (
    u,
    ap (λ (p : Response × Server). (ok (some u), p.1)) h,
    sym (ap (λ (p : Response × Server). p.0.id) h),
  )
  response_accepts (ok none, left) h a =
      absurd (ground (arith, a, ap (λ (p : Response × Server). p.0.accepted) h))
  response_accepts (err f, left) h a =
      absurd (ground (arith, a, ap (λ (p : Response × Server). p.0.accepted) h))

  answered_same : (p q : Response × Server) → ok p ≡ ok q → p ≡ q
  answered_same p q h = ap (answer_or p) h

  refused_not :
      (status : ℕ) (left : Server)
      → ◌≡◌ {A = Response × Server} (refusal status, left) (response, server')
      → ¬ (response.accepted ≡ true)
  refused_not status left h a = ground (arith, a, ap (λ (p : Response × Server). p.0.accepted) h)

  undecoded_not :
      (f : Fault) → undecoded f server ≡ ok (response, server') → ¬ (response.accepted ≡ true)
  undecoded_not invalid_request h = refused_not 400 server (answered_same _ _ h)
  undecoded_not value_error h = refused_not 400 server (answered_same _ _ h)
  undecoded_not lock_timeout h = absurd (ground (arith, h))
  undecoded_not invalid_state h = absurd (ground (arith, h))
  undecoded_not write_failed h = absurd (ground (arith, h))
  undecoded_not durability_uncertain h = absurd (ground (arith, h))
  undecoded_not permission_error h = absurd (ground (arith, h))
  undecoded_not capacity_error h = absurd (ground (arith, h))
  undecoded_not overflow_error h = absurd (ground (arith, h))
  undecoded_not attribute_error h = absurd (ground (arith, h))
  undecoded_not type_error h = absurd (ground (arith, h))
  undecoded_not recursion_error h = absurd (ground (arith, h))
  undecoded_not state_unavailable h = absurd (ground (arith, h))

  decided_accepts :
      (read : Result AuthRequest)
      → decided s v lib deadline server read ≡ ok (response, server')
      → response.accepted ≡ true
      → (u : String) × (message : AuthRequest) × (read ≡ ok message)
        × (answer_to message ≡ (ok (some u), server'))
        × (response.id ≡ some u)
  unfolding decided
  decided_accepts (err f) h a = absurd (undecoded_not f h a)
  decided_accepts (ok message) h a =
      let (u, answered, named) = response_accepts (answer_to message) (answered_same _ _ h) a in
      (u, message, refl, answered, named)

  body_accepts :
      (announced : ℕ) (body : Option (List ℕ))
      → with_body s w v lib deadline server announced body ≡ ok (response, server')
      → response.accepted ≡ true
      → AcceptedAs body announced
  unfolding with_body
  body_accepts announced none h a = absurd (refused_not 408 server (answered_same _ _ h) a)
  body_accepts announced (some raw) h a = elim (Bool-cases (length raw == announced)) [
    | inr other ↦ absurd (refused_not 400 server (answered_same _ _ (ground (arith, h, other))) a)
    | inl same ↦
        let opened : decided s v lib deadline server (decode_auth_request w raw)
            ≡ ok (response, server') =
          ground (arith, h, same) in
        let (u, message, read, answered, named) =
          decided_accepts (decode_auth_request w raw) opened a in
        (u, raw, message, refl, ground (arith, same), read, answered, named)
  ]

  length_accepts :
      (post : Post) (headers : Result (ℕ ⊎ ℕ))
      → with_length s w v lib deadline server post headers ≡ ok (response, server')
      → response.accepted ≡ true
      → (announced : ℕ) × (headers ≡ ok (inr announced))
        × (content_type_is_json post.content_type ≡ true)
        × AcceptedAs post.body announced
  unfolding with_length
  length_accepts post (err f) h a = absurd (ground (arith, h))
  length_accepts post (ok (inl status)) h a =
      absurd (refused_not status server (answered_same _ _ h) a)
  length_accepts post (ok (inr announced)) h a =
      elim (Bool-cases (content_type_is_json post.content_type)) [
        | inr other ↦
            absurd (refused_not 415 server (answered_same _ _ (ground (arith, h, other))) a)
        | inl json ↦
            (announced, refl, json, body_accepts announced post.body (ground (arith, h, json)) a)
      ]

-- A POST is answered with an accepted user only on the path `/auth`, with no transfer encoding, with
-- `application/json` as its content type, with no parameter but the charset UTF-8, with exactly one
-- Content-Length header, which is a decimal number of at most 4300 digits, from 1 to 2048,
-- and with a body of that length, which decodes to a message for which `authenticate_payload`, within the
-- connection's deadline, returned that very user.
pub do_post_accepts :
    (s : Setting) (w : Wire) (v : Visit) (lib : Strings) (deadline : ℕ) (server server' : Server)
    (response : Response) (post : Post)
    → do_post s w v lib deadline server post ≡ ok (response, server')
    → response.accepted ≡ true
    → (post.path ≡ "/auth")
      × (post.has_transfer_encoding ≡ false)
      × IsJson post.content_type
      × ((announced : ℕ) × Announces post announced
          × AcceptedAs s w v lib deadline server server' response post.body announced)
unfolding do_post
do_post_accepts s w v lib deadline server server' response post h a =
    elim (Bool-cases (str_eq post.path "/auth")) [
      | inr elsewhere ↦ absurd (
          refused_not s w v lib deadline server server' response 404 server
            (answered_same s w v lib deadline server server' response _ _
              (ground (arith, h, elsewhere)))
            a)
      | inl here ↦ elim (Bool-cases post.has_transfer_encoding) [
        | inl encoded ↦ absurd (
            refused_not s w v lib deadline server server' response 400 server
              (answered_same s w v lib deadline server server' response _ _
                (ground (arith, h, here, encoded)))
              a)
        | inr plain ↦
            let (announced, one, json, accepted) =
              length_accepts s w v lib deadline server server' response post
                (content_length_of post.content_lengths) (ground (arith, h, here, plain)) a in
            (
              (str_eq_iff post.path "/auth").0 here,
              plain,
              content_type-IsJson post.content_type json,
              (announced, announces post post.content_lengths announced refl one, accepted),
            )
      ]
    ]
