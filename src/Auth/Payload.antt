-- ===== src/Auth/Payload.antt =====
-- hysteria/auth_backend.py: `authenticate_payload` on a `username:secret` text, and `main`, the command
-- that the Hysteria server calls.
use Prim.Native.Char.{code}
use hy.Prelude.{
  ℕ, ◌+◌, String, true, false, ◌≡◌, refl, Option, none, some, List, [], ◌∷◌, ◌==◌, if◌then◌else◌,
  arith, any, all,
}
use hy.Text.{codes}
use hy.Store.{ok, err}
use hy.Users.{name_code, is_valid_username}
use hy.Auth.Decision.{Setting, Request, Visit, Server, Answer, authenticate}

-- s.split(":", 1); none is a text without a colon.
unfoldable pub split_colon : String → Option (String × String)
split_colon String.[] = none
split_colon (String.◌∷◌ c s) =
    let rest = split_colon s in
    if code c == 58
    then some ("", s)
    else elim rest [ none ↦ none | some (before, after) ↦ some (String.◌∷◌ c before, after) ]

-- The request's name and secret are those of the payload.
unfoldable pub authenticate_payload : Setting → Visit → Request → String → Server → Answer × Server
authenticate_payload s v r payload server = elim (split_colon payload) [
  | none ↦ (ok none, server)
  | some (username, password) ↦
      authenticate s v (record r { username = username; password = codes password }) server
]

-- What the command does: its exit code, and what it writes.
pub record Exit : Type 0 where
  pub status : ℕ
  pub output : String

-- An exception ends the command with code 1.
unfoldable pub exit_of : Answer → Exit
exit_of (ok (some username)) = record { status = 0; output = username }
exit_of (ok none) = record { status = 1; output = "" }
exit_of (err fault) = record { status = 1; output = "" }

abbrev pub command_auth_deadline : ℕ
command_auth_deadline = 2_000_000

-- The request of the command: no password work, two seconds.
unfoldable pub command_request : ℕ → Request
command_request started = record {
  username = "";
  password = [];
  addr = none;
  source = some "command-auth";
  deadline = some (started + command_auth_deadline);
  allow_password = false;
}

-- `main`, on sys.argv; the command has no limiter, and leaves the service's alone.
unfoldable pub main : Setting → Visit → ℕ → List String → Server → Exit × Server
unfolding authenticate_payload exit_of command_request
main s v started (program ∷ address ∷ payload ∷ more) server =
    let (answer, server') =
      authenticate_payload s v (command_request started) payload
        (record server { limiter = none }) in
    (exit_of answer, record server { slots = server'.slots })
main s v started [] server = (record { status = 1; output = "" }, server)
main s v started (a ∷ []) server = (record { status = 1; output = "" }, server)
main s v started (a ∷ b ∷ []) server = (record { status = 1; output = "" }, server)

-- before + ":" + after
unfoldable pub join_colon : String → String → String
join_colon String.[] after = String.◌∷◌ ":" after
join_colon (String.◌∷◌ c before) after = String.◌∷◌ c (join_colon before after)

split-join :
    (before after : String)
    → any (λ c. c == 58) (codes before) ≡ false
    → split_colon (join_colon before after) ≡ some (before, after)
unfolding split_colon join_colon any
split-join String.[] after h = refl
split-join (String.◌∷◌ c before) after h =
    let rest = split-join before after (ground (arith, h)) in
    let other : (code c == 58) ≡ false = ground (arith, h) in rw (other, rest) refl

name_code_other : (c : ℕ) → name_code c ≡ true → (c == 58) ≡ false
unfolding name_code
name_code_other c h = ground (arith, h)

no_colon : (s : List ℕ) → all name_code s ≡ true → any (λ c. c == 58) s ≡ false
unfolding all any
no_colon [] h = refl
no_colon (c ∷ s) h = ground (arith, h, name_code_other c, no_colon s)

-- A payload made of a valid user name, a colon and any secret, colons included, is authenticated as that
-- user with that secret.
pub authenticate_payload-join_colon :
    (s : Setting) (v : Visit) (r : Request) (username password : String) (server : Server)
    → is_valid_username username ≡ true
    → authenticate_payload s v r (join_colon username password) server
      ≡ authenticate s v (record r { username = username; password = codes password }) server
unfolding authenticate_payload
authenticate_payload-join_colon s v r username password server valid =
    let split : split_colon (join_colon username password) ≡ some (username, password) =
      split-join username password
        (no_colon (codes username) (unfold is_valid_username in ground (arith, valid))) in
    rw (split, authenticate_payload) refl
