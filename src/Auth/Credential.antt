-- ===== src/Auth/Credential.antt =====
-- hysteria/auth_backend.py, `_verify_user_credential`: a token, or a password within the work limits.
-- The limiter's `try_acquire` and `release` raise nothing.
use hy.Prelude.{
  ℕ, String, Bool, true, false, not, ◌&&◌, ◌||◌, Option, none, some, List, [], if◌then◌else◌,
  length, ◌==◌,
}
use hy.Python.Numbers.{codes_eq}
use hy.Python.Json.{Fields, truthy}
use hy.Users.{Library, to_text, value_of}
use hy.Limiter.{Limiter, try_acquire, release}
use hy.Auth.Password.{Crypto, bounded_utf8, verify_password_hash}
use hy.Auth.Counts.{deadline_expired}

-- The monotonic clock where one verification reads it.
pub record Clock : Type 0 where
  pub start : ℕ
  pub acquiring : ℕ
  pub hashing : ℕ
  pub hashed : ℕ

-- str(user.get(name) or "")
unfoldable pub secret_of : Library → String → Fields → List ℕ
unfolding value_of truthy
secret_of lib name user =
    if truthy (value_of name user) then to_text lib (value_of name user) else []

-- token_bytes and hmac.compare_digest(password_bytes, token_bytes)
unfoldable pub same_token : List ℕ → Option (List ℕ) → Bool
unfolding codes_eq
same_token password none = false
same_token password (some token) = not (length token == 0) && codes_eq password token

-- A token that there is, and that has no bounded form.
abbrev pub bad_token : List ℕ → Option (List ℕ) → Bool
bad_token token none = not (length token == 0)
bad_token token (some bytes) = false

unfoldable pub hash_accepted : Library → Crypto → Fields → List ℕ → Option ℕ → Clock → Bool
unfolding deadline_expired verify_password_hash secret_of
hash_accepted lib crypto user password deadline clock =
    not (deadline_expired deadline clock.hashing)
    && verify_password_hash crypto password (secret_of lib "password_hash" user)
    && not (deadline_expired deadline clock.hashed)

-- The hash, under a lease that is given back.
unfoldable pub under_lease : Bool → Limiter × Option ℕ → Bool × Option Limiter
unfolding release
under_lease accepted (limiter, none) = (false, some limiter)
under_lease accepted (limiter, some lease) = (accepted, some (release limiter lease))

unfoldable pub verify_password :
    Library
    → Crypto
    → Fields
    → List ℕ
    → String
    → Option ℕ
    → Clock
    → Option Limiter
    → Bool × Option Limiter
unfolding hash_accepted try_acquire under_lease
verify_password lib crypto user password source deadline clock none =
    (hash_accepted lib crypto user password deadline clock, none)
verify_password lib crypto user password source deadline clock (some limiter) =
    under_lease (hash_accepted lib crypto user password deadline clock)
      (try_acquire limiter source deadline clock.acquiring)

-- Whether a password is not even tried.
unfoldable pub no_password : Fields → Option ℕ → Bool → Clock → Bool
unfolding truthy value_of deadline_expired
no_password user deadline allow_password clock =
    not allow_password
    || not (truthy (value_of "password_hash" user))
    || deadline_expired deadline clock.start

unfoldable pub verify_bytes :
    Library
    → Crypto
    → Fields
    → List ℕ
    → String
    → Option ℕ
    → Clock
    → Bool
    → Option Limiter
    → Option (List ℕ)
    → Bool × Option Limiter
unfolding bounded_utf8 secret_of same_token no_password verify_password
verify_bytes lib crypto user password source deadline clock allow_password limiter none =
    (false, limiter)
verify_bytes lib crypto user password source deadline clock allow_password limiter (some bytes) =
    let token = secret_of lib "sub_token" user in
    if bad_token token (bounded_utf8 crypto token)
    then (false, limiter)
    else if same_token bytes (bounded_utf8 crypto token)
    then (true, limiter)
    else if no_password user deadline allow_password clock
    then (false, limiter)
    else verify_password lib crypto user password source deadline clock limiter

unfoldable pub verify_user_credential :
    Library
    → Crypto
    → Fields
    → List ℕ
    → String
    → Option ℕ
    → Clock
    → Bool
    → Option Limiter
    → Bool × Option Limiter
unfolding verify_bytes bounded_utf8
verify_user_credential lib crypto user password source deadline clock allow_password limiter =
    verify_bytes lib crypto user password source deadline clock allow_password limiter
      (bounded_utf8 crypto password)
