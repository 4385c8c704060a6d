-- ===== src/Auth/Accepted.antt =====
-- hysteria/auth_backend.py, `_verify_user_credential`: every path on which it accepts.
use hy.Prelude.{
  ℕ, String, Bool, true, ◌≡◌, refl, ◌⊎◌, inl, inr, Option, none, some, List, arith, Bool-cases, ap,
  sym, ◌∙◌,
}
use hy.Python.Json.{object, Fields, get_field}
use hy.Store.{ok}
use hy.Users.{Library, authorization_config_error}
use hy.Limiter.{Limiter, try_acquire}
use hy.Auth.Password.{Crypto, bounded_utf8, verify_password_hash}
use hy.Auth.Credential.{
  Clock, secret_of, same_token, bad_token, hash_accepted, under_lease, verify_password, no_password,
  verify_bytes, verify_user_credential,
}
use hy.Auth.Secrets.{
  text_field, HasToken, HasDigest, HasLease, bounded, secret_text, strings_checked, token_same,
  password-HasDigest,
}

-- What an accepted secret is: the user's token; or, where passwords are allowed, a password of the user's
-- hash, with a lease of the limiter, if there is one.
abbrev pub HasSecret :
    Crypto → Fields → List ℕ → String → Option ℕ → Clock → Bool → Option Limiter → Type 0
HasSecret crypto user password source deadline clock allow_password limiter =
    HasToken crypto user password
    ⊎ ((allow_password ≡ true)
        × HasDigest crypto password (text_field (get_field "password_hash" user))
        × HasLease limiter source deadline clock.acquiring)

module _ (lib : Library) (crypto : Crypto) (user : Fields) (password : List ℕ) (source : String)
    (deadline : Option ℕ) (clock : Clock) where
  leased_accepts :
      (l : Limiter) (accepted : Bool) (out : Limiter × Option ℕ)
      → try_acquire l source deadline clock.acquiring ≡ out
      → (under_lease accepted out).0 ≡ true
      → (accepted ≡ true) × HasLease (some l) source deadline clock.acquiring
  unfolding under_lease
  leased_accepts l accepted (after, none) e h = absurd (ground (arith, h))
  leased_accepts l accepted (after, some lease) e h = (h, inr (l, after, lease, refl, e))

  password_accepts :
      (limiter : Option Limiter)
      → (verify_password lib crypto user password source deadline clock limiter).0 ≡ true
      → (hash_accepted lib crypto user password deadline clock ≡ true)
        × HasLease limiter source deadline clock.acquiring
  unfolding verify_password
  password_accepts none h = (h, inl refl)
  password_accepts (some l) h =
      leased_accepts l (hash_accepted lib crypto user password deadline clock)
        (try_acquire l source deadline clock.acquiring) refl h

  bytes_accepts :
      (allow_password : Bool) (limiter : Option Limiter) (form : Option (List ℕ))
      → authorization_config_error lib (object user) ≡ ok none
      → bounded_utf8 crypto password ≡ form
      → (verify_bytes lib crypto user password source deadline clock allow_password limiter form).0
        ≡ true
      → HasSecret crypto user password source deadline clock allow_password limiter
  unfolding verify_bytes
  bytes_accepts allow_password limiter none passes e h = absurd (ground (arith, h))
  bytes_accepts allow_password limiter (some bytes) passes e h =
      let (token_string, hash_string) = strings_checked lib user passes in
      let token = secret_of lib "sub_token" user in
      let is_token =
        secret_text lib user "sub_token" (get_field "sub_token" user) refl token_string in
      let is_hash =
        secret_text lib user "password_hash" (get_field "password_hash" user) refl hash_string in
      elim (Bool-cases (bad_token token (bounded_utf8 crypto token))) [
        | inl bad ↦ absurd (ground (arith, h, bad))
        | inr good ↦ elim (Bool-cases (same_token bytes (bounded_utf8 crypto token))) [
          | inl same ↦
              let (form, some_bytes) =
                token_same crypto bytes token (bounded_utf8 crypto token) refl same in
              inl (
                bytes,
                bounded crypto password bytes e,
                ap crypto.utf8 (sym is_token) ∙ form,
                some_bytes,
              )
          | inr differs ↦ elim (Bool-cases (no_password user deadline allow_password clock)) [
            | inl refused ↦ absurd (ground (arith, h, good, differs, refused))
            | inr tried ↦
                let (accepted, lease) =
                  password_accepts limiter (ground (arith, h, good, differs, tried)) in
                let verified : verify_password_hash crypto password
                      (secret_of lib "password_hash" user)
                    ≡ true =
                  unfold hash_accepted in ground (arith, accepted) in
                inr (
                  unfold no_password in ground (arith, tried),
                  password-HasDigest crypto password (text_field (get_field "password_hash" user))
                      (ap (verify_password_hash crypto password) (sym is_hash) ∙ verified),
                  lease,
                )
          ]
        ]
      ]

  pub verify_user_credential-HasSecret :
      (allow_password : Bool) (limiter : Option Limiter)
      → authorization_config_error lib (object user) ≡ ok none
      → (verify_user_credential lib crypto user password source deadline clock allow_password
          limiter).0
        ≡ true
      → HasSecret crypto user password source deadline clock allow_password limiter
  unfolding verify_user_credential
  verify_user_credential-HasSecret allow_password limiter passes h =
      bytes_accepts allow_password limiter (bounded_utf8 crypto password) passes refl h
