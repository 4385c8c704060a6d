-- ===== src/Auth/Secrets.antt =====
-- hysteria/auth_backend.py: what `_verify_user_credential` has compared when it accepts a secret.
use hy.Prelude.{
  ℕ, String, true, ◌≤◌, ◌≡◌, refl, ◌⊎◌, inl, inr, Option, none, some, List, [], ◌∷◌, arith,
  Bool-cases, Option-cases, length, if◌then◌else◌, ap, str_eq, str_eq_iff, sym, ◌∙◌,
}
use hy.Text.{codes}
use hy.Python.Numbers.{all_digits, value_from}
use hy.Python.Json.{
  Value, null, boolean, int, float, text, array, object, Fields, get_field, truthy,
}
use hy.Store.{ok}
use hy.Users.{
  Library, authorization_config_error, config_error, each_field, check_boolean, check_count,
  check_string, boolean_fields, count_fields, string_fields, value_of, to_text,
}
use hy.Users.Strictness.{or_else_passes}
use hy.Limiter.{Limiter, try_acquire}
use hy.Python.Words.{codes_eq_same}
use hy.Auth.Password.{
  Crypto, bounded_utf8, b64url_decode_nopad, split_dollar, same_digest, algorithm, verify_parts,
  verify_password_hash,
}
use hy.Auth.Credential.{secret_of, same_token}

-- The text of a field, and nothing for one that is absent or holds no text.
abbrev pub text_field : Option Value → List ℕ
text_field none = []
text_field (some (text s)) = codes s
text_field (some null) = []
text_field (some (boolean b)) = []
text_field (some (int z)) = []
text_field (some (float x)) = []
text_field (some (array vs)) = []
text_field (some (object fs)) = []

-- The password's bytes are those of the user's token, which is not empty.
abbrev pub HasToken : Crypto → Fields → List ℕ → Type 0
HasToken crypto user password =
    (bytes : List ℕ) × (crypto.utf8 password ≡ some bytes)
    × (crypto.utf8 (text_field (get_field "sub_token" user)) ≡ some bytes)
    × (1 ≤ length bytes)

-- The stored hash is of the algorithm, with rounds within the bounds and a salt of 16 bytes, and its digest
-- of 32 bytes is that of the password.
abbrev pub HasDigest : Crypto → List ℕ → List ℕ → Type 0
HasDigest crypto password encoded =
    (bytes rounds salt_text digest_text salt : List ℕ) × (crypto.utf8 password ≡ some bytes)
    × (split_dollar 3 encoded ≡ codes "pbkdf2_sha256" ∷ rounds ∷ salt_text ∷ digest_text ∷ [])
    × (all_digits rounds ≡ true)
    × (100_000 ≤ value_from 0 rounds)
    × (value_from 0 rounds ≤ 1_000_000)
    × (b64url_decode_nopad crypto salt_text ≡ some salt)
    × (length salt ≡ 16)
    × (b64url_decode_nopad crypto digest_text
        ≡ some (crypto.pbkdf2 bytes salt (value_from 0 rounds)))
    × (length (crypto.pbkdf2 bytes salt (value_from 0 rounds)) ≡ 32)

-- The limiter, if there is one, has granted a lease.
abbrev pub HasLease : Option Limiter → String → Option ℕ → ℕ → Type 0
HasLease limiter source deadline clock =
    (limiter ≡ none)
    ⊎ ((before after : Limiter) × (lease : ℕ) × (limiter ≡ some before)
        × (try_acquire before source deadline clock ≡ (after, some lease)))

pub bounded :
    (crypto : Crypto) (s bytes : List ℕ)
    → bounded_utf8 crypto s ≡ some bytes
    → crypto.utf8 s ≡ some bytes
unfolding bounded_utf8
bounded crypto s bytes h = elim (Option-cases (crypto.utf8 s)) [
  | inl no_form ↦ absurd (ground (arith, h, no_form))
  | inr (raw, form) ↦ ground (arith, h, form)
]

text_secret :
    (lib : Library) (s : String) → (if truthy (text s) then to_text lib (text s) else []) ≡ codes s
unfolding truthy
text_secret lib s = elim (Bool-cases (str_eq s "")) [
  | inl empty ↦ rw (empty, (str_eq_iff s "").0 empty) refl
  | inr given ↦ rw given refl
]

of_value :
    (lib : Library) (user : Fields) (name : String) (v : Value)
    → value_of name user ≡ v
    → (expected : List ℕ) → (if truthy v then to_text lib v else []) ≡ expected
    → secret_of lib name user ≡ expected
unfolding secret_of
of_value lib user name v there expected h =
    ap (λ x. if truthy x then to_text lib x else []) there ∙ h

-- A field that is checked to be a string is read as its text.
pub secret_text :
    (lib : Library) (user : Fields) (name : String) (o : Option Value)
    → get_field name user ≡ o
    → check_string user name ≡ ok none
    → secret_of lib name user ≡ text_field o
unfolding check_string
secret_text lib user name none e c =
    of_value lib user name null (unfold value_of in ground (arith, e)) [] (unfold truthy in refl)
secret_text lib user name (some null) e c =
    of_value lib user name null (unfold value_of in ground (arith, e)) [] (unfold truthy in refl)
secret_text lib user name (some (text s)) e c =
    of_value lib user name (text s) (unfold value_of in ground (arith, e)) (codes s)
      (text_secret lib s)
secret_text lib user name (some (boolean b)) e c = absurd (ground (arith, e, c))
secret_text lib user name (some (int z)) e c = absurd (ground (arith, e, c))
secret_text lib user name (some (float x)) e c = absurd (ground (arith, e, c))
secret_text lib user name (some (array vs)) e c = absurd (ground (arith, e, c))
secret_text lib user name (some (object fs)) e c = absurd (ground (arith, e, c))

pub strings_checked :
    (lib : Library) (user : Fields)
    → authorization_config_error lib (object user) ≡ ok none
    → (check_string user "sub_token" ≡ ok none) × (check_string user "password_hash" ≡ ok none)
unfolding authorization_config_error config_error
strings_checked lib user h =
    let r1 = (or_else_passes (each_field (check_boolean user) boolean_fields) _ h).1 in
    let r2 = (or_else_passes (each_field (check_count user) count_fields) _ r1).1 in
    let strings = (or_else_passes (each_field (check_string user) string_fields) _ r2).0 in
    let (token, more) = or_else_passes (check_string user "sub_token") _ strings in
    let (uuid, rest) = or_else_passes (check_string user "vless_uuid") _ more in
    (token, (or_else_passes (check_string user "password_hash") _ rest).0)

pub token_same :
    (crypto : Crypto) (bytes token : List ℕ) (form : Option (List ℕ))
    → bounded_utf8 crypto token ≡ form
    → same_token bytes form ≡ true
    → (crypto.utf8 token ≡ some bytes) × (1 ≤ length bytes)
unfolding same_token
token_same crypto bytes token none e h = absurd (ground (arith, h))
token_same crypto bytes token (some raw) e h =
    let same : bytes ≡ raw = codes_eq_same bytes raw (ground (arith, h)) in
    rw same (bounded crypto token raw e, ground (arith, h))

module _ (crypto : Crypto) (password bytes encoded : List ℕ)
    (form : crypto.utf8 password ≡ some bytes) where
  digest_same :
      (rounds salt_text digest_text : List ℕ) (salt digest : Option (List ℕ))
      → split_dollar 3 encoded ≡ algorithm ∷ rounds ∷ salt_text ∷ digest_text ∷ []
      → b64url_decode_nopad crypto salt_text ≡ salt
      → b64url_decode_nopad crypto digest_text ≡ digest
      → all_digits rounds ≡ true
      → 100_000 ≤ value_from 0 rounds
      → value_from 0 rounds ≤ 1_000_000
      → same_digest crypto bytes (value_from 0 rounds) salt digest ≡ true
      → HasDigest crypto password encoded
  unfolding same_digest
  digest_same rounds salt_text digest_text none digest split e f d low high h =
      absurd (ground (arith, h))
  digest_same rounds salt_text digest_text (some salt) none split e f d low high h =
      absurd (ground (arith, h))
  digest_same rounds salt_text digest_text (some salt) (some digest) split e f d low high h =
      let same : crypto.pbkdf2 bytes salt (value_from 0 rounds) ≡ digest =
        codes_eq_same (crypto.pbkdf2 bytes salt (value_from 0 rounds)) digest (ground (arith, h)) in
      let long : length digest ≡ 32 = ground (arith, h) in
      (
        bytes,
        rounds,
        salt_text,
        digest_text,
        salt,
        form,
        split,
        d,
        low,
        high,
        e,
        ground (arith, h),
        f ∙ ap some (sym same),
        rw same long,
      )

  parts_match :
      (parts : List (List ℕ))
      → split_dollar 3 encoded ≡ parts
      → verify_parts crypto bytes parts ≡ true
      → HasDigest crypto password encoded
  unfolding verify_parts
  parts_match [] e h = absurd (ground (arith, h))
  parts_match (a ∷ []) e h = absurd (ground (arith, h))
  parts_match (a ∷ b ∷ []) e h = absurd (ground (arith, h))
  parts_match (a ∷ b ∷ c ∷ []) e h = absurd (ground (arith, h))
  parts_match (a ∷ b ∷ c ∷ d ∷ x ∷ rest) e h = absurd (ground (arith, h))
  parts_match (algo ∷ rounds ∷ salt_text ∷ digest_text ∷ []) e h =
      let same : algo ≡ algorithm = codes_eq_same algo algorithm (ground (arith, h)) in
      digest_same rounds salt_text digest_text (b64url_decode_nopad crypto salt_text)
        (b64url_decode_nopad crypto digest_text)
        (e ∙ ap (λ x. x ∷ rounds ∷ salt_text ∷ digest_text ∷ []) same) refl refl (ground (arith, h))
        (ground (arith, h)) (ground (arith, h)) (ground (arith, h))

pub password-HasDigest :
    (crypto : Crypto) (password encoded : List ℕ)
    → verify_password_hash crypto password encoded ≡ true
    → HasDigest crypto password encoded
unfolding verify_password_hash
password-HasDigest crypto password encoded h = elim (Option-cases (bounded_utf8 crypto password)) [
  | inl no_form ↦ absurd (ground (arith, h, no_form))
  | inr (bytes, form) ↦
      parts_match crypto password bytes encoded (bounded crypto password bytes form)
        (split_dollar 3 encoded) refl (ground (arith, h, form))
]
