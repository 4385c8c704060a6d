-- ===== src/Auth/Password.antt =====
-- hysteria/auth_backend.py: the check of a secret against a stored PBKDF2 hash, on code points and
-- bytes; and the hash that hysteria/subscription_service.py writes.
use hy.Prelude.{
  ℕ, zero, suc, ◌-◌, ◌%◌, Bool, false, not, ◌&&◌, ◌||◌, Option, none, some, List, [], ◌∷◌, ◌++◌,
  ltb, leb, ◌==◌, if◌then◌else◌, length, all, any,
}
use hy.Text.{codes}
use hy.Python.Numbers.{all_digits, value_from, codes_eq, show_natural}

abbrev pub auth_secret_max_chars : ℕ
auth_secret_max_chars = 256

abbrev pub auth_secret_max_bytes : ℕ
auth_secret_max_bytes = 1024

abbrev pub password_hash_max_chars : ℕ
password_hash_max_chars = 512

abbrev pub pbkdf2_rounds_min : ℕ
pbkdf2_rounds_min = 100_000

abbrev pub pbkdf2_rounds_max : ℕ
pbkdf2_rounds_max = 1_000_000

abbrev pub pbkdf2_salt_bytes : ℕ
pbkdf2_salt_bytes = 16

abbrev pub pbkdf2_digest_bytes : ℕ
pbkdf2_digest_bytes = 32

-- The library.
pub record Crypto : Type 0 where
  -- s.encode("utf-8"); none is its UnicodeError
  pub utf8 : List ℕ → Option (List ℕ)
  -- base64.b64decode(raw, altchars=b"-_", validate=True); none is its error
  pub b64decode : List ℕ → Option (List ℕ)
  -- base64.urlsafe_b64encode(data).rstrip("=")
  pub b64encode : List ℕ → List ℕ
  -- hashlib.pbkdf2_hmac("sha256", password, salt, rounds)
  pub pbkdf2 : List ℕ → List ℕ → ℕ → List ℕ

unfoldable pub bounded_utf8 : Crypto → List ℕ → Option (List ℕ)
bounded_utf8 lib value =
    if leb (length value) auth_secret_max_chars
    then elim (lib.utf8 value) [
      | none ↦ none
      | some raw ↦ if leb (length raw) auth_secret_max_bytes then some raw else none
    ]
    else none

abbrev pub is_ascii : List ℕ → Bool
is_ascii s = all (λ c. ltb c 128) s

abbrev pub contains_code : ℕ → List ℕ → Bool
contains_code c s = any (λ d. d == c) s

-- "=" * n
abbrev pub padding : ℕ → List ℕ
padding zero = []
padding (suc n) = 61 ∷ padding n

unfoldable pub b64url_decode_nopad : Crypto → List ℕ → Option (List ℕ)
unfolding any all
b64url_decode_nopad lib s =
    if length s == 0 || ltb 128 (length s) || contains_code 61 s || not (is_ascii s)
    then none
    else lib.b64decode (s ++ padding ((4 - length s % 4) % 4))

abbrev pub onto_first : ℕ → List (List ℕ) → List (List ℕ)
onto_first c [] = []
onto_first c (part ∷ parts) = (c ∷ part) ∷ parts

-- s.split("$", n): the parts, the last one with the rest.
unfoldable pub split_dollar : ℕ → List ℕ → List (List ℕ)
split_dollar n [] = [] ∷ []
split_dollar zero (c ∷ s) = (c ∷ s) ∷ []
split_dollar (suc n) (c ∷ s) =
    let cut = split_dollar n s in
    let kept = split_dollar (suc n) s in if c == 36 then [] ∷ cut else onto_first c kept

-- The digest of the password, compared with the expected one.
unfoldable pub same_digest : Crypto → List ℕ → ℕ → Option (List ℕ) → Option (List ℕ) → Bool
unfolding codes_eq
same_digest lib password rounds none expected = false
same_digest lib password rounds (some salt) none = false
same_digest lib password rounds (some salt) (some expected) =
    length salt == pbkdf2_salt_bytes
    && length expected == pbkdf2_digest_bytes
    && codes_eq (lib.pbkdf2 password salt rounds) expected

abbrev pub algorithm : List ℕ
algorithm = codes "pbkdf2_sha256"

unfoldable pub verify_parts : Crypto → List ℕ → List (List ℕ) → Bool
unfolding codes_eq all_digits value_from b64url_decode_nopad same_digest
verify_parts lib password (algo ∷ rounds ∷ salt ∷ digest ∷ []) =
    codes_eq algo algorithm
    && all_digits rounds
    && leb pbkdf2_rounds_min (value_from 0 rounds)
    && leb (value_from 0 rounds) pbkdf2_rounds_max
    && same_digest lib password (value_from 0 rounds) (b64url_decode_nopad lib salt)
        (b64url_decode_nopad lib digest)
verify_parts lib password [] = false
verify_parts lib password (a ∷ []) = false
verify_parts lib password (a ∷ b ∷ []) = false
verify_parts lib password (a ∷ b ∷ c ∷ []) = false
verify_parts lib password (a ∷ b ∷ c ∷ d ∷ e ∷ rest) = false

unfoldable pub verify_password_hash : Crypto → List ℕ → List ℕ → Bool
verify_password_hash lib password encoded = elim (bounded_utf8 lib password) [
  | none ↦ false
  | some bytes ↦
      leb (length encoded) password_hash_max_chars
      && verify_parts lib bytes (split_dollar 3 encoded)
]

-- `hash_secret`, with its random salt; none is the UnicodeError of a secret that has no UTF-8 form.
unfoldable pub hash_secret : Crypto → List ℕ → List ℕ → Option (List ℕ)
unfolding show_natural
hash_secret lib salt secret = elim (lib.utf8 secret) [
  | none ↦ none
  | some bytes ↦ some (
      algorithm
      ++ 36 ∷ show_natural 200_000
      ++ 36 ∷ lib.b64encode salt
      ++ 36 ∷ lib.b64encode (lib.pbkdf2 bytes salt 200_000))
]
