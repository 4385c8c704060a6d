-- ===== src/Auth/Hashes.antt =====
-- A hash that `hash_secret` writes, checked by `verify_password_hash`.
use hy.Prelude.{
  ℕ, zero, suc, ◌-◌, ◌%◌, ◌≤◌, true, false, not, ◌||◌, ◌≡◌, refl, inl, inr, ◌∙◌, some, List, [],
  ◌∷◌, ◌++◌, ltb, leb, ◌==◌, length, arith, Option-cases, any, ap, length-append,
}
use hy.Python.Numbers.{all_digits, value_from, codes_eq, show_natural}
use hy.Auth.Password.{
  Crypto, bounded_utf8, is_ascii, contains_code, padding, b64url_decode_nopad, split_dollar,
  same_digest, algorithm, verify_parts, verify_password_hash, hash_secret,
}

codes_eq_refl : (s : List ℕ) → codes_eq s s ≡ true
unfolding codes_eq
codes_eq_refl [] = refl
codes_eq_refl (c ∷ s) = ground (arith, codes_eq_refl s)

split_last : (n : ℕ) (a : List ℕ) → contains_code 36 a ≡ false → split_dollar n a ≡ a ∷ []
unfolding split_dollar any
split_last n [] h = refl
split_last zero (c ∷ a) h = refl
split_last (suc n) (c ∷ a) h = ground (arith, split_last (suc n) a)

split_first :
    (n : ℕ) (a rest : List ℕ)
    → contains_code 36 a ≡ false
    → split_dollar (suc n) (a ++ 36 ∷ rest) ≡ a ∷ split_dollar n rest
unfolding split_dollar any
split_first n [] rest h = refl
split_first n (c ∷ a) rest h = ground (arith, split_first n a rest)

-- The base64 text of the bytes: of 1 to 128 ASCII characters, with no "=" and no "$", and decoded to them
-- when its padding is put back.
abbrev pub Encodes : Crypto → List ℕ → Type 0
Encodes lib bytes =
    (1 ≤ length (lib.b64encode bytes))
    × (length (lib.b64encode bytes) ≤ 128)
    × (is_ascii (lib.b64encode bytes) ≡ true)
    × (contains_code 61 (lib.b64encode bytes) ≡ false)
    × (contains_code 36 (lib.b64encode bytes) ≡ false)
    × (lib.b64decode (lib.b64encode bytes ++ padding ((4 - length (lib.b64encode bytes) % 4) % 4))
        ≡ some bytes)

decode-encode :
    (lib : Crypto) (bytes : List ℕ)
    → Encodes lib bytes
    → b64url_decode_nopad lib (lib.b64encode bytes) ≡ some bytes
unfolding b64url_decode_nopad
decode-encode lib bytes (some_text, short, ascii, no_pad, no_dollar, decoded) =
    let tests : (length (lib.b64encode bytes) == 0
          || ltb 128 (length (lib.b64encode bytes))
          || contains_code 61 (lib.b64encode bytes)
          || not (is_ascii (lib.b64encode bytes)))
        ≡ false =
      ground (arith, some_text, short, ascii, no_pad) in
    rw tests decoded

-- The text that `hash_secret` writes, of a salt and a digest in base64.
abbrev encoded : List ℕ → List ℕ → List ℕ
encoded salt digest = algorithm ++ 36 ∷ show_natural 200_000 ++ 36 ∷ salt ++ 36 ∷ digest

split-encoded :
    (salt digest : List ℕ)
    → contains_code 36 salt ≡ false
    → contains_code 36 digest ≡ false
    → split_dollar 3 (encoded salt digest) ≡ algorithm ∷ show_natural 200_000 ∷ salt ∷ digest ∷ []
unfolding show_natural any
split-encoded salt digest h k =
    split_first 2 algorithm _ refl
    ∙ ap (λ l. algorithm ∷ l) (split_first 1 (show_natural 200_000) _ refl)
    ∙ ap (λ l. algorithm ∷ show_natural 200_000 ∷ l) (split_first 0 salt digest h)
    ∙ ap (λ l. algorithm ∷ show_natural 200_000 ∷ salt ∷ l) (split_last 0 digest k)

length-encoded :
    (salt digest : List ℕ)
    → length salt ≤ 128
    → length digest ≤ 128
    → leb (length (encoded salt digest)) 512 ≡ true
unfolding show_natural
length-encoded salt digest h k = ground (arith, length-append salt (36 ∷ digest))

rounds_digits : all_digits (show_natural 200_000) ≡ true
unfolding show_natural all_digits
rounds_digits = refl

rounds_value : value_from 0 (show_natural 200_000) ≡ 200_000
unfolding show_natural value_from
rounds_value = refl

same_digest_holds :
    (lib : Crypto) (bytes salt digest : List ℕ)
    → length salt ≡ 16
    → length digest ≡ 32
    → lib.pbkdf2 bytes salt 200_000 ≡ digest
    → same_digest lib bytes 200_000 (some salt) (some digest) ≡ true
unfolding same_digest
same_digest_holds lib bytes salt digest n m same =
    rw same (ground (arith, n, m, codes_eq_refl digest))

verify-parts :
    (lib : Crypto) (bytes salt digest salt_text digest_text : List ℕ)
    → b64url_decode_nopad lib salt_text ≡ some salt
    → b64url_decode_nopad lib digest_text ≡ some digest
    → length salt ≡ 16
    → length digest ≡ 32
    → lib.pbkdf2 bytes salt 200_000 ≡ digest
    → verify_parts lib bytes (algorithm ∷ show_natural 200_000 ∷ salt_text ∷ digest_text ∷ [])
      ≡ true
unfolding verify_parts
verify-parts lib bytes salt digest salt_text digest_text e f n m same =
    rw (rounds_digits, rounds_value, e, f) (same_digest_holds lib bytes salt digest n m same)

bounded_bytes :
    (lib : Crypto) (secret bytes : List ℕ)
    → bounded_utf8 lib secret ≡ some bytes
    → lib.utf8 secret ≡ some bytes
unfolding bounded_utf8
bounded_bytes lib secret bytes h = elim (Option-cases (lib.utf8 secret)) [
  | inl no_form ↦ absurd (ground (arith, h, no_form))
  | inr (raw, form) ↦ ground (arith, h, form)
]

-- A secret of at most 256 characters, with a UTF-8 form of at most 1024 bytes, passes the check against
-- the hash that `hash_secret` writes for it, with any salt of 16 bytes, where the base64 texts of the
-- salt and of the digest, which has 32 bytes, are well formed and are decoded to them.
pub verify_password_hash-hash_secret :
    (lib : Crypto) (salt secret bytes hash : List ℕ)
    → bounded_utf8 lib secret ≡ some bytes
    → length salt ≡ 16
    → length (lib.pbkdf2 bytes salt 200_000) ≡ 32
    → Encodes lib salt
    → Encodes lib (lib.pbkdf2 bytes salt 200_000)
    → hash_secret lib salt secret ≡ some hash
    → verify_password_hash lib secret hash ≡ true
unfolding verify_password_hash
verify_password_hash-hash_secret lib salt secret bytes hash bounded n m es ed written =
    let utf8 = bounded_bytes lib secret bytes bounded in
    let is_encoded : hash
        ≡ encoded (lib.b64encode salt) (lib.b64encode (lib.pbkdf2 bytes salt 200_000)) =
      unfold hash_secret in ground (arith, written, utf8) in
    let short =
      length-encoded (lib.b64encode salt) (lib.b64encode (lib.pbkdf2 bytes salt 200_000)) es.1
        ed.1 in
    let parts =
      verify-parts lib bytes salt (lib.pbkdf2 bytes salt 200_000) (lib.b64encode salt)
        (lib.b64encode (lib.pbkdf2 bytes salt 200_000)) (decode-encode lib salt es)
        (decode-encode lib (lib.pbkdf2 bytes salt 200_000) ed) n m refl in
    let split =
      split-encoded (lib.b64encode salt) (lib.b64encode (lib.pbkdf2 bytes salt 200_000)) es.4
        ed.4 in
    rw is_encoded (rw (bounded, verify_password_hash) (rw short (rw split parts)))
