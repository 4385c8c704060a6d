-- ===== src/Bridge/Headers.antt =====
-- hysteria/auth_service.py, `do_POST`: what the headers that it accepts say.
use hy.Prelude.{
  ℕ, true, ◌≡◌, refl, ◌⊎◌, inl, inr, List, [], ◌∷◌, arith, ◌==◌, ◌≤◌, ltb, all, length,
  if◌then◌else◌, Bool-cases,
}
use hy.Text.{codes}
use hy.Python.Numbers.{strip, all_digits, value_from}
use hy.Python.Words.{codes_eq_same}
use hy.Store.{Result, ok}
use hy.Bridge.Message.{max_body_bytes}
use hy.Bridge.Handler.{
  Post, content_length_of, content_type_is_json, split_semicolon, json_parts, is_part, lower_all,
}

-- There is one Content-Length header, of 1 to 4300 digits, which is that number, from 1 to 2048.
abbrev pub Announces : Post → ℕ → Type 0
Announces post announced =
    (raw : List ℕ) × (post.content_lengths ≡ raw ∷ [])
    × (all_digits (strip raw) ≡ true)
    × (length (strip raw) ≤ 4300)
    × (value_from 0 (strip raw) ≡ announced)
    × (1 ≤ announced)
    × (announced ≤ 2048)

pub announces :
    (post : Post) (lengths : List (List ℕ)) (announced : ℕ)
    → post.content_lengths ≡ lengths
    → content_length_of lengths ≡ ok (inr announced)
    → Announces post announced
unfolding content_length_of
announces post [] announced e h = absurd (ground (arith, h))
announces post (raw ∷ other ∷ more) announced e h = absurd (ground (arith, h))
announces post (raw ∷ []) announced e h = elim (Bool-cases (all_digits (strip raw))) [
  | inr other ↦ absurd (ground (arith, h, other))
  | inl digits ↦ elim (Bool-cases (ltb 4300 (length (strip raw)))) [
    | inl long ↦ absurd (ground (arith, h, digits, long))
    | inr short ↦
        let (same, some_bytes, small) = bounded (ground (arith, h, digits, short)) in
        (raw, e, digits, ground (arith, short), same, some_bytes, small)
  ]
]
  where
    bounded :
        ◌≡◌ {A = Result (ℕ ⊎ ℕ)}
          (if ltb max_body_bytes (value_from 0 (strip raw))
            then ok (inl 413)
            else if value_from 0 (strip raw) == 0
            then ok (inl 400)
            else ok (inr (value_from 0 (strip raw))))
          (ok (inr announced))
        → (value_from 0 (strip raw) ≡ announced) × (1 ≤ announced) × (announced ≤ 2048)
    bounded k = (ground (arith, k), ground (arith, k), ground (arith, k))

-- Of the parts of the content type between its semicolons, without space around them and with capital
-- letters made small, the first is `application/json` and every other one is `charset=utf-8`.
abbrev pub IsJson : List ℕ → Type 0
IsJson raw =
    (media : List ℕ) × (parameters : List (List ℕ)) × (split_semicolon raw ≡ media ∷ parameters)
    × (lower_all (strip media) ≡ codes "application/json")
    × (all (is_part "charset=utf-8") parameters ≡ true)

pub content_type-IsJson : (raw : List ℕ) → content_type_is_json raw ≡ true → IsJson raw
unfolding content_type_is_json json_parts
content_type-IsJson raw h = parts (split_semicolon raw) refl h
  where
    parts : (l : List (List ℕ)) → split_semicolon raw ≡ l → json_parts l ≡ true → IsJson raw
    parts [] e k = absurd (ground (arith, k))
    parts (media ∷ parameters) e k = (
      media,
      parameters,
      e,
      codes_eq_same (lower_all (strip media)) (codes "application/json") (ground (arith, k)),
      ground (arith, k),
    )
