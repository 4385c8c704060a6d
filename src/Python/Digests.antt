-- ===== src/Python/Digests.antt =====
-- Python's `hmac.compare_digest` on texts: a TypeError unless both are ASCII.
use hy.Prelude.{Bool, ◌&&◌, ◌≡◌, true, ltb, if◌then◌else◌, str_eq, String, all, arith}
use hy.Text.{codes}
use hy.Store.{Result, ok, err, type_error}

unfoldable pub is_ascii_text : String → Bool
unfolding all
is_ascii_text s = all (λ c. ltb c 128) (codes s)

unfoldable pub compare_digest : String → String → Result Bool
unfolding is_ascii_text
compare_digest a b = if is_ascii_text a && is_ascii_text b then ok (str_eq a b) else err type_error

pub compare_digest_ascii :
    (a b : String)
    → is_ascii_text a ≡ true
    → is_ascii_text b ≡ true
    → compare_digest a b ≡ ok (str_eq a b)
unfolding compare_digest
compare_digest_ascii a b h k = ground (arith, h, k)
