-- ===== src/Python/Words.antt =====
-- Equality of texts, as their code points.
use hy.Prelude.{ℕ, true, ◌≡◌, refl, List, [], ◌∷◌, arith}
use hy.Python.Numbers.{codes_eq}

pub codes_eq_same : (a b : List ℕ) → codes_eq a b ≡ true → a ≡ b
unfolding codes_eq
codes_eq_same [] [] h = refl
codes_eq_same [] (d ∷ b) h = absurd (ground arith)
codes_eq_same (c ∷ a) [] h = absurd (ground arith)
codes_eq_same (c ∷ a) (d ∷ b) h = ground (arith, codes_eq_same a b)
