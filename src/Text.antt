-- ===== src/Text.antt =====
-- Texts as Python orders them: by their code points.
use Prim.Native.Char.{code}
use hy.Prelude.{
  ℕ, String, ◌≡◌, refl, Bool, true, false, ◌&&◌, ◌||◌, List, [], ◌∷◌, arith, ltb, ◌==◌, length,
  if◌then◌else◌, str_eq, any, all, str_eq_iff,
}

abbrev pub codes : String → List ℕ
codes String.[] = []
codes (String.◌∷◌ c s) = code c ∷ codes s

-- len(s)
unfoldable pub len : String → ℕ
len s = length (codes s)

unfoldable pub codes_lt : List ℕ → List ℕ → Bool
codes_lt [] [] = false
codes_lt [] (b ∷ bs) = true
codes_lt (a ∷ as') [] = false
codes_lt (a ∷ as') (b ∷ bs) = ltb a b || (a == b && codes_lt as' bs)

-- s < t
unfoldable pub text_lt : String → String → Bool
unfolding codes_lt
text_lt s t = codes_lt (codes s) (codes t)

-- s in l
unfoldable pub contains : String → List String → Bool
unfolding any
contains s l = any (str_eq s) l

unfoldable pub insert_sorted : String → List String → List String
insert_sorted s [] = s ∷ []
insert_sorted s (t ∷ l) =
    let rest = insert_sorted s l in
    if str_eq s t then t ∷ l else if text_lt s t then s ∷ t ∷ l else t ∷ rest

-- sorted(set(l))
unfoldable pub sorted_set : List String → List String
unfolding insert_sorted text_lt
sorted_set [] = []
sorted_set (s ∷ l) = insert_sorted s (sorted_set l)

pub codes_lt_trans :
    (a b c : List ℕ) → codes_lt a b ≡ true → codes_lt b c ≡ true → codes_lt a c ≡ true
unfolding codes_lt
codes_lt_trans [] [] c h k = ground arith
codes_lt_trans [] (y ∷ b) [] h k = ground arith
codes_lt_trans [] (y ∷ b) (z ∷ c) h k = refl
codes_lt_trans (x ∷ a) [] c h k = ground arith
codes_lt_trans (x ∷ a) (y ∷ b) [] h k = ground arith
codes_lt_trans (x ∷ a) (y ∷ b) (z ∷ c) h k = ground (arith, codes_lt_trans a b c)

pub text_lt_trans : (s t u : String) → text_lt s t ≡ true → text_lt t u ≡ true → text_lt s u ≡ true
unfolding text_lt
text_lt_trans s t u h k = codes_lt_trans (codes s) (codes t) (codes u) h k

-- A third text stands above the smaller or below the greater one.
codes_lt_split : (a b c : List ℕ) → codes_lt a c ≡ true → (codes_lt a b || codes_lt b c) ≡ true
unfolding codes_lt
codes_lt_split [] [] c h = h
codes_lt_split [] (y ∷ b) c h = refl
codes_lt_split (x ∷ a) b [] h = ground arith
codes_lt_split (x ∷ a) [] (z ∷ c) h = refl
codes_lt_split (x ∷ a) (y ∷ b) (z ∷ c) h = ground (arith, codes_lt_split a b c)

pub text_lt_split : (s t u : String) → text_lt s u ≡ true → (text_lt s t || text_lt t u) ≡ true
unfolding text_lt
text_lt_split s t u h = codes_lt_split (codes s) (codes t) (codes u) h

codes_lt_irrefl : (a : List ℕ) → codes_lt a a ≡ false
unfolding codes_lt
codes_lt_irrefl [] = refl
codes_lt_irrefl (x ∷ a) = ground (arith, codes_lt_irrefl a)

pub text_lt_irrefl : (s : String) → text_lt s s ≡ false
unfolding text_lt
text_lt_irrefl s = codes_lt_irrefl (codes s)

module _ (p : String → Bool) where
  all-insert_sorted :
      (s : String) (l : List String)
      → p s ≡ true
      → all p l ≡ true
      → all p (insert_sorted s l) ≡ true
  unfolding all insert_sorted
  all-insert_sorted s [] h k = ground arith
  all-insert_sorted s (t ∷ l) h k = ground (arith, all-insert_sorted s l h)

  pub all-sorted_set : (l : List String) → all p l ≡ true → all p (sorted_set l) ≡ true
  unfolding all sorted_set
  all-sorted_set [] h = refl
  all-sorted_set (s ∷ l) h = ground (arith, all-sorted_set l, all-insert_sorted s (sorted_set l))

contains-insert_sorted :
    (s t : String) (l : List String) → contains t (insert_sorted s l) ≡ (str_eq t s || contains t l)
unfolding contains insert_sorted
contains-insert_sorted s t [] = refl
contains-insert_sorted s t (u ∷ l) =
    ground (arith, contains-insert_sorted s t l, str_eq_iff s u, str_eq_iff t s, str_eq_iff t u)

-- Sorting a set keeps its members.
pub contains-sorted_set : (t : String) (l : List String) → contains t (sorted_set l) ≡ contains t l
unfolding contains sorted_set
contains-sorted_set t [] = refl
contains-sorted_set t (s ∷ l) =
    ground (arith, contains-sorted_set t l, contains-insert_sorted s t (sorted_set l))
