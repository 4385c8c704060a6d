-- ===== src/Python/Numbers.antt =====
-- Python's integers, `str` and `int` between them and texts, and `str.strip`, on code points.
-- `int_text` reads texts with the digits 0 to 9; wherever the program reads a number from a text of
-- other decimal digits, it compares it with `str` of the result, or with a pattern, and refuses it.
use hy.Prelude.{
  ℕ, zero, suc, ◌+◌, ◌-◌, ◌*◌, ◌/◌, ◌%◌, Bool, true, false, ◌&&◌, ◌||◌, Option, none, some, List,
  [], ◌∷◌, leb, ◌==◌, if◌then◌else◌, all, length,
}

-- `negsuc n` is -(n + 1).
pub data ℤ : Type 0 where
  pos : ℕ → ℤ
  negsuc : ℕ → ℤ

abbrev pub is_negative : ℤ → Bool
is_negative (pos n) = false
is_negative (negsuc n) = true

-- max(0, z)
abbrev pub at_least_zero : ℤ → ℕ
at_least_zero (pos n) = n
at_least_zero (negsuc n) = 0

-- The code points that `str.isspace` accepts.
unfoldable pub is_space : ℕ → Bool
is_space c =
    (leb 9 c && leb c 13)
    || (leb 28 c && leb c 32)
    || c == 133
    || c == 160
    || c == 5760
    || (leb 8192 c && leb c 8202)
    || c == 8232
    || c == 8233
    || c == 8239
    || c == 8287
    || c == 12288

unfoldable pub lstrip : List ℕ → List ℕ
unfolding is_space
lstrip [] = []
lstrip (c ∷ s) = let rest = lstrip s in if is_space c then rest else c ∷ s

unfoldable pub rstrip : List ℕ → List ℕ
unfolding is_space
rstrip [] = []
rstrip (c ∷ s) = elim (rstrip s) [ [] ↦ if is_space c then [] else c ∷ [] | d ∷ t ↦ c ∷ d ∷ t ]

-- s.strip()
unfoldable pub strip : List ℕ → List ℕ
unfolding lstrip rstrip
strip s = rstrip (lstrip s)

unfoldable pub is_digit : ℕ → Bool
is_digit c = leb 48 c && leb c 57

-- `int` raises ValueError for a text of more digits, by Python's default.
abbrev pub int_max_str_digits : ℕ
int_max_str_digits = 4300

unfoldable pub value_from : ℕ → List ℕ → ℕ
value_from n [] = n
value_from n (c ∷ s) = value_from (n * 10 + (c - 48)) s

-- One or more digits.
unfoldable pub all_digits : List ℕ → Bool
unfolding is_digit all
all_digits [] = false
all_digits (c ∷ s) = is_digit c && all is_digit s

-- Digits, with single underscores between two of them.
unfoldable pub grouped : List ℕ → Option (List ℕ)
unfolding is_digit
grouped [] = none
grouped (c ∷ []) = if is_digit c then some (c ∷ []) else none
grouped (c ∷ d ∷ s) =
    let plain = grouped (d ∷ s) in
    let after = grouped s in
    let rest = if d == 95 then after else plain in
    if is_digit c then (elim rest [ none ↦ none | some t ↦ some (c ∷ t) ]) else none

unfoldable pub natural_text : List ℕ → Option ℕ
unfolding grouped value_from
natural_text s = elim (grouped s) [
  | none ↦ none
  | some t ↦ if leb (length t) int_max_str_digits then some (value_from 0 t) else none
]

unfoldable pub negate : ℕ → ℤ
negate zero = pos zero
negate (suc n) = negsuc n

unfoldable pub signed_text : List ℕ → Option ℤ
unfolding natural_text negate
signed_text [] = none
signed_text (c ∷ s) =
    if c == 45
    then (elim (natural_text s) [ none ↦ none | some n ↦ some (negate n) ])
    else elim (natural_text (if c == 43 then s else c ∷ s)) [ none ↦ none | some n ↦ some (pos n) ]

-- int(s); none is its ValueError
unfoldable pub int_text : List ℕ → Option ℤ
unfolding signed_text strip
int_text s = signed_text (strip s)

-- The digits of a number above zero, in front of those at hand; the number of steps is its fuel.
unfoldable pub digits_onto : ℕ → ℕ → List ℕ → List ℕ
digits_onto zero n out = out
digits_onto (suc fuel) n out =
    let rest = digits_onto fuel (n / 10) ((48 + n % 10) ∷ out) in if n == 0 then out else rest

unfoldable pub show_natural : ℕ → List ℕ
unfolding digits_onto
show_natural zero = 48 ∷ []
show_natural (suc n) = digits_onto (suc n) (suc n) []

-- str(z)
unfoldable pub show : ℤ → List ℕ
unfolding show_natural
show (pos n) = show_natural n
show (negsuc n) = 45 ∷ show_natural (suc n)

unfoldable pub codes_eq : List ℕ → List ℕ → Bool
codes_eq [] [] = true
codes_eq [] (d ∷ t) = false
codes_eq (c ∷ s) [] = false
codes_eq (c ∷ s) (d ∷ t) = c == d && codes_eq s t
