-- ===== src/Users/Strictness.antt =====
-- hysteria/user_compat.py: what a record that `authorization_config_error` passes says of quota and expiry.
use hy.Prelude.{
  ℕ, String, Bool, false, ◌≡◌, refl, ◌⊎◌, inl, inr, Option, none, some, arith, Option-cases,
}
use hy.Text.{codes}
use hy.Python.Numbers.{pos, int_text}
use hy.Python.Json.{
  Value, int, float, text, object, finite, Fields, get_field, converted, to_int, is_blank,
  is_boolean,
}
use hy.Store.{Result, ok, err}
use hy.Users.{
  Library, ConfigError, or_else, each_field, check_boolean, check_count, check_string, value_of,
  boolean_fields, count_fields, string_fields, check_values, config_error,
  authorization_config_error, parse_expiry_date,
}
use hy.Users.Rules.{expiry_date}

pub or_else_passes :
    (a b : Result (Option ConfigError)) → or_else a b ≡ ok none → (a ≡ ok none) × (b ≡ ok none)
or_else_passes (ok none) b h = (refl, h)
or_else_passes (ok (some e)) b h = absurd (ground arith)
or_else_passes (err f) b h = absurd (ground arith)

-- The count that a value stands for: an integer for itself, a finite float for its integral part, which
-- `int` takes, so that -0.5 and 0.5 stand for 0, and a text for the integer that is written there.
pub data Means : Value → ℕ → Type 0 where
  integer : {n : ℕ} → Means (int (pos n)) n
  truncated : {n : ℕ} {integral zero : Bool} → Means (float (finite (pos n) integral zero)) n
  written : {s : String} {n : ℕ} → int_text (codes s) ≡ some (pos n) → Means (text s) n

-- The field is absent and counts as 0, or it holds a value that stands for the count.
abbrev pub Counted : String → Fields → ℕ → Type 0
Counted name cfg n =
    ((get_field name cfg ≡ none) × (n ≡ 0))
    ⊎ ((v : Value) × (get_field name cfg ≡ some v) × Means v n)

-- The field is absent and counts as 0, or `int` makes that count of it and it is no Boolean.
abbrev Counts : String → Fields → ℕ → Type 0
Counts name cfg n =
    ((get_field name cfg ≡ none) × (n ≡ 0))
    ⊎ ((v : Value) × (get_field name cfg ≡ some v)
        × (is_boolean v ≡ false)
        × (to_int v ≡ converted (pos n)))

-- An expiry that a record holds, and that is not blank, is read as a day: a record that passes never
-- loses its expiry to a malformed date.
pub expiry_date_strict :
    (lib : Library) (cfg : Fields)
    → authorization_config_error lib (object cfg) ≡ ok none
    → is_blank (value_of "expires_at" cfg) ≡ false
    → (day : ℕ) × (expiry_date lib (object cfg) ≡ some day)
unfolding authorization_config_error config_error check_values expiry_date
expiry_date_strict lib cfg h held =
    let r1 = (or_else_passes (each_field (check_boolean cfg) boolean_fields) _ h).1 in
    let r2 = (or_else_passes (each_field (check_count cfg) count_fields) _ r1).1 in
    let r3 = (or_else_passes (each_field (check_string cfg) string_fields) _ r2).1 in
    elim (Option-cases (parse_expiry_date lib (value_of "expires_at" cfg))) [
      | inl none_parsed ↦ absurd (ground (arith, none_parsed, held))
      | inr (day, parsed) ↦ (day, parsed)
    ]
