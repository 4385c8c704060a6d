-- ===== src/Display.antt =====
-- hysteria/display.py: the multiplier that quotas count traffic with, read strictly. A float in the
-- accepted range is the decimal number that `str` writes for it: its digits, over a power of ten.
use hy.Prelude.{
  ℕ, ◌*◌, String, Bool, true, false, ◌&&◌, Option, none, some, List, leb, if◌then◌else◌, str_eq,
}
use hy.Text.{codes}
use hy.Python.Numbers.{strip}
use hy.Python.Json.{Value, null, boolean, int, float, text, array, object, Fields, get_field}
use hy.Store.{Result, ok, err, value_error, File, absent, corrupt, raises, holds}

pub record Multiplier : Type 0 where
  pub digits : ℕ
  -- The power of ten that divides the digits.
  pub scale : ℕ

-- What `float(s)` gives: a number that is not negative, another one, or a ValueError.
pub data Parsed : Type 0 where
  number : Multiplier → Parsed
  negative not_finite refused : Parsed

-- The library: `float` on a text, and `str` on a value of the state file.
pub record Floats : Type 0 where
  pub parse : List ℕ → Parsed
  pub show : Value → List ℕ

-- From 0.1 to 20.0.
unfoldable pub in_range : Multiplier → Bool
in_range m = leb m.scale (10 * m.digits) && leb m.digits (20 * m.scale)

unfoldable pub accepted : Parsed → Option Multiplier
unfolding in_range
accepted (number m) = if in_range m then some m else none
accepted negative = none
accepted not_finite = none
accepted refused = none

unfoldable pub parse_optional_display_multiplier : Floats → List ℕ → Option Multiplier
unfolding accepted strip
parse_optional_display_multiplier lib raw = accepted (lib.parse (strip raw))

unfoldable pub parse_display_multiplier : Floats → List ℕ → Multiplier → Multiplier
unfolding parse_optional_display_multiplier
parse_display_multiplier lib raw default = elim (parse_optional_display_multiplier lib raw) [
  | none ↦ default
  | some m ↦ m
]

-- A value that must be accepted.
unfoldable pub required : Option Multiplier → Result (Option Multiplier)
required none = err value_error
required (some m) = ok (some m)

-- data.get('multiplier')
unfoldable pub multiplier_of : Floats → Fields → List ℕ
unfolding get_field
multiplier_of lib data' = elim (get_field "multiplier" data') [
  | none ↦ lib.show null
  | some v ↦ lib.show v
]

-- data.get('enabled', True), which must be a Boolean
unfoldable pub enabled_policy : Floats → Fields → Value → Result (Option Multiplier)
unfolding required parse_optional_display_multiplier multiplier_of
enabled_policy lib data' (boolean true) =
    required (parse_optional_display_multiplier lib (multiplier_of lib data'))
enabled_policy lib data' (boolean false) = ok none
enabled_policy lib data' null = err value_error
enabled_policy lib data' (int z) = err value_error
enabled_policy lib data' (float f) = err value_error
enabled_policy lib data' (text s) = err value_error
enabled_policy lib data' (array vs) = err value_error
enabled_policy lib data' (object fs) = err value_error

unfoldable pub policy : Floats → Value → Result (Option Multiplier)
unfolding enabled_policy get_field
policy lib (object data') =
    enabled_policy lib data' (elim (get_field "enabled" data') [ none ↦ boolean true | some v ↦ v ])
policy lib null = err value_error
policy lib (boolean b) = err value_error
policy lib (int z) = err value_error
policy lib (float f) = err value_error
policy lib (text s) = err value_error
policy lib (array vs) = err value_error

unfoldable pub runtime_display_multiplier_strict : Floats → File Value → Result (Option Multiplier)
unfolding policy
runtime_display_multiplier_strict lib absent = ok none
runtime_display_multiplier_strict lib corrupt = err value_error
runtime_display_multiplier_strict lib (raises f) = err f
runtime_display_multiplier_strict lib (holds v) = policy lib v

unfoldable pub or_deployed : Multiplier → Result (Option Multiplier) → Result Multiplier
or_deployed default (err e) = err e
or_deployed default (ok none) = ok default
or_deployed default (ok (some m)) = ok m

unfoldable pub from_environment : Option Multiplier → Result Multiplier
from_environment none = err value_error
from_environment (some m) = ok m

-- `env_value` is os.environ.get('HY_DISPLAY_MULTIPLIER'); an empty one counts as none.
unfoldable pub effective_display_multiplier_strict :
    Floats → Multiplier → Option String → File Value → Result Multiplier
unfolding from_environment parse_optional_display_multiplier or_deployed
    runtime_display_multiplier_strict
effective_display_multiplier_strict lib default none file =
    or_deployed default (runtime_display_multiplier_strict lib file)
effective_display_multiplier_strict lib default (some env_value) file =
    if str_eq env_value ""
    then or_deployed default (runtime_display_multiplier_strict lib file)
    else from_environment (parse_optional_display_multiplier lib (codes env_value))
