-- ===== src/Python/Json.antt =====
-- Values that `json.load` returns: the fields of an object are distinct, and stand in the file's order.
use hy.Prelude.{String, Bool, true, false, not, Option, none, some, ltb, str_eq, if◌then◌else◌}
use hy.Python.Numbers.{ℤ, pos, negsuc, int_text}
use hy.Text.{codes}

-- A float: a finite one as its integral part and whether it is an integer and whether it is zero.
pub data Float : Type 0 where
  finite : ℤ → Bool → Bool → Float
  infinite not_a_number : Float

mutual
  pub data Value : Type 0 where
    null : Value
    boolean : Bool → Value
    int : ℤ → Value
    float : Float → Value
    text : String → Value
    array : Items → Value
    object : Fields → Value

  pub data Items : Type 0 where
    nil : Items
    cons : Value → Items → Items

  pub data Fields : Type 0 where
    end : Fields
    field : String → Value → Fields → Fields

-- d.get(k)
unfoldable pub get_field : String → Fields → Option Value
get_field k end = none
get_field k (field j v fs) = if str_eq j k then some v else get_field k fs

-- bool(value)
unfoldable pub truthy : Value → Bool
truthy null = false
truthy (boolean b) = b
truthy (int (pos n)) = ltb 0 n
truthy (int (negsuc n)) = true
truthy (float (finite z integral zero)) = not zero
truthy (float infinite) = true
truthy (float not_a_number) = true
truthy (text s) = not (str_eq s "")
truthy (array nil) = false
truthy (array (cons v vs)) = true
truthy (object end) = false
truthy (object (field k v fs)) = true

-- int(value): an integer, a TypeError or ValueError, or an OverflowError.
pub data Conversion : Type 0 where
  converted : ℤ → Conversion
  refused overflows : Conversion

unfoldable pub text_conversion : Option ℤ → Conversion
text_conversion none = refused
text_conversion (some z) = converted z

unfoldable pub to_int : Value → Conversion
unfolding text_conversion int_text
to_int null = refused
to_int (boolean b) = converted (pos (if b then 1 else 0))
to_int (int z) = converted z
to_int (float (finite z integral zero)) = converted z
to_int (float infinite) = overflows
to_int (float not_a_number) = refused
to_int (text s) = text_conversion (int_text (codes s))
to_int (array vs) = refused
to_int (object fs) = refused

-- value in (None, "")
unfoldable pub is_blank : Value → Bool
is_blank null = true
is_blank (text s) = str_eq s ""
is_blank (boolean b) = false
is_blank (int z) = false
is_blank (float f) = false
is_blank (array vs) = false
is_blank (object fs) = false

unfoldable pub is_boolean : Value → Bool
is_boolean (boolean b) = true
is_boolean null = false
is_boolean (int z) = false
is_boolean (float f) = false
is_boolean (text s) = false
is_boolean (array vs) = false
is_boolean (object fs) = false

unfoldable pub is_text : Value → Bool
is_text (text s) = true
is_text null = false
is_text (boolean b) = false
is_text (int z) = false
is_text (float f) = false
is_text (array vs) = false
is_text (object fs) = false
