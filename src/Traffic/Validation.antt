-- ===== src/Traffic/Validation.antt =====
-- hysteria/traffic_limiter.py: the validators of the state that a tick reads. InvalidJsonState is the fault
-- `invalid_state`; a text of more digits than `int` converts raises its ValueError.
use hy.Prelude.{
  ℕ, ◌+◌, String, Bool, true, not, ◌&&◌, ◌||◌, Option, none, some, [], leb, ◌==◌, if◌then◌else◌,
  str_eq, length,
}
use hy.Dict.{Dict, get, put}
use hy.Text.{codes}
use hy.Python.Numbers.{int_max_str_digits, pos, negsuc, strip, all_digits, value_from}
use hy.Python.Json.{
  Value, null, boolean, int, float, text, array, object, Fields, end, field, get_field,
}
use hy.Store.{Result, ok, err, invalid_state, value_error, ◌>>=◌}
use hy.Users.{Library, ConfigError, is_valid_username, authorization_config_error, value_of}
use hy.Users.Rules.{field_or}
use hy.Cycle.{cycle_length_min, cycle_length_max}
use hy.Traffic.Plan.{vless_uuid_of}

unfoldable pub non_negative_integer : Value → Result ℕ
unfolding strip all_digits value_from
non_negative_integer (int (pos n)) = ok n
non_negative_integer (int (negsuc n)) = err invalid_state
non_negative_integer (text s) =
    if not (all_digits (strip (codes s)))
    then err invalid_state
    else if leb (length (strip (codes s))) int_max_str_digits
    then ok (value_from 0 (strip (codes s)))
    else err value_error
non_negative_integer null = err invalid_state
non_negative_integer (boolean b) = err invalid_state
non_negative_integer (float f) = err invalid_state
non_negative_integer (array vs) = err invalid_state
non_negative_integer (object fs) = err invalid_state

abbrev pub only_directions : Fields → Bool
only_directions end = true
only_directions (field k v fs) =
    (str_eq k "tx" || str_eq k "rx" || str_eq k "total") && only_directions fs

-- A missing field is 0, the total too.
unfoldable pub validate_directions : Fields → Result Bool
validate_directions entry =
    if only_directions entry
    then (non_negative_integer (field_or (int (pos 0)) "tx" entry) >>= λ tx.
        non_negative_integer (field_or (int (pos 0)) "rx" entry) >>= λ rx.
        non_negative_integer (field_or (int (pos 0)) "total" entry) >>= λ total.
        if total == tx + rx then ok true else err invalid_state)
    else err invalid_state

abbrev pub checked : Result ℕ → Result Bool
checked (ok n) = ok true
checked (err e) = err e

unfoldable pub validate_usage_entry : Value → Result Bool
validate_usage_entry (object entry) = validate_directions entry
validate_usage_entry null = checked (non_negative_integer null)
validate_usage_entry (boolean b) = checked (non_negative_integer (boolean b))
validate_usage_entry (int z) = checked (non_negative_integer (int z))
validate_usage_entry (float f) = checked (non_negative_integer (float f))
validate_usage_entry (text s) = checked (non_negative_integer (text s))
validate_usage_entry (array vs) = checked (non_negative_integer (array vs))

abbrev pub object_or_invalid : Value → Result Fields
object_or_invalid (object fs) = ok fs
object_or_invalid null = err invalid_state
object_or_invalid (boolean b) = err invalid_state
object_or_invalid (int z) = err invalid_state
object_or_invalid (float f) = err invalid_state
object_or_invalid (text s) = err invalid_state
object_or_invalid (array vs) = err invalid_state

unfoldable pub validate_bucket : Fields → Result Bool
validate_bucket end = ok true
validate_bucket (field username entry rows) =
    if str_eq username ""
    then err invalid_state
    else validate_usage_entry entry >>= λ sound. validate_bucket rows

-- The loop over the buckets; `is_key` is the pattern of a key and `strptime`.
unfoldable pub validate_buckets : (String → Bool) → Fields → Result Bool
validate_buckets is_key end = ok true
validate_buckets is_key (field bucket rows buckets) =
    if is_key bucket
    then (object_or_invalid rows >>= λ fields.
        validate_bucket fields >>= λ sound. validate_buckets is_key buckets)
    else err invalid_state

unfoldable pub validate_usage_ledger : (String → Bool) → Value → Result Bool
validate_usage_ledger is_key v = object_or_invalid v >>= λ buckets. validate_buckets is_key buckets

-- The canonical uuid of a record, if it has one that is not blank.
unfoldable pub claimed_uuid : Library → Fields → Result (Option String)
claimed_uuid lib cfg =
    if length (vless_uuid_of lib cfg) == 0
    then ok none
    else elim (lib.uuid_hex (vless_uuid_of lib cfg)) [
      | none ↦ err invalid_state
      | some hex ↦ ok (some hex)
    ]

unfoldable pub claim_uuid : String → Option String → Dict String → Result (Dict String)
claim_uuid username none claimed = ok claimed
claim_uuid username (some uuid) claimed = elim (get uuid claimed) [
  | some previous ↦ err invalid_state
  | none ↦ ok (put uuid username claimed)
]

unfoldable pub check_integer : Fields → String → Result Bool
check_integer cfg name = elim (get_field name cfg) [
  | none ↦ ok true
  | some v ↦ checked (non_negative_integer v)
]

abbrev pub no_reason : Option ConfigError → Result Bool
no_reason none = ok true
no_reason (some reason) = err invalid_state

-- The loop over the users, from the uuids claimed so far.
unfoldable pub validate_each_user : Library → Dict String → Fields → Result Bool
validate_each_user lib claimed end = ok true
validate_each_user lib claimed (field username v users) =
    if is_valid_username username
    then (object_or_invalid v >>= λ cfg. authorization_config_error lib (object cfg) >>= λ reason.
        no_reason reason >>= λ sound. claimed_uuid lib cfg >>= λ uuid.
        claim_uuid username uuid claimed >>= λ claimed'.
        check_integer cfg "monthly_quota_bytes" >>= λ a.
        check_integer cfg "quota_extra_bytes" >>= λ b. validate_each_user lib claimed' users)
    else err invalid_state

unfoldable pub validate_users : Library → Value → Result Bool
validate_users lib v = object_or_invalid v >>= λ users. validate_each_user lib [] users

unfoldable pub check_range : ℕ → ℕ → Option Value → Result Bool
check_range low high none = ok true
check_range low high (some v) =
    non_negative_integer v >>= λ n. if leb low n && leb n high then ok true else err invalid_state

-- A text that is not blank must be read by `strptime`.
unfoldable pub check_anchor : Library → Value → Result Bool
check_anchor lib (text s) =
    if str_eq s ""
    then ok true
    else elim (lib.strptime_day (codes s)) [ none ↦ err invalid_state | some day ↦ ok true ]
check_anchor lib null = ok true
check_anchor lib (boolean b) = err invalid_state
check_anchor lib (int z) = err invalid_state
check_anchor lib (float f) = err invalid_state
check_anchor lib (array vs) = err invalid_state
check_anchor lib (object fs) = err invalid_state

unfoldable pub validate_meta : Library → Value → Result Bool
validate_meta lib v = object_or_invalid v >>= λ meta.
    check_range 1 28 (get_field "settlement_day" meta) >>= λ a.
    check_range cycle_length_min cycle_length_max (get_field "cycle_length_days" meta) >>= λ b.
    check_anchor lib (value_of "cycle_anchor_date" meta)

unfoldable pub check_string : Value → Result Bool
check_string (text s) = ok true
check_string null = ok true
check_string (boolean b) = err invalid_state
check_string (int z) = err invalid_state
check_string (float f) = err invalid_state
check_string (array vs) = err invalid_state
check_string (object fs) = err invalid_state

unfoldable pub validate_reset_state : Value → Result Bool
validate_reset_state v = object_or_invalid v >>= λ state.
    check_string (value_of "last_reset_month" state) >>= λ a.
    check_string (value_of "last_reset_time" state)
