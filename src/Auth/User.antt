-- ===== src/Auth/User.antt =====
-- hysteria/auth_backend.py: the record of the user that authenticates, and the digest that binds it.
use hy.Prelude.{ℕ, String, Bool, true, Option, none, some, if◌then◌else◌}
use hy.Python.Json.{Value, object, Fields, get_field}
use hy.Store.{Result, ok, err, state_unavailable, ◌>>=◌, File}
use hy.Users.{Library, ConfigError, authorization_config_error}
use hy.Users.Rules.{is_inactive}
use hy.Online.{Canonical}
use hy.Auth.Inputs.{
  load_json, object_or_unavailable, non_negative_integer, validate_unique_vless_uuids,
}

-- A field is absent, or it is a count.
unfoldable pub check_field : Fields → String → Result Bool
unfolding get_field non_negative_integer
check_field user name = elim (get_field name user) [
  | none ↦ ok true
  | some v ↦ non_negative_integer v >>= λ n. ok true
]

unfoldable pub check_counts : Fields → Result Bool
unfolding check_field
check_counts user = check_field user "monthly_quota_bytes" >>= λ a.
    check_field user "quota_extra_bytes" >>= λ b. check_field user "max_devices"

-- users.get(username), which must be an object
unfoldable pub user_record : Option Value → Result Fields
user_record none = err state_unavailable
user_record (some v) = object_or_unavailable v

-- A reason makes the user unavailable.
abbrev pub no_reason : Option ConfigError → Result Bool
no_reason none = ok true
no_reason (some reason) = err state_unavailable

unfoldable pub validated_authorization_user : Library → Fields → String → ℕ → Result Fields
unfolding validate_unique_vless_uuids user_record get_field authorization_config_error check_counts
    is_inactive
validated_authorization_user lib users username today =
    validate_unique_vless_uuids lib users >>= λ unique.
    user_record (get_field username users) >>= λ user.
    authorization_config_error lib (object user) >>= λ reason. no_reason reason >>= λ sound.
    check_counts user >>= λ counted.
    if is_inactive lib (object user) today then err state_unavailable else ok user

unfoldable pub authorization_generation : Canonical → Fields → Result String
authorization_generation lib user = elim (lib.dumps (object user)) [
  | none ↦ err state_unavailable
  | some canonical ↦ ok (lib.sha256 canonical)
]

-- One reading of users.json: the user's record and its generation.
unfoldable pub read_user : Library → Canonical → File Value → String → ℕ → Result (Fields × String)
unfolding load_json validated_authorization_user authorization_generation
read_user lib canonical file username today = load_json true file >>= λ users.
    validated_authorization_user lib users username today >>= λ user.
    authorization_generation canonical user >>= λ generation. ok (user, generation)
