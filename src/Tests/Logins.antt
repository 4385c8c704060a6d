-- ===== src/Tests/Logins.antt =====
-- hysteria/auth_backend.py and hysteria/user_compat.py: a request of the small host's user.
use hy.Prelude.{◌⊎◌, ◌≡◌, refl, ℕ, String, some, true, false, [], arith}
use hy.Store.{ok}
use hy.Auth.Decision.{authenticate}
use hy.Auth.FailClosed.{Authorized, authenticate_fail_closed}
use hy.Auth.Payload.{join_colon, authenticate_payload, authenticate_payload-join_colon}
use hy.Auth.Inputs.{validate_unique_vless_uuids}
use hy.Auth.Uuids.{HasUuid, validate_unique_vless_uuids_unique}
use hy.Auth.Password.{bounded_utf8, hash_secret, verify_password_hash}
use hy.Auth.Hashes.{Encodes, verify_password_hash-hash_secret}
use hy.Text.{codes}
use hy.Prelude.{List, ◌++◌, ◌∷◌, length}
use hy.Python.Json.{
  Value, object, text, int, float, infinite, boolean, field, end, Fields, is_blank, get_field,
}
use hy.Users.{is_valid_username, value_of, each_field, check_boolean, boolean_fields}
use hy.Tests.World.{
  library, crypto, repeat, b64encode, alice, setting, visit, request, server, served,
}

answered : authenticate setting visit request server ≡ (ok (some "alice"), served)
unfolding authenticate hy.Users.is_valid_username hy.Auth.Counts.deadline_expired
    hy.Auth.Decision.with_user hy.Auth.User.read_user hy.Auth.Decision.with_credential
    hy.Auth.Credential.verify_user_credential hy.Auth.Decision.with_quota hy.Auth.Quota.within_quota
    hy.Cycle.cycle_length_from_meta hy.Cycle.cycle_start_for hy.Cycle.anchor_for
    hy.Cycle.cycle_anchor_date hy.Cycle.days_of hy.Cycle.start_of hy.Auth.Decision.with_devices
    hy.Auth.Decision.max_devices hy.Auth.Decision.with_counts hy.Auth.Counts.get_online_counts
    hy.Auth.Decision.online_count hy.Admission.reserve_device_admission hy.Auth.Decision.after_slot
    hy.Auth.Decision.confirm hy.Auth.Decision.confirmed hy.Auth.Decision.source_of
answered = refl

authenticate_fail_closed_example : Authorized setting visit request server served "alice"
authenticate_fail_closed_example =
    authenticate_fail_closed setting visit request server served "alice" answered

valid_alice : is_valid_username "alice" ≡ true
unfolding is_valid_username
valid_alice = refl

authenticate_payload-join_colon_example :
    authenticate_payload setting visit request (join_colon "alice" "to:ken") server
    ≡ authenticate setting visit
        (record request { username = "alice"; password = codes "to:ken" })
        server
authenticate_payload-join_colon_example =
    authenticate_payload-join_colon setting visit request "alice" "to:ken" server valid_alice

-- Two users, each with a uuid of its own.
abbrev bob : Fields
bob = field "vless_uuid" (text "00000000-0000-0000-0000-000000000001") end

abbrev both : Fields
both = field "alice" (object alice) (field "bob" (object bob) end)

both_pass : validate_unique_vless_uuids library both ≡ ok true
unfolding validate_unique_vless_uuids
both_pass = refl

abbrev user : String
user = "bob"

bob_HasUuid : HasUuid library both user "uuid"
unfolding hy.Python.Json.get_field hy.Auth.Inputs.canonical_uuid hy.Users.value_of
bob_HasUuid = (bob, refl, refl)

validate_unique_vless_uuids_unique_example : user ≡ user
validate_unique_vless_uuids_unique_example =
    validate_unique_vless_uuids_unique library both user user "uuid" both_pass bob_HasUuid
      bob_HasUuid

abbrev salt : List ℕ
salt = repeat 16 3

abbrev secret : List ℕ
secret = codes "a secret"

abbrev hash : List ℕ
hash = codes "pbkdf2_sha256$200000$" ++ b64encode salt ++ 36 ∷ b64encode (repeat 32 8)

hashed : hash_secret crypto salt secret ≡ some hash
unfolding hash_secret
hashed = refl

bounded : bounded_utf8 crypto secret ≡ some secret
unfolding bounded_utf8
bounded = refl

salt-Encodes : Encodes crypto salt
unfolding hy.Prelude.all hy.Prelude.any
salt-Encodes = (ground arith, ground arith, refl, refl, refl, refl)

digest-Encodes : Encodes crypto (repeat 32 8)
unfolding hy.Prelude.all hy.Prelude.any
digest-Encodes = (ground arith, ground arith, refl, refl, refl, refl)

verify_password_hash-hash_secret_example : verify_password_hash crypto secret hash ≡ true
verify_password_hash-hash_secret_example =
    verify_password_hash-hash_secret crypto salt secret secret hash bounded refl refl salt-Encodes
      digest-Encodes hashed

abbrev dated : Fields
dated = field "expires_at" (text "2024-05-02") (field "quota_extra_bytes" (text "250") alice)
