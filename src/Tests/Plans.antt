-- ===== src/Tests/Plans.antt =====
-- hysteria/traffic_limiter.py: the plan for a user over its quota and one below, and a usage entry.
use hy.Prelude.{ℕ, ◌*◌, ◌≡◌, refl, ◌⊎◌, some, none, true, false, List, [], ◌∷◌, String, leb}
use hy.Dict.{get}
use hy.Text.{codes, contains}
use hy.Python.Numbers.{pos}
use hy.Python.Json.{Value, object, text, int, boolean, Fields, field, end, get_field}
use hy.Store.{ok}
use hy.Traffic.{Ledger, bytes}
use hy.Traffic.Plan.{Tick, Plan, build_static_access_plan, credential_of, vless_uuid_of}
use hy.Traffic.Enforcement.{Blocked, Allowed, build_static_access_plan_lem}
use hy.Traffic.Validation.{validate_usage_entry}
use hy.Traffic.Agreement.{validate_usage_entry-usage_total}
use hy.Auth.Inputs.{usage_total}
use hy.Tests.World.{library}

abbrev tick : Tick
tick = record {
  library = library;
  today = 100;
  days = "2024-05-01" ∷ "2024-05-02" ∷ [];
  reaches = λ used quota. leb (quota * 100) (used * 228);
}

abbrev daily : Ledger
daily = ("2024-05-02", ("alice", bytes 500) ∷ ("bob", bytes 100) ∷ []) ∷ []

abbrev limited : Fields
limited =
    field "metered" (boolean true)
      (field "monthly_quota_bytes" (int (pos 1000)) (field "vless_uuid" (text " u ") end))

abbrev users : Fields
users = field "alice" (object limited) (field "bob" (object limited) end)

abbrev result : Plan × List String
result = (("alice", none) ∷ ("bob", some (codes "u")) ∷ [], "alice" ∷ [])

planned_users : build_static_access_plan tick daily users ≡ ok result
unfolding build_static_access_plan hy.Traffic.Plan.verdict_of hy.Traffic.Plan.verdict_of_fields
    hy.Traffic.Plan.over_quota hy.Traffic.Plan.planned credential_of vless_uuid_of
    hy.Users.Rules.is_inactive hy.Users.Rules.total_quota_bytes
planned_users = refl

distinct_alice : get_field "alice" (field "bob" (object limited) end) ≡ none
unfolding get_field
distinct_alice = refl

distinct_bob : get_field "bob" end ≡ none
unfolding get_field
distinct_bob = refl

bob_here : get_field "bob" users ≡ some (object limited)
unfolding get_field
bob_here = refl

build_static_access_plan_lem_example :
    ((get "bob" result.0 ≡ some none)
      × (contains "bob" result.1 ≡ true)
      × Blocked tick daily "bob" limited)
    ⊎ ((get "bob" result.0 ≡ credential_of (vless_uuid_of library limited))
        × (contains "bob" result.1 ≡ false)
        × Allowed tick daily "bob" limited)
build_static_access_plan_lem_example =
    build_static_access_plan_lem tick daily users "bob" limited result
      (distinct_alice, (distinct_bob, tt)) planned_users bob_here

abbrev entry : Value
entry = object (field "tx" (int (pos 5)) (field "rx" (text "7") (field "total" (int (pos 12)) end)))

entry_valid : validate_usage_entry entry ≡ ok true
unfolding validate_usage_entry hy.Traffic.Validation.validate_directions
    hy.Traffic.Validation.non_negative_integer hy.Users.Rules.field_or
entry_valid = refl

validate_usage_entry-usage_total_example : (n : ℕ) × (usage_total entry ≡ ok n)
validate_usage_entry-usage_total_example = validate_usage_entry-usage_total entry true entry_valid
