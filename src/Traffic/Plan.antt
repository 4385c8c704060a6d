-- ===== src/Traffic/Plan.antt =====
-- hysteria/traffic_limiter.py: which static proxy credentials stay, by the records of the users and the
-- committed daily ledger; and the end of temporary disables.
use hy.Prelude.{
  ℕ, ◌+◌, String, Bool, true, false, ◌&&◌, ◌||◌, Option, none, some, List, [], ◌∷◌, ltb, ◌==◌,
  if◌then◌else◌, str_eq, length,
}
use hy.Dict.{Dict, get}
use hy.Python.Numbers.{strip}
use hy.Python.Json.{
  Value, null, boolean, int, float, text, array, object, Fields, end, field, truthy,
}
use hy.Store.{Result, ok, err, attribute_error, ◌>>=◌}
use hy.Users.{Library, Moment, to_text, value_of}
use hy.Users.Rules.{is_inactive, is_metered, total_quota_bytes, temporary_disable_expired}
use hy.Traffic.{Entry, bytes, fields, Bucket, Ledger, or_default}

-- int(entry.get("total", 0)), or int(entry or 0)
unfoldable pub raw_total : Option Entry → ℕ
unfolding or_default
raw_total none = 0
raw_total (some (bytes n)) = n
raw_total (some (fields tx rx total)) = or_default 0 total

unfoldable pub used_in : String → Option Bucket → ℕ
unfolding get raw_total
used_in uid none = 0
used_in uid (some bucket) = raw_total (get uid bucket)

-- Over the keys of the cycle's days.
unfoldable pub cycle_used_raw_for : String → Ledger → List String → ℕ
unfolding get used_in
cycle_used_raw_for uid daily [] = 0
cycle_used_raw_for uid daily (day ∷ days) =
    used_in uid (get day daily) + cycle_used_raw_for uid daily days

-- The library, the date, the keys of the cycle's days, and `used * _DM >= quota`, which is arithmetic on
-- floats.
pub record Tick : Type 0 where
  pub library : Library
  pub today : ℕ
  pub days : List String
  pub reaches : ℕ → ℕ → Bool

-- str(cfg.get("vless_uuid") or "").strip()
unfoldable pub vless_uuid_of : Library → Fields → List ℕ
unfolding value_of truthy strip
vless_uuid_of lib cfg =
    if truthy (value_of "vless_uuid" cfg)
    then strip (to_text lib (value_of "vless_uuid" cfg))
    else []

-- What the plan says of a user: nothing, None, or a credential.
abbrev pub Verdict : Type 0
Verdict = Option (Option (List ℕ))

unfoldable pub credential_of : List ℕ → Verdict
credential_of uuid = if length uuid == 0 then none else some (some uuid)

unfoldable pub over_quota : Tick → Ledger → String → Fields → ℕ → Bool
unfolding is_metered cycle_used_raw_for
over_quota t daily uid cfg quota =
    is_metered (object cfg) && ltb 0 quota && t.reaches (cycle_used_raw_for uid daily t.days) quota

unfoldable pub verdict_of_fields : Tick → Ledger → String → Fields → Result Verdict
verdict_of_fields t daily uid cfg =
    if is_inactive t.library (object cfg) t.today
    then ok (some none)
    else total_quota_bytes (object cfg) >>= λ quota. ok (
        if over_quota t daily uid cfg quota
        then some none
        else credential_of (vless_uuid_of t.library cfg))

-- A record that is no object is not inactive, and has no `get`.
unfoldable pub verdict_of : Tick → Ledger → String → Value → Result Verdict
verdict_of t daily uid (object cfg) = verdict_of_fields t daily uid cfg
verdict_of t daily uid null = err attribute_error
verdict_of t daily uid (boolean b) = err attribute_error
verdict_of t daily uid (int z) = err attribute_error
verdict_of t daily uid (float f) = err attribute_error
verdict_of t daily uid (text s) = err attribute_error
verdict_of t daily uid (array vs) = err attribute_error

abbrev pub Plan : Type 0
Plan = Dict (Option (List ℕ))

-- The plan and the users to kick, with one more user in front.
unfoldable pub planned : String → Verdict → Plan × List String → Plan × List String
planned uid none (plan, to_kick) = (plan, to_kick)
planned uid (some none) (plan, to_kick) = ((uid, none) ∷ plan, uid ∷ to_kick)
planned uid (some (some uuid)) (plan, to_kick) = ((uid, some uuid) ∷ plan, to_kick)

-- The loop over the users of users.json, whose keys are distinct.
unfoldable pub build_static_access_plan : Tick → Ledger → Fields → Result (Plan × List String)
build_static_access_plan t daily end = ok ([], [])
build_static_access_plan t daily (field uid cfg users) = verdict_of t daily uid cfg >>= λ verdict.
    build_static_access_plan t daily users >>= λ rest. ok (planned uid verdict rest)

-- cfg.pop(name, None)
unfoldable pub pop_field : String → Fields → Fields
pop_field name end = end
pop_field name (field k v fs) =
    let rest = pop_field name fs in if str_eq k name then rest else field k v rest

-- cfg[name] = value
unfoldable pub set_field : String → Value → Fields → Fields
set_field name value end = field name value end
set_field name value (field k v fs) =
    let rest = set_field name value fs in if str_eq k name then field k value fs else field k v rest

unfoldable pub resumed : Library → Moment → Fields → Bool
unfolding truthy value_of temporary_disable_expired
resumed lib now cfg =
    truthy (value_of "disabled" cfg) && temporary_disable_expired lib (object cfg) now

unfoldable pub resume_user : Library → Moment → Value → Value × Bool
unfolding resumed set_field pop_field
resume_user lib now (object cfg) =
    if resumed lib now cfg
    then (object (pop_field "disabled_until" (set_field "disabled" (boolean false) cfg)), true)
    else (object cfg, false)
resume_user lib now null = (null, false)
resume_user lib now (boolean b) = (boolean b, false)
resume_user lib now (int z) = (int z, false)
resume_user lib now (float f) = (float f, false)
resume_user lib now (text s) = (text s, false)
resume_user lib now (array vs) = (array vs, false)

-- The users after the loop, and whether they are saved.
unfoldable pub resume_expired_temporary_disables : Library → Moment → Fields → Fields × Bool
unfolding resume_user
resume_expired_temporary_disables lib now end = (end, false)
resume_expired_temporary_disables lib now (field uid cfg users) =
    let rest = resume_expired_temporary_disables lib now users in
    (field uid (resume_user lib now cfg).0 rest.0, (resume_user lib now cfg).1 || rest.1)
