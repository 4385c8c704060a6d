-- ===== src/Traffic/Enforcement.antt =====
-- hysteria/traffic_limiter.py, `build_static_access_plan`: who keeps a static credential.
use hy.Prelude.{
  ℕ, String, Bool, true, false, ◌&&◌, ◌≡◌, refl, ◌⊎◌, inl, inr, none, some, List, [], arith, ltb,
  if◌then◌else◌, str_eq, str_eq_iff, str_eq_refl, any, Bool-cases, ap, ◌∙◌, sym,
}
use hy.Dict.{get}
use hy.Text.{contains}
use hy.Python.Json.{Value, object, Fields, end, field, get_field}
use hy.Store.{ok, >>=-ok, ◌>>=◌}
use hy.Users.Rules.{is_inactive, is_metered, total_quota_bytes}
use hy.Traffic.{Ledger}
use hy.Traffic.Plan.{
  Tick, Verdict, Plan, credential_of, vless_uuid_of, cycle_used_raw_for, over_quota, verdict_of,
  verdict_of_fields, planned, build_static_access_plan,
}

-- The user is inactive, or is metered with a quota that the cycle's traffic reaches.
abbrev pub Blocked : Tick → Ledger → String → Fields → Type 0
Blocked t daily uid cfg =
    (is_inactive t.library (object cfg) t.today ≡ true)
    ⊎ ((quota : ℕ) × (total_quota_bytes (object cfg) ≡ ok quota)
        × (is_metered (object cfg) ≡ true)
        × (ltb 0 quota ≡ true)
        × (t.reaches (cycle_used_raw_for uid daily t.days) quota ≡ true))

-- The user is active, and is not metered, has no quota or has not reached it.
abbrev pub Allowed : Tick → Ledger → String → Fields → Type 0
Allowed t daily uid cfg =
    (is_inactive t.library (object cfg) t.today ≡ false)
    × ((quota : ℕ) × (total_quota_bytes (object cfg) ≡ ok quota)
        × ((is_metered (object cfg)
              && ltb 0 quota
              && t.reaches (cycle_used_raw_for uid daily t.days) quota)
            ≡ false))

verdict_cases :
    (t : Tick) (daily : Ledger) (uid : String) (cfg : Fields) (verdict : Verdict)
    → verdict_of_fields t daily uid cfg ≡ ok verdict
    → ((verdict ≡ some none) × Blocked t daily uid cfg)
      ⊎ ((verdict ≡ credential_of (vless_uuid_of t.library cfg)) × Allowed t daily uid cfg)
unfolding verdict_of_fields
verdict_cases t daily uid cfg verdict h =
    elim (Bool-cases (is_inactive t.library (object cfg) t.today)) [
      | inl inactive ↦ inl (ground (arith, h, inactive), inl inactive)
      | inr active ↦
          let (quota, total, rest) =
            >>=-ok (total_quota_bytes (object cfg))
              (λ quota. ok (
                if over_quota t daily uid cfg quota
                then some none
                else credential_of (vless_uuid_of t.library cfg)))
              (opened active) in
          elim (Bool-cases (over_quota t daily uid cfg quota)) [
            | inl over ↦ inl (
              ground (arith, rest, over),
              inr (
                quota,
                total,
                (unfold over_quota in ground (arith, over)),
                (unfold over_quota in ground (arith, over)),
                (unfold over_quota in ground (arith, over)),
              ),
            )
            | inr below ↦ inr (
              ground (arith, rest, below),
              (active, (quota, total, (unfold over_quota in below))),
            )
          ]
    ]
  where
    opened :
        is_inactive t.library (object cfg) t.today ≡ false
        → (total_quota_bytes (object cfg) >>= λ quota. ok (
            if over_quota t daily uid cfg quota
            then some none
            else credential_of (vless_uuid_of t.library cfg)))
          ≡ ok verdict
    opened active = ground (arith, h, active)

-- The keys of an object are distinct.
abbrev pub DistinctFields : Fields → Type 0
DistinctFields end = Unit {0}
DistinctFields (field k v fs) = (get_field k fs ≡ none) × DistinctFields fs

planned_other :
    (uid w : String) (verdict : Verdict) (plan : Plan) (to_kick : List String)
    → str_eq w uid ≡ false
    → (get uid (planned w verdict (plan, to_kick)).0 ≡ get uid plan)
      × (contains uid (planned w verdict (plan, to_kick)).1 ≡ contains uid to_kick)
unfolding planned get contains any
planned_other uid w none plan to_kick other = (refl, refl)
planned_other uid w (some none) plan to_kick other =
    (ground (arith, other), ground (arith, other, str_eq_iff w uid, str_eq_iff uid w))
planned_other uid w (some (some uuid)) plan to_kick other = (ground (arith, other), refl)

abbrev is_kick : Verdict → Bool
is_kick none = false
is_kick (some none) = true
is_kick (some (some uuid)) = false

planned_self :
    (uid : String) (verdict : Verdict) (plan : Plan) (to_kick : List String)
    → get uid plan ≡ none
    → contains uid to_kick ≡ false
    → (get uid (planned uid verdict (plan, to_kick)).0 ≡ verdict)
      × (contains uid (planned uid verdict (plan, to_kick)).1 ≡ is_kick verdict)
unfolding planned get contains any
planned_self uid none plan to_kick g c = (g, c)
planned_self uid (some none) plan to_kick g c =
    (ground (arith, str_eq_refl uid), ground (arith, str_eq_refl uid))
planned_self uid (some (some uuid)) plan to_kick g c = (ground (arith, str_eq_refl uid), c)

-- The loop's first user, and its rest.
plan_step :
    (t : Tick) (daily : Ledger) (w : String) (v : Value) (users : Fields)
    (result : Plan × List String)
    → build_static_access_plan t daily (field w v users) ≡ ok result
    → (verdict : Verdict) × (plan : Plan) × (to_kick : List String) × (verdict_of t daily w v
        ≡ ok verdict)
      × (build_static_access_plan t daily users ≡ ok (plan, to_kick))
      × (planned w verdict (plan, to_kick) ≡ result)
unfolding build_static_access_plan
plan_step t daily w v users result h =
    let (verdict, e1, r1) = >>=-ok (verdict_of t daily w v) _ h in
    let ((plan, to_kick), e2, r2) = >>=-ok (build_static_access_plan t daily users) _ r1 in
    (verdict, plan, to_kick, e1, e2, ground (arith, r2))

-- What the plan and the list of kicks say of a user.
abbrev Says : String → Verdict → Bool → Plan × List String → Type 0
Says uid verdict kicked result = (get uid result.0 ≡ verdict) × (contains uid result.1 ≡ kicked)

-- A user that users.json does not hold is neither in the plan nor kicked.
absent_unplanned :
    (t : Tick) (daily : Ledger) (users : Fields) (uid : String) (result : Plan × List String)
    → build_static_access_plan t daily users ≡ ok result
    → get_field uid users ≡ none
    → Says uid none false result
absent_unplanned t daily end uid result h gone =
    let same : ◌≡◌ {A = Plan × List String} ([], []) result =
      unfold build_static_access_plan in ground (arith, h) in
    rw (← same) (unfold get in refl, unfold contains any in refl)
absent_unplanned t daily (field w v users) uid result h gone =
    let (verdict, plan, to_kick, e1, e2, made) = plan_step t daily w v users result h in
    let other : str_eq w uid ≡ false = unfold get_field in ground (arith, gone) in
    let later : get_field uid users ≡ none = unfold get_field in ground (arith, gone, other) in
    let (unplanned, unkicked) = absent_unplanned t daily users uid (plan, to_kick) e2 later in
    let (same_plan, same_kicks) = planned_other uid w verdict plan to_kick other in
    rw (← made) (same_plan ∙ unplanned, same_kicks ∙ unkicked)

not_kicked : (uuid : List ℕ) → is_kick (credential_of uuid) ≡ false
unfolding credential_of
not_kicked uuid = ground arith

first_says :
    (t : Tick) (daily : Ledger) (uid : String) (cfg : Fields) (verdict : Verdict)
    (result : Plan × List String)
    → get uid result.0 ≡ verdict
    → contains uid result.1 ≡ is_kick verdict
    → ((verdict ≡ some none) × Blocked t daily uid cfg)
      ⊎ ((verdict ≡ credential_of (vless_uuid_of t.library cfg)) × Allowed t daily uid cfg)
    → ((get uid result.0 ≡ some none) × (contains uid result.1 ≡ true) × Blocked t daily uid cfg)
      ⊎ ((get uid result.0 ≡ credential_of (vless_uuid_of t.library cfg))
          × (contains uid result.1 ≡ false)
          × Allowed t daily uid cfg)
first_says t daily uid cfg verdict result g c (inl (e, blocked)) =
    inl (g ∙ e, c ∙ ap is_kick e, blocked)
first_says t daily uid cfg verdict result g c (inr (e, allowed)) =
    inr (g ∙ e, c ∙ ap is_kick e ∙ not_kicked (vless_uuid_of t.library cfg), allowed)

-- Of each user that users.json holds: either the plan takes its credential away and the user is kicked, and it
-- is inactive, or metered with a quota above 0 that the cycle's traffic reaches; or the plan gives its
-- `vless_uuid`, if there is one, and the user is not kicked, and it is active and below its quota, if it
-- is metered and has one.
pub build_static_access_plan_lem :
    (t : Tick) (daily : Ledger) (users : Fields) (uid : String) (cfg : Fields)
    (result : Plan × List String)
    → DistinctFields users
    → build_static_access_plan t daily users ≡ ok result
    → get_field uid users ≡ some (object cfg)
    → ((get uid result.0 ≡ some none) × (contains uid result.1 ≡ true) × Blocked t daily uid cfg)
      ⊎ ((get uid result.0 ≡ credential_of (vless_uuid_of t.library cfg))
          × (contains uid result.1 ≡ false)
          × Allowed t daily uid cfg)
build_static_access_plan_lem t daily end uid cfg result d h here =
    absurd (unfold get_field in ground (arith, here))
build_static_access_plan_lem t daily (field w v users) uid cfg result d h here =
    let (verdict, plan, to_kick, e1, e2, made) = plan_step t daily w v users result h in
    elim (Bool-cases (str_eq w uid)) [
      | inr other ↦
          let later : get_field uid users ≡ some (object cfg) =
            unfold get_field in ground (arith, here, other) in
          let (same_plan, same_kicks) = planned_other uid w verdict plan to_kick other in
          elim (build_static_access_plan_lem t daily users uid cfg (plan, to_kick) d.1 e2 later) [
            | inl (g, c, blocked) ↦
                inl (rw (← made) (same_plan ∙ g), rw (← made) (same_kicks ∙ c), blocked)
            | inr (g, c, allowed) ↦
                inr (rw (← made) (same_plan ∙ g), rw (← made) (same_kicks ∙ c), allowed)
          ]
      | inl mine ↦
          let same : w ≡ uid = (str_eq_iff w uid).0 mine in
          let cfg_here : v ≡ object cfg = unfold get_field in ground (arith, here, mine) in
          let absent : get_field uid users ≡ none = ap (λ x. get_field x users) (sym same) ∙ d.0 in
          let judged : verdict_of t daily uid (object cfg) ≡ ok verdict =
            ap (λ x. verdict_of t daily x (object cfg)) (sym same)
            ∙ ap (verdict_of t daily w) (sym cfg_here)
            ∙ e1 in
          let (unplanned, unkicked) =
            absent_unplanned t daily users uid (plan, to_kick) e2 absent in
          let (in_plan, in_kicks) = planned_self uid verdict plan to_kick unplanned unkicked in
          let made_here : planned uid verdict (plan, to_kick) ≡ result =
            ap (λ x. planned x verdict (plan, to_kick)) (sym same) ∙ made in
          first_says t daily uid cfg verdict result (rw (← made_here) in_plan)
            (rw (← made_here) in_kicks)
            (verdict_cases t daily uid cfg verdict (unfold verdict_of in judged))
    ]
