-- ===== src/Alerts.antt =====
-- hysteria/alerts.py: at-most-one claim of an alert, delivered outside the lock, then compared and
-- completed. The state file holds, for each kind, what each user was last alerted for. Clock readings
-- are natural numbers (of an arbitrary unit); `secrets.token_urlsafe` is the argument `token`. The
-- delivery itself is in Dispatch.
pub mod Claims
pub mod Once
pub mod Exclusion
pub mod History
use hy.Prelude.{
  ℕ, ◌+◌, String, Bool, true, false, not, ◌&&◌, ◌||◌, Option, none, some, List, [], ◌∷◌, ltb, leb,
  ◌==◌, str_eq, if◌then◌else◌,
}
use hy.Dict.{Dict, get, put, remove, all_items, dict_eq}
use hy.Text.{contains}
use hy.Store.{Result, ok, err, value_error, invalid_state, File, Host, transact, ◌>>=◌}

abbrev pub claim_ttl_seconds : ℕ
claim_ttl_seconds = 60

abbrev pub state_keys : List String
state_keys = "quota_80" ∷ "quota_100" ∷ "anomaly" ∷ "expiry_soon" ∷ "expiry_expired" ∷ []

pub record Claim : Type 0 where
  pub key : String
  pub token : String
  pub claimed_at : ℕ

-- A delivered key, or a claim on one.
pub data Entry : Type 0 where
  delivered : String → Entry
  claimed : Claim → Entry

abbrev pub Bucket : Type 0
Bucket = Dict Entry

abbrev pub State : Type 0
State = Dict Bucket

-- `_validate_entry`
unfoldable pub entry_valid : Entry → Bool
entry_valid (delivered key) = not (str_eq key "")
entry_valid (claimed c) = not (str_eq c.key "") && not (str_eq c.token "")

unfoldable pub bucket_valid : Bucket → Bool
unfolding all_items entry_valid
bucket_valid = all_items (λ user e. not (str_eq user "") && entry_valid e)

-- `_validate_state`
unfoldable pub state_valid : State → Bool
unfolding all_items bucket_valid
state_valid = all_items (λ kind bucket. not (str_eq kind "") && bucket_valid bucket)

unfoldable pub setdefault : String → State → State
unfolding get put
setdefault kind state = elim (get kind state) [ none ↦ put kind [] state | some bucket ↦ state ]

-- The buckets that `load_state` makes sure of.
unfoldable pub with_defaults : List String → State → State
unfolding setdefault
with_defaults [] state = state
with_defaults (kind ∷ kinds) state = with_defaults kinds (setdefault kind state)

-- state[kind], after `load_state`
unfoldable pub bucket_of : String → State → Bucket
unfolding get
bucket_of kind state = elim (get kind state) [ none ↦ [] | some bucket ↦ bucket ]

unfoldable pub entry_eq : Entry → Entry → Bool
entry_eq (delivered k) (delivered j) = str_eq k j
entry_eq (delivered k) (claimed d) = false
entry_eq (claimed c) (delivered j) = false
entry_eq (claimed c) (claimed d) =
    str_eq c.key d.key && str_eq c.token d.token && c.claimed_at == d.claimed_at

unfoldable pub state_eq : State → State → Bool
unfolding dict_eq entry_eq
state_eq = dict_eq (dict_eq entry_eq)

-- The transaction of `mutate_state`, after the file is loaded and validated.
unfoldable pub mutate_body {ℓ} :
    {A : Type ℓ} → (State → A × State) → State → Result (A × Option State)
unfolding state_valid state_eq with_defaults
mutate_body mutator loaded =
    let before = with_defaults state_keys loaded in
    let (result, state) = mutator before in
    if not (state_valid state)
    then err invalid_state
    else ok (result, if state_eq state before then none else some state)

unfoldable pub mutate_state {ℓ} :
    {A : Type ℓ} → (State → A × State) → Host → File State → Result A × File State
unfolding mutate_body transact state_valid
mutate_state mutator host file = transact state_valid [] (mutate_body mutator) host file

-- An entry that suppresses an alert for `key`: the key delivered, or a claim on it not `ttl` old.
unfoldable pub suppresses : String → ℕ → ℕ → Option Entry → Bool
suppresses key now ttl none = false
suppresses key now ttl (some (delivered k)) = str_eq k key
suppresses key now ttl (some (claimed c)) =
    str_eq c.key key && leb c.claimed_at now && ltb now (c.claimed_at + ttl)

unfoldable pub claim : String → String → String → ℕ → ℕ → String → State → Option String × State
unfolding suppresses bucket_of get put
claim kind user key now ttl token state =
    let bucket = bucket_of kind state in
    if suppresses key now ttl (get user bucket) then (none, state) else (
      some token,
      put kind (put user (claimed (record { key = key; token = token; claimed_at = now })) bucket)
          state,
    )

unfoldable pub claim_alert :
    Host
    → String
    → String
    → String
    → ℕ
    → ℕ
    → String
    → File State
    → Result (Option String) × File State
unfolding claim mutate_state contains
claim_alert host kind user key now ttl token file =
    if not (contains kind state_keys) || str_eq user "" || str_eq key ""
    then (err value_error, file)
    else mutate_state (claim kind user key now ttl token) host file

-- The claim that `finish_alert_claim` may complete.
unfoldable pub holds_claim : String → String → Option Entry → Bool
holds_claim key token none = false
holds_claim key token (some (delivered k)) = false
holds_claim key token (some (claimed c)) = str_eq c.key key && str_eq c.token token

unfoldable pub settle : String → String → String → String → Bool → State → Bool × State
unfolding holds_claim bucket_of get put remove
settle kind user key token sent state =
    let bucket = bucket_of kind state in
    if holds_claim key token (get user bucket)
    then (
      true,
      put kind (if sent then put user (delivered key) bucket else remove user bucket) state,
    )
    else (false, state)

unfoldable pub finish_alert_claim :
    Host → String → String → String → String → Bool → File State → Result Bool × File State
unfolding settle mutate_state contains
finish_alert_claim host kind user key token sent file =
    if not (contains kind state_keys)
    then (err value_error, file)
    else mutate_state (settle kind user key token sent) host file

abbrev remove_all : List String → Bucket → Bucket
remove_all [] bucket = bucket
remove_all (user ∷ users) bucket = remove_all users (remove user bucket)

-- A missing bucket stays missing.
unfoldable pub clear_kind : String → List String → State → State
unfolding get put remove
clear_kind kind users state = elim (get kind state) [
  | none ↦ state
  | some bucket ↦ put kind (remove_all users bucket) state
]

unfoldable pub clear_quota_dedup_for : List String → State → State
unfolding clear_kind
clear_quota_dedup_for users state = clear_kind "quota_100" users (clear_kind "quota_80" users state)

unfoldable pub clear_quota_dedup_transaction :
    List String → Host → File State → Result (Unit {0}) × File State
unfolding mutate_state clear_quota_dedup_for
clear_quota_dedup_transaction users =
    mutate_state (λ state. (tt, clear_quota_dedup_for users state))

abbrev clear_all_kinds : List String → State → State
clear_all_kinds users [] = []
clear_all_kinds users ((kind, bucket) ∷ state) =
    (kind, remove_all users bucket) ∷ clear_all_kinds users state

unfoldable pub clear_user_dedup_transaction :
    List String → Host → File State → Result (Unit {0}) × File State
unfolding mutate_state remove
clear_user_dedup_transaction users = mutate_state (λ state. (tt, clear_all_kinds users state))

-- `already_alerted`: the last delivery was for exactly this key.
unfoldable pub already_alerted : State → String → String → String → Bool
unfolding get bucket_of
already_alerted state kind user key = elim (get user (bucket_of kind state)) [
  | none ↦ false
  | some (delivered k) ↦ str_eq k key
  | some (claimed c) ↦ false
]

unfoldable pub mark_alerted : State → String → String → String → State
unfolding put bucket_of
mark_alerted state kind user key = put kind (put user (delivered key) (bucket_of kind state)) state
