-- ===== src/Auth/Meaning.antt =====
-- hysteria/auth_backend.py: what a reading of users.json and an accepted secret mean, field by field.
use hy.Prelude.{
  ℕ, String, Bool, true, false, ◌≤◌, ◌≡◌, refl, ◌⊎◌, inl, inr, Option, none, some, arith,
  Bool-cases, Option-cases,
}
use hy.Python.Json.{
  Value, null, boolean, int, float, text, array, object, Fields, get_field, truthy, is_blank,
}
use hy.Store.{ok, File, absent, corrupt, raises, holds, >>=-ok}
use hy.Users.{
  Library, ConfigError, authorization_config_error, config_error, each_field, check_boolean,
  boolean_fields, value_of, parse_expiry_date,
}
use hy.Users.Rules.{is_inactive, is_expired, expiry_date}
use hy.Users.Strictness.{or_else_passes, expiry_date_strict}
use hy.Online.{Canonical}
use hy.Auth.Inputs.{load_json, validate_unique_vless_uuids}
use hy.Auth.User.{
  check_counts, user_record, no_reason, validated_authorization_user, authorization_generation,
  read_user,
}

-- The user is not disabled: the field is absent or false.
abbrev pub NotDisabled : Fields → Type 0
NotDisabled user =
    (get_field "disabled" user ≡ none) ⊎ (get_field "disabled" user ≡ some (boolean false))

-- The user has not expired: there is no expiry, or it is a date that is not over.
abbrev pub NotExpired : Library → Fields → ℕ → Type 0
NotExpired lib user today =
    (is_blank (value_of "expires_at" user) ≡ true)
    ⊎ ((day : ℕ) × (parse_expiry_date lib (value_of "expires_at" user) ≡ some day) × (today ≤ day))

-- users.json holds the record for the user, who is active.
abbrev pub HoldsActive : Library → File Value → String → ℕ → Fields → Type 0
HoldsActive lib file username today user =
    (rows : Fields) × (file ≡ holds (object rows))
    × (get_field username rows ≡ some (object user))
    × NotDisabled user
    × NotExpired lib user today

loaded :
    (file : File Value) (rows : Fields) → load_json true file ≡ ok rows → file ≡ holds (object rows)
unfolding load_json
loaded absent rows h = absurd (ground (arith, h))
loaded corrupt rows h = absurd (ground (arith, h))
loaded (raises f) rows h = absurd (ground (arith, h))
loaded (holds (object fs)) rows h = ground (arith, h)
loaded (holds null) rows h = absurd (ground (arith, h))
loaded (holds (boolean b)) rows h = absurd (ground (arith, h))
loaded (holds (int z)) rows h = absurd (ground (arith, h))
loaded (holds (float x)) rows h = absurd (ground (arith, h))
loaded (holds (text s)) rows h = absurd (ground (arith, h))
loaded (holds (array vs)) rows h = absurd (ground (arith, h))

record_found : (o : Option Value) (user : Fields) → user_record o ≡ ok user → o ≡ some (object user)
unfolding user_record
record_found none user h = absurd (ground (arith, h))
record_found (some (object fs)) user h = ground (arith, h)
record_found (some null) user h = absurd (ground (arith, h))
record_found (some (boolean b)) user h = absurd (ground (arith, h))
record_found (some (int z)) user h = absurd (ground (arith, h))
record_found (some (float x)) user h = absurd (ground (arith, h))
record_found (some (text s)) user h = absurd (ground (arith, h))
record_found (some (array vs)) user h = absurd (ground (arith, h))

no_reason_passes : (o : Option ConfigError) (b : Bool) → no_reason o ≡ ok b → o ≡ none
no_reason_passes none b h = refl
no_reason_passes (some e) b h = absurd (ground (arith, h))

-- A field that is checked to be a Boolean, and is not true, is absent or false.
boolean_false :
    (o : Option Value) (user : Fields)
    → get_field "disabled" user ≡ o
    → check_boolean user "disabled" ≡ ok none
    → truthy (value_of "disabled" user) ≡ false
    → NotDisabled user
unfolding check_boolean value_of truthy
boolean_false none user e c t = inl e
boolean_false (some (boolean true)) user e c t = absurd (ground (arith, e, t))
boolean_false (some (boolean false)) user e c t = inr e
boolean_false (some null) user e c t = absurd (ground (arith, e, c))
boolean_false (some (int z)) user e c t = absurd (ground (arith, e, c))
boolean_false (some (float x)) user e c t = absurd (ground (arith, e, c))
boolean_false (some (text s)) user e c t = absurd (ground (arith, e, c))
boolean_false (some (array vs)) user e c t = absurd (ground (arith, e, c))
boolean_false (some (object fs)) user e c t = absurd (ground (arith, e, c))

not_expired :
    (lib : Library) (user : Fields) (today : ℕ)
    → authorization_config_error lib (object user) ≡ ok none
    → is_expired lib (object user) today ≡ false
    → NotExpired lib user today
not_expired lib user today passes live = elim (Bool-cases (is_blank (value_of "expires_at" user))) [
  | inl blank ↦ inl blank
  | inr given ↦
      let (day, parsed) = expiry_date_strict lib user passes given in
      inr (
        day,
        unfold expiry_date in ground (arith, parsed),
        unfold is_expired in ground (arith, live, parsed),
      )
]

disabled_checked :
    (lib : Library) (user : Fields)
    → authorization_config_error lib (object user) ≡ ok none
    → check_boolean user "disabled" ≡ ok none
unfolding authorization_config_error config_error
disabled_checked lib user h =
    let booleans = (or_else_passes (each_field (check_boolean user) boolean_fields) _ h).0 in
    (or_else_passes (check_boolean user "disabled") _ booleans).0

active :
    (lib : Library) (user : Fields) (today : ℕ)
    → is_inactive lib (object user) today ≡ false
    → (truthy (value_of "disabled" user) ≡ false) × (is_expired lib (object user) today ≡ false)
unfolding is_inactive
active lib user today h = (ground (arith, h), ground (arith, h))

-- A reading that succeeds found the record of an active user.
pub read_user-HoldsActive :
    (lib : Library) (canonical : Canonical) (file : File Value) (username : String) (today : ℕ)
    (user : Fields) (generation : String)
    → read_user lib canonical file username today ≡ ok (user, generation)
    → HoldsActive lib file username today user
      × (authorization_config_error lib (object user) ≡ ok none)
unfolding read_user validated_authorization_user
read_user-HoldsActive lib canonical file username today user generation h =
    let (rows, read, h1) = >>=-ok (load_json true file) _ h in
    let (found, valid, h2) = >>=-ok (validated_authorization_user lib rows username today) _ h1 in
    let (digest, digested, h3) = >>=-ok (authorization_generation canonical found) _ h2 in
    let same : found ≡ user = ground (arith, h3) in
    let (unique, u, v1) = >>=-ok (validate_unique_vless_uuids lib rows) _ valid in
    let (r, here, v2) = >>=-ok (user_record (get_field username rows)) _ v1 in
    let (reason, checked, v3) = >>=-ok (authorization_config_error lib (object r)) _ v2 in
    let (sound, passed, v4) = >>=-ok (no_reason reason) _ v3 in
    let (counted, counts, v5) = >>=-ok (check_counts r) _ v4 in
    let none_given : reason ≡ none = no_reason_passes reason sound passed in
    let passes : authorization_config_error lib (object r) ≡ ok none =
      ground (arith, checked, none_given) in
    elim (Bool-cases (is_inactive lib (object r) today)) [
      | inl inactive ↦ absurd (ground (arith, v5, inactive))
      | inr live ↦
          let is_user : r ≡ user = ground (arith, v5, live, same) in
          let (enabled, unexpired) = active lib r today live in
          rw (← is_user) (
            (
              rows,
              loaded file rows read,
              record_found (get_field username rows) r here,
              boolean_false (get_field "disabled" r) r refl (disabled_checked lib r passes) enabled,
              not_expired lib r today passes unexpired,
            ),
            passes,
          )
    ]

-- The generation is the digest of the canonical form of the record.
abbrev pub Digests : Canonical → Fields → String → Type 0
Digests lib user generation =
    (form : String) × (lib.dumps (object user) ≡ some form) × (lib.sha256 form ≡ generation)

generation-Digests :
    (lib : Canonical) (user : Fields) (generation : String)
    → authorization_generation lib user ≡ ok generation
    → Digests lib user generation
unfolding authorization_generation
generation-Digests lib user generation h = elim (Option-cases (lib.dumps (object user))) [
  | inl no_form ↦ absurd (ground (arith, h, no_form))
  | inr (form, dumped) ↦ (form, dumped, ground (arith, h, dumped))
]

pub read_user-Digests :
    (lib : Library) (canonical : Canonical) (file : File Value) (username : String) (today : ℕ)
    (user : Fields) (generation : String)
    → read_user lib canonical file username today ≡ ok (user, generation)
    → Digests canonical user generation
unfolding read_user
read_user-Digests lib canonical file username today user generation h =
    let (rows, read, h1) = >>=-ok (load_json true file) _ h in
    let (found, valid, h2) = >>=-ok (validated_authorization_user lib rows username today) _ h1 in
    let (digest, digested, h3) = >>=-ok (authorization_generation canonical found) _ h2 in
    let same : found ≡ user = ground (arith, h3) in
    let same_digest : digest ≡ generation = ground (arith, h3) in
    rw (← same, ← same_digest) (generation-Digests canonical found digest digested)
