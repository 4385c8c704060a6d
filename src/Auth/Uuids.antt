-- ===== src/Auth/Uuids.antt =====
-- hysteria/auth_backend.py, `validate_unique_vless_uuids`: no two users share a static credential.
use hy.Prelude.{
  String, true, false, ◌≡◌, ◌⊎◌, inl, inr, Option, none, some, [], str_eq, arith, Bool-cases,
  Option-cases, str_eq_iff, sym, ap, ◌∙◌,
}
use hy.Dict.{Dict, get, get-put}
use hy.Python.Json.{Value, object, Fields, end, field, get_field}
use hy.Store.{ok, >>=-ok, ◌>>=◌}
use hy.Users.{Library, is_valid_username, value_of}
use hy.Auth.Inputs.{
  object_or_unavailable, canonical_uuid, see, unique_uuids, validate_unique_vless_uuids,
}

-- The user has this canonical uuid.
abbrev pub HasUuid : Library → Fields → String → String → Type 0
HasUuid lib users u canonical =
    (cfg : Fields) × (get_field u users ≡ some (object cfg))
    × (canonical_uuid lib (value_of "vless_uuid" cfg) ≡ ok (some canonical))

see_keeps :
    (username canonical previous : String) (uuid : Option String) (seen seen' : Dict String)
    → see username uuid seen ≡ ok seen'
    → get canonical seen ≡ some previous
    → get canonical seen' ≡ some previous
unfolding see
see_keeps username canonical previous none seen seen' h here = ground arith
see_keeps username canonical previous (some fresh) seen seen' h here =
    elim (Option-cases (get fresh seen)) [
      | inr (w, there) ↦ absurd (ground (arith, there))
      | inl gone ↦
          ground (arith, gone, get-put fresh canonical username seen, str_eq_iff fresh canonical)
    ]

seen_now :
    (x canonical : String) (uuid : Option String) (seen seen' : Dict String)
    → uuid ≡ some canonical
    → see x uuid seen ≡ ok seen'
    → get canonical seen' ≡ some x
unfolding see
seen_now x canonical none seen seen' same h = absurd (ground arith)
seen_now x canonical (some fresh) seen seen' same h = elim (Option-cases (get fresh seen)) [
  | inr (w, there) ↦ absurd (ground (arith, there))
  | inl gone ↦
      ground (arith, gone, same, get-put fresh canonical x seen, str_eq_iff fresh canonical)
]

-- What the loop did for its first user.
unique_step :
    (lib : Library) (seen : Dict String) (w : String) (v : Value) (users : Fields)
    → unique_uuids lib seen (field w v users) ≡ ok true
    → (cfg : Fields) × (uuid : Option String) × (seen' : Dict String) × (object_or_unavailable v
        ≡ ok cfg)
      × (canonical_uuid lib (value_of "vless_uuid" cfg) ≡ ok uuid)
      × (see w uuid seen ≡ ok seen')
      × (unique_uuids lib seen' users ≡ ok true)
unfolding unique_uuids
unique_step lib seen w v users h = elim (Bool-cases (is_valid_username w)) [
  | inr invalid ↦ absurd (ground (arith, h, invalid))
  | inl valid ↦
      let (cfg, is_object, r1) =
        >>=-ok (object_or_unavailable v)
          (λ fields. canonical_uuid lib (value_of "vless_uuid" fields) >>= λ uuid.
            see w uuid seen >>= λ seen'. unique_uuids lib seen' users)
          (ground (arith, h, valid)) in
      let (uuid, canonical, r2) = >>=-ok (canonical_uuid lib (value_of "vless_uuid" cfg)) _ r1 in
      let (seen', added, r3) = >>=-ok (see w uuid seen) _ r2 in
      (cfg, uuid, seen', is_object, canonical, added, r3)
]

-- The user at the front has the uuid, or a later one.
at_front_or_later :
    (lib : Library) (u w canonical : String) (v : Value) (users cfg : Fields) (uuid : Option String)
    → object_or_unavailable v ≡ ok cfg
    → canonical_uuid lib (value_of "vless_uuid" cfg) ≡ ok uuid
    → HasUuid lib (field w v users) u canonical
    → ((w ≡ u) × (uuid ≡ some canonical)) ⊎ ((str_eq w u ≡ false) × HasUuid lib users u canonical)
unfolding get_field
at_front_or_later lib u w canonical v users cfg uuid is_object has (mine, here, mine_has) =
    elim (Bool-cases (str_eq w u)) [
      | inr other ↦ inr (other, (mine, ground (arith, here, other), mine_has))
      | inl front ↦
          let same_v : v ≡ object mine = ground (arith, here, front) in
          let same_cfg : cfg ≡ mine = ground (arith, ap object_or_unavailable same_v, is_object) in
          let found : canonical_uuid lib (value_of "vless_uuid" mine) ≡ ok uuid =
            ap (λ c. canonical_uuid lib (value_of "vless_uuid" c)) (sym same_cfg) ∙ has in
          inl ((str_eq_iff w u).0 front, ground (arith, found, mine_has))
    ]

-- A uuid that was seen before the loop is no user's.
unseen :
    (lib : Library) (seen : Dict String) (users : Fields) (u canonical previous : String)
    → unique_uuids lib seen users ≡ ok true
    → get canonical seen ≡ some previous
    → ¬ HasUuid lib users u canonical
unseen lib seen end u canonical previous h here (cfg, e, has) =
    absurd (unfold get_field in ground (arith, e))
unseen lib seen (field w v users) u canonical previous h here k =
    let (cfg, uuid, seen', is_object, has, added, rest) = unique_step lib seen w v users h in
    elim (at_front_or_later lib u w canonical v users cfg uuid is_object has k) [
      | inl (front, same) ↦ absurd (unfold see in ground (arith, added, same, here))
      | inr (other, later) ↦
          unseen lib seen' users u canonical previous rest
            (see_keeps w canonical previous uuid seen seen' added here) later
    ]

unique_from :
    (lib : Library) (seen : Dict String) (users : Fields) (u w canonical : String)
    → unique_uuids lib seen users ≡ ok true
    → HasUuid lib users u canonical
    → HasUuid lib users w canonical
    → u ≡ w
unique_from lib seen end u w canonical h (cfg, e, has) k =
    absurd (unfold get_field in ground (arith, e))
unique_from lib seen (field x v users) u w canonical h i k =
    let (cfg, uuid, seen', is_object, has, added, rest) = unique_step lib seen x v users h in
    elim (at_front_or_later lib u x canonical v users cfg uuid is_object has i) [
      | inl (front, same) ↦
          elim (at_front_or_later lib w x canonical v users cfg uuid is_object has k) [
            | inl (front', same') ↦ sym front ∙ front'
            | inr (other, later) ↦ absurd (
                unseen lib seen' users w canonical x rest
                  (seen_now x canonical uuid seen seen' same added) later)
          ]
      | inr (other, later) ↦
          elim (at_front_or_later lib w x canonical v users cfg uuid is_object has k) [
            | inl (front, same) ↦ absurd (
                unseen lib seen' users u canonical x rest
                  (seen_now x canonical uuid seen seen' same added) later)
            | inr (other', later') ↦ unique_from lib seen' users u w canonical rest later later'
          ]
    ]

-- Once `validate_unique_vless_uuids` passes users.json, two users whose `vless_uuid` has one canonical
-- form are the same user.
pub validate_unique_vless_uuids_unique :
    (lib : Library) (users : Fields) (u w canonical : String)
    → validate_unique_vless_uuids lib users ≡ ok true
    → HasUuid lib users u canonical
    → HasUuid lib users w canonical
    → u ≡ w
unfolding validate_unique_vless_uuids
validate_unique_vless_uuids_unique lib users u w canonical h =
    unique_from lib [] users u w canonical h
