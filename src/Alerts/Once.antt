-- ===== src/Alerts/Once.antt =====
-- One alert for one key: claims exclude one another, and a delivered key stays delivered.
use hy.Prelude.{
  ℕ, ◌+◌, ◌≤◌, ◌<◌, String, true, not, ◌&&◌, ◌||◌, ◌≡◌, refl, inl, inr, Option, none, some, [],
  arith, str_eq, str_eq_iff, if◌then◌else◌, Bool-cases,
}
use hy.Dict.{put, get-put}
use hy.Text.{contains}
use hy.Store.{ok, File, Host, load_strict}
use hy.Alerts.{
  Entry, delivered, claimed, State, state_keys, state_valid, with_defaults, bucket_of, entry_eq,
  suppresses, claim, claim_alert,
}
use hy.Alerts.Claims.{entry_at, entry_at-defaults, entry_at-put, mutate_state_keeps}

-- The entry suppresses `key` from `last` on and before `until`.
abbrev pub Blocks : String → ℕ → ℕ → ℕ → Option Entry → Type 0
Blocks key ttl last until none = ⊥
Blocks key ttl last until (some (delivered k)) = str_eq k key ≡ true
Blocks key ttl last until (some (claimed c)) =
    (str_eq c.key key ≡ true) × (c.claimed_at ≤ last) × (until ≤ c.claimed_at + ttl)

pub Blocks-suppresses :
    (key : String) (ttl last until now : ℕ) (o : Option Entry)
    → Blocks key ttl last until o
    → last ≤ now
    → now < until
    → suppresses key now ttl o ≡ true
unfolding suppresses
Blocks-suppresses key ttl last until now none b h l = absurd b
Blocks-suppresses key ttl last until now (some (delivered k)) b h l = b
Blocks-suppresses key ttl last until now (some (claimed c)) b h l = ground arith

pub Blocks-eq :
    (key : String) (ttl last until : ℕ) (e f : Entry)
    → entry_eq e f ≡ true
    → Blocks key ttl last until (some e)
    → Blocks key ttl last until (some f)
unfolding entry_eq
Blocks-eq key ttl last until (delivered k) (delivered j) h b = ground (arith, str_eq_iff k j)
Blocks-eq key ttl last until (delivered k) (claimed d) h b = absurd (ground arith)
Blocks-eq key ttl last until (claimed c) (delivered j) h b = absurd (ground arith)
Blocks-eq key ttl last until (claimed c) (claimed d) h b = ground (arith, str_eq_iff c.key d.key)

module _ (kind user key : String) (ttl last until : ℕ) where
  abbrev pub StateBlocks : State → Type 0
  StateBlocks s = Blocks key ttl last until (entry_at kind user s)

  StateBlocks-defaults : (s : State) → StateBlocks s → StateBlocks (with_defaults state_keys s)
  StateBlocks-defaults s b = rw entry_at-defaults b

  -- The state file says so, if it loads.
  abbrev pub FileBlocks : File State → Type 0
  FileBlocks file = (s : State) → load_strict state_valid [] file ≡ ok s → StateBlocks s

abbrev pub written : String → String → String → ℕ → String → State → State
written k u j now token s =
    put k (put u (claimed (record { key = j; token = token; claimed_at = now })) (bucket_of k s)) s

pub claim-entry_at :
    (k u j : String) (now ttl : ℕ) (token : String) (s : State)
    → claim k u j now ttl token s ≡ (
        if suppresses j now ttl (entry_at k u s)
        then (none, s)
        else (some token, written k u j now token s))
unfolding claim entry_at
claim-entry_at k u j now ttl token s = refl

-- What a claim that goes through writes.
pub written_entry :
    (kind user k u j : String) (now : ℕ) (token : String) (s : State)
    → entry_at kind user (written k u j now token s) ≡ (
        if str_eq k kind && str_eq u user
        then some (claimed (record { key = j; token = token; claimed_at = now }))
        else entry_at kind user s)
written_entry kind user k u j now token s = elim (Bool-cases (str_eq k kind)) [
  | inr e ↦ rw (e, entry_at-put kind user k u _ s, e)
  | inl e ↦
      rw (e, entry_at-put kind user k u _ s, e, get-put u user _ (bucket_of k s))
        (unfold entry_at in ground (arith, str_eq_iff k kind))
]

-- A claim on another entry, or on the same key while it is suppressed, changes nothing of the entry.
module _ (kind user key : String) (ttl last until : ℕ) (k u j : String) (now : ℕ) (token : String)
    (same_key : str_eq k kind ≡ true → str_eq u user ≡ true → str_eq j key ≡ true)
    (later : last ≤ now) (early : now < until) where
  pub claim_silent :
      (s : State)
      → str_eq k kind ≡ true
      → str_eq u user ≡ true
      → StateBlocks kind user key ttl last until s
      → claim k u j now ttl token s ≡ (none, s)
  claim_silent s ek eu b =
      let suppressed : suppresses key now ttl (entry_at kind user s) ≡ true =
        Blocks-suppresses key ttl last until now (entry_at kind user s) b later early in
      ground (
        arith,
        claim-entry_at k u j now ttl token s,
        suppressed,
        (str_eq_iff k kind).0 ek,
        (str_eq_iff u user).0 eu,
        (str_eq_iff j key).0 (same_key ek eu),
      )

  claim_keeps :
      (s : State)
      → StateBlocks kind user key ttl last until s
      → StateBlocks kind user key ttl last until (claim k u j now ttl token s).1
  claim_keeps s b = elim (Bool-cases (str_eq k kind && str_eq u user)) [
    | inl e ↦ rw (claim_silent s (ground arith) (ground arith) b) b
    | inr e ↦
        rw (claim-entry_at k u j now ttl token s)
          (elim (Bool-cases (suppresses j now ttl (entry_at k u s))) [
            | inl f ↦ rw f b
            | inr f ↦ rw (f, written_entry kind user k u j now token s, e) b
          ])
  ]

  pub claim_alert_keeps :
      (host : Host) (file : File State)
      → FileBlocks kind user key ttl last until file
      → FileBlocks kind user key ttl last until (claim_alert host k u j now ttl token file).1
  unfolding claim_alert
  claim_alert_keeps host file b =
      elim (Bool-cases (not (contains k state_keys) || str_eq u "" || str_eq j "")) [
        | inl e ↦ rw e b
        | inr e ↦ rw e (
            mutate_state_keeps (StateBlocks kind user key ttl last until)
              (StateBlocks-defaults kind user key ttl last until) (claim k u j now ttl token)
              claim_keeps host file b)
      ]
