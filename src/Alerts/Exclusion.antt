-- ===== src/Alerts/Exclusion.antt =====
-- A claim that is granted excludes every other one for its key until its time to live is over.
use hy.Prelude.{
  ℕ, ◌+◌, String, true, not, ◌&&◌, ◌||◌, ◌≡◌, sym, inl, inr, none, some, [], arith, str_eq,
  str_eq_iff, str_eq_refl, if◌then◌else◌, Bool-cases,
}
use hy.Dict.{get, put, get-put}
use hy.Text.{contains}
use hy.Store.{ok, File, holds, Host, load_strict, transact_ok}
use hy.Alerts.{
  delivered, claimed, State, state_keys, state_valid, with_defaults, bucket_of, state_eq,
  mutate_body, mutate_state, suppresses, claim, claim_alert, holds_claim, settle,
}
use hy.Alerts.Claims.{entry_at, entry_at-defaults, entry_at-put, entry_at-state_eq}
use hy.Alerts.Once.{Blocks-eq, StateBlocks, FileBlocks, claim-entry_at, written, written_entry}

module _ (kind user key : String) (ttl now : ℕ) (token : String) where
  -- The claim just written.
  fresh_Blocks :
      (s : State)
      → StateBlocks kind user key ttl now (now + ttl) (written kind user key now token s)
  fresh_Blocks s =
      rw (written_entry kind user kind user key now token s, str_eq_refl kind, str_eq_refl user)
        (str_eq_refl key, ground arith, ground arith)

  granted :
      (s : State) (t : String)
      → (claim kind user key now ttl token s).0 ≡ some t
      → (claim kind user key now ttl token s).1 ≡ written kind user key now token s
  granted s t h = elim (Bool-cases (suppresses key now ttl (entry_at kind user s))) [
    | inl e ↦ absurd (ground (arith, claim-entry_at kind user key now ttl token s, e))
    | inr e ↦ ground (arith, claim-entry_at kind user key now ttl token s, e)
  ]

  saved_Blocks :
      (d new : State) (t : String)
      → mutate_body (claim kind user key now ttl token) d ≡ ok (some t, some new)
      → StateBlocks kind user key ttl now (now + ttl) new
  unfolding mutate_body
  saved_Blocks d new t h =
      let g = granted (with_defaults state_keys d) t (ground arith) in
      let e : new ≡ written kind user key now token (with_defaults state_keys d) =
        ground (arith, g) in
      rw e (fresh_Blocks (with_defaults state_keys d))

  fresh_entry :
      (s : State)
      → entry_at kind user (written kind user key now token s)
        ≡ some (claimed (record { key = key; token = token; claimed_at = now }))
  fresh_entry s =
      ground (
        arith,
        written_entry kind user kind user key now token s,
        str_eq_refl kind,
        str_eq_refl user,
      )

  -- A claim that is granted and changes nothing stood in the state already.
  unsaved_Blocks :
      (d : State) (t : String)
      → mutate_body (claim kind user key now ttl token) d ≡ ok (some t, none)
      → StateBlocks kind user key ttl now (now + ttl) d
  unfolding mutate_body
  unsaved_Blocks d t h =
      let s = with_defaults state_keys d in
      let g = granted s t (ground arith) in
      let same : state_eq (written kind user key now token s) s ≡ true = ground (arith, g) in
      let (f, there, eq) =
        entry_at-state_eq kind user _ (written kind user key now token s) s same (fresh_entry s) in
      rw (sym (entry_at-defaults kind user d), there)
        (Blocks-eq key ttl now (now + ttl)
          (claimed (record { key = key; token = token; claimed_at = now })) f eq
          (str_eq_refl key, ground arith, ground arith))

  loads_holds : (new s : State) → load_strict state_valid [] (holds new) ≡ ok s → s ≡ new
  unfolding load_strict
  loads_holds new s h = ground arith

  mutate_granted :
      (host : Host) (file : File State) (t : String) (file' : File State)
      → mutate_state (claim kind user key now ttl token) host file ≡ (ok (some t), file')
      → FileBlocks kind user key ttl now (now + ttl) file'
  unfolding mutate_state
  mutate_granted host file t file' h s e =
      let (d, loaded, w) =
        transact_ok state_valid [] (mutate_body (claim kind user key now ttl token)) host file
          (some t) file' h in
      elim w [
        | inl (body, same) ↦ let there : s ≡ d = ground arith in rw there (unsaved_Blocks d t body)
        | inr (new, body, saved) ↦
            let there : s ≡ new = loads_holds new s (ground arith) in
            rw there (saved_Blocks d new t body)
      ]

  pub claim_alert_granted :
      (host : Host) (file : File State) (t : String)
      → (claim_alert host kind user key now ttl token file).0 ≡ ok (some t)
      → FileBlocks kind user key ttl now
          (now + ttl)
          (claim_alert host kind user key now ttl token file).1
  unfolding claim_alert
  claim_alert_granted host file t h =
      elim (Bool-cases (not (contains kind state_keys) || str_eq user "" || str_eq key "")) [
        | inl e ↦ absurd (ground (arith, e))
        | inr e ↦ rw e (
            mutate_granted host file t
              (mutate_state (claim kind user key now ttl token) host file).1 (ground (arith, e)))
      ]

-- A completion that was delivered keeps what the entry blocks.
pub settle_entry :
    (kind user k u j token : String) (s : State)
    → entry_at kind user (settle k u j token true s).1 ≡ (
        if str_eq k kind && (str_eq u user && holds_claim j token (entry_at k u s))
        then some (delivered j)
        else entry_at kind user s)
unfolding settle
settle_entry kind user k u j token s =
    elim (Bool-cases (holds_claim j token (get u (bucket_of k s)))) [
      | inr e ↦ unfold entry_at in ground (arith, e)
      | inl e ↦
          rw
            (
              e,
              entry_at-put kind user k u (put u (delivered j) (bucket_of k s)) s,
              get-put u user (delivered j) (bucket_of k s),
            )
            (unfold entry_at in ground (arith, e, str_eq_iff k kind))
    ]
