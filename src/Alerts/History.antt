-- ===== src/Alerts/History.antt =====
-- Histories of claims and of completions of a delivery, of any alerts and by any number of processes.
use hy.Prelude.{
  ℕ, ◌+◌, ◌≤◌, ◌<◌, String, true, not, ◌&&◌, ◌≡◌, inl, inr, Option, none, some, List, [], ◌∷◌,
  arith, str_eq, str_eq_iff, str_eq_refl, Bool-cases, ◌||◌,
}
use hy.Text.{contains}
use hy.Store.{ok, File, Host, transact_ok}
use hy.Alerts.{
  Entry, delivered, claimed, State, state_keys, state_valid, with_defaults, mutate_body,
  mutate_state, claim, claim_alert, holds_claim, settle, finish_alert_claim,
}
use hy.Alerts.Claims.{entry_at, mutate_state_keeps, entry_at-defaults}
use hy.Alerts.Once.{Blocks, StateBlocks, FileBlocks, claim_silent, claim_alert_keeps}
use hy.Alerts.Exclusion.{claim_alert_granted, settle_entry}

-- A completion of a claim that blocks leaves a delivered key that blocks.
held_key :
    (key j token : String) (ttl last until : ℕ) (o : Option Entry)
    → holds_claim j token o ≡ true
    → Blocks key ttl last until o
    → str_eq j key ≡ true
unfolding holds_claim
held_key key j token ttl last until none h b = absurd b
held_key key j token ttl last until (some (delivered k)) h b = absurd (ground arith)
held_key key j token ttl last until (some (claimed c)) h b =
    ground (arith, str_eq_iff c.key j, str_eq_iff c.key key)

module _ (kind user key : String) (ttl last until : ℕ) where
  settle_keeps :
      (k u j token : String) (s : State)
      → StateBlocks kind user key ttl last until s
      → StateBlocks kind user key ttl last until (settle k u j token true s).1
  settle_keeps k u j token s b =
      elim (Bool-cases (str_eq k kind && (str_eq u user && holds_claim j token (entry_at k u s)))) [
        | inr e ↦ rw (settle_entry kind user k u j token s, e) b
        | inl e ↦
            rw (settle_entry kind user k u j token s, e)
              (held_key key j token ttl last until (entry_at kind user s)
                (ground (arith, str_eq_iff k kind, str_eq_iff u user)) b)
      ]

  pub finish_keeps :
      (host : Host) (k u j token : String) (file : File State)
      → FileBlocks kind user key ttl last until file
      → FileBlocks kind user key ttl last until (finish_alert_claim host k u j token true file).1
  unfolding finish_alert_claim
  finish_keeps host k u j token file b = elim (Bool-cases (not (contains k state_keys))) [
    | inl e ↦ rw e b
    | inr e ↦ rw e (
        mutate_state_keeps (StateBlocks kind user key ttl last until)
          (λ s p. rw (entry_at-defaults kind user s) p) (settle k u j token true)
          (settle_keeps k u j token) host file b)
  ]

-- A call of a process: a claim, or the completion of one whose alert was delivered.
pub data Call : Type 0 where
  claims : Host → String → String → String → ℕ → String → Call
  delivers : Host → String → String → String → String → Call

unfoldable pub step : ℕ → Call → File State → File State
unfolding claim_alert finish_alert_claim
step ttl (claims host kind user key now token) file =
    (claim_alert host kind user key now ttl token file).1
step ttl (delivers host kind user key token) file =
    (finish_alert_claim host kind user key token true file).1

unfoldable pub run : ℕ → List Call → File State → File State
unfolding step
run ttl [] file = file
run ttl (call ∷ calls) file = run ttl calls (step ttl call file)

-- A claim on the same entry is for the same key, and every claim is made from `last` on and before `until`.
abbrev pub Contends : String → String → String → ℕ → ℕ → Call → Type 0
Contends kind user key last until (claims host k u j now token) =
    (str_eq k kind ≡ true → str_eq u user ≡ true → str_eq j key ≡ true)
    × (last ≤ now)
    × (now < until)
Contends kind user key last until (delivers host k u j token) = Unit

abbrev pub Contend : String → String → String → ℕ → ℕ → List Call → Type 0
Contend kind user key last until [] = Unit
Contend kind user key last until (call ∷ calls) =
    Contends kind user key last until call × Contend kind user key last until calls

module _ (kind user key : String) (ttl last until : ℕ) where
  step_keeps :
      (call : Call) (file : File State)
      → Contends kind user key last until call
      → FileBlocks kind user key ttl last until file
      → FileBlocks kind user key ttl last until (step ttl call file)
  unfolding step
  step_keeps (claims host k u j now token) file (same, later, early) b =
      claim_alert_keeps kind user key ttl last until k u j now token same later early host file b
  step_keeps (delivers host k u j token) file c b =
      finish_keeps kind user key ttl last until host k u j token file b

  pub run_keeps :
      (calls : List Call) (file : File State)
      → Contend kind user key last until calls
      → FileBlocks kind user key ttl last until file
      → FileBlocks kind user key ttl last until (run ttl calls file)
  unfolding run
  run_keeps [] file c b = b
  run_keeps (call ∷ calls) file (c, cs) b =
      run_keeps calls (step ttl call file) cs (step_keeps call file c b)

  silent_body :
      (now : ℕ) (token : String) (d : State) (t : String) (o : Option State)
      → last ≤ now
      → now < until
      → StateBlocks kind user key ttl last until d
      → ¬ (mutate_body (claim kind user key now ttl token) d ≡ ok (some t, o))
  unfolding mutate_body
  silent_body now token d t o later early b h =
      let silent =
        claim_silent kind user key ttl last until kind user key now token (λ e f. str_eq_refl key)
          later early (with_defaults state_keys d) (str_eq_refl kind) (str_eq_refl user)
          (rw (entry_at-defaults kind user d) b) in
      ground (arith, silent)

  pub blocked_claim :
      (host : Host) (now : ℕ) (token : String) (file : File State) (t : String)
      → last ≤ now
      → now < until
      → FileBlocks kind user key ttl last until file
      → ¬ ((claim_alert host kind user key now ttl token file).0 ≡ ok (some t))
  unfolding claim_alert mutate_state
  blocked_claim host now token file t later early b h =
      elim (Bool-cases (not (contains kind state_keys) || str_eq user "" || str_eq key "")) [
        | inl e ↦ absurd (ground (arith, e))
        | inr e ↦
            let (d, loaded, w) =
              transact_ok state_valid [] (mutate_body (claim kind user key now ttl token)) host file
                (some t) (mutate_state (claim kind user key now ttl token) host file).1
                (ground (arith, e)) in
            elim w [
              | inl (body, same) ↦ silent_body now token d t none later early (b d loaded) body
              | inr (new, body, saved) ↦
                  silent_body now token d t (some new) later early (b d loaded) body
            ]
      ]

-- Once a claim of an alert's key is granted, no later claim of that key is granted before the claim's
-- time to live is over, whatever other processes do in between: claims of other alerts or of the same
-- one, and completions of a delivered alert, with any outcome of their locks and writes. The claims made
-- in between on the same entry are for the same key, and every claim made in between, on any entry, is at
-- an instant from the first one's on and within its time to live.
pub claim_alert_once :
    (kind user key : String) (ttl : ℕ) (host : Host) (now : ℕ) (token t : String)
    (file : File State)
    → (claim_alert host kind user key now ttl token file).0 ≡ ok (some t)
    → (calls : List Call) → Contend kind user key now (now + ttl) calls
    → (host' : Host) (now' : ℕ) (token' t' : String) → now ≤ now'
    → now' < now + ttl
    → ¬ (
        (claim_alert host' kind user key now' ttl token'
          (run ttl calls (claim_alert host kind user key now ttl token file).1)).0
        ≡ ok (some t'))
claim_alert_once kind user key ttl host now token t file h calls c host' now' token' t' later
      early =
    blocked_claim kind user key ttl now (now + ttl) host' now' token'
      (run ttl calls (claim_alert host kind user key now ttl token file).1) t' later early
      (run_keeps kind user key ttl now (now + ttl) calls
        (claim_alert host kind user key now ttl token file).1 c
        (claim_alert_granted kind user key ttl now token host file t h))
