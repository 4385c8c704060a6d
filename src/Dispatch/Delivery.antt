-- ===== src/Dispatch/Delivery.antt =====
-- When an alert counts as delivered, and what a delivered alert leaves behind.
use hy.Prelude.{
  ℕ, ◌+◌, ◌≤◌, ◌<◌, String, Bool, true, false, not, ◌&&◌, ◌||◌, ◌≡◌, refl, inl, inr, Option, none,
  some, List, arith, str_eq, keep, any, Option-cases,
}
use hy.Text.{contains}
use hy.Store.{ok, File, Host, Result-cases}
use hy.Alerts.{State, claim_alert, finish_alert_claim}
use hy.Alerts.Once.{FileBlocks}
use hy.Alerts.Exclusion.{claim_alert_granted}
use hy.Alerts.History.{Call, run, Contend, run_keeps, finish_keeps, blocked_claim}
use hy.Dispatch.{
  Telegram, Webhook, Config, Post, sent, unsent, raised, World, Report, no_report, post_telegram,
  post_webhook, attempt, try_telegram, try_webhook, fail_all, dispatch, was_delivered, complete,
  dispatch_once,
}

abbrev succeeds : Post → Bool
succeeds sent = true
succeeds unsent = false
succeeds raised = false

-- A channel that is not configured is no obstacle.
abbrev pub telegram_done : Option Telegram → Post → Bool
telegram_done none post = true
telegram_done (some telegram) post =
    not (str_eq telegram.bot_token "") && not (str_eq telegram.chat_id "") && succeeds post

abbrev pub webhook_done : Option Webhook → Post → Bool
webhook_done none post = true
webhook_done (some webhook) post = not (str_eq webhook.url "") && succeeds post

abbrev pub configured {ℓ} : {A : Type ℓ} → Option A → Bool
configured none = false
configured (some a) = true

delivered_channels :
    (f : Bool) (t : Option Telegram) (w : Option Webhook) (p q : Post)
    → was_delivered (
        dispatch
          (some (record { telegram = t; webhook = w }))
          (record { formats = f; telegram_post = p; webhook_post = q }))
      ≡ (f && (configured t || configured w) && telegram_done t p && webhook_done w q)
unfolding dispatch was_delivered try_telegram try_webhook attempt post_telegram post_webhook
    fail_all keep contains any
delivered_channels false t w p q = refl
delivered_channels true none none p q = refl
delivered_channels true none (some w) p sent = ground arith
delivered_channels true none (some w) p unsent = ground arith
delivered_channels true none (some w) p raised = ground arith
delivered_channels true (some t) none sent q = ground arith
delivered_channels true (some t) none unsent q = ground arith
delivered_channels true (some t) none raised q = ground arith
delivered_channels true (some t) (some w) sent sent = ground arith
delivered_channels true (some t) (some w) sent unsent = ground arith
delivered_channels true (some t) (some w) sent raised = ground arith
delivered_channels true (some t) (some w) unsent sent = ground arith
delivered_channels true (some t) (some w) unsent unsent = ground arith
delivered_channels true (some t) (some w) unsent raised = ground arith
delivered_channels true (some t) (some w) raised q = ground arith

-- An alert counts as delivered exactly when its message was formatted, a channel is configured, and
-- every configured channel was complete and its request succeeded.
pub dispatch_delivered :
    (cfg : Config) (world : World)
    → was_delivered (dispatch (some cfg) world) ≡ (
        world.formats
        && (configured cfg.telegram || configured cfg.webhook)
        && telegram_done cfg.telegram world.telegram_post
        && webhook_done cfg.webhook world.webhook_post)
dispatch_delivered cfg world =
    delivered_channels world.formats cfg.telegram cfg.webhook world.telegram_post world.webhook_post

module _ (claiming completing : Host) (ttl : ℕ) (between : List Call) (config : Option Config)
    (world : World) (kind user key : String) (now : ℕ) (token : String) (file file' : File State)
    (report : Report) (contend : Contend kind user key now (now + ttl) between)
    (delivered : was_delivered report ≡ true) where
  nothing_delivered : (r : Report) → r ≡ no_report → report ≡ r → ⊥
  unfolding was_delivered
  nothing_delivered r e f = ground arith

  complete_blocks :
      (t : String) (r : Report) (before : File State)
      → FileBlocks kind user key ttl now (now + ttl) before
      → complete completing kind user key t r before ≡ (ok report, file')
      → FileBlocks kind user key ttl now (now + ttl) file'
  unfolding complete
  complete_blocks t r before b e =
      let out = finish_alert_claim completing kind user key t (was_delivered r) before in
      elim (Result-cases out.0) [
        | inr (fault, h) ↦ absurd (ground (arith, h))
        | inl (done, h) ↦
            let same : r ≡ report = ground (arith, h) in
            let file_same : file' ≡ out.1 = ground (arith, h) in
            let yes : was_delivered r ≡ true = rw same delivered in
            rw (file_same, yes)
              (finish_keeps kind user key ttl now (now + ttl) completing kind user key t before b)
      ]

  dispatch_once_blocks :
      dispatch_once claiming completing ttl between config world kind user key now token file
        ≡ (ok report, file')
      → FileBlocks kind user key ttl now (now + ttl) file'
  unfolding dispatch_once
  dispatch_once_blocks e =
      let out = claim_alert claiming kind user key now ttl token file in
      elim (Result-cases out.0) [
        | inr (fault, h) ↦ absurd (ground (arith, h))
        | inl (claimed, h) ↦ elim (Option-cases claimed) [
          | inl none_claimed ↦
              let same : report ≡ no_report = ground (arith, h, none_claimed) in
              absurd (nothing_delivered report same refl)
          | inr (t, granted) ↦
              complete_blocks t (dispatch config world) (run ttl between out.1)
                (run_keeps kind user key ttl now (now + ttl) between out.1 contend (
                  claim_alert_granted kind user key ttl now token claiming file t
                    (ground (arith, h, granted))))
                (ground (arith, h, granted))
        ]
      ]

-- Once `dispatch_once` has returned a delivered report, the alert's key is not granted again before
-- the time to live of its claim is over, over any claims and completions of delivered alerts by other
-- processes between the claim and its completion, and whatever the locks and writes do. The claims in
-- between on the same entry are for the same key, every claim in between, on any entry, is at an instant
-- from the first one's on and within its time to live, and no process clears entries in between.
pub dispatch_once_delivered :
    (claiming completing : Host) (ttl : ℕ) (between : List Call) (config : Option Config)
    (world : World) (kind user key : String) (now : ℕ) (token : String) (file file' : File State)
    (report : Report)
    → Contend kind user key now (now + ttl) between
    → was_delivered report ≡ true
    → dispatch_once claiming completing ttl between config world kind user key now token file
      ≡ (ok report, file')
    → (host : Host) (later : ℕ) (token' t : String) → now ≤ later
    → later < now + ttl
    → ¬ ((claim_alert host kind user key later ttl token' file').0 ≡ ok (some t))
dispatch_once_delivered claiming completing ttl between config world kind user key now token file
      file' report contend delivered e host later token' t from_now in_time =
    blocked_claim kind user key ttl now (now + ttl) host later token' file' t from_now in_time (
      dispatch_once_blocks claiming completing ttl between config world kind user key now token file
        file' report contend delivered e)
