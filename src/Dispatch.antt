-- ===== src/Dispatch.antt =====
-- hysteria/alerts.py, `dispatch` and `dispatch_once`: delivery over the configured channels between a
-- claim and its completion. What a transport does with one request is an argument, as is whether
-- `format_message` returns: it does unless a detail of the event has not the type of its format.
pub mod Delivery
use hy.Prelude.{
  ℕ, String, Bool, true, false, not, ◌&&◌, ◌||◌, Option, none, some, List, [], ◌∷◌, ◌++◌, str_eq,
  if◌then◌else◌, keep,
}
use hy.Text.{contains}
use hy.Store.{Result, ok, err, File, Host}
use hy.Alerts.{State, claim_alert, finish_alert_claim}
use hy.Alerts.History.{Call, run}

-- A missing text is empty.
pub record Telegram : Type 0 where
  pub bot_token : String
  pub chat_id : String

pub record Webhook : Type 0 where
  pub url : String

pub record Config : Type 0 where
  pub telegram : Option Telegram
  pub webhook : Option Webhook

-- A request that succeeds, that fails in the transport, or that raises something else.
pub data Post : Type 0 where
  sent unsent raised : Post

-- The outside of one dispatch.
pub record World : Type 0 where
  pub formats : Bool
  pub telegram_post : Post
  pub webhook_post : Post

pub record Report : Type 0 where
  pub attempted : List String
  pub failed : List String

abbrev pub no_report : Report
no_report = record { attempted = []; failed = [] }

unfoldable pub post_telegram : Telegram → Post → Post
post_telegram cfg post = if str_eq cfg.bot_token "" || str_eq cfg.chat_id "" then unsent else post

unfoldable pub post_webhook : Webhook → Post → Post
post_webhook cfg post = if str_eq cfg.url "" then unsent else post

-- The report after a channel is tried, and whether it raised.
unfoldable pub attempt : String → Post → Report → Report × Bool
attempt channel sent r = (record r { attempted = r.attempted ++ channel ∷ [] }, false)
attempt channel unsent r =
    (record { attempted = r.attempted ++ channel ∷ []; failed = r.failed ++ channel ∷ [] }, false)
attempt channel raised r = (record r { attempted = r.attempted ++ channel ∷ [] }, true)

unfoldable pub try_telegram : Config → World → Report → Report × Bool
unfolding attempt post_telegram
try_telegram cfg world r = elim cfg.telegram [
  | none ↦ (r, false)
  | some telegram ↦ attempt "telegram" (post_telegram telegram world.telegram_post) r
]

unfoldable pub try_webhook : Config → World → Report → Report × Bool
unfolding attempt post_webhook
try_webhook cfg world r = elim cfg.webhook [
  | none ↦ (r, false)
  | some webhook ↦ attempt "webhook" (post_webhook webhook world.webhook_post) r
]

-- After an unexpected exception, every channel that was tried has failed.
unfoldable pub fail_all : Report → Report
unfolding keep contains
fail_all r = record r {
  failed = r.failed ++ keep (λ channel. not (contains channel r.failed)) r.attempted;
}

-- No configuration stands for one that is absent or not an object.
unfoldable pub dispatch : Option Config → World → Report
unfolding try_telegram try_webhook fail_all
dispatch none world = no_report
dispatch (some cfg) world =
    let (first, raised_first) = try_telegram cfg world no_report in
    let (second, raised_second) = try_webhook cfg world first in
    if not world.formats
    then no_report
    else if raised_first
    then fail_all first
    else if raised_second
    then fail_all second
    else second

abbrev pub is_nil : List String → Bool
is_nil [] = true
is_nil (x ∷ l) = false

unfoldable pub was_delivered : Report → Bool
was_delivered r = not (is_nil r.attempted) && is_nil r.failed

-- The completion of a claim that was granted.
unfoldable pub complete :
    Host → String → String → String → String → Report → File State → Result Report × File State
unfolding finish_alert_claim was_delivered
complete host kind user key token report file =
    let (r, file') = finish_alert_claim host kind user key token (was_delivered report) file in
    (elim r [ ok done ↦ ok report | err fault ↦ err fault ], file')

-- `claiming` and `completing` are what the host does to the two transactions, and `between` the calls
-- of other processes while the lock is not held.
unfoldable pub dispatch_once :
    Host
    → Host
    → ℕ
    → List Call
    → Option Config
    → World
    → String
    → String
    → String
    → ℕ
    → String
    → File State
    → Result Report × File State
unfolding claim_alert dispatch complete
dispatch_once claiming completing ttl between config world kind user key now token file =
    let (claimed, file') = claim_alert claiming kind user key now ttl token file in
    elim claimed [
      | err fault ↦ (err fault, file')
      | ok none ↦ (ok no_report, file')
      | ok (some t) ↦
          complete completing kind user key t (dispatch config world) (run ttl between file')
    ]
