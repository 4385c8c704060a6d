-- ===== src/Tests/Channels.antt =====
-- hysteria/alerts.py, `dispatch` and `dispatch_once`: one channel, then two.
use hy.Prelude.{◌≡◌, refl, true, false, ◌&&◌, ◌||◌, List, [], ◌∷◌, arith, some, none}
use hy.Store.{ok, File, absent, calm}
use hy.Alerts.{State, claim_alert}
use hy.Alerts.History.{Call, claims, Contend}
use hy.Dispatch.{Config, Report, World, sent, unsent, dispatch, was_delivered, dispatch_once}
use hy.Dispatch.Delivery.{dispatch_delivered, dispatch_once_delivered}

abbrev config : Config
config = record { telegram = some (record { bot_token = "b"; chat_id = "c" }); webhook = none }

abbrev both : Config
both = record config { webhook = some (record { url = "https://example.org" }) }

abbrev world : World
world = record { formats = true; telegram_post = sent; webhook_post = unsent }

abbrev between : List Call
between = claims calm "quota_80" "alice" "2024-05" 1010 "t2" ∷ []

contend : Contend "quota_80" "alice" "2024-05" 1000 1060 between
contend = (((λ e f. refl), ground arith, ground arith), tt)

abbrev report : Report
report = record { attempted = "telegram" ∷ []; failed = [] }

dispatch_delivered_example :
    was_delivered (dispatch (some both) world) ≡ (true && (true || true) && true && false)
dispatch_delivered_example = dispatch_delivered both world

-- The file after the dispatch.
abbrev after : File State
after =
    (dispatch_once calm calm 60 between (some config) world "quota_80" "alice" "2024-05" 1000 "t1"
      absent).1

dispatched :
    dispatch_once calm calm 60 between
      (some config)
      world
      "quota_80"
      "alice"
      "2024-05"
      1000
      "t1"
      absent
    ≡ (ok report, after)
unfolding dispatch_once hy.Alerts.History.run
dispatched = refl

report_delivered : was_delivered report ≡ true
unfolding was_delivered
report_delivered = refl

dispatch_once_delivered_example :
    ¬ ((claim_alert calm "quota_80" "alice" "2024-05" 1030 60 "t4" after).0 ≡ ok (some "t4"))
dispatch_once_delivered_example =
    dispatch_once_delivered calm calm 60 between (some config) world "quota_80" "alice" "2024-05"
      1000 "t1" absent after report contend report_delivered dispatched calm 1030 "t4" "t4"
      (ground arith) (ground arith)
