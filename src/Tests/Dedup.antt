-- ===== src/Tests/Dedup.antt =====
-- hysteria/alerts.py: a quota alert claimed from an empty state, and claimed again within a minute.
use hy.Prelude.{◌≡◌, refl, List, [], ◌∷◌, arith, some}
use hy.Store.{ok, absent, calm, uncertain}
use hy.Alerts.{claim_alert}
use hy.Alerts.History.{Contend, Call, claims, delivers, run, claim_alert_once}

abbrev calls : List Call
calls =
    claims calm "quota_80" "alice" "2024-05" 1010 "t2"
    ∷ claims (record calm { save = uncertain }) "anomaly" "bob" "spike" 1011 "t3"
    ∷ delivers calm "quota_80" "alice" "2024-05" "t1"
    ∷ []

granted : (claim_alert calm "quota_80" "alice" "2024-05" 1000 60 "t1" absent).0 ≡ ok (some "t1")
unfolding claim_alert
granted = refl

contend : Contend "quota_80" "alice" "2024-05" 1000 1060 calls
contend = (
  ((λ e f. refl), ground arith, ground arith),
  (((λ e f. absurd (ground (arith, e))), ground arith, ground arith), (tt, tt)),
)

claim_alert_once_example : ¬ (
    (claim_alert calm "quota_80" "alice" "2024-05" 1030 60 "t4"
      (run 60 calls (claim_alert calm "quota_80" "alice" "2024-05" 1000 60 "t1" absent).1)).0
    ≡ ok (some "t4"))
claim_alert_once_example =
    claim_alert_once "quota_80" "alice" "2024-05" 60 calm 1000 "t1" "t1" absent granted calls
      contend calm 1030 "t4" "t4" (ground arith) (ground arith)
