-- ===== src/Bridge/Watchdog.antt =====
-- hysteria/auth_service.py, `ConnectionDeadlineWatchdog`: the deadlines of the accepted sockets. A
-- socket is a text. The condition's lock makes each operation, and each turn of the thread, one step.
use hy.Prelude.{
  ℕ, String, Bool, true, false, not, Option, none, some, List, [], ◌∷◌, leb, if◌then◌else◌, str_eq,
  keep,
}
use hy.Dict.{Dict, get, put, remove}
use hy.Text.{contains}

pub record Watchdog : Type 0 where
  pub deadlines : Dict ℕ
  -- The set of the armed sockets.
  pub armed : List String
  pub closed : Bool

abbrev pub started : Watchdog
started = record { deadlines = []; armed = []; closed = false }

-- set.discard(request)
unfoldable pub discard : String → List String → List String
unfolding keep
discard request armed = keep (λ r. not (str_eq r request)) armed

-- set.add(request)
unfoldable pub add : String → List String → List String
unfolding contains
add request armed = if contains request armed then armed else request ∷ armed

-- False is its RuntimeError.
unfoldable pub register : String → ℕ → Watchdog → Bool × Watchdog
unfolding put add
register request deadline w = if w.closed then (false, w) else (
  true,
  record w { deadlines = put request deadline w.deadlines; armed = add request w.armed },
)

unfoldable pub deadline_for : String → Watchdog → Option ℕ
unfolding get
deadline_for request w = get request w.deadlines

unfoldable pub unregister : String → Watchdog → Watchdog
unfolding remove discard
unregister request w = record w {
  deadlines = remove request w.deadlines;
  armed = discard request w.armed;
}

abbrev pub keys_of : Dict ℕ → List String
keys_of [] = []
keys_of ((request, deadline) ∷ d) = request ∷ keys_of d

-- The sockets that are shut down, and the watchdog.
unfoldable pub close : Watchdog → List String × Watchdog
close w = (keys_of w.deadlines, record { deadlines = []; armed = []; closed = true })

unfoldable pub expired_at : ℕ → Dict ℕ → String → Bool
unfolding get
expired_at now deadlines request = elim (get request deadlines) [
  | none ↦ false
  | some deadline ↦ leb deadline now
]

-- Whether a socket stays armed: it has a deadline, which has not passed.
unfoldable pub pending_at : ℕ → Dict ℕ → String → Bool
unfolding get
pending_at now deadlines request = elim (get request deadlines) [
  | none ↦ false
  | some deadline ↦ not (leb deadline now)
]

-- One turn of `_run` at an instant: the sockets that it shuts down, and the watchdog.
unfoldable pub turn : ℕ → Watchdog → List String × Watchdog
unfolding keep expired_at pending_at
turn now w = if w.closed then ([], w) else (
  keep (expired_at now w.deadlines) w.armed,
  record w { armed = keep (pending_at now w.deadlines) w.armed },
)
