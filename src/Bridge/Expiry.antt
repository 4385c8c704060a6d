-- ===== src/Bridge/Expiry.antt =====
-- hysteria/auth_service.py, `ConnectionDeadlineWatchdog`: every armed socket has a deadline, and is shut
-- down by the first turn that the deadline has come for.
use hy.Prelude.{
  ℕ, String, Bool, true, false, not, ◌&&◌, ◌||◌, ◌≡◌, refl, inl, inr, none, some, List, [], ◌∷◌,
  arith, leb, str_eq, str_eq_iff, str_eq_refl, keep, any, Bool-cases, Option-cases, ap, ◌∙◌, sym,
}
use hy.Dict.{get, put, get-put, get-remove}
use hy.Text.{contains}
use hy.Bridge.Watchdog.{
  Watchdog, started, discard, add, register, unregister, close, expired_at, pending_at, turn,
}

contains-keep :
    (p : String → Bool) (r : String) (l : List String)
    → contains r (keep p l) ≡ (contains r l && p r)
unfolding contains keep any
contains-keep p r [] = refl
contains-keep p r (s ∷ l) = elim (Bool-cases (str_eq r s)) [
  | inr other ↦ ground (arith, contains-keep p r l, other)
  | inl same ↦
      let equal : p s ≡ p r = ap p (sym ((str_eq_iff r s).0 same)) in
      ground (arith, contains-keep p r l, same, equal)
]

contains-add :
    (r s : String) (l : List String) → contains r (add s l) ≡ (str_eq r s || contains r l)
unfolding add
contains-add r s l = elim (Bool-cases (contains s l)) [
  | inr absent ↦ rw absent (unfold contains any in refl)
  | inl present ↦ rw present (elim (Bool-cases (str_eq r s)) [
    | inr other ↦ ground (arith, other)
    | inl same ↦ ground (arith, same, present, ap (λ t. contains t l) ((str_eq_iff r s).0 same))
  ])
]

-- What happens to the watchdog: a call of an operation, or a turn of its thread at an instant.
pub data Event : Type 0 where
  registers : String → ℕ → Event
  unregisters : String → Event
  closes : Event
  turns : ℕ → Event

unfoldable pub happens : Event → Watchdog → Watchdog
happens (registers request deadline) w = (register request deadline w).1
happens (unregisters request) w = unregister request w
happens closes w = (close w).1
happens (turns now) w = (turn now w).1

unfoldable pub history : List Event → Watchdog → Watchdog
unfolding happens
history [] w = w
history (e ∷ events) w = history events (happens e w)

-- Whether a socket has a deadline.
abbrev pub timed : String → Watchdog → Bool
timed request w = elim (get request w.deadlines) [ none ↦ false | some deadline ↦ true ]

-- An armed socket has a deadline.
abbrev pub IsTimed : Watchdog → Type 0
IsTimed w = (request : String) → contains request w.armed ≡ true → timed request w ≡ true

register-IsTimed :
    (s : String) (deadline : ℕ) (w : Watchdog) → IsTimed w → IsTimed (register s deadline w).1
unfolding register
register-IsTimed s deadline w t r = elim (Bool-cases w.closed) [
  | inl shut ↦ rw shut (t r)
  | inr live ↦ rw live (λ armed. registered s deadline w t r armed)
]
  where
    registered :
        (s : String) (deadline : ℕ) (w : Watchdog)
        → IsTimed w
        → (r : String) → contains r (add s w.armed) ≡ true
        → (elim (get r (put s deadline w.deadlines)) [ none ↦ false | some d ↦ true ]) ≡ true
    registered s deadline w t r armed = ground (
      arith,
      get-put s r deadline w.deadlines,
      contains-add r s w.armed,
      str_eq_iff r s,
      str_eq_refl r,
      t r,
      armed,
    )

unregister-IsTimed : (s : String) (w : Watchdog) → IsTimed w → IsTimed (unregister s w)
unfolding unregister discard
unregister-IsTimed s w t r armed = ground (
  arith,
  get-remove s r w.deadlines,
  contains-keep (λ q. not (str_eq q s)) r w.armed,
  str_eq_iff r s,
  str_eq_iff s r,
  str_eq_refl r,
  t r,
  armed,
)

turn-IsTimed : (now : ℕ) (w : Watchdog) → IsTimed w → IsTimed (turn now w).1
unfolding turn
turn-IsTimed now w t r = elim (Bool-cases w.closed) [
  | inl shut ↦ rw shut (t r)
  | inr live ↦
      rw live
        (λ armed. t r (ground (arith, contains-keep (pending_at now w.deadlines) r w.armed, armed)))
]

happens-IsTimed : (e : Event) (w : Watchdog) → IsTimed w → IsTimed (happens e w)
unfolding happens
happens-IsTimed (registers s deadline) w t = register-IsTimed s deadline w t
happens-IsTimed (unregisters s) w t = unregister-IsTimed s w t
happens-IsTimed closes w t = λ r armed. absurd (unfold close contains any in ground (arith, armed))
happens-IsTimed (turns now) w t = turn-IsTimed now w t

history-IsTimed : (events : List Event) (w : Watchdog) → IsTimed w → IsTimed (history events w)
unfolding history
history-IsTimed [] w t = t
history-IsTimed (e ∷ events) w t = history-IsTimed events (happens e w) (happens-IsTimed e w t)

-- After any history from the start, a turn shuts down exactly the armed sockets whose deadline has come, and
-- leaves armed exactly those whose deadline is still ahead, unless the watchdog is closed: no armed socket is
-- dropped without being shut down.
pub turn_lem :
    (events : List Event) (now : ℕ) (request : String) (w : Watchdog)
    → w ≡ history events started
    → w.closed ≡ false
    → contains request w.armed ≡ true
    → (deadline : ℕ) × (get request w.deadlines ≡ some deadline)
      × (contains request (turn now w).0 ≡ leb deadline now)
      × (contains request (turn now w).1.armed ≡ not (leb deadline now))
turn_lem events now request w reached live armed = elim (Option-cases (get request w.deadlines)) [
  | inl gone ↦ absurd (ground (arith, gone, timed_here))
  | inr (deadline, here) ↦ (
    deadline,
    here,
    unfold turn expired_at in
        ground
          (arith, live, armed, here, contains-keep (expired_at now w.deadlines) request w.armed),
    unfold turn pending_at in
        ground
          (arith, live, armed, here, contains-keep (pending_at now w.deadlines) request w.armed),
  )
]
  where
    nothing : IsTimed started
    nothing r e = absurd (unfold contains any in ground (arith, e))

    timed_here : timed request w ≡ true
    timed_here =
        ap (timed request) reached
        ∙ history-IsTimed events started nothing request
            (ap (λ (x : Watchdog). contains request x.armed) (sym reached) ∙ armed)
