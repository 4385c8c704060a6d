-- ===== src/Revocation/Precedence.antt =====
-- hysteria/revocation_queue.py, `claim_due`: the order in which due tasks are claimed.
use hy.Prelude.{
  ℕ, ◌≤◌, ◌<◌, String, true, false, ◌≡◌, ◌⊎◌, inl, inr, arith, some, Bool-cases, Option-cases, sym,
  ltb,
}
use hy.Dict.{get}
use hy.Text.{text_lt}
use hy.Store.{ok, File, holds, calm}
use hy.Revocation.Tasks.{Task, Queue, due, before, leased, first_due}
use hy.Revocation.{claim_due}
use hy.Revocation.Soundness.{Fits}
use hy.Revocation.Order.{first_due-get, first_due_first}

-- The task `t`, under the id `k`, has its turn no later than `u`, under `j`: its next attempt is earlier;
-- or both are at one instant, and it was created earlier; or that too is one instant, and its id is not
-- after the other one.
abbrev pub HasTurn : String → Task → String → Task → Type 0
HasTurn k t j u =
    (t.next_attempt_at < u.next_attempt_at)
    ⊎ ((t.next_attempt_at ≡ u.next_attempt_at)
        × ((t.created_at < u.created_at) ⊎ ((t.created_at ≡ u.created_at) × (text_lt j k ≡ false))))

HasTurn-before : (k j : String) (t u : Task) → before (j, u) (k, t) ≡ false → HasTurn k t j u
unfolding before
HasTurn-before k j t u h = elim (Bool-cases (ltb t.next_attempt_at u.next_attempt_at)) [
  | inl e ↦ inl (ground (arith, e))
  | inr e ↦ elim (Bool-cases (ltb t.created_at u.created_at)) [
    | inl d ↦ inr (ground (arith, h, e), inl (ground (arith, d)))
    | inr d ↦ inr (ground (arith, h, e), inr (ground (arith, h, e, d), ground (arith, h, e, d)))
  ]
]

due_holds : (now : ℕ) (u : Task) → u.next_attempt_at ≤ now → u.lease_until ≤ now → due now u ≡ true
unfolding due
due_holds now u a l = ground arith

-- On a sound queue, the task that a claim returns is the one that the queue holds under its id, leased;
-- and of any task whose next attempt has come and whose lease is over, the next attempt is not earlier
-- than that of the claimed task, nor, at one instant, the creation, nor, at one instant too, the id.
pub claim_due_first :
    (now : ℕ) (q : Queue) (file' : File Queue) (k j : String) (t u : Task)
    → Fits q
    → claim_due calm now (holds q) ≡ (ok (some (k, t)), file')
    → get j q ≡ some u
    → u.next_attempt_at ≤ now
    → u.lease_until ≤ now
    → (held : Task) × (get k q ≡ some held) × (t ≡ leased now held) × HasTurn k held j u
unfolding claim_due
claim_due_first now q file' k j t u f h there ready free = elim (Option-cases (first_due now q)) [
  | inl nothing ↦ absurd (ground (arith, h, f.0, nothing))
  | inr ((i, r), found) ↦
      let same_key : i ≡ k = ground (arith, h, f.0, found) in
      let same_task : leased now r ≡ t = ground (arith, h, f.0, found) in
      rw (← same_key) (
        r,
        first_due-get now q i r f.2 found,
        sym same_task,
        HasTurn-before i j r u
            (first_due_first now q i j r u found there (due_holds now u ready free)),
      )
]
