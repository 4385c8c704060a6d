-- ===== src/Revocation/Order.antt =====
-- Which task `claim_due` takes.
use hy.Prelude.{
  ℕ, String, true, false, ◌≡◌, inl, inr, [], ◌∷◌, ◌||◌, arith, none, some, Option-cases, str_eq_iff,
  str_eq_refl,
}
use hy.Dict.{Distinct, get}
use hy.Text.{text_lt_trans, text_lt_split, text_lt_irrefl}
use hy.Revocation.Tasks.{Task, Queue, due, before, earlier, first_due}

-- The entry that is taken stands in the queue.
pub first_due-get :
    (now : ℕ) (q : Queue) (k : String) (t : Task)
    → Distinct q
    → first_due now q ≡ some (k, t)
    → get k q ≡ some t
unfolding first_due earlier get
first_due-get now [] k t u e = ground arith
first_due-get now ((j, s) ∷ q) k t u e = elim (Option-cases (first_due now q)) [
  | inl n ↦ ground (arith, str_eq_refl k)
  | inr ((i, r), n) ↦
      let here = first_due-get now q i r u.1 n in
      ground (arith, here, str_eq_iff j i, str_eq_refl k, str_eq_refl j)
]

pub first_due-due :
    (now : ℕ) (q : Queue) (k : String) (t : Task) → first_due now q ≡ some (k, t) → due now t ≡ true
unfolding first_due earlier
first_due-due now [] k t e = ground arith
first_due-due now ((j, s) ∷ q) k t e = elim (Option-cases (first_due now q)) [
  | inl n ↦ ground arith
  | inr ((i, r), n) ↦ ground (arith, first_due-due now q i r n)
]

pub first_due-none :
    (now : ℕ) (q : Queue) (k : String) (t : Task)
    → first_due now q ≡ none
    → get k q ≡ some t
    → due now t ≡ false
unfolding first_due get
first_due-none now [] k t e h = ground arith
first_due-none now ((j, s) ∷ q) k t e h = ground (arith, first_due-none now q k t)

before_trans :
    (k j i : String) (t u v : Task)
    → before (k, t) (j, u) ≡ true
    → before (j, u) (i, v) ≡ true
    → before (k, t) (i, v) ≡ true
unfolding before
before_trans k j i t u v h l = ground (arith, text_lt_trans k j i)

before_split :
    (k j i : String) (t u v : Task)
    → before (k, t) (i, v) ≡ true
    → (before (k, t) (j, u) || before (j, u) (i, v)) ≡ true
unfolding before
before_split k j i t u v h = ground (arith, text_lt_split k j i)

before_irrefl : (k : String) (t : Task) → before (k, t) (k, t) ≡ false
unfolding before
before_irrefl k t = ground (arith, text_lt_irrefl k)

-- No due task comes before the one that is taken.
pub first_due_first :
    (now : ℕ) (q : Queue) (k j : String) (t u : Task)
    → first_due now q ≡ some (k, t)
    → get j q ≡ some u
    → due now u ≡ true
    → before (j, u) (k, t) ≡ false
unfolding first_due earlier get
first_due_first now [] k j t u e h d = ground arith
first_due_first now ((i, s) ∷ q) k j t u e h d = elim (Option-cases (first_due now q)) [
  | inl n ↦ ground (arith, first_due-none now q j u n, str_eq_iff i j, before_irrefl i s)
  | inr ((l, r), n) ↦ ground (
    arith,
    first_due_first now q l j r u n,
    str_eq_iff i j,
    before_irrefl i s,
    before_split j l i u r s,
    before_trans l i l r s r,
    before_irrefl l r,
  )
]
