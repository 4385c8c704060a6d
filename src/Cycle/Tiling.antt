-- ===== src/Cycle/Tiling.antt =====
-- From the anchor on, the cycles of one length tile the days.
use native.Mathlib.Nat.{div-mul-le_self, lt-div-mul-add, div-eq_of_lt-le}
use hy.Prelude.{ℕ, ◌+◌, ◌-◌, ◌*◌, ◌/◌, ◌≤◌, ◌<◌, ◌≡◌, arith}
use hy.Cycle.{start_of}

-- A day from the anchor on lies in the cycle that begins at `start_of`.
pub start_of_holds :
    (anchor length today : ℕ)
    → 0 < length
    → anchor ≤ today
    → (start_of anchor length today ≤ today) × (today < start_of anchor length today + length)
unfolding start_of
start_of_holds anchor length today some_days later =
    let low = div-mul-le_self (today - anchor) length in
    let high = lt-div-mul-add {a = today - anchor} some_days in ground (arith, low, high)

-- A day less than one length after the start of a cycle has the same whole number of cycles before it.
same_quotient :
    (length q n : ℕ) → 0 < length → q * length ≤ n → n < q * length + length → n / length ≡ q
same_quotient length q n some_days low high = div-eq_of_lt-le length low (grind arith)

-- Every day of that cycle has the same start: two days from the anchor on are in one cycle or in two
-- that have no day in common, and the start of a cycle is its own.
pub start_of_unique :
    (anchor length today day : ℕ)
    → 0 < length
    → anchor ≤ today
    → start_of anchor length today ≤ day
    → day < start_of anchor length today + length
    → start_of anchor length day ≡ start_of anchor length today
unfolding start_of
start_of_unique anchor length today day some_days later from before =
    let q = (today - anchor) / length in
    let base : start_of anchor length today ≡ anchor + q * length = ground arith in
    let quotient =
      same_quotient length q (day - anchor) some_days (ground (arith, base))
        (ground (arith, base)) in
    ground (arith, base, quotient)
