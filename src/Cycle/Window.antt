-- ===== src/Cycle/Window.antt =====
-- hysteria/cycle.py: the days that `cycle_days` lists, from the start of the running cycle to today.
use hy.Prelude.{
  ℕ, zero, suc, ◌+◌, ◌-◌, ◌*◌, ◌/◌, ◌≤◌, ◌⊎◌, inl, inr, max, ◌<◌, ◌&&◌, ◌≡◌, refl, Option, List,
  arith, ltb, leb, ◌==◌, any, length, min, ◌∙◌, ap,
}
use hy.Python.Json.{Value, int, Fields, Conversion, converted, refused, overflows, to_int}
use hy.Python.Numbers.{ℤ, pos, negsuc}
use hy.Store.{ok, >>=-ok}
use hy.Users.{Library}
use hy.Users.Rules.{field_or}
use hy.Cycle.{
  Now, start_of, days_from, days_of, cycle_days, cycle_start_for, anchor_for,
  cycle_length_from_meta, clamp_cycle_length, clamp, clamp_or, cycle_length_days_default,
}
use hy.Cycle.Tiling.{start_of_holds}

any-days_from :
    (day start n : ℕ)
    → any (λ d. d == day) (days_from start n) ≡ (leb start day && ltb day (start + n))
unfolding any days_from
any-days_from day start zero = ground arith
any-days_from day start (suc n) = ground (arith, any-days_from day (start + 1) n)

length-days_from : (start n : ℕ) → length (days_from start n) ≡ n
unfolding days_from
length-days_from start zero = refl
length-days_from start (suc n) = ground (arith, length-days_from (start + 1) n)

-- The days of a cycle that holds today are those from its start to today.
any-days_of :
    (day start days today : ℕ)
    → start ≤ today
    → today < start + days
    → any (λ d. d == day) (days_of start days today) ≡ (leb start day && leb day today)
unfolding days_of
any-days_of day start days today from before =
    any-days_from day start (min (start + days - 1) today + 1 - start) ∙ ground arith

length-days_of :
    (start days today : ℕ)
    → start ≤ today
    → today < start + days
    → length (days_of start days today) ≡ today + 1 - start
unfolding days_of
length-days_of start days today from before =
    length-days_from start (min (start + days - 1) today + 1 - start) ∙ ground arith

clamp_or_bounds :
    (low high default n : ℕ) (c : Conversion)
    → low ≤ default
    → default ≤ high
    → clamp_or low high default c ≡ ok n
    → (low ≤ n) × (n ≤ high)
unfolding clamp_or clamp
clamp_or_bounds low high default n (converted (pos k)) a b h = ground arith
clamp_or_bounds low high default n (converted (negsuc k)) a b h = ground arith
clamp_or_bounds low high default n refused a b h = ground arith
clamp_or_bounds low high default n overflows a b h = absurd (ground arith)

-- A length that is read from the metadata, or given, is between 1 and 90 days.
abbrev InRange : ℕ → Type 0
InRange n = (1 ≤ n) × (n ≤ 90)

given-InRange :
    (value : Value) (default n : ℕ)
    → InRange default
    → clamp_cycle_length value default ≡ ok n
    → InRange n
unfolding clamp_cycle_length
given-InRange value default n d h = clamp_or_bounds 1 90 default n (to_int value) d.0 d.1 h

meta-InRange : (meta : Fields) (n : ℕ) → cycle_length_from_meta meta ≡ ok n → InRange n
unfolding cycle_length_from_meta
meta-InRange meta n h =
    given-InRange (field_or (int (pos cycle_length_days_default)) "cycle_length_days" meta) 30 n
      (ground arith, ground arith) h

clamp-InRange : (n : ℕ) → InRange n → clamp 1 90 (pos n) ≡ n
unfolding clamp
clamp-InRange n d = ground arith

start_found :
    (lib : Library) (now : Now) (day : Option Value) (anchor : Option ℕ) (meta : Fields)
    (origin default days : ℕ)
    → anchor_for lib now day anchor meta ≡ ok origin
    → cycle_length_from_meta meta ≡ ok default
    → InRange days
    → cycle_start_for lib now day (int (pos days)) anchor meta ≡ ok (start_of origin days now.today)
unfolding cycle_start_for clamp_cycle_length
start_found lib now day anchor meta origin default days found d range =
    rw (found, d) (ap (λ n. ok (start_of origin n now.today)) (clamp-InRange days range))

-- max(1, min(90, z))
abbrev within_bounds : ℤ → ℕ
within_bounds (pos n) = max 1 (min 90 n)
within_bounds (negsuc n) = 1

-- The length that a value stands for: what `int` makes of it, brought into the bounds, and the default
-- for a value that `int` refuses.
abbrev pub LengthOf : Value → ℕ → ℕ → Type 0
LengthOf value default days =
    ((z : ℤ) × (to_int value ≡ converted z) × (days ≡ within_bounds z))
    ⊎ ((to_int value ≡ refused) × (days ≡ default))

given-LengthOf :
    (value : Value) (default days : ℕ)
    → clamp_cycle_length value default ≡ ok days
    → LengthOf value default days
unfolding clamp_cycle_length
given-LengthOf value default days h = read (to_int value) refl
  where
    read : (c : Conversion) → to_int value ≡ c → LengthOf value default days
    read (converted (pos n)) e = inl (pos n, e, unfold clamp_or clamp in ground (arith, h, e))
    read (converted (negsuc n)) e = inl (negsuc n, e, unfold clamp_or clamp in ground (arith, h, e))
    read refused e = inr (e, unfold clamp_or in ground (arith, h, e))
    read overflows e = absurd (unfold clamp_or in ground (arith, h, e))

meta-LengthOf :
    (meta : Fields) (days : ℕ)
    → cycle_length_from_meta meta ≡ ok days
    → LengthOf (field_or (int (pos 30)) "cycle_length_days" meta) 30 days
unfolding cycle_length_from_meta
meta-LengthOf meta days h =
    given-LengthOf (field_or (int (pos 30)) "cycle_length_days" meta) 30 days h

start_of_lem :
    (origin days today : ℕ)
    → origin ≤ today
    → start_of origin days today ≡ origin + (today - origin) / days * days
unfolding start_of
start_of_lem origin days today past = ground arith

-- What `cycle_days` returns, from an origin that is not in the future. The length `days` is the integer
-- that is given, brought between 1 and 90; for a value that is none, it is that of the metadata's
-- `cycle_length_days`, read the same way, with 30 for one that is absent or no integer. The list has
-- exactly the days from the start of today's cycle, which is a whole number of lengths after the origin,
-- to today: at least one and at most `days`.
pub cycle_days_lem :
    (lib : Library) (now : Now) (day : Option Value) (given : Value) (anchor : Option ℕ)
    (meta : Fields) (origin : ℕ) (listed : List ℕ)
    → anchor_for lib now day anchor meta ≡ ok origin
    → origin ≤ now.today
    → cycle_days lib now day given anchor meta ≡ ok listed
    → (default days : ℕ) × LengthOf (field_or (int (pos 30)) "cycle_length_days" meta) 30 default
      × LengthOf given default days
      × (1 ≤ days)
      × (days ≤ 90)
      × (1 ≤ length listed)
      × (length listed ≤ days)
      × ((d : ℕ)
          → any (λ e. e == d) listed
            ≡ (leb (origin + (now.today - origin) / days * days) d && leb d now.today))
unfolding cycle_days
cycle_days_lem lib now day given anchor meta origin listed found past h =
    let (default, d, r1) = >>=-ok (cycle_length_from_meta meta) _ h in
    let (days, c, r2) = >>=-ok (clamp_cycle_length given default) _ r1 in
    let range : InRange days = given-InRange given default days (meta-InRange meta default d) c in
    let start = start_found lib now day anchor meta origin default days found d range in
    let same : days_of (start_of origin days now.today) days now.today ≡ listed =
      ground (arith, r2, start) in
    let (from, before) = start_of_holds origin days now.today range.0 past in
    (
      default,
      days,
      meta-LengthOf meta default d,
      given-LengthOf given default days c,
      range.0,
      range.1,
      ground
          (arith, same, length-days_of (start_of origin days now.today) days now.today from before),
      ground
          (arith, same, length-days_of (start_of origin days now.today) days now.today from before),
      λ e.
          rw (← same, ← start_of_lem origin days now.today past)
            (any-days_of e (start_of origin days now.today) days now.today from before),
    )
