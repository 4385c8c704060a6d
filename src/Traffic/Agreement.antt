-- ===== src/Traffic/Agreement.antt =====
-- hysteria/traffic_limiter.py and hysteria/auth_backend.py: the two validators of a usage entry.
use hy.Prelude.{
  ℕ, ◌+◌, Bool, true, ◌≡◌, refl, inl, inr, arith, ◌==◌, if◌then◌else◌, Bool-cases, Option-cases, ap,
  ◌∙◌, sym,
}
use hy.Python.Numbers.{pos, negsuc}
use hy.Python.Json.{
  Value, null, boolean, int, float, text, array, object, Fields, end, field, get_field,
}
use hy.Store.{Result, ok, err, invalid_state, >>=-ok, ◌>>=◌}
use hy.Users.Rules.{field_or}
use hy.Auth.Inputs as Inputs
use hy.Auth.Inputs.{usage_total, usage_of_fields, only_usage_fields, digits_text}
use hy.Traffic.Validation.{
  non_negative_integer, only_directions, validate_directions, checked, validate_usage_entry,
}

integers_agree :
    (v : Value) (n : ℕ) → non_negative_integer v ≡ ok n → Inputs.non_negative_integer v ≡ ok n
unfolding non_negative_integer Inputs.non_negative_integer digits_text
integers_agree (int (pos m)) n h = h
integers_agree (text s) n h = ground (arith, h)
integers_agree (int (negsuc m)) n h = absurd (ground (arith, h))
integers_agree null n h = absurd (ground (arith, h))
integers_agree (boolean b) n h = absurd (ground (arith, h))
integers_agree (float f) n h = absurd (ground (arith, h))
integers_agree (array vs) n h = absurd (ground (arith, h))
integers_agree (object fs) n h = absurd (ground (arith, h))

checked_ok : (r : Result ℕ) (b : Bool) → checked r ≡ ok b → (n : ℕ) × (r ≡ ok n)
checked_ok (ok n) b h = (n, refl)
checked_ok (err e) b h = absurd (ground (arith, h))

counted :
    (v : Value) (b : Bool)
    → checked (non_negative_integer v) ≡ ok b
    → (n : ℕ) × (Inputs.non_negative_integer v ≡ ok n)
counted v b h = let (n, e) = checked_ok (non_negative_integer v) b h in (n, integers_agree v n e)

only_agree : (fs : Fields) → only_directions fs ≡ only_usage_fields fs
only_agree end = refl
only_agree (field k v fs) = ground (arith, only_agree fs)

-- What the limiter's validator found in an object that it accepts.
directions_found :
    (entry : Fields) (b : Bool)
    → validate_directions entry ≡ ok b
    → (tx rx : ℕ) × (only_directions entry ≡ true)
      × (non_negative_integer (field_or (int (pos 0)) "tx" entry) ≡ ok tx)
      × (non_negative_integer (field_or (int (pos 0)) "rx" entry) ≡ ok rx)
      × (non_negative_integer (field_or (int (pos 0)) "total" entry) ≡ ok (tx + rx))
unfolding validate_directions
directions_found entry b h = elim (Bool-cases (only_directions entry)) [
  | inr other ↦ absurd (ground (arith, h, other))
  | inl only ↦
      let (tx, e1, r1) =
        >>=-ok (non_negative_integer (field_or (int (pos 0)) "tx" entry))
          (λ tx. non_negative_integer (field_or (int (pos 0)) "rx" entry) >>= λ rx.
            non_negative_integer (field_or (int (pos 0)) "total" entry) >>= λ total.
            if total == tx + rx then ok true else err invalid_state)
          (opened only) in
      let (rx, e2, r2) = >>=-ok (non_negative_integer (field_or (int (pos 0)) "rx" entry)) _ r1 in
      let (total, e3, r3) =
        >>=-ok (non_negative_integer (field_or (int (pos 0)) "total" entry)) _ r2 in
      let same : total ≡ tx + rx = ground (arith, r3) in (tx, rx, only, e1, e2, e3 ∙ ap ok same)
]
  where
    opened :
        only_directions entry ≡ true
        → (non_negative_integer (field_or (int (pos 0)) "tx" entry) >>= λ tx.
            non_negative_integer (field_or (int (pos 0)) "rx" entry) >>= λ rx.
            non_negative_integer (field_or (int (pos 0)) "total" entry) >>= λ total.
            if total == tx + rx then ok true else err invalid_state)
          ≡ ok b
    opened only = ground (arith, h, only)

-- The total with the other default is the same.
total_agrees :
    (entry : Fields) (n : ℕ)
    → non_negative_integer (field_or (int (pos 0)) "total" entry) ≡ ok n
    → Inputs.non_negative_integer (field_or (int (pos n)) "total" entry) ≡ ok n
total_agrees entry n h = elim (Option-cases (get_field "total" entry)) [
  | inl gone ↦
      let default : field_or (int (pos n)) "total" entry ≡ int (pos n) =
        unfold field_or in ground (arith, gone) in
      ap Inputs.non_negative_integer default ∙ (unfold Inputs.non_negative_integer in refl)
  | inr (v, here) ↦
      let given : field_or (int (pos n)) "total" entry ≡ v =
        unfold field_or in ground (arith, here) in
      let given_too : field_or (int (pos 0)) "total" entry ≡ v =
        unfold field_or in ground (arith, here) in
      ap Inputs.non_negative_integer given
      ∙ integers_agree v n (ap non_negative_integer (sym given_too) ∙ h)
]

fields_agree :
    (entry : Fields) (b : Bool)
    → validate_directions entry ≡ ok b
    → (n : ℕ) × (usage_of_fields entry ≡ ok n)
unfolding usage_of_fields
fields_agree entry b h =
    let (tx, rx, only, e1, e2, e3) = directions_found entry b h in
    let known : only_usage_fields entry ≡ true = sym (only_agree entry) ∙ only in
    let first = integers_agree (field_or (int (pos 0)) "tx" entry) tx e1 in
    let second = integers_agree (field_or (int (pos 0)) "rx" entry) rx e2 in
    let third = total_agrees entry (tx + rx) e3 in
    (tx + rx, rw known (rw first (rw second (rw third (ground arith)))))

-- Every usage entry that the limiter's validator accepts, `usage_total` of the authentication counts too.
pub validate_usage_entry-usage_total :
    (entry : Value) (b : Bool)
    → validate_usage_entry entry ≡ ok b
    → (n : ℕ) × (usage_total entry ≡ ok n)
unfolding validate_usage_entry usage_total
validate_usage_entry-usage_total (object entry) b h = fields_agree entry b h
validate_usage_entry-usage_total null b h =
    absurd (unfold non_negative_integer in ground (arith, h))
validate_usage_entry-usage_total (boolean c) b h =
    absurd (unfold non_negative_integer in ground (arith, h))
validate_usage_entry-usage_total (int z) b h = counted (int z) b h
validate_usage_entry-usage_total (float f) b h =
    absurd (unfold non_negative_integer in ground (arith, h))
validate_usage_entry-usage_total (text s) b h = counted (text s) b h
validate_usage_entry-usage_total (array vs) b h =
    absurd (unfold non_negative_integer in ground (arith, h))
