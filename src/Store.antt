-- ===== src/Store.antt =====
-- hysteria/state_store.py: a JSON state file under its advisory lock.
-- A file that is absent, that cannot be read as data of the expected shape, whose reading raises an
-- exception that its reader does not turn into its own (the plain ValueError of an integer of more than
-- 4300 digits, a RecursionError, an OverflowError), or that holds data. What
-- the host does to one transaction is an argument: whether the lock is obtained before its deadline,
-- and what becomes of an atomic replacement.
use hy.Prelude.{
  arith, ◌≡◌, refl, Bool, true, false, Option, none, some, if◌then◌else◌, ◌⊎◌, inl, inr, Bool-cases,
}

pub data Fault : Type 0 where
  lock_timeout invalid_state write_failed durability_uncertain : Fault
  value_error permission_error capacity_error : Fault
  overflow_error attribute_error type_error recursion_error : Fault
  state_unavailable invalid_request : Fault

-- A value returned, or an exception raised.
pub data Result {ℓ} (A : Type ℓ) : Type ℓ where
  err : Fault → Result A
  ok : A → Result A

infixl 5 ◌>>=◌
abbrev pub ◌>>=◌ {ℓ κ} : {A : Type ℓ} → {B : Type κ} → Result A → (A → Result B) → Result B
err fault >>= next = err fault
ok value >>= next = next value

-- A chain returns only if its first step does, and then as the second one does on its value.
pub >>=-ok {ℓ κ} :
    {A : Type ℓ}
    → {B : Type κ} → (r : Result A) (next : A → Result B) {last : B} → (r >>= next) ≡ ok last
    → (value : A) × (r ≡ ok value) × (next value ≡ ok last)
>>=-ok (err fault) next e = absurd (ground arith)
>>=-ok (ok value) next e = (value, refl, e)

pub Result-cases {ℓ} :
    {A : Type ℓ} (r : Result A) → ((a : A) × (r ≡ ok a)) ⊎ ((e : Fault) × (r ≡ err e))
Result-cases (ok a) = inl (a, refl)
Result-cases (err e) = inr (e, refl)

pub data File {ℓ} (D : Type ℓ) : Type ℓ where
  absent : File D
  corrupt : File D
  raises : Fault → File D
  holds : D → File D

-- An `os.replace` that is durable, that never happens, or that happens and is followed by a failure
-- (of the directory's fsync, or of the mode change after it).
pub data Save : Type 0 where
  durable refused uncertain : Save

pub record Host : Type 0 where
  pub locked : Bool
  pub save : Save

abbrev pub calm : Host
calm = record { locked = true; save = durable }

module _ {ℓ} {D : Type ℓ} where
  -- A missing file, for the argument `required` of `load_json_strict`.
  abbrev missing : Bool → D → Result D
  missing required default = if required then err invalid_state else ok default

  -- `load_json_strict` with `required=False`, as its callers have it, and the module's own validation of
  -- what was read.
  unfoldable pub load_strict : (D → Bool) → D → File D → Result D
  load_strict valid default absent = missing false default
  load_strict valid default corrupt = err invalid_state
  load_strict valid default (raises f) = err f
  load_strict valid default (holds d) = if valid d then ok d else err invalid_state

  -- `save_json`
  unfoldable pub save_json {κ} : {A : Type κ} → Save → A → D → File D → Result A × File D
  save_json durable a new old = (ok a, holds new)
  save_json refused a new old = (err write_failed, old)
  save_json uncertain a new old = (err durability_uncertain, holds new)

  -- The end of a transaction: what its body returns, and what it saves, if it does.
  unfoldable pub finish {κ} :
      {A : Type κ} → Save → Result (A × Option D) → File D → Result A × File D
  unfolding save_json
  finish s (err e) old = (err e, old)
  finish s (ok (a, none)) old = (ok a, old)
  finish s (ok (a, some new)) old = save_json s a new old

  -- `with file_lock(...)`: load, compute, save.
  unfoldable pub transact {κ} :
      {A : Type κ}
      → (D → Bool)
      → D
      → (D → Result (A × Option D))
      → Host
      → File D
      → Result A × File D
  unfolding load_strict finish
  transact valid default body host file =
      if host.locked
      then finish host.save (load_strict valid default file >>= body) file
      else (err lock_timeout, file)

module _ {ℓ} {D : Type ℓ} where
  finish_atomic {κ} :
      {A : Type κ} (s : Save) (r : Result (A × Option D)) (file : File D)
      → ((finish s r file).1 ≡ file)
        ⊎ ((a : A) × (d : D) × (r ≡ ok (a, some d)) × ((finish s r file).1 ≡ holds d))
  unfolding finish
  finish_atomic s (err e) file = inl refl
  finish_atomic s (ok (a, none)) file = inl refl
  finish_atomic durable (ok (a, some d)) file = inr (a, d, refl, refl)
  finish_atomic refused (ok (a, some d)) file = inl refl
  finish_atomic uncertain (ok (a, some d)) file = inr (a, d, refl, refl)

  module _ {κ} {A : Type κ} (valid : D → Bool) (default : D)
      (body : D → Result (A × Option D)) where
    -- What a transaction may do to the file: nothing, or replace it by what its body computed from
    -- the data that the file held.
    abbrev pub Replaces : File D → File D → Type (ℓ ⊔ κ)
    Replaces file file' =
        (file' ≡ file)
        ⊎ ((d : D) × (a : A) × (new : D) × (load_strict valid default file ≡ ok d)
            × (body d ≡ ok (a, some new))
            × (file' ≡ holds new))

    replaced :
        (s : Save) (file : File D)
        → Replaces file (finish s (load_strict valid default file >>= body) file).1
    replaced s file = elim (finish_atomic s (load_strict valid default file >>= body) file) [
      | inl same ↦ inl same
      | inr (a, new, e, w) ↦
          let step = >>=-ok (load_strict valid default file) body e in
          inr (step.0, a, new, step.1, step.2, w)
    ]

    -- Whatever the host does, the file is left alone or replaced whole.
    pub transact_atomic :
        (host : Host) (file : File D) → Replaces file (transact valid default body host file).1
    unfolding transact
    transact_atomic host file = elim (Bool-cases host.locked) [
      | inl e ↦ rw e (replaced host.save file)
      | inr e ↦ rw e (inl refl)
    ]

  finish_ok {κ} :
      {A : Type κ} (s : Save) (r : Result (A × Option D)) (a : A) (file file' : File D)
      → finish s r file ≡ (ok a, file')
      → ((r ≡ ok (a, none)) × (file' ≡ file)) ⊎ ((d : D) × (r ≡ ok (a, some d)) × (file' ≡ holds d))
  unfolding finish
  finish_ok s (err e) a file file' h = absurd (ground arith)
  finish_ok s (ok (b, none)) a file file' h = inl (ground arith, ground arith)
  finish_ok durable (ok (b, some d)) a file file' h = inr (d, ground arith, ground arith)
  finish_ok refused (ok (b, some d)) a file file' h = absurd (ground arith)
  finish_ok uncertain (ok (b, some d)) a file file' h = absurd (ground arith)

  -- A transaction that returns has loaded the file, and its body's data, if any, is in the file.
  pub transact_ok {κ} :
      {A : Type κ} (valid : D → Bool) (default : D) (body : D → Result (A × Option D)) (host : Host)
      (file : File D) (a : A) (file' : File D)
      → transact valid default body host file ≡ (ok a, file')
      → (d : D) × (load_strict valid default file ≡ ok d)
        × (((body d ≡ ok (a, none)) × (file' ≡ file))
            ⊎ ((new : D) × (body d ≡ ok (a, some new)) × (file' ≡ holds new)))
  unfolding transact
  transact_ok valid default body host file a file' h = elim (Bool-cases host.locked) [
    | inr e ↦ absurd (ground arith)
    | inl e ↦
        elim (finish_ok host.save (load_strict valid default file >>= body) a file file'
          (ground arith)) [
            | inl (r, w) ↦
                let (d, l, b) = >>=-ok (load_strict valid default file) body r in (d, l, inl (b, w))
            | inr (new, r, w) ↦
                let (d, l, b) = >>=-ok (load_strict valid default file) body r in
                (d, l, inr (new, b, w))
          ]
  ]
