-- ===== src/Alerts/Claims.antt =====
-- What the alert state says of one kind and user, and how the transactions change it.
use mathlib.Core.Path.{subst}
use hy.Prelude.{
  String, true, ◌≡◌, refl, ◌∙◌, sym, ap, inl, inr, Option, some, List, [], ◌∷◌, arith, str_eq,
  str_eq_iff, if◌then◌else◌, Option-cases,
}
use hy.Dict.{get, put, get-put, dict_eq, dict_eq-get}
use hy.Store.{ok, File, holds, Host, load_strict, transact_atomic}
use hy.Alerts.{
  Entry, Bucket, State, state_keys, state_valid, setdefault, with_defaults, bucket_of, entry_eq,
  state_eq, mutate_body, mutate_state,
}

bucket_of-put :
    (k j : String) (b : Bucket) (s : State)
    → bucket_of j (put k b s) ≡ (if str_eq k j then b else bucket_of j s)
unfolding bucket_of
bucket_of-put k j b s = ground (arith, get-put k j b s)

setdefault_bucket : (k j : String) (s : State) → bucket_of j (setdefault k s) ≡ bucket_of j s
unfolding setdefault bucket_of
setdefault_bucket k j s = elim (Option-cases (get k s)) [
  | inl e ↦ ground (arith, e, get-put k j [] s, str_eq_iff k j)
  | inr (b, e) ↦ ground (arith, e)
]

pub with_defaults_bucket :
    (ks : List String) (j : String) (s : State) → bucket_of j (with_defaults ks s) ≡ bucket_of j s
unfolding with_defaults
with_defaults_bucket [] j s = refl
with_defaults_bucket (k ∷ ks) j s =
    with_defaults_bucket ks j (setdefault k s) ∙ setdefault_bucket k j s

-- What the state says of a kind and a user.
unfoldable pub entry_at : String → String → State → Option Entry
unfolding bucket_of get
entry_at kind user s = get user (bucket_of kind s)

pub entry_at-defaults :
    (kind user : String) (s : State)
    → entry_at kind user (with_defaults state_keys s) ≡ entry_at kind user s
unfolding entry_at
entry_at-defaults kind user s = ap (get user) (with_defaults_bucket state_keys kind s)

-- A write to one entry.
pub entry_at-put :
    (kind user k u : String) (b : Bucket) (s : State)
    → entry_at kind user (put k b s) ≡ (if str_eq k kind then get user b else entry_at kind user s)
unfolding entry_at
entry_at-put kind user k u b s = ground (arith, bucket_of-put k kind b s)

-- An entry of a state that equals another one stands in the other, up to equality.
pub entry_at-state_eq :
    (kind user : String) (e : Entry) (a b : State)
    → state_eq a b ≡ true
    → entry_at kind user a ≡ some e
    → (f : Entry) × (entry_at kind user b ≡ some f) × (entry_eq e f ≡ true)
unfolding state_eq entry_at bucket_of
entry_at-state_eq kind user e a b same here = elim (Option-cases (get kind a)) [
  | inl gone ↦ absurd (ground (arith, gone))
  | inr (bucket, there) ↦
      let (bucket', there', same') = dict_eq-get (dict_eq entry_eq) kind bucket a b same there in
      let inside : get user bucket ≡ some e = ground (arith, there) in
      let (f, found, eq) = dict_eq-get entry_eq user e bucket bucket' same' inside in
      (f, ground (arith, there'), eq)
]

module _ {A : Type 0} (P : State → Type 0)
    (defaults : (s : State) → P s → P (with_defaults state_keys s)) (m : State → A × State)
    (keeps : (s : State) → P s → P (m s).1) where
  -- The states that the file may load satisfy `P`.
  abbrev pub Loads : File State → Type 0
  Loads file = (s : State) → load_strict state_valid [] file ≡ ok s → P s

  holds_loads : (new s : State) → load_strict state_valid [] (holds new) ≡ ok s → s ≡ new
  unfolding load_strict
  holds_loads new s h = ground arith

  body_saved : (s : State) (a : A) (new : State) → mutate_body m s ≡ ok (a, some new) → P s → P new
  unfolding mutate_body
  body_saved s a new h p =
      subst P (ground arith) (keeps (with_defaults state_keys s) (defaults s p))

  -- A transaction keeps what its mutator keeps.
  pub mutate_state_keeps :
      (host : Host) (file : File State) → Loads file → Loads (mutate_state m host file).1
  unfolding mutate_state
  mutate_state_keeps host file l = elim (transact_atomic state_valid [] (mutate_body m) host file) [
    | inl same ↦ rw same l
    | inr (s, a, new, e, b, w) ↦
        rw w (λ s' e'. subst P (sym (holds_loads new s' e')) (body_saved s a new b (l s e)))
  ]
