-- ===== src/Dict.antt =====
-- Python's `dict` with text keys: the entries in the order of their first insertion.
use hy.Prelude.{
  ◌==◌, ◌+◌, ◌≤◌, String, ◌≡◌, refl, Option, none, some, List, [], ◌∷◌, arith, str_eq, str_eq_iff,
  str_eq_refl, Bool-cases, Option-cases, inl, inr, if◌then◌else◌, length, Bool, true, false, ◌&&◌,
}

abbrev pub Dict {ℓ} : Type ℓ → Type ℓ
Dict V = List (String × V)

module _ {ℓ} {V : Type ℓ} where
  -- d.get(k)
  unfoldable pub get : String → Dict V → Option V
  get k [] = none
  get k ((j, v) ∷ d) = if str_eq j k then some v else get k d

  -- d[k] = v
  unfoldable pub put : String → V → Dict V → Dict V
  put k v [] = (k, v) ∷ []
  put k v ((j, w) ∷ d) = if str_eq j k then (j, v) ∷ d else (j, w) ∷ put k v d

  -- d.pop(k, None)
  unfoldable pub remove : String → Dict V → Dict V
  remove k [] = []
  remove k ((j, v) ∷ d) = let rest = remove k d in if str_eq j k then rest else (j, v) ∷ rest

  -- all(p(k, v) for k, v in d.items())
  unfoldable pub all_items : (String → V → Bool) → Dict V → Bool
  all_items p [] = true
  all_items p ((k, v) ∷ d) = p k v && all_items p d

  -- {k: v for k, v in d.items() if p(k, v)}
  unfoldable pub keep_items : (String → V → Bool) → Dict V → Dict V
  keep_items p [] = []
  keep_items p ((k, v) ∷ d) = let rest = keep_items p d in if p k v then (k, v) ∷ rest else rest

  -- a == b, for values compared by `eq`
  unfoldable pub dict_eq : (V → V → Bool) → Dict V → Dict V → Bool
  unfolding get all_items
  dict_eq eq a b =
      length a == length b && all_items (λ k v. elim (get k b) [ none ↦ false | some w ↦ eq v w ]) a

  pub get-put :
      (k j : String) (v : V) (d : Dict V)
      → get j (put k v d) ≡ (if str_eq k j then some v else get j d)
  unfolding get put
  get-put k j v [] = refl
  get-put k j v ((i, w) ∷ d) =
      ground (arith, str_eq_iff k j, str_eq_iff i k, str_eq_iff i j, get-put k j v d)

  pub get-remove :
      (k j : String) (d : Dict V) → get j (remove k d) ≡ (if str_eq k j then none else get j d)
  unfolding get remove
  get-remove k j [] = ground arith
  get-remove k j ((i, w) ∷ d) =
      ground (arith, str_eq_iff k j, str_eq_iff i k, str_eq_iff i j, get-remove k j d)

  pub get-put_self : (k : String) (v : V) (d : Dict V) → get k (put k v d) ≡ some v
  get-put_self k v d = ground (arith, get-put k k v d, str_eq_refl k)

  pub put-put : (k : String) (v w : V) (d : Dict V) → put k w (put k v d) ≡ put k w d
  unfolding put
  put-put k v w [] = ground (arith, str_eq_refl k)
  put-put k v w ((j, x) ∷ d) = ground (arith, put-put k v w d, str_eq_refl j)

  pub length-put-le : (k : String) (v : V) (d : Dict V) → length (put k v d) ≤ length d + 1
  unfolding put
  length-put-le k v [] = omega arith
  length-put-le k v ((j, w) ∷ d) = ground (arith, length-put-le k v d)

  -- A key that is there is overwritten in place.
  pub length-put :
      (k : String) (v w : V) (d : Dict V) → get k d ≡ some w → length (put k v d) ≡ length d
  unfolding put get
  length-put k v w [] h = ground arith
  length-put k v w ((j, x) ∷ d) h = ground (arith, length-put k v w d)

  pub length-remove-le : (k : String) (d : Dict V) → length (remove k d) ≤ length d
  unfolding remove
  length-remove-le k [] = omega arith
  length-remove-le k ((j, w) ∷ d) = ground (arith, length-remove-le k d)

  pub all_items-put :
      (p : String → V → Bool) (k : String) (v : V) (d : Dict V)
      → p k v ≡ true
      → all_items p d ≡ true
      → all_items p (put k v d) ≡ true
  unfolding all_items put
  all_items-put p k v [] q h = ground arith
  all_items-put p k v ((j, w) ∷ d) q h = ground (arith, all_items-put p k v d q, str_eq_iff j k)

  pub all_items-remove :
      (p : String → V → Bool) (k : String) (d : Dict V)
      → all_items p d ≡ true
      → all_items p (remove k d) ≡ true
  unfolding all_items remove
  all_items-remove p k [] h = refl
  all_items-remove p k ((j, w) ∷ d) h = ground (arith, all_items-remove p k d)

  pub all_items-get :
      (p : String → V → Bool) (k : String) (v : V) (d : Dict V)
      → all_items p d ≡ true
      → get k d ≡ some v
      → p k v ≡ true
  unfolding all_items get
  all_items-get p k v [] h e = ground arith
  all_items-get p k v ((j, w) ∷ d) h e = ground (arith, all_items-get p k v d, str_eq_iff j k)

module _ {ℓ} {V : Type ℓ} (eq : V → V → Bool) where
  pub dict_eq-get :
      (k : String) (v : V) (a b : Dict V)
      → dict_eq eq a b ≡ true
      → get k a ≡ some v
      → (w : V) × (get k b ≡ some w) × (eq v w ≡ true)
  unfolding dict_eq
  dict_eq-get k v a b e here = elim (Option-cases (get k b)) [
    | inl gone ↦ absurd (ground (arith, found, gone))
    | inr (w, there) ↦ (w, there, ground (arith, found, there))
  ]
    where
      found : (elim (get k b) [ none ↦ false | some w ↦ eq v w ]) ≡ true
      found =
          all_items-get (λ k v. elim (get k b) [ none ↦ false | some w ↦ eq v w ]) k v a
            (ground arith) here

-- A `dict` has one entry for a key.
abbrev pub Distinct {ℓ} : {V : Type ℓ} → Dict V → Type ℓ
Distinct [] = Unit
Distinct ((k, v) ∷ d) = (get k d ≡ none) × Distinct d

module _ {ℓ} {V : Type ℓ} where
  pub put-Distinct : (k : String) (v : V) (d : Dict V) → Distinct d → Distinct (put k v d)
  unfolding put
  put-Distinct k v [] u = (unfold get in refl, tt)
  put-Distinct k v ((j, w) ∷ d) u = elim (Bool-cases (str_eq j k)) [
    | inl e ↦ rw e u
    | inr e ↦
        rw e
          (ground (arith, get-put k j v d, str_eq_iff j k, str_eq_iff k j), put-Distinct k v d u.1)
  ]

  pub remove-Distinct : (k : String) (d : Dict V) → Distinct d → Distinct (remove k d)
  unfolding remove
  remove-Distinct k [] u = tt
  remove-Distinct k ((j, w) ∷ d) u = elim (Bool-cases (str_eq j k)) [
    | inl e ↦ rw e (remove-Distinct k d u.1)
    | inr e ↦ rw e (ground (arith, get-remove k j d), remove-Distinct k d u.1)
  ]

module _ {ℓ} {V : Type ℓ} (p : String → V → Bool) where
  pub get-keep_items :
      (k : String) (v : V) (d : Dict V)
      → get k d ≡ some v
      → p k v ≡ true
      → get k (keep_items p d) ≡ some v
  unfolding get keep_items
  get-keep_items k v [] h l = absurd (ground arith)
  get-keep_items k v ((j, w) ∷ d) h l = ground (arith, get-keep_items k v d, str_eq_iff j k)

  pub keep_items-get :
      (k : String) (v : V) (d : Dict V) → get k (keep_items p d) ≡ some v → p k v ≡ true
  unfolding get keep_items
  keep_items-get k v [] h = absurd (ground arith)
  keep_items-get k v ((j, w) ∷ d) h = ground (arith, keep_items-get k v d, str_eq_iff j k)

  pub all_items-keep_items_self : (d : Dict V) → all_items p (keep_items p d) ≡ true
  unfolding all_items keep_items
  all_items-keep_items_self [] = refl
  all_items-keep_items_self ((j, w) ∷ d) = ground (arith, all_items-keep_items_self d)

  pub all_items-keep_items :
      (q : String → V → Bool) (d : Dict V)
      → all_items q d ≡ true
      → all_items q (keep_items p d) ≡ true
  unfolding all_items keep_items
  all_items-keep_items q [] h = refl
  all_items-keep_items q ((j, w) ∷ d) h = ground (arith, all_items-keep_items q d)

  pub length-keep_items : (d : Dict V) → length (keep_items p d) ≤ length d
  unfolding keep_items
  length-keep_items [] = omega arith
  length-keep_items ((j, w) ∷ d) = ground (arith, length-keep_items d)

  -- A filter that drops nothing.
  pub all_items-length : (d : Dict V) → length (keep_items p d) ≡ length d → all_items p d ≡ true
  unfolding all_items keep_items
  all_items-length [] h = refl
  all_items-length ((j, w) ∷ d) h = ground (arith, all_items-length d, length-keep_items d)

-- A filter on the keys alone.
pub get-keep_items_key {ℓ} :
    {V : Type ℓ} (p : String → Bool) (j : String) (d : Dict V)
    → get j (keep_items (λ k v. p k) d) ≡ (if p j then get j d else none)
unfolding get keep_items
get-keep_items_key p j [] = ground arith
get-keep_items_key p j ((k, v) ∷ d) = elim (Bool-cases (str_eq k j)) [
  | inl e ↦ elim (Bool-cases (p j)) [
    | inl h ↦ ground (arith, e, h, (str_eq_iff k j).0 e)
    | inr h ↦ ground (arith, e, h, (str_eq_iff k j).0 e, get-keep_items_key p j d)
  ]
  | inr e ↦ ground (arith, e, get-keep_items_key p j d)
]
