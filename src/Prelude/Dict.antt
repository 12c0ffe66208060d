-- ===== src/Prelude/Dict.antt =====
-- Go maps keyed by numbers, as association lists. A write replaces the entry of its key.
use cloudy.Prelude.{
  ℕ, ◌≡◌, refl, Bool, true, false, ◌⊎◌, inl, inr, Option, none, some, Option-cases, List, [], ◌∷◌,
  arith, ◌==◌, if◌then◌else◌,
}
use cloudy.Prelude.Int.{ℤ, pos, ◌+ℤ◌, int_laws}

abbrev pub Dict {ℓ} : Type ℓ → Type ℓ
Dict V = List (ℕ × V)

module _ {ℓ} {V : Type ℓ} where
  -- v, ok := m[k]
  unfoldable pub lookup : ℕ → Dict V → Option V
  lookup key [] = none
  lookup key ((name, held) ∷ rest) = if name == key then some held else lookup key rest

  -- m[k], with the zero value `d` for a missing key
  unfoldable pub get : V → ℕ → Dict V → V
  get d k [] = d
  get d k ((j, v) ∷ m) = if j == k then v else get d k m

  -- m[k] = v
  unfoldable pub insert : ℕ → V → Dict V → Dict V
  insert key new [] = (key, new) ∷ []
  insert key new ((name, held) ∷ rest) =
      if name == key then (key, new) ∷ rest else (name, held) ∷ insert key new rest

  pub lookup-insert :
      (key other : ℕ) (new : V) (d : Dict V)
      → lookup other (insert key new d) ≡ (if key == other then some new else lookup other d)
  unfolding lookup insert
  lookup-insert key other new [] = refl
  lookup-insert key other new (_ ∷ rest) = ground (arith, lookup-insert key other new rest)

  pub get-insert :
      (d : V) (k j : ℕ) (v : V) (m : Dict V)
      → get d j (insert k v m) ≡ (if k == j then v else get d j m)
  unfolding get insert
  get-insert d k j v [] = refl
  get-insert d k j v ((i, w) ∷ m) = ground (arith, get-insert d k j v m)

-- The sum of all values.
unfoldable pub total : Dict ℤ → ℤ
total [] = pos 0
total ((_, v) ∷ m) = v +ℤ total m

pub total-insert :
    (k : ℕ) (v : ℤ) (m : Dict ℤ) → total (insert k v m) +ℤ get (pos 0) k m ≡ total m +ℤ v
unfolding total insert get
total-insert k v [] = omega int_laws
total-insert k v ((j, w) ∷ m) = grind (int_laws, total-insert k v m)

module _ {ℓ} {V : Type ℓ} where
  -- _, ok := m[k]
  unfoldable pub has : ℕ → Dict V → Bool
  unfolding lookup
  has k m = elim (lookup k m) [ none ↦ false | some _ ↦ true ]

  -- delete(m, k)
  unfoldable pub delete : ℕ → Dict V → Dict V
  delete k [] = []
  delete k ((j, v) ∷ m) = let rest = delete k m in if j == k then rest else (j, v) ∷ rest

  pub lookup-delete :
      (k j : ℕ) (m : Dict V) → lookup j (delete k m) ≡ (if k == j then none else lookup j m)
  unfolding lookup delete
  lookup-delete k j [] = ground arith
  lookup-delete k j ((i, w) ∷ m) = ground (arith, lookup-delete k j m)

  pub has-insert :
      (k j : ℕ) (v : V) (m : Dict V) → has j (insert k v m) ≡ (if k == j then true else has j m)
  unfolding has
  has-insert k j v m = ground (arith, lookup-insert k j v m)

  pub has-cases :
      (k : ℕ) (m : Dict V)
      → ((v : V) × (lookup k m ≡ some v) × (has k m ≡ true))
        ⊎ ((lookup k m ≡ none) × (has k m ≡ false))
  unfolding has
  has-cases k m = elim (Option-cases (lookup k m)) [
    | inl e ↦ inr (e, ground arith)
    | inr (v, e) ↦ inl (v, e, ground arith)
  ]

pub get-lookup :
    {V : Type 0} (d : V) (k : ℕ) (m : Dict V)
    → get d k m ≡ elim (lookup k m) [ none ↦ d | some v ↦ v ]
unfolding get lookup
get-lookup d k [] = refl
get-lookup d k ((j, v) ∷ m) = ground (arith, get-lookup d k m)
