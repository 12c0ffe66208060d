-- ===== src/Prelude/Table.antt =====
-- Go maps whose keys are not numbers: association lists over any type with an equality test.
use cloudy.Prelude.{
  ◌≡◌, refl, Bool, true, inl, inr, Bool-cases, Option, none, some, List, [], ◌∷◌, arith,
  if◌then◌else◌,
}

-- What the keys of a map have: a test that decides their equality.
pub record Key (K : Type 0) : Type 0 where
  pub same : K → K → Bool
  pub same_exact : (a b : K) → same a b ≡ true → a ≡ b
  pub same_refl : (a : K) → same a a ≡ true

abbrev pub Table : Type 0 → Type 0 → Type 0
Table K V = List (K × V)

same_left :
    {K : Type 0} ⦃key : Key K⦄ (a b c : K) → key.same a b ≡ true → key.same a c ≡ key.same b c
same_left ⦃key⦄ a b c h = rw (key.same_exact a b h) refl

same_right :
    {K : Type 0} ⦃key : Key K⦄ (a b c : K) → key.same b c ≡ true → key.same a b ≡ key.same a c
same_right ⦃key⦄ a b c h = rw (key.same_exact b c h) refl

module _ {K V : Type 0} ⦃key : Key K⦄ where
  -- v, ok := m[k]
  unfoldable pub find : K → Table K V → Option V
  find wanted [] = none
  find wanted ((name, held) ∷ rest) = if key.same name wanted then some held else find wanted rest

  -- m[k] = v
  unfoldable pub write : K → V → Table K V → Table K V
  write name new [] = (name, new) ∷ []
  write name new ((old, held) ∷ rest) =
      if key.same old name then (name, new) ∷ rest else (old, held) ∷ write name new rest

  -- delete(m, k)
  unfoldable pub remove : K → Table K V → Table K V
  remove name [] = []
  remove name ((old, held) ∷ rest) =
      let others = remove name rest in if key.same old name then others else (old, held) ∷ others

  pub find-write :
      (name other : K) (new : V) (m : Table K V)
      → find other (write name new m) ≡ (if key.same name other then some new else find other m)
  unfolding find write
  find-write name other new [] = refl
  find-write name other new ((old, held) ∷ rest) = elim (Bool-cases (key.same old name)) [
    | inl e ↦ ground (arith, e, same_left old name other e)
    | inr e ↦ elim (Bool-cases (key.same name other)) [
      | inl k ↦ ground (arith, e, k, same_right old name other k, find-write name other new rest)
      | inr k ↦ ground (arith, e, k, find-write name other new rest)
    ]
  ]

  pub find-remove :
      (name other : K) (m : Table K V)
      → find other (remove name m) ≡ (if key.same name other then none else find other m)
  unfolding find remove
  find-remove name other [] = ground arith
  find-remove name other ((old, held) ∷ rest) = elim (Bool-cases (key.same old name)) [
    | inl e ↦ ground (arith, e, same_left old name other e, find-remove name other rest)
    | inr e ↦ elim (Bool-cases (key.same name other)) [
      | inl k ↦ ground (arith, e, k, same_right old name other k, find-remove name other rest)
      | inr k ↦ ground (arith, e, k, find-remove name other rest)
    ]
  ]

  -- m[k], with the zero value `zero` for a missing key
  unfoldable pub get_or : V → K → Table K V → V
  get_or zero wanted m = elim (find wanted m) [ none ↦ zero | some held ↦ held ]

  pub get_or-write :
      (zero : V) (name other : K) (new : V) (m : Table K V)
      → get_or zero other (write name new m)
        ≡ (if key.same name other then new else get_or zero other m)
  unfolding get_or
  get_or-write zero name other new m = ground (arith, find-write name other new m)
