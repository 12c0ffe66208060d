-- ===== src/Record/Tree/Shape.antt =====
-- The fuel of the tree's recursions: the number of leaves is enough, and more changes nothing. So each
-- function obeys the equation of its source.
use cloudy.Prelude.{
  ℕ, zero, suc, ◌-◌, ◌≡◌, ◌≤◌, ◌<◌, inl, inr, refl, arith, List, [], ◌∷◌, some, Option-cases,
  length, take, drop, length-take, length-drop,
}
use cloudy.Primitives.{Hash, Primitives}
use cloudy.Record.Tree.{largest_pow2_lt, node_hash, mth_fuel, mth}
use cloudy.Record.Tree.Split.{largest_pow2_lt-bounds}

-- The two parts into which a tree of two leaves or more is split.
pub halves_shorter {ℓ} :
    {A : Type ℓ} (xs : List A) {k : ℕ}
    → 2 ≤ length xs
    → largest_pow2_lt (length xs) ≡ some k
    → (length (take k xs) ≡ k) × (length (drop k xs) ≡ length xs - k) × (0 < k) × (k < length xs)
halves_shorter xs {k} big h =
    let (pos, below, _) = largest_pow2_lt-bounds (length xs) big h in
    (omega (arith, length-take k xs), length-drop k xs, pos, below)

module _ (p : Primitives) where
  mth_fuel-enough :
      (f g : ℕ) (xs : List Hash) → length xs ≤ f → length xs ≤ g → mth_fuel p f xs ≡ mth_fuel p g xs
  unfolding mth_fuel
  mth_fuel-enough zero zero xs h k = refl
  mth_fuel-enough zero (suc g) [] h k = refl
  mth_fuel-enough (suc f) zero [] h k = refl
  mth_fuel-enough zero (suc g) (x ∷ xs) h k = absurd (omega arith)
  mth_fuel-enough (suc f) zero (x ∷ xs) h k = absurd (omega arith)
  mth_fuel-enough (suc f) (suc g) [] h k = refl
  mth_fuel-enough (suc f) (suc g) (x ∷ []) h k = refl
  mth_fuel-enough (suc f) (suc g) (x ∷ y ∷ xs) h k =
      elim (Option-cases (largest_pow2_lt (length (x ∷ y ∷ xs)))) [
        | inl e ↦ rw (e, mth_fuel)
        | inr (n, e) ↦
            let (front, back, pos, below) = halves_shorter (x ∷ y ∷ xs) (omega arith) e in
            let left = mth_fuel-enough f g (take n (x ∷ y ∷ xs)) (omega arith) (omega arith) in
            let right = mth_fuel-enough f g (drop n (x ∷ y ∷ xs)) (omega arith) (omega arith) in
            ground (arith, e, left, right)
      ]

  -- The equation of mth for two leaves or more.
  pub mth-split :
      (xs : List Hash) {k : ℕ}
      → 2 ≤ length xs
      → largest_pow2_lt (length xs) ≡ some k
      → mth p xs ≡ node_hash p (mth p (take k xs)) (mth p (drop k xs))
  unfolding mth mth_fuel
  mth-split [] big e = absurd (omega arith)
  mth-split (x ∷ []) big e = absurd (omega arith)
  mth-split (x ∷ y ∷ xs) {k} big e =
      let (front, back, pos, below) = halves_shorter (x ∷ y ∷ xs) big e in
      let left =
        mth_fuel-enough (suc (length xs)) (length (take k (x ∷ y ∷ xs))) (take k (x ∷ y ∷ xs))
          (omega arith) (omega arith) in
      let right =
        mth_fuel-enough (suc (length xs)) (length (drop k (x ∷ y ∷ xs))) (drop k (x ∷ y ∷ xs))
          (omega arith) (omega arith) in
      ground (arith, e, left, right)
