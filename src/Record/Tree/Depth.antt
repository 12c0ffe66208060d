-- ===== src/Record/Tree/Depth.antt =====
-- An audit path is no longer than the tree is deep.
use native.Mathlib.Nat.{one-le-pow, pow-le-pow_right}
use native.Mathlib.Decide.{dec_le}
use cloudy.Prelude.{
  ℕ, zero, suc, ◌-◌, ◌*◌, ◌^◌, ◌≡◌, ◌≤◌, ◌<◌, inl, inr, refl, arith, List, [], ◌∷◌, some, length,
  length-append, take, drop, ltb, Bool-cases,
}
use cloudy.Primitives.{Hash, Primitives}
use cloudy.Record.Tree.{largest_pow2_lt, mth, prove_path_fuel, prove_path}
use cloudy.Record.Tree.Split.{largest_pow2_lt_lem}
use cloudy.Record.Tree.Shape.{halves_shorter}
use cloudy.Record.Tree.Inclusion.{prove_path-left, prove_path-right}

module _ (p : Primitives) where
  half_pow2 : (e d : ℕ) → 2 ^ e < 2 ^ d → (c : ℕ) × (d ≡ suc c) × (2 ^ e ≤ 2 ^ c)
  half_pow2 e zero h = absurd (omega (arith, one-le-pow e 2 (omega arith)))
  half_pow2 e (suc c) h = elim (dec_le e c) [
    | yes small ↦ (c, refl, pow-le-pow_right (omega arith) small)
    | no large ↦
        let above : 2 ^ suc c ≤ 2 ^ e = pow-le-pow_right (omega arith) (omega arith) in
        absurd (omega arith)
  ]

  length-prove_path_fuel :
      (f d m : ℕ) (xs : List Hash)
      → length xs ≤ 9223372036854775808
      → length xs ≤ 2 ^ d
      → length (prove_path_fuel p f m xs) ≤ d
  length-prove_path_fuel zero d m xs small h = unfold prove_path_fuel in omega arith
  length-prove_path_fuel (suc f) d m [] small h = unfold prove_path_fuel in omega arith
  length-prove_path_fuel (suc f) d m (x ∷ []) small h = unfold prove_path_fuel in omega arith
  length-prove_path_fuel (suc f) d m (x ∷ y ∷ xs) small h =
      let (e, found, below, half) = largest_pow2_lt_lem (length (x ∷ y ∷ xs)) (omega arith) small in
      let (c, same, fits) = half_pow2 e d (omega arith) in
      path_step (2 ^ e) found below half c same fits (λ m ys. length-prove_path_fuel f c m ys)
    where
      path_step :
          (k : ℕ)
          → largest_pow2_lt (length (x ∷ y ∷ xs)) ≡ some k
          → k < length (x ∷ y ∷ xs)
          → length (x ∷ y ∷ xs) ≤ k * 2
          → (c : ℕ) → d ≡ suc c
          → k ≤ 2 ^ c
          → ((m : ℕ) (ys : List Hash)
              → length ys ≤ 9223372036854775808
              → length ys ≤ 2 ^ c
              → length (prove_path_fuel p f m ys) ≤ c)
          → length (prove_path_fuel p (suc f) m (x ∷ y ∷ xs)) ≤ d
      path_step k e below half c same fits ih =
          let (front, back, _, _) = halves_shorter (x ∷ y ∷ xs) (omega arith) e in
          elim (Bool-cases (ltb m k)) [
            | inl l ↦ rw (prove_path-left p f m (x ∷ y ∷ xs) (omega arith) e (ground arith)) (
                omega (
                  arith,
                  ih m (take k (x ∷ y ∷ xs)) (omega (arith, front)) (omega (arith, front)),
                  length-append (prove_path_fuel p f m (take k (x ∷ y ∷ xs)))
                      (mth p (drop k (x ∷ y ∷ xs)) ∷ []),
                ))
            | inr l ↦ rw (prove_path-right p f m (x ∷ y ∷ xs) (omega arith) e (ground arith)) (
                omega (
                  arith,
                  ih (m - k) (drop k (x ∷ y ∷ xs)) (omega (arith, back)) (omega (arith, back)),
                  length-append (prove_path_fuel p f (m - k) (drop k (x ∷ y ∷ xs)))
                      (mth p (take k (x ∷ y ∷ xs)) ∷ []),
                ))
          ]

  -- The audit path of a leaf among at most 2^d, and at most 2^63, leaves holds at most d hashes.
  length-prove_path :
      (d m : ℕ) (xs : List Hash)
      → length xs ≤ 9223372036854775808
      → length xs ≤ 2 ^ d
      → length (prove_path p m xs) ≤ d
  unfolding prove_path
  length-prove_path d m xs small h = length-prove_path_fuel (length xs) d m xs small h
