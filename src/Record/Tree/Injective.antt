-- ===== src/Record/Tree/Injective.antt =====
-- A tree head determines its leaves, for a known number of them, but for a collision of the node hash among
-- the pairs that mth hashes.
use cloudy.Prelude.{
  ℕ, zero, suc, ◌^◌, ◌≡◌, ◌≤◌, ◌⊎◌, inl, inr, refl, ap, sym, ◌∙◌, arith, List, [], ◌∷◌, some,
  Bool-cases, length, take, drop, leb,
}
use cloudy.Primitives.{Hash, IsHash, Primitives}
use cloudy.Record.Tree.{largest_pow2_lt, mth_fuel, mth}
use cloudy.Record.Tree.Split.{largest_pow2_lt_lem}
use cloudy.Record.Tree.Shape.{halves_shorter, mth-split}
use cloudy.Record.Tree.Lists.{eq-of-parts}
use cloudy.Record.Tree.Hashed.{InTree, in_root, in_take, in_drop}
use cloudy.Record.Tree.Binding.{Collision, node_hash-parts}

module _ (p : Primitives) where
  single_leaf :
      (xs ys : List Hash) → length ys ≡ length xs → length xs ≤ 1 → mth p ys ≡ mth p xs → ys ≡ xs
  unfolding mth mth_fuel
  single_leaf [] [] e small h = refl
  single_leaf (x ∷ []) (y ∷ []) e small h = ap (λ a. a ∷ []) h
  single_leaf [] (y ∷ ys) e small h = absurd (omega arith)
  single_leaf (x ∷ xs) [] e small h = absurd (omega arith)
  single_leaf (x ∷ x' ∷ xs) (y ∷ ys) e small h = absurd (omega arith)
  single_leaf (x ∷ []) (y ∷ y' ∷ ys) e small h = absurd (omega arith)

module _ (p : Primitives) (S : Hash → Hash → Type 0)
    (fits : (a b : Hash) → S a b → IsHash a × IsHash b) where
  abbrev SameHead : List Hash → List Hash → Type 0
  SameHead xs ys =
      ((a b : Hash) → InTree p xs a b → S a b)
      → ((a b : Hash) → InTree p ys a b → S a b)
      → length ys ≡ length xs
      → mth p ys ≡ mth p xs
      → (ys ≡ xs) ⊎ Collision p S

  SameHead-split :
      (xs ys : List Hash) {k : ℕ}
      → 2 ≤ length xs
      → largest_pow2_lt (length xs) ≡ some k
      → SameHead (take k xs) (take k ys)
      → SameHead (drop k xs) (drop k ys)
      → SameHead xs ys
  SameHead-split xs ys {k} big e ih_front ih_back in_xs in_ys long same =
      let (front, back, _, _) = halves_shorter xs big e in
      let e' : largest_pow2_lt (length ys) ≡ some k = ap largest_pow2_lt long ∙ e in
      let (front', back', _, _) = halves_shorter ys (omega arith) e' in
      let big' : 2 ≤ length ys = omega arith in
      elim (node_hash-parts p S fits _ _ _ _ (in_ys _ _ (in_root ys _ _ k big' e' refl refl))
        (in_xs _ _ (in_root xs _ _ k big e refl refl))
        (sym (mth-split p ys (omega arith) e') ∙ (same ∙ mth-split p xs big e))) [
          | inr c ↦ inr c
          | inl (f, b) ↦
              elim (ih_front (λ a b h. in_xs a b (in_take xs a b k big e h))
                (λ a b h. in_ys a b (in_take ys a b k big' e' h)) (omega arith) f) [
                  | inr c ↦ inr c
                  | inl f' ↦
                      elim (ih_back (λ a b h. in_xs a b (in_drop xs a b k big e h))
                        (λ a b h. in_ys a b (in_drop ys a b k big' e' h)) (omega arith) b) [
                          | inr c ↦ inr c
                          | inl b' ↦ inl (eq-of-parts k ys xs f' b')
                        ]
                ]
        ]

  pub mth-injective :
      (f : ℕ) (xs ys : List Hash) → length xs ≤ f → length xs ≤ 9223372036854775808 → SameHead xs ys
  mth-injective zero xs ys enough small in_xs in_ys long same =
      inl (single_leaf p xs ys long (omega arith) same)
  mth-injective (suc f) xs ys enough small in_xs in_ys long same =
      elim (Bool-cases (leb (length xs) 1)) [
        | inl one ↦ inl (single_leaf p xs ys long (ground arith) same)
        | inr many ↦
            let big : 2 ≤ length xs = ground arith in
            let (d, e, _, _) = largest_pow2_lt_lem (length xs) big small in
            let (front, back, pos, below) = halves_shorter xs big e in
            SameHead-split xs ys big e
              (mth-injective f (take (2 ^ d) xs) (take (2 ^ d) ys) (omega (arith, front))
                (omega (arith, front)))
              (mth-injective f (drop (2 ^ d) xs) (drop (2 ^ d) ys) (omega (arith, back, pos))
                (omega (arith, back)))
              in_xs in_ys long same
      ]
