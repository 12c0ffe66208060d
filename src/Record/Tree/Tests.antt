-- ===== src/Record/Tree/Tests.antt =====
-- The second case of the binding theorems at a small tree: with two leaves and an honest audit path, one pair
-- is hashed, whatever the hash function is.
use cloudy.Prelude.{
  ℕ, zero, suc, ◌≡◌, ◌≢◌, ◌≤◌, ◌⊎◌, inl, inr, refl, ap, sym, ◌∙◌, List, [], ◌∷◌, some, length,
  length-take, length-drop, arith,
}
use cloudy.Primitives.{Hash, hash_bytes, Primitives}
use cloudy.Record.Tree.{double_below, largest_pow2_lt, unsnoc, mth_fuel, mth, root_from_path_fuel}
use cloudy.Record.Tree.Hashed.{
  InTree, in_root, in_take, in_drop, InPath, at_left, at_right, under_left, under_right,
}
use cloudy.Record.Tree.Binding
use cloudy.Record.Tree.Binding.{Collision}

split_two : largest_pow2_lt 2 ≡ some 1
unfolding largest_pow2_lt double_below
split_two = refl

at_one : {k : ℕ} → largest_pow2_lt 2 ≡ some k → k ≡ 1
at_one e = ground (arith, e, split_two)

no_siblings :
    {x s : Hash} {rest : List Hash} → unsnoc (x ∷ []) ≡ some (rest, s) → (rest ≡ []) × (s ≡ x)
unfolding unsnoc
no_siblings e = (ground (arith, e), ground (arith, e))

module _ (p : Primitives) (x y : Hash) where
  abbrev Only : Hash → Hash → Type 0
  Only a b = (a ≡ x) × (b ≡ y)

  InTree-big : {xs : List Hash} {a b : Hash} → InTree p xs a b → 2 ≤ length xs
  InTree-big (in_root xs a b k big e l r) = big
  InTree-big (in_take xs a b k big e h) = big
  InTree-big (in_drop xs a b k big e h) = big

  in_two_leaves : {a b : Hash} → InTree p (x ∷ y ∷ []) a b → Only a b
  unfolding mth mth_fuel
  in_two_leaves (in_root _ a b zero big e l r) = absurd (omega (arith, at_one e))
  in_two_leaves (in_root _ a b (suc zero) big e l r) = (l, r)
  in_two_leaves (in_root _ a b (suc (suc k)) big e l r) = absurd (omega (arith, at_one e))
  in_two_leaves (in_take _ a b k big e h) =
      absurd (omega (arith, at_one e, length-take k (x ∷ y ∷ []), InTree-big h))
  in_two_leaves (in_drop _ a b k big e h) =
      absurd (omega (arith, at_one e, length-drop k (x ∷ y ∷ []), InTree-big h))

  at_leaf :
      (r : ℕ) (path : List Hash) {b : Hash} → root_from_path_fuel p r y 0 1 path ≡ some b → b ≡ y
  at_leaf zero path h = unfold root_from_path_fuel in cc h
  at_leaf (suc r) path h = elim (Binding.root_from_path-Step p r y 0 1 path h).1 [
    | Binding.single one first same ↦ same
    | Binding.left k rest sub sibling cut big e lt found same ↦ absurd (omega (arith, big))
    | Binding.right k rest sub sibling cut big e ge found same ↦ absurd (omega (arith, big))
  ]

  nothing_above :
      {seq size : ℕ} {path : List Hash} {a b : Hash} → InPath p y seq size path a b → path ≢ []
  unfolding unsnoc
  nothing_above (at_left seq size path a b r k rest cut big e lt found) none_left =
      ground (arith, cut, none_left)
  nothing_above (at_right seq size path a b r k rest cut big e ge found) none_left =
      ground (arith, cut, none_left)
  nothing_above (under_left seq size path a b k rest sibling cut big e lt h) none_left =
      ground (arith, cut, none_left)
  nothing_above (under_right seq size path a b k rest sibling cut big e ge h) none_left =
      ground (arith, cut, none_left)

  in_honest_path : {a b : Hash} → InPath p y 1 2 (x ∷ []) a b → Only a b
  in_honest_path (at_left _ _ _ a b r k rest cut big e lt found) =
      absurd (omega (arith, at_one e, lt))
  in_honest_path (at_right _ _ _ a b r zero rest cut big e ge found) =
      absurd (omega (arith, at_one e))
  in_honest_path (at_right _ _ _ a b r (suc zero) rest cut big e ge found) =
      ((no_siblings cut).1, at_leaf r rest found)
  in_honest_path (at_right _ _ _ a b r (suc (suc k)) rest cut big e ge found) =
      absurd (omega (arith, at_one e))
  in_honest_path (under_left _ _ _ a b k rest sibling cut big e lt h) =
      absurd (omega (arith, at_one e, lt))
  in_honest_path (under_right _ _ _ a b k rest sibling cut big e ge h) =
      absurd (nothing_above h (no_siblings cut).0)

  one_pair : (a b : Hash) → InTree p (x ∷ y ∷ []) a b ⊎ InPath p y 1 2 (x ∷ []) a b → Only a b
  one_pair a b (inl h) = in_two_leaves h
  one_pair a b (inr h) = in_honest_path h

  -- An honest proof for the second of two leaves leaves no collision, of any hash function.
  honest_path-free : ¬ Collision p (λ a b. InTree p (x ∷ y ∷ []) a b ⊎ InPath p y 1 2 (x ∷ []) a b)
  honest_path-free c =
      let (l, r) = one_pair c.left c.right c.hashed in
      let (l', r') = one_pair c.left' c.right' c.hashed' in
      elim c.differ [
        | inl h ↦ h (ap hash_bytes (l ∙ sym l'))
        | inr h ↦ h (ap hash_bytes (r ∙ sym r'))
      ]
