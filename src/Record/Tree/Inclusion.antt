-- ===== src/Record/Tree/Inclusion.antt =====
-- Audit paths: the prover's path leads the verifier from a leaf to the tree head.
use cloudy.Prelude.{
  ℕ, zero, suc, ◌-◌, ◌^◌, ◌≡◌, ◌≤◌, ◌<◌, inl, inr, ap, ◌∙◌, arith, List, [], ◌∷◌, ◌++◌, some,
  length, length-append, take, drop, get_elem?, ltb, Bool-cases,
}
use cloudy.Primitives.{Hash, Primitives}
use cloudy.Record.Tree.{
  largest_pow2_lt, node_hash, mth_fuel, mth, prove_path_fuel, prove_path, root_from_path_fuel,
  root_from_path,
}
use cloudy.Record.Tree.Split.{largest_pow2_lt_lem}
use cloudy.Record.Tree.Shape.{halves_shorter, mth-split}
use cloudy.Record.Tree.Lists.{unsnoc-snoc, get_elem?-take, get_elem?-drop, get_elem?-lt}

module _ (p : Primitives) where
  -- One step of provePath and of rootFromPath, on each side of the split.
  pub prove_path-left :
      (f m : ℕ) (xs : List Hash) {k : ℕ}
      → 2 ≤ length xs
      → largest_pow2_lt (length xs) ≡ some k
      → m < k
      → prove_path_fuel p (suc f) m xs ≡ prove_path_fuel p f m (take k xs) ++ mth p (drop k xs) ∷ []
  unfolding prove_path_fuel
  prove_path-left f m [] big e h = absurd (omega arith)
  prove_path-left f m (x ∷ []) big e h = absurd (omega arith)
  prove_path-left f m (x ∷ y ∷ xs) big e h = ground arith

  pub prove_path-right :
      (f m : ℕ) (xs : List Hash) {k : ℕ}
      → 2 ≤ length xs
      → largest_pow2_lt (length xs) ≡ some k
      → k ≤ m
      → prove_path_fuel p (suc f) m xs
        ≡ prove_path_fuel p f (m - k) (drop k xs) ++ mth p (take k xs) ∷ []
  unfolding prove_path_fuel
  prove_path-right f m [] big e h = absurd (omega arith)
  prove_path-right f m (x ∷ []) big e h = absurd (omega arith)
  prove_path-right f m (x ∷ y ∷ xs) big e h = ground arith

  module _ (r : ℕ) (leaf : Hash) (seq size : ℕ) {k : ℕ} (rest : List Hash) (sibling : Hash)
      {sub : Hash} (big : 2 ≤ size) (e : largest_pow2_lt size ≡ some k) (inside : seq < size) where
    root-left :
        seq < k
        → root_from_path_fuel p r leaf seq k rest ≡ some sub
        → root_from_path_fuel p (suc r) leaf seq size (rest ++ sibling ∷ [])
          ≡ some (node_hash p sub sibling)
    unfolding root_from_path_fuel
    root-left h s = ground (arith, unsnoc-snoc rest sibling)

    root-right :
        k ≤ seq
        → root_from_path_fuel p r leaf (seq - k) (size - k) rest ≡ some sub
        → root_from_path_fuel p (suc r) leaf seq size (rest ++ sibling ∷ [])
          ≡ some (node_hash p sibling sub)
    unfolding root_from_path_fuel
    root-right h s = ground (arith, unsnoc-snoc rest sibling)

  -- That the path of a subtree leads to its head, for one step of the induction.
  abbrev Leads : ℕ → ℕ → ℕ → List Hash → Hash → Type 0
  Leads f r m xs leaf =
      length (prove_path_fuel p f m xs) < r
      → root_from_path_fuel p r leaf m (length xs) (prove_path_fuel p f m xs) ≡ some (mth p xs)

  Leads-split :
      (f r m : ℕ) (xs : List Hash) (leaf : Hash) {k : ℕ}
      → 2 ≤ length xs
      → largest_pow2_lt (length xs) ≡ some k
      → m < length xs
      → (m < k → Leads f r m (take k xs) leaf)
      → (k ≤ m → Leads f r (m - k) (drop k xs) leaf)
      → Leads (suc f) (suc r) m xs leaf
  Leads-split f r m xs leaf {k} big e inside ih_left ih_right long =
      let (front, back, _, _) = halves_shorter xs big e in
      elim (Bool-cases (ltb m k)) [
        | inl l ↦
            let lt : m < k = ground arith in
            let path = prove_path-left f m xs big e lt in
            let shorter =
              length-append (prove_path_fuel p f m (take k xs)) (mth p (drop k xs) ∷ []) in
            let sub = ih_left lt (omega (arith, shorter, ap length path)) in
            rw (path, mth-split p xs big e)
              (root-left r leaf m (length xs) _ _ big e inside lt (rw front at sub))
        | inr l ↦
            let le : k ≤ m = ground arith in
            let path = prove_path-right f m xs big e le in
            let shorter =
              length-append (prove_path_fuel p f (m - k) (drop k xs)) (mth p (take k xs) ∷ []) in
            let sub = ih_right le (omega (arith, shorter, ap length path)) in
            rw (path, mth-split p xs big e)
              (root-right r leaf m (length xs) _ _ big e inside le (rw back at sub))
      ]

  prove_path_fuel-root :
      (f r m : ℕ) (xs : List Hash) (leaf : Hash)
      → length xs ≤ f
      → length xs ≤ 9223372036854775808
      → get_elem? xs m ≡ some leaf
      → Leads f r m xs leaf
  prove_path_fuel-root f r m [] leaf enough small at_m long = cc
  prove_path_fuel-root f zero m (x ∷ xs) leaf enough small at_m long = absurd (omega arith)
  prove_path_fuel-root zero (suc r) m (x ∷ xs) leaf enough small at_m long = absurd (omega arith)
  prove_path_fuel-root (suc f) (suc r) zero (x ∷ []) leaf enough small at_m long =
      unfold prove_path_fuel root_from_path_fuel mth mth_fuel in ground arith
  prove_path_fuel-root (suc f) (suc r) (suc m) (x ∷ []) leaf enough small at_m long = cc
  prove_path_fuel-root (suc f) (suc r) m (x ∷ y ∷ xs) leaf enough small at_m long =
      let (d, e, below, _) = largest_pow2_lt_lem (length (x ∷ y ∷ xs)) (omega arith) small in
      let (front, back, pos, _) = halves_shorter (x ∷ y ∷ xs) (omega arith) e in
      Leads-split f r m (x ∷ y ∷ xs) leaf (omega arith) e (get_elem?-lt (x ∷ y ∷ xs) m at_m)
        (λ lt.
          prove_path_fuel-root f r m (take (2 ^ d) (x ∷ y ∷ xs)) leaf (omega (arith, front))
            (omega (arith, front)) (get_elem?-take (2 ^ d) m (x ∷ y ∷ xs) lt ∙ at_m))
        (λ le.
          prove_path_fuel-root f r (m - 2 ^ d) (drop (2 ^ d) (x ∷ y ∷ xs)) leaf
            (omega (arith, back, pos)) (omega (arith, back))
            (get_elem?-drop (2 ^ d) m (x ∷ y ∷ xs) le ∙ at_m))
        long

  -- For up to 2^63 leaves, the audit path that provePath returns for a position leads rootFromPath from
  -- the leaf at that position to the tree head.
  pub root_from_path-prove_path :
      (m : ℕ) (xs : List Hash) (leaf : Hash)
      → length xs ≤ 9223372036854775808
      → get_elem? xs m ≡ some leaf
      → root_from_path p leaf m (length xs) (prove_path p m xs) ≡ some (mth p xs)
  unfolding prove_path root_from_path
  root_from_path-prove_path m xs leaf small at_m =
      prove_path_fuel-root (length xs) (suc (length (prove_path p m xs))) m xs leaf (omega arith)
        small at_m (omega arith)
