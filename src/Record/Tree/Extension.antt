-- ===== src/Record/Tree/Extension.antt =====
-- Consistency proofs bind: to lead from the head of other leaves needs a collision of the node hash among
-- the pairs that are hashed on the way.
use cloudy.Prelude.{
  ℕ, zero, suc, ◌-◌, ◌≡◌, ◌≤◌, ◌<◌, ◌⊎◌, inl, inr, refl, ap, subst, sym, ◌∙◌, arith, List, some,
  Option-cases, Bool, true, false, Bool-cases, length, take, drop, leb, ◌==◌,
}
use cloudy.Primitives.{Hash, IsHash, Primitives}
use cloudy.Record.Tree.{largest_pow2_lt, unsnoc, node_hash, mth, cons_roots_fuel, cons_roots}
use cloudy.Record.Tree.Split.{largest_pow2_lt-between}
use cloudy.Record.Tree.Shape.{halves_shorter, mth-split}
use cloudy.Record.Tree.Lists.{take-take, drop-take, take_of_length-le, eq-of-parts}
use cloudy.Record.Tree.Hashed.{
  InTree, in_root, in_take, in_drop, InCons, old_and_new, old_only, new_only, in_front, in_back,
}
use cloudy.Record.Tree.Injective.{mth-injective}
use cloudy.Record.Tree.Binding.{Collision, node_hash-parts}

module _ (p : Primitives) where
  -- What a successful consRoots has done at its outermost step.
  pub data Step (r m n : ℕ) (c : Bool) (path : List Hash) (seed old new : Hash) : Type 0 where
    whole :
        m ≡ n
        → old ≡ new
        → (new ≡ seed) ⊎ ((front : List Hash) × (unsnoc path ≡ some (front, new)))
        → Step r m n c path seed old new
    left :
        (k : ℕ) (front rest : List Hash) (sub last : Hash)
        → unsnoc path ≡ some (front, last)
        → m < n
        → largest_pow2_lt n ≡ some k
        → m ≤ k
        → cons_roots_fuel p r m k c front seed ≡ some (old, sub, rest)
        → new ≡ node_hash p sub last
        → Step r m n c path seed old new
    right :
        (k : ℕ) (front rest : List Hash) (sub_old sub_new last : Hash)
        → unsnoc path ≡ some (front, last)
        → m < n
        → largest_pow2_lt n ≡ some k
        → k < m
        → cons_roots_fuel p r (m - k) (n - k) false front seed ≡ some (sub_old, sub_new, rest)
        → old ≡ node_hash p last sub_old
        → new ≡ node_hash p last sub_new
        → Step r m n c path seed old new

  pub cons_roots-Step :
      (r m n : ℕ) (complete : Bool) (proof : List Hash) (seed : Hash) {old new : Hash}
      {rest : List Hash}
      → cons_roots_fuel p (suc r) m n complete proof seed ≡ some (old, new, rest)
      → Step r m n complete proof seed old new
  unfolding cons_roots_fuel
  cons_roots-Step r m n complete proof seed {old} {new} {rest} h = elim (Bool-cases (m == n)) [
    | inl same ↦ elim (Bool-cases complete) [
      | inl whole_tree ↦ whole (ground arith) (ground arith) (inl (ground arith))
      | inr part ↦ elim (Option-cases (unsnoc proof)) [
        | inl e ↦ absurd (ground arith)
        | inr ((front, last), e) ↦
            whole (ground arith) (ground arith) (inr (front, ground (arith, e)))
      ]
    ]
    | inr other ↦ elim (Option-cases (unsnoc proof)) [
      | inl e ↦ absurd (ground arith)
      | inr ((front, last), e) ↦ elim (Option-cases (largest_pow2_lt n)) [
        | inl e' ↦ absurd (ground arith)
        | inr (k, e') ↦ elim (Bool-cases (leb m k)) [
          | inl le ↦ elim (Option-cases (cons_roots_fuel p r m k complete front seed)) [
            | inl none_left ↦ absurd (ground arith)
            | inr ((o, n', left'), found) ↦
                left k front left' n' last e (ground arith) e' (ground arith) (ground arith)
                  (ground arith)
          ]
          | inr gt ↦ elim (Option-cases (cons_roots_fuel p r (m - k) (n - k) false front seed)) [
            | inl none_left ↦ absurd (ground arith)
            | inr ((o, n', left'), found) ↦
                right k front left' o n' last e (ground arith) e' (ground arith) found
                  (ground arith) (ground arith)
          ]
        ]
      ]
    ]
  ]

module _ (p : Primitives) (S : Hash → Hash → Type 0)
    (fits : (a b : Hash) → S a b → IsHash a × IsHash b) where
  -- That an accepted proof shows the older leaves to be a prefix, for one step of the induction.
  abbrev Extends : ℕ → Type 0
  Extends r =
      (xs ys : List Hash) (complete : Bool) (proof rest : List Hash) (seed : Hash)
      → length xs ≤ 9223372036854775808
      → 1 ≤ length ys
      → ((a b : Hash) → InTree p xs a b → S a b)
      → ((a b : Hash) → InTree p ys a b → S a b)
      → ((a b : Hash) → InCons p seed (length ys) (length xs) complete proof a b → S a b)
      → cons_roots_fuel p r (length ys) (length xs) complete proof seed
        ≡ some (mth p ys, mth p xs, rest)
      → (take (length ys) xs ≡ ys) ⊎ Collision p S

  module _ (r : ℕ) (ih : Extends r) (xs ys : List Hash) {k : ℕ}
      (small : length xs ≤ 9223372036854775808) (pos : 1 ≤ length ys)
      (inside : length ys < length xs) (e : largest_pow2_lt (length xs) ≡ some k)
      (in_xs : (a b : Hash) → InTree p xs a b → S a b)
      (in_ys : (a b : Hash) → InTree p ys a b → S a b) (complete : Bool) (path front : List Hash)
      (seed last : Hash) (cut : unsnoc path ≡ some (front, last))
      (along : (a b : Hash) → InCons p seed (length ys) (length xs) complete path a b → S a b) where
    left-extends :
        (rest : List Hash) (sub : Hash)
        → length ys ≤ k
        → cons_roots_fuel p r (length ys) k complete front seed ≡ some (mth p ys, sub, rest)
        → mth p xs ≡ node_hash p sub last
        → (take (length ys) xs ≡ ys) ⊎ Collision p S
    left-extends rest sub le found new =
        let big : 2 ≤ length xs = omega arith in
        let (size, _, above, below) = halves_shorter xs big e in
        elim (node_hash-parts p S fits _ _ _ _ (in_xs _ _ (in_root xs _ _ k big e refl refl))
          (along _ _ (old_and_new _ _ complete path _ _ r k front rest _ cut inside e le found))
          (sym (mth-split p xs big e) ∙ new)) [
            | inr c ↦ inr c
            | inl (head, _) ↦
                elim (ih (take k xs) ys complete front rest seed (omega arith) pos
                  (λ a b h. in_xs a b (in_take xs a b k big e h)) in_ys
                  (λ a b h. along a b (
                    in_front _ _ complete path a b k front last cut inside e le
                      (subst (λ n. InCons p seed (length ys) n complete front a b) size h)))
                  (rw (size, head) found)) [
                    | inr c ↦ inr c
                    | inl prefix ↦ inl (sym (take-take (length ys) k xs le) ∙ prefix)
                  ]
          ]

    right-extends :
        (rest : List Hash) (sub_old sub_new : Hash)
        → k < length ys
        → cons_roots_fuel p r (length ys - k) (length xs - k) false front seed
          ≡ some (sub_old, sub_new, rest)
        → mth p ys ≡ node_hash p last sub_old
        → mth p xs ≡ node_hash p last sub_new
        → (take (length ys) xs ≡ ys) ⊎ Collision p S
    right-extends rest sub_old sub_new lt found old new =
        let big : 2 ≤ length xs = omega arith in
        let (size, size_drop, above, below) = halves_shorter xs big e in
        let big' : 2 ≤ length ys = omega arith in
        let e' = largest_pow2_lt-between (length xs) (length ys) big e above lt (omega arith) in
        let (size', size_drop', _, _) = halves_shorter ys big' e' in
        elim (node_hash-parts p S fits _ _ _ _ (in_xs _ _ (in_root xs _ _ k big e refl refl))
          (along _ _ (new_only _ _ complete path _ _ r k front rest _ cut inside e lt found))
          (sym (mth-split p xs big e) ∙ new)) [
            | inr c ↦ inr c
            | inl (h1, h2) ↦
                elim (node_hash-parts p S fits _ _ _ _
                  (in_ys _ _ (in_root ys _ _ k big' e' refl refl))
                  (along _ _
                    (old_only _ _ complete path _ _ r k front rest _ cut inside e lt found))
                  (sym (mth-split p ys big' e') ∙ old)) [
                    | inr c ↦ inr c
                    | inl (h3, h4) ↦
                        elim (mth-injective p S fits (length xs) (take k xs) (take k ys)
                          (omega arith) (omega arith)
                          (λ a b h. in_xs a b (in_take xs a b k big e h))
                          (λ a b h. in_ys a b (in_take ys a b k big' e' h)) (omega arith)
                          (h3 ∙ sym h1)) [
                            | inr c ↦ inr c
                            | inl fronts ↦
                                elim (ih (drop k xs) (drop k ys) false front rest seed (omega arith)
                                  (omega arith) (λ a b h. in_xs a b (in_drop xs a b k big e h))
                                  (λ a b h. in_ys a b (in_drop ys a b k big' e' h))
                                  (λ a b h. along a b (
                                    in_back _ _ complete path a b k front last cut inside e lt (
                                      subst (λ (n : ℕ × ℕ). InCons p seed n.0 n.1 false front a b)
                                        (ap (λ n. (n, length (drop k xs))) size_drop'
                                          ∙ ap (λ n. (length ys - k, n)) size_drop)
                                        h)))
                                  (rw (size_drop, size_drop', h2, h4) found)) [
                                    | inr c ↦ inr c
                                    | inl backs ↦ inl (
                                        eq-of-parts k _ ys
                                          (take-take k (length ys) xs (omega arith) ∙ sym fronts)
                                          (drop-take k (length ys) xs (omega arith)
                                            ∙ (ap (λ n. take n (drop k xs)) (sym size_drop')
                                                ∙ backs)))
                                  ]
                          ]
                  ]
          ]

  cons_roots_fuel-Extends : (r : ℕ) → Extends r
  cons_roots_fuel-Extends zero xs ys complete proof rest seed small pos in_xs in_ys along h =
      unfold cons_roots_fuel in cc h
  cons_roots_fuel-Extends (suc r) xs ys complete proof rest seed small pos in_xs in_ys along h =
      elim (cons_roots-Step p r (length ys) (length xs) complete proof seed h) [
        | whole same heads _ ↦
            elim (mth-injective p S fits (length xs) xs ys (omega arith) small in_xs in_ys same
              heads) [
                | inr c ↦ inr c
                | inl e ↦ inl (take_of_length-le (length ys) xs (omega arith) ∙ sym e)
              ]
        | left k front rest' sub last cut inside e le found new ↦
            left-extends r (cons_roots_fuel-Extends r) xs ys small pos inside e in_xs in_ys complete
              proof front seed last cut along rest' sub le found new
        | right k front rest' sub_old sub_new last cut inside e lt found old new ↦
            right-extends r (cons_roots_fuel-Extends r) xs ys small pos inside e in_xs in_ys
              complete proof front seed last cut along rest' sub_old sub_new lt found old new
      ]

  -- Let a proof, which is any list of hashes, lead consRoots for the sizes of two lists of leaves, the
  -- first with a leaf or more and the second with up to 2^63, to the tree heads of the two. Then the first
  -- list is a prefix of the second, or else two different pairs, hashed on the way, have one node hash.
  pub cons_roots_binds :
      (xs ys proof rest : List Hash) (seed : Hash)
      → length xs ≤ 9223372036854775808
      → 1 ≤ length ys
      → ((a b : Hash) → InTree p xs a b → S a b)
      → ((a b : Hash) → InTree p ys a b → S a b)
      → ((a b : Hash) → InCons p seed (length ys) (length xs) true proof a b → S a b)
      → cons_roots p (length ys) (length xs) true proof seed ≡ some (mth p ys, mth p xs, rest)
      → (take (length ys) xs ≡ ys) ⊎ Collision p S
  unfolding cons_roots
  cons_roots_binds xs ys proof rest seed small pos in_xs in_ys along h =
      cons_roots_fuel-Extends (suc (length proof)) xs ys true proof rest seed small pos in_xs in_ys
        along h
