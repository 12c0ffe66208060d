-- ===== src/Record/Tree/Binding.antt =====
-- A tree head binds its leaves: to lead another leaf to it needs a collision of the node hash among the
-- pairs that are hashed on the way.
use cloudy.Prelude.{
  ℕ, zero, suc, ◌-◌, ◌≡◌, ◌≢◌, ◌≤◌, ◌<◌, ◌⊎◌, inl, inr, refl, subst, ◌∙◌, sym, arith, List, [], ◌∷◌,
  some, Option-cases, length, take, drop, get_elem?, ltb, Bool-cases, ℕ_discrete, ◌==◌,
}
use cloudy.Primitives.{Hash, IsHash, hash_bytes, Primitives}
use cloudy.Record.Tree.{
  largest_pow2_lt, unsnoc, node_hash, mth_fuel, mth, root_from_path_fuel, root_from_path,
}
use cloudy.Record.Tree.Hashed.{
  hash_bytes-injective, InTree, in_root, in_take, in_drop, InPath, at_left, at_right, under_left,
  under_right,
}
use cloudy.Record.Tree.Shape.{halves_shorter, mth-split}
use cloudy.Record.Tree.Lists.{get_elem?-take, get_elem?-drop}

module _ (p : Primitives) where
  -- Two different pairs of 32-byte arrays with one node hash, both of them among the given pairs. That they
  -- differ is said of the bytes, which are what is hashed.
  pub record Collision (Hashed : Hash → Hash → Type 0) : Type 0 where
    pub left : Hash
    pub right : Hash
    pub left' : Hash
    pub right' : Hash
    pub hashed : Hashed left right
    pub hashed' : Hashed left' right'
    pub arrays : IsHash left × IsHash right × IsHash left' × IsHash right'
    pub differ : (hash_bytes left ≢ hash_bytes left') ⊎ (hash_bytes right ≢ hash_bytes right')
    pub collide : node_hash p left right ≡ node_hash p left' right'

  pub Collision-map :
      {S T : Hash → Hash → Type 0} → ((a b : Hash) → S a b → T a b) → Collision S → Collision T
  Collision-map f c = record {
    left = c.left;
    right = c.right;
    left' = c.left';
    right' = c.right';
    hashed = f c.left c.right c.hashed;
    hashed' = f c.left' c.right' c.hashed';
    arrays = c.arrays;
    differ = c.differ;
    collide = c.collide;
  }

  -- What a successful rootFromPath has done at its outermost step.
  pub data Step (r : ℕ) (leaf : Hash) (seq size : ℕ) (path : List Hash) (root : Hash) : Type 0 where
    single : size ≡ 1 → seq ≡ 0 → root ≡ leaf → Step r leaf seq size path root
    left :
        (k : ℕ) (rest : List Hash) (sub sibling : Hash)
        → unsnoc path ≡ some (rest, sibling)
        → 2 ≤ size
        → largest_pow2_lt size ≡ some k
        → seq < k
        → root_from_path_fuel p r leaf seq k rest ≡ some sub
        → root ≡ node_hash p sub sibling
        → Step r leaf seq size path root
    right :
        (k : ℕ) (rest : List Hash) (sub sibling : Hash)
        → unsnoc path ≡ some (rest, sibling)
        → 2 ≤ size
        → largest_pow2_lt size ≡ some k
        → k ≤ seq
        → root_from_path_fuel p r leaf (seq - k) (size - k) rest ≡ some sub
        → root ≡ node_hash p sibling sub
        → Step r leaf seq size path root

  pub root_from_path-Step :
      (r : ℕ) (leaf : Hash) (seq size : ℕ) (path : List Hash) {root : Hash}
      → root_from_path_fuel p (suc r) leaf seq size path ≡ some root
      → (seq < size) × Step r leaf seq size path root
  unfolding root_from_path_fuel
  root_from_path-Step r leaf seq size path {root} h = (
    ground arith,
    elim (Bool-cases (size == 1)) [
      | inl one ↦ single (ground arith) (ground arith) (ground arith)
      | inr many ↦ elim (Option-cases (unsnoc path)) [
        | inl e ↦ absurd (ground arith)
        | inr ((rest, sibling), e) ↦ elim (Option-cases (largest_pow2_lt size)) [
          | inl e' ↦ absurd (ground arith)
          | inr (k, e') ↦ elim (Bool-cases (ltb seq k)) [
            | inl lt ↦ elim (Option-cases (root_from_path_fuel p r leaf seq k rest)) [
              | inl none_left ↦ absurd (ground arith)
              | inr (sub, found) ↦
                  left k rest sub sibling e (ground arith) e' (ground arith) found (ground arith)
            ]
            | inr ge ↦
                elim (Option-cases (root_from_path_fuel p r leaf (seq - k) (size - k) rest)) [
                  | inl none_left ↦ absurd (ground arith)
                  | inr (sub, found) ↦
                      right k rest sub sibling e (ground arith) e' (ground arith) found
                        (ground arith)
                ]
          ]
        ]
      ]
    ],
  )

module _ (p : Primitives) (S : Hash → Hash → Type 0)
    (fits : (a b : Hash) → S a b → IsHash a × IsHash b) where
  -- Equal node hashes of hashed pairs have equal parts, but for a collision.
  pub node_hash-parts :
      (a b c d : Hash)
      → S a b
      → S c d
      → node_hash p a b ≡ node_hash p c d
      → ((a ≡ c) × (b ≡ d)) ⊎ Collision p S
  node_hash-parts a b c d s t e =
      let (fits_a, fits_b) = fits a b s in
      let (fits_c, fits_d) = fits c d t in
      let found : ((hash_bytes a ≢ hash_bytes c) ⊎ (hash_bytes b ≢ hash_bytes d)) → Collision p S =
        λ h. record {
          left = a;
          right = b;
          left' = c;
          right' = d;
          hashed = s;
          hashed' = t;
          arrays = (fits_a, fits_b, fits_c, fits_d);
          differ = h;
          collide = e;
        } in
      elim (ℕ_discrete a c) [
        | no h ↦ inr (found (inl (λ k. h (hash_bytes-injective a c fits_a fits_c k))))
        | yes h ↦ elim (ℕ_discrete b d) [
          | no k ↦ inr (found (inr (λ l. k (hash_bytes-injective b d fits_b fits_d l))))
          | yes k ↦ inl (h, k)
        ]
      ]

  abbrev Binds : ℕ → Type 0
  Binds r =
      (seq : ℕ) (leaf : Hash) (path xs : List Hash)
      → ((a b : Hash) → InTree p xs a b → S a b)
      → ((a b : Hash) → InPath p leaf seq (length xs) path a b → S a b)
      → root_from_path_fuel p r leaf seq (length xs) path ≡ some (mth p xs)
      → (get_elem? xs seq ≡ some leaf) ⊎ Collision p S

  single-leaf :
      (xs : List Hash) {seq : ℕ} {leaf : Hash}
      → length xs ≡ 1
      → seq ≡ 0
      → mth p xs ≡ leaf
      → get_elem? xs seq ≡ some leaf
  unfolding mth mth_fuel
  single-leaf [] one first same = absurd (omega arith)
  single-leaf (x ∷ []) one first same = rw (first, same)
  single-leaf (x ∷ y ∷ xs) one first same = absurd (omega arith)

  module _ (seq : ℕ) (leaf : Hash) (path xs : List Hash)
      (tree : (a b : Hash) → InTree p xs a b → S a b)
      (along : (a b : Hash) → InPath p leaf seq (length xs) path a b → S a b) where
    Step-Binds :
        (r : ℕ)
        → Binds r
        → Step p r leaf seq (length xs) path (mth p xs)
        → (get_elem? xs seq ≡ some leaf) ⊎ Collision p S
    Step-Binds r ih (single one first same) = inl (single-leaf xs one first same)
    Step-Binds r ih (left k rest sub sibling cut big e lt found same) =
        let (front, back, _, _) = halves_shorter xs big e in
        elim (node_hash-parts _ _ _ _ (tree _ _ (in_root xs _ _ k big e refl refl))
          (along _ _ (at_left seq (length xs) path _ _ r k rest cut big e lt found))
          (sym (mth-split p xs big e) ∙ same)) [
            | inr c ↦ inr c
            | inl (head, _) ↦
                elim (ih seq leaf rest (take k xs) (λ a b h. tree a b (in_take xs a b k big e h))
                  (λ a b h. along a b (
                    under_left seq (length xs) path a b k rest sibling cut big e lt
                      (subst (λ n. InPath p leaf seq n rest a b) front h)))
                  (rw (front, head) found)) [
                    | inr c ↦ inr c
                    | inl at_seq ↦ inl (sym (get_elem?-take k seq xs lt) ∙ at_seq)
                  ]
          ]
    Step-Binds r ih (right k rest sub sibling cut big e ge found same) =
        let (front, back, _, _) = halves_shorter xs big e in
        elim (node_hash-parts _ _ _ _ (tree _ _ (in_root xs _ _ k big e refl refl))
          (along _ _ (at_right seq (length xs) path _ _ r k rest cut big e ge found))
          (sym (mth-split p xs big e) ∙ same)) [
            | inr c ↦ inr c
            | inl (_, head) ↦
                elim (ih (seq - k) leaf rest (drop k xs)
                  (λ a b h. tree a b (in_drop xs a b k big e h))
                  (λ a b h. along a b (
                    under_right seq (length xs) path a b k rest sibling cut big e ge
                      (subst (λ n. InPath p leaf (seq - k) n rest a b) back h)))
                  (rw (back, head) found)) [
                    | inr c ↦ inr c
                    | inl at_seq ↦ inl (sym (get_elem?-drop k seq xs ge) ∙ at_seq)
                  ]
          ]

  root_from_path_fuel-Binds : (r : ℕ) → Binds r
  root_from_path_fuel-Binds zero seq leaf path xs tree along h = unfold root_from_path_fuel in cc h
  root_from_path_fuel-Binds (suc r) seq leaf path xs tree along h =
      Step-Binds seq leaf path xs tree along r (root_from_path_fuel-Binds r)
        (root_from_path-Step p r leaf seq (length xs) path h).1

  -- A path that leads a leaf at a position to the tree head of some leaves shows that the leaf stands at
  -- that position among them, or else two different pairs, hashed on the way, have one node hash. The
  -- path is any list of hashes, and the size is the number of leaves.
  pub root_from_path_binds :
      (seq : ℕ) (leaf : Hash) (path xs : List Hash)
      → ((a b : Hash) → InTree p xs a b → S a b)
      → ((a b : Hash) → InPath p leaf seq (length xs) path a b → S a b)
      → root_from_path p leaf seq (length xs) path ≡ some (mth p xs)
      → (get_elem? xs seq ≡ some leaf) ⊎ Collision p S
  unfolding root_from_path
  root_from_path_binds seq leaf path xs tree along h =
      root_from_path_fuel-Binds (suc (length path)) seq leaf path xs tree along h
