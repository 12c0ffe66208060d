-- ===== src/Record/Tree.antt =====
-- internal/record/tree.go: the RFC 6962 Merkle tree over the leaves, audit paths and consistency
-- proofs. The source recurses on slices of falling length; here each recursion is on fuel, which is
-- the number of leaves, and `Tree.Shape` proves that more fuel changes nothing.
pub mod Split
pub mod Shape
pub mod Lists
pub mod Inclusion
pub mod Hashed
pub mod Binding
pub mod Injective
pub mod Depth
pub mod Consistency
pub mod Extension
pub mod Arrays
pub mod Tests
use cloudy.Prelude.{
  ℕ, zero, suc, ◌+◌, ◌-◌, ◌*◌, ◌%◌, ◌≡◌, Bool, true, false, List, [], ◌∷◌, ◌++◌, Option, none, some,
  length, take, drop, ltb, leb, ◌==◌, if◌then◌else◌, ◌||◌,
}
use cloudy.Prelude.Bytes.{Bytes}
use cloudy.Primitives.{Hash, hash_bytes, bytes, Primitives}

-- `for k<<1 < n { k <<= 1 }` on uint64; `none` if the fuel runs out.
unfoldable pub double_below : ℕ → ℕ → ℕ → Option ℕ
double_below zero k n = none
double_below (suc f) k n =
    let k' = k * 2 % 18446744073709551616 in
    let rest = double_below f k' n in if ltb k' n then rest else some k

-- largestPow2LT. For a size above 2^63 the loop of the source does not end, since k<<1 wraps to 0;
-- `none` stands for that. `Tree.Split` shows that 64 rounds are enough for all others.
unfoldable pub largest_pow2_lt : ℕ → Option ℕ
unfolding double_below
largest_pow2_lt n = double_below 64 1 n

-- A slice without its last element, and the last element: path[:len(path)-1], path[len(path)-1].
unfoldable pub unsnoc {ℓ} : {A : Type ℓ} → List A → Option (List A × A)
unsnoc [] = none
unsnoc (x ∷ xs) = elim (unsnoc xs) [ none ↦ some ([], x) | some (ys, y) ↦ some (x ∷ ys, y) ]

module _ (p : Primitives) where
  open p use {sha256, canon}

  -- nodeHash
  unfoldable pub node_hash : Hash → Hash → Hash
  node_hash left right =
      sha256 (canon "drops/node/v1" (bytes (hash_bytes left) ∷ bytes (hash_bytes right) ∷ []))

  -- mth. The last clauses stand for the panic and the endless loop of the source: no caller reaches
  -- them with fewer than 2^63 leaves and at least one.
  unfoldable pub mth_fuel : ℕ → List Hash → Hash
  mth_fuel zero leaves = 0
  mth_fuel (suc f) [] = 0
  mth_fuel (suc f) (x ∷ []) = x
  mth_fuel (suc f) (x ∷ y ∷ xs) = elim (largest_pow2_lt (length (x ∷ y ∷ xs))) [
    | none ↦ 0
    | some k ↦ node_hash (mth_fuel f (take k (x ∷ y ∷ xs))) (mth_fuel f (drop k (x ∷ y ∷ xs)))
  ]

  unfoldable pub mth : List Hash → Hash
  mth leaves = mth_fuel (length leaves) leaves

  -- provePath: sibling hashes, leaf-adjacent first.
  unfoldable pub prove_path_fuel : ℕ → ℕ → List Hash → List Hash
  prove_path_fuel zero m leaves = []
  prove_path_fuel (suc f) m [] = []
  prove_path_fuel (suc f) m (x ∷ []) = []
  prove_path_fuel (suc f) m (x ∷ y ∷ xs) =
      let leaves = x ∷ y ∷ xs in
      elim (largest_pow2_lt (length (x ∷ y ∷ xs))) [
        | none ↦ []
        | some k ↦ elim (ltb m k) [
          | true ↦ prove_path_fuel f m (take k leaves) ++ mth (drop k leaves) ∷ []
          | false ↦ prove_path_fuel f (m - k) (drop k leaves) ++ mth (take k leaves) ∷ []
        ]
      ]

  unfoldable pub prove_path : ℕ → List Hash → List Hash
  prove_path m leaves = prove_path_fuel (length leaves) m leaves

  -- rootFromPath; `none` is ok = false, and also a call that does not return.
  unfoldable pub root_from_path_fuel : ℕ → Hash → ℕ → ℕ → List Hash → Option Hash
  root_from_path_fuel zero leaf seq size path = none
  root_from_path_fuel (suc f) leaf seq size path = elim (size == 0 || leb size seq) [
    | true ↦ none
    | false ↦ elim (size == 1) [
      | true ↦ elim path [ [] ↦ some leaf | _ ∷ _ ↦ none ]
      | false ↦ elim (unsnoc path) [
        | none ↦ none
        | some (rest, sibling) ↦ elim (largest_pow2_lt size) [
          | none ↦ none
          | some k ↦ elim (ltb seq k) [
            | true ↦ elim (root_from_path_fuel f leaf seq k rest) [
              | none ↦ none
              | some sub ↦ some (node_hash sub sibling)
            ]
            | false ↦ elim (root_from_path_fuel f leaf (seq - k) (size - k) rest) [
              | none ↦ none
              | some sub ↦ some (node_hash sibling sub)
            ]
          ]
        ]
      ]
    ]
  ]

  -- Each call takes one hash off the path, so its length bounds the depth.
  unfoldable pub root_from_path : Hash → ℕ → ℕ → List Hash → Option Hash
  root_from_path leaf seq size path = root_from_path_fuel (suc (length path)) leaf seq size path

  -- subProof
  unfoldable pub sub_proof_fuel : ℕ → ℕ → List Hash → Bool → List Hash
  sub_proof_fuel zero m leaves complete = []
  sub_proof_fuel (suc f) m leaves complete = elim (m == length leaves) [
    | true ↦ if complete then [] else mth leaves ∷ []
    | false ↦ elim (largest_pow2_lt (length leaves)) [
      | none ↦ []
      | some k ↦ elim (leb m k) [
        | true ↦ sub_proof_fuel f m (take k leaves) complete ++ mth (drop k leaves) ∷ []
        | false ↦ sub_proof_fuel f (m - k) (drop k leaves) false ++ mth (take k leaves) ∷ []
      ]
    ]
  ]

  -- proveConsistency
  unfoldable pub prove_consistency : ℕ → List Hash → List Hash
  prove_consistency m leaves = sub_proof_fuel (length leaves) m leaves true

  -- consRoots: the older head, the newer head, and what is left of the proof.
  unfoldable pub cons_roots_fuel :
      ℕ → ℕ → ℕ → Bool → List Hash → Hash → Option (Hash × Hash × List Hash)
  cons_roots_fuel zero m n complete proof seed = none
  cons_roots_fuel (suc f) m n complete proof seed = elim (m == n) [
    | true ↦ elim complete [
      | true ↦ some (seed, seed, proof)
      | false ↦ elim (unsnoc proof) [ none ↦ none | some (rest, h) ↦ some (h, h, rest) ]
    ]
    | false ↦ elim (ltb n m) [
      | true ↦ none
      | false ↦ elim (unsnoc proof) [
        | none ↦ none
        | some (rest, last) ↦ elim (largest_pow2_lt n) [
          | none ↦ none
          | some k ↦ elim (leb m k) [
            | true ↦ elim (cons_roots_fuel f m k complete rest seed) [
              | none ↦ none
              | some (old, new, left) ↦ some (old, node_hash new last, left)
            ]
            | false ↦ elim (cons_roots_fuel f (m - k) (n - k) false rest seed) [
              | none ↦ none
              | some (old, new, left) ↦ some (node_hash last old, node_hash last new, left)
            ]
          ]
        ]
      ]
    ]
  ]

  unfoldable pub cons_roots : ℕ → ℕ → Bool → List Hash → Hash → Option (Hash × Hash × List Hash)
  cons_roots m n complete proof seed = cons_roots_fuel (suc (length proof)) m n complete proof seed
