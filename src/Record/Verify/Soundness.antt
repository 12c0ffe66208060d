-- ===== src/Record/Verify/Soundness.antt =====
-- What an accepted proof shows, for checkpoints whose heads are the tree heads of known leaves.
use cloudy.Prelude.{
  ◌≡◌, ◌≤◌, ◌<◌, ◌⊎◌, inl, inr, refl, sym, ◌∙◌, arith, true, List, [], ◌∷◌, some, Option-cases,
  Bool-cases, length, take, get_elem?, ◌==◌,
}
use cloudy.Prelude.Bytes.{Bytes}
use cloudy.Primitives.{Hash, IsHash, IsDigest, Primitives}
use cloudy.Record.Entry.{Entry, entry_id}
use cloudy.Record.Tree.{mth, root_from_path, cons_roots}
use cloudy.Record.Tree.Lists.{take_of_length-le}
use cloudy.Record.Tree.Binding.{Collision, root_from_path_binds}
use cloudy.Record.Tree.Injective.{mth-injective}
use cloudy.Record.Tree.Extension.{cons_roots_binds}
use cloudy.Record.Tree.Hashed.{AllHash, InTree, InTree-IsHash, InPath, InCons}
use cloudy.Record.Tree.Arrays.{InPath-IsHash, InCons-IsHash}
use cloudy.Record.Checkpoint.{Checkpoint}
use cloudy.Record.Verify.{Proof, verify_inclusion, verify_consistency_as}

module _ (p : Primitives) where
  -- The checkpoint is over these leaves. The head of an empty log is free. Leaves and head are 32-byte arrays.
  pub record CommitsTo (cp : Checkpoint) (xs : List Hash) : Type 0 where
    pub same_size : cp.size ≡ length xs
    pub same_head : 1 ≤ length xs → cp.head ≡ mth p xs
    pub leaves_fit : AllHash xs
    pub head_fits : IsHash cp.head

  inclusion-root :
      (e : Entry) (proof : Proof) (cp : Checkpoint) (operator : Bytes)
      → verify_inclusion p e proof cp operator ≡ true
      → root_from_path p (entry_id p e) proof.seq cp.size proof.path ≡ some cp.head
  unfolding verify_inclusion
  inclusion-root e proof cp operator h =
      elim (Option-cases (root_from_path p (entry_id p e) proof.seq cp.size proof.path)) [
        | inl none_left ↦ absurd (ground arith)
        | inr (root, found) ↦ ground arith
      ]

  -- The pairs of hashes that mth passes to nodeHash for the leaves, and those that VerifyInclusion does.
  abbrev pub InInclusion : Entry → Proof → Checkpoint → List Hash → Hash → Hash → Type 0
  InInclusion e proof cp xs a b =
      InTree p xs a b ⊎ InPath p (entry_id p e) proof.seq cp.size proof.path a b

  InInclusion-IsHash :
      (e : Entry) (proof : Proof) (cp : Checkpoint) (xs : List Hash)
      → IsDigest p
      → CommitsTo cp xs
      → AllHash proof.path
      → (a b : Hash) → InInclusion e proof cp xs a b
      → IsHash a × IsHash b
  unfolding entry_id
  InInclusion-IsHash e proof cp xs digests c path_fits a b (inl h) =
      InTree-IsHash p digests c.leaves_fit h
  InInclusion-IsHash e proof cp xs digests c path_fits a b (inr h) =
      InPath-IsHash p digests (digests _) path_fits h

  -- Let SHA-256 return 32 bytes, and let VerifyInclusion accept an entry with a proof, whose path is 32-byte
  -- arrays, against a checkpoint over some leaves, at least one. Then the entry's ID is the leaf at the proof's
  -- position, or else there are two different pairs of 32-byte arrays with one node hash among the pairs
  -- that mth hashes for the leaves and VerifyInclusion for the proof.
  pub verify_inclusion_binds :
      (e : Entry) (proof : Proof) (cp : Checkpoint) (operator : Bytes) (xs : List Hash)
      → IsDigest p
      → CommitsTo cp xs
      → 1 ≤ length xs
      → AllHash proof.path
      → verify_inclusion p e proof cp operator ≡ true
      → (get_elem? xs proof.seq ≡ some (entry_id p e)) ⊎ Collision p (InInclusion e proof cp xs)
  verify_inclusion_binds e proof cp operator xs digests c some_leaf path_fits h =
      root_from_path_binds p (InInclusion e proof cp xs)
        (InInclusion-IsHash e proof cp xs digests c path_fits) proof.seq (entry_id p e) proof.path
        xs (λ a b. inl) (λ a b k. inr (rw c.same_size k))
        (rw (sym c.same_size, sym (c.same_head some_leaf)) (inclusion-root e proof cp operator h))

  -- The ways in which VerifyConsistencyAs accepts.
  data Accepted (older newer : Checkpoint) (proof : List Hash) : Type 0 where
    from_empty : older.size ≡ 0 → Accepted older newer proof
    same_tree :
        1 ≤ older.size
        → older.size ≡ newer.size
        → older.head ≡ newer.head
        → Accepted older newer proof
    grown :
        1 ≤ older.size
        → older.size < newer.size
        → cons_roots p older.size newer.size true proof older.head
          ≡ some (older.head, newer.head, [])
        → Accepted older newer proof

  accepted :
      (older newer : Checkpoint) (proof : List Hash) (signer : Bytes) (want_log : Hash)
      → verify_consistency_as p older newer proof signer want_log ≡ true
      → Accepted older newer proof
  unfolding verify_consistency_as
  accepted older newer proof signer want_log h = elim (Bool-cases (older.size == 0)) [
    | inl z ↦ from_empty (ground arith)
    | inr nz ↦ elim (Bool-cases (older.size == newer.size)) [
      | inl same ↦ same_tree (ground arith) (ground arith) (ground arith)
      | inr other ↦ elim (Option-cases (cons_roots p older.size newer.size true proof older.head)) [
        | inl none_left ↦ absurd (ground arith)
        | inr ((old, new, []), found) ↦ grown (ground arith) (ground arith) (ground arith)
        | inr ((old, new, x ∷ rest), found) ↦ absurd (ground arith)
      ]
    ]
  ]

  no_leaves : (ys xs : List Hash) → length ys ≡ 0 → take (length ys) xs ≡ ys
  no_leaves [] xs h = refl
  no_leaves (y ∷ ys) xs h = absurd (omega arith)

  -- The pairs of hashes that mth passes to nodeHash for the two lists of leaves, and those that
  -- VerifyConsistencyAs does.
  abbrev pub InConsistency :
      Checkpoint → Checkpoint → List Hash → List Hash → List Hash → Hash → Hash → Type 0
  InConsistency older newer proof ys xs a b =
      InTree p ys a b ⊎ InTree p xs a b ⊎ InCons p older.head older.size newer.size true proof a b

  InConsistency-IsHash :
      (older newer : Checkpoint) (proof ys xs : List Hash)
      → IsDigest p
      → CommitsTo older ys
      → CommitsTo newer xs
      → AllHash proof
      → (a b : Hash) → InConsistency older newer proof ys xs a b
      → IsHash a × IsHash b
  InConsistency-IsHash older newer proof ys xs digests cy cx proof_fits a b (inl h) =
      InTree-IsHash p digests cy.leaves_fit h
  InConsistency-IsHash older newer proof ys xs digests cy cx proof_fits a b (inr (inl h)) =
      InTree-IsHash p digests cx.leaves_fit h
  InConsistency-IsHash older newer proof ys xs digests cy cx proof_fits a b (inr (inr h)) =
      InCons-IsHash p digests cy.head_fits proof_fits h

  -- Let SHA-256 return 32 bytes, and let VerifyConsistencyAs accept two checkpoints over some older and newer
  -- leaves, the newer up to 2^63, with any proof of 32-byte arrays. Then the older leaves are a prefix of the
  -- newer, or else there are two different pairs of 32-byte arrays with one node hash among the pairs that
  -- mth hashes for the two lists of leaves and VerifyConsistencyAs for the proof.
  pub verify_consistency_binds :
      (older newer : Checkpoint) (proof : List Hash) (signer : Bytes) (want_log : Hash)
      (ys xs : List Hash)
      → IsDigest p
      → CommitsTo older ys
      → CommitsTo newer xs
      → length xs ≤ 9223372036854775808
      → AllHash proof
      → verify_consistency_as p older newer proof signer want_log ≡ true
      → (take (length ys) xs ≡ ys) ⊎ Collision p (InConsistency older newer proof ys xs)
  verify_consistency_binds older newer proof signer want_log ys xs digests cy cx small proof_fits
        h =
      let fits = InConsistency-IsHash older newer proof ys xs digests cy cx proof_fits in
      let hashed = InConsistency older newer proof ys xs in
      elim (accepted older newer proof signer want_log h) [
        | from_empty z ↦ inl (no_leaves ys xs (omega (arith, cy.same_size)))
        | same_tree pos s e ↦
            let long : length ys ≡ length xs = omega (arith, cy.same_size, cx.same_size) in
            let heads : mth p ys ≡ mth p xs =
              sym (cy.same_head (omega (arith, cy.same_size)))
              ∙ (e ∙ cx.same_head (omega (arith, cx.same_size))) in
            elim (mth-injective p hashed fits (length xs) xs ys (omega arith) small
              (λ a b k. inr (inl k)) (λ a b k. inl k) long heads) [
                | inr c ↦ inr c
                | inl same ↦ inl (take_of_length-le (length ys) xs (omega arith) ∙ sym same)
              ]
        | grown pos more found ↦
            cons_roots_binds p hashed fits xs ys proof [] older.head small
              (omega (arith, cy.same_size)) (λ a b k. inr (inl k)) (λ a b k. inl k)
              (λ a b k. inr (inr (rw (cy.same_size, cx.same_size) k)))
              (rw
                (
                  sym cy.same_size,
                  sym cx.same_size,
                  sym (cy.same_head (omega (arith, cy.same_size))),
                  sym (cx.same_head (omega (arith, cx.same_size))),
                )
                found)
      ]
