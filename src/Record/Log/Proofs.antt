-- ===== src/Record/Log/Proofs.antt =====
-- The log's proofs are accepted by the verifier, under checkpoints that the operator signs.
use cloudy.Prelude.{
  ℕ, ◌≡◌, ◌≤◌, ◌<◌, ◌⊎◌, refl, sym, ap, subst, ◌∙◌, inl, inr, arith, true, List, [], some, length,
  length-map, take, get_elem?, ℕ_discrete,
}
use cloudy.Prelude.Bytes.{Bytes}
use cloudy.Prelude.Result.{ok}
use cloudy.Primitives.{Hash, Primitives, IsSigner, private_key_size}
use cloudy.Record.Entry.{Entry, verify_entry, entry_id, log_id}
use cloudy.Record.Tree.{mth, prove_path, prove_consistency, root_from_path, cons_roots}
use cloudy.Record.Tree.Inclusion.{root_from_path-prove_path}
use cloudy.Record.Tree.Consistency.{cons_roots-prove_consistency}
use cloudy.Record.Checkpoint.{
  Checkpoint, sign_checkpoint, verify_as, verify_checkpoint, verify_as-sign_checkpoint,
  verify_as-log,
}
use cloudy.Record.Verify.{Proof, verify_inclusion, verify_consistency_as}
use cloudy.Record.Log.{Store, Log, open_log, checkpoint, prove, log_prove_consistency}
use cloudy.Record.Log.Invariant.{open_log-IsLogOf, get_elem?-map}
use cloudy.Record.Log.Replay.{open_log-id}
use cloudy.Record.Tree.Lists.{get_elem?-lt, take_of_length-le}

module _ (p : Primitives) (laws : IsSigner p) where
  -- The checkpoint of the log that the operator has signed.
  abbrev pub signed : Bytes → ℕ → Log → Checkpoint
  signed k issued_at l = sign_checkpoint p k (checkpoint p issued_at l)

  signed-log : (k : Bytes) (t : ℕ) (l : Log) → (signed k t l).log ≡ l.id
  unfolding sign_checkpoint checkpoint
  signed-log k t l = refl

  signed-size : (k : Bytes) (t : ℕ) (l : Log) → (signed k t l).size ≡ length l.leafs
  unfolding sign_checkpoint checkpoint
  signed-size k t l = refl

  signed-head :
      (k : Bytes) (t : ℕ) (l : Log) → 0 < length l.leafs → (signed k t l).head ≡ mth p l.leafs
  unfolding sign_checkpoint checkpoint
  signed-head k t l h = ground arith

  signed-verify :
      (k : Bytes) (t : ℕ) (l : Log) {want_log : Hash}
      → length k ≡ private_key_size
      → l.id ≡ want_log
      → verify_as p (signed k t l) (p.public k) want_log ≡ true
  unfolding checkpoint
  signed-verify k t l h same =
      subst (λ x. verify_as p (signed k t l) (p.public k) x ≡ true) same
        (verify_as-sign_checkpoint p laws k (checkpoint p t l) h)

  accepts :
      (e : Entry) (proof : Proof) (cp : Checkpoint) (operator : Bytes)
      → verify_entry p e ≡ true
      → verify_as p cp operator (log_id p operator) ≡ true
      → e.log ≡ cp.log
      → root_from_path p (entry_id p e) proof.seq cp.size proof.path ≡ some cp.head
      → verify_inclusion p e proof cp operator ≡ true
  unfolding verify_inclusion verify_checkpoint
  accepts e proof cp operator sealed verified same root = ground (arith, sealed, verified, root)

  -- Let OpenLog open an operator's store of up to 2^63 entries. For the entry at a position, Prove returns a proof, and
  -- VerifyInclusion accepts it for that entry under the checkpoint of the log that the operator has signed.
  pub verify_inclusion-prove :
      (k : Bytes) (s : Store) (l : Log) (i issued_at : ℕ) (e : Entry)
      → length k ≡ private_key_size
      → open_log p (p.public k) s ≡ ok l
      → length s ≤ 9223372036854775808
      → get_elem? s i ≡ some e
      → (proof : Proof) × (prove p i l ≡ ok proof)
        × (verify_inclusion p e proof (signed k issued_at l) (p.public k) ≡ true)
  unfolding prove
  verify_inclusion-prove k s l i issued_at e key opened small at_i =
      let valid = open_log-IsLogOf p (p.public k) s l opened in
      let entry = valid.admitted i e at_i in
      let leaf_i : get_elem? l.leafs i ≡ some (entry_id p e) =
        rw valid.leaves (get_elem?-map (entry_id p) s i at_i) in
      let size : length l.leafs ≡ length s = ap length valid.leaves ∙ length-map s (entry_id p) in
      let inside = get_elem?-lt l.leafs i leaf_i in
      let root = root_from_path-prove_path p i l.leafs (entry_id p e) (omega arith) leaf_i in
      let size' = signed-size k issued_at l in
      let head' = signed-head k issued_at l (omega arith) in
      let log' = signed-log k issued_at l in
      let verified = signed-verify k issued_at l key (open_log-id p (p.public k) s opened) in
      (
        record { seq = i; path = prove_path p i l.leafs },
        ground (arith, inside),
        accepts e (record { seq = i; path = prove_path p i l.leafs }) (signed k issued_at l)
            (p.public k) entry.sealed verified (entry.bound ∙ sym log') (rw (size', head') root),
      )

  accepts_growth :
      (older newer : Checkpoint) (proof : List Hash) (signer : Bytes) (want_log : Hash)
      → verify_as p older signer want_log ≡ true
      → verify_as p newer signer want_log ≡ true
      → 1 ≤ older.size
      → older.size < newer.size
      → cons_roots p older.size newer.size true proof older.head ≡ some (older.head, newer.head, [])
      → verify_consistency_as p older newer proof signer want_log ≡ true
  unfolding verify_consistency_as
  accepts_growth older newer proof signer want_log a b pos more roots = ground (
    arith,
    a,
    b,
    verify_as-log p older signer want_log a,
    verify_as-log p newer signer want_log b,
    roots,
  )

  accepts_rest :
      (older newer : Checkpoint) (signer : Bytes) (want_log : Hash)
      → verify_as p older signer want_log ≡ true
      → verify_as p newer signer want_log ≡ true
      → (older.size ≡ 0) ⊎ ((older.size ≡ newer.size) × (older.head ≡ newer.head))
      → verify_consistency_as p older newer [] signer want_log ≡ true
  unfolding verify_consistency_as
  accepts_rest older newer signer want_log a b (inl zero_size) = ground (
    arith,
    a,
    b,
    verify_as-log p older signer want_log a,
    verify_as-log p newer signer want_log b,
  )
  accepts_rest older newer signer want_log a b (inr (same, heads)) = ground (
    arith,
    a,
    b,
    verify_as-log p older signer want_log a,
    verify_as-log p newer signer want_log b,
  )

  -- Let the leaves of an older state of a log be the first of the leaves of a newer state, which are up to 2^63. Then the
  -- newer log returns a consistency proof for the older size, and VerifyConsistencyAs accepts it for the two
  -- checkpoints that the operator has signed.
  pub verify_consistency-prove :
      (k : Bytes) (older newer : Log) (t t' : ℕ)
      → length k ≡ private_key_size
      → older.id ≡ newer.id
      → older.leafs ≡ take (length older.leafs) newer.leafs
      → length older.leafs ≤ length newer.leafs
      → length newer.leafs ≤ 9223372036854775808
      → (proof : List Hash) × (log_prove_consistency p (length older.leafs) newer ≡ ok proof)
        × (verify_consistency_as p
              (signed k t older)
              (signed k t' newer)
              proof
              (p.public k)
              newer.id
            ≡ true)
  unfolding log_prove_consistency
  verify_consistency-prove k older newer t t' key same_log prefix shorter small =
      let a = signed-verify k t older key same_log in
      let b = signed-verify k t' newer key refl in
      let s = signed-size k t older in
      let s' = signed-size k t' newer in
      elim (ℕ_discrete (length older.leafs) 0) [
        | yes z ↦ (
          [],
          ground arith,
          accepts_rest (signed k t older) (signed k t' newer) (p.public k) newer.id a b
              (inl (s ∙ z)),
        )
        | no pos ↦ elim (ℕ_discrete (length older.leafs) (length newer.leafs)) [
          | yes same ↦
              let whole =
                prefix ∙ take_of_length-le (length older.leafs) newer.leafs (omega arith) in
              let heads =
                signed-head k t older (omega arith)
                ∙ (ap (mth p) whole ∙ sym (signed-head k t' newer (omega arith))) in
              (
                [],
                ground arith,
                accepts_rest (signed k t older) (signed k t' newer) (p.public k) newer.id a b
                    (inr (s ∙ (same ∙ sym s'), heads)),
              )
          | no less ↦ (
            prove_consistency p (length older.leafs) newer.leafs,
            ground arith,
            accepts_growth (signed k t older) (signed k t' newer) _ (p.public k) newer.id a b
                (omega (arith, s)) (omega (arith, s, s'))
                (rw
                  (
                    s,
                    s',
                    signed-head k t older (omega arith),
                    signed-head k t' newer (omega arith),
                    ap (mth p) prefix,
                  )
                  (cons_roots-prove_consistency p (length older.leafs) newer.leafs small
                    (omega arith) shorter)),
          )
        ]
      ]
