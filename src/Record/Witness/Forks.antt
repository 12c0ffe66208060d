-- ===== src/Record/Witness/Forks.antt =====
-- A witness never cosigns a fork: what its memory of the last checkpoint of each log is worth.
use cloudy.Prelude.{
  ◌≡◌, ◌≤◌, ◌⊎◌, inl, inr, sym, ap, ◌∙◌, arith, true, List, some, Bool-cases, length, take,
  length-take, ℕ_discrete,
}
use cloudy.Prelude.Dict.{lookup, insert, lookup-insert}
use cloudy.Prelude.Bytes.{Bytes}
use cloudy.Prelude.Result.{ok}
use cloudy.Primitives.{Hash, IsDigest, Primitives}
use cloudy.Record.Tree.Lists.{take-take, take_of_length-le}
use cloudy.Record.Tree.Hashed.{AllHash}
use cloudy.Record.Tree.Binding.{Collision, Collision-map}
use cloudy.Record.Checkpoint.{Checkpoint}
use cloudy.Record.Verify.Soundness.{CommitsTo, InConsistency, verify_consistency_binds}
use cloudy.Record.Witness.{Countersignature, Witness, extends_last, countersign_as}

module _ (p : Primitives) where
  countersign_as-remembers :
      (w : Witness) (cp : Checkpoint) (operator : Bytes) (want_log : Hash) (proof : List Hash)
      {cs : Countersignature} {w' : Witness}
      → countersign_as p w cp operator want_log proof ≡ ok (cs, w')
      → (w'.last ≡ insert cp.log cp w.last) × (extends_last p w cp operator want_log proof ≡ true)
  unfolding countersign_as
  countersign_as-remembers w cp operator want_log proof {cs} {w'} h =
      elim (Bool-cases (extends_last p w cp operator want_log proof)) [
        | inl e ↦ (ground arith, e)
        | inr e ↦ absurd (ground arith)
      ]

  -- A leaf list starts with another, or the pairs that were hashed have a collision.
  abbrev pub Prefix : (Hash → Hash → Type 0) → List Hash → List Hash → Type 0
  Prefix hashed ys xs = (take (length ys) xs ≡ ys) ⊎ Collision p hashed

  Prefix-map :
      {S T : Hash → Hash → Type 0} (ys xs : List Hash)
      → ((a b : Hash) → S a b → T a b)
      → Prefix S ys xs
      → Prefix T ys xs
  Prefix-map ys xs f (inl h) = inl h
  Prefix-map ys xs f (inr c) = inr (Collision-map p f c)

  Prefix-trans :
      (S : Hash → Hash → Type 0) (zs ys xs : List Hash)
      → Prefix S zs ys
      → Prefix S ys xs
      → Prefix S zs xs
  Prefix-trans S zs ys xs (inr c) k = inr c
  Prefix-trans S zs ys xs (inl h) (inr c) = inr c
  Prefix-trans S zs ys xs (inl h) (inl k) =
      let shorter : length zs ≤ length ys =
        omega (arith, length-take (length zs) ys, ap length h) in
      inl (sym (take-take (length zs) (length ys) xs shorter) ∙ (ap (take (length zs)) k ∙ h))

  module _ (leaves : Checkpoint → List Hash) where
    -- The checkpoint is over the leaves that are given for it, which are up to 2^63.
    pub record Honest (cp : Checkpoint) : Type 0 where
      pub commits : CommitsTo p cp (leaves cp)
      pub small : length (leaves cp) ≤ 9223372036854775808

    -- Calls of CountersignAs that succeed, one after the other. A call that fails changes nothing.
    pub data Calls : Witness → Witness → Type 0 where
      stop : (w : Witness) → Calls w w
      call :
          (w w' w'' : Witness) (cp : Checkpoint) (operator : Bytes) (want_log : Hash)
          (proof : List Hash) (cs : Countersignature)
          → countersign_as p w cp operator want_log proof ≡ ok (cs, w')
          → Honest cp
          → AllHash proof
          → Calls w' w''
          → Calls w w''

    -- The pairs hashed for a call: those of VerifyConsistencyAs, called with the checkpoint that the witness
    -- remembers of the log, and those of mth for the leaves of the two.
    abbrev pub InCall : Witness → Checkpoint → List Hash → Hash → Hash → Type 0
    InCall w cp proof a b =
        (old : Checkpoint) × (lookup cp.log w.last ≡ some old)
        × InConsistency p old cp proof (leaves old) (leaves cp) a b

    abbrev pub InCalls : (w w' : Witness) → Calls w w' → Hash → Hash → Type 0
    InCalls w w' (stop _) a b = ⊥
    InCalls w w' (call _ w1 _ cp operator want_log proof cs h here fits rest) a b =
        InCall w cp proof a b ⊎ InCalls w1 w' rest a b

    module _ (digests : IsDigest p) where
      countersign_as-extends :
          (w : Witness) (cp old : Checkpoint) (operator : Bytes) (want_log : Hash)
          (proof : List Hash) {cs : Countersignature} {w' : Witness}
          → countersign_as p w cp operator want_log proof ≡ ok (cs, w')
          → lookup cp.log w.last ≡ some old
          → Honest cp
          → Honest old
          → AllHash proof
          → Prefix (InCall w cp proof) (leaves old) (leaves cp)
      unfolding extends_last
      countersign_as-extends w cp old operator want_log proof h seen here there fits =
          let (_, e) = countersign_as-remembers w cp operator want_log proof h in
          Prefix-map (leaves old) (leaves cp) (λ a b k. (old, seen, k))
            (verify_consistency_binds p old cp proof operator want_log (leaves old) (leaves cp)
              digests there.commits here.commits here.small fits (ground (arith, seen, e)))

      Calls-extend :
          (w w' : Witness) (log : Hash) (old : Checkpoint) (run : Calls w w')
          → lookup log w.last ≡ some old
          → Honest old
          → (new : Checkpoint) × (lookup log w'.last ≡ some new)
            × Honest new
            × Prefix (InCalls w w' run) (leaves old) (leaves new)
      Calls-extend w w' log old (stop _) seen there = (
        old,
        seen,
        there,
        inl (take_of_length-le (length (leaves old)) (leaves old) (omega arith)),
      )
      Calls-extend w w' log old (call _ w1 _ cp operator want_log proof cs h here fits rest) seen
            there =
          let (memory, _) = countersign_as-remembers w cp operator want_log proof h in
          let after = lookup-insert cp.log log cp w.last in
          elim (ℕ_discrete cp.log log) [
            | yes same ↦
                let (new, at_end, honest, prefix) =
                  Calls-extend w1 w' log cp rest (ground (arith, memory, after)) here in
                let step =
                  countersign_as-extends w cp old operator want_log proof h (ground arith) here
                    there fits in
                (
                  new,
                  at_end,
                  honest,
                  Prefix-trans (λ a b. InCall w cp proof a b ⊎ InCalls w1 w' rest a b) (leaves old)
                      (leaves cp) (leaves new)
                      (Prefix-map (leaves old) (leaves cp) (λ a b. inl) step)
                      (Prefix-map (leaves cp) (leaves new) (λ a b. inr) prefix),
                )
            | no other ↦
                let (new, at_end, honest, prefix) =
                  Calls-extend w1 w' log old rest (ground (arith, memory, after)) there in
                (new, at_end, honest, Prefix-map (leaves old) (leaves new) (λ a b. inr) prefix)
          ]

    -- Let SHA-256 return 32 bytes. Let a witness cosign a checkpoint, then any others of any logs, then a
    -- checkpoint of the first one's log, each of them over known leaves, at most 2^63, and each after the first
    -- with a proof of 32-byte arrays. Then the leaves of the last start with the leaves of the first, or else
    -- there are two different pairs of 32-byte arrays with one node hash among the pairs that are hashed for
    -- the checks of the cosigned checkpoints after the first against the ones in the witness's memory: by
    -- VerifyConsistencyAs for the proof, and by mth for the leaves of the two. So it never cosigns both sides
    -- of a fork.
    pub cosigned_prefix :
        (w0 w1 w2 w3 : Witness) (first last : Checkpoint) (op0 op2 : Bytes) (want0 want2 : Hash)
        (proof0 proof2 : List Hash) (cs0 cs2 : Countersignature)
        → IsDigest p
        → countersign_as p w0 first op0 want0 proof0 ≡ ok (cs0, w1)
        → (run : Calls w1 w2) → countersign_as p w2 last op2 want2 proof2 ≡ ok (cs2, w3)
        → first.log ≡ last.log
        → Honest first
        → Honest last
        → AllHash proof2
        → Prefix
            (λ a b. InCalls w1 w2 run a b ⊎ InCall w2 last proof2 a b)
            (leaves first)
            (leaves last)
    cosigned_prefix w0 w1 w2 w3 first last op0 op2 want0 want2 proof0 proof2 cs0 cs2 digests h0 run
          h2 same honest0 honest2 fits =
        let (memory, _) = countersign_as-remembers w0 first op0 want0 proof0 h0 in
        let (mid, at_mid, honest1, prefix) =
          Calls-extend digests w1 w2 last.log first run
            (ground (arith, memory, lookup-insert first.log last.log first w0.last)) honest0 in
        let step =
          countersign_as-extends digests w2 last mid op2 want2 proof2 h2 at_mid honest2 honest1
            fits in
        Prefix-trans (λ a b. InCalls w1 w2 run a b ⊎ InCall w2 last proof2 a b) (leaves first)
          (leaves mid) (leaves last) (Prefix-map (leaves first) (leaves mid) (λ a b. inl) prefix)
          (Prefix-map (leaves mid) (leaves last) (λ a b. inr) step)
