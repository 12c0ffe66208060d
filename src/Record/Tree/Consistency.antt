-- ===== src/Record/Tree/Consistency.antt =====
-- Consistency proofs: the prover's proof leads the verifier to both tree heads.
use cloudy.Prelude.{
  ℕ, zero, suc, ◌-◌, ◌^◌, ◌≡◌, ◌≤◌, ◌<◌, refl, ap, sym, ◌∙◌, arith, List, [], ◌∷◌, ◌++◌, some, Bool,
  true, false, length, length-append, length-take, take, drop, ℕ_discrete,
}
use mathlib.Core.Path.{ap₂}
use native.Mathlib.Decide.{dec_le}
use cloudy.Primitives.{Hash, Primitives}
use cloudy.Record.Tree.{
  largest_pow2_lt, unsnoc, node_hash, mth, sub_proof_fuel, prove_consistency, cons_roots_fuel,
  cons_roots,
}
use cloudy.Record.Tree.Split.{largest_pow2_lt_lem, largest_pow2_lt-between}
use cloudy.Record.Tree.Shape.{halves_shorter, mth-split}
use cloudy.Record.Tree.Lists.{unsnoc-snoc, take-take, drop-take, take_of_length-le}

module _ (p : Primitives) where
  -- The head of the first leaves, when they reach past the split.
  pub mth-take :
      (m : ℕ) (xs : List Hash) {k : ℕ}
      → 2 ≤ length xs
      → largest_pow2_lt (length xs) ≡ some k
      → k < m
      → m ≤ length xs
      → mth p (take m xs) ≡ node_hash p (mth p (take k xs)) (mth p (take (m - k) (drop k xs)))
  mth-take m xs {k} big e lt le =
      let (front, back, pos, below) = halves_shorter xs big e in
      let long : length (take m xs) ≡ m = omega (arith, length-take m xs) in
      let same : largest_pow2_lt (length (take m xs)) ≡ some k =
        ap largest_pow2_lt long ∙ largest_pow2_lt-between (length xs) m big e pos lt le in
      mth-split p (take m xs) (omega arith) same
      ∙ ap₂ (node_hash p) (ap (mth p) (take-take k m xs (omega arith)))
          (ap (mth p) (drop-take k m xs (omega arith)))

  -- The proof for `m` of the leaves leads to the two heads, and is used up.
  abbrev Leads : ℕ → ℕ → ℕ → List Hash → Bool → Hash → Type 0
  Leads f r m xs complete seed =
      length (sub_proof_fuel p f m xs complete) < r
      → cons_roots_fuel p r m (length xs) complete (sub_proof_fuel p f m xs complete) seed
        ≡ some (mth p (take m xs), mth p xs, [])

  Leads-same :
      (f r m : ℕ) (xs : List Hash) (complete : Bool) (seed : Hash)
      → m ≡ length xs
      → (complete ≡ true → seed ≡ mth p (take m xs))
      → Leads (suc f) (suc r) m xs complete seed
  unfolding sub_proof_fuel cons_roots_fuel unsnoc
  Leads-same f r m xs true seed e h long =
      ground (arith, h refl, take_of_length-le m xs (omega arith))
  Leads-same f r m xs false seed e h long = ground (arith, take_of_length-le m xs (omega arith))

  -- One step of subProof and of consRoots, on each side of the split.
  module _ (f m : ℕ) (xs : List Hash) {k : ℕ} (complete : Bool)
      (e : largest_pow2_lt (length xs) ≡ some k) (inside : m < length xs) where
    sub_proof-left :
        m ≤ k
        → sub_proof_fuel p (suc f) m xs complete
          ≡ sub_proof_fuel p f m (take k xs) complete ++ mth p (drop k xs) ∷ []
    unfolding sub_proof_fuel
    sub_proof-left h = ground arith

    sub_proof-right :
        k < m
        → sub_proof_fuel p (suc f) m xs complete
          ≡ sub_proof_fuel p f (m - k) (drop k xs) false ++ mth p (take k xs) ∷ []
    unfolding sub_proof_fuel
    sub_proof-right h = ground arith

  module _ (r m n : ℕ) {k : ℕ} (complete : Bool) (rest : List Hash) (last seed : Hash)
      {old new : Hash} {left : List Hash} (e : largest_pow2_lt n ≡ some k) (inside : m < n) where
    roots-left :
        m ≤ k
        → cons_roots_fuel p r m k complete rest seed ≡ some (old, new, left)
        → cons_roots_fuel p (suc r) m n complete (rest ++ last ∷ []) seed
          ≡ some (old, node_hash p new last, left)
    unfolding cons_roots_fuel
    roots-left h s = ground (arith, unsnoc-snoc rest last)

    roots-right :
        k < m
        → cons_roots_fuel p r (m - k) (n - k) false rest seed ≡ some (old, new, left)
        → cons_roots_fuel p (suc r) m n complete (rest ++ last ∷ []) seed
          ≡ some (node_hash p last old, node_hash p last new, left)
    unfolding cons_roots_fuel
    roots-right h s = ground (arith, unsnoc-snoc rest last)

  module _ (f r m : ℕ) (xs : List Hash) {k : ℕ} (complete : Bool) (seed : Hash)
      (big : 2 ≤ length xs) (e : largest_pow2_lt (length xs) ≡ some k)
      (inside : m < length xs) where
    Leads-left :
        m ≤ k → Leads f r m (take k xs) complete seed → Leads (suc f) (suc r) m xs complete seed
    Leads-left le ih long =
        let (front, back, _, _) = halves_shorter xs big e in
        let path = sub_proof-left f m xs complete e inside le in
        let shorter =
          length-append (sub_proof_fuel p f m (take k xs) complete) (mth p (drop k xs) ∷ []) in
        let sub = ih (omega (arith, shorter, ap length path)) in
        rw (path, mth-split p xs big e)
          (roots-left r m (length xs) complete _ _ seed e inside le
            (rw (front, take-take m k xs le) at sub))

    Leads-right :
        k < m → Leads f r (m - k) (drop k xs) false seed → Leads (suc f) (suc r) m xs complete seed
    Leads-right lt ih long =
        let (front, back, _, _) = halves_shorter xs big e in
        let path = sub_proof-right f m xs complete e inside lt in
        let shorter =
          length-append (sub_proof_fuel p f (m - k) (drop k xs) false) (mth p (take k xs) ∷ []) in
        let sub = ih (omega (arith, shorter, ap length path)) in
        rw (path, mth-split p xs big e, mth-take m xs big e lt (omega arith))
          (roots-right r m (length xs) complete _ _ seed e inside lt (rw back at sub))

  Leads-split :
      (f r m : ℕ) (xs : List Hash) {k : ℕ} (complete : Bool) (seed : Hash)
      → 2 ≤ length xs
      → largest_pow2_lt (length xs) ≡ some k
      → m < length xs
      → (m ≤ k → Leads f r m (take k xs) complete seed)
      → (k < m → Leads f r (m - k) (drop k xs) false seed)
      → Leads (suc f) (suc r) m xs complete seed
  Leads-split f r m xs {k} complete seed big e inside ih_left ih_right = elim (dec_le m k) [
    | yes le ↦ Leads-left f r m xs complete seed big e inside le (ih_left le)
    | no gt ↦ Leads-right f r m xs complete seed big e inside (omega arith) (ih_right (omega arith))
  ]

  sub_proof_fuel-roots :
      (f r m : ℕ) (xs : List Hash) (complete : Bool) (seed : Hash)
      → length xs ≤ f
      → length xs ≤ 9223372036854775808
      → 1 ≤ m
      → m ≤ length xs
      → (complete ≡ true → seed ≡ mth p (take m xs))
      → Leads f r m xs complete seed
  sub_proof_fuel-roots f zero m xs complete seed enough small pos le h long = absurd (omega arith)
  sub_proof_fuel-roots zero (suc r) m xs complete seed enough small pos le h long =
      absurd (omega arith)
  sub_proof_fuel-roots (suc f) (suc r) m xs complete seed enough small pos le h long =
      elim (ℕ_discrete m (length xs)) [
        | yes same ↦ Leads-same f r m xs complete seed same h long
        | no other ↦
            let (d, e, _, _) = largest_pow2_lt_lem (length xs) (omega arith) small in
            let (front, back, above, below) = halves_shorter xs (omega arith) e in
            Leads-split f r m xs complete seed (omega arith) e (omega arith)
              (λ l.
                sub_proof_fuel-roots f r m (take (2 ^ d) xs) complete seed (omega (arith, front))
                  (omega (arith, front)) pos (omega (arith, front))
                  (λ c. h c ∙ ap (mth p) (sym (take-take m (2 ^ d) xs l))))
              (λ l.
                sub_proof_fuel-roots f r (m - 2 ^ d) (drop (2 ^ d) xs) false seed
                  (omega (arith, back)) (omega (arith, back)) (omega arith) (omega (arith, back))
                  (λ c. absurd (cc c)))
              long
      ]

  -- For up to 2^63 leaves, the proof that proveConsistency returns for the first `m` of them, one or
  -- more, leads consRoots from the head of those to the same head and the head of all, and no hash of
  -- the proof is left.
  pub cons_roots-prove_consistency :
      (m : ℕ) (xs : List Hash)
      → length xs ≤ 9223372036854775808
      → 1 ≤ m
      → m ≤ length xs
      → cons_roots p m (length xs) true (prove_consistency p m xs) (mth p (take m xs))
        ≡ some (mth p (take m xs), mth p xs, [])
  unfolding prove_consistency cons_roots
  cons_roots-prove_consistency m xs small pos le =
      sub_proof_fuel-roots (length xs) (suc (length (prove_consistency p m xs))) m xs true
        (mth p (take m xs)) (omega arith) small pos le (λ c. refl) (omega arith)
