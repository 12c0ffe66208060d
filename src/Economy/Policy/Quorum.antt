-- ===== src/Economy/Policy/Quorum.antt =====
-- PolicyChange.Verify counts distinct stewards, each by a signature of its own over the change.
use cloudy.Prelude.{
  ◌≡◌, refl, true, false, List, [], ◌∷◌, inl, inr, arith, some, Bool-cases, Option-cases, length,
  ◌==◌,
}
use cloudy.Prelude.Int.{pos, ◌≤ℤ◌}
use cloudy.Prelude.Bytes.{Bytes, has_key, bytes_eq_refl}
use cloudy.Primitives.{Primitives, public_key_size, signature_size}
use cloudy.Economy.Policy.{
  Genesis, PolicyChange, change_bytes, find_signer, count_signers, verify_change,
}

-- No key stands in the list twice.
abbrev pub Distinct : List Bytes → Type 0
Distinct [] = Unit
Distinct (k ∷ ks) = (has_key k ks ≡ false) × Distinct ks

abbrev pub All : (Bytes → Type 0) → List Bytes → Type 0
All P [] = Unit
All P (k ∷ ks) = P k × All P ks

has_key-head : (k : Bytes) (ks : List Bytes) → has_key k (k ∷ ks) ≡ true
unfolding has_key
has_key-head k ks = rw (bytes_eq_refl k) refl

has_key-tail : (k j : Bytes) (ks : List Bytes) → has_key k ks ≡ true → has_key k (j ∷ ks) ≡ true
unfolding has_key
has_key-tail k j ks h = ground arith

module _ (p : Primitives) (payload : Bytes) (stewards sigs : List Bytes) where
  -- The key is a steward's, of the right length, and one of the signatures, also of the right
  -- length, fits it.
  pub record HasSigned (key : Bytes) : Type 0 where
    pub steward : has_key key stewards ≡ true
    pub sized : length key ≡ public_key_size
    pub sig : Bytes
    pub given : has_key sig sigs ≡ true
    pub sig_sized : length sig ≡ signature_size
    pub fits : p.verify key payload sig ≡ true

  find_signer-some :
      (seen keys : List Bytes) (sig : Bytes) {key : Bytes}
      → find_signer p payload seen keys sig ≡ some key
      → (has_key key keys ≡ true)
        × (has_key key seen ≡ false)
        × (length key ≡ public_key_size)
        × (p.verify key payload sig ≡ true)
  unfolding find_signer
  find_signer-some seen [] sig h = cc
  find_signer-some seen (k ∷ keys) sig {key} h = ground (
    arith,
    find_signer-some seen keys sig {key = key},
    has_key-head key keys,
    has_key-tail key k keys,
  )

  abbrev pub AreSigners : List Bytes → Type 0
  AreSigners ks = Distinct ks × All HasSigned ks

  pub count_signers-AreSigners :
      (seen rest : List Bytes)
      → ((sig : Bytes) → has_key sig rest ≡ true → has_key sig sigs ≡ true)
      → AreSigners seen
      → AreSigners (count_signers p payload stewards seen rest)
  unfolding count_signers
  count_signers-AreSigners seen [] sub h = h
  count_signers-AreSigners seen (sig ∷ rest) sub h =
      let sub' = λ (s : Bytes) (i : has_key s rest ≡ true). sub s (has_key-tail s sig rest i) in
      elim (Bool-cases (length sig == signature_size)) [
        | inr short ↦ rw short (count_signers-AreSigners seen rest sub' h)
        | inl sized ↦ elim (Option-cases (find_signer p payload seen stewards sig)) [
          | inl nobody ↦ rw (sized, nobody) (count_signers-AreSigners seen rest sub' h)
          | inr (key, found) ↦
              let (steward, fresh, long, fits) = find_signer-some seen stewards sig found in
              let signer : HasSigned key = record {
                steward = steward;
                sized = long;
                sig = sig;
                given = sub sig (has_key-head sig rest);
                sig_sized = ground arith;
                fits = fits;
              } in
              rw (sized, found)
                (count_signers-AreSigners (key ∷ seen) rest sub' ((fresh, h.0), (signer, h.1)))
        ]
      ]

-- A policy change verifies only if there are pairwise distinct stewards, at least as many as the
-- threshold, which is at least one, and for each of them one of the change's signatures is valid over
-- the change's canonical bytes. A signature or a steward that stands twice counts once.
pub verify_change_quorum :
    (p : Primitives) (c : PolicyChange) (g : Genesis)
    → verify_change p c g ≡ true
    → (ks : List Bytes) × Distinct ks
      × All (HasSigned p (change_bytes p c) g.stewards c.sigs) ks
      × (g.threshold ≤ℤ pos (length ks))
      × (pos 1 ≤ℤ g.threshold)
unfolding verify_change
verify_change_quorum p c g h =
    let ks = count_signers p (change_bytes p c) g.stewards [] c.sigs in
    let signers =
      count_signers-AreSigners p (change_bytes p c) g.stewards c.sigs [] c.sigs (λ s i. i)
        (tt, tt) in
    (ks, signers.0, signers.1, ground arith, ground arith)
