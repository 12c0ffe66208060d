-- ===== src/Record/Filing.antt =====
-- internal/record/filing.go: a witness takes in the filing of a claim before the operator acts.
use cloudy.Prelude.{
  ℕ, ◌≡◌, refl, subst, ◌∙◌, Bool, true, false, not, ◌&&◌, ◌||◌, Bool-cases, inl, inr, [], ◌∷◌,
  arith, length, ◌==◌, if◌then◌else◌,
}
use cloudy.Prelude.Bytes.{Bytes, bytes_eq, bytes_eq_comm}
use cloudy.Prelude.Result.{Result, ok, ◌>>◌, guard}
use cloudy.Primitives.{
  Hash, hash_bytes, bytes, time, Primitives, IsSigner, public_key_size, private_key_size,
  signature_size,
}
use cloudy.Record.Entry.{zero_hash}

-- The errors of Accept, in the order of its tests.
pub data Refusal : Type 0 where
  intake_malformed bad_commitment own_filing : Refusal

pub record FilingCommitment : Type 0 where
  pub claim : Hash
  pub exchange : Hash
  pub type_hash : Hash
  pub filed_at : ℕ
  pub filer : Bytes
  pub signature : Bytes

pub record FilingReceipt : Type 0 where
  pub commitment : FilingCommitment
  pub witness : Bytes
  pub received_at : ℕ
  pub signature : Bytes

pub record FilingIntake : Type 0 where
  pub private : Bytes
  pub public : Bytes

-- FilingReceipt.IndependentOf
unfoldable pub independent_of : FilingReceipt → Bytes → Bool
independent_of r operator = length operator == public_key_size && not (bytes_eq r.witness operator)

-- The receipt of Accept before it is signed.
unfoldable pub unsigned_receipt : FilingIntake → FilingCommitment → ℕ → FilingReceipt
unsigned_receipt fi f at = record {
  commitment = f;
  witness = fi.public;
  received_at = at;
  signature = [];
}

module _ (p : Primitives) where
  open p use {verify, sign, public, canon}

  -- FilingCommitment.CanonicalBytes
  unfoldable pub filing_bytes : FilingCommitment → Bytes
  filing_bytes f = canon "drops/lifecycle-filing/v1" (
      bytes (hash_bytes f.claim)
      ∷ bytes (hash_bytes f.exchange)
      ∷ bytes (hash_bytes f.type_hash)
      ∷ time f.filed_at
      ∷ bytes f.filer
      ∷ [])

  -- FilingCommitment.Sign
  unfoldable pub sign_filing : Bytes → FilingCommitment → FilingCommitment
  unfolding filing_bytes
  sign_filing k f = record f { signature = sign k (filing_bytes f) }

  -- FilingCommitment.Verify
  unfoldable pub verify_filing : FilingCommitment → Bool
  unfolding filing_bytes
  verify_filing f =
      length f.filer == public_key_size
      && length f.signature == signature_size
      && not (f.claim == zero_hash)
      && not (f.exchange == zero_hash)
      && verify f.filer (filing_bytes f) f.signature

  -- FilingReceipt.CanonicalBytes
  unfoldable pub receipt_bytes : FilingReceipt → Bytes
  receipt_bytes r =
      canon "drops/lifecycle-filing-receipt/v1"
        (bytes (filing_bytes r.commitment) ∷ bytes r.witness ∷ time r.received_at ∷ [])

  -- FilingReceipt.Verify
  unfoldable pub verify_receipt : FilingReceipt → Bool
  unfolding receipt_bytes
  verify_receipt r =
      if not (verify_filing r.commitment)
      then false
      else if not (length r.witness == public_key_size)
          || not (length r.signature == signature_size)
      then false
      else if bytes_eq r.witness r.commitment.filer
      then false
      else verify r.witness (receipt_bytes r) r.signature

  unfoldable pub new_filing_intake : Bytes → FilingIntake
  new_filing_intake k = record {
    private = k;
    public = if length k == private_key_size then public k else [];
  }

  -- FilingIntake.Accept
  unfoldable pub accept : FilingIntake → FilingCommitment → ℕ → Result Refusal FilingReceipt
  unfolding unsigned_receipt
  accept fi f at = do
    guard (length fi.private == private_key_size) intake_malformed
    guard (verify_filing f) bad_commitment
    guard (not (bytes_eq f.filer fi.public)) own_filing
    let r = unsigned_receipt fi f at
    ok (record r { signature = sign fi.private (receipt_bytes r) })

  -- What Accept signs, and what it returns.
  draft : Bytes → FilingCommitment → ℕ → FilingReceipt
  draft k f at = record { commitment = f; witness = public k; received_at = at; signature = [] }

  issued : Bytes → FilingCommitment → ℕ → FilingReceipt
  unfolding draft
  issued k f at = record (draft k f at) { signature = sign k (receipt_bytes (draft k f at)) }

  accept-issued :
      (k : Bytes) (f : FilingCommitment) (at : ℕ) {r : FilingReceipt}
      → length k ≡ private_key_size
      → accept (new_filing_intake k) f at ≡ ok r
      → (verify_filing f ≡ true) × (bytes_eq (public k) f.filer ≡ false) × (issued k f at ≡ r)
  unfolding accept new_filing_intake issued draft unsigned_receipt
  accept-issued k f at key h = elim (Bool-cases (verify_filing f)) [
    | inr bad ↦ absurd (ground arith)
    | inl good ↦ elim (Bool-cases (bytes_eq f.filer (public k))) [
      | inl own ↦ absurd (ground arith)
      | inr other ↦ (good, bytes_eq_comm (public k) f.filer ∙ other, ground arith)
    ]
  ]

  -- What an intake with a key of the right length returns is a receipt of the commitment for the instant, under its
  -- own key; the receipt verifies, and it is independent of every operator but the intake itself.
  pub accept-verify_receipt :
      IsSigner p
      → (k : Bytes) (f : FilingCommitment) (at : ℕ) (operator : Bytes) (r : FilingReceipt)
      → length k ≡ private_key_size
      → length operator ≡ public_key_size
      → accept (new_filing_intake k) f at ≡ ok r
      → (verify_receipt r ≡ true)
        × (r.commitment ≡ f)
        × (r.received_at ≡ at)
        × (r.witness ≡ public k)
        × (independent_of r operator ≡ not (bytes_eq (public k) operator))
  unfolding issued draft verify_receipt receipt_bytes independent_of
  accept-verify_receipt laws k f at operator r key op h =
      let (good, other, same) = accept-issued k f at key h in
      let m = receipt_bytes (draft k f at) in
      subst
        (λ r.
          (verify_receipt r ≡ true)
          × (r.commitment ≡ f)
          × (r.received_at ≡ at)
          × (r.witness ≡ public k)
          × (independent_of r operator ≡ not (bytes_eq (public k) operator)))
        same
        (
          ground (
            arith,
            good,
            other,
            laws.public_size k key,
            laws.sign_size k m key,
            laws.verify_sign k m key,
          ),
          refl,
          refl,
          refl,
          ground arith,
        )
