-- ===== src/Record/Checkpoint.antt =====
-- internal/record/checkpoint.go: the operator's signed commitment to the head of a log.
use cloudy.Prelude.{ℕ, ◌≡◌, Bool, true, ◌&&◌, [], ◌∷◌, arith, length, ◌==◌}
use cloudy.Prelude.Bytes.{Bytes}
use cloudy.Primitives.{
  Hash, hash_bytes, bytes, uint64, time, Primitives, IsSigner, public_key_size, private_key_size,
  signature_size,
}
use cloudy.Record.Entry.{log_id}

-- Field for field as in the source. `size` is a uint64, and `issued_at` an instant.
pub record Checkpoint : Type 0 where
  pub log : Hash
  pub size : ℕ
  pub head : Hash
  pub issued_at : ℕ
  pub signature : Bytes

module _ (p : Primitives) where
  open p use {verify, sign, public, canon}

  -- Checkpoint.CanonicalBytes: every field but the signature.
  unfoldable pub checkpoint_bytes : Checkpoint → Bytes
  checkpoint_bytes c =
      canon "drops/checkpoint/v1" (
        bytes (hash_bytes c.log)
        ∷ uint64 c.size
        ∷ bytes (hash_bytes c.head)
        ∷ time c.issued_at
        ∷ [])

  -- Checkpoint.Sign
  unfoldable pub sign_checkpoint : Bytes → Checkpoint → Checkpoint
  unfolding checkpoint_bytes
  sign_checkpoint k c = record c { signature = sign k (checkpoint_bytes c) }

  -- Checkpoint.VerifyAs
  unfoldable pub verify_as : Checkpoint → Bytes → Hash → Bool
  unfolding checkpoint_bytes
  verify_as c signer want_log =
      length signer == public_key_size
      && length c.signature == signature_size
      && c.log == want_log
      && verify signer (checkpoint_bytes c) c.signature

  -- Checkpoint.Verify
  unfoldable pub verify_checkpoint : Checkpoint → Bytes → Bool
  verify_checkpoint c operator = verify_as c operator (log_id p operator)

  -- A checkpoint that its operator has signed verifies under the operator's key, for its own log.
  pub verify_as-sign_checkpoint :
      IsSigner p
      → (k : Bytes) (c : Checkpoint) → length k ≡ private_key_size
      → verify_as (sign_checkpoint k c) (public k) c.log ≡ true
  unfolding verify_as sign_checkpoint
  verify_as-sign_checkpoint laws k c h = ground (
    arith,
    laws.public_size k h,
    laws.sign_size k (checkpoint_bytes c) h,
    laws.verify_sign k (checkpoint_bytes c) h,
  )

  pub verify_as-log :
      (c : Checkpoint) (signer : Bytes) (want_log : Hash)
      → verify_as c signer want_log ≡ true
      → c.log ≡ want_log
  unfolding verify_as
  verify_as-log c signer want_log h = ground arith
