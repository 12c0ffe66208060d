-- ===== src/Economy/Spend.antt =====
-- internal/economy/spend.go: account identifiers and payer-signed spends.
use Prim.Native.String.{String}
use cloudy.Prelude.{ℕ, ◌≡◌, Bool, true, ◌&&◌, [], ◌∷◌, arith, length, ◌==◌}
use cloudy.Prelude.Bytes.{Bytes}
use cloudy.Primitives.{
  Hash, hash_bytes, string, bytes, uint64, time, Primitives, IsSigner, private_key_size,
  signature_size,
}

-- An [32]byte.
abbrev pub AccountId : Type 0
AccountId = Hash

-- Field for field as in the source. `amount` and `nonce` are uint64; `issued_at` is an instant.
pub record Spend : Type 0 where
  pub platform : String
  pub from : AccountId
  pub to : AccountId
  pub amount : ℕ
  pub exchange_hash : Hash
  pub issued_at : ℕ
  pub nonce : ℕ
  pub signature : Bytes

module _ (p : Primitives) where
  open p use {verify, sign, public, sha256, canon}

  unfoldable pub account_id_for : String → Bytes → AccountId
  account_id_for platform key =
      sha256 (canon "cloudy/economy/acct/v0" (string platform ∷ bytes key ∷ []))

  -- Spend.CanonicalBytes: every field but the signature.
  unfoldable pub spend_bytes : Spend → Bytes
  spend_bytes s = canon "cloudy/economy/spend/v0" (
      string s.platform
      ∷ bytes (hash_bytes s.from)
      ∷ bytes (hash_bytes s.to)
      ∷ uint64 s.amount
      ∷ bytes (hash_bytes s.exchange_hash)
      ∷ time s.issued_at
      ∷ uint64 s.nonce
      ∷ [])

  -- Spend.Sign
  unfoldable pub sign_spend : Bytes → Spend → Spend
  unfolding spend_bytes
  sign_spend k s = record s { signature = sign k (spend_bytes s) }

  -- Spend.Verify
  unfoldable pub verify_spend : Spend → Bytes → Bool
  unfolding spend_bytes
  verify_spend s key =
      length s.signature == signature_size && verify key (spend_bytes s) s.signature

  -- A spend that its payer has signed verifies under the payer's public key.
  verify-sign_spend :
      IsSigner p
      → (k : Bytes) (s : Spend) → length k ≡ private_key_size
      → verify_spend (sign_spend k s) (public k) ≡ true
  unfolding verify_spend sign_spend
  verify-sign_spend laws k s h =
      ground (arith, laws.sign_size k (spend_bytes s) h, laws.verify_sign k (spend_bytes s) h)
