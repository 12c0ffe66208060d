-- ===== src/Record/Entry.antt =====
-- internal/record/entry.go: one covenant between two members, sealed by both.
use cloudy.Prelude.{
  ℕ, ◌≡◌, Bool, true, false, not, ◌&&◌, ◌||◌, [], ◌∷◌, arith, length, ◌==◌, if◌then◌else◌,
}
use cloudy.Prelude.Bytes.{Bytes, bytes_eq, bytes_eq_refl, bytes_eq_comm}
use cloudy.Prelude.Result.{Result, ok, err, ◌>>=◌, ◌>>◌, guard}
use cloudy.Primitives.{
  Hash, hash_bytes, bytes, time, Primitives, IsSigner, public_key_size, private_key_size,
  signature_size,
}

-- The errors of the package, one constructor for each message.
pub data Error : Type 0 where
  proposer_malformed acceptor_malformed self_dialog : Error
  seal_malformed not_a_party : Error
  not_sealed wrong_log dangling_correction duplicate_leaf : Error
  operator_malformed out_of_range size_exceeds : Error
  witness_malformed own_operator unverified_checkpoint not_an_extension : Error

-- The absent reference.
abbrev pub zero_hash : Hash
zero_hash = 0

-- `nonce` is a [32]byte and `sealed_at` an instant.
pub record Entry : Type 0 where
  pub log : Hash
  pub proposer : Bytes
  pub acceptor : Bytes
  pub content : Hash
  pub corrects : Hash
  pub nonce : ℕ
  pub sealed_at : ℕ
  pub proposer_seal : Bytes
  pub acceptor_seal : Bytes

-- NewEntry; `nonce` is what crypto/rand draws.
unfoldable pub new_entry : Hash → Bytes → Bytes → Hash → Hash → ℕ → ℕ → Result Error Entry
new_entry log proposer acceptor content corrects at nonce = do
  guard (length proposer == public_key_size) proposer_malformed
  guard (length acceptor == public_key_size) acceptor_malformed
  guard (not (bytes_eq proposer acceptor)) self_dialog
  ok (record {
    log = log;
    proposer = proposer;
    acceptor = acceptor;
    content = content;
    corrects = corrects;
    nonce = nonce;
    sealed_at = at;
    proposer_seal = [];
    acceptor_seal = [];
  })

module _ (p : Primitives) where
  open p use {verify, sign, public, sha256, canon}

  unfoldable pub hash_content : Bytes → Hash
  hash_content content = sha256 (canon "drops/content/v0" (bytes content ∷ []))

  unfoldable pub log_id : Bytes → Hash
  log_id operator = sha256 (canon "drops/logid/v1" (bytes operator ∷ []))

  -- Entry.CanonicalBytes: every field but the seals.
  unfoldable pub entry_bytes : Entry → Bytes
  entry_bytes e = canon "drops/entry/v0" (
      bytes (hash_bytes e.log)
      ∷ bytes e.proposer
      ∷ bytes e.acceptor
      ∷ bytes (hash_bytes e.content)
      ∷ bytes (hash_bytes e.corrects)
      ∷ bytes (hash_bytes e.nonce)
      ∷ time e.sealed_at
      ∷ [])

  -- Entry.Seal
  unfoldable pub seal : Bytes → Entry → Result Error Entry
  seal k e = do
    guard (length k == private_key_size) seal_malformed
    let sig = sign k (entry_bytes e)
    if bytes_eq (public k) e.proposer
        then ok (record e { proposer_seal = sig })
        else if bytes_eq (public k) e.acceptor
        then ok (record e { acceptor_seal = sig })
        else err not_a_party

  -- Entry.Verify
  unfoldable pub verify_entry : Entry → Bool
  verify_entry e =
      if not (length e.proposer == public_key_size) || not (length e.acceptor == public_key_size)
      then false
      else if bytes_eq e.proposer e.acceptor
      then false
      else if not (length e.proposer_seal == signature_size)
          || not (length e.acceptor_seal == signature_size)
      then false
      else verify e.proposer (entry_bytes e) e.proposer_seal
        && verify e.acceptor (entry_bytes e) e.acceptor_seal

  -- Entry.ID
  unfoldable pub entry_id : Entry → Hash
  entry_id e = sha256 (
      canon "drops/leaf/v0"
        (bytes (entry_bytes e) ∷ bytes e.proposer_seal ∷ bytes e.acceptor_seal ∷ []))

  both_sealed : Bytes → Bytes → Entry → Entry
  both_sealed k k' e = record e {
    proposer_seal = sign k (entry_bytes e);
    acceptor_seal = sign k' (entry_bytes e);
  }

  both_sealed-verify_entry :
      IsSigner p
      → (k k' : Bytes) (e : Entry) → length k ≡ private_key_size
      → length k' ≡ private_key_size
      → e.proposer ≡ public k
      → e.acceptor ≡ public k'
      → bytes_eq (public k) (public k') ≡ false
      → verify_entry (both_sealed k k' e) ≡ true
  unfolding verify_entry both_sealed entry_bytes
  both_sealed-verify_entry laws k k' e key key' mine theirs other =
      let m = entry_bytes e in
      ground (
        arith,
        laws.public_size k key,
        laws.public_size k' key',
        laws.sign_size k m key,
        laws.sign_size k' m key',
        laws.verify_sign k m key,
        laws.verify_sign k' m key',
      )

  -- Let the two parties of an entry have different keys. When the proposer seals it and then the acceptor, neither
  -- call fails, and the entry verifies.
  verify_entry-seal :
      IsSigner p
      → (k k' : Bytes) (e : Entry) → length k ≡ private_key_size
      → length k' ≡ private_key_size
      → e.proposer ≡ public k
      → e.acceptor ≡ public k'
      → bytes_eq (public k) (public k') ≡ false
      → (e' : Entry) × ((seal k e >>= seal k') ≡ ok e') × (verify_entry e' ≡ true)
  unfolding seal both_sealed entry_bytes
  verify_entry-seal laws k k' e key key' mine theirs other = (
    both_sealed k k' e,
    ground (
      arith,
      bytes_eq_refl (public k),
      bytes_eq_refl (public k'),
      bytes_eq_comm (public k) (public k'),
    ),
    both_sealed-verify_entry laws k k' e key key' mine theirs other,
  )
