-- ===== src/Primitives.antt =====
-- The code that the repository uses and does not contain: `crypto/ed25519`, `crypto/sha256` and
-- the `canon` encoder of the protocol module. They are parameters of every definition that calls
-- them; `IsSigner` is what `crypto/ed25519` documents of its keys and signatures.
pub mod Toy
use Prim.Native.String.{String}
use cloudy.Prelude.{ℕ, ◌^◌, ◌<◌, ◌≡◌, Bool, true, List, length}
use cloudy.Prelude.Int.{ℤ}
use cloudy.Prelude.Bytes.{Bytes, be_bytes}

-- A 32-byte array, as the number that its bytes spell: the arrays are the numbers below 2^256, which IsHash
-- says, and equal arrays are equal numbers. What holds of all numbers holds of all arrays. Where a number that is
-- no array would be a way out of a theorem, IsHash stands among its hypotheses and in its conclusion.
abbrev pub Hash : Type 0
Hash = ℕ

abbrev pub IsHash : Hash → Type 0
IsHash h = h < 2 ^ 256

-- h[:], for a number that IsHash admits.
abbrev pub hash_bytes : Hash → Bytes
hash_bytes h = be_bytes 32 h

-- One call on a canon builder: b.String(s), b.Bytes(x), b.Uint64(n), b.Int64(z), b.Time(t), b.Bool(q),
-- b.Count(n); `text` is b.String of a string that the model holds as its bytes.
-- An instant is its number of nanoseconds since Go's zero time.
pub data Field : Type 0 where
  string : String → Field
  text : Bytes → Field
  bytes : Bytes → Field
  uint64 : ℕ → Field
  int64 : ℤ → Field
  time : ℕ → Field
  bool : Bool → Field
  count : ℕ → Field

pub record Primitives : Type 0 where
  -- ed25519.Verify(key, message, signature), on a key and a signature of the right length
  pub verify : Bytes → Bytes → Bytes → Bool
  -- ed25519.Sign(private, message)
  pub sign : Bytes → Bytes → Bytes
  -- private.Public()
  pub public : Bytes → Bytes
  -- sha256.Sum256
  pub sha256 : Bytes → Hash
  -- canon.New(tag), the calls on the builder, and .Sum()
  pub canon : String → List Field → Bytes

-- ed25519.PublicKeySize, PrivateKeySize and SignatureSize
abbrev pub public_key_size : ℕ
public_key_size = 32

abbrev pub private_key_size : ℕ
private_key_size = 64

abbrev pub signature_size : ℕ
signature_size = 64

pub record IsSigner (p : Primitives) : Type 0 where
  pub public_size :
      (k : Bytes) → length k ≡ private_key_size → length (p.public k) ≡ public_key_size
  pub sign_size : (k m : Bytes) → length k ≡ private_key_size → length (p.sign k m) ≡ signature_size
  pub verify_sign :
      (k m : Bytes) → length k ≡ private_key_size → p.verify (p.public k) m (p.sign k m) ≡ true

-- sha256.Sum256 returns an array of 32 bytes.
abbrev pub IsDigest : Primitives → Type 0
IsDigest p = (m : Bytes) → IsHash (p.sha256 m)
