-- ===== src/Primitives/Toy.antt =====
-- A concrete instance of the primitives, for tests: a signature is the public key and a checksum of
-- the message. It meets `IsSigner`.
use Prim.Native.String.{String}
use cloudy.Prelude.{
  ℕ, ◌+◌, ◌*◌, ◌%◌, ◌≡◌, ◌<◌, Bool, true, false, List, [], ◌∷◌, ◌++◌, arith, length, take,
  replicate, length-append, length-take, length-replicate,
}
use cloudy.Prelude.Result.{Result, ok, err}
use cloudy.Prelude.Int.{pos_part, neg_part}
use cloudy.Prelude.Bytes.{Bytes, ascii, bytes_eq, be_bytes, bytes_eq_refl}
use cloudy.Primitives.{
  Hash, Field, string, text, bytes, bool, count, uint64, int64, time, Primitives, IsSigner,
  IsDigest, private_key_size, public_key_size, signature_size,
}

digest : ℕ → Bytes → Hash
digest acc [] = acc
digest acc (b ∷ bs) = digest ((acc * 257 + b + 1) % 1000000007) bs

field_bytes : Field → Bytes
field_bytes (string s) = ascii s
field_bytes (text s) = s
field_bytes (bytes x) = x
field_bytes (uint64 n) = be_bytes 8 n
field_bytes (int64 z) = be_bytes 8 (pos_part z + neg_part z)
field_bytes (time t) = be_bytes 8 t
field_bytes (bool true) = 1 ∷ []
field_bytes (bool false) = 0 ∷ []
field_bytes (count n) = be_bytes 8 n

fields_bytes : List Field → Bytes
fields_bytes [] = []
fields_bytes (f ∷ fs) = length (field_bytes f) ∷ field_bytes f ++ fields_bytes fs

mark : Bytes → Bytes
mark m = replicate 32 (digest 0 m % 256)

toy_public : Bytes → Bytes
toy_public k = take 32 k

toy_sign : Bytes → Bytes → Bytes
unfolding mark digest
toy_sign k m = take 32 k ++ mark m

toy_verify : Bytes → Bytes → Bytes → Bool
unfolding bytes_eq mark digest
toy_verify key m s = bytes_eq s (key ++ mark m)

toy_canon : String → List Field → Bytes
unfolding ascii field_bytes fields_bytes be_bytes
toy_canon tag fs = ascii tag ++ fields_bytes fs

unfoldable pub toy : Primitives
unfolding toy_verify toy_sign toy_public digest toy_canon
toy = record {
  verify = toy_verify;
  sign = toy_sign;
  public = toy_public;
  sha256 = digest 0;
  canon = toy_canon;
}

public_size : (k : Bytes) → length k ≡ private_key_size → length (toy_public k) ≡ public_key_size
unfolding toy_public
public_size k h = omega (arith, length-take 32 k)

sign_size : (k m : Bytes) → length k ≡ private_key_size → length (toy_sign k m) ≡ signature_size
unfolding toy_sign mark
sign_size k m h = omega (
  arith,
  length-append (take 32 k) (mark m),
  length-take 32 k,
  length-replicate 32 (digest 0 m % 256),
)

pub toy-IsSigner : IsSigner toy
unfolding toy toy_verify toy_sign toy_public
toy-IsSigner = record {
  public_size = public_size;
  sign_size = sign_size;
  verify_sign = λ k m h. bytes_eq_refl (take 32 k ++ mark m);
}

digest_lt : (acc : ℕ) (m : Bytes) → acc < 1000000007 → digest acc m < 1000000007
unfolding digest
digest_lt acc [] h = h
digest_lt acc (b ∷ bs) h = digest_lt ((acc * 257 + b + 1) % 1000000007) bs (omega arith)

pub toy-IsDigest : IsDigest toy
unfolding toy
toy-IsDigest m = omega (arith, digest_lt 0 m (omega arith))

-- The value of a call that returns one, and a stand-in for it otherwise.
abbrev pub value_or : {E A : Type 0} → A → Result E A → A
value_or a (ok b) = b
value_or a (err _) = a
