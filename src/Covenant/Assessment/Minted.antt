-- ===== src/Covenant/Assessment/Minted.antt =====
-- What MemberIDFor mints, the gate of the book lets through.
use Prim.Native.String.{String}
use cloudy.Prelude.{ℕ, zero, suc, ◌*◌, ◌/◌, ◌%◌, ◌<◌, ◌≡◌, refl, true, [], ◌∷◌, ◌++◌, arith, length}
use cloudy.Prelude.Bytes.{Bytes, be_bytes, length-be_bytes}
use cloudy.Primitives.{hash_bytes, string, bytes, Primitives}
use cloudy.Covenant.Assessment.{hex_digit, hex_encode, all_hex, valid_member_id, member_id_for}

length-hex_encode : (bs : Bytes) → length (hex_encode bs) ≡ 2 * length bs
unfolding hex_encode
length-hex_encode [] = refl
length-hex_encode (b ∷ bs) = omega (arith, length-hex_encode bs)

data AreBytes : Bytes → Type 0 where
  none_left : AreBytes []
  one_more : (b : ℕ) (bs : Bytes) → b < 256 → AreBytes bs → AreBytes (b ∷ bs)

AreBytes-snoc : (bs : Bytes) (b : ℕ) → AreBytes bs → b < 256 → AreBytes (bs ++ b ∷ [])
AreBytes-snoc [] b none_left h = one_more b [] h none_left
AreBytes-snoc (c ∷ bs) b (one_more _ _ i k) h = one_more c (bs ++ b ∷ []) i (AreBytes-snoc bs b k h)

be_bytes-AreBytes : (w n : ℕ) → AreBytes (be_bytes w n)
unfolding be_bytes
be_bytes-AreBytes zero n = none_left
be_bytes-AreBytes (suc w) n =
    AreBytes-snoc (be_bytes w (n / 256)) (n % 256) (be_bytes-AreBytes w (n / 256)) (omega arith)

all_hex-hex_encode : (bs : Bytes) → AreBytes bs → all_hex (hex_encode bs) ≡ true
unfolding hex_encode all_hex hex_digit
all_hex-hex_encode [] none_left = refl
all_hex-hex_encode (b ∷ bs) (one_more _ _ h k) =
    let high : b / 16 < 16 = omega (arith, h) in
    let low : b % 16 < 16 = omega arith in ground (arith, all_hex-hex_encode bs k, high, low)

-- Every member id that MemberIDFor mints, for any platform and key, has the one shape that the book's gates
-- admit: 64 lower-case hexadecimal digits.
pub valid_member_id-member_id_for :
    (p : Primitives) (platform : String) (key : Bytes)
    → valid_member_id (member_id_for p platform key) ≡ true
unfolding valid_member_id member_id_for
valid_member_id-member_id_for p platform key = ground (
  arith,
  length-hex_encode digest,
  length-be_bytes 32 sum,
  all_hex-hex_encode digest (be_bytes-AreBytes 32 sum),
)
  where
    sum : ℕ
    sum = p.sha256 (p.canon "cloudy/covenant/member/v0" (string platform ∷ bytes key ∷ []))

    digest : Bytes
    digest = hash_bytes sum
