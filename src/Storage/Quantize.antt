-- ===== src/Storage/Quantize.antt =====
-- internal/storage/quantize.go: the size classes, and the frame that pads an object to a class. Sizes stay
-- far below 2^63, so the sums and products on int64 do not wrap.
use cloudy.Prelude.{
  ℕ, zero, suc, ◌+◌, ◌-◌, ◌*◌, ◌/◌, ◌%◌, ◌≤◌, ◌<◌, ◌≡◌, refl, ap, ◌∙◌, List, [], ◌∷◌, ◌++◌, arith,
  leb, length, take, drop, length-append, length-take, if◌then◌else◌,
}
use cloudy.Prelude.Bytes.{Bytes, be_bytes, length-be_bytes}
use cloudy.Prelude.Result.{Result, ok, err, ◌>>=◌, ◌>>◌, guard}
use cloudy.Storage.Entropy.{Error, object_too_large, corrupt_frame, read_full, be_value}

-- classes: 1, 16 and 64 MiB.
abbrev pub classes : List ℕ
classes = 1048576 ∷ 16777216 ∷ 67108864 ∷ []

abbrev pub frame_overhead : ℕ
frame_overhead = 8

-- The loop of classFor.
unfoldable pub first_class : ℕ → ℕ → List ℕ → Result Error ℕ
first_class framed data_shards [] = err object_too_large
first_class framed data_shards (c ∷ cs) =
    let rest = first_class framed data_shards cs in
    if leb framed (c * data_shards) then ok c else rest

-- classFor
unfoldable pub class_for : ℕ → ℕ → Result Error ℕ
class_for n data_shards = first_class (n + frame_overhead) data_shards classes

-- pad, with the reader after it.
unfoldable pub pad : Bytes → ℕ → Bytes → Result Error (Bytes × Bytes)
pad plain total rand = do
  guard (leb (length plain + frame_overhead) total) object_too_large
  read_full (total - (length plain + frame_overhead)) rand >>= λ (padding, rest).
      ok (be_bytes 8 (length plain) ++ (plain ++ padding), rest)

-- unpad
unfoldable pub unpad : Bytes → Result Error Bytes
unpad padded = do
  guard (leb frame_overhead (length padded)) corrupt_frame
  let n = be_value 0 (take frame_overhead padded)
  guard (leb n (length padded - frame_overhead)) corrupt_frame
  ok (take n (drop frame_overhead padded))

be_value-snoc :
    (acc : ℕ) (bs : Bytes) (b : ℕ) → be_value acc (bs ++ b ∷ []) ≡ be_value acc bs * 256 + b
unfolding be_value
be_value-snoc acc [] b = refl
be_value-snoc acc (c ∷ bs) b = be_value-snoc (acc * 256 + c) bs b

take_append : {A : Type 0} (n : ℕ) (xs ys : List A) → length xs ≡ n → take n (xs ++ ys) ≡ xs
take_append zero [] ys h = refl
take_append zero (x ∷ xs) ys h = ground (arith, h)
take_append (suc n) [] ys h = absurd (omega (arith, h))
take_append (suc n) (x ∷ xs) ys h = ap (λ t. x ∷ t) (take_append n xs ys (omega (arith, h)))

drop_append : {A : Type 0} (n : ℕ) (xs ys : List A) → length xs ≡ n → drop n (xs ++ ys) ≡ ys
drop_append zero [] ys h = refl
drop_append zero (x ∷ xs) ys h = absurd (omega (arith, h))
drop_append (suc n) [] ys h = absurd (omega (arith, h))
drop_append (suc n) (x ∷ xs) ys h = drop_append n xs ys (omega (arith, h))

-- 256 to the power w.
abbrev bound : ℕ → ℕ
bound zero = 1
bound (suc w) = bound w * 256

be_value-be_bytes : (w n : ℕ) → n < bound w → be_value 0 (be_bytes w n) ≡ n
unfolding be_bytes be_value
be_value-be_bytes zero n h = omega (arith, h)
be_value-be_bytes (suc w) n h =
    let high : n / 256 < bound w = omega (arith, h) in
    let whole = be_value-snoc 0 (be_bytes w (n / 256)) (n % 256) in
    let kept = be_value-be_bytes w (n / 256) high in omega (arith, whole, kept)

-- An object that fits is padded to exactly the size asked for, and what pad returns is unpadded to that object,
-- whatever the padding was. The object is shorter than 2^64 bytes, as every slice is.
pub unpad-pad :
    (plain rand out rest : Bytes) (total : ℕ)
    → length plain < 18446744073709551616
    → pad plain total rand ≡ ok (out, rest)
    → (length out ≡ total) × (unpad out ≡ ok plain)
unfolding pad unpad read_full
unpad-pad plain rand out rest total small h =
    let size = length plain in
    let padding = take (total - (size + 8)) rand in
    let room : size + 8 ≤ total = ground (arith, h) in
    let enough : total - (size + 8) ≤ length rand = ground (arith, h) in
    let is : out ≡ be_bytes 8 size ++ (plain ++ padding) = ground (arith, h) in
    let head = length-be_bytes 8 size in
    let value = be_value-be_bytes 8 size small in
    let tail = length-append plain padding in
    let whole = length-append (be_bytes 8 size) (plain ++ padding) in
    let padded = length-take (total - (size + 8)) rand in
    let sized : length out ≡ total =
      ap length is ∙ omega (arith, head, tail, whole, padded, enough, room) in
    let front : take 8 out ≡ be_bytes 8 size =
      ap (take 8) is ∙ take_append 8 (be_bytes 8 size) (plain ++ padding) head in
    let back : drop 8 out ≡ plain ++ padding =
      ap (drop 8) is ∙ drop_append 8 (be_bytes 8 size) (plain ++ padding) head in
    let number : be_value 0 (take 8 out) ≡ size = ap (be_value 0) front ∙ value in
    let object : take size (drop 8 out) ≡ plain =
      ap (take size) back ∙ take_append size plain padding refl in
    (sized, ground (arith, sized, number, object, room))
