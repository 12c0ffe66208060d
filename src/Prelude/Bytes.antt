-- ===== src/Prelude/Bytes.antt =====
-- Byte slices as lists of numbers, their equality test, and the big-endian bytes of a number.
use Prim.Native.String.{String}
use Prim.Native.Char.{code}
use cloudy.Prelude.Table.{Key}
use cloudy.Prelude.{
  ℕ, zero, suc, ◌/◌, ◌%◌, ◌≡◌, refl, ◌↔◌, Bool, true, false, ◌&&◌, ◌||◌, List, [], ◌∷◌, ◌++◌, arith,
  ◌==◌, length, length-append,
}

abbrev pub Bytes : Type 0
Bytes = List ℕ

-- The bytes of an ASCII string.
unfoldable pub ascii : String → Bytes
ascii String.[] = []
ascii (String.◌∷◌ letter rest) = code letter ∷ ascii rest

-- bytes.Equal
unfoldable pub bytes_eq : Bytes → Bytes → Bool
bytes_eq [] [] = true
bytes_eq (a ∷ x) (b ∷ y) = a == b && bytes_eq x y
bytes_eq _ _ = false

pub eq-of-bytes_eq : (x y : Bytes) → bytes_eq x y ≡ true → x ≡ y
unfolding bytes_eq
eq-of-bytes_eq [] [] h = refl
eq-of-bytes_eq (a ∷ x) (b ∷ y) h = ground (arith, eq-of-bytes_eq x y)
eq-of-bytes_eq [] (b ∷ y) h = ground arith
eq-of-bytes_eq (a ∷ x) [] h = ground arith

pub bytes_eq_refl : (x : Bytes) → bytes_eq x x ≡ true
unfolding bytes_eq
bytes_eq_refl [] = refl
bytes_eq_refl (a ∷ x) = ground (arith, bytes_eq_refl x)

pub bytes_eq_iff : (x y : Bytes) → (bytes_eq x y ≡ true) ↔ (x ≡ y)
bytes_eq_iff x y = (eq-of-bytes_eq x y, λ e. rw e (bytes_eq_refl y))

-- Is the key in the list: `seen[string(key)]`, with the keys that were put into the map.
unfoldable pub has_key : Bytes → List Bytes → Bool
has_key k [] = false
has_key k (j ∷ js) = bytes_eq j k || has_key k js

-- The `w` bytes of a number, most significant first.
unfoldable pub be_bytes : ℕ → ℕ → Bytes
be_bytes zero n = []
be_bytes (suc w) n = be_bytes w (n / 256) ++ n % 256 ∷ []

pub length-be_bytes : (w n : ℕ) → length (be_bytes w n) ≡ w
unfolding be_bytes
length-be_bytes zero n = refl
length-be_bytes (suc w) n =
    omega (arith, length-append (be_bytes w (n / 256)) (n % 256 ∷ []), length-be_bytes w (n / 256))

pub bytes_eq_comm : (x y : Bytes) → bytes_eq x y ≡ bytes_eq y x
unfolding bytes_eq
bytes_eq_comm [] [] = refl
bytes_eq_comm [] (b ∷ y) = refl
bytes_eq_comm (a ∷ x) [] = refl
bytes_eq_comm (a ∷ x) (b ∷ y) = ground (arith, bytes_eq_comm x y)

instance unfoldable pub bytes-Key : Key Bytes
bytes-Key = record { same = bytes_eq; same_exact = eq-of-bytes_eq; same_refl = bytes_eq_refl }
