-- ===== src/Prelude/Word.antt =====
-- Go's 64-bit integers. A `uint64` is a number below 2^64, an `int64` an integer from -2^63 to
-- 2^63 - 1; each operation wraps as the machine's does.
use cloudy.Prelude.{ℕ, ◌+◌, ◌-◌, ◌%◌, ◌^◌, ◌≤◌, ◌≡◌, refl, arith, ltb, if◌then◌else◌}
use cloudy.Prelude.Int.{ℤ, pos, negsuc, pos_part, neg_part, ◌+ℤ◌, ◌-ℤ◌}

abbrev pub u64_mod : ℕ
u64_mod = 2 ^ 64

-- math.MaxInt64
abbrev pub max_i64 : ℕ
max_i64 = 9223372036854775807

-- math.MinInt64
abbrev pub min_i64 : ℤ
min_i64 = negsuc 9223372036854775807

-- The `int64` with the bits of `n`, for `n` below 2^64.
abbrev pub of_bits : ℕ → ℤ
of_bits n = if ltb n 9223372036854775808 then pos n else negsuc (18446744073709551615 - n)

unfoldable pub wrap_i64 : ℤ → ℤ
wrap_i64 (pos n) = of_bits (n % 18446744073709551616)
wrap_i64 (negsuc n) = of_bits (18446744073709551615 - n % 18446744073709551616)

abbrev pub InI64 : ℤ → Type 0
InI64 z =
    (pos_part z ≤ 9223372036854775807 + neg_part z)
    × (neg_part z ≤ 9223372036854775808 + pos_part z)

pub wrap_i64-InI64 : (z : ℤ) → InI64 (wrap_i64 z)
unfolding wrap_i64
wrap_i64-InI64 (pos n) = ground arith
wrap_i64-InI64 (negsuc n) = ground arith

pub wrap_i64_of_in : (z : ℤ) → InI64 z → wrap_i64 z ≡ z
unfolding wrap_i64
wrap_i64_of_in (pos n) h = ground arith
wrap_i64_of_in (negsuc n) h = ground arith

-- int64(n) of a uint64
unfoldable pub to_i64 : ℕ → ℤ
to_i64 n = wrap_i64 (pos n)

unfoldable pub add_i64 : ℤ → ℤ → ℤ
add_i64 a b = wrap_i64 (a +ℤ b)

unfoldable pub sub_i64 : ℤ → ℤ → ℤ
sub_i64 a b = wrap_i64 (a -ℤ b)

pub to_i64_of_le : (n : ℕ) → n ≤ max_i64 → to_i64 n ≡ pos n
unfolding to_i64
to_i64_of_le n h = wrap_i64_of_in (pos n) (omega arith)

pub add_i64_of_in : (a b : ℤ) → InI64 (a +ℤ b) → add_i64 a b ≡ a +ℤ b
unfolding add_i64
add_i64_of_in a b h = wrap_i64_of_in (a +ℤ b) h

pub sub_i64_of_in : (a b : ℤ) → InI64 (a -ℤ b) → sub_i64 a b ≡ a -ℤ b
unfolding sub_i64
sub_i64_of_in a b h = wrap_i64_of_in (a -ℤ b) h

wrap_past_max : add_i64 (pos max_i64) (pos 1) ≡ min_i64
unfolding add_i64 wrap_i64 ◌+ℤ◌
wrap_past_max = refl
