-- ===== src/Record/Tree/Split.antt =====
-- largestPow2LT: where it returns, what it returns, and the sizes for which it does not.
use native.Mathlib.Nat.{pow-suc, one-le-pow, pow-le-pow_right}
use native.Mathlib.Decide.{dec_le}
use cloudy.Prelude.{
  ℕ, zero, suc, ◌*◌, ◌%◌, ◌^◌, ◌≡◌, ◌≤◌, ◌<◌, ◌⊎◌, inl, inr, refl, ap, ◌∙◌, dec_lt, arith, none,
  some, ltb, Bool-cases,
}
use cloudy.Record.Tree.{double_below, largest_pow2_lt}

double_below-some :
    (f k n : ℕ) {r : ℕ} → k < n → double_below f k n ≡ some r → (r < n) × (n ≤ r * 2)
unfolding double_below
double_below-some zero k n lt h = cc
double_below-some (suc f) k n {r} lt h =
    ground (arith, double_below-some f (k * 2 % 18446744073709551616) n {r = r})

-- What largestPow2LT returns for a size of two or more lies below the size and not below its half.
pub largest_pow2_lt-bounds :
    (n : ℕ) {k : ℕ} → 2 ≤ n → largest_pow2_lt n ≡ some k → (0 < k) × (k < n) × (n ≤ k * 2)
unfolding largest_pow2_lt
largest_pow2_lt-bounds n big h = omega (arith, double_below-some 64 1 n big h)

double_below-total :
    (f e k n : ℕ)
    → n ≤ k * 2 ^ suc f
    → k < n
    → n ≤ 9223372036854775808
    → k ≡ 2 ^ e
    → (d : ℕ) × (double_below (suc f) k n ≡ some (2 ^ d))
unfolding double_below
double_below-total zero e k n enough lt small pow = (e, ground arith)
double_below-total (suc f) e k n enough lt small pow =
    let exact : k * 2 % 18446744073709551616 ≡ k * 2 = omega arith in
    elim (Bool-cases (ltb (k * 2) n)) [
      | inr stop ↦ (e, rw (exact, stop, pow))
      | inl more ↦
          let (d, found) =
            double_below-total f (suc e) (k * 2) n
              (omega (arith, ap (λ (t : ℕ). k * t) (pow-suc 2 (suc f)))) (ground arith) small
              (rw (pow, pow-suc) refl) in
          (d, ground (arith, exact, more, found))
    ]

-- For every size from 2 to 2^63 largestPow2LT returns, and what it returns is the largest power of
-- two below the size.
pub largest_pow2_lt_lem :
    (n : ℕ)
    → 2 ≤ n
    → n ≤ 9223372036854775808
    → (d : ℕ) × (largest_pow2_lt n ≡ some (2 ^ d)) × (2 ^ d < n) × (n ≤ 2 ^ d * 2)
unfolding largest_pow2_lt
largest_pow2_lt_lem n big small =
    let (d, found) = double_below-total 63 0 1 n (omega arith) big small refl in
    let (_, below, half) = largest_pow2_lt-bounds n big found in (d, found, below, half)

-- The values that `k` takes in the loop: a power of two up to 2^63, and 0 after it has wrapped.
abbrev Doubles : ℕ → Type 0
Doubles k = (k ≡ 0) ⊎ ((i : ℕ) × (k * 2 ^ i ≡ 9223372036854775808))

Doubles-le : (k : ℕ) → Doubles k → k ≤ 9223372036854775808
Doubles-le k (inl z) = omega arith
Doubles-le k (inr (i, e)) = grind (arith, one-le-pow i 2 (omega arith))

Doubles-double : (k : ℕ) → Doubles k → Doubles (k * 2 % 18446744073709551616)
Doubles-double k (inl z) = inl (omega arith)
Doubles-double k (inr (zero, e)) = inl (omega arith)
Doubles-double k (inr (suc i, e)) =
    let e' : k * 2 * 2 ^ i ≡ 9223372036854775808 =
      omega (arith, ap (λ (t : ℕ). k * t) (pow-suc 2 i)) in
    let small = Doubles-le (k * 2) (inr (i, e')) in
    let exact : k * 2 % 18446744073709551616 ≡ k * 2 = omega arith in inr (i, rw exact e')

double_below_diverges :
    (f k n : ℕ) → Doubles k → 9223372036854775808 < n → double_below f k n ≡ none
unfolding double_below
double_below_diverges zero k n d h = refl
double_below_diverges (suc f) k n d h = ground (
  arith,
  Doubles-le (k * 2 % 18446744073709551616) (Doubles-double k d),
  double_below_diverges f (k * 2 % 18446744073709551616) n (Doubles-double k d) h,
)

-- For a size above 2^63 the loop of largestPow2LT ends in no number of rounds.
pub largest_pow2_lt_diverges : (f n : ℕ) → 9223372036854775808 < n → double_below f 1 n ≡ none
largest_pow2_lt_diverges f n h = double_below_diverges f 1 n (inr (63, refl)) h

-- Where largestPow2LT returns, the size is at most 2^63 and the value is a power of two.
pub largest_pow2_lt-small : (n : ℕ) {k : ℕ} → largest_pow2_lt n ≡ some k → n ≤ 9223372036854775808
unfolding largest_pow2_lt
largest_pow2_lt-small n h = elim (dec_le n 9223372036854775808) [
  | yes small ↦ small
  | no large ↦ absurd (cc (largest_pow2_lt_diverges 64 n (omega arith)))
]

pow2_unique : (c d m : ℕ) → 2 ^ c < m → m ≤ 2 ^ c * 2 → 2 ^ d < m → m ≤ 2 ^ d * 2 → c ≡ d
pow2_unique c d m h1 h2 h3 h4 = elim (dec_lt c d) [
  | yes lt ↦
      let above : 2 ^ suc c ≤ 2 ^ d = pow-le-pow_right (omega arith) lt in
      absurd (omega (arith, pow-suc 2 c))
  | no ge ↦ elim (dec_lt d c) [
    | yes lt ↦
        let above : 2 ^ suc d ≤ 2 ^ c = pow-le-pow_right (omega arith) lt in
        absurd (omega (arith, pow-suc 2 d))
    | no le ↦ omega arith
  ]
]

-- A size between the split of a larger one and that larger one splits at the same place.
pub largest_pow2_lt-between :
    (n m : ℕ) {k : ℕ}
    → 2 ≤ n
    → largest_pow2_lt n ≡ some k
    → 0 < k
    → k < m
    → m ≤ n
    → largest_pow2_lt m ≡ some k
largest_pow2_lt-between n m {k} big h pos lt le =
    let small = largest_pow2_lt-small n h in
    let (d, found, below, half) = largest_pow2_lt_lem n big small in
    let (c, found', below', half') = largest_pow2_lt_lem m (omega arith) (omega arith) in
    let here : 2 ^ d ≡ k = cc (found, h) in
    let same = pow2_unique c d m below' half' (omega (arith, here)) (omega arith) in
    found' ∙ ap some (ap (λ (i : ℕ). 2 ^ i) same ∙ here)
