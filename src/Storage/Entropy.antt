-- ===== src/Storage/Entropy.antt =====
-- internal/storage/placement.go: uniformInt. A reader is the bytes that it will give; where they end,
-- io.ReadFull reports an error.
use cloudy.Prelude.{
  ℕ, zero, suc, ◌+◌, ◌-◌, ◌*◌, ◌%◌, ◌<◌, ◌≡◌, inl, inr, true, false, Bool-cases, [], ◌∷◌, arith,
  leb, ltb, lt→ltb, length, length-drop, take, drop, ◌≤◌,
}
use cloudy.Prelude.Bytes.{Bytes}
use cloudy.Prelude.Result.{Result, ok, err, ◌>>=◌, ◌>>◌, guard, Result-cases}

-- The errors of the package that the modelled files return. `entropy_failed` wraps the reader's error.
pub data Error : Type 0 where
  object_too_large corrupt_frame table_exhausted bad_challenge bad_count bad_bound entropy_failed
        insufficient_hosts :
      Error

-- io.ReadFull into n bytes: the bytes, and the reader after them.
unfoldable pub read_full : ℕ → Bytes → Result Error (Bytes × Bytes)
read_full n reader = do
  guard (leb n (length reader)) entropy_failed
  ok (take n reader, drop n reader)

-- binary.BigEndian.Uint64, of the value `acc` of the bytes before.
unfoldable pub be_value : ℕ → Bytes → ℕ
be_value acc [] = acc
be_value acc (b ∷ bs) = be_value (acc * 256 + b) bs

-- The loop of uniformInt; without fuel it gives up like a reader that has ended, which `uniform_int` never
-- comes to.
unfoldable pub uniform_fuel : ℕ → ℕ → Bytes → Result Error (ℕ × Bytes)
uniform_fuel zero n reader = err entropy_failed
uniform_fuel (suc f) n reader = read_full 8 reader >>= λ (buf, rest).
    elim (ltb (be_value 0 buf) (18446744073709551615 - 18446744073709551615 % n)) [
      | true ↦ ok (be_value 0 buf % n, rest)
      | false ↦ uniform_fuel f n rest
    ]

-- uniformInt. Each turn takes 8 bytes, so the length of the reader bounds the turns.
unfoldable pub uniform_int : Bytes → ℕ → Result Error (ℕ × Bytes)
uniform_int reader n = do guard (ltb 0 n) bad_bound; uniform_fuel (suc (length reader)) n reader

-- A draw is below the bound.
uniform_fuel_lt :
    (f n : ℕ) (reader rest : Bytes) (v : ℕ) → 0 < n → uniform_fuel f n reader ≡ ok (v, rest) → v < n
unfolding uniform_fuel
uniform_fuel_lt zero n reader rest v pos_n h = absurd (ground (arith, h))
uniform_fuel_lt (suc f) n reader rest v pos_n h = elim (Result-cases (read_full 8 reader)) [
  | inr (x, e) ↦ absurd (ground (arith, h, e))
  | inl ((buf, left), e) ↦
      elim (Bool-cases (ltb (be_value 0 buf) (18446744073709551615 - 18446744073709551615 % n))) [
        | inl t ↦
            let is : be_value 0 buf % n ≡ v = ground (arith, h, e, t) in omega (arith, is, pos_n)
        | inr t ↦ uniform_fuel_lt f n left rest v pos_n (ground (arith, h, e, t))
      ]
]

pub uniform_int_lt : (reader rest : Bytes) (n v : ℕ) → uniform_int reader n ≡ ok (v, rest) → v < n
unfolding uniform_int
uniform_int_lt reader rest n v h = elim (Bool-cases (ltb 0 n)) [
  | inl e ↦
      let run : uniform_fuel (suc (length reader)) n reader ≡ ok (v, rest) = ground (arith, h, e) in
      uniform_fuel_lt (suc (length reader)) n reader rest v (ground (arith, e)) run
  | inr e ↦ absurd (ground (arith, h, e))
]

-- The reader ends before it gives a number that uniformInt accepts for the bound: after some draws of 8 bytes,
-- each of them rejected, fewer than 8 bytes are left.
pub data DrawEnds (n : ℕ) : Bytes → Type 0 where
  short : (reader : Bytes) → length reader < 8 → DrawEnds n reader
  rejected :
      (reader : Bytes)
      → 8 ≤ length reader
      → 18446744073709551615 - 18446744073709551615 % n ≤ be_value 0 (take 8 reader)
      → DrawEnds n (drop 8 reader)
      → DrawEnds n reader

-- Drawing fails only where the reader ends, so the fuel is enough if it exceeds the length of the reader.
uniform_fuel-DrawEnds :
    (f n : ℕ) (reader : Bytes) (x : Error)
    → length reader < f
    → uniform_fuel f n reader ≡ err x
    → (x ≡ entropy_failed) × DrawEnds n reader
unfolding uniform_fuel read_full
uniform_fuel-DrawEnds zero n reader x enough h = absurd (omega (arith, enough))
uniform_fuel-DrawEnds (suc f) n reader x enough h = elim (Bool-cases (leb 8 (length reader))) [
  | inr e ↦ (ground (arith, h, e), short reader (ground (arith, e)))
  | inl e ↦
      elim (Bool-cases
        (ltb (be_value 0 (take 8 reader)) (18446744073709551615 - 18446744073709551615 % n))) [
          | inl t ↦ absurd (ground (arith, h, e, t))
          | inr t ↦
              let full : 8 ≤ length reader = ground (arith, e) in
              let next : uniform_fuel f n (drop 8 reader) ≡ err x = ground (arith, h, e, t) in
              let (why, ends) =
                uniform_fuel-DrawEnds f n (drop 8 reader) x
                  (omega (arith, length-drop 8 reader, full, enough)) next in
              (why, rejected reader full (ground (arith, t)) ends)
        ]
]

pub uniform_int-DrawEnds :
    (reader : Bytes) (n : ℕ) (x : Error)
    → 0 < n
    → uniform_int reader n ≡ err x
    → (x ≡ entropy_failed) × DrawEnds n reader
unfolding uniform_int
uniform_int-DrawEnds reader n x pos_n h =
    let test : ltb 0 n ≡ true = lt→ltb 0 n pos_n in
    let run : uniform_fuel (suc (length reader)) n reader ≡ err x = ground (arith, h, test) in
    uniform_fuel-DrawEnds (suc (length reader)) n reader x (omega arith) run

pub read_full-fails :
    (n : ℕ) (reader : Bytes) (x : Error)
    → read_full n reader ≡ err x
    → (x ≡ entropy_failed) × (length reader < n)
unfolding read_full
read_full-fails n reader x h = elim (Bool-cases (leb n (length reader))) [
  | inl e ↦ absurd (ground (arith, h, e))
  | inr e ↦ (ground (arith, h, e), ground (arith, e))
]
