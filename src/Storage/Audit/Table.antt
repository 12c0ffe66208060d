-- ===== src/Storage/Audit/Table.antt =====
-- What a host answers to a challenge, and that it answers every challenge of a table.
use cloudy.Prelude.{
  ℕ, zero, suc, ◌+◌, ◌-◌, ◌≤◌, ◌<◌, ◌≡◌, refl, ◌⊎◌, inl, inr, true, Bool-cases, List, [], ◌∷◌,
  arith, leb, ltb, lt→ltb, length,
}
use cloudy.Prelude.Int.{pos, negsuc, ◌+ℤ◌}
use cloudy.Prelude.Word.{max_i64, wrap_i64, add_i64}
use cloudy.Prelude.Bytes.{Bytes}
use cloudy.Prelude.Result.{ok, err, Result-cases}
use cloudy.Primitives.{Hash, Primitives}
use cloudy.Storage.Entropy.{
  DrawEnds, entropy_failed, read_full, uniform_int, uniform_int_lt, uniform_int-DrawEnds,
  read_full-fails,
}
use cloudy.Storage.Audit.{
  Challenge, ChallengeTable, answered, refused, panicked, remaining, response_digest, respond_slice,
  respond, build_entries, build_challenge_table,
}

module _ (p : Primitives) where
  -- What Respond comes to for every challenge whose offset and span are an int64 of at least 0 and 1, on a shard
  -- shorter than 2^63 bytes: an answer if the range lies in the shard, ErrBadChallenge if it ends behind the shard
  -- and before 2^63, and a panic of the slice expression if its end is 2^63 or more, where the sum wraps.
  pub respond-cases :
      (sealed nonce : Bytes) (o n : ℕ)
      → length sealed ≤ max_i64
      → o ≤ max_i64
      → 1 ≤ n
      → n ≤ max_i64
      → ((respond p sealed (record { offset = pos o; span = pos n; nonce = nonce })
            ≡ answered (response_digest p sealed o n nonce))
          × (o + n ≤ length sealed))
        ⊎ ((respond p sealed (record { offset = pos o; span = pos n; nonce = nonce }) ≡ refused)
            × ((length sealed < o + n) × (o + n ≤ max_i64)))
        ⊎ ((respond p sealed (record { offset = pos o; span = pos n; nonce = nonce }) ≡ panicked)
            × (max_i64 < o + n))
  unfolding respond respond_slice
  respond-cases sealed nonce o n small low one high = elim (Bool-cases (leb (o + n) max_i64)) [
    | inl e ↦
        let end : add_i64 (pos o) (pos n) ≡ pos (o + n) =
          unfold add_i64 wrap_i64 ◌+ℤ◌ in ground (arith, e) in
        elim (Bool-cases (leb (o + n) (length sealed))) [
          | inl f ↦ inl (ground (arith, end, f, one), ground (arith, f))
          | inr f ↦ inr (inl (ground (arith, end, f, one), (ground (arith, f), ground (arith, e))))
        ]
    | inr e ↦
        let end : add_i64 (pos o) (pos n) ≡ negsuc (18446744073709551615 - (o + n)) =
          unfold add_i64 wrap_i64 ◌+ℤ◌ in ground (arith, e, low, high) in
        inr (inr (ground (arith, end, one), ground (arith, e)))
  ]

  -- A challenge that lies in the shard, with the answer of a host that holds the shard.
  pub record Fair (sealed : Bytes) (ch : Challenge) (digest : Hash) : Type 0 where
    pub start : ℕ
    pub count : ℕ
    pub starts : ch.offset ≡ pos start
    pub counts : ch.span ≡ pos count
    pub inside : start + count ≤ length sealed
    pub some_bytes : 1 ≤ count
    pub answer : respond p sealed ch ≡ answered digest

  pub data AllFair (sealed : Bytes) : List (Challenge × Hash) → Type 0 where
    no_more : AllFair sealed []
    one_more :
        (ch : Challenge) (digest : Hash) (entries : List (Challenge × Hash))
        → Fair sealed ch digest
        → AllFair sealed entries
        → AllFair sealed ((ch, digest) ∷ entries)

  -- The entropy ends in the making of `m` entries: in a draw of an offset or of a span, or in a nonce.
  pub data TableEnds (sealed : Bytes) : ℕ → Bytes → Type 0 where
    at_offset :
        (m : ℕ) (entropy : Bytes)
        → DrawEnds (length sealed) entropy
        → TableEnds sealed (suc m) entropy
    at_span :
        (m off : ℕ) (entropy entropy_1 : Bytes)
        → uniform_int entropy (length sealed) ≡ ok (off, entropy_1)
        → DrawEnds (length sealed - off) entropy_1
        → TableEnds sealed (suc m) entropy
    at_nonce :
        (m off span : ℕ) (entropy entropy_1 entropy_2 : Bytes)
        → uniform_int entropy (length sealed) ≡ ok (off, entropy_1)
        → uniform_int entropy_1 (length sealed - off) ≡ ok (span, entropy_2)
        → length entropy_2 < 16
        → TableEnds sealed (suc m) entropy
    after :
        (m off span : ℕ) (entropy entropy_1 entropy_2 nonce entropy_3 : Bytes)
        → uniform_int entropy (length sealed) ≡ ok (off, entropy_1)
        → uniform_int entropy_1 (length sealed - off) ≡ ok (span, entropy_2)
        → read_full 16 entropy_2 ≡ ok (nonce, entropy_3)
        → TableEnds sealed m entropy_3
        → TableEnds sealed (suc m) entropy

  build_entries-AllFair :
      (sealed entropy : Bytes) (m : ℕ)
      → length sealed ≤ max_i64
      → 0 < length sealed
      → ((entries : List (Challenge × Hash)) × ((rest : Bytes) × ((build_entries p sealed m entropy
                ≡ ok (entries, rest))
              × ((length entries ≡ m) × AllFair sealed entries))))
        ⊎ ((build_entries p sealed m entropy ≡ err entropy_failed) × TableEnds sealed m entropy)
  unfolding build_entries
  build_entries-AllFair sealed entropy zero small full =
      inl ([], (entropy, (refl, (refl, no_more))))
  build_entries-AllFair sealed entropy (suc m) small full =
      elim (Result-cases (uniform_int entropy (length sealed))) [
        | inr (x, e) ↦
            let (why, ends) = uniform_int-DrawEnds entropy (length sealed) x full e in
            inr (ground (arith, e, why), at_offset m entropy ends)
        | inl ((off, entropy_1), e) ↦
            let below = uniform_int_lt entropy entropy_1 (length sealed) off e in
            let left : 0 < length sealed - off = omega (arith, below) in
            elim (Result-cases (uniform_int entropy_1 (length sealed - off))) [
              | inr (x, f) ↦
                  let (why, ends) = uniform_int-DrawEnds entropy_1 (length sealed - off) x left f in
                  inr (ground (arith, e, f, why), at_span m off entropy entropy_1 e ends)
              | inl ((span, entropy_2), f) ↦
                  let fits = uniform_int_lt entropy_1 entropy_2 (length sealed - off) span f in
                  elim (Result-cases (read_full 16 entropy_2)) [
                    | inr (x, g) ↦
                        let (why, ends) = read_full-fails 16 entropy_2 x g in
                        inr (
                          ground (arith, e, f, g, why),
                          at_nonce m off span entropy entropy_1 entropy_2 e f ends,
                        )
                    | inl ((nonce, entropy_3), g) ↦
                        let ch : Challenge = record {
                          offset = pos off;
                          span = pos (span + 1);
                          nonce = nonce;
                        } in
                        let digest = response_digest p sealed off (span + 1) nonce in
                        let inside : off + (span + 1) ≤ length sealed =
                          omega (arith, below, fits) in
                        let said : respond p sealed ch ≡ answered digest =
                          elim (respond-cases sealed nonce off (span + 1) small
                            (omega (arith, below, small)) (omega arith)
                            (omega (arith, inside, small))) [
                              | inl (a, _) ↦ a
                              | inr (inl (_, (behind, _))) ↦ absurd (omega (arith, behind, inside))
                              | inr (inr (_, beyond)) ↦
                                  absurd (omega (arith, beyond, inside, small))
                            ] in
                        let fair : Fair sealed ch digest = record {
                          start = off;
                          count = span + 1;
                          starts = refl;
                          counts = refl;
                          inside = inside;
                          some_bytes = omega arith;
                          answer = said;
                        } in
                        elim (build_entries-AllFair sealed entropy_3 m small full) [
                          | inr (x, ends) ↦ inr (
                            ground (arith, e, f, g, said, x),
                            after m off span entropy entropy_1 entropy_2 nonce entropy_3 e f g ends,
                          )
                          | inl (entries, (rest, (h, (n, k)))) ↦ inl (
                            (ch, digest) ∷ entries,
                            (
                              rest,
                              (
                                ground (arith, e, f, g, said, h),
                                (omega (arith, n), one_more ch digest entries fair k),
                              ),
                            ),
                          )
                        ]
                  ]
            ]
      ]

  -- On a shard that is not empty and is shorter than 2^63 bytes, BuildChallengeTable for one challenge or more
  -- either fails because the entropy ends, in a draw of uniformInt that rejected all before it or in a nonce, or
  -- returns a table with that many challenges left, each of which lies in the shard and is answered by a host
  -- that holds the shard with the very digest that the table expects.
  pub build_challenge_table-AllFair :
      (sealed entropy : Bytes) (m : ℕ)
      → length sealed ≤ max_i64
      → 0 < length sealed
      → 0 < m
      → ((t : ChallengeTable) × ((build_challenge_table p sealed m entropy ≡ ok t)
            × ((remaining t ≡ m) × AllFair sealed t.entries)))
        ⊎ ((build_challenge_table p sealed m entropy ≡ err entropy_failed)
            × TableEnds sealed m entropy)
  unfolding build_challenge_table remaining
  build_challenge_table-AllFair sealed entropy m small full some' =
      let asked : ltb 0 m ≡ true = lt→ltb 0 m some' in
      elim (build_entries-AllFair sealed entropy m small full) [
        | inl (entries, (rest, (h, (n, k)))) ↦ inl (
          record { entries = entries; next = 0 },
          (ground (arith, h, asked, full), (omega (arith, n), k)),
        )
        | inr (h, ends) ↦ inr (ground (arith, h, asked, full), ends)
      ]
