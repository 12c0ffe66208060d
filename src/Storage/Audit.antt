-- ===== src/Storage/Audit.antt =====
-- internal/storage/audit.go: the table of challenges over a sealed shard, and a host's answer to one.
pub mod Table
use cloudy.Prelude.{
  ℕ, zero, suc, ◌+◌, ◌-◌, ◌≤◌, ◌<◌, ◌≡◌, refl, ◌⊎◌, inl, inr, Bool, true, false, not, ◌||◌,
  Bool-cases, List, [], ◌∷◌, ◌++◌, arith, leb, ltb, length, take, drop, ◌==◌, if◌then◌else◌,
}
use cloudy.Prelude.Int.{ℤ, pos, negsuc, ltb_ℤ, ◌+ℤ◌}
use cloudy.Prelude.Word.{max_i64, wrap_i64, add_i64}
use cloudy.Prelude.Bytes.{Bytes, be_bytes}
use cloudy.Prelude.Result.{Result, ok, err, ◌>>=◌, ◌>>◌, guard, Result-cases}
use cloudy.Primitives.{Hash, Primitives}
use cloudy.Storage.Entropy.{
  Error, entropy_failed, table_exhausted, bad_challenge, bad_count, read_full, uniform_int,
  uniform_int_lt, read_full-fails,
}

-- `nonce` is an array of 16 bytes.
pub record Challenge : Type 0 where
  pub offset : ℤ
  pub span : ℤ
  pub nonce : Bytes

-- The two slices of the table side by side, and the position of the next entry.
pub record ChallengeTable : Type 0 where
  pub entries : List (Challenge × Hash)
  pub next : ℕ

-- What a call of Respond comes to: a digest, ErrBadChallenge, or a panic of the slice expression.
pub data Response : Type 0 where
  answered : Hash → Response
  refused panicked : Response

-- ChallengeTable.Next
unfoldable pub next_challenge : ChallengeTable → Result Error ((Challenge × Hash) × ChallengeTable)
next_challenge t = elim (drop t.next t.entries) [
  | [] ↦ err table_exhausted
  | ◌∷◌ entry _ ↦ ok (entry, record t { next = t.next + 1 })
]

-- ChallengeTable.Remaining
unfoldable pub remaining : ChallengeTable → ℕ
remaining t = length t.entries - t.next

-- VerifyProof
unfoldable pub verify_proof : Hash → Hash → Bool
verify_proof expected response = expected == response

module _ (p : Primitives) where
  open p use {sha256}

  -- What Respond hashes, for an offset and a span that are not negative.
  unfoldable pub response_digest : Bytes → ℕ → ℕ → Bytes → Hash
  response_digest sealed offset span nonce =
      sha256 (nonce ++ be_bytes 8 offset ++ be_bytes 8 span ++ take span (drop offset sealed))

  -- The rest of Respond after its test, with the end of the slice: Go panics where it is negative.
  unfoldable pub respond_slice : Bytes → Challenge → ℤ → Response
  respond_slice sealed ch end = elim ch.offset [
    | negsuc _ ↦ panicked
    | pos o ↦ elim ch.span [
      | negsuc _ ↦ panicked
      | pos n ↦ elim end [
        | negsuc _ ↦ panicked
        | pos _ ↦ answered (response_digest sealed o n ch.nonce)
      ]
    ]
  ]

  -- Respond
  unfoldable pub respond : Bytes → Challenge → Response
  respond sealed ch =
      if ltb_ℤ ch.offset (pos 0)
        || ltb_ℤ ch.span (pos 1)
        || ltb_ℤ (pos (length sealed)) (add_i64 ch.offset ch.span)
      then refused
      else respond_slice sealed ch (add_i64 ch.offset ch.span)

  -- The loop of BuildChallengeTable; `respond` cannot fail there, and its failures end the loop.
  unfoldable pub build_entries : Bytes → ℕ → Bytes → Result Error (List (Challenge × Hash) × Bytes)
  build_entries sealed zero entropy = ok ([], entropy)
  build_entries sealed (suc m) entropy = uniform_int entropy (length sealed) >>= λ (off, entropy_1).
      uniform_int entropy_1 (length sealed - off) >>= λ (span, entropy_2).
      read_full 16 entropy_2 >>= λ (nonce, entropy_3).
      elim (respond sealed (record { offset = pos off; span = pos (span + 1); nonce = nonce })) [
        | refused ↦ err bad_challenge
        | panicked ↦ err bad_challenge
        | answered digest ↦ build_entries sealed m entropy_3 >>= λ (entries, entropy_4). ok (
          (record { offset = pos off; span = pos (span + 1); nonce = nonce }, digest) ∷ entries,
          entropy_4,
        )
      ]

  -- BuildChallengeTable
  unfoldable pub build_challenge_table : Bytes → ℕ → Bytes → Result Error ChallengeTable
  build_challenge_table sealed m entropy = do
    guard (ltb 0 m) bad_count
    guard (not (length sealed == 0)) bad_challenge
    build_entries sealed m entropy >>= λ (entries, _). ok (record { entries = entries; next = 0 })
