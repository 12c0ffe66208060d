-- ===== src/Storage/Tests.antt =====
-- Runs of the frame and the audit on concrete inputs, and each theorem at an input.
use cloudy.Prelude.{ℕ, ◌+◌, ◌≡◌, ◌⊎◌, ◌≤◌, ◌<◌, refl, arith, length, List, [], ◌∷◌, replicate}
use cloudy.Prelude.Int.{pos, ◌+ℤ◌}
use cloudy.Prelude.Word.{max_i64, wrap_i64, add_i64}
use cloudy.Prelude.Bytes.{Bytes, be_bytes, has_key, bytes_eq}
use cloudy.Prelude.Result.{ok, err}
use cloudy.Primitives.Toy.{toy, value_or}
use cloudy.Storage.Entropy.{entropy_failed, read_full, be_value, uniform_fuel, uniform_int}
use cloudy.Storage.Placement.{
  Host, swap, shuffle_from, shuffle, pass_1, pass_2, assign, place_shards,
}
use cloudy.Storage.Placement.Spread.{Spread, All, nobody, one_more, place_shards-Spread}
use cloudy.Storage.Quantize.{first_class, class_for, pad, unpad, unpad-pad}
use cloudy.Storage.Audit.{
  ChallengeTable, answered, refused, panicked, next_challenge, remaining, verify_proof,
  response_digest, respond_slice, respond, build_entries, build_challenge_table,
}
use cloudy.Storage.Audit.Table.{AllFair, TableEnds, respond-cases, build_challenge_table-AllFair}

-- Everything that a run calls.
run : ℕ
unfolding toy be_bytes ◌+ℤ◌ wrap_i64 add_i64 read_full be_value uniform_fuel uniform_int first_class
    class_for pad unpad next_challenge remaining verify_proof response_digest respond_slice respond
    build_entries build_challenge_table swap shuffle_from shuffle pass_1 pass_2 assign place_shards
    has_key bytes_eq
run = 0

abbrev object : Bytes
object = 1 ∷ 2 ∷ 3 ∷ []

abbrev shard : Bytes
shard = replicate 12 9

abbrev entropy : Bytes
entropy = replicate 40 7

classed : class_for 1048569 1 ≡ ok 16777216
unfolding run
classed = refl

abbrev padded : Bytes
padded = (value_or ([], []) (pad object 16 entropy)).0

unpad-pad_example : (length padded ≡ 16) × (unpad padded ≡ ok object)
unfolding run
unpad-pad_example = unpad-pad object entropy padded (replicate 35 7) 16 (omega arith) refl

-- The end of the range wraps.
respond-cases_example :
    ((respond toy shard (record { offset = pos max_i64; span = pos 1; nonce = [] })
        ≡ answered (response_digest toy shard max_i64 1 []))
      × (max_i64 + 1 ≤ length shard))
    ⊎ ((respond toy shard (record { offset = pos max_i64; span = pos 1; nonce = [] }) ≡ refused)
        × ((length shard < max_i64 + 1) × (max_i64 + 1 ≤ max_i64)))
    ⊎ ((respond toy shard (record { offset = pos max_i64; span = pos 1; nonce = [] }) ≡ panicked)
        × (max_i64 < max_i64 + 1))
respond-cases_example =
    respond-cases toy shard [] max_i64 1 (omega arith) (omega arith) (omega arith) (omega arith)

build_challenge_table-AllFair_example :
    ((t : ChallengeTable) × ((build_challenge_table toy shard 1 entropy ≡ ok t)
        × ((remaining t ≡ 1) × AllFair toy shard t.entries)))
    ⊎ ((build_challenge_table toy shard 1 entropy ≡ err entropy_failed)
        × TableEnds toy shard 1 entropy)
build_challenge_table-AllFair_example =
    build_challenge_table-AllFair toy shard entropy 1 (omega arith) (omega arith) (omega arith)

abbrev table : ChallengeTable
table = value_or (record { entries = []; next = 0 }) (build_challenge_table toy shard 1 entropy)

left_after_none : remaining table ≡ 1
unfolding run
left_after_none = refl

-- Two owners, of whom one has two hosts.
abbrev host : ℕ → ℕ → Host
host n o = record { id = n ∷ []; owner = o ∷ [] }

abbrev hosts : List Host
hosts = host 1 5 ∷ host 2 5 ∷ host 3 6 ∷ []

abbrev IsShort : Host → Type 0
IsShort h = length h.id ≡ 1

hosts-All : All IsShort hosts
hosts-All =
    one_more (host 1 5) _ refl (one_more (host 2 5) _ refl (one_more (host 3 6) [] refl nobody))

abbrev assigned : List Host
assigned = value_or [] (place_shards 3 hosts entropy)

place_shards-Spread_example : (length assigned ≡ 3) × (Spread assigned × All IsShort assigned)
unfolding run
place_shards-Spread_example = place_shards-Spread IsShort 3 hosts assigned entropy hosts-All refl
