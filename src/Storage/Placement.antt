-- ===== src/Storage/Placement.antt =====
-- internal/storage/placement.go: the assignment of shards to hosts.
pub mod Spread
use cloudy.Prelude.{
  ℕ, zero, suc, ◌+◌, ◌-◌, ◌≡◌, Bool, true, false, not, ◌||◌, List, [], ◌∷◌, ◌++◌, Option, none,
  some, leb, length, get_elem?, set, ◌==◌, if◌then◌else◌,
}
use cloudy.Prelude.Bytes.{Bytes, has_key}
use cloudy.Prelude.Result.{Result, ok, err, ◌>>=◌, ◌>>◌, guard}
use cloudy.Storage.Entropy.{Error, bad_count, insufficient_hosts, uniform_int}

-- Two strings, as their bytes.
pub record Host : Type 0 where
  pub id : Bytes
  pub owner : Bytes

-- hosts[i], hosts[j] = hosts[j], hosts[i]. The indices of shuffle are in range; elsewhere Go panics, and
-- the list stays here.
unfoldable pub swap : ℕ → ℕ → List Host → List Host
swap i j hosts = elim (get_elem? hosts i) [
  | none ↦ hosts
  | some a ↦ elim (get_elem? hosts j) [ none ↦ hosts | some b ↦ set (set hosts i b) j a ]
]

-- The loop of shuffle, from the index i down to 1.
unfoldable pub shuffle_from : ℕ → List Host → Bytes → Result Error (List Host × Bytes)
shuffle_from zero hosts entropy = ok (hosts, entropy)
shuffle_from (suc i) hosts entropy =
    uniform_int entropy (suc i + 1) >>= λ (j, rest). shuffle_from i (swap (suc i) j hosts) rest

-- shuffle
unfoldable pub shuffle : List Host → Bytes → Result Error (List Host × Bytes)
shuffle hosts entropy = shuffle_from (length hosts - 1) hosts entropy

-- The first loop of PlaceShards; the two maps are the lists of their keys.
unfoldable pub pass_1 : ℕ → List Host → List Host → List Bytes → List Bytes → List Host × List Bytes
pass_1 n [] assigned used owners = (assigned, used)
pass_1 n (h ∷ hs) assigned used owners = elim (length assigned == n) [
  | true ↦ (assigned, used)
  | false ↦ elim (has_key h.id used || has_key h.owner owners) [
    | true ↦ pass_1 n hs assigned used owners
    | false ↦ pass_1 n hs (assigned ++ h ∷ []) (h.id ∷ used) (h.owner ∷ owners)
  ]
]

-- The second loop.
unfoldable pub pass_2 : ℕ → List Host → List Host → List Bytes → List Host
pass_2 n [] assigned used = assigned
pass_2 n (h ∷ hs) assigned used = elim (length assigned == n) [
  | true ↦ assigned
  | false ↦ elim (has_key h.id used) [
    | true ↦ pass_2 n hs assigned used
    | false ↦ pass_2 n hs (assigned ++ h ∷ []) (h.id ∷ used)
  ]
]

-- Both loops, over the shuffled hosts.
unfoldable pub assign : ℕ → List Host → List Host
assign n hosts = let (assigned, used) = pass_1 n hosts [] [] [] in pass_2 n hosts assigned used

-- PlaceShards
unfoldable pub place_shards : ℕ → List Host → Bytes → Result Error (List Host)
place_shards n hosts entropy = do
  guard (leb 1 n) bad_count
  guard (leb n (length hosts)) insufficient_hosts
  shuffle hosts entropy >>= λ (shuffled, _).
      guard (length (assign n shuffled) == n) insufficient_hosts >> ok (assign n shuffled)
