-- ===== src/Techtree/Tree.antt =====
-- internal/techtree/tree.go and weight.go: the append-only log of claims and references, with the search
-- that keeps builds_on acyclic, and the counts of the references to a claim.
pub mod Search
pub mod Acyclic
pub mod Replay
pub mod Weight
use Prim.Native.String.{String}
use text.Mathlib.Text.{◌==◌ as str_eq}
use cloudy.Prelude.{
  ℕ, zero, suc, ◌+◌, ◌≡◌, Bool, true, false, not, ◌&&◌, ◌||◌, List, [], ◌∷◌, ◌++◌, Option, none,
  some, length, ◌==◌, if◌then◌else◌,
}
use cloudy.Prelude.Dict.{Dict, has, lookup, insert}
use cloudy.Prelude.Bytes.{Bytes, bytes_eq, has_key}
use cloudy.Prelude.Result.{Result, ok, err, ◌>>=◌, ◌>>◌, guard, or_err}
use cloudy.Primitives.{Hash, hash_bytes, bytes, Primitives}
use cloudy.Techtree.Claim.{
  Error, wrong_platform, bad_signature, duplicate, unknown_claim, not_asserter, builds_on_cycle,
  empty_platform, both_kinds, empty_item, RefKind, ref_builds_on, Claim, Reference, verify_claim,
  claim_id, verify_reference, reference_id,
}

-- Two pointers, each of which can be nil.
pub record Item : Type 0 where
  pub claim : Option Claim
  pub reference : Option Reference

pub record Tree : Type 0 where
  pub platform : String
  pub claims : Dict Claim
  pub refs : Dict Reference
  pub log : List Item
  pub head : Hash

abbrev pub claim_item : Claim → Item
claim_item c = record { claim = some c; reference = none }

abbrev pub reference_item : Reference → Item
reference_item r = record { claim = none; reference = some r }

unfoldable pub new_tree : String → Result Error Tree
new_tree platform = do
  guard (not (str_eq platform "")) empty_platform
  ok (record { platform = platform; claims = []; refs = []; log = []; head = 0 })

-- The map `seen` of buildsOnReaches, as the list of its keys.
unfoldable pub is_seen : Hash → List Hash → Bool
is_seen n [] = false
is_seen n (m ∷ ms) = m == n || is_seen n ms

-- The test of the inner loop: a builds_on edge from `n`.
unfoldable pub builds_from : Hash → Item → Option Hash
builds_from n it = elim it.reference [
  | none ↦ none
  | some r ↦ if not (str_eq r.kind ref_builds_on) || not (r.from == n) then none else some r.to
]

-- The inner loop: `none` if an edge from `n` leads to the target, or the stack with the ends pushed.
unfoldable pub push_edges : Hash → Hash → List Item → List Hash → Option (List Hash)
push_edges n target [] stack = some stack
push_edges n target (it ∷ log) stack = elim (builds_from n it) [
  | none ↦ push_edges n target log stack
  | some end ↦ elim (end == target) [ true ↦ none | false ↦ push_edges n target log (end ∷ stack) ]
]

-- The outer loop of buildsOnReaches; `none` if the fuel runs out.
unfoldable pub search_edges : ℕ → Hash → List Item → List Hash → List Hash → Option Bool
search_edges zero target log seen stack = none
search_edges (suc f) target log seen [] = some false
search_edges (suc f) target log seen (n ∷ stack) = elim (is_seen n seen) [
  | true ↦ search_edges f target log seen stack
  | false ↦ elim (push_edges n target log stack) [
    | none ↦ some true
    | some pushed ↦ search_edges f target log (n ∷ seen) pushed
  ]
]

-- buildsOnReaches. Each turn of the loop takes a claim off the stack, and a claim's edges are pushed
-- once, so the number of items bounds the turns: `Tree.Search` shows that the fuel is enough.
unfoldable pub builds_on_reaches : List Item → Hash → Hash → Bool
builds_on_reaches log start target =
    if start == target
    then true
    else elim (search_edges (length log + 2) target log [] (start ∷ [])) [
      | none ↦ true
      | some b ↦ b
    ]

-- Tree.Claim
unfoldable pub claim_of : Tree → Hash → Option Claim
claim_of t id = lookup id t.claims

-- Tree.Log
unfoldable pub tree_log : Tree → List Item
tree_log t = t.log

module _ (p : Primitives) where
  open p use {sha256, canon}

  -- Tree.fold, as the new head.
  unfoldable pub fold_head : Hash → Bytes → Hash
  fold_head head leaf =
      sha256 (canon "cloudy/techtree/chain/v0" (bytes (hash_bytes head) ∷ bytes leaf ∷ []))

  -- Tree.AddClaim
  unfoldable pub add_claim : Tree → Claim → Result Error (Hash × Tree)
  add_claim t c = do
    guard (str_eq c.platform t.platform) wrong_platform
    guard (verify_claim p c) bad_signature
    let id = claim_id p c
    guard (not (has id t.claims)) duplicate
    ok (
      id,
      record t {
        claims = insert id c t.claims;
        log = t.log ++ claim_item c ∷ [];
        head = fold_head t.head (hash_bytes id);
      },
    )

  -- Tree.AddReference
  unfoldable pub add_reference : Tree → Reference → Result Error (Hash × Tree)
  add_reference t r = do
    guard (str_eq r.platform t.platform) wrong_platform
    guard (verify_reference p r) bad_signature
    from ← or_err (lookup r.from t.claims) unknown_claim
    guard (has r.to t.claims) unknown_claim
    guard (bytes_eq r.asserter from.claimant) not_asserter
    guard (not (str_eq r.kind ref_builds_on && builds_on_reaches t.log r.to r.from)) builds_on_cycle
    let id = reference_id p r
    guard (not (has id t.refs)) duplicate
    ok (
      id,
      record t {
        refs = insert id r t.refs;
        log = t.log ++ reference_item r ∷ [];
        head = fold_head t.head (hash_bytes id);
      },
    )

  -- One turn of the loop of OpenLog.
  unfoldable pub replay_item : Tree → Item → Result Error Tree
  replay_item t it = elim it.claim [
    | some c ↦ elim it.reference [
      | some r ↦ err both_kinds
      | none ↦ add_claim t c >>= λ (_, t'). ok t'
    ]
    | none ↦ elim it.reference [
      | some r ↦ add_reference t r >>= λ (_, t'). ok t'
      | none ↦ err empty_item
    ]
  ]

  unfoldable pub replay_items : Tree → List Item → Result Error Tree
  replay_items t [] = ok t
  replay_items t (it ∷ items) = replay_item t it >>= λ t'. replay_items t' items

  -- OpenLog
  unfoldable pub open_tree : String → List Item → Result Error Tree
  open_tree platform items = new_tree platform >>= λ t. replay_items t items

-- The turn of the loop of CitationWeight for one kind.
unfoldable pub mark_asserter : RefKind → Hash → Item → List Bytes → List Bytes
mark_asserter kind id it marked = elim it.reference [
  | none ↦ marked
  | some r ↦
      if not (r.to == id) || not (str_eq r.kind kind) || has_key r.asserter marked
      then marked
      else r.asserter ∷ marked
]

-- The loop of CitationWeight for one kind: the keys of the asserters, each once.
unfoldable pub asserters : RefKind → Hash → List Item → List Bytes → List Bytes
asserters kind id [] marked = marked
asserters kind id (it ∷ log) marked = asserters kind id log (mark_asserter kind id it marked)

pub record CitationWeight : Type 0 where
  pub cites : ℕ
  pub builds_on : ℕ
  pub reproduces : ℕ
  pub refutes : ℕ
  pub contests : ℕ

-- Tree.CitationWeight
unfoldable pub citation_weight : Tree → Hash → CitationWeight
citation_weight t id = record {
  cites = length (asserters "cites" id t.log []);
  builds_on = length (asserters "builds_on" id t.log []);
  reproduces = length (asserters "reproduces" id t.log []);
  refutes = length (asserters "refutes" id t.log []);
  contests = length (asserters "contests" id t.log []);
}
