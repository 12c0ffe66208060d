-- ===== src/Techtree/Tests.antt =====
-- Runs of the tree on concrete inputs, and each theorem at an input.
use cloudy.Prelude.{ℕ, Bool, true, ◌+◌, ◌≡◌, ◌⊎◌, ◌↔◌, refl, [], ◌∷◌, some, replicate, length}
use cloudy.Prelude.Dict.{insert, lookup, has}
use cloudy.Prelude.Bytes.{bytes_eq, has_key, be_bytes}
use cloudy.Prelude.Result.{ok, err}
use cloudy.Primitives.{Hash}
use cloudy.Primitives.Toy.{toy, value_or}
use cloudy.Techtree.Claim.{
  builds_on_cycle, Claim, Reference, valid_kind, valid_ref_kind, claim_bytes, verify_claim,
  claim_id, reference_bytes, verify_reference, reference_id,
}
use cloudy.Techtree.Tree.{
  Tree, new_tree, is_seen, builds_from, push_edges, search_edges, builds_on_reaches, tree_log,
  fold_head, add_claim, add_reference, open_tree, mark_asserter, asserters, citation_weight,
}
use cloudy.Techtree.Tree.Search.{Reaches}
use cloudy.Techtree.Tree.Search.Decides.{builds_on_reaches_iff}
use cloudy.Techtree.Tree.Acyclic.{builds_on_acyclic}
use cloudy.Techtree.Tree.Replay.{History, created, claimed, referred, open_tree-log}
use cloudy.Techtree.Tree.Weight.{Counts, citation_weight-Counts}

-- Everything that a run calls.
run : ℕ
unfolding toy be_bytes bytes_eq has_key insert lookup has valid_kind valid_ref_kind claim_bytes
    verify_claim claim_id reference_bytes verify_reference reference_id new_tree is_seen builds_from
    push_edges search_edges builds_on_reaches fold_head add_claim add_reference mark_asserter
    asserters citation_weight
run = 0

abbrev claim_draft : ℕ → Claim
claim_draft n = record {
  platform = "cloudy";
  claimant = replicate 32 1;
  kind = "technique";
  inputs_hash = 2;
  method_hash = 3;
  result_hash = 4;
  nonce = n;
  asserted_at = 6;
  signature = [];
}

abbrev claim : ℕ → Claim
claim n = record (claim_draft n) {
  signature = toy.sign (replicate 64 1) (claim_bytes toy (claim_draft n));
}

abbrev claim_hash : ℕ → Hash
claim_hash n = claim_id toy (claim n)

-- The claim `m` builds on the claim `n`.
abbrev reference_draft : ℕ → ℕ → Reference
reference_draft m n = record {
  platform = "cloudy";
  asserter = replicate 32 1;
  kind = "builds_on";
  from = claim_hash m;
  to = claim_hash n;
  nonce = 7;
  asserted_at = 8;
  signature = [];
}

abbrev reference : ℕ → ℕ → Reference
reference m n = record (reference_draft m n) {
  signature = toy.sign (replicate 64 1) (reference_bytes toy (reference_draft m n));
}

abbrev tree_0 : Tree
tree_0 = record { platform = "cloudy"; claims = []; refs = []; log = []; head = 0 }

abbrev tree_1 : Tree
tree_1 = (value_or (0, tree_0) (add_claim toy tree_0 (claim 1))).1

abbrev tree_2 : Tree
tree_2 = (value_or (0, tree_1) (add_claim toy tree_1 (claim 2))).1

abbrev tree_3 : Tree
tree_3 = (value_or (0, tree_2) (add_reference toy tree_2 (reference 2 1))).1

history_2 : History toy tree_2
unfolding run
history_2 =
    claimed tree_1 tree_2 (claim 2) (claim_hash 2)
      (claimed tree_0 tree_1 (claim 1) (claim_hash 1) (created "cloudy" tree_0 refl) refl) refl

history_3 : History toy tree_3
unfolding run
history_3 = referred tree_2 tree_3 (reference 2 1) (reference_id toy (reference 2 1)) history_2 refl

closes_a_cycle : add_reference toy tree_3 (reference 1 2) ≡ err builds_on_cycle
unfolding run
closes_a_cycle = refl

built_on_once : (citation_weight tree_3 (claim_hash 1)).builds_on ≡ 1
unfolding run
built_on_once = refl

builds_on_reaches_iff_example :
    ((b : Bool) × (search_edges
          (length tree_3.log + 2)
          (claim_hash 1)
          tree_3.log
          []
          (claim_hash 2 ∷ [])
        ≡ some b))
    × ((builds_on_reaches tree_3.log (claim_hash 2) (claim_hash 1) ≡ true)
        ↔ ((claim_hash 2 ≡ claim_hash 1) ⊎ Reaches tree_3.log (claim_hash 2) (claim_hash 1)))
builds_on_reaches_iff_example = builds_on_reaches_iff (claim_hash 1) tree_3.log (claim_hash 2)

builds_on_acyclic_example : ¬ Reaches tree_3.log (claim_hash 2) (claim_hash 2)
builds_on_acyclic_example = builds_on_acyclic toy tree_3 (claim_hash 2) history_3

open_tree-log_example : open_tree toy tree_3.platform (tree_log tree_3) ≡ ok tree_3
open_tree-log_example = open_tree-log toy tree_3 history_3

citation_weight-Counts_example :
    Counts "cites" (claim_hash 1) tree_3.log (citation_weight tree_3 (claim_hash 1)).cites
    × (Counts "builds_on"
          (claim_hash 1)
          tree_3.log
          (citation_weight tree_3 (claim_hash 1)).builds_on
        × (Counts "reproduces"
              (claim_hash 1)
              tree_3.log
              (citation_weight tree_3 (claim_hash 1)).reproduces
            × (Counts "refutes"
                  (claim_hash 1)
                  tree_3.log
                  (citation_weight tree_3 (claim_hash 1)).refutes
                × Counts "contests"
                    (claim_hash 1)
                    tree_3.log
                    (citation_weight tree_3 (claim_hash 1)).contests)))
citation_weight-Counts_example = citation_weight-Counts tree_3 (claim_hash 1)
