-- ===== src/Record/Tests.antt =====
-- Runs of the record on concrete data, and each theorem at an input that meets its hypotheses.
use cloudy.Prelude.{ℕ, ◌≡◌, List, [], ◌∷◌, none, arith}
use cloudy.Prelude.Bytes.{be_bytes}
use cloudy.Primitives.{Hash}
use cloudy.Primitives.Toy.{toy}
use cloudy.Record.Tree.{
  double_below, largest_pow2_lt, unsnoc, node_hash, mth, mth_fuel, prove_path, prove_path_fuel,
  root_from_path, root_from_path_fuel, prove_consistency, sub_proof_fuel, cons_roots,
  cons_roots_fuel,
}
use cloudy.Record.Tree.Split.{largest_pow2_lt_diverges}

-- Everything that a run of the tree calls.
tree : ℕ
unfolding toy be_bytes double_below largest_pow2_lt unsnoc node_hash mth mth_fuel prove_path
    prove_path_fuel root_from_path root_from_path_fuel prove_consistency sub_proof_fuel cons_roots
    cons_roots_fuel
tree = 0

abbrev leaves : List Hash
leaves = 11 ∷ 22 ∷ 33 ∷ 44 ∷ 55 ∷ []

abbrev first_leaves : List Hash
first_leaves = 11 ∷ 22 ∷ 33 ∷ []

largest_pow2_lt_diverges_example : double_below 1000 1 9223372036854775809 ≡ none
largest_pow2_lt_diverges_example = largest_pow2_lt_diverges 1000 9223372036854775809 (omega arith)
