-- ===== src/Record/LogTests.antt =====
-- Runs of the logs, the witness, the intake and the locker on concrete data, and each theorem at an input.
use cloudy.Prelude.{
  ℕ, ◌≡◌, refl, true, List, [], ◌∷◌, some, replicate, arith, length, take, get_elem?, ◌⊎◌,
}
use cloudy.Prelude.Bytes.{Bytes, bytes_eq, has_key, be_bytes}
use cloudy.Prelude.Dict.{get, insert, lookup, has}
use cloudy.Prelude.Result.{ok, err}
use cloudy.Primitives.{Hash}
use cloudy.Primitives.Toy.{toy, toy-IsSigner, toy-IsDigest}
use cloudy.Record.Entry.{Entry, duplicate_leaf, seal, verify_entry, entry_id, entry_bytes, log_id}
use cloudy.Record.Tree.{
  double_below, largest_pow2_lt, unsnoc, node_hash, mth, mth_fuel, prove_path, prove_path_fuel,
  root_from_path, root_from_path_fuel, prove_consistency, sub_proof_fuel, cons_roots,
  cons_roots_fuel,
}
use cloudy.Record.Tree.Hashed.{AllHash}
use cloudy.Record.Tree.Binding.{Collision}
use cloudy.Record.Checkpoint.{
  Checkpoint, checkpoint_bytes, sign_checkpoint, verify_as, verify_checkpoint,
}
use cloudy.Record.Verify.{Proof, verify_inclusion, verify_consistency_as, verify_consistency}
use cloudy.Record.Verify.Soundness.{
  CommitsTo, InInclusion, InConsistency, verify_inclusion_binds, verify_consistency_binds,
}
use cloudy.Record.Log.{
  Log, admit, at, len, persist, check, replay, open_log, append, checkpoint, prove,
  log_prove_consistency,
}
use cloudy.Record.Log.Replay.{append-reopens}
use cloudy.Record.Log.Invariant.{IsLogOf, open_log-IsLogOf, append-refuses_duplicate}
use cloudy.Record.Log.Proofs.{signed, verify_inclusion-prove, verify_consistency-prove}
use cloudy.Record.Witness.{
  Countersignature, Witness, WitnessedCheckpoint, witness_payload, verify_countersignature,
  new_witness, extends_last, countersign_as, countersign, verify_cosigners, verify_witnessed,
  distinct_cosigners, stand_in,
}
use cloudy.Record.Witness.Forks.{Prefix, Honest, InCall, InCalls, stop, cosigned_prefix}

-- Everything that a run calls.
run : ℕ
unfolding toy be_bytes bytes_eq has_key get insert lookup has double_below largest_pow2_lt unsnoc
    node_hash mth mth_fuel prove_path prove_path_fuel root_from_path root_from_path_fuel
    prove_consistency sub_proof_fuel cons_roots cons_roots_fuel seal verify_entry entry_id
    entry_bytes log_id checkpoint_bytes sign_checkpoint verify_as verify_checkpoint verify_inclusion
    verify_consistency_as verify_consistency admit at len persist check replay open_log append
    checkpoint prove log_prove_consistency witness_payload verify_countersignature new_witness
    extends_last countersign_as countersign verify_cosigners verify_witnessed distinct_cosigners
    stand_in
run = 0

abbrev alice : Bytes
alice = replicate 64 1

abbrev bob : Bytes
bob = replicate 64 2

abbrev operator_key : Bytes
operator_key = replicate 64 7

abbrev operator : Bytes
operator = replicate 32 7

-- A covenant of Alice and Bob, sealed by both, that corrects `c`.
abbrev covenant : ℕ → Hash → Entry
covenant n c = record {
  log = log_id toy operator;
  proposer = replicate 32 1;
  acceptor = replicate 32 2;
  content = 5;
  corrects = c;
  nonce = n;
  sealed_at = 9;
  proposer_seal = [];
  acceptor_seal = [];
}

abbrev agreed : ℕ → Hash → Entry
agreed n c = record (covenant n c) {
  proposer_seal = toy.sign alice (entry_bytes toy (covenant n c));
  acceptor_seal = toy.sign bob (entry_bytes toy (covenant n c));
}

abbrev plain : Entry
plain = agreed 1 0

abbrev correction : Entry
correction = agreed 2 (entry_id toy plain)

abbrev empty : Log
empty = record { id = log_id toy operator; leafs = []; index = [] }

abbrev log_one : Log
log_one = admit (entry_id toy plain) empty

abbrev log_two : Log
log_two = admit (entry_id toy correction) log_one

opens_one : open_log toy operator (plain ∷ []) ≡ ok log_one
unfolding run
opens_one = refl

appends : append toy correction log_one (plain ∷ []) ≡ ok (1, log_two, plain ∷ correction ∷ [])
unfolding run
appends = refl

opens_two : open_log toy operator (plain ∷ correction ∷ []) ≡ ok log_two
unfolding run
opens_two = refl

append-reopens_example :
    (open_log toy operator (plain ∷ correction ∷ []) ≡ ok log_two) × (1 ≡ length log_one.leafs)
append-reopens_example =
    append-reopens toy operator correction log_one log_two (plain ∷ []) (plain ∷ correction ∷ []) 1
      opens_one appends

open_log-IsLogOf_example : IsLogOf toy (plain ∷ correction ∷ []) log_two
open_log-IsLogOf_example = open_log-IsLogOf toy operator (plain ∷ correction ∷ []) log_two opens_two

append-refuses_duplicate_example :
    append toy plain log_two (plain ∷ correction ∷ []) ≡ err duplicate_leaf
append-refuses_duplicate_example =
    append-refuses_duplicate toy operator (plain ∷ correction ∷ []) log_two 0 plain opens_two refl

verify_inclusion-prove_example :
    (proof : Proof) × (prove toy 1 log_two ≡ ok proof)
    × (verify_inclusion toy correction proof
          (signed toy toy-IsSigner operator_key 9 log_two)
          operator
        ≡ true)
unfolding toy
verify_inclusion-prove_example =
    verify_inclusion-prove toy toy-IsSigner operator_key (plain ∷ correction ∷ []) log_two 1 9
      correction refl opens_two (omega arith) refl

verify_consistency-prove_example :
    (proof : List Hash) × (log_prove_consistency toy 1 log_two ≡ ok proof)
    × (verify_consistency_as toy
          (signed toy toy-IsSigner operator_key 8 log_one)
          (signed toy toy-IsSigner operator_key 9 log_two)
          proof
          operator
          log_two.id
        ≡ true)
unfolding admit toy
verify_consistency-prove_example =
    verify_consistency-prove toy toy-IsSigner operator_key log_one log_two 8 9 refl refl refl
      (omega arith) (omega arith)

-- The operator's checkpoints over the two states of the log, and what shows that the second extends the first.
abbrev first : Checkpoint
first = sign_checkpoint toy operator_key (checkpoint toy 8 log_one)

abbrev second : Checkpoint
second = sign_checkpoint toy operator_key (checkpoint toy 9 log_two)

abbrev growth : List Hash
growth = prove_consistency toy 1 log_two.leafs

abbrev audit : Proof
audit = record { seq = 1; path = prove_path toy 1 log_two.leafs }

first-CommitsTo : CommitsTo toy first log_one.leafs
unfolding run
first-CommitsTo = record {
  same_size = refl;
  same_head = λ h. refl;
  leaves_fit = (omega arith, tt);
  head_fits = omega arith;
}

second-CommitsTo : CommitsTo toy second log_two.leafs
unfolding run
second-CommitsTo = record {
  same_size = refl;
  same_head = λ h. refl;
  leaves_fit = (omega arith, (omega arith, tt));
  head_fits = omega arith;
}

included : verify_inclusion toy correction audit second operator ≡ true
unfolding run
included = refl

grown : verify_consistency_as toy first second growth operator (log_id toy operator) ≡ true
unfolding run
grown = refl

two_leaves : length log_two.leafs ≡ 2
unfolding admit
two_leaves = refl

one_leaf : length log_one.leafs ≡ 1
unfolding admit
one_leaf = refl

audit-AllHash : AllHash audit.path
unfolding run
audit-AllHash = (omega arith, tt)

growth-AllHash : AllHash growth
unfolding run
growth-AllHash = (omega arith, tt)

verify_inclusion_binds_example :
    (get_elem? log_two.leafs 1 ≡ some (entry_id toy correction))
    ⊎ Collision toy (InInclusion toy correction audit second log_two.leafs)
verify_inclusion_binds_example =
    verify_inclusion_binds toy correction audit second operator log_two.leafs toy-IsDigest
      second-CommitsTo (omega (arith, two_leaves)) audit-AllHash included

verify_consistency_binds_example :
    (take (length log_one.leafs) log_two.leafs ≡ log_one.leafs)
    ⊎ Collision toy (InConsistency toy first second growth log_one.leafs log_two.leafs)
verify_consistency_binds_example =
    verify_consistency_binds toy first second growth operator (log_id toy operator) log_one.leafs
      log_two.leafs toy-IsDigest first-CommitsTo second-CommitsTo (omega (arith, two_leaves))
      growth-AllHash grown

-- Carol cosigns the two checkpoints, one after the other.
abbrev carol : Witness
carol = new_witness toy (replicate 64 3)

abbrev cosign : Checkpoint → Countersignature
cosign cp = record {
  witness = replicate 32 3;
  signature = toy.sign (replicate 64 3) (witness_payload toy cp);
}

abbrev carol_one : Witness
carol_one = record carol { last = insert first.log first [] }

abbrev carol_two : Witness
carol_two = record carol { last = insert second.log second carol_one.last }

cosigns_first :
    countersign_as toy carol first operator (log_id toy operator) [] ≡ ok (cosign first, carol_one)
unfolding run
cosigns_first = refl

cosigns_second :
    countersign_as toy carol_one second operator (log_id toy operator) growth
    ≡ ok (cosign second, carol_two)
unfolding run
cosigns_second = refl

-- The leaves of a checkpoint, by its size.
abbrev leaves_of : Checkpoint → List Hash
leaves_of cp = take cp.size log_two.leafs

first-Honest : Honest toy leaves_of first
unfolding run
first-Honest = record {
  commits = record {
    same_size = refl;
    same_head = λ h. refl;
    leaves_fit = (omega arith, tt);
    head_fits = omega arith;
  };
  small = omega arith;
}

second-Honest : Honest toy leaves_of second
unfolding run
second-Honest = record {
  commits = record {
    same_size = refl;
    same_head = λ h. refl;
    leaves_fit = (omega arith, (omega arith, tt));
    head_fits = omega arith;
  };
  small = omega arith;
}

same_log : first.log ≡ second.log
unfolding run
same_log = refl

cosigned_prefix_example :
    Prefix toy
      (λ a b.
        InCalls toy leaves_of carol_one carol_one (stop carol_one) a b
        ⊎ InCall toy leaves_of carol_one second growth a b)
      (leaves_of first)
      (leaves_of second)
cosigned_prefix_example =
    cosigned_prefix toy leaves_of carol carol_one carol_one carol_two first second operator operator
      (log_id toy operator) (log_id toy operator) [] growth (cosign first) (cosign second)
      toy-IsDigest cosigns_first (stop carol_one) cosigns_second same_log first-Honest second-Honest
      growth-AllHash

abbrev bundle : WitnessedCheckpoint
bundle = record { checkpoint = second; countersignatures = cosign second ∷ [] }

bundled : verify_witnessed toy bundle operator ≡ true
unfolding run
bundled = refl
