-- ===== src/Dispute/Tests.antt =====
-- Runs of the dispute registry on concrete inputs, and each theorem at an input.
use cloudy.Prelude.{ℕ, Bool, ◌==◌, ◌≡◌, refl, List, [], ◌∷◌, replicate, length}
use cloudy.Prelude.Int.{pos, ◌≤ℤ◌}
use cloudy.Prelude.Dict.{get, insert, lookup, has}
use cloudy.Prelude.Table.{find, write, remove}
use cloudy.Prelude.Bytes.{Bytes, bytes_eq, has_key, be_bytes, bytes-Key}
use cloudy.Prelude.Result.{ok, err}
use cloudy.Primitives.{Hash}
use cloudy.Primitives.Toy.{toy, value_or}
use cloudy.Economy.Policy.{find_signer, count_signers}
use cloudy.Economy.Policy.Quorum.{AreSigners}
use cloudy.Dispute.Artifact.{
  Error, DisputeId, Opening, Ruling, Withdrawal, Charter, valid_mode, valid_finding, valid_harm,
  valid_coordinator_action, validate_remedy, new_escrow_ruling, opening_bytes, verify_opening,
  opening_id, escalation_fields, refund_fields, ruling_bytes, sign_ruling, verify_ruling, ruling_id,
  withdrawal_bytes, sign_withdrawal, verify_withdrawal, leaf_id,
}
use cloudy.Dispute.Store.{
  MemStore, new_mem_store, tuple_key, opens_case, is_empty, file_artifact, release_tuple, append,
  artifacts_of,
}
use cloudy.Dispute.Registry.{is_open, fold_case, read_case, case_of, open_dispute, rule, withdraw}
use cloudy.Dispute.Registry.Cases.{History, created, opened, decided, Shape}
use cloudy.Dispute.Registry.Cases.Outcome.{
  Shape-History, Reads, Reads-case_of, ruled_once, open_dispute-settled, rule_quorum,
}

-- Everything that a run calls.
run : ℕ
unfolding toy be_bytes bytes_eq has_key get insert lookup has find write remove bytes-Key
    find_signer count_signers valid_mode valid_finding valid_harm valid_coordinator_action
    validate_remedy new_escrow_ruling opening_bytes verify_opening opening_id escalation_fields
    refund_fields ruling_bytes sign_ruling verify_ruling ruling_id withdrawal_bytes sign_withdrawal
    verify_withdrawal leaf_id tuple_key opens_case is_empty file_artifact release_tuple append
    artifacts_of is_open fold_case read_case case_of open_dispute rule withdraw
run = 0

abbrev charter : Charter
charter = record {
  platform = "cloudy";
  adjudicators = replicate 32 3 ∷ replicate 32 4 ∷ [];
  threshold = pos 2;
}

-- The anchors hold one exchange, between anybody.
abbrev sealed : Hash → Bytes → Bytes → Bool
sealed exchange complainant respondent = exchange == 5

abbrev draft : ℕ → Opening
draft n = record {
  platform = "cloudy";
  complainant = replicate 32 1;
  respondent = replicate 32 2;
  exchange = 5;
  reason_hash = 6;
  nonce = n;
  opened_at = 7;
  signature = [];
}

abbrev opening : ℕ → Opening
opening n = record (draft n) { signature = toy.sign (replicate 64 1) (opening_bytes toy (draft n)) }

abbrev case_id : DisputeId
case_id = opening_id toy (opening 1)

abbrev ruling : Ruling
ruling =
    sign_ruling toy (replicate 64 4)
      (sign_ruling toy (replicate 64 3) (new_escrow_ruling "cloudy" case_id 5 1 1 10 8 9))

abbrev store_1 : MemStore
store_1 =
    (value_or (0, new_mem_store) (open_dispute toy charter sealed new_mem_store (opening 1))).1

abbrev store_2 : MemStore
store_2 = value_or store_1 (rule toy charter sealed store_1 ruling)

-- A withdrawn case can be opened again.
abbrev withdrawal : Withdrawal
withdrawal =
    sign_withdrawal toy (replicate 64 1)
      (record { platform = "cloudy"; dispute = case_id; withdrawn_at = 9; signature = [] })

abbrev store_w : MemStore
store_w = value_or store_1 (withdraw toy charter sealed store_1 withdrawal)

reopened :
    open_dispute toy charter sealed store_w (opening 2)
    ≡ ok (
      opening_id toy (opening 2),
      (value_or (0, store_w) (open_dispute toy charter sealed store_w (opening 2))).1,
    )
unfolding run
reopened = refl

history_1 : History toy charter sealed store_1
unfolding run
history_1 = opened new_mem_store store_1 (opening 1) case_id created refl

history_2 : History toy charter sealed store_2
unfolding run history_1
history_2 = decided store_1 store_2 ruling history_1 refl

Shape-History_example : Shape toy charter sealed store_2 case_id
Shape-History_example = Shape-History toy charter sealed store_2 case_id history_2

Reads-case_of_example :
    Reads toy charter sealed case_id (artifacts_of store_2 case_id) (case_of store_2 case_id)
Reads-case_of_example = Reads-case_of toy charter sealed store_2 case_id history_2

ruled_once_example : case_id ≡ case_id
unfolding run
ruled_once_example =
    ruled_once toy charter sealed store_2 case_id case_id (ruling_id toy ruling)
      (ruling_id toy ruling) (opening 1) (opening 1) ruling ruling history_2 refl refl refl refl
      refl

open_dispute-settled_example :
    (x : Error) × (open_dispute toy charter sealed store_2 (opening 2) ≡ err x)
unfolding run
open_dispute-settled_example =
    open_dispute-settled toy charter sealed store_2 case_id (ruling_id toy ruling) (opening 1)
      (opening 2) ruling history_2 refl refl refl refl

rule_quorum_example :
    (ks : List Bytes) × (AreSigners toy
        (ruling_bytes toy ruling)
        charter.adjudicators
        ruling.sigs
        ks
      × ((charter.threshold ≤ℤ pos (length ks)) × (pos 1 ≤ℤ charter.threshold)))
unfolding run
rule_quorum_example = rule_quorum toy charter sealed store_1 store_2 ruling refl
