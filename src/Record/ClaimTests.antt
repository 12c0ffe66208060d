-- ===== src/Record/ClaimTests.antt =====
-- Runs of the lifecycle log, the filing intake and the locker, and each theorem at an input.
use cloudy.Prelude.{ℕ, ◌≡◌, refl, true, not, [], ◌∷◌, ◌++◌, replicate}
use cloudy.Prelude.Bytes.{Bytes, bytes_eq, be_bytes}
use cloudy.Prelude.Dict.{get, insert, lookup, has}
use cloudy.Prelude.Result.{ok, err}
use cloudy.Primitives.Toy.{toy, toy-IsSigner}
use cloudy.Record.Checkpoint.{Checkpoint}
use cloudy.Record.Lifecycle.{
  Transition, TransitionStore, LifecycleLog, persist_transition, transition_at, in_order,
  lifecycle_log_id, transition_bytes, transition_id, check_transition, admit_transition,
  replay_transitions, open_lifecycle_log, append_transition, claim_state, not_monotonic,
  filed_twice,
}
use cloudy.Record.Lifecycle.Machine.{Course}
use cloudy.Record.Lifecycle.History.{kinds_of, open_lifecycle_log-Course}
use cloudy.Record.Filing.{
  FilingCommitment, FilingReceipt, filing_bytes, sign_filing, verify_filing, receipt_bytes,
  verify_receipt, new_filing_intake, unsigned_receipt, accept, independent_of,
  accept-verify_receipt,
}

-- Everything that a run calls.
run : ℕ
unfolding toy be_bytes bytes_eq get insert lookup has persist_transition transition_at in_order
    lifecycle_log_id transition_bytes transition_id check_transition admit_transition
    replay_transitions open_lifecycle_log append_transition claim_state filing_bytes sign_filing
    verify_filing receipt_bytes verify_receipt new_filing_intake unsigned_receipt accept
    independent_of
run = 0

abbrev operator : Bytes
operator = replicate 32 7

-- A step of claim 77.
abbrev step : ℕ → ℕ → Transition
step kind artifact = record {
  log = lifecycle_log_id toy operator;
  claim = 77;
  kind = kind;
  artifact = artifact;
  exchange = 5;
  recorded_at = 9;
}

abbrev before : TransitionStore
before = step 1 100 ∷ step 2 101 ∷ step 2 102 ∷ step 3 103 ∷ []

abbrev empty : LifecycleLog
empty = record {
  id = lifecycle_log_id toy operator;
  leafs = [];
  index = [];
  state = [];
  claim = [];
  kinds = [];
}

abbrev resolved_log : LifecycleLog
resolved_log = admit_transition toy (step 3 103) (
    admit_transition toy (step 2 102)
      (admit_transition toy (step 2 101) (admit_transition toy (step 1 100) empty)))

opens : open_lifecycle_log toy operator before ≡ ok resolved_log
unfolding run
opens = refl

seals :
    append_transition toy (step 4 104) resolved_log before
    ≡ ok (4, admit_transition toy (step 4 104) resolved_log, before ++ step 4 104 ∷ [])
unfolding run
seals = refl

refused :
    (append_transition toy (step 3 104) resolved_log before ≡ err not_monotonic)
    × (append_transition toy (step 1 104) resolved_log before ≡ err filed_twice)
unfolding run
refused = (refl, refl)

open_lifecycle_log-Course_example : Course (kinds_of 77 before) (claim_state 77 resolved_log)
open_lifecycle_log-Course_example =
    open_lifecycle_log-Course toy operator before resolved_log 77 opens

-- Alice files claim 77, and witness 3 takes it in.
abbrev filing : FilingCommitment
filing = sign_filing toy (replicate 64 1) (record {
  claim = 77;
  exchange = 5;
  type_hash = 6;
  filed_at = 8;
  filer = replicate 32 1;
  signature = [];
})

abbrev draft : FilingReceipt
draft = record { commitment = filing; witness = replicate 32 3; received_at = 9; signature = [] }

abbrev receipt : FilingReceipt
receipt = record draft { signature = toy.sign (replicate 64 3) (receipt_bytes toy draft) }

accepts : accept toy (new_filing_intake toy (replicate 64 3)) filing 9 ≡ ok receipt
unfolding run
accepts = refl

accept-verify_receipt_example :
    (verify_receipt toy receipt ≡ true)
    × (receipt.commitment ≡ filing)
    × (receipt.received_at ≡ 9)
    × (receipt.witness ≡ toy.public (replicate 64 3))
    × (independent_of receipt operator ≡ not (bytes_eq (toy.public (replicate 64 3)) operator))
accept-verify_receipt_example =
    accept-verify_receipt toy toy-IsSigner (replicate 64 3) filing 9 operator receipt refl refl
      accepts

abbrev checkpoint : Checkpoint
checkpoint = record { log = 4; size = 2; head = 6; issued_at = 7; signature = [] }
