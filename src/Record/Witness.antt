-- ===== src/Record/Witness.antt =====
-- internal/record/witness.go: an independent witness of checkpoints, and bundles of its signatures.
pub mod Forks
pub mod Bundle
use cloudy.Prelude.{
  ℕ, ◌≡◌, Bool, true, false, not, ◌&&◌, ◌||◌, List, [], ◌∷◌, Option, none, some, length, ltb, ◌==◌,
  if◌then◌else◌,
}
use cloudy.Prelude.Dict.{Dict, lookup, insert}
use cloudy.Prelude.Bytes.{Bytes, bytes_eq, has_key}
use cloudy.Prelude.Result.{Result, ok, err, ◌>>=◌, ◌>>◌, guard}
use cloudy.Primitives.{Hash, bytes, Primitives, public_key_size, private_key_size, signature_size}
use cloudy.Record.Entry.{
  Error, witness_malformed, own_operator, unverified_checkpoint, not_an_extension, log_id,
}
use cloudy.Record.Checkpoint.{Checkpoint, checkpoint_bytes, verify_as, verify_checkpoint}
use cloudy.Record.Verify.{verify_consistency_as}

pub record Countersignature : Type 0 where
  pub witness : Bytes
  pub signature : Bytes

-- `last` holds for each log the last checkpoint that the witness has cosigned.
pub record Witness : Type 0 where
  pub private : Bytes
  pub public : Bytes
  pub last : Dict Checkpoint

pub record WitnessedCheckpoint : Type 0 where
  pub checkpoint : Checkpoint
  pub countersignatures : List Countersignature

module _ (p : Primitives) where
  open p use {verify, sign, public, canon}

  unfoldable pub witness_payload : Checkpoint → Bytes
  witness_payload cp = canon "drops/witness/v1" (bytes (checkpoint_bytes p cp) ∷ [])

  -- Countersignature.Verify
  unfoldable pub verify_countersignature : Countersignature → Checkpoint → Bool
  verify_countersignature cs cp =
      length cs.witness == public_key_size
      && length cs.signature == signature_size
      && verify cs.witness (witness_payload cp) cs.signature

  unfoldable pub new_witness : Bytes → Witness
  new_witness k = record {
    private = k;
    public = if length k == private_key_size then public k else [];
    last = [];
  }

  -- The test against the last cosigned checkpoint: `if prev, seen := ...` of CountersignAs.
  unfoldable pub extends_last : Witness → Checkpoint → Bytes → Hash → List Hash → Bool
  extends_last w cp operator want_log proof = elim (lookup cp.log w.last) [
    | none ↦ true
    | some prev ↦ verify_consistency_as p prev cp proof operator want_log
  ]

  -- Witness.CountersignAs
  unfoldable pub countersign_as :
      Witness → Checkpoint → Bytes → Hash → List Hash → Result Error (Countersignature × Witness)
  unfolding extends_last
  countersign_as w cp operator want_log proof = do
    guard (length w.private == private_key_size) witness_malformed
    guard (not (bytes_eq operator w.public)) own_operator
    guard (verify_as p cp operator want_log) unverified_checkpoint
    guard (extends_last w cp operator want_log proof) not_an_extension
    ok (
      record { witness = w.public; signature = sign w.private (witness_payload cp) },
      record w { last = insert cp.log cp w.last },
    )

  -- Witness.Countersign
  unfoldable pub countersign :
      Witness → Checkpoint → Bytes → List Hash → Result Error (Countersignature × Witness)
  countersign w cp operator proof = countersign_as w cp operator (log_id p operator) proof

  -- The loop of WitnessedCheckpoint.Verify, with the keys seen so far.
  unfoldable pub verify_cosigners : Checkpoint → Bytes → List Countersignature → List Bytes → Bool
  verify_cosigners cp operator [] seen = true
  verify_cosigners cp operator (cs ∷ rest) seen =
      let next = verify_cosigners cp operator rest (cs.witness ∷ seen) in
      if not (verify_countersignature cs cp)
      then false
      else if bytes_eq cs.witness operator
      then false
      else if has_key cs.witness seen
      then false
      else next

  -- WitnessedCheckpoint.Verify
  unfoldable pub verify_witnessed : WitnessedCheckpoint → Bytes → Bool
  verify_witnessed w operator =
      if not (verify_checkpoint p w.checkpoint operator)
      then false
      else verify_cosigners w.checkpoint operator w.countersignatures []

  -- The loop of StandIn: the keys of the map `distinct`, each once.
  unfoldable pub distinct_cosigners :
      Checkpoint → Bytes → List Countersignature → List Bytes → List Bytes
  distinct_cosigners cp operator [] distinct = distinct
  distinct_cosigners cp operator (cs ∷ rest) distinct =
      let skip = distinct_cosigners cp operator rest distinct in
      let put = distinct_cosigners cp operator rest (cs.witness ∷ distinct) in
      if not (verify_countersignature cs cp) || bytes_eq cs.witness operator
      then skip
      else if has_key cs.witness distinct
      then skip
      else put

  -- WitnessedCheckpoint.StandIn
  unfoldable pub stand_in : WitnessedCheckpoint → Bytes → Bool
  stand_in w operator =
      ltb (length (distinct_cosigners w.checkpoint operator w.countersignatures [])) 2
