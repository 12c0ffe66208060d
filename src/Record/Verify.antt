-- ===== src/Record/Verify.antt =====
-- internal/record/verify.go: what a member checks offline, with a proof and signed checkpoints.
pub mod Soundness
use cloudy.Prelude.{
  ℕ, ◌≡◌, Bool, true, false, not, ◌&&◌, ◌||◌, List, [], ◌∷◌, Option, none, some, length, ltb, ◌==◌,
  if◌then◌else◌,
}
use cloudy.Prelude.Bytes.{Bytes}
use cloudy.Primitives.{Hash, Primitives}
use cloudy.Record.Entry.{Entry, verify_entry, entry_id, log_id}
use cloudy.Record.Tree.{root_from_path, cons_roots}
use cloudy.Record.Checkpoint.{Checkpoint, verify_checkpoint, verify_as}

-- `seq` is a uint64.
pub record Proof : Type 0 where
  pub seq : ℕ
  pub path : List Hash

module _ (p : Primitives) where
  -- VerifyInclusion. Where rootFromPath does not return, neither does the source.
  unfoldable pub verify_inclusion : Entry → Proof → Checkpoint → Bytes → Bool
  verify_inclusion e proof cp operator =
      if not (verify_entry p e)
      then false
      else if not (verify_checkpoint p cp operator)
      then false
      else if not (e.log == cp.log)
      then false
      else elim (root_from_path p (entry_id p e) proof.seq cp.size proof.path) [
        | none ↦ false
        | some root ↦ root == cp.head
      ]

  -- VerifyConsistencyAs. Where consRoots does not return, neither does the source.
  unfoldable pub verify_consistency_as : Checkpoint → Checkpoint → List Hash → Bytes → Hash → Bool
  verify_consistency_as older newer proof signer want_log =
      if not (verify_as p older signer want_log) || not (verify_as p newer signer want_log)
      then false
      else if not (older.log == newer.log)
      then false
      else if ltb newer.size older.size
      then false
      else if older.size == 0
      then length proof == 0
      else if older.size == newer.size
      then length proof == 0 && older.head == newer.head
      else elim (cons_roots p older.size newer.size true proof older.head) [
        | none ↦ false
        | some (old, new, rest) ↦ length rest == 0 && old == older.head && new == newer.head
      ]

  -- VerifyConsistency
  unfoldable pub verify_consistency : Checkpoint → Checkpoint → List Hash → Bytes → Bool
  verify_consistency older newer proof operator =
      verify_consistency_as older newer proof operator (log_id p operator)
