-- ===== src/Record/Witness/Bundle.antt =====
-- What WitnessedCheckpoint.Verify and StandIn say together.
use cloudy.Prelude.{◌+◌, ◌≡◌, arith, true, List, [], ◌∷◌, length, ltb}
use cloudy.Prelude.Bytes.{Bytes}
use cloudy.Primitives.{Primitives}
use cloudy.Record.Checkpoint.{Checkpoint}
use cloudy.Record.Witness.{
  Countersignature, WitnessedCheckpoint, verify_cosigners, verify_witnessed, distinct_cosigners,
  stand_in,
}

module _ (p : Primitives) where
  distinct_cosigners-verified :
      (cp : Checkpoint) (operator : Bytes) (css : List Countersignature) (seen : List Bytes)
      → verify_cosigners p cp operator css seen ≡ true
      → length (distinct_cosigners p cp operator css seen) ≡ length css + length seen
  unfolding verify_cosigners distinct_cosigners
  distinct_cosigners-verified cp operator [] seen h = omega arith
  distinct_cosigners-verified cp operator (cs ∷ css) seen h =
      ground (arith, distinct_cosigners-verified cp operator css (cs.witness ∷ seen))

  -- A bundle that Verify accepts is a stand-in exactly when it has fewer than two countersignatures.
  stand_in-verified :
      (w : WitnessedCheckpoint) (operator : Bytes)
      → verify_witnessed p w operator ≡ true
      → stand_in p w operator ≡ ltb (length w.countersignatures) 2
  unfolding stand_in verify_witnessed
  stand_in-verified w operator h =
      ground (arith, distinct_cosigners-verified w.checkpoint operator w.countersignatures [])
