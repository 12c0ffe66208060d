-- ===== src/Dispute/Artifact.antt =====
-- internal/dispute/opening.go, ruling.go and withdrawal.go: the signed artifacts of a case. A string of
-- bytes that Go copies (clone) is the same list here.
use Prim.Native.String.{String}
use cloudy.Prelude.{
  ℕ, Bool, true, false, not, ◌&&◌, ◌||◌, List, [], ◌∷◌, ◌++◌, map, Option, none, some, length, ◌==◌,
  if◌then◌else◌,
}
use cloudy.Prelude.Int.{ℤ, pos, ltb_ℤ}
use cloudy.Prelude.Bytes.{Bytes, bytes_eq}
use cloudy.Prelude.Result.{Result, ok, err, ◌>>◌, guard}
use cloudy.Primitives.{
  Hash, hash_bytes, Field, string, bytes, uint64, time, bool, count, Primitives, public_key_size,
  private_key_size, signature_size,
}
use cloudy.Economy.Policy.{count_signers}

-- The sentinel errors of registry.go, and one constructor for each error that wraps none of them.
pub data Error : Type 0 where
  invalid duplicate closed unauthorized settled : Error
  complainant_malformed respondent_malformed same_member zero_exchange signer_malformed
        not_complainant :
      Error
  empty_platform empty_roster bad_threshold adjudicator_malformed : Error

-- DisputeID and ExchangeRef are arrays of 32 bytes.
abbrev pub DisputeId : Type 0
DisputeId = Hash

pub record Opening : Type 0 where
  pub platform : String
  pub complainant : Bytes
  pub respondent : Bytes
  pub exchange : Hash
  pub reason_hash : Hash
  pub nonce : Hash
  pub opened_at : ℕ
  pub signature : Bytes

-- NewOpening; `nonce` is what crypto/rand draws.
unfoldable pub new_opening : String → Bytes → Bytes → Hash → Hash → ℕ → Hash → Result Error Opening
new_opening platform complainant respondent exchange reason_hash at nonce = do
  guard (length complainant == public_key_size) complainant_malformed
  guard (length respondent == public_key_size) respondent_malformed
  guard (not (bytes_eq complainant respondent)) same_member
  guard (not (exchange == 0)) zero_exchange
  ok (record {
    platform = platform;
    complainant = complainant;
    respondent = respondent;
    exchange = exchange;
    reason_hash = reason_hash;
    nonce = nonce;
    opened_at = at;
    signature = [];
  })

-- `type Mode uint8`
abbrev pub Mode : Type 0
Mode = ℕ

abbrev pub mode_escrow : Mode
mode_escrow = 1

abbrev pub mode_credit : Mode
mode_credit = 2

unfoldable pub valid_mode : Mode → Bool
valid_mode m = m == mode_escrow || m == mode_credit

-- `type Finding uint8`: for the complainant, for the respondent, split, no fault.
abbrev pub Finding : Type 0
Finding = ℕ

unfoldable pub valid_finding : Finding → Bool
valid_finding f = f == 1 || f == 2 || f == 3 || f == 4

-- `type HarmDisposition uint8`: upheld, expunged; 0 is unset.
abbrev pub HarmDisposition : Type 0
HarmDisposition = ℕ

unfoldable pub valid_harm : HarmDisposition → Bool
valid_harm h = h == 1 || h == 2

-- `type CoordinatorAction uint8`: refund the complainant, release to the respondent, split.
abbrev pub CoordinatorAction : Type 0
CoordinatorAction = ℕ

unfoldable pub valid_coordinator_action : CoordinatorAction → Bool
valid_coordinator_action a = a == 1 || a == 2 || a == 3

pub record Escalation : Type 0 where
  pub action : CoordinatorAction
  pub units : ℕ

pub record RefundDirective : Type 0 where
  pub units : ℕ

-- Both pointers can be nil.
pub record Remedy : Type 0 where
  pub escalation : Option Escalation
  pub harm : HarmDisposition
  pub refund : Option RefundDirective

-- Remedy.validate
unfoldable pub validate_remedy : Remedy → Mode → Result Error (Unit {0})
validate_remedy r m =
    if m == mode_escrow
    then elim r.escalation [
      | none ↦ err invalid
      | some e ↦ do
        guard (valid_coordinator_action e.action) invalid
        guard (r.harm == 0) invalid
        elim r.refund [ none ↦ ok tt | some _ ↦ err invalid ]
    ]
    else if m == mode_credit
    then elim r.escalation [ some _ ↦ err invalid | none ↦ guard (valid_harm r.harm) invalid ]
    else err invalid

pub record Ruling : Type 0 where
  pub platform : String
  pub dispute : DisputeId
  pub exchange : Hash
  pub mode : Mode
  pub finding : Finding
  pub remedy : Remedy
  pub rationale_hash : Hash
  pub ruled_at : ℕ
  pub sigs : List Bytes

-- NewEscrowRuling
unfoldable pub new_escrow_ruling :
    String → DisputeId → Hash → Finding → CoordinatorAction → ℕ → Hash → ℕ → Ruling
new_escrow_ruling platform dispute exchange finding action units rationale_hash at = record {
  platform = platform;
  dispute = dispute;
  exchange = exchange;
  mode = mode_escrow;
  finding = finding;
  remedy = record {
    escalation = some (record { action = action; units = units });
    harm = 0;
    refund = none;
  };
  rationale_hash = rationale_hash;
  ruled_at = at;
  sigs = [];
}

-- NewCreditRuling
unfoldable pub new_credit_ruling :
    String
    → DisputeId
    → Hash
    → Finding
    → HarmDisposition
    → Option RefundDirective
    → Hash
    → ℕ
    → Ruling
new_credit_ruling platform dispute exchange finding harm refund rationale_hash at = record {
  platform = platform;
  dispute = dispute;
  exchange = exchange;
  mode = mode_credit;
  finding = finding;
  remedy = record { escalation = none; harm = harm; refund = refund };
  rationale_hash = rationale_hash;
  ruled_at = at;
  sigs = [];
}

pub record Withdrawal : Type 0 where
  pub platform : String
  pub dispute : DisputeId
  pub withdrawn_at : ℕ
  pub signature : Bytes

-- Charter
pub record Charter : Type 0 where
  pub platform : String
  pub adjudicators : List Bytes
  pub threshold : ℤ

module _ (p : Primitives) where
  open p use {verify, sign, public, sha256, canon}

  -- Opening.CanonicalBytes: every field but the signature.
  unfoldable pub opening_bytes : Opening → Bytes
  opening_bytes o = canon "cloudy/dispute/opening/v0" (
      string o.platform
      ∷ bytes o.complainant
      ∷ bytes o.respondent
      ∷ bytes (hash_bytes o.exchange)
      ∷ bytes (hash_bytes o.reason_hash)
      ∷ bytes (hash_bytes o.nonce)
      ∷ time o.opened_at
      ∷ [])

  -- Opening.Sign
  unfoldable pub sign_opening : Bytes → Opening → Result Error Opening
  sign_opening k o = do
    guard (length k == private_key_size) signer_malformed
    guard (bytes_eq (public k) o.complainant) not_complainant
    ok (record o { signature = sign k (opening_bytes o) })

  -- Opening.Verify
  unfoldable pub verify_opening : Opening → Bool
  verify_opening o =
      if not (length o.complainant == public_key_size)
        || not (length o.respondent == public_key_size)
      then false
      else if bytes_eq o.complainant o.respondent
      then false
      else if o.exchange == 0
      then false
      else if not (length o.signature == signature_size)
      then false
      else verify o.complainant (opening_bytes o) o.signature

  -- Opening.ID
  unfoldable pub opening_id : Opening → DisputeId
  opening_id o =
      sha256 (canon "cloudy/dispute/id/v0" (bytes (opening_bytes o) ∷ bytes o.signature ∷ []))

  -- The calls of Ruling.CanonicalBytes for the two pointers of the remedy.
  unfoldable pub escalation_fields : Option Escalation → List Field
  escalation_fields none = bool false ∷ []
  escalation_fields (some e) = bool true ∷ uint64 e.action ∷ uint64 e.units ∷ []

  unfoldable pub refund_fields : Option RefundDirective → List Field
  refund_fields none = bool false ∷ []
  refund_fields (some f) = bool true ∷ uint64 f.units ∷ []

  -- Ruling.CanonicalBytes: every field but the signatures.
  unfoldable pub ruling_bytes : Ruling → Bytes
  ruling_bytes r = canon "cloudy/dispute/ruling/v0" (
      string r.platform
        ∷ bytes (hash_bytes r.dispute)
        ∷ bytes (hash_bytes r.exchange)
        ∷ uint64 r.mode
        ∷ uint64 r.finding
        ∷ escalation_fields r.remedy.escalation
      ++ uint64 r.remedy.harm ∷ refund_fields r.remedy.refund
      ++ bytes (hash_bytes r.rationale_hash) ∷ time r.ruled_at ∷ [])

  -- Ruling.Sign
  unfoldable pub sign_ruling : Bytes → Ruling → Ruling
  sign_ruling k r = record r { sigs = r.sigs ++ sign k (ruling_bytes r) ∷ [] }

  -- Ruling.Verify. Its two loops are, word for word, those of the economy's PolicyChange.Verify.
  unfoldable pub verify_ruling : Ruling → Charter → Bool
  verify_ruling r c =
      if ltb_ℤ c.threshold (pos 1)
      then false
      else not (
          ltb_ℤ (pos (length (count_signers p (ruling_bytes r) c.adjudicators [] r.sigs)))
            c.threshold)

  -- Ruling.ID
  unfoldable pub ruling_id : Ruling → DisputeId
  ruling_id r = sha256 (
      canon "cloudy/dispute/id/v0"
        (bytes (ruling_bytes r) ∷ count (length r.sigs) ∷ map bytes r.sigs))

  -- Withdrawal.CanonicalBytes: every field but the signature.
  unfoldable pub withdrawal_bytes : Withdrawal → Bytes
  withdrawal_bytes w =
      canon "cloudy/dispute/withdrawal/v0"
        (string w.platform ∷ bytes (hash_bytes w.dispute) ∷ time w.withdrawn_at ∷ [])

  -- Withdrawal.Sign
  unfoldable pub sign_withdrawal : Bytes → Withdrawal → Withdrawal
  sign_withdrawal k w = record w { signature = sign k (withdrawal_bytes w) }

  -- Withdrawal.Verify
  unfoldable pub verify_withdrawal : Withdrawal → Bytes → Bool
  verify_withdrawal w complainant =
      length complainant == public_key_size
      && (length w.signature == signature_size
          && verify complainant (withdrawal_bytes w) w.signature)

  -- Withdrawal.leafID
  unfoldable pub leaf_id : Withdrawal → DisputeId
  leaf_id w =
      sha256 (canon "cloudy/dispute/id/v0" (bytes (withdrawal_bytes w) ∷ bytes w.signature ∷ []))
