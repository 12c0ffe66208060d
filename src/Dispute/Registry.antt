-- ===== src/Dispute/Registry.antt =====
-- internal/dispute/registry.go and case.go: the gates of the registry, and the replay of a case.
pub mod Steps
pub mod Cases
use Prim.Native.String.{String}
use text.Mathlib.Text.{◌==◌ as str_eq}
use cloudy.Prelude.{
  ℕ, suc, ◌+◌, ◌≡◌, Bool, true, false, not, ◌&&◌, ◌||◌, List, [], ◌∷◌, Option, none, some, length,
  ◌==◌, if◌then◌else◌,
}
use cloudy.Prelude.Int.{pos, ltb_ℤ}
use cloudy.Prelude.Bytes.{Bytes}
use cloudy.Prelude.Result.{Result, ok, err, ◌>>=◌, ◌>>◌, guard}
use cloudy.Primitives.{Hash, Primitives, public_key_size}
use cloudy.Dispute.Artifact.{
  Error, invalid, closed, unauthorized, empty_platform, empty_roster, bad_threshold,
  adjudicator_malformed, DisputeId, Opening, Finding, Remedy, Ruling, Withdrawal, Charter,
  valid_mode, valid_finding, validate_remedy, verify_opening, opening_id, verify_ruling, ruling_id,
  verify_withdrawal, leaf_id,
}
use cloudy.Dispute.Store.{Admitted, MemStore, append, artifacts_of}

-- `type State uint8`; `unset` is its zero value.
pub data State : Type 0 where
  unset open_state resolved withdrawn : State

unfoldable pub is_open : State → Bool
is_open open_state = true
is_open _ = false

pub record Case : Type 0 where
  pub id : DisputeId
  pub exchange : Hash
  pub complainant : Bytes
  pub respondent : Bytes
  pub state : State
  pub finding : Finding
  pub remedy : Remedy

-- `var c Case` with its id set.
abbrev pub zero_case : DisputeId → Case
zero_case id = record {
  id = id;
  exchange = 0;
  complainant = [];
  respondent = [];
  state = unset;
  finding = 0;
  remedy = record { escalation = none; harm = 0; refund = none };
}

-- Case.Finding
unfoldable pub case_finding : Case → Option Finding
case_finding c = elim c.state [
  | resolved ↦ some c.finding
  | unset ↦ none
  | open_state ↦ none
  | withdrawn ↦ none
]

-- Case.Remedy
unfoldable pub case_remedy : Case → Option Remedy
case_remedy c = elim c.state [
  | resolved ↦ some c.remedy
  | unset ↦ none
  | open_state ↦ none
  | withdrawn ↦ none
]

-- The three cases of the switch in Registry.Case, without its test.
abbrev open_case : Case → Opening → Case
open_case c o = record c {
  exchange = o.exchange;
  complainant = o.complainant;
  respondent = o.respondent;
  state = open_state;
}

abbrev close_case : Case → Admitted → Case
close_case c ad = elim ad.ruling [
  | some r ↦ record c { state = resolved; finding = r.finding; remedy = r.remedy }
  | none ↦ elim ad.withdrawal [ some w ↦ record c { state = withdrawn } | none ↦ c ]
]

-- The loop of Registry.Case, from the index `i`, and the test after it.
unfoldable pub fold_case : ℕ → Bool → Case → List Admitted → Result Error Case
fold_case i seen_opening c [] = if seen_opening then ok c else err invalid
fold_case i seen_opening c (ad ∷ ads) = elim ad.opening [
  | some o ↦
      let rest = fold_case (suc i) true (open_case c o) ads in
      if not (i == 0) || seen_opening then err invalid else rest
  | none ↦ fold_case (suc i) seen_opening (close_case c ad) ads
]

-- Registry.Case, on the artifacts that the store returns.
unfoldable pub read_case : DisputeId → List Admitted → Result Error Case
read_case id [] = err invalid
read_case id (ad ∷ ads) = fold_case 0 false (zero_case id) (ad ∷ ads)

-- Registry.Case
unfoldable pub case_of : MemStore → DisputeId → Result Error Case
case_of s id = read_case id (artifacts_of s id)

-- The loop of NewRegistry over the roster.
unfoldable pub check_roster : List Bytes → Result Error (Unit {0})
check_roster [] = ok tt
check_roster (k ∷ ks) = do
  guard (length k == public_key_size) adjudicator_malformed
  check_roster ks

-- NewRegistry, on a charter; the anchors and the store are never nil here.
unfoldable pub new_registry : Charter → Result Error Charter
new_registry c = do
  guard (not (str_eq c.platform "")) empty_platform
  guard (not (length c.adjudicators == 0)) empty_roster
  guard (not (ltb_ℤ c.threshold (pos 1) || ltb_ℤ (pos (length c.adjudicators)) c.threshold))
      bad_threshold
  check_roster c.adjudicators
  ok c

-- `sealed` is Anchors.Sealed, which the composition root supplies.
module _ (p : Primitives) (charter : Charter) (sealed : Hash → Bytes → Bytes → Bool) where
  -- Registry.Open
  unfoldable pub open_dispute : MemStore → Opening → Result Error (DisputeId × MemStore)
  open_dispute s o = do
    guard (verify_opening p o) invalid
    guard (str_eq o.platform charter.platform) invalid
    guard (sealed o.exchange o.complainant o.respondent) invalid
    let id = opening_id p o
    s' ←
        append s
          (record { dispute = id; id = id; opening = some o; ruling = none; withdrawal = none })
    ok (id, s')

  -- Registry.Rule
  unfoldable pub rule : MemStore → Ruling → Result Error MemStore
  rule s ru = do
    guard (str_eq ru.platform charter.platform) invalid
    guard (valid_mode ru.mode) invalid
    guard (valid_finding ru.finding) invalid
    validate_remedy ru.remedy ru.mode
    guard (verify_ruling p ru charter) unauthorized
    c ← case_of s ru.dispute
    guard (is_open c.state) closed
    guard (ru.exchange == c.exchange) invalid
    append s (record {
      dispute = ru.dispute;
      id = ruling_id p ru;
      opening = none;
      ruling = some ru;
      withdrawal = none;
    })

  -- Registry.Withdraw
  unfoldable pub withdraw : MemStore → Withdrawal → Result Error MemStore
  withdraw s w = do
    guard (str_eq w.platform charter.platform) invalid
    c ← case_of s w.dispute
    guard (is_open c.state) closed
    guard (verify_withdrawal p w c.complainant) unauthorized
    append s (record {
      dispute = w.dispute;
      id = leaf_id p w;
      opening = none;
      ruling = none;
      withdrawal = some w;
    })
