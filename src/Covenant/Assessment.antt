-- ===== src/Covenant/Assessment.antt =====
-- internal/covenant/assessment.go and validMemberID of book.go: member ids, verdicts, answers. A string
-- that stands in a map's key is the list of its bytes here: member ids, relations and categories.
pub mod Minted
use Prim.Native.String.{String}
use cloudy.Prelude.{
  ℕ, ◌+◌, ◌/◌, ◌%◌, ◌≡◌, Bool, true, false, not, ◌&&◌, ◌||◌, List, [], ◌∷◌, ◌++◌, leb, ltb, length,
  ◌==◌, if◌then◌else◌,
}
use cloudy.Prelude.Int.{ℤ, pos, negsuc}
use cloudy.Prelude.Bytes.{Bytes, ascii, bytes_eq}
use cloudy.Primitives.{
  Hash, hash_bytes, string, text, bytes, int64, time, Primitives, signature_size,
}

-- The errors of the package. `contract` is Standing's report of a store that breaks its contract.
pub data Error : Type 0 where
  invalid duplicate unknown_assessment contract : Error
  empty_platform empty_category duplicate_category : Error

abbrev pub MemberId : Type 0
MemberId = Bytes

-- One digit of encoding/hex, in lower case.
unfoldable pub hex_digit : ℕ → ℕ
hex_digit n = if ltb n 10 then 48 + n else 87 + n

-- hex.EncodeToString, on bytes below 256.
unfoldable pub hex_encode : Bytes → Bytes
hex_encode [] = []
hex_encode (b ∷ bs) = hex_digit (b / 16) ∷ hex_digit (b % 16) ∷ hex_encode bs

-- The loop of validMemberID: '0' to '9' are 48 to 57, 'a' to 'f' are 97 to 102.
unfoldable pub all_hex : Bytes → Bool
all_hex [] = true
all_hex (c ∷ cs) = if (ltb c 48 || ltb 57 c) && (ltb c 97 || ltb 102 c) then false else all_hex cs

-- validMemberID
unfoldable pub valid_member_id : MemberId → Bool
valid_member_id m = if not (length m == 64) then false else all_hex m

-- `type Level int8`
abbrev pub Level : Type 0
Level = ℤ

abbrev pub level_no_trust : Level
level_no_trust = negsuc 0

-- Levels, in display order.
unfoldable pub levels : List Level
levels = pos 4 ∷ pos 3 ∷ pos 2 ∷ pos 1 ∷ pos 0 ∷ negsuc 0 ∷ []

-- validLevel
unfoldable pub valid_level : Level → Bool
valid_level (negsuc n) = n == 0
valid_level (pos n) = n == 0 || n == 1 || n == 2 || n == 3 || n == 4

-- a.Level == LevelNoTrust
unfoldable pub is_no_trust : Level → Bool
is_no_trust (negsuc n) = n == 0
is_no_trust (pos n) = false

abbrev pub Relation : Type 0
Relation = Bytes

unfoldable pub relation_trade : Relation
relation_trade = ascii "trade"

unfoldable pub relation_adjudication_conduct : Relation
relation_adjudication_conduct = ascii "adjudication-conduct"

unfoldable pub relation_verdict_satisfaction : Relation
relation_verdict_satisfaction = ascii "verdict-satisfaction"

-- validRelation
unfoldable pub valid_relation : Relation → Bool
valid_relation r =
    bytes_eq r relation_trade
    || bytes_eq r relation_adjudication_conduct
    || bytes_eq r relation_verdict_satisfaction

-- Relations, in display order.
unfoldable pub relations : List Relation
relations = relation_trade ∷ relation_adjudication_conduct ∷ relation_verdict_satisfaction ∷ []

pub record Assessment : Type 0 where
  pub assessor : MemberId
  pub subject : MemberId
  pub exchange : Hash
  pub relation : Relation
  pub category : Bytes
  pub level : Level
  pub comment_hash : Hash
  pub issued_at : ℕ
  pub signature : Bytes

pub record Answer : Type 0 where
  pub assessment : Hash
  pub answerer : MemberId
  pub answer_hash : Hash
  pub issued_at : ℕ
  pub signature : Bytes

module _ (p : Primitives) where
  open p use {verify, sign, sha256, canon}

  -- MemberIDFor
  unfoldable pub member_id_for : String → Bytes → MemberId
  member_id_for platform key =
      hex_encode
        (hash_bytes (sha256 (canon "cloudy/covenant/member/v0" (string platform ∷ bytes key ∷ []))))

  -- Assessment.CanonicalBytes: every field but the signature.
  unfoldable pub assessment_bytes : Assessment → Bytes
  assessment_bytes a = canon "cloudy/covenant/assessment/v1" (
      text a.assessor
      ∷ text a.subject
      ∷ bytes (hash_bytes a.exchange)
      ∷ text a.relation
      ∷ text a.category
      ∷ int64 a.level
      ∷ bytes (hash_bytes a.comment_hash)
      ∷ time a.issued_at
      ∷ [])

  -- Assessment.ID
  unfoldable pub assessment_id : Assessment → Hash
  assessment_id a = sha256 (
      canon "cloudy/covenant/assessment-id/v1"
        (bytes (assessment_bytes a) ∷ bytes a.signature ∷ []))

  -- Assessment.Sign
  unfoldable pub sign_assessment : Bytes → Assessment → Assessment
  sign_assessment k a = record a { signature = sign k (assessment_bytes a) }

  -- Assessment.Verify
  unfoldable pub verify_assessment : Assessment → Bytes → Bool
  verify_assessment a key =
      length a.signature == signature_size && verify key (assessment_bytes a) a.signature

  -- Answer.CanonicalBytes: every field but the signature.
  unfoldable pub answer_bytes : Answer → Bytes
  answer_bytes an = canon "cloudy/covenant/answer/v1" (
      bytes (hash_bytes an.assessment)
      ∷ text an.answerer
      ∷ bytes (hash_bytes an.answer_hash)
      ∷ time an.issued_at
      ∷ [])

  -- Answer.Sign
  unfoldable pub sign_answer : Bytes → Answer → Answer
  sign_answer k an = record an { signature = sign k (answer_bytes an) }

  -- Answer.Verify
  unfoldable pub verify_answer : Answer → Bytes → Bool
  verify_answer an key =
      length an.signature == signature_size && verify key (answer_bytes an) an.signature
