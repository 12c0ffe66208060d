-- ===== src/Covenant/Book.antt =====
-- internal/covenant/book.go: the gates of the book. The member directory and the anchors are interfaces that
-- the composition root fills; they are parameters.
pub mod Admission
use Prim.Native.String.{String}
use text.Mathlib.Text.{◌==◌ as str_eq}
use cloudy.Prelude.{
  ℕ, ◌≡◌, Bool, true, false, not, ◌&&◌, List, [], ◌∷◌, Option, none, some, length, ◌==◌,
  if◌then◌else◌,
}
use cloudy.Prelude.Bytes.{Bytes, ascii, bytes_eq, has_key}
use cloudy.Prelude.Result.{Result, ok, err, ◌>>=◌, ◌>>◌, guard, or_err}
use cloudy.Primitives.{Hash, Primitives, public_key_size}
use cloudy.Covenant.Assessment.{
  Error, invalid, unknown_assessment, empty_platform, empty_category, duplicate_category, MemberId,
  valid_member_id, valid_level, is_no_trust, relation_trade, valid_relation, Assessment, Answer,
  member_id_for, verify_assessment, verify_answer,
}
use cloudy.Covenant.Store.{MemStore, append, append_answer, verdict_of, verdicts_on, answer_for}
use cloudy.Covenant.Standing.{Standing, tally}

-- The store is passed beside the book; `categories` holds the keys of the set.
pub record Book : Type 0 where
  pub platform : String
  pub categories : List Bytes

-- lbtasDefaultCategories
unfoldable pub lbtas_default_categories : List Bytes
lbtas_default_categories =
    ascii "reliability" ∷ ascii "usability" ∷ ascii "performance" ∷ ascii "support" ∷ []

-- The loop of NewBook over the names.
unfoldable pub category_set : List Bytes → List Bytes → Result Error (List Bytes)
category_set set [] = ok set
category_set set (c ∷ cs) = do
  guard (not (bytes_eq c [])) empty_category
  guard (not (has_key c set)) duplicate_category
  category_set (c ∷ set) cs

-- NewBook, on interfaces that are not nil.
unfoldable pub new_book : String → List Bytes → Result Error Book
new_book platform categories = do
  guard (not (str_eq platform "")) empty_platform
  set ← category_set [] (if length categories == 0 then lbtas_default_categories else categories)
  ok (record { platform = platform; categories = set })

-- `directory` is Directory.PublicKey; `sealed` and `adjudicated` are the two methods of Anchors.
module _ (p : Primitives) (directory : MemberId → Option Bytes)
    (sealed adjudicated : Hash → MemberId → MemberId → Bool) where
  -- Book.Record
  unfoldable pub record_assessment : Book → MemStore → Assessment → Result Error MemStore
  record_assessment b s a = do
    guard (valid_member_id a.assessor) invalid
    guard (valid_member_id a.subject) invalid
    guard (not (bytes_eq a.assessor a.subject)) invalid
    guard (not (a.exchange == 0)) invalid
    guard (valid_relation a.relation) invalid
    guard (valid_level a.level) invalid
    guard (has_key a.category b.categories) invalid
    guard (not (is_no_trust a.level && a.comment_hash == 0)) invalid
    guard (not (a.issued_at == 0)) invalid
    key ← or_err (directory a.assessor) invalid
    guard (length key == public_key_size) invalid
    guard (bytes_eq (member_id_for p b.platform key) a.assessor) invalid
    guard (verify_assessment p a key) invalid
    subject_key ← or_err (directory a.subject) invalid
    guard (length subject_key == public_key_size) invalid
    guard (bytes_eq (member_id_for p b.platform subject_key) a.subject) invalid
    guard
        (if bytes_eq a.relation relation_trade
          then sealed a.exchange a.assessor a.subject
          else adjudicated a.exchange a.assessor a.subject)
        invalid
    append p s a

  -- Book.RecordAnswer
  unfoldable pub record_answer : Book → MemStore → Answer → Result Error MemStore
  record_answer b s an = do
    guard (not (an.assessment == 0)) invalid
    guard (valid_member_id an.answerer) invalid
    guard (not (an.answer_hash == 0)) invalid
    guard (not (an.issued_at == 0)) invalid
    a ← or_err (verdict_of s an.assessment) unknown_assessment
    guard (bytes_eq an.answerer a.subject) invalid
    key ← or_err (directory an.answerer) invalid
    guard (length key == public_key_size) invalid
    guard (bytes_eq (member_id_for p b.platform key) an.answerer) invalid
    guard (verify_answer p an key) invalid
    append_answer s an

-- Book.Standing
unfoldable pub standing : MemStore → MemberId → Result Error Standing
standing s subject = do
  guard (valid_member_id subject) invalid
  tally subject [] (record { per_relation = [] }) (verdicts_on s subject)

-- Book.AnswerFor
unfoldable pub book_answer_for : MemStore → Hash → Option Answer
book_answer_for s id = answer_for s id
