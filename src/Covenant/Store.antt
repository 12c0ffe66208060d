-- ===== src/Covenant/Store.antt =====
-- internal/covenant/memstore.go: the append-only store of verdicts and answers. Admitted and AdmittedAnswer
-- hold one field each, and are that field here.
use cloudy.Prelude.{not, List, [], ◌∷◌, ◌++◌, Option}
use cloudy.Prelude.Dict.{Dict, has, lookup, insert}
use cloudy.Prelude.Table.{Table, get_or, write}
use cloudy.Prelude.Bytes.{Bytes, bytes_eq, has_key, bytes-Key}
use cloudy.Prelude.Result.{Result, ok, ◌>>◌, guard}
use cloudy.Primitives.{Hash, hash_bytes, Primitives}
use cloudy.Covenant.Assessment.{
  Error, invalid, duplicate, MemberId, Assessment, Answer, assessment_id,
}

-- `seen` holds the keys of the map.
pub record MemStore : Type 0 where
  pub seen : List Bytes
  pub by_subject : Table Bytes (List Assessment)
  pub by_id : Dict Assessment
  pub answers : Dict Answer

-- NewMemStore
abbrev pub new_mem_store : MemStore
new_mem_store = record { seen = []; by_subject = []; by_id = []; answers = [] }

-- The uniqueness key of a verdict.
unfoldable pub verdict_key : Assessment → Bytes
verdict_key a = a.assessor ++ 0 ∷ hash_bytes a.exchange ++ 0 ∷ a.relation ++ 0 ∷ a.category

-- s.bySubject[subject], and MemStore.BySubject
unfoldable pub verdicts_on : MemStore → MemberId → List Assessment
verdicts_on s subject = get_or [] subject s.by_subject

-- MemStore.ByID
unfoldable pub verdict_of : MemStore → Hash → Option Assessment
verdict_of s id = lookup id s.by_id

-- MemStore.AppendAnswer
unfoldable pub append_answer : MemStore → Answer → Result Error MemStore
append_answer s an = do
  guard (not (bytes_eq an.answerer [])) invalid
  guard (not (has an.assessment s.answers)) duplicate
  ok (record s { answers = insert an.assessment an s.answers })

-- MemStore.AnswerFor
unfoldable pub answer_for : MemStore → Hash → Option Answer
answer_for s id = lookup id s.answers

-- MemStore.Append
unfoldable pub append : Primitives → MemStore → Assessment → Result Error MemStore
append p s a = do
  guard (not (bytes_eq a.assessor [])) invalid
  guard (not (has_key (verdict_key a) s.seen)) duplicate
  ok (record s {
    seen = verdict_key a ∷ s.seen;
    by_subject = write a.subject (verdicts_on s a.subject ++ a ∷ []) s.by_subject;
    by_id = insert (assessment_id p a) a s.by_id;
  })
