-- ===== src/Covenant/Book/Admission.antt =====
-- What an accepted call of the book has tested, and what it leaves in the store.
pub mod Record
use cloudy.Prelude.{
  ℕ, ◌≡◌, ◌≢◌, refl, sym, ap, subst, ◌∙◌, ◌⊎◌, inl, inr, Bool, true, false, not, ◌&&◌, Bool-cases,
  List, [], ◌∷◌, ◌++◌, Option, none, some, Option-cases, arith, length, ◌==◌, if◌then◌else◌,
}
use cloudy.Prelude.Dict.{has, lookup, insert, lookup-insert}
use cloudy.Prelude.Table.{write, get_or, get_or-write}
use cloudy.Prelude.Bytes.{Bytes, bytes_eq, has_key, bytes-Key, eq-of-bytes_eq}
use cloudy.Prelude.Result.{Result, ok, err}
use cloudy.Primitives.{Hash, Primitives, public_key_size}
use cloudy.Covenant.Assessment.{
  MemberId, valid_member_id, valid_level, is_no_trust, relation_trade, valid_relation, Assessment,
  Answer, assessment_id, member_id_for, verify_assessment, verify_answer,
}
use cloudy.Covenant.Store.{
  MemStore, new_mem_store, append, append_answer, verdict_key, verdicts_on, verdict_of, answer_for,
}
use cloudy.Covenant.Book.{Book, record_assessment, record_answer}

module _ (p : Primitives) (directory : MemberId → Option Bytes) (b : Book) where
  -- The directory has a key of the right length for the member, and the key mints the member's id.
  pub record Bound (m : MemberId) (key : Bytes) : Type 0 where
    pub found : directory m ≡ some key
    pub sized : length key ≡ public_key_size
    pub mints : member_id_for p b.platform key ≡ m

  module _ (sealed adjudicated : Hash → MemberId → MemberId → Bool) where
    -- A verdict that the book has let through.
    pub record Accepted (a : Assessment) : Type 0 where
      pub assessor_shape : valid_member_id a.assessor ≡ true
      pub subject_shape : valid_member_id a.subject ≡ true
      pub apart : bytes_eq a.assessor a.subject ≡ false
      pub exchange : (a.exchange == 0) ≡ false
      pub relation : valid_relation a.relation ≡ true
      pub level : valid_level a.level ≡ true
      pub category : has_key a.category b.categories ≡ true
      pub comment : (is_no_trust a.level && a.comment_hash == 0) ≡ false
      pub issued : (a.issued_at == 0) ≡ false
      pub key : Bytes
      pub bound : Bound a.assessor key
      pub signed : verify_assessment p a key ≡ true
      pub subject_key : Bytes
      pub subject_bound : Bound a.subject subject_key
      pub anchored :
          (if bytes_eq a.relation relation_trade
            then sealed a.exchange a.assessor a.subject
            else adjudicated a.exchange a.assessor a.subject)
          ≡ true

    pub record_assessment-Accepted :
        (s t : MemStore) (a : Assessment)
        → record_assessment p directory sealed adjudicated b s a ≡ ok t
        → Accepted a × (append p s a ≡ ok t)
    unfolding record_assessment
    record_assessment-Accepted s t a h = elim (Option-cases (directory a.assessor)) [
      | inl no' ↦ absurd (ground (arith, no'))
      | inr (key, found) ↦ elim (Option-cases (directory a.subject)) [
        | inl no' ↦ absurd (ground (arith, no', found))
        | inr (subject_key, known) ↦ (
          record {
            assessor_shape = ground arith;
            subject_shape = ground arith;
            apart = ground arith;
            exchange = ground arith;
            relation = ground arith;
            level = ground arith;
            category = ground arith;
            comment = ground arith;
            issued = ground arith;
            key = key;
            bound = record {
              found = found;
              sized = ground (arith, h, found);
              mints =
                  eq-of-bytes_eq (member_id_for p b.platform key) a.assessor
                    (ground (arith, h, found));
            };
            signed = ground (arith, h, found);
            subject_key = subject_key;
            subject_bound = record {
              found = known;
              sized = ground (arith, h, found, known);
              mints =
                  eq-of-bytes_eq (member_id_for p b.platform subject_key) a.subject
                    (ground (arith, h, found, known));
            };
            anchored = ground (arith, h, found, known);
          },
          ground (arith, h, found, known),
        )
      ]
    ]

    -- An answer that the book has let through, to the verdict `a`.
    pub record Replies (s : MemStore) (an : Answer) (a : Assessment) : Type 0 where
      pub held : verdict_of s an.assessment ≡ some a
      pub rated : an.answerer ≡ a.subject
      pub key : Bytes
      pub bound : Bound an.answerer key
      pub signed : verify_answer p an key ≡ true

    pub record_answer-Replies :
        (s t : MemStore) (an : Answer)
        → record_answer p directory sealed adjudicated b s an ≡ ok t
        → ((a : Assessment) × Replies s an a) × (append_answer s an ≡ ok t)
    unfolding record_answer
    record_answer-Replies s t an h = elim (Option-cases (verdict_of s an.assessment)) [
      | inl no' ↦ absurd (ground (arith, no'))
      | inr (a, held) ↦ elim (Option-cases (directory an.answerer)) [
        | inl no' ↦ absurd (ground (arith, no', held))
        | inr (key, found) ↦ (
          (
            a,
            record {
              held = held;
              rated = eq-of-bytes_eq an.answerer a.subject (ground (arith, h, held));
              key = key;
              bound = record {
                found = found;
                sized = ground (arith, h, held, found);
                mints =
                    eq-of-bytes_eq (member_id_for p b.platform key) an.answerer
                      (ground (arith, h, held, found));
              };
              signed = ground (arith, h, held, found);
            },
          ),
          ground (arith, h, held, found),
        )
      ]
    ]

  pub append-steps :
      (s t : MemStore) (a : Assessment)
      → append p s a ≡ ok t
      → (has_key (verdict_key a) s.seen ≡ false)
        × ((t.seen ≡ verdict_key a ∷ s.seen)
            × ((t.answers ≡ s.answers)
                × ((m : MemberId)
                    → verdicts_on t m ≡ (
                        if bytes_eq a.subject m
                        then verdicts_on s a.subject ++ a ∷ []
                        else verdicts_on s m))))
  unfolding append verdicts_on bytes-Key
  append-steps s t a h =
      let wrote : t.by_subject ≡ write a.subject (verdicts_on s a.subject ++ a ∷ []) s.by_subject =
        ground arith in
      (
        ground arith,
        (
          ground arith,
          (
            ground arith,
            λ m.
                ap (get_or [] m) wrote
                ∙ get_or-write [] a.subject m (verdicts_on s a.subject ++ a ∷ []) s.by_subject,
          ),
        ),
      )

  pub append_answer-steps :
      (s t : MemStore) (an : Answer)
      → append_answer s an ≡ ok t
      → (answer_for s an.assessment ≡ none)
        × ((t.answers ≡ insert an.assessment an s.answers)
            × ((t.seen ≡ s.seen) × ((m : MemberId) → verdicts_on t m ≡ verdicts_on s m)))
  unfolding append_answer answer_for has verdicts_on
  append_answer-steps s t an h =
      let same : t.by_subject ≡ s.by_subject = ground arith in
      (
        elim (Option-cases (lookup an.assessment s.answers)) [
          | inl e ↦ e
          | inr (x, e) ↦ absurd (ground (arith, h, e))
        ],
        (ground arith, (ground arith, λ m. ap (get_or [] m) same)),
      )
