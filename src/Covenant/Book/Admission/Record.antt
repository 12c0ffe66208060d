-- ===== src/Covenant/Book/Admission/Record.antt =====
-- What holds of every record that the book makes: every verdict passed the gates, none stands twice, the
-- standing counts all of them, and nothing that was recorded is changed.
use mathlib.Core.List.{append-nil}
use cloudy.Prelude.{
  ◌≡◌, refl, sym, ap, subst, ◌∙◌, ◌⊎◌, inl, inr, Bool, true, false, Bool-cases, List, [], ◌∷◌, ◌++◌,
  Option, none, some, arith, ℕ_discrete, if◌then◌else◌,
}
use cloudy.Prelude.Dict.{lookup, lookup-insert}
use cloudy.Prelude.Bytes.{Bytes, bytes_eq, has_key, eq-of-bytes_eq, bytes_eq_refl}
use cloudy.Prelude.Table.{find, get_or}
use cloudy.Prelude.Result.{ok}
use cloudy.Primitives.{Hash, Primitives}
use cloudy.Covenant.Assessment.{MemberId, valid_member_id, Assessment, Answer}
use cloudy.Covenant.Store.{MemStore, new_mem_store, verdict_key, verdicts_on, answer_for}
use cloudy.Covenant.Standing.{Standing, count_verdict, tally}
use cloudy.Covenant.Standing.Tally.{firsts, Tallies, Tallies-empty, tally-Tallies}
use cloudy.Covenant.Book.{Book, record_assessment, record_answer, standing}
use cloudy.Covenant.Book.Admission.{
  Accepted, Replies, record_assessment-Accepted, record_answer-Replies, append-steps,
  append_answer-steps,
}
use cloudy.Covenant.Standing.Unique.{Fresh, Absent, Absent-snoc, Fresh-snoc, firsts-Fresh}

-- All verdicts of the list are about the member and have the property.
pub data Each (P : Assessment → Type 0) (m : MemberId) : List Assessment → Type 0 where
  done : Each P m []
  also :
      (a : Assessment) (ads : List Assessment)
      → a.subject ≡ m
      → P a
      → Each P m ads
      → Each P m (a ∷ ads)

Each-snoc :
    (P : Assessment → Type 0) (m : MemberId) (ads : List Assessment) (a : Assessment)
    → Each P m ads
    → a.subject ≡ m
    → P a
    → Each P m (ads ++ a ∷ [])
Each-snoc P m [] a done e h = also a [] e h done
Each-snoc P m (b ∷ ads) a (also _ _ s k rest) e h =
    also b (ads ++ a ∷ []) s k (Each-snoc P m ads a rest e h)

-- The loop of Standing returns a result where every verdict is about the member.
tally-total :
    (P : Assessment → Type 0) (m : MemberId) (ads : List Assessment) (seen : List Bytes)
    (st : Standing)
    → Each P m ads
    → (st' : Standing) × (tally m seen st ads ≡ ok st')
unfolding tally
tally-total P m [] seen st done = (st, refl)
tally-total P m (a ∷ ads) seen st (also _ _ e _ rest) =
    let mine : bytes_eq a.subject m ≡ true =
      subst (λ x. bytes_eq a.subject x ≡ true) e (bytes_eq_refl a.subject) in
    elim (Bool-cases (has_key (verdict_key a) seen)) [
      | inl again ↦
          let (st', h) = tally-total P m ads seen st rest in (st', ground (arith, mine, again, h))
      | inr fresh ↦
          let (st', h) = tally-total P m ads (verdict_key a ∷ seen) (count_verdict st a) rest in
          (st', ground (arith, mine, fresh, h))
    ]

-- Standing counts what the store returns, whatever the store is: if it returns a standing, each count, by
-- relation, category and level, is the number of such verdicts among those the store returned for the member,
-- without the repetitions of a key, and so are the totals and the counts over the categories of a relation.
pub standing-Tallies :
    (s : MemStore) (m : MemberId) (st : Standing)
    → standing s m ≡ ok st
    → Tallies st (firsts [] (verdicts_on s m))
unfolding standing
standing-Tallies s m st h =
    let run : tally m [] (record { per_relation = [] }) (verdicts_on s m) ≡ ok st =
      ground (arith, h) in
    subst (Tallies st) (append-nil (firsts [] (verdicts_on s m)))
      (tally-Tallies m [] (record { per_relation = [] }) st (verdicts_on s m) [] Tallies-empty run)

module _ (p : Primitives) (directory : MemberId → Option Bytes) (b : Book)
    (sealed adjudicated : Hash → MemberId → MemberId → Bool) where
  -- An accepted call of Record or RecordAnswer.
  pub data Step (s t : MemStore) : Type 0 where
    assessed :
        (a : Assessment) → record_assessment p directory sealed adjudicated b s a ≡ ok t → Step s t
    answered : (an : Answer) → record_answer p directory sealed adjudicated b s an ≡ ok t → Step s t

  pub data History : MemStore → Type 0 where
    created : History new_mem_store
    went : (s t : MemStore) → History s → Step s t → History t

  record Sound (s : MemStore) : Type 0 where
    accepted : (m : MemberId) → Each (Accepted p directory b sealed adjudicated) m (verdicts_on s m)
    fresh : (m : MemberId) → Fresh [] (verdicts_on s m)
    known : (m : MemberId) (k : Bytes) → has_key k s.seen ≡ false → Absent k (verdicts_on s m)

  Sound-created : Sound new_mem_store
  unfolding verdicts_on get_or find Fresh Absent
  Sound-created = record { accepted = λ m. done; fresh = λ m. tt; known = λ m k h. tt }

  -- The list of a member after a verdict: one longer, if the verdict is about the member.
  assessed-list :
      (s t : MemStore) (a : Assessment) (m : MemberId)
      → verdicts_on t m
        ≡ (if bytes_eq a.subject m then verdicts_on s a.subject ++ a ∷ [] else verdicts_on s m)
      → ((a.subject ≡ m) × (verdicts_on t m ≡ verdicts_on s m ++ a ∷ []))
        ⊎ (verdicts_on t m ≡ verdicts_on s m)
  assessed-list s t a m now = elim (Bool-cases (bytes_eq a.subject m)) [
    | inr e ↦ inr (ground (arith, now, e))
    | inl e ↦
        let mine : a.subject ≡ m = eq-of-bytes_eq a.subject m e in
        let old : verdicts_on s a.subject ≡ verdicts_on s m = ap (verdicts_on s) mine in
        inl (mine, ground (arith, now, e, old))
  ]

  Sound-assessed :
      (s t : MemStore) (a : Assessment)
      → Sound s
      → record_assessment p directory sealed adjudicated b s a ≡ ok t
      → Sound t
  unfolding has_key
  Sound-assessed s t a sound h =
      let (accept, added) = record_assessment-Accepted p directory b sealed adjudicated s t a h in
      let (new, (seen, (_, now))) = append-steps p directory b s t a added in
      record {
        accepted = λ m. elim (assessed-list s t a m (now m)) [
          | inl (mine, is) ↦ subst (Each (Accepted p directory b sealed adjudicated) m) (sym is) (
              Each-snoc (Accepted p directory b sealed adjudicated) m (verdicts_on s m) a
                (sound.accepted m) mine accept)
          | inr is ↦
              subst (Each (Accepted p directory b sealed adjudicated) m) (sym is) (sound.accepted m)
        ];
        fresh = λ m. elim (assessed-list s t a m (now m)) [
          | inl (mine, is) ↦ subst (Fresh []) (sym is) (
              Fresh-snoc [] (verdicts_on s m) a (sound.fresh m) refl
                (sound.known m (verdict_key a) new))
          | inr is ↦ subst (Fresh []) (sym is) (sound.fresh m)
        ];
        known = λ m k out.
            let apart : (bytes_eq (verdict_key a) k ≡ false) × (has_key k s.seen ≡ false) =
              (ground (arith, out, seen), ground (arith, out, seen)) in
            elim (assessed-list s t a m (now m)) [
              | inl (mine, is) ↦
                  subst (Absent k) (sym is)
                    (Absent-snoc k (verdicts_on s m) a (sound.known m k apart.1) apart.0)
              | inr is ↦ subst (Absent k) (sym is) (sound.known m k apart.1)
            ];
      }

  Sound-answered :
      (s t : MemStore) (an : Answer)
      → Sound s
      → record_answer p directory sealed adjudicated b s an ≡ ok t
      → Sound t
  Sound-answered s t an sound h =
      let (_, added) = record_answer-Replies p directory b sealed adjudicated s t an h in
      let (_, (_, (seen, same))) = append_answer-steps p directory b s t an added in
      record {
        accepted = λ m.
            subst (Each (Accepted p directory b sealed adjudicated) m) (sym (same m))
              (sound.accepted m);
        fresh = λ m. subst (Fresh []) (sym (same m)) (sound.fresh m);
        known = λ m k out.
            subst (Absent k) (sym (same m)) (sound.known m k (ap (has_key k) (sym seen) ∙ out));
      }

  Sound-History : (s : MemStore) → History s → Sound s
  Sound-History _ created = Sound-created
  Sound-History _ (went s t past (assessed a h)) = Sound-assessed s t a (Sound-History s past) h
  Sound-History _ (went s t past (answered an h)) = Sound-answered s t an (Sound-History s past) h

  -- In every record that calls of Record and RecordAnswer make of an empty one, every verdict that stands
  -- under a member is about that member and passed every gate: minted ids of two distinct members, whose keys
  -- the directory has and which mint those ids, the assessor's signature, an exchange and an instant that are not
  -- zero, a relation, a level and a category of the closed sets, the hash of a comment with the worst level, and
  -- the anchor of its relation.
  pub Accepted-History :
      (s : MemStore) (m : MemberId)
      → History s
      → Each (Accepted p directory b sealed adjudicated) m (verdicts_on s m)
  Accepted-History s m past = (Sound-History s past).accepted m

  -- In every record that calls of Record and RecordAnswer make of an empty one, Standing of a well-formed member id returns a standing, and it counts all the
  -- verdicts about that member, none twice and none left out.
  pub standing-History :
      (s : MemStore) (m : MemberId)
      → History s
      → valid_member_id m ≡ true
      → (st : Standing) × ((standing s m ≡ ok st) × Tallies st (verdicts_on s m))
  unfolding standing
  standing-History s m past shape =
      let sound = Sound-History s past in
      let (st, run) =
        tally-total (Accepted p directory b sealed adjudicated) m (verdicts_on s m) []
          (record { per_relation = [] }) (sound.accepted m) in
      let whole : standing s m ≡ ok st = ground (arith, shape, run) in
      (
        st,
        (
          whole,
          subst (Tallies st) (firsts-Fresh [] (verdicts_on s m) (sound.fresh m))
              (standing-Tallies s m st whole),
        ),
      )

  -- An accepted call of Record or RecordAnswer appends: the verdicts about every member are the old ones and then perhaps more, and
  -- every answer that was recorded stays as it is.
  Step-Appends :
      (s t : MemStore)
      → Step s t
      → ((m : MemberId) → (more : List Assessment) × (verdicts_on t m ≡ verdicts_on s m ++ more))
        × ((i : Hash) → (answer_for s i ≡ none) ⊎ (answer_for t i ≡ answer_for s i))
  unfolding answer_for
  Step-Appends s t (assessed a h) =
      let (_, added) = record_assessment-Accepted p directory b sealed adjudicated s t a h in
      let (_, (_, (same, now))) = append-steps p directory b s t a added in
      (
        λ m. elim (assessed-list s t a m (now m)) [
          | inl (_, is) ↦ (a ∷ [], is)
          | inr is ↦ ([], is ∙ sym (append-nil (verdicts_on s m)))
        ],
        λ i. inr (ap (lookup i) same),
      )
  Step-Appends s t (answered an h) =
      let (_, added) = record_answer-Replies p directory b sealed adjudicated s t an h in
      let (new, (wrote, (_, same))) = append_answer-steps p directory b s t an added in
      (
        λ m. ([], same m ∙ sym (append-nil (verdicts_on s m))),
        λ i. elim (ℕ_discrete an.assessment i) [
          | yes q ↦ inl (ap (λ x. lookup x s.answers) (sym q) ∙ new)
          | no n ↦
              inr (
                ap (lookup i) wrote ∙ ground (arith, n, lookup-insert an.assessment i an s.answers))
        ],
      )

  -- An answer that RecordAnswer accepts is signed by the key of the very member that the answered verdict is
  -- about, is the first answer to that verdict, and stands as its answer afterwards.
  pub record_answer_once :
      (s t : MemStore) (an : Answer)
      → record_answer p directory sealed adjudicated b s an ≡ ok t
      → ((a : Assessment) × Replies p directory b sealed adjudicated s an a)
        × ((answer_for s an.assessment ≡ none) × (answer_for t an.assessment ≡ some an))
  unfolding answer_for
  record_answer_once s t an h =
      let (replies, added) = record_answer-Replies p directory b sealed adjudicated s t an h in
      let (new, (wrote, _)) = append_answer-steps p directory b s t an added in
      (
        replies,
        (
          new,
          ap (lookup an.assessment) wrote
              ∙ ground (arith, lookup-insert an.assessment an.assessment an s.answers),
        ),
      )
