-- ===== src/Dispute/Registry/Cases/Outcome.antt =====
-- What holds of every store that the registry makes: the shapes, one ruling for an exchange and a pair,
-- and a quorum behind it.
use cloudy.Prelude.{◌≡◌, refl, sym, subst, inl, inr, Bool, true, List, [], ◌∷◌, arith}
use cloudy.Prelude.Bytes.{Bytes, bytes-Key}
use cloudy.Prelude.Result.{Result, ok, err}
use cloudy.Primitives.{Hash, Primitives}
use cloudy.Dispute.Artifact.{Error, invalid, DisputeId, Opening, Ruling, Withdrawal, Charter}
use cloudy.Dispute.Store.{Admitted, MemStore, tuple_key, artifacts_of}
use cloudy.Dispute.Registry.{resolved, withdrawn, Case, case_of, open_dispute, rule}
use cloudy.Dispute.Registry.Steps.{
  opening_artifact, ruling_artifact, withdrawal_artifact, append-opening, open_dispute-Opens,
}
use cloudy.Dispute.Registry.Cases.{
  History, Shape, absent, live, ruled, undone, live_case, case_of-absent, case_of-live,
  case_of-ruled, case_of-undone,
}
use cloudy.Prelude.{length}
use cloudy.Prelude.Int.{pos, ◌≤ℤ◌}
use cloudy.Prelude.Result.{Result-cases}
use cloudy.Dispute.Artifact.{ruling_bytes, verify_ruling}
use cloudy.Economy.Policy.{count_signers}
use cloudy.Economy.Policy.Quorum.{AreSigners, count_signers-AreSigners}
use cloudy.Dispute.Registry.Cases.Invariant.{Sound-History, ruled-settled}

subst2 : {A B : Type 0} (P : A → B → Type 0) {a c : A} {b d : B} → a ≡ c → b ≡ d → P a b → P c d
subst2 P {c = c} {b = b} e f x = subst (P c) f (subst (λ y. P y b) e x)

module _ (p : Primitives) (charter : Charter) (sealed : Hash → Bytes → Bytes → Bool) where
  -- In every store that calls of Open, Rule and Withdraw make of an empty one, each case has one of four
  -- shapes. It has no artifact; or a verified, anchored opening alone, whose exchange and pair it holds live
  -- and which no ruling has settled; or that opening and one ruling with the charter's authorization, of this
  -- case and exchange, with a remedy that fits its mode, and its exchange and pair are settled; or that
  -- opening and one withdrawal that the complainant has signed.
  pub Shape-History :
      (s : MemStore) (d : DisputeId) → History p charter sealed s → Shape p charter sealed s d
  Shape-History s d past = (Sound-History p charter sealed s past).shape d

  -- The reading of the artifacts that the state machine means.
  pub data Reads (d : DisputeId) : List Admitted → Result Error Case → Type 0 where
    nothing : Reads d [] (err invalid)
    awaiting :
        (o : Opening) → Reads d (opening_artifact d o ∷ []) (ok (live_case p charter sealed d o))
    judged :
        (o : Opening) (id : DisputeId) (ru : Ruling)
        → Reads d (opening_artifact d o ∷ ruling_artifact d id ru ∷ []) (
            ok (record (live_case p charter sealed d o) {
              state = resolved;
              finding = ru.finding;
              remedy = ru.remedy;
            }))
    dropped :
        (o : Opening) (id : DisputeId) (w : Withdrawal)
        → Reads d
            (opening_artifact d o ∷ withdrawal_artifact d id w ∷ [])
            (ok (record (live_case p charter sealed d o) { state = withdrawn }))

  Reads-Shape :
      (s : MemStore) (d : DisputeId)
      → Shape p charter sealed s d
      → Reads d (artifacts_of s d) (case_of s d)
  Reads-Shape s d (absent a) =
      subst2 (Reads d) (sym a) (sym (case_of-absent p charter sealed s d a)) nothing
  Reads-Shape s d (live o a _ _ _ _) =
      subst2 (Reads d) (sym a) (sym (case_of-live p charter sealed s d o a)) (awaiting o)
  Reads-Shape s d (ruled o id ru a _ _ _) =
      subst2 (Reads d) (sym a) (sym (case_of-ruled p charter sealed s d id o ru a)) (judged o id ru)
  Reads-Shape s d (undone o id w a _ _) =
      subst2 (Reads d) (sym a) (sym (case_of-undone p charter sealed s d id o w a)) (dropped o id w)

  -- In every store that calls of Open, Rule and Withdraw make of an empty one, Case never reports a breach of the store's contract: it refuses a case without
  -- artifacts, and reads any other as open after its opening, as resolved with the ruling's finding and
  -- remedy after a ruling, and as withdrawn after a withdrawal.
  pub Reads-case_of :
      (s : MemStore) (d : DisputeId)
      → History p charter sealed s
      → Reads d (artifacts_of s d) (case_of s d)
  Reads-case_of s d past = Reads-Shape s d (Shape-History s d past)

  -- In every store that calls of Open, Rule and Withdraw make of an empty one, two rulings over the same exchange and the same complainant and respondent stand in
  -- one case, so no exchange is decided twice for a pair.
  pub ruled_once :
      (s : MemStore) (d e i j : DisputeId) (o u : Opening) (ru rv : Ruling)
      → History p charter sealed s
      → artifacts_of s d ≡ opening_artifact d o ∷ ruling_artifact d i ru ∷ []
      → artifacts_of s e ≡ opening_artifact e u ∷ ruling_artifact e j rv ∷ []
      → o.exchange ≡ u.exchange
      → o.complainant ≡ u.complainant
      → o.respondent ≡ u.respondent
      → d ≡ e
  unfolding tuple_key
  ruled_once s d e i j o u ru rv past a b x c r =
      (Sound-History p charter sealed s past).single d e i j o u ru rv a b (rw (x, c, r) refl)

  -- In every store that calls of Open, Rule and Withdraw make of an empty one, an opening over the exchange and the pair of a case that has been ruled is refused.
  pub open_dispute-settled :
      (s : MemStore) (d i : DisputeId) (o u : Opening) (ru : Ruling)
      → History p charter sealed s
      → artifacts_of s d ≡ opening_artifact d o ∷ ruling_artifact d i ru ∷ []
      → u.exchange ≡ o.exchange
      → u.complainant ≡ o.complainant
      → u.respondent ≡ o.respondent
      → (x : Error) × (open_dispute p charter sealed s u ≡ err x)
  unfolding tuple_key
  open_dispute-settled s d i o u ru past a x c r =
      elim (Result-cases (open_dispute p charter sealed s u)) [
        | inr refused ↦ refused
        | inl ((id, t), h) ↦
            let (_, added) = open_dispute-Opens p charter sealed s t u id h in
            let (_, (free, _)) = append-opening s t id u added in
            let taken = ruled-settled p charter sealed s d i o ru (Shape-History s d past) a in
            let same : tuple_key u ≡ tuple_key o = rw (x, c, r) refl in
            absurd (cc (same, taken, free))
      ]

  -- A ruling that Rule accepts carries, from pairwise distinct adjudicators of the charter, at least as many
  -- of them as its threshold, which is at least one, a signature of each over the ruling's bytes.
  pub rule_quorum :
      (s t : MemStore) (ru : Ruling)
      → rule p charter sealed s ru ≡ ok t
      → (ks : List Bytes) × (AreSigners p (ruling_bytes p ru) charter.adjudicators ru.sigs ks
          × ((charter.threshold ≤ℤ pos (length ks)) × (pos 1 ≤ℤ charter.threshold)))
  unfolding rule verify_ruling
  rule_quorum s t ru h =
      let verified : verify_ruling p ru charter ≡ true = ground (arith, h) in
      (
        count_signers p (ruling_bytes p ru) charter.adjudicators [] ru.sigs,
        (
          count_signers-AreSigners p (ruling_bytes p ru) charter.adjudicators ru.sigs [] ru.sigs
              (λ s i. i) (tt, tt),
          (ground (arith, verified), ground (arith, verified)),
        ),
      )
