-- ===== src/Dispute/Registry/Cases.antt =====
-- The artifacts of each case, in every store that the registry makes.
mod Kept
mod Invariant
pub mod Outcome
use cloudy.Prelude.{
  ℕ, ◌≡◌, refl, sym, subst, ap, ◌∙◌, ◌⊎◌, inl, inr, Bool, true, false, not, Bool-cases, List, [],
  ◌∷◌, ◌++◌, Option, none, some, Option-cases, arith, ◌==◌, if◌then◌else◌,
}
use cloudy.Prelude.Dict.{has, get, lookup, insert, lookup-insert}
use cloudy.Prelude.Table.{find, write, remove, find-write, find-remove}
use cloudy.Prelude.Bytes.{Bytes, bytes_eq, has_key, bytes-Key, bytes_eq_refl, eq-of-bytes_eq}
use cloudy.Prelude.Result.{Result, ok, err}
use cloudy.Primitives.{Hash, Primitives}
use cloudy.Dispute.Artifact.{
  Error, invalid, DisputeId, Opening, Ruling, Withdrawal, Charter, ruling_id, leaf_id,
}
use cloudy.Dispute.Store.{Admitted, MemStore, new_mem_store, tuple_key, file_artifact, artifacts_of}
use cloudy.Dispute.Registry.{
  State, open_state, resolved, withdrawn, is_open, Case, zero_case, case_finding, case_remedy,
  read_case, case_of, fold_case, open_dispute, rule, withdraw,
}
use cloudy.Dispute.Registry.Steps.{
  opening_artifact, ruling_artifact, withdrawal_artifact, opened_store, ruled_store,
  withdrawn_store, file_artifact-artifacts, file_artifact-ids, append-opening, append-ruling,
  append-withdrawal, Opens, Rules, Retracts, open_dispute-Opens, rule-steps, rule-Rules,
  withdraw-steps,
}

module _ (p : Primitives) (charter : Charter) (sealed : Hash → Bytes → Bytes → Bool) where
  -- The stores that calls of Open, Rule and Withdraw make of an empty one.
  pub data History : MemStore → Type 0 where
    created : History new_mem_store
    opened :
        (s t : MemStore) (o : Opening) (id : DisputeId)
        → History s
        → open_dispute p charter sealed s o ≡ ok (id, t)
        → History t
    decided :
        (s t : MemStore) (ru : Ruling) → History s → rule p charter sealed s ru ≡ ok t → History t
    retracted :
        (s t : MemStore) (w : Withdrawal)
        → History s
        → withdraw p charter sealed s w ≡ ok t
        → History t

  -- What the store holds of a case: nothing; its opening, with the tuple live and not settled; that and a
  -- ruling, with the tuple settled; or that and a withdrawal.
  pub data Shape (s : MemStore) (d : DisputeId) : Type 0 where
    absent : artifacts_of s d ≡ [] → Shape s d
    live :
        (o : Opening)
        → artifacts_of s d ≡ opening_artifact d o ∷ []
        → Opens p charter sealed d o
        → lookup d s.dispute_tuple ≡ some (tuple_key o)
        → find (tuple_key o) s.open_tuple ≡ some d
        → has_key (tuple_key o) s.adjudicated ≡ false
        → Shape s d
    ruled :
        (o : Opening) (id : DisputeId) (ru : Ruling)
        → artifacts_of s d ≡ opening_artifact d o ∷ ruling_artifact d id ru ∷ []
        → Opens p charter sealed d o
        → Rules p charter sealed d o ru
        → has_key (tuple_key o) s.adjudicated ≡ true
        → Shape s d
    undone :
        (o : Opening) (id : DisputeId) (w : Withdrawal)
        → artifacts_of s d ≡ opening_artifact d o ∷ withdrawal_artifact d id w ∷ []
        → Opens p charter sealed d o
        → Retracts p charter sealed d o w
        → Shape s d

  -- The folds of the four shapes.
  pub case_of-absent :
      (s : MemStore) (d : DisputeId) → artifacts_of s d ≡ [] → case_of s d ≡ err invalid
  unfolding case_of read_case
  case_of-absent s d h = ap (read_case d) h

  abbrev pub live_case : DisputeId → Opening → Case
  live_case d o = record {
    id = d;
    exchange = o.exchange;
    complainant = o.complainant;
    respondent = o.respondent;
    state = open_state;
    finding = 0;
    remedy = record { escalation = none; harm = 0; refund = none };
  }

  pub case_of-live :
      (s : MemStore) (d : DisputeId) (o : Opening)
      → artifacts_of s d ≡ opening_artifact d o ∷ []
      → case_of s d ≡ ok (live_case d o)
  unfolding case_of read_case fold_case
  case_of-live s d o h = ap (read_case d) h

  pub case_of-ruled :
      (s : MemStore) (d id : DisputeId) (o : Opening) (ru : Ruling)
      → artifacts_of s d ≡ opening_artifact d o ∷ ruling_artifact d id ru ∷ []
      → case_of s d
        ≡ ok (record (live_case d o) { state = resolved; finding = ru.finding; remedy = ru.remedy })
  unfolding case_of read_case fold_case
  case_of-ruled s d id o ru h = ap (read_case d) h

  pub case_of-undone :
      (s : MemStore) (d id : DisputeId) (o : Opening) (w : Withdrawal)
      → artifacts_of s d ≡ opening_artifact d o ∷ withdrawal_artifact d id w ∷ []
      → case_of s d ≡ ok (record (live_case d o) { state = withdrawn })
  unfolding case_of read_case fold_case
  case_of-undone s d id o w h = ap (read_case d) h

  -- The registry closes only a case that is live.
  pub live_of :
      (s : MemStore) (d : DisputeId) (c : Case)
      → Shape s d
      → case_of s d ≡ ok c
      → is_open c.state ≡ true
      → (o : Opening) × ((artifacts_of s d ≡ opening_artifact d o ∷ [])
          × (Opens p charter sealed d o
              × ((lookup d s.dispute_tuple ≡ some (tuple_key o))
                  × ((find (tuple_key o) s.open_tuple ≡ some d)
                      × ((has_key (tuple_key o) s.adjudicated ≡ false) × (c ≡ live_case d o))))))
  unfolding is_open
  live_of s d c (absent a) h e = absurd (ground (arith, case_of-absent s d a))
  live_of s d c (live o a ops k f n) h e =
      (o, (a, (ops, (k, (f, (n, ground (arith, case_of-live s d o a)))))))
  live_of s d c (ruled o id ru a _ _ _) h e = absurd (ground (arith, case_of-ruled s d id o ru a))
  live_of s d c (undone o id w a _ _) h e = absurd (ground (arith, case_of-undone s d id o w a))

  -- Every case has its shape; an artifact's id is known, if it opened a case; a settled tuple was ruled once.
  pub record Sound (s : MemStore) : Type 0 where
    pub shape : (d : DisputeId) → Shape s d
    pub known : (d : DisputeId) → has d s.ids ≡ false → artifacts_of s d ≡ []
    pub single :
        (d e i j : DisputeId) (o u : Opening) (ru rv : Ruling)
        → artifacts_of s d ≡ opening_artifact d o ∷ ruling_artifact d i ru ∷ []
        → artifacts_of s e ≡ opening_artifact e u ∷ ruling_artifact e j rv ∷ []
        → tuple_key o ≡ tuple_key u
        → d ≡ e
