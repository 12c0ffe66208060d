-- ===== src/Dispute/Registry/Steps.antt =====
-- What an accepted call of the registry has tested, and what it leaves in the store.
use text.Mathlib.Text.{◌==◌ as str_eq}
use cloudy.Prelude.{
  ◌≡◌, refl, inl, inr, Bool, true, false, [], ◌∷◌, ◌++◌, none, some, arith, ◌==◌, if◌then◌else◌,
}
use cloudy.Prelude.Dict.{has, get, lookup, insert, has-insert, get-insert}
use cloudy.Prelude.Table.{find, write, remove}
use cloudy.Prelude.Bytes.{Bytes, has_key, bytes-Key}
use cloudy.Prelude.Result.{ok, Result-cases}
use cloudy.Primitives.{Hash, Primitives}
use cloudy.Dispute.Artifact.{
  DisputeId, Opening, Ruling, Withdrawal, Charter, valid_mode, valid_finding, validate_remedy,
  verify_opening, opening_id, verify_ruling, ruling_id, verify_withdrawal, leaf_id,
}
use cloudy.Dispute.Store.{
  Admitted, MemStore, tuple_key, opens_case, is_empty, file_artifact, release_tuple, append,
  artifacts_of,
}
use cloudy.Dispute.Registry.{is_open, Case, case_of, open_dispute, rule, withdraw}

-- The artifacts that the registry admits.
abbrev pub opening_artifact : DisputeId → Opening → Admitted
opening_artifact id o = record {
  dispute = id;
  id = id;
  opening = some o;
  ruling = none;
  withdrawal = none;
}

abbrev pub ruling_artifact : DisputeId → DisputeId → Ruling → Admitted
ruling_artifact d id ru = record {
  dispute = d;
  id = id;
  opening = none;
  ruling = some ru;
  withdrawal = none;
}

abbrev pub withdrawal_artifact : DisputeId → DisputeId → Withdrawal → Admitted
withdrawal_artifact d id w = record {
  dispute = d;
  id = id;
  opening = none;
  ruling = none;
  withdrawal = some w;
}

-- The store after an opening, and after an artifact that closes a case with the tuple `key`.
abbrev pub opened_store : MemStore → DisputeId → Opening → MemStore
opened_store s id o =
    file_artifact
      (record s {
        open_tuple = write (tuple_key o) id s.open_tuple;
        dispute_tuple = insert id (tuple_key o) s.dispute_tuple;
      })
      (opening_artifact id o)

abbrev pub ruled_store : MemStore → Bytes → DisputeId → DisputeId → Ruling → MemStore
ruled_store s key d id ru =
    file_artifact
      (record s { open_tuple = remove key s.open_tuple; adjudicated = key ∷ s.adjudicated })
      (ruling_artifact d id ru)

abbrev pub withdrawn_store : MemStore → Bytes → DisputeId → DisputeId → Withdrawal → MemStore
withdrawn_store s key d id w =
    file_artifact (record s { open_tuple = remove key s.open_tuple }) (withdrawal_artifact d id w)

pub file_artifact-artifacts :
    (s : MemStore) (a : Admitted) (e : DisputeId)
    → artifacts_of (file_artifact s a) e
      ≡ (if a.dispute == e then artifacts_of s a.dispute ++ a ∷ [] else artifacts_of s e)
unfolding file_artifact artifacts_of
file_artifact-artifacts s a e =
    get-insert [] a.dispute e (get [] a.dispute s.by_dispute ++ a ∷ []) s.by_dispute

pub file_artifact-ids :
    (s : MemStore) (a : Admitted) (e : DisputeId)
    → has e (file_artifact s a).ids ≡ (if a.id == e then true else has e s.ids)
unfolding file_artifact
file_artifact-ids s a e = has-insert a.id e tt s.ids

pub append-opening :
    (s t : MemStore) (id : DisputeId) (o : Opening)
    → append s (opening_artifact id o) ≡ ok t
    → (has id s.ids ≡ false)
      × ((has_key (tuple_key o) s.adjudicated ≡ false)
          × ((find (tuple_key o) s.open_tuple ≡ none) × (t ≡ opened_store s id o)))
unfolding append opens_case is_empty
append-opening s t id o h = (ground arith, (ground arith, (ground arith, ground arith)))

pub append-ruling :
    (s t : MemStore) (d id : DisputeId) (ru : Ruling) (key : Bytes)
    → append s (ruling_artifact d id ru) ≡ ok t
    → lookup d s.dispute_tuple ≡ some key
    → t ≡ ruled_store s key d id ru
unfolding append opens_case is_empty release_tuple
append-ruling s t d id ru key h k = ground arith

pub append-withdrawal :
    (s t : MemStore) (d id : DisputeId) (w : Withdrawal) (key : Bytes)
    → append s (withdrawal_artifact d id w) ≡ ok t
    → lookup d s.dispute_tuple ≡ some key
    → t ≡ withdrawn_store s key d id w
unfolding append opens_case is_empty release_tuple
append-withdrawal s t d id w key h k = ground arith

module _ (p : Primitives) (charter : Charter) (sealed : Hash → Bytes → Bytes → Bool) where
  -- An opening that the registry has let through, as the case `d`.
  pub record Opens (d : DisputeId) (o : Opening) : Type 0 where
    pub verified : verify_opening p o ≡ true
    pub platform : str_eq o.platform charter.platform ≡ true
    pub anchored : sealed o.exchange o.complainant o.respondent ≡ true
    pub named : opening_id p o ≡ d

  -- A ruling that it has let through on the case `d` of that opening.
  pub record Rules (d : DisputeId) (o : Opening) (ru : Ruling) : Type 0 where
    pub platform : str_eq ru.platform charter.platform ≡ true
    pub mode : valid_mode ru.mode ≡ true
    pub finding : valid_finding ru.finding ≡ true
    pub coherent : validate_remedy ru.remedy ru.mode ≡ ok tt
    pub authorized : verify_ruling p ru charter ≡ true
    pub dispute : ru.dispute ≡ d
    pub exchange : ru.exchange ≡ o.exchange

  -- A withdrawal that it has let through on the case `d` of that opening.
  pub record Retracts (d : DisputeId) (o : Opening) (w : Withdrawal) : Type 0 where
    pub platform : str_eq w.platform charter.platform ≡ true
    pub dispute : w.dispute ≡ d
    pub signed : verify_withdrawal p w o.complainant ≡ true

  pub open_dispute-Opens :
      (s t : MemStore) (o : Opening) (id : DisputeId)
      → open_dispute p charter sealed s o ≡ ok (id, t)
      → Opens id o × (append s (opening_artifact id o) ≡ ok t)
  unfolding open_dispute
  open_dispute-Opens s t o id h = (
    record {
      verified = ground arith;
      platform = ground arith;
      anchored = ground arith;
      named = ground arith;
    },
    elim (Result-cases (append s (opening_artifact (opening_id p o) o))) [
      | inl (t', e) ↦ ground (arith, e)
      | inr (x, e) ↦ absurd (ground (arith, e))
    ],
  )

  pub rule-steps :
      (s t : MemStore) (ru : Ruling)
      → rule p charter sealed s ru ≡ ok t
      → (c : Case) × ((case_of s ru.dispute ≡ ok c)
          × ((is_open c.state ≡ true)
              × ((ru.exchange ≡ c.exchange)
                  × (append s (ruling_artifact ru.dispute (ruling_id p ru) ru) ≡ ok t))))
  unfolding rule
  rule-steps s t ru h = elim (Result-cases (case_of s ru.dispute)) [
    | inl (c, e) ↦ (c, (e, (ground (arith, e), (ground (arith, e), ground (arith, e)))))
    | inr (x, e) ↦ absurd (ground (arith, e))
  ]

  pub rule-Rules :
      (s t : MemStore) (ru : Ruling) (o : Opening)
      → rule p charter sealed s ru ≡ ok t
      → ru.exchange ≡ o.exchange
      → Rules ru.dispute o ru
  unfolding rule
  rule-Rules s t ru o h same = record {
    platform = ground arith;
    mode = ground arith;
    finding = ground arith;
    coherent = ground arith;
    authorized = ground arith;
    dispute = refl;
    exchange = same;
  }

  pub withdraw-steps :
      (s t : MemStore) (w : Withdrawal)
      → withdraw p charter sealed s w ≡ ok t
      → (str_eq w.platform charter.platform ≡ true)
        × ((c : Case) × ((case_of s w.dispute ≡ ok c)
              × ((is_open c.state ≡ true)
                  × ((verify_withdrawal p w c.complainant ≡ true)
                      × (append s (withdrawal_artifact w.dispute (leaf_id p w) w) ≡ ok t)))))
  unfolding withdraw
  withdraw-steps s t w h = (
    ground arith,
    elim (Result-cases (case_of s w.dispute)) [
      | inl (c, e) ↦ (c, (e, (ground (arith, e), (ground (arith, e), ground (arith, e)))))
      | inr (x, e) ↦ absurd (ground (arith, e))
    ],
  )
