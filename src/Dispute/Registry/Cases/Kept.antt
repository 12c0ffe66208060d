-- ===== src/Dispute/Registry/Cases/Kept.antt =====
-- Each call changes the shape of one case, and keeps the shapes of the others.
use cloudy.Prelude.{
  ◌≡◌, sym, subst, ap, ◌∙◌, inl, inr, Bool, true, false, Bool-cases, [], ◌∷◌, none, some, arith,
  ◌==◌,
}
use cloudy.Prelude.Dict.{has, lookup, lookup-insert}
use cloudy.Prelude.Table.{find, find-write, find-remove}
use cloudy.Prelude.Bytes.{Bytes, bytes_eq, has_key, bytes-Key, bytes_eq_refl}
use cloudy.Primitives.{Hash, Primitives}
use cloudy.Dispute.Artifact.{DisputeId, Opening, Ruling, Withdrawal, Charter}
use cloudy.Dispute.Store.{MemStore, tuple_key, file_artifact, artifacts_of}
use cloudy.Dispute.Registry.Steps.{
  opening_artifact, ruling_artifact, withdrawal_artifact, opened_store, ruled_store,
  withdrawn_store, file_artifact-artifacts, Opens, Rules, Retracts,
}
use cloudy.Dispute.Registry.Cases.{Shape, absent, live, ruled, undone, Sound}

module _ (p : Primitives) (charter : Charter) (sealed : Hash → Bytes → Bytes → Bool) where
  -- A case to which nothing is added keeps its shape where the four maps agree on what it says of it.
  Shape-kept :
      (s t : MemStore) (e : DisputeId)
      → artifacts_of t e ≡ artifacts_of s e
      → ((o : Opening)
          → lookup e s.dispute_tuple ≡ some (tuple_key o)
          → find (tuple_key o) s.open_tuple ≡ some e
          → has_key (tuple_key o) s.adjudicated ≡ false
          → (lookup e t.dispute_tuple ≡ some (tuple_key o))
            × ((find (tuple_key o) t.open_tuple ≡ some e)
                × (has_key (tuple_key o) t.adjudicated ≡ false)))
      → ((key : Bytes) → has_key key s.adjudicated ≡ true → has_key key t.adjudicated ≡ true)
      → Shape p charter sealed s e
      → Shape p charter sealed t e
  Shape-kept s t e same lives settled (absent a) = absent (same ∙ a)
  Shape-kept s t e same lives settled (live o a ops k f n) =
      let (k', (f', n')) = lives o k f n in live o (same ∙ a) ops k' f' n'
  Shape-kept s t e same lives settled (ruled o id ru a ops r n) =
      ruled o id ru (same ∙ a) ops r (settled (tuple_key o) n)
  Shape-kept s t e same lives settled (undone o id w a ops r) = undone o id w (same ∙ a) ops r

  module _ (s : MemStore) (sound : Sound p charter sealed s) where
    pub opened_store-Shape :
        (id e : DisputeId) (o : Opening)
        → Opens p charter sealed id o
        → has id s.ids ≡ false
        → has_key (tuple_key o) s.adjudicated ≡ false
        → find (tuple_key o) s.open_tuple ≡ none
        → Shape p charter sealed (opened_store s id o) e
    unfolding artifacts_of file_artifact
    opened_store-Shape id e o ops fresh free idle = elim (Bool-cases (id == e)) [
      | inl same ↦
          let q : id ≡ e = ground arith in
          subst (Shape p charter sealed (opened_store s id o)) q (
            live o
              (ground
                (arith, file_artifact-artifacts s (opening_artifact id o) id, sound.known id fresh))
              ops (ground (arith, lookup-insert id id (tuple_key o) s.dispute_tuple))
              (ground (
                arith,
                find-write (tuple_key o) (tuple_key o) id s.open_tuple,
                bytes-Key.same_refl (tuple_key o),
              ))
              free)
      | inr other ↦
          Shape-kept s (opened_store s id o) e
            (ground (arith, other, file_artifact-artifacts s (opening_artifact id o) e))
            (λ u k f n. (
              ground (arith, other, k, lookup-insert id e (tuple_key o) s.dispute_tuple),
              (
                elim (Bool-cases (bytes-Key.same (tuple_key o) (tuple_key u))) [
                  | inl clash ↦
                      let twice : tuple_key o ≡ tuple_key u =
                        bytes-Key.same_exact (tuple_key o) (tuple_key u) clash in
                      absurd (cc (twice, f, idle))
                  | inr apart ↦
                      ground
                        (arith, apart, f, find-write (tuple_key o) (tuple_key u) id s.open_tuple)
                ],
                n,
              ),
            ))
            (λ key n. n) (sound.shape e)
    ]

    -- The tuples of two live cases differ.
    live-apart :
        (d e : DisputeId) (o u : Opening)
        → (d == e) ≡ false
        → find (tuple_key o) s.open_tuple ≡ some d
        → find (tuple_key u) s.open_tuple ≡ some e
        → bytes-Key.same (tuple_key o) (tuple_key u) ≡ false
    live-apart d e o u other f g = elim (Bool-cases (bytes-Key.same (tuple_key o) (tuple_key u))) [
      | inl clash ↦
          let twice : tuple_key o ≡ tuple_key u =
            bytes-Key.same_exact (tuple_key o) (tuple_key u) clash in
          let both : some d ≡ some e = sym f ∙ (ap (λ k. find k s.open_tuple) twice ∙ g) in
          absurd (ground (arith, both, other))
      | inr apart ↦ apart
    ]

    module _ (d : DisputeId) (o : Opening) (held : artifacts_of s d ≡ opening_artifact d o ∷ [])
        (ops : Opens p charter sealed d o) (mine : find (tuple_key o) s.open_tuple ≡ some d) where
      pub ruled_store-Shape :
          (id e : DisputeId) (ru : Ruling)
          → Rules p charter sealed d o ru
          → Shape p charter sealed (ruled_store s (tuple_key o) d id ru) e
      unfolding artifacts_of file_artifact has_key bytes-Key
      ruled_store-Shape id e ru rules = elim (Bool-cases (d == e)) [
        | inl same ↦
            let q : d ≡ e = ground arith in
            subst (Shape p charter sealed (ruled_store s (tuple_key o) d id ru)) q (
              ruled o id ru
                (ground (arith, file_artifact-artifacts s (ruling_artifact d id ru) d, held)) ops
                rules (ground (arith, bytes_eq_refl (tuple_key o))))
        | inr other ↦
            Shape-kept s (ruled_store s (tuple_key o) d id ru) e
              (ground (arith, other, file_artifact-artifacts s (ruling_artifact d id ru) e))
              (λ u k f n.
                let apart = live-apart d e o u other mine f in
                (
                  k,
                  (
                    ground (arith, apart, f, find-remove (tuple_key o) (tuple_key u) s.open_tuple),
                    let apart' : bytes_eq (tuple_key o) (tuple_key u) ≡ false = apart in
                        ground (arith, apart', n),
                  ),
                ))
              (λ key n. ground (arith, n)) (sound.shape e)
      ]

      pub withdrawn_store-Shape :
          (id e : DisputeId) (w : Withdrawal)
          → Retracts p charter sealed d o w
          → Shape p charter sealed (withdrawn_store s (tuple_key o) d id w) e
      unfolding artifacts_of file_artifact
      withdrawn_store-Shape id e w retracts = elim (Bool-cases (d == e)) [
        | inl same ↦
            let q : d ≡ e = ground arith in
            subst (Shape p charter sealed (withdrawn_store s (tuple_key o) d id w)) q (
              undone o id w
                (ground (arith, file_artifact-artifacts s (withdrawal_artifact d id w) d, held)) ops
                retracts)
        | inr other ↦
            Shape-kept s (withdrawn_store s (tuple_key o) d id w) e
              (ground (arith, other, file_artifact-artifacts s (withdrawal_artifact d id w) e))
              (λ u k f n.
                let apart = live-apart d e o u other mine f in
                (
                  k,
                  (
                    ground (arith, apart, f, find-remove (tuple_key o) (tuple_key u) s.open_tuple),
                    n,
                  ),
                ))
              (λ key n. n) (sound.shape e)
      ]
