-- ===== src/Dispute/Registry/Cases/Invariant.antt =====
-- Every store that the registry makes is sound.
use cloudy.Prelude.{
  ◌≡◌, refl, sym, subst, ap, ◌∙◌, inl, inr, Bool, true, false, Bool-cases, [], ◌∷◌, arith, ◌==◌,
}
use cloudy.Prelude.Dict.{get}
use cloudy.Prelude.Bytes.{Bytes, has_key, bytes-Key}
use cloudy.Prelude.Result.{ok}
use cloudy.Primitives.{Hash, Primitives}
use cloudy.Dispute.Artifact.{DisputeId, Opening, Ruling, Withdrawal, Charter, ruling_id, leaf_id}
use cloudy.Dispute.Store.{MemStore, new_mem_store, tuple_key, file_artifact, artifacts_of}
use cloudy.Dispute.Registry.{open_dispute, rule, withdraw}
use cloudy.Dispute.Registry.Steps.{
  opening_artifact, ruling_artifact, withdrawal_artifact, ruled_store, file_artifact-artifacts,
  file_artifact-ids, append-opening, append-ruling, append-withdrawal, Retracts, open_dispute-Opens,
  rule-steps, rule-Rules, withdraw-steps,
}
use cloudy.Dispute.Registry.Cases.{
  History, created, opened, decided, retracted, Shape, absent, live, ruled, undone, live_of, Sound,
}
use cloudy.Dispute.Registry.Cases.Kept.{
  opened_store-Shape, ruled_store-Shape, withdrawn_store-Shape,
}

module _ (p : Primitives) (charter : Charter) (sealed : Hash → Bytes → Bytes → Bool) where
  -- A ruling stands second in its case, which is settled.
  pub ruled-settled :
      (s : MemStore) (e j : DisputeId) (u : Opening) (rv : Ruling)
      → Shape p charter sealed s e
      → artifacts_of s e ≡ opening_artifact e u ∷ ruling_artifact e j rv ∷ []
      → has_key (tuple_key u) s.adjudicated ≡ true
  ruled-settled s e j u rv (absent a) h = absurd (ground (arith, sym a ∙ h))
  ruled-settled s e j u rv (live o a _ _ _ _) h = absurd (ground (arith, sym a ∙ h))
  ruled-settled s e j u rv (ruled o id ru a _ _ n) h = ground (arith, sym a ∙ h, n)
  ruled-settled s e j u rv (undone o id w a _ _) h = absurd (ground (arith, sym a ∙ h))

  -- A ruling settles a tuple that no ruling had settled.
  ruled-single :
      (s : MemStore) (c id d e i j : DisputeId) (o u v : Opening) (ru rv rw' : Ruling)
      → Sound p charter sealed s
      → artifacts_of s c ≡ opening_artifact c o ∷ []
      → has_key (tuple_key o) s.adjudicated ≡ false
      → artifacts_of (ruled_store s (tuple_key o) c id ru) d
        ≡ opening_artifact d u ∷ ruling_artifact d i rv ∷ []
      → artifacts_of (ruled_store s (tuple_key o) c id ru) e
        ≡ opening_artifact e v ∷ ruling_artifact e j rw' ∷ []
      → tuple_key u ≡ tuple_key v
      → d ≡ e
  unfolding artifacts_of file_artifact
  ruled-single s c id d e i j o u v ru rv rw' sound held free a b k =
      let at_d = file_artifact-artifacts s (ruling_artifact c id ru) d in
      let at_e = file_artifact-artifacts s (ruling_artifact c id ru) e in
      elim (Bool-cases (c == d)) [
        | inl same ↦ elim (Bool-cases (c == e)) [
          | inl also ↦ ground (arith, same, also)
          | inr other ↦
              let mine : u ≡ o = ground (arith, a, at_d, held, same) in
              let taken =
                ruled-settled s e j v rw' (sound.shape e) (ground (arith, b, at_e, other)) in
              absurd (cc (ap tuple_key mine, k, taken, free))
        ]
        | inr apart ↦ elim (Bool-cases (c == e)) [
          | inl also ↦
              let mine : v ≡ o = ground (arith, b, at_e, held, also) in
              let taken =
                ruled-settled s d i u rv (sound.shape d) (ground (arith, a, at_d, apart)) in
              absurd (cc (ap tuple_key mine, k, taken, free))
          | inr other ↦
              sound.single d e i j u v rv rw' (ground (arith, a, at_d, apart))
                (ground (arith, b, at_e, other)) k
        ]
      ]

  Sound-created : Sound p charter sealed new_mem_store
  unfolding artifacts_of get
  Sound-created = record {
    shape = λ d. absent refl;
    known = λ d h. refl;
    single = λ d e i j o u ru rv a b h. absurd (ground (arith, a));
  }

  Sound-opened :
      (s t : MemStore) (id : DisputeId) (o : Opening)
      → Sound p charter sealed s
      → open_dispute p charter sealed s o ≡ ok (id, t)
      → Sound p charter sealed t
  unfolding artifacts_of file_artifact
  Sound-opened s t id o sound h =
      let (ops, added) = open_dispute-Opens p charter sealed s t o id h in
      let (fresh, (free, (idle, is))) = append-opening s t id o added in
      subst (Sound p charter sealed) (sym is) (record {
        shape = λ e. opened_store-Shape p charter sealed s sound id e o ops fresh free idle;
        known = λ e k. ground (
          arith,
          k,
          file_artifact-ids s (opening_artifact id o) e,
          file_artifact-artifacts s (opening_artifact id o) e,
          sound.known e,
        );
        single = λ d e i j u v ru rv a b k.
            sound.single d e i j u v ru rv
              (ground (
                arith,
                a,
                file_artifact-artifacts s (opening_artifact id o) d,
                sound.known id fresh,
              ))
              (ground (
                arith,
                b,
                file_artifact-artifacts s (opening_artifact id o) e,
                sound.known id fresh,
              ))
              k;
      })

  Sound-decided :
      (s t : MemStore) (ru : Ruling)
      → Sound p charter sealed s
      → rule p charter sealed s ru ≡ ok t
      → Sound p charter sealed t
  unfolding artifacts_of file_artifact
  Sound-decided s t ru sound h =
      let (c, (read, (open', (same, added)))) = rule-steps p charter sealed s t ru h in
      let (o, (held, (ops, (key, (mine, (free, is)))))) =
        live_of p charter sealed s ru.dispute c (sound.shape ru.dispute) read open' in
      let now = append-ruling s t ru.dispute (ruling_id p ru) ru (tuple_key o) added key in
      let rules = rule-Rules p charter sealed s t ru o h (ground (arith, same, is)) in
      let art = ruling_artifact ru.dispute (ruling_id p ru) ru in
      subst (Sound p charter sealed) (sym now) (record {
        shape = λ e.
            ruled_store-Shape p charter sealed s sound ru.dispute o held ops mine (ruling_id p ru) e
              ru rules;
        known = λ e k. ground (
          arith,
          k,
          file_artifact-ids s art e,
          file_artifact-artifacts s art e,
          sound.known e,
          held,
        );
        single = λ d e i j u v rv rw' a b k.
            ruled-single s ru.dispute (ruling_id p ru) d e i j o u v ru rv rw' sound held free a b
              k;
      })

  Sound-retracted :
      (s t : MemStore) (w : Withdrawal)
      → Sound p charter sealed s
      → withdraw p charter sealed s w ≡ ok t
      → Sound p charter sealed t
  unfolding artifacts_of file_artifact
  Sound-retracted s t w sound h =
      let (platform, (c, (read, (open', (signed, added))))) =
        withdraw-steps p charter sealed s t w h in
      let (o, (held, (ops, (key, (mine, (free, is)))))) =
        live_of p charter sealed s w.dispute c (sound.shape w.dispute) read open' in
      let now = append-withdrawal s t w.dispute (leaf_id p w) w (tuple_key o) added key in
      let art = withdrawal_artifact w.dispute (leaf_id p w) w in
      let retracts : Retracts p charter sealed w.dispute o w = record {
        platform = platform;
        dispute = refl;
        signed = ground (arith, signed, is);
      } in
      subst (Sound p charter sealed) (sym now) (record {
        shape = λ e.
            withdrawn_store-Shape p charter sealed s sound w.dispute o held ops mine (leaf_id p w) e
              w retracts;
        known = λ e k. ground (
          arith,
          k,
          file_artifact-ids s art e,
          file_artifact-artifacts s art e,
          sound.known e,
          held,
        );
        single = λ d e i j u v ru rv a b k.
            sound.single d e i j u v ru rv
              (ground (arith, a, file_artifact-artifacts s art d, held))
              (ground (arith, b, file_artifact-artifacts s art e, held)) k;
      })

  pub Sound-History : (s : MemStore) → History p charter sealed s → Sound p charter sealed s
  Sound-History _ created = Sound-created
  Sound-History _ (opened s t o id past h) = Sound-opened s t id o (Sound-History s past) h
  Sound-History _ (decided s t ru past h) = Sound-decided s t ru (Sound-History s past) h
  Sound-History _ (retracted s t w past h) = Sound-retracted s t w (Sound-History s past) h
