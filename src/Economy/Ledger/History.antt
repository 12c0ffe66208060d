-- ===== src/Economy/Ledger/History.antt =====
-- The store and the ledgers over it: a ledger is the replay of a prefix of its store.
use cloudy.Prelude.{
  ℕ, ◌+◌, ◌≡◌, refl, arith, List, [], ◌∷◌, ◌++◌, inl, inr, none, some, Option-cases, length,
  length-append, sym, ap, ◌∙◌, ◌≤◌, drop,
}
use mathlib.Core.List.{append_assoc}
use cloudy.Primitives.{Primitives}
use cloudy.Economy.Policy.{Error, Genesis}
use cloudy.Economy.Store.{Record, Store, all, spend, policy_change, foreign}
use cloudy.Economy.Ledger.{Directory, Ledger, fresh, replay_record, replay_all, catch_up}
use cloudy.Economy.Ledger.Replay.{
  Replays, here, next, Accepts-of_none, Replays-append, applied-Replays, Replays-replay_all,
}

drop-append {ℓ} : {A : Type ℓ} (xs ys : List A) → drop (length xs) (xs ++ ys) ≡ ys
drop-append [] ys = refl
drop-append (x ∷ xs) ys = drop-append xs ys

module _ (p : Primitives) (dir : Directory) where
  -- The ledger is what some first part of the store leads to.
  pub record Tracks (g : Genesis) (m : Store) (l : Ledger) : Type 0 where
    pub seen : List Record
    pub unseen : List Record
    pub split : m ≡ seen ++ unseen
    pub run : Replays p dir (fresh g) seen l

  replay_record_error :
      (l : Ledger) (i : ℕ) (r : Record) {x : Error}
      → (replay_record p dir l i r).1 ≡ some x
      → (replay_record p dir l i r).0 ≡ l
  unfolding replay_record
  replay_record_error l i (spend s) h = ground arith
  replay_record_error l i (policy_change c) h = ground arith
  replay_record_error l i (foreign _) h = refl

  -- However a replay ends, its ledger is what a first part of the records leads to.
  replay_all-prefix :
      (l : Ledger) (i : ℕ) (rs : List Record)
      → (xs ys : List Record) × (rs ≡ xs ++ ys) × Replays p dir l xs (replay_all p dir l i rs).0
  unfolding replay_all
  replay_all-prefix l i [] = ([], [], refl, here)
  replay_all-prefix l i (r ∷ rs) = elim (Option-cases (replay_record p dir l i r).1) [
    | inr (x, e) ↦ ([], r ∷ rs, refl, rw (e, replay_all, replay_record_error l i r e) here)
    | inl e ↦
        let (xs, ys, same, run) = replay_all-prefix (replay_record p dir l i r).0 (i + 1) rs in
        (r ∷ xs, ys, ap (◌∷◌ r) same, rw (e, replay_all) (next (Accepts-of_none p dir l i r e) run))
  ]

  pub applied-Tracks :
      {g : Genesis} {m : Store} {l : Ledger} (t : Tracks g m l) → l.applied ≡ length t.seen
  unfolding fresh
  applied-Tracks t = omega (arith, applied-Replays p dir t.run)

  drop-Tracks :
      {g : Genesis} {m : Store} {l : Ledger} (t : Tracks g m l) → drop l.applied m ≡ t.unseen
  drop-Tracks {m} {l} t = rw (applied-Tracks t, t.split) (drop-append t.seen t.unseen)

  -- A ledger that tracks its store never finds it shrunk: it replays just what it has not seen.
  catch_up-unseen :
      {g : Genesis} {m : Store} {l : Ledger} (t : Tracks g m l)
      → catch_up p dir l m ≡ replay_all p dir l l.applied t.unseen
  unfolding catch_up all
  catch_up-unseen {m} {l} t =
      let enough : l.applied ≤ length m =
        omega (arith, applied-Tracks t, length-append t.seen t.unseen, ap length t.split) in
      rw (drop-Tracks t) (ground arith)

  -- Catching up keeps the ledger a replay of a part of the store, and without an error of all of it.
  pub catch_up-Tracks :
      {g : Genesis} {m : Store} {l : Ledger} → Tracks g m l → Tracks g m (catch_up p dir l m).0
  catch_up-Tracks {l} t =
      let (xs, ys, same, run) = replay_all-prefix l l.applied t.unseen in
      record {
        seen = t.seen ++ xs;
        unseen = ys;
        split = t.split ∙ (ap (◌++◌ t.seen) same ∙ sym (append_assoc t.seen xs ys));
        run = rw (catch_up-unseen t) (Replays-append p dir t.run run);
      }

  pub catch_up-Replays :
      {g : Genesis} {m : Store} {l : Ledger}
      → Tracks g m l
      → (catch_up p dir l m).1 ≡ none
      → Replays p dir (fresh g) m (catch_up p dir l m).0
  catch_up-Replays {l} t h =
      rw (catch_up-unseen t, t.split)
        (Replays-append p dir t.run
          (Replays-replay_all p dir l l.applied t.unseen (rw (catch_up-unseen t) at h)))
