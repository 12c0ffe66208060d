-- ===== src/Economy/Ledger/Submit.antt =====
-- Post and Enact over a store that other writers append to.
use cloudy.Prelude.{
  ◌⊎◌, ℕ, suc, ◌≡◌, refl, arith, subst, List, [], ◌∷◌, ◌++◌, inl, inr, none, some, Option,
  Option-cases, length, length-append, sym, ap, ◌∙◌, take, get_elem?,
}
use mathlib.Core.List.{append-nil, append_assoc}
use cloudy.Prelude.Result.{ok, Result, Result-cases}
use cloudy.Primitives.{Primitives}
use cloudy.Economy.Policy.{Error, Genesis}
use cloudy.Economy.Store.{Record, Store, append-cases}
use cloudy.Economy.Ledger.{
  Directory, Ledger, Others, Round, done, again, advance, fresh, catch_up, conflict, round, submit,
}
use cloudy.Economy.Ledger.Replay.{Replays, here, next, Accepts, Replays-append, applied-Replays}
use cloudy.Economy.Ledger.History.{Tracks, catch_up-Tracks, catch_up-Replays, applied-Tracks}

-- All that the other writers append in these rounds.
abbrev pub written : List Others → List Record
written [] = []
written (o ∷ os) = o.before ++ (o.after ++ written os)

module _ (p : Primitives) (dir : Directory) (g : Genesis) where
  -- The record was appended in round `round`, behind what the others wrote until then, and the whole
  -- store, theirs included, leads to the ledger.
  pub record Appended (r : Record) (os : List Others) (m : Store) (l' : Ledger) (m' : Store)
      : Type 0 where
    pub rounds : ℕ
    pub last : Others
    pub at_round : get_elem? os rounds ≡ some last
    pub stored : m' ≡ m ++ (written (take rounds os) ++ (last.before ++ r ∷ []))
    pub run : Replays p dir (fresh g) m' l'

  -- The store holds what the others wrote and nothing else, and the ledger still tracks it.
  pub record Refused (os : List Others) (m : Store) (l' : Ledger) (m' : Store) : Type 0 where
    pub rounds : ℕ
    pub stored : m' ≡ m ++ written (take rounds os)
    pub tracks : Tracks p dir g m' l'

  abbrev pub Outcome : Record → List Others → Store → Ledger × Store × Option Error → Type 0
  Outcome r os m (l', m', none) = Appended r os m l' m'
  Outcome r os m (l', m', some _) = Refused os m l' m'

  Tracks-extend :
      {m : Store} {l : Ledger} (ys : List Record) → Tracks p dir g m l → Tracks p dir g (m ++ ys) l
  Tracks-extend ys t = record {
    seen = t.seen;
    unseen = t.unseen ++ ys;
    split = rw t.split (append_assoc t.seen t.unseen ys);
    run = t.run;
  }

  Tracks-full : {m : Store} {l : Ledger} → Replays p dir (fresh g) m l → Tracks p dir g m l
  Tracks-full {m} h = record { seen = m; unseen = []; split = sym (append-nil m); run = h }

  nil_of_length : {m : Store} (xs ys : List Record) → m ≡ xs ++ ys → length m ≡ length xs → ys ≡ []
  nil_of_length xs [] e h = refl
  nil_of_length xs (y ∷ ys) e h = absurd (omega (arith, ap length e, length-append xs (y ∷ ys)))

  -- A ledger that has applied as many records as the store holds has applied the store.
  Tracks-complete :
      {m : Store} {l : Ledger}
      → Tracks p dir g m l
      → length m ≡ l.applied
      → Replays p dir (fresh g) m l
  Tracks-complete {m} {l} t h =
      let rest = nil_of_length t.seen t.unseen t.split (omega (arith, h, applied-Tracks p dir t)) in
      rw (t.split, rest, append-nil) t.run

  conflict-cases :
      (l : Ledger) (m : Store) (o : Others)
      → ((x : Error) × ((catch_up p dir l (m ++ o.after)).1 ≡ some x)
          × (conflict p dir l m o
              ≡ done (catch_up p dir l (m ++ o.after)).0 (m ++ o.after) (some x)))
        ⊎ (((catch_up p dir l (m ++ o.after)).1 ≡ none)
            × (conflict p dir l m o ≡ again (catch_up p dir l (m ++ o.after)).0 (m ++ o.after)))
  unfolding conflict
  conflict-cases l m o = elim (Option-cases (catch_up p dir l (m ++ o.after)).1) [
    | inl e ↦ inr (e, rw (e, conflict))
    | inr (x, e) ↦ inl (x, e, rw (e, conflict))
  ]

  module _ (admit : Ledger → Result Error (Unit {0})) (apply : Ledger → Ledger) (r : Record)
      (sound : (l : Ledger) → admit l ≡ ok tt → Accepts p dir l r (advance (apply l))) where
    -- What one round does, by how it ends.
    abbrev AfterRound : Others → Store → Round → Type 0
    AfterRound o m (done l' m' none) =
        (m' ≡ m ++ (o.before ++ r ∷ [])) × Replays p dir (fresh g) m' l'
    AfterRound o m (done l' m' (some _)) =
        ((m' ≡ m) ⊎ (m' ≡ m ++ (o.before ++ o.after))) × Tracks p dir g m' l'
    AfterRound o m (again l' m') = (m' ≡ m ++ (o.before ++ o.after)) × Replays p dir (fresh g) m' l'

    conflict-AfterRound :
        (l : Ledger) (m : Store) (o : Others)
        → Tracks p dir g m l
        → AfterRound o m (conflict p dir l (m ++ o.before) o)
    conflict-AfterRound l m o t =
        let later = Tracks-extend o.after (Tracks-extend o.before t) in
        elim (conflict-cases l (m ++ o.before) o) [
          | inl (x, _, e) ↦
              rw e (inr (append_assoc m o.before o.after), catch_up-Tracks p dir later)
          | inr (fine, e) ↦
              rw e (append_assoc m o.before o.after, catch_up-Replays p dir later fine)
        ]

    round-AfterRound :
        (l : Ledger) (m : Store) (o : Others)
        → Tracks p dir g m l
        → AfterRound o m (round p dir admit apply r l m o)
    unfolding round
    round-AfterRound l m o t = elim (Result-cases (admit l)) [
      | inr (x, e) ↦ rw (e, round) (inl refl, t)
      | inl (_, e) ↦ elim (append-cases l.applied r (m ++ o.before)) [
        | inr (_, busy) ↦ rw (e, round, busy) (conflict-AfterRound l m o t)
        | inl (full, stored) ↦
            let run = Tracks-complete (Tracks-extend o.before t) full in
            rw (e, round, stored)
              (append_assoc m o.before (r ∷ []), Replays-append p dir run (next (sound l e) here))
      ]
    ]

    skip_round :
        (m m' : Store) (o : Others) (os : List Others)
        → m' ≡ m ++ (o.before ++ o.after)
        → (k : ℕ) → m' ++ written (take k os) ≡ m ++ written (take (suc k) (o ∷ os))
    skip_round m m' o os e k = rw e (
        append_assoc m (o.before ++ o.after) (written (take k os))
        ∙ ap (◌++◌ m) (append_assoc o.before o.after (written (take k os))))

    -- An outcome of the rounds that are left is one of all the rounds.
    Outcome-skip :
        (m m' : Store) (o : Others) (os : List Others)
        → m' ≡ m ++ (o.before ++ o.after)
        → (out : Ledger × Store × Option Error) → Outcome r os m' out
        → Outcome r (o ∷ os) m out
    Outcome-skip m m' o os e (l, s, none) h = record {
      rounds = suc h.rounds;
      last = h.last;
      at_round = h.at_round;
      stored =
          h.stored
          ∙ (sym (append_assoc m' (written (take h.rounds os)) (h.last.before ++ r ∷ []))
              ∙ (ap (λ (x : Store). x ++ (h.last.before ++ r ∷ []))
                    (skip_round m m' o os e h.rounds)
                  ∙ append_assoc m (written (take (suc h.rounds) (o ∷ os)))
                      (h.last.before ++ r ∷ [])));
      run = h.run;
    }
    Outcome-skip m m' o os e (l, s, some _) h = record {
      rounds = suc h.rounds;
      stored = h.stored ∙ skip_round m m' o os e h.rounds;
      tracks = h.tracks;
    }

    -- The outcome of a round that returns.
    Outcome-done :
        (l' : Ledger) (m m' : Store) (o : Others) (os : List Others) (x : Option Error)
        → AfterRound o m (done l' m' x)
        → Outcome r (o ∷ os) m (l', m', x)
    Outcome-done l' m m' o os none h = record {
      rounds = 0;
      last = o;
      at_round = refl;
      stored = h.0;
      run = h.1;
    }
    Outcome-done l' m m' o os (some _) (inl same, t) = record {
      rounds = 0;
      stored = same ∙ sym (append-nil m);
      tracks = t;
    }
    Outcome-done l' m m' o os (some _) (inr e, t) = record {
      rounds = 1;
      stored = e ∙ ap (λ (x : List Record). m ++ (o.before ++ x)) (sym (append-nil o.after));
      tracks = t;
    }

    pub submit-Outcome :
        (os : List Others) (l : Ledger) (m : Store) {out : Ledger × Store × Option Error}
        → Tracks p dir g m l
        → submit p dir admit apply r os l m ≡ some out
        → Outcome r os m out
    unfolding submit
    submit-Outcome [] l m t h = cc
    submit-Outcome (o ∷ os) l m {out} t h =
        after_round (λ l' m' t' h'. submit-Outcome os l' m' {out = out} t' h')
          (round p dir admit apply r l m o) refl (round-AfterRound l m o t)
      where
        after_round :
            ((l' : Ledger) (m' : Store)
              → Tracks p dir g m' l'
              → submit p dir admit apply r os l' m' ≡ some out
              → Outcome r os m' out)
            → (x : Round) → round p dir admit apply r l m o ≡ x
            → AfterRound o m x
            → Outcome r (o ∷ os) m out
        after_round ih (done l' m' e) same a =
            let returned : (l', m', e) ≡ out = cc (rw (same, submit) at h) in
            subst (Outcome r (o ∷ os) m) returned (Outcome-done l' m m' o os e a)
        after_round ih (again l' m') same a =
            Outcome-skip m m' o os a.0 out (ih l' m' (Tracks-full a.1) (rw (same, submit) at h))

    -- A ledger that has applied the whole store returns in a round in which nobody else appends
    -- first.
    round_quiet :
        (l : Ledger) (m : Store) (o : Others)
        → Replays p dir (fresh g) m l
        → o.before ≡ []
        → (l' : Ledger) × (m' : Store) × (e : Option Error) × (round p dir admit apply r l m o
            ≡ done l' m' e)
    unfolding round
    round_quiet l m o run quiet = elim (Result-cases (admit l)) [
      | inr (x, e) ↦ (l, m, some x, rw (e, round))
      | inl (_, e) ↦ elim (append-cases l.applied r (m ++ o.before)) [
        | inl (_, stored) ↦
            (advance (apply l), (m ++ o.before) ++ r ∷ [], none, rw (e, round, stored))
        | inr (moved, _) ↦ absurd (moved (rw (quiet, append-nil) (synced_length run)))
      ]
    ]
      where
        synced_length : Replays p dir (fresh g) m l → length m ≡ l.applied
        synced_length x = unfold fresh in omega (arith, applied-Replays p dir x)

    pub submit_returns :
        (os : List Others) (o q : Others) (l : Ledger) (m : Store)
        → q.before ≡ []
        → Tracks p dir g m l
        → (out : Ledger × Store × Option Error) × (submit p dir admit apply r
              (os ++ (o ∷ q ∷ []))
              l
              m
            ≡ some out)
    unfolding submit
    submit_returns [] o q l m quiet t =
        first_round (round p dir admit apply r l m o) refl (round-AfterRound l m o t)
      where
        first_round :
            (x : Round)
            → round p dir admit apply r l m o ≡ x
            → AfterRound o m x
            → (out : Ledger × Store × Option Error) × (submit p dir admit apply r (o ∷ q ∷ []) l m
                ≡ some out)
        first_round (done l' m' e) same a = ((l', m', e), rw (same, submit))
        first_round (again l' m') same a =
            let (l'', m'', e, second) = round_quiet l' m' q a.1 quiet in
            ((l'', m'', e), rw (same, submit, second, submit))
    submit_returns (o' ∷ os) o q l m quiet t =
        first_round (λ l' m' t'. submit_returns os o q l' m' quiet t')
          (round p dir admit apply r l m o') refl (round-AfterRound l m o' t)
      where
        first_round :
            ((l' : Ledger) (m' : Store)
              → Tracks p dir g m' l'
              → (out : Ledger × Store × Option Error) × (submit p dir admit apply r
                    (os ++ (o ∷ q ∷ []))
                    l'
                    m'
                  ≡ some out))
            → (x : Round) → round p dir admit apply r l m o' ≡ x
            → AfterRound o' m x
            → (out : Ledger × Store × Option Error) × (submit p dir admit apply r
                  (o' ∷ (os ++ (o ∷ q ∷ [])))
                  l
                  m
                ≡ some out)
        first_round ih (done l' m' e) same a = ((l', m', e), rw (same, submit))
        first_round ih (again l' m') same a =
            let (out, later) = ih l' m' (Tracks-full a.1) in (out, rw (same, submit) later)
