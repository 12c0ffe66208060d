-- ===== src/Economy/Ledger/Replay.antt =====
-- The replay of a list of records: induction, concatenation, and the count of applied records.
use cloudy.Prelude.{
  ℕ, suc, ◌+◌, ◌≡◌, refl, arith, List, [], ◌∷◌, ◌++◌, inl, inr, none, Option, Option-cases, length,
  sym, ap, ◌∙◌,
}
use native.Mathlib.Nat.{add-zero}
use cloudy.Prelude.Result.{ok, Result-cases}
use cloudy.Primitives.{Primitives}
use cloudy.Economy.Spend.{Spend}
use cloudy.Economy.Policy.{Error, PolicyChange, Genesis, validate_genesis}
use cloudy.Economy.Store.{Record, Store, all, spend, policy_change, foreign}
use cloudy.Economy.Ledger.{
  Directory, Ledger, fresh, advance, open_ledger, replay_record, replay_all, admit_spend,
  admit_policy_change, apply_spend, apply_policy_change,
}

module _ (p : Primitives) (dir : Directory) where
  -- What every record keeps, a replay keeps, also one that stops at an error.
  pub replay_all-induction {ℓ} :
      (P : Ledger → Type ℓ)
      → ((l : Ledger) (i : ℕ) (r : Record) → P l → P (replay_record p dir l i r).0)
      → (l : Ledger) (i : ℕ) (rs : List Record) → P l
      → P (replay_all p dir l i rs).0
  unfolding replay_all
  replay_all-induction P keep l i [] h = h
  replay_all-induction P keep l i (r ∷ rs) h = elim (Option-cases (replay_record p dir l i r).1) [
    | inl e ↦
        rw (e, replay_all)
          (replay_all-induction P keep (replay_record p dir l i r).0 (i + 1) rs (keep l i r h))
    | inr (x, e) ↦ rw (e, replay_all) (keep l i r h)
  ]

  -- The record is admitted, at any position, and leads to the ledger `l'`.
  abbrev pub Accepts : Ledger → Record → Ledger → Type 0
  Accepts l r l' = (i : ℕ) → replay_record p dir l i r ≡ (l', none)

  -- The records are admitted one after the other, and lead from the first ledger to the last.
  pub data Replays : Ledger → List Record → Ledger → Type 0 where
    here : {l : Ledger} → Replays l [] l
    next :
        {l l' l'' : Ledger} {r : Record} {rs : List Record}
        → Accepts l r l'
        → Replays l' rs l''
        → Replays l (r ∷ rs) l''

  pub Accepts-of_none :
      (l : Ledger) (i : ℕ) (r : Record)
      → (replay_record p dir l i r).1 ≡ none
      → Accepts l r (replay_record p dir l i r).0
  unfolding replay_record
  Accepts-of_none l i (spend s) h = elim (Result-cases (admit_spend p dir l s)) [
    | inl (_, e) ↦ rw (e, replay_record) (λ j. refl)
    | inr (_, e) ↦ absurd (ground arith)
  ]
  Accepts-of_none l i (policy_change c) h = elim (Result-cases (admit_policy_change p dir l c)) [
    | inl (_, e) ↦ rw (e, replay_record) (λ j. refl)
    | inr (_, e) ↦ absurd (ground arith)
  ]
  Accepts-of_none l i (foreign _) h = cc

  pub Replays-replay_all :
      (l : Ledger) (i : ℕ) (rs : List Record)
      → (replay_all p dir l i rs).1 ≡ none
      → Replays l rs (replay_all p dir l i rs).0
  unfolding replay_all
  Replays-replay_all l i [] h = here
  Replays-replay_all l i (r ∷ rs) h = elim (Option-cases (replay_record p dir l i r).1) [
    | inl e ↦
        rw (e, replay_all)
          (next (Accepts-of_none l i r e)
            (Replays-replay_all (replay_record p dir l i r).0 (i + 1) rs (rw (e, replay_all) at h)))
    | inr (x, e) ↦ absurd (cc (rw (e, replay_all) at h))
  ]

  pub replay_all-Replays :
      {l l' : Ledger} {rs : List Record} (i : ℕ)
      → Replays l rs l'
      → replay_all p dir l i rs ≡ (l', none)
  unfolding replay_all
  replay_all-Replays i here = refl
  replay_all-Replays i (next {rs = rs} a h) = ground (arith, a i, replay_all-Replays (i + 1) h)

  -- A replay goes on behind records that are admitted.
  pub replay_all-after :
      {l l' : Ledger} {rs : List Record} (i : ℕ) (ys : List Record)
      → Replays l rs l'
      → replay_all p dir l i (rs ++ ys) ≡ replay_all p dir l' (i + length rs) ys
  unfolding replay_all
  replay_all-after i ys here = rw add-zero
  replay_all-after i ys (next {l = l} {l' = l'} {l'' = l''} {r = r} {rs = rs} a h) =
      let step : replay_all p dir l i ((r ∷ rs) ++ ys) ≡ replay_all p dir l' (i + 1) (rs ++ ys) =
        ground (arith, a i) in
      let shift : i + 1 + length rs ≡ i + suc (length rs) = omega arith in
      step ∙ (replay_all-after (i + 1) ys h ∙ ap (λ (n : ℕ). replay_all p dir l'' n ys) shift)

  pub Replays-unique :
      {l l' l'' : Ledger} {rs : List Record} → Replays l rs l' → Replays l rs l'' → l' ≡ l''
  Replays-unique h k =
      ap (λ (q : Ledger × Option Error). q.0)
        (sym (replay_all-Replays 0 h) ∙ replay_all-Replays 0 k)

  pub Replays-append :
      {l l' l'' : Ledger} {xs ys : List Record}
      → Replays l xs l'
      → Replays l' ys l''
      → Replays l (xs ++ ys) l''
  Replays-append here k = k
  Replays-append (next a h) k = next a (Replays-append h k)

  pub Replays-split :
      {l l'' : Ledger} (xs ys : List Record)
      → Replays l (xs ++ ys) l''
      → (l' : Ledger) × Replays l xs l' × Replays l' ys l''
  Replays-split {l} [] ys h = (l, here, h)
  Replays-split (x ∷ xs) ys (next a h) =
      let (l', h1, h2) = Replays-split xs ys h in (l', next a h1, h2)

  pub Replays-uncons :
      {l l'' : Ledger} {r : Record} {rs : List Record}
      → Replays l (r ∷ rs) l''
      → (l' : Ledger) × Accepts l r l' × Replays l' rs l''
  Replays-uncons (next {l' = l'} a h) = (l', a, h)

  pub Accepts-spend :
      (l l' : Ledger) (s : Spend)
      → Accepts l (spend s) l'
      → (admit_spend p dir l s ≡ ok tt) × (l' ≡ advance (apply_spend l s))
  unfolding replay_record
  Accepts-spend l l' s h = elim (Result-cases (admit_spend p dir l s)) [
    | inl (_, e) ↦
        (e, sym (ap (λ (q : Ledger × Option Error). q.0) (rw (e, replay_record) at (h 0))))
    | inr (_, e) ↦ absurd (cc (rw (e, replay_record) at (h 0)))
  ]

  pub Accepts-policy_change :
      (l l' : Ledger) (c : PolicyChange)
      → Accepts l (policy_change c) l'
      → (admit_policy_change p dir l c ≡ ok tt) × (l' ≡ advance (apply_policy_change l c))
  unfolding replay_record
  Accepts-policy_change l l' c h = elim (Result-cases (admit_policy_change p dir l c)) [
    | inl (_, e) ↦
        (e, sym (ap (λ (q : Ledger × Option Error). q.0) (rw (e, replay_record) at (h 0))))
    | inr (_, e) ↦ absurd (cc (rw (e, replay_record) at (h 0)))
  ]

  pub Accepts-foreign : (l l' : Ledger) (n : ℕ) → ¬ Accepts l (foreign n) l'
  unfolding replay_record
  Accepts-foreign l l' n h = cc (h 0)

  pub genesis-replay_record :
      (l : Ledger) (i : ℕ) (r : Record) → (replay_record p dir l i r).0.genesis ≡ l.genesis
  unfolding replay_record apply_spend apply_policy_change
  genesis-replay_record l i (spend s) = ground arith
  genesis-replay_record l i (policy_change c) = ground arith
  genesis-replay_record l i (foreign _) = refl

  applied-accept :
      (l : Ledger) (i : ℕ) (r : Record)
      → (replay_record p dir l i r).1 ≡ none
      → (replay_record p dir l i r).0.applied ≡ l.applied + 1
  unfolding replay_record apply_spend apply_policy_change
  applied-accept l i (spend s) h = ground arith
  applied-accept l i (policy_change c) h = ground arith
  applied-accept l i (foreign _) h = cc

  -- One more applied record for each that is replayed.
  pub applied-Replays :
      {l l' : Ledger} {rs : List Record} → Replays l rs l' → l'.applied ≡ l.applied + length rs
  applied-Replays here = omega arith
  applied-Replays (next {l = l} {l' = m} {r = r} a h) =
      let e : m.applied ≡ l.applied + 1 = rw (a 0) at (applied-accept l 0 r (rw (a 0))) in
      omega (arith, e, applied-Replays h)

  -- Open succeeds exactly when the genesis is valid and every record of the store is admitted in
  -- turn, and it returns the ledger that they lead to.
  pub open_ledger-Replays :
      (g : Genesis) (m : Store) {l : Ledger}
      → open_ledger p dir g m ≡ ok l
      → (validate_genesis g ≡ ok tt) × Replays (fresh g) m l
  unfolding open_ledger all
  open_ledger-Replays g m {l} h = elim (Result-cases (validate_genesis g)) [
    | inr (x, bad) ↦ absurd (ground arith)
    | inl (_, valid) ↦ elim (Option-cases (replay_all p dir (fresh g) 0 m).1) [
      | inr (x, bad) ↦ absurd (ground arith)
      | inl e ↦
          let same : (replay_all p dir (fresh g) 0 m).0 ≡ l = ground arith in
          (valid, rw same at (Replays-replay_all (fresh g) 0 m e))
    ]
  ]

  pub Replays-open_ledger :
      (g : Genesis) (m : Store) {l : Ledger}
      → validate_genesis g ≡ ok tt
      → Replays (fresh g) m l
      → open_ledger p dir g m ≡ ok l
  unfolding open_ledger all
  Replays-open_ledger g m valid h = ground (arith, replay_all-Replays 0 h)
