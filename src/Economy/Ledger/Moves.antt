-- ===== src/Economy/Ledger/Moves.antt =====
-- What one accepted spend moves, and how deep a balance can fall.
use cloudy.Prelude.{
  ℕ, ◌≡◌, refl, Bool-cases, arith, List, [], ◌∷◌, ◌++◌, inl, inr, subst, ◌==◌, if◌then◌else◌,
}
use cloudy.Prelude.Int.{ℤ, pos, ◌+ℤ◌, ◌-ℤ◌, ◌≤ℤ◌, int_laws}
use cloudy.Prelude.Dict.{get}
use cloudy.Prelude.Result.{ok}
use cloudy.Primitives.{Primitives}
use cloudy.Economy.Spend.{Spend, AccountId}
use cloudy.Economy.Policy.{Genesis}
use cloudy.Economy.Store.{Record, Store, spend, policy_change, foreign}
use cloudy.Economy.Ledger.{Directory, Ledger, balance_of, fresh, apply_spend, open_ledger}
use cloudy.Economy.Ledger.Replay.{
  Replays, here, next, Accepts, Replays-split, Replays-uncons, Replays-unique, Accepts-spend,
  open_ledger-Replays,
}
use cloudy.Economy.Ledger.Admission.{admit_spend-Admits, admit_amount-Fits, balance_of-apply_spend}
use cloudy.Economy.Ledger.Invariant.{IsValid, fresh-IsValid, Accepts-IsValid, open_ledger-IsValid}

-- A balance, in exact integers, after credit has moved from one account to another.
abbrev pub moved : Ledger → Spend → AccountId → ℤ
moved l s a =
    if s.to == a
    then balance_of l s.to +ℤ pos s.amount
    else if s.from == a
    then balance_of l s.from -ℤ pos s.amount
    else balance_of l a

module _ (p : Primitives) (dir : Directory) where
  pub accepted_spend_moves :
      (l l' : Ledger) (s : Spend)
      → IsValid l
      → Accepts p dir l (spend s) l'
      → ((a : AccountId) → balance_of l' a ≡ moved l s a)
        × (pos 0 ≤ℤ balance_of l' s.from +ℤ pos l.pol.debit_cap)
        × (l'.pol ≡ l.pol)
  accepted_spend_moves l l' s v h =
      let (admitted, e) = Accepts-spend p dir l l' s h in
      let a = admit_spend-Admits p dir l s admitted in
      let fits = admit_amount-Fits l s v.range a.in_range a.amounts in
      let moves = balance_of-apply_spend l s a.distinct a.in_range fits in
      rw e (
        moves,
        rw (moves s.from) (ground (arith, fits.covered, a.distinct)),
        unfold apply_spend in refl,
      )

  -- Appending a spend that Open accepts to a store that Open accepts moves exactly its amount from
  -- the payer to the payee, with no other balance and not the policy changed, and leaves the payer
  -- no deeper than the debit cap then in force.
  pub open_ledger-spend :
      (g : Genesis) (m : Store) (s : Spend) {l l' : Ledger}
      → open_ledger p dir g m ≡ ok l
      → open_ledger p dir g (m ++ spend s ∷ []) ≡ ok l'
      → ((a : AccountId) → balance_of l' a ≡ moved l s a)
        × (pos 0 ≤ℤ balance_of l' s.from +ℤ pos l.pol.debit_cap)
        × (l'.pol ≡ l.pol)
  open_ledger-spend g m s {l} {l'} h k =
      let (l1, run, last) = Replays-split p dir m _ (open_ledger-Replays p dir g _ k).1 in
      let (l2, accepted, nil) = Replays-uncons p dir last in
      let same : l1 ≡ l = Replays-unique p dir run (open_ledger-Replays p dir g m h).1 in
      let same' : l2 ≡ l' = Replays-unique p dir here nil in
      accepted_spend_moves l l' s (open_ledger-IsValid p dir g m h) (
        subst (λ x. Accepts p dir x (spend s) l') same
          (subst (λ x. Accepts p dir l1 (spend s) x) same' accepted))

  -- Whether every record is a spend.
  abbrev pub OnlySpends : List Record → Type 0
  OnlySpends [] = Unit
  OnlySpends (spend _ ∷ rs) = OnlySpends rs
  OnlySpends (_ ∷ rs) = ⊥

  abbrev Floor : ℕ → Ledger → Type 0
  Floor cap l =
      IsValid l × (l.pol.debit_cap ≡ cap) × ((a : AccountId) → pos 0 ≤ℤ balance_of l a +ℤ pos cap)

  accept-Floor :
      (cap : ℕ) (l l' : Ledger) (s : Spend)
      → Accepts p dir l (spend s) l'
      → Floor cap l
      → Floor cap l'
  accept-Floor cap l l' s h (v, c, f) =
      let (moves, covered, pol) = accepted_spend_moves l l' s v h in
      (Accepts-IsValid p dir (spend s) h v, rw pol c, λ a. floor_moved a (moves a) covered)
    where
      floor_moved :
          (a : AccountId)
          → balance_of l' a ≡ moved l s a
          → pos 0 ≤ℤ balance_of l' s.from +ℤ pos l.pol.debit_cap
          → pos 0 ≤ℤ balance_of l' a +ℤ pos cap
      floor_moved a m covered = elim (Bool-cases (s.from == a)) [
        | inl payer ↦ let same : s.from ≡ a = ground arith in rw same at (rw c at covered)
        | inr other ↦ elim (Bool-cases (s.to == a)) [
          | inl payee ↦
              let e : balance_of l' a ≡ balance_of l s.to +ℤ pos s.amount = ground arith in
              rw e (omega (int_laws, f s.to))
          | inr apart ↦ let e : balance_of l' a ≡ balance_of l a = ground arith in rw e (f a)
        ]
      ]

  Replays-Floor :
      (cap : ℕ) {l l' : Ledger} (rs : List Record)
      → OnlySpends rs
      → Replays p dir l rs l'
      → Floor cap l
      → Floor cap l'
  Replays-Floor cap [] o here f = f
  Replays-Floor cap (spend s ∷ rs) o (next {l = l} {l' = l'} a h) f =
      Replays-Floor cap rs o h (accept-Floor cap l l' s a f)
  Replays-Floor cap (policy_change c ∷ rs) o h f = absurd o
  Replays-Floor cap (foreign n ∷ rs) o h f = absurd o

  -- While no policy change is recorded, no account of a ledger that Open returns is ever deeper in
  -- debt than the one uniform cap of the genesis.
  pub open_ledger-floor :
      (g : Genesis) (m : Store) {l : Ledger}
      → open_ledger p dir g m ≡ ok l
      → OnlySpends m
      → (a : AccountId) → pos 0 ≤ℤ balance_of l a +ℤ pos g.policy.debit_cap
  unfolding fresh get
  open_ledger-floor g m h o =
      let (valid, run) = open_ledger-Replays p dir g m h in
      (Replays-Floor g.policy.debit_cap m o run
        (fresh-IsValid g valid, refl, λ a. omega int_laws)).2
