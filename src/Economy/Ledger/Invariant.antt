-- ===== src/Economy/Ledger/Invariant.antt =====
-- What holds of every ledger that Open returns and that Post and Enact leave behind.
use cloudy.Prelude.{ℕ, ◌≡◌, ◌≢◌, refl, arith, List, inl, inr, drop, ◌∙◌, ◌≤◌}
use cloudy.Prelude.Int.{pos}
use cloudy.Prelude.Word.{max_i64}
use cloudy.Prelude.Dict.{get, total}
use cloudy.Prelude.Result.{ok, Result-cases}
use cloudy.Primitives.{Primitives}
use cloudy.Economy.Spend.{Spend}
use cloudy.Economy.Policy.{Policy, Genesis, PolicyChange, validate_policy, validate_genesis}
use cloudy.Economy.Store.{Record, Store, all, spend, policy_change, foreign}
use cloudy.Economy.Ledger.{
  Directory, Ledger, fresh, admit_spend, admit_policy_change, apply_spend, apply_policy_change,
  replay_record, replay_all, open_ledger, catch_up,
}
use cloudy.Economy.Ledger.Replay.{
  Accepts, Replays, here, next, replay_all-induction, open_ledger-Replays, replay_all-Replays,
}
use cloudy.Economy.Ledger.Admission.{
  InRange, Fits, admit_spend-Admits, admit_amount-Fits, balance_of-apply_spend, total-apply_spend,
}

-- Every balance is an int64, the cap is a valid one, and the balances sum to zero.
pub record IsValid (l : Ledger) : Type 0 where
  pub range : InRange l
  pub zero_sum : total l.balances ≡ pos 0

cap-validate_policy : (q : Policy) → validate_policy q ≡ ok tt → q.debit_cap ≤ max_i64
unfolding validate_policy
cap-validate_policy q h = ground arith

pub fresh-IsValid : (g : Genesis) → validate_genesis g ≡ ok tt → IsValid (fresh g)
unfolding validate_genesis fresh get total
fresh-IsValid g h = record {
  range = record { balances = λ a. omega arith; cap = cap-validate_policy g.policy (ground arith) };
  zero_sum = refl;
}

apply_spend-InRange :
    (l : Ledger) (s : Spend)
    → s.from ≢ s.to
    → s.amount ≤ max_i64
    → InRange l
    → Fits l s
    → InRange (apply_spend l s)
apply_spend-InRange l s distinct small ranged fits = record {
  balances = λ a.
      rw (balance_of-apply_spend l s distinct small fits a) (ground (arith, ranged.balances a));
  cap = unfold apply_spend in ranged.cap;
}

module _ (p : Primitives) (dir : Directory) where
  apply_spend-IsValid :
      (l : Ledger) (s : Spend)
      → admit_spend p dir l s ≡ ok tt
      → IsValid l
      → IsValid (apply_spend l s)
  apply_spend-IsValid l s h v =
      let a = admit_spend-Admits p dir l s h in
      let fits = admit_amount-Fits l s v.range a.in_range a.amounts in
      record {
        range = apply_spend-InRange l s a.distinct a.in_range v.range fits;
        zero_sum = total-apply_spend l s a.distinct a.in_range fits ∙ v.zero_sum;
      }

  apply_policy_change-IsValid :
      (l : Ledger) (c : PolicyChange)
      → admit_policy_change p dir l c ≡ ok tt
      → IsValid l
      → IsValid (apply_policy_change l c)
  unfolding admit_policy_change apply_policy_change
  apply_policy_change-IsValid l c h v = record {
    range = record {
      balances = v.range.balances;
      cap = cap-validate_policy c.policy (ground arith);
    };
    zero_sum = v.zero_sum;
  }

  replay_record-IsValid :
      (l : Ledger) (i : ℕ) (r : Record) → IsValid l → IsValid (replay_record p dir l i r).0
  unfolding replay_record
  replay_record-IsValid l i (spend s) v = elim (Result-cases (admit_spend p dir l s)) [
    | inl (_, e) ↦
        rw (e, replay_record)
          (let w = apply_spend-IsValid l s e v in
            record {
              range = record { balances = w.range.balances; cap = w.range.cap };
              zero_sum = w.zero_sum;
            })
    | inr (_, e) ↦ rw (e, replay_record) v
  ]
  replay_record-IsValid l i (policy_change c) v =
      elim (Result-cases (admit_policy_change p dir l c)) [
        | inl (_, e) ↦
            rw (e, replay_record)
              (let w = apply_policy_change-IsValid l c e v in
                record {
                  range = record { balances = w.range.balances; cap = w.range.cap };
                  zero_sum = w.zero_sum;
                })
        | inr (_, e) ↦ rw (e, replay_record) v
      ]
  replay_record-IsValid l i (foreign _) v = v

  pub replay_all-IsValid :
      (l : Ledger) (i : ℕ) (rs : List Record) → IsValid l → IsValid (replay_all p dir l i rs).0
  replay_all-IsValid = replay_all-induction p dir IsValid replay_record-IsValid

  pub Accepts-IsValid : {l l' : Ledger} (r : Record) → Accepts p dir l r l' → IsValid l → IsValid l'
  Accepts-IsValid {l} r h v = rw (h 0) at (replay_record-IsValid l 0 r v)

  -- A ledger that is the replay of a part of a store is valid too.
  pub Replays-IsValid :
      {l l' : Ledger} {rs : List Record} → Replays p dir l rs l' → IsValid l → IsValid l'
  Replays-IsValid here v = v
  Replays-IsValid (next {r = r} a h) v = Replays-IsValid h (Accepts-IsValid r a v)

  pub catch_up-IsValid : (l : Ledger) (m : Store) → IsValid l → IsValid (catch_up p dir l m).0
  unfolding catch_up
  catch_up-IsValid l m v =
      ground (arith, v, replay_all-IsValid l l.applied (drop l.applied (all m)) v)

  -- A ledger that Open returns has every balance in the range of int64 and a valid debit cap, and
  -- its balances sum to exactly zero, whatever the store held.
  pub open_ledger-IsValid :
      (g : Genesis) (m : Store) {l : Ledger} → open_ledger p dir g m ≡ ok l → IsValid l
  open_ledger-IsValid g m h =
      let (valid, run) = open_ledger-Replays p dir g m h in
      rw (replay_all-Replays p dir 0 run) at
        (replay_all-IsValid (fresh g) 0 m (fresh-IsValid g valid))
