-- ===== src/Economy/Ledger/Post.antt =====
-- Ledger.Post and Ledger.Enact: what a caller is promised.
use cloudy.Prelude.{ℕ, ◌≡◌, refl, List, [], ◌∷◌, ◌++◌, none, some, Option, take, get_elem?}
use cloudy.Prelude.Result.{ok}
use cloudy.Primitives.{Primitives}
use cloudy.Economy.Spend.{Spend}
use cloudy.Economy.Policy.{Error, Genesis, PolicyChange, validate_genesis}
use cloudy.Economy.Store.{Store, spend, policy_change}
use cloudy.Economy.Ledger.{
  Directory, Ledger, Others, advance, replay_record, admit_spend, admit_policy_change, apply_spend,
  apply_policy_change, post, enact, open_ledger,
}
use cloudy.Economy.Ledger.Replay.{Replays-open_ledger, Accepts}
use cloudy.Economy.Ledger.History.{Tracks}
use cloudy.Economy.Ledger.Submit.{written, submit-Outcome, submit_returns}

module _ (p : Primitives) (dir : Directory) where
  Accepts-admit_spend :
      (s : Spend) (l : Ledger)
      → admit_spend p dir l s ≡ ok tt
      → Accepts p dir l (spend s) (advance (apply_spend l s))
  unfolding replay_record
  Accepts-admit_spend s l h = rw (h, replay_record) (λ i. refl)

  Accepts-admit_policy_change :
      (c : PolicyChange) (l : Ledger)
      → admit_policy_change p dir l c ≡ ok tt
      → Accepts p dir l (policy_change c) (advance (apply_policy_change l c))
  unfolding replay_record
  Accepts-admit_policy_change c l h = rw (h, replay_record) (λ i. refl)

-- The ledger that a store leads to is the one that Open returns.
module _ (p : Primitives) (dir : Directory) (g : Genesis) (valid : validate_genesis g ≡ ok tt) where
  -- A successful Post has appended the spend behind all that the other writers had appended until
  -- then, and Open over the new store accepts every record of it and returns the very ledger that
  -- Post left behind. The ledger given to Post is the replay of a part of its store.
  pub post-reopens :
      (s : Spend) (os : List Others) (l l' : Ledger) (m m' : Store)
      → Tracks p dir g m l
      → post p dir s os l m ≡ some (l', m', none)
      → (open_ledger p dir g m' ≡ ok l')
        × (k : ℕ) × (o : Others) × (get_elem? os k ≡ some o)
        × (m' ≡ m ++ (written (take k os) ++ (o.before ++ spend s ∷ [])))
  unfolding post
  post-reopens s os l l' m m' t h =
      let a = submit-Outcome p dir g _ _ (spend s) (Accepts-admit_spend p dir s) os l m t h in
      (Replays-open_ledger p dir g m' valid a.run, a.rounds, a.last, a.at_round, a.stored)

  -- A successful Enact has appended the policy change behind all that the other writers had appended
  -- until then, and Open over the new store accepts every record of it and returns the very ledger that
  -- Enact left behind. The ledger given to Enact is the replay of a part of its store.
  enact-reopens :
      (c : PolicyChange) (os : List Others) (l l' : Ledger) (m m' : Store)
      → Tracks p dir g m l
      → enact p dir c os l m ≡ some (l', m', none)
      → (open_ledger p dir g m' ≡ ok l')
        × (k : ℕ) × (o : Others) × (get_elem? os k ≡ some o)
        × (m' ≡ m ++ (written (take k os) ++ (o.before ++ policy_change c ∷ [])))
  unfolding enact
  enact-reopens c os l l' m m' t h =
      let a =
        submit-Outcome p dir g _ _ (policy_change c) (Accepts-admit_policy_change p dir c) os l m t
          h in
      (Replays-open_ledger p dir g m' valid a.run, a.rounds, a.last, a.at_round, a.stored)

module _ (p : Primitives) (dir : Directory) (g : Genesis) where
  -- A Post that returns an error has appended nothing: the store holds what it held and what the
  -- other writers appended in the rounds that were run, and the ledger is still the replay of a part
  -- of it.
  pub post_error_appends_nothing :
      (s : Spend) (os : List Others) (l l' : Ledger) (m m' : Store) (e : Error)
      → Tracks p dir g m l
      → post p dir s os l m ≡ some (l', m', some e)
      → Tracks p dir g m' l' × (k : ℕ) × (m' ≡ m ++ written (take k os))
  unfolding post
  post_error_appends_nothing s os l l' m m' e t h =
      let a = submit-Outcome p dir g _ _ (spend s) (Accepts-admit_spend p dir s) os l m t h in
      (a.tracks, a.rounds, a.stored)

  -- Post returns as soon as, after its first round, there is a round in which no other writer appends
  -- before it does. The ledger is the replay of a part of its store.
  pub post_returns :
      (s : Spend) (os : List Others) (o q : Others) (l : Ledger) (m : Store)
      → q.before ≡ []
      → Tracks p dir g m l
      → (out : Ledger × Store × Option Error) × (post p dir s (os ++ (o ∷ q ∷ [])) l m ≡ some out)
  unfolding post
  post_returns s os o q l m quiet t =
      submit_returns p dir g _ _ (spend s) (Accepts-admit_spend p dir s) os o q l m quiet t
