-- ===== src/Economy/Ledger/Nonces.antt =====
-- No replay of a spend: nonces and policy versions only grow along a store.
use cloudy.Prelude.{◌≡◌, ap, sym, ◌∙◌, arith, List, ◌∷◌, ◌++◌, ◌≤◌, ◌<◌}
use cloudy.Prelude.Dict.{get-insert}
use cloudy.Prelude.Result.{ok}
use cloudy.Primitives.{Primitives}
use cloudy.Economy.Spend.{Spend, AccountId}
use cloudy.Economy.Policy.{Genesis, PolicyChange}
use cloudy.Economy.Store.{Record, spend, policy_change, foreign}
use cloudy.Economy.Ledger.{
  Directory, Ledger, nonce_of, admit_policy_change, apply_spend, apply_policy_change, open_ledger,
}
use cloudy.Economy.Ledger.Admission.{admit_spend-Admits}
use cloudy.Economy.Ledger.Replay.{
  Replays, here, next, Accepts, Replays-split, Replays-uncons, open_ledger-Replays, Accepts-spend,
  Accepts-policy_change, Accepts-foreign,
}

module _ (p : Primitives) (dir : Directory) where
  nonce-accept :
      (l l' : Ledger) (r : Record) (a : AccountId)
      → Accepts p dir l r l'
      → nonce_of l a ≤ nonce_of l' a
  unfolding apply_spend apply_policy_change
  nonce-accept l l' (spend s) a h =
      let (admitted, e) = Accepts-spend p dir l l' s h in
      let grows = (admit_spend-Admits p dir l s admitted).nonce in
      ground (arith, get-insert 0 s.from a s.nonce l.nonces)
  nonce-accept l l' (policy_change c) a h =
      let (_, e) = Accepts-policy_change p dir l l' c h in ground arith
  nonce-accept l l' (foreign n) a h = absurd (Accepts-foreign p dir l l' n h)

  nonce-Replays :
      {l l' : Ledger} {rs : List Record} (a : AccountId)
      → Replays p dir l rs l'
      → nonce_of l a ≤ nonce_of l' a
  nonce-Replays a here = omega arith
  nonce-Replays a (next {l = l} {l' = m} {r = r} h k) =
      omega (arith, nonce-accept l m r a h, nonce-Replays a k)

  version-accept : (l l' : Ledger) (r : Record) → Accepts p dir l r l' → l.version ≤ l'.version
  unfolding apply_spend apply_policy_change admit_policy_change
  version-accept l l' (spend s) h = let (_, e) = Accepts-spend p dir l l' s h in ground arith
  version-accept l l' (policy_change c) h =
      let (admitted, e) = Accepts-policy_change p dir l l' c h in ground arith
  version-accept l l' (foreign n) h = absurd (Accepts-foreign p dir l l' n h)

  version-Replays :
      {l l' : Ledger} {rs : List Record} → Replays p dir l rs l' → l.version ≤ l'.version
  version-Replays here = omega arith
  version-Replays (next {l = l} {l' = m} {r = r} h k) =
      omega (arith, version-accept l m r h, version-Replays k)

  nonce-after :
      (l l' : Ledger) (s : Spend) → Accepts p dir l (spend s) l' → nonce_of l' s.from ≡ s.nonce
  unfolding apply_spend
  nonce-after l l' s h =
      let (_, e) = Accepts-spend p dir l l' s h in
      ground (arith, get-insert 0 s.from s.from s.nonce l.nonces)

  nonce-before :
      (l l' : Ledger) (s : Spend) → Accepts p dir l (spend s) l' → nonce_of l s.from < s.nonce
  nonce-before l l' s h = (admit_spend-Admits p dir l s (Accepts-spend p dir l l' s h).0).nonce

  -- In a store that Open accepts, the nonces of one payer's spends strictly increase, whatever
  -- records stand before, between and after them.
  pub open_ledger-nonces :
      (g : Genesis) (xs ys zs : List Record) (s t : Spend) {l : Ledger}
      → open_ledger p dir g (xs ++ (spend s ∷ (ys ++ (spend t ∷ zs)))) ≡ ok l
      → s.from ≡ t.from
      → s.nonce < t.nonce
  open_ledger-nonces g xs ys zs s t h same =
      let (l1, _, run) = Replays-split p dir xs _ (open_ledger-Replays p dir g _ h).1 in
      let (l2, first, rest) = Replays-uncons p dir run in
      let (l3, between, rest') = Replays-split p dir ys _ rest in
      let (l4, second, _) = Replays-uncons p dir rest' in
      omega (
        arith,
        ap (nonce_of l2) (sym same) ∙ nonce-after l1 l2 s first,
        nonce-Replays t.from between,
        nonce-before l3 l4 t second,
      )

  version-after :
      (l l' : Ledger) (c : PolicyChange)
      → Accepts p dir l (policy_change c) l'
      → (l.version < c.version) × (l'.version ≡ c.version) × (l'.pol ≡ c.policy)
  unfolding admit_policy_change apply_policy_change
  version-after l l' c h =
      let (admitted, e) = Accepts-policy_change p dir l l' c h in
      (ground arith, ground arith, ground arith)

  -- In a store that Open accepts, the versions of the policy changes strictly increase, whatever
  -- records stand before, between and after them.
  open_ledger-versions :
      (g : Genesis) (xs ys zs : List Record) (c d : PolicyChange) {l : Ledger}
      → open_ledger p dir g (xs ++ (policy_change c ∷ (ys ++ (policy_change d ∷ zs)))) ≡ ok l
      → c.version < d.version
  open_ledger-versions g xs ys zs c d h =
      let (l1, _, run) = Replays-split p dir xs _ (open_ledger-Replays p dir g _ h).1 in
      let (l2, first, rest) = Replays-uncons p dir run in
      let (l3, between, rest') = Replays-split p dir ys _ rest in
      let (l4, second, _) = Replays-uncons p dir rest' in
      omega (
        arith,
        (version-after l1 l2 c first).1,
        version-Replays between,
        (version-after l3 l4 d second).0,
      )
