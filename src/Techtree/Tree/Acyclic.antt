-- ===== src/Techtree/Tree/Acyclic.antt =====
-- No claim builds on itself, in one step or in more.
use cloudy.Prelude.{
  ◌≡◌, ◌⊎◌, refl, sym, subst, ◌∙◌, inl, inr, arith, false, Bool-cases, List, [], ◌∷◌, ◌++◌, none,
  some,
}
use text.Mathlib.Text.{◌==◌ as str_eq}
use cloudy.Primitives.{Hash, Primitives}
use cloudy.Techtree.Claim.{Reference, ref_builds_on}
use cloudy.Techtree.Tree.{Item, Tree, claim_item, reference_item, new_tree, builds_from}
use cloudy.Techtree.Tree.Search.{Builds, here, there, Reaches, edge, step}
use cloudy.Techtree.Tree.Search.Decides.{builds_on_reaches_iff}
use cloudy.Techtree.Tree.Replay.{
  History, created, claimed, referred, add_claim-steps, add_reference-steps,
}

Builds-snoc :
    (log : List Item) (it : Item) (a b : Hash)
    → Builds (log ++ it ∷ []) a b
    → Builds log a b ⊎ (builds_from a it ≡ some b)
Builds-snoc [] it a b (here _ _ _ _ e) = inr e
Builds-snoc [] it a b (there _ _ _ _ k) = elim k [ ]
Builds-snoc (x ∷ log) it a b (here _ _ _ _ e) = inl (here x log a b e)
Builds-snoc (x ∷ log) it a b (there _ _ _ _ k) = elim (Builds-snoc log it a b k) [
  | inl old ↦ inl (there x log a b old)
  | inr new ↦ inr new
]

Reaches-trans :
    (log : List Item) (a b c : Hash) → Reaches log a b → Reaches log b c → Reaches log a c
Reaches-trans log a b c (edge _ _ e) k = step a b c e k
Reaches-trans log a b c (step _ d _ e r) k = step a d c e (Reaches-trans log d b c r k)

-- An item with no builds_on edge adds no way.
Reaches-plain :
    (log : List Item) (it : Item) (a c : Hash)
    → ((x : Hash) → builds_from x it ≡ none)
    → Reaches (log ++ it ∷ []) a c
    → Reaches log a c
Reaches-plain log it a c plain (edge _ _ e) = elim (Builds-snoc log it a c e) [
  | inl old ↦ edge a c old
  | inr new ↦ absurd (cc (plain a, new))
]
Reaches-plain log it a c plain (step _ b _ e r) = elim (Builds-snoc log it a b e) [
  | inl old ↦ step a b c old (Reaches-plain log it b c plain r)
  | inr new ↦ absurd (cc (plain a, new))
]

module _ (log : List Item) (it : Item) (from to : Hash)
    (only : (a b : Hash) → builds_from a it ≡ some b → (a ≡ from) × (b ≡ to)) where
  abbrev Before : Hash → Type 0
  Before a = (a ≡ from) ⊎ Reaches log a from

  abbrev After : Hash → Type 0
  After c = (to ≡ c) ⊎ Reaches log to c

  -- A way through the longer log is one through the shorter, or goes by the new edge.
  Reaches-snoc :
      (a c : Hash) → Reaches (log ++ it ∷ []) a c → Reaches log a c ⊎ (Before a × After c)
  Reaches-snoc a c (edge _ _ e) = elim (Builds-snoc log it a c e) [
    | inl old ↦ inl (edge a c old)
    | inr new ↦ let (s, t) = only a c new in inr (inl s, inl (sym t))
  ]
  Reaches-snoc a c (step _ b _ e r) = elim (Builds-snoc log it a b e) [
    | inl old ↦ elim (Reaches-snoc b c r) [
      | inl rest ↦ inl (step a b c old rest)
      | inr (to_from, on) ↦ inr (
        elim to_from [
          | inl s ↦ inr (edge a from (subst (Builds log a) s old))
          | inr k ↦ inr (step a b from old k)
        ],
        on,
      )
    ]
    | inr new ↦
        let (s, t) = only a b new in
        inr (
          inl s,
          elim (Reaches-snoc b c r) [
            | inl rest ↦ inr (subst (λ x. Reaches log x c) t rest)
            | inr (_, on) ↦ on
          ],
        )
  ]

  -- A cycle through the new edge is a way from its end back to its start.
  cycle_through : (a : Hash) → Before a → After a → (to ≡ from) ⊎ Reaches log to from
  cycle_through a (inl s) (inl t) = inl (t ∙ s)
  cycle_through a (inl s) (inr k) = inr (subst (Reaches log to) s k)
  cycle_through a (inr k) (inl t) = inr (subst (λ x. Reaches log x from) (sym t) k)
  cycle_through a (inr k) (inr j) = inr (Reaches-trans log to a from j k)

builds_from-reference :
    (r : Reference) (a b : Hash)
    → builds_from a (reference_item r) ≡ some b
    → (a ≡ r.from) × (b ≡ r.to)
unfolding builds_from
builds_from-reference r a b h = (ground arith, ground arith)

builds_from-other :
    (r : Reference)
    → str_eq r.kind ref_builds_on ≡ false
    → (a : Hash) → builds_from a (reference_item r) ≡ none
unfolding builds_from
builds_from-other r h a = ground (arith, h)

module _ (p : Primitives) where
  -- In whatever calls of AddClaim and AddReference have made of a new tree, no claim reaches itself by one or
  -- more builds_on references.
  pub builds_on_acyclic : (t : Tree) (a : Hash) → History p t → ¬ Reaches t.log a a
  builds_on_acyclic t a (created platform _ h) r =
      let empty : t.log ≡ [] = unfold new_tree in ground (arith, h) in
      no_way a (subst (λ l. Reaches l a a) empty r)
    where
      no_way : (b : Hash) → Reaches [] b a → ⊥
      no_way b (edge _ _ e) = elim e [ ]
      no_way b (step _ _ _ e _) = elim e [ ]
  builds_on_acyclic t a (claimed d _ c id past h) r =
      let (logged, _) = add_claim-steps p d t c id h in
      builds_on_acyclic d a past (
        Reaches-plain d.log (claim_item c) a a (λ x. unfold builds_from in refl)
          (subst (λ l. Reaches l a a) logged r))
  builds_on_acyclic t a (referred d _ r' id past h) r =
      let (logged, _, test) = add_reference-steps p d t r' id h in
      let r'' = subst (λ l. Reaches l a a) logged r in
      elim (Bool-cases (str_eq r'.kind ref_builds_on)) [
        | inr other ↦
            builds_on_acyclic d a past
              (Reaches-plain d.log (reference_item r') a a (builds_from-other r' other) r'')
        | inl same ↦
            elim (Reaches-snoc d.log (reference_item r') r'.from r'.to (builds_from-reference r') a
              a r'') [
                | inl old ↦ builds_on_acyclic d a past old
                | inr (there_to, back) ↦
                    let (_, (_, found)) = builds_on_reaches_iff r'.from d.log r'.to in
                    let closes = found (
                      cycle_through d.log (reference_item r') r'.from r'.to
                        (builds_from-reference r') a there_to back) in
                    absurd (ground (arith, same, test, closes))
              ]
      ]
