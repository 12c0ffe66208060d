-- ===== src/Techtree/Tree/Replay.antt =====
-- The tree's log rebuilds the tree: OpenLog and the calls of AddClaim and AddReference agree.
use Prim.Native.String.{String}
use cloudy.Prelude.{◌≡◌, ◌∙◌, inl, inr, arith, false, ◌&&◌, List, [], ◌∷◌, ◌++◌, Option-cases}
use mathlib.Core.Path.{ap₂}
use text.Mathlib.Text.{◌==◌ as str_eq}
use cloudy.Prelude.Dict.{lookup}
use cloudy.Prelude.Result.{ok, Result-cases}
use cloudy.Primitives.{Hash, Primitives}
use cloudy.Techtree.Claim.{Claim, Reference, ref_builds_on}
use cloudy.Techtree.Tree.{
  Item, Tree, claim_item, reference_item, new_tree, builds_on_reaches, tree_log, add_claim,
  add_reference, replay_item, replay_items, open_tree,
}

module _ (p : Primitives) where
  -- A tree that NewTree, AddClaim and AddReference lead to.
  pub data History : Tree → Type 0 where
    created : (platform : String) (t : Tree) → new_tree platform ≡ ok t → History t
    claimed :
        (t t' : Tree) (c : Claim) (id : Hash)
        → History t
        → add_claim p t c ≡ ok (id, t')
        → History t'
    referred :
        (t t' : Tree) (r : Reference) (id : Hash)
        → History t
        → add_reference p t r ≡ ok (id, t')
        → History t'

  replay_items-snoc :
      (t t' : Tree) (items : List Item) (it : Item)
      → replay_items p t items ≡ ok t'
      → replay_items p t (items ++ it ∷ []) ≡ replay_item p t' it
  unfolding replay_items
  replay_items-snoc t t' [] it h = elim (Result-cases (replay_item p t it)) [
    | inl (d, e) ↦ ground (arith, e, h)
    | inr (x, e) ↦ ground (arith, e, h)
  ]
  replay_items-snoc t t' (x ∷ items) it h = elim (Result-cases (replay_item p t x)) [
    | inl (d, e) ↦ ground (arith, e, replay_items-snoc d t' items it (ground (arith, e)))
    | inr (_, e) ↦ absurd (ground (arith, e))
  ]

  pub add_claim-steps :
      (t t' : Tree) (c : Claim) (id : Hash)
      → add_claim p t c ≡ ok (id, t')
      → (t'.log ≡ t.log ++ claim_item c ∷ []) × (t'.platform ≡ t.platform)
  unfolding add_claim
  add_claim-steps t t' c id h = (ground arith, ground arith)

  pub add_reference-steps :
      (t t' : Tree) (r : Reference) (id : Hash)
      → add_reference p t r ≡ ok (id, t')
      → (t'.log ≡ t.log ++ reference_item r ∷ [])
        × (t'.platform ≡ t.platform)
        × ((str_eq r.kind ref_builds_on && builds_on_reaches t.log r.to r.from) ≡ false)
  unfolding add_reference
  add_reference-steps t t' r id h = elim (Option-cases (lookup r.from t.claims)) [
    | inl e ↦ absurd (ground (arith, e))
    | inr (_, e) ↦ (ground (arith, e), ground (arith, e), ground (arith, e))
  ]

  open_tree-snoc :
      (platform : String) (items : List Item) (t t' : Tree) (it : Item)
      → open_tree p platform items ≡ ok t
      → replay_item p t it ≡ ok t'
      → open_tree p platform (items ++ it ∷ []) ≡ ok t'
  unfolding open_tree
  open_tree-snoc platform items t t' it opened h = elim (Result-cases (new_tree platform)) [
    | inl (d, e) ↦ ground (arith, e, replay_items-snoc d t items it (ground (arith, e)))
    | inr (x, e) ↦ absurd (ground (arith, e))
  ]

  -- Whatever calls of AddClaim and AddReference have made of a new tree, OpenLog over its log, for its
  -- platform, returns that very tree, its head included.
  pub open_tree-log : (t : Tree) → History t → open_tree p t.platform (tree_log t) ≡ ok t
  unfolding tree_log
  open_tree-log t (created platform _ h) = unfold open_tree new_tree replay_items in ground arith
  open_tree-log t (claimed d _ c id past h) =
      let (logged, same) = add_claim-steps d t c id h in
      ap₂ (open_tree p) same logged
      ∙ open_tree-snoc d.platform d.log d t (claim_item c) (open_tree-log d past)
          (unfold replay_item in ground (arith, h))
  open_tree-log t (referred d _ r id past h) =
      let (logged, same, _) = add_reference-steps d t r id h in
      ap₂ (open_tree p) same logged
      ∙ open_tree-snoc d.platform d.log d t (reference_item r) (open_tree-log d past)
          (unfold replay_item in ground (arith, h))
