-- ===== src/Techtree/Tree/Weight.antt =====
-- CitationWeight counts the asserters of each kind of reference to a claim, each once.
use text.Mathlib.Text.{◌==◌ as str_eq}
use cloudy.Prelude.{
  ℕ, ◌≡◌, ◌⊎◌, ◌↔◌, refl, inl, inr, arith, Bool, true, false, not, ◌||◌, Bool-cases, List, [], ◌∷◌,
  some, Option-cases, length, ◌==◌,
}
use cloudy.Prelude.Bytes.{Bytes, bytes_eq, has_key, eq-of-bytes_eq, bytes_eq_refl}
use cloudy.Primitives.{Hash}
use cloudy.Techtree.Claim.{RefKind, Reference}
use cloudy.Techtree.Tree.{Item, Tree, mark_asserter, asserters, citation_weight}

-- A reference of the kind to the claim, by the asserter, stands in the log.
pub data Refers (kind : RefKind) (id : Hash) (key : Bytes) : List Item → Type 0 where
  first :
      (it : Item) (log : List Item) (r : Reference)
      → it.reference ≡ some r
      → r.to ≡ id
      → str_eq r.kind kind ≡ true
      → r.asserter ≡ key
      → Refers kind id key (it ∷ log)
  later : (it : Item) (log : List Item) → Refers kind id key log → Refers kind id key (it ∷ log)

-- No key stands in the list twice.
unfoldable pub Distinct : List Bytes → Type 0
Distinct [] = Unit
Distinct (k ∷ ks) = (has_key k ks ≡ false) × Distinct ks

-- The numbers of the code count a list that holds each asserter of such a reference, once.
pub record Counts (kind : RefKind) (id : Hash) (log : List Item) (n : ℕ) : Type 0 where
  pub keys : List Bytes
  pub once : Distinct keys
  pub exact : (key : Bytes) → (has_key key keys ≡ true) ↔ Refers kind id key log
  pub number : n ≡ length keys

-- The test by which the loop leaves a reference out.
abbrev skips : RefKind → Hash → Reference → List Bytes → Bool
skips kind id r marked = not (r.to == id) || not (str_eq r.kind kind) || has_key r.asserter marked

module _ (kind : RefKind) (id : Hash) where
  -- The reference of the item is one of the kind, to the claim, by the asserter.
  abbrev Adds : Bytes → Item → Type 0
  Adds key it =
      (r : Reference) × ((it.reference ≡ some r)
        × ((r.to ≡ id) × ((str_eq r.kind kind ≡ true) × (r.asserter ≡ key))))

  mark_asserter-Distinct :
      (it : Item) (marked : List Bytes)
      → Distinct marked
      → Distinct (mark_asserter kind id it marked)
  unfolding mark_asserter Distinct
  mark_asserter-Distinct it marked h = elim (Option-cases it.reference) [
    | inl e ↦ rw e h
    | inr (r, e) ↦ elim (Bool-cases (skips kind id r marked)) [
      | inl s ↦ rw (e, s) h
      | inr s ↦ rw (e, s) (ground (arith, s), h)
    ]
  ]

  mark_asserter-keeps :
      (key : Bytes) (it : Item) (marked : List Bytes)
      → has_key key marked ≡ true
      → has_key key (mark_asserter kind id it marked) ≡ true
  unfolding mark_asserter has_key
  mark_asserter-keeps key it marked h = elim (Option-cases it.reference) [
    | inl e ↦ rw e h
    | inr (r, e) ↦ elim (Bool-cases (skips kind id r marked)) [
      | inl s ↦ rw (e, s) h
      | inr s ↦ rw (e, s) (ground (arith, h))
    ]
  ]

  mark_asserter-marks :
      (key : Bytes) (it : Item) (marked : List Bytes)
      → Adds key it
      → has_key key (mark_asserter kind id it marked) ≡ true
  unfolding mark_asserter has_key
  mark_asserter-marks key it marked (r, (e, (t, (k, a)))) = elim (Bool-cases (has_key key marked)) [
    | inl s ↦ ground (arith, e, t, k, a, s)
    | inr s ↦ ground (arith, e, t, k, a, s, bytes_eq_refl key)
  ]

  mark_asserter-only :
      (key : Bytes) (it : Item) (marked : List Bytes)
      → has_key key (mark_asserter kind id it marked) ≡ true
      → (has_key key marked ≡ true) ⊎ Adds key it
  unfolding mark_asserter has_key
  mark_asserter-only key it marked h = elim (Option-cases it.reference) [
    | inl e ↦ inl (ground (arith, e, h))
    | inr (r, e) ↦ elim (Bool-cases (skips kind id r marked)) [
      | inl s ↦ inl (ground (arith, e, s, h))
      | inr s ↦ elim (Bool-cases (bytes_eq r.asserter key)) [
        | inl same ↦
            inr
              (r, (e, (ground (arith, s), (ground (arith, s), eq-of-bytes_eq r.asserter key same))))
        | inr other ↦ inl (ground (arith, e, s, h, other))
      ]
    ]
  ]

  asserters-Distinct :
      (log : List Item) (marked : List Bytes)
      → Distinct marked
      → Distinct (asserters kind id log marked)
  unfolding asserters
  asserters-Distinct [] marked h = h
  asserters-Distinct (it ∷ log) marked h =
      asserters-Distinct log (mark_asserter kind id it marked) (mark_asserter-Distinct it marked h)

  Refers-cons :
      (key : Bytes) (it : Item) (log : List Item)
      → Refers kind id key (it ∷ log)
      → Refers kind id key log ⊎ Adds key it
  Refers-cons key it log (first _ _ r e t k a) = inr (r, (e, (t, (k, a))))
  Refers-cons key it log (later _ _ k) = inl k

  asserters-only :
      (key : Bytes) (log : List Item) (marked : List Bytes)
      → has_key key (asserters kind id log marked) ≡ true
      → (has_key key marked ≡ true) ⊎ Refers kind id key log
  unfolding asserters
  asserters-only key [] marked h = inl h
  asserters-only key (it ∷ log) marked h =
      elim (asserters-only key log (mark_asserter kind id it marked) h) [
        | inr k ↦ inr (later it log k)
        | inl k ↦ elim (mark_asserter-only key it marked k) [
          | inl old ↦ inl old
          | inr (r, (e, (t, (s, a)))) ↦ inr (first it log r e t s a)
        ]
      ]

  asserters-keeps :
      (key : Bytes) (log : List Item) (marked : List Bytes)
      → has_key key marked ≡ true
      → has_key key (asserters kind id log marked) ≡ true
  unfolding asserters
  asserters-keeps key [] marked h = h
  asserters-keeps key (it ∷ log) marked h =
      asserters-keeps key log (mark_asserter kind id it marked)
        (mark_asserter-keeps key it marked h)

  asserters-all :
      (key : Bytes) (log : List Item) (marked : List Bytes)
      → Refers kind id key log
      → has_key key (asserters kind id log marked) ≡ true
  unfolding asserters
  asserters-all key [] marked k = elim k [ ]
  asserters-all key (it ∷ log) marked k = elim (Refers-cons key it log k) [
    | inl old ↦ asserters-all key log (mark_asserter kind id it marked) old
    | inr new ↦
        asserters-keeps key log (mark_asserter kind id it marked)
          (mark_asserter-marks key it marked new)
  ]

  Counts-asserters : (log : List Item) → Counts kind id log (length (asserters kind id log []))
  unfolding Distinct has_key
  Counts-asserters log = record {
    keys = asserters kind id log [];
    once = asserters-Distinct log [] tt;
    exact = λ key. (
      λ h. elim (asserters-only key log [] h) [ inl k ↦ absurd (ground arith) | inr k ↦ k ],
      asserters-all key log [],
    );
    number = refl;
  }

-- Each of the five numbers of CitationWeight counts the distinct keys that asserted a reference of that
-- kind to the claim in the log: every such key, no other, and none twice.
pub citation_weight-Counts :
    (t : Tree) (id : Hash)
    → Counts "cites" id t.log (citation_weight t id).cites
      × (Counts "builds_on" id t.log (citation_weight t id).builds_on
          × (Counts "reproduces" id t.log (citation_weight t id).reproduces
              × (Counts "refutes" id t.log (citation_weight t id).refutes
                  × Counts "contests" id t.log (citation_weight t id).contests)))
unfolding citation_weight
citation_weight-Counts t id = (
  Counts-asserters "cites" id t.log,
  (
    Counts-asserters "builds_on" id t.log,
    (
      Counts-asserters "reproduces" id t.log,
      (Counts-asserters "refutes" id t.log, Counts-asserters "contests" id t.log),
    ),
  ),
)
