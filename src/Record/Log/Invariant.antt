-- ===== src/Record/Log/Invariant.antt =====
-- What OpenLog and Append keep of a log: its index, its leaves and the seals of its entries.
use cloudy.Prelude.{
  ℕ, zero, suc, ◌≡◌, ◌≢◌, ◌<◌, ◌↔◌, ◌⊎◌, refl, sym, ap, subst, ◌∙◌, inl, inr, arith, true, false,
  Bool-cases, List, [], ◌∷◌, ◌++◌, map, some, length, length-map, get_elem?, ◌==◌, if◌then◌else◌,
  ℕ_discrete,
}
use mathlib.Core.List.{map-append, append-nil}
use mathlib.Core.Path.{ap₂}
use cloudy.Prelude.Dict.{Dict, lookup, has, lookup-insert, has-cases}
use cloudy.Prelude.Bytes.{Bytes}
use cloudy.Prelude.Result.{Result, ok, err, Result-cases}
use cloudy.Primitives.{Hash, Primitives}
use cloudy.Record.Entry.{Error, Entry, zero_hash, verify_entry, entry_id, duplicate_leaf}
use cloudy.Record.Tree.Lists.{get_elem?-lt}
use cloudy.Record.Log.{Store, Log, admit, check, open_log, append}
use cloudy.Record.Log.Replay.{
  empty_log, admit_all, snoc-append, open_log-admit_all, open_log-operator,
}

get_elem?-snoc :
    {A : Type 0} (xs : List A) (x : A) (i : ℕ)
    → get_elem? (xs ++ x ∷ []) i ≡ (if i == length xs then some x else get_elem? xs i)
get_elem?-snoc [] x zero = refl
get_elem?-snoc [] x (suc i) = ground arith
get_elem?-snoc (y ∷ xs) x zero = ground arith
get_elem?-snoc (y ∷ xs) x (suc i) = ground (arith, get_elem?-snoc xs x i)

some_parts : {a b : ℕ} → some a ≡ some b → a ≡ b
some_parts h = cc h

some_entry : {a b : Entry} → some a ≡ some b → a ≡ b
some_entry h = cc h

ok_parts : {a b : Log} → ◌≡◌ {A = Result Error Log} (ok a) (ok b) → a ≡ b
ok_parts h = cc h

pub get_elem?-map :
    {A B : Type 0} (f : A → B) (xs : List A) (i : ℕ) {x : A}
    → get_elem? xs i ≡ some x
    → get_elem? (map f xs) i ≡ some (f x)
get_elem?-map f [] i h = absurd (cc h)
get_elem?-map f (y ∷ xs) zero h = ground (arith, h)
get_elem?-map f (y ∷ xs) (suc i) h = get_elem?-map f xs i h

has-found : (k : ℕ) (m : Dict ℕ) {v : ℕ} → lookup k m ≡ some v → has k m ≡ true
has-found k m h = elim (has-cases k m) [ inl (_, _, e) ↦ e | inr (e, _) ↦ absurd (cc (h, e)) ]

module _ (p : Primitives) where
  -- An entry at a position is sealed by its parties, bound to the log, and corrects nothing or a leaf before it.
  pub record Admitted (l : Log) (i : ℕ) (e : Entry) : Type 0 where
    pub sealed : verify_entry p e ≡ true
    pub bound : e.log ≡ l.id
    pub resolves :
        (e.corrects ≡ zero_hash) ⊎ ((j : ℕ) × (j < i) × (get_elem? l.leafs j ≡ some e.corrects))

  -- The log that stands for the entries.
  pub record IsLogOf (es : List Entry) (l : Log) : Type 0 where
    pub leaves : l.leafs ≡ map (entry_id p) es
    pub indexed : (x : Hash) (i : ℕ) → (lookup x l.index ≡ some i) ↔ (get_elem? l.leafs i ≡ some x)
    pub admitted : (i : ℕ) (e : Entry) → get_elem? es i ≡ some e → Admitted l i e

  -- The gates that an accepted entry has passed.
  check-passed :
      (l : Log) (e : Entry) {leaf : Hash}
      → check p l e ≡ ok leaf
      → (verify_entry p e ≡ true)
        × (e.log ≡ l.id)
        × ((e.corrects ≡ zero_hash) ⊎ (has e.corrects l.index ≡ true))
        × (has (entry_id p e) l.index ≡ false)
        × (leaf ≡ entry_id p e)
  unfolding check
  check-passed l e h = elim (Bool-cases (has e.corrects l.index)) [
    | inl y ↦ (ground arith, ground arith, inr y, ground arith, ground arith)
    | inr n ↦ (ground arith, ground arith, inl (ground arith), ground arith, ground arith)
  ]

  module _ (es : List Entry) (l : Log) (e : Entry) {leaf : Hash} (valid : IsLogOf es l)
      (h : check p l e ≡ ok leaf) where
    absent : (i : ℕ) → lookup leaf l.index ≢ some i
    unfolding has
    absent i found =
        let (_, _, _, fresh, same) = check-passed l e h in ground (arith, fresh, same, found)

    indexed-admit :
        (x : Hash) (i : ℕ)
        → (lookup x (admit leaf l).index ≡ some i) ↔ (get_elem? (admit leaf l).leafs i ≡ some x)
    unfolding admit
    indexed-admit x i =
        let (to, from) = valid.indexed x i in
        let write = lookup-insert leaf x (length l.leafs) l.index in
        let read = get_elem?-snoc l.leafs leaf i in
        elim (ℕ_discrete leaf x) [
          | yes same ↦ (
            λ a. ground (arith, write, read, a),
            λ b. elim (ℕ_discrete i (length l.leafs)) [
              | yes last ↦ ground (arith, write, read, b)
              | no inner ↦ absurd (absent i (rw same (from (ground (arith, read, b)))))
            ],
          )
          | no other ↦ (
            λ a.
                let old = to (ground (arith, write, a)) in
                let inner = get_elem?-lt l.leafs i old in ground (arith, read, old, inner),
            λ b. elim (ℕ_discrete i (length l.leafs)) [
              | yes last ↦ absurd (other (some_parts (ground (arith, read, b))))
              | no inner ↦ ground (arith, write, from (ground (arith, read, b)))
            ],
          )
        ]

    leaves-admit : (admit leaf l).leafs ≡ map (entry_id p) (es ++ e ∷ [])
    unfolding admit
    leaves-admit =
        let (_, _, _, _, same) = check-passed l e h in
        ap₂ (λ xs x. xs ++ x ∷ []) valid.leaves same ∙ sym (map-append (entry_id p) es (e ∷ []))

    -- A leaf keeps its position.
    kept :
        (j : ℕ) (x : Hash)
        → get_elem? l.leafs j ≡ some x
        → get_elem? (admit leaf l).leafs j ≡ some x
    unfolding admit
    kept j x at_j = ground (arith, get_elem?-snoc l.leafs leaf j, at_j, get_elem?-lt l.leafs j at_j)

    same_length : length l.leafs ≡ length es
    same_length = ap length valid.leaves ∙ length-map es (entry_id p)

    new-Admitted : Admitted (admit leaf l) (length es) e
    unfolding admit
    new-Admitted =
        let (sealed, bound, corrects, _, _) = check-passed l e h in
        record {
          sealed = sealed;
          bound = bound;
          resolves = elim corrects [
            | inl plain ↦ inl plain
            | inr held ↦ elim (has-cases e.corrects l.index) [
              | inl (j, found, _) ↦
                  let at_j = (valid.indexed e.corrects j).0 found in
                  inr (
                    j,
                    omega (arith, same_length, get_elem?-lt l.leafs j at_j),
                    kept j e.corrects at_j,
                  )
              | inr (_, missing) ↦ absurd (cc (held, missing))
            ]
          ];
        }

    old-Admitted : (i : ℕ) (e' : Entry) → Admitted l i e' → Admitted (admit leaf l) i e'
    unfolding admit
    old-Admitted i e' old = record {
      sealed = old.sealed;
      bound = old.bound;
      resolves = elim old.resolves [
        | inl plain ↦ inl plain
        | inr (j, before, at_j) ↦ inr (j, before, kept j e'.corrects at_j)
      ];
    }

    Admitted-admit :
        (i : ℕ) (e' : Entry) → get_elem? (es ++ e ∷ []) i ≡ some e' → Admitted (admit leaf l) i e'
    Admitted-admit i e' at_i = elim (ℕ_discrete i (length es)) [
      | yes last ↦
          let same : e ≡ e' = some_entry (ground (arith, get_elem?-snoc es e i, at_i)) in
          subst (λ x. Admitted (admit leaf l) i x) same
            (subst (λ n. Admitted (admit leaf l) n e) (sym last) new-Admitted)
      | no inner ↦
          old-Admitted i e' (valid.admitted i e' (ground (arith, get_elem?-snoc es e i, at_i)))
    ]

    admit-IsLogOf : IsLogOf (es ++ e ∷ []) (admit leaf l)
    admit-IsLogOf = record {
      leaves = leaves-admit;
      indexed = indexed-admit;
      admitted = Admitted-admit;
    }

  admit_all-IsLogOf :
      (done es : List Entry) (l l' : Log)
      → IsLogOf done l
      → admit_all p es l ≡ ok l'
      → IsLogOf (done ++ es) l'
  unfolding admit_all
  admit_all-IsLogOf done [] l l' valid h =
      subst (λ xs. IsLogOf xs l') (sym (append-nil done)) (subst (IsLogOf done) (ok_parts h) valid)
  admit_all-IsLogOf done (e ∷ es) l l' valid h = elim (Result-cases (check p l e)) [
    | inl (leaf, found) ↦
        subst (λ xs. IsLogOf xs l') (snoc-append p done es e)
          (admit_all-IsLogOf (done ++ e ∷ []) es (admit leaf l) l'
            (admit-IsLogOf done l e valid found) (ground (arith, found)))
    | inr (x, failed) ↦ absurd (ground (arith, failed))
  ]

  empty-IsLogOf : (operator : Bytes) → IsLogOf [] (empty_log p operator)
  unfolding lookup
  empty-IsLogOf operator = record {
    leaves = refl;
    indexed = λ x i. (λ a. absurd (cc a), λ b. absurd (cc b));
    admitted = λ i e a. absurd (cc a);
  }

  -- Let OpenLog open a store. Then the leaves are the IDs of the entries in order; the index maps a hash to a position
  -- exactly when the leaf at that position is the hash; and every entry is sealed by both parties, bound to
  -- this log, and corrects nothing or an entry before it.
  pub open_log-IsLogOf :
      (operator : Bytes) (s : Store) (l : Log) → open_log p operator s ≡ ok l → IsLogOf s l
  open_log-IsLogOf operator s l h =
      admit_all-IsLogOf [] s (empty_log p operator) l (empty-IsLogOf operator)
        (sym (open_log-admit_all p operator s (open_log-operator p operator s h)) ∙ h)

  -- A log that OpenLog has opened refuses an entry that it already holds, with the duplicate error.
  pub append-refuses_duplicate :
      (operator : Bytes) (s : Store) (l : Log) (i : ℕ) (e : Entry)
      → open_log p operator s ≡ ok l
      → get_elem? s i ≡ some e
      → append p e l s ≡ err duplicate_leaf
  unfolding append check
  append-refuses_duplicate operator s l i e h at_i =
      let valid = open_log-IsLogOf operator s l h in
      let ok_entry = valid.admitted i e at_i in
      let leaf_i : get_elem? l.leafs i ≡ some (entry_id p e) =
        rw valid.leaves (get_elem?-map (entry_id p) s i at_i) in
      let found = (valid.indexed (entry_id p e) i).1 leaf_i in
      let present = has-found (entry_id p e) l.index found in
      elim ok_entry.resolves [
        | inl plain ↦ ground (arith, present, ok_entry.sealed, ok_entry.bound, plain)
        | inr (j, before, at_j) ↦ ground (
          arith,
          present,
          ok_entry.sealed,
          ok_entry.bound,
          has-found e.corrects l.index ((valid.indexed e.corrects j).1 at_j),
        )
      ]
