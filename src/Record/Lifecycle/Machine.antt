-- ===== src/Record/Lifecycle/Machine.antt =====
-- The course of one claim, as a state machine, and that the log's test keeps to it.
use cloudy.Prelude.{
  ℕ, ◌≡◌, ◌≤◌, ◌<◌, arith, subst, sym, Bool-cases, inl, inr, List, [], ◌∷◌, ◌++◌, Option, none,
  some, Option-cases, ltb, ◌==◌, if◌then◌else◌,
}
use cloudy.Prelude.Dict.{Dict, get, lookup, insert, lookup-insert, get-lookup}
use cloudy.Prelude.Result.{ok}
use cloudy.Record.Lifecycle.{kind_filed, kind_adjudicated, kind_resolved, kind_sealed, in_order}

-- The kinds of a claim's transitions, in order, and the one it has reached: it is filed once and first,
-- adjudicated any number of times before it is resolved, resolved once, and then sealed at most once.
pub data Course : List ℕ → Option ℕ → Type 0 where
  unknown : Course [] none
  file : Course (kind_filed ∷ []) (some kind_filed)
  adjudicate :
      (ks : List ℕ) (last : ℕ)
      → Course ks (some last)
      → last < kind_resolved
      → Course (ks ++ kind_adjudicated ∷ []) (some kind_adjudicated)
  resolve :
      (ks : List ℕ) (last : ℕ)
      → Course ks (some last)
      → last < kind_resolved
      → Course (ks ++ kind_resolved ∷ []) (some kind_resolved)
  seal :
      (ks : List ℕ)
      → Course ks (some kind_resolved)
      → Course (ks ++ kind_sealed ∷ []) (some kind_sealed)

first-Course :
    (ks : List ℕ) (kind : ℕ)
    → Course ks none
    → kind ≡ kind_filed
    → Course (ks ++ kind ∷ []) (some kind)
first-Course _ kind unknown h = subst (λ n. Course (n ∷ []) (some n)) (sym h) file

next-Course :
    (ks : List ℕ) (last kind : ℕ)
    → Course ks (some last)
    → 1 ≤ kind
    → kind ≤ 4
    → in_order (some last) kind ≡ ok tt
    → Course (ks ++ kind ∷ []) (some kind) × (last ≤ kind)
unfolding in_order
next-Course ks last kind c low high h = elim (Bool-cases (kind == 2)) [
  | inl two ↦
      let same : kind ≡ 2 = ground arith in
      let before : last < 3 = ground arith in
      (
        subst (λ n. Course (ks ++ n ∷ []) (some n)) (sym same) (adjudicate ks last c before),
        omega arith,
      )
  | inr not_two ↦ elim (Bool-cases (kind == 3)) [
    | inl three ↦
        let same : kind ≡ 3 = ground arith in
        let before : last < 3 = ground arith in
        (
          subst (λ n. Course (ks ++ n ∷ []) (some n)) (sym same) (resolve ks last c before),
          omega arith,
        )
    | inr not_three ↦
        let same : kind ≡ 4 = ground arith in
        let reached : last ≡ 3 = ground arith in
        (
          subst (λ n. Course (ks ++ n ∷ []) (some n)) (sym same)
              (seal ks (subst (λ n. Course ks (some n)) reached c)),
          omega arith,
        )
  ]
]

-- A transition that is in order goes on with the course, and the state that admit writes is its kind.
pub in_order-Course :
    (ks : List ℕ) (state : Dict ℕ) (claim kind : ℕ)
    → Course ks (lookup claim state)
    → 1 ≤ kind
    → kind ≤ 4
    → in_order (lookup claim state) kind ≡ ok tt
    → Course
        (ks ++ kind ∷ [])
        (lookup claim (if ltb (get 0 claim state) kind then insert claim kind state else state))
in_order-Course ks state claim kind c low high h = elim (Option-cases (lookup claim state)) [
  | inl e ↦
      let first : kind ≡ kind_filed = unfold in_order in ground (arith, h, e) in
      subst (Course (ks ++ kind ∷ [])) (sym (written e h low))
        (first-Course ks kind (subst (Course ks) e c) first)
  | inr (last, e) ↦
      let (next, grows) =
        next-Course ks last kind (subst (Course ks) e c) low high
          (subst (λ o. in_order o kind ≡ ok tt) e h) in
      subst (Course (ks ++ kind ∷ [])) (sym (kept e grows)) next
]
  where
    written :
        lookup claim state ≡ none
        → in_order (lookup claim state) kind ≡ ok tt
        → 1 ≤ kind
        → lookup claim (if ltb (get 0 claim state) kind then insert claim kind state else state)
          ≡ some kind
    written e h low =
        ground (arith, get-lookup 0 claim state, e, lookup-insert claim claim kind state)

    kept :
        {last : ℕ}
        → lookup claim state ≡ some last
        → last ≤ kind
        → lookup claim (if ltb (get 0 claim state) kind then insert claim kind state else state)
          ≡ some kind
    kept e grows = ground (arith, get-lookup 0 claim state, e, lookup-insert claim claim kind state)
