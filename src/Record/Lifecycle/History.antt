-- ===== src/Record/Lifecycle/History.antt =====
-- OpenLifecycleLog as one pass over the stored transitions, its agreement with Append, and the course of each claim.
use cloudy.Prelude.{
  ℕ, suc, ◌≡◌, ◌≢◌, ◌≤◌, refl, sym, ap, subst, ◌∙◌, inl, inr, arith, Bool-cases, List, [], ◌∷◌,
  ◌++◌, length, length-append, ltb, ◌==◌, ℕ_discrete, if◌then◌else◌,
}
use mathlib.Core.List.{append-nil}
use cloudy.Prelude.Dict.{get, lookup, insert, lookup-insert}
use cloudy.Prelude.Bytes.{Bytes}
use cloudy.Prelude.Result.{Result, ok, ◌>>◌, Result-cases}
use cloudy.Primitives.{Hash, Primitives, public_key_size}
use cloudy.Record.Lifecycle.{
  Refusal, Transition, TransitionStore, LifecycleLog, persist_transition, transition_at, in_order,
  lifecycle_log_id, check_transition, admit_transition, replay_transitions, open_lifecycle_log,
  append_transition, claim_state,
}
use cloudy.Record.Lifecycle.Machine.{Course, unknown, in_order-Course}

-- The kinds of a claim's transitions, in order.
unfoldable pub kinds_of : Hash → List Transition → List ℕ
kinds_of c [] = []
kinds_of c (t ∷ ts) = let rest = kinds_of c ts in if t.claim == c then t.kind ∷ rest else rest

kinds_of-snoc_same :
    (c : Hash) (ts : List Transition) (t : Transition)
    → t.claim ≡ c
    → kinds_of c (ts ++ t ∷ []) ≡ kinds_of c ts ++ t.kind ∷ []
unfolding kinds_of
kinds_of-snoc_same c [] t h = ground arith
kinds_of-snoc_same c (x ∷ ts) t h = ground (arith, kinds_of-snoc_same c ts t h)

kinds_of-snoc_other :
    (c : Hash) (ts : List Transition) (t : Transition)
    → t.claim ≢ c
    → kinds_of c (ts ++ t ∷ []) ≡ kinds_of c ts
unfolding kinds_of
kinds_of-snoc_other c [] t h = ground arith
kinds_of-snoc_other c (x ∷ ts) t h = ground (arith, kinds_of-snoc_other c ts t h)

at-middle :
    (front back : TransitionStore) (t : Transition)
    → transition_at (length front) (front ++ t ∷ back) ≡ ok t
unfolding transition_at
at-middle [] back t = refl
at-middle (x ∷ front) back t = at-middle front back t

snoc-append :
    (front back : List Transition) (t : Transition) → (front ++ t ∷ []) ++ back ≡ front ++ t ∷ back
snoc-append [] back t = refl
snoc-append (x ∷ front) back t = ap (◌∷◌ x) (snoc-append front back t)

module _ (p : Primitives) where
  abbrev empty_lifecycle : Bytes → LifecycleLog
  empty_lifecycle operator = record {
    id = lifecycle_log_id p operator;
    leafs = [];
    index = [];
    state = [];
    claim = [];
    kinds = [];
  }

  -- One pass over the transitions.
  unfoldable admit_all : List Transition → LifecycleLog → Result Refusal LifecycleLog
  admit_all [] l = ok l
  admit_all (t ∷ ts) l = do check_transition p l t; admit_all ts (admit_transition p t l)

  replay-admit_all :
      (front back : TransitionStore) (l : LifecycleLog)
      → replay_transitions p (front ++ back) (length back) (length front) l ≡ admit_all back l
  unfolding replay_transitions admit_all
  replay-admit_all front [] l = refl
  replay-admit_all front (t ∷ back) l =
      let next : replay_transitions p (front ++ t ∷ back) (length back) (suc (length front))
            (admit_transition p t l)
          ≡ admit_all back (admit_transition p t l) =
        subst
          (λ s.
            replay_transitions p s (length back) (suc (length front)) (admit_transition p t l)
            ≡ admit_all back (admit_transition p t l))
          (snoc-append front back t)
          (subst
            (λ n.
              replay_transitions p ((front ++ t ∷ []) ++ back) (length back) n
                (admit_transition p t l)
              ≡ admit_all back (admit_transition p t l))
            (omega (arith, length-append front (t ∷ [])))
            (replay-admit_all (front ++ t ∷ []) back (admit_transition p t l))) in
      elim (Result-cases (check_transition p l t)) [
        | inl (_, h) ↦ ground (arith, at-middle front back t, h, next)
        | inr (x, h) ↦ ground (arith, at-middle front back t, h)
      ]

  open-admit_all :
      (operator : Bytes) (s : TransitionStore) {l : LifecycleLog}
      → open_lifecycle_log p operator s ≡ ok l
      → (length operator ≡ public_key_size) × (admit_all s (empty_lifecycle operator) ≡ ok l)
  unfolding open_lifecycle_log
  open-admit_all operator s h = elim (Bool-cases (length operator == public_key_size)) [
    | inl e ↦ (ground arith, ground (arith, replay-admit_all [] s (empty_lifecycle operator)))
    | inr e ↦ absurd (ground arith)
  ]

  opens :
      (operator : Bytes) (s : TransitionStore)
      → length operator ≡ public_key_size
      → open_lifecycle_log p operator s ≡ admit_all s (empty_lifecycle operator)
  unfolding open_lifecycle_log
  opens operator s h = ground (arith, replay-admit_all [] s (empty_lifecycle operator))

  append-steps :
      (t : Transition) (l l' : LifecycleLog) (s s' : TransitionStore) {seq : ℕ}
      → append_transition p t l s ≡ ok (seq, l', s')
      → (check_transition p l t ≡ ok tt)
        × (l' ≡ admit_transition p t l)
        × (s' ≡ s ++ t ∷ [])
        × (seq ≡ length l.leafs)
  unfolding append_transition persist_transition
  append-steps t l l' s s' h = elim (Result-cases (check_transition p l t)) [
    | inl (_, found) ↦ (found, ground (arith, found), ground (arith, found), ground (arith, found))
    | inr (e, failed) ↦ absurd (ground (arith, failed))
  ]

  IsHistory : List Transition → LifecycleLog → Type 0
  IsHistory done l = (c : Hash) → Course (kinds_of c done) (lookup c l.state)

  check-passed :
      (l : LifecycleLog) (t : Transition) {u : Unit {0}}
      → check_transition p l t ≡ ok u
      → (1 ≤ t.kind) × (t.kind ≤ 4) × (in_order (lookup t.claim l.state) t.kind ≡ ok tt)
  unfolding check_transition
  check-passed l t h = (ground arith, ground arith, ground arith)

  admit-IsHistory :
      (done : List Transition) (l : LifecycleLog) (t : Transition) {u : Unit {0}}
      → IsHistory done l
      → check_transition p l t ≡ ok u
      → IsHistory (done ++ t ∷ []) (admit_transition p t l)
  unfolding admit_transition IsHistory
  admit-IsHistory done l t ih h c = elim (ℕ_discrete t.claim c) [
    | yes same ↦
        let (low, high, order) = check-passed l t h in
        subst (λ ks. Course ks (lookup c (admit_transition p t l).state))
          (sym (kinds_of-snoc_same c done t same))
          (subst
            (λ x. Course (kinds_of c done ++ t.kind ∷ []) (
              lookup x (
                if ltb (get 0 t.claim l.state) t.kind
                then insert t.claim t.kind l.state
                else l.state)))
            same
            (in_order-Course (kinds_of c done) l.state t.claim t.kind
              (subst (λ x. Course (kinds_of c done) (lookup x l.state)) (sym same) (ih c)) low high
              order))
    | no other ↦
        subst (λ ks. Course ks (lookup c (admit_transition p t l).state))
          (sym (kinds_of-snoc_other c done t other))
          (subst (Course (kinds_of c done)) (ground (arith, lookup-insert t.claim c t.kind l.state))
            (ih c))
  ]

  admit_all-IsHistory :
      (done ts : List Transition) (l l' : LifecycleLog)
      → IsHistory done l
      → admit_all ts l ≡ ok l'
      → IsHistory (done ++ ts) l'
  unfolding admit_all
  admit_all-IsHistory done [] l l' ih h =
      subst (λ ts. IsHistory ts l') (sym (append-nil done)) (subst (IsHistory done) (same_log h) ih)
    where
      same_log : {a b : LifecycleLog} → ◌≡◌ {A = Result Refusal LifecycleLog} (ok a) (ok b) → a ≡ b
      same_log e = cc e
  admit_all-IsHistory done (t ∷ ts) l l' ih h = elim (Result-cases (check_transition p l t)) [
    | inl (_, found) ↦
        subst (λ xs. IsHistory xs l') (snoc-append done ts t)
          (admit_all-IsHistory (done ++ t ∷ []) ts (admit_transition p t l) l'
            (admit-IsHistory done l t ih found) (ground (arith, found)))
    | inr (x, failed) ↦ absurd (ground (arith, failed))
  ]

  -- Let OpenLifecycleLog open a store. Then the kinds of every claim's transitions, in the order of the store, are a
  -- course of the state machine, and State returns what the claim has reached on it: it is filed first and once,
  -- never adjudicated or resolved after it is resolved, and sealed only after it is resolved, and once.
  pub open_lifecycle_log-Course :
      (operator : Bytes) (s : TransitionStore) (l : LifecycleLog) (c : Hash)
      → open_lifecycle_log p operator s ≡ ok l
      → Course (kinds_of c s) (claim_state c l)
  unfolding claim_state IsHistory lookup kinds_of
  open_lifecycle_log-Course operator s l c h =
      admit_all-IsHistory [] s (empty_lifecycle operator) l (λ c. unknown)
        (open-admit_all operator s h).1 c

  admit_all-snoc :
      (ts : List Transition) (t : Transition) (l l' : LifecycleLog)
      → admit_all ts l ≡ ok l'
      → check_transition p l' t ≡ ok tt
      → admit_all (ts ++ t ∷ []) l ≡ ok (admit_transition p t l')
  unfolding admit_all
  admit_all-snoc [] t l l' h c = ground (arith, c)
  admit_all-snoc (x ∷ ts) t l l' h c = elim (Result-cases (check_transition p l x)) [
    | inl (_, found) ↦
        ground
          (arith, found, admit_all-snoc ts t (admit_transition p x l) l' (ground (arith, found)) c)
    | inr (e, failed) ↦ absurd (ground (arith, failed))
  ]

  -- Let OpenLifecycleLog open a store and Append accept a transition. Then OpenLifecycleLog opens the store with the
  -- transition as the same log that Append leaves.
  append_transition-reopens :
      (operator : Bytes) (t : Transition) (l l' : LifecycleLog) (s s' : TransitionStore) (seq : ℕ)
      → open_lifecycle_log p operator s ≡ ok l
      → append_transition p t l s ≡ ok (seq, l', s')
      → (open_lifecycle_log p operator s' ≡ ok l') × (seq ≡ length l.leafs)
  append_transition-reopens operator t l l' s s' seq opened h =
      let (key, before) = open-admit_all operator s opened in
      let (found, after, stored, position) = append-steps t l l' s s' h in
      (
        rw (stored, after)
            (opens operator (s ++ t ∷ []) key
              ∙ admit_all-snoc s t (empty_lifecycle operator) l before found),
        position,
      )
