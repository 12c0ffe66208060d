-- ===== src/Techtree/Tree/Search/Decides.antt =====
-- buildsOnReaches decides whether builds_on edges lead from one claim to another, with the fuel given.
use cloudy.Prelude.{
  ℕ, zero, suc, ◌+◌, ◌≡◌, ◌≢◌, ◌↔◌, ◌⊎◌, refl, sym, subst, inl, inr, arith, Bool, true, false,
  Bool-cases, List, [], ◌∷◌, some, Option-cases, length,
}
use cloudy.Primitives.{Hash}
use cloudy.Techtree.Tree.{Item, is_seen, push_edges, search_edges, builds_on_reaches}
use cloudy.Techtree.Tree.Search.{
  Builds, Reaches, edge, step, pending-le, Pushed, push_edges-none, is_seen-head, is_seen-tail,
  is_seen-cases, push_edges-Pushed, search_edges-ends,
}

-- The edges from what is seen lead to what is seen or waits, and not to the target.
abbrev Closed : Hash → List Item → List Hash → List Hash → Type 0
Closed target log seen stack =
    (a b : Hash)
    → is_seen a seen ≡ true
    → Builds log a b
    → (b ≢ target) × ((is_seen b seen ≡ true) ⊎ (is_seen b stack ≡ true))

-- A set that holds what was seen and what waited, that no edge leaves, and no edge leads to the target.
record Complete (target : Hash) (log : List Item) (seen stack : List Hash) : Type 0 where
  all : List Hash
  holds : (x : Hash) → (is_seen x seen ≡ true) ⊎ (is_seen x stack ≡ true) → is_seen x all ≡ true
  closed :
      (a b : Hash) → is_seen a all ≡ true → Builds log a b → (b ≢ target) × (is_seen b all ≡ true)

-- A claim that waits on the stack, where the first one has been seen before.
waits_or_seen :
    (n x : Hash) (stack seen : List Hash)
    → is_seen n seen ≡ true
    → is_seen x (n ∷ stack) ≡ true
    → (is_seen x seen ≡ true) ⊎ (is_seen x stack ≡ true)
waits_or_seen n x stack seen e s = elim (is_seen-cases x n stack s) [
  | inl same ↦ inl (subst (λ y. is_seen y seen ≡ true) same e)
  | inr old ↦ inr old
]

-- The same, where the first one is seen now.
moved :
    (n x : Hash) (stack pushed seen : List Hash)
    → ((y : Hash) → is_seen y stack ≡ true → is_seen y pushed ≡ true)
    → is_seen x (n ∷ stack) ≡ true
    → (is_seen x (n ∷ seen) ≡ true) ⊎ (is_seen x pushed ≡ true)
moved n x stack pushed seen kept s = elim (is_seen-cases x n stack s) [
  | inl same ↦ inl (subst (λ y. is_seen y (n ∷ seen) ≡ true) same (is_seen-head n seen))
  | inr old ↦ inr (kept x old)
]

Closed-push :
    (n target : Hash) (log : List Item) (seen stack pushed : List Hash)
    → Pushed n target log stack pushed
    → Closed target log seen (n ∷ stack)
    → Closed target log (n ∷ seen) pushed
Closed-push n target log seen stack pushed p c a b s k = elim (is_seen-cases a n seen s) [
  | inl same ↦
      let (ne, onward) = p.ends b (subst (λ y. Builds log y b) (sym same) k) in (ne, inr onward)
  | inr old ↦
      let (ne, onward) = c a b old k in
      (
        ne,
        elim onward [
          | inl t ↦ inl (is_seen-tail b n seen t)
          | inr t ↦ moved n b stack pushed seen p.kept t
        ],
      )
]

module _ (target : Hash) (log : List Item) where
  search_edges-false :
      (f : ℕ) (seen stack : List Hash)
      → Closed target log seen stack
      → search_edges f target log seen stack ≡ some false
      → Complete target log seen stack
  unfolding search_edges
  search_edges-false zero seen stack c h = absurd (cc h)
  search_edges-false (suc f) seen [] c h = record {
    all = seen;
    holds = λ x k. elim k [ inl s ↦ s | inr s ↦ absurd (nothing_waits x s) ];
    closed = λ a b s k.
        let (ne, onward) = c a b s k in
        (ne, elim onward [ inl t ↦ t | inr t ↦ absurd (nothing_waits b t) ]);
  }
    where
      nothing_waits : (x : Hash) → is_seen x [] ≡ true → ⊥
      nothing_waits x s = unfold is_seen in ground (arith, s)
  search_edges-false (suc f) seen (n ∷ stack) c h = elim (Bool-cases (is_seen n seen)) [
    | inl e ↦
        let below : Closed target log seen stack = λ a b s k.
          let (ne, onward) = c a b s k in
          (ne, elim onward [ inl t ↦ inl t | inr t ↦ waits_or_seen n b stack seen e t ]) in
        let rest = search_edges-false f seen stack below (ground (arith, e)) in
        record {
          all = rest.all;
          holds = λ x k. elim k [
            | inl s ↦ rest.holds x (inl s)
            | inr s ↦ rest.holds x (waits_or_seen n x stack seen e s)
          ];
          closed = rest.closed;
        }
    | inr e ↦ elim (Option-cases (push_edges n target log stack)) [
      | inl found ↦ absurd (ground (arith, e, found))
      | inr (pushed, more) ↦
          let p = push_edges-Pushed n target log stack pushed more in
          let rest =
            search_edges-false f (n ∷ seen) pushed (Closed-push n target log seen stack pushed p c)
              (ground (arith, e, more)) in
          record {
            all = rest.all;
            holds = λ x k. elim k [
              | inl s ↦ rest.holds x (inl (is_seen-tail x n seen s))
              | inr s ↦ rest.holds x (moved n x stack pushed seen p.kept s)
            ];
            closed = rest.closed;
          }
    ]
  ]

  Reaches-snoc : (a b c : Hash) → Reaches log a b → Builds log b c → Reaches log a c
  Reaches-snoc a b c (edge _ _ e) k = step a b c e (edge b c k)
  Reaches-snoc a b c (step _ d _ e r) k = step a d c e (Reaches-snoc d b c r k)

  -- All that waits is the start or is reached from it.
  abbrev From : Hash → List Hash → Type 0
  From start stack = (x : Hash) → is_seen x stack ≡ true → (start ≡ x) ⊎ Reaches log start x

  extend :
      (start n x : Hash) → (start ≡ n) ⊎ Reaches log start n → Builds log n x → Reaches log start x
  extend start n x (inl same) k = edge start x (subst (λ y. Builds log y x) (sym same) k)
  extend start n x (inr r) k = Reaches-snoc start n x r k

  search_edges-true :
      (f : ℕ) (start : Hash) (seen stack : List Hash)
      → From start stack
      → search_edges f target log seen stack ≡ some true
      → Reaches log start target
  unfolding search_edges
  search_edges-true zero start seen stack c h = absurd (cc h)
  search_edges-true (suc f) start seen [] c h = absurd (cc h)
  search_edges-true (suc f) start seen (n ∷ stack) c h = elim (Bool-cases (is_seen n seen)) [
    | inl e ↦
        search_edges-true f start seen stack (λ x s. c x (is_seen-tail x n stack s))
          (ground (arith, e))
    | inr e ↦ elim (Option-cases (push_edges n target log stack)) [
      | inl found ↦
          extend start n target (c n (is_seen-head n stack))
            (push_edges-none n target log stack found)
      | inr (pushed, more) ↦
          let p = push_edges-Pushed n target log stack pushed more in
          search_edges-true f start (n ∷ seen) pushed
            (λ x s. elim (p.only x s) [
              | inl old ↦ c x (is_seen-tail x n stack old)
              | inr k ↦ inr (extend start n x (c n (is_seen-head n stack)) k)
            ])
            (ground (arith, e, more))
    ]
  ]

  Complete-Reaches :
      (start : Hash) (k : Complete target log [] (start ∷ [])) (a : Hash)
      → is_seen a k.all ≡ true
      → Reaches log a target
      → ⊥
  Complete-Reaches start k a s (edge _ _ e) = (k.closed a target s e).0 refl
  Complete-Reaches start k a s (step _ b _ e r) = Complete-Reaches start k b (k.closed a b s e).1 r

  -- The loop of buildsOnReaches ends within its fuel, and what buildsOnReaches returns is true exactly when the two
  -- claims are one or builds_on edges of the log lead from the first to the second.
  pub builds_on_reaches_iff :
      (start : Hash)
      → ((b : Bool) × (search_edges (length log + 2) target log [] (start ∷ []) ≡ some b))
        × ((builds_on_reaches log start target ≡ true)
            ↔ ((start ≡ target) ⊎ Reaches log start target))
  builds_on_reaches_iff start =
      let (b, ends) =
        search_edges-ends (length log + 2) target log [] (start ∷ [])
          (omega (arith, pending-le [] log)) in
      ((b, ends), (to b ends, from b ends))
    where
      starts : From start (start ∷ [])
      starts x s = elim (is_seen-cases x start [] s) [
        | inl same ↦ inl same
        | inr none_left ↦ absurd (unfold is_seen in ground (arith, none_left))
      ]

      nothing_seen : Closed target log [] (start ∷ [])
      nothing_seen a b s k = absurd (unfold is_seen in ground (arith, s))

      to :
          (b : Bool)
          → search_edges (length log + 2) target log [] (start ∷ []) ≡ some b
          → builds_on_reaches log start target ≡ true
          → (start ≡ target) ⊎ Reaches log start target
      to true ends h = inr (search_edges-true (length log + 2) start [] (start ∷ []) starts ends)
      to false ends h = inl (unfold builds_on_reaches in ground (arith, ends, h))

      from :
          (b : Bool)
          → search_edges (length log + 2) target log [] (start ∷ []) ≡ some b
          → (start ≡ target) ⊎ Reaches log start target
          → builds_on_reaches log start target ≡ true
      from b ends (inl same) = unfold builds_on_reaches in ground (arith, same)
      from true ends (inr r) = unfold builds_on_reaches in ground (arith, ends)
      from false ends (inr r) =
          let k = search_edges-false (length log + 2) [] (start ∷ []) nothing_seen ends in
          absurd (Complete-Reaches start k start (k.holds start (inr (is_seen-head start []))) r)
