-- ===== src/Techtree/Tree/Search.antt =====
-- What the loops of buildsOnReaches do: the inner one pushes the ends of a claim's edges, and the outer one
-- comes to its end within the fuel given.
pub mod Decides
use cloudy.Prelude.{
  ℕ, zero, suc, ◌+◌, ◌≡◌, ◌≢◌, ◌≤◌, ◌<◌, ◌↔◌, ◌⊎◌, refl, sym, ap, subst, ◌∙◌, inl, inr, arith, Bool,
  true, false, not, Bool-cases, List, [], ◌∷◌, Option, none, some, Option-cases, length, ◌==◌,
  ℕ_discrete, if◌then◌else◌,
}
use text.Mathlib.Text.{◌==◌ as str_eq}
use cloudy.Primitives.{Hash}
use cloudy.Techtree.Claim.{ref_builds_on}
use cloudy.Techtree.Tree.{Item, is_seen, builds_from, push_edges, search_edges, builds_on_reaches}

-- The log holds a builds_on edge between the two claims.
pub data Builds : List Item → Hash → Hash → Type 0 where
  here :
      (it : Item) (log : List Item) (a b : Hash) → builds_from a it ≡ some b → Builds (it ∷ log) a b
  there : (it : Item) (log : List Item) (a b : Hash) → Builds log a b → Builds (it ∷ log) a b

-- One or more builds_on edges lead from the one claim to the other.
pub data Reaches (log : List Item) : Hash → Hash → Type 0 where
  edge : (a b : Hash) → Builds log a b → Reaches log a b
  step : (a b c : Hash) → Builds log a b → Reaches log b c → Reaches log a c

-- The number of edges from a claim, and of those from claims that are not seen.
unfoldable pub out : Hash → List Item → ℕ
out n [] = 0
out n (it ∷ log) = elim (builds_from n it) [ none ↦ out n log | some _ ↦ suc (out n log) ]

unfoldable pub source : Item → Option Hash
source it = elim it.reference [
  | none ↦ none
  | some r ↦ if not (str_eq r.kind ref_builds_on) then none else some r.from
]

unfoldable pub pending : List Hash → List Item → ℕ
unfolding source
pending seen [] = 0
pending seen (it ∷ log) = elim (source it) [
  | none ↦ pending seen log
  | some a ↦ elim (is_seen a seen) [ true ↦ pending seen log | false ↦ suc (pending seen log) ]
]

pub pending-le : (seen : List Hash) (log : List Item) → pending seen log ≤ length log
unfolding pending
pending-le seen [] = omega arith
pending-le seen (it ∷ log) = ground (arith, pending-le seen log)

pending-out :
    (n : Hash) (seen : List Hash) (log : List Item)
    → is_seen n seen ≡ false
    → pending (n ∷ seen) log + out n log ≡ pending seen log
unfolding pending out source builds_from is_seen
pending-out n seen [] h = omega arith
pending-out n seen (it ∷ log) h = elim (Option-cases it.reference) [
  | inl e ↦ ground (arith, e, pending-out n seen log h)
  | inr (r, e) ↦ elim (Bool-cases (r.from == n)) [
    | inl k ↦
        let same : r.from ≡ n = ground arith in ground (arith, e, pending-out n seen log h, same)
    | inr k ↦ ground (arith, e, pending-out n seen log h)
  ]
]

-- What the inner loop does when it comes to its end.
pub record Pushed (n target : Hash) (log : List Item) (stack pushed : List Hash) : Type 0 where
  pub longer : length pushed ≡ length stack + out n log
  pub kept : (x : Hash) → is_seen x stack ≡ true → is_seen x pushed ≡ true
  pub ends : (b : Hash) → Builds log n b → (b ≢ target) × (is_seen b pushed ≡ true)
  pub only : (x : Hash) → is_seen x pushed ≡ true → (is_seen x stack ≡ true) ⊎ Builds log n x

pub push_edges-none :
    (n target : Hash) (log : List Item) (stack : List Hash)
    → push_edges n target log stack ≡ none
    → Builds log n target
unfolding push_edges
push_edges-none n target [] stack h = absurd (cc h)
push_edges-none n target (it ∷ log) stack h = elim (Option-cases (builds_from n it)) [
  | inl e ↦ there it log n target (push_edges-none n target log stack (ground (arith, e)))
  | inr (end, e) ↦ elim (ℕ_discrete end target) [
    | yes same ↦ here it log n target (e ∙ ap some same)
    | no other ↦
        there it log n target (push_edges-none n target log (end ∷ stack) (ground (arith, e)))
  ]
]

same_end : {a b : Hash} → some a ≡ some b → a ≡ b
same_end h = cc h

same_stack : {a b : List Hash} → some a ≡ some b → a ≡ b
same_stack h = cc h

pub is_seen-head : (x : Hash) (xs : List Hash) → is_seen x (x ∷ xs) ≡ true
unfolding is_seen
is_seen-head x xs = ground arith

pub is_seen-tail : (x y : Hash) (xs : List Hash) → is_seen x xs ≡ true → is_seen x (y ∷ xs) ≡ true
unfolding is_seen
is_seen-tail x y xs h = ground arith

pub is_seen-cases :
    (x y : Hash) (xs : List Hash) → is_seen x (y ∷ xs) ≡ true → (y ≡ x) ⊎ (is_seen x xs ≡ true)
unfolding is_seen
is_seen-cases x y xs h = elim (ℕ_discrete y x) [ yes e ↦ inl e | no n ↦ inr (ground arith) ]

-- An item whose edge does not start at `n` changes nothing; one whose edge does adds its end.
Pushed-skip :
    (n target : Hash) (it : Item) (log : List Item) (stack pushed : List Hash)
    → builds_from n it ≡ none
    → Pushed n target log stack pushed
    → Pushed n target (it ∷ log) stack pushed
unfolding out
Pushed-skip n target it log stack pushed e h = record {
  longer = ground (arith, h.longer);
  kept = h.kept;
  ends = ends;
  only = λ x k. elim (h.only x k) [ inl s ↦ inl s | inr b ↦ inr (there it log n x b) ];
}
  where
    ends : (b : Hash) → Builds (it ∷ log) n b → (b ≢ target) × (is_seen b pushed ≡ true)
    ends b (here _ _ _ _ k) = absurd (cc (e, k))
    ends b (there _ _ _ _ k) = h.ends b k

Pushed-push :
    (n target end : Hash) (it : Item) (log : List Item) (stack pushed : List Hash)
    → builds_from n it ≡ some end
    → end ≢ target
    → Pushed n target log (end ∷ stack) pushed
    → Pushed n target (it ∷ log) stack pushed
unfolding out
Pushed-push n target end it log stack pushed e ne h = record {
  longer = ground (arith, h.longer);
  kept = λ x k. h.kept x (is_seen-tail x end stack k);
  ends = ends;
  only = λ x k. elim (h.only x k) [
    | inl s ↦ elim (is_seen-cases x end stack s) [
      | inl same ↦ inr (here it log n x (e ∙ ap some same))
      | inr old ↦ inl old
    ]
    | inr b ↦ inr (there it log n x b)
  ];
}
  where
    ends : (b : Hash) → Builds (it ∷ log) n b → (b ≢ target) × (is_seen b pushed ≡ true)
    ends b (here _ _ _ _ k) =
        subst (λ x. (x ≢ target) × (is_seen x pushed ≡ true)) (same_end (sym e ∙ k))
          (ne, h.kept end (is_seen-head end stack))
    ends b (there _ _ _ _ k) = h.ends b k

pub push_edges-Pushed :
    (n target : Hash) (log : List Item) (stack pushed : List Hash)
    → push_edges n target log stack ≡ some pushed
    → Pushed n target log stack pushed
unfolding push_edges
push_edges-Pushed n target [] stack pushed h =
    subst (Pushed n target [] stack) (same_stack h) (record {
      longer = unfold out in omega arith;
      kept = λ x k. k;
      ends = none_left;
      only = λ x k. inl k;
    })
  where
    none_left : (b : Hash) → Builds [] n b → (b ≢ target) × (is_seen b stack ≡ true)
    none_left b k = elim k [ ]
push_edges-Pushed n target (it ∷ log) stack pushed h = elim (Option-cases (builds_from n it)) [
  | inl e ↦
      Pushed-skip n target it log stack pushed e
        (push_edges-Pushed n target log stack pushed (ground (arith, e)))
  | inr (end, e) ↦ elim (ℕ_discrete end target) [
    | yes same ↦ absurd (ground (arith, e))
    | no other ↦
        Pushed-push n target end it log stack pushed e other
          (push_edges-Pushed n target log (end ∷ stack) pushed (ground (arith, e)))
  ]
]

-- The loop ends within the fuel: each turn lowers the stack and the edges not yet seen together.
pub search_edges-ends :
    (f : ℕ) (target : Hash) (log : List Item) (seen stack : List Hash)
    → length stack + pending seen log < f
    → (b : Bool) × (search_edges f target log seen stack ≡ some b)
unfolding search_edges
search_edges-ends zero target log seen stack h = absurd (omega arith)
search_edges-ends (suc f) target log seen [] h = (false, refl)
search_edges-ends (suc f) target log seen (n ∷ stack) h = elim (Bool-cases (is_seen n seen)) [
  | inl e ↦
      let (b, k) = search_edges-ends f target log seen stack (omega arith) in
      (b, ground (arith, e, k))
  | inr e ↦ elim (Option-cases (push_edges n target log stack)) [
    | inl found ↦ (true, ground (arith, e, found))
    | inr (pushed, more) ↦
        let longer = (push_edges-Pushed n target log stack pushed more).longer in
        let fewer = pending-out n seen log e in
        let (b, k) =
          search_edges-ends f target log (n ∷ seen) pushed (omega (arith, longer, fewer)) in
        (b, ground (arith, e, more, k))
  ]
]
