-- ===== src/Record/Tree/Lists.antt =====
-- Lists that are cut in two, and lists that are read from the end.
use mathlib.Core.Path.{ap₂}
use native.Mathlib.Nat.{sub-zero, suc-sub-suc}
use cloudy.Prelude.{
  ℕ, zero, suc, ◌-◌, ◌≡◌, ◌≤◌, ◌<◌, refl, ap, sym, ◌∙◌, take-append-drop, arith, List, [], ◌∷◌,
  ◌++◌, none, some, inl, inr, Option-cases, length, take, drop, get_elem?,
}
use cloudy.Record.Tree.{unsnoc}

module _ {ℓ} {A : Type ℓ} where
  pub unsnoc-snoc : (xs : List A) (x : A) → unsnoc (xs ++ x ∷ []) ≡ some (xs, x)
  unfolding unsnoc
  unsnoc-snoc [] x = refl
  unsnoc-snoc (y ∷ xs) x = rw (unsnoc-snoc xs x)

  nil_of_unsnoc : (xs : List A) → unsnoc xs ≡ none → xs ≡ []
  unfolding unsnoc
  nil_of_unsnoc [] h = refl
  nil_of_unsnoc (x ∷ xs) h = absurd (ground arith)

  pub snoc-unsnoc :
      (xs : List A) {ys : List A} {y : A} → unsnoc xs ≡ some (ys, y) → xs ≡ ys ++ y ∷ []
  unfolding unsnoc
  snoc-unsnoc [] h = cc
  snoc-unsnoc (x ∷ xs) {ys} {y} h = elim (Option-cases (unsnoc xs)) [
    | inl nothing ↦ ground (arith, nothing, nil_of_unsnoc xs nothing)
    | inr ((zs, z), found) ↦ ground (arith, found, snoc-unsnoc xs found)
  ]

  pub get_elem?-take : (k i : ℕ) (xs : List A) → i < k → get_elem? (take k xs) i ≡ get_elem? xs i
  get_elem?-take zero i xs h = absurd (omega arith)
  get_elem?-take (suc k) i [] h = refl
  get_elem?-take (suc k) zero (x ∷ xs) h = refl
  get_elem?-take (suc k) (suc i) (x ∷ xs) h = get_elem?-take k i xs (omega arith)

  pub get_elem?-drop :
      (k i : ℕ) (xs : List A) → k ≤ i → get_elem? (drop k xs) (i - k) ≡ get_elem? xs i
  get_elem?-drop zero i xs h = rw sub-zero
  get_elem?-drop (suc k) i [] h = refl
  get_elem?-drop (suc k) zero (x ∷ xs) h = absurd (omega arith)
  get_elem?-drop (suc k) (suc i) (x ∷ xs) h = rw suc-sub-suc (get_elem?-drop k i xs (omega arith))

  pub get_elem?-lt : (xs : List A) (i : ℕ) {x : A} → get_elem? xs i ≡ some x → i < length xs
  get_elem?-lt [] i h = cc
  get_elem?-lt (y ∷ xs) zero h = omega arith
  get_elem?-lt (y ∷ xs) (suc i) h = omega (arith, get_elem?-lt xs i h)

  pub take-take : (m k : ℕ) (xs : List A) → m ≤ k → take m (take k xs) ≡ take m xs
  take-take zero k xs h = refl
  take-take (suc m) zero xs h = absurd (omega arith)
  take-take (suc m) (suc k) [] h = refl
  take-take (suc m) (suc k) (x ∷ xs) h = ap (◌∷◌ x) (take-take m k xs (omega arith))

  pub drop-take : (k m : ℕ) (xs : List A) → k ≤ m → drop k (take m xs) ≡ take (m - k) (drop k xs)
  drop-take zero m xs h = rw sub-zero
  drop-take (suc k) zero xs h = absurd (omega arith)
  drop-take (suc k) (suc m) [] h = sym (take-nil (suc m - suc k))
    where
      take-nil : (n : ℕ) → take {A = A} n [] ≡ []
      take-nil zero = refl
      take-nil (suc n) = refl
  drop-take (suc k) (suc m) (x ∷ xs) h = rw suc-sub-suc (drop-take k m xs (omega arith))

  pub take_of_length-le : (m : ℕ) (xs : List A) → length xs ≤ m → take m xs ≡ xs
  take_of_length-le zero [] h = refl
  take_of_length-le zero (x ∷ xs) h = absurd (omega arith)
  take_of_length-le (suc m) [] h = refl
  take_of_length-le (suc m) (x ∷ xs) h = ap (◌∷◌ x) (take_of_length-le m xs (omega arith))

  -- Lists that agree before and from a position on are equal.
  pub eq-of-parts :
      (k : ℕ) (xs ys : List A) → take k xs ≡ take k ys → drop k xs ≡ drop k ys → xs ≡ ys
  eq-of-parts k xs ys h h' = sym (take-append-drop k xs) ∙ (ap₂ ◌++◌ h h' ∙ take-append-drop k ys)
