-- ===== src/Record/Tree/Hashed.antt =====
-- Which pairs of hashes the functions of tree.go pass to nodeHash, and that all of them are 32-byte arrays.
use cloudy.Prelude.{
  ℕ, ◌/◌, ◌%◌, ◌^◌, ap, sym, ◌∙◌, Option, zero, suc, ◌-◌, ◌≡◌, ◌≤◌, ◌<◌, inl, inr, subst, List, [],
  ◌∷◌, some, Option-cases, Bool, false, length, take, drop, arith,
}
use cloudy.Prelude.Bytes.{Bytes, be_bytes}
use cloudy.Primitives.{Hash, hash_bytes, IsHash, IsDigest, Primitives}
use cloudy.Record.Tree.{
  largest_pow2_lt, unsnoc, node_hash, mth_fuel, mth, root_from_path_fuel, cons_roots_fuel,
}
use cloudy.Record.Tree.Lists.{unsnoc-snoc}

abbrev pub AllHash : List Hash → Type 0
AllHash [] = Unit
AllHash (x ∷ xs) = IsHash x × AllHash xs

AllHash-take : (k : ℕ) (xs : List Hash) → AllHash xs → AllHash (take k xs)
AllHash-take zero xs h = tt
AllHash-take (suc k) [] h = tt
AllHash-take (suc k) (x ∷ xs) h = (h.0, AllHash-take k xs h.1)

AllHash-drop : (k : ℕ) (xs : List Hash) → AllHash xs → AllHash (drop k xs)
AllHash-drop zero xs h = h
AllHash-drop (suc k) [] h = tt
AllHash-drop (suc k) (x ∷ xs) h = AllHash-drop k xs h.1

pub AllHash-unsnoc :
    (xs : List Hash) {rest : List Hash} {last : Hash}
    → AllHash xs
    → unsnoc xs ≡ some (rest, last)
    → AllHash rest × IsHash last
unfolding unsnoc
AllHash-unsnoc [] h e = absurd (ground arith)
AllHash-unsnoc (x ∷ xs) {rest} {last} h e = elim (Option-cases (unsnoc xs)) [
  | inl none_left ↦
      let same : ◌≡◌ {A = List Hash × Hash} ([], x) (rest, last) = ground arith in
      subst (λ r. AllHash r.0 × IsHash r.1) same (tt, h.0)
  | inr ((front, z), found) ↦
      let same : ◌≡◌ {A = List Hash × Hash} (x ∷ front, z) (rest, last) = ground arith in
      let (fits, end) = AllHash-unsnoc xs h.1 found in
      subst (λ r. AllHash r.0 × IsHash r.1) same ((h.0, fits), end)
]

-- The bytes of an array spell one number.
be_bytes-injective : (w a b : ℕ) → a < 256 ^ w → b < 256 ^ w → be_bytes w a ≡ be_bytes w b → a ≡ b
unfolding be_bytes
be_bytes-injective zero a b h k e = omega (arith, h, k)
be_bytes-injective (suc w) a b h k e =
    let split : ◌≡◌ {A = Option (Bytes × ℕ)} (some (be_bytes w (a / 256), a % 256))
        (some (be_bytes w (b / 256), b % 256)) =
      sym (unsnoc-snoc (be_bytes w (a / 256)) (a % 256))
      ∙ (ap unsnoc e ∙ unsnoc-snoc (be_bytes w (b / 256)) (b % 256)) in
    let low : a % 256 ≡ b % 256 = ground (arith, split) in
    let high : be_bytes w (a / 256) ≡ be_bytes w (b / 256) = ground (arith, split) in
    let rest =
      be_bytes-injective w (a / 256) (b / 256) (omega (arith, h)) (omega (arith, k)) high in
    omega (arith, low, rest)

pub hash_bytes-injective : (a b : Hash) → IsHash a → IsHash b → hash_bytes a ≡ hash_bytes b → a ≡ b
hash_bytes-injective = be_bytes-injective 32

module _ (p : Primitives) where
  -- The pairs that mth hashes over the leaves.
  pub data InTree : List Hash → Hash → Hash → Type 0 where
    in_root :
        (xs : List Hash) (a b : Hash) (k : ℕ)
        → 2 ≤ length xs
        → largest_pow2_lt (length xs) ≡ some k
        → a ≡ mth p (take k xs)
        → b ≡ mth p (drop k xs)
        → InTree xs a b
    in_take :
        (xs : List Hash) (a b : Hash) (k : ℕ)
        → 2 ≤ length xs
        → largest_pow2_lt (length xs) ≡ some k
        → InTree (take k xs) a b
        → InTree xs a b
    in_drop :
        (xs : List Hash) (a b : Hash) (k : ℕ)
        → 2 ≤ length xs
        → largest_pow2_lt (length xs) ≡ some k
        → InTree (drop k xs) a b
        → InTree xs a b

  -- The pairs that rootFromPath hashes for a leaf, a position, a size and a path.
  pub data InPath (leaf : Hash) : ℕ → ℕ → List Hash → Hash → Hash → Type 0 where
    at_left :
        (seq size : ℕ) (path : List Hash) (a b : Hash) (r k : ℕ) (rest : List Hash)
        → unsnoc path ≡ some (rest, b)
        → 2 ≤ size
        → largest_pow2_lt size ≡ some k
        → seq < k
        → root_from_path_fuel p r leaf seq k rest ≡ some a
        → InPath leaf seq size path a b
    at_right :
        (seq size : ℕ) (path : List Hash) (a b : Hash) (r k : ℕ) (rest : List Hash)
        → unsnoc path ≡ some (rest, a)
        → 2 ≤ size
        → largest_pow2_lt size ≡ some k
        → k ≤ seq
        → root_from_path_fuel p r leaf (seq - k) (size - k) rest ≡ some b
        → InPath leaf seq size path a b
    under_left :
        (seq size : ℕ) (path : List Hash) (a b : Hash) (k : ℕ) (rest : List Hash) (sibling : Hash)
        → unsnoc path ≡ some (rest, sibling)
        → 2 ≤ size
        → largest_pow2_lt size ≡ some k
        → seq < k
        → InPath leaf seq k rest a b
        → InPath leaf seq size path a b
    under_right :
        (seq size : ℕ) (path : List Hash) (a b : Hash) (k : ℕ) (rest : List Hash) (sibling : Hash)
        → unsnoc path ≡ some (rest, sibling)
        → 2 ≤ size
        → largest_pow2_lt size ≡ some k
        → k ≤ seq
        → InPath leaf (seq - k) (size - k) rest a b
        → InPath leaf seq size path a b

  -- The pairs that consRoots hashes for two sizes, its flag and a proof, from the older head that it is given.
  pub data InCons (seed : Hash) : ℕ → ℕ → Bool → List Hash → Hash → Hash → Type 0 where
    old_and_new :
        (m n : ℕ) (c : Bool) (proof : List Hash) (a b : Hash) (r k : ℕ) (front rest : List Hash)
        (old : Hash)
        → unsnoc proof ≡ some (front, b)
        → m < n
        → largest_pow2_lt n ≡ some k
        → m ≤ k
        → cons_roots_fuel p r m k c front seed ≡ some (old, a, rest)
        → InCons seed m n c proof a b
    old_only :
        (m n : ℕ) (c : Bool) (proof : List Hash) (a b : Hash) (r k : ℕ) (front rest : List Hash)
        (new : Hash)
        → unsnoc proof ≡ some (front, a)
        → m < n
        → largest_pow2_lt n ≡ some k
        → k < m
        → cons_roots_fuel p r (m - k) (n - k) false front seed ≡ some (b, new, rest)
        → InCons seed m n c proof a b
    new_only :
        (m n : ℕ) (c : Bool) (proof : List Hash) (a b : Hash) (r k : ℕ) (front rest : List Hash)
        (old : Hash)
        → unsnoc proof ≡ some (front, a)
        → m < n
        → largest_pow2_lt n ≡ some k
        → k < m
        → cons_roots_fuel p r (m - k) (n - k) false front seed ≡ some (old, b, rest)
        → InCons seed m n c proof a b
    in_front :
        (m n : ℕ) (c : Bool) (proof : List Hash) (a b : Hash) (k : ℕ) (front : List Hash)
        (last : Hash)
        → unsnoc proof ≡ some (front, last)
        → m < n
        → largest_pow2_lt n ≡ some k
        → m ≤ k
        → InCons seed m k c front a b
        → InCons seed m n c proof a b
    in_back :
        (m n : ℕ) (c : Bool) (proof : List Hash) (a b : Hash) (k : ℕ) (front : List Hash)
        (last : Hash)
        → unsnoc proof ≡ some (front, last)
        → m < n
        → largest_pow2_lt n ≡ some k
        → k < m
        → InCons seed (m - k) (n - k) false front a b
        → InCons seed m n c proof a b

  module _ (digests : IsDigest p) where
    pub node_hash-IsHash : (a b : Hash) → IsHash (node_hash p a b)
    unfolding node_hash
    node_hash-IsHash a b = digests _

    mth_fuel-IsHash : (f : ℕ) (xs : List Hash) → AllHash xs → IsHash (mth_fuel p f xs)
    unfolding mth_fuel
    mth_fuel-IsHash zero xs h = omega arith
    mth_fuel-IsHash (suc f) [] h = omega arith
    mth_fuel-IsHash (suc f) (x ∷ []) h = h.0
    mth_fuel-IsHash (suc f) (x ∷ y ∷ xs) h =
        elim (Option-cases (largest_pow2_lt (length (x ∷ y ∷ xs)))) [
          | inl e ↦ rw (e, mth_fuel) (omega arith)
          | inr (k, e) ↦ rw (e, mth_fuel) (node_hash-IsHash _ _)
        ]

    pub mth-IsHash : (xs : List Hash) → AllHash xs → IsHash (mth p xs)
    unfolding mth
    mth-IsHash xs = mth_fuel-IsHash (length xs) xs

    pub InTree-IsHash :
        {xs : List Hash} {a b : Hash} → AllHash xs → InTree xs a b → IsHash a × IsHash b
    InTree-IsHash all (in_root xs a b k big e here there) = (
      rw here (mth-IsHash (take k xs) (AllHash-take k xs all)),
      rw there (mth-IsHash (drop k xs) (AllHash-drop k xs all)),
    )
    InTree-IsHash all (in_take xs a b k big e h) = InTree-IsHash (AllHash-take k xs all) h
    InTree-IsHash all (in_drop xs a b k big e h) = InTree-IsHash (AllHash-drop k xs all) h
