-- ===== src/Record/Tree/Arrays.antt =====
-- All that tree.go hashes is 32-byte arrays, when the leaves and the elements of the proof are.
use cloudy.Prelude.{ℕ, zero, suc, ◌-◌, ◌≡◌, inl, inr, List, some, Bool, false}
use cloudy.Primitives.{Hash, IsHash, IsDigest, Primitives}
use cloudy.Record.Tree.{root_from_path_fuel, cons_roots_fuel}
use cloudy.Record.Tree.Hashed.{
  AllHash, AllHash-unsnoc, node_hash-IsHash, InPath, at_left, at_right, under_left, under_right,
  InCons, old_and_new, old_only, new_only, in_front, in_back,
}
use cloudy.Record.Tree.Binding
use cloudy.Record.Tree.Extension

module _ (p : Primitives) (digests : IsDigest p) where
  root_from_path_fuel-IsHash :
      (r : ℕ) (leaf : Hash) (seq size : ℕ) (path : List Hash) {root : Hash}
      → IsHash leaf
      → root_from_path_fuel p r leaf seq size path ≡ some root
      → IsHash root
  root_from_path_fuel-IsHash zero leaf seq size path fits h = unfold root_from_path_fuel in cc h
  root_from_path_fuel-IsHash (suc r) leaf seq size path fits h =
      elim (Binding.root_from_path-Step p r leaf seq size path h).1 [
        | Binding.single one first same ↦ rw same fits
        | Binding.left k rest sub sibling cut big e lt found same ↦
            rw same (node_hash-IsHash p digests sub sibling)
        | Binding.right k rest sub sibling cut big e ge found same ↦
            rw same (node_hash-IsHash p digests sibling sub)
      ]

  pub InPath-IsHash :
      {leaf : Hash} {seq size : ℕ} {path : List Hash} {a b : Hash}
      → IsHash leaf
      → AllHash path
      → InPath p leaf seq size path a b
      → IsHash a × IsHash b
  InPath-IsHash {leaf} fits all (at_left seq size path a b r k rest cut big e lt found) =
      (root_from_path_fuel-IsHash r leaf seq k rest fits found, (AllHash-unsnoc path all cut).1)
  InPath-IsHash {leaf} fits all (at_right seq size path a b r k rest cut big e ge found) = (
    (AllHash-unsnoc path all cut).1,
    root_from_path_fuel-IsHash r leaf (seq - k) (size - k) rest fits found,
  )
  InPath-IsHash fits all (under_left seq size path a b k rest sibling cut big e lt h) =
      InPath-IsHash fits (AllHash-unsnoc path all cut).0 h
  InPath-IsHash fits all (under_right seq size path a b k rest sibling cut big e ge h) =
      InPath-IsHash fits (AllHash-unsnoc path all cut).0 h

  cons_roots_fuel-IsHash :
      (r m n : ℕ) (c : Bool) (proof : List Hash) (seed : Hash) {old new : Hash} {rest : List Hash}
      → IsHash seed
      → AllHash proof
      → cons_roots_fuel p r m n c proof seed ≡ some (old, new, rest)
      → IsHash old × IsHash new
  cons_roots_fuel-IsHash zero m n c proof seed fits all h = unfold cons_roots_fuel in cc h
  cons_roots_fuel-IsHash (suc r) m n c proof seed fits all h =
      elim (Extension.cons_roots-Step p r m n c proof seed h) [
        | Extension.whole same heads (inl is_seed) ↦ rw (heads, is_seed) (fits, fits)
        | Extension.whole same heads (inr (front, cut)) ↦
            let (_, end) = AllHash-unsnoc proof all cut in rw heads (end, end)
        | Extension.left k front rest' sub last cut inside e le found new ↦ (
          (cons_roots_fuel-IsHash r m k c front seed fits (AllHash-unsnoc proof all cut).0 found).0,
          rw new (node_hash-IsHash p digests sub last),
        )
        | Extension.right k front rest' sub_old sub_new last cut inside e lt found old new ↦ (
          rw old (node_hash-IsHash p digests last sub_old),
          rw new (node_hash-IsHash p digests last sub_new),
        )
      ]

  pub InCons-IsHash :
      {seed : Hash} {m n : ℕ} {c : Bool} {proof : List Hash} {a b : Hash}
      → IsHash seed
      → AllHash proof
      → InCons p seed m n c proof a b
      → IsHash a × IsHash b
  InCons-IsHash {seed} fits all
        (old_and_new m n c proof a b r k front rest old cut big e le found) =
      let (shorter, end) = AllHash-unsnoc proof all cut in
      ((cons_roots_fuel-IsHash r m k c front seed fits shorter found).1, end)
  InCons-IsHash {seed} fits all (old_only m n c proof a b r k front rest new cut big e lt found) =
      let (shorter, end) = AllHash-unsnoc proof all cut in
      (end, (cons_roots_fuel-IsHash r (m - k) (n - k) false front seed fits shorter found).0)
  InCons-IsHash {seed} fits all (new_only m n c proof a b r k front rest old cut big e lt found) =
      let (shorter, end) = AllHash-unsnoc proof all cut in
      (end, (cons_roots_fuel-IsHash r (m - k) (n - k) false front seed fits shorter found).1)
  InCons-IsHash fits all (in_front m n c proof a b k front last cut big e le h) =
      InCons-IsHash fits (AllHash-unsnoc proof all cut).0 h
  InCons-IsHash fits all (in_back m n c proof a b k front last cut big e lt h) =
      InCons-IsHash fits (AllHash-unsnoc proof all cut).0 h
