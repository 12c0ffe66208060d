-- ===== src/Covenant/Standing/Tally.antt =====
-- The numbers of a standing are counts over the verdicts that the store returned, each verdict once.
use cloudy.Prelude.{
  ℕ, ◌+◌, ◌≡◌, refl, ap, subst, ◌∙◌, inl, inr, Bool, true, false, ◌&&◌, Bool-cases, List, [], ◌∷◌,
  ◌++◌, arith, if◌then◌else◌,
}
use cloudy.Prelude.Table.{find, get_or, get_or-write}
use cloudy.Prelude.Bytes.{Bytes, bytes_eq, has_key, bytes-Key, eq-of-bytes_eq}
use cloudy.Prelude.Result.{ok}
use cloudy.Covenant.Assessment.{MemberId, Level, Relation, Assessment}
use cloudy.Covenant.Store.{verdict_key}
use cloudy.Covenant.Standing.{
  empty_relation, empty_distribution, level_eq, level-Key, Distribution, count_of, RelationStanding,
  Standing, relation_of, category_of, count_level, count_in_relation, count_verdict, tally,
}

-- How many verdicts of the list pass the test.
unfoldable pub counted : (Assessment → Bool) → List Assessment → ℕ
counted test [] = 0
counted test (a ∷ ads) = (if test a then 1 else 0) + counted test ads

-- The verdicts without those whose key stands before them, or in `seen`.
unfoldable pub firsts : List Bytes → List Assessment → List Assessment
firsts seen [] = []
firsts seen (a ∷ ads) = elim (has_key (verdict_key a) seen) [
  | true ↦ firsts seen ads
  | false ↦ a ∷ firsts (verdict_key a ∷ seen) ads
]

unfoldable pub in_relation : Relation → Assessment → Bool
in_relation r a = bytes_eq a.relation r

unfoldable pub in_category : Relation → Bytes → Assessment → Bool
in_category r c a = in_relation r a && bytes_eq a.category c

unfoldable pub at_level : (Assessment → Bool) → Level → Assessment → Bool
at_level test l a = test a && level_eq a.level l

-- A distribution counts the verdicts that pass the test: at each level, and in all.
pub record Shows (d : Distribution) (test : Assessment → Bool) (ads : List Assessment)
    : Type 0 where
  pub level : (l : Level) → count_of d l ≡ counted (at_level test l) ads
  pub total : d.total ≡ counted test ads

-- Every distribution of the standing counts the verdicts of its relation, and of its category.
pub record Tallies (s : Standing) (ads : List Assessment) : Type 0 where
  pub category :
      (r : Relation) (c : Bytes) → Shows (category_of (relation_of s r) c) (in_category r c) ads
  pub overall : (r : Relation) → Shows (relation_of s r).overall (in_relation r) ads

count_of-count_level :
    (d : Distribution) (l m : Level)
    → count_of (count_level d l) m ≡ count_of d m + (if level_eq l m then 1 else 0)
unfolding count_of count_level level-Key
count_of-count_level d l m = elim (Bool-cases (level_eq l m)) [
  | inl same ↦
      let is : l ≡ m = level-Key.same_exact l m same in
      ground (arith, same, is, get_or-write 0 l m (count_of d l + 1) d.counts)
  | inr other ↦ ground (arith, other, get_or-write 0 l m (count_of d l + 1) d.counts)
]

-- A list with one more verdict, in front.
Shows-count :
    (d : Distribution) (test : Assessment → Bool) (a : Assessment) (ads : List Assessment)
    → Shows d test ads
    → test a ≡ true
    → Shows (count_level d a.level) test (a ∷ ads)
unfolding counted at_level count_level
Shows-count d test a ads h yes' = record {
  level = λ l. ground (arith, yes', h.level l, count_of-count_level d a.level l);
  total = ground (arith, yes', h.total);
}

Shows-skip :
    (d : Distribution) (test : Assessment → Bool) (a : Assessment) (ads : List Assessment)
    → Shows d test ads
    → test a ≡ false
    → Shows d test (a ∷ ads)
unfolding counted at_level
Shows-skip d test a ads h no' = record {
  level = λ l. ground (arith, no', h.level l);
  total = ground (arith, no', h.total);
}

relation_of-count_verdict :
    (s : Standing) (a : Assessment) (r : Relation)
    → relation_of (count_verdict s a) r ≡ (
        if bytes_eq a.relation r
        then count_in_relation (relation_of s a.relation) a
        else relation_of s r)
unfolding relation_of count_verdict bytes-Key
relation_of-count_verdict s a r =
    get_or-write empty_relation a.relation r (count_in_relation (relation_of s a.relation) a)
      s.per_relation

category_of-count_in_relation :
    (rs : RelationStanding) (a : Assessment) (c : Bytes)
    → category_of (count_in_relation rs a) c ≡ (
        if bytes_eq a.category c
        then count_level (category_of rs a.category) a.level
        else category_of rs c)
unfolding category_of count_in_relation bytes-Key
category_of-count_in_relation rs a c =
    get_or-write empty_distribution a.category c (count_level (category_of rs a.category) a.level)
      rs.by_category

-- What a distribution shows after a verdict, if the verdict's own part counts it and the others do not.
Shows-step :
    (d d' : Distribution) (test : Assessment → Bool) (a : Assessment) (ads : List Assessment)
    → Shows d test ads
    → d' ≡ (if test a then count_level d a.level else d)
    → Shows d' test (a ∷ ads)
Shows-step d d' test a ads h is = elim (Bool-cases (test a)) [
  | inl yes' ↦
      let now : count_level d a.level ≡ d' = ground (arith, is, yes') in
      subst (λ x. Shows x test (a ∷ ads)) now (Shows-count d test a ads h yes')
  | inr no' ↦
      let now : d ≡ d' = ground (arith, is, no') in
      subst (λ x. Shows x test (a ∷ ads)) now (Shows-skip d test a ads h no')
]

overall-count :
    (s : Standing) (a : Assessment) (r : Relation)
    → (relation_of (count_verdict s a) r).overall ≡ (
        if in_relation r a
        then count_level (relation_of s r).overall a.level
        else (relation_of s r).overall)
unfolding in_relation count_in_relation
overall-count s a r = elim (Bool-cases (bytes_eq a.relation r)) [
  | inl same ↦
      let is : a.relation ≡ r = eq-of-bytes_eq a.relation r same in
      let there' : relation_of s a.relation ≡ relation_of s r = ap (relation_of s) is in
      ground (arith, same, there', relation_of-count_verdict s a r)
  | inr other ↦ ground (arith, other, relation_of-count_verdict s a r)
]

category-count :
    (s : Standing) (a : Assessment) (r : Relation) (c : Bytes)
    → category_of (relation_of (count_verdict s a) r) c ≡ (
        if in_category r c a
        then count_level (category_of (relation_of s r) c) a.level
        else category_of (relation_of s r) c)
unfolding in_category in_relation
category-count s a r c = elim (Bool-cases (bytes_eq a.relation r)) [
  | inr other ↦
      let now : relation_of (count_verdict s a) r ≡ relation_of s r =
        ground (arith, other, relation_of-count_verdict s a r) in
      ground (arith, other, now)
  | inl same ↦
      let is : a.relation ≡ r = eq-of-bytes_eq a.relation r same in
      let old : relation_of s a.relation ≡ relation_of s r = ap (relation_of s) is in
      let now : relation_of (count_verdict s a) r ≡ count_in_relation (relation_of s r) a =
        ground (arith, same, old, relation_of-count_verdict s a r) in
      elim (Bool-cases (bytes_eq a.category c)) [
        | inl k ↦
            let own : a.category ≡ c = eq-of-bytes_eq a.category c k in
            ground (arith, same, k, own, now, category_of-count_in_relation (relation_of s r) a c)
        | inr k ↦ ground (arith, same, k, now, category_of-count_in_relation (relation_of s r) a c)
      ]
]

Tallies-count :
    (s : Standing) (a : Assessment) (ads : List Assessment)
    → Tallies s ads
    → Tallies (count_verdict s a) (a ∷ ads)
Tallies-count s a ads h = record {
  category = λ r c.
      Shows-step (category_of (relation_of s r) c)
        (category_of (relation_of (count_verdict s a) r) c) (in_category r c) a ads (h.category r c)
        (category-count s a r c);
  overall = λ r.
      Shows-step (relation_of s r).overall (relation_of (count_verdict s a) r).overall
        (in_relation r) a ads (h.overall r) (overall-count s a r);
}

counted-append :
    (test : Assessment → Bool) (xs ys : List Assessment)
    → counted test (xs ++ ys) ≡ counted test xs + counted test ys
unfolding counted
counted-append test [] ys = omega arith
counted-append test (x ∷ xs) ys = omega (arith, counted-append test xs ys)

Shows-same :
    (d : Distribution) (test : Assessment → Bool) (xs ys : List Assessment)
    → ((t : Assessment → Bool) → counted t xs ≡ counted t ys)
    → Shows d test xs
    → Shows d test ys
Shows-same d test xs ys same h = record {
  level = λ l. h.level l ∙ same (at_level test l);
  total = h.total ∙ same test;
}

Tallies-same :
    (s : Standing) (xs ys : List Assessment)
    → ((t : Assessment → Bool) → counted t xs ≡ counted t ys)
    → Tallies s xs
    → Tallies s ys
Tallies-same s xs ys same h = record {
  category = λ r c.
      Shows-same (category_of (relation_of s r) c) (in_category r c) xs ys same (h.category r c);
  overall = λ r. Shows-same (relation_of s r).overall (in_relation r) xs ys same (h.overall r);
}

pub tally-Tallies :
    (subject : MemberId) (seen : List Bytes) (s t : Standing) (ads past : List Assessment)
    → Tallies s past
    → tally subject seen s ads ≡ ok t
    → Tallies t (firsts seen ads ++ past)
unfolding tally firsts
tally-Tallies subject seen s t [] past h e = subst (λ x. Tallies x past) (ground arith) h
tally-Tallies subject seen s t (a ∷ ads) past h e =
    elim (Bool-cases (has_key (verdict_key a) seen)) [
      | inl again ↦
          let rest : tally subject seen s ads ≡ ok t = ground (arith, e, again) in
          let now : firsts seen ads ≡ firsts seen (a ∷ ads) = ground (arith, again) in
          subst (λ x. Tallies t (x ++ past)) now (tally-Tallies subject seen s t ads past h rest)
      | inr fresh ↦
          let rest : tally subject (verdict_key a ∷ seen) (count_verdict s a) ads ≡ ok t =
            ground (arith, e, fresh) in
          let now : a ∷ firsts (verdict_key a ∷ seen) ads ≡ firsts seen (a ∷ ads) =
            ground (arith, fresh) in
          subst (λ x. Tallies t (x ++ past)) now
            (Tallies-same t (firsts (verdict_key a ∷ seen) ads ++ a ∷ past)
              (a ∷ firsts (verdict_key a ∷ seen) ads ++ past)
              (λ u.
                unfold counted in
                omega (
                  arith,
                  counted-append u (firsts (verdict_key a ∷ seen) ads) (a ∷ past),
                  counted-append u (firsts (verdict_key a ∷ seen) ads) past,
                ))
              (tally-Tallies subject (verdict_key a ∷ seen) (count_verdict s a) t ads (a ∷ past)
                (Tallies-count s a past h) rest))
    ]

pub Tallies-empty : Tallies (record { per_relation = [] }) []
unfolding relation_of category_of count_of get_or find counted
Tallies-empty = record {
  category = λ r c. record { level = λ l. refl; total = refl };
  overall = λ r. record { level = λ l. refl; total = refl };
}
