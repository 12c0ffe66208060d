-- ===== src/Covenant/Standing.antt =====
-- internal/covenant/distribution.go and standing.go, and the loop of Book.Standing: the counts of the
-- verdicts about a member, for each relation, category and level. Counts are Go ints that cannot overflow.
pub mod Tally
pub mod Unique
use cloudy.Prelude.{
  ℕ, suc, ◌+◌, ◌≡◌, refl, ap, Bool, true, false, ◌&&◌, List, [], ◌∷◌, Option, none, some, arith,
  ◌==◌, if◌then◌else◌,
}
use cloudy.Prelude.Int.{ℤ, pos, negsuc}
use cloudy.Prelude.Table.{Key, Table, get_or, write}
use cloudy.Prelude.Bytes.{Bytes, bytes_eq, has_key, bytes-Key}
use cloudy.Prelude.Result.{Result, ok, err, ◌>>=◌, ◌>>◌, guard}
use cloudy.Covenant.Assessment.{
  Error, contract, MemberId, Level, level_no_trust, Relation, Assessment,
}
use cloudy.Covenant.Store.{verdict_key}

unfoldable pub level_eq : Level → Level → Bool
level_eq (pos m) (pos n) = m == n
level_eq (negsuc m) (negsuc n) = m == n
level_eq (pos _) (negsuc _) = false
level_eq (negsuc _) (pos _) = false

pub eq-of-level_eq : (a b : Level) → level_eq a b ≡ true → a ≡ b
unfolding level_eq
eq-of-level_eq (pos m) (pos n) h = ground arith
eq-of-level_eq (negsuc m) (negsuc n) h = ground arith
eq-of-level_eq (pos m) (negsuc n) h = ground arith
eq-of-level_eq (negsuc m) (pos n) h = ground arith

pub level_eq_refl : (a : Level) → level_eq a a ≡ true
unfolding level_eq
level_eq_refl (pos n) = ground arith
level_eq_refl (negsuc n) = ground arith

instance unfoldable pub level-Key : Key Level
level-Key = record { same = level_eq; same_exact = eq-of-level_eq; same_refl = level_eq_refl }

pub record Distribution : Type 0 where
  pub counts : Table Level ℕ
  pub total : ℕ

abbrev pub empty_distribution : Distribution
empty_distribution = record { counts = []; total = 0 }

pub record RelationStanding : Type 0 where
  pub by_category : Table Bytes Distribution
  pub overall : Distribution

abbrev pub empty_relation : RelationStanding
empty_relation = record { by_category = []; overall = empty_distribution }

pub record Standing : Type 0 where
  pub per_relation : Table Bytes RelationStanding

-- Distribution.Count
unfoldable pub count_of : Distribution → Level → ℕ
count_of d l = get_or 0 l d.counts

-- Standing.Relation
unfoldable pub relation_of : Standing → Relation → RelationStanding
relation_of s r = get_or empty_relation r s.per_relation

-- RelationStanding.Category
unfoldable pub category_of : RelationStanding → Bytes → Distribution
category_of rs name = get_or empty_distribution name rs.by_category

-- RelationStanding.Harm
unfoldable pub harm : RelationStanding → ℕ
harm rs = count_of rs.overall level_no_trust

-- d.counts[level]++ and d.total++
unfoldable pub count_level : Distribution → Level → Distribution
count_level d l = record { counts = write l (count_of d l + 1) d.counts; total = d.total + 1 }

-- What a turn of the loop does with a verdict that it counts: to the relation's part, and to the whole.
unfoldable pub count_in_relation : RelationStanding → Assessment → RelationStanding
count_in_relation rs a = record {
  by_category = write a.category (count_level (category_of rs a.category) a.level) rs.by_category;
  overall = count_level rs.overall a.level;
}

unfoldable pub count_verdict : Standing → Assessment → Standing
count_verdict s a = record {
  per_relation = write a.relation (count_in_relation (relation_of s a.relation) a) s.per_relation;
}

-- The loop of Book.Standing, on what the store returns.
unfoldable pub tally : MemberId → List Bytes → Standing → List Assessment → Result Error Standing
tally subject seen s [] = ok s
tally subject seen s (a ∷ ads) = do
  guard (bytes_eq a.subject subject) contract
  elim (has_key (verdict_key a) seen) [
    | true ↦ tally subject seen s ads
    | false ↦ tally subject (verdict_key a ∷ seen) (count_verdict s a) ads
  ]
