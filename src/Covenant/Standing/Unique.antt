-- ===== src/Covenant/Standing/Unique.antt =====
-- Lists of verdicts in which no key stands twice.
use cloudy.Prelude.{◌≡◌, refl, false, List, [], ◌∷◌, ◌++◌, arith}
use cloudy.Prelude.Bytes.{Bytes, bytes_eq, has_key}
use cloudy.Covenant.Assessment.{Assessment}
use cloudy.Covenant.Store.{verdict_key}
use cloudy.Covenant.Standing.Tally.{firsts}

-- The keys of the verdicts differ from each other, and from those of `seen`.
unfoldable pub Fresh : List Bytes → List Assessment → Type 0
Fresh seen [] = Unit
Fresh seen (a ∷ ads) = (has_key (verdict_key a) seen ≡ false) × Fresh (verdict_key a ∷ seen) ads

unfoldable pub Absent : Bytes → List Assessment → Type 0
Absent k [] = Unit
Absent k (a ∷ ads) = (bytes_eq (verdict_key a) k ≡ false) × Absent k ads

pub Absent-snoc :
    (k : Bytes) (ads : List Assessment) (a : Assessment)
    → Absent k ads
    → bytes_eq (verdict_key a) k ≡ false
    → Absent k (ads ++ a ∷ [])
unfolding Absent
Absent-snoc k [] a h e = (e, tt)
Absent-snoc k (b ∷ ads) a h e = (h.0, Absent-snoc k ads a h.1 e)

pub Fresh-snoc :
    (seen : List Bytes) (ads : List Assessment) (a : Assessment)
    → Fresh seen ads
    → has_key (verdict_key a) seen ≡ false
    → Absent (verdict_key a) ads
    → Fresh seen (ads ++ a ∷ [])
unfolding Fresh Absent has_key
Fresh-snoc seen [] a h e k = (e, tt)
Fresh-snoc seen (b ∷ ads) a h e k =
    (h.0, Fresh-snoc (verdict_key b ∷ seen) ads a h.1 (ground (arith, e, k.0)) k.1)

pub firsts-Fresh :
    (seen : List Bytes) (ads : List Assessment) → Fresh seen ads → firsts seen ads ≡ ads
unfolding firsts Fresh
firsts-Fresh seen [] h = refl
firsts-Fresh seen (a ∷ ads) h = ground (arith, h.0, firsts-Fresh (verdict_key a ∷ seen) ads h.1)
