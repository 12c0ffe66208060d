-- ===== src/Storage/Placement/Spread.antt =====
-- No host is assigned two shards.
use cloudy.Prelude.{
  ℕ, zero, suc, ◌+◌, ◌-◌, ◌≡◌, subst, inl, inr, false, ◌||◌, Bool-cases, List, [], ◌∷◌, ◌++◌, some,
  Option-cases, arith, length, get_elem?, set, ◌==◌,
}
use cloudy.Prelude.Bytes.{Bytes, bytes_eq, has_key, bytes_eq_comm}
use cloudy.Prelude.Result.{ok, Result-cases}
use cloudy.Storage.Entropy.{uniform_int}
use cloudy.Storage.Placement.{
  Host, swap, shuffle_from, shuffle, pass_1, pass_2, assign, place_shards,
}

-- No host of the list has the id.
unfoldable pub Apart : Bytes → List Host → Type 0
Apart k [] = Unit
Apart k (h ∷ hs) = (bytes_eq h.id k ≡ false) × Apart k hs

-- No two hosts of the list have one id.
unfoldable pub Spread : List Host → Type 0
Spread [] = Unit
Spread (h ∷ hs) = Apart h.id hs × Spread hs

pub data All (P : Host → Type 0) : List Host → Type 0 where
  nobody : All P []
  one_more : (h : Host) (hs : List Host) → P h → All P hs → All P (h ∷ hs)

Apart-snoc :
    (k : Bytes) (hs : List Host) (h : Host)
    → Apart k hs
    → bytes_eq h.id k ≡ false
    → Apart k (hs ++ h ∷ [])
unfolding Apart
Apart-snoc k [] h a e = (e, tt)
Apart-snoc k (x ∷ hs) h a e = (a.0, Apart-snoc k hs h a.1 e)

Spread-snoc : (hs : List Host) (h : Host) → Spread hs → Apart h.id hs → Spread (hs ++ h ∷ [])
unfolding Spread Apart
Spread-snoc [] h s a = (tt, tt)
Spread-snoc (x ∷ hs) h s a = (
  Apart-snoc x.id hs h s.0 (ground (arith, a.0, bytes_eq_comm x.id h.id)),
  Spread-snoc hs h s.1 a.1,
)

module _ (P : Host → Type 0) where
  All-snoc : (hs : List Host) (h : Host) → All P hs → P h → All P (hs ++ h ∷ [])
  All-snoc [] h nobody k = one_more h [] k nobody
  All-snoc (x ∷ hs) h (one_more _ _ e rest) k = one_more x (hs ++ h ∷ []) e (All-snoc hs h rest k)

  All-set : (hs : List Host) (i : ℕ) (h : Host) → All P hs → P h → All P (set hs i h)
  All-set [] i h nobody k = nobody
  All-set (x ∷ hs) zero h (one_more _ _ e rest) k = one_more h hs k rest
  All-set (x ∷ hs) (suc i) h (one_more _ _ e rest) k =
      one_more x (set hs i h) e (All-set hs i h rest k)

  All-get : (hs : List Host) (i : ℕ) (h : Host) → All P hs → get_elem? hs i ≡ some h → P h
  All-get [] i h nobody e = absurd (ground (arith, e))
  All-get (x ∷ hs) zero h (one_more _ _ k rest) e =
      (let is : x ≡ h = ground (arith, e) in subst P is k)
  All-get (x ∷ hs) (suc i) h (one_more _ _ k rest) e = All-get hs i h rest e

  All-swap : (i j : ℕ) (hs : List Host) → All P hs → All P (swap i j hs)
  unfolding swap
  All-swap i j hs all = elim (Option-cases (get_elem? hs i)) [
    | inl e ↦ (let is : hs ≡ swap i j hs = ground (arith, e) in subst (All P) is all)
    | inr (a, e) ↦ elim (Option-cases (get_elem? hs j)) [
      | inl f ↦ (let is : hs ≡ swap i j hs = ground (arith, e, f) in subst (All P) is all)
      | inr (b, f) ↦
          let is : set (set hs i b) j a ≡ swap i j hs = ground (arith, e, f) in
          subst (All P) is (
            All-set (set hs i b) j a (All-set hs i b all (All-get hs j b all f))
              (All-get hs i a all e))
    ]
  ]

  All-shuffle_from :
      (i : ℕ) (hs out : List Host) (entropy rest : Bytes)
      → All P hs
      → shuffle_from i hs entropy ≡ ok (out, rest)
      → All P out
  unfolding shuffle_from
  All-shuffle_from zero hs out entropy rest all h =
      (let is : hs ≡ out = ground (arith, h) in subst (All P) is all)
  All-shuffle_from (suc i) hs out entropy rest all h =
      elim (Result-cases (uniform_int entropy (suc i + 1))) [
        | inr (x, e) ↦ absurd (ground (arith, h, e))
        | inl ((j, left), e) ↦
            All-shuffle_from i (swap (suc i) j hs) out left rest (All-swap (suc i) j hs all)
              (ground (arith, h, e))
      ]

  -- What the loops keep of the assigned hosts.
  record Sound (assigned : List Host) (used : List Bytes) : Type 0 where
    spread : Spread assigned
    known : (k : Bytes) → has_key k used ≡ false → Apart k assigned
    members : All P assigned

  Sound-snoc :
      (assigned : List Host) (used : List Bytes) (h : Host)
      → Sound assigned used
      → P h
      → has_key h.id used ≡ false
      → Sound (assigned ++ h ∷ []) (h.id ∷ used)
  unfolding has_key
  Sound-snoc assigned used h sound k fresh = record {
    spread = Spread-snoc assigned h sound.spread (sound.known h.id fresh);
    known = λ key out.
        Apart-snoc key assigned h (sound.known key (ground (arith, out))) (ground (arith, out));
    members = All-snoc assigned h sound.members k;
  }

  Sound-pass_1 :
      (n : ℕ) (hs assigned : List Host) (used owners : List Bytes)
      → All P hs
      → Sound assigned used
      → Sound (pass_1 n hs assigned used owners).0 (pass_1 n hs assigned used owners).1
  unfolding pass_1
  Sound-pass_1 n [] assigned used owners nobody sound = sound
  Sound-pass_1 n (h ∷ hs) assigned used owners (one_more _ _ k all) sound =
      elim (Bool-cases (length assigned == n)) [
        | inl e ↦
            let is : (assigned, used) ≡ pass_1 n (h ∷ hs) assigned used owners =
              ground (arith, e) in
            subst (λ r. Sound r.0 r.1) is sound
        | inr e ↦ elim (Bool-cases (has_key h.id used || has_key h.owner owners)) [
          | inl f ↦
              let is : pass_1 n hs assigned used owners ≡ pass_1 n (h ∷ hs) assigned used owners =
                ground (arith, e, f) in
              subst (λ r. Sound r.0 r.1) is (Sound-pass_1 n hs assigned used owners all sound)
          | inr f ↦
              let is : pass_1 n hs (assigned ++ h ∷ []) (h.id ∷ used) (h.owner ∷ owners)
                  ≡ pass_1 n (h ∷ hs) assigned used owners =
                ground (arith, e, f) in
              subst (λ r. Sound r.0 r.1) is
                (Sound-pass_1 n hs (assigned ++ h ∷ []) (h.id ∷ used) (h.owner ∷ owners) all
                  (Sound-snoc assigned used h sound k (ground (arith, f))))
        ]
      ]

  Sound-pass_2 :
      (n : ℕ) (hs assigned : List Host) (used : List Bytes)
      → All P hs
      → Sound assigned used
      → Spread (pass_2 n hs assigned used) × All P (pass_2 n hs assigned used)
  unfolding pass_2
  Sound-pass_2 n [] assigned used nobody sound = (sound.spread, sound.members)
  Sound-pass_2 n (h ∷ hs) assigned used (one_more _ _ k all) sound =
      elim (Bool-cases (length assigned == n)) [
        | inl e ↦
            let is : assigned ≡ pass_2 n (h ∷ hs) assigned used = ground (arith, e) in
            subst (λ r. Spread r × All P r) is (sound.spread, sound.members)
        | inr e ↦ elim (Bool-cases (has_key h.id used)) [
          | inl f ↦
              let is : pass_2 n hs assigned used ≡ pass_2 n (h ∷ hs) assigned used =
                ground (arith, e, f) in
              subst (λ r. Spread r × All P r) is (Sound-pass_2 n hs assigned used all sound)
          | inr f ↦
              let is : pass_2 n hs (assigned ++ h ∷ []) (h.id ∷ used)
                  ≡ pass_2 n (h ∷ hs) assigned used =
                ground (arith, e, f) in
              subst (λ r. Spread r × All P r) is
                (Sound-pass_2 n hs (assigned ++ h ∷ []) (h.id ∷ used) all
                  (Sound-snoc assigned used h sound k f))
        ]
      ]

  -- When PlaceShards returns an assignment, it has a host for each shard, no host id stands in it twice, and its
  -- hosts are candidates: whatever holds of every candidate holds of each of them.
  pub place_shards-Spread :
      (n : ℕ) (hosts out : List Host) (entropy : Bytes)
      → All P hosts
      → place_shards n hosts entropy ≡ ok out
      → (length out ≡ n) × (Spread out × All P out)
  unfolding place_shards shuffle assign Spread Apart
  place_shards-Spread n hosts out entropy all h = elim (Result-cases (shuffle hosts entropy)) [
    | inr (x, e) ↦ absurd (ground (arith, h, e))
    | inl ((shuffled, rest), e) ↦
        let some' : All P shuffled =
          All-shuffle_from (length hosts - 1) hosts shuffled entropy rest all e in
        let first =
          Sound-pass_1 n shuffled [] [] [] some'
            (record { spread = tt; known = λ k q. tt; members = nobody }) in
        let both =
          Sound-pass_2 n shuffled (pass_1 n shuffled [] [] []).0 (pass_1 n shuffled [] [] []).1
            some' first in
        let is : assign n shuffled ≡ out = ground (arith, h, e) in
        let full : length (assign n shuffled) ≡ n = ground (arith, h, e) in
        (subst (λ l. length l ≡ n) is full, subst (λ l. Spread l × All P l) is both)
  ]
