-- ===== src/Opcred/Delegation.antt =====
-- internal/opcred/root.go, and the signer of root_file.go: the root key's delegation to a keyset for a window
-- of time. An instant is its UnixNano, an int64.
use cloudy.Prelude.{
  ℕ, ◌-◌, ◌+◌, leb, ltb, ap, ◌∙◌, ◌≤◌, ◌<◌, ◌≡◌, refl, ◌⊎◌, inl, inr, Bool, true, false, not,
  Bool-cases, [], ◌∷◌, arith, length, ◌==◌, if◌then◌else◌,
}
use cloudy.Prelude.Int.{ℤ, pos, negsuc, pos_part, neg_part, ltb_ℤ, ◌≤ℤ◌, ◌-ℤ◌}
use cloudy.Prelude.Word.{max_i64, InI64, wrap_i64, sub_i64}
use cloudy.Prelude.Bytes.{Bytes}
use cloudy.Prelude.Result.{Result, ok, err, ◌>>=◌, ◌>>◌, guard}
use cloudy.Primitives.{
  Hash, hash_bytes, bytes, int64, Primitives, IsSigner, public_key_size, private_key_size,
}
use cloudy.Opcred.Keyset.{Keyset, keyset_hash}

-- The errors of root.go; `device` is one that a root signer of another kind may return.
pub data Error : Type 0 where
  bad_signature keyset_mismatch not_yet_valid expired bad_window bad_ttl device : Error

-- MaxDelegationTTL: 30 days in nanoseconds.
abbrev pub max_delegation_ttl : ℕ
max_delegation_ttl = 2592000000000000

pub record RootSigner : Type 0 where
  pub public_key : Bytes
  pub sign : Bytes → Result Error Bytes
  pub is_stand_in : Bool

pub record Delegation : Type 0 where
  pub keyset_hash : Hash
  pub not_before : ℤ
  pub not_after : ℤ
  pub root_pub : Bytes
  pub sig : Bytes

module _ (p : Primitives) where
  open p use {verify, sign, public, canon}

  -- FileRootSigner, with its three methods.
  unfoldable pub file_root_signer : Bytes → RootSigner
  file_root_signer private = record {
    public_key = public private;
    sign = λ msg. ok (sign private msg);
    is_stand_in = true;
  }

  -- Delegation.CanonicalBytes: the hash and the window.
  unfoldable pub delegation_bytes : Hash → ℤ → ℤ → Bytes
  delegation_bytes hash not_before not_after =
      canon "cloudy/opcred/delegation/v0"
        (bytes (hash_bytes hash) ∷ int64 not_before ∷ int64 not_after ∷ [])

  -- IssueDelegation
  unfoldable pub issue_delegation : RootSigner → Keyset → ℤ → ℤ → Result Error Delegation
  issue_delegation rs ks nb na = do
    guard (ltb_ℤ nb na) bad_window
    guard (not (ltb_ℤ (pos max_delegation_ttl) (sub_i64 na nb))) bad_ttl
    sig ← rs.sign (delegation_bytes (keyset_hash p ks) nb na)
    ok (record {
      keyset_hash = keyset_hash p ks;
      not_before = nb;
      not_after = na;
      root_pub = rs.public_key;
      sig = sig;
    })

  -- VerifyDelegation
  unfoldable pub verify_delegation : Delegation → Bytes → Hash → ℤ → Result Error (Unit {0})
  verify_delegation d root_pub hash at = do
    guard
        (if not (length root_pub == public_key_size)
          then false
          else verify root_pub (delegation_bytes d.keyset_hash d.not_before d.not_after) d.sig)
        bad_signature
    guard (d.keyset_hash == hash) keyset_mismatch
    guard (not (ltb_ℤ at d.not_before)) not_yet_valid
    guard (not (ltb_ℤ d.not_after at)) expired

-- The span of two instants, and what subtraction on int64 makes of it.
wrap_i64-cases :
    (n : ℕ)
    → n ≤ 18446744073709551615
    → ((n ≤ max_i64) × (wrap_i64 (pos n) ≡ pos n))
      ⊎ ((max_i64 < n) × (wrap_i64 (pos n) ≡ negsuc (18446744073709551615 - n)))
unfolding wrap_i64
wrap_i64-cases n h = elim (Bool-cases (leb n max_i64)) [
  | inl e ↦ inl (ground (arith, e), ground (arith, e, h))
  | inr e ↦ inr (ground (arith, e), ground (arith, e, h))
]

sub_i64-cases :
    (a b : ℤ)
    → InI64 a
    → InI64 b
    → ltb_ℤ b a ≡ true
    → (n : ℕ) × ((a -ℤ b ≡ pos n)
        × (((n ≤ max_i64) × (sub_i64 a b ≡ pos n))
            ⊎ ((max_i64 < n) × (sub_i64 a b ≡ negsuc (18446744073709551615 - n)))))
unfolding sub_i64 ◌-ℤ◌
sub_i64-cases a b in_a in_b h =
    let n : ℕ = pos_part a + neg_part b - (neg_part a + pos_part b) in
    let exact : a -ℤ b ≡ pos n = ground (arith, h) in
    let small : n ≤ 18446744073709551615 = omega (arith, in_a.0, in_b.1) in
    (
      n,
      (
        exact,
        elim (wrap_i64-cases n small) [
          | inl (short, e) ↦ inl (short, ap wrap_i64 exact ∙ e)
          | inr (long, e) ↦ inr (long, ap wrap_i64 exact ∙ e)
        ],
      ),
    )

module _ (p : Primitives) where
  -- What IssueDelegation returns for a file root, by the true span of the window, `na - nb` as an integer. An
  -- empty or inverted window is refused as such. A span above 30 days is refused as too long if it is below
  -- 2^63 nanoseconds. A delegation for exactly the window asked for is issued if the span is at most 30 days,
  -- and also if it is 2^63 nanoseconds or more, where the subtraction on int64 wraps.
  pub issue_delegation-cases :
      (k : Bytes) (ks : Keyset) (nb na : ℤ)
      → InI64 nb
      → InI64 na
      → ((issue_delegation p (file_root_signer p k) ks nb na ≡ err bad_window) × (na ≤ℤ nb))
        ⊎ ((issue_delegation p (file_root_signer p k) ks nb na ≡ err bad_ttl)
            × ((n : ℕ) × ((na -ℤ nb ≡ pos n) × ((max_delegation_ttl < n) × (n ≤ max_i64)))))
        ⊎ ((d : Delegation) × ((issue_delegation p (file_root_signer p k) ks nb na ≡ ok d)
              × ((d.not_before ≡ nb)
                  × ((d.not_after ≡ na)
                      × ((n : ℕ) × ((na -ℤ nb ≡ pos n)
                            × ((n ≤ max_delegation_ttl) ⊎ (max_i64 < n))))))))
  unfolding issue_delegation file_root_signer
  issue_delegation-cases k ks nb na in_nb in_na = elim (Bool-cases (ltb_ℤ nb na)) [
    | inr e ↦ inl (ground (arith, e), ground (arith, e))
    | inl e ↦
        let (n, (exact, sub)) = sub_i64-cases na nb in_na in_nb e in
        elim sub [
          | inr (long, w) ↦
              inr
                (inr (issued nb na, (ground (arith, e, w), (refl, (refl, (n, (exact, inr long)))))))
          | inl (short, w) ↦ elim (Bool-cases (ltb max_delegation_ttl n)) [
            | inl over ↦
                inr (inl (ground (arith, e, w, over), (n, (exact, (ground (arith, over), short)))))
            | inr fits ↦ inr (
                inr (
                  issued nb na,
                  (
                    ground (arith, e, w, fits),
                    (refl, (refl, (n, (exact, inl (ground (arith, fits)))))),
                  ),
                ))
          ]
        ]
  ]
    where
      issued : ℤ → ℤ → Delegation
      issued nb na = record {
        keyset_hash = keyset_hash p ks;
        not_before = nb;
        not_after = na;
        root_pub = p.public k;
        sig = p.sign k (delegation_bytes p (keyset_hash p ks) nb na);
      }

  -- A delegation that IssueDelegation has issued for a file root with a key of the right length verifies under
  -- the root's public key, for the hash of that keyset, at every instant of its window, and at every instant
  -- before or after it VerifyDelegation says that it is not valid yet, or has expired.
  pub verify_delegation-issue_delegation :
      (k : Bytes) (ks : Keyset) (nb na at : ℤ) (d : Delegation)
      → IsSigner p
      → length k ≡ private_key_size
      → issue_delegation p (file_root_signer p k) ks nb na ≡ ok d
      → verify_delegation p d (p.public k) (keyset_hash p ks) at
        ≡ (if ltb_ℤ at nb then err not_yet_valid else if ltb_ℤ na at then err expired else ok tt)
  unfolding issue_delegation file_root_signer verify_delegation
  verify_delegation-issue_delegation k ks nb na at d signer size h =
      let message = delegation_bytes p (keyset_hash p ks) nb na in
      let fits = signer.verify_sign k message size in
      let sized = signer.public_size k size in
      let whose : d.keyset_hash ≡ keyset_hash p ks = ground (arith, h) in
      let starts : d.not_before ≡ nb = ground (arith, h) in
      let ends : d.not_after ≡ na = ground (arith, h) in
      let sealed : d.sig ≡ p.sign k message = ground (arith, h) in
      ground (arith, whose, starts, ends, sealed, fits, sized)
