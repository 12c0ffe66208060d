-- ===== src/Techtree/Claim.antt =====
-- internal/techtree/claim.go and reference.go: signed claims, and signed edges between claims.
use Prim.Native.String.{String}
use text.Mathlib.Text.{◌==◌ as str_eq}
use cloudy.Prelude.{ℕ, Bool, false, not, ◌||◌, [], ◌∷◌, length, ◌==◌, if◌then◌else◌}
use cloudy.Prelude.Bytes.{Bytes, bytes_eq}
use cloudy.Prelude.Result.{Result, ok, ◌>>◌, guard}
use cloudy.Primitives.{
  Hash, hash_bytes, string, bytes, time, Primitives, public_key_size, private_key_size,
  signature_size,
}

-- The errors of the package.
pub data Error : Type 0 where
  platform_unset key_malformed bad_kind self_edge signer_malformed not_signer : Error
  wrong_platform bad_signature duplicate unknown_claim not_asserter builds_on_cycle empty_platform :
      Error
  both_kinds empty_item : Error

-- `type ClaimKind string` and `type RefKind string`
abbrev pub ClaimKind : Type 0
ClaimKind = String

abbrev pub RefKind : Type 0
RefKind = String

-- validKind
unfoldable pub valid_kind : ClaimKind → Bool
valid_kind k = str_eq k "fact" || str_eq k "technique" || str_eq k "product_spec"

-- RefBuildsOn
abbrev pub ref_builds_on : RefKind
ref_builds_on = "builds_on"

-- validRefKind
unfoldable pub valid_ref_kind : RefKind → Bool
valid_ref_kind k =
    str_eq k "builds_on"
    || str_eq k "cites"
    || str_eq k "contests"
    || str_eq k "reproduces"
    || str_eq k "refutes"

pub record Claim : Type 0 where
  pub platform : String
  pub claimant : Bytes
  pub kind : ClaimKind
  pub inputs_hash : Hash
  pub method_hash : Hash
  pub result_hash : Hash
  pub nonce : Hash
  pub asserted_at : ℕ
  pub signature : Bytes

-- `from` and `to` are the IDs of two claims.
pub record Reference : Type 0 where
  pub platform : String
  pub asserter : Bytes
  pub kind : RefKind
  pub from : Hash
  pub to : Hash
  pub nonce : Hash
  pub asserted_at : ℕ
  pub signature : Bytes

-- NewClaim; `nonce` is what crypto/rand draws.
unfoldable pub new_claim :
    String → Bytes → ClaimKind → Hash → Hash → Hash → ℕ → Hash → Result Error Claim
new_claim platform claimant kind inputs method result at nonce = do
  guard (not (str_eq platform "")) platform_unset
  guard (length claimant == public_key_size) key_malformed
  guard (valid_kind kind) bad_kind
  ok (record {
    platform = platform;
    claimant = claimant;
    kind = kind;
    inputs_hash = inputs;
    method_hash = method;
    result_hash = result;
    nonce = nonce;
    asserted_at = at;
    signature = [];
  })

-- NewReference; `nonce` is what crypto/rand draws.
unfoldable pub new_reference :
    String → Bytes → RefKind → Hash → Hash → ℕ → Hash → Result Error Reference
new_reference platform asserter kind from to at nonce = do
  guard (not (str_eq platform "")) platform_unset
  guard (length asserter == public_key_size) key_malformed
  guard (valid_ref_kind kind) bad_kind
  guard (not (from == to)) self_edge
  ok (record {
    platform = platform;
    asserter = asserter;
    kind = kind;
    from = from;
    to = to;
    nonce = nonce;
    asserted_at = at;
    signature = [];
  })

module _ (p : Primitives) where
  open p use {verify, sign, public, sha256, canon}

  unfoldable pub hash_narrative : Bytes → Hash
  hash_narrative narrative = sha256 (canon "cloudy/techtree/claim/v0" (bytes narrative ∷ []))

  -- Claim.CanonicalBytes: every field but the signature.
  unfoldable pub claim_bytes : Claim → Bytes
  claim_bytes c = canon "cloudy/techtree/claim/v0" (
      string c.platform
      ∷ bytes c.claimant
      ∷ string c.kind
      ∷ bytes (hash_bytes c.inputs_hash)
      ∷ bytes (hash_bytes c.method_hash)
      ∷ bytes (hash_bytes c.result_hash)
      ∷ bytes (hash_bytes c.nonce)
      ∷ time c.asserted_at
      ∷ [])

  -- Claim.Sign
  unfoldable pub sign_claim : Bytes → Claim → Result Error Claim
  sign_claim k c = do
    guard (length k == private_key_size) signer_malformed
    guard (bytes_eq (public k) c.claimant) not_signer
    ok (record c { signature = sign k (claim_bytes c) })

  -- Claim.Verify
  unfoldable pub verify_claim : Claim → Bool
  verify_claim c =
      if str_eq c.platform "" || not (valid_kind c.kind)
      then false
      else if not (length c.claimant == public_key_size)
          || not (length c.signature == signature_size)
      then false
      else verify c.claimant (claim_bytes c) c.signature

  -- Claim.ID
  unfoldable pub claim_id : Claim → Hash
  claim_id c = sha256 (
      canon "cloudy/techtree/id/v0"
        (string "claim" ∷ bytes (claim_bytes c) ∷ bytes c.signature ∷ []))

  -- Reference.CanonicalBytes: every field but the signature.
  unfoldable pub reference_bytes : Reference → Bytes
  reference_bytes r = canon "cloudy/techtree/reference/v0" (
      string r.platform
      ∷ bytes r.asserter
      ∷ string r.kind
      ∷ bytes (hash_bytes r.from)
      ∷ bytes (hash_bytes r.to)
      ∷ bytes (hash_bytes r.nonce)
      ∷ time r.asserted_at
      ∷ [])

  -- Reference.Sign
  unfoldable pub sign_reference : Bytes → Reference → Result Error Reference
  sign_reference k r = do
    guard (length k == private_key_size) signer_malformed
    guard (bytes_eq (public k) r.asserter) not_signer
    ok (record r { signature = sign k (reference_bytes r) })

  -- Reference.Verify
  unfoldable pub verify_reference : Reference → Bool
  verify_reference r =
      if str_eq r.platform "" || not (valid_ref_kind r.kind) || r.from == r.to
      then false
      else if not (length r.asserter == public_key_size)
          || not (length r.signature == signature_size)
      then false
      else verify r.asserter (reference_bytes r) r.signature

  -- Reference.ID
  unfoldable pub reference_id : Reference → Hash
  reference_id r = sha256 (
      canon "cloudy/techtree/id/v0"
        (string "reference" ∷ bytes (reference_bytes r) ∷ bytes r.signature ∷ []))
