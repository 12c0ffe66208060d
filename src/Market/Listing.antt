-- ===== src/Market/Listing.antt =====
-- internal/market/category.go, rails.go and listing.go: what a listing says, and its maker's seal.
use Prim.Native.String.{String}
use text.Mathlib.Text.{◌==◌ as str_eq}
use cloudy.Prelude.{ℕ, ◌+◌, Bool, false, not, ◌||◌, List, [], ◌∷◌, length, ◌==◌, if◌then◌else◌}
use cloudy.Prelude.Bytes.{Bytes, bytes_eq}
use cloudy.Prelude.Result.{Result, ok, ◌>>◌, guard}
use cloudy.Primitives.{
  Hash, hash_bytes, string, bytes, time, Primitives, public_key_size, private_key_size,
  signature_size,
}

-- The errors of listing.go and catalog.go. `both_kinds` and `empty_item` are OpenLog's.
pub data Error : Type 0 where
  platform_unset maker_malformed bad_category no_spec no_rail signer_malformed not_maker : Error
  wrong_platform bad_signature duplicate unknown_listing zero_exchange empty_platform : Error
  both_kinds empty_item : Error

-- `type Category string`
abbrev pub Category : Type 0
Category = String

-- Categories, in display order.
unfoldable pub categories : List Category
categories =
    "computer" ∷ "mobile_phone" ∷ "tablet" ∷ "smart_tv" ∷ "tv_streaming_stick" ∷ "nas_storage" ∷ []

-- validCategory
unfoldable pub valid_category : Category → Bool
valid_category c =
    str_eq c "computer"
    || str_eq c "mobile_phone"
    || str_eq c "tablet"
    || str_eq c "smart_tv"
    || str_eq c "tv_streaming_stick"
    || str_eq c "nas_storage"

pub record AcceptedRails : Type 0 where
  pub fiat : Bool
  pub member_credit : Bool

-- AcceptedRails.Valid
unfoldable pub valid_rails : AcceptedRails → Bool
valid_rails r = r.fiat || r.member_credit

-- AcceptedRails.canonByte: bit 0 and bit 1.
unfoldable pub canon_byte : AcceptedRails → ℕ
canon_byte r = (if r.fiat then 1 else 0) + (if r.member_credit then 2 else 0)

-- `spec` and `nonce` are arrays of 32 bytes.
pub record Listing : Type 0 where
  pub platform : String
  pub maker : Bytes
  pub category : Category
  pub spec : Hash
  pub rails : AcceptedRails
  pub nonce : Hash
  pub listed_at : ℕ
  pub signature : Bytes

-- NewListing; `nonce` is what crypto/rand draws.
unfoldable pub new_listing :
    String → Bytes → Category → Hash → AcceptedRails → ℕ → Hash → Result Error Listing
new_listing platform maker category spec rails at nonce = do
  guard (not (str_eq platform "")) platform_unset
  guard (length maker == public_key_size) maker_malformed
  guard (valid_category category) bad_category
  guard (not (spec == 0)) no_spec
  guard (valid_rails rails) no_rail
  ok (record {
    platform = platform;
    maker = maker;
    category = category;
    spec = spec;
    rails = rails;
    nonce = nonce;
    listed_at = at;
    signature = [];
  })

module _ (p : Primitives) where
  open p use {verify, sign, public, sha256, canon}

  -- Listing.CanonicalBytes: every field but the signature.
  unfoldable pub listing_bytes : Listing → Bytes
  listing_bytes l = canon "cloudy/market/listing/v0" (
      string l.platform
      ∷ bytes l.maker
      ∷ string l.category
      ∷ bytes (hash_bytes l.spec)
      ∷ bytes (canon_byte l.rails ∷ [])
      ∷ bytes (hash_bytes l.nonce)
      ∷ time l.listed_at
      ∷ [])

  -- Listing.Sign
  unfoldable pub sign_listing : Bytes → Listing → Result Error Listing
  sign_listing k l = do
    guard (length k == private_key_size) signer_malformed
    guard (bytes_eq (public k) l.maker) not_maker
    ok (record l { signature = sign k (listing_bytes l) })

  -- Listing.Verify
  unfoldable pub verify_listing : Listing → Bool
  verify_listing l =
      if str_eq l.platform ""
        || not (valid_category l.category)
        || l.spec == 0
        || not (valid_rails l.rails)
      then false
      else if not (length l.maker == public_key_size) || not (length l.signature == signature_size)
      then false
      else verify l.maker (listing_bytes l) l.signature

  -- Listing.ID
  unfoldable pub listing_id : Listing → Hash
  listing_id l = sha256 (
      canon "cloudy/market/id/v0"
        (string "listing" ∷ bytes (listing_bytes l) ∷ bytes l.signature ∷ []))
