-- ===== src/Market/Catalog.antt =====
-- internal/market/catalog.go: the append-only catalog with its hash chain, and its replay.
pub mod Replay
use Prim.Native.String.{String}
use text.Mathlib.Text.{◌==◌ as str_eq}
use cloudy.Prelude.{
  ℕ, ◌≡◌, Bool, true, false, not, ◌||◌, List, [], ◌∷◌, ◌++◌, Option, none, some, ◌==◌,
  if◌then◌else◌,
}
use cloudy.Prelude.Dict.{Dict, has, get, lookup, insert}
use cloudy.Prelude.Bytes.{Bytes}
use cloudy.Prelude.Result.{Result, ok, err, ◌>>=◌, ◌>>◌, guard}
use cloudy.Primitives.{Hash, hash_bytes, string, bytes, time, Primitives}
use cloudy.Market.Listing.{
  Error, wrong_platform, bad_signature, duplicate, unknown_listing, zero_exchange, empty_platform,
  both_kinds, empty_item, Category, Listing, verify_listing, listing_id,
}

pub record Sale : Type 0 where
  pub listing : Hash
  pub exchange : Hash
  pub recorded_at : ℕ

-- Two pointers, each of which can be nil.
pub record Item : Type 0 where
  pub listing : Option Listing
  pub sale : Option Sale

pub record Catalog : Type 0 where
  pub platform : String
  pub listings : Dict Listing
  pub sales : Dict (List Hash)
  pub log : List Item
  pub head : Hash

abbrev pub listing_item : Listing → Item
listing_item l = record { listing = some l; sale = none }

abbrev pub sale_item : Sale → Item
sale_item s = record { listing = none; sale = some s }

unfoldable pub new_catalog : String → Result Error Catalog
new_catalog platform = do
  guard (not (str_eq platform "")) empty_platform
  ok (record { platform = platform; listings = []; sales = []; log = []; head = 0 })

-- The loop of RecordSale over the exchanges that are recorded for the listing.
unfoldable pub recorded : Hash → List Hash → Bool
recorded exchange [] = false
recorded exchange (e ∷ es) = e == exchange || recorded exchange es

-- Catalog.Listing
unfoldable pub listing_of : Catalog → Hash → Option Listing
listing_of c id = lookup id c.listings

-- Catalog.SalesOf
unfoldable pub sales_of : Catalog → Hash → List Hash
sales_of c id = get [] id c.sales

-- Catalog.Log
unfoldable pub catalog_log : Catalog → List Item
catalog_log c = c.log

module _ (p : Primitives) where
  open p use {sha256, canon}

  -- Sale.leaf
  unfoldable pub sale_leaf : Sale → Bytes
  sale_leaf s = canon "cloudy/market/id/v0" (
      string "sale"
      ∷ bytes (hash_bytes s.listing)
      ∷ bytes (hash_bytes s.exchange)
      ∷ time s.recorded_at
      ∷ [])

  -- Catalog.fold, as the new head.
  unfoldable pub fold_head : Hash → Bytes → Hash
  fold_head head leaf =
      sha256 (canon "cloudy/market/chain/v0" (bytes (hash_bytes head) ∷ bytes leaf ∷ []))

  -- Catalog.AddListing
  unfoldable pub add_listing : Catalog → Listing → Result Error (Hash × Catalog)
  add_listing c l = do
    guard (str_eq l.platform c.platform) wrong_platform
    guard (verify_listing p l) bad_signature
    let id = listing_id p l
    guard (not (has id c.listings)) duplicate
    ok (
      id,
      record c {
        listings = insert id l c.listings;
        log = c.log ++ listing_item l ∷ [];
        head = fold_head c.head (hash_bytes id);
      },
    )

  -- Catalog.RecordSale
  unfoldable pub record_sale : Catalog → Sale → Result Error Catalog
  record_sale c s = do
    guard (has s.listing c.listings) unknown_listing
    guard (not (s.exchange == 0)) zero_exchange
    guard (not (recorded s.exchange (get [] s.listing c.sales))) duplicate
    ok (record c {
      sales = insert s.listing (get [] s.listing c.sales ++ s.exchange ∷ []) c.sales;
      log = c.log ++ sale_item s ∷ [];
      head = fold_head c.head (sale_leaf s);
    })

  -- Catalog.ByCategory, over the log.
  unfoldable pub by_category : Category → List Item → List Hash
  by_category category [] = []
  by_category category (it ∷ items) =
      let rest = by_category category items in
      elim it.listing [
        | none ↦ rest
        | some l ↦ if str_eq l.category category then listing_id p l ∷ rest else rest
      ]

  -- One turn of the loop of OpenLog.
  unfoldable pub replay_item : Catalog → Item → Result Error Catalog
  replay_item c it = elim it.listing [
    | some l ↦ elim it.sale [
      | some s ↦ err both_kinds
      | none ↦ add_listing c l >>= λ (_, c'). ok c'
    ]
    | none ↦ elim it.sale [ some s ↦ record_sale c s | none ↦ err empty_item ]
  ]

  unfoldable pub replay_items : Catalog → List Item → Result Error Catalog
  replay_items c [] = ok c
  replay_items c (it ∷ items) = replay_item c it >>= λ c'. replay_items c' items

  -- OpenLog
  unfoldable pub open_catalog : String → List Item → Result Error Catalog
  open_catalog platform items = new_catalog platform >>= λ c. replay_items c items
