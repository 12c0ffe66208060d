-- ===== src/Market/Tests.antt =====
-- Runs of the catalog on concrete inputs, and each theorem at an input.
use cloudy.Prelude.{ℕ, ◌≡◌, refl, true, [], ◌∷◌, replicate}
use cloudy.Prelude.Dict.{get, insert, lookup, has}
use cloudy.Prelude.Bytes.{bytes_eq, be_bytes}
use cloudy.Prelude.Result.{ok, err}
use cloudy.Primitives.{Hash}
use cloudy.Primitives.Toy.{toy, value_or}
use cloudy.Market.Listing.{
  duplicate, Listing, valid_category, valid_rails, canon_byte, listing_bytes, verify_listing,
  listing_id,
}
use cloudy.Market.Catalog.{
  Sale, Catalog, new_catalog, recorded, sales_of, catalog_log, sale_leaf, fold_head, add_listing,
  record_sale, by_category, open_catalog,
}
use cloudy.Market.Catalog.Replay.{
  History, created, listed, sold, sold_in, Once, open_catalog-log, sales_of-log,
}

-- Everything that a run calls.
run : ℕ
unfolding toy be_bytes bytes_eq get insert lookup has valid_category valid_rails canon_byte
    listing_bytes verify_listing listing_id new_catalog recorded sales_of catalog_log sale_leaf
    fold_head add_listing record_sale by_category
run = 0

abbrev draft : Listing
draft = record {
  platform = "cloudy";
  maker = replicate 32 1;
  category = "tablet";
  spec = 4;
  rails = record { fiat = true; member_credit = true };
  nonce = 5;
  listed_at = 6;
  signature = [];
}

abbrev listing : Listing
listing = record draft { signature = toy.sign (replicate 64 1) (listing_bytes toy draft) }

abbrev listing_hash : Hash
listing_hash = listing_id toy listing

abbrev sale : Sale
sale = record { listing = listing_hash; exchange = 8; recorded_at = 9 }

abbrev catalog_0 : Catalog
catalog_0 = record { platform = "cloudy"; listings = []; sales = []; log = []; head = 0 }

abbrev catalog_1 : Catalog
catalog_1 = (value_or (0, catalog_0) (add_listing toy catalog_0 listing)).1

abbrev catalog_2 : Catalog
catalog_2 = value_or catalog_1 (record_sale toy catalog_1 sale)

history_2 : History toy catalog_2
unfolding run
history_2 =
    sold catalog_1 catalog_2 sale
      (listed catalog_0 catalog_1 listing listing_hash (created "cloudy" catalog_0 refl) refl) refl

sold_twice : record_sale toy catalog_2 sale ≡ err duplicate
unfolding run
sold_twice = refl

found : by_category toy "tablet" (catalog_log catalog_2) ≡ listing_hash ∷ []
unfolding run
found = refl

open_catalog-log_example :
    open_catalog toy catalog_2.platform (catalog_log catalog_2) ≡ ok catalog_2
open_catalog-log_example = open_catalog-log toy catalog_2 history_2

sales_of-log_example :
    (sales_of catalog_2 listing_hash ≡ sold_in listing_hash (catalog_log catalog_2))
    × Once (sales_of catalog_2 listing_hash)
sales_of-log_example = sales_of-log toy catalog_2 listing_hash history_2
