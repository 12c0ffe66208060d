-- ===== src/Market/Catalog/Replay.antt =====
-- The catalog's log rebuilds the catalog, and its sales are those of the log, each exchange once.
use cloudy.Prelude.{
  ◌≡◌, refl, sym, ap, subst, ◌∙◌, inl, inr, arith, false, List, [], ◌∷◌, ◌++◌, none, some, ◌==◌,
  if◌then◌else◌, ℕ_discrete,
}
use Prim.Native.String.{String}
use mathlib.Core.List.{append-nil}
use mathlib.Core.Path.{ap₂}
use cloudy.Prelude.Dict.{get, insert, get-insert}
use cloudy.Prelude.Result.{ok, Result-cases}
use cloudy.Primitives.{Hash, Primitives}
use cloudy.Market.Listing.{Listing}
use cloudy.Market.Catalog.{
  Sale, Item, Catalog, listing_item, sale_item, new_catalog, recorded, sales_of, catalog_log,
  add_listing, record_sale, replay_item, replay_items, open_catalog,
}

-- The exchanges that a log records for a listing, in order.
unfoldable pub sold_in : Hash → List Item → List Hash
sold_in id [] = []
sold_in id (it ∷ items) =
    let rest = sold_in id items in
    elim it.sale [ none ↦ rest | some s ↦ if s.listing == id then s.exchange ∷ rest else rest ]

-- No exchange stands in the list twice.
unfoldable pub Once : List Hash → Type 0
Once [] = Unit
Once (e ∷ es) = (recorded e es ≡ false) × Once es

sold_in-snoc :
    (id : Hash) (items : List Item) (it : Item)
    → sold_in id (items ++ it ∷ []) ≡ sold_in id items ++ sold_in id (it ∷ [])
unfolding sold_in
sold_in-snoc id [] it = refl
sold_in-snoc id (x ∷ items) it = ground (arith, sold_in-snoc id items it)

recorded-snoc :
    (a b : Hash) (es : List Hash)
    → recorded a es ≡ false
    → (b == a) ≡ false
    → recorded a (es ++ b ∷ []) ≡ false
unfolding recorded
recorded-snoc a b [] h k = ground arith
recorded-snoc a b (e ∷ es) h k = ground (arith, recorded-snoc a b es)

Once-snoc : (es : List Hash) (e : Hash) → Once es → recorded e es ≡ false → Once (es ++ e ∷ [])
unfolding Once recorded
Once-snoc [] e h k = (refl, tt)
Once-snoc (x ∷ es) e (h, hs) k =
    (recorded-snoc x e es h (ground arith), Once-snoc es e hs (ground arith))

module _ (p : Primitives) where
  -- A catalog that NewCatalog, AddListing and RecordSale lead to.
  pub data History : Catalog → Type 0 where
    created : (platform : String) (c : Catalog) → new_catalog platform ≡ ok c → History c
    listed :
        (c c' : Catalog) (l : Listing) (id : Hash)
        → History c
        → add_listing p c l ≡ ok (id, c')
        → History c'
    sold : (c c' : Catalog) (s : Sale) → History c → record_sale p c s ≡ ok c' → History c'

  replay_items-snoc :
      (c c' : Catalog) (items : List Item) (it : Item)
      → replay_items p c items ≡ ok c'
      → replay_items p c (items ++ it ∷ []) ≡ replay_item p c' it
  unfolding replay_items
  replay_items-snoc c c' [] it h = elim (Result-cases (replay_item p c it)) [
    | inl (d, e) ↦ ground (arith, e, h)
    | inr (x, e) ↦ ground (arith, e, h)
  ]
  replay_items-snoc c c' (x ∷ items) it h = elim (Result-cases (replay_item p c x)) [
    | inl (d, e) ↦ ground (arith, e, replay_items-snoc d c' items it (ground (arith, e)))
    | inr (x, e) ↦ absurd (ground (arith, e))
  ]

  add_listing-steps :
      (c c' : Catalog) (l : Listing) (id : Hash)
      → add_listing p c l ≡ ok (id, c')
      → (c'.log ≡ c.log ++ listing_item l ∷ []) × (c'.platform ≡ c.platform) × (c'.sales ≡ c.sales)
  unfolding add_listing
  add_listing-steps c c' l id h = (ground arith, ground arith, ground arith)

  record_sale-steps :
      (c c' : Catalog) (s : Sale)
      → record_sale p c s ≡ ok c'
      → (c'.log ≡ c.log ++ sale_item s ∷ [])
        × (c'.platform ≡ c.platform)
        × (c'.sales ≡ insert s.listing (get [] s.listing c.sales ++ s.exchange ∷ []) c.sales)
        × (recorded s.exchange (get [] s.listing c.sales) ≡ false)
  unfolding record_sale
  record_sale-steps c c' s h = (ground arith, ground arith, ground arith, ground arith)

  module _ (platform : String) (items : List Item) (c c' : Catalog)
      (opened : open_catalog p platform items ≡ ok c) where
    open_catalog-snoc :
        (it : Item)
        → replay_item p c it ≡ ok c'
        → open_catalog p platform (items ++ it ∷ []) ≡ ok c'
    unfolding open_catalog
    open_catalog-snoc it h = elim (Result-cases (new_catalog platform)) [
      | inl (d, e) ↦ ground (arith, e, replay_items-snoc d c items it (ground (arith, e)))
      | inr (x, e) ↦ absurd (ground (arith, e))
    ]

  -- Whatever calls of AddListing and RecordSale have made of a new catalog, OpenLog over its log, for
  -- its platform, returns that very catalog, its head included.
  pub open_catalog-log :
      (c : Catalog) → History c → open_catalog p c.platform (catalog_log c) ≡ ok c
  unfolding catalog_log
  open_catalog-log c (created platform _ h) =
      unfold open_catalog new_catalog replay_items in ground arith
  open_catalog-log c (listed d _ l id past h) =
      let (logged, same, _) = add_listing-steps d c l id h in
      ap₂ (open_catalog p) same logged
      ∙ open_catalog-snoc d.platform d.log d c (open_catalog-log d past) (listing_item l)
          (unfold replay_item in ground (arith, h))
  open_catalog-log c (sold d _ s past h) =
      let (logged, same, _, _) = record_sale-steps d c s h in
      ap₂ (open_catalog p) same logged
      ∙ open_catalog-snoc d.platform d.log d c (open_catalog-log d past) (sale_item s)
          (unfold replay_item in ground (arith, h))

  new_catalog-empty :
      (platform : String) (c : Catalog)
      → new_catalog platform ≡ ok c
      → (c.sales ≡ []) × (c.log ≡ [])
  unfolding new_catalog
  new_catalog-empty platform c h = (ground arith, ground arith)

  sales-History :
      (c : Catalog) (id : Hash)
      → History c
      → (get [] id c.sales ≡ sold_in id c.log) × Once (get [] id c.sales)
  unfolding sold_in
  sales-History c id (created platform _ h) =
      let (none_sold, none_logged) = new_catalog-empty platform c h in
      (
        unfold get in ground (arith, none_sold, none_logged),
        subst (λ m. Once (get [] id m)) (sym none_sold) (unfold Once get in tt),
      )
  sales-History c id (listed d _ l _ past h) =
      let (logged, _, same) = add_listing-steps d c l _ h in
      let (before, once) = sales-History d id past in
      (
        ap (get [] id) same
            ∙ (before
                ∙ sym (
                    ap (sold_in id) logged
                    ∙ (sold_in-snoc id d.log (listing_item l) ∙ append-nil (sold_in id d.log)))),
        subst (λ m. Once (get [] id m)) (sym same) once,
      )
  sales-History c id (sold d _ s past h) =
      let (logged, _, stored, fresh) = record_sale-steps d c s h in
      let (before, once) = sales-History d id past in
      let now =
        ap (get [] id) stored
        ∙ get-insert [] s.listing id (get [] s.listing d.sales ++ s.exchange ∷ []) d.sales in
      let more = ap (sold_in id) logged ∙ sold_in-snoc id d.log (sale_item s) in
      elim (ℕ_discrete s.listing id) [
        | yes e ↦ (
          ground (arith, now, more, before),
          subst Once (ground (arith, now))
              (Once-snoc (get [] id d.sales) s.exchange once (ground (arith, fresh))),
        )
        | no n ↦ (
          ground (arith, now, more, before, append-nil (sold_in id d.log)),
          subst Once (ground (arith, now)) once,
        )
      ]

  -- In whatever calls of AddListing and RecordSale have made of a new catalog, SalesOf a listing returns the
  -- exchanges of the log's sales of that listing, in the order of the log, and no exchange twice.
  pub sales_of-log :
      (c : Catalog) (id : Hash)
      → History c
      → (sales_of c id ≡ sold_in id (catalog_log c)) × Once (sales_of c id)
  unfolding sales_of catalog_log
  sales_of-log c id past = sales-History c id past
