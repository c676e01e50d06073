-- ===== src/Market/Filter.antt =====
-- `filterFloorPriceFromSubgraph` (src/modules/collection/collectionPrice.service.ts): which
-- contracts the price filter lists.
use u2u_marketplace_api.Common.{
  ℕ, String, ◌≡◌, refl, sym, ap, ◌∙◌, ◌↔◌, true, ◌&&◌, Option, some, List, [], ◌∷◌, ◌++◌, Memᴰ,
  arith, filter, All, All-at, Memᴰ-map, map-Memᴰ, Memᴰ-filter, filter-Memᴰ,
}
use u2u_marketplace_api.Market.{
  MarketEvent, FloorPrice, contract_ids, at_least, at_most, within, filter_floor_prices,
  filter_floor_price_from_subgraph,
}
use u2u_marketplace_api.Market.Floor.{
  IsFloor, floor_ids, get_floor_prices-IsFloor, get_floor_prices-ids,
}

-- The price lies between the bounds that are given.
abbrev pub InRange : Option ℕ → Option ℕ → ℕ → Type 0
InRange least most p = (at_least least p && at_most most p) ≡ true

within-InRange :
    (least most : Option ℕ) (p : ℕ) → (within least most p ≡ true) ↔ InRange least most p
unfolding within
within-InRange least most p = ground arith

-- Two floors of one contract ask the same.
floor_unique :
    (items : List MarketEvent) (f g : FloorPrice)
    → IsFloor items f
    → IsFloor items g
    → f.contract_id ≡ g.contract_id
    → f.floor_price ≡ g.floor_price
floor_unique items f g hf hg same =
    let (e, m, id, p) = hf.attained in
    let (e', m', id', p') = hg.attained in
    omega (arith, hg.least e m (id ∙ same), hf.least e' m' (id' ∙ sym same), p, p')

module _ (items : List MarketEvent) (least most : Option ℕ) where
  abbrev pub IsListed : String → Type 0
  IsListed id =
      (f : FloorPrice) × IsFloor items f × (f.contract_id ≡ id) × InRange least most f.floor_price

  module _ (floors : List FloorPrice) (goods : All (IsFloor items) floors) where
    members_qualify :
        (id : String) → Memᴰ id (floor_ids (filter_floor_prices floors least most)) → IsListed id
    unfolding filter_floor_prices
    members_qualify id m =
        let (f, k, e) = map-Memᴰ (λ (f : FloorPrice). f.contract_id) _ m in
        let (j, h) = Memᴰ-filter (λ (f : FloorPrice). within least most f.floor_price) floors k in
        (f, All-at (IsFloor items) goods j, sym e, (within-InRange least most f.floor_price).0 h)

    listed_complete :
        ((e : MarketEvent) → Memᴰ e items → Memᴰ e.contract_id (floor_ids floors))
        → (id : String) → IsListed id
        → Memᴰ id (floor_ids (filter_floor_prices floors least most))
    unfolding filter_floor_prices
    listed_complete all id (f, floor, e, h) =
        let (i, m, c, _) = floor.attained in
        let (g, k, e') = map-Memᴰ (λ (f : FloorPrice). f.contract_id) floors (all i m) in
        let price = floor_unique items g f (All-at (IsFloor items) goods k) floor (sym e' ∙ c) in
        let kept =
          filter-Memᴰ (λ (f : FloorPrice). within least most f.floor_price) floors k
            ((within-InRange least most g.floor_price).1 (rw price h)) in
        rw (sym e ∙ sym c ∙ e') (Memᴰ-map (λ (f : FloorPrice). f.contract_id) kept)

    -- The second filter keeps every floor of events that are all in range.
    filter_floor_prices_keeps :
        All (λ e. InRange least most e.price) items → filter_floor_prices floors least most ≡ floors
    unfolding filter_floor_prices
    filter_floor_prices_keeps answered = filter_all floors goods
      where
        keep : (f : FloorPrice) → IsFloor items f → within least most f.floor_price ≡ true
        keep f floor =
            let (e, m, _, p) = floor.attained in
            (within-InRange least most f.floor_price).1
              (rw p at (All-at (λ (x : MarketEvent). InRange least most x.price) answered m))

        filter_all :
            (fs : List FloorPrice)
            → All (IsFloor items) fs
            → filter (λ (f : FloorPrice). within least most f.floor_price) fs ≡ fs
        filter_all [] h = refl
        filter_all (f ∷ fs) (h, hs) = rw (keep f h) (ap (λ l. f ∷ l) (filter_all fs hs))

-- The filter answers with the contracts whose floor price lies between the bounds, and with no
-- other, on whatever events the subgraph answers with.
pub filter_floor_price_from_subgraph_iff :
    (selling1155 selling721 : List MarketEvent) (least most : Option ℕ)
    → (ids : List String) × (filter_floor_price_from_subgraph selling1155 selling721 least most
        ≡ some ids)
      × ((id : String) → Memᴰ id ids ↔ IsListed (selling1155 ++ selling721) least most id)
unfolding filter_floor_price_from_subgraph
filter_floor_price_from_subgraph_iff selling1155 selling721 least most =
    let items = selling1155 ++ selling721 in
    let (floors, same, _, all, goods) = get_floor_prices-IsFloor items in
    (
      floor_ids (filter_floor_prices floors least most),
      rw (same, filter_floor_price_from_subgraph) refl,
      λ id. (
        members_qualify items least most floors goods id,
        listed_complete items least most floors goods all id,
      ),
    )

-- The events that the query asks for lie between the bounds already. On such events the filter
-- removes nothing: it answers with every contract that has one event in range.
pub filter_floor_price_from_subgraph_keeps :
    (selling1155 selling721 : List MarketEvent) (least most : Option ℕ)
    → All (λ e. InRange least most e.price) (selling1155 ++ selling721)
    → filter_floor_price_from_subgraph selling1155 selling721 least most
      ≡ some (contract_ids (selling1155 ++ selling721))
unfolding filter_floor_price_from_subgraph
filter_floor_price_from_subgraph_keeps selling1155 selling721 least most answered =
    let items = selling1155 ++ selling721 in
    let (floors, same, ids, goods) = get_floor_prices-ids items in
    rw (same, filter_floor_price_from_subgraph)
      (ap some
        (ap floor_ids (filter_floor_prices_keeps items least most floors goods answered) ∙ ids))
