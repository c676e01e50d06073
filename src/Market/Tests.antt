-- ===== src/Market/Tests.antt =====
-- Runs of the price functions, and the theorems at concrete events and listings.
use u2u_marketplace_api.Common.{
  ℕ, String, ◌≡◌, refl, ◌↔◌, false, none, some, List, [], ◌∷◌, ◌++◌, Memᴰ, arith, ℕ_order, smallest,
  All, ltb,
}
use u2u_marketplace_api.Market.{
  MarketEvent, FloorPrice, get_floor_prices, filter_floor_price_from_subgraph,
}
use u2u_marketplace_api.Market.Floor.{IsFloor, Distinct, floor_ids, get_floor_prices-IsFloor}
use u2u_marketplace_api.Market.Filter.{InRange, IsListed, filter_floor_price_from_subgraph_iff}
use u2u_marketplace_api.Market.Listing.{ask_new, Listing, QuoteToken, handle_format_nft_response}
use u2u_marketplace_api.Market.Smallest.{key, unique_items, DistinctItems, unique_items_lem}

abbrev ask : String → ℕ → MarketEvent
ask id price = record { contract_id = id; price = price }

abbrev asks721 : List MarketEvent
asks721 = ask "0xa" 30 ∷ ask "0xb" 10 ∷ ask "0xa" 20 ∷ []

floors :
    get_floor_prices asks721
    ≡ some (
        record { contract_id = "0xa"; floor_price = 20 }
        ∷ record { contract_id = "0xb"; floor_price = 10 }
        ∷ [])
unfolding get_floor_prices
floors = refl

filtered :
    filter_floor_price_from_subgraph (ask "0xc" 15 ∷ []) asks721 (some 12) (some 18)
    ≡ some ("0xc" ∷ [])
unfolding filter_floor_price_from_subgraph
filtered = refl

get_floor_prices-IsFloor_example :
    (fs : List FloorPrice) × (get_floor_prices asks721 ≡ some fs)
    × Distinct (floor_ids fs)
    × ((e : MarketEvent) → Memᴰ e asks721 → Memᴰ e.contract_id (floor_ids fs))
    × All (IsFloor asks721) fs
get_floor_prices-IsFloor_example = get_floor_prices-IsFloor asks721

filter_floor_price_from_subgraph_iff_example :
    (ids : List String) × (filter_floor_price_from_subgraph [] asks721 none (some 18) ≡ some ids)
    × ((id : String) → Memᴰ id ids ↔ IsListed ([] ++ asks721) none (some 18) id)
filter_floor_price_from_subgraph_iff_example =
    filter_floor_price_from_subgraph_iff [] asks721 none (some 18)

asks-InRange : All (λ e. InRange (some 10) none e.price) ([] ++ asks721)
asks-InRange = ground arith

abbrev listing : String → ℕ → Listing ℕ
listing token price = record {
  token_id = token;
  collection_id = "c1";
  quote_token = some "0xq";
  price = price;
  price_wei = "5";
  event = ask_new;
  quantity = 1;
  ask_id = none;
}

abbrev rates : List (String × QuoteToken ℕ)
rates = ("0xq", record { derived_eth = 3; derived_usd = 4 }) ∷ []

abbrev rows : List (ℕ × List (Listing ℕ))
rows = (1, listing "1" 9 ∷ listing "1" 7 ∷ []) ∷ (2, []) ∷ []

offers :
    handle_format_nft_response ℕ_order 0 rates rows
    ≡ (
      1,
      some (record {
        price = "5";
        sell_status = ask_new;
        quantity = 1;
        ask_id = none;
        quote_token = some "0xq";
        derived_eth = 3;
        derived_usd = 4;
      }),
    )
      ∷ (2, none)
      ∷ []
unfolding handle_format_nft_response smallest
offers = refl

abbrev items : List (ℕ × Listing ℕ)
items = (1, listing "1" 9) ∷ (2, listing "2" 8) ∷ (1, listing "1" 7) ∷ []

cheapest : unique_items ℕ_order items ≡ (1, listing "1" 7) ∷ (2, listing "2" 8) ∷ []
unfolding unique_items
cheapest = refl

unique_items_lem_example :
    DistinctItems ℕ_order (unique_items ℕ_order items)
    × ((y : ℕ × Listing ℕ) → Memᴰ y (unique_items ℕ_order items) → Memᴰ y items)
    × ((x : ℕ × Listing ℕ)
        → Memᴰ x items
        → (y : ℕ × Listing ℕ) × Memᴰ y (unique_items ℕ_order items)
          × (key y ≡ key x)
          × (ltb x.1.price y.1.price ≡ false))
unique_items_lem_example = unique_items_lem ℕ_order items
