-- ===== src/Market.antt =====
-- Prices of the marketplace: src/modules/collection/collectionPrice.service.ts (floor prices) and
-- src/modules/nft/helper/nft-helper.service.ts (the cheapest listing of a token).
pub mod Floor
pub mod Filter
pub mod Listing
pub mod Smallest
mod Tests
use u2u_marketplace_api.Common.{
  ℕ, String, Bool, true, false, ◌&&◌, Option, none, some, List, [], ◌∷◌, ◌++◌, map, leb,
  if◌then◌else◌, ◌===◌, String_eq, any, filter, ℕ_order, smallest,
}

-- An event of the subgraph, with the fields that are read: `nftId.contract.id` and `price`.
pub record MarketEvent : Type 0 where
  pub contract_id : String
  pub price : ℕ

pub record FloorPrice : Type 0 where
  pub contract_id : String
  pub floor_price : ℕ

-- `set.add(x)`
set_add : List String → String → List String
set_add seen x = if any (λ y. y === x) seen then seen else seen ++ x ∷ []

-- `new Set(ids)`, in insertion order
unique_from : List String → List String → List String
unfolding set_add
unique_from seen [] = seen
unique_from seen (x ∷ xs) = unique_from (set_add seen x) xs

-- The reduction over the items of one contract; `items[0].price` of no items throws.
floor_of : List MarketEvent → Option ℕ
unfolding smallest
floor_of [] = none
floor_of (item ∷ items) =
    some (smallest ℕ_order (λ p. p) item.price (map (λ (i : MarketEvent). i.price) (item ∷ items)))

abbrev pub of_contract : String → MarketEvent → Bool
of_contract id item = item.contract_id === id

-- The map over the contract ids; none where a reduction throws.
floors_of : List MarketEvent → List String → Option (List FloorPrice)
unfolding floor_of
floors_of items [] = some []
floors_of items (id ∷ ids) = elim (floor_of (filter (of_contract id) items)) [
  | none ↦ none
  | some p ↦ elim (floors_of items ids) [
    | none ↦ none
    | some rest ↦ some (record { contract_id = id; floor_price = p } ∷ rest)
  ]
]

pub contract_ids : List MarketEvent → List String
unfolding unique_from
contract_ids items = unique_from [] (map (λ (i : MarketEvent). i.contract_id) items)

pub get_floor_prices : List MarketEvent → Option (List FloorPrice)
unfolding floors_of contract_ids
get_floor_prices items = floors_of items (contract_ids items)

-- `price >= BigInt(min)`, true where the bound is undefined
abbrev pub at_least : Option ℕ → ℕ → Bool
at_least none p = true
at_least (some least) p = leb least p

abbrev pub at_most : Option ℕ → ℕ → Bool
at_most none p = true
at_most (some most) p = leb p most

-- The four branches on which of the bounds is given.
within : Option ℕ → Option ℕ → ℕ → Bool
within (some least) (some most) p = leb least p && leb p most
within (some least) none p = leb least p
within none (some most) p = leb p most
within none none p = true

pub filter_floor_prices : List FloorPrice → Option ℕ → Option ℕ → List FloorPrice
unfolding within
filter_floor_prices floors least most =
    filter (λ (f : FloorPrice). within least most f.floor_price) floors

-- `filterFloorPriceFromSubgraph`, from the two lists of events that the subgraph answers with.
pub filter_floor_price_from_subgraph :
    List MarketEvent → List MarketEvent → Option ℕ → Option ℕ → Option (List String)
unfolding get_floor_prices filter_floor_prices
filter_floor_price_from_subgraph selling1155 selling721 least most =
    elim (get_floor_prices (selling1155 ++ selling721)) [
      | none ↦ none
      | some floors ↦
          some (map (λ (f : FloorPrice). f.contract_id) (filter_floor_prices floors least most))
    ]
