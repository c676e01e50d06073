-- ===== src/Market/Floor.antt =====
-- `getFloorPrices` (src/modules/collection/collectionPrice.service.ts) and the prices
-- of the events.
use u2u_marketplace_api.Common.{
  ℕ, ◌≤◌, String, ◌≡◌, refl, sym, ap, ◌∙◌, inl, inr, false, some, List, [], ◌∷◌, ◌++◌, map, Memᴰ,
  arith, ltb, Bool-cases, ◌===◌, any, filter, ℕ_order, smallest, smallest-origin, smallest-IsBelow,
  All, All-append, All-at, String_eq, any-true, any-append, Memᴰ-append_left, Memᴰ-append_right,
  Memᴰ-cons, Memᴰ-map, map-Memᴰ, Memᴰ-filter, filter-Memᴰ,
}
use u2u_marketplace_api.Market.{
  MarketEvent, FloorPrice, set_add, unique_from, contract_ids, floor_of, of_contract, floors_of,
  get_floor_prices,
}

-- No text occurs twice.
abbrev pub Distinct : List String → Type 0
Distinct [] = Unit
Distinct (x ∷ xs) = (any (λ y. y === x) xs ≡ false) × Distinct xs

-- The least price that some event of the contract asks, and no event of it undercuts.
pub record IsFloor (items : List MarketEvent) (f : FloorPrice) : Type 0 where
  pub attained :
      (e : MarketEvent) × Memᴰ e items × (e.contract_id ≡ f.contract_id) × (e.price ≡ f.floor_price)
  pub least :
      (e : MarketEvent) → Memᴰ e items → e.contract_id ≡ f.contract_id → f.floor_price ≤ e.price

===_false : (x y : String) → (x === y) ≡ false → (y === x) ≡ false
===_false x y h = elim (Bool-cases (y === x)) [
  | inl t ↦ absurd (cc (h, (String_eq.beq_iff x y).1 (sym ((String_eq.beq_iff y x).0 t))))
  | inr f ↦ f
]

Distinct-append :
    (xs : List String) (x : String)
    → Distinct xs
    → any (λ y. y === x) xs ≡ false
    → Distinct (xs ++ x ∷ [])
Distinct-append [] x d h = (refl, tt)
Distinct-append (y ∷ xs) x (n, d) h = (
  any-append (λ z. z === y) xs (x ∷ []) ∙ ground (arith, n, ===_false y x),
  Distinct-append xs x d (ground arith),
)

set_add-All :
    (P : String → Type 0) (seen : List String) (x : String)
    → All P seen
    → P x
    → All P (set_add seen x)
unfolding set_add
set_add-All P seen x s p = elim (Bool-cases (any (λ y. y === x) seen)) [
  | inl t ↦ rw t s
  | inr f ↦ rw f (All-append P seen (x ∷ []) s (p, tt))
]

module _ (seen : List String) (x : String) where
  set_add-Distinct : Distinct seen → Distinct (set_add seen x)
  unfolding set_add
  set_add-Distinct d = elim (Bool-cases (any (λ y. y === x) seen)) [
    | inl t ↦ rw t d
    | inr f ↦ rw f (Distinct-append seen x d f)
  ]

  set_add-Memᴰ : {y : String} → Memᴰ y seen → Memᴰ y (set_add seen x)
  unfolding set_add
  set_add-Memᴰ m = elim (Bool-cases (any (λ y. y === x) seen)) [
    | inl t ↦ rw t m
    | inr f ↦ rw f (Memᴰ-append_left (x ∷ []) m)
  ]

  set_add-Memᴰ_self : Memᴰ x (set_add seen x)
  unfolding set_add
  set_add-Memᴰ_self = elim (Bool-cases (any (λ y. y === x) seen)) [
    | inl t ↦
        let (y, m, e) = any-true (λ y. y === x) seen t in
        rw t (rw ((String_eq.beq_iff y x).0 e) at m)
    | inr f ↦ rw f (Memᴰ-append_right seen (Memᴰ.head refl))
  ]

unique_from-Distinct : (seen xs : List String) → Distinct seen → Distinct (unique_from seen xs)
unfolding unique_from
unique_from-Distinct seen [] d = d
unique_from-Distinct seen (x ∷ xs) d =
    unique_from-Distinct (set_add seen x) xs (set_add-Distinct seen x d)

unique_from-seen : (seen xs : List String) {y : String} → Memᴰ y seen → Memᴰ y (unique_from seen xs)
unfolding unique_from
unique_from-seen seen [] m = m
unique_from-seen seen (x ∷ xs) m = unique_from-seen (set_add seen x) xs (set_add-Memᴰ seen x m)

unique_from-all : (seen xs : List String) {y : String} → Memᴰ y xs → Memᴰ y (unique_from seen xs)
unfolding unique_from
unique_from-all seen [] m = elim m [ ]
unique_from-all seen (x ∷ xs) m = elim (Memᴰ-cons m) [
  | inl e ↦ rw e (unique_from-seen (set_add seen x) xs (set_add-Memᴰ_self seen x))
  | inr k ↦ unique_from-all (set_add seen x) xs k
]

unique_from-only :
    (P : String → Type 0) (seen xs : List String)
    → All P seen
    → All P xs
    → All P (unique_from seen xs)
unfolding unique_from
unique_from-only P seen [] s a = s
unique_from-only P seen (x ∷ xs) s (p, a) =
    unique_from-only P (set_add seen x) xs (set_add-All P seen x s p) a

-- The reduction over the items of one contract gives the least of their prices.
floor_of-least :
    (e : MarketEvent) (es : List MarketEvent)
    → (p : ℕ) × (floor_of (e ∷ es) ≡ some p)
      × ((i : MarketEvent) × Memᴰ i (e ∷ es) × (i.price ≡ p))
      × ((i : MarketEvent) → Memᴰ i (e ∷ es) → p ≤ i.price)
unfolding floor_of
floor_of-least e es = (
  least,
  refl,
  elim (smallest-origin ℕ_order (λ p. p) e.price prices) [
    | inl same ↦ (e, Memᴰ.head refl, sym same)
    | inr (m, _) ↦ let (i, k, same) = map-Memᴰ price_of (e ∷ es) m in (i, k, sym same)
  ],
  λ i m.
      let below =
        All-at (λ x. ltb x least ≡ false) (smallest-IsBelow ℕ_order (λ p. p) e.price prices)
          (Memᴰ-map price_of m) in
      ground (arith, below),
)
  where
    price_of : MarketEvent → ℕ
    price_of i = i.price

    prices : List ℕ
    prices = map price_of (e ∷ es)

    least : ℕ
    least = smallest ℕ_order (λ p. p) e.price prices

abbrev Occurs : List MarketEvent → String → Type 0
Occurs items id = (e : MarketEvent) × Memᴰ e items × (e.contract_id ≡ id)

floor_of-IsFloor :
    (items : List MarketEvent) (id : String)
    → Occurs items id
    → (p : ℕ) × (floor_of (filter (of_contract id) items) ≡ some p)
      × IsFloor items (record { contract_id = id; floor_price = p })
floor_of-IsFloor items id (e, m, same) =
    go (filter (of_contract id) items) refl
      (filter-Memᴰ (of_contract id) items m ((String_eq.beq_iff e.contract_id id).1 same))
  where
    go :
        (own : List MarketEvent)
        → filter (of_contract id) items ≡ own
        → Memᴰ e own
        → (p : ℕ) × (floor_of own ≡ some p)
          × IsFloor items (record { contract_id = id; floor_price = p })
    go [] f k = elim k [ ]
    go (x ∷ xs) f k =
        let (p, floor, (i, n, price), least) = floor_of-least x xs in
        let (n', own) = Memᴰ-filter (of_contract id) items (rw f n) in
        (
          p,
          floor,
          record {
            attained = (i, n', (String_eq.beq_iff i.contract_id id).0 own, price);
            least = λ j k' same'. least j (
                rw f at (
                  filter-Memᴰ (of_contract id) items k'
                    ((String_eq.beq_iff j.contract_id id).1 same')));
          },
        )

floors_of-IsFloor :
    (items : List MarketEvent) (ids : List String)
    → All (Occurs items) ids
    → (fs : List FloorPrice) × (floors_of items ids ≡ some fs)
      × (map (λ (f : FloorPrice). f.contract_id) fs ≡ ids)
      × All (IsFloor items) fs
unfolding floors_of
floors_of-IsFloor items [] h = ([], refl, refl, tt)
floors_of-IsFloor items (id ∷ ids) (o, h) =
    let (p, floor, good) = floor_of-IsFloor items id o in
    let (fs, rest, same, goods) = floors_of-IsFloor items ids h in
    (
      record { contract_id = id; floor_price = p } ∷ fs,
      ground (arith, floor, rest),
      ap (λ l. id ∷ l) same,
      (good, goods),
    )

ids_occur :
    (items rest : List MarketEvent)
    → ((e : MarketEvent) → Memᴰ e rest → Memᴰ e items)
    → All (Occurs items) (map (λ (i : MarketEvent). i.contract_id) rest)
ids_occur items [] f = tt
ids_occur items (e ∷ rest) f =
    ((e, f e (Memᴰ.head refl), refl), ids_occur items rest (λ x m. f x (Memᴰ.tail m)))

abbrev pub floor_ids : List FloorPrice → List String
floor_ids floors = map (λ (f : FloorPrice). f.contract_id) floors

pub get_floor_prices-ids :
    (items : List MarketEvent)
    → (floors : List FloorPrice) × (get_floor_prices items ≡ some floors)
      × (floor_ids floors ≡ contract_ids items)
      × All (IsFloor items) floors
unfolding get_floor_prices contract_ids
get_floor_prices-ids items = floors_of-IsFloor items (contract_ids items) (
    unique_from-only (Occurs items) [] (map (λ (i : MarketEvent). i.contract_id) items) tt
      (ids_occur items items (λ e m. m)))

contract_ids-Distinct : (items : List MarketEvent) → Distinct (contract_ids items)
unfolding contract_ids
contract_ids-Distinct items =
    unique_from-Distinct [] (map (λ (i : MarketEvent). i.contract_id) items) tt

contract_ids-all :
    (items : List MarketEvent) (e : MarketEvent)
    → Memᴰ e items
    → Memᴰ e.contract_id (contract_ids items)
unfolding contract_ids
contract_ids-all items e m =
    unique_from-all [] (map (λ (i : MarketEvent). i.contract_id) items)
      (Memᴰ-map (λ (i : MarketEvent). i.contract_id) m)

-- `getFloorPrices` never throws. It has one entry for each contract of the events and no other,
-- and the entry's price is the least that an event of the contract asks.
pub get_floor_prices-IsFloor :
    (items : List MarketEvent)
    → (floors : List FloorPrice) × (get_floor_prices items ≡ some floors)
      × Distinct (floor_ids floors)
      × ((e : MarketEvent) → Memᴰ e items → Memᴰ e.contract_id (floor_ids floors))
      × All (IsFloor items) floors
get_floor_prices-IsFloor items =
    let (floors, same, ids, goods) = get_floor_prices-ids items in
    (
      floors,
      same,
      rw ids (contract_ids-Distinct items),
      λ e m. rw ids (contract_ids-all items e m),
      goods,
    )
