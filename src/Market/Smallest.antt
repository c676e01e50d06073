-- ===== src/Market/Smallest.antt =====
-- `getSmallestPrices` (src/modules/nft/helper/nft-helper.service.ts): of the listings with one
-- token, collection and quote token, the cheapest.
use Prim.Native.String
use u2u_marketplace_api.Common.{
  ℕ, String, ◌≡◌, refl, sym, ◌⊎◌, inl, inr, true, false, Option, none, some, List, [], ◌∷◌, map,
  Memᴰ, if◌then◌else◌, Bool-cases, Option-cases, ◌===◌, String_eq, StrictOrder, All, lookup, insert,
  lookup-insert, lookup-insert_self, DistinctKeys, insert-DistinctKeys, lookup-Memᴰ, Memᴰ-cons,
  All-at, map-Memᴰ, Memᴰ-map, ===-ne, ◌≢◌, ◌∙◌,
}
use u2u_marketplace_api.Market.Listing.{Listing, SellStatus}

-- A template writes `null` where the value is null.
abbrev pub text_of : Option String → String
text_of none = "null"
text_of (some s) = s

-- A template string, from its parts.
abbrev pub template : List String → String
template [] = ""
template (part ∷ parts) = String.◌++◌ part (template parts)

-- `formatDataNFTForSort` adds these fields to the row of the token.
pub record Sorted (Nft Amount : Type 0) : Type 0 where
  pub nft : Nft
  pub price : String
  pub sell_status : SellStatus
  pub quantity : ℕ
  pub ask_id : Option String
  pub quote_token : Option String

-- The values of `uniqueCombinationMap`: `{ price, item }`.
abbrev pub Slot : Type 0 → Type 0 → Type 0
Slot Nft Amount = Amount × (Nft × Listing Amount)

module _ {Nft Amount : Type 0} where
  -- `${tokenId}-${collectionId}-${quoteToken}`
  abbrev pub key : Nft × Listing Amount → String
  key (_, l) = template (l.token_id ∷ "-" ∷ l.collection_id ∷ "-" ∷ text_of l.quote_token ∷ [])

  abbrev pub slot_of : Nft × Listing Amount → Slot Nft Amount
  slot_of item = (item.1.price, item)

  abbrev pub format_sorted : Nft × Listing Amount → Sorted Nft Amount
  format_sorted (nft, l) = record {
    nft = nft;
    price = l.price_wei;
    sell_status = l.event;
    quantity = l.quantity;
    ask_id = l.ask_id;
    quote_token = l.quote_token;
  }

module _ {Nft Amount : Type 0} (order : StrictOrder Amount) where
  open order use {lt, lt_irrefl, lt_trans}

  -- One round of the `forEach`.
  put_smaller :
      List (String × Slot Nft Amount) → Nft × Listing Amount → List (String × Slot Nft Amount)
  put_smaller unique item = elim (lookup (key item) unique) [
    | none ↦ insert (key item) (slot_of item) unique
    | some old ↦ if lt item.1.price old.0 then insert (key item) (slot_of item) unique else unique
  ]

  unique_combinations :
      List (String × Slot Nft Amount)
      → List (Nft × Listing Amount)
      → List (String × Slot Nft Amount)
  unfolding put_smaller
  unique_combinations unique [] = unique
  unique_combinations unique (item ∷ items) = unique_combinations (put_smaller unique item) items

  unfoldable pub unique_items : List (Nft × Listing Amount) → List (Nft × Listing Amount)
  unfolding unique_combinations
  unique_items items = map (λ e. e.1.1) (unique_combinations [] items)

  unfoldable pub get_smallest_prices : List (Nft × Listing Amount) → List (Sorted Nft Amount)
  unfolding unique_items
  get_smallest_prices items = map format_sorted (unique_items items)

  -- An entry holds an item of `all` under its own key, with its price.
  abbrev Entry : List (Nft × Listing Amount) → String × Slot Nft Amount → Type 0
  Entry all (k, (p, item)) = (k ≡ key item) × (p ≡ item.1.price) × Memᴰ item all

  -- The map has a slot for the item's key that the item does not undercut.
  abbrev Covered : List (String × Slot Nft Amount) → Nft × Listing Amount → Type 0
  Covered unique x =
      (s : Slot Nft Amount) × (lookup (key x) unique ≡ some s) × (lt x.1.price s.0 ≡ false)

  insert-Entry :
      (all : List (Nft × Listing Amount)) (item : Nft × Listing Amount)
      (unique : List (String × Slot Nft Amount))
      → Memᴰ item all
      → All (Entry all) unique
      → All (Entry all) (insert (key item) (slot_of item) unique)
  insert-Entry all item [] m h = ((refl, refl, m), tt)
  insert-Entry all item ((k, s) ∷ unique) m (p, h) = elim (Bool-cases (k === key item)) [
    | inl t ↦ rw t (((String_eq.beq_iff k (key item)).0 t, refl, m), h)
    | inr f ↦ rw f (p, insert-Entry all item unique m h)
  ]

  module _ (all : List (Nft × Listing Amount)) (item : Nft × Listing Amount)
      (unique : List (String × Slot Nft Amount)) where
    put_smaller-Entry :
        Memᴰ item all → All (Entry all) unique → All (Entry all) (put_smaller unique item)
    unfolding put_smaller
    put_smaller-Entry m h = elim (Option-cases (lookup (key item) unique)) [
      | inl n ↦ rw (n, put_smaller) (insert-Entry all item unique m h)
      | inr (old, e) ↦ elim (Bool-cases (lt item.1.price old.0)) [
        | inl t ↦ rw (e, t, put_smaller) (insert-Entry all item unique m h)
        | inr f ↦ rw (e, f, put_smaller) h
      ]
    ]

    put_smaller-DistinctKeys : DistinctKeys unique → DistinctKeys (put_smaller unique item)
    unfolding put_smaller
    put_smaller-DistinctKeys h = elim (Option-cases (lookup (key item) unique)) [
      | inl n ↦ rw (n, put_smaller) (insert-DistinctKeys (key item) (slot_of item) unique h)
      | inr (old, e) ↦ elim (Bool-cases (lt item.1.price old.0)) [
        | inl t ↦ rw (e, t, put_smaller) (insert-DistinctKeys (key item) (slot_of item) unique h)
        | inr f ↦ rw (e, f, put_smaller) h
      ]
    ]

    put_smaller-Covered_self : Covered (put_smaller unique item) item
    unfolding put_smaller
    put_smaller-Covered_self = elim (Option-cases (lookup (key item) unique)) [
      | inl n ↦ rw (n, put_smaller) inserted
      | inr (old, e) ↦ elim (Bool-cases (lt item.1.price old.0)) [
        | inl t ↦ rw (e, t, put_smaller) inserted
        | inr f ↦ rw (e, f, put_smaller) (old, e, f)
      ]
    ]
      where
        inserted : Covered (insert (key item) (slot_of item) unique) item
        inserted = (
          slot_of item,
          lookup-insert_self (key item) (slot_of item) unique,
          lt_irrefl item.1.price,
        )

    -- A slot that is replaced is replaced by a cheaper one.
    insert-Covered :
        (x : Nft × Listing Amount)
        → ((s : Slot Nft Amount) → lookup (key item) unique ≡ some s → lt item.1.price s.0 ≡ true)
        → Covered unique x
        → Covered (insert (key item) (slot_of item) unique) x
    insert-Covered x cheaper (s, e, below) = elim (Bool-cases (key item === key x)) [
      | inl t ↦ (
        slot_of item,
        lookup-insert (key item) (key x) (slot_of item) unique ∙ rw t refl,
        elim (Bool-cases (lt x.1.price item.1.price)) [
          | inl under ↦
              let same = (String_eq.beq_iff (key item) (key x)).0 t in
              absurd (cc (below, lt_trans _ _ _ under (cheaper s (rw same e))))
          | inr f ↦ f
        ],
      )
      | inr f ↦ (s, lookup-insert (key item) (key x) (slot_of item) unique ∙ rw f e, below)
    ]

    put_smaller-Covered :
        (x : Nft × Listing Amount) → Covered unique x → Covered (put_smaller unique item) x
    unfolding put_smaller
    put_smaller-Covered x c = elim (Option-cases (lookup (key item) unique)) [
      | inl n ↦ rw (n, put_smaller) (insert-Covered x (λ s e. absurd (cc (n, e))) c)
      | inr (old, e) ↦ elim (Bool-cases (lt item.1.price old.0)) [
        | inl t ↦
            rw (e, t, put_smaller)
              (insert-Covered x (λ s e'. let same : old ≡ s = cc (e, e') in rw (← same) t) c)
        | inr f ↦ rw (e, f, put_smaller) c
      ]
    ]

  record IsUnique (all : List (Nft × Listing Amount)) (unique : List (String × Slot Nft Amount))
      : Type 0 where
    entries : All (Entry all) unique
    distinct : DistinctKeys unique

  unique_combinations-IsUnique :
      (all items : List (Nft × Listing Amount)) (unique : List (String × Slot Nft Amount))
      → ((x : Nft × Listing Amount) → Memᴰ x items → Memᴰ x all)
      → IsUnique all unique
      → IsUnique all (unique_combinations unique items)
  unfolding unique_combinations
  unique_combinations-IsUnique all [] unique within h = h
  unique_combinations-IsUnique all (item ∷ items) unique within h =
      unique_combinations-IsUnique all items (put_smaller unique item)
        (λ x m. within x (Memᴰ.tail m))
        (record {
          entries = put_smaller-Entry all item unique (within item (Memᴰ.head refl)) h.entries;
          distinct = put_smaller-DistinctKeys all item unique h.distinct;
        })

  unique_combinations-Covered :
      (items : List (Nft × Listing Amount)) (unique : List (String × Slot Nft Amount))
      (x : Nft × Listing Amount)
      → Covered unique x ⊎ Memᴰ x items
      → Covered (unique_combinations unique items) x
  unfolding unique_combinations
  unique_combinations-Covered [] unique x (inl c) = c
  unique_combinations-Covered [] unique x (inr m) = elim m [ ]
  unique_combinations-Covered (item ∷ items) unique x (inl c) =
      unique_combinations-Covered items (put_smaller unique item) x
        (inl (put_smaller-Covered [] item unique x c))
  unique_combinations-Covered (item ∷ items) unique x (inr m) = elim (Memᴰ-cons m) [
    | inl e ↦
        unique_combinations-Covered items (put_smaller unique item) x
          (inl (rw e (put_smaller-Covered_self [] item unique)))
    | inr k ↦ unique_combinations-Covered items (put_smaller unique item) x (inr k)
  ]

  -- No two items have one key.
  abbrev pub DistinctItems : List (Nft × Listing Amount) → Type 0
  DistinctItems [] = Unit
  DistinctItems (x ∷ xs) = All (λ y. key y ≢ key x) xs × DistinctItems xs

  lookup-none :
      (all : List (Nft × Listing Amount)) (k : String) (unique : List (String × Slot Nft Amount))
      → All (Entry all) unique
      → lookup k unique ≡ none
      → All (λ y. key y ≢ k) (map (λ e. e.1.1) unique)
  lookup-none all k [] h n = tt
  lookup-none all k ((j, s) ∷ unique) (p, h) n = elim (Bool-cases (j === k)) [
    | inl t ↦ absurd (cc (rw (t, lookup) at n))
    | inr f ↦ (λ same. ===-ne j k f (p.0 ∙ same), lookup-none all k unique h (rw (f, lookup) at n))
  ]

  DistinctKeys-items :
      (all : List (Nft × Listing Amount)) (unique : List (String × Slot Nft Amount))
      → All (Entry all) unique
      → DistinctKeys unique
      → DistinctItems (map (λ e. e.1.1) unique)
  DistinctKeys-items all [] h d = tt
  DistinctKeys-items all ((k, s) ∷ unique) (p, h) (n, d) =
      (rw (← p.0) (lookup-none all k unique h n), DistinctKeys-items all unique h d)

  -- Of the listings, those that `getSmallestPrices` formats have distinct keys and are among the
  -- given ones, and each given listing has one of its key among them that it does not undercut.
  pub unique_items_lem :
      (items : List (Nft × Listing Amount))
      → DistinctItems (unique_items items)
        × ((y : Nft × Listing Amount) → Memᴰ y (unique_items items) → Memᴰ y items)
        × ((x : Nft × Listing Amount)
            → Memᴰ x items
            → (y : Nft × Listing Amount) × Memᴰ y (unique_items items)
              × (key y ≡ key x)
              × (lt x.1.price y.1.price ≡ false))
  unfolding unique_items
  unique_items_lem items =
      let inv =
        unique_combinations-IsUnique items items [] (λ x m. m)
          (record { entries = tt; distinct = tt }) in
      (
        DistinctKeys-items items _ inv.entries inv.distinct,
        λ y m.
            let (e, k, same) = map-Memᴰ (λ e. e.1.1) _ m in
            rw same (All-at (Entry items) inv.entries k).2,
        λ x m.
            let (s, e, below) = unique_combinations-Covered items [] x (inr m) in
            let k = lookup-Memᴰ (key x) s _ e in
            let (same, price, _) = All-at (Entry items) inv.entries k in
            (s.1, Memᴰ-map (λ e. e.1.1) k, sym same, rw (← price) below),
      )
