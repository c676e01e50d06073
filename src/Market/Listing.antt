-- ===== src/Market/Listing.antt =====
-- `handleFormatNFTResponse` (src/modules/nft/helper/nft-helper.service.ts): the cheapest listing
-- of a token, with the rates of its quote token.
use u2u_marketplace_api.Common.{
  ℕ, String, ◌≡◌, refl, inl, inr, Option, none, some, List, [], ◌∷◌, Memᴰ, if◌then◌else◌, ◌===◌,
  String_eq, StrictOrder, smallest, smallest-origin, smallest-IsBelow, IsBelow, All, lookup,
}

-- `SELL_STATUS` of prisma/schema.prisma
pub data SellStatus : Type 0 where
  ask_new ask_cancel trade accept_bid bid cancel_bid : SellStatus

-- `MarketplaceStatus` of prisma/schema.prisma, with the columns that are read. `Amount` is the
-- type of a double column.
pub record Listing (Amount : Type 0) : Type 0 where
  pub token_id : String
  pub collection_id : String
  pub quote_token : Option String
  pub price : Amount
  pub price_wei : String
  pub event : SellStatus
  pub quantity : ℕ
  pub ask_id : Option String

-- `QuoteTokens` of prisma/schema.prisma
pub record QuoteToken (Amount : Type 0) : Type 0 where
  pub derived_eth : Amount
  pub derived_usd : Amount

-- The fields that the response adds to the row of a token.
pub record Offer (Amount : Type 0) : Type 0 where
  pub price : String
  pub sell_status : SellStatus
  pub quantity : ℕ
  pub ask_id : Option String
  pub quote_token : Option String
  pub derived_eth : Amount
  pub derived_usd : Amount

module _ {Amount : Type 0} (order : StrictOrder Amount) (zero_amount : Amount)
    (quote_tokens : List (String × QuoteToken Amount)) where
  abbrev pub price_of : Listing Amount → Amount
  price_of l = l.price

  -- `getQuoteTokens`: an address that is missing or '' is not looked up.
  unfoldable pub get_quote_tokens : Option String → Option (QuoteToken Amount)
  get_quote_tokens none = none
  get_quote_tokens (some address) = if address === "" then none else lookup address quote_tokens

  -- `quoteTokenData?.derivedETH || 0`; the other value that is falsy, 0, is the same number.
  abbrev pub derived : (QuoteToken Amount → Amount) → Option (QuoteToken Amount) → Amount
  derived field none = zero_amount
  derived field (some q) = field q

  abbrev pub offer_of : Listing Amount → Offer Amount
  offer_of l = record {
    price = l.price_wei;
    sell_status = l.event;
    quantity = l.quantity;
    ask_id = l.ask_id;
    quote_token = l.quote_token;
    derived_eth = derived (λ q. q.derived_eth) (get_quote_tokens l.quote_token);
    derived_usd = derived (λ q. q.derived_usd) (get_quote_tokens l.quote_token);
  }

  -- One item of `handleFormatNFTResponse`, from its `MarketplaceByTokenId`; none where the row
  -- comes back as it is.
  unfoldable pub format_nft : List (Listing Amount) → Option (Offer Amount)
  format_nft [] = none
  format_nft (l ∷ listings) = some (offer_of (smallest order price_of l (l ∷ listings)))

  -- The response of a token has an offer exactly when it has a listing, and the offer is one of
  -- its listings that no other undercuts.
  abbrev pub IsCheapest : List (Listing Amount) → Option (Offer Amount) → Type 0
  IsCheapest listings none = listings ≡ []
  IsCheapest listings (some offer) =
      (l : Listing Amount) × Memᴰ l listings
      × (offer ≡ offer_of l)
      × All (IsBelow order price_of l) listings

  format_nft-IsCheapest :
      (listings : List (Listing Amount)) → IsCheapest listings (format_nft listings)
  unfolding format_nft get_quote_tokens
  format_nft-IsCheapest [] = refl
  format_nft-IsCheapest (l ∷ listings) = (
    smallest order price_of l (l ∷ listings),
    elim (smallest-origin order price_of l (l ∷ listings)) [
      | inl same ↦ Memᴰ.head same
      | inr (m, _) ↦ m
    ],
    refl,
    smallest-IsBelow order price_of l (l ∷ listings),
  )

module _ {Nft Amount : Type 0} (order : StrictOrder Amount) (zero_amount : Amount)
    (quote_tokens : List (String × QuoteToken Amount)) where
  unfoldable pub handle_format_nft_response :
      List (Nft × List (Listing Amount)) → List (Nft × Option (Offer Amount))
  unfolding format_nft get_quote_tokens
  handle_format_nft_response [] = []
  handle_format_nft_response ((nft, listings) ∷ rest) =
      (nft, format_nft order zero_amount quote_tokens listings) ∷ handle_format_nft_response rest

  -- Row by row: the token is the same, and its offer is its cheapest listing.
  abbrev pub AllCheapest :
      List (Nft × List (Listing Amount)) → List (Nft × Option (Offer Amount)) → Type 0
  AllCheapest [] [] = Unit
  AllCheapest [] (_ ∷ _) = ⊥
  AllCheapest (_ ∷ _) [] = ⊥
  AllCheapest ((nft, listings) ∷ rows) ((nft', offer) ∷ rest) =
      (nft ≡ nft')
      × IsCheapest order zero_amount quote_tokens listings offer
      × AllCheapest rows rest

  -- Every token keeps its row and its place. A token with listings gets as its offer one of them
  -- that no other undercuts, with the rates of that listing's quote token; a token without a
  -- listing gets none.
  pub handle_format_nft_response-AllCheapest :
      (rows : List (Nft × List (Listing Amount)))
      → AllCheapest rows (handle_format_nft_response rows)
  unfolding handle_format_nft_response
  handle_format_nft_response-AllCheapest [] = tt
  handle_format_nft_response-AllCheapest ((nft, listings) ∷ rows) = (
    refl,
    format_nft-IsCheapest order zero_amount quote_tokens listings,
    handle_format_nft_response-AllCheapest rows,
  )
