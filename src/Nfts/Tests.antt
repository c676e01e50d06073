-- ===== src/Nfts/Tests.antt =====
-- Runs of the creation of NFTs, and the theorems at concrete tables.
use u2u_marketplace_api.Common.{
  ℕ, String, ◌≡◌, ◌⊎◌, refl, true, false, Bool, Option, none, some, [], ◌∷◌, arith,
}
use u2u_marketplace_api.Common.Int.{pos}
use u2u_marketplace_api.Database.Listed.{listed}
use u2u_marketplace_api.Database.Schema.{success, erc721, Collection, Db, done, failed}
use u2u_marketplace_api.Metric.{num, Award}
use u2u_marketplace_api.Nfts.{
  CreateNft, nft_created, get_ipfs, crawl_single, new_nft, after_prefix, create_nft, crawl_nft_info,
}
use u2u_marketplace_api.Nfts.Validator.{validate_unique_field}
use u2u_marketplace_api.Nfts.Keys.{IsMinted, create_all, create_all-IsMinted}
use u2u_marketplace_api.Nfts.Names.{validate_unique_field-create_nft}
use u2u_marketplace_api.Common.{List}
use u2u_marketplace_api.Database.Schema.{User, erc1155, refused}
use u2u_marketplace_api.Launchpad.Subscribe.{new_user}
use u2u_marketplace_api.Nfts.Owners.{
  Balance, Owners, Creator, creator_select, known, address_only, get_current_owners_internal,
}
use u2u_marketplace_api.Nfts.Holders.{IsOwned, IsSupplied, Lists, get_current_owners_internal_iff}

abbrev nothing_yet : Award
nothing_yet = record { level = record { key = ""; value = num (pos 0); point = 0 }; total = 0 }

abbrev cats : Collection
cats = record {
  id = 4;
  tx_creation_hash = "0x1";
  name = "Cats";
  name_slug = some "cats";
  symbol = "CAT";
  description = none;
  address = some "0xcafe";
  short_url = none;
  metadata = none;
  status = success;
  type = erc721;
  category_id = none;
  cover_image = none;
  avatar = none;
  is_verified = false;
  floor_price = 0;
  is_active = true;
  flag_extend = false;
  project_id = none;
  metric = record {
    metric_point = pos 0;
    metric_detail = record {
      verified = pos 0;
      volume = nothing_yet;
      total_unique_owner = nothing_yet;
      total_items = nothing_yet;
    };
  };
}

abbrev tables : Db
tables = record {
  users = [];
  follows = [];
  nfts = [];
  user_nfts = [];
  collections = cats ∷ [];
  user_collections = [];
  statuses = [];
  projects = [];
  subscriptions = [];
}

abbrev kitten : CreateNft
kitten = record {
  id = "7";
  u2u_id = none;
  name = "Kitten";
  image = none;
  animation_url = none;
  token_uri = "ipfs://abc";
  tx_creation_hash = "0x2";
  collection_id = "0x";
}

-- A text that the other starts with is a part of it.
abbrev starts : String → String → Bool
starts text part = elim (after_prefix part text) [ none ↦ false | some rest ↦ true ]

abbrev no_uuid : String → Option ℕ
no_uuid text = none

-- The start of an address is enough to have the NFT made in the collection.
minted : (create_nft listed starts kitten 1 tables).0 ≡ done (new_nft kitten 1 4)
unfolding create_nft after_prefix
minted = refl

told :
    (create_nft listed starts kitten 1 tables).2
    ≡ nft_created "0x2" erc721 4 ∷ get_ipfs (some "0xcafe") "7" "abc" ∷ []
unfolding create_nft after_prefix
told = refl

again :
    (create_nft listed starts kitten 2 (create_nft listed starts kitten 1 tables).1).0
    ≡ failed "Transaction already submitted"
unfolding create_nft after_prefix
again = refl

crawled :
    crawl_nft_info listed "0xCAFE" (some "0x9") tables ≡ (done none, crawl_single erc721 "0x9" ∷ [])
unfolding crawl_nft_info
crawled = refl

abbrev nothing_minted : IsMinted tables
nothing_minted = record {
  one_key = λ id c. omega arith;
  one_transaction = λ tx. omega arith;
  one_name = λ name c. omega arith;
  owned = tt;
  linked = tt;
}

create_all-IsMinted_example :
    IsMinted (create_all listed starts ((kitten, 1) ∷ (kitten, 2) ∷ []) tables)
create_all-IsMinted_example =
    create_all-IsMinted listed starts ((kitten, 1) ∷ (kitten, 2) ∷ []) tables nothing_minted

validate_unique_field-create_nft_example :
    (create_nft listed starts kitten 1 tables).0 ≡ done (new_nft kitten 1 4)
unfolding validate_unique_field after_prefix
validate_unique_field-create_nft_example =
    validate_unique_field-create_nft listed no_uuid starts kitten 1 cats tables false tt refl refl
      refl refl refl

abbrev eve : User
eve = new_user 1 "0xe"

abbrev held : List Balance
held =
    record { account = none; value = 5 }
    ∷ record { account = some "0xe"; value = 3 }
    ∷ record { account = some "0xf"; value = 2 }
    ∷ []

abbrev with_eve : Db
with_eve = record tables { users = eve ∷ [] }

abbrev eve_shown : Creator
eve_shown = creator_select eve

get_current_owners_internal_iff_example :
    ((get_current_owners_internal listed erc1155 held [] with_eve ≡ refused)
      × ((¬ IsOwned held with_eve) ⊎ (¬ IsSupplied held)))
    ⊎ ((answer : Owners) × (get_current_owners_internal listed erc1155 held [] with_eve
          ≡ done answer)
        × Lists held with_eve answer)
get_current_owners_internal_iff_example = get_current_owners_internal_iff listed held [] with_eve

with_eve_known :
    get_current_owners_internal listed erc1155 held [] with_eve
    ≡ done (record { owners = known eve_shown (some 3) ∷ []; total_supply = 5 })
unfolding get_current_owners_internal
with_eve_known = refl

-- The same balances where nobody is a user: the request throws, where for an ERC721 the owner's
-- address is answered.
nobody_known : get_current_owners_internal listed erc1155 held [] tables ≡ refused
unfolding get_current_owners_internal
nobody_known = refl

address_known :
    get_current_owners_internal listed erc721 [] ("0xf" ∷ []) tables
    ≡ done (record { owners = address_only "0xf" ∷ []; total_supply = 1 })
unfolding get_current_owners_internal
address_known = refl
