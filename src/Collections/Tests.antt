-- ===== src/Collections/Tests.antt =====
-- Runs of the collections, and the theorems at concrete tables.
use u2u_marketplace_api.Common.{
  ℕ, String, ◌≡◌, ◌⊎◌, refl, true, false, Bool, Option, none, some, List, [], ◌∷◌, ◌&&◌, find, any,
  map_where, All, Memᴰ, ◌≢◌,
}
use u2u_marketplace_api.Common.Int.{pos}
use u2u_marketplace_api.Database.Listed.{listed}
use u2u_marketplace_api.Database.Schema.{
  success, erc721, Collection, UserCollection, Db, done, refused,
}
use u2u_marketplace_api.Metric.{num, Award, CollectionMetric, General}
use u2u_marketplace_api.Metric.Handlers.{ContractCount, CollectionCount}
use u2u_marketplace_api.Paging.Pages.{find_on_page}
use u2u_marketplace_api.Session.Stored.{stored}
use u2u_marketplace_api.Collections.{
  CreateCollection, UpdateCollection, new_collection, is_link, is_collection, apply_collection,
  create_collection, update_collection,
}
use u2u_marketplace_api.Collections.Rights.{update_collection-rights, update-create_collection}
use u2u_marketplace_api.Collections.General.{get_all_collection_external}
use u2u_marketplace_api.Collections.Listing.{
  CollectionFilter, every, desc, CollectionPage, public_where, office_where, meets, slug_has,
  slug_of, made_by, if_any, same_status, at_least, at_most, in_whole, creator_ids,
  find_all_collections,
}
use u2u_marketplace_api.Collections.Shown.{
  IsAsked, wheres_lem, find_all_collections_sound, find_all_collections-extended,
}
use u2u_marketplace_api.Cms.Collections.{Office}
use u2u_marketplace_api.Cms.Rounds.{handle_action_log}
use u2u_marketplace_api.Cms.Active.{handle_active_collection, set_collection_active}
use u2u_marketplace_api.Cms.Hidden.{handle_active_collection-hides}
use u2u_marketplace_api.Launchpad.Subscribe.{new_user}

abbrev nothing_yet : Award
nothing_yet = record { level = record { key = ""; value = num (pos 0); point = 0 }; total = 0 }

abbrev no_metric : CollectionMetric
no_metric = record {
  metric_point = pos 0;
  metric_detail = record {
    verified = pos 0;
    volume = nothing_yet;
    total_unique_owner = nothing_yet;
    total_items = nothing_yet;
  };
}

abbrev birds_input : CreateCollection
birds_input = record {
  tx_creation_hash = "0x1";
  name = "Birds";
  symbol = "BRD";
  description = none;
  type = erc721;
  short_url = some "birds";
  cover_image = none;
  metadata = none;
  avatar = none;
  category_id = none;
}

abbrev birds : Collection
birds = new_collection no_metric 4 birds_input

abbrev tables_with : List Collection → List UserCollection → Db
tables_with collections links = record {
  users = [];
  follows = [];
  nfts = [];
  user_nfts = [];
  collections = collections;
  user_collections = links;
  statuses = [];
  projects = [];
  subscriptions = [];
}

abbrev fourth : String → Option ℕ
fourth text = some 4

abbrev describe : UpdateCollection
describe = record { description = some "small"; cover_image = none; short_url = none }

abbrev owned : Db
owned = tables_with (birds ∷ []) (record { user_id = 1; collection_id = 4 } ∷ [])

update_collection-rights_example :
    ((update_collection listed fourth "4" describe 1 owned).1 ≡ owned)
    ⊎ ((id : ℕ) × (existing : Collection) × (fourth "4" ≡ some id)
        × (find (is_collection id) owned.collections ≡ some existing)
        × (any (is_link 1 id) owned.user_collections ≡ true)
        × ((update_collection listed fourth "4" describe 1 owned).1 ≡ record owned {
          collections =
              map_where (is_collection id) (apply_collection describe existing) owned.collections;
        }))
update_collection-rights_example = update_collection-rights listed fourth "4" describe 1 owned

update-create_collection_example :
    (update_collection listed fourth "4" describe 1
      (create_collection listed no_metric birds_input 1 4 (tables_with [] [])).1).0
    ≡ done (apply_collection describe birds birds)
unfolding create_collection
update-create_collection_example =
    update-create_collection listed no_metric birds_input 1 4 (tables_with [] []) birds refl fourth
      "4" refl describe refl

abbrev seen : ContractCount
seen = record { volume = "9"; holder_count = 5; count = 7 }

abbrev only_1155 : String → Option CollectionCount
only_1155 address = some (record { erc721_contract = none; erc1155_contract = some seen })

-- Prices from one to three tokens.
abbrev one_to_three : CollectionFilter
one_to_three = record {
  name = none;
  creator_addresses = none;
  min = some 1000000000000000000;
  max = some 3000000000000000000;
  sort_by = every;
  direction = desc;
  page = 1;
  limit = 10;
}

abbrev anywhere : String → String → Bool
anywhere text part = true

-- Two tokens, extended, and without a record in the store.
abbrev priced : Collection
priced = record birds { status = success; floor_price = 2; address = some "0xc" }

wheres_lem_example :
    (meets anywhere [] (public_where one_to_three []) priced ≡ (
      slug_has anywhere (slug_of one_to_three.name) priced.name_slug
      && (made_by [] (if_any []) priced.id
          && (same_status success priced.status
              && (at_least (in_whole one_to_three.min) priced.floor_price
                  && (at_most (in_whole one_to_three.max) priced.floor_price
                      && priced.is_active))))))
    × (meets anywhere [] (office_where one_to_three []) priced ≡ (
        slug_has anywhere (slug_of one_to_three.name) priced.name_slug
        && (made_by [] (some []) priced.id
            && (same_status success priced.status
                && (at_least (in_whole one_to_three.min) priced.floor_price
                    && (at_most (in_whole one_to_three.max) priced.floor_price && true))))))
wheres_lem_example = wheres_lem anywhere [] one_to_three [] priced

abbrev zeros : General
zeros = record { volumn = num (pos 0); total_owner = num (pos 0); total_nft = num (pos 0) }

abbrev shown : CollectionPage
shown = record { rows = (priced, zeros) ∷ []; has_next = false }

-- Two users, the second with the address asked for, who made the collection.
abbrev by_address : CollectionFilter
by_address = record one_to_three { creator_addresses = some ("0xB" ∷ []) }

abbrev made : Db
made = record (tables_with (priced ∷ []) (record { user_id = 2; collection_id = 4 } ∷ [])) {
  users =
      record (new_user 1 "0xa") { public_key = some "0xA" }
      ∷ record (new_user 2 "0xb") { public_key = some "0xb" }
      ∷ [];
}

find_all_collections_sound_example :
    All
      (λ (r : Collection × General).
        Memᴰ r.0 (priced ∷ [])
        × (slug_has anywhere (slug_of one_to_three.name) r.0.name_slug ≡ true)
        × IsAsked (some ("0xB" ∷ [])) made r.0.id
        × (same_status success r.0.status ≡ true)
        × (at_least (in_whole one_to_three.min) r.0.floor_price ≡ true)
        × (at_most (in_whole one_to_three.max) r.0.floor_price ≡ true)
        × (r.0.is_active ≡ true))
      shown.rows
unfolding find_all_collections creator_ids
find_all_collections_sound_example =
    find_all_collections_sound listed anywhere stored only_1155 by_address 0 made [] shown refl

find_all_collections-extended_example :
    find_all_collections listed anywhere stored only_1155 one_to_three 0
      (tables_with (record priced { flag_extend = true } ∷ []) [])
      []
    ≡ refused
unfolding creator_ids public_where meets find_on_page get_all_collection_external
find_all_collections-extended_example =
    find_all_collections-extended listed anywhere stored only_1155 one_to_three 0
      (tables_with (record priced { flag_extend = true } ∷ []) []) []
      (record priced { flag_extend = true }) "0xc" refl (Memᴰ.head refl) refl refl refl refl

abbrev office : Office
office = record {
  db = tables_with (record priced { is_active = true } ∷ []) [];
  rounds = record { round_infos = []; log_actions = [] };
}

-- The request hides the only row, and the list is empty after it.
handle_active_collection-hides_example : All (λ (r : Collection × General). r.0.id ≢ 4) []
unfolding handle_active_collection find_all_collections handle_action_log
handle_active_collection-hides_example =
    handle_active_collection-hides listed anywhere stored only_1155 4 9 0 office
      (set_collection_active false priced) one_to_three [] (record { rows = []; has_next = false })
      refl refl
