-- ===== src/Metric/Handlers.antt =====
-- The handlers of src/commons/Metric.common.ts: the rows that they load and write, and the cascade
-- from a collection to its owner to the owner's NFTs. An exception is caught where the source
-- catches it, and what was written before it stays.
use u2u_marketplace_api.Common.{
  ℕ, String, Bool, false, ◌&&◌, ◌||◌, not, Option, none, some, List, [], ◌∷◌, ◌==◌, if◌then◌else◌,
  ◌===◌, ℕ_eq, String_eq,
}
use u2u_marketplace_api.Common.Int.{ℤ, pos, leb_ℤ}
use u2u_marketplace_api.Database.{Prisma}
use u2u_marketplace_api.Database.Rows.{updated}
use u2u_marketplace_api.Database.Schema.{
  User, Nft, Collection, UserCollection, Status, ContractType, erc721, erc1155, Db,
}
use u2u_marketplace_api.Metric.{
  Value, num, text, General, CollectionMetric, recompute, verify_collection, UserMetric,
  verify_user, add_collection, count_followers, NftMetric, add_user, free_mint,
  volume_individual_levels, follower_levels, collection_levels,
}

pub data TypeCategory : Type 0 where
  of_collection of_user of_nft : TypeCategory

pub data MetricCategory : Type 0 where
  verified volume total_unique_owner total_items followers : MetricCategory
  collection_metric user_metric volume_individual : MetricCategory

-- `METRIC_JSON.User.Verified.point`
abbrev pub user_verified_point : ℕ
user_verified_point = 5

-- The answer of the subgraph on one contract.
pub record ContractCount : Type 0 where
  pub volume : String
  pub holder_count : ℕ
  pub count : ℕ

pub record CollectionCount : Type 0 where
  pub erc721_contract : Option ContractCount
  pub erc1155_contract : Option ContractCount

-- `contract?.volume || 0`
abbrev pub volume_of : Option ContractCount → Value
volume_of none = num (pos 0)
volume_of (some c) = if c.volume === "" then num (pos 0) else text c.volume

abbrev pub holders_of : Option ContractCount → Value
holders_of none = num (pos 0)
holders_of (some c) = num (pos c.holder_count)

abbrev pub count_of : Option ContractCount → Value
count_of none = num (pos 0)
count_of (some c) = num (pos c.count)

abbrev pub general_of : ContractType → CollectionCount → General
general_of erc721 c = record {
  volumn = volume_of c.erc721_contract;
  total_owner = holders_of c.erc721_contract;
  total_nft = count_of c.erc721_contract;
}
general_of erc1155 c = record {
  volumn = volume_of c.erc721_contract;
  total_owner = holders_of c.erc1155_contract;
  total_nft = count_of c.erc1155_contract;
}

abbrev pub nothing_known : General
nothing_known = record { volumn = text "0"; total_owner = num (pos 0); total_nft = num (pos 0) }

abbrev pub has_id : ℕ → User → Bool
has_id id u = u.id == id

abbrev pub is_creator : ℕ → Nft → Bool
is_creator id n = elim n.creator_id [ none ↦ false | some c ↦ c == id ]

abbrev pub same_nft : String → ℕ → Nft → Bool
same_nft id collection_id n = (n.id === id) && (n.collection_id == collection_id)

module _ (prisma : Prisma) where
  -- `updateUserMetrics`
  unfoldable pub update_user_metrics : ℕ → UserMetric → Db → Db
  update_user_metrics id metric db = record db {
    users = updated prisma (has_id id) (λ u. record u { metric = metric }) db.users;
  }

  -- `updateCollectionMetrics`
  unfoldable pub update_collection_metrics : ℕ → CollectionMetric → Db → Db
  update_collection_metrics id metric db = record db {
    collections =
        updated prisma (λ (c : Collection). c.id == id) (λ c. record c { metric = metric })
          db.collections;
  }

  -- `updateNFTMetrics`
  abbrev pub update_nft_metrics : Nft → NftMetric → Db → Db
  update_nft_metrics item metric db = record db {
    nfts =
        updated prisma (same_nft item.id item.collection_id) (λ n. record n { metric = metric })
          db.nfts;
  }

  -- `updateNFTMetrics`, and `NFTMetricsMarketplaceStatus` after it
  unfoldable pub update_nft : Nft → NftMetric → Db → Db
  update_nft item metric db = record (update_nft_metrics item metric db) {
    statuses =
        prisma.update_many
          (λ (s : Status). (s.token_id === item.id) && (s.collection_id == item.collection_id))
          (λ s. record s { metric_point = metric.metric_point }) db.statuses;
  }

  -- The `Promise.all` of `handleMetricNFT`, item by item.
  unfoldable pub update_nfts : ℤ → List Nft → Db → Db
  unfolding update_nft
  update_nfts user_point [] db = db
  update_nfts user_point (item ∷ items) db =
      update_nfts user_point items (update_nft item (add_user user_point item.metric) db)

  -- `handleMetricNFT`
  unfoldable pub handle_metric_nft : MetricCategory → ℕ → Db → Db
  unfolding update_nfts
  handle_metric_nft user_metric id db = elim (prisma.find_first (has_id id) db.users) [
    | none ↦ db
    | some user ↦ update_nfts user.metric.metric_point (prisma.find_many (is_creator id) db.nfts) db
  ]
  handle_metric_nft verified id db = db
  handle_metric_nft volume id db = db
  handle_metric_nft total_unique_owner id db = db
  handle_metric_nft total_items id db = db
  handle_metric_nft followers id db = db
  handle_metric_nft collection_metric id db = db
  handle_metric_nft volume_individual id db = db

  -- `handleMetricFreeMint`: without the user or the NFT it throws before it writes. The NFT's rows
  -- in the marketplace get its point from the cascade only.
  unfoldable pub handle_metric_free_mint : String → ℕ → ℕ → String → Db → Db
  unfolding free_mint update_user_metrics handle_metric_nft
  handle_metric_free_mint id collection_id creator_id prices db =
      elim (prisma.find_first (has_id creator_id) db.users) [
        | none ↦ db
        | some user ↦ elim (prisma.find_first (same_nft id collection_id) db.nfts) [
          | none ↦ db
          | some nft ↦
              let (user_row, nft_row) =
                free_mint volume_individual_levels prices user.metric nft.metric in
              handle_metric_nft user_metric user.id
                (update_nft_metrics nft nft_row (update_user_metrics user.id user_row db))
        ]
      ]

  -- The cases of `handleMetricUser`, for the user that was loaded.
  unfoldable pub user_case : MetricCategory → User → Option ℕ → Db → Db
  unfolding update_user_metrics handle_metric_nft
  user_case verified user collection_id db =
      if leb_ℤ user.metric.metric_detail.verified (pos 0)
      then update_user_metrics user.id (verify_user user_verified_point user.metric) db
      else db
  user_case collection_metric user none db = db
  user_case collection_metric user (some collection_id) db =
      elim (prisma.find_first (λ (c : Collection). c.id == collection_id) db.collections) [
        | none ↦ db
        | some collection ↦ handle_metric_nft user_metric user.id (
            update_user_metrics user.id (add_collection collection.metric.metric_point user.metric)
              db)
      ]
  user_case followers user collection_id db =
      elim (count_followers follower_levels (num user.followers) user.metric) [
        | none ↦ db
        | some metric ↦
            handle_metric_nft user_metric user.id (update_user_metrics user.id metric db)
      ]
  user_case volume user collection_id db = db
  user_case total_unique_owner user collection_id db = db
  user_case total_items user collection_id db = db
  user_case user_metric user collection_id db = db
  user_case volume_individual user collection_id db = db

  -- `handleMetricUser`
  unfoldable pub handle_metric_user : MetricCategory → ℕ → Option ℕ → Db → Db
  unfolding user_case
  handle_metric_user metric id collection_id db = elim (prisma.find_first (has_id id) db.users) [
    | none ↦ db
    | some user ↦ user_case metric user collection_id db
  ]

  -- `getCollectionCount` calls the subgraph; none where it throws.
  module _ (get_collection_count : String → Option CollectionCount) where
    -- `getGeneralCollectionData`
    unfoldable pub get_general_collection_data : Option String → ContractType → Option General
    get_general_collection_data none type = some nothing_known
    get_general_collection_data (some address) type =
        if address === "" then some nothing_known else elim (get_collection_count address) [
          | none ↦ none
          | some count ↦ some (general_of type count)
        ]

    -- The cases of `handleMetricCollection`, for the collection that was loaded.
    unfoldable pub collection_case : MetricCategory → Collection → Db → Db
    unfolding update_collection_metrics handle_metric_user get_general_collection_data
    collection_case verified c db =
        if leb_ℤ c.metric.metric_detail.verified (pos 0) || not c.is_verified
        then update_collection_metrics c.id
            (verify_collection collection_levels c.is_verified c.metric) db
        else db
    collection_case collection_metric c db = elim (get_general_collection_data c.address c.type) [
      | none ↦ db
      | some general ↦
          let after =
            update_collection_metrics c.id (recompute collection_levels general c.metric) db in
          elim (prisma.find_first (λ (o : UserCollection). o.collection_id == c.id)
            after.user_collections) [
              | none ↦ after
              | some owner ↦
                  handle_metric_user collection_metric owner.user_id (some owner.collection_id)
                    after
            ]
    ]
    collection_case volume c db = db
    collection_case total_unique_owner c db = db
    collection_case total_items c db = db
    collection_case followers c db = db
    collection_case user_metric c db = db
    collection_case volume_individual c db = db

    -- `handleMetricCollection`
    unfoldable pub handle_metric_collection : MetricCategory → ℕ → Db → Db
    unfolding collection_case
    handle_metric_collection metric id db =
        elim (prisma.find_first (λ (c : Collection). c.id == id) db.collections) [
          | none ↦ db
          | some c ↦ collection_case metric c db
        ]

    -- `handleMetric`
    unfoldable pub handle_metric : TypeCategory → MetricCategory → ℕ → Option ℕ → Db → Db
    unfolding handle_metric_user handle_metric_collection handle_metric_nft
    handle_metric of_user metric id collection_id db = handle_metric_user metric id collection_id db
    handle_metric of_collection metric id collection_id db = handle_metric_collection metric id db
    handle_metric of_nft metric id collection_id db = handle_metric_nft metric id db
