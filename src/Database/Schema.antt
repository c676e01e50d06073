-- ===== src/Database/Schema.antt =====
-- The tables of prisma/schema.prisma, with the columns that the modelled services read or write.
-- An id of type uuid is a number here: the services only compare it. A date is the number of its
-- milliseconds.
use u2u_marketplace_api.Common.{ℕ, String, Bool, Option, List}
use u2u_marketplace_api.Common.Int.{ℤ}
use u2u_marketplace_api.Metric.{UserMetric, CollectionMetric, NftMetric}

pub record User : Type 0 where
  pub id : ℕ
  pub signer : String
  pub public_key : Option String
  pub signature : Option String
  pub signed_message : Option String
  pub email : Option String
  pub username : Option String
  pub short_link : Option String
  pub accepted_terms : Bool
  pub bio : Option String
  pub avatar : Option String
  pub cover_image : Option String
  pub web_url : Option String
  pub facebook_link : Option String
  pub twitter_link : Option String
  pub telegram_link : Option String
  pub discord_link : Option String
  pub followers : ℤ
  pub following : ℤ
  pub account_status : Bool
  pub verify_email : Bool
  pub is_active : Bool
  pub metric : UserMetric

pub record UserFollow : Type 0 where
  pub user_id : ℕ
  pub follower_id : ℕ
  pub is_follow : Bool

-- `TX_STATUS`; `fail` is FAILED.
pub data TxStatus : Type 0 where
  pending success fail : TxStatus

pub record Nft : Type 0 where
  pub id : String
  pub u2u_id : Option String
  pub name : String
  pub name_slug : Option String
  pub image : Option String
  pub animation_url : Option String
  pub status : TxStatus
  pub token_uri : String
  pub tx_creation_hash : String
  pub is_active : Bool
  pub collection_id : ℕ
  pub creator_id : Option ℕ
  pub metric : NftMetric

-- `CONTRACT_TYPE`
pub data ContractType : Type 0 where
  erc721 erc1155 : ContractType

pub record Collection : Type 0 where
  pub id : ℕ
  pub tx_creation_hash : String
  pub name : String
  pub name_slug : Option String
  pub symbol : String
  pub description : Option String
  pub address : Option String
  pub short_url : Option String
  pub metadata : Option String
  pub status : TxStatus
  pub type : ContractType
  pub category_id : Option ℕ
  pub cover_image : Option String
  pub avatar : Option String
  pub is_verified : Bool
  pub floor_price : ℕ
  pub is_active : Bool
  pub flag_extend : Bool
  pub project_id : Option ℕ
  pub metric : CollectionMetric

pub record UserCollection : Type 0 where
  pub user_id : ℕ
  pub collection_id : ℕ

pub record UserNft : Type 0 where
  pub user_id : ℕ
  pub nft_id : String
  pub collection_id : ℕ

-- `MarketplaceStatus`, with the columns that the metric touches.
pub record Status : Type 0 where
  pub token_id : String
  pub collection_id : ℕ
  pub metric_point : ℤ

pub record ProjectRound : Type 0 where
  pub round_id : ℕ
  pub address : Option String
  pub start : ℕ
  pub end_time : ℕ
  pub stake_before : Option ℕ
  pub max_per_wallet : ℕ
  pub total_nftt : ℕ
  pub price : String
  pub instruction : Option String
  pub required_staking : String
  pub claimable_start : ℕ
  pub claimable_ids : List String

-- A project with its rounds: the rows of `ProjectRound` whose key has its id.
pub record Project : Type 0 where
  pub id : ℕ
  pub id_onchain : ℕ
  pub name : String
  pub banner : Option String
  pub description : Option String
  pub details : List String
  pub organization : Option String
  pub website : Option String
  pub telegram : Option String
  pub facebook : Option String
  pub instagram : Option String
  pub discord : Option String
  pub twitter : Option String
  pub logo : Option String
  pub is_activated : Bool
  pub is_delete : Bool
  pub rounds : List ProjectRound

pub record UserProject : Type 0 where
  pub user_id : ℕ
  pub project_id : ℕ
  pub staking_total : Option String

pub record Db : Type 0 where
  pub users : List User
  pub follows : List UserFollow
  pub nfts : List Nft
  pub user_nfts : List UserNft
  pub collections : List Collection
  pub user_collections : List UserCollection
  pub statuses : List Status
  pub projects : List Project
  pub subscriptions : List UserProject

-- What a handler answers: a value, an exception with its message, or the exception that a call of a
-- library throws.
pub data Outcome (A : Type 0) : Type 0 where
  done : A → Outcome A
  failed : String → Outcome A
  refused : Outcome A
