-- ===== src/Nfts.antt =====
-- `create` and `crawlNftInfo` of src/modules/nft/nft.service.ts, with the check of names of
-- src/modules/validator/validator.service.ts.
pub mod Validator
pub mod Keys
pub mod Names
pub mod Owners
pub mod Holders
mod Tests
use Prim.Native.Char.{code}
use u2u_marketplace_api.Common.{
  ℕ, ◌+◌, String, Bool, true, false, ◌&&◌, Option, none, some, List, [], ◌∷◌, ◌==◌, ◌===◌,
  String_eq, if◌then◌else◌,
}
use u2u_marketplace_api.Common.Int.{pos}
use u2u_marketplace_api.Common.Text.{to_lower_case}
use u2u_marketplace_api.Database.{Prisma}
use u2u_marketplace_api.Database.Schema.{
  ContractType, pending, Nft, UserNft, Collection, Db, Outcome, done, failed, refused,
}
use u2u_marketplace_api.Metric.{NftMetric}
use u2u_marketplace_api.Metric.Handlers.{same_nft}
use u2u_marketplace_api.User.Follow.{is_value}

-- `CreateNftDto`
pub record CreateNft : Type 0 where
  pub id : String
  pub u2u_id : Option String
  pub name : String
  pub image : Option String
  pub animation_url : Option String
  pub token_uri : String
  pub tx_creation_hash : String
  pub collection_id : String

-- What is published on the channels `nft-channel` and `ipfs`.
pub data NftMessage : Type 0 where
  crawl_collection : ContractType → Option String → NftMessage
  crawl_single : ContractType → String → NftMessage
  nft_created : String → ContractType → ℕ → NftMessage
  get_ipfs : Option String → String → String → NftMessage

-- The defaults of `metricPoint` and `metricDetail`.
abbrev pub no_nft_metric : NftMetric
no_nft_metric = record { metric_point = pos 0; user_metric = pos 0; volume_individual = pos 0 }

abbrev pub new_nft : CreateNft → ℕ → ℕ → Nft
new_nft input user_id collection_id = record {
  id = input.id;
  u2u_id = input.u2u_id;
  name = input.name;
  name_slug = none;
  image = input.image;
  animation_url = input.animation_url;
  status = pending;
  token_uri = input.token_uri;
  tx_creation_hash = input.tx_creation_hash;
  is_active = true;
  collection_id = collection_id;
  creator_id = some user_id;
  metric = no_nft_metric;
}

abbrev pub new_owner : CreateNft → ℕ → ℕ → UserNft
new_owner input user_id collection_id = record {
  user_id = user_id;
  nft_id = input.id;
  collection_id = collection_id;
}

abbrev pub has_transaction : String → Nft → Bool
has_transaction tx_creation_hash n = n.tx_creation_hash === tx_creation_hash

abbrev pub is_named : String → ℕ → Nft → Bool
is_named name collection_id n = (n.name === name) && (n.collection_id == collection_id)

-- The key of `UserNFT`.
abbrev pub is_owner : ℕ → String → ℕ → UserNft → Bool
is_owner user_id nft_id collection_id o =
    (o.user_id == user_id) && ((o.nft_id === nft_id) && (o.collection_id == collection_id))

abbrev pub address_has : (String → String → Bool) → String → Collection → Bool
address_has contains part c = elim c.address [ none ↦ false | some address ↦ contains address part ]

-- The rest of a text after a text that it starts with.
unfoldable pub after_prefix : String → String → Option String
after_prefix String.[] text = some text
after_prefix (String.◌∷◌ c start) String.[] = none
after_prefix (String.◌∷◌ c start) (String.◌∷◌ d text) = elim (code c == code d) [
  | true ↦ after_prefix start text
  | false ↦ none
]

-- `text.replace(part, '')`: only the first place is removed.
unfoldable pub remove_first : String → String → String
unfolding after_prefix
remove_first part String.[] = String.[]
remove_first part (String.◌∷◌ c text) = elim (after_prefix part (String.◌∷◌ c text)) [
  | some rest ↦ rest
  | none ↦ String.◌∷◌ c (remove_first part text)
]

module _ (prisma : Prisma) where
  -- `checkNFTExistence` of the name in a collection
  unfoldable pub check_nft_existence : String → ℕ → Db → Bool
  check_nft_existence name collection_id db =
      elim (prisma.find_first (is_named name collection_id) db.nfts) [
        | none ↦ false
        | some nft ↦ true
      ]

  -- `create` from the row of the NFT on; `id` and `collectionId` are its key.
  unfoldable pub store_nft : CreateNft → ℕ → Collection → Db → Outcome Nft × Db × List NftMessage
  unfolding remove_first
  store_nft input user_id collection db =
      let nft = new_nft input user_id collection.id in
      elim (prisma.create (same_nft input.id collection.id) nft db.nfts) [
        | none ↦ (refused, db, [])
        | some nfts ↦
            let written = record db { nfts = nfts } in
            elim (prisma.create (is_owner user_id input.id collection.id)
              (new_owner input user_id collection.id) db.user_nfts) [
                | none ↦ (refused, written, [])
                | some user_nfts ↦ (
                  done nft,
                  record written { user_nfts = user_nfts },
                  nft_created nft.tx_creation_hash collection.type collection.id
                      ∷ get_ipfs collection.address nft.id (remove_first "ipfs://" nft.token_uri)
                      ∷ [],
                )
              ]
      ]

  -- `create`; `contains` is the database's test for a part of a text in any case. The second test
  -- of the transaction never holds, after the first.
  unfoldable pub create_nft :
      (String → String → Bool) → CreateNft → ℕ → Db → Outcome Nft × Db × List NftMessage
  unfolding check_nft_existence store_nft
  create_nft contains input user_id db =
      elim (prisma.find_first (has_transaction input.tx_creation_hash) db.nfts) [
        | some old ↦ (failed "Transaction already submitted", db, [])
        | none ↦
            elim (prisma.find_first (address_has contains input.collection_id) db.collections) [
              | none ↦ (failed "Collection not found", db, [])
              | some collection ↦
                  if check_nft_existence input.name collection.id db
                  then (failed "The name of the NFT already exists in Collection", db, [])
                  else store_nft input user_id collection db
            ]
      ]

  -- `crawlNftInfo`; the answer is undefined, none, where one transaction is crawled.
  unfoldable pub crawl_nft_info :
      String → Option String → Db → Outcome (Option Bool) × List NftMessage
  crawl_nft_info collection_address tx_creation db =
      elim (prisma.find_first
        (λ (c : Collection). is_value (to_lower_case collection_address) c.address)
        db.collections) [
          | none ↦ (failed "Collection not found", [])
          | some collection ↦ elim tx_creation [
            | none ↦ (done (some true), crawl_collection collection.type collection.address ∷ [])
            | some tx ↦
                if tx === ""
                then (done (some true), crawl_collection collection.type collection.address ∷ [])
                else (done none, crawl_single collection.type tx ∷ [])
          ]
        ]
