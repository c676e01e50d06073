-- ===== src/Nfts/Names.antt =====
-- What `validateUniqueField` of src/modules/validator/validator.service.ts says of `create` of
-- src/modules/nft/nft.service.ts.
use u2u_marketplace_api.Common.{
  ℕ, String, ◌≡◌, refl, ◌∙◌, inl, inr, Bool, true, false, Option, none, some, ◌===◌, String_eq,
  if◌then◌else◌, Bool-cases, find, any, All,
}
use u2u_marketplace_api.Database.{Prisma}
use u2u_marketplace_api.Database.Schema.{Collection, Db, done, failed}
use u2u_marketplace_api.Metric.Handlers.{same_nft}
use u2u_marketplace_api.Nfts.{
  CreateNft, new_nft, new_owner, has_transaction, is_owner, address_has, check_nft_existence,
  store_nft, create_nft,
}
use u2u_marketplace_api.Nfts.Validator.{nft_name, collection_of, validate_unique_field}
use u2u_marketplace_api.Nfts.Keys.{is_linked, owner-nft}

module _ (prisma : Prisma) where
  -- Where the key is free and each owner has its NFT, nothing stops the rows from being written.
  store_nft-answers :
      (input : CreateNft) (user_id : ℕ) (collection : Collection) (db : Db)
      → All (λ o. is_linked db.nfts o ≡ true) db.user_nfts
      → any (same_nft input.id collection.id) db.nfts ≡ false
      → (store_nft prisma input user_id collection db).0
        ≡ done (new_nft input user_id collection.id)
  unfolding store_nft
  store_nft-answers input user_id collection db linked free =
      let key = same_nft input.id collection.id in
      let owner = is_owner user_id input.id collection.id in
      let law = prisma.create_law key (new_nft input user_id collection.id) db.nfts in
      let second = prisma.create_law owner (new_owner input user_id collection.id) db.user_nfts in
      let nobody = owner-nft user_id input.id collection.id db.nfts db.user_nfts linked free in
      rw (law, free, second, nobody, store_nft) refl

  module _ (valid_uuid : String → Option ℕ) (contains : String → String → Bool) where
    -- The form's question is answered as the creation decides: where the validator, asked for the
    -- name and the address of the collection, answers, a creation there with a new transaction and a
    -- free id makes the NFT if the name was said to be free, and is refused for its name if not. The
    -- address is no uuid, it is found, and each owner has their NFT.
    pub validate_unique_field-create_nft :
        (input : CreateNft) (user_id : ℕ) (collection : Collection) (db : Db) (taken : Bool)
        → All (λ o. is_linked db.nfts o ≡ true) db.user_nfts
        → valid_uuid input.collection_id ≡ none
        → find (address_has contains input.collection_id) db.collections ≡ some collection
        → find (has_transaction input.tx_creation_hash) db.nfts ≡ none
        → any (same_nft input.id collection.id) db.nfts ≡ false
        → validate_unique_field prisma valid_uuid contains nft_name input.name
            (some input.collection_id)
            db
          ≡ done taken
        → (create_nft prisma contains input user_id db).0 ≡ (
            if taken
            then failed "The name of the NFT already exists in Collection"
            else done (new_nft input user_id collection.id))
    unfolding validate_unique_field collection_of create_nft
    validate_unique_field-create_nft input user_id collection db taken linked address there new free
          h =
        let transaction = has_transaction input.tx_creation_hash in
        let tx = prisma.find_first_law transaction db.nfts ∙ new in
        let place = address_has contains input.collection_id in
        let c = prisma.find_first_law place db.collections ∙ there in
        let exists = check_nft_existence prisma input.name collection.id db in
        elim (Bool-cases (input.collection_id === "")) [
          | inl t ↦ absurd (cc (rw (t, validate_unique_field) at h))
          | inr f ↦
              let same : done exists ≡ done taken =
                rw (f, address, c, validate_unique_field) at h in
              let is : exists ≡ taken = cc same in
              elim (Bool-cases exists) [
                | inl t ↦ rw (← is, tx, c, t, create_nft) refl
                | inr g ↦
                    rw (← is, tx, c, g, create_nft)
                      (store_nft-answers input user_id collection db linked free)
              ]
        ]
