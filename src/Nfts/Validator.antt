-- ===== src/Nfts/Validator.antt =====
-- `validateUniqueField` of src/modules/validator/validator.service.ts, which the forms ask before a
-- row is created.
use u2u_marketplace_api.Common.{
  ℕ, String, Bool, true, false, Option, none, some, ◌===◌, String_eq, if◌then◌else◌,
}
use u2u_marketplace_api.Database.{Prisma}
use u2u_marketplace_api.Database.Schema.{User, Collection, Db, Outcome, done, failed}
use u2u_marketplace_api.User.Follow.{is_value}
use u2u_marketplace_api.Collections.{is_collection}
use u2u_marketplace_api.Nfts.{address_has, check_nft_existence}

-- `TypeValidator`
pub data TypeValidator : Type 0 where
  username email short_link collection_name collection_short_url nft_name : TypeValidator

-- The columns that are asked for: a column of the users, or one of the collections.
pub data UserField : Type 0 where
  of_username of_email of_short_link : UserField

pub data CollectionField : Type 0 where
  of_name of_short_url : CollectionField

abbrev pub has_field : UserField → String → User → Bool
has_field of_username value u = is_value value u.username
has_field of_email value u = is_value value u.email
has_field of_short_link value u = is_value value u.short_link

abbrev pub has_collection_field : CollectionField → String → Collection → Bool
has_collection_field of_name value c = c.name === value
has_collection_field of_short_url value c = is_value value c.short_url

abbrev pub is_found : {A : Type 0} → Option A → Bool
is_found none = false
is_found (some a) = true

module _ (prisma : Prisma) where
  unfoldable pub check_user_existence : UserField → String → Db → Bool
  check_user_existence field value db =
      is_found (prisma.find_first (has_field field value) db.users)

  unfoldable pub check_collection_existence : CollectionField → String → Db → Bool
  check_collection_existence field value db =
      is_found (prisma.find_first (has_collection_field field value) db.collections)

  -- The collection that a text names: by its id where it is one, else by a part of its address.
  unfoldable pub collection_of :
      (String → Option ℕ) → (String → String → Bool) → String → Db → Option Collection
  collection_of valid_uuid contains text db = elim (valid_uuid text) [
    | none ↦ prisma.find_first (address_has contains text) db.collections
    | some id ↦ prisma.find_first (is_collection id) db.collections
  ]

  -- `validateUniqueField`
  unfoldable pub validate_unique_field :
      (String → Option ℕ)
      → (String → String → Bool)
      → TypeValidator
      → String
      → Option String
      → Db
      → Outcome Bool
  unfolding check_user_existence check_collection_existence collection_of check_nft_existence
  validate_unique_field valid_uuid contains username value collection_id db =
      done (check_user_existence of_username value db)
  validate_unique_field valid_uuid contains email value collection_id db =
      done (check_user_existence of_email value db)
  validate_unique_field valid_uuid contains short_link value collection_id db =
      done (check_user_existence of_short_link value db)
  validate_unique_field valid_uuid contains collection_name value collection_id db =
      done (check_collection_existence of_name value db)
  validate_unique_field valid_uuid contains collection_short_url value collection_id db =
      done (check_collection_existence of_short_url value db)
  validate_unique_field valid_uuid contains nft_name value none db =
      failed "Collection ID should not be empty"
  validate_unique_field valid_uuid contains nft_name value (some text) db =
      if text === ""
      then failed "Collection ID should not be empty"
      else elim (collection_of valid_uuid contains text db) [
        | none ↦ failed "Collection not found"
        | some collection ↦ done (check_nft_existence prisma value collection.id db)
      ]
