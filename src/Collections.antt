-- ===== src/Collections.antt =====
-- `create` and `update` of src/modules/collection/collection.service.ts.
pub mod Rights
pub mod General
pub mod Listing
pub mod Shown
mod Tests
use u2u_marketplace_api.Common.{
  ℕ, String, Bool, true, false, not, ◌&&◌, ◌||◌, Option, none, some, List, [], ◌∷◌, ◌==◌,
  if◌then◌else◌, ◌===◌, String_eq,
}
use u2u_marketplace_api.Database.{Prisma}
use u2u_marketplace_api.Database.Schema.{
  pending, ContractType, Collection, UserCollection, Db, Outcome, done, failed, refused,
}
use u2u_marketplace_api.Metric.{CollectionMetric}
use u2u_marketplace_api.User.Follow.{is_value}
use u2u_marketplace_api.User.Profile.{truthy}

-- `CreateCollectionDto`, of which the handler reads these fields; undefined is none.
pub record CreateCollection : Type 0 where
  pub tx_creation_hash : String
  pub name : String
  pub symbol : String
  pub description : Option String
  pub type : ContractType
  pub short_url : Option String
  pub cover_image : Option String
  pub metadata : Option String
  pub avatar : Option String
  pub category_id : Option ℕ

-- `UpdateCollectionDto`, of which the handler reads these fields.
pub record UpdateCollection : Type 0 where
  pub description : Option String
  pub cover_image : Option String
  pub short_url : Option String

-- The message of the channel `collection-channel`.
pub record CollectionMessage : Type 0 where
  pub tx_creation : String
  pub type : ContractType

-- The value if it is truthy, which a column that is spread in gets.
abbrev pub if_truthy : Option String → Option String
if_truthy none = none
if_truthy (some s) = if s === "" then none else some s

abbrev pub if_positive : Option ℕ → Option ℕ
if_positive none = none
if_positive (some n) = if n == 0 then none else some n

-- A condition of `OR` on an undefined value is left out by the client.
abbrev pub is_given : Option String → Option String → Bool
is_given none column = false
is_given (some s) column = is_value s column

-- The `OR` of `checkExist`.
abbrev pub taken_by : CreateCollection → Collection → Bool
taken_by input c =
    (c.tx_creation_hash === input.tx_creation_hash)
    || ((c.name === input.name) || is_given input.short_url c.short_url)

-- The columns that are not given stand at their defaults.
abbrev pub new_collection : CollectionMetric → ℕ → CreateCollection → Collection
new_collection metric new_id input = record {
  id = new_id;
  tx_creation_hash = input.tx_creation_hash;
  name = input.name;
  name_slug = none;
  symbol = input.symbol;
  description = input.description;
  address = none;
  short_url = if_truthy input.short_url;
  metadata = input.metadata;
  status = pending;
  type = input.type;
  category_id = if_positive input.category_id;
  cover_image = input.cover_image;
  avatar = input.avatar;
  is_verified = false;
  floor_price = 0;
  is_active = true;
  flag_extend = false;
  project_id = none;
  metric = metric;
}

-- The unique columns of a new row.
abbrev pub collides : Collection → Collection → Bool
collides row c =
    (c.id == row.id)
    || ((c.tx_creation_hash === row.tx_creation_hash)
        || ((c.name === row.name) || is_given row.short_url c.short_url))

abbrev pub is_link : ℕ → ℕ → UserCollection → Bool
is_link user_id collection_id l = (l.user_id == user_id) && (l.collection_id == collection_id)

abbrev pub is_collection : ℕ → Collection → Bool
is_collection id c = c.id == id

-- A value that is truthy is written.
abbrev pub or_old : Option String → Option String → Option String
or_old value old = if truthy value then value else old

-- The columns of `update`; the short URL is written where the loaded row has none, or another.
abbrev pub apply_collection : UpdateCollection → Collection → Collection → Collection
apply_collection input existing c = record c {
  description = or_old input.description c.description;
  cover_image = or_old input.cover_image c.cover_image;
  short_url =
      if truthy input.short_url
      then (if not (truthy existing.short_url) || not (is_given input.short_url existing.short_url)
          then input.short_url
          else c.short_url)
      else c.short_url;
}

-- The unique column that an update writes.
abbrev pub same_short_url : Collection → Collection → Bool
same_short_url a b = is_given a.short_url b.short_url

module _ (prisma : Prisma) where
  -- `create` once nothing is taken; the metric is the default of the schema.
  unfoldable pub store_collection :
      CollectionMetric
      → CreateCollection
      → ℕ
      → ℕ
      → Db
      → Outcome Collection × Db × List CollectionMessage
  store_collection metric input user_id new_id db =
      let row = new_collection metric new_id input in
      elim (prisma.create (collides row) row db.collections) [
        | none ↦ (refused, db, [])
        | some collections ↦
            let after = record db { collections = collections } in
            elim (prisma.create (is_link user_id row.id)
              (record { user_id = user_id; collection_id = row.id }) db.user_collections) [
                | none ↦ (refused, after, [])
                | some user_collections ↦ (
                  done row,
                  record after { user_collections = user_collections },
                  record { tx_creation = row.tx_creation_hash; type = row.type } ∷ [],
                )
              ]
      ]

  -- `create`
  unfoldable pub create_collection :
      CollectionMetric
      → CreateCollection
      → ℕ
      → ℕ
      → Db
      → Outcome Collection × Db × List CollectionMessage
  unfolding store_collection
  create_collection metric input user_id new_id db =
      elim (prisma.find_first (taken_by input) db.collections) [
        | some row ↦ (failed "Transaction hash or name or Short URL are already exists", db, [])
        | none ↦ store_collection metric input user_id new_id db
      ]

  -- The inner `try` of `update`, with the row that it answers.
  unfoldable pub write_collection : UpdateCollection → Collection → ℕ → Db → Outcome Collection × Db
  write_collection input existing id db =
      elim (prisma.update_unique same_short_url (is_collection id) (apply_collection input existing)
        db.collections) [
          | none ↦ (failed "Short URL already exists", db)
          | some collections ↦
              let after = record db { collections = collections } in
              elim (prisma.find_first (is_collection id) collections) [
                | none ↦ (failed "Short URL already exists", after)
                | some row ↦ (done row, after)
              ]
        ]

  -- `update`; `valid_uuid` is the library's `isValidUUID`, with the id that a text stands for.
  unfoldable pub update_collection :
      (String → Option ℕ) → String → UpdateCollection → ℕ → Db → Outcome Collection × Db
  unfolding write_collection
  update_collection valid_uuid text input user_id db = elim (valid_uuid text) [
    | none ↦ (failed "Invalid ID. Please try again!", db)
    | some id ↦ elim (prisma.find_first (is_collection id) db.collections) [
      | none ↦ (failed "Not Found", db)
      | some existing ↦ elim (prisma.find_first (is_link user_id id) db.user_collections) [
        | none ↦ (failed "You can't update this collection", db)
        | some link ↦ write_collection input existing id db
      ]
    ]
  ]
