-- ===== src/Collections/Listing.antt =====
-- The lists of collections: `findAll` of src/modules/collection/collection.service.ts and
-- `findAllCollection` of src/modules/cms/service/marketplace-cms.service.ts. `contains` is the
-- database's search in a text without regard to case.
use Prim.Native.Nat.{◌^◌}
use u2u_marketplace_api.Common.{
  ℕ, ◌/◌, String, Bool, true, false, not, ◌&&◌, Option, none, some, List, [], ◌∷◌, map, ltb, leb,
  ◌==◌, if◌then◌else◌, ◌===◌, String_eq, any,
}
use u2u_marketplace_api.Common.Text.{to_lower_case}
use u2u_marketplace_api.Database.{Prisma}
use u2u_marketplace_api.Database.Schema.{
  User, TxStatus, pending, success, fail, Collection, UserCollection, Db, Outcome, done, refused,
}
use u2u_marketplace_api.Metric.{General}
use u2u_marketplace_api.Metric.Handlers.{CollectionCount, get_general_collection_data}
use u2u_marketplace_api.Paging.{has_next_page}
use u2u_marketplace_api.Paging.Pages.{find_on_page}
use u2u_marketplace_api.Paging.Slug.{string_to_slug_search}
use u2u_marketplace_api.Session.{Redis}
use u2u_marketplace_api.Collections.General.{get_general_extended}

pub data Direction : Type 0 where
  asc desc : Direction

pub data SortBy : Type 0 where
  time price every : SortBy

-- `GetAllCollectionDto`: the bounds are in wei, and a text that is falsy is none.
pub record CollectionFilter : Type 0 where
  pub name : Option String
  pub creator_addresses : Option (List String)
  pub min : Option ℕ
  pub max : Option ℕ
  pub sort_by : SortBy
  pub direction : Direction
  pub page : ℕ
  pub limit : ℕ

-- `orderByProperties`
pub data CollectionOrder : Type 0 where
  by_created_at by_floor_price by_metric_point : Direction → CollectionOrder

abbrev pub order_of : CollectionFilter → CollectionOrder
order_of filter = elim filter.sort_by [
  | time ↦ by_created_at filter.direction
  | price ↦ by_floor_price filter.direction
  | every ↦ by_metric_point filter.direction
]

abbrev pub office_order_of : CollectionFilter → CollectionOrder
office_order_of filter = elim filter.sort_by [
  | time ↦ by_created_at filter.direction
  | price ↦ by_floor_price filter.direction
  | every ↦ by_floor_price filter.direction
]

-- The conditions of a query; none is a condition that is not there.
pub record CollectionWhere : Type 0 where
  pub slug : Option String
  pub creators : Option (List ℕ)
  pub status : TxStatus
  pub gte : Option ℕ
  pub lte : Option ℕ
  pub is_active : Option Bool

abbrev pub whole : ℕ → ℕ
whole wei = wei / 10 ^ 18

abbrev pub in_whole : Option ℕ → Option ℕ
in_whole none = none
in_whole (some wei) = some (whole wei)

-- The three assignments of `floorPrice`, one after another.
abbrev pub set_min : Option ℕ → CollectionWhere → CollectionWhere
set_min none w = w
set_min (some wei) w = record w { gte = some (whole wei); lte = none }

abbrev pub set_max : Option ℕ → CollectionWhere → CollectionWhere
set_max none w = w
set_max (some wei) w = record w { gte = none; lte = some (whole wei) }

abbrev pub set_both : Option ℕ → Option ℕ → CollectionWhere → CollectionWhere
set_both (some least) (some most) w = record w { gte = some (whole least); lte = some (whole most) }
set_both (some least) none w = w
set_both none most w = w

abbrev pub slug_of : Option String → Option String
slug_of none = none
slug_of (some name) = some (string_to_slug_search name)

abbrev pub if_any : List ℕ → Option (List ℕ)
if_any [] = none
if_any (id ∷ ids) = some (id ∷ ids)

unfoldable pub public_where : CollectionFilter → List ℕ → CollectionWhere
public_where filter ids =
    record (set_both filter.min filter.max (
      set_max filter.max (
        set_min filter.min (record {
          slug = slug_of filter.name;
          creators = if_any ids;
          status = success;
          gte = none;
          lte = none;
          is_active = none;
        })))) { is_active = some true }

unfoldable pub office_where : CollectionFilter → List ℕ → CollectionWhere
office_where filter ids = set_both filter.min filter.max (
    set_max filter.max (
      set_min filter.min (record {
        slug = slug_of filter.name;
        creators = some ids;
        status = success;
        gte = none;
        lte = none;
        is_active = none;
      })))

abbrev pub at_least : Option ℕ → ℕ → Bool
at_least none n = true
at_least (some least) n = leb least n

abbrev pub at_most : Option ℕ → ℕ → Bool
at_most none n = true
at_most (some most) n = leb n most

abbrev pub same_status : TxStatus → TxStatus → Bool
same_status pending pending = true
same_status success success = true
same_status fail fail = true
same_status _ _ = false

abbrev pub active_as : Option Bool → Bool → Bool
active_as none active = true
active_as (some true) active = active
active_as (some false) active = not active

-- A creator of a collection is among some users.
abbrev pub made_by : List UserCollection → Option (List ℕ) → ℕ → Bool
made_by links none id = true
made_by links (some ids) id =
    any (λ (l : UserCollection). (l.collection_id == id) && any (λ u. u == l.user_id) ids) links

abbrev pub slug_has : (String → String → Bool) → Option String → Option String → Bool
slug_has contains none slug = true
slug_has contains (some part) none = false
slug_has contains (some part) (some slug) = contains slug part

-- A row that meets the conditions.
unfoldable pub meets :
    (String → String → Bool) → List UserCollection → CollectionWhere → Collection → Bool
meets contains links w c =
    slug_has contains w.slug c.name_slug
    && (made_by links w.creators c.id
        && (same_status w.status c.status
            && (at_least w.gte c.floor_price
                && (at_most w.lte c.floor_price && active_as w.is_active c.is_active))))

-- `publicKey: { in: addresses, mode: 'insensitive' }`
abbrev pub has_address : List String → User → Bool
has_address addresses u = elim u.public_key [
  | none ↦ false
  | some key ↦ any (λ a. to_lower_case a === to_lower_case key) addresses
]

-- The same where the addresses are undefined: the condition is not there.
abbrev pub has_given_address : Option (List String) → User → Bool
has_given_address none u = true
has_given_address (some addresses) u = has_address addresses u

pub record CollectionPage : Type 0 where
  pub rows : List (Collection × General)
  pub has_next : Bool

abbrev pub empty_page : CollectionPage
empty_page = record { rows = []; has_next = false }

-- `Promise.all` over the rows: one that throws makes the whole throw.
unfoldable pub with_general :
    (Collection → Option General) → List Collection → Option (List (Collection × General))
with_general general [] = some []
with_general general (c ∷ rows) = elim (general c) [
  | none ↦ none
  | some info ↦ elim (with_general general rows) [
    | none ↦ none
    | some rest ↦ some ((c, info) ∷ rest)
  ]
]

-- `input.max && input.min && BigInt(input.min) > BigInt(input.max)`
abbrev pub crossed : CollectionFilter → Bool
crossed filter = elim filter.min [
  | none ↦ false
  | some least ↦ elim filter.max [ none ↦ false | some most ↦ ltb most least ]
]

module _ (prisma : Prisma) (contains : String → String → Bool) where
  unfoldable pub creator_ids : Option (List String) → Db → List ℕ
  creator_ids none db = []
  creator_ids (some addresses) db =
      map (λ (u : User). u.id) (prisma.find_many (has_address addresses) db.users)

  -- The query of a list, with the page after it.
  unfoldable pub read_page :
      CollectionFilter
      → CollectionOrder
      → CollectionWhere
      → (Collection → Option General)
      → Db
      → Outcome CollectionPage
  unfolding with_general meets find_on_page has_next_page
  read_page filter order w general db =
      let where_condition = meets contains db.user_collections w in
      elim (with_general general
        (find_on_page prisma filter.page filter.limit order where_condition db.collections)) [
          | none ↦ refused
          | some rows ↦ done (record {
            rows = rows;
            has_next = has_next_page prisma filter.page filter.limit where_condition db.collections;
          })
        ]

  module _ (redis : Redis) (get_collection_count : String → Option CollectionCount) where
    open redis use {Store}

    -- `findAll`
    unfoldable pub find_all_collections : CollectionFilter → ℕ → Db → Store → Outcome CollectionPage
    unfolding creator_ids public_where read_page get_general_extended
    find_all_collections filter now db store =
        if crossed filter
        then done empty_page
        else read_page filter (order_of filter)
            (public_where filter (creator_ids filter.creator_addresses db))
            (λ c.
              get_general_extended redis get_collection_count c.address c.type c.flag_extend now
                store)
            db

  -- `findAllCollection`
  unfoldable pub find_all_office :
      (String → Option CollectionCount) → CollectionFilter → Db → Outcome CollectionPage
  unfolding office_where read_page get_general_collection_data
  find_all_office get_collection_count filter db =
      let ids =
        map (λ (u : User). u.id)
          (prisma.find_many (has_given_address filter.creator_addresses) db.users) in
      if crossed filter
      then done empty_page
      else read_page filter (office_order_of filter) (office_where filter ids)
          (λ c. get_general_collection_data prisma get_collection_count c.address c.type) db
