-- ===== src/Collections/Shown.antt =====
-- Which collections the lists of src/modules/collection/collection.service.ts and
-- src/modules/cms/service/marketplace-cms.service.ts show.
use u2u_marketplace_api.Common.{
  ℕ, String, ◌≡◌, refl, sym, ap, ◌∙◌, inl, inr, Bool, true, false, ◌&&◌, Option, none, some, List,
  [], ◌∷◌, arith, ◌===◌, String_eq, Bool-cases, Option-cases, filter, map, any, any-true, Memᴰ,
  Memᴰ-map, map-Memᴰ, Memᴰ-filter, filter-Memᴰ, All, All-Memᴰ, ◌==◌, ◌⊎◌, ℕ_eq,
}
use u2u_marketplace_api.Database.{Prisma}
use u2u_marketplace_api.Database.Schema.{
  success, User, Collection, UserCollection, Db, Outcome, done, failed, refused,
}
use u2u_marketplace_api.Metric.{General}
use u2u_marketplace_api.Metric.Handlers.{CollectionCount}
use u2u_marketplace_api.Paging.Pages.{find_on_page, page-Memᴰ}
use u2u_marketplace_api.Session.{Redis}
use u2u_marketplace_api.Collections.General.{get_all_collection_external, get_general_extended}
use u2u_marketplace_api.Collections.Listing.{
  CollectionFilter, CollectionOrder, CollectionWhere, CollectionPage, empty_page, order_of,
  in_whole, slug_of, if_any, public_where, office_where, at_least, at_most, same_status, made_by,
  slug_has, meets, has_address, with_general, crossed, creator_ids, read_page, find_all_collections,
}

module _ (contains : String → String → Bool) (links : List UserCollection)
    (filter : CollectionFilter) (ids : List ℕ) (c : Collection) where
  -- The three assignments of `floorPrice` come to both bounds, each where it is given: a collection
  -- meets the conditions of the public list when its slug has the name's, it has one of the creators
  -- where any were found, it is successful and active, and its floor price is within the bounds in
  -- whole tokens. In the back office the creators always count, and the activity does not.
  pub wheres_lem :
      (meets contains links (public_where filter ids) c ≡ (
        slug_has contains (slug_of filter.name) c.name_slug
        && (made_by links (if_any ids) c.id
            && (same_status success c.status
                && (at_least (in_whole filter.min) c.floor_price
                    && (at_most (in_whole filter.max) c.floor_price && c.is_active))))))
      × (meets contains links (office_where filter ids) c ≡ (
          slug_has contains (slug_of filter.name) c.name_slug
          && (made_by links (some ids) c.id
              && (same_status success c.status
                  && (at_least (in_whole filter.min) c.floor_price
                      && (at_most (in_whole filter.max) c.floor_price && true))))))
  unfolding meets public_where office_where
  wheres_lem = bounds filter.min filter.max refl refl
    where
      bounds :
          (least most : Option ℕ)
          → filter.min ≡ least
          → filter.max ≡ most
          → (meets contains links (public_where filter ids) c ≡ (
              slug_has contains (slug_of filter.name) c.name_slug
              && (made_by links (if_any ids) c.id
                  && (same_status success c.status
                      && (at_least (in_whole filter.min) c.floor_price
                          && (at_most (in_whole filter.max) c.floor_price && c.is_active))))))
            × (meets contains links (office_where filter ids) c ≡ (
                slug_has contains (slug_of filter.name) c.name_slug
                && (made_by links (some ids) c.id
                    && (same_status success c.status
                        && (at_least (in_whole filter.min) c.floor_price
                            && (at_most (in_whole filter.max) c.floor_price && true))))))
      bounds none none e f = rw (e, f) (refl, refl)
      bounds none (some most) e f = rw (e, f) (refl, refl)
      bounds (some least) none e f = rw (e, f) (refl, refl)
      bounds (some least) (some most) e f = rw (e, f) (refl, refl)

with_general-rows :
    (general : Collection → Option General) (P : Collection → Type 0) (rows : List Collection)
    (out : List (Collection × General))
    → All P rows
    → with_general general rows ≡ some out
    → All (λ r. P r.0) out
unfolding with_general
with_general-rows general P [] out h e = rw (← nothing) tt
  where
    nothing : [] ≡ out
    nothing = cc e
with_general-rows general P (c ∷ rows) out (p, h) e = elim (Option-cases (general c)) [
  | inl n ↦ absurd (cc (rw (n, with_general) at e))
  | inr (info, i) ↦ elim (Option-cases (with_general general rows)) [
    | inl n ↦ absurd (cc (rw (i, n, with_general) at e))
    | inr (rest, r) ↦
        let same : some ((c, info) ∷ rest) ≡ some out = rw (i, r, with_general) at e in
        let out_is : (c, info) ∷ rest ≡ out = cc same in
        rw (← out_is) (p, with_general-rows general P rows rest h r)
  ]
]

with_general-none :
    (general : Collection → Option General) (c : Collection) (rows : List Collection)
    → Memᴰ c rows
    → general c ≡ none
    → with_general general rows ≡ none
unfolding with_general
with_general-none general c [] m n = elim m [ ]
with_general-none general c (x ∷ rows) (Memᴰ.head e) n = rw (rw e at n, with_general) refl
with_general-none general c (x ∷ rows) (Memᴰ.tail m) n = elim (Option-cases (general x)) [
  | inl f ↦ rw (f, with_general) refl
  | inr (info, i) ↦ rw (i, with_general-none general c rows m n, with_general) refl
]

abbrev rows_of : Outcome CollectionPage → List (Collection × General)
rows_of (done page) = page.rows
rows_of (failed message) = []
rows_of refused = []

all_true :
    (a b c d e f : Bool)
    → (a && (b && (c && (d && (e && f))))) ≡ true
    → (a ≡ true) × (b ≡ true) × (c ≡ true) × (d ≡ true) × (e ≡ true) × (f ≡ true)
all_true a b c d e f h = ground arith

both : (a b : Bool) → (a && b) ≡ true → (a ≡ true) × (b ≡ true)
both a b h = ground arith

-- A user who has one of the addresses is a creator of the collection.
abbrev pub IsAskedOf : List String → Db → ℕ → Type 0
IsAskedOf addresses db id =
    (u : User) × (l : UserCollection) × Memᴰ u db.users
    × Memᴰ l db.user_collections
    × (has_address addresses u ≡ true)
    × (l.user_id ≡ u.id)
    × (l.collection_id ≡ id)

-- The same where addresses are given and some user has one of them.
abbrev pub IsAsked : Option (List String) → Db → ℕ → Type 0
IsAsked none db id = Unit
IsAsked (some addresses) db id =
    (any (has_address addresses) db.users ≡ false) ⊎ IsAskedOf addresses db id

module _ (prisma : Prisma) (contains : String → String → Bool) where
  -- The ids of the users who have one of the addresses.
  creator_ids-users :
      (addresses : List String) (db : Db)
      → creator_ids prisma contains (some addresses) db
        ≡ map (λ (u : User). u.id) (filter (has_address addresses) db.users)
  unfolding creator_ids
  creator_ids-users addresses db =
      ap (map (λ (u : User). u.id)) (prisma.find_many_law (has_address addresses) db.users)

  made_by-IsAsked :
      (addresses : Option (List String)) (db : Db) (id : ℕ)
      → made_by db.user_collections (if_any (creator_ids prisma contains addresses db)) id ≡ true
      → IsAsked addresses db id
  made_by-IsAsked none db id h = tt
  made_by-IsAsked (some addresses) db id h =
      elim (Bool-cases (any (has_address addresses) db.users)) [
        | inr f ↦ inl f
        | inl t ↦ inr (
            go _ (sym (creator_ids-users addresses db))
              (any-true (has_address addresses) db.users t) h)
      ]
    where
      users : List User
      users = filter (has_address addresses) db.users

      go :
          (ids : List ℕ)
          → map (λ (u : User). u.id) users ≡ ids
          → (u : User) × Memᴰ u db.users × (has_address addresses u ≡ true)
          → made_by db.user_collections (if_any ids) id ≡ true
          → IsAskedOf addresses db id
      go [] e (u, m, t) made =
          let inside =
            Memᴰ-map (λ (u : User). u.id) (filter-Memᴰ (has_address addresses) db.users m t) in
          elim (rw e at inside) [ ]
      go (i ∷ ids) e some_user made =
          let (l, m, t) = any-true _ db.user_collections made in
          let (same, among) =
            both (l.collection_id == id) (any (λ u. u == l.user_id) (i ∷ ids)) t in
          let (j, k, mine) = any-true (λ u. u == l.user_id) (i ∷ ids) among in
          let (u, inside, is) = map-Memᴰ (λ (u : User). u.id) users (rw (← e) at k) in
          let (row, has) = Memᴰ-filter (has_address addresses) db.users inside in
          (
            u,
            l,
            row,
            m,
            has,
            sym ((ℕ_eq.beq_iff j l.user_id).0 mine) ∙ is,
            (ℕ_eq.beq_iff l.collection_id id).0 same,
          )

  -- What is true of the rows of the table that meet the conditions is true of the rows shown.
  pub read_page-All :
      (filter : CollectionFilter) (order : CollectionOrder) (w : CollectionWhere)
      (general : Collection → Option General) (db : Db) (page : CollectionPage)
      (P : Collection → Type 0)
      → ((c : Collection)
          → Memᴰ c db.collections
          → meets contains db.user_collections w c ≡ true
          → P c)
      → read_page prisma contains filter order w general db ≡ done page
      → All (λ r. P r.0) page.rows
  unfolding read_page
  read_page-All filter order w general db page P each h =
      let p = meets contains db.user_collections w in
      let rows = find_on_page prisma filter.page filter.limit order p db.collections in
      let holds : All P rows = All-Memᴰ P rows (λ c m.
        let (inside, t) = page-Memᴰ prisma filter.page filter.limit order p db.collections c m in
        each c inside t) in
      elim (Option-cases (with_general general rows)) [
        | inl n ↦ absurd (cc (rw (n, read_page) at h))
        | inr (out, e) ↦
            let same : rows_of (read_page prisma contains filter order w general db) ≡ page.rows =
              ap rows_of h in
            rw (← same) (rw (e, read_page) (with_general-rows general P rows out holds e))
      ]

  module _ (redis : Redis) (get_collection_count : String → Option CollectionCount) where
    open redis use {Store}

    -- What is true of the rows of the table that meet the conditions is true of what the list shows.
    pub find_all_collections-All :
        (filter : CollectionFilter) (now : ℕ) (db : Db) (store : Store) (page : CollectionPage)
        (P : Collection → Type 0)
        → ((c : Collection)
            → Memᴰ c db.collections
            → meets contains db.user_collections
                (public_where filter (creator_ids prisma contains filter.creator_addresses db))
                c
              ≡ true
            → P c)
        → find_all_collections prisma contains redis get_collection_count filter now db store
          ≡ done page
        → All (λ r. P r.0) page.rows
    unfolding find_all_collections
    find_all_collections-All filter now db store page P each h =
        elim (Bool-cases (crossed filter)) [
          | inl t ↦
              let same : done empty_page ≡ done page = rw (t, find_all_collections) at h in
              let rows : empty_page.rows ≡ page.rows = ap rows_of same in rw (← rows) tt
          | inr f ↦
              read_page-All filter (order_of filter)
                (public_where filter (creator_ids prisma contains filter.creator_addresses db))
                (λ c.
                  get_general_extended redis get_collection_count c.address c.type c.flag_extend now
                    store)
                db page P each (rw (f, find_all_collections) at h)
        ]

    -- Each collection that the public list shows is a row of the table that meets the conditions: it
    -- is successful and active, it is within the bounds in whole tokens, its slug has that of the name
    -- in it, and, where creator addresses are given and some user has one of them, such a user is a
    -- creator of it.
    pub find_all_collections_sound :
        (filter : CollectionFilter) (now : ℕ) (db : Db) (store : Store) (page : CollectionPage)
        → find_all_collections prisma contains redis get_collection_count filter now db store
          ≡ done page
        → All
            (λ r.
              Memᴰ r.0 db.collections
              × (slug_has contains (slug_of filter.name) r.0.name_slug ≡ true)
              × IsAsked filter.creator_addresses db r.0.id
              × (same_status success r.0.status ≡ true)
              × (at_least (in_whole filter.min) r.0.floor_price ≡ true)
              × (at_most (in_whole filter.max) r.0.floor_price ≡ true)
              × (r.0.is_active ≡ true))
            page.rows
    find_all_collections_sound filter now db store page h =
        let ids = creator_ids prisma contains filter.creator_addresses db in
        find_all_collections-All filter now db store page
          (λ c.
            Memᴰ c db.collections
            × (slug_has contains (slug_of filter.name) c.name_slug ≡ true)
            × IsAsked filter.creator_addresses db c.id
            × (same_status success c.status ≡ true)
            × (at_least (in_whole filter.min) c.floor_price ≡ true)
            × (at_most (in_whole filter.max) c.floor_price ≡ true)
            × (c.is_active ≡ true))
          (λ c m t.
            let (slug, made, status, least, most, active) =
              all_true _ _ _ _ _ _
                (sym (wheres_lem contains db.user_collections filter ids c).0 ∙ t) in
            (
              m,
              slug,
              made_by-IsAsked filter.creator_addresses db c.id made,
              status,
              least,
              most,
              active,
            ))
          h

    -- One extended collection on the page, with an address but no record of its totals in the store,
    -- makes the whole list fail.
    pub find_all_collections-extended :
        (filter : CollectionFilter) (now : ℕ) (db : Db) (store : Store) (c : Collection)
        (address : String)
        → crossed filter ≡ false
        → Memᴰ c (
            find_on_page prisma filter.page filter.limit
              (order_of filter)
              (meets contains db.user_collections
                (public_where filter (creator_ids prisma contains filter.creator_addresses db)))
              db.collections)
        → c.flag_extend ≡ true
        → c.address ≡ some address
        → (address === "") ≡ false
        → get_all_collection_external redis address now store ≡ none
        → find_all_collections prisma contains redis get_collection_count filter now db store
          ≡ refused
    unfolding find_all_collections read_page get_general_extended
    find_all_collections-extended filter now db store c address straight m flag e given missing =
        let general = λ (x : Collection).
          get_general_extended redis get_collection_count x.address x.type x.flag_extend now
            store in
        let fails : general c ≡ none =
          rw (e, flag, get_general_extended)
            (rw (given, get_general_extended) (rw (missing) refl)) in
        rw (straight, find_all_collections)
          (rw (with_general-none general c _ m fails, read_page) refl)
