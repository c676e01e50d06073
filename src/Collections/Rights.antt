-- ===== src/Collections/Rights.antt =====
-- Who may change a collection by `create` and `update` of
-- src/modules/collection/collection.service.ts.
use u2u_marketplace_api.Common.{
  ℕ, String, ◌≡◌, ◌≢◌, ◌⊎◌, refl, sym, ap, ◌∙◌, inl, inr, true, false, not, ◌&&◌, Option, none,
  some, List, [], ◌∷◌, ◌++◌, arith, String_eq, Bool-cases, Option-cases, find, any, map_where,
  any-append, ==_iff,
}
use u2u_marketplace_api.Database.{Prisma}
use u2u_marketplace_api.Database.Rows.{
  find-any, find-map_where, find-append_new, none-find, any-weaker,
}
use u2u_marketplace_api.Database.Schema.{Collection, UserCollection, Db, done, failed}
use u2u_marketplace_api.Metric.{CollectionMetric}
use u2u_marketplace_api.Collections.{
  CreateCollection, UpdateCollection, new_collection, collides, taken_by, is_link, is_collection,
  apply_collection, same_short_url, store_collection, create_collection, write_collection,
  update_collection,
}

done_inj : {A : Type 0} (a b : A) → done a ≡ done b → a ≡ b
done_inj a b h = cc h

module _ (prisma : Prisma) where
  write_collection-tables :
      (input : UpdateCollection) (existing : Collection) (id : ℕ) (db : Db)
      → ((write_collection prisma input existing id db).1 ≡ db)
        ⊎ ((write_collection prisma input existing id db).1 ≡ record db {
          collections =
              map_where (is_collection id) (apply_collection input existing) db.collections;
        })
  unfolding write_collection
  write_collection-tables input existing id db =
      let f = apply_collection input existing in
      let law = prisma.update_unique_law same_short_url (is_collection id) f db.collections in
      elim (Option-cases (find (is_collection id) db.collections)) [
        | inl n ↦ inl (rw (law, n, write_collection) refl)
        | inr (row, e) ↦
            elim (Bool-cases
              (any (λ o. not (is_collection id o) && same_short_url (f row) o) db.collections)) [
                | inl t ↦ inl (rw (law, e, t, write_collection) refl)
                | inr n ↦
                    let again =
                      prisma.find_first_law (is_collection id)
                        (map_where (is_collection id) f db.collections)
                      ∙ find-map_where (is_collection id) f db.collections row (λ c. refl) e in
                    inr (rw (law, e, n, again, write_collection) refl)
              ]
      ]

  -- `update` leaves the tables as they are, or the text is the id of a collection that is there, the
  -- user is a creator of it, and only the rows with this id change, by the fields of the input.
  pub update_collection-rights :
      (valid_uuid : String → Option ℕ) (text : String) (input : UpdateCollection) (user_id : ℕ)
      (db : Db)
      → ((update_collection prisma valid_uuid text input user_id db).1 ≡ db)
        ⊎ ((id : ℕ) × (existing : Collection) × (valid_uuid text ≡ some id)
            × (find (is_collection id) db.collections ≡ some existing)
            × (any (is_link user_id id) db.user_collections ≡ true)
            × ((update_collection prisma valid_uuid text input user_id db).1 ≡ record db {
              collections =
                  map_where (is_collection id) (apply_collection input existing) db.collections;
            }))
  unfolding update_collection
  update_collection-rights valid_uuid text input user_id db =
      elim (Option-cases (valid_uuid text)) [
        | inl n ↦ inl (rw (n, update_collection) refl)
        | inr (id, u) ↦
            let law = prisma.find_first_law (is_collection id) db.collections in
            let links = prisma.find_first_law (is_link user_id id) db.user_collections in
            elim (Option-cases (find (is_collection id) db.collections)) [
              | inl n ↦ inl (rw (u, law ∙ n, update_collection) refl)
              | inr (existing, e) ↦
                  elim (Option-cases (find (is_link user_id id) db.user_collections)) [
                    | inl n ↦ inl (rw (u, law ∙ e, links ∙ n, update_collection) refl)
                    | inr (link, l) ↦ elim (write_collection-tables input existing id db) [
                      | inl same ↦ inl (rw (u, law ∙ e, links ∙ l, update_collection) same)
                      | inr wrote ↦ inr (
                        id,
                        existing,
                        u,
                        e,
                        find-any (is_link user_id id) db.user_collections l,
                        rw (u, law ∙ e, links ∙ l, update_collection) wrote,
                      )
                    ]
                  ]
            ]
      ]

  abbrev link : ℕ → ℕ → UserCollection
  link user_id collection_id = record { user_id = user_id; collection_id = collection_id }

  -- What a creation that answers has written.
  store_collection-done :
      (metric : CollectionMetric) (input : CreateCollection) (user_id new_id : ℕ) (db : Db)
      (row : Collection)
      → (store_collection prisma metric input user_id new_id db).0 ≡ done row
      → (row.id ≡ new_id)
        × (any (collides row) db.collections ≡ false)
        × ((store_collection prisma metric input user_id new_id db).1 ≡ record db {
          collections = db.collections ++ row ∷ [];
          user_collections = db.user_collections ++ link user_id new_id ∷ [];
        })
  unfolding store_collection
  store_collection-done metric input user_id new_id db row h =
      let made = new_collection metric new_id input in
      let law = prisma.create_law (collides made) made db.collections in
      let links =
        prisma.create_law (is_link user_id new_id) (link user_id new_id) db.user_collections in
      elim (Bool-cases (any (collides made) db.collections)) [
        | inl t ↦ absurd (cc (rw (law, t, store_collection) at h))
        | inr f ↦ elim (Bool-cases (any (is_link user_id new_id) db.user_collections)) [
          | inl t ↦ absurd (cc (rw (law, f, links, t, store_collection) at h))
          | inr g ↦
              let same = done_inj made row (rw (law, f, links, g, store_collection) at h) in
              (
                ap (λ (c : Collection). c.id) (sym same),
                rw (← same) f,
                rw (law, f, links, g, store_collection, ← same) refl,
              )
        ]
      ]

  create_collection-done :
      (metric : CollectionMetric) (input : CreateCollection) (user_id new_id : ℕ) (db : Db)
      (row : Collection)
      → (create_collection prisma metric input user_id new_id db).0 ≡ done row
      → (row.id ≡ new_id)
        × (any (collides row) db.collections ≡ false)
        × ((create_collection prisma metric input user_id new_id db).1 ≡ record db {
          collections = db.collections ++ row ∷ [];
          user_collections = db.user_collections ++ link user_id new_id ∷ [];
        })
  unfolding create_collection
  create_collection-done metric input user_id new_id db row h =
      elim (Option-cases (prisma.find_first (taken_by input) db.collections)) [
        | inr (old, e) ↦ absurd (cc (rw (e, create_collection) at h))
        | inl n ↦
            rw (n, create_collection)
              (store_collection-done metric input user_id new_id db row
                (rw (n, create_collection) at h))
      ]

  module _ (metric : CollectionMetric) (input : CreateCollection) (user_id new_id : ℕ) (db : Db)
      (row : Collection)
      (created : (create_collection prisma metric input user_id new_id db).0 ≡ done row)
      (valid_uuid : String → Option ℕ) (text : String) (named : valid_uuid text ≡ some new_id)
      (change : UpdateCollection) where
    nobody_before : find (is_collection new_id) db.collections ≡ none
    nobody_before =
        let (own, free, wrote) =
          create_collection-done metric input user_id new_id db row created in
        none-find (is_collection new_id) db.collections (
          any-weaker (is_collection new_id) (collides row) db.collections
            (λ c t. ground (arith, t, own)) free)

    there : find (is_collection new_id) (db.collections ++ row ∷ []) ≡ some row
    there =
        let (own, _, _) = create_collection-done metric input user_id new_id db row created in
        find-append_new (is_collection new_id) row db.collections ((==_iff row.id new_id).1 own)
          nobody_before

    -- The creator of a collection may update it: right after a creation that answers, an update of
    -- it by the same user that writes no short URL answers the new row with the fields of the input.
    pub update-create_collection :
        change.short_url ≡ none
        → (update_collection prisma valid_uuid text change user_id
            (create_collection prisma metric input user_id new_id db).1).0
          ≡ done (apply_collection change row row)
    unfolding update_collection write_collection
    update-create_collection plain =
        let (own, free, wrote) =
          create_collection-done metric input user_id new_id db row created in
        let rows = db.collections ++ row ∷ [] in
        let f = apply_collection change row in
        let links = db.user_collections ++ link user_id new_id ∷ [] in
        let linked : (l : UserCollection) × (find (is_link user_id new_id) links ≡ some l) =
          linked_now db.user_collections in
        let url : (f row).short_url ≡ row.short_url = rw plain refl in
        let clash_free : any (λ o. not (is_collection new_id o) && same_short_url (f row) o) rows
            ≡ false =
          any-append (λ o. not (is_collection new_id o) && same_short_url (f row) o) db.collections
            (row ∷ [])
          ∙ rw
              (any-weaker (λ o. not (is_collection new_id o) && same_short_url (f row) o)
                (collides row) db.collections (λ c t. ground (arith, rw url at t)) free)
              (ground (arith, own)) in
        rw wrote (
          rw
            (
              named,
              prisma.find_first_law (is_collection new_id) rows ∙ there,
              prisma.find_first_law (is_link user_id new_id) links ∙ linked.1,
              prisma.update_unique_law same_short_url (is_collection new_id) f rows,
              there,
              clash_free,
              prisma.find_first_law (is_collection new_id) (map_where (is_collection new_id) f rows)
                  ∙ find-map_where (is_collection new_id) f rows row (λ c. refl) there,
              update_collection,
              write_collection,
            )
            refl)
      where
        linked_now :
            (old : List UserCollection)
            → (l : UserCollection) × (find
                  (is_link user_id new_id)
                  (old ++ link user_id new_id ∷ [])
                ≡ some l)
        linked_now [] = (link user_id new_id, ground arith)
        linked_now (x ∷ old) = elim (Bool-cases (is_link user_id new_id x)) [
          | inl t ↦ (x, rw (t, find) refl)
          | inr n ↦ let (l, e) = linked_now old in (l, rw (n, find) e)
        ]

    -- Another user who is no creator of the new id yet may not.
    pub update-create_collection_other :
        (other : ℕ)
        → other ≢ user_id
        → any (is_link other new_id) db.user_collections ≡ false
        → update_collection prisma valid_uuid text change other
            (create_collection prisma metric input user_id new_id db).1
          ≡ (
            failed "You can't update this collection",
            (create_collection prisma metric input user_id new_id db).1,
          )
    unfolding update_collection
    update-create_collection_other other differs free =
        let (_, _, wrote) = create_collection-done metric input user_id new_id db row created in
        let others = db.user_collections ++ link user_id new_id ∷ [] in
        let not_linked : any (is_link other new_id) others ≡ false =
          any-append (is_link other new_id) db.user_collections (link user_id new_id ∷ [])
          ∙ rw free (ground (arith, differs)) in
        rw wrote (
          rw
            (
              named,
              prisma.find_first_law (is_collection new_id) (db.collections ++ row ∷ []) ∙ there,
              prisma.find_first_law (is_link other new_id) others
                  ∙ none-find (is_link other new_id) others not_linked,
              update_collection,
            )
            refl)
