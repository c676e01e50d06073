-- ===== src/Cms/Collections.antt =====
-- `handleVerifyCollection` of src/modules/cms/service/cms.service.ts.
use u2u_marketplace_api.Common.{
  ℕ, String, ◌≡◌, refl, ◌∙◌, ◌⊎◌, inl, inr, Bool, true, ◌||◌, not, Option, none, some, ◌==◌,
  Bool-cases, Option-cases, find, map_where, All, All-at,
}
use u2u_marketplace_api.Common.Int.{pos, leb_ℤ, ltb_ℤ}
use u2u_marketplace_api.Database.{Prisma}
use u2u_marketplace_api.Database.Rows.{
  All-map_where, find-any, find-map_where, find-Memᴰ, updated-map_where,
}
use u2u_marketplace_api.Database.Schema.{Collection, Db, Outcome, done, failed, refused}
use u2u_marketplace_api.Metric.{verify_collection, collection_levels}
use u2u_marketplace_api.Metric.Handlers.{
  CollectionCount, verified, of_collection, update_collection_metrics, collection_case,
  handle_metric_collection, handle_metric,
}
use u2u_marketplace_api.Metric.Points.{IsConsistent, verify_collection-IsConsistent}
use u2u_marketplace_api.Cms.Rounds.{collection_verified, Rounds, handle_action_log}
use u2u_marketplace_api.Cms.RoundSteps.{handle_action_log-logs}

-- The tables that the back office shares with the marketplace, and its own.
pub record Office : Type 0 where
  pub db : Db
  pub rounds : Rounds

abbrev pub is_collection : ℕ → Collection → Bool
is_collection id c = c.id == id

abbrev pub set_is_verified : Bool → Collection → Collection
set_is_verified is_verified c = record c { is_verified = is_verified }

module _ (prisma : Prisma) (get_collection_count : String → Option CollectionCount) where
  -- From the update of the collection on.
  unfoldable pub mark_collection : ℕ → Bool → Office → Outcome Unit × Office
  mark_collection id is_verified s =
      elim (prisma.update (is_collection id) (set_is_verified is_verified) s.db.collections) [
        | none ↦ (refused, s)
        | some collections ↦ (
          done tt,
          record s {
            db =
                handle_metric prisma get_collection_count of_collection verified id none
                  (record s.db { collections = collections });
          },
        )
      ]

  unfoldable pub handle_verify_collection : ℕ → Bool → ℕ → Office → Outcome Unit × Office
  unfolding mark_collection
  handle_verify_collection id is_verified account_id s =
      elim (prisma.find_first (is_collection id) s.db.collections) [
        | none ↦ (failed "Not Found", s)
        | some collection ↦
            elim (handle_action_log prisma account_id (collection_verified id is_verified)
              s.rounds) [
                | none ↦ (refused, s)
                | some rounds ↦ mark_collection id is_verified (record s { rounds = rounds })
              ]
      ]

  abbrev pub AllConsistent : Db → Type 0
  AllConsistent db = All (λ (c : Collection). IsConsistent c.metric) db.collections

  collection_case-AllConsistent :
      (c : Collection) (db : Db)
      → (c.is_verified ≡ true) ⊎ (ltb_ℤ (pos 0) c.metric.metric_detail.verified ≡ true)
      → IsConsistent c.metric
      → AllConsistent db
      → AllConsistent (collection_case prisma get_collection_count verified c db)
  unfolding collection_case update_collection_metrics
  collection_case-AllConsistent c db which own h =
      let metric = verify_collection collection_levels c.is_verified c.metric in
      elim (Bool-cases (leb_ℤ c.metric.metric_detail.verified (pos 0) || not c.is_verified)) [
        | inl t ↦
            rw (t, collection_case)
              (rw
                (updated-map_where prisma (λ (x : Collection). x.id == c.id)
                  (λ x. record x { metric = metric }) db.collections)
                (All-map_where (λ (x : Collection). IsConsistent x.metric)
                  (λ (x : Collection). x.id == c.id) (λ x. record x { metric = metric })
                  db.collections
                  (λ x p k.
                    verify_collection-IsConsistent collection_levels c.is_verified c.metric which
                      own)
                  (λ x p k. k) h))
        | inr f ↦ rw (f, collection_case) h
      ]

  -- Giving or taking the mark of a collection keeps every collection's point what its detail
  -- accounts for, on every branch, where the mark is given or every collection has points for one.
  pub handle_verify_collection-AllConsistent :
      (id : ℕ) (is_verified : Bool) (account_id : ℕ) (s : Office)
      → (is_verified ≡ true)
        ⊎ All
            (λ (c : Collection). ltb_ℤ (pos 0) c.metric.metric_detail.verified ≡ true)
            s.db.collections
      → AllConsistent s.db
      → AllConsistent (handle_verify_collection id is_verified account_id s).1.db
  unfolding handle_verify_collection mark_collection handle_metric handle_metric_collection
  handle_verify_collection-AllConsistent id is_verified account_id s which h =
      let law = prisma.find_first_law (is_collection id) s.db.collections in
      let logs =
        handle_action_log-logs prisma account_id (collection_verified id is_verified) s.rounds in
      elim (Option-cases (find (is_collection id) s.db.collections)) [
        | inl n ↦ rw (law ∙ n, handle_verify_collection) h
        | inr (c, e) ↦
            let marked =
              map_where (is_collection id) (set_is_verified is_verified) s.db.collections in
            let again =
              prisma.find_first_law (is_collection id) marked
              ∙ find-map_where (is_collection id) (set_is_verified is_verified) s.db.collections c
                  (λ x. refl) e in
            let m = find-Memᴰ (is_collection id) s.db.collections e in
            rw
              (
                law ∙ e,
                logs,
                prisma.update_law (is_collection id) (set_is_verified is_verified) s.db.collections,
                find-any (is_collection id) s.db.collections e,
                handle_verify_collection,
                mark_collection,
              )
              (rw (again, handle_metric_collection)
                (collection_case-AllConsistent (set_is_verified is_verified c)
                  (record s.db { collections = marked })
                  (elim which [
                    | inl t ↦ inl t
                    | inr all ↦ inr (
                        All-at
                          (λ (x : Collection). ltb_ℤ (pos 0) x.metric.metric_detail.verified ≡ true)
                          all m)
                  ])
                  (All-at (λ (x : Collection). IsConsistent x.metric) h m)
                  (All-map_where (λ (x : Collection). IsConsistent x.metric) (is_collection id)
                    (set_is_verified is_verified) s.db.collections (λ x p k. k) (λ x p k. k) h)))
      ]
