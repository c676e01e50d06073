-- ===== src/Cms/Hidden.antt =====
-- What `handleActiveCollection` of src/modules/cms/service/cms.service.ts means for the list of
-- src/modules/collection/collection.service.ts.
use u2u_marketplace_api.Common.{
  ℕ, String, Bool, true, false, Option, ◌≡◌, ◌≢◌, refl, sym, ◌∙◌, ap, ℕ_eq, All, All-at, All-map,
  All-Memᴰ,
}
use u2u_marketplace_api.Database.{Prisma}
use u2u_marketplace_api.Database.Rows.{All-map_where}
use u2u_marketplace_api.Database.Schema.{Collection, done}
use u2u_marketplace_api.Metric.{General}
use u2u_marketplace_api.Metric.Handlers.{CollectionCount}
use u2u_marketplace_api.Session.{Redis}
use u2u_marketplace_api.Collections.Listing.{CollectionFilter, CollectionPage, find_all_collections}
use u2u_marketplace_api.Collections.Shown.{find_all_collections_sound}
use u2u_marketplace_api.Cms.Collections.{Office, is_collection}
use u2u_marketplace_api.Cms.Active.{
  set_collection_active, handle_active_collection, handle_active_collection-done,
}

module _ (prisma : Prisma) (contains : String → String → Bool) (redis : Redis)
    (get_collection_count : String → Option CollectionCount) where
  open redis use {Store}

  -- A collection that the back office has hidden is on no page of the public list, whatever the
  -- filter and the page, as long as the tables are as the request left them.
  pub handle_active_collection-hides :
      (id account_id now : ℕ) (s : Office) (row : Collection) (filter : CollectionFilter)
      (store : Store) (page : CollectionPage)
      → (handle_active_collection prisma id false account_id s).0 ≡ done row
      → find_all_collections prisma contains redis get_collection_count filter now
          (handle_active_collection prisma id false account_id s).1.db
          store
        ≡ done page
      → All (λ r. r.0.id ≢ id) page.rows
  handle_active_collection-hides id account_id now s row filter store page answers shown =
      let after = (handle_active_collection prisma id false account_id s).1.db in
      let collections : after.collections ≡ _ =
        ap (λ db. db.collections)
          (handle_active_collection-done prisma id false account_id s row answers) in
      let hidden : All (λ (c : Collection). is_collection id c ≡ true → c.is_active ≡ false)
          after.collections =
        rw collections (
          All-map_where (λ (c : Collection). is_collection id c ≡ true → c.is_active ≡ false)
            (is_collection id) (set_collection_active false) s.db.collections (λ c t u v. refl)
            (λ c f u v. absurd (cc v)) (All-Memᴰ (λ c. Unit) s.db.collections (λ c m. tt))) in
      All-map (λ (r : Collection × General). r.0.id ≢ id)
        (λ r (m, _, _, _, _, _, active) same.
          let off =
            All-at (λ (c : Collection). is_collection id c ≡ true → c.is_active ≡ false) hidden m
              ((ℕ_eq.beq_iff r.0.id id).1 same) in
          absurd (cc (sym active ∙ off)))
        page.rows
        (find_all_collections_sound prisma contains redis get_collection_count filter now after
          store page shown)
