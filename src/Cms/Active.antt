-- ===== src/Cms/Active.antt =====
-- `handleActiveNFT`, `handleActiveCollection` and `handleActiveUser` of
-- src/modules/cms/service/cms.service.ts, which show or hide a row.
use u2u_marketplace_api.Common.{
  ℕ, String, Bool, Option, none, some, List, ◌≡◌, refl, ◌∙◌, ap, Bool-cases, Option-cases, inl, inr,
  find, any, map_where,
}
use u2u_marketplace_api.Common.Text.{to_lower_case}
use u2u_marketplace_api.Database.{Prisma}
use u2u_marketplace_api.Database.Schema.{User, Nft, Collection, Outcome, done, failed, refused}
use u2u_marketplace_api.Metric.Handlers.{has_id, same_nft}
use u2u_marketplace_api.Cms.Rounds.{
  collection_active, user_active, nft_active, Rounds, Action, handle_action_log,
}
use u2u_marketplace_api.Cms.Collections.{Office, is_collection}

abbrev pub set_nft_active : Bool → Nft → Nft
set_nft_active is_active n = record n { is_active = is_active }

abbrev pub set_collection_active : Bool → Collection → Collection
set_collection_active is_active c = record c { is_active = is_active }

abbrev pub set_user_active : Bool → User → User
set_user_active is_active u = record u { is_active = is_active }

module _ (prisma : Prisma) where
  -- The update of one table after the log entry, with the row that the database answers.
  unfoldable pub log_and_set :
      {Row : Type 0}
      → ℕ
      → Action
      → (Row → Bool)
      → (Row → Row)
      → List Row
      → Rounds
      → Outcome Row × List Row × Rounds
  log_and_set account_id action p f rows rounds =
      elim (handle_action_log prisma account_id action rounds) [
        | none ↦ (refused, rows, rounds)
        | some logged ↦ elim (prisma.update p f rows) [
          | none ↦ (refused, rows, logged)
          | some after ↦ elim (prisma.find_first p after) [
            | none ↦ (refused, after, logged)
            | some row ↦ (done row, after, logged)
          ]
        ]
      ]

  -- `handleActiveNFT`; `id_of` is the id that a text spells, and the database throws on another.
  unfoldable pub handle_active_nft :
      (String → Option ℕ) → String → String → Bool → ℕ → Office → Outcome Nft × Office
  unfolding log_and_set
  handle_active_nft id_of collection_id id is_active account_id s =
      elim (id_of (to_lower_case collection_id)) [
        | none ↦ (refused, s)
        | some found_id ↦ elim (prisma.find_first (is_collection found_id) s.db.collections) [
          | none ↦ (failed "No collection was found", s)
          | some collection ↦ elim (prisma.find_first (same_nft id collection.id) s.db.nfts) [
            | none ↦ (failed "No NFT was found", s)
            | some nft ↦
                let (answer, nfts, rounds) =
                  log_and_set account_id (nft_active collection_id id is_active)
                    (same_nft id collection.id) (set_nft_active is_active) s.db.nfts s.rounds in
                (answer, record { db = record s.db { nfts = nfts }; rounds = rounds })
          ]
        ]
      ]

  -- `handleActiveCollection`
  unfoldable pub handle_active_collection : ℕ → Bool → ℕ → Office → Outcome Collection × Office
  unfolding log_and_set
  handle_active_collection id is_active account_id s =
      elim (prisma.find_first (is_collection id) s.db.collections) [
        | none ↦ (failed "Not Found", s)
        | some collection ↦
            let (answer, collections, rounds) =
              log_and_set account_id (collection_active id is_active) (is_collection id)
                (set_collection_active is_active) s.db.collections s.rounds in
            (answer, record { db = record s.db { collections = collections }; rounds = rounds })
      ]

  -- `handleActiveUser`
  unfoldable pub handle_active_user : ℕ → Bool → ℕ → Office → Outcome User × Office
  unfolding log_and_set
  handle_active_user id is_active account_id s = elim (prisma.find_first (has_id id) s.db.users) [
    | none ↦ (failed "Not Found", s)
    | some user ↦
        let (answer, users, rounds) =
          log_and_set account_id (user_active id is_active) (has_id id) (set_user_active is_active)
            s.db.users s.rounds in
        (answer, record { db = record s.db { users = users }; rounds = rounds })
  ]

  -- An update that answers has changed each row that it is about, and the answer is one of them.
  pub log_and_set-done :
      {Row : Type 0} (account_id : ℕ) (action : Action) (p : Row → Bool) (f : Row → Row)
      (rows : List Row) (rounds : Rounds) (row : Row)
      → (log_and_set account_id action p f rows rounds).0 ≡ done row
      → ((log_and_set account_id action p f rows rounds).1 ≡ map_where p f rows)
        × (find p (map_where p f rows) ≡ some row)
  unfolding log_and_set
  log_and_set-done account_id action p f rows rounds row h =
      elim (Option-cases (handle_action_log prisma account_id action rounds)) [
        | inl n ↦ absurd (cc (rw (n, log_and_set) at h))
        | inr (logged, l) ↦ elim (Bool-cases (any p rows)) [
          | inr n ↦
              let law = prisma.update_law p f rows in absurd (cc (rw (l, law, n, log_and_set) at h))
          | inl t ↦
              let law : prisma.update p f rows ≡ some (map_where p f rows) =
                prisma.update_law p f rows ∙ rw t refl in
              elim (Option-cases (find p (map_where p f rows))) [
                | inl m ↦
                    let gone = prisma.find_first_law p (map_where p f rows) ∙ m in
                    absurd (cc (rw (l, law, gone, log_and_set) at h))
                | inr (found, m) ↦
                    let read = prisma.find_first_law p (map_where p f rows) ∙ m in
                    let same : done found ≡ done row = rw (l, law, read, log_and_set) at h in
                    let is : found ≡ row = cc same in
                    (rw (l, law, read, log_and_set) refl, m ∙ ap some is)
              ]
        ]
      ]

  -- A request that shows or hides a collection and answers has set the column of the rows with its
  -- id, and nothing else of the tables of the marketplace.
  pub handle_active_collection-done :
      (id : ℕ) (is_active : Bool) (account_id : ℕ) (s : Office) (row : Collection)
      → (handle_active_collection id is_active account_id s).0 ≡ done row
      → (handle_active_collection id is_active account_id s).1.db ≡ record s.db {
        collections =
            map_where (is_collection id) (set_collection_active is_active) s.db.collections;
      }
  unfolding handle_active_collection
  handle_active_collection-done id is_active account_id s row h =
      elim (Option-cases (prisma.find_first (is_collection id) s.db.collections)) [
        | inl n ↦ absurd (cc (rw (n, handle_active_collection) at h))
        | inr (c, e) ↦
            let (wrote, _) =
              log_and_set-done account_id (collection_active id is_active) (is_collection id)
                (set_collection_active is_active) s.db.collections s.rounds row
                (rw (e, handle_active_collection) at h) in
            rw (e, handle_active_collection) (rw wrote refl)
      ]
