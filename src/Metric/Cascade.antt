-- ===== src/Metric/Cascade.antt =====
-- The cascade of src/commons/Metric.common.ts to the NFTs of a user.
use u2u_marketplace_api.Common.{
  ℕ, ◌≡◌, refl, ◌⊎◌, inl, inr, true, false, some, List, [], ◌∷◌, Bool-cases, All, All-map, All-Memᴰ,
  any, any-Memᴰ, filter, filter-Memᴰ, find, String_eq, ℕ_eq,
}
use u2u_marketplace_api.Common.Int.{ℤ}
use u2u_marketplace_api.Database.{Prisma}
use u2u_marketplace_api.Database.Rows.{updated-map_where, All-map_where}
use u2u_marketplace_api.Database.Schema.{User, Nft, Db}
use u2u_marketplace_api.Metric.{NftMetric, add_user}
use u2u_marketplace_api.Metric.Handlers.{
  user_metric, has_id, is_creator, same_nft, update_nft, update_nfts, handle_metric_nft,
}

pub same_nft_refl : (n : Nft) → same_nft n.id n.collection_id n ≡ true
same_nft_refl n =
    rw ((String_eq.beq_iff n.id n.id).1 refl)
      ((ℕ_eq.beq_iff n.collection_id n.collection_id).1 refl)

module _ (prisma : Prisma) where
  module _ (id : ℕ) (point : ℤ) where
    -- An NFT of the user carries this point of theirs.
    abbrev pub Follows : Nft → Type 0
    Follows n = (is_creator id n ≡ false) ⊎ (n.metric.user_metric ≡ point)

    abbrev Pending : List Nft → Nft → Type 0
    Pending items n = Follows n ⊎ (any (λ (i : Nft). same_nft i.id i.collection_id n) items ≡ true)

    filter-Pending : (nfts : List Nft) → All (Pending (filter (is_creator id) nfts)) nfts
    filter-Pending nfts = All-Memᴰ (Pending (filter (is_creator id) nfts)) nfts (λ n m.
        elim (Bool-cases (is_creator id n)) [
          | inl t ↦ inr (
              any-Memᴰ (λ (i : Nft). same_nft i.id i.collection_id n)
                (filter-Memᴰ (is_creator id) nfts m t) (same_nft_refl n))
          | inr f ↦ inl (inl f)
        ])

    update_nfts-Follows :
        (items : List Nft) (db : Db)
        → All (Pending items) db.nfts
        → All Follows (update_nfts prisma point items db).nfts
    unfolding update_nfts update_nft add_user
    update_nfts-Follows [] db h =
        All-map Follows (λ n p. elim p [ inl f ↦ f | inr t ↦ absurd (cc t) ]) db.nfts h
    update_nfts-Follows (item ∷ items) db h =
        update_nfts-Follows items (update_nft prisma item (add_user point item.metric) db) (
          rw
            (updated-map_where prisma (same_nft item.id item.collection_id)
              (λ (n : Nft). record n { metric = add_user point item.metric }) db.nfts)
            (All-map_where (Pending items) (same_nft item.id item.collection_id)
              (λ (n : Nft). record n { metric = add_user point item.metric }) db.nfts
              (λ n t p. inl (inr (carries item.metric)))
              (λ n f p. elim p [ inl g ↦ inl g | inr t ↦ inr (rw (f, any) at t) ]) h))
      where
        carries : (m : NftMetric) → (add_user point m).user_metric ≡ point
        carries m = refl

  -- After `handleMetricNFT` for a user who has a row, every NFT of the user carries the point of that
  -- row.
  pub handle_metric_nft-Follows :
      (id : ℕ) (user : User) (db : Db)
      → find (has_id id) db.users ≡ some user
      → All (Follows id user.metric.metric_point) (handle_metric_nft prisma user_metric id db).nfts
  unfolding handle_metric_nft
  handle_metric_nft-Follows id user db h =
      rw
        (
          prisma.find_first_law (has_id id) db.users,
          h,
          prisma.find_many_law (is_creator id) db.nfts,
          handle_metric_nft,
        )
        (update_nfts-Follows id user.metric.metric_point (filter (is_creator id) db.nfts) db
          (filter-Pending id user.metric.metric_point db.nfts))
