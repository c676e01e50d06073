-- ===== src/Metric/Minted.antt =====
-- `handleMetricFreeMint` of src/commons/Metric.common.ts: what it keeps of the tables.
use u2u_marketplace_api.Common.{
  ℕ, String, ◌∙◌, sym, inl, inr, List, [], ◌∷◌, Bool-cases, Option-cases, All-at,
}
use u2u_marketplace_api.Common.Int.{pos, ◌≤ℤ◌, ◌+ℤ◌, int_laws}
use u2u_marketplace_api.Database.{Prisma}
use u2u_marketplace_api.Database.Rows.{updated-map_where, All-map_where, find-Memᴰ}
use u2u_marketplace_api.Database.Schema.{User, Nft, Db}
use u2u_marketplace_api.Metric.{
  text, Level, js_lt, UserMetric, NftMetric, Mint, free_mint_loop, free_mint,
  volume_individual_levels,
}
use u2u_marketplace_api.Metric.Handlers.{
  has_id, same_nft, update_user_metrics, update_nft_metrics, handle_metric_free_mint,
}
use u2u_marketplace_api.Metric.Shares.{free_mint-IsFair}
use u2u_marketplace_api.Metric.Sound.{
  SoundUser, SoundNft, IsSound, update_user_metrics-IsSound, handle_metric_nft-IsSound,
}

-- No total goes down in the loop.
free_mint_loop-grows :
    (levels : List Level) (prices : String) (m : Mint)
    → (m.user_total ≤ℤ (free_mint_loop levels prices m).user_total)
      × (m.nft_total ≤ℤ (free_mint_loop levels prices m).nft_total)
unfolding free_mint_loop
free_mint_loop-grows [] prices m = (omega int_laws, omega int_laws)
free_mint_loop-grows (l ∷ levels) prices m = elim (Bool-cases (js_lt (text prices) l.value)) [
  | inl t ↦ rw t (omega int_laws, omega int_laws)
  | inr f ↦
      let (user, nft) = free_mint_loop-grows levels prices (record {
        user_point = m.user_point +ℤ pos l.point;
        nft_point = m.nft_point +ℤ pos l.point;
        user_total = m.user_total +ℤ pos l.point;
        nft_total = m.nft_total +ℤ pos l.point;
      }) in
      rw f (omega (int_laws, user), omega (int_laws, nft))
]

free_mint_sound :
    (levels : List Level) (prices : String) (user : UserMetric) (nft : NftMetric)
    → SoundUser user
    → SoundNft nft
    → SoundUser (free_mint levels prices user nft).0 × SoundNft (free_mint levels prices user nft).1
unfolding free_mint
free_mint_sound levels prices user nft (fair, v, c, i) (fair_nft, k) =
    let (user_fair, nft_fair) = free_mint-IsFair levels prices user nft fair fair_nft in
    let (more, more_nft) = free_mint_loop-grows levels prices (record {
      user_point = user.metric_point;
      nft_point = nft.metric_point;
      user_total = user.metric_detail.volume_individual;
      nft_total = nft.volume_individual;
    }) in
    ((user_fair, v, c, omega (int_laws, i, more)), (nft_fair, omega (int_laws, k, more_nft)))

module _ (prisma : Prisma) where
  update_nft_metrics-IsSound :
      (item : Nft) (m : NftMetric) (db : Db)
      → SoundNft m
      → IsSound db
      → IsSound (update_nft_metrics prisma item m db)
  update_nft_metrics-IsSound item m db s (us, ns) = (
    us,
    rw
        (updated-map_where prisma (same_nft item.id item.collection_id)
          (λ (n : Nft). record n { metric = m }) db.nfts)
        (All-map_where (λ (n : Nft). SoundNft n.metric) (same_nft item.id item.collection_id)
          (λ (n : Nft). record n { metric = m }) db.nfts (λ n t h. s) (λ n f h. h) ns),
  )

  -- A free mint keeps the tables sound, for any NFT, creator and price, with or without their rows:
  -- every user's and NFT's point stays the sum of its shares, none of them negative, over the loop
  -- that raises both rows and the cascade to the creator's NFTs after it.
  pub handle_metric_free_mint-IsSound :
      (id : String) (collection_id creator_id : ℕ) (prices : String) (db : Db)
      → IsSound db
      → IsSound (handle_metric_free_mint prisma id collection_id creator_id prices db)
  unfolding handle_metric_free_mint
  handle_metric_free_mint-IsSound id collection_id creator_id prices db h =
      let users = prisma.find_first_law (has_id creator_id) db.users in
      let nfts = prisma.find_first_law (same_nft id collection_id) db.nfts in
      elim (Option-cases (prisma.find_first (has_id creator_id) db.users)) [
        | inl n ↦ rw (n, handle_metric_free_mint) h
        | inr (user, e) ↦
            elim (Option-cases (prisma.find_first (same_nft id collection_id) db.nfts)) [
              | inl n ↦ rw (e, n, handle_metric_free_mint) h
              | inr (nft, f) ↦
                  let of_user =
                    All-at (λ (u : User). SoundUser u.metric) h.0
                      (find-Memᴰ (has_id creator_id) db.users (sym users ∙ e)) in
                  let of_nft =
                    All-at (λ (n : Nft). SoundNft n.metric) h.1
                      (find-Memᴰ (same_nft id collection_id) db.nfts (sym nfts ∙ f)) in
                  let (user_sound, nft_sound) =
                    free_mint_sound volume_individual_levels prices user.metric nft.metric of_user
                      of_nft in
                  let (user_row, nft_row) =
                    free_mint volume_individual_levels prices user.metric nft.metric in
                  let after = update_user_metrics prisma user.id user_row db in
                  rw (e, f, handle_metric_free_mint)
                    (handle_metric_nft-IsSound prisma user.id
                      (update_nft_metrics prisma nft nft_row after)
                      (update_nft_metrics-IsSound nft nft_row after nft_sound
                        (update_user_metrics-IsSound prisma user.id user_row db user_sound h)))
            ]
      ]
