-- ===== src/Metric/Sound.antt =====
-- What `handleMetricUser` (src/commons/Metric.common.ts) keeps of the tables.
use mathlib.Core.Path.{subst}
use u2u_marketplace_api.Common.{
  ℕ, ◌≡◌, ◌∙◌, ◌==◌, sym, inl, inr, Option, none, some, List, [], ◌∷◌, Bool-cases, Option-cases,
  All, All-at, All-filter, filter, String_eq, ℕ_eq,
}
use u2u_marketplace_api.Common.Int.{ℤ, pos, leb_ℤ, ◌≤ℤ◌, ◌+ℤ◌, ◌-ℤ◌, int_laws}
use u2u_marketplace_api.Database.{Prisma}
use u2u_marketplace_api.Database.Rows.{updated-map_where, All-map_where, find-Memᴰ}
use u2u_marketplace_api.Database.Schema.{User, Nft, Collection, Db}
use u2u_marketplace_api.Metric.{
  Level, clamp, set_check_point_metric, num, UserMetric, verify_user, add_collection,
  count_followers, NftMetric, add_user, follower_levels,
}
use u2u_marketplace_api.Metric.Handlers.{
  MetricCategory, verified, volume, total_unique_owner, total_items, followers, collection_metric,
  user_metric, volume_individual, has_id, is_creator, same_nft, user_verified_point,
  update_user_metrics, update_nft, update_nfts, handle_metric_nft, user_case, handle_metric_user,
}
use u2u_marketplace_api.Metric.Shares.{
  IsFair, IsFairNft, user_cases-IsFair, add_user-IsFairNft, some_inj,
}

-- A user's point is the sum of their shares, none of them negative.
abbrev pub SoundUser : UserMetric → Type 0
SoundUser u =
    IsFair u
    × (pos 0 ≤ℤ u.metric_detail.verified)
    × (pos 0 ≤ℤ u.metric_detail.collection_metric)
    × (pos 0 ≤ℤ u.metric_detail.volume_individual)

abbrev pub SoundNft : NftMetric → Type 0
SoundNft n = IsFairNft n × (pos 0 ≤ℤ n.volume_individual)

abbrev pub IsSound : Db → Type 0
IsSound db =
    All (λ (u : User). SoundUser u.metric) db.users × All (λ (n : Nft). SoundNft n.metric) db.nfts

verify_user-SoundUser :
    (u : UserMetric) → SoundUser u → SoundUser (verify_user user_verified_point u)
unfolding verify_user
verify_user-SoundUser u (h, v, c, i) = (
  (user_cases-IsFair user_verified_point (pos 0) [] (num (pos 0)) u h
      (omega (int_laws, v, c, i))).0,
  verified_nonneg,
  elim (Bool-cases (leb_ℤ u.metric_detail.verified (pos 0))) [ inl t ↦ rw t c | inr f ↦ rw f c ],
  elim (Bool-cases (leb_ℤ u.metric_detail.verified (pos 0))) [ inl t ↦ rw t i | inr f ↦ rw f i ],
)
  where
    verified_nonneg : pos 0 ≤ℤ (verify_user user_verified_point u).metric_detail.verified
    verified_nonneg = elim (Bool-cases (leb_ℤ u.metric_detail.verified (pos 0))) [
      | inl t ↦ rw t (omega (int_laws, v))
      | inr f ↦ rw f v
    ]

module _ (prisma : Prisma) where
  pub update_user_metrics-IsSound :
      (id : ℕ) (m : UserMetric) (db : Db)
      → SoundUser m
      → IsSound db
      → IsSound (update_user_metrics prisma id m db)
  unfolding update_user_metrics
  update_user_metrics-IsSound id m db s (us, ns) = (
    rw (updated-map_where prisma (has_id id) (λ (u : User). record u { metric = m }) db.users) (
        All-map_where (λ (u : User). SoundUser u.metric) (has_id id)
          (λ (u : User). record u { metric = m }) db.users (λ u t h. s) (λ u f h. h) us),
    ns,
  )

  update_nfts-IsSound :
      (point : ℤ) (items : List Nft) (db : Db)
      → All (λ (n : Nft). SoundNft n.metric) items
      → IsSound db
      → IsSound (update_nfts prisma point items db)
  unfolding update_nfts update_nft add_user
  update_nfts-IsSound point [] db h k = k
  update_nfts-IsSound point (item ∷ items) db ((fair, v), h) (us, ns) =
      update_nfts-IsSound point items (update_nft prisma item (add_user point item.metric) db) h (
        us,
        rw
            (updated-map_where prisma (same_nft item.id item.collection_id)
              (λ (n : Nft). record n { metric = add_user point item.metric }) db.nfts)
            (All-map_where (λ (n : Nft). SoundNft n.metric) (same_nft item.id item.collection_id)
              (λ (n : Nft). record n { metric = add_user point item.metric }) db.nfts
              (λ n t k.
                ((add_user-IsFairNft point item.metric v fair).0, same_volume item.metric v))
              (λ n f k. k) ns),
      )
    where
      same_volume :
          (m : NftMetric)
          → pos 0 ≤ℤ m.volume_individual
          → pos 0 ≤ℤ (add_user point m).volume_individual
      same_volume m v = v

  pub handle_metric_nft-IsSound :
      (id : ℕ) (db : Db) → IsSound db → IsSound (handle_metric_nft prisma user_metric id db)
  unfolding handle_metric_nft
  handle_metric_nft-IsSound id db h = elim (Option-cases (prisma.find_first (has_id id) db.users)) [
    | inl n ↦ rw (n, handle_metric_nft) h
    | inr (user, e) ↦
        rw (e, prisma.find_many_law (is_creator id) db.nfts, handle_metric_nft)
          (update_nfts-IsSound user.metric.metric_point (filter (is_creator id) db.nfts) db
            (All-filter (λ (n : Nft). SoundNft n.metric) (is_creator id) db.nfts h.1) h)
  ]

  count_followers-SoundUser :
      (u v : UserMetric) (number : ℤ)
      → SoundUser u
      → count_followers follower_levels (num number) u ≡ some v
      → SoundUser v
  unfolding count_followers
  count_followers-SoundUser u v number (h, v', c, i) e =
      let fair =
        (user_cases-IsFair 0 (pos 0) follower_levels (num number) u h
            (omega (int_laws, v', c, i))).2
          v e in
      elim (Option-cases (set_check_point_metric follower_levels (num number) 0).1) [
        | inl n ↦ absurd (cc (rw (n, count_followers) at e))
        | inr (l, s) ↦ let (a, b, c') = rest l (rw (s, count_followers) at e) in (fair, a, b, c')
      ]
    where
      base : ℤ
      base = clamp (u.metric_point -ℤ pos u.metric_detail.followers.total)

      sum : ℕ
      sum = (set_check_point_metric follower_levels (num number) 0).0

      next : Level → UserMetric
      next l = record {
        metric_point = base +ℤ pos sum;
        metric_detail = record u.metric_detail { followers = record { level = l; total = sum } };
      }

      rest :
          (l : Level)
          → some (next l) ≡ some v
          → (pos 0 ≤ℤ v.metric_detail.verified)
            × (pos 0 ≤ℤ v.metric_detail.collection_metric)
            × (pos 0 ≤ℤ v.metric_detail.volume_individual)
      rest l same =
          let e' : next l ≡ v = some_inj (next l) v same in
          subst
            (λ (w : UserMetric).
              (pos 0 ≤ℤ w.metric_detail.verified)
              × (pos 0 ≤ℤ w.metric_detail.collection_metric)
              × (pos 0 ≤ℤ w.metric_detail.volume_individual))
            e' (v', c, i)

  user_case-IsSound :
      (metric : MetricCategory) (user : User) (collection_id : Option ℕ) (db : Db)
      → All (λ (c : Collection). pos 0 ≤ℤ c.metric.metric_point) db.collections
      → SoundUser user.metric
      → IsSound db
      → IsSound (user_case prisma metric user collection_id db)
  unfolding user_case add_collection
  user_case-IsSound verified user collection_id db cs u h =
      elim (Bool-cases (leb_ℤ user.metric.metric_detail.verified (pos 0))) [
        | inl t ↦ rw t (
            update_user_metrics-IsSound user.id (verify_user user_verified_point user.metric) db
              (verify_user-SoundUser user.metric u) h)
        | inr f ↦ rw f h
      ]
  user_case-IsSound collection_metric user none db cs u h = h
  user_case-IsSound collection_metric user (some collection_id) db cs (fair, v, c, i) h =
      elim (Option-cases
        (prisma.find_first (λ (c : Collection). c.id == collection_id) db.collections)) [
          | inl n ↦ rw (n, user_case) h
          | inr (collection, e) ↦
              let point =
                All-at (λ (c : Collection). pos 0 ≤ℤ c.metric.metric_point) cs
                  (find-Memᴰ (λ (c : Collection). c.id == collection_id) db.collections
                    (sym (
                        prisma.find_first_law (λ (c : Collection). c.id == collection_id)
                          db.collections)
                      ∙ e)) in
              rw (e, user_case)
                (handle_metric_nft-IsSound user.id
                  (update_user_metrics prisma user.id
                    (add_collection collection.metric.metric_point user.metric) db)
                  (update_user_metrics-IsSound user.id
                    (add_collection collection.metric.metric_point user.metric) db
                    (
                      (user_cases-IsFair 0 collection.metric.metric_point [] (num (pos 0))
                          user.metric fair (omega (int_laws, v, c, i))).1,
                      v,
                      point,
                      i,
                    )
                    h))
        ]
  user_case-IsSound followers user collection_id db cs u h =
      elim (Option-cases (count_followers follower_levels (num user.followers) user.metric)) [
        | inl n ↦ rw (n, user_case) h
        | inr (m, e) ↦
            rw (e, user_case)
              (handle_metric_nft-IsSound user.id (update_user_metrics prisma user.id m db) (
                update_user_metrics-IsSound user.id m db
                  (count_followers-SoundUser user.metric m user.followers u e) h))
      ]
  user_case-IsSound volume user collection_id db cs u h = h
  user_case-IsSound total_unique_owner user collection_id db cs u h = h
  user_case-IsSound total_items user collection_id db cs u h = h
  user_case-IsSound user_metric user collection_id db cs u h = h
  user_case-IsSound volume_individual user collection_id db cs u h = h

  -- `handleMetricUser` keeps the tables sound, whatever the category and the user: every user's and
  -- NFT's point stays the sum of its shares, where no share is negative and no collection has a
  -- negative point.
  pub handle_metric_user-IsSound :
      (metric : MetricCategory) (id : ℕ) (collection_id : Option ℕ) (db : Db)
      → All (λ (c : Collection). pos 0 ≤ℤ c.metric.metric_point) db.collections
      → IsSound db
      → IsSound (handle_metric_user prisma metric id collection_id db)
  unfolding handle_metric_user
  handle_metric_user-IsSound metric id collection_id db cs h =
      elim (Option-cases (prisma.find_first (has_id id) db.users)) [
        | inl n ↦ rw (n, handle_metric_user) h
        | inr (user, e) ↦
            let sound =
              All-at (λ (u : User). SoundUser u.metric) h.0
                (find-Memᴰ (has_id id) db.users
                  (sym (prisma.find_first_law (has_id id) db.users) ∙ e)) in
            rw (e, handle_metric_user) (user_case-IsSound metric user collection_id db cs sound h)
      ]
