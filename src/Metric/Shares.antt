-- ===== src/Metric/Shares.antt =====
-- The point of a user and of an NFT (src/commons/Metric.common.ts), and the shares in their details.
use u2u_marketplace_api.Common.{
  ℕ, String, ◌≡◌, refl, inl, inr, some, List, [], ◌∷◌, Bool-cases, Option-cases,
}
use mathlib.Core.Path.{subst}
use u2u_marketplace_api.Common.Int.{ℤ, pos, leb_ℤ, ◌+ℤ◌, ◌-ℤ◌, ◌≤ℤ◌, int_laws}
use u2u_marketplace_api.Metric.{
  Value, text, Level, clamp, js_lt, set_check_point_metric, UserMetric, UserDetail, verify_user,
  add_collection, count_followers, NftMetric, add_user, Mint, free_mint_loop, free_mint,
}
use u2u_marketplace_api.Metric.Points.{parts, clamp_nonneg}

abbrev pub user_total : UserDetail → ℤ
user_total d = d.verified +ℤ pos d.followers.total +ℤ d.collection_metric +ℤ d.volume_individual

abbrev pub IsFair : UserMetric → Type 0
IsFair u = u.metric_point ≡ user_total u.metric_detail

-- The shares other than the followers' are not negative together.
abbrev pub IsCovered : UserMetric → Type 0
IsCovered u = pos 0 ≤ℤ (
    u.metric_detail.verified +ℤ u.metric_detail.collection_metric
    +ℤ u.metric_detail.volume_individual)

-- The verified mark keeps a user's point equal to what the detail accounts for.
verify_user-IsFair : (point : ℕ) (u : UserMetric) → IsFair u → IsFair (verify_user point u)
unfolding verify_user
verify_user-IsFair point u h = elim (Bool-cases (leb_ℤ u.metric_detail.verified (pos 0))) [
  | inl t ↦ rw t (omega (int_laws, parts h))
  | inr f ↦ rw f h
]

add_collection-IsFair : (p : ℤ) (u : UserMetric) → IsFair u → IsFair (add_collection p u)
unfolding add_collection
add_collection-IsFair p u h = omega (int_laws, parts h)

followers_base :
    (u : UserMetric)
    → IsFair u
    → IsCovered u
    → clamp (u.metric_point -ℤ pos u.metric_detail.followers.total)
        +ℤ pos u.metric_detail.followers.total
      ≡ u.metric_point
followers_base u h c =
    let rest : pos 0 ≤ℤ (u.metric_point -ℤ pos u.metric_detail.followers.total) =
      omega (int_laws, parts h) in
    rw (clamp_nonneg (u.metric_point -ℤ pos u.metric_detail.followers.total) rest) (omega int_laws)

pub some_inj : (w v : UserMetric) → some w ≡ some v → w ≡ v
some_inj w v h = cc h

count_followers-IsFair :
    (levels : List Level) (followers : Value) (u v : UserMetric)
    → IsFair u
    → IsCovered u
    → count_followers levels followers u ≡ some v
    → IsFair v
unfolding count_followers
count_followers-IsFair levels followers u v h c e =
    elim (Option-cases (set_check_point_metric levels followers 0).1) [
      | inl n ↦ absurd (cc (rw (n, count_followers) at e))
      | inr (l, s) ↦
          let base = clamp (u.metric_point -ℤ pos u.metric_detail.followers.total) in
          let sum = (set_check_point_metric levels followers 0).0 in
          let w : UserMetric = record {
            metric_point = base +ℤ pos sum;
            metric_detail = record u.metric_detail {
              followers = record { level = l; total = sum };
            };
          } in
          let same : some w ≡ some v = rw (s, count_followers) at e in
          subst IsFair (some_inj w v same) (omega (int_laws, parts h, parts (followers_base u h c)))
    ]

-- Each case of `handleMetricUser` keeps a user's point equal to what the detail accounts for: the
-- verified mark, the points of a collection, and the followers, these where the other shares are
-- together not negative.
pub user_cases-IsFair :
    (point : ℕ) (collection_point : ℤ) (levels : List Level) (followers : Value) (u : UserMetric)
    → IsFair u
    → IsCovered u
    → IsFair (verify_user point u)
      × IsFair (add_collection collection_point u)
      × ((v : UserMetric) → count_followers levels followers u ≡ some v → IsFair v)
user_cases-IsFair point p levels followers u h c = (
  verify_user-IsFair point u h,
  add_collection-IsFair p u h,
  λ v e. count_followers-IsFair levels followers u v h c e,
)

abbrev pub IsFairNft : NftMetric → Type 0
IsFairNft n = n.metric_point ≡ n.user_metric +ℤ n.volume_individual

-- An NFT's point follows its creator's: the share is exchanged, and a sum that is exact stays so,
-- where the volume's share is not negative.
pub add_user-IsFairNft :
    (user_point : ℤ) (n : NftMetric)
    → pos 0 ≤ℤ n.volume_individual
    → IsFairNft n
    → IsFairNft (add_user user_point n) × ((add_user user_point n).user_metric ≡ user_point)
unfolding add_user
add_user-IsFairNft user_point n v h =
    let rest : n.metric_point -ℤ n.user_metric ≡ n.volume_individual = omega (int_laws, parts h) in
    (rw rest (rw (clamp_nonneg n.volume_individual v) (omega int_laws)), refl)

-- What the loop of the free mint keeps: each point less its total.
free_mint_loop-keeps :
    (levels : List Level) (prices : String) (m : Mint)
    → ((free_mint_loop levels prices m).user_point +ℤ m.user_total
        ≡ (free_mint_loop levels prices m).user_total +ℤ m.user_point)
      × ((free_mint_loop levels prices m).nft_point +ℤ m.nft_total
          ≡ (free_mint_loop levels prices m).nft_total +ℤ m.nft_point)
unfolding free_mint_loop
free_mint_loop-keeps [] prices m = (omega int_laws, omega int_laws)
free_mint_loop-keeps (l ∷ levels) prices m = elim (Bool-cases (js_lt (text prices) l.value)) [
  | inl t ↦ rw t (omega int_laws, omega int_laws)
  | inr f ↦
      let rest = free_mint_loop-keeps levels prices (record {
        user_point = m.user_point +ℤ pos l.point;
        nft_point = m.nft_point +ℤ pos l.point;
        user_total = m.user_total +ℤ pos l.point;
        nft_total = m.nft_total +ℤ pos l.point;
      }) in
      rw f (omega (int_laws, parts rest.0), omega (int_laws, parts rest.1))
]

-- A free mint keeps both sums exact, for the creator and for the NFT, where they are exact before.
pub free_mint-IsFair :
    (levels : List Level) (prices : String) (user : UserMetric) (nft : NftMetric)
    → IsFair user
    → IsFairNft nft
    → IsFair (free_mint levels prices user nft).0 × IsFairNft (free_mint levels prices user nft).1
unfolding free_mint
free_mint-IsFair levels prices user nft h k =
    let keeps = free_mint_loop-keeps levels prices (record {
      user_point = user.metric_point;
      nft_point = nft.metric_point;
      user_total = user.metric_detail.volume_individual;
      nft_total = nft.volume_individual;
    }) in
    (omega (int_laws, parts keeps.0, parts h), omega (int_laws, parts keeps.1, parts k))
