-- ===== src/Metric.antt =====
-- src/commons/Metric.common.ts: the metric points of collections and users, as far as they are
-- computed from one row. The handlers, which read and write the database, are in Metric/Handlers.
pub mod Cascade
pub mod Handlers
pub mod Sound
pub mod Minted
pub mod Levels
pub mod Points
pub mod Shares
pub mod Volume
mod Tests
use Prim.Native.Char.{code}
use Prim.Native.String
use u2u_marketplace_api.Common.{
  ℕ, ◌+◌, ◌-◌, ◌*◌, String, Bool, true, false, ◌&&◌, not, Option, none, some, List, [], ◌∷◌, leb,
  ltb, ◌==◌, if◌then◌else◌,
}
use u2u_marketplace_api.Common.Int.{ℤ, pos, ◌+ℤ◌, ◌-ℤ◌, leb_ℤ, ltb_ℤ}

-- A threshold, or a total that is compared with one: a number or a text.
pub data Value : Type 0 where
  num : ℤ → Value
  text : String → Value

abbrev pub codes : String → List ℕ
codes String.[] = []
codes (String.◌∷◌ c s) = code c ∷ codes s

-- `a < b` on two texts
abbrev pub lex_lt : List ℕ → List ℕ → Bool
lex_lt [] [] = false
lex_lt [] (_ ∷ _) = true
lex_lt (_ ∷ _) [] = false
lex_lt (a ∷ as') (b ∷ bs) = if a == b then lex_lt as' bs else ltb a b

-- `Number(text)` of a decimal text; none stands for NaN.
digits_from : ℕ → List ℕ → Option ℕ
digits_from n [] = some n
digits_from n (c ∷ cs) =
    let rest = digits_from (n * 10 + (c - 48)) cs in if leb 48 c && leb c 57 then rest else none

unfoldable pub to_number : String → Option ℕ
unfolding digits_from
to_number s = digits_from 0 (codes s)

-- `a < b`: two texts are compared as texts, and a text with a number as numbers.
unfoldable pub js_lt : Value → Value → Bool
unfolding to_number
js_lt (num a) (num b) = ltb_ℤ a b
js_lt (text a) (text b) = lex_lt (codes a) (codes b)
js_lt (num a) (text b) = elim (to_number b) [ none ↦ false | some n ↦ ltb_ℤ a (pos n) ]
js_lt (text a) (num b) = elim (to_number a) [ none ↦ false | some n ↦ ltb_ℤ (pos n) b ]

-- `GeneralPoint` without its total: a level of config/metric.json.
pub record Level : Type 0 where
  pub key : String
  pub value : Value
  pub point : ℕ

-- A level with the `total` that is stored beside it in a row's `metricDetail`.
pub record Award : Type 0 where
  pub level : Level
  pub total : ℕ

-- The loop of `setcheckPointMetric`.
check_points : List Level → Value → ℕ → Option Level → ℕ × Option Level
check_points [] total sum check_point = (sum, check_point)
check_points (point ∷ metric) total sum check_point =
    let rest = check_points metric total (sum + point.point) (some point) in
    if js_lt total point.value then (sum, check_point) else rest

pub set_check_point_metric : List Level → Value → ℕ → ℕ × Option Level
unfolding check_points
set_check_point_metric metric total sum = check_points metric total sum none

-- `MetricCollectionJson`; its `Followers` is neither read nor written.
pub record CollectionDetail : Type 0 where
  pub verified : ℤ
  pub volume : Award
  pub total_unique_owner : Award
  pub total_items : Award

-- `MetricCollection`, and `CollectionGeneral`: what the subgraph knows of a collection.
pub record CollectionLevels : Type 0 where
  pub verified_point : ℕ
  pub volume_levels : List Level
  pub owner_levels : List Level
  pub item_levels : List Level

pub record General : Type 0 where
  pub total_nft : Value
  pub total_owner : Value
  pub volumn : Value

-- The columns of a collection that the metric reads and writes.
pub record CollectionMetric : Type 0 where
  pub metric_point : ℤ
  pub metric_detail : CollectionDetail

-- `if (updatedMetricPoint < 0) updatedMetricPoint = BigInt(0)`
abbrev pub clamp : ℤ → ℤ
clamp p = if ltb_ℤ p (pos 0) then pos 0 else p

-- The point that is left when the stored totals are taken back.
base_point : CollectionMetric → ℤ
base_point c = clamp (
    c.metric_point
    -ℤ pos c.metric_detail.total_items.total
    -ℤ pos c.metric_detail.total_unique_owner.total
    -ℤ pos c.metric_detail.volume.total)

-- `updateMetricDetail` for one key: the point and the stored award after it.
update_metric_detail : ℕ × Option Level → ℤ × Award → ℤ × Award
update_metric_detail (sum, none) (point, award) = (point, award)
update_metric_detail (sum, some level) (point, award) =
    (point +ℤ pos sum, record { level = level; total = sum })

-- The case `CollectionMetric` of `handleMetricCollection`, up to the update of the row.
pub recompute : CollectionLevels → General → CollectionMetric → CollectionMetric
unfolding base_point update_metric_detail set_check_point_metric
recompute levels general c =
    let (p₁, items) =
      update_metric_detail (set_check_point_metric levels.item_levels general.total_nft 0)
        (base_point c, c.metric_detail.total_items) in
    let (p₂, owners) =
      update_metric_detail (set_check_point_metric levels.owner_levels general.total_owner 0)
        (p₁, c.metric_detail.total_unique_owner) in
    let (p₃, volume) =
      update_metric_detail (set_check_point_metric levels.volume_levels general.volumn 0)
        (p₂, c.metric_detail.volume) in
    record {
      metric_point = p₃;
      metric_detail = record c.metric_detail {
        total_items = items;
        total_unique_owner = owners;
        volume = volume;
      };
    }

-- The case `Verified` of `handleMetricCollection`. Each update sets both columns, from the point
-- that was read and the detail as it is by then.
pub verify_collection : CollectionLevels → Bool → CollectionMetric → CollectionMetric
verify_collection levels is_verified c =
    let point = pos levels.verified_point in
    let first =
      if leb_ℤ c.metric_detail.verified (pos 0)
      then record {
        metric_point = c.metric_point +ℤ point;
        metric_detail = record c.metric_detail { verified = c.metric_detail.verified +ℤ point };
      }
      else c in
    if not is_verified
    then record {
      metric_point = c.metric_point -ℤ point;
      metric_detail = record first.metric_detail {
        verified = first.metric_detail.verified -ℤ point;
      };
    }
    else first

-- `MetricUserJson`
pub record UserDetail : Type 0 where
  pub verified : ℤ
  pub followers : Award
  pub collection_metric : ℤ
  pub volume_individual : ℤ

pub record UserMetric : Type 0 where
  pub metric_point : ℤ
  pub metric_detail : UserDetail

-- The case `Verified` of `handleMetricUser`.
pub verify_user : ℕ → UserMetric → UserMetric
verify_user point u =
    if leb_ℤ u.metric_detail.verified (pos 0)
    then record {
      metric_point = u.metric_point +ℤ pos point;
      metric_detail = record u.metric_detail { verified = u.metric_detail.verified +ℤ pos point };
    }
    else u

-- The case `CollectionMetric` of `handleMetricUser`, for a collection with this point.
pub add_collection : ℤ → UserMetric → UserMetric
add_collection collection_point u = record {
  metric_point = u.metric_point -ℤ u.metric_detail.collection_metric +ℤ collection_point;
  metric_detail = record u.metric_detail { collection_metric = collection_point };
}

-- The case `Followers` of `handleMetricUser`; none where the row is not updated.
unfoldable pub count_followers : List Level → Value → UserMetric → Option UserMetric
unfolding set_check_point_metric
count_followers levels followers u =
    let base = clamp (u.metric_point -ℤ pos u.metric_detail.followers.total) in
    let (sum, check_point) = set_check_point_metric levels followers 0 in
    elim check_point [
      | none ↦ none
      | some level ↦ some (record {
        metric_point = base +ℤ pos sum;
        metric_detail = record u.metric_detail {
          followers = record { level = level; total = sum };
        };
      })
    ]

-- `MetricNFTJson` and the point of an NFT.
pub record NftMetric : Type 0 where
  pub metric_point : ℤ
  pub user_metric : ℤ
  pub volume_individual : ℤ

-- The case `UserMetric` of `handleMetricNFT`, for one NFT of a user with this point.
pub add_user : ℤ → NftMetric → NftMetric
add_user user_point n = record n {
  metric_point = clamp (n.metric_point -ℤ n.user_metric) +ℤ user_point;
  user_metric = user_point;
}

-- The loop of `handleMetricFreeMint`: the four variables that each passed level raises.
pub record Mint : Type 0 where
  pub user_point : ℤ
  pub nft_point : ℤ
  pub user_total : ℤ
  pub nft_total : ℤ

free_mint_loop : List Level → String → Mint → Mint
free_mint_loop [] prices m = m
free_mint_loop (point ∷ levels) prices m =
    let p = pos point.point in
    let rest = free_mint_loop levels prices (record {
      user_point = m.user_point +ℤ p;
      nft_point = m.nft_point +ℤ p;
      user_total = m.user_total +ℤ p;
      nft_total = m.nft_total +ℤ p;
    }) in
    if js_lt (text prices) point.value then m else rest

-- The two rows that `handleMetricFreeMint` writes.
pub free_mint : List Level → String → UserMetric → NftMetric → UserMetric × NftMetric
unfolding free_mint_loop
free_mint levels prices user nft =
    let m = free_mint_loop levels prices (record {
      user_point = user.metric_point;
      nft_point = nft.metric_point;
      user_total = user.metric_detail.volume_individual;
      nft_total = nft.volume_individual;
    }) in
    (
      record {
        metric_point = m.user_point;
        metric_detail = record user.metric_detail { volume_individual = m.user_total };
      },
      record nft { metric_point = m.nft_point; volume_individual = m.nft_total },
    )

-- config/metric.json
abbrev pub level : String → Value → ℕ → Level
level key value point = record { key = key; value = value; point = point }

abbrev pub volume_individual_levels : List Level
volume_individual_levels =
    level "VolumeIndividual_lv1" (text "1000000000000000000000") 1
    ∷ level "VolumeIndividual_lv2" (text "5000000000000000000000") 2
    ∷ level "VolumeIndividual_lv3" (text "10000000000000000000000") 3
    ∷ []

abbrev pub follower_levels : List Level
follower_levels =
    level "follower_lv1" (num (pos 10)) 1
    ∷ level "follower_lv2" (num (pos 50)) 2
    ∷ level "follower_lv3" (num (pos 100)) 3
    ∷ []

abbrev pub collection_levels : CollectionLevels
collection_levels = record {
  verified_point = 5;
  volume_levels =
      level "volume_lv1" (text "1000000000000000000000") 1
      ∷ level "volume_lv2" (text "5000000000000000000000") 2
      ∷ level "volume_lv3" (text "10000000000000000000000") 3
      ∷ [];
  owner_levels =
      level "owner_lv1" (num (pos 10)) 1
      ∷ level "owner_lv2" (num (pos 50)) 2
      ∷ level "owner_lv3" (num (pos 100)) 3
      ∷ [];
  item_levels =
      level "item_lv1" (num (pos 10)) 1
      ∷ level "item_lv2" (num (pos 50)) 2
      ∷ level "item_lv3" (num (pos 100)) 3
      ∷ [];
}
