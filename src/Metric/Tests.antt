-- ===== src/Metric/Tests.antt =====
-- Runs of the metric computations, and the theorems at concrete rows.

use u2u_marketplace_api.Common.{some, none, ℕ, String, ◌≡◌, refl, some, arith}
use u2u_marketplace_api.Common.Int.{pos, ◌+ℤ◌, ◌-ℤ◌}
use u2u_marketplace_api.Metric.{
  num, text, js_lt, Award, CollectionMetric, General, set_check_point_metric, recompute, UserMetric,
  NftMetric, level, follower_levels, collection_levels,
}
use u2u_marketplace_api.Metric.Levels.{Ascending}
use u2u_marketplace_api.Metric.Points.{total_of, lost, recompute-lost}
use u2u_marketplace_api.Metric.Handlers.{CollectionCount}

abbrev award : String → ℕ → Award
award key total = record { level = level key (num (pos 0)) 0; total = total }

abbrev fresh : CollectionMetric
fresh = record {
  metric_point = pos 5;
  metric_detail = record {
    verified = pos 5;
    volume = award "" 0;
    total_unique_owner = award "" 0;
    total_items = award "" 0;
  };
}

-- Once the collection had 60 items of two levels.
abbrev grown : CollectionMetric
grown = record {
  metric_point = pos 8;
  metric_detail = record fresh.metric_detail { total_items = award "item_lv2" 3 };
}

abbrev figures : General
figures = record { total_nft = num (pos 60); total_owner = num (pos 12); volumn = text "7" }

abbrev few : General
few = record { total_nft = num (pos 3); total_owner = num (pos 12); volumn = text "7" }

points : (recompute collection_levels figures fresh).metric_point ≡ pos 15
unfolding recompute set_check_point_metric js_lt ◌+ℤ◌ ◌-ℤ◌
points = refl

reached :
    set_check_point_metric follower_levels (num (pos 60)) 0
    ≡ (3, some (level "follower_lv2" (num (pos 50)) 2))
unfolding set_check_point_metric js_lt
reached = refl

followers_ascend : Ascending follower_levels
followers_ascend = (
  pos 10,
  refl,
  ((pos 50, refl, omega arith), ((pos 100, refl, omega arith), tt)),
  (pos 50, refl, ((pos 100, refl, omega arith), tt), (pos 100, refl, tt, tt)),
)

recompute-lost_example :
    (recompute collection_levels few grown).metric_point
      +ℤ pos (lost collection_levels few grown.metric_detail)
    ≡ total_of (recompute collection_levels few grown).metric_detail
unfolding ◌+ℤ◌
recompute-lost_example = recompute-lost collection_levels few grown refl (ground arith)

abbrev unmarked : CollectionMetric
unmarked = record {
  metric_point = pos 0;
  metric_detail = record fresh.metric_detail { verified = pos 0 };
}

abbrev user : UserMetric
user = record {
  metric_point = pos 4;
  metric_detail = record {
    verified = pos 0;
    followers = award "follower_lv1" 1;
    collection_metric = pos 3;
    volume_individual = pos 0;
  };
}

abbrev nft : NftMetric
nft = record { metric_point = pos 4; user_metric = pos 4; volume_individual = pos 0 }

abbrev traded : CollectionCount
traded = record {
  erc721_contract = none;
  erc1155_contract = some (record { volume = "99"; holder_count = 3; count = 4 });
}
