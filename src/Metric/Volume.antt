-- ===== src/Metric/Volume.antt =====
-- The levels of a volume or a price (src/commons/Metric.common.ts) are texts, and a total that is
-- a text too is compared with them character by character.
use Prim.Native.Char.{code}
use u2u_marketplace_api.Common.{none, refl, ◌<◌, String, ◌≡◌, arith}
use Prim.Native.Char.{Char}
use u2u_marketplace_api.Database.Schema.{erc1155}
use u2u_marketplace_api.Metric.Handlers.{CollectionCount, general_of}
use u2u_marketplace_api.Metric.{text, js_lt, set_check_point_metric, collection_levels}

-- A text whose first character is above `5` passes the three levels, whatever number it stands for.
pub set_check_point_metric-leading_digit :
    (c : Char) (rest : String)
    → b'5' < code c
    → (set_check_point_metric collection_levels.volume_levels (text (String.◌∷◌ c rest)) 0).0 ≡ 6
unfolding set_check_point_metric js_lt
set_check_point_metric-leading_digit c rest h = ground arith

-- For an ERC1155 collection, whose address is not an ERC721 contract to the subgraph, the volume
-- that is measured is 0 and reaches no level, whatever was traded.
pub general_of-erc1155_volume :
    (c : CollectionCount)
    → c.erc721_contract ≡ none
    → set_check_point_metric collection_levels.volume_levels (general_of erc1155 c).volumn 0
      ≡ (0, none)
unfolding set_check_point_metric js_lt
general_of-erc1155_volume c h = rw h refl
