-- ===== src/Cms/Tests.antt =====
-- Runs of the back office, and the theorems at concrete rounds.
use u2u_marketplace_api.Common.{
  true, find, ℕ, Option, false, inr, String, ◌≡◌, refl, none, some, List, [], ◌∷◌, length, arith,
}
use u2u_marketplace_api.Database.Listed.{listed}
use u2u_marketplace_api.Database.Schema.{Collection, Project, erc721, success, failed, refused}
use u2u_marketplace_api.Cms.Projects.{
  ProjectRoundInput, ProjectInput, new_project, new_project_round, apply_project, is_project,
  set_rounds, handle_update_project, handle_delete_project, get_detail_project,
}
use u2u_marketplace_api.Cms.ProjectSteps.{handle_update_project-rounds}
use u2u_marketplace_api.Cms.ProjectLocks.{handle_update_project-locks}
use u2u_marketplace_api.Cms.Rounds.{handle_action_log, new_round}
use u2u_marketplace_api.Metric.{to_number}
use u2u_marketplace_api.Common.Int.{pos, ◌+ℤ◌}
use u2u_marketplace_api.Metric.{Award, level, num}
use u2u_marketplace_api.Metric.Handlers.{CollectionCount}
use u2u_marketplace_api.Cms.Collections.{
  Office, AllConsistent, handle_verify_collection, handle_verify_collection-AllConsistent,
}
use u2u_marketplace_api.Cms.Rounds.{
  RoundInput, Rounds, create_round_infor, update_round_infor, delete_round_infor,
}
use u2u_marketplace_api.Cms.RoundRows.{IsOrdered, IsNumbered}
use u2u_marketplace_api.Cms.Requests.{
  RoundRequest, create, update, delete, serve_all, serve_all-IsOrdered,
}

abbrev input : String → RoundInput
input name = record { name = name; type = "public"; description = none }

abbrev no_rounds : Rounds
no_rounds = record { round_infos = []; log_actions = [] }

abbrev requests : List RoundRequest
requests =
    create (input "a") 9
    ∷ create (input "b") 9
    ∷ create (input "a") 9
    ∷ update (some "2") (input "a") 9
    ∷ delete (some "1") 9
    ∷ create (input "c") 9
    ∷ []

three : length (serve_all listed requests no_rounds).round_infos ≡ 3
unfolding create_round_infor update_round_infor delete_round_infor to_number
three = refl

no_rounds-IsNumbered : IsNumbered []
no_rounds-IsNumbered id = ground arith

no_rounds-IsOrdered : IsOrdered no_rounds
no_rounds-IsOrdered = (no_rounds-IsNumbered, λ name type. omega arith)

serve_all-IsOrdered_example : IsOrdered (serve_all listed requests no_rounds)
serve_all-IsOrdered_example = serve_all-IsOrdered listed requests no_rounds no_rounds-IsOrdered

abbrev nothing : String → ℕ → Award
nothing key total = record { level = level key (num (pos 0)) 0; total = total }

abbrev marked : Collection
marked = record {
  id = 4;
  tx_creation_hash = "0x1";
  name = "Birds";
  name_slug = none;
  symbol = "BRD";
  description = none;
  address = none;
  short_url = none;
  metadata = none;
  status = success;
  type = erc721;
  category_id = none;
  cover_image = none;
  avatar = none;
  is_verified = false;
  floor_price = 0;
  is_active = true;
  flag_extend = false;
  project_id = none;
  metric = record {
    metric_point = pos 5;
    metric_detail = record {
      verified = pos 5;
      volume = nothing "" 0;
      total_unique_owner = nothing "" 0;
      total_items = nothing "" 0;
    };
  };
}

abbrev office : Office
office = record {
  db = record {
    users = [];
    follows = [];
    nfts = [];
    collections = marked ∷ [];
    user_nfts = [];
    user_collections = [];
    statuses = [];
    projects = [];
    subscriptions = [];
  };
  rounds = no_rounds;
}

abbrev unknown : String → Option CollectionCount
unknown address = none

handle_verify_collection-AllConsistent_example :
    AllConsistent listed unknown (handle_verify_collection listed unknown 4 false 9 office).1.db
unfolding ◌+ℤ◌
handle_verify_collection-AllConsistent_example =
    handle_verify_collection-AllConsistent listed unknown 4 false 9 office (inr (refl, tt))
      (refl, tt)

abbrev drop_round : ℕ → ProjectRoundInput
drop_round round_id = record {
  round_id = round_id;
  address = none;
  start = 10;
  end_time = 20;
  stake_before = none;
  max_per_wallet = none;
  total_nftt = none;
  price = none;
  instruction = none;
  required_staking = none;
  claimable_start = none;
  claimable_ids = [];
}

abbrev drop_input : List ProjectRoundInput → ProjectInput
drop_input rounds = record {
  name = "Drop";
  id_onchain = 1;
  banner = "b";
  description = none;
  organization = "o";
  website = none;
  details = none;
  twitter = none;
  telegram = none;
  discord = none;
  facebook = none;
  instagram = none;
  logo = "l";
  is_activated = some false;
  collection_address = "0xC";
  rounds = rounds;
}

abbrev drop : Project
drop = record (new_project 6 (drop_input [])) {
  is_activated = true;
  rounds = new_project_round 1 (drop_round 1) ∷ [];
}

abbrev with_drop : Office
with_drop = record office {
  rounds = record no_rounds {
    round_infos =
        new_round 1 (record { name = "a"; type = "t"; description = none })
        ∷ new_round 2 (record { name = "b"; type = "t"; description = none })
        ∷ [];
  };
  db = record office.db {
    collections = record marked { address = some "0xc" } ∷ [];
    projects = drop ∷ [];
  };
}

abbrev sixth : String → Option ℕ
sixth text = some 6

handle_update_project-rounds_example :
    find
      (is_project 6)
      (handle_update_project listed sixth "6"
        (drop_input (drop_round 1 ∷ drop_round 2 ∷ []))
        9
        5
        with_drop).1.db.projects
    ≡ some (
        set_rounds
          (new_project_round 5 (drop_round 1) ∷ new_project_round 5 (drop_round 2) ∷ [])
          (apply_project (drop_input (drop_round 1 ∷ drop_round 2 ∷ [])) drop))
unfolding handle_update_project handle_action_log
handle_update_project-rounds_example =
    handle_update_project-rounds listed sixth "6" (drop_input (drop_round 1 ∷ drop_round 2 ∷ [])) 9
      5 6 with_drop (apply_project (drop_input (drop_round 1 ∷ drop_round 2 ∷ [])) drop) refl refl

-- One round twice: the request is refused after the old rounds are gone, and the first is there.
twice :
    ((handle_update_project listed sixth "6"
        (drop_input (drop_round 1 ∷ drop_round 1 ∷ []))
        9
        5
        with_drop).0
      ≡ refused)
    × (find
          (is_project 6)
          (handle_update_project listed sixth "6"
            (drop_input (drop_round 1 ∷ drop_round 1 ∷ []))
            9
            5
            with_drop).1.db.projects
        ≡ some (
            set_rounds
              (new_project_round 5 (drop_round 1) ∷ [])
              (apply_project (drop_input (drop_round 1 ∷ drop_round 1 ∷ [])) drop)))
unfolding handle_update_project handle_action_log
twice = (refl, refl)

handle_update_project-locks_example :
    let after = (handle_update_project listed sixth "6" (drop_input []) 9 5 with_drop).1 in
    (get_detail_project listed 6 after.db ≡ none)
    × (handle_update_project listed sixth "6" (drop_input []) 9 8 after
        ≡ (failed "Not Found", after))
    × (handle_delete_project listed sixth "6" 9 after ≡ (failed "Not Found", after))
unfolding handle_update_project handle_action_log
handle_update_project-locks_example =
    handle_update_project-locks listed sixth "6" (drop_input []) (drop_input []) 9 5 8 6 with_drop
      (apply_project (drop_input []) drop) refl refl refl
