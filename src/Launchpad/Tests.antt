-- ===== src/Launchpad/Tests.antt =====
-- Runs of the launchpad, and the theorems at concrete projects.
use u2u_marketplace_api.Common.{
  ℕ, String, ◌≡◌, refl, true, false, Option, none, some, List, [], ◌∷◌,
}
use u2u_marketplace_api.Database.Listed.{listed}
use u2u_marketplace_api.Database.Schema.{ProjectRound, Project, Db, refused}
use u2u_marketplace_api.Launchpad.Modes.{minting, upcoming, ended, find_all}
use u2u_marketplace_api.Launchpad.Subscribe.{subcribe_project, is_subscribed}
use u2u_marketplace_api.Launchpad.Subscribed.{subcribe_project-subscribed}

abbrev round : ℕ → ℕ → ProjectRound
round start end_time = record {
  round_id = 1;
  address = none;
  start = start;
  end_time = end_time;
  stake_before = none;
  max_per_wallet = 0;
  total_nftt = 0;
  price = "0";
  instruction = none;
  required_staking = "0";
  claimable_start = end_time;
  claimable_ids = [];
}

abbrev project : ℕ → List ProjectRound → Project
project id rounds = record {
  id = id;
  id_onchain = 0;
  name = "Drop";
  banner = none;
  description = none;
  details = [];
  organization = none;
  website = none;
  telegram = none;
  facebook = none;
  instagram = none;
  discord = none;
  twitter = none;
  logo = none;
  is_activated = true;
  is_delete = false;
  rounds = rounds;
}

abbrev running : Project
running = project 1 (round 10 20 ∷ round 30 40 ∷ [])

abbrev later : Project
later = project 2 (round 30 40 ∷ [])

abbrev bare : Project
bare = project 3 []

at_15 :
    (find_all listed (some minting) 15 (running ∷ later ∷ bare ∷ []) ≡ running ∷ [])
    × (find_all listed (some upcoming) 15 (running ∷ later ∷ bare ∷ []) ≡ later ∷ bare ∷ [])
    × (find_all listed (some ended) 15 (running ∷ later ∷ bare ∷ []) ≡ bare ∷ [])
unfolding find_all
at_15 = (refl, refl, refl)

abbrev tables : Db
tables = record {
  users = [];
  follows = [];
  nfts = [];
  collections = [];
  user_nfts = [];
  user_collections = [];
  statuses = [];
  projects = running ∷ [];
  subscriptions = [];
}

abbrev no_answer : String → Option (Option String)
no_answer address = none

abbrev first_project : String → Option ℕ
first_project text = some 1

-- The staking request fails: the call answers with an exception, and the row stays.
failed_request :
    ((subcribe_project listed first_project no_answer "p1" "0xAB" 7 tables).0 ≡ refused)
    × (is_subscribed listed "0xab" 1
          (subcribe_project listed first_project no_answer "p1" "0xAB" 7 tables).1
        ≡ true)
unfolding subcribe_project is_subscribed
failed_request = (refl, refl)

subcribe_project-subscribed_example :
    is_subscribed listed "0xAB" 1
      (subcribe_project listed first_project no_answer "p1" "0xAB" 7 tables).1
    ≡ true
subcribe_project-subscribed_example =
    subcribe_project-subscribed listed no_answer first_project "p1" "0xAB" 7 1 running tables refl
      refl refl refl
