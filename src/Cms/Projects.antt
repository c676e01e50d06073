-- ===== src/Cms/Projects.antt =====
-- The projects of src/modules/cms/service/launchpad-cms.service.ts.
use u2u_marketplace_api.Common.{
  ℕ, String, Bool, true, false, not, ◌&&◌, Option, none, some, List, [], ◌∷◌, ◌==◌, find, any,
  map_where, if◌then◌else◌, ◌===◌, String_eq,
}
use u2u_marketplace_api.Common.Text.{to_lower_case}
use u2u_marketplace_api.Database.{Prisma}
use u2u_marketplace_api.Database.Schema.{
  Collection, ProjectRound, Project, Db, Outcome, done, failed, refused,
}
use u2u_marketplace_api.User.Follow.{is_value}
use u2u_marketplace_api.Cms.Rounds.{
  RoundInfo, is_round, Action, project_created, project_updated, project_deleted, handle_action_log,
}
use u2u_marketplace_api.Cms.Accounts.{written}
use u2u_marketplace_api.Cms.Collections.{Office, is_collection}

-- `roundProjectDto`: the texts that stand for numbers are the numbers; undefined is none.
pub record ProjectRoundInput : Type 0 where
  pub round_id : ℕ
  pub address : Option String
  pub start : ℕ
  pub end_time : ℕ
  pub stake_before : Option ℕ
  pub max_per_wallet : Option ℕ
  pub total_nftt : Option ℕ
  pub price : Option String
  pub instruction : Option String
  pub required_staking : Option String
  pub claimable_start : Option ℕ
  pub claimable_ids : List String

-- `CreateOrUpdateProjectDto`
pub record ProjectInput : Type 0 where
  pub name : String
  pub id_onchain : ℕ
  pub banner : String
  pub description : Option String
  pub organization : String
  pub website : Option String
  pub details : Option (List String)
  pub twitter : Option String
  pub telegram : Option String
  pub discord : Option String
  pub facebook : Option String
  pub instagram : Option String
  pub logo : String
  pub is_activated : Option Bool
  pub collection_address : String
  pub rounds : List ProjectRoundInput

abbrev pub or_zero : Option ℕ → ℕ
or_zero none = 0
or_zero (some n) = n

-- `value || '0'`
abbrev pub or_zero_text : Option String → String
or_zero_text none = "0"
or_zero_text (some s) = if s === "" then "0" else s

abbrev pub or_now : ℕ → Option ℕ → ℕ
or_now now none = now
or_now now (some t) = t

abbrev pub given_list : Option (List String) → List String → List String
given_list none old = old
given_list (some details) old = details

abbrev pub given_bool : Option Bool → Bool → Bool
given_bool none old = old
given_bool (some value) old = value

-- The row that a round of the input becomes.
abbrev pub new_project_round : ℕ → ProjectRoundInput → ProjectRound
new_project_round now input = record {
  round_id = input.round_id;
  address = input.address;
  start = input.start;
  end_time = input.end_time;
  stake_before = input.stake_before;
  max_per_wallet = or_zero input.max_per_wallet;
  total_nftt = or_zero input.total_nftt;
  price = or_zero_text input.price;
  instruction = input.instruction;
  required_staking = or_zero_text input.required_staking;
  claimable_start = or_now now input.claimable_start;
  claimable_ids = input.claimable_ids;
}

abbrev pub new_project : ℕ → ProjectInput → Project
new_project new_id input = record {
  id = new_id;
  id_onchain = input.id_onchain;
  name = input.name;
  banner = some input.banner;
  description = input.description;
  details = given_list input.details [];
  organization = some input.organization;
  website = input.website;
  telegram = input.telegram;
  facebook = input.facebook;
  instagram = input.instagram;
  discord = input.discord;
  twitter = input.twitter;
  logo = some input.logo;
  is_activated = given_bool input.is_activated true;
  is_delete = false;
  rounds = [];
}

abbrev pub apply_project : ProjectInput → Project → Project
apply_project input p = record p {
  name = input.name;
  banner = some input.banner;
  description = written input.description p.description;
  details = given_list input.details p.details;
  organization = some input.organization;
  website = written input.website p.website;
  telegram = written input.telegram p.telegram;
  facebook = written input.facebook p.facebook;
  instagram = written input.instagram p.instagram;
  discord = written input.discord p.discord;
  twitter = written input.twitter p.twitter;
  logo = some input.logo;
  is_activated = given_bool input.is_activated p.is_activated;
}

abbrev pub is_project : ℕ → Project → Bool
is_project id p = p.id == id

abbrev pub is_open : Project → Bool
is_open p = p.is_activated && not p.is_delete

abbrev pub has_name : String → Project → Bool
has_name name p = (p.name === name) && is_open p

abbrev pub is_open_project : ℕ → Project → Bool
is_open_project id p = is_project id p && is_open p

abbrev pub has_other_name : String → ℕ → Project → Bool
has_other_name name id p = (p.name === name) && (not (is_project id p) && is_open p)

abbrev pub close_project : Project → Project
close_project p = record p { is_delete = true; is_activated = false }

abbrev pub set_rounds : List ProjectRound → Project → Project
set_rounds rounds p = record p { rounds = rounds }

abbrev pub has_collection_address : String → Collection → Bool
has_collection_address address c = is_value address c.address

-- The collection of a project.
abbrev pub in_project : ℕ → Collection → Bool
in_project id c = elim c.project_id [ none ↦ false | some p ↦ p == id ]

abbrev pub set_project : Option ℕ → Collection → Collection
set_project project_id c = record c { project_id = project_id }

-- `projectId` is unique among the collections.
abbrev pub same_project : Collection → Collection → Bool
same_project a b = elim a.project_id [ none ↦ false | some id ↦ in_project id b ]

-- The rows of `ProjectRound` that a project has.
abbrev pub rounds_of : ℕ → List Project → List ProjectRound
rounds_of id projects = elim (find (is_project id) projects) [ none ↦ [] | some p ↦ p.rounds ]

module _ (prisma : Prisma) where
  -- The loop that creates the rows of the rounds beside those that the project has, and whether it
  -- came to its end. The key of a row is the project with the round, and the round has to be there.
  unfoldable pub create_rounds :
      List RoundInfo → ℕ → List ProjectRoundInput → List ProjectRound → Bool × List ProjectRound
  create_rounds infos now [] rounds = (true, rounds)
  create_rounds infos now (input ∷ inputs) rounds = elim (any (is_round input.round_id) infos) [
    | false ↦ (false, rounds)
    | true ↦
        elim (prisma.create (λ (r : ProjectRound). r.round_id == input.round_id)
          (new_project_round now input) rounds) [
            | none ↦ (false, rounds)
            | some after ↦ create_rounds infos now inputs after
          ]
  ]

  -- The rounds of the input are added to those of the project, then the log.
  unfoldable pub store_rounds :
      ProjectInput → Project → Action → ℕ → ℕ → Office → Outcome Project × Office
  unfolding create_rounds
  store_rounds input project action account_id now s =
      let (complete, rounds) =
        create_rounds s.rounds.round_infos now input.rounds (rounds_of project.id s.db.projects) in
      let after = record s {
        db = record s.db {
          projects = map_where (is_project project.id) (set_rounds rounds) s.db.projects;
        };
      } in
      if not complete
      then (refused, after)
      else elim (handle_action_log prisma account_id action after.rounds) [
        | none ↦ (refused, after)
        | some logged ↦ (done project, record after { rounds = logged })
      ]

  -- `collection.update` of the column `projectId`
  unfoldable pub attach : Option ℕ → ℕ → Db → Option Db
  attach project_id collection_id db =
      elim (prisma.update_unique same_project (is_collection collection_id) (set_project project_id)
        db.collections) [
          | none ↦ none
          | some collections ↦ some (record db { collections = collections })
        ]

  -- The update that sets the column to null where it has this project, if there is one.
  unfoldable pub detach : ℕ → Db → Option Db
  detach project_id db =
      if any (in_project project_id) db.collections
      then elim (prisma.update (in_project project_id) (set_project none) db.collections) [
        | none ↦ none
        | some collections ↦ some (record db { collections = collections })
      ]
      else some db

  -- `handleCreateProject`
  unfoldable pub handle_create_project :
      ProjectInput → ℕ → ℕ → ℕ → Office → Outcome Project × Office
  unfolding attach store_rounds
  handle_create_project input account_id new_id now s =
      elim (prisma.find_first (has_name input.name) s.db.projects) [
        | some old ↦ (failed "Name project is already exists!", s)
        | none ↦
            elim (prisma.find_first
              (has_collection_address (to_lower_case input.collection_address)) s.db.collections) [
                | none ↦ (failed "Not Found", s)
                | some collection ↦
                    let project = new_project new_id input in
                    elim (prisma.create (is_project new_id) project s.db.projects) [
                      | none ↦ (refused, s)
                      | some projects ↦
                          let db = record s.db { projects = projects } in
                          elim (attach (some new_id) collection.id db) [
                            | none ↦ (refused, record s { db = db })
                            | some attached ↦
                                store_rounds input project (project_created project.name) account_id
                                  now (record s { db = attached })
                          ]
                    ]
              ]
      ]

  -- `handleUpdateProject` once the project is written: the old collection is let go, the rounds are
  -- deleted, the collection of the input is taken and its rounds are created.
  unfoldable pub move_project :
      ProjectInput → Project → Collection → ℕ → ℕ → Office → Outcome Project × Office
  unfolding attach detach store_rounds
  move_project input project collection account_id now s = elim (detach project.id s.db) [
    | none ↦ (refused, s)
    | some detached ↦
        let cleared = record detached {
          projects = map_where (is_project project.id) (set_rounds []) detached.projects;
        } in
        elim (attach (some project.id) collection.id cleared) [
          | none ↦ (refused, record s { db = cleared })
          | some attached ↦
              store_rounds input project (project_updated project.name) account_id now
                (record s { db = attached })
        ]
  ]

  -- `project.update`, with the row that it answers.
  unfoldable pub write_project :
      ProjectInput → Collection → ℕ → ℕ → ℕ → Office → Outcome Project × Office
  unfolding move_project
  write_project input collection id account_id now s =
      elim (prisma.update (is_project id) (apply_project input) s.db.projects) [
        | none ↦ (refused, s)
        | some projects ↦
            let after = record s { db = record s.db { projects = projects } } in
            elim (prisma.find_first (is_project id) projects) [
              | none ↦ (refused, after)
              | some project ↦ move_project input project collection account_id now after
            ]
      ]

  -- `handleUpdateProject`
  unfoldable pub handle_update_project :
      (String → Option ℕ) → String → ProjectInput → ℕ → ℕ → Office → Outcome Project × Office
  unfolding write_project
  handle_update_project valid_uuid text input account_id now s = elim (valid_uuid text) [
    | none ↦ (failed "Invalid Project. Please try again !", s)
    | some id ↦ elim (prisma.find_first (is_open_project id) s.db.projects) [
      | none ↦ (failed "Not Found", s)
      | some old ↦
          elim (prisma.find_first (has_collection_address (to_lower_case input.collection_address))
            s.db.collections) [
              | none ↦ (failed "Not Found", s)
              | some collection ↦
                  elim (prisma.find_first (has_other_name input.name id) s.db.projects) [
                    | some other ↦ (failed "Name Project is already exists !", s)
                    | none ↦ write_project input collection id account_id now s
                  ]
            ]
    ]
  ]

  -- `project.update` of the deletion, with the row that it answers.
  unfoldable pub shut_project : ℕ → Office → Outcome Project × Office
  shut_project id s = elim (prisma.update (is_project id) close_project s.db.projects) [
    | none ↦ (refused, s)
    | some projects ↦
        let after = record s { db = record s.db { projects = projects } } in
        elim (prisma.find_first (is_project id) projects) [
          | none ↦ (refused, after)
          | some project ↦ (done project, after)
        ]
  ]

  -- `handleDeleteProject`
  unfoldable pub handle_delete_project :
      (String → Option ℕ) → String → ℕ → Office → Outcome Project × Office
  unfolding detach shut_project
  handle_delete_project valid_uuid text account_id s = elim (valid_uuid text) [
    | none ↦ (failed "Invalid Project. Please try again !", s)
    | some id ↦ elim (prisma.find_first (is_open_project id) s.db.projects) [
      | none ↦ (failed "Not Found", s)
      | some old ↦ elim (detach id s.db) [
        | none ↦ (refused, s)
        | some detached ↦
            let after = record s { db = detached } in
            elim (handle_action_log prisma account_id (project_deleted old.name) after.rounds) [
              | none ↦ (refused, after)
              | some logged ↦ shut_project id (record after { rounds = logged })
            ]
      ]
    ]
  ]

  -- `getDetailProject`, less the formatting of the ranges of time.
  unfoldable pub get_detail_project : ℕ → Db → Option Project
  get_detail_project id db = prisma.find_first (is_open_project id) db.projects
