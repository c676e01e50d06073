-- ===== src/Cms/Rounds.antt =====
-- The rounds of src/modules/cms/service/launchpad-cms.service.ts, with `handleActionLog` of
-- src/modules/cms/service/cms.service.ts. A round is never removed, only marked.
use u2u_marketplace_api.Common.{
  ℕ, ◌+◌, String, Bool, true, false, ◌&&◌, not, Option, none, some, List, ◌==◌, if◌then◌else◌,
  ◌===◌, String_eq,
}
use u2u_marketplace_api.Database.{Prisma}
use u2u_marketplace_api.Database.Schema.{Outcome, done, failed, refused}
use u2u_marketplace_api.Metric.{to_number}
use u2u_marketplace_api.User.Follow.{is_value}

-- `RoundInfo`
pub record RoundInfo : Type 0 where
  pub id : ℕ
  pub name : Option String
  pub type : Option String
  pub description : Option String
  pub is_active : Bool
  pub is_delete : Bool

-- `CreateRoundInforDto`; a description that is undefined is none.
pub record RoundInput : Type 0 where
  pub name : String
  pub type : String
  pub description : Option String

-- What the text of a log entry says.
pub data Action : Type 0 where
  collection_verified collection_active user_active : ℕ → Bool → Action
  nft_active : String → String → Bool → Action
  password_reset account_deleted : ℕ → Action
  project_created project_updated project_deleted : String → Action
  round_created round_updated : String → String → Action
  round_deleted : Option String → Option String → Action

pub record LogAction : Type 0 where
  pub account_id : ℕ
  pub detail : Action

pub record Rounds : Type 0 where
  pub round_infos : List RoundInfo
  pub log_actions : List LogAction

abbrev pub is_round : ℕ → RoundInfo → Bool
is_round id r = r.id == id

abbrev pub is_named : String → String → RoundInfo → Bool
is_named name type r = is_value name r.name && is_value type r.type

abbrev pub new_round : ℕ → RoundInput → RoundInfo
new_round id input = record {
  id = id;
  name = some input.name;
  type = some input.type;
  description = input.description;
  is_active = true;
  is_delete = false;
}

abbrev pub description_after : Option String → Option String → Option String
description_after none old = old
description_after (some new) old = some new

abbrev pub rename_round : RoundInput → RoundInfo → RoundInfo
rename_round input r = record r {
  name = some input.name;
  type = some input.type;
  description = description_after input.description r.description;
}

abbrev pub mark_deleted : RoundInfo → RoundInfo
mark_deleted r = record r { is_delete = true; is_active = false }

module _ (prisma : Prisma) where
  -- `handleActionLog`: no column of the entry is unique, and its account exists.
  unfoldable pub handle_action_log : ℕ → Action → Rounds → Option Rounds
  handle_action_log account_id detail s =
      elim (prisma.create (λ (l : LogAction). false)
        (record { account_id = account_id; detail = detail }) s.log_actions) [
          | none ↦ none
          | some log_actions ↦ some (record s { log_actions = log_actions })
        ]

  -- `createRoundInfor`, from the creation of the row on.
  unfoldable pub add_round : RoundInput → Rounds → Outcome RoundInfo × Rounds
  add_round input s =
      let row = new_round (prisma.count_where (λ (r : RoundInfo). true) s.round_infos + 1) input in
      elim (prisma.create (is_round row.id) row s.round_infos) [
        | none ↦ (refused, s)
        | some round_infos ↦ (done row, record s { round_infos = round_infos })
      ]

  -- `createRoundInfor`
  unfoldable pub create_round_infor : RoundInput → ℕ → Rounds → Outcome RoundInfo × Rounds
  unfolding handle_action_log add_round
  create_round_infor input account_id s =
      elim (prisma.find_first (is_named input.name input.type) s.round_infos) [
        | some round ↦ (failed "Name round is already exists !", s)
        | none ↦ elim (handle_action_log account_id (round_created input.name input.type) s) [
          | none ↦ (refused, s)
          | some logged ↦ add_round input logged
        ]
      ]

  -- The update that ends `updateRoundInfor` and `deleteRound`.
  unfoldable pub change_round : ℕ → (RoundInfo → RoundInfo) → Rounds → Outcome Unit × Rounds
  change_round id change s = elim (prisma.update (is_round id) change s.round_infos) [
    | none ↦ (refused, s)
    | some round_infos ↦ (done tt, record s { round_infos = round_infos })
  ]

  unfoldable pub log_and_change :
      ℕ → ℕ → Action → (RoundInfo → RoundInfo) → Rounds → Outcome Unit × Rounds
  unfolding handle_action_log change_round
  log_and_change account_id id detail change s = elim (handle_action_log account_id detail s) [
    | none ↦ (refused, s)
    | some logged ↦ change_round id change logged
  ]

  unfoldable pub update_round : ℕ → RoundInput → ℕ → Rounds → Outcome Unit × Rounds
  unfolding log_and_change
  update_round id input account_id s = elim (prisma.find_first (is_round id) s.round_infos) [
    | none ↦ (failed "Not Found", s)
    | some round ↦
        elim (prisma.find_first (λ r. is_named input.name input.type r && not (is_round id r))
          s.round_infos) [
            | some other ↦ (failed "Name round is already exists !", s)
            | none ↦
                log_and_change account_id id (round_updated input.name input.type)
                  (rename_round input) s
          ]
  ]

  unfoldable pub delete_round : ℕ → ℕ → Rounds → Outcome Unit × Rounds
  unfolding log_and_change
  delete_round id account_id s = elim (prisma.find_first (is_round id) s.round_infos) [
    | none ↦ (failed "Not Found", s)
    | some round ↦ log_and_change account_id id (round_deleted round.name round.type) mark_deleted s
  ]

  -- What both do with the text of the id: one that is missing or '' is refused, and the database
  -- throws on one that is no number.
  unfoldable pub with_id :
      (ℕ → Rounds → Outcome Unit × Rounds) → Option String → Rounds → Outcome Unit × Rounds
  with_id act none s = (failed "Invalid Round. Please try again !", s)
  with_id act (some text) s =
      if text === ""
      then (failed "Invalid Round. Please try again !", s)
      else elim (to_number text) [ none ↦ (refused, s) | some id ↦ act id s ]

  -- `updateRoundInfor`
  unfoldable pub update_round_infor :
      Option String → RoundInput → ℕ → Rounds → Outcome Unit × Rounds
  unfolding with_id update_round
  update_round_infor id input account_id s = with_id (λ n. update_round n input account_id) id s

  -- `deleteRound`
  unfoldable pub delete_round_infor : Option String → ℕ → Rounds → Outcome Unit × Rounds
  unfolding with_id delete_round
  delete_round_infor id account_id s = with_id (λ n. delete_round n account_id) id s
