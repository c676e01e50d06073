-- ===== src/Cms/Accounts.antt =====
-- The accounts of the back office: src/modules/cms/service/cms.service.ts. Parameters: bcrypt, which
-- hashes a password with a salt, and `isValidUUID`, with the id that a text of this form stands for.
use u2u_marketplace_api.Common.{
  ℕ, String, Bool, true, false, ◌||◌, Option, none, some, List, ◌==◌, if◌then◌else◌, ◌===◌,
  String_eq,
}
use u2u_marketplace_api.Database.{Prisma}
use u2u_marketplace_api.Database.Schema.{Outcome, done, failed, refused}
use u2u_marketplace_api.Access.{Role}
use u2u_marketplace_api.Paging.{has_next_page}
use u2u_marketplace_api.Cms.Rounds.{
  Rounds, Action, password_reset, account_deleted, handle_action_log,
}

-- `Account`. Each row has a password; an answer that had it deleted has none.
pub record Account : Type 0 where
  pub id : ℕ
  pub username : String
  pub password : Option String
  pub email : Option String
  pub avatar : Option String
  pub full_name : Option String
  pub twitter_link : Option String
  pub telegram_link : Option String
  pub phone : Option String
  pub roles : List Role
  pub is_active : Bool
  pub is_delete : Bool

-- `UpdateAccountDto`, less the roles, which the handler does not read; undefined is none.
pub record AccountInput : Type 0 where
  pub email : Option String
  pub avatar : Option String
  pub full_name : Option String
  pub twitter_link : Option String
  pub telegram_link : Option String
  pub phone : Option String

-- `CreateAccountDto`
pub record NewAccount : Type 0 where
  pub username : String
  pub password : String
  pub roles : List Role
  pub rest : AccountInput

-- The accounts, and the tables of the rounds with the log.
pub record Staff : Type 0 where
  pub accounts : List Account
  pub rounds : Rounds

abbrev pub is_account : ℕ → Account → Bool
is_account id a = a.id == id

abbrev pub has_username : String → Account → Bool
has_username username a = a.username === username

abbrev pub new_account : ℕ → String → NewAccount → Account
new_account id hash input = record {
  id = id;
  username = input.username;
  password = some hash;
  email = input.rest.email;
  avatar = input.rest.avatar;
  full_name = input.rest.full_name;
  twitter_link = input.rest.twitter_link;
  telegram_link = input.rest.telegram_link;
  phone = input.rest.phone;
  roles = input.roles;
  is_active = true;
  is_delete = false;
}

-- A column that is written unless the value is undefined.
abbrev pub written : Option String → Option String → Option String
written none old = old
written (some new) old = some new

abbrev pub apply_account : AccountInput → Account → Account
apply_account input a = record a {
  email = written input.email a.email;
  avatar = written input.avatar a.avatar;
  full_name = written input.full_name a.full_name;
  twitter_link = written input.twitter_link a.twitter_link;
  telegram_link = written input.telegram_link a.telegram_link;
  phone = written input.phone a.phone;
}

abbrev pub set_password : String → Account → Account
set_password hash a = record a { password = some hash }

abbrev pub set_roles : List Role → Account → Account
set_roles roles a = record a { roles = roles }

abbrev pub close_account : Account → Account
close_account a = record a { is_delete = true; is_active = false }

abbrev pub hide_password : Account → Account
hide_password a = record a { password = none }

-- What is done with the answer of a handler.
abbrev pub answered : {A B : Type 0} → (A → B) → Outcome A → Outcome B
answered f (done a) = done (f a)
answered f (failed message) = failed message
answered f refused = refused

abbrev pub hidden : Outcome Account × Staff → Outcome Account × Staff
hidden (answer, s) = (answered hide_password answer, s)

-- The filter of `findAll`; a username that is undefined does not filter.
abbrev pub named : Option String → Account → Bool
named none a = true
named (some username) a = has_username username a

module _ (prisma : Prisma) where
  -- `account.update` by the id, with the row that it answers.
  unfoldable pub write_account : (Account → Account) → ℕ → Staff → Outcome Account × Staff
  write_account f id s = elim (prisma.update (is_account id) f s.accounts) [
    | none ↦ (refused, s)
    | some accounts ↦ elim (prisma.find_first (is_account id) accounts) [
      | none ↦ (refused, record s { accounts = accounts })
      | some row ↦ (done row, record s { accounts = accounts })
    ]
  ]

  -- `findOne`; without a row the handler deletes a field of null, which throws.
  unfoldable pub find_one : (String → Option ℕ) → String → Staff → Outcome Account
  find_one valid_uuid text s = elim (valid_uuid text) [
    | none ↦ failed "Invalid User. Please try again !"
    | some id ↦ elim (prisma.find_first (is_account id) s.accounts) [
      | none ↦ refused
      | some row ↦ done (hide_password row)
    ]
  ]

  -- `findRolesByUser`
  unfoldable pub find_roles_by_user : (String → Option ℕ) → String → Staff → Outcome (List Role)
  find_roles_by_user valid_uuid text s = elim (valid_uuid text) [
    | none ↦ failed "Invalid User. Please try again !"
    | some id ↦ elim (prisma.find_first (is_account id) s.accounts) [
      | none ↦ refused
      | some row ↦ done row.roles
    ]
  ]

  -- `create`
  unfoldable pub create_account :
      (String → String → String) → NewAccount → String → ℕ → Staff → Outcome Account × Staff
  create_account hash input salt new_id s =
      elim (prisma.find_first (has_username input.username) s.accounts) [
        | some row ↦ (failed "Username is already exists", s)
        | none ↦
            let row = new_account new_id (hash input.password salt) input in
            elim (prisma.create (λ a. is_account row.id a || has_username row.username a) row
              s.accounts) [
                | none ↦ (refused, s)
                | some accounts ↦ (done row, record s { accounts = accounts })
              ]
      ]

  -- `update`
  unfoldable pub update_account : AccountInput → ℕ → Staff → Outcome Account × Staff
  unfolding write_account
  update_account input account_id s = elim (prisma.find_first (is_account account_id) s.accounts) [
    | none ↦ (failed "Not Found", s)
    | some row ↦ write_account (apply_account input) account_id s
  ]

  -- `UpdatePassword`; `compare` is bcrypt's, and a row without a password makes it throw.
  unfoldable pub update_password :
      (String → String → String)
      → (String → String → Bool)
      → String
      → String
      → String
      → ℕ
      → Staff
      → Outcome Account × Staff
  unfolding write_account
  update_password hash compare current_password new_password salt account_id s =
      elim (prisma.find_first (is_account account_id) s.accounts) [
        | none ↦ (failed "Not Found", s)
        | some row ↦ elim row.password [
          | none ↦ (refused, s)
          | some password ↦
              if compare current_password password
              then hidden (write_account (set_password (hash new_password salt)) account_id s)
              else (failed "Your current password is incorrect, please try again", s)
        ]
      ]

  -- The log entry of a handler that has written.
  unfoldable pub then_log : ℕ → Action → Outcome Account × Staff → Outcome Account × Staff
  then_log account_id action (done row, s) =
      elim (handle_action_log prisma account_id action s.rounds) [
        | none ↦ (refused, s)
        | some rounds ↦ (done row, record s { rounds = rounds })
      ]
  then_log account_id action (failed message, s) = (failed message, s)
  then_log account_id action (refused, s) = (refused, s)

  -- `ResetPassword`
  unfoldable pub reset_password :
      (String → Option ℕ)
      → (String → String → String)
      → String
      → String
      → String
      → ℕ
      → Staff
      → Outcome Account × Staff
  unfolding write_account then_log
  reset_password valid_uuid hash text new_password salt account_id s = elim (valid_uuid text) [
    | none ↦ (failed "Invalid User. Please try again !", s)
    | some id ↦ elim (prisma.find_first (is_account id) s.accounts) [
      | none ↦ (failed "Not Found", s)
      | some row ↦ hidden (
          then_log account_id (password_reset id)
            (write_account (set_password (hash new_password salt)) row.id s))
    ]
  ]

  -- `ChangeRolesAccount`
  unfoldable pub change_roles_account :
      (String → Option ℕ) → String → List Role → Staff → Outcome Bool × Staff
  unfolding write_account
  change_roles_account valid_uuid text roles s = elim (valid_uuid text) [
    | none ↦ (failed "Invalid User. Please try again !", s)
    | some id ↦
        let (answer, after) = write_account (set_roles roles) id s in
        (answered (λ _. true) answer, after)
  ]

  -- `deleteAccount`
  unfoldable pub delete_account : (String → Option ℕ) → String → ℕ → Staff → Outcome Account × Staff
  unfolding write_account
  delete_account valid_uuid text account_id s = elim (valid_uuid text) [
    | none ↦ (failed "Invalid User. Please try again !", s)
    | some id ↦ elim (prisma.find_first (is_account id) s.accounts) [
      | none ↦ (failed "Not Found", s)
      | some row ↦ elim (handle_action_log prisma account_id (account_deleted id) s.rounds) [
        | none ↦ (refused, s)
        | some rounds ↦ write_account close_account id (record s { rounds = rounds })
      ]
    ]
  ]

  -- The paging of `findAll`.
  unfoldable pub accounts_have_next : ℕ → ℕ → Option String → Staff → Bool
  accounts_have_next page limit username s =
      has_next_page prisma page limit (named username) s.accounts
