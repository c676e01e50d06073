-- ===== src/Session/Tests.antt =====
-- Runs of the sessions, and the theorems on them at concrete stores and tables.
use u2u_marketplace_api.Common.{
  ℕ, String, ◌≡◌, ◌≢◌, refl, true, false, Bool, Option, none, some, [], ◌∷◌, arith, ◌==◌,
  if◌then◌else◌, ◌===◌, String_eq, All,
}
use u2u_marketplace_api.Database.Listed.{listed}
use u2u_marketplace_api.Database.Schema.{User, Db, done, failed, refused}
use u2u_marketplace_api.Access.{viewer}
use u2u_marketplace_api.Cms.Accounts.{
  Account, NewAccount, Staff, create_account, delete_account, update_password, change_roles_account,
  close_account,
}
use u2u_marketplace_api.Cms.Rounds.{handle_action_log}
use u2u_marketplace_api.Cms.AccountSteps.{is_shut}
use u2u_marketplace_api.Cms.AccountRequests.{IsKeyed, roles}
use u2u_marketplace_api.Session.{session_key}
use u2u_marketplace_api.Session.Auth.{
  LoginDto, login_user, get_tokens, login, connect, refresh_tokens,
}
use u2u_marketplace_api.Session.History.{connecting, refreshing, live, run, replay}
use u2u_marketplace_api.Session.Refine.{RefinesAll, run-RefinesAll}
use u2u_marketplace_api.Session.Rotate.{refresh-login, refresh-new_token}
use u2u_marketplace_api.Session.Once.{refresh-once}
use u2u_marketplace_api.Session.Office.{Sign, get_tokens_account, sign_in, refresh_account}
use u2u_marketplace_api.Session.Entry.{sign_in-IsShut, refresh_account-delete_account}
use u2u_marketplace_api.Session.Passwords.{sign_in-update_password}
use u2u_marketplace_api.Session.Created.{Entered, sign_in-create_account}
use u2u_marketplace_api.Session.Email.{Mail, sendverify_email}
use u2u_marketplace_api.Session.Resend.{mails, mails_once_a_minute}
use u2u_marketplace_api.Session.Stored.{stored}
use u2u_marketplace_api.Common.{Memᴰ}
use u2u_marketplace_api.Session.Auth.{is_signature_valid}
use u2u_marketplace_api.User.Listing.{
  user_where, ShownUser, UserFilter, desc, user_select_full, find_all_users,
}
use u2u_marketplace_api.User.Shown.{IsSigned, find_all_users-connect}

abbrev ann_login : LoginDto
ann_login = record { date = "today"; public_key = "0xA"; signature = "s"; signer = "0xa" }

abbrev ann : User
ann = record (login_user 1 ann_login) { email = some "ann@x" }

abbrev tables : Db
tables = record {
  users = ann ∷ [];
  follows = [];
  nfts = [];
  user_nfts = [];
  collections = [];
  user_collections = [];
  statuses = [];
  projects = [];
  subscriptions = [];
}

-- A token of the second in which it is made.
abbrev sign_second : ℕ → String → ℕ → String
sign_second id payload second = if second == 0 then "first" else "later"

abbrev any_date : String → Bool
any_date text = true

abbrev ecrecover : String → String → Option String
ecrecover message signature = some "0xA"

run-RefinesAll_example :
    RefinesAll stored listed ecrecover any_date sign_second
      (run stored listed ecrecover any_date sign_second
        (connecting ann_login 2 0 ∷ refreshing "first" 1000 ∷ refreshing "first" 2000 ∷ [])
        tables
        [])
      (replay stored listed ecrecover any_date sign_second
        (connecting ann_login 2 0 ∷ refreshing "first" 1000 ∷ refreshing "first" 2000 ∷ [])
        tables
        [])
unfolding live
run-RefinesAll_example =
    run-RefinesAll stored listed ecrecover any_date sign_second
      (connecting ann_login 2 0 ∷ refreshing "first" 1000 ∷ refreshing "first" 2000 ∷ []) tables []
      [] (λ token t. refl)

refresh-login_example :
    (refresh_tokens stored listed sign_second "first" 5000 tables
      (login stored sign_second ann 0 []).1).0
    ≡ done (get_tokens sign_second ann 5000)
refresh-login_example =
    refresh-login stored listed sign_second ann ann 0 5000 tables [] refl refl (omega arith) refl

-- The used token is refused at 9000, after another login and a refresh with it that is refused.
refresh-once_example :
    refresh_tokens stored listed sign_second "first" 9000 tables
      (run stored listed ecrecover any_date sign_second
        (connecting ann_login 2 6000 ∷ refreshing "first" 7000 ∷ [])
        tables
        (refresh_tokens stored listed sign_second "first" 5000 tables
          (login stored sign_second ann 0 []).1).1).2
    ≡ (
      failed "Token not found",
      (run stored listed ecrecover any_date sign_second
          (connecting ann_login 2 6000 ∷ refreshing "first" 7000 ∷ [])
          tables
          (refresh_tokens stored listed sign_second "first" 5000 tables
            (login stored sign_second ann 0 []).1).1).2,
    )
unfolding run connect refresh_tokens login
refresh-once_example =
    refresh-once stored "first" listed ecrecover any_date sign_second 5000 9000 tables tables tables
      (login stored sign_second ann 0 []).1 (get_tokens sign_second ann 5000)
      (connecting ann_login 2 6000 ∷ refreshing "first" 7000 ∷ []) refl refl refl refl

-- A refresh in the second of the login: the new token is the old text, and is closed at once.
refresh-new_token_example :
    stored.get
      (session_key "first")
      600
      (refresh_tokens stored listed sign_second "first" 500 tables
        (login stored sign_second ann 0 []).1).1
    ≡ none
unfolding refresh_tokens login
refresh-new_token_example =
    refresh-new_token stored listed sign_second "first" 500 600 tables
      (login stored sign_second ann 0 []).1 (get_tokens sign_second ann 500) refl refl

abbrev root : Account
root = record {
  id = 3;
  username = "root";
  password = some "old#";
  email = none;
  avatar = none;
  full_name = none;
  twitter_link = none;
  telegram_link = none;
  phone = none;
  roles = viewer ∷ [];
  is_active = true;
  is_delete = false;
}

abbrev staff : Staff
staff = record { accounts = root ∷ []; rounds = record { round_infos = []; log_actions = [] } }

abbrev third : String → Option ℕ
third text = some 3

-- The hash of a password is the password here, and the salt is not used.
abbrev plain : String → String → String
plain password salt = password

abbrev fits : String → String → Bool
fits password hash = hash === password

abbrev office_sign : Sign
office_sign id ranks type second = "token"

staff-IsKeyed : IsKeyed staff.accounts
staff-IsKeyed = record { one_id = λ id. ground arith; one_username = λ u. ground arith }

-- Two accounts with one username, of which the first is deleted.
abbrev twins : Staff
twins = record staff { accounts = close_account root ∷ record root { id = 4 } ∷ [] }

sign_in-IsShut_example : ◌≢◌ {A = ℕ} 4 3
unfolding sign_in change_roles_account
sign_in-IsShut_example =
    sign_in-IsShut stored listed office_sign fits third plain 3 (roles "3" [] ∷ []) "root" "old#" 0
      twins []
      (record { tokens = get_tokens_account office_sign root 0; user_id = 4; account_id = 4 })
      (record { there = refl; shut = ground arith }) refl

sign_in-update_password_example :
    (sign_in stored listed office_sign fits "root" "new#" 0
      (update_password listed plain fits "old#" "new#" "" 3 staff).1
      []).0
    ≡ done (record { tokens = get_tokens_account office_sign root 0; user_id = 3; account_id = 3 })
sign_in-update_password_example =
    sign_in-update_password stored listed office_sign plain fits "old#" "new#" "" "old#" 3 0 staff
      root [] staff-IsKeyed refl (refl, refl) refl refl refl refl

abbrev newcomer : NewAccount
newcomer = record {
  username = "nina";
  password = "pass#";
  roles = viewer ∷ [];
  rest = record {
    email = none;
    avatar = none;
    full_name = none;
    twitter_link = none;
    telegram_link = none;
    phone = none;
  };
}

sign_in-create_account_example :
    Entered stored listed office_sign plain fits newcomer "" 5 0 staff []
      (create_account listed plain newcomer "" 5 staff)
sign_in-create_account_example =
    sign_in-create_account stored listed office_sign plain fits newcomer "" 5 0 staff [] refl refl
      refl

refresh_account-delete_account_example :
    ((refresh_account stored listed office_sign "token" 1000
        (delete_account listed third "3" 9 staff).1
        (sign_in stored listed office_sign fits "root" "old#" 0 staff []).1).0
      ≡ done (get_tokens_account office_sign (close_account root) 1000))
    × (is_shut (close_account root) ≡ true)
unfolding sign_in delete_account handle_action_log
refresh_account-delete_account_example =
    refresh_account-delete_account stored listed office_sign fits third "root" "old#" "3" 0 1000 9
      staff []
      (record { tokens = get_tokens_account office_sign root 0; user_id = 3; account_id = 3 })
      (close_account root) refl refl (omega arith) refl refl refl

abbrev mail_sign : Option String → Option String → ℕ → ℕ → String
mail_sign email name id second = "confirm"

mails_once_a_minute_example :
    All
      (λ (m : Mail). m.id ≢ 1)
      (mails stored listed mail_sign tables
        (record { email = "ann@x"; user_id = 1; now = 59999 } ∷ [])
        (sendverify_email stored listed mail_sign "ann@x" 1 0 tables []).1)
unfolding sendverify_email
mails_once_a_minute_example =
    mails_once_a_minute stored listed mail_sign tables "ann@x" ann 0
      (record { email = "ann@x"; user_id = 1; now = 59999 } ∷ []) [] refl refl (omega arith, tt)

-- A refresh in a later second: the old token is gone and the new one is the session.
later_refresh :
    (run stored listed ecrecover any_date sign_second
      (connecting ann_login 2 0
        ∷ refreshing "first" 1000
        ∷ refreshing "first" 2000
        ∷ refreshing "later" 3000
        ∷ [])
      tables
      []).0
    ≡ done (get_tokens sign_second ann 0)
      ∷ done (get_tokens sign_second ann 1000)
      ∷ failed "Token not found"
      ∷ done (get_tokens sign_second ann 3000)
      ∷ []
unfolding run connect refresh_tokens
later_refresh = refl

abbrev all_of_them : UserFilter
all_of_them = record { search = none; page = 1; limit = 10; direction = desc }

abbrev named : Db
named = record tables { users = record ann { username = some "ann" } ∷ [] }

abbrev ann_shown : ShownUser
ann_shown = record {
  row = user_select_full (record ann { username = some "ann" });
  is_followed = false;
}

ann-IsSigned : All (IsSigned listed stored ecrecover any_date sign_second) named.users
unfolding is_signature_valid
ann-IsSigned = (λ date key signature s d k. let same : "0xA" ≡ key = cc k in rw (← same) refl, tt)

-- Somebody who is not signed in reads the list, and signs in as Ann.
find_all_users-connect_example :
    (user : User) × (user_select_full user ≡ ann_shown.row)
    × (connect stored listed ecrecover any_date sign_second
          (record { date = "today"; public_key = "0xA"; signature = "s"; signer = "0xe" })
          9
          3000
          named
          []
        ≡ (
          (login stored sign_second user 3000 []).0,
          named,
          (login stored sign_second user 3000 []).1,
        ))
unfolding find_all_users user_where
find_all_users-connect_example =
    find_all_users-connect listed stored ecrecover any_date sign_second (λ text part. true)
      all_of_them none named ann_shown "today" "0xA" "s" "0xe" 9 3000 [] (Memᴰ.head refl) refl refl
      refl ann-IsSigned (omega arith)

-- A first login with a date that is none makes no user.
no_date :
    connect stored listed ecrecover
      (λ text. false)
      sign_second
      ann_login
      2
      0
      (record tables { users = [] })
      []
    ≡ (refused, record tables { users = [] }, [])
unfolding connect
no_date = refl
