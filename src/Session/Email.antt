-- ===== src/Session/Email.antt =====
-- `sendverifyEmail`, `saveTokenConfirm` and `checkRecord` of src/modules/user/user.service.ts, over the
-- store of the sessions.
use Prim.Native.String.{◌++◌}
use u2u_marketplace_api.Common.{
  ℕ, ◌/◌, String, Bool, true, Option, none, some, List, [], ◌∷◌, if◌then◌else◌,
}
use u2u_marketplace_api.Database.{Prisma}
use u2u_marketplace_api.Database.Schema.{User, Db, Outcome, done, failed, refused}
use u2u_marketplace_api.Metric.Handlers.{has_id}
use u2u_marketplace_api.User.Follow.{is_value}
use u2u_marketplace_api.Session.{
  Redis, of_id, of_email, of_external, EmailRecord, store_object_session, get_session_info,
}

-- The message of the channel `user-channel`.
pub record Mail : Type 0 where
  pub email : String
  pub name : Option String
  pub id : ℕ
  pub verify_token : String

-- What `checkRecord` answers: the record, null, or an exception for a text that is no JSON.
pub data Found : Type 0 where
  nothing broken : Found
  emails : EmailRecord → Found

-- The key of the record of a user.
abbrev pub email_key : String → String
email_key signer = signer ++ "-Verify"

abbrev pub email_record : String → String → ℕ → ℕ → EmailRecord
email_record email verify_token user_id now = record {
  timestamp = now / 1000;
  email = some email;
  user_id = user_id;
  verify_token = verify_token;
}

-- `generateTokenConfirm`: the library's token of an email, a name and an id, at a second.
abbrev pub SignMail : Type 0
SignMail = Option String → Option String → ℕ → ℕ → String

module _ (redis : Redis) where
  open redis use {Store}

  -- `checkRecord`, on a key whose values this service writes.
  unfoldable pub check_record : String → ℕ → Store → Found
  unfolding get_session_info
  check_record address now store = elim (get_session_info redis address now store) [
    | none ↦ nothing
    | some (of_id _) ↦ broken
    | some (of_email r) ↦ emails r
    | some (of_external _) ↦ broken
  ]

  -- `sendverifyEmail` once no record is found. `publish` catches its own errors.
  unfoldable pub mail_token :
      SignMail → String → User → ℕ → Store → Outcome Bool × Store × List Mail
  unfolding store_object_session
  mail_token sign email user now store =
      let verify_token = sign user.email user.username user.id (now / 1000) in
      elim (store_object_session redis (email_key user.signer)
        (of_email (email_record email verify_token user.id now)) 60 now store) [
          | none ↦ (refused, store, [])
          | some (_, after) ↦ (
            done true,
            after,
            record {
              email = email;
              name = user.username;
              id = user.id;
              verify_token = verify_token;
            }
                ∷ [],
          )
        ]

  -- `sendverifyEmail` for the row of the user
  unfoldable pub mail_once : SignMail → String → User → ℕ → Store → Outcome Bool × Store × List Mail
  unfolding check_record mail_token
  mail_once sign email user now store = elim (check_record (email_key user.signer) now store) [
    | nothing ↦ mail_token sign email user now store
    | broken ↦ (refused, store, [])
    | emails _ ↦ (failed "Please Resend After 60 Seconds!", store, [])
  ]

  module _ (prisma : Prisma) where
    unfoldable pub sendverify_email :
        SignMail → String → ℕ → ℕ → Db → Store → Outcome Bool × Store × List Mail
    unfolding mail_once
    sendverify_email sign email user_id now db store =
        elim (prisma.find_first (has_id user_id) db.users) [
          | none ↦ (failed "Not Found", store, [])
          | some user ↦
              if is_value email user.email
              then mail_once sign email user now store
              else (failed "Email is incorrect", store, [])
        ]
