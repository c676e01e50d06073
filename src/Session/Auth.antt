-- ===== src/Session/Auth.antt =====
-- src/modules/auth/auth.service.ts with `connect` and `refresh` of
-- src/modules/auth/auth.controller.ts. Parameters: the JWT library, whose token is a function of its
-- payload and of the second in which it is made, `verifyMessage` of ethers, and `is_date`: whether
-- the language reads a text as a date. Left out: fields of a body other than those of `loginDto`.
use Prim.Native.String.{◌++◌}
use u2u_marketplace_api.Common.{
  ℕ, ◌+◌, ◌/◌, ◌*◌, String, Bool, true, false, ◌||◌, Option, none, some, if◌then◌else◌, ◌===◌,
  String_eq,
}
use u2u_marketplace_api.Database.{Prisma}
use u2u_marketplace_api.Database.Schema.{User, Db, Outcome, done, failed, refused}
use u2u_marketplace_api.Metric.Handlers.{has_id}
use u2u_marketplace_api.User.Follow.{is_value}
use u2u_marketplace_api.Launchpad.Subscribe.{has_signer, new_user}
use u2u_marketplace_api.Session.{
  Redis, of_id, of_email, of_external, store_session, get_session_info, delete_session_info,
}

-- `loginDto`
pub record LoginDto : Type 0 where
  pub date : String
  pub public_key : String
  pub signature : String
  pub signer : String

pub record Tokens : Type 0 where
  pub access_token : String
  pub refresh_token : String
  pub access_token_expire : ℕ
  pub refresh_token_expire : ℕ
  pub user_id : ℕ

abbrev pub login_message : String → String
login_message time =
    "I want to login on x721.io at "
    ++ (time
        ++ ". I accept the U2U Terms of Service https://u2u.xyz and I am at least 13 years old.")

-- `isSignatureValid`; `verify_message` answers none where it throws.
unfoldable pub is_signature_valid :
    (String → String → Option String) → String → String → String → Bool
is_signature_valid verify_message message signature address =
    elim (verify_message message signature) [
      | none ↦ false
      | some signer_addr ↦ signer_addr === address
    ]

-- `getTokens`: the secret and the duration are part of `sign`, the id and the signer its payload.
abbrev pub get_tokens : (ℕ → String → ℕ → String) → User → ℕ → Tokens
get_tokens sign user now = record {
  access_token = sign user.id user.signer (now / 1000);
  refresh_token = sign user.id user.signer (now / 1000);
  access_token_expire = now + 1 * 24 * 3600 * 1000;
  refresh_token_expire = now + 1 * 24 * 3600 * 1000;
  user_id = user.id;
}

-- The row that a first login makes.
abbrev pub login_user : ℕ → LoginDto → User
login_user new_id input = record (new_user new_id "") {
  signer = input.signer;
  public_key = some input.public_key;
  signature = some input.signature;
  signed_message = some (login_message input.date);
}

abbrev pub has_public_key : String → User → Bool
has_public_key key u = is_value key u.public_key

-- The unique columns that a first login writes.
abbrev pub login_clash : User → User → Bool
login_clash user u =
    has_id user.id u
    || (has_signer user.signer u
        || elim user.signature [ none ↦ false | some signature ↦ is_value signature u.signature ])

module _ (prisma : Prisma) where
  -- `validateUser`: the database refuses a new row whose `signDate` is an invalid date.
  unfoldable pub validate_user :
      (String → String → Option String) → (String → Bool) → LoginDto → ℕ → Db → Outcome User × Db
  unfolding is_signature_valid
  validate_user verify_message is_date input new_id db =
      if is_signature_valid verify_message (login_message input.date) input.signature
        input.public_key
      then elim (prisma.find_first (has_public_key input.public_key) db.users) [
        | some user ↦ (done user, db)
        | none ↦
            let user = login_user new_id input in
            if is_date input.date
            then elim (prisma.create (login_clash user) user db.users) [
              | none ↦ (refused, db)
              | some users ↦ (done user, record db { users = users })
            ]
            else (refused, db)
      ]
      else (failed "Signature invalid", db)

module _ (redis : Redis) where
  open redis use {Store}

  -- `updateRefreshTokenCaching`: the call of the store is not awaited, so an error of it does not
  -- reach the caller. The store takes calls in the order in which they are made.
  unfoldable pub update_refresh_token_caching : ℕ → String → Bool → ℕ → Store → Store
  unfolding store_session delete_session_info
  update_refresh_token_caching id token false now store =
      elim (store_session redis id token now store) [ none ↦ store | some (_, after) ↦ after ]
  update_refresh_token_caching id token true now store =
      (delete_session_info redis token now store).1

  -- `login`
  unfoldable pub login : (ℕ → String → ℕ → String) → User → ℕ → Store → Outcome Tokens × Store
  unfolding update_refresh_token_caching
  login sign user now store =
      let tokens = get_tokens sign user now in
      let after = update_refresh_token_caching user.id tokens.refresh_token false now store in
      if tokens.access_token === ""
      then (failed "Internal Server Error", after)
      else (done tokens, after)

  -- `refreshTokens` once the user is found
  unfoldable pub rotate :
      (ℕ → String → ℕ → String) → User → String → ℕ → Store → Outcome Tokens × Store
  unfolding update_refresh_token_caching
  rotate sign user refresh_token now store =
      let tokens = get_tokens sign user now in
      (
        done tokens,
        update_refresh_token_caching user.id refresh_token true now
            (update_refresh_token_caching user.id tokens.refresh_token false now store),
      )

  module _ (prisma : Prisma) where
    -- `refreshTokens`: a value that is no id makes the database refuse the query.
    unfoldable pub refresh_tokens :
        (ℕ → String → ℕ → String) → String → ℕ → Db → Store → Outcome Tokens × Store
    unfolding get_session_info rotate
    refresh_tokens sign refresh_token now db store =
        elim (get_session_info redis refresh_token now store) [
          | none ↦ (failed "Token not found", store)
          | some (of_id user_id) ↦ elim (prisma.find_first (has_id user_id) db.users) [
            | none ↦ (failed "Access Denied", store)
            | some user ↦ rotate sign user refresh_token now store
          ]
          | some (of_email _) ↦ (refused, store)
          | some (of_external _) ↦ (refused, store)
        ]

    -- `AuthController.login`
    unfoldable pub connect :
        (String → String → Option String)
        → (String → Bool)
        → (ℕ → String → ℕ → String)
        → LoginDto
        → ℕ
        → ℕ
        → Db
        → Store
        → Outcome Tokens × Db × Store
    unfolding validate_user login
    connect verify_message is_date sign input new_id now db store =
        let (checked, after) = validate_user prisma verify_message is_date input new_id db in
        elim checked [
          | done user ↦ let (answer, stored) = login sign user now store in (answer, after, stored)
          | failed message ↦ (failed message, after, store)
          | refused ↦ (refused, after, store)
        ]
