-- ===== src/Session/Office.antt =====
-- src/modules/cms/service/auth-cms.service.ts: the sessions of the back office, in the same store as
-- the sessions of the users.
use u2u_marketplace_api.Common.{
  ℕ, ◌+◌, ◌/◌, ◌*◌, String, Bool, true, false, not, ◌&&◌, none, some, List, if◌then◌else◌, ◌===◌,
  String_eq,
}
use u2u_marketplace_api.Database.{Prisma}
use u2u_marketplace_api.Database.Schema.{Outcome, done, failed, refused}
use u2u_marketplace_api.Access.{Role}
use u2u_marketplace_api.Cms.Accounts.{Account, Staff, is_account, has_username}
use u2u_marketplace_api.Session.{
  Redis, of_id, of_email, of_external, store_session, get_session_info, delete_session_info,
}

-- The `type` of a payload; the payload of a refresh token has no `sub`.
pub data TokenType : Type 0 where
  access refresh : TokenType

pub record OfficeTokens : Type 0 where
  pub access_token : String
  pub refresh_token : String
  pub access_token_expire : ℕ
  pub refresh_token_expire : ℕ

-- What `signIn` answers.
pub record SignedIn : Type 0 where
  pub tokens : OfficeTokens
  pub user_id : ℕ
  pub account_id : ℕ

abbrev pub may_sign_in : String → Account → Bool
may_sign_in username a = has_username username a && (a.is_active && not a.is_delete)

-- The signing key's token of an id, its roles and a type, at a second.
abbrev pub Sign : Type 0
Sign = ℕ → List Role → TokenType → ℕ → String

-- `getTokensAccount`
abbrev pub get_tokens_account : Sign → Account → ℕ → OfficeTokens
get_tokens_account sign a now = record {
  access_token = sign a.id a.roles access (now / 1000);
  refresh_token = sign a.id a.roles refresh (now / 1000);
  access_token_expire = now + 1 * 24 * 3600 * 1000;
  refresh_token_expire = now + 1 * 24 * 3600 * 1000;
}

module _ (redis : Redis) where
  open redis use {Store}

  -- `updateRefreshTokenCachingAccount`: the call of the store is not awaited here either.
  unfoldable pub cache_account : ℕ → String → Bool → ℕ → Store → Store
  unfolding store_session delete_session_info
  cache_account id token false now store = elim (store_session redis id token now store) [
    | none ↦ store
    | some (_, after) ↦ after
  ]
  cache_account id token true now store = (delete_session_info redis token now store).1

  -- `refreshTokens` once the account is found
  unfoldable pub rotate_account : Sign → Account → String → ℕ → Store → Outcome OfficeTokens × Store
  unfolding cache_account
  rotate_account sign account refresh_token now store =
      let tokens = get_tokens_account sign account now in
      (
        done tokens,
        cache_account account.id refresh_token true now
            (cache_account account.id tokens.refresh_token false now store),
      )

  module _ (prisma : Prisma) where
    -- `refreshTokens`
    unfoldable pub refresh_account :
        Sign → String → ℕ → Staff → Store → Outcome OfficeTokens × Store
    unfolding get_session_info rotate_account
    refresh_account sign refresh_token now s store =
        elim (get_session_info redis refresh_token now store) [
          | none ↦ (failed "Token not found", store)
          | some (of_id account_id) ↦ elim (prisma.find_first (is_account account_id) s.accounts) [
            | none ↦ (failed "Access Denied", store)
            | some account ↦ rotate_account sign account refresh_token now store
          ]
          | some (of_email _) ↦ (refused, store)
          | some (of_external _) ↦ (refused, store)
        ]

    -- `signIn` once the password is verified
    unfoldable pub enter : Sign → Account → ℕ → Store → Outcome SignedIn × Store
    unfolding cache_account
    enter sign account now store =
        let tokens = get_tokens_account sign account now in
        let after = cache_account account.id tokens.refresh_token false now store in
        if tokens.access_token === "" then (failed "Internal Server Error", after) else (
          done (record { tokens = tokens; user_id = account.id; account_id = account.id }),
          after,
        )

    -- `signIn`; `compare` is bcrypt's, and a row without a password makes it throw.
    unfoldable pub sign_in :
        Sign
        → (String → String → Bool)
        → String
        → String
        → ℕ
        → Staff
        → Store
        → Outcome SignedIn × Store
    unfolding enter
    sign_in sign compare username password now s store =
        elim (prisma.find_first (may_sign_in username) s.accounts) [
          | none ↦ (failed "Not Found", store)
          | some account ↦ elim account.password [
            | none ↦ (refused, store)
            | some hash ↦
                if compare password hash
                then enter sign account now store
                else (failed "Your account or password is incorrect, please try again", store)
          ]
        ]
