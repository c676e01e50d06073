-- ===== src/User/Verify.antt =====
-- `checkVerifyEmail` and `checkListVerify` of src/modules/user/user.service.ts.
use u2u_marketplace_api.Common.{
  ℕ, String, Bool, true, false, Option, none, some, List, [], ◌∷◌, ◌++◌, ltb, if◌then◌else◌,
}
use u2u_marketplace_api.Database.{Prisma}
use u2u_marketplace_api.Database.Schema.{User, Db, Outcome, done, failed, refused}
use u2u_marketplace_api.Metric.Handlers.{CollectionCount, verified, of_user, has_id, handle_metric}
use u2u_marketplace_api.User.Profile.{truthy}

-- The fields of a decoded token that are read; the email and the name in it are not.
pub record Claims : Type 0 where
  pub id : ℕ
  pub exp : Option ℕ

-- `decodedToken.exp && decodedToken.exp < currentTimestamp`
abbrev pub is_expired : ℕ → Option ℕ → Bool
is_expired now none = false
is_expired now (some exp) = if ltb 0 exp then ltb exp now else false

-- `verifyTokenConfirm`: `verify` is the library's `jwt.verify` with the key, none where it throws.
unfoldable pub verify_token_confirm : (String → Option Claims) → ℕ → String → Option Claims
verify_token_confirm verify now token = elim (verify token) [
  | none ↦ none
  | some claims ↦ if is_expired now claims.exp then none else some claims
]

abbrev pub set_verified : User → User
set_verified u = record u { verify_email = true }

abbrev pub set_account_status : User → User
set_account_status u = record u { account_status = true }

-- The fields that `checkListVerify` requires, and whether the user has them.
abbrev pub required_fields : User → List (String × Bool)
required_fields u =
    ("bio", truthy u.bio)
    ∷ ("twitterLink", truthy u.twitter_link)
    ∷ ("username", truthy u.username)
    ∷ ("avatar", truthy u.avatar)
    ∷ ("verifyEmail", u.verify_email)
    ∷ []

abbrev pub missing : List (String × Bool) → List String
missing [] = []
missing ((field, true) ∷ fields) = missing fields
missing ((field, false) ∷ fields) = field ∷ missing fields

-- The keys of `listVerify`; all its values are false.
abbrev pub list_verify : Bool → User → List String
list_verify nft_transfers u =
    (if nft_transfers then [] else "ownerOrCreater" ∷ []) ++ missing (required_fields u)

pub record Checked : Type 0 where
  pub fields : List String
  pub account_status : Bool

module _ (prisma : Prisma) where
  -- `checkVerifyEmail`. Without a user the handler reads a field of null, which throws.
  unfoldable pub check_verify_email : (String → Option Claims) → ℕ → String → Db → Outcome Unit × Db
  unfolding verify_token_confirm
  check_verify_email verify now token db = elim (verify_token_confirm verify now token) [
    | none ↦ (failed "Token is invalid", db)
    | some claims ↦ elim (prisma.find_first (has_id claims.id) db.users) [
      | none ↦ (refused, db)
      | some user ↦
          if user.verify_email
          then (failed "This email has been verified", db)
          else elim (prisma.update (has_id claims.id) set_verified db.users) [
            | none ↦ (refused, db)
            | some users ↦ (done tt, record db { users = users })
          ]
    ]
  ]

  module _ (get_collection_count : String → Option CollectionCount) where
    -- From the update on.
    unfoldable pub verify_account : ℕ → Db → Outcome Checked × Db
    verify_account id db = elim (prisma.update (has_id id) set_account_status db.users) [
      | none ↦ (refused, db)
      | some users ↦ (
        done (record { fields = []; account_status = true }),
        handle_metric prisma get_collection_count of_user verified id none
            (record db { users = users }),
      )
    ]

    -- The tests on what is missing, and on the account.
    unfoldable pub decide_account : List String → User → Db → Outcome Checked × Db
    unfolding verify_account
    decide_account (field ∷ fields) user db =
        (done (record { fields = field ∷ fields; account_status = false }), db)
    decide_account [] user db =
        if user.account_status
        then (failed "Your account has been verified", db)
        else verify_account user.id db

    -- `checkListVerify`; the subgraph answers whether the signer has transfers, none where it
    -- throws.
    unfoldable pub check_list_verify : (String → Option Bool) → User → Db → Outcome Checked × Db
    unfolding decide_account
    check_list_verify nft_transfers user db = elim (nft_transfers user.signer) [
      | none ↦ (refused, db)
      | some transfers ↦ decide_account (list_verify transfers user) user db
    ]
