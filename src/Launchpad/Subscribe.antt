-- ===== src/Launchpad/Subscribe.antt =====
-- `subcribeProject`, `checkStakingSingle` and `isSubscribed` of
-- src/modules/launchpad/launchpad.service.ts.
use u2u_marketplace_api.Common.{
  ℕ, String, Bool, true, false, ◌&&◌, ◌||◌, Option, none, some, ◌==◌, ◌===◌, String_eq,
}
use u2u_marketplace_api.Common.Int.{pos}
use u2u_marketplace_api.Common.Text.{to_lower_case}
use u2u_marketplace_api.Database.{Prisma}
use u2u_marketplace_api.Database.Schema.{
  User, Project, UserProject, Db, Outcome, done, failed, refused,
}
use u2u_marketplace_api.Metric.{UserMetric, level, num}
use u2u_marketplace_api.Metric.Handlers.{has_id}

abbrev pub has_signer : String → User → Bool
has_signer signer u = u.signer === signer

abbrev pub is_subscription : ℕ → ℕ → UserProject → Bool
is_subscription user_id project_id s = (s.user_id == user_id) && (s.project_id == project_id)

abbrev pub is_some : {A : Type 0} → Option A → Bool
is_some none = false
is_some (some x) = true

-- The default of `metricDetail`.
abbrev pub no_metric : UserMetric
no_metric = record {
  metric_point = pos 0;
  metric_detail = record {
    verified = pos 0;
    followers = record { level = level "follower_lv0" (num (pos 0)) 0; total = 0 };
    collection_metric = pos 0;
    volume_individual = pos 0;
  };
}

-- The row that is made for a wallet, the columns that are not given at their defaults.
abbrev pub new_user : ℕ → String → User
new_user id wallet = record {
  id = id;
  signer = to_lower_case wallet;
  public_key = some wallet;
  signature = none;
  signed_message = none;
  email = none;
  username = none;
  short_link = none;
  accepted_terms = false;
  bio = none;
  avatar = none;
  cover_image = none;
  web_url = none;
  facebook_link = none;
  twitter_link = none;
  telegram_link = none;
  discord_link = none;
  followers = pos 0;
  following = pos 0;
  account_status = false;
  verify_email = false;
  is_active = true;
  metric = no_metric;
}

-- The subgraph's answer on an address: none where the request throws, `some none` without a
-- delegator.
abbrev pub Staking : Type 0
Staking = String → Option (Option String)

module _ (prisma : Prisma) where
  -- `checkStakingSingle`
  unfoldable pub check_staking_single : Staking → User → ℕ → Db → Outcome (Option String) × Db
  check_staking_single staking user project_id db = elim (staking (to_lower_case user.signer)) [
    | none ↦ (refused, db)
    | some amount ↦
        elim (prisma.update (is_subscription user.id project_id)
          (λ s. record s { staking_total = amount }) db.subscriptions) [
            | none ↦ (refused, db)
            | some subscriptions ↦ (done amount, record db { subscriptions = subscriptions })
          ]
  ]

  -- From the creation of the row of the subscription on.
  unfoldable pub subscribe_user : Staking → User → ℕ → Db → Outcome UserProject × Db
  unfolding check_staking_single
  subscribe_user staking user project_id db =
      let row : UserProject = record {
        user_id = user.id;
        project_id = project_id;
        staking_total = none;
      } in
      elim (prisma.create (is_subscription user.id project_id) row db.subscriptions) [
        | none ↦ (refused, db)
        | some subscriptions ↦
            let (checked, after) =
              check_staking_single staking user project_id
                (record db { subscriptions = subscriptions }) in
            elim checked [
              | done amount ↦ (done (record row { staking_total = amount }), after)
              | failed message ↦ (failed message, after)
              | refused ↦ (refused, after)
            ]
      ]

  -- The branch without a user: `new_id` is the id that the database makes.
  unfoldable pub subscribe_wallet : Staking → String → ℕ → ℕ → Db → Outcome UserProject × Db
  unfolding subscribe_user
  subscribe_wallet staking wallet new_id project_id db =
      let user = new_user new_id wallet in
      elim (prisma.create (λ u. has_id user.id u || has_signer user.signer u) user db.users) [
        | none ↦ (refused, db)
        | some users ↦ subscribe_user staking user project_id (record db { users = users })
      ]

  -- The branch with a user.
  unfoldable pub subscribe_again : Staking → User → ℕ → Db → Outcome UserProject × Db
  unfolding subscribe_user
  subscribe_again staking user project_id db =
      elim (prisma.find_first (is_subscription user.id project_id) db.subscriptions) [
        | some subscriber ↦ (failed "You have subscribed to the project", db)
        | none ↦ subscribe_user staking user project_id db
      ]

  -- `subcribeProject`; `valid_uuid` is the library's `isValidUUID`, with the id that a text of this
  -- form stands for.
  unfoldable pub subcribe_project :
      (String → Option ℕ) → Staking → String → String → ℕ → Db → Outcome UserProject × Db
  unfolding subscribe_wallet subscribe_again
  subcribe_project valid_uuid staking project_text wallet new_id db =
      elim (valid_uuid project_text) [
        | none ↦ (failed "Invalid Project. Please try again !", db)
        | some project_id ↦
            elim (prisma.find_first (λ (p : Project). p.id == project_id) db.projects) [
              | none ↦ (failed "Project not found", db)
              | some project ↦
                  elim (prisma.find_first (has_signer (to_lower_case wallet)) db.users) [
                    | none ↦ subscribe_wallet staking wallet new_id project_id db
                    | some user ↦ subscribe_again staking user project_id db
                  ]
            ]
      ]

  -- `isSubscribed`
  unfoldable pub is_subscribed : String → ℕ → Db → Bool
  is_subscribed wallet project_id db =
      elim (prisma.find_first (has_signer (to_lower_case wallet)) db.users) [
        | none ↦ false
        | some subscriber ↦
            is_some (prisma.find_first (is_subscription subscriber.id project_id) db.subscriptions)
      ]
