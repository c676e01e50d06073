-- ===== src/Launchpad/Subscribed.antt =====
-- `subcribeProject` and `isSubscribed` (src/modules/launchpad/launchpad.service.ts) together.
use u2u_marketplace_api.Common.{
  ℕ, String, ◌≡◌, refl, ap, ◌∙◌, inl, inr, Bool, true, false, ◌||◌, Option, none, some, List, [],
  ◌∷◌, ◌++◌, ◌==◌, ==_iff, String_eq, arith, Bool-cases, Option-cases, find, any, any-append,
}
use u2u_marketplace_api.Common.Text.{to_lower_case}
use u2u_marketplace_api.Database.{Prisma}
use u2u_marketplace_api.Database.Rows.{find-none, find-any, find-append_new, any-map_where_same}
use u2u_marketplace_api.Database.Schema.{
  User, Project, UserProject, Db, Outcome, done, failed, refused,
}
use u2u_marketplace_api.Metric.Handlers.{has_id}
use u2u_marketplace_api.Launchpad.Subscribe.{
  has_signer, is_subscription, is_some, new_user, Staking, check_staking_single, subscribe_user,
  subscribe_wallet, subscribe_again, subcribe_project, is_subscribed,
}

is_some-find : {A : Type 0} (p : A → Bool) (xs : List A) → is_some (find p xs) ≡ any p xs
is_some-find p [] = refl
is_some-find p (x ∷ xs) = elim (Bool-cases (p x)) [
  | inl t ↦ rw t refl
  | inr f ↦ rw f (is_some-find p xs)
]

is_subscription_refl :
    (a b : ℕ) (s : Option String)
    → is_subscription a b (record { user_id = a; project_id = b; staking_total = s }) ≡ true
is_subscription_refl a b s = ground (arith, (==_iff a a).1 refl, (==_iff b b).1 refl)

module _ (prisma : Prisma) (staking : Staking) where
  -- The staking changes an amount, not who is subscribed.
  check_staking_single-keeps :
      (user : User) (a b : ℕ) (project_id : ℕ) (db : Db)
      → ((check_staking_single prisma staking user project_id db).1.users ≡ db.users)
        × (any
              (is_subscription a b)
              (check_staking_single prisma staking user project_id db).1.subscriptions
            ≡ any (is_subscription a b) db.subscriptions)
  unfolding check_staking_single
  check_staking_single-keeps user a b project_id db =
      elim (Option-cases (staking (to_lower_case user.signer))) [
        | inl n ↦ rw (n, check_staking_single) (refl, refl)
        | inr (amount, e) ↦
            let put = λ (s : UserProject). record s { staking_total = amount } in
            let law = prisma.update_law (is_subscription user.id project_id) put db.subscriptions in
            elim (Bool-cases (any (is_subscription user.id project_id) db.subscriptions)) [
              | inl t ↦
                  rw (e, law, t, check_staking_single)
                    (
                      refl,
                      any-map_where_same (is_subscription a b) (is_subscription user.id project_id)
                          put db.subscriptions (λ s. refl),
                    )
              | inr f ↦ rw (e, law, f, check_staking_single) (refl, refl)
            ]
      ]

  -- Once the row is created, it stays, whatever the subgraph answers.
  subscribe_user-subscribed :
      (user : User) (project_id : ℕ) (db : Db)
      → any (is_subscription user.id project_id) db.subscriptions ≡ false
      → ((subscribe_user prisma staking user project_id db).1.users ≡ db.users)
        × (any
              (is_subscription user.id project_id)
              (subscribe_user prisma staking user project_id db).1.subscriptions
            ≡ true)
  unfolding subscribe_user
  subscribe_user-subscribed user project_id db fresh =
      let row : UserProject = record {
        user_id = user.id;
        project_id = project_id;
        staking_total = none;
      } in
      let added = record db { subscriptions = db.subscriptions ++ row ∷ [] } in
      let (users, same) = check_staking_single-keeps user user.id project_id project_id added in
      let there = any-append (is_subscription user.id project_id) db.subscriptions (row ∷ []) in
      let mine = is_subscription_refl user.id project_id none in
      rw
        (
          prisma.create_law (is_subscription user.id project_id) row db.subscriptions,
          fresh,
          subscribe_user,
        )
        (whatever (check_staking_single prisma staking user project_id added).0
          (check_staking_single prisma staking user project_id added).1
          (users, same ∙ ground (arith, there, mine)))
    where
      whatever :
          (checked : Outcome (Option String)) (after : Db)
          → (after.users ≡ db.users)
            × (any (is_subscription user.id project_id) after.subscriptions ≡ true)
          → let result : Outcome UserProject × Db = elim checked [
            | done amount ↦ (
              done (record { user_id = user.id; project_id = project_id; staking_total = amount }),
              after,
            )
            | failed message ↦ (failed message, after)
            | refused ↦ (refused, after)
          ] in
            (result.1.users ≡ db.users)
            × (any (is_subscription user.id project_id) result.1.subscriptions ≡ true)
      whatever (done amount) after h = h
      whatever (failed message) after h = h
      whatever refused after h = h

  -- The user of the wallet, and a row of the subscription, say that the wallet is subscribed.
  is_subscribed-there :
      (wallet : String) (user : User) (project_id : ℕ) (db : Db)
      → find (has_signer (to_lower_case wallet)) db.users ≡ some user
      → any (is_subscription user.id project_id) db.subscriptions ≡ true
      → is_subscribed prisma wallet project_id db ≡ true
  unfolding is_subscribed
  is_subscribed-there wallet user project_id db e h =
      let law = prisma.find_first_law (has_signer (to_lower_case wallet)) db.users ∙ e in
      let sub = prisma.find_first_law (is_subscription user.id project_id) db.subscriptions in
      rw (law, is_subscribed)
        (ap is_some sub ∙ is_some-find (is_subscription user.id project_id) db.subscriptions ∙ h)

  subscribe_again-subscribed :
      (wallet : String) (user : User) (project_id : ℕ) (db : Db)
      → find (has_signer (to_lower_case wallet)) db.users ≡ some user
      → is_subscribed prisma wallet project_id (subscribe_again prisma staking user project_id db).1
        ≡ true
  unfolding subscribe_again
  subscribe_again-subscribed wallet user project_id db e =
      let law = prisma.find_first_law (is_subscription user.id project_id) db.subscriptions in
      elim (Option-cases (find (is_subscription user.id project_id) db.subscriptions)) [
        | inl n ↦
            let (users, there) =
              subscribe_user-subscribed user project_id db
                (find-none (is_subscription user.id project_id) db.subscriptions n) in
            rw (law ∙ n, subscribe_again)
              (is_subscribed-there wallet user project_id
                (subscribe_user prisma staking user project_id db).1
                (ap (find (has_signer (to_lower_case wallet))) users ∙ e) there)
        | inr (s, k) ↦
            rw (law ∙ k, subscribe_again)
              (is_subscribed-there wallet user project_id db e
                (find-any (is_subscription user.id project_id) db.subscriptions k))
      ]

  -- No user of the table clashes with the one that is made for a wallet.
  no_clash :
      (new_id : ℕ) (signer : String) (users : List User)
      → any (has_id new_id) users ≡ false
      → any (has_signer signer) users ≡ false
      → any (λ u. has_id new_id u || has_signer signer u) users ≡ false
  no_clash new_id signer [] h k = refl
  no_clash new_id signer (u ∷ users) h k = elim (Bool-cases (has_id new_id u)) [
    | inl t ↦ absurd (cc (rw (t, any) at h))
    | inr f ↦ elim (Bool-cases (has_signer signer u)) [
      | inl t ↦ absurd (cc (rw (t, any) at k))
      | inr g ↦ rw (f, g) (no_clash new_id signer users (rw (f, any) at h) (rw (g, any) at k))
    ]
  ]

  subscribe_wallet-subscribed :
      (wallet : String) (new_id project_id : ℕ) (db : Db)
      → find (has_signer (to_lower_case wallet)) db.users ≡ none
      → any (has_id new_id) db.users ≡ false
      → any (is_subscription new_id project_id) db.subscriptions ≡ false
      → is_subscribed prisma wallet project_id
          (subscribe_wallet prisma staking wallet new_id project_id db).1
        ≡ true
  unfolding subscribe_wallet
  subscribe_wallet-subscribed wallet new_id project_id db e fresh none_yet =
      let signer = to_lower_case wallet in
      let user = new_user new_id wallet in
      let added = record db { users = db.users ++ user ∷ [] } in
      let clash =
        no_clash new_id signer db.users fresh (find-none (has_signer signer) db.users e) in
      let (users, there) = subscribe_user-subscribed user project_id added none_yet in
      let mine =
        find-append_new (has_signer signer) user db.users ((String_eq.beq_iff signer signer).1 refl)
          e in
      rw
        (
          prisma.create_law (λ u. has_id new_id u || has_signer signer u) user db.users,
          clash,
          subscribe_wallet,
        )
        (is_subscribed-there wallet user project_id
          (subscribe_user prisma staking user project_id added).1
          (ap (find (has_signer signer)) users ∙ mine) there)

  -- After `subcribeProject` with the id of a project that exists, the wallet is subscribed to it:
  -- whether it was before or not, whether it had a user or not, and also where the answer is an
  -- exception, such as that of a staking request that fails. The id made for a new user is fresh: no user and no subscription to the project has it.
  pub subcribe_project-subscribed :
      (valid_uuid : String → Option ℕ) (project_text wallet : String) (new_id project_id : ℕ)
      (project : Project) (db : Db)
      → valid_uuid project_text ≡ some project_id
      → find (λ (p : Project). p.id == project_id) db.projects ≡ some project
      → any (has_id new_id) db.users ≡ false
      → any (is_subscription new_id project_id) db.subscriptions ≡ false
      → is_subscribed prisma wallet project_id
          (subcribe_project prisma valid_uuid staking project_text wallet new_id db).1
        ≡ true
  unfolding subcribe_project
  subcribe_project-subscribed valid_uuid project_text wallet new_id project_id project db v p fresh
        none_yet =
      let there = prisma.find_first_law (λ (p : Project). p.id == project_id) db.projects ∙ p in
      let law = prisma.find_first_law (has_signer (to_lower_case wallet)) db.users in
      elim (Option-cases (find (has_signer (to_lower_case wallet)) db.users)) [
        | inl n ↦
            rw (v, there, law ∙ n, subcribe_project)
              (subscribe_wallet-subscribed wallet new_id project_id db n fresh none_yet)
        | inr (user, e) ↦
            rw (v, there, law ∙ e, subcribe_project)
              (subscribe_again-subscribed wallet user project_id db e)
      ]
