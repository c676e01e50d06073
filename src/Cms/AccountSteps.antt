-- ===== src/Cms/AccountSteps.antt =====
-- What a request on the accounts (src/modules/cms/service/cms.service.ts) may do to their table.
use u2u_marketplace_api.Common.{
  ℕ, String, ◌≡◌, refl, inl, inr, Bool, true, false, not, ◌&&◌, ◌||◌, Option, List, [], ◌∷◌, ◌++◌,
  Bool-cases, Option-cases, String_eq, any, map_where,
}
use u2u_marketplace_api.Database.{Prisma}
use u2u_marketplace_api.Database.Schema.{Outcome, done, failed, refused}
use u2u_marketplace_api.Access.{Role}
use u2u_marketplace_api.Cms.Rounds.{Action, password_reset, account_deleted, handle_action_log}
use u2u_marketplace_api.Cms.Accounts.{
  Account, AccountInput, NewAccount, Staff, is_account, has_username, new_account, apply_account,
  set_password, set_roles, close_account, write_account, create_account, update_account,
  update_password, then_log, reset_password, change_roles_account, delete_account,
}

-- A deleted account that is not active.
abbrev pub is_shut : Account → Bool
is_shut a = a.is_delete && not a.is_active

-- A change that keeps the id of an account, and keeps it shut.
pub record IsTame (f : Account → Account) : Type 0 where
  pub same_id : (a : Account) → (f a).id ≡ a.id
  pub same_shut : (a : Account) → is_shut a ≡ true → is_shut (f a) ≡ true

-- The step of a request: nothing, a change of the account with an id, or a new account whose id and
-- username are free.
pub data Step (xs ys : List Account) : Type 0 where
  same : ys ≡ xs → Step xs ys
  changed :
      (id : ℕ) (f : Account → Account) → IsTame f → ys ≡ map_where (is_account id) f xs → Step xs ys
  added :
      (row : Account)
      → any (λ a. is_account row.id a || has_username row.username a) xs ≡ false
      → ys ≡ xs ++ row ∷ []
      → Step xs ys

apply_account-IsTame : (input : AccountInput) → IsTame (apply_account input)
apply_account-IsTame input = record { same_id = λ a. refl; same_shut = λ a h. h }

set_password-IsTame : (hash : String) → IsTame (set_password hash)
set_password-IsTame hash = record { same_id = λ a. refl; same_shut = λ a h. h }

set_roles-IsTame : (roles : List Role) → IsTame (set_roles roles)
set_roles-IsTame roles = record { same_id = λ a. refl; same_shut = λ a h. h }

close_account-IsTame : IsTame close_account
close_account-IsTame = record { same_id = λ a. refl; same_shut = λ a h. refl }

module _ (prisma : Prisma) where
  pub write_account-Step :
      (f : Account → Account) (id : ℕ) (s : Staff)
      → IsTame f
      → Step s.accounts (write_account prisma f id s).1.accounts
  unfolding write_account
  write_account-Step f id s tame =
      let law = prisma.update_law (is_account id) f s.accounts in
      elim (Bool-cases (any (is_account id) s.accounts)) [
        | inr n ↦ rw (law, n, write_account) (same refl)
        | inl t ↦
            let rows = map_where (is_account id) f s.accounts in
            elim (Option-cases (prisma.find_first (is_account id) rows)) [
              | inl e ↦ rw (law, t, e, write_account) (changed id f tame refl)
              | inr (row, e) ↦ rw (law, t, e, write_account) (changed id f tame refl)
            ]
      ]

  pub create_account-Step :
      (hash : String → String → String) (input : NewAccount) (salt : String) (new_id : ℕ)
      (s : Staff)
      → Step s.accounts (create_account prisma hash input salt new_id s).1.accounts
  unfolding create_account
  create_account-Step hash input salt new_id s =
      let row = new_account new_id (hash input.password salt) input in
      let clash = λ (a : Account). is_account row.id a || has_username row.username a in
      let law = prisma.create_law clash row s.accounts in
      elim (Option-cases (prisma.find_first (has_username input.username) s.accounts)) [
        | inr (old, e) ↦ rw (e, create_account) (same refl)
        | inl n ↦ elim (Bool-cases (any clash s.accounts)) [
          | inl t ↦ rw (n, law, t, create_account) (same refl)
          | inr f ↦ rw (n, law, f, create_account) (added row f refl)
        ]
      ]

  pub update_account-Step :
      (input : AccountInput) (account_id : ℕ) (s : Staff)
      → Step s.accounts (update_account prisma input account_id s).1.accounts
  unfolding update_account
  update_account-Step input account_id s =
      elim (Option-cases (prisma.find_first (is_account account_id) s.accounts)) [
        | inl n ↦ rw (n, update_account) (same refl)
        | inr (row, e) ↦
            rw (e, update_account)
              (write_account-Step (apply_account input) account_id s (apply_account-IsTame input))
      ]

  pub update_password-Step :
      (hash : String → String → String) (compare : String → String → Bool)
      (current_password new_password salt : String) (account_id : ℕ) (s : Staff)
      → Step s.accounts
          (update_password prisma hash compare current_password new_password salt account_id
            s).1.accounts
  unfolding update_password
  update_password-Step hash compare current_password new_password salt account_id s =
      elim (Option-cases (prisma.find_first (is_account account_id) s.accounts)) [
        | inl n ↦ rw (n, update_password) (same refl)
        | inr (row, e) ↦ elim (Option-cases row.password) [
          | inl n ↦ rw (e, n, update_password) (same refl)
          | inr (password, p) ↦ elim (Bool-cases (compare current_password password)) [
            | inr f ↦ rw (e, p, f, update_password) (same refl)
            | inl t ↦
                rw (e, p, t, update_password)
                  (write_account-Step (set_password (hash new_password salt)) account_id s
                    (set_password-IsTame (hash new_password salt)))
          ]
        ]
      ]

  then_log-accounts :
      (account_id : ℕ) (action : Action) (r : Outcome Account × Staff)
      → (then_log prisma account_id action r).1.accounts ≡ r.1.accounts
  unfolding then_log
  then_log-accounts account_id action (done row, s) =
      elim (Option-cases (handle_action_log prisma account_id action s.rounds)) [
        | inl n ↦ rw (n, then_log) refl
        | inr (rounds, e) ↦ rw (e, then_log) refl
      ]
  then_log-accounts account_id action (failed message, s) = refl
  then_log-accounts account_id action (refused, s) = refl

  pub reset_password-Step :
      (valid_uuid : String → Option ℕ) (hash : String → String → String)
      (text new_password salt : String) (account_id : ℕ) (s : Staff)
      → Step s.accounts
          (reset_password prisma valid_uuid hash text new_password salt account_id s).1.accounts
  unfolding reset_password
  reset_password-Step valid_uuid hash text new_password salt account_id s =
      elim (Option-cases (valid_uuid text)) [
        | inl n ↦ rw (n, reset_password) (same refl)
        | inr (id, u) ↦ elim (Option-cases (prisma.find_first (is_account id) s.accounts)) [
          | inl n ↦ rw (u, n, reset_password) (same refl)
          | inr (row, e) ↦
              let f = set_password (hash new_password salt) in
              rw
                (
                  u,
                  e,
                  reset_password,
                  then_log-accounts account_id (password_reset id)
                      (write_account prisma f row.id s),
                )
                (write_account-Step f row.id s (set_password-IsTame (hash new_password salt)))
        ]
      ]

  pub change_roles_account-Step :
      (valid_uuid : String → Option ℕ) (text : String) (roles : List Role) (s : Staff)
      → Step s.accounts (change_roles_account prisma valid_uuid text roles s).1.accounts
  unfolding change_roles_account
  change_roles_account-Step valid_uuid text roles s = elim (Option-cases (valid_uuid text)) [
    | inl n ↦ rw (n, change_roles_account) (same refl)
    | inr (id, u) ↦
        rw (u, change_roles_account)
          (write_account-Step (set_roles roles) id s (set_roles-IsTame roles))
  ]

  pub delete_account-Step :
      (valid_uuid : String → Option ℕ) (text : String) (account_id : ℕ) (s : Staff)
      → Step s.accounts (delete_account prisma valid_uuid text account_id s).1.accounts
  unfolding delete_account
  delete_account-Step valid_uuid text account_id s = elim (Option-cases (valid_uuid text)) [
    | inl n ↦ rw (n, delete_account) (same refl)
    | inr (id, u) ↦ elim (Option-cases (prisma.find_first (is_account id) s.accounts)) [
      | inl n ↦ rw (u, n, delete_account) (same refl)
      | inr (row, e) ↦
          elim (Option-cases (handle_action_log prisma account_id (account_deleted id) s.rounds)) [
            | inl n ↦ rw (u, e, n, delete_account) (same refl)
            | inr (rounds, l) ↦
                rw (u, e, l, delete_account)
                  (write_account-Step close_account id (record s { rounds = rounds })
                    close_account-IsTame)
          ]
    ]
  ]
