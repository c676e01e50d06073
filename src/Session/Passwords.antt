-- ===== src/Session/Passwords.antt =====
-- `UpdatePassword` (src/modules/cms/service/cms.service.ts) and then `signIn`
-- (src/modules/cms/service/auth-cms.service.ts).
use u2u_marketplace_api.Common.{
  ℕ, ◌≤◌, String, ◌≡◌, refl, ◌∙◌, Bool, true, false, some, arith, ◌===◌, String_eq, find, count,
  map_where,
}
use u2u_marketplace_api.Database.{Prisma}
use u2u_marketplace_api.Database.Rows.{
  find-Memᴰ, find-any, find-map_where, find_only, count-map_where_same,
}
use u2u_marketplace_api.Database.Schema.{done}
use u2u_marketplace_api.Cms.Accounts.{
  Account, Staff, is_account, has_username, set_password, write_account, update_password,
}
use u2u_marketplace_api.Cms.AccountRequests.{IsKeyed}
use u2u_marketplace_api.Session.{Redis}
use u2u_marketplace_api.Session.Office.{Sign, may_sign_in, get_tokens_account, enter, sign_in}

module _ (prisma : Prisma) (hash : String → String → String) (compare : String → String → Bool)
    (current new salt : String) (id : ℕ) (s : Staff) where
  abbrev changed : Account → Account
  changed = set_password (hash new salt)

  -- The current password fits: the row of the account gets the hash of the new one.
  pub update_password-writes :
      (row : Account) (old : String)
      → find (is_account id) s.accounts ≡ some row
      → row.password ≡ some old
      → compare current old ≡ true
      → (update_password prisma hash compare current new salt id s).1.accounts
        ≡ map_where (is_account id) changed s.accounts
  unfolding update_password write_account
  update_password-writes row old e p t =
      let again =
        prisma.find_first_law (is_account id) (map_where (is_account id) changed s.accounts)
        ∙ find-map_where (is_account id) changed s.accounts row (λ a. refl) e in
      rw
        (
          prisma.find_first_law (is_account id) s.accounts ∙ e,
          p,
          t,
          prisma.update_law (is_account id) changed s.accounts,
          find-any (is_account id) s.accounts e,
          again,
          update_password,
          write_account,
        )
        refl

module _ (redis : Redis) (prisma : Prisma) (sign : Sign) (hash : String → String → String)
    (compare : String → String → Bool) where
  open redis use {Store}

  -- After `UpdatePassword` with the current password, the account signs in with its username and the
  -- new password and gets its tokens, where it is active and not deleted, no two accounts have one
  -- username, and the library's `compare` accepts a password with a hash of it.
  pub sign_in-update_password :
      (current new salt old : String) (id now : ℕ) (s : Staff) (row : Account) (store : Store)
      → IsKeyed s.accounts
      → find (is_account id) s.accounts ≡ some row
      → (row.is_active ≡ true) × (row.is_delete ≡ false)
      → row.password ≡ some old
      → compare current old ≡ true
      → compare new (hash new salt) ≡ true
      → ((get_tokens_account sign row now).access_token === "") ≡ false
      → (sign_in redis prisma sign compare row.username new now
          (update_password prisma hash compare current new salt id s).1
          store).0
        ≡ done (record {
          tokens = get_tokens_account sign row now;
          user_id = row.id;
          account_id = row.id;
        })
  unfolding sign_in enter
  sign_in-update_password current new salt old id now s row store keyed e active p t fits token =
      let f = set_password (hash new salt) in
      let rows = map_where (is_account id) f s.accounts in
      let one : count (has_username row.username) rows ≤ 1 =
        rw
          (count-map_where_same (is_account id) (has_username row.username) f s.accounts
            (λ a _. refl))
          (keyed.one_username row.username) in
      let member =
        find-Memᴰ (is_account id) rows
          (find-map_where (is_account id) f s.accounts row (λ a. refl) e) in
      let allowed : may_sign_in row.username (f row) ≡ true =
        rw ((String_eq.beq_iff row.username row.username).1 refl, active.0, active.1) refl in
      let found =
        find_only (may_sign_in row.username) (has_username row.username) one (λ a h. ground arith)
          member allowed in
      rw
        (
          update_password-writes prisma hash compare current new salt id s row old e p t,
          prisma.find_first_law (may_sign_in row.username) rows ∙ found,
          fits,
          token,
          sign_in,
          enter,
        )
        refl
