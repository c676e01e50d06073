-- ===== src/Session/Created.antt =====
-- `create` (src/modules/cms/service/cms.service.ts) and then `signIn`
-- (src/modules/cms/service/auth-cms.service.ts).
use u2u_marketplace_api.Common.{
  ℕ, String, ◌≡◌, refl, ◌∙◌, ◌⊎◌, inl, inr, Bool, true, false, ◌||◌, List, [], ◌∷◌, ◌++◌, arith,
  ◌===◌, String_eq, Bool-cases, Option-cases, any, find,
}
use u2u_marketplace_api.Database.{Prisma}
use u2u_marketplace_api.Database.Rows.{find-any, find-none, none-find, any-weaker, find-append_new}
use u2u_marketplace_api.Database.Schema.{Outcome, done, failed}
use u2u_marketplace_api.Cms.Accounts.{
  Account, NewAccount, Staff, is_account, has_username, new_account, create_account,
}
use u2u_marketplace_api.Session.{Redis}
use u2u_marketplace_api.Session.Office.{Sign, may_sign_in, get_tokens_account, enter, sign_in}

module _ (redis : Redis) (prisma : Prisma) (sign : Sign) (hash : String → String → String)
    (compare : String → String → Bool) (input : NewAccount) (salt : String) (new_id now : ℕ)
    (s : Staff) (store : redis.Store) where
  abbrev row : Account
  row = new_account new_id (hash input.password salt) input

  -- The username is taken, which the answer says, and nothing is written; or it was free, the answer
  -- is the new row, and its username and password sign in to it.
  abbrev pub Entered : Outcome Account × Staff → Type 0
  Entered (answer, after) =
      ((any (has_username input.username) s.accounts ≡ true)
        × (answer ≡ failed "Username is already exists")
        × (after ≡ s))
      ⊎ ((any (has_username input.username) s.accounts ≡ false)
          × (answer ≡ done row)
          × ((sign_in redis prisma sign compare input.username input.password now after store).0
              ≡ done (record {
                tokens = get_tokens_account sign row now;
                user_id = new_id;
                account_id = new_id;
              })))

  either-any :
      (p q : Account → Bool) (xs : List Account)
      → any p xs ≡ false
      → any q xs ≡ false
      → any (λ a. p a || q a) xs ≡ false
  either-any p q [] h g = refl
  either-any p q (x ∷ xs) h g = elim (Bool-cases (p x)) [
    | inl t ↦ absurd (cc (rw (t, any) at h))
    | inr f ↦ elim (Bool-cases (q x)) [
      | inl t ↦ absurd (cc (rw (t, any) at g))
      | inr n ↦ rw (f, n, any) (either-any p q xs (rw (f, any) at h) (rw (n, any) at g))
    ]
  ]

  free_key :
      any (is_account new_id) s.accounts ≡ false
      → any (has_username input.username) s.accounts ≡ false
      → any (λ a. is_account new_id a || has_username input.username a) s.accounts ≡ false
  free_key h g = either-any (is_account new_id) (has_username input.username) s.accounts h g

  created :
      any (is_account new_id) s.accounts ≡ false
      → any (has_username input.username) s.accounts ≡ false
      → create_account prisma hash input salt new_id s
        ≡ (done row, record s { accounts = s.accounts ++ row ∷ [] })
  unfolding create_account
  created fresh free =
      let unknown =
        prisma.find_first_law (has_username input.username) s.accounts
        ∙ none-find (has_username input.username) s.accounts free in
      let law =
        prisma.create_law (λ a. is_account new_id a || has_username input.username a) row
          s.accounts in
      rw (unknown, law, free_key fresh free, create_account) refl

  -- Creating an account answers that the username is taken, and writes nothing, exactly where an
  -- account has it, also one that is deleted; otherwise the new account signs in at once with its
  -- username and password and gets the tokens of its id and roles. The new id is of no account, the
  -- library's `compare` accepts a password with a hash of it, and the token is not empty.
  pub sign_in-create_account :
      any (is_account new_id) s.accounts ≡ false
      → compare input.password (hash input.password salt) ≡ true
      → ((get_tokens_account sign row now).access_token === "") ≡ false
      → Entered (create_account prisma hash input salt new_id s)
  unfolding sign_in enter create_account
  sign_in-create_account fresh fits token =
      let law = prisma.find_first_law (has_username input.username) s.accounts in
      elim (Option-cases (find (has_username input.username) s.accounts)) [
        | inr (old, e) ↦
            rw (law ∙ e, create_account)
              (inl (find-any (has_username input.username) s.accounts e, refl, refl))
        | inl n ↦
            let free = find-none (has_username input.username) s.accounts n in
            let allowed : may_sign_in input.username row ≡ true =
              rw ((String_eq.beq_iff input.username input.username).1 refl) refl in
            let none_before = none-find (may_sign_in input.username) s.accounts (
              any-weaker (may_sign_in input.username) (has_username input.username) s.accounts
                (λ a t. ground arith) free) in
            let found =
              prisma.find_first_law (may_sign_in input.username) (s.accounts ++ row ∷ [])
              ∙ find-append_new (may_sign_in input.username) row s.accounts allowed none_before in
            rw (created fresh free) (inr (free, refl, rw (found, fits, token, sign_in, enter) refl))
      ]
