-- ===== src/Session/Entry.antt =====
-- `signIn` and `refreshTokens` of src/modules/cms/service/auth-cms.service.ts against the accounts.
use u2u_marketplace_api.Common.{
  ℕ, ◌+◌, ◌<◌, String, ◌≡◌, ◌≢◌, refl, sym, ap, ◌∙◌, inl, inr, Bool, true, false, Option, some,
  List, arith, lt→ltb, ◌==◌, ◌===◌, String_eq, Bool-cases, Option-cases, find, map_where, All-at,
}
use u2u_marketplace_api.Database.{Prisma}
use u2u_marketplace_api.Database.Rows.{find-true, find-Memᴰ, find-any, find-none, find-map_where}
use u2u_marketplace_api.Database.Schema.{done}
use u2u_marketplace_api.Cms.Accounts.{
  Account, Staff, is_account, close_account, write_account, delete_account,
}
use u2u_marketplace_api.Cms.Rounds.{account_deleted, handle_action_log}
use u2u_marketplace_api.Cms.AccountSteps.{is_shut}
use u2u_marketplace_api.Cms.AccountRequests.{AccountRequest, IsShut, serve_all, serve_all-IsShut}
use u2u_marketplace_api.Session.{
  Redis, of_id, store_session, get_session_info, get_session-set_ex, week,
}
use u2u_marketplace_api.Session.Office.{
  Sign, SignedIn, may_sign_in, get_tokens_account, cache_account, rotate_account, refresh_account,
  enter, sign_in,
}

done_inj : {A : Type 0} (a b : A) → done a ≡ done b → a ≡ b
done_inj a b h = cc h

write_account-done :
    (prisma : Prisma) (f : Account → Account) (id : ℕ) (s : Staff) (row : Account)
    → ((a : Account) → (f a).id ≡ a.id)
    → (write_account prisma f id s).0 ≡ done row
    → (old : Account) × (find (is_account id) s.accounts ≡ some old)
      × (row ≡ f old)
      × ((write_account prisma f id s).1.accounts ≡ map_where (is_account id) f s.accounts)
unfolding write_account
write_account-done prisma f id s row same h =
    let law = prisma.update_law (is_account id) f s.accounts in
    let rows = map_where (is_account id) f s.accounts in
    elim (Option-cases (find (is_account id) s.accounts)) [
      | inl n ↦ absurd (cc (rw (law, find-none (is_account id) s.accounts n, write_account) at h))
      | inr (old, e) ↦
          let there = find-any (is_account id) s.accounts e in
          let again =
            prisma.find_first_law (is_account id) rows
            ∙ find-map_where (is_account id) f s.accounts old (λ a. ap (λ i. i == id) (same a)) e in
          (
            old,
            e,
            sym (done_inj (f old) row (rw (law, there, again, write_account) at h)),
            rw (law, there, again, write_account) refl,
          )
    ]

delete_account-done :
    (prisma : Prisma) (valid_uuid : String → Option ℕ) (text : String) (id account_id : ℕ)
    (s : Staff) (row : Account)
    → valid_uuid text ≡ some id
    → (delete_account prisma valid_uuid text account_id s).0 ≡ done row
    → (find (is_account id) (delete_account prisma valid_uuid text account_id s).1.accounts
        ≡ some row)
      × (is_shut row ≡ true)
unfolding delete_account
delete_account-done prisma valid_uuid text id account_id s row u h =
    elim (Option-cases (prisma.find_first (is_account id) s.accounts)) [
      | inl n ↦ absurd (cc (rw (u, n, delete_account) at h))
      | inr (found, e) ↦
          elim (Option-cases (handle_action_log prisma account_id (account_deleted id) s.rounds)) [
            | inl n ↦ absurd (cc (rw (u, e, n, delete_account) at h))
            | inr (rounds, l) ↦
                let s' = record s { rounds = rounds } in
                let (old, o, made, wrote) =
                  write_account-done prisma close_account id s' row (λ a. refl)
                    (rw (u, e, l, delete_account) at h) in
                rw (u, e, l, delete_account, wrote)
                  (
                    find-map_where (is_account id) close_account s.accounts old (λ a. refl) o
                        ∙ ap some (sym made),
                    rw made refl,
                  )
          ]
    ]

module _ (redis : Redis) (prisma : Prisma) (sign : Sign) (compare : String → String → Bool) where
  open redis use {Store, reachable, get}

  enter-done :
      (account : Account) (now : ℕ) (store : Store) (answer : SignedIn)
      → (enter redis prisma sign account now store).0 ≡ done answer
      → answer.account_id ≡ account.id
  unfolding enter
  enter-done account now store answer h =
      elim (Bool-cases ((get_tokens_account sign account now).access_token === "")) [
        | inl t ↦ absurd (cc (rw (t, enter) at h))
        | inr f ↦ sym (ap (λ (a : SignedIn). a.account_id) (done_inj _ answer (rw (f, enter) at h)))
      ]

  -- An answer comes from the first row that may sign in, and whose hash fits the password.
  pub sign_in-done :
      (username password : String) (now : ℕ) (s : Staff) (store : Store) (answer : SignedIn)
      → (sign_in redis prisma sign compare username password now s store).0 ≡ done answer
      → (account : Account) × (find (may_sign_in username) s.accounts ≡ some account)
        × (answer.account_id ≡ account.id)
        × (sign_in redis prisma sign compare username password now s store
            ≡ enter redis prisma sign account now store)
        × ((hash : String) × (account.password ≡ some hash) × (compare password hash ≡ true))
  unfolding sign_in
  sign_in-done username password now s store answer h =
      let law = prisma.find_first_law (may_sign_in username) s.accounts in
      elim (Option-cases (find (may_sign_in username) s.accounts)) [
        | inl n ↦ absurd (cc (rw (law ∙ n, sign_in) at h))
        | inr (account, e) ↦ elim (Option-cases account.password) [
          | inl n ↦ absurd (cc (rw (law ∙ e, n, sign_in) at h))
          | inr (hash, p) ↦ elim (Bool-cases (compare password hash)) [
            | inr f ↦ absurd (cc (rw (law ∙ e, p, f, sign_in) at h))
            | inl t ↦ (
              account,
              e,
              enter-done account now store answer (rw (law ∙ e, p, t, sign_in) at h),
              rw (law ∙ e, p, t, sign_in) refl,
              (hash, p, t),
            )
          ]
        ]
      ]

  entering-not_shut :
      (username : String) (a : Account) → may_sign_in username a ≡ true → is_shut a ≡ false
  entering-not_shut username a h = ground arith

  -- Once an account is deleted, nobody signs in to it again, with any username and password, after
  -- any requests on the accounts.
  pub sign_in-IsShut :
      (valid_uuid : String → Option ℕ) (hash : String → String → String) (id : ℕ)
      (requests : List AccountRequest) (username password : String) (now : ℕ) (s : Staff)
      (store : Store) (answer : SignedIn)
      → IsShut id s.accounts
      → (sign_in redis prisma sign compare username password now
          (serve_all prisma valid_uuid hash compare requests s)
          store).0
        ≡ done answer
      → answer.account_id ≢ id
  sign_in-IsShut valid_uuid hash id requests username password now s store answer shut h same =
      let after = serve_all prisma valid_uuid hash compare requests s in
      let (account, e, own, _, _) = sign_in-done username password now after store answer h in
      let still = serve_all-IsShut prisma valid_uuid hash compare id requests s shut in
      let closed =
        All-at (λ (a : Account). is_account id a ≡ true → is_shut a ≡ true) still.shut
          (find-Memᴰ (may_sign_in username) after.accounts e) in
      let mine : account.id ≡ id = sym own ∙ same in
      let open_row =
        entering-not_shut username account (find-true (may_sign_in username) after.accounts e) in
      cc (closed (ground arith), open_row)

  enter-stored :
      (account : Account) (now t : ℕ) (store : Store)
      → reachable now ≡ true
      → reachable t ≡ true
      → t < now + 604800000
      → get_session_info redis
          (get_tokens_account sign account now).refresh_token
          t
          (enter redis prisma sign account now store).1
        ≡ some (of_id account.id)
  unfolding enter cache_account store_session get_session_info
  enter-stored account now t store r s early =
      let token = (get_tokens_account sign account now).refresh_token in
      let kept =
        get_session-set_ex redis token token (of_id account.id) week now t store
        ∙ rw ((String_eq.beq_iff token token).1 refl, lt→ltb t (now + 604800000) early) refl in
      elim (Bool-cases ((get_tokens_account sign account now).access_token === "")) [
        | inl e ↦ rw (r, s, e, enter, cache_account, store_session, get_session_info) kept
        | inr e ↦ rw (r, s, e, enter, cache_account, store_session, get_session_info) kept
      ]

  enter-tokens :
      (account : Account) (now : ℕ) (store : Store) (answer : SignedIn)
      → (enter redis prisma sign account now store).0 ≡ done answer
      → answer.tokens ≡ get_tokens_account sign account now
  unfolding enter
  enter-tokens account now store answer h =
      elim (Bool-cases ((get_tokens_account sign account now).access_token === "")) [
        | inl t ↦ absurd (cc (rw (t, enter) at h))
        | inr f ↦ sym (ap (λ (a : SignedIn). a.tokens) (done_inj _ answer (rw (f, enter) at h)))
      ]

  refresh_account-answers :
      (token : String) (id now : ℕ) (row : Account) (s : Staff) (store : Store)
      → get_session_info redis token now store ≡ some (of_id id)
      → find (is_account id) s.accounts ≡ some row
      → (refresh_account redis prisma sign token now s store).0
        ≡ done (get_tokens_account sign row now)
  unfolding refresh_account rotate_account
  refresh_account-answers token id now row s store e f =
      rw (e, prisma.find_first_law (is_account id) s.accounts ∙ f, refresh_account) refl

  -- The session of an account outlives it: after a sign-in that answers and a deletion of the same
  -- account that answers, a refresh within a week of the sign-in hands out new tokens, with the
  -- roles of the deleted row, where the store is reached both times.
  pub refresh_account-delete_account :
      (valid_uuid : String → Option ℕ) (username password text : String) (now t account_id : ℕ)
      (s : Staff) (store : Store) (answer : SignedIn) (row : Account)
      → reachable now ≡ true
      → reachable t ≡ true
      → t < now + 604800000
      → (sign_in redis prisma sign compare username password now s store).0 ≡ done answer
      → valid_uuid text ≡ some answer.account_id
      → (delete_account prisma valid_uuid text account_id s).0 ≡ done row
      → ((refresh_account redis prisma sign answer.tokens.refresh_token t
            (delete_account prisma valid_uuid text account_id s).1
            (sign_in redis prisma sign compare username password now s store).1).0
          ≡ done (get_tokens_account sign row t))
        × (is_shut row ≡ true)
  refresh_account-delete_account valid_uuid username password text now t account_id s store answer
        row r reach early h named d =
      let (account, _, own, entered, _) = sign_in-done username password now s store answer h in
      let (there, shut) =
        delete_account-done prisma valid_uuid text answer.account_id account_id s row named d in
      let live = enter-stored account now t store r reach early in
      (
        rw (entered, enter-tokens account now store answer (rw entered at h))
            (refresh_account-answers (get_tokens_account sign account now).refresh_token account.id
              t row _ _ live (rw own at there)),
        shut,
      )
