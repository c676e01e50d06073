-- ===== src/Session/Once.antt =====
-- `refreshTokens` of src/modules/auth/auth.service.ts: a used refresh token over the later requests.
use u2u_marketplace_api.Common.{
  ℕ, String, ◌≡◌, refl, Bool, true, false, ◌||◌, Option, none, some, List, [], ◌∷◌, any, ◌===◌,
  String_eq, inl, inr, Bool-cases,
}
use u2u_marketplace_api.Database.{Prisma}
use u2u_marketplace_api.Database.Schema.{User, Db, Outcome, done, failed, refused}
use u2u_marketplace_api.Metric.Handlers.{has_id}
use u2u_marketplace_api.Session.{
  Redis, Value, of_id, of_email, of_external, session_key, store_session, get_session_info,
  delete_session_info, get_session-set_ex, get_session-del, week,
}
use u2u_marketplace_api.Session.Auth.{
  LoginDto, Tokens, get_tokens, validate_user, update_refresh_token_caching, login, rotate, connect,
  refresh_tokens,
}
use u2u_marketplace_api.Session.History.{Request, connecting, refreshing, run}
use u2u_marketplace_api.Session.Rotate.{refresh-done, refresh-absent}

-- An answer gives a token out.
abbrev pub gives : String → Outcome Tokens → Bool
gives token (done tokens) = token === tokens.refresh_token
gives token (failed message) = false
gives token refused = false

either_false : (a b : Bool) → a || b ≡ false → (a ≡ false) × (b ≡ false)
either_false false b h = (refl, h)
either_false true b h = absurd (cc h)

module _ (redis : Redis) (token : String) where
  open redis use {Store, reachable, get}

  -- The token is found at no time.
  abbrev IsSpent : Store → Type 0
  IsSpent store = (t : ℕ) → get (session_key token) t store ≡ none

  open-IsSpent :
      (id now : ℕ) (new : String) (store : Store)
      → (token === new) ≡ false
      → IsSpent store
      → IsSpent (update_refresh_token_caching redis id new false now store)
  unfolding update_refresh_token_caching store_session
  open-IsSpent id now new store other h t = elim (Bool-cases (reachable now)) [
    | inr f ↦ rw (f, update_refresh_token_caching, store_session) (h t)
    | inl r ↦
        rw
          (
            r,
            update_refresh_token_caching,
            store_session,
            get_session-set_ex redis new token (of_id id) week now t store,
            other,
          )
          (h t)
  ]

  close-IsSpent :
      (id now : ℕ) (old : String) (store : Store)
      → IsSpent store
      → IsSpent (update_refresh_token_caching redis id old true now store)
  unfolding update_refresh_token_caching delete_session_info
  close-IsSpent id now old store h t = elim (Bool-cases (reachable now)) [
    | inr f ↦ rw (f, update_refresh_token_caching, delete_session_info) (h t)
    | inl r ↦
        rw
          (
            r,
            update_refresh_token_caching,
            delete_session_info,
            get_session-del redis old token t store,
            h t,
          )
          (elim (Bool-cases (token === old)) [ inl e ↦ rw e refl | inr e ↦ rw e refl ])
  ]

  -- A refresh with the token itself closes it, also where it has just stored it again.
  own-IsSpent :
      (id now : ℕ) (store : Store)
      → reachable now ≡ true
      → IsSpent (update_refresh_token_caching redis id token true now store)
  unfolding update_refresh_token_caching delete_session_info
  own-IsSpent id now store r t =
      rw
        (
          r,
          update_refresh_token_caching,
          delete_session_info,
          get_session-del redis token token t store,
          (String_eq.beq_iff token token).1 refl,
        )
        refl

  module _ (prisma : Prisma) (verify_message : String → String → Option String)
      (is_date : String → Bool) (sign : ℕ → String → ℕ → String) where
    refresh-IsSpent :
        (other : String) (now : ℕ) (db : Db) (store : Store)
        → gives token (refresh_tokens redis prisma sign other now db store).0 ≡ false
        → IsSpent store
        → IsSpent (refresh_tokens redis prisma sign other now db store).1
    unfolding refresh_tokens rotate
    refresh-IsSpent other now db store g h = found (get_session_info redis other now store) refl
      where
        of_user :
            (id : ℕ) (user : Option User)
            → get_session_info redis other now store ≡ some (of_id id)
            → prisma.find_first (has_id id) db.users ≡ user
            → IsSpent (refresh_tokens redis prisma sign other now db store).1
        of_user id none e f = rw (e, f, refresh_tokens) h
        of_user id (some user) e f =
            let apart = rw (e, f, refresh_tokens, rotate) at g in
            rw (e, f, refresh_tokens, rotate)
              (close-IsSpent user.id now other _
                (open-IsSpent user.id now (get_tokens sign user now).refresh_token store apart h))

        found :
            (info : Option Value)
            → get_session_info redis other now store ≡ info
            → IsSpent (refresh_tokens redis prisma sign other now db store).1
        found none e = rw (e, refresh_tokens) h
        found (some (of_id id)) e = of_user id (prisma.find_first (has_id id) db.users) e refl
        found (some (of_email r)) e = rw (e, refresh_tokens) h
        found (some (of_external r)) e = rw (e, refresh_tokens) h

    login-IsSpent :
        (user : User) (now : ℕ) (store : Store)
        → (token === "") ≡ false
        → gives token (login redis sign user now store).0 ≡ false
        → IsSpent store
        → IsSpent (login redis sign user now store).1
    unfolding login
    login-IsSpent user now store some_text g h =
        let tokens = get_tokens sign user now in
        elim (Bool-cases (tokens.access_token === "")) [
          | inl e ↦
              let empty : tokens.refresh_token ≡ "" =
                (String_eq.beq_iff tokens.access_token "").0 e in
              rw (e, login)
                (open-IsSpent user.id now tokens.refresh_token store (rw empty some_text) h)
          | inr e ↦
              rw (e, login)
                (open-IsSpent user.id now tokens.refresh_token store (rw (e, login) at g) h)
        ]

    connect-IsSpent :
        (input : LoginDto) (new_id now : ℕ) (db : Db) (store : Store)
        → (token === "") ≡ false
        → gives token (connect redis prisma verify_message is_date sign input new_id now db store).0
          ≡ false
        → IsSpent store
        → IsSpent (connect redis prisma verify_message is_date sign input new_id now db store).2
    unfolding connect
    connect-IsSpent input new_id now db store some_text g h =
        go (validate_user prisma verify_message is_date input new_id db) refl
      where
        go :
            (checked : Outcome User × Db)
            → validate_user prisma verify_message is_date input new_id db ≡ checked
            → IsSpent (connect redis prisma verify_message is_date sign input new_id now db store).2
        go (done user, after) e =
            rw (e, connect) (login-IsSpent user now store some_text (rw (e, connect) at g) h)
        go (failed message, after) e = rw (e, connect) h
        go (refused, after) e = rw (e, connect) h

    run-IsSpent :
        (requests : List Request) (db : Db) (store : Store)
        → (token === "") ≡ false
        → any (gives token) (run redis prisma verify_message is_date sign requests db store).0
          ≡ false
        → IsSpent store
        → IsSpent (run redis prisma verify_message is_date sign requests db store).2
    unfolding run
    run-IsSpent [] db store some_text g h = h
    run-IsSpent (connecting input new_id now ∷ requests) db store some_text g h =
        let (first, rest) = either_false _ _ g in
        run-IsSpent requests _ _ some_text rest
          (connect-IsSpent input new_id now db store some_text first h)
    run-IsSpent (refreshing other now ∷ requests) db store some_text g h =
        let (first, rest) = either_false _ _ g in
        run-IsSpent requests db _ some_text rest (refresh-IsSpent other now db store first h)

    -- A refresh token serves once: after a refresh that answers, where the store is reached, and any
    -- logins and refreshes after it none of whose answers gives the same text out again, a refresh
    -- with the token is refused at any time and leaves the store alone, whatever the tables are then.
    -- The token is a text that is not empty.
    pub refresh-once :
        (now t : ℕ) (db after later : Db) (store : Store) (tokens : Tokens)
        (requests : List Request)
        → (token === "") ≡ false
        → reachable now ≡ true
        → (refresh_tokens redis prisma sign token now db store).0 ≡ done tokens
        → any
            (gives token)
            (run redis prisma verify_message is_date sign requests after
              (refresh_tokens redis prisma sign token now db store).1).0
          ≡ false
        → refresh_tokens redis prisma sign token t later
            (run redis prisma verify_message is_date sign requests after
              (refresh_tokens redis prisma sign token now db store).1).2
          ≡ (
            failed "Token not found",
            (run redis prisma verify_message is_date sign requests after
                (refresh_tokens redis prisma sign token now db store).1).2,
          )
    unfolding rotate
    refresh-once now t db after later store tokens requests some_text r h g =
        let (user, e, _) = refresh-done redis prisma sign token now db store tokens h in
        let spent : IsSpent (refresh_tokens redis prisma sign token now db store).1 =
          rw e (own-IsSpent user.id now _ r) in
        refresh-absent redis prisma sign token t later _
          (run-IsSpent requests after _ some_text g spent t)
