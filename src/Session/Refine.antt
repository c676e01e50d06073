-- ===== src/Session/Refine.antt =====
-- The store of the sessions (src/commons/Secure.common.ts) against the history of the requests.
use mathlib.Core.Option
use u2u_marketplace_api.Common.{
  ℕ, ◌+◌, String, ◌≡◌, refl, ap, Bool, true, false, Option, none, List, [], ◌∷◌, ltb, if◌then◌else◌,
  ◌===◌, String_eq, inl, inr, Bool-cases, Option-cases,
}
use u2u_marketplace_api.Database.{Prisma}
use u2u_marketplace_api.Database.Schema.{User, Db, Outcome, done, failed, refused}
use u2u_marketplace_api.Metric.Handlers.{has_id}
use u2u_marketplace_api.Session.{
  Redis, of_id, session_key, store_session, get_session_info, delete_session_info,
  get_session-set_ex, get_session-del, week,
}
use u2u_marketplace_api.Session.Auth.{
  LoginDto, Tokens, get_tokens, validate_user, update_refresh_token_caching, login, rotate, connect,
  refresh_tokens,
}
use u2u_marketplace_api.Session.History.{
  Touch, opened, closed, live, Request, connecting, refreshing, run, touch, open_user, spec_connect,
  spec_refresh, replay,
}

module _ (redis : Redis) where
  open redis use {Store, reachable, get}

  -- Each token is found in the store as the history says, at every time.
  abbrev pub Agrees : Store → List Touch → Type 0
  Agrees store history =
      (token : String) (t : ℕ)
      → get (session_key token) t store ≡ Option.map of_id (live token t history)

  module _ (prisma : Prisma) (verify_message : String → String → Option String)
      (is_date : String → Bool) (sign : ℕ → String → ℕ → String) where
    abbrev touching : ℕ → Touch → List Touch → List Touch
    touching = touch redis prisma verify_message is_date sign

    open-Agrees :
        (id : ℕ) (token : String) (now : ℕ) (store : Store) (history : List Touch)
        → Agrees store history
        → Agrees
            (update_refresh_token_caching redis id token false now store)
            (touching now (opened token id now) history)
    unfolding update_refresh_token_caching store_session live
    open-Agrees id token now store history h j t = elim (Bool-cases (reachable now)) [
      | inr f ↦ rw (f, update_refresh_token_caching, store_session) (h j t)
      | inl r ↦
          rw
            (
              r,
              update_refresh_token_caching,
              store_session,
              get_session-set_ex redis token j (of_id id) week now t store,
              h j t,
            )
            (elim (Bool-cases (j === token)) [
              | inr f ↦ rw (f, live) refl
              | inl e ↦ elim (Bool-cases (ltb t (now + 604800000))) [
                | inl s ↦ rw (e, s, live) refl
                | inr s ↦ rw (e, s, live) refl
              ]
            ])
    ]

    close-Agrees :
        (id : ℕ) (token : String) (now : ℕ) (store : Store) (history : List Touch)
        → Agrees store history
        → Agrees
            (update_refresh_token_caching redis id token true now store)
            (touching now (closed token) history)
    unfolding update_refresh_token_caching delete_session_info live
    close-Agrees id token now store history h j t = elim (Bool-cases (reachable now)) [
      | inr f ↦ rw (f, update_refresh_token_caching, delete_session_info) (h j t)
      | inl r ↦
          rw
            (
              r,
              update_refresh_token_caching,
              delete_session_info,
              get_session-del redis token j t store,
              h j t,
            )
            (elim (Bool-cases (j === token)) [
              | inr f ↦ rw (f, live) refl
              | inl e ↦ rw (e, live) refl
            ])
    ]

    info-live :
        (token : String) (now : ℕ) (store : Store) (history : List Touch)
        → Agrees store history
        → get_session_info redis token now store
          ≡ Option.map of_id (if reachable now then live token now history else none)
    unfolding get_session_info
    info-live token now store history h = elim (Bool-cases (reachable now)) [
      | inr f ↦ rw (f, get_session_info) refl
      | inl r ↦ rw (r, get_session_info) (h token now)
    ]

    abbrev Refines : Outcome Tokens × Store → Outcome Tokens × List Touch → Type 0
    Refines r s = (r.0 ≡ s.0) × Agrees r.1 s.1

    refresh-Refines :
        (token : String) (now : ℕ) (db : Db) (store : Store) (history : List Touch)
        → Agrees store history
        → Refines
            (refresh_tokens redis prisma sign token now db store)
            (spec_refresh redis prisma verify_message is_date sign token now db history)
    unfolding refresh_tokens spec_refresh rotate
    refresh-Refines token now db store history h =
        let info = info-live token now store history h in
        elim (Option-cases (if reachable now then live token now history else none)) [
          | inl n ↦ rw (info, n, refresh_tokens, spec_refresh) (refl, h)
          | inr (id, e) ↦ elim (Option-cases (prisma.find_first (has_id id) db.users)) [
            | inl n ↦ rw (info, e, n, refresh_tokens, spec_refresh) (refl, h)
            | inr (user, u) ↦
                rw (info, e, u, refresh_tokens, spec_refresh)
                  (
                    refl,
                    close-Agrees user.id token now _ _ (
                        open-Agrees user.id (get_tokens sign user now).refresh_token now store
                          history h),
                  )
          ]
        ]

    abbrev pub RefinesAll : {A : Type 0} → A × Db × Store → A × Db × List Touch → Type 0
    RefinesAll r s = (r.0 ≡ s.0) × (r.1 ≡ s.1) × Agrees r.2 s.2

    login-Refines :
        (user : User) (now : ℕ) (store : Store) (history : List Touch)
        → Agrees store history
        → Refines (login redis sign user now store) (
          (if (get_tokens sign user now).access_token === ""
              then failed "Internal Server Error"
              else done (get_tokens sign user now)),
          open_user redis prisma verify_message is_date sign user now history,
        )
    unfolding login
    login-Refines user now store history h =
        let opened_now =
          open-Agrees user.id (get_tokens sign user now).refresh_token now store history h in
        elim (Bool-cases ((get_tokens sign user now).access_token === "")) [
          | inl e ↦ rw (e, login) (refl, opened_now)
          | inr e ↦ rw (e, login) (refl, opened_now)
        ]

    connect-Refines :
        (input : LoginDto) (new_id now : ℕ) (db : Db) (store : Store) (history : List Touch)
        → Agrees store history
        → RefinesAll
            (connect redis prisma verify_message is_date sign input new_id now db store)
            (spec_connect redis prisma verify_message is_date sign input new_id now db history)
    unfolding connect spec_connect
    connect-Refines input new_id now db store history h =
        go (validate_user prisma verify_message is_date input new_id db) refl
      where
        go :
            (checked : Outcome User × Db)
            → validate_user prisma verify_message is_date input new_id db ≡ checked
            → RefinesAll
                (connect redis prisma verify_message is_date sign input new_id now db store)
                (spec_connect redis prisma verify_message is_date sign input new_id now db history)
        go (done user, after) e =
            let (same, agrees) = login-Refines user now store history h in
            rw (e, connect, spec_connect) (same, refl, agrees)
        go (failed message, after) e = rw (e, connect, spec_connect) (refl, refl, h)
        go (refused, after) e = rw (e, connect, spec_connect) (refl, refl, h)

    -- Over any sequence of logins and refreshes, at any times, the service answers as the history of
    -- its requests says and makes the same users, and afterwards each token is found in the store
    -- exactly where its last touch opened it less than a week before, from any store that agrees
    -- with a history.
    pub run-RefinesAll :
        (requests : List Request) (db : Db) (store : Store) (history : List Touch)
        → Agrees store history
        → RefinesAll
            (run redis prisma verify_message is_date sign requests db store)
            (replay redis prisma verify_message is_date sign requests db history)
    unfolding run replay
    run-RefinesAll [] db store history h = (refl, refl, h)
    run-RefinesAll (connecting input new_id now ∷ requests) db store history h =
        let (answer, tables, agrees) = connect-Refines input new_id now db store history h in
        let (first, db', history') =
          spec_connect redis prisma verify_message is_date sign input new_id now db history in
        let (answers, tables', agrees') = run-RefinesAll requests db' _ history' agrees in
        rw (answer, tables) (ap (λ r. first ∷ r) answers, tables', agrees')
    run-RefinesAll (refreshing token now ∷ requests) db store history h =
        let (answer, agrees) = refresh-Refines token now db store history h in
        let (first, history') =
          spec_refresh redis prisma verify_message is_date sign token now db history in
        let (answers, tables, agrees') = run-RefinesAll requests db _ history' agrees in
        rw answer (ap (λ r. first ∷ r) answers, tables, agrees')
