-- ===== src/Session/History.antt =====
-- What the sessions of the users promise, without a store: the logins and refreshes of
-- src/modules/auth/auth.service.ts over the history of the tokens that were opened and closed.
use u2u_marketplace_api.Common.{
  ℕ, ◌+◌, String, Bool, Option, none, some, List, [], ◌∷◌, ltb, if◌then◌else◌, ◌===◌, String_eq,
}
use u2u_marketplace_api.Database.{Prisma}
use u2u_marketplace_api.Database.Schema.{User, Db, Outcome, done, failed, refused}
use u2u_marketplace_api.Metric.Handlers.{has_id}
use u2u_marketplace_api.Session.{Redis}
use u2u_marketplace_api.Session.Auth.{
  LoginDto, Tokens, get_tokens, validate_user, connect, refresh_tokens,
}

-- A token was opened for a user at a time, or closed.
pub data Touch : Type 0 where
  opened : String → ℕ → ℕ → Touch
  closed : String → Touch

-- The user whose session a token is at a time: the last touch of the token decides, and opens it for
-- less than a week. The newest touch stands first.
unfoldable pub live : String → ℕ → List Touch → Option ℕ
live token t [] = none
live token t (opened j id now ∷ history) =
    if token === j
    then (if ltb t (now + 604800000) then some id else none)
    else live token t history
live token t (closed j ∷ history) = if token === j then none else live token t history

-- The requests, with the time at which each is handled.
pub data Request : Type 0 where
  connecting : LoginDto → ℕ → ℕ → Request
  refreshing : String → ℕ → Request

module _ (redis : Redis) (prisma : Prisma) (verify_message : String → String → Option String)
    (is_date : String → Bool) (sign : ℕ → String → ℕ → String) where
  open redis use {Store, reachable}

  -- The requests as the service handles them: the answers, the tables and the store.
  unfoldable pub run : List Request → Db → Store → List (Outcome Tokens) × Db × Store
  run [] db store = ([], db, store)
  run (connecting input new_id now ∷ requests) db store =
      let (answer, db', store') =
        connect redis prisma verify_message is_date sign input new_id now db store in
      let (answers, db'', store'') = run requests db' store' in (answer ∷ answers, db'', store'')
  run (refreshing token now ∷ requests) db store =
      let (answer, store') = refresh_tokens redis prisma sign token now db store in
      let (answers, db', store'') = run requests db store' in (answer ∷ answers, db', store'')

  -- A touch is written down where the store is reached.
  abbrev pub touch : ℕ → Touch → List Touch → List Touch
  touch now step history = if reachable now then step ∷ history else history

  abbrev pub open_user : User → ℕ → List Touch → List Touch
  open_user user now history =
      touch now (opened (get_tokens sign user now).refresh_token user.id now) history

  -- A login that the signature allows opens the new token, whatever else is open.
  unfoldable pub spec_connect :
      LoginDto → ℕ → ℕ → Db → List Touch → Outcome Tokens × Db × List Touch
  spec_connect input new_id now db history =
      let (checked, after) = validate_user prisma verify_message is_date input new_id db in
      elim checked [
        | done user ↦
            let tokens = get_tokens sign user now in
            (
              (if tokens.access_token === "" then failed "Internal Server Error" else done tokens),
              after,
              open_user user now history,
            )
        | failed message ↦ (failed message, after, history)
        | refused ↦ (refused, after, history)
      ]

  -- A refresh of a live token opens the new token and closes the old one, in this order.
  unfoldable pub spec_refresh : String → ℕ → Db → List Touch → Outcome Tokens × List Touch
  spec_refresh token now db history =
      elim (if reachable now then live token now history else none) [
        | none ↦ (failed "Token not found", history)
        | some user_id ↦ elim (prisma.find_first (has_id user_id) db.users) [
          | none ↦ (failed "Access Denied", history)
          | some user ↦ (
            done (get_tokens sign user now),
            touch now (closed token) (open_user user now history),
          )
        ]
      ]

  unfoldable pub replay : List Request → Db → List Touch → List (Outcome Tokens) × Db × List Touch
  replay [] db history = ([], db, history)
  replay (connecting input new_id now ∷ requests) db history =
      let (answer, db', history') = spec_connect input new_id now db history in
      let (answers, db'', history'') = replay requests db' history' in
      (answer ∷ answers, db'', history'')
  replay (refreshing token now ∷ requests) db history =
      let (answer, history') = spec_refresh token now db history in
      let (answers, db', history'') = replay requests db history' in
      (answer ∷ answers, db', history'')
