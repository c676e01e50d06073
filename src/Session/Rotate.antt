-- ===== src/Session/Rotate.antt =====
-- `refreshTokens` of src/modules/auth/auth.service.ts after a login and after another refresh.
use u2u_marketplace_api.Common.{
  ℕ, ◌+◌, ◌≤◌, ◌<◌, String, ◌≡◌, refl, ◌∙◌, arith, true, false, Option, none, some, ltb, lt→ltb,
  if◌then◌else◌, ◌===◌, String_eq, inl, inr, Bool-cases,
}
use u2u_marketplace_api.Database.{Prisma}
use u2u_marketplace_api.Database.Schema.{User, Db, done, failed}
use u2u_marketplace_api.Metric.Handlers.{has_id}
use u2u_marketplace_api.Session.{
  Redis, Value, of_id, of_email, of_external, session_key, store_session, get_session_info,
  delete_session_info, get_session-set_ex, get_session-del, week,
}
use u2u_marketplace_api.Session.Auth.{
  Tokens, get_tokens, update_refresh_token_caching, login, rotate, refresh_tokens,
}

done_inj : {A : Type 0} (a b : A) → done a ≡ done b → a ≡ b
done_inj a b h = cc h

not_before : (a b : ℕ) → b ≤ a → ltb a b ≡ false
not_before a b h = ground arith

module _ (redis : Redis) where
  open redis use {Store, reachable, get}

  -- What is found once a session is stored.
  stored :
      (id : ℕ) (token j : String) (now t : ℕ) (store : Store)
      → reachable now ≡ true
      → get (session_key j) t (update_refresh_token_caching redis id token false now store) ≡ (
          if j === token
          then (if ltb t (now + 604800000) then some (of_id id) else none)
          else get (session_key j) t store)
  unfolding update_refresh_token_caching store_session
  stored id token j now t store r =
      rw (r, update_refresh_token_caching, store_session)
        (get_session-set_ex redis token j (of_id id) week now t store)

  dropped :
      (id : ℕ) (token j : String) (now t : ℕ) (store : Store)
      → reachable now ≡ true
      → get (session_key j) t (update_refresh_token_caching redis id token true now store)
        ≡ (if j === token then none else get (session_key j) t store)
  unfolding update_refresh_token_caching delete_session_info
  dropped id token j now t store r =
      rw (r, update_refresh_token_caching, delete_session_info)
        (get_session-del redis token j t store)

  module _ (prisma : Prisma) (sign : ℕ → String → ℕ → String) where
    -- A token that is not found is refused, and nothing is stored.
    pub refresh-absent :
        (token : String) (t : ℕ) (db : Db) (store : Store)
        → get (session_key token) t store ≡ none
        → refresh_tokens redis prisma sign token t db store ≡ (failed "Token not found", store)
    unfolding refresh_tokens get_session_info
    refresh-absent token t db store h = elim (Bool-cases (reachable t)) [
      | inl r ↦ rw (r, h, refresh_tokens, get_session_info) refl
      | inr f ↦ rw (f, refresh_tokens, get_session_info) refl
    ]

    login-stored :
        (user : User) (now t : ℕ) (store : Store)
        → reachable now ≡ true
        → get
            (session_key (get_tokens sign user now).refresh_token)
            t
            (login redis sign user now store).1
          ≡ (if ltb t (now + 604800000) then some (of_id user.id) else none)
    unfolding login
    login-stored user now t store r =
        let token = (get_tokens sign user now).refresh_token in
        let same = (String_eq.beq_iff token token).1 refl in
        let kept = rw same at (stored user.id token token now t store r) in
        elim (Bool-cases ((get_tokens sign user now).access_token === "")) [
          | inl e ↦ rw (e, login) kept
          | inr e ↦ rw (e, login) kept
        ]

    -- The refresh token that a login hands out serves for a week from then: a refresh with it gives
    -- fresh tokens to the same user, whose row is read again, where the store is reached both times.
    pub refresh-login :
        (user row : User) (now t : ℕ) (db : Db) (store : Store)
        → reachable now ≡ true
        → reachable t ≡ true
        → t < now + 604800000
        → prisma.find_first (has_id user.id) db.users ≡ some row
        → (refresh_tokens redis prisma sign
            (get_tokens sign user now).refresh_token
            t
            db
            (login redis sign user now store).1).0
          ≡ done (get_tokens sign row t)
    unfolding refresh_tokens get_session_info rotate
    refresh-login user row now t db store r s early found =
        let kept = login-stored user now t store r in
        rw (s, kept, lt→ltb t (now + 604800000) early, found, refresh_tokens, get_session_info) refl

    -- From a week after the login on, the token that it gave is refused and nothing is stored.
    pub refresh-login_late :
        (user : User) (now t : ℕ) (db : Db) (store : Store)
        → reachable now ≡ true
        → now + 604800000 ≤ t
        → refresh_tokens redis prisma sign
            (get_tokens sign user now).refresh_token
            t
            db
            (login redis sign user now store).1
          ≡ (failed "Token not found", (login redis sign user now store).1)
    refresh-login_late user now t db store r late =
        refresh-absent (get_tokens sign user now).refresh_token t db _
          (login-stored user now t store r ∙ rw (not_before t (now + 604800000) late) refl)

    -- A refresh that answers has read a user, and rotates the token.
    pub refresh-done :
        (token : String) (now : ℕ) (db : Db) (store : Store) (tokens : Tokens)
        → (refresh_tokens redis prisma sign token now db store).0 ≡ done tokens
        → (user : User) × (refresh_tokens redis prisma sign token now db store
            ≡ rotate redis sign user token now store)
          × (get_tokens sign user now ≡ tokens)
    unfolding refresh_tokens rotate
    refresh-done token now db store tokens h = found (get_session_info redis token now store) refl
      where
        of_user :
            (id : ℕ) (user : Option User)
            → get_session_info redis token now store ≡ some (of_id id)
            → prisma.find_first (has_id id) db.users ≡ user
            → (user : User) × (refresh_tokens redis prisma sign token now db store
                ≡ rotate redis sign user token now store)
              × (get_tokens sign user now ≡ tokens)
        of_user id none e f = absurd (cc (rw (e, f, refresh_tokens) at h))
        of_user id (some user) e f = (
          user,
          rw (e, f, refresh_tokens) refl,
          done_inj (get_tokens sign user now) tokens (rw (e, f, refresh_tokens, rotate) at h),
        )

        found :
            (info : Option Value)
            → get_session_info redis token now store ≡ info
            → (user : User) × (refresh_tokens redis prisma sign token now db store
                ≡ rotate redis sign user token now store)
              × (get_tokens sign user now ≡ tokens)
        found none e = absurd (cc (rw (e, refresh_tokens) at h))
        found (some (of_id id)) e = of_user id (prisma.find_first (has_id id) db.users) e refl
        found (some (of_email r)) e = absurd (cc (rw (e, refresh_tokens) at h))
        found (some (of_external r)) e = absurd (cc (rw (e, refresh_tokens) at h))

    -- After a refresh that answers, where the store is reached, the new refresh token is found for a
    -- week as the session of the user that the answer names, and where it is another text than the
    -- old token; where it is the same text, it is not found at all.
    pub refresh-new_token :
        (token : String) (now t : ℕ) (db : Db) (store : Store) (tokens : Tokens)
        → reachable now ≡ true
        → (refresh_tokens redis prisma sign token now db store).0 ≡ done tokens
        → get
            (session_key tokens.refresh_token)
            t
            (refresh_tokens redis prisma sign token now db store).1
          ≡ (if tokens.refresh_token === token
              then none
              else (if ltb t (now + 604800000) then some (of_id tokens.user_id) else none))
    unfolding rotate
    refresh-new_token token now t db store tokens r h =
        let (user, e, same) = refresh-done token now db store tokens h in
        rw (e, ← same)
          (dropped user.id token (get_tokens sign user now).refresh_token now t
              (update_refresh_token_caching redis user.id (get_tokens sign user now).refresh_token
                false now store)
              r
            ∙ rw
                (
                  stored user.id (get_tokens sign user now).refresh_token
                      (get_tokens sign user now).refresh_token now t store r,
                  (String_eq.beq_iff (get_tokens sign user now).refresh_token
                        (get_tokens sign user now).refresh_token).1
                      refl,
                )
                refl)
