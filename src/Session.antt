-- ===== src/Session.antt =====
-- The session store of src/commons/Secure.common.ts over the Redis client of
-- src/database/Redis.db.ts, which is a parameter: a store with what its documentation says of `SET`
-- with `EX`, `GET` and `DEL`. A time is a number of milliseconds.
pub mod Auth
pub mod History
pub mod Refine
pub mod Rotate
pub mod Once
pub mod Office
pub mod Entry
pub mod Passwords
pub mod Created
pub mod Email
pub mod Resend
pub mod Stored
mod Tests
use Prim.Native.String.{◌++◌}
use text.Mathlib.TextLemmas.{append_cancel_left}
use u2u_marketplace_api.Common.{
  ℕ, ◌+◌, ◌*◌, String, ◌≡◌, refl, sym, ◌∙◌, ap, Bool, true, false, Option, none, some, ltb, inl,
  inr, if◌then◌else◌, ◌===◌, String_eq, Bool-cases, ===-ne,
}

-- `UserRedisinterface` of src/modules/user/user.service.ts
pub record EmailRecord : Type 0 where
  pub timestamp : ℕ
  pub email : Option String
  pub user_id : ℕ
  pub verify_token : String

-- `responseRedisExternal` of src/modules/graph-qlcaller/getCollectionMarketData.service.ts, which
-- another program writes: the numbers that `parseInt(… || '0')` reads in it.
pub record ExternalRecord : Type 0 where
  pub total_nft : ℕ
  pub total_owner : ℕ

-- A value of the store: the text of an id, or the JSON text of a record.
pub data Value : Type 0 where
  of_id : ℕ → Value
  of_email : EmailRecord → Value
  of_external : ExternalRecord → Value

pub record Redis : Type 1 where
  pub Store : Type 0
  -- whether a call at this time reaches the server; it throws otherwise
  pub reachable : ℕ → Bool
  -- `SET key value EX seconds` at a time
  pub set_ex : String → Value → ℕ → ℕ → Store → Store
  pub del : String → Store → Store
  pub get : String → ℕ → Store → Option Value
  pub get_set_law :
      (key j : String) (value : Value) (seconds now t : ℕ) (store : Store)
      → get j t (set_ex key value seconds now store) ≡ (
          if j === key
          then (if ltb t (now + seconds * 1000) then some value else none)
          else get j t store)
  pub get_del_law :
      (key j : String) (t : ℕ) (store : Store)
      → get j t (del key store) ≡ (if j === key then none else get j t store)

-- `session:${token}`
abbrev pub session_key : String → String
session_key token = "session:" ++ token

-- The seconds of `storeSession`, a week.
abbrev pub week : ℕ
week = 604800

-- Two tokens have one key only where they are the same.
pub session_key-eq : (a b : String) → (session_key a === session_key b) ≡ (a === b)
session_key-eq a b = elim (Bool-cases (a === b)) [
  | inl t ↦ (String_eq.beq_iff _ _).1 (ap session_key ((String_eq.beq_iff a b).0 t)) ∙ sym t
  | inr f ↦ elim (Bool-cases (session_key a === session_key b)) [
    | inl t ↦
        absurd (===-ne a b f (append_cancel_left "session:" a b ((String_eq.beq_iff _ _).0 t)))
    | inr g ↦ g ∙ sym f
  ]
]

module _ (redis : Redis) where
  open redis use {Store, reachable, set_ex, del, get}

  -- `storeSession` and `storeSessionAccount`: the id of the user or of the account; none throws.
  unfoldable pub store_session : ℕ → String → ℕ → Store → Option (ℕ × Store)
  store_session id token now store =
      if reachable now
      then some (now + 604800000, set_ex (session_key token) (of_id id) week now store)
      else none

  -- `storeObjectSession`
  unfoldable pub store_object_session : String → Value → ℕ → ℕ → Store → Option (ℕ × Store)
  store_object_session key value expire now store =
      if reachable now
      then some (now + expire * 1000, set_ex (session_key key) value expire now store)
      else none

  -- `getSessionInfo`
  unfoldable pub get_session_info : String → ℕ → Store → Option Value
  get_session_info token now store =
      if reachable now then get (session_key token) now store else none

  -- `deleteSessionInfo`
  unfoldable pub delete_session_info : String → ℕ → Store → Bool × Store
  delete_session_info token now store =
      if reachable now then (true, del (session_key token) store) else (false, store)

  -- What is found after a session is stored, and after one is deleted.
  pub get_session-set_ex :
      (key j : String) (value : Value) (seconds now t : ℕ) (store : Store)
      → get (session_key j) t (set_ex (session_key key) value seconds now store) ≡ (
          if j === key
          then (if ltb t (now + seconds * 1000) then some value else none)
          else get (session_key j) t store)
  get_session-set_ex key j value seconds now t store =
      rw
        (
          redis.get_set_law (session_key key) (session_key j) value seconds now t store,
          session_key-eq j key,
        )
        refl

  pub get_session-del :
      (key j : String) (t : ℕ) (store : Store)
      → get (session_key j) t (del (session_key key) store)
        ≡ (if j === key then none else get (session_key j) t store)
  get_session-del key j t store =
      rw (redis.get_del_law (session_key key) (session_key j) t store, session_key-eq j key) refl
