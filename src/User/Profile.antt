-- ===== src/User/Profile.antt =====
-- `updateProfile` of src/modules/user/user.service.ts.
use u2u_marketplace_api.Common.{
  ℕ, String, Bool, true, false, ◌&&◌, ◌||◌, not, Option, none, some, ◌==◌, ◌===◌, String_eq,
  if◌then◌else◌,
}
use u2u_marketplace_api.Database.{Prisma}
use u2u_marketplace_api.Database.Schema.{User, Db, Outcome, done, failed, refused}
use u2u_marketplace_api.Metric.Handlers.{has_id}
use u2u_marketplace_api.User.Follow.{is_value}

-- `UpdateUserDto`; none is undefined. A null, which a body can send too, is left out.
pub record UpdateUser : Type 0 where
  pub email : Option String
  pub username : Option String
  pub short_link : Option String
  pub accepted_terms : Option Bool
  pub bio : Option String
  pub avatar : Option String
  pub cover_image : Option String
  pub web_url : Option String
  pub facebook_link : Option String
  pub twitter_link : Option String
  pub telegram_link : Option String
  pub discord_link : Option String

-- A text that is there and not ''.
abbrev pub truthy : Option String → Bool
truthy none = false
truthy (some s) = not (s === "")

-- The text ''.
abbrev pub is_empty : Option String → Bool
is_empty none = false
is_empty (some s) = s === ""

-- A column keeps its value where the data is undefined.
abbrev pub or_kept : Option String → Option String → Option String
or_kept none old = old
or_kept (some new) old = some new

-- `input.email === user.email`, where undefined is not null
abbrev pub same_email : Option String → Option String → Bool
same_email none email = false
same_email (some e) email = is_value e email

-- `verifyEmail` of the data: undefined without an email
abbrev pub verify_email_after : Option String → Option String → Bool → Bool
verify_email_after none email old = old
verify_email_after (some e) email old = is_value e email

abbrev pub terms_after : Option Bool → Bool → Bool
terms_after none old = old
terms_after (some new) old = new

-- The row with `updateData`, for the user `user` of the request.
unfoldable pub apply_update : UpdateUser → User → User → User
apply_update input user row = record row {
  email = or_kept input.email row.email;
  username = or_kept input.username row.username;
  accepted_terms = terms_after input.accepted_terms row.accepted_terms;
  bio = or_kept input.bio row.bio;
  facebook_link = or_kept input.facebook_link row.facebook_link;
  twitter_link = or_kept input.twitter_link row.twitter_link;
  telegram_link = or_kept input.telegram_link row.telegram_link;
  discord_link = or_kept input.discord_link row.discord_link;
  web_url = or_kept input.web_url row.web_url;
  cover_image = or_kept input.cover_image row.cover_image;
  short_link = if truthy input.short_link then input.short_link else row.short_link;
  avatar = or_kept input.avatar row.avatar;
  verify_email = verify_email_after input.email user.email row.verify_email;
  account_status =
      if not (truthy input.twitter_link)
        || (not (truthy input.bio)
            || (not (truthy input.short_link)
                || (not (truthy input.avatar) || not (same_email input.email user.email))))
      then false
      else row.account_status;
}

-- Both have the value, and it is the same: null is no value of a unique column.
abbrev pub shares : Option String → Option String → Bool
shares none b = false
shares (some s) b = is_value s b

-- The unique columns that the update writes.
abbrev pub clash : User → User → Bool
clash a b =
    shares a.email b.email || (shares a.username b.username || shares a.short_link b.short_link)

-- `checkUserExistence`, asked where the value is truthy
abbrev pub is_other : (User → Option String) → String → ℕ → User → Bool
is_other field value id u = not (u.id == id) && is_value value (field u)

module _ (prisma : Prisma) where
  unfoldable pub taken : (User → Option String) → Option String → User → Db → Bool
  taken field none user db = false
  taken field (some value) user db =
      if value === ""
      then false
      else elim (prisma.find_first (is_other field value user.id) db.users) [
        | none ↦ false
        | some other ↦ true
      ]

  -- The update itself. An email '' makes '' of `verifyEmail`, which is no Boolean: the call throws.
  unfoldable pub write_profile : UpdateUser → User → Db → Outcome User × Db
  unfolding apply_update
  write_profile input user db =
      if is_empty input.email
      then (refused, db)
      else elim (prisma.update_unique clash (has_id user.id) (apply_update input user) db.users) [
        | none ↦ (refused, db)
        | some users ↦
            let after = record db { users = users } in
            elim (prisma.find_first (has_id user.id) users) [
              | none ↦ (refused, after)
              | some row ↦ (done row, after)
            ]
      ]

  unfoldable pub update_profile : UpdateUser → User → Db → Outcome User × Db
  unfolding taken write_profile
  update_profile input user db =
      if taken (λ u. u.email) input.email user db
      then (failed "Email already exists", db)
      else if taken (λ u. u.username) input.username user db
      then (failed "Username already exists", db)
      else if taken (λ u. u.short_link) input.short_link user db
      then (failed "Short Link already exists", db)
      else write_profile input user db
