-- ===== src/User/Listing.antt =====
-- The profiles of src/modules/user/user.service.ts that others read: `findAll`, and
-- `getProfileWithShortLinkOrIdUser` with `minifyUserObject`. The columns are those of
-- `userSelectFull` in src/commons/definitions/Constraint.Object.ts.
use u2u_marketplace_api.Common.{
  ℕ, String, Bool, true, false, ◌&&◌, ◌||◌, Option, none, some, List, [], ◌∷◌, map, ◌==◌,
  if◌then◌else◌,
}
use u2u_marketplace_api.Common.Int.{ℤ}
use u2u_marketplace_api.Common.Text.{to_lower_case}
use u2u_marketplace_api.Database.{Prisma}
use u2u_marketplace_api.Database.Schema.{User, UserFollow, Db, Outcome, done, failed}
use u2u_marketplace_api.Metric.Handlers.{has_id}
use u2u_marketplace_api.Paging.{has_next_page}
use u2u_marketplace_api.Paging.Pages.{find_on_page}
use u2u_marketplace_api.User.Follow.{is_pair}
use u2u_marketplace_api.User.Profile.{truthy}

-- What is left of a row without the secret columns.
pub record PublicUser : Type 0 where
  pub id : ℕ
  pub email : Option String
  pub avatar : Option String
  pub username : Option String
  pub public_key : Option String
  pub accepted_terms : Bool
  pub bio : Option String
  pub facebook_link : Option String
  pub twitter_link : Option String
  pub telegram_link : Option String
  pub short_link : Option String
  pub discord_link : Option String
  pub web_url : Option String
  pub cover_image : Option String
  pub followers : ℤ
  pub following : ℤ
  pub account_status : Bool
  pub verify_email : Bool
  pub is_active : Bool

-- `userSelectFull`, without the rows of `user`
pub record SelectedUser : Type 0 where
  pub public : PublicUser
  pub signature : Option String
  pub signed_message : Option String
  pub signer : String

-- A user as the list shows them.
pub record ShownUser : Type 0 where
  pub row : SelectedUser
  pub is_followed : Bool

-- A profile: the row with the flags of `user` for its owner, what is left of it for others.
pub data Profile : Type 0 where
  own : SelectedUser → List Bool → Profile
  minified : PublicUser → Bool → Profile

pub data Direction : Type 0 where
  asc desc : Direction

-- `GetAllUser`; the list is ordered by the metric, then by this direction of the time.
pub record UserFilter : Type 0 where
  pub search : Option String
  pub page : ℕ
  pub limit : ℕ
  pub direction : Direction

pub record UserPage : Type 0 where
  pub rows : List ShownUser
  pub has_next : Bool

abbrev pub public_of : User → PublicUser
public_of u = record {
  id = u.id;
  email = u.email;
  avatar = u.avatar;
  username = u.username;
  public_key = u.public_key;
  accepted_terms = u.accepted_terms;
  bio = u.bio;
  facebook_link = u.facebook_link;
  twitter_link = u.twitter_link;
  telegram_link = u.telegram_link;
  short_link = u.short_link;
  discord_link = u.discord_link;
  web_url = u.web_url;
  cover_image = u.cover_image;
  followers = u.followers;
  following = u.following;
  account_status = u.account_status;
  verify_email = u.verify_email;
  is_active = u.is_active;
}

abbrev pub user_select_full : User → SelectedUser
user_select_full u = record {
  public = public_of u;
  signature = u.signature;
  signed_message = u.signed_message;
  signer = u.signer;
}

-- `user && user.length > 0 ? user[0].isFollow : false`
abbrev pub is_followed : List Bool → Bool
is_followed [] = false
is_followed (flag ∷ flags) = flag

abbrev pub has_text : (String → String → Bool) → String → Option String → Bool
has_text contains part none = false
has_text contains part (some text) = contains text part

abbrev pub found_by : (String → String → Bool) → Option String → User → Bool
found_by contains search u =
    if truthy search
    then elim search [
      | none ↦ true
      | some part ↦
          has_text contains part u.username
          || (has_text contains part u.email
              || (contains u.signer part || has_text contains part u.short_link))
    ]
    else true

abbrev pub is_given : Option String → Bool
is_given none = false
is_given (some text) = true

-- `whereCondition` of `findAll`
unfoldable pub user_where : (String → String → Bool) → Option String → User → Bool
user_where contains search u = found_by contains search u && (is_given u.username && u.is_active)

-- The condition of a profile; `equals` is the database's equality of texts in any case.
unfoldable pub profile_where : (String → Option ℕ) → (String → String → Bool) → String → User → Bool
profile_where valid_uuid equals input u = elim (valid_uuid input) [
  | some id ↦ has_id id u && u.is_active
  | none ↦
      (has_text equals input u.short_link || equals u.signer (to_lower_case input)) && u.is_active
]

-- `minifyUserObject`
abbrev pub minify_user_object : SelectedUser → List Bool → Profile
minify_user_object u flags = minified u.public (is_followed flags)

module _ (prisma : Prisma) where
  -- The rows of `user` that are selected: none where nobody is signed in.
  unfoldable pub follow_flags : Option ℕ → User → Db → List Bool
  follow_flags none u db = []
  follow_flags (some current_user_id) u db =
      map (λ (f : UserFollow). f.is_follow)
        (prisma.find_many (is_pair u.id current_user_id) db.follows)

  abbrev pub shown_to : Option ℕ → Db → User → ShownUser
  unfolding follow_flags
  shown_to current db u = record {
    row = user_select_full u;
    is_followed = is_followed (follow_flags current u db);
  }

  -- `findAll`
  unfoldable pub find_all_users : (String → String → Bool) → UserFilter → Option ℕ → Db → UserPage
  unfolding user_where follow_flags find_on_page has_next_page
  find_all_users contains filter current db =
      let where_condition = user_where contains filter.search in
      record {
        rows = map (shown_to current db) (
            find_on_page prisma filter.page filter.limit filter.direction where_condition db.users);
        has_next = has_next_page prisma filter.page filter.limit where_condition db.users;
      }

  -- `getProfileWithShortLinkOrIdUser`
  unfoldable pub get_profile :
      (String → Option ℕ) → (String → String → Bool) → String → Option ℕ → Db → Outcome Profile
  unfolding profile_where follow_flags
  get_profile valid_uuid equals input current db =
      elim (prisma.find_first (profile_where valid_uuid equals input) db.users) [
        | none ↦ failed "Not Found"
        | some u ↦
            let flags = follow_flags current u db in
            done (elim current [
              | none ↦ minify_user_object (user_select_full u) flags
              | some current_user_id ↦
                  if current_user_id == u.id
                  then own (user_select_full u) flags
                  else minify_user_object (user_select_full u) flags
            ])
      ]
