-- ===== src/User/Tests.antt =====
-- Runs of `followUser`, and the theorems on the handlers at concrete tables.
use u2u_marketplace_api.Common.{
  Bool, map_where, ℕ, String, ◌≡◌, refl, true, false, not, Option, none, some, [], ◌∷◌, All, find,
  arith,
}
use u2u_marketplace_api.Common.Int.{ℤ, pos, ◌+ℤ◌}
use u2u_marketplace_api.Database.Listed.{listed}
use u2u_marketplace_api.Database.Schema.{User, Db, success, done}
use u2u_marketplace_api.Metric.{UserMetric, num, level}
use u2u_marketplace_api.Metric.Handlers.{
  CollectionCount, has_id, collection_metric, handle_metric_user, handle_metric_free_mint,
}
use u2u_marketplace_api.Metric.Sound.{IsSound, handle_metric_user-IsSound}
use u2u_marketplace_api.Metric.Minted.{handle_metric_free_mint-IsSound}
use u2u_marketplace_api.User.Follow.{is_pair, is_following, names_user, follow_user}
use u2u_marketplace_api.User.Counts.{IsCounted, OnePair}
use u2u_marketplace_api.User.Followers.{follow_user-IsCounted}
use u2u_marketplace_api.User.Profile.{UpdateUser, apply_update, taken, update_profile}
use u2u_marketplace_api.User.Unique.{update_profile-writes}
use u2u_marketplace_api.User.Verify.{Claims, Checked, check_list_verify}
use u2u_marketplace_api.User.Toggles.{follow_user-answers}
use u2u_marketplace_api.Common.{map, Memᴰ, All, if◌then◌else◌, ◌===◌, String_eq}
use u2u_marketplace_api.User.Follow.{toggle_follow, count_follow}
use u2u_marketplace_api.Metric.Handlers.{handle_metric}
use u2u_marketplace_api.Metric.{count_followers, js_lt}
use u2u_marketplace_api.Common.Int.{◌+ℤ◌}
use u2u_marketplace_api.User.Listing.{
  ShownUser, UserFilter, desc, public_of, user_select_full, user_where, find_all_users, get_profile,
}
use u2u_marketplace_api.User.Shown.{IsSearched, find_all_users_sound, get_profile-follow_user}

abbrev no_points : UserMetric
no_points = record {
  metric_point = pos 0;
  metric_detail = record {
    verified = pos 0;
    followers = record { level = level "follower_lv0" (num (pos 0)) 0; total = 0 };
    collection_metric = pos 0;
    volume_individual = pos 0;
  };
}

abbrev user : ℕ → String → ℤ → ℤ → User
user id signer followers following = record {
  id = id;
  signer = signer;
  public_key = none;
  signature = none;
  signed_message = none;
  email = none;
  username = none;
  short_link = none;
  accepted_terms = false;
  bio = none;
  avatar = none;
  cover_image = none;
  web_url = none;
  facebook_link = none;
  twitter_link = none;
  telegram_link = none;
  discord_link = none;
  followers = followers;
  following = following;
  account_status = false;
  verify_email = false;
  is_active = true;
  metric = no_points;
}

abbrev ann : User
ann = user 1 "0xa" (pos 0) (pos 1)

abbrev bob : User
bob = user 2 "0xb" (pos 1) (pos 0)

abbrev tables : Db
tables = record {
  users = ann ∷ bob ∷ [];
  follows = record { user_id = 2; follower_id = 1; is_follow = true } ∷ [];
  nfts =
      record {
        id = "7";
        u2u_id = none;
        name = "Seven";
        name_slug = none;
        image = none;
        animation_url = none;
        status = success;
        token_uri = "ipfs://7";
        tx_creation_hash = "0x7";
        is_active = true;
        collection_id = 1;
        creator_id = some 2;
        metric = record { metric_point = pos 0; user_metric = pos 0; volume_individual = pos 0 };
      }
      ∷ [];
  collections = [];
  user_nfts = [];
  user_collections = [];
  statuses = [];
  projects = [];
  subscriptions = [];
}

abbrev unknown : String → Option CollectionCount
unknown address = none

abbrev no_uuid : String → Option ℕ
no_uuid text = none

unfollowed : (follow_user listed unknown no_uuid "0xb" 1 tables).0 ≡ done false
unfolding follow_user
unfollowed = refl

one_pair : OnePair tables.follows
one_pair a b = ground arith

tables-IsCounted : IsCounted tables
tables-IsCounted = (((refl, refl), ((refl, refl), tt)), one_pair)

follow_user-IsCounted_example : IsCounted (follow_user listed unknown no_uuid "0xb" 1 tables).1
follow_user-IsCounted_example =
    follow_user-IsCounted listed unknown no_uuid "0xb" 1 tables tables-IsCounted

bob_found : find (names_user no_uuid "0xb") tables.users ≡ some bob
unfolding names_user
bob_found = refl

follow_user-answers_example :
    (follow_user listed unknown no_uuid "0xb" 1 tables).0
    ≡ done (not (is_following (find (is_pair 2 1) tables.follows)))
follow_user-answers_example =
    follow_user-answers listed unknown no_uuid "0xb" 1 tables bob bob_found refl refl

tables-IsSound : IsSound tables
unfolding ◌+ℤ◌
tables-IsSound = (
  (
    (refl, omega arith, omega arith, omega arith),
    ((refl, omega arith, omega arith, omega arith), tt),
  ),
  ((refl, omega arith), tt),
)

handle_metric_user-IsSound_example :
    IsSound (handle_metric_user listed collection_metric 2 (some 1) tables)
handle_metric_user-IsSound_example =
    handle_metric_user-IsSound listed collection_metric 2 (some 1) tables tt tables-IsSound

handle_metric_free_mint-IsSound_example :
    IsSound (handle_metric_free_mint listed "7" 1 2 "5000000000000000000000" tables)
handle_metric_free_mint-IsSound_example =
    handle_metric_free_mint-IsSound listed "7" 1 2 "5000000000000000000000" tables tables-IsSound

-- A price of the second level, compared as a text, is not below that of the third either.
minted :
    map
      (λ (u : User). u.metric.metric_point)
      (handle_metric_free_mint listed "7" 1 2 "5000000000000000000000" tables).users
    ≡ pos 0 ∷ pos 6 ∷ []
unfolding handle_metric_free_mint ◌+ℤ◌ js_lt
minted = refl

abbrev input : UpdateUser
input = record {
  email = some "ann@x.org";
  username = some "ann";
  short_link = none;
  accepted_terms = none;
  bio = some "b";
  avatar = none;
  cover_image = none;
  web_url = none;
  facebook_link = none;
  twitter_link = none;
  telegram_link = none;
  discord_link = none;
}

abbrev carl : User
carl = record ann { email = some "ann@x.org" }

abbrev with_email : Db
with_email = record tables { users = carl ∷ bob ∷ [] }

update_profile-writes_example : update_profile listed input carl with_email ≡ (
  done (apply_update input carl carl),
  record with_email { users = map_where (has_id 1) (apply_update input carl) with_email.users },
)
unfolding taken
update_profile-writes_example =
    update_profile-writes listed input carl carl with_email refl (refl, (refl, tt)) refl refl refl
      refl refl

written : (update_profile listed input carl with_email).0 ≡ done (apply_update input carl carl)
unfolding update_profile
written = refl

abbrev token_of_carl : String → Option Claims
token_of_carl token = some (record { id = 1; exp = some 90 })

abbrev dora : User
dora = record (user 3 "0xd" (pos 0) (pos 0)) {
  bio = some "b";
  twitter_link = some "t";
  username = some "dora";
  avatar = some "a";
  verify_email = true;
  is_active = true;
}

abbrev with_dora : Db
with_dora = record tables { users = dora ∷ [] }

abbrev has_transfers : String → Option Bool
has_transfers signer = some true

abbrev complete : Checked
complete = record { fields = []; account_status = true }

accepted : (check_list_verify listed unknown has_transfers dora with_dora).0 ≡ done complete
unfolding check_list_verify
accepted = refl

abbrev anywhere : String → String → Bool
anywhere text part = true

abbrev all_of_them : UserFilter
all_of_them = record { search = some "a"; page = 1; limit = 10; direction = desc }

-- A user without a username is not listed.
abbrev with_names : Db
with_names = record tables { users = ann ∷ record bob { username = some "bob" } ∷ [] }

listed_users :
    (find_all_users listed anywhere all_of_them (some 1) with_names).rows
    ≡ record { row = user_select_full (record bob { username = some "bob" }); is_followed = true }
      ∷ []
unfolding find_all_users user_where
listed_users = refl

find_all_users_sound_example :
    All
      (λ (r : ShownUser).
        (u : User) × Memᴰ u with_names.users
        × (u.is_active ≡ true)
        × ((username : String) × (u.username ≡ some username))
        × IsSearched anywhere all_of_them.search u
        × (r.row ≡ user_select_full u)
        × (r.is_followed ≡ is_following (find (is_pair u.id 1) with_names.follows)))
      (find_all_users listed anywhere all_of_them (some 1) with_names).rows
find_all_users_sound_example = find_all_users_sound listed anywhere all_of_them 1 with_names

abbrev second : String → Option ℕ
second text = if text === "2" then some 2 else none

-- Bob is unfollowed, and Ann reads his profile.
get_profile-follow_user_example : false ≡ false
unfolding follow_user get_profile names_user toggle_follow count_follow handle_metric
    count_followers js_lt ◌+ℤ◌
get_profile-follow_user_example =
    get_profile-follow_user listed unknown second (λ text other. false) "0xb" "2" 1 tables bob false
      false (public_of (record bob { followers = pos 0 })) refl refl refl refl
