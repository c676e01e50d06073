-- ===== src/User/Follow.antt =====
-- `followUser` of src/modules/user/user.service.ts.
use u2u_marketplace_api.Common.{
  ℕ, String, Bool, true, false, ◌&&◌, ◌||◌, not, Option, none, some, List, any, ◌==◌, if◌then◌else◌,
  ◌===◌, String_eq,
}
use u2u_marketplace_api.Common.Int.{ℤ, pos, negsuc, ◌+ℤ◌}
use u2u_marketplace_api.Database.{Prisma}
use u2u_marketplace_api.Database.Schema.{User, UserFollow, Db, Outcome, done, failed, refused}
use u2u_marketplace_api.Metric.Handlers.{CollectionCount, followers, of_user, has_id, handle_metric}

-- Equal to a column that may be null.
abbrev pub is_value : String → Option String → Bool
is_value s none = false
is_value s (some t) = t === s

abbrev pub is_pair : ℕ → ℕ → UserFollow → Bool
is_pair user_id follower_id f = (f.user_id == user_id) && (f.follower_id == follower_id)

-- `userFollowMatch?.isFollow`, where undefined is falsy
abbrev pub is_following : Option UserFollow → Bool
is_following none = false
is_following (some f) = f.is_follow

abbrev pub increment_of : Bool → ℤ
increment_of is_follow = if not is_follow then negsuc 0 else pos 1

-- The row of a pair that is added.
abbrev pub new_follow : ℕ → ℕ → UserFollow
new_follow user_id follower_id = record {
  user_id = user_id;
  follower_id = follower_id;
  is_follow = true;
}

abbrev pub set_follow : Bool → UserFollow → UserFollow
set_follow is_follow f = record f { is_follow = is_follow }

-- `isValidUUID` is a library's: the id that a text of this form stands for, none for another text.
unfoldable pub names_user : (String → Option ℕ) → String → User → Bool
names_user valid_uuid id u = elim (valid_uuid id) [
  | none ↦ (u.signer === id) || is_value id u.short_link
  | some uuid ↦ has_id uuid u
]

module _ (prisma : Prisma) where
  -- The upsert: the row of the pair after it, and the table.
  unfoldable pub toggle_follow : ℕ → ℕ → List UserFollow → UserFollow × List UserFollow
  toggle_follow user_id follower_id follows =
      let found = prisma.find_first (is_pair user_id follower_id) follows in
      prisma.upsert (is_pair user_id follower_id) (set_follow (not (is_following found)))
        (new_follow user_id follower_id) follows

module _ (prisma : Prisma) (get_collection_count : String → Option CollectionCount) where
  -- From the counters on. A user who is not there makes the update throw; the writes before it
  -- stay.
  unfoldable pub count_follow : ℕ → ℕ → Bool → Db → Outcome Bool × Db
  count_follow user_id follower_id is_follow db =
      let increment = increment_of is_follow in
      elim (prisma.update (has_id user_id) (λ u. record u { followers = u.followers +ℤ increment })
        db.users) [
          | none ↦ (refused, db)
          | some counted ↦
              elim (prisma.update (has_id follower_id)
                (λ u. record u { following = u.following +ℤ increment }) counted) [
                  | none ↦ (refused, record db { users = counted })
                  | some users ↦ (
                    done is_follow,
                    handle_metric prisma get_collection_count of_user followers user_id none
                        (record db { users = users }),
                  )
                ]
        ]

  -- `followUser` for the user that was found. The row of the pair refers to the follower, so the
  -- database refuses the upsert where the follower has no row.
  unfoldable pub follow_found : ℕ → ℕ → Db → Outcome Bool × Db
  unfolding toggle_follow count_follow
  follow_found user_id follower_id db =
      if user_id == follower_id
      then (failed "You cannot follow yourself", db)
      else elim (any (has_id follower_id) db.users) [
        | false ↦ (refused, db)
        | true ↦
            let (row, follows) = toggle_follow prisma user_id follower_id db.follows in
            count_follow user_id follower_id row.is_follow (record db { follows = follows })
      ]

  -- `followUser`; it answers with `isFollowed`.
  unfoldable pub follow_user : (String → Option ℕ) → String → ℕ → Db → Outcome Bool × Db
  unfolding follow_found names_user
  follow_user valid_uuid id follower_id db =
      elim (prisma.find_first (names_user valid_uuid id) db.users) [
        | none ↦ (failed "Not Found", db)
        | some user ↦ follow_found user.id follower_id db
      ]
