-- ===== src/User/Followers.antt =====
-- `followUser` (src/modules/user/user.service.ts) and the counters of users.
use u2u_marketplace_api.Common.{
  ℕ, String, ◌+◌, ◌≡◌, refl, sym, ◌∙◌, inl, inr, Bool, true, false, ◌&&◌, not, Option, none, List,
  [], ◌∷◌, ◌==◌, arith, Bool-cases, Option-cases, All, count, any, any-Memᴰ, ==_iff, map_where,
}
use u2u_marketplace_api.Common.Int.{ℤ, pos, ◌+ℤ◌}
use u2u_marketplace_api.Database.{Prisma}
use u2u_marketplace_api.Database.Rows.{
  one_if, All-map_where, any-map_where, find-Memᴰ, updated-map_where,
}
use u2u_marketplace_api.Database.Schema.{User, UserFollow, Nft, Db}
use u2u_marketplace_api.Metric.{UserMetric, count_followers, follower_levels, num, add_user}
use u2u_marketplace_api.Metric.Handlers.{
  CollectionCount, has_id, is_creator, followers, user_metric, update_user_metrics, update_nft,
  update_nfts, handle_metric_nft, user_case, handle_metric_user, handle_metric,
}
use u2u_marketplace_api.User.Follow.{
  increment_of, toggle_follow, count_follow, follow_found, follow_user, names_user,
}
use u2u_marketplace_api.User.Counts.{
  tracks, tracked_by, CountsOf, OnePair, IsCounted, pair-parts, toggle_follow-count,
  toggle_follow-OnePair,
}

module _ (prisma : Prisma) where
  update_user_metrics-IsCounted :
      (id : ℕ) (m : UserMetric) (db : Db)
      → IsCounted db
      → IsCounted (update_user_metrics prisma id m db)
  unfolding update_user_metrics
  update_user_metrics-IsCounted id m db (us, one) = (
    rw (updated-map_where prisma (has_id id) (λ (u : User). record u { metric = m }) db.users) (
        All-map_where (CountsOf db.follows) (has_id id) (λ (u : User). record u { metric = m })
          db.users (λ u t h. h) (λ u f h. h) us),
    one,
  )

  update_nfts-IsCounted :
      (point : ℤ) (items : List Nft) (db : Db)
      → IsCounted db
      → IsCounted (update_nfts prisma point items db)
  unfolding update_nfts update_nft
  update_nfts-IsCounted point [] db h = h
  update_nfts-IsCounted point (item ∷ items) db h =
      update_nfts-IsCounted point items (update_nft prisma item (add_user point item.metric) db) h

  handle_metric_nft-IsCounted :
      (id : ℕ) (db : Db) → IsCounted db → IsCounted (handle_metric_nft prisma user_metric id db)
  unfolding handle_metric_nft
  handle_metric_nft-IsCounted id db h =
      elim (Option-cases (prisma.find_first (has_id id) db.users)) [
        | inl n ↦ rw (n, handle_metric_nft) h
        | inr (user, e) ↦
            rw (e, handle_metric_nft)
              (update_nfts-IsCounted user.metric.metric_point
                (prisma.find_many (is_creator id) db.nfts) db h)
      ]

  handle_metric_user-IsCounted :
      (id : ℕ) (db : Db) → IsCounted db → IsCounted (handle_metric_user prisma followers id none db)
  unfolding handle_metric_user user_case
  handle_metric_user-IsCounted id db h =
      elim (Option-cases (prisma.find_first (has_id id) db.users)) [
        | inl n ↦ rw (n, handle_metric_user) h
        | inr (user, e) ↦
            rw (e, handle_metric_user)
              (elim (Option-cases
                (count_followers follower_levels (num user.followers) user.metric)) [
                  | inl n ↦ rw (n, user_case) h
                  | inr (m, k) ↦
                      rw (k, user_case)
                        (handle_metric_nft-IsCounted user.id
                          (update_user_metrics prisma user.id m db)
                          (update_user_metrics-IsCounted user.id m db h))
                ])
      ]

-- The counters of the user once the first update is done.
abbrev HalfCounted : List UserFollow → List UserFollow → User → Type 0
HalfCounted before after u =
    (u.followers ≡ pos (count (tracks u.id) after))
    × (u.following ≡ pos (count (tracked_by u.id) before))

-- One more, or one less, where the flag says so.
counted_up :
    (flag b : Bool) (old new : ℕ) (n : ℤ)
    → new + one_if (b && not flag) ≡ old + one_if (b && flag)
    → n ≡ pos old
    → (b ≡ true → n +ℤ increment_of flag ≡ pos new) × (b ≡ false → n ≡ pos new)
unfolding ◌+ℤ◌
counted_up true true old new n h e = (λ t. ground (arith, h, e), λ f. absurd (cc f))
counted_up true false old new n h e = (λ t. absurd (cc t), λ f. ground (arith, h, e))
counted_up false true old new n h e = (λ t. ground (arith, h, e), λ f. absurd (cc f))
counted_up false false old new n h e = (λ t. absurd (cc t), λ f. ground (arith, h, e))

module _ (flag : Bool) (a b : ℕ) (before after : List UserFollow)
    (up : (x : ℕ)
      → count (tracks x) after + one_if ((a == x) && not flag)
        ≡ count (tracks x) before + one_if ((a == x) && flag))
    (down : (x : ℕ)
      → count (tracked_by x) after + one_if ((b == x) && not flag)
        ≡ count (tracked_by x) before + one_if ((b == x) && flag)) where
  abbrev add_follower : User → User
  add_follower u = record u { followers = u.followers +ℤ increment_of flag }

  abbrev add_following : User → User
  add_following u = record u { following = u.following +ℤ increment_of flag }

  add_follower-HalfCounted :
      (users : List User)
      → All (CountsOf before) users
      → All (HalfCounted before after) (map_where (has_id a) add_follower users)
  add_follower-HalfCounted users h =
      All-map_where (HalfCounted before after) (has_id a) add_follower users
        (λ u t (f, g). ((counted u f).0 (ground (arith, t)), g))
        (λ u n (f, g). ((counted u f).1 (ground (arith, n)), g)) h
    where
      counted :
          (u : User)
          → u.followers ≡ pos (count (tracks u.id) before)
          → ((a == u.id) ≡ true
              → u.followers +ℤ increment_of flag ≡ pos (count (tracks u.id) after))
            × ((a == u.id) ≡ false → u.followers ≡ pos (count (tracks u.id) after))
      counted u f =
          counted_up flag (a == u.id) (count (tracks u.id) before) (count (tracks u.id) after)
            u.followers (up u.id) f

  add_following-CountsOf :
      (users : List User)
      → All (HalfCounted before after) users
      → All (CountsOf after) (map_where (has_id b) add_following users)
  add_following-CountsOf users h =
      All-map_where (CountsOf after) (has_id b) add_following users
        (λ u t (f, g). (f, (counted u g).0 (ground (arith, t))))
        (λ u n (f, g). (f, (counted u g).1 (ground (arith, n)))) h
    where
      counted :
          (u : User)
          → u.following ≡ pos (count (tracked_by u.id) before)
          → ((b == u.id) ≡ true
              → u.following +ℤ increment_of flag ≡ pos (count (tracked_by u.id) after))
            × ((b == u.id) ≡ false → u.following ≡ pos (count (tracked_by u.id) after))
      counted u g =
          counted_up flag (b == u.id) (count (tracked_by u.id) before)
            (count (tracked_by u.id) after) u.following (down u.id) g

  module _ (prisma : Prisma) (get_collection_count : String → Option CollectionCount) where
    count_follow-IsCounted :
        (db : Db)
        → any (has_id a) db.users ≡ true
        → db.follows ≡ after
        → All (CountsOf before) db.users
        → OnePair after
        → IsCounted (count_follow prisma get_collection_count a b flag db).1
    unfolding count_follow handle_metric
    count_follow-IsCounted db found e h one =
        let half = map_where (has_id a) add_follower db.users in
        let all : All (CountsOf db.follows) (map_where (has_id b) add_following half) =
          rw e (add_following-CountsOf half (add_follower-HalfCounted db.users h)) in
        let pairs : OnePair db.follows = rw e one in
        elim (Bool-cases (any (has_id b) half)) [
          | inl t ↦
              rw
                (
                  prisma.update_law (has_id a) add_follower db.users,
                  found,
                  prisma.update_law (has_id b) add_following half,
                  t,
                  count_follow,
                )
                (handle_metric_user-IsCounted prisma a
                  (record db { users = map_where (has_id b) add_following half }) (all, pairs))
          | inr n ↦
              rw
                (
                  prisma.update_law (has_id a) add_follower db.users,
                  found,
                  prisma.update_law (has_id b) add_following half,
                  n,
                  count_follow,
                )
                (rw (any-map_where (has_id b) add_following half n) at all, pairs)
        ]

module _ (prisma : Prisma) (get_collection_count : String → Option CollectionCount)
    (valid_uuid : String → Option ℕ) where
  follow_found-IsCounted :
      (a b : ℕ) (db : Db)
      → any (has_id a) db.users ≡ true
      → IsCounted db
      → IsCounted (follow_found prisma get_collection_count a b db).1
  unfolding follow_found
  follow_found-IsCounted a b db found (h, one) = elim (Bool-cases (a == b)) [
    | inl t ↦ rw (t, follow_found) (h, one)
    | inr n ↦ elim (Bool-cases (any (has_id b) db.users)) [
      | inr f ↦ rw (n, f, follow_found) (h, one)
      | inl there ↦
          let follows = (toggle_follow prisma a b db.follows).1 in
          rw (n, there, follow_found)
            (count_follow-IsCounted (toggle_follow prisma a b db.follows).0.is_follow a b db.follows
              follows
              (λ x.
                toggle_follow-count prisma (λ f. f.user_id) a b a x (λ f p. (pair-parts a b f p).0)
                  refl (λ f flag. refl) db.follows (one a b))
              (λ x.
                toggle_follow-count prisma (λ f. f.follower_id) a b b x
                  (λ f p. (pair-parts a b f p).1) refl (λ f flag. refl) db.follows (one a b))
              prisma get_collection_count (record db { follows = follows }) found refl h
              (toggle_follow-OnePair prisma a b db.follows one))
    ]
  ]

  -- Following and unfollowing keep the counters, where they are right before: on every branch, the
  -- refusals included, each user's `followers` and `following` are the numbers of active rows that
  -- the table has for them, and a pair of users has one row at most.
  pub follow_user-IsCounted :
      (id : String) (follower_id : ℕ) (db : Db)
      → IsCounted db
      → IsCounted (follow_user prisma get_collection_count valid_uuid id follower_id db).1
  unfolding follow_user
  follow_user-IsCounted id follower_id db h =
      elim (Option-cases (prisma.find_first (names_user valid_uuid id) db.users)) [
        | inl n ↦ rw (n, follow_user) h
        | inr (user, e) ↦
            let m =
              find-Memᴰ (names_user valid_uuid id) db.users
                (sym (prisma.find_first_law (names_user valid_uuid id) db.users) ∙ e) in
            rw (e, follow_user)
              (follow_found-IsCounted user.id follower_id db
                (any-Memᴰ (has_id user.id) m ((==_iff user.id user.id).1 refl)) h)
      ]
