-- ===== src/User/Toggles.antt =====
-- What `followUser` (src/modules/user/user.service.ts) answers, and what the table of followers says
-- after it.
use u2u_marketplace_api.Common.{
  ℕ, String, ◌≡◌, refl, sym, ap, ◌∙◌, inl, inr, Bool, true, false, not, Option, none, some, List,
  [], ◌∷◌, ◌==◌, arith, Bool-cases, Option-cases, find, any, any-Memᴰ, ==_iff, map_where,
}
use u2u_marketplace_api.Common.Int.{ℤ, ◌+ℤ◌}
use u2u_marketplace_api.Database.{Prisma}
use u2u_marketplace_api.Database.Rows.{
  find-Memᴰ, find-append_new, find-map_where, any-map_where_same,
}
use u2u_marketplace_api.Database.Schema.{User, UserFollow, Nft, Db, done}
use u2u_marketplace_api.Metric.{count_followers, follower_levels, num, add_user}
use u2u_marketplace_api.Metric.Handlers.{
  CollectionCount, has_id, is_creator, followers, user_metric, update_user_metrics, update_nft,
  update_nfts, handle_metric_nft, user_case, handle_metric_user, handle_metric,
}
use u2u_marketplace_api.User.Follow.{
  is_pair, is_following, new_follow, set_follow, increment_of, toggle_follow, count_follow,
  follow_found, follow_user, names_user,
}
use u2u_marketplace_api.User.Counts.{toggle_follow-new, toggle_follow-old}

module _ (prisma : Prisma) where
  -- The row of the pair after the upsert is active exactly when it was not before.
  toggle_follow-flips :
      (a b : ℕ) (follows : List UserFollow)
      → ((toggle_follow prisma a b follows).0.is_follow
          ≡ not (is_following (find (is_pair a b) follows)))
        × (find (is_pair a b) (toggle_follow prisma a b follows).1
            ≡ some (toggle_follow prisma a b follows).0)
  toggle_follow-flips a b follows = elim (Option-cases (find (is_pair a b) follows)) [
    | inl n ↦
        rw (toggle_follow-new prisma a b follows n, n)
          (refl, find-append_new (is_pair a b) (new_follow a b) follows (ground arith) n)
    | inr (r, e) ↦
        rw (toggle_follow-old prisma a b follows r e, e)
          (
            refl,
            find-map_where (is_pair a b) (set_follow (not r.is_follow)) follows r (λ f. refl) e,
          )
  ]

  update_nfts-follows :
      (point : ℤ) (items : List Nft) (db : Db)
      → (update_nfts prisma point items db).follows ≡ db.follows
  unfolding update_nfts update_nft
  update_nfts-follows point [] db = refl
  update_nfts-follows point (item ∷ items) db =
      update_nfts-follows point items (update_nft prisma item (add_user point item.metric) db)

  handle_metric_nft-follows :
      (id : ℕ) (db : Db) → (handle_metric_nft prisma user_metric id db).follows ≡ db.follows
  unfolding handle_metric_nft
  handle_metric_nft-follows id db = elim (Option-cases (prisma.find_first (has_id id) db.users)) [
    | inl n ↦ rw (n, handle_metric_nft) refl
    | inr (user, e) ↦
        rw (e, handle_metric_nft)
          (update_nfts-follows user.metric.metric_point (prisma.find_many (is_creator id) db.nfts)
            db)
  ]

  handle_metric_user-follows :
      (id : ℕ) (db : Db) → (handle_metric_user prisma followers id none db).follows ≡ db.follows
  unfolding handle_metric_user user_case update_user_metrics
  handle_metric_user-follows id db = elim (Option-cases (prisma.find_first (has_id id) db.users)) [
    | inl n ↦ rw (n, handle_metric_user) refl
    | inr (user, e) ↦
        rw (e, handle_metric_user)
          (elim (Option-cases (count_followers follower_levels (num user.followers) user.metric)) [
            | inl n ↦ rw (n, user_case) refl
            | inr (m, k) ↦
                rw (k, user_case)
                  (handle_metric_nft-follows user.id (update_user_metrics prisma user.id m db))
          ])
  ]

done_inj : (a b : Bool) → done a ≡ done b → a ≡ b
done_inj a b h = cc h

module _ (prisma : Prisma) (get_collection_count : String → Option CollectionCount) where
  count_follow-done :
      (a b : ℕ) (flag answer : Bool) (db : Db)
      → (count_follow prisma get_collection_count a b flag db).0 ≡ done answer
      → (flag ≡ answer)
        × ((count_follow prisma get_collection_count a b flag db).1.follows ≡ db.follows)
  unfolding count_follow handle_metric
  count_follow-done a b flag answer db h =
      elim (Option-cases (
        prisma.update (has_id a)
          (λ (u : User). record u { followers = u.followers +ℤ increment_of flag }) db.users)) [
            | inl n ↦ absurd (cc (rw (n, count_follow) at h))
            | inr (half, e) ↦
                elim (Option-cases (
                  prisma.update (has_id b)
                    (λ (u : User). record u { following = u.following +ℤ increment_of flag })
                    half)) [
                      | inl n ↦ absurd (cc (rw (e, n, count_follow) at h))
                      | inr (users, k) ↦ (
                        done_inj flag answer (rw (e, k, count_follow) at h),
                        rw (e, k, count_follow)
                            (handle_metric_user-follows prisma a (record db { users = users })),
                      )
                    ]
          ]

  follow_found-done :
      (a b : ℕ) (answer : Bool) (db : Db)
      → (follow_found prisma get_collection_count a b db).0 ≡ done answer
      → (answer ≡ not (is_following (find (is_pair a b) db.follows)))
        × (is_following
              (find (is_pair a b) (follow_found prisma get_collection_count a b db).1.follows)
            ≡ answer)
  unfolding follow_found
  follow_found-done a b answer db h = elim (Bool-cases (a == b)) [
    | inl t ↦ absurd (cc (rw (t, follow_found) at h))
    | inr n ↦ elim (Bool-cases (any (has_id b) db.users)) [
      | inr f ↦ absurd (cc (rw (n, f, follow_found) at h))
      | inl t ↦
          let (row, found) = toggle_follow-flips prisma a b db.follows in
          let follows = (toggle_follow prisma a b db.follows).1 in
          let (flag, same) =
            count_follow-done a b (toggle_follow prisma a b db.follows).0.is_follow answer
              (record db { follows = follows }) (rw (n, t, follow_found) at h) in
          (sym flag ∙ row, rw (n, t, follow_found) (rw (same, found) flag))
    ]
  ]

  -- When `followUser` answers, it has changed what the follower does: the answer is that the
  -- follower now follows the user exactly when they did not before, and the table says the same.
  pub follow_user-done :
      (valid_uuid : String → Option ℕ) (id : String) (follower_id : ℕ) (db : Db) (user : User)
      (answer : Bool)
      → find (names_user valid_uuid id) db.users ≡ some user
      → (follow_user prisma get_collection_count valid_uuid id follower_id db).0 ≡ done answer
      → (answer ≡ not (is_following (find (is_pair user.id follower_id) db.follows)))
        × (is_following (
              find
                (is_pair user.id follower_id)
                (follow_user prisma get_collection_count valid_uuid id follower_id db).1.follows)
            ≡ answer)
  unfolding follow_user
  follow_user-done valid_uuid id follower_id db user answer e h =
      let found = prisma.find_first_law (names_user valid_uuid id) db.users ∙ e in
      rw (found, follow_user)
        (follow_found-done user.id follower_id answer db (rw (found, follow_user) at h))

  count_follow-answers :
      (a b : ℕ) (flag : Bool) (db : Db)
      → any (has_id a) db.users ≡ true
      → any (has_id b) db.users ≡ true
      → (count_follow prisma get_collection_count a b flag db).0 ≡ done flag
  unfolding count_follow
  count_follow-answers a b flag db ha hb =
      let up = λ (u : User). record u { followers = u.followers +ℤ increment_of flag } in
      let half = map_where (has_id a) up db.users in
      let there = any-map_where_same (has_id b) (has_id a) up db.users (λ u. refl) ∙ hb in
      rw
        (
          prisma.update_law (has_id a) up db.users,
          ha,
          prisma.update_law (has_id b)
              (λ (u : User). record u { following = u.following +ℤ increment_of flag }) half,
          there,
          count_follow,
        )
        refl

  -- `followUser` answers whenever it finds the user, the follower has a row, and they are not the
  -- same: with whether the follower follows the user now, the opposite of what the table said.
  pub follow_user-answers :
      (valid_uuid : String → Option ℕ) (id : String) (follower_id : ℕ) (db : Db) (user : User)
      → find (names_user valid_uuid id) db.users ≡ some user
      → any (has_id follower_id) db.users ≡ true
      → (user.id == follower_id) ≡ false
      → (follow_user prisma get_collection_count valid_uuid id follower_id db).0
        ≡ done (not (is_following (find (is_pair user.id follower_id) db.follows)))
  unfolding follow_user follow_found
  follow_user-answers valid_uuid id follower_id db user e there other =
      let found = prisma.find_first_law (names_user valid_uuid id) db.users ∙ e in
      let m = find-Memᴰ (names_user valid_uuid id) db.users e in
      let toggled = toggle_follow prisma user.id follower_id db.follows in
      rw (found, follow_user)
        (rw (other, there, follow_found)
          (count_follow-answers user.id follower_id toggled.0.is_follow
              (record db { follows = toggled.1 })
              (any-Memᴰ (has_id user.id) m ((==_iff user.id user.id).1 refl)) there
            ∙ ap done (toggle_follow-flips prisma user.id follower_id db.follows).0))
