-- ===== src/User/Counts.antt =====
-- The upsert of `followUser` (src/modules/user/user.service.ts) and the rows of followers.
use u2u_marketplace_api.Common.{
  ℕ, ◌+◌, ◌≤◌, ◌≡◌, refl, sym, ap, ◌∙◌, inl, inr, Bool, true, ◌&&◌, not, none, some, List, [], ◌∷◌,
  ◌++◌, ◌==◌, arith, Option-cases, All, count, count-append, find, map_where,
}
use u2u_marketplace_api.Common.Int.{pos}
use u2u_marketplace_api.Database.{Prisma}
use u2u_marketplace_api.Database.Rows.{
  one_if, find-true, find-count, count-map_where, count-map_where_same,
}
use u2u_marketplace_api.Database.Schema.{User, UserFollow, Db}
use u2u_marketplace_api.User.Follow.{is_pair, is_following, new_follow, set_follow, toggle_follow}

-- Another user follows the user with this id now.
abbrev pub tracks : ℕ → UserFollow → Bool
tracks id f = (f.user_id == id) && f.is_follow

-- The user with this id follows another now.
abbrev pub tracked_by : ℕ → UserFollow → Bool
tracked_by id f = (f.follower_id == id) && f.is_follow

abbrev pub CountsOf : List UserFollow → User → Type 0
CountsOf follows u =
    (u.followers ≡ pos (count (tracks u.id) follows))
    × (u.following ≡ pos (count (tracked_by u.id) follows))

-- The key of the table: a pair has one row.
abbrev pub OnePair : List UserFollow → Type 0
OnePair follows = (a b : ℕ) → count (is_pair a b) follows ≤ 1

abbrev pub IsCounted : Db → Type 0
IsCounted db = All (CountsOf db.follows) db.users × OnePair db.follows

pub pair-parts :
    (a b : ℕ) (f : UserFollow) → is_pair a b f ≡ true → (f.user_id ≡ a) × (f.follower_id ≡ b)
pair-parts a b f h = (ground (arith, h), ground (arith, h))

module _ (prisma : Prisma) where
  pub toggle_follow-new :
      (a b : ℕ) (follows : List UserFollow)
      → find (is_pair a b) follows ≡ none
      → toggle_follow prisma a b follows ≡ (new_follow a b, follows ++ new_follow a b ∷ [])
  unfolding toggle_follow
  toggle_follow-new a b follows e =
      ap
        (λ found.
          prisma.upsert (is_pair a b) (set_follow (not (is_following found))) (new_follow a b)
            follows)
        (prisma.find_first_law (is_pair a b) follows ∙ e)
      ∙ prisma.upsert_law (is_pair a b) (set_follow true) (new_follow a b) follows
      ∙ rw e refl

  pub toggle_follow-old :
      (a b : ℕ) (follows : List UserFollow) (r : UserFollow)
      → find (is_pair a b) follows ≡ some r
      → toggle_follow prisma a b follows ≡ (
        set_follow (not r.is_follow) r,
        map_where (is_pair a b) (set_follow (not r.is_follow)) follows,
      )
  unfolding toggle_follow
  toggle_follow-old a b follows r e =
      ap
        (λ found.
          prisma.upsert (is_pair a b) (set_follow (not (is_following found))) (new_follow a b)
            follows)
        (prisma.find_first_law (is_pair a b) follows ∙ e)
      ∙ prisma.upsert_law (is_pair a b) (set_follow (not r.is_follow)) (new_follow a b) follows
      ∙ rw e refl

  -- How the upsert changes the number of current rows with `x` in a column, which holds `c` in the
  -- rows of the pair.
  module _ (column : UserFollow → ℕ) (a b c x : ℕ)
      (of_pair : (f : UserFollow) → is_pair a b f ≡ true → column f ≡ c)
      (of_new : column (new_follow a b) ≡ c)
      (same : (f : UserFollow) (flag : Bool) → column (set_follow flag f) ≡ column f) where
    abbrev active : UserFollow → Bool
    active f = (column f == x) && f.is_follow

    pub toggle_follow-count :
        (follows : List UserFollow)
        → count (is_pair a b) follows ≤ 1
        → count active (toggle_follow prisma a b follows).1
            + one_if ((c == x) && not (toggle_follow prisma a b follows).0.is_follow)
          ≡ count active follows
            + one_if ((c == x) && (toggle_follow prisma a b follows).0.is_follow)
    toggle_follow-count follows one = elim (Option-cases (find (is_pair a b) follows)) [
      | inl n ↦
          rw (toggle_follow-new a b follows n)
            (ground (arith, count-append active follows (new_follow a b ∷ []), of_new))
      | inr (r, e) ↦
          let change =
            count-map_where (is_pair a b) active (set_follow (not r.is_follow)) follows one e in
          let old = of_pair r (find-true (is_pair a b) follows e) in
          rw (toggle_follow-old a b follows r e)
            (ground (arith, change, old, same r (not r.is_follow)))
    ]

  pub toggle_follow-OnePair :
      (a b : ℕ) (follows : List UserFollow)
      → OnePair follows
      → OnePair (toggle_follow prisma a b follows).1
  toggle_follow-OnePair a b follows one x y = elim (Option-cases (find (is_pair a b) follows)) [
    | inl n ↦ rw (toggle_follow-new a b follows n) (
        ground
          (arith, count-append (is_pair x y) follows (new_follow a b ∷ []), one x y, none_yet n))
    | inr (r, e) ↦ rw (toggle_follow-old a b follows r e) (
        omega (
          arith,
          count-map_where_same (is_pair a b) (is_pair x y) (set_follow (not r.is_follow)) follows
              (λ f h. refl),
          one x y,
        ))
  ]
    where
      none_yet : find (is_pair a b) follows ≡ none → a ≡ x → b ≡ y → count (is_pair x y) follows ≡ 0
      none_yet n p q =
          ap (λ c. count (is_pair c y) follows) (sym p)
          ∙ ap (λ d. count (is_pair a d) follows) (sym q)
          ∙ find-count (is_pair a b) follows n
