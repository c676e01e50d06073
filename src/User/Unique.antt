-- ===== src/User/Unique.antt =====
-- `updateProfile` (src/modules/user/user.service.ts) and the unique columns of the table of users.
use u2u_marketplace_api.Common.{
  String, ◌≡◌, refl, ◌∙◌, inl, inr, Bool, true, false, ◌&&◌, ◌||◌, not, Option, none, some, List,
  [], ◌∷◌, ◌===◌, String_eq, arith, if◌then◌else◌, Bool-cases, Option-cases, find, any, map_where,
  All,
}
use u2u_marketplace_api.Database.{Prisma}
use u2u_marketplace_api.Database.Rows.{find-map_where, find-none}
use u2u_marketplace_api.Database.Schema.{User, Db, done}
use u2u_marketplace_api.Metric.Handlers.{has_id}
use u2u_marketplace_api.User.Profile.{
  UpdateUser, truthy, or_kept, is_empty, apply_update, shares, clash, is_other, taken,
  write_profile, update_profile,
}

or_kept-shares :
    (new old other : Option String)
    → shares new other ≡ false
    → shares old other ≡ false
    → shares (or_kept new old) other ≡ false
or_kept-shares none old other h k = k
or_kept-shares (some s) old other h k = h

or_kept_if-shares :
    (b : Bool) (new old other : Option String)
    → (b ≡ true → shares new other ≡ false)
    → shares old other ≡ false
    → shares (if b then new else old) other ≡ false
or_kept_if-shares true new old other h k = h refl
or_kept_if-shares false new old other h k = k

-- None of three tests holds.
none_of : (a b c : Bool) → a ≡ false → b ≡ false → c ≡ false → (a || (b || c)) ≡ false
none_of a b c h k l = rw (h, k, l) refl

parts_of : (a b c : Bool) → (a || (b || c)) ≡ false → (a ≡ false) × (b ≡ false) × (c ≡ false)
parts_of false false false h = (refl, refl, refl)
parts_of true b c h = absurd (cc h)
parts_of false true c h = absurd (cc h)
parts_of false false true h = absurd (cc h)

-- The row shares no unique value with a user other than `user`.
abbrev pub Lone : User → User → User → Type 0
Lone user row o = (not (has_id user.id o) && clash row o) ≡ false

module _ (input : UpdateUser) (user : User) where
  abbrev Free : User → Type 0
  Free o =
      ((not (has_id user.id o) && shares input.email o.email) ≡ false)
      × ((not (has_id user.id o) && shares input.username o.username) ≡ false)
      × (truthy input.short_link ≡ true
          → (not (has_id user.id o) && shares input.short_link o.short_link) ≡ false)

  apply_update-Lone_one :
      (row o : User) → Free o → Lone user row o → Lone user (apply_update input user row) o
  unfolding apply_update
  apply_update-Lone_one row o (e, n, s) h = elim (Bool-cases (has_id user.id o)) [
    | inl t ↦ rw t refl
    | inr f ↦
        let (a, b, c) =
          parts_of (shares row.email o.email) (shares row.username o.username)
            (shares row.short_link o.short_link) (rw f at h) in
        rw f (
          none_of (shares (or_kept input.email row.email) o.email)
            (shares (or_kept input.username row.username) o.username)
            (shares (if truthy input.short_link then input.short_link else row.short_link)
              o.short_link)
            (or_kept-shares input.email row.email o.email (rw f at e) a)
            (or_kept-shares input.username row.username o.username (rw f at n) b)
            (or_kept_if-shares (truthy input.short_link) input.short_link row.short_link
              o.short_link (λ t. rw f at (s t)) c))
  ]

  apply_update-Lone :
      (row : User) (users : List User)
      → All Free users
      → All (Lone user row) users
      → any (λ o. not (has_id user.id o) && clash (apply_update input user row) o) users ≡ false
  apply_update-Lone row [] s h = refl
  apply_update-Lone row (o ∷ users) (s, ss) (h, hs) =
      rw (apply_update-Lone_one row o s h) (apply_update-Lone row users ss hs)

pub apply_update_id :
    (input : UpdateUser) (user x : User)
    → has_id user.id (apply_update input user x) ≡ has_id user.id x
unfolding apply_update
apply_update_id input user x = refl

All-false :
    (p : User → Bool) (users : List User) → any p users ≡ false → All (λ u. p u ≡ false) users
All-false p [] h = tt
All-false p (u ∷ users) h = elim (Bool-cases (p u)) [
  | inl t ↦ absurd (cc (rw (t, any) at h))
  | inr f ↦ (f, All-false p users (rw (f, any) at h))
]

module _ (prisma : Prisma) where
  -- What `checkUserExistence` says of a value that it was asked for.
  taken-false :
      (field : User → Option String) (value : Option String) (user : User) (db : Db)
      → is_empty value ≡ false
      → taken prisma field value user db ≡ false
      → All (λ (o : User). (not (has_id user.id o) && shares value (field o)) ≡ false) db.users
  unfolding taken
  taken-false field none user db n h = vacuous db.users
    where
      vacuous :
          (users : List User)
          → All (λ (o : User). (not (has_id user.id o) && shares none (field o)) ≡ false) users
      vacuous [] = tt
      vacuous (o ∷ users) = (ground arith, vacuous users)
  taken-false field (some value) user db n h =
      let other = is_other field value user.id in
      let law = prisma.find_first_law other db.users in
      elim (Option-cases (find other db.users)) [
        | inl e ↦ All-false other db.users (find-none other db.users e)
        | inr (u, e) ↦ absurd (cc (rw (n, law ∙ e, taken) at h))
      ]

  not_empty : (value : Option String) → truthy value ≡ true → is_empty value ≡ false
  not_empty none h = refl
  not_empty (some s) h = elim (Bool-cases (s === "")) [
    | inl t ↦ absurd (cc (rw (t, truthy) at h))
    | inr f ↦ f
  ]

  All-Free :
      (input : UpdateUser) (user : User) (users : List User)
      → All (λ (o : User). (not (has_id user.id o) && shares input.email o.email) ≡ false) users
      → All
          (λ (o : User). (not (has_id user.id o) && shares input.username o.username) ≡ false)
          users
      → (truthy input.short_link ≡ true
          → All
              (λ (o : User).
                (not (has_id user.id o) && shares input.short_link o.short_link) ≡ false)
              users)
      → All (Free input user) users
  All-Free input user [] e n s = tt
  All-Free input user (o ∷ users) (e, es) (n, ns) s =
      ((e, n, λ t. (s t).0), All-Free input user users es ns (λ t. (s t).1))

  -- `updateProfile` writes the profile whenever the user has a row, its unique values are no other
  -- user's, the email, the user name and the short link of the input are not found with another, and
  -- neither email nor user name is the empty text: the database refuses nothing, the answer is the
  -- changed row, and no other row changes.
  pub update_profile-writes :
      (input : UpdateUser) (user row : User) (db : Db)
      → find (has_id user.id) db.users ≡ some row
      → All (Lone user row) db.users
      → taken prisma (λ u. u.email) input.email user db ≡ false
      → taken prisma (λ u. u.username) input.username user db ≡ false
      → taken prisma (λ u. u.short_link) input.short_link user db ≡ false
      → is_empty input.email ≡ false
      → is_empty input.username ≡ false
      → update_profile prisma input user db ≡ (
        done (apply_update input user row),
        record db { users = map_where (has_id user.id) (apply_update input user) db.users },
      )
  unfolding update_profile write_profile
  update_profile-writes input user row db found lone te tn ts e n =
      let free =
        All-Free input user db.users (taken-false (λ u. u.email) input.email user db e te)
          (taken-false (λ u. u.username) input.username user db n tn)
          (λ t.
            taken-false (λ u. u.short_link) input.short_link user db (not_empty input.short_link t)
              ts) in
      let no_clash = apply_update-Lone input user row db.users free lone in
      let after = map_where (has_id user.id) (apply_update input user) db.users in
      let again =
        prisma.find_first_law (has_id user.id) after
        ∙ find-map_where (has_id user.id) (apply_update input user) db.users row
            (λ x. apply_update_id input user x) found in
      rw
        (
          te,
          tn,
          ts,
          e,
          prisma.update_unique_law clash (has_id user.id) (apply_update input user) db.users,
          found,
          no_clash,
          again,
          update_profile,
          write_profile,
        )
        refl
