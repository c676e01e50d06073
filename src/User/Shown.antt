-- ===== src/User/Shown.antt =====
-- What the lists and profiles of src/modules/user/user.service.ts show, and to whom.
use u2u_marketplace_api.Common.{
  ℕ, ◌≤◌, String, ◌≡◌, refl, sym, ap, ◌∙◌, inl, inr, Bool, true, Option, some, List, [], ◌∷◌, ◌==◌,
  map, ℕ_eq, Bool-cases, Option-cases, find, filter, count, Memᴰ, All, All-at, All-Memᴰ, map-Memᴰ,
  String_eq, arith, none, ◌&&◌, ◌===◌, ◌⊎◌,
}
use u2u_marketplace_api.Database.{Prisma}
use u2u_marketplace_api.Database.Rows.{find_only, find-true}
use u2u_marketplace_api.Database.Schema.{User, UserFollow, Db, done}
use u2u_marketplace_api.Metric.Handlers.{CollectionCount}
use u2u_marketplace_api.Paging.Pages.{find_on_page, page-Memᴰ}
use u2u_marketplace_api.Session.{Redis}
use u2u_marketplace_api.Session.Auth.{
  LoginDto, login_message, is_signature_valid, has_public_key, validate_user, login, connect,
}
use u2u_marketplace_api.User.Follow.{is_pair, is_following, names_user, follow_user}
use u2u_marketplace_api.User.Toggles.{follow_user-done}
use u2u_marketplace_api.User.Listing.{
  has_text, found_by, is_given, ShownUser, UserFilter, public_of, PublicUser, minified, is_followed,
  user_select_full, user_where, profile_where, shown_to, follow_flags, find_all_users, get_profile,
}

is_followed-first :
    (p : UserFollow → Bool) (follows : List UserFollow)
    → is_followed (map (λ (f : UserFollow). f.is_follow) (filter p follows))
      ≡ is_following (find p follows)
is_followed-first p [] = refl
is_followed-first p (f ∷ follows) = elim (Bool-cases (p f)) [
  | inl t ↦ rw t refl
  | inr n ↦ rw n (is_followed-first p follows)
]

-- A column has a text with this part in it.
abbrev pub HasPart : (String → String → Bool) → String → Option String → Type 0
HasPart contains part column = (text : String) × (column ≡ some text) × (contains text part ≡ true)

-- The search, where it is not empty, is a part of the username, the email, the signer or the link.
abbrev pub IsSearched : (String → String → Bool) → Option String → User → Type 0
IsSearched contains none u = Unit
IsSearched contains (some part) u =
    (part ≡ "")
    ⊎ (HasPart contains part u.username
        ⊎ (HasPart contains part u.email
            ⊎ ((contains u.signer part ≡ true) ⊎ HasPart contains part u.short_link)))

has_text-HasPart :
    (contains : String → String → Bool) (part : String) (column : Option String)
    → has_text contains part column ≡ true
    → HasPart contains part column
has_text-HasPart contains part none h = absurd (cc h)
has_text-HasPart contains part (some text) h = (text, refl, h)

found_by-IsSearched :
    (contains : String → String → Bool) (search : Option String) (u : User)
    → found_by contains search u ≡ true
    → IsSearched contains search u
found_by-IsSearched contains none u h = tt
found_by-IsSearched contains (some part) u h = elim (Bool-cases (part === "")) [
  | inl e ↦ inl ((String_eq.beq_iff part "").0 e)
  | inr f ↦ elim (Bool-cases (has_text contains part u.username)) [
    | inl t ↦ inr (inl (has_text-HasPart contains part u.username t))
    | inr g ↦ elim (Bool-cases (has_text contains part u.email)) [
      | inl t ↦ inr (inr (inl (has_text-HasPart contains part u.email t)))
      | inr k ↦ elim (Bool-cases (contains u.signer part)) [
        | inl t ↦ inr (inr (inr (inl t)))
        | inr l ↦
            inr
              (inr (inr (inr (has_text-HasPart contains part u.short_link (rw (f, g, k, l) at h)))))
      ]
    ]
  ]
]

given : (column : Option String) → is_given column ≡ true → (text : String) × (column ≡ some text)
given none h = absurd (cc h)
given (some text) h = (text, refl)

all_true : (a b c : Bool) → (a && (b && c)) ≡ true → (a ≡ true) × (b ≡ true) × (c ≡ true)
all_true a b c h = ground arith

module _ (prisma : Prisma) where
  -- The flag of a profile is what the table of follows says of the pair.
  follow_flags-following :
      (me : ℕ) (u : User) (db : Db)
      → is_followed (follow_flags prisma (some me) u db)
        ≡ is_following (find (is_pair u.id me) db.follows)
  unfolding follow_flags
  follow_flags-following me u db =
      rw (prisma.find_many_law (is_pair u.id me) db.follows)
        (is_followed-first (is_pair u.id me) db.follows)

  -- Each user that the list shows is a row of the table that is active and has a username, the search,
  -- where it is given and not empty, is a part of the username, the email, the signer or the short
  -- link, in the database's sense, and the flag says whether the caller follows them.
  pub find_all_users_sound :
      (contains : String → String → Bool) (filter : UserFilter) (me : ℕ) (db : Db)
      → All
          (λ (r : ShownUser).
            (u : User) × Memᴰ u db.users
            × (u.is_active ≡ true)
            × ((username : String) × (u.username ≡ some username))
            × IsSearched contains filter.search u
            × (r.row ≡ user_select_full u)
            × (r.is_followed ≡ is_following (find (is_pair u.id me) db.follows)))
          (find_all_users prisma contains filter (some me) db).rows
  unfolding find_all_users user_where
  find_all_users_sound contains filter me db =
      let rows =
        find_on_page prisma filter.page filter.limit filter.direction
          (user_where contains filter.search) db.users in
      let shown = shown_to prisma (some me) db in
      All-Memᴰ _ (map shown rows) (λ r m.
        let (u, k, e) = map-Memᴰ shown rows m in
        let (inside, t) =
          page-Memᴰ prisma filter.page filter.limit filter.direction
            (user_where contains filter.search) db.users u k in
        let (found, named, active) =
          all_true (found_by contains filter.search u) (is_given u.username) u.is_active t in
        (
          u,
          inside,
          active,
          given u.username named,
          found_by-IsSearched contains filter.search u found,
          ap (λ (x : ShownUser). x.row) e,
          ap (λ (x : ShownUser). x.is_followed) e ∙ follow_flags-following me u db,
        ))

  module _ (get_collection_count : String → Option CollectionCount) (valid_uuid : String → Option ℕ)
      (equals : String → String → Bool) where
    -- After `followUser` answers, the profile of the user that was followed or unfollowed, read by
    -- its id and by the one who asked, has the answer as its flag.
    pub get_profile-follow_user :
        (id input : String) (follower_id : ℕ) (db : Db) (user : User) (answer flag : Bool)
        (shown : PublicUser)
        → find (names_user valid_uuid id) db.users ≡ some user
        → valid_uuid input ≡ some user.id
        → (follow_user prisma get_collection_count valid_uuid id follower_id db).0 ≡ done answer
        → get_profile prisma valid_uuid equals input
            (some follower_id)
            (follow_user prisma get_collection_count valid_uuid id follower_id db).1
          ≡ done (minified shown flag)
        → flag ≡ answer
    unfolding get_profile profile_where
    get_profile-follow_user id input follower_id db user answer flag shown named uuid answers read =
        let after = (follow_user prisma get_collection_count valid_uuid id follower_id db).1 in
        let (_, row) =
          follow_user-done prisma get_collection_count valid_uuid id follower_id db user answer
            named answers in
        let p = profile_where valid_uuid equals input in
        elim (Option-cases (prisma.find_first p after.users)) [
          | inl n ↦ absurd (cc (rw (n, get_profile) at read))
          | inr (u, e) ↦
              let t = find-true p after.users (sym (prisma.find_first_law p after.users) ∙ e) in
              let own_id : u.id ≡ user.id = named_by u user.id uuid t in
              elim (Bool-cases (follower_id == u.id)) [
                | inl same ↦ absurd (cc (rw (e, same, get_profile) at read))
                | inr other ↦
                    let same : done (
                          minified (public_of u)
                            (is_followed (follow_flags prisma (some follower_id) u after)))
                        ≡ done (minified shown flag) =
                      rw (e, other, get_profile) at read in
                    let flag_is : is_followed (follow_flags prisma (some follower_id) u after)
                        ≡ flag =
                      cc same in
                    sym flag_is ∙ (follow_flags-following follower_id u after ∙ rw own_id row)
              ]
        ]
      where
        named_by :
            (u : User) (uuid : ℕ)
            → valid_uuid input ≡ some uuid
            → profile_where valid_uuid equals input u ≡ true
            → u.id ≡ uuid
        named_by u uuid e t = let s = rw (e, profile_where) at t in ground arith

  module _ (redis : Redis) (verify_message : String → String → Option String)
      (is_date : String → Bool) (sign : ℕ → String → ℕ → String) where
    open redis use {Store}

    -- The signature of a row is its key's, of the message in the row: what `validateUser` checks before
    -- it makes the row.
    abbrev pub IsSigned : User → Type 0
    IsSigned u =
        (date key signature : String)
        → u.signature ≡ some signature
        → u.signed_message ≡ some (login_message date)
        → u.public_key ≡ some key
        → is_signature_valid verify_message (login_message date) signature key ≡ true

    -- Whoever reads the list of users can sign in as a user on it: the row has the signature, the
    -- signed message and the public key, and `connect` with these makes the tokens of that user, at
    -- any later time and whatever signer is sent. The rows are signed, and no other user has the
    -- public key.
    pub find_all_users-connect :
        (contains : String → String → Bool) (filter : UserFilter) (current : Option ℕ) (db : Db)
        (r : ShownUser) (date key signature signer : String) (new_id now : ℕ) (store : Store)
        → Memᴰ r (find_all_users prisma contains filter current db).rows
        → r.row.signature ≡ some signature
        → r.row.signed_message ≡ some (login_message date)
        → r.row.public.public_key ≡ some key
        → All IsSigned db.users
        → count (has_public_key key) db.users ≤ 1
        → (user : User) × (user_select_full user ≡ r.row)
          × (connect redis prisma verify_message is_date sign
                (record { date = date; public_key = key; signature = signature; signer = signer })
                new_id
                now
                db
                store
              ≡ ((login redis sign user now store).0, db, (login redis sign user now store).1))
    unfolding find_all_users connect validate_user
    find_all_users-connect contains filter current db r date key signature signer new_id now store m
          s d k signed one =
        let rows =
          find_on_page prisma filter.page filter.limit filter.direction
            (user_where contains filter.search) db.users in
        let shown = shown_to prisma current db in
        let (user, on_page, e) = map-Memᴰ shown rows m in
        let (inside, _) =
          page-Memᴰ prisma filter.page filter.limit filter.direction
            (user_where contains filter.search) db.users user on_page in
        let row : user_select_full user ≡ r.row = sym (ap (λ (x : ShownUser). x.row) e) in
        let key_is : user.public_key ≡ some key = ap (λ x. x.public.public_key) row ∙ k in
        let valid =
          All-at IsSigned signed inside date key signature (ap (λ x. x.signature) row ∙ s)
            (ap (λ x. x.signed_message) row ∙ d) key_is in
        let found =
          prisma.find_first_law (has_public_key key) db.users
          ∙ find_only (has_public_key key) (has_public_key key) one (λ y t. t) inside
              (rw key_is ((String_eq.beq_iff key key).1 refl)) in
        let input : LoginDto = record {
          date = date;
          public_key = key;
          signature = signature;
          signer = signer;
        } in
        let checked : validate_user prisma verify_message is_date input new_id db
            ≡ (done user, db) =
          rw (valid, found, validate_user) refl in
        (user, row, rw (checked, connect) (rw checked refl))
