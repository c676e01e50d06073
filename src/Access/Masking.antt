-- ===== src/Access/Masking.antt =====
-- `isAuthorized` (src/shared/AccessControlService.ts) for accounts with several roles of one rank.
use u2u_marketplace_api.Common.{
  ◌≤◌, max, ◌≡◌, refl, sym, ap, ◌∙◌, inl, inr, List, [], ◌∷◌, Memᴰ, arith, All, All-at, All-map,
}
use u2u_marketplace_api.Access.{
  Role, administrator, admin_collection, admin_blog, creator, admin_marketplace, admin_nft,
  admin_launchpad, admin_user, viewer, Hierarchy, hierarchies, Highest, priority, nobody, raise_to,
  highest_in, highest_over, scan, get_highest_permission, is_authorized,
}
use u2u_marketplace_api.Access.Ranking.{rank_in, rank, highest_in-Found}
use u2u_marketplace_api.Access.Decision.{highest_of, eq_highest}

highest_in_skip :
    (h : Hierarchy) (acc : Highest) (roles : List Role)
    → All (λ x. priority h x ≤ acc.role_priority) roles
    → highest_in h acc roles ≡ acc
unfolding highest_in
highest_in_skip h acc [] b = refl
highest_in_skip h acc (x ∷ roles) (p, b) =
    let e : raise_to h acc x ≡ acc = unfold raise_to in ground arith in
    rw e (highest_in_skip h acc roles b)

highest_over_skip :
    (hs : List Hierarchy) (acc : Highest) (roles : List Role)
    → All (λ x. rank_in hs x ≤ acc.role_priority) roles
    → highest_over hs acc roles ≡ acc
unfolding highest_over rank_in
highest_over_skip [] acc roles b = refl
highest_over_skip (h ∷ hs) acc roles b =
    rw (highest_in_skip h acc roles (All-map _ (λ x p. omega arith) roles b))
      (highest_over_skip hs acc roles (All-map _ (λ x p. omega arith) roles b))

abbrev blog : Hierarchy
blog = (viewer, 1) ∷ (creator, 2) ∷ (admin_blog, 3) ∷ (administrator, 4) ∷ []

abbrev others : List Hierarchy
others =
    ((viewer, 1) ∷ (admin_collection, 2) ∷ (admin_marketplace, 3) ∷ (administrator, 4) ∷ [])
    ∷ ((viewer, 1) ∷ (admin_nft, 2) ∷ (admin_marketplace, 3) ∷ (administrator, 4) ∷ [])
    ∷ ((viewer, 1) ∷ (admin_user, 2) ∷ (admin_marketplace, 3) ∷ (administrator, 4) ∷ [])
    ∷ ((viewer, 1) ∷ (admin_launchpad, 2) ∷ (administrator, 3) ∷ [])
    ∷ []

rank_lem : (x : Role) → rank x ≡ max (priority blog x) (rank_in others x)
unfolding rank rank_in
rank_lem x = refl

-- Of the roles of rank at most 2, only the creator has it in the hierarchy of the blog.
creator-top : (x : Role) → rank x ≤ 2 → 2 ≤ priority blog x → x ≡ creator
unfolding rank hierarchies
creator-top creator r p = refl
creator-top administrator r p = absurd (omega arith)
creator-top _ r p = absurd (omega arith)

highest_in-blog :
    (roles : List Role)
    → All (λ x. rank x ≤ 2) roles
    → Memᴰ creator roles
    → highest_in blog nobody roles ≡ highest_of creator
unfolding rank hierarchies
highest_in-blog roles b m =
    let found = highest_in-Found blog nobody roles in
    let above =
      All-at (λ x. priority blog x ≤ (highest_in blog nobody roles).role_priority) found.bounds m in
    elim found.origin [
      | inl same ↦ absurd (omega (arith, above, ap (λ (r : Highest). r.role_priority) same))
      | inr (x, k, t, p) ↦
          let e = creator-top x (All-at (λ y. rank y ≤ 2) b k) (omega (arith, above, p)) in
          eq_highest (rw e at t) (omega (arith, above, p, ap (λ (y : Role). priority blog y) e))
    ]

highest_of_creator :
    (roles : List Role)
    → All (λ x. rank x ≤ 2) roles
    → Memᴰ creator roles
    → get_highest_permission roles ≡ highest_of creator
unfolding get_highest_permission highest_over rank_in rank
highest_of_creator roles b m =
    ap (λ h. highest_over others h roles) (highest_in-blog roles b m)
    ∙ highest_over_skip others (highest_of creator) roles
        (All-map _ (λ x p. omega (arith, rank_lem x)) roles b)

rank_creator : rank creator ≤ 2
unfolding rank hierarchies
rank_creator = omega arith

-- The creator's role masks the others of its rank: an account whose roles have at most rank 2, one
-- of them creator, is authorised as a creator alone is, whatever else it holds.
pub creator-masks :
    (roles : List Role) (required : Role)
    → All (λ x. rank x ≤ 2) roles
    → Memᴰ creator roles
    → is_authorized roles required ≡ is_authorized (creator ∷ []) required
unfolding is_authorized
creator-masks roles required b m =
    ap (λ h. scan hierarchies h required 0)
      (highest_of_creator roles b m
        ∙ sym (highest_of_creator (creator ∷ []) (rank_creator, tt) (Memᴰ.head refl)))
