-- ===== src/Access/Decision.antt =====
-- `isAuthorized` (src/shared/AccessControlService.ts) against the order of the chains, and
-- `RoleGuard.canActivate` (src/modules/auth/guards/role.guard.ts).
use u2u_marketplace_api.Common.{
  ◌≤◌, ◌≡◌, refl, sym, ap, ◌∙◌, inl, inr, Bool, true, false, ◌&&◌, ◌||◌, some, List, [], ◌∷◌, Memᴰ,
  arith, any, Bool-cases,
}
use u2u_marketplace_api.Access.{
  Role, administrator, admin_collection, admin_blog, creator, admin_marketplace, admin_nft,
  admin_launchpad, admin_user, viewer, Highest, nobody, same_role, chains, hierarchies, scan,
  is_authorized, get_highest_permission, can_activate,
}
use u2u_marketplace_api.Access.Ranking.{rank, highest_of_Memᴰ, get_highest_permission-IsHighest}

-- `low` stands in the chain before `high`.
abbrev pub precedes : Role → Role → List Role → Bool
precedes low high [] = false
precedes low high (x ∷ chain) =
    same_role x low && any (same_role high) chain || precedes low high chain

-- In some chain of the constructor `role` stands above `required`.
pub outranks : Role → Role → Bool
outranks role required = any (precedes required role) chains

abbrev pub allows : Role → Role → Bool
allows role required = same_role role required || outranks role required

Memᴰ-single : {x y : Role} → Memᴰ y (x ∷ []) → y ≡ x
Memᴰ-single (Memᴰ.head e) = e
Memᴰ-single (Memᴰ.tail m) = elim m [ ]

abbrev pub highest_of : Role → Highest
highest_of x = record { role_text = some x; role_priority = rank x }

highest_single : (x : Role) → get_highest_permission (x ∷ []) ≡ highest_of x
highest_single x =
    let (y, m, e, _) = highest_of_Memᴰ (x ∷ []) {y = x} (Memᴰ.head refl) in
    e ∙ ap highest_of (Memᴰ-single m)

pub scan-highest_of : (x q : Role) → scan hierarchies (highest_of x) q 0 ≡ allows x q
unfolding scan hierarchies rank outranks
scan-highest_of administrator administrator = refl
scan-highest_of administrator _ = refl
scan-highest_of admin_collection administrator = refl
scan-highest_of admin_collection _ = refl
scan-highest_of admin_blog administrator = refl
scan-highest_of admin_blog _ = refl
scan-highest_of creator administrator = refl
scan-highest_of creator _ = refl
scan-highest_of admin_marketplace administrator = refl
scan-highest_of admin_marketplace _ = refl
scan-highest_of admin_nft administrator = refl
scan-highest_of admin_nft _ = refl
scan-highest_of admin_launchpad administrator = refl
scan-highest_of admin_launchpad _ = refl
scan-highest_of admin_user administrator = refl
scan-highest_of admin_user _ = refl
scan-highest_of viewer administrator = refl
scan-highest_of viewer _ = refl

scan-nobody : (q : Role) → scan hierarchies nobody q 0 ≡ false
unfolding scan hierarchies
scan-nobody administrator = refl
scan-nobody _ = refl

-- An account with the single role `role` is authorised for `required` exactly when the roles are
-- the same, or `role` stands above `required` in one of the chains.
pub is_authorized-single :
    (role required : Role) → is_authorized (role ∷ []) required ≡ allows role required
unfolding is_authorized
is_authorized-single role required = rw highest_single (scan-highest_of role required)

pub eq_highest :
    {r : Highest} {x : Role} → r.role_text ≡ some x → r.role_priority ≡ rank x → r ≡ highest_of x
eq_highest t p = ground arith

-- No account is authorised beyond its roles: whatever the list of roles, it is authorised for
-- `required` only if one of them is that role or stands above it in a chain.
pub is_authorized_sound :
    (roles : List Role) (required : Role)
    → is_authorized roles required ≡ true
    → (role : Role) × Memᴰ role roles × (allows role required ≡ true)
unfolding is_authorized
is_authorized_sound roles required h = elim (get_highest_permission-IsHighest roles).origin [
  | inl nothing ↦
      absurd
        (cc (scan-nobody required, ap (λ (r : Highest). scan hierarchies r required 0) nothing, h))
  | inr (x, m, t, p) ↦ (
    x,
    m,
    sym (scan-highest_of x required)
        ∙ ap (λ (r : Highest). scan hierarchies r required 0) (sym (eq_highest t p))
        ∙ h,
  )
]

allows-top : (x q : Role) → rank administrator ≤ rank x → allows x q ≡ true
unfolding rank hierarchies outranks
allows-top administrator administrator h = refl
allows-top administrator _ h = refl
allows-top _ q h = absurd (omega arith)

-- An administrator is authorised for every role, whatever other roles the account has.
pub administrator-is_authorized :
    (roles : List Role) (required : Role)
    → Memᴰ administrator roles
    → is_authorized roles required ≡ true
unfolding is_authorized
administrator-is_authorized roles required m =
    let (x, _, e, above) = highest_of_Memᴰ roles m in
    rw e (scan-highest_of x required ∙ allows-top x required above)

-- `RoleGuard` lets a request through only if the token holds a role that is one of the handler's
-- required roles or stands above it in a chain.
pub can_activate_sound :
    (token_roles required : List Role)
    → can_activate token_roles required ≡ true
    → (role needed : Role) × Memᴰ role token_roles
      × Memᴰ needed required
      × (allows role needed ≡ true)
unfolding can_activate
can_activate_sound token_roles [] h = absurd (cc h)
can_activate_sound token_roles (q ∷ required) h = elim (Bool-cases (is_authorized token_roles q)) [
  | inl yes' ↦
      let (r, m, a) = is_authorized_sound token_roles q yes' in (r, q, m, Memᴰ.head refl, a)
  | inr no' ↦
      let (r, n, m, k, a) = can_activate_sound token_roles required (rw (no', can_activate) at h) in
      (r, n, m, Memᴰ.tail k, a)
]
