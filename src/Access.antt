-- ===== src/Access.antt =====
-- src/shared/AccessControlService.ts and src/modules/auth/guards/role.guard.ts: the role
-- hierarchies of the back office, and the decision whether an account may call a handler.
pub mod Ranking
pub mod Decision
pub mod Masking
mod Tests
use u2u_marketplace_api.Common.{
  ℕ, ◌+◌, max, ◌≡◌, refl, ◌↔◌, Bool, true, false, ◌&&◌, ◌||◌, Option, none, some, List, [], ◌∷◌,
  arith, ltb, ◌==◌, if◌then◌else◌, Eq, insert, lookup,
}

-- `Role`
pub data Role : Type 0 where
  administrator admin_collection admin_blog creator admin_marketplace : Role
  admin_nft admin_launchpad admin_user viewer : Role

-- The position of a member in the enum: two members are the same text when it is the same.
abbrev pub position : Role → ℕ
position administrator = 0
position admin_collection = 1
position admin_blog = 2
position creator = 3
position admin_marketplace = 4
position admin_nft = 5
position admin_launchpad = 6
position admin_user = 7
position viewer = 8

abbrev pub same_role : Role → Role → Bool
same_role a b = position a == position b

pub same_role_iff : (a b : Role) → (same_role a b ≡ true) ↔ (a ≡ b)
same_role_iff a b = ground arith

instance abbrev pub Role_eq : Eq Role
Role_eq = record { beq = same_role; beq_iff = same_role_iff }

abbrev pub Hierarchy : Type 0
Hierarchy = List (Role × ℕ)

-- The loop of `buildRoles`, from the role at `index` on.
build_from : ℕ → Hierarchy → List Role → Hierarchy
build_from index hierarchy [] = hierarchy
build_from index hierarchy (role ∷ roles) =
    build_from (index + 1) (insert role (index + 1) hierarchy) roles

pub build_roles : List Role → Hierarchy
unfolding build_from
build_roles roles = build_from 0 [] roles

-- The chains that the constructor passes to `buildRoles`, each from the lowest role up.
abbrev pub chains : List (List Role)
chains =
    (viewer ∷ creator ∷ admin_blog ∷ administrator ∷ [])
    ∷ (viewer ∷ admin_collection ∷ admin_marketplace ∷ administrator ∷ [])
    ∷ (viewer ∷ admin_nft ∷ admin_marketplace ∷ administrator ∷ [])
    ∷ (viewer ∷ admin_user ∷ admin_marketplace ∷ administrator ∷ [])
    ∷ (viewer ∷ admin_launchpad ∷ administrator ∷ [])
    ∷ []

build_all : List (List Role) → List Hierarchy
unfolding build_roles
build_all [] = []
build_all (roles ∷ rest) = build_roles roles ∷ build_all rest

pub hierarchies : List Hierarchy
unfolding build_all
hierarchies = build_all chains

-- `hierarchy.get(role)`, 0 where it is undefined: both are falsy.
abbrev pub number : Option ℕ → ℕ
number none = 0
number (some n) = n

abbrev pub priority : Hierarchy → Role → ℕ
priority hierarchy role = number (lookup role hierarchy)

-- The two variables of `getHighestPermission`; `roleText` is none where it is ''.
pub record Highest : Type 0 where
  pub role_text : Option Role
  pub role_priority : ℕ

pub raise_to : Hierarchy → Highest → Role → Highest
raise_to hierarchy acc role =
    if ltb 0 (priority hierarchy role) && ltb acc.role_priority (priority hierarchy role)
    then record { role_text = some role; role_priority = priority hierarchy role }
    else acc

-- The inner loop, over the account's roles.
pub highest_in : Hierarchy → Highest → List Role → Highest
unfolding raise_to
highest_in hierarchy acc [] = acc
highest_in hierarchy acc (role ∷ roles) = highest_in hierarchy (raise_to hierarchy acc role) roles

-- The outer loop, over the hierarchies.
pub highest_over : List Hierarchy → Highest → List Role → Highest
unfolding highest_in
highest_over [] acc roles = acc
highest_over (hierarchy ∷ rest) acc roles = highest_over rest (highest_in hierarchy acc roles) roles

abbrev pub nobody : Highest
nobody = record { role_text = none; role_priority = 0 }

pub get_highest_permission : List Role → Highest
unfolding highest_over hierarchies
get_highest_permission current_role = highest_over hierarchies nobody current_role

-- `hierarchy.get(roleText)`
abbrev pub priority? : Hierarchy → Option Role → ℕ
priority? hierarchy none = 0
priority? hierarchy (some role) = priority hierarchy role

abbrev pub is_text : Option Role → Role → Bool
is_text none required = false
is_text (some role) required = same_role role required

-- The loop of `isAuthorized`: the first hierarchy that holds both roles decides.
pub scan : List Hierarchy → Highest → Role → ℕ → Bool
scan [] highest required m_required = false
scan (hierarchy ∷ rest) highest required m_required =
    let later = scan rest highest required m_required in
    let m = max (priority hierarchy required) m_required in
    if ltb 0 (priority hierarchy required) && ltb 0 (priority? hierarchy highest.role_text)
    then ltb 0 highest.role_priority
      && (ltb 0 m
          && (ltb m highest.role_priority
              || (highest.role_priority == m && is_text highest.role_text required)))
    else later

pub is_authorized : List Role → Role → Bool
unfolding get_highest_permission scan hierarchies
is_authorized current_role required =
    scan hierarchies (get_highest_permission current_role) required 0

-- `RoleGuard.canActivate`: one of the handler's required roles is enough.
pub can_activate : List Role → List Role → Bool
can_activate token_roles [] = false
can_activate token_roles (role ∷ required) =
    let later = can_activate token_roles required in
    if is_authorized token_roles role then true else later
