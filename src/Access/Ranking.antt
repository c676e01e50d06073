-- ===== src/Access/Ranking.antt =====
-- The loops of `getHighestPermission` (src/shared/AccessControlService.ts) and the ranks of roles.
use u2u_marketplace_api.Common.{
  ℕ, ◌≤◌, ◌<◌, max, ◌≡◌, refl, ap, ◌∙◌, ◌⊎◌, inl, inr, some, List, [], ◌∷◌, Memᴰ, arith, All,
  All-at,
}
use u2u_marketplace_api.Access.{
  Role, Hierarchy, hierarchies, Highest, priority, nobody, raise_to, highest_in, highest_over,
  get_highest_permission,
}

-- The highest number that the hierarchies give to a role.
unfoldable pub rank_in : List Hierarchy → Role → ℕ
rank_in [] role = 0
rank_in (hierarchy ∷ rest) role = max (priority hierarchy role) (rank_in rest role)

unfoldable pub rank : Role → ℕ
unfolding rank_in hierarchies
rank role = rank_in hierarchies role

module _ (h : Hierarchy) (acc : Highest) (x : Role) where
  raise_to-bounds :
      (acc.role_priority ≤ (raise_to h acc x).role_priority)
      × (priority h x ≤ (raise_to h acc x).role_priority)
  unfolding raise_to
  raise_to-bounds = ground arith

  raise_to-origin :
      (raise_to h acc x ≡ acc)
      ⊎ (((raise_to h acc x).role_text ≡ some x)
          × ((raise_to h acc x).role_priority ≤ priority h x))
  unfolding raise_to
  raise_to-origin = ground arith

-- What a loop from `acc` has found, with `f` the numbers that it saw: no role is above the
-- result, and a new result is one of the account's roles.
pub record Found (f : Role → ℕ) (acc : Highest) (roles : List Role) (r : Highest) : Type 0 where
  pub keeps : acc.role_priority ≤ r.role_priority
  pub bounds : All (λ x. f x ≤ r.role_priority) roles
  pub origin :
      (r ≡ acc) ⊎ ((x : Role) × Memᴰ x roles × (r.role_text ≡ some x) × (r.role_priority ≤ f x))

pub highest_in-Found :
    (h : Hierarchy) (acc : Highest) (roles : List Role)
    → Found (priority h) acc roles (highest_in h acc roles)
unfolding highest_in
highest_in-Found h acc [] = record { keeps = omega arith; bounds = tt; origin = inl refl }
highest_in-Found h acc (x ∷ roles) =
    let step = highest_in-Found h (raise_to h acc x) roles in
    record {
      keeps = omega (arith, step.keeps, raise_to-bounds h acc x);
      bounds = (omega (arith, step.keeps, raise_to-bounds h acc x), step.bounds);
      origin = elim step.origin [
        | inl same ↦ elim (raise_to-origin h acc x) [
          | inl old ↦ inl (same ∙ old)
          | inr (t, p) ↦ inr (x, Memᴰ.head refl, rw same t, rw same p)
        ]
        | inr (y, m, t, p) ↦ inr (y, Memᴰ.tail m, t, p)
      ];
    }

-- A loop over no hierarchy sees nothing.
no_numbers : (p : ℕ) (roles : List Role) → All (λ _. 0 ≤ p) roles
no_numbers p [] = tt
no_numbers p (x ∷ roles) = (omega arith, no_numbers p roles)

join_bounds :
    (f g : Role → ℕ) (p q : ℕ) (roles : List Role)
    → q ≤ p
    → All (λ x. f x ≤ q) roles
    → All (λ x. g x ≤ p) roles
    → All (λ x. max (f x) (g x) ≤ p) roles
join_bounds f g p q [] le a b = tt
join_bounds f g p q (x ∷ roles) le (a, as') (b, bs) =
    (omega arith, join_bounds f g p q roles le as' bs)

highest_over-Found :
    (hs : List Hierarchy) (acc : Highest) (roles : List Role)
    → Found (rank_in hs) acc roles (highest_over hs acc roles)
unfolding highest_over rank_in
highest_over-Found [] acc roles = record {
  keeps = omega arith;
  bounds = no_numbers _ roles;
  origin = inl refl;
}
highest_over-Found (h ∷ hs) acc roles =
    let here = highest_in-Found h acc roles in
    let rest = highest_over-Found hs (highest_in h acc roles) roles in
    record {
      keeps = omega (arith, here.keeps, rest.keeps);
      bounds = join_bounds (priority h) (rank_in hs) _ _ roles rest.keeps here.bounds rest.bounds;
      origin = elim rest.origin [
        | inl same ↦ elim here.origin [
          | inl old ↦ inl (same ∙ old)
          | inr (y, m, t, p) ↦ inr (y, m, rw same t, rw same (omega arith))
        ]
        | inr (y, m, t, p) ↦ inr (y, m, t, omega arith)
      ];
    }

-- The result of `getHighestPermission`: nothing, or a role of the account whose rank is highest.
pub record IsHighest (roles : List Role) (r : Highest) : Type 0 where
  pub bounds : All (λ x. rank x ≤ r.role_priority) roles
  pub origin :
      (r ≡ nobody)
      ⊎ ((x : Role) × Memᴰ x roles × (r.role_text ≡ some x) × (r.role_priority ≡ rank x))

pub get_highest_permission-IsHighest :
    (roles : List Role) → IsHighest roles (get_highest_permission roles)
unfolding get_highest_permission rank
get_highest_permission-IsHighest roles =
    let found = highest_over-Found hierarchies nobody roles in
    record {
      bounds = found.bounds;
      origin = elim found.origin [
        | inl same ↦ inl same
        | inr (x, m, t, p) ↦ inr (x, m, t, omega (arith, All-at (λ y. rank y ≤ _) found.bounds m))
      ];
    }

-- Every role stands in some hierarchy.
pub rank_pos : (x : Role) → 0 < rank x
unfolding rank
rank_pos x = ground arith

-- An account that has a role has a highest one.
pub highest_of_Memᴰ :
    (roles : List Role) {y : Role}
    → Memᴰ y roles
    → (x : Role) × Memᴰ x roles
      × (get_highest_permission roles ≡ record { role_text = some x; role_priority = rank x })
      × (rank y ≤ rank x)
highest_of_Memᴰ roles {y} m =
    let found = get_highest_permission-IsHighest roles in
    let above =
      All-at (λ z. rank z ≤ (get_highest_permission roles).role_priority) found.bounds m in
    elim found.origin [
      | inl same ↦
          absurd (omega (arith, rank_pos y, above, ap (λ (r : Highest). r.role_priority) same))
      | inr (x, k, t, p) ↦ (x, k, ground arith, omega (arith, above))
    ]
