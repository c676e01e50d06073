-- ===== src/Metric/Levels.antt =====
-- `setcheckPointMetric` (src/commons/Metric.common.ts) on ascending numeric levels.
use u2u_marketplace_api.Common.{
  ℕ, ◌+◌, ◌≡◌, refl, true, Option, none, some, List, [], ◌∷◌, arith, if◌then◌else◌, Bool-cases, All,
  inl, inr,
}
use u2u_marketplace_api.Common.Int.{ℤ, ltb_ℤ, ◌≤ℤ◌}
use u2u_marketplace_api.Metric.{num, Level, js_lt, check_points, set_check_point_metric}

-- The levels are numbers, none below the one before it.
abbrev pub Ascending : List Level → Type 0
Ascending [] = Unit
Ascending (l ∷ levels) =
    (n : ℤ) × (l.value ≡ num n)
    × All (λ m. (k : ℤ) × (m.value ≡ num k) × (n ≤ℤ k)) levels
    × Ascending levels

-- The points of all the levels that `total` reaches, in whatever order they stand.
abbrev pub points_reached : ℤ → List Level → ℕ
points_reached total [] = 0
points_reached total (l ∷ levels) =
    (if js_lt (num total) l.value then 0 else l.point) + points_reached total levels

none_reached :
    (total n : ℤ) (levels : List Level)
    → ltb_ℤ total n ≡ true
    → All (λ m. (k : ℤ) × (m.value ≡ num k) × (n ≤ℤ k)) levels
    → points_reached total levels ≡ 0
unfolding js_lt
none_reached total n [] h a = refl
none_reached total n (l ∷ levels) h ((k, e, le), a) =
    rw e (ground (arith, none_reached total n levels h a))

check_points-sum :
    (total : ℤ) (levels : List Level) (sum : ℕ) (last : Option Level)
    → Ascending levels
    → (check_points levels (num total) sum last).0 ≡ sum + points_reached total levels
unfolding check_points js_lt
check_points-sum total [] sum last a = omega arith
check_points-sum total (l ∷ levels) sum last (n, e, later, a) =
    elim (Bool-cases (js_lt (num total) l.value)) [
      | inl t ↦ rw t (omega (arith, none_reached total n levels (rw e at t) later))
      | inr f ↦
          let rest = check_points-sum total levels (sum + l.point) (some l) a in
          rw f (omega (arith, rest))
    ]

-- On ascending numeric levels the loop, which stops at the first level above the total, adds the
-- points of exactly the levels that the total reaches.
pub set_check_point_metric-sum :
    (levels : List Level) (total : ℤ) (sum : ℕ)
    → Ascending levels
    → (set_check_point_metric levels (num total) sum).0 ≡ sum + points_reached total levels
unfolding set_check_point_metric
set_check_point_metric-sum levels total sum a = check_points-sum total levels sum none a
