-- ===== src/Paging/Ranges.antt =====
-- `findIntersection` of src/commons/Other.common.ts: the time that all ranges share.
use u2u_marketplace_api.Common.{
  ℕ, ◌≤◌, min, max, ◌≡◌, refl, ◌↔◌, ◌⊎◌, inl, inr, Option, none, some, List, [], ◌∷◌, arith, ltb,
  leb, if◌then◌else◌, Bool-cases, All,
}

-- The ranges of length 2; the others are filtered out.
pub valid_ranges : List (List ℕ) → List (ℕ × ℕ)
valid_ranges [] = []
valid_ranges ([] ∷ ranges) = valid_ranges ranges
valid_ranges ((a ∷ []) ∷ ranges) = valid_ranges ranges
valid_ranges ((a ∷ b ∷ []) ∷ ranges) = (a, b) ∷ valid_ranges ranges
valid_ranges ((a ∷ b ∷ c ∷ more) ∷ ranges) = valid_ranges ranges

-- `sort((a, b) => a[0] - b[0])`: stable, by the start.
pub put_by_start : ℕ × ℕ → List (ℕ × ℕ) → List (ℕ × ℕ)
put_by_start r [] = r ∷ []
put_by_start r (s ∷ ranges) = if leb r.0 s.0 then r ∷ s ∷ ranges else s ∷ put_by_start r ranges

pub sort_by_start : List (ℕ × ℕ) → List (ℕ × ℕ)
unfolding put_by_start
sort_by_start [] = []
sort_by_start (r ∷ ranges) = put_by_start r (sort_by_start ranges)

-- The loop; none where it returns `[0, 0]`.
pub narrow : List (ℕ × ℕ) → ℕ → ℕ → Option (ℕ × ℕ)
narrow [] start end' = some (start, end')
narrow (r ∷ ranges) start end' =
    let rest = narrow ranges (max start r.0) (min end' r.1) in if ltb end' r.0 then none else rest

-- The last test.
pub checked : Option (ℕ × ℕ) → ℕ × ℕ
checked none = (0, 0)
checked (some (start, end')) = if ltb end' start then (0, 0) else (start, end')

pub intersect_sorted : List (ℕ × ℕ) → ℕ × ℕ
unfolding narrow checked
intersect_sorted [] = (0, 0)
intersect_sorted (r ∷ ranges) = checked (narrow ranges r.0 r.1)

unfoldable pub find_intersection : List (List ℕ) → ℕ × ℕ
unfolding valid_ranges sort_by_start intersect_sorted
find_intersection ranges = intersect_sorted (sort_by_start (valid_ranges ranges))

-- The time `x` lies in the range.
abbrev pub Within : ℕ → ℕ × ℕ → Type 0
Within x r = (r.0 ≤ x) × (x ≤ r.1)

put_by_start-All :
    (x : ℕ) (r : ℕ × ℕ) (ranges : List (ℕ × ℕ))
    → All (Within x) (put_by_start r ranges) ↔ (Within x r × All (Within x) ranges)
unfolding put_by_start
put_by_start-All x r [] = (λ h. h, λ h. h)
put_by_start-All x r (s ∷ ranges) = elim (Bool-cases (leb r.0 s.0)) [
  | inl t ↦ rw t (λ h. h, λ h. h)
  | inr f ↦
      let rest = put_by_start-All x r ranges in
      rw f
        (λ (s', h). let (r', k) = rest.0 h in (r', (s', k)), λ (r', (s', k)). (s', rest.1 (r', k)))
]

sort_by_start-All :
    (x : ℕ) (ranges : List (ℕ × ℕ)) → All (Within x) (sort_by_start ranges) ↔ All (Within x) ranges
unfolding sort_by_start
sort_by_start-All x [] = (λ h. h, λ h. h)
sort_by_start-All x (r ∷ ranges) =
    let put = put_by_start-All x r (sort_by_start ranges) in
    let rest = sort_by_start-All x ranges in
    (λ h. let (r', k) = put.0 h in (r', rest.0 k), λ (r', k). put.1 (r', rest.1 k))

-- The loop keeps exactly the times of its range that lie in all the others.
abbrev Answers : ℕ → ℕ → List (ℕ × ℕ) → Option (ℕ × ℕ) → Type 0
Answers start end' ranges none = (x : ℕ) → Within x (start, end') → All (Within x) ranges → ⊥
Answers start end' ranges (some r) =
    (x : ℕ) → Within x r ↔ (Within x (start, end') × All (Within x) ranges)

narrow-Answers :
    (ranges : List (ℕ × ℕ)) (start end' : ℕ) → Answers start end' ranges (narrow ranges start end')
unfolding narrow
narrow-Answers [] start end' = λ x. (λ h. (h, tt), λ (h, k). h)
narrow-Answers (r ∷ ranges) start end' = elim (Bool-cases (ltb end' r.0)) [
  | inl t ↦ rw t (λ x h (k, _). absurd (ground (arith, t, h, k)))
  | inr f ↦ rw f (
      weaken (narrow ranges (max start r.0) (min end' r.1))
        (narrow-Answers ranges (max start r.0) (min end' r.1)))
]
  where
    weaken :
        (result : Option (ℕ × ℕ))
        → Answers (max start r.0) (min end' r.1) ranges result
        → Answers start end' (r ∷ ranges) result
    weaken none h = λ x w (k, rest). h x (omega (arith, w.0, k.0), omega (arith, w.1, k.1)) rest
    weaken (some s) h = λ x. (
      λ w.
          let (both, rest) = (h x).0 w in
          (
            (omega (arith, both.0), omega (arith, both.1)),
            ((omega (arith, both.0), omega (arith, both.1)), rest),
          ),
      λ (w, (k, rest)). (h x).1 ((omega (arith, w.0, k.0), omega (arith, w.1, k.1)), rest),
    )

-- The result is the times that all ranges share; it is `[0, 0]` where they share none.
abbrev pub Shared : List (ℕ × ℕ) → ℕ × ℕ → Type 0
Shared ranges result =
    ((result ≡ (0, 0)) × ((x : ℕ) → All (Within x) ranges → ⊥))
    ⊎ ((x : ℕ) → Within x result ↔ All (Within x) ranges)

intersect_sorted-Shared :
    (r : ℕ × ℕ) (ranges : List (ℕ × ℕ)) → Shared (r ∷ ranges) (intersect_sorted (r ∷ ranges))
unfolding intersect_sorted checked
intersect_sorted-Shared r ranges = decide (narrow ranges r.0 r.1) (narrow-Answers ranges r.0 r.1)
  where
    decide :
        (result : Option (ℕ × ℕ))
        → Answers r.0 r.1 ranges result
        → Shared (r ∷ ranges) (checked result)
    decide none h = inl (refl, λ x (w, rest). h x w rest)
    decide (some s) h = elim (Bool-cases (ltb s.1 s.0)) [
      | inl t ↦ rw t (
          inl (
            refl,
            λ x (w, rest). let inside = (h x).1 (w, rest) in absurd (ground (arith, t, inside)),
          ))
      | inr f ↦ rw f (
          inr (λ x.
            (λ w. let (both, rest) = (h x).0 w in (both, rest), λ (w, rest). (h x).1 (w, rest))))
    ]

Shared-sorted :
    (ranges : List (ℕ × ℕ)) (result : ℕ × ℕ)
    → Shared (sort_by_start ranges) result
    → Shared ranges result
Shared-sorted ranges result (inl (e, apart)) =
    inl (e, λ x h. apart x ((sort_by_start-All x ranges).1 h))
Shared-sorted ranges result (inr same) = inr (λ x. (
  λ w. (sort_by_start-All x ranges).0 ((same x).0 w),
  λ h. (same x).1 ((sort_by_start-All x ranges).1 h),
))

sorted_case :
    (r : ℕ × ℕ) (sorted : List (ℕ × ℕ))
    → Shared (put_by_start r sorted) (intersect_sorted (put_by_start r sorted))
unfolding put_by_start
sorted_case r [] = intersect_sorted-Shared r []
sorted_case r (s ∷ sorted) = elim (Bool-cases (leb r.0 s.0)) [
  | inl t ↦ rw t (intersect_sorted-Shared r (s ∷ sorted))
  | inr f ↦ rw f (intersect_sorted-Shared s (put_by_start r sorted))
]

-- Where some range has two ends, the result of `findIntersection` contains exactly the times that
-- lie in every such range, or it is `[0, 0]` and no time does. Without such a range it is `[0, 0]`.
pub find_intersection-Shared :
    (ranges : List (List ℕ))
    → ((valid_ranges ranges ≡ []) × (find_intersection ranges ≡ (0, 0)))
      ⊎ Shared (valid_ranges ranges) (find_intersection ranges)
unfolding find_intersection sort_by_start intersect_sorted
find_intersection-Shared ranges = split (valid_ranges ranges) refl
  where
    split :
        (valid : List (ℕ × ℕ))
        → valid_ranges ranges ≡ valid
        → ((valid_ranges ranges ≡ []) × (find_intersection ranges ≡ (0, 0)))
          ⊎ Shared (valid_ranges ranges) (find_intersection ranges)
    split [] e = inl (e, rw e refl)
    split (r ∷ valid) e = inr (
        rw e (
          Shared-sorted (r ∷ valid) (intersect_sorted (sort_by_start (r ∷ valid)))
            (sorted_case r (sort_by_start valid))))
