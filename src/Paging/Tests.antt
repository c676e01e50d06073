-- ===== src/Paging/Tests.antt =====
-- Runs of the paging and the ranges, and the theorems at concrete values.
use u2u_marketplace_api.Common.{
  ℕ, ◌≡◌, refl, ◌↔◌, ◌⊎◌, Bool, true, List, [], ◌∷◌, arith, filter, Memᴰ,
}
use u2u_marketplace_api.Database.Listed.{listed}
use u2u_marketplace_api.Paging.{has_next_page}
use u2u_marketplace_api.Paging.Pages.{pages, pages-all}
use u2u_marketplace_api.Paging.Clean.{lacks, slugs-lacks}
use u2u_marketplace_api.Paging.Slug.{special, string_to_slug, string_to_slug_search}
use u2u_marketplace_api.Paging.Ranges.{
  valid_ranges, find_intersection, Shared, find_intersection-Shared,
}

abbrev any_row : ℕ → Bool
any_row n = true

abbrev rows : List ℕ
rows = 1 ∷ 2 ∷ 3 ∷ 4 ∷ 5 ∷ []

abbrev ranges : List (List ℕ)
ranges = (5 ∷ 9 ∷ []) ∷ (1 ∷ []) ∷ (2 ∷ 7 ∷ []) ∷ []

shared : find_intersection ranges ≡ (5, 7)
unfolding find_intersection
shared = refl

find_intersection-Shared_example :
    ((valid_ranges ranges ≡ []) × (find_intersection ranges ≡ (0, 0)))
    ⊎ Shared (valid_ranges ranges) (find_intersection ranges)
find_intersection-Shared_example = find_intersection-Shared ranges

slug_test : string_to_slug "Chó Đen -- No. 1 " ≡ "cho-den-no-1"
unfolding string_to_slug
slug_test = refl

slug_search_test : string_to_slug_search "Chó Đen -- No. 1 " ≡ "chodenno1"
unfolding string_to_slug_search
slug_search_test = refl

pages-all_example :
    (pages listed 2 2 true any_row (5 ∷ 6 ∷ 7 ∷ [])
      ≡ listed.order_by true 0 2 (filter any_row (5 ∷ 6 ∷ 7 ∷ [])))
    × ((row : ℕ)
        → Memᴰ row (pages listed 2 2 true any_row (5 ∷ 6 ∷ 7 ∷ []))
          ↔ (Memᴰ row (5 ∷ 6 ∷ 7 ∷ []) × (any_row row ≡ true)))
unfolding has_next_page
pages-all_example =
    pages-all listed 2 true any_row (5 ∷ 6 ∷ 7 ∷ []) 2 (λ skip. refl) (omega arith) (omega arith)
      refl

slugs-lacks_example :
    ((lacks special (string_to_slug_search "a b?") ≡ true)
      × (lacks (32 ∷ []) (string_to_slug_search "a b?") ≡ true))
    × ((lacks special (string_to_slug "a b?") ≡ true)
        × (lacks (32 ∷ []) (string_to_slug "a b?") ≡ true))
slugs-lacks_example = slugs-lacks "a b?"
