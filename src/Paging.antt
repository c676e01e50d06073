-- ===== src/Paging.antt =====
-- src/commons/HasNext.common.ts (paging) and the ranges of src/commons/Other.common.ts.
pub mod Ranges
pub mod Pages
pub mod Slug
pub mod Clean
mod Tests
use Prim.Native.Nat.{zero, suc}
use native.Mathlib.Nat.{suc-mul}
use u2u_marketplace_api.Common.{
  sym, ℕ, ◌+◌, ◌*◌, ◌-◌, ◌<◌, ◌≡◌, ◌↔◌, Bool, true, List, arith, ltb, count, min,
}
use u2u_marketplace_api.Database.{Prisma}

pages_before : (page limit : ℕ) → 0 < page → (page - 1) * limit + limit ≡ page * limit
pages_before zero limit h = absurd (omega (arith, h))
pages_before (suc n) limit h =
    let less : suc n - 1 ≡ n = omega arith in rw less (sym (suc-mul n limit))

module _ (prisma : Prisma) {Row : Type 0} where
  -- `hasNextPage`; the arguments come from a validated query, so `page` and `limit` are positive.
  unfoldable pub has_next_page : ℕ → ℕ → (Row → Bool) → List Row → Bool
  has_next_page page limit where_condition rows =
      let skip = (page - 1) * limit in
      let take = limit * 2 in ltb limit (prisma.count_rows where_condition skip take rows)

  -- On pages that are counted from 1, with at least one row each, there is a next page exactly when
  -- more rows match than the pages up to this one hold.
  pub has_next_page_iff :
      (page limit : ℕ) (where_condition : Row → Bool) (rows : List Row)
      → 0 < page
      → 0 < limit
      → (has_next_page page limit where_condition rows ≡ true)
        ↔ (page * limit < count where_condition rows)
  unfolding has_next_page
  has_next_page_iff page limit where_condition rows hp hl =
      rw (prisma.count_rows_law where_condition ((page - 1) * limit) (limit * 2) rows)
        (ground (arith, pages_before page limit hp, hp, hl))
