-- ===== src/Paging/Pages.antt =====
-- The pages that the lists of the services are read in: `skip: (page - 1) * limit, take: limit`, with
-- `hasNextPage` of src/commons/HasNext.common.ts beside it.
use Prim.Native.Nat.{zero, suc}
use native.Mathlib.Nat.{suc-mul}
use u2u_marketplace_api.Common.{
  ℕ, ◌*◌, ◌-◌, ◌≤◌, ◌<◌, ◌≡◌, ◌↔◌, refl, sym, ap, ◌∙◌, Bool, true, false, List, [], ◌++◌, arith,
  count, filter, length, take, drop, take-drop, take-add, take-all, length-count, count-length,
  Memᴰ, Memᴰ-filter, Memᴰ-append_left, Memᴰ-append_right, filter-Memᴰ,
}
use u2u_marketplace_api.Database.{Prisma}
use u2u_marketplace_api.Paging.{has_next_page, has_next_page_iff}

module _ (prisma : Prisma) {Row Order : Type 0} where
  -- A page of the rows that match, as the services ask for it.
  unfoldable pub find_on_page : ℕ → ℕ → Order → (Row → Bool) → List Row → List Row
  find_on_page page limit order where_condition rows =
      prisma.find_page where_condition order ((page - 1) * limit) limit rows

  -- A row of a page is a row of the table that meets the conditions.
  pub page-Memᴰ :
      (page limit : ℕ) (order : Order) (p : Row → Bool) (rows : List Row) (r : Row)
      → Memᴰ r (find_on_page page limit order p rows)
      → Memᴰ r rows × (p r ≡ true)
  unfolding find_on_page
  page-Memᴰ page limit order p rows r m =
      let matching = prisma.order_by order ((page - 1) * limit) limit (filter p rows) in
      let rest = drop ((page - 1) * limit) matching in
      let on_page = rw (prisma.find_page_law p order ((page - 1) * limit) limit rows) at m in
      let in_rest = rw (take-drop limit rest) at (Memᴰ-append_left (drop limit rest) on_page) in
      let in_all =
        rw (take-drop ((page - 1) * limit) matching) at
          (Memᴰ-append_right (take ((page - 1) * limit) matching) in_rest) in
      Memᴰ-filter p rows
        ((prisma.order_mem_law order ((page - 1) * limit) limit (filter p rows) r).0 in_all)

  -- The first pages, one after another.
  unfoldable pub pages : ℕ → ℕ → Order → (Row → Bool) → List Row → List Row
  pages zero limit order where_condition rows = []
  pages (suc n) limit order where_condition rows =
      pages n limit order where_condition rows
      ++ find_on_page (suc n) limit order where_condition rows

  module _ (limit : ℕ) (order : Order) (where_condition : Row → Bool) (rows : List Row) where
    abbrev all_rows : List Row
    all_rows = prisma.order_by order 0 limit (filter where_condition rows)

    -- The queries of the pages put the rows in one order. They do where no two rows that match are
    -- equal in all that is sorted by; the database promises no order of rows that are.
    abbrev pub IsSteady : Type 0
    IsSteady =
        (skip : ℕ) → prisma.order_by order skip limit (filter where_condition rows) ≡ all_rows

    pages-take :
        IsSteady → (n : ℕ) → pages n limit order where_condition rows ≡ take (n * limit) all_rows
    unfolding pages find_on_page
    pages-take steady zero = rw none_yet refl
      where
        none_yet : zero * limit ≡ 0
        none_yet = omega arith
    pages-take steady (suc n) =
        let less : suc n - 1 ≡ n = omega arith in
        rw
          (
            pages-take steady n,
            prisma.find_page_law where_condition order ((suc n - 1) * limit) limit rows,
            steady ((suc n - 1) * limit),
            less,
          )
          (take-add (n * limit) limit all_rows ∙ ap (λ k. take k all_rows) (sym (suc-mul n limit)))

    length-all_rows : length all_rows ≡ count where_condition rows
    length-all_rows =
        length-count all_rows
        ∙ prisma.order_count_law (λ _. true) order 0 limit (filter where_condition rows)
        ∙ sym (length-count (filter where_condition rows))
        ∙ count-length where_condition rows

    -- Where the queries of the pages put the rows in one order, page n answers that there is no next
    -- page, and a page has at least one row, the pages from 1 to n are, one after another, the matching
    -- rows in that order, and a row is on one of them exactly when it is in the table and matches.
    pub pages-all :
        (n : ℕ)
        → IsSteady
        → 0 < n
        → 0 < limit
        → has_next_page prisma n limit where_condition rows ≡ false
        → (pages n limit order where_condition rows ≡ all_rows)
          × ((row : Row)
              → Memᴰ row (pages n limit order where_condition rows)
                ↔ (Memᴰ row rows × (where_condition row ≡ true)))
    pages-all n steady hn hl last =
        let bound = has_next_page_iff prisma n limit where_condition rows hn hl in
        let all =
          pages-take steady n ∙ take-all (n * limit) all_rows (rw length-all_rows (enough bound)) in
        (
          all,
          λ row. rw all (
            λ m.
                Memᴰ-filter where_condition rows
                  ((prisma.order_mem_law order 0 limit (filter where_condition rows) row).0 m),
            λ (m, t).
                (prisma.order_mem_law order 0 limit (filter where_condition rows) row).1
                  (filter-Memᴰ where_condition rows m t),
          ),
        )
      where
        enough :
            (has_next_page prisma n limit where_condition rows ≡ true)
              ↔ (n * limit < count where_condition rows)
            → count where_condition rows ≤ n * limit
        enough iff = ground (arith, iff, last)
