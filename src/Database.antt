-- ===== src/Database.antt =====
-- The database client (Prisma) that the services call (src/prisma/prisma.service.ts extends it): a
-- parameter of their models, with what its documentation says of the calls they make. A table is
-- the list of its rows, in the order in which the database answers with them.
pub mod Rows
pub mod Schema
pub mod Listed
use u2u_marketplace_api.Common.{
  ℕ, ◌-◌, min, ◌≡◌, refl, Bool, not, ◌&&◌, Option, none, some, List, [], ◌∷◌, ◌++◌, if◌then◌else◌,
  length, filter, find, any, count, map_where, take, drop, Memᴰ, ◌↔◌,
}

pub record Prisma : Type 1 where
  -- the first row that matches; null without one
  pub find_first : {Row : Type 0} → (Row → Bool) → List Row → Option Row
  pub find_many : {Row : Type 0} → (Row → Bool) → List Row → List Row
  -- changes the row with this key; throws, none, without one
  pub update : {Row : Type 0} → (Row → Bool) → (Row → Row) → List Row → Option (List Row)
  -- the same, where columns have unique values; throws, none, when the changed row and another clash
  pub update_unique :
      {Row : Type 0}
      → (Row → Row → Bool)
      → (Row → Bool)
      → (Row → Row)
      → List Row
      → Option (List Row)
  pub update_many : {Row : Type 0} → (Row → Bool) → (Row → Row) → List Row → List Row
  -- adds a row; throws, none, when one that is there has a unique value in common with it
  pub create : {Row : Type 0} → (Row → Bool) → Row → List Row → Option (List Row)
  -- changes the row with this key, or adds one; answers with the row as it is after
  pub upsert : {Row : Type 0} → (Row → Bool) → (Row → Row) → Row → List Row → Row × List Row
  -- the rows in an order of the database, which breaks ties as it likes
  pub order_by : {Row Order : Type 0} → Order → ℕ → ℕ → List Row → List Row
  -- the matching rows in this order, without the first `skip`, at most `take`
  pub find_page : {Row Order : Type 0} → (Row → Bool) → Order → ℕ → ℕ → List Row → List Row
  -- how many rows match, of the `take` that follow the first `skip`
  pub count_rows : {Row : Type 0} → (Row → Bool) → ℕ → ℕ → List Row → ℕ
  pub count_where : {Row : Type 0} → (Row → Bool) → List Row → ℕ
  pub count_where_law :
      {Row : Type 0} (p : Row → Bool) (rows : List Row) → count_where p rows ≡ count p rows
  pub find_first_law :
      {Row : Type 0} (p : Row → Bool) (rows : List Row) → find_first p rows ≡ find p rows
  pub find_many_law :
      {Row : Type 0} (p : Row → Bool) (rows : List Row) → find_many p rows ≡ filter p rows
  pub update_law :
      {Row : Type 0} (p : Row → Bool) (f : Row → Row) (rows : List Row)
      → update p f rows ≡ (if any p rows then some (map_where p f rows) else none)
  pub update_unique_law :
      {Row : Type 0} (clash : Row → Row → Bool) (p : Row → Bool) (f : Row → Row) (rows : List Row)
      → update_unique clash p f rows ≡ elim (find p rows) [
        | none ↦ none
        | some row ↦
            if any (λ o. not (p o) && clash (f row) o) rows then none else some (map_where p f rows)
      ]
  pub update_many_law :
      {Row : Type 0} (p : Row → Bool) (f : Row → Row) (rows : List Row)
      → update_many p f rows ≡ map_where p f rows
  pub create_law :
      {Row : Type 0} (clash : Row → Bool) (row : Row) (rows : List Row)
      → create clash row rows ≡ (if any clash rows then none else some (rows ++ row ∷ []))
  pub upsert_law :
      {Row : Type 0} (p : Row → Bool) (f : Row → Row) (row : Row) (rows : List Row)
      → upsert p f row rows ≡ elim (find p rows) [
        | none ↦ (row, rows ++ row ∷ [])
        | some old ↦ (f old, map_where p f rows)
      ]
  pub order_count_law :
      {Row Order : Type 0} (p : Row → Bool) (order : Order) (skip take_rows : ℕ) (rows : List Row)
      → count p (order_by order skip take_rows rows) ≡ count p rows
  pub order_mem_law :
      {Row Order : Type 0} (order : Order) (skip take_rows : ℕ) (rows : List Row) (row : Row)
      → Memᴰ row (order_by order skip take_rows rows) ↔ Memᴰ row rows
  pub find_page_law :
      {Row Order : Type 0} (p : Row → Bool) (order : Order) (skip take_rows : ℕ) (rows : List Row)
      → find_page p order skip take_rows rows
        ≡ take take_rows (drop skip (order_by order skip take_rows (filter p rows)))
  pub count_rows_law :
      {Row : Type 0} (p : Row → Bool) (skip take : ℕ) (rows : List Row)
      → count_rows p skip take rows ≡ min take (count p rows - skip)
