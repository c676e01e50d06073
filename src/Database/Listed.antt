-- ===== src/Database/Listed.antt =====
-- A client that keeps its tables as lists: the laws of `Prisma` hold of it.
use u2u_marketplace_api.Common.{
  not, ◌&&◌, ◌-◌, min, refl, none, some, [], ◌∷◌, ◌++◌, if◌then◌else◌, filter, find, any, count,
  map_where, take, drop,
}
use u2u_marketplace_api.Database.{Prisma}

abbrev pub listed : Prisma
listed = record {
  find_first = λ p rows. find p rows;
  find_many = λ p rows. filter p rows;
  update = λ p f rows. if any p rows then some (map_where p f rows) else none;
  update_unique = λ clash p f rows. elim (find p rows) [
    | none ↦ none
    | some row ↦
        if any (λ o. not (p o) && clash (f row) o) rows then none else some (map_where p f rows)
  ];
  update_many = λ p f rows. map_where p f rows;
  create = λ clash row rows. if any clash rows then none else some (rows ++ row ∷ []);
  upsert = λ p f row rows. elim (find p rows) [
    | none ↦ (row, rows ++ row ∷ [])
    | some old ↦ (f old, map_where p f rows)
  ];
  order_by = λ order skip take_rows rows. rows;
  find_page = λ p order skip take_rows rows. take take_rows (drop skip (filter p rows));
  count_rows = λ p skip take rows. min take (count p rows - skip);
  count_where = λ p rows. count p rows;
  count_where_law = λ p rows. refl;
  find_first_law = λ p rows. refl;
  find_many_law = λ p rows. refl;
  update_law = λ p f rows. refl;
  update_unique_law = λ clash p f rows. refl;
  update_many_law = λ p f rows. refl;
  create_law = λ clash row rows. refl;
  upsert_law = λ p f row rows. refl;
  order_count_law = λ p order skip take_rows rows. refl;
  order_mem_law = λ order skip take_rows rows row. (λ m. m, λ m. m);
  find_page_law = λ p order skip take_rows rows. refl;
  count_rows_law = λ p skip take rows. refl;
}
