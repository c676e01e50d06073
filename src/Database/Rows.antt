-- ===== src/Database/Rows.antt =====
-- What the calls of the database do to a table: how many of its rows match, and what holds of all.
use u2u_marketplace_api.Common.{
  ℕ, ◌+◌, ◌≤◌, ◌≡◌, refl, sym, ap, Bool, true, false, none, some, List, [], ◌∷◌, ◌++◌, arith,
  if◌then◌else◌, Bool-cases, inl, inr, find, any, count, count-append, map_where, All, Memᴰ,
}
use u2u_marketplace_api.Database.{Prisma}

abbrev pub one_if : Bool → ℕ
one_if b = if b then 1 else 0

module _ {ℓ} {A : Type ℓ} (p : A → Bool) where
  pub find-true : (xs : List A) {x : A} → find p xs ≡ some x → p x ≡ true
  find-true [] h = absurd (cc h)
  find-true (y ∷ xs) {x} h = elim (Bool-cases (p y)) [
    | inl t ↦
        let same : some y ≡ some x = rw (t, find) at h in let e : y ≡ x = cc same in subst_true e t
    | inr f ↦ find-true xs (rw (f, find) at h)
  ]
    where
      subst_true : {y x : A} → y ≡ x → p y ≡ true → p x ≡ true
      subst_true e t = rw (ap p e) at t

  pub find-Memᴰ : (xs : List A) {x : A} → find p xs ≡ some x → Memᴰ x xs
  find-Memᴰ [] h = absurd (cc h)
  find-Memᴰ (y ∷ xs) {x} h = elim (Bool-cases (p y)) [
    | inl t ↦
        let same : some y ≡ some x = rw (t, find) at h in let e : x ≡ y = cc same in Memᴰ.head e
    | inr f ↦ Memᴰ.tail (find-Memᴰ xs (rw (f, find) at h))
  ]

  pub any-map_where : (f : A → A) (xs : List A) → any p xs ≡ false → map_where p f xs ≡ xs
  any-map_where f [] h = refl
  any-map_where f (y ∷ xs) h = elim (Bool-cases (p y)) [
    | inl t ↦ absurd (cc (rw (t, any) at h))
    | inr n ↦ rw n (ap (λ r. y ∷ r) (any-map_where f xs (rw (n, any) at h)))
  ]

  pub find-any : (xs : List A) {x : A} → find p xs ≡ some x → any p xs ≡ true
  find-any [] h = absurd (cc h)
  find-any (y ∷ xs) h = elim (Bool-cases (p y)) [
    | inl t ↦ rw t refl
    | inr f ↦ rw f (find-any xs (rw (f, find) at h))
  ]

  pub find-none : (xs : List A) → find p xs ≡ none → any p xs ≡ false
  find-none [] h = refl
  find-none (y ∷ xs) h = elim (Bool-cases (p y)) [
    | inl t ↦ absurd (cc (rw (t, find) at h))
    | inr f ↦ rw f (find-none xs (rw (f, find) at h))
  ]

  pub none-find : (xs : List A) → any p xs ≡ false → find p xs ≡ none
  none-find [] h = refl
  none-find (y ∷ xs) h = elim (Bool-cases (p y)) [
    | inl t ↦ absurd (cc (rw (t, any) at h))
    | inr f ↦ rw (f, find) (none-find xs (rw (f, any) at h))
  ]

  -- A test that is narrower than one that no row passes.
  pub any-weaker :
      (q : A → Bool) (xs : List A)
      → ((x : A) → p x ≡ true → q x ≡ true)
      → any q xs ≡ false
      → any p xs ≡ false
  any-weaker q [] narrow h = refl
  any-weaker q (x ∷ xs) narrow h = elim (Bool-cases (p x)) [
    | inl t ↦ absurd (cc (rw (narrow x t, any) at h))
    | inr f ↦ elim (Bool-cases (q x)) [
      | inl t ↦ absurd (cc (rw (t, any) at h))
      | inr g ↦ rw f (any-weaker q xs narrow (rw (g, any) at h))
    ]
  ]

  pub find-append_new :
      (x : A) (xs : List A) → p x ≡ true → find p xs ≡ none → find p (xs ++ x ∷ []) ≡ some x
  find-append_new x [] t n = rw t refl
  find-append_new x (y ∷ xs) t n = elim (Bool-cases (p y)) [
    | inl s ↦ absurd (cc (rw (s, find) at n))
    | inr s ↦ rw s (find-append_new x xs t (rw (s, find) at n))
  ]

  pub find-map_where :
      (f : A → A) (xs : List A) (r : A)
      → ((x : A) → p (f x) ≡ p x)
      → find p xs ≡ some r
      → find p (map_where p f xs) ≡ some (f r)
  find-map_where f [] r same e = absurd (cc e)
  find-map_where f (y ∷ xs) r same e = elim (Bool-cases (p y)) [
    | inl s ↦
        let here : some y ≡ some r = rw (s, find) at e in
        let first : y ≡ r = cc here in rw (s, same y, s) (ap (λ x. some (f x)) first)
    | inr s ↦ rw (s, s) (find-map_where f xs r same (rw (s, find) at e))
  ]

  pub any-map_where_same :
      (q : A → Bool) (f : A → A) (xs : List A)
      → ((x : A) → p (f x) ≡ p x)
      → any p (map_where q f xs) ≡ any p xs
  any-map_where_same q f [] same = refl
  any-map_where_same q f (x ∷ xs) same =
      let rest = any-map_where_same q f xs same in
      elim (Bool-cases (q x)) [ inl t ↦ rw (t, same x, rest) refl | inr n ↦ rw (n, rest) refl ]

  pub find-count : (xs : List A) → find p xs ≡ none → count p xs ≡ 0
  find-count [] h = refl
  find-count (y ∷ xs) h = elim (Bool-cases (p y)) [
    | inl t ↦ absurd (cc (rw (t, find) at h))
    | inr f ↦ rw f (omega (arith, find-count xs (rw (f, find) at h)))
  ]

  -- A change that a second test does not see keeps its count.
  pub count-map_where_same :
      (q : A → Bool) (f : A → A) (xs : List A)
      → ((x : A) → p x ≡ true → q (f x) ≡ q x)
      → count q (map_where p f xs) ≡ count q xs
  count-map_where_same q f [] h = refl
  count-map_where_same q f (x ∷ xs) h =
      let rest = count-map_where_same q f xs h in
      elim (Bool-cases (p x)) [
        | inl t ↦ rw (t, h x t) (omega (arith, rest))
        | inr n ↦ rw n (omega (arith, rest))
      ]

  -- Where no row matches, nothing changes.
  pub map_where-none : (f : A → A) (xs : List A) → count p xs ≡ 0 → map_where p f xs ≡ xs
  map_where-none f [] h = refl
  map_where-none f (x ∷ xs) h = elim (Bool-cases (p x)) [
    | inl t ↦ absurd (omega (arith, rw t at h))
    | inr n ↦ rw n (ap (λ r. x ∷ r) (map_where-none f xs (omega (arith, rw n at h))))
  ]

  -- One row changes: a count changes by what the test says of it before and after.
  pub count-map_where :
      (q : A → Bool) (f : A → A) (xs : List A) {r : A}
      → count p xs ≤ 1
      → find p xs ≡ some r
      → count q (map_where p f xs) + one_if (q r) ≡ count q xs + one_if (q (f r))
  count-map_where q f [] h e = absurd (cc e)
  count-map_where q f (x ∷ xs) {r} h e = elim (Bool-cases (p x)) [
    | inl t ↦
        let same : some x ≡ some r = rw (t, find) at e in
        let xr : x ≡ r = cc same in
        let no : count p xs ≡ 0 = omega (arith, rw t at h) in
        rw (t, map_where-none f xs no) (rw xr (omega arith))
    | inr n ↦
        let rest = count-map_where q f xs (omega (arith, rw n at h)) (rw (n, find) at e) in
        rw n (omega (arith, rest))
  ]

module _ {ℓ} {A : Type ℓ} (p q : A → Bool) where
  not_counted : {x : A} {xs : List A} → Memᴰ x xs → q x ≡ true → 1 ≤ count q xs
  not_counted (Memᴰ.head e) h = rw (rw e at h) (omega arith)
  not_counted {xs = y ∷ ys} (Memᴰ.tail m) h = omega (arith, not_counted m h)

  -- The only row that passes a test is found by a narrower test that it passes.
  pub find_only :
      {x : A} {xs : List A}
      → count q xs ≤ 1
      → ((y : A) → p y ≡ true → q y ≡ true)
      → Memᴰ x xs
      → p x ≡ true
      → find p xs ≡ some x
  find_only {xs = []} h wide m t = elim m [ ]
  find_only {xs = y ∷ ys} h wide (Memᴰ.head e) t = rw (rw e at t) (ap some (sym e))
  find_only {xs = y ∷ ys} h wide (Memᴰ.tail m) t = elim (Bool-cases (p y)) [
    | inl s ↦ absurd (omega (arith, not_counted m (wide _ t), rw (wide y s) at h))
    | inr f ↦ rw f (find_only (omega (arith, h)) wide m t)
  ]

module _ {ℓ} {A : Type ℓ} where
  -- A row whose key no row has joins the others, and the key is still one row's.
  pub one_more :
      (key : A → Bool) (row : A) (xs : List A)
      → count key xs ≤ 1
      → (key row ≡ true → count key xs ≡ 0)
      → count key (xs ++ row ∷ []) ≤ 1
  one_more key row xs h free = elim (Bool-cases (key row)) [
    | inl t ↦
        let none_yet = free t in rw (count-append key xs (row ∷ []), t) (omega (arith, none_yet))
    | inr f ↦ rw (count-append key xs (row ∷ []), f) (omega (arith, h))
  ]

module _ {ℓ κ} {A : Type ℓ} where
  pub All-map_where :
      {P : A → Type κ} (Q : A → Type κ) (p : A → Bool) (f : A → A) (xs : List A)
      → ((x : A) → p x ≡ true → P x → Q (f x))
      → ((x : A) → p x ≡ false → P x → Q x)
      → All P xs
      → All Q (map_where p f xs)
  All-map_where Q p f [] changed kept h = tt
  All-map_where Q p f (x ∷ xs) changed kept (h, hs) =
      let rest = All-map_where Q p f xs changed kept hs in
      elim (Bool-cases (p x)) [
        | inl t ↦ rw t (changed x t h, rest)
        | inr n ↦ rw n (kept x n h, rest)
      ]

module _ (prisma : Prisma) {Row : Type 0} where
  -- The table after an update whose error is caught.
  abbrev pub updated : (Row → Bool) → (Row → Row) → List Row → List Row
  updated p f rows = elim (prisma.update p f rows) [ none ↦ rows | some changed ↦ changed ]

  pub updated-map_where :
      (p : Row → Bool) (f : Row → Row) (rows : List Row) → updated p f rows ≡ map_where p f rows
  updated-map_where p f rows = elim (Bool-cases (any p rows)) [
    | inl t ↦ rw (prisma.update_law p f rows, t, updated) refl
    | inr n ↦ rw (prisma.update_law p f rows, n, updated) (sym (any-map_where p f rows n))
  ]
