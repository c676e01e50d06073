-- ===== src/Common/Lists.antt =====
-- The array functions of the source on lists, over native numbers and Boolean tests.
use Prim.Native.Nat.{ℕ, zero, suc, ◌+◌, ◌≤◌}
use native.Mathlib.Nat.{zero-add, suc-add}
use mathlib.Core.Path.{◌≡◌, refl, sym, ap, subst}
use mathlib.Core.Bool.{Bool, true, false, ◌&&◌, ◌||◌}
use mathlib.Core.Option.{Option, none, some}
use mathlib.Core.Logic.{◌⊎◌, inl, inr}
use mathlib.Core.List.{List, [], ◌∷◌, ◌++◌, map, Memᴰ}
use native.Mathlib.Omega.{arith}
use u2u_marketplace_api.Common.Tests.{if◌then◌else◌, Bool-cases}

module _ {ℓ} {A : Type ℓ} where
  abbrev pub length : List A → ℕ
  length [] = 0
  length (x ∷ xs) = suc (length xs)

  -- `array.filter(p)`
  abbrev pub filter : (A → Bool) → List A → List A
  filter p [] = []
  filter p (x ∷ xs) = if p x then x ∷ filter p xs else filter p xs

  -- `array.find(p)`
  abbrev pub find : (A → Bool) → List A → Option A
  find p [] = none
  find p (x ∷ xs) = if p x then some x else find p xs

  -- `array.every(p)`
  abbrev pub every : (A → Bool) → List A → Bool
  every p [] = true
  every p (x ∷ xs) = p x && every p xs

  -- `array.some(p)`
  abbrev pub any : (A → Bool) → List A → Bool
  any p [] = false
  any p (x ∷ xs) = p x || any p xs

  -- The number of elements that pass the test.
  abbrev pub count : (A → Bool) → List A → ℕ
  count p [] = 0
  count p (x ∷ xs) = (if p x then 1 else 0) + count p xs

  -- `f` applied to the elements that pass the test, the others as they are.
  abbrev pub map_where : (A → Bool) → (A → A) → List A → List A
  map_where p f [] = []
  map_where p f (x ∷ xs) = (if p x then f x else x) ∷ map_where p f xs

  -- `array.slice(0, n)`
  abbrev pub take : ℕ → List A → List A
  take zero xs = []
  take (suc n) [] = []
  take (suc n) (x ∷ xs) = x ∷ take n xs

  -- `array.slice(n)`
  abbrev pub drop : ℕ → List A → List A
  drop zero xs = xs
  drop (suc n) [] = []
  drop (suc n) (x ∷ xs) = drop n xs

  pub take-drop : (n : ℕ) (xs : List A) → take n xs ++ drop n xs ≡ xs
  take-drop zero xs = refl
  take-drop (suc n) [] = refl
  take-drop (suc n) (x ∷ xs) = ap (λ r. x ∷ r) (take-drop n xs)

  pub take-all : (n : ℕ) (xs : List A) → length xs ≤ n → take n xs ≡ xs
  take-all zero [] h = refl
  take-all zero (x ∷ xs) h = absurd (omega (arith, h))
  take-all (suc n) [] h = refl
  take-all (suc n) (x ∷ xs) h = ap (λ r. x ∷ r) (take-all n xs (omega (arith, h)))

  take-nil : (n : ℕ) → take n [] ≡ []
  take-nil zero = refl
  take-nil (suc n) = refl

  -- The next rows after the first: taking them in two steps.
  pub take-add : (n m : ℕ) (xs : List A) → take n xs ++ take m (drop n xs) ≡ take (n + m) xs
  take-add zero m xs = rw zero-add refl
  take-add (suc n) m [] = rw suc-add (take-nil m)
  take-add (suc n) m (x ∷ xs) = rw suc-add (ap (λ r. x ∷ r) (take-add n m xs))

  pub length-count : (xs : List A) → length xs ≡ count (λ _. true) xs
  length-count [] = refl
  length-count (x ∷ xs) = omega (arith, length-count xs)

  pub count-length : (p : A → Bool) (xs : List A) → length (filter p xs) ≡ count p xs
  count-length p [] = refl
  count-length p (x ∷ xs) = elim (Bool-cases (p x)) [
    | inl t ↦ rw t (omega (arith, count-length p xs))
    | inr f ↦ rw f (omega (arith, count-length p xs))
  ]

  pub length-append : (xs ys : List A) → length (xs ++ ys) ≡ length xs + length ys
  length-append [] ys = omega arith
  length-append (x ∷ xs) ys = omega (arith, length-append xs ys)

  pub count-append : (p : A → Bool) (xs ys : List A) → count p (xs ++ ys) ≡ count p xs + count p ys
  count-append p [] ys = omega arith
  count-append p (x ∷ xs) ys = omega (arith, count-append p xs ys)

  pub length-map_where :
      (p : A → Bool) (f : A → A) (xs : List A) → length (map_where p f xs) ≡ length xs
  length-map_where p f [] = refl
  length-map_where p f (x ∷ xs) = ap suc (length-map_where p f xs)

module _ {ℓ κ} {A : Type ℓ} where
  abbrev pub All : (A → Type κ) → List A → Type κ
  All P [] = Unit
  All P (x ∷ xs) = P x × All P xs

  pub All-append : (P : A → Type κ) (xs ys : List A) → All P xs → All P ys → All P (xs ++ ys)
  All-append P [] ys h k = k
  All-append P (x ∷ xs) ys (p, h) k = (p, All-append P xs ys h k)

  pub All-at : (P : A → Type κ) {x : A} {xs : List A} → All P xs → Memᴰ x xs → P x
  All-at P h (Memᴰ.head e) = subst P (sym e) h.0
  All-at P h (Memᴰ.tail m) = All-at P h.1 m

  pub All-Memᴰ : (P : A → Type κ) (xs : List A) → ((x : A) → Memᴰ x xs → P x) → All P xs
  All-Memᴰ P [] h = tt
  All-Memᴰ P (x ∷ xs) h = (h x (Memᴰ.head refl), All-Memᴰ P xs (λ y m. h y (Memᴰ.tail m)))

  pub All-filter : (P : A → Type κ) (p : A → Bool) (xs : List A) → All P xs → All P (filter p xs)
  All-filter P p [] h = tt
  All-filter P p (x ∷ xs) (q, h) = elim (Bool-cases (p x)) [
    | inl t ↦ rw t (q, All-filter P p xs h)
    | inr f ↦ rw f (All-filter P p xs h)
  ]

  pub All-map :
      {Q : A → Type κ} (P : A → Type κ) (f : (x : A) → Q x → P x) (xs : List A)
      → All Q xs
      → All P xs
  All-map P f [] h = tt
  All-map P f (x ∷ xs) (q, h) = (f x q, All-map P f xs h)

module _ {ℓ} {A : Type ℓ} where
  pub Memᴰ-cons : {x y : A} {xs : List A} → Memᴰ x (y ∷ xs) → (x ≡ y) ⊎ Memᴰ x xs
  Memᴰ-cons (Memᴰ.head e) = inl e
  Memᴰ-cons (Memᴰ.tail m) = inr m

  pub Memᴰ-filter :
      (p : A → Bool) {x : A} (xs : List A) → Memᴰ x (filter p xs) → Memᴰ x xs × (p x ≡ true)
  Memᴰ-filter p [] m = elim m [ ]
  Memᴰ-filter p (y ∷ xs) m = elim (Bool-cases (p y)) [
    | inl t ↦ elim (Memᴰ-cons (rw (t, filter) at m)) [
      | inl e ↦ (Memᴰ.head e, rw e t)
      | inr k ↦ let (j, h) = Memᴰ-filter p xs k in (Memᴰ.tail j, h)
    ]
    | inr f ↦ let (k, h) = Memᴰ-filter p xs (rw (f, filter) at m) in (Memᴰ.tail k, h)
  ]

  pub filter-Memᴰ :
      (p : A → Bool) {x : A} (xs : List A) → Memᴰ x xs → p x ≡ true → Memᴰ x (filter p xs)
  filter-Memᴰ p [] m h = elim m [ ]
  filter-Memᴰ p (y ∷ xs) (Memᴰ.head e) h = rw (rw e at h) (Memᴰ.head e)
  filter-Memᴰ p (y ∷ xs) (Memᴰ.tail m) h = elim (Bool-cases (p y)) [
    | inl t ↦ rw t (Memᴰ.tail (filter-Memᴰ p xs m h))
    | inr f ↦ rw f (filter-Memᴰ p xs m h)
  ]

  pub Memᴰ-append_right : {x : A} (xs : List A) {ys : List A} → Memᴰ x ys → Memᴰ x (xs ++ ys)
  Memᴰ-append_right [] m = m
  Memᴰ-append_right (y ∷ xs) m = Memᴰ.tail (Memᴰ-append_right xs m)

  pub Memᴰ-append_left : {x : A} {xs : List A} (ys : List A) → Memᴰ x xs → Memᴰ x (xs ++ ys)
  Memᴰ-append_left ys (Memᴰ.head e) = Memᴰ.head e
  Memᴰ-append_left ys (Memᴰ.tail m) = Memᴰ.tail (Memᴰ-append_left ys m)

module _ {ℓ κ} {A : Type ℓ} {B : Type κ} (f : A → B) where
  pub Memᴰ-map : {x : A} {xs : List A} → Memᴰ x xs → Memᴰ (f x) (map f xs)
  Memᴰ-map (Memᴰ.head e) = Memᴰ.head (ap f e)
  Memᴰ-map (Memᴰ.tail m) = Memᴰ.tail (Memᴰ-map m)

  pub map-Memᴰ : {y : B} (xs : List A) → Memᴰ y (map f xs) → (x : A) × Memᴰ x xs × (y ≡ f x)
  map-Memᴰ [] m = elim m [ ]
  map-Memᴰ (x ∷ xs) (Memᴰ.head e) = (x, Memᴰ.head refl, e)
  map-Memᴰ (x ∷ xs) (Memᴰ.tail m) = let (y, k, e) = map-Memᴰ xs m in (y, Memᴰ.tail k, e)

module _ {ℓ} {A : Type ℓ} (p : A → Bool) where
  pub any-true : (xs : List A) → any p xs ≡ true → (x : A) × Memᴰ x xs × (p x ≡ true)
  any-true [] h = absurd (cc h)
  any-true (x ∷ xs) h = elim (Bool-cases (p x)) [
    | inl t ↦ (x, Memᴰ.head refl, t)
    | inr f ↦ let (y, m, t) = any-true xs (rw (f, any) at h) in (y, Memᴰ.tail m, t)
  ]

  pub any-Memᴰ : {x : A} {xs : List A} → Memᴰ x xs → p x ≡ true → any p xs ≡ true
  any-Memᴰ (Memᴰ.head e) h = rw (rw e at h) refl
  any-Memᴰ {xs = y ∷ ys} (Memᴰ.tail m) h = ground (arith, any-Memᴰ m h)

  pub any-append : (xs ys : List A) → any p (xs ++ ys) ≡ (any p xs || any p ys)
  any-append [] ys = refl
  any-append (x ∷ xs) ys = ground (arith, any-append xs ys)
