-- ===== src/Common/Order.antt =====
-- Values that are compared by `<` alone, such as the doubles of a price column, and the smallest
-- of a list by `reduce`.
use mathlib.Core.Path.{◌≡◌, refl, sym, subst}
use mathlib.Core.Bool.{Bool, true, false}
use mathlib.Core.Logic.{◌⊎◌, inl, inr}
use mathlib.Core.List.{List, [], ◌∷◌, Memᴰ}
use Prim.Native.Nat.{ℕ}
use native.Mathlib.Omega.{arith}
use u2u_marketplace_api.Common.Tests.{ltb, if◌then◌else◌, Bool-cases}
use u2u_marketplace_api.Common.Lists.{All}

-- The laws of `<` that hold of the numbers a column of doubles can hold.
pub record StrictOrder (A : Type 0) : Type 0 where
  pub lt : A → A → Bool
  pub lt_irrefl : (a : A) → lt a a ≡ false
  pub lt_trans : (a b c : A) → lt a b ≡ true → lt b c ≡ true → lt a c ≡ true

pub ltb_irrefl : (a : ℕ) → ltb a a ≡ false
ltb_irrefl a = ground arith

pub ltb_trans : (a b c : ℕ) → ltb a b ≡ true → ltb b c ≡ true → ltb a c ≡ true
ltb_trans a b c p q = ground arith

abbrev pub ℕ_order : StrictOrder ℕ
ℕ_order = record { lt = ltb; lt_irrefl = ltb_irrefl; lt_trans = ltb_trans }

module _ {A B : Type 0} (order : StrictOrder B) (price : A → B) where
  open order use {lt, lt_irrefl, lt_trans}

  -- `items.reduce((min, item) => price(item) < price(min) ? item : min, min)`
  unfoldable pub smallest : A → List A → A
  smallest least [] = least
  smallest least (x ∷ xs) = smallest (if lt (price x) (price least) then x else least) xs

  abbrev pub IsBelow : A → A → Type 0
  IsBelow a x = lt (price x) (price a) ≡ false

  -- A step of the fold lowers the least, or keeps it.
  smallest-first :
      (a x : A) (xs : List A) → lt (price x) (price a) ≡ true → smallest a (x ∷ xs) ≡ smallest x xs
  unfolding smallest
  smallest-first a x xs t = rw t refl

  smallest-keep :
      (a x : A) (xs : List A) → lt (price x) (price a) ≡ false → smallest a (x ∷ xs) ≡ smallest a xs
  unfolding smallest
  smallest-keep a x xs f = rw f refl

  abbrev Origin : A → List A → A → Type 0
  Origin least xs s = (s ≡ least) ⊎ (Memᴰ s xs × (lt (price s) (price least) ≡ true))

  pub smallest-origin :
      (least : A) (xs : List A)
      → (smallest least xs ≡ least)
        ⊎ (Memᴰ (smallest least xs) xs × (lt (price (smallest least xs)) (price least) ≡ true))
  smallest-origin least [] = inl (unfold smallest in refl)
  smallest-origin least (x ∷ xs) = elim (Bool-cases (lt (price x) (price least))) [
    | inl t ↦
        subst (Origin least (x ∷ xs)) (sym (smallest-first least x xs t))
          (elim (smallest-origin x xs) [
            | inl same ↦ inr (Memᴰ.head same, rw same t)
            | inr (m, below) ↦ inr (Memᴰ.tail m, lt_trans _ _ _ below t)
          ])
    | inr f ↦
        subst (Origin least (x ∷ xs)) (sym (smallest-keep least x xs f))
          (elim (smallest-origin least xs) [
            | inl same ↦ inl same
            | inr (m, below) ↦ inr (Memᴰ.tail m, below)
          ])
  ]

  -- Nothing below the old least is below the new.
  pub smallest_minimal :
      (least : A) (xs : List A) (x : A) → IsBelow least x → IsBelow (smallest least xs) x
  smallest_minimal least xs x h = elim (smallest-origin least xs) [
    | inl same ↦ rw same h
    | inr (_, down) ↦ elim (Bool-cases (lt (price x) (price (smallest least xs)))) [
      | inl t ↦ absurd (cc (lt_trans _ _ _ t down))
      | inr f ↦ f
    ]
  ]

  -- No element is below the result.
  pub smallest-IsBelow : (least : A) (xs : List A) → All (IsBelow (smallest least xs)) xs
  smallest-IsBelow least [] = tt
  smallest-IsBelow least (x ∷ xs) = elim (Bool-cases (lt (price x) (price least))) [
    | inl t ↦
        subst (λ s. All (IsBelow s) (x ∷ xs)) (sym (smallest-first least x xs t))
          (smallest_minimal x xs x (lt_irrefl (price x)), smallest-IsBelow x xs)
    | inr f ↦
        subst (λ s. All (IsBelow s) (x ∷ xs)) (sym (smallest-keep least x xs f))
          (smallest_minimal least xs x f, smallest-IsBelow least xs)
  ]
