-- ===== src/Common/Dict.antt =====
-- Equality as an instance, and a JavaScript `Map`: its entries in insertion order.
use Prim.Native.Nat.{ℕ}
use Prim.Native.String.{String}
use mathlib.Core.Path.{◌≡◌, refl, sym, ap₂, ◌∙◌}
use mathlib.Core.Logic.{◌↔◌, ◌≢◌, inl, inr}
use mathlib.Core.Bool.{Bool, true, false}
use mathlib.Core.Option.{Option, none, some}
use mathlib.Core.List.{List, [], ◌∷◌, Memᴰ}
use text.Mathlib.Text.{◌==◌ as str_eq}
use text.Mathlib.TextEquality.{eq_iff}
use u2u_marketplace_api.Common.Tests.{◌==◌ as nat_eq, ==_iff, if◌then◌else◌, Bool-cases}

pub record Eq {ℓ} (A : Type ℓ) : Type ℓ where
  pub beq : A → A → Bool
  pub beq_iff : (a b : A) → (beq a b ≡ true) ↔ (a ≡ b)

infix 50 ◌===◌
abbrev pub ◌===◌ {ℓ} : {A : Type ℓ} ⦃e : Eq A⦄ → A → A → Bool
◌===◌ ⦃e⦄ = e.beq

instance abbrev pub ℕ_eq : Eq ℕ
ℕ_eq = record { beq = nat_eq; beq_iff = ==_iff }

instance abbrev pub String_eq : Eq String
String_eq = record { beq = str_eq; beq_iff = eq_iff }

module _ {ℓ κ} {K : Type ℓ} {V : Type κ} ⦃e : Eq K⦄ where
  -- `map.get(k)`, `undefined` where the key is missing
  abbrev pub lookup : K → List (K × V) → Option V
  lookup k [] = none
  lookup k ((j, v) ∷ d) = if j === k then some v else lookup k d

  -- `map.set(k, v)`: an entry keeps its place, a new one goes to the end
  abbrev pub insert : K → V → List (K × V) → List (K × V)
  insert k v [] = (k, v) ∷ []
  insert k v ((j, w) ∷ d) = if j === k then (j, v) ∷ d else (j, w) ∷ insert k v d

  pub lookup-insert_self : (k : K) (v : V) (d : List (K × V)) → lookup k (insert k v d) ≡ some v
  lookup-insert_self k v [] = rw ((e.beq_iff k k).1 refl)
  lookup-insert_self k v ((j, w) ∷ d) = elim (Bool-cases (j === k)) [
    | inl same ↦ rw (same, same)
    | inr other ↦ rw (other, other) (lookup-insert_self k v d)
  ]

module _ {ℓ} {K : Type ℓ} ⦃e : Eq K⦄ where
  pub ===-ne : (a b : K) → (a === b) ≡ false → a ≢ b
  ===-ne a b f same = cc (f, (e.beq_iff a b).1 same)

  pub ===_sym : (a b : K) → (a === b) ≡ false → (b === a) ≡ false
  ===_sym a b f = elim (Bool-cases (b === a)) [
    | inl t ↦ absurd (===-ne a b f (sym ((e.beq_iff b a).0 t)))
    | inr g ↦ g
  ]

module _ {ℓ κ} {K : Type ℓ} {V : Type κ} ⦃e : Eq K⦄ where
  pub lookup-insert :
      (k j : K) (v : V) (d : List (K × V))
      → lookup j (insert k v d) ≡ (if k === j then some v else lookup j d)
  lookup-insert k j v [] = refl
  lookup-insert k j v ((i, w) ∷ d) = elim (Bool-cases (i === k)) [
    | inl same ↦
        let ik = (e.beq_iff i k).0 same in
        rw (same, insert)
          (elim (Bool-cases (i === j)) [
            | inl t ↦ rw (t, lookup) (rw (rw ik at t) refl)
            | inr f ↦ rw (f, lookup) (rw (rw ik at f) refl)
          ])
    | inr other ↦
        rw (other, insert)
          (elim (Bool-cases (i === j)) [
            | inl t ↦
                let ij = (e.beq_iff i j).0 t in
                rw (t, lookup)
                  (elim (Bool-cases (k === j)) [
                    | inl s ↦ absurd (===-ne i k other (ij ∙ sym ((e.beq_iff k j).0 s)))
                    | inr s ↦ rw s refl
                  ])
            | inr f ↦ rw (f, lookup) (lookup-insert k j v d)
          ])
  ]

  pub lookup-Memᴰ : (k : K) (v : V) (d : List (K × V)) → lookup k d ≡ some v → Memᴰ (k, v) d
  lookup-Memᴰ k v [] h = absurd (cc h)
  lookup-Memᴰ k v ((j, w) ∷ d) h = elim (Bool-cases (j === k)) [
    | inl t ↦
        let same : some w ≡ some v = rw (t, lookup) at h in
        let value : v ≡ w = cc same in
        Memᴰ.head (ap₂ (λ a b. (a, b)) (sym ((e.beq_iff j k).0 t)) value)
    | inr f ↦ Memᴰ.tail (lookup-Memᴰ k v d (rw (f, lookup) at h))
  ]

  -- Each key has one entry.
  abbrev pub DistinctKeys : List (K × V) → Type κ
  DistinctKeys [] = Unit
  DistinctKeys ((k, v) ∷ d) = (lookup k d ≡ none) × DistinctKeys d

  pub insert-DistinctKeys :
      (k : K) (v : V) (d : List (K × V)) → DistinctKeys d → DistinctKeys (insert k v d)
  insert-DistinctKeys k v [] h = (refl, tt)
  insert-DistinctKeys k v ((j, w) ∷ d) (n, h) = elim (Bool-cases (j === k)) [
    | inl t ↦ rw t (n, h)
    | inr f ↦ rw f (lookup-insert k j v d ∙ rw (===_sym j k f) n, insert-DistinctKeys k v d h)
  ]
