-- ===== src/Trait/Totals.antt =====
-- The two summaries of src/modules/nft/trait.service.ts against the traits that they count.
use u2u_marketplace_api.Common.{
  ℕ, ◌+◌, String, ◌≡◌, refl, sym, ap, ◌∙◌, inl, inr, ◌&&◌, some, List, [], ◌∷◌, ◌++◌, map, arith,
  if◌then◌else◌, Bool-cases, ◌===◌, String_eq, lookup, insert, lookup-insert, DistinctKeys,
  insert-DistinctKeys,
}
use u2u_marketplace_api.Trait.{
  AggregatedTrait, Trait, TypeInfo, info_of, or_zero, add_value, add_aggregated, aggregate,
  general_info, find_unique_traits, count_trait, count_traits, count_nfts, summarize_traits,
}

-- The rows' counts for a type, and for a value of it.
abbrev pub type_total : String → List AggregatedTrait → ℕ
type_total type [] = 0
type_total type (row ∷ rows) =
    (if row.trait_type === type then row.count else 0) + type_total type rows

abbrev pub value_total : String → String → List AggregatedTrait → ℕ
value_total type value [] = 0
value_total type value (row ∷ rows) =
    (if (row.trait_type === type) && (row.value === value) then row.count else 0)
    + value_total type value rows

-- What a map says of a type, and of a value of it.
abbrev pub counted_type : String → List (String × TypeInfo) → ℕ
counted_type type infos = (info_of (lookup type infos)).count

abbrev pub counted_value : String → String → List (String × TypeInfo) → ℕ
counted_value type value infos = or_zero (lookup value (info_of (lookup type infos)).traits)

-- Looking a value up and changing it is one insertion.
add_value-insert :
    (v : String) (n m : ℕ) (traits : List (String × ℕ))
    → or_zero (lookup v traits) + n ≡ m
    → add_value v n traits ≡ insert v m traits
add_value-insert v n m [] h = ap (λ k. (v, k) ∷ []) (omega (arith, h))
add_value-insert v n m ((w, c) ∷ traits) h = elim (Bool-cases (w === v)) [
  | inl t ↦ rw t (ap (λ k. (w, k) ∷ traits) (rw (t, lookup) at h))
  | inr f ↦ rw f (ap (λ r. (w, c) ∷ r) (add_value-insert v n m traits (rw (f, lookup) at h)))
]

lookup-add_value :
    (v w : String) (n : ℕ) (traits : List (String × ℕ))
    → or_zero (lookup w (add_value v n traits))
      ≡ or_zero (lookup w traits) + (if v === w then n else 0)
lookup-add_value v w n traits =
    let put = lookup-insert v w (or_zero (lookup v traits) + n) traits in
    ap (λ l. or_zero (lookup w l))
      (add_value-insert v n (or_zero (lookup v traits) + n) traits refl)
    ∙ ap or_zero put
    ∙ added
  where
    added :
        or_zero (if v === w then some (or_zero (lookup v traits) + n) else lookup w traits)
        ≡ or_zero (lookup w traits) + (if v === w then n else 0)
    added = elim (Bool-cases (v === w)) [
      | inl t ↦ rw t (ap (λ k. or_zero (lookup k traits) + n) ((String_eq.beq_iff v w).0 t))
      | inr f ↦ rw f (omega arith)
    ]

module _ (infos : List (String × TypeInfo)) (row : AggregatedTrait) (type : String) where
  abbrev grown : TypeInfo
  grown = record {
    count = (info_of (lookup row.trait_type infos)).count + row.count;
    traits = add_value row.value row.count (info_of (lookup row.trait_type infos)).traits;
  }

  -- One row changes the information of its own type only.
  lookup-add_aggregated :
      lookup type (add_aggregated infos row)
      ≡ (if row.trait_type === type then some grown else lookup type infos)
  unfolding add_aggregated
  lookup-add_aggregated = lookup-insert row.trait_type type grown infos

  add_aggregated-counted_type :
      counted_type type (add_aggregated infos row)
      ≡ counted_type type infos + (if row.trait_type === type then row.count else 0)
  add_aggregated-counted_type =
      ap (λ o. (info_of o).count) lookup-add_aggregated
      ∙ elim (Bool-cases (row.trait_type === type)) [
        | inl t ↦ rw t (
            ap (λ k. counted_type k infos + row.count)
              ((String_eq.beq_iff row.trait_type type).0 t))
        | inr f ↦ rw f (omega arith)
      ]

  add_aggregated-counted_value :
      (value : String)
      → counted_value type value (add_aggregated infos row)
        ≡ counted_value type value infos
          + (if (row.trait_type === type) && (row.value === value) then row.count else 0)
  add_aggregated-counted_value value =
      ap (λ o. or_zero (lookup value (info_of o).traits)) lookup-add_aggregated
      ∙ elim (Bool-cases (row.trait_type === type)) [
        | inl t ↦ rw t (
            lookup-add_value row.value value row.count
              (info_of (lookup row.trait_type infos)).traits
            ∙ ap (λ k. counted_value k value infos + (if row.value === value then row.count else 0))
                ((String_eq.beq_iff row.trait_type type).0 t))
        | inr f ↦ rw f (omega arith)
      ]

aggregate-counted_type :
    (type : String) (infos : List (String × TypeInfo)) (rows : List AggregatedTrait)
    → counted_type type (aggregate infos rows) ≡ counted_type type infos + type_total type rows
unfolding aggregate
aggregate-counted_type type infos [] = omega arith
aggregate-counted_type type infos (row ∷ rows) = omega (
  arith,
  aggregate-counted_type type (add_aggregated infos row) rows,
  add_aggregated-counted_type infos row type,
)

aggregate-counted_value :
    (type value : String) (infos : List (String × TypeInfo)) (rows : List AggregatedTrait)
    → counted_value type value (aggregate infos rows)
      ≡ counted_value type value infos + value_total type value rows
unfolding aggregate
aggregate-counted_value type value infos [] = omega arith
aggregate-counted_value type value infos (row ∷ rows) = omega (
  arith,
  aggregate-counted_value type value (add_aggregated infos row) rows,
  add_aggregated-counted_value infos row type value,
)

aggregate-DistinctKeys :
    (infos : List (String × TypeInfo)) (rows : List AggregatedTrait)
    → DistinctKeys infos
    → DistinctKeys (aggregate infos rows)
unfolding aggregate add_aggregated
aggregate-DistinctKeys infos [] h = h
aggregate-DistinctKeys infos (row ∷ rows) h =
    aggregate-DistinctKeys (add_aggregated infos row) rows
      (insert-DistinctKeys row.trait_type (grown infos row row.trait_type) infos h)

-- The map that `findUniqueTraitsInCollection` builds has one entry for a type. The entry's count is
-- the sum of the counts of the type's rows, and the count of a value there is the sum of the counts
-- of the rows with this type and value.
pub aggregate-totals :
    (rows : List AggregatedTrait)
    → DistinctKeys (aggregate [] rows)
      × ((type : String) → counted_type type (aggregate [] rows) ≡ type_total type rows)
      × ((type value : String)
          → counted_value type value (aggregate [] rows) ≡ value_total type value rows)
aggregate-totals rows = (
  aggregate-DistinctKeys [] rows tt,
  λ type. omega (arith, aggregate-counted_type type [] rows),
  λ type value. omega (arith, aggregate-counted_value type value [] rows),
)

-- A trait is a row of count 1.
abbrev pub single : Trait → AggregatedTrait
single t = record { trait_type = t.trait_type; value = t.value; count = 1 }

abbrev pub all_traits : List (List Trait) → List AggregatedTrait
all_traits [] = []
all_traits (traits ∷ nfts) = map single traits ++ all_traits nfts

count_trait-add_aggregated :
    (infos : List (String × TypeInfo)) (t : Trait)
    → count_trait infos t ≡ add_aggregated infos (single t)
unfolding count_trait add_aggregated
count_trait-add_aggregated infos t =
    let info = info_of (lookup t.trait_type infos) in
    ap (λ traits. insert t.trait_type (record { count = info.count + 1; traits = traits }) infos)
      (sym (add_value-insert t.value 1 (or_zero (lookup t.value info.traits) + 1) info.traits refl))

count_traits-aggregate :
    (infos : List (String × TypeInfo)) (traits : List Trait) (rows : List AggregatedTrait)
    → aggregate (count_traits infos traits) rows ≡ aggregate infos (map single traits ++ rows)
unfolding count_traits aggregate
count_traits-aggregate infos [] rows = refl
count_traits-aggregate infos (t ∷ traits) rows =
    count_traits-aggregate (count_trait infos t) traits rows
    ∙ ap (λ m. aggregate m (map single traits ++ rows)) (count_trait-add_aggregated infos t)

count_nfts-aggregate :
    (infos : List (String × TypeInfo)) (nfts : List (List Trait))
    → count_nfts infos nfts ≡ aggregate infos (all_traits nfts)
unfolding count_nfts aggregate
count_nfts-aggregate infos [] = refl
count_nfts-aggregate infos (traits ∷ nfts) =
    count_nfts-aggregate (count_traits infos traits) nfts
    ∙ count_traits-aggregate infos traits (all_traits nfts)

-- Counting the NFTs' traits one by one summarises them as `findUniqueTraitsInCollection` summarises
-- the same traits, each as a row of count 1.
pub summarize_traits-find_unique_traits :
    (nfts : List (List Trait)) → summarize_traits nfts ≡ find_unique_traits (all_traits nfts)
unfolding summarize_traits find_unique_traits aggregate
summarize_traits-find_unique_traits [] = refl
summarize_traits-find_unique_traits (traits ∷ nfts) =
    ap (map general_info) (count_nfts-aggregate [] (traits ∷ nfts))
