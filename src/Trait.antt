-- ===== src/Trait.antt =====
-- src/modules/nft/trait.service.ts: how often the traits of a collection's NFTs occur.
pub mod Totals
mod Tests
use u2u_marketplace_api.Common.{
  ℕ, ◌+◌, String, Option, none, some, List, [], ◌∷◌, ◌++◌, map, if◌then◌else◌, ◌===◌, String_eq,
  lookup, insert,
}

-- `AggregatedTrait`: a row that the grouping query answers with.
pub record AggregatedTrait : Type 0 where
  pub trait_type : String
  pub value : String
  pub count : ℕ

-- A row of `Trait`.
pub record Trait : Type 0 where
  pub trait_type : String
  pub value : String

-- The values of `traitGeneralInfoMap` and of `traitInfo`, each value of the type with its count.
pub record TypeInfo : Type 0 where
  pub count : ℕ
  pub traits : List (String × ℕ)

-- `TraitGeneralInfo`
pub record TraitGeneralInfo : Type 0 where
  pub key : String
  pub count : ℕ
  pub traits : List (String × ℕ)

abbrev pub no_info : TypeInfo
no_info = record { count = 0; traits = [] }

abbrev pub info_of : Option TypeInfo → TypeInfo
info_of none = no_info
info_of (some info) = info

abbrev pub or_zero : Option ℕ → ℕ
or_zero none = 0
or_zero (some n) = n

-- `traits.find`, then the increment of what was found or the push of a new value.
abbrev pub add_value : String → ℕ → List (String × ℕ) → List (String × ℕ)
add_value value n [] = (value, n) ∷ []
add_value value n ((v, c) ∷ traits) =
    if v === value then (v, c + n) ∷ traits else (v, c) ∷ add_value value n traits

-- One round of the `forEach` of `findUniqueTraitsInCollection`.
pub add_aggregated : List (String × TypeInfo) → AggregatedTrait → List (String × TypeInfo)
add_aggregated infos row =
    let info = info_of (lookup row.trait_type infos) in
    insert row.trait_type
      (record {
        count = info.count + row.count;
        traits = add_value row.value row.count info.traits;
      })
      infos

pub aggregate : List (String × TypeInfo) → List AggregatedTrait → List (String × TypeInfo)
unfolding add_aggregated
aggregate infos [] = infos
aggregate infos (row ∷ rows) = aggregate (add_aggregated infos row) rows

abbrev pub general_info : String × TypeInfo → TraitGeneralInfo
general_info (key, info) = record { key = key; count = info.count; traits = info.traits }

-- `findUniqueTraitsInCollection`, from the rows that the query answers with.
pub find_unique_traits : List AggregatedTrait → List TraitGeneralInfo
unfolding aggregate
find_unique_traits rows = map general_info (aggregate [] rows)

-- One round of the inner `forEach` of `summarizeTraits`.
pub count_trait : List (String × TypeInfo) → Trait → List (String × TypeInfo)
count_trait infos trait =
    let info = info_of (lookup trait.trait_type infos) in
    insert trait.trait_type
      (record {
        count = info.count + 1;
        traits = insert trait.value (or_zero (lookup trait.value info.traits) + 1) info.traits;
      })
      infos

pub count_traits : List (String × TypeInfo) → List Trait → List (String × TypeInfo)
unfolding count_trait
count_traits infos [] = infos
count_traits infos (trait ∷ traits) = count_traits (count_trait infos trait) traits

-- The outer `forEach`, over the traits of each NFT.
pub count_nfts : List (String × TypeInfo) → List (List Trait) → List (String × TypeInfo)
unfolding count_traits
count_nfts infos [] = infos
count_nfts infos (traits ∷ nfts) = count_nfts (count_traits infos traits) nfts

-- `summarizeTraits`, from the traits of each NFT.
pub summarize_traits : List (List Trait) → List TraitGeneralInfo
unfolding count_nfts
summarize_traits [] = []
summarize_traits (traits ∷ nfts) = map general_info (count_nfts [] (traits ∷ nfts))
