-- ===== src/Trait/Tests.antt =====
-- Runs of the summaries of traits, and the theorems at concrete traits.
use u2u_marketplace_api.Common.{ℕ, String, ◌≡◌, refl, List, [], ◌∷◌, DistinctKeys, String_eq}
use u2u_marketplace_api.Trait.{
  AggregatedTrait, Trait, TraitGeneralInfo, aggregate, find_unique_traits,
}
use u2u_marketplace_api.Trait.Totals.{
  type_total, value_total, counted_type, counted_value, aggregate-totals,
}

abbrev row : String → String → ℕ → AggregatedTrait
row type value count = record { trait_type = type; value = value; count = count }

abbrev trait : String → String → Trait
trait type value = record { trait_type = type; value = value }

abbrev rows : List AggregatedTrait
rows = row "hat" "red" 3 ∷ row "eyes" "blue" 2 ∷ row "hat" "green" 4 ∷ []

abbrev nfts : List (List Trait)
nfts = (trait "hat" "red" ∷ trait "eyes" "blue" ∷ []) ∷ [] ∷ (trait "hat" "red" ∷ []) ∷ []

abbrev infos : List TraitGeneralInfo
infos =
    record { key = "hat"; count = 7; traits = ("red", 3) ∷ ("green", 4) ∷ [] }
    ∷ record { key = "eyes"; count = 2; traits = ("blue", 2) ∷ [] }
    ∷ []

summary : find_unique_traits rows ≡ infos
unfolding find_unique_traits
summary = refl

aggregate-totals_example :
    DistinctKeys (aggregate [] rows)
    × ((type : String) → counted_type type (aggregate [] rows) ≡ type_total type rows)
    × ((type value : String)
        → counted_value type value (aggregate [] rows) ≡ value_total type value rows)
aggregate-totals_example = aggregate-totals rows
