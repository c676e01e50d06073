-- ===== src/Collections/General.antt =====
-- `getGeneralCollectionData` of src/modules/collection/collection.service.ts with
-- `getAllCollectionExternal` of src/modules/graph-qlcaller/getCollectionMarketData.service.ts.
use Prim.Native.String.{◌++◌}
use u2u_marketplace_api.Common.{
  ℕ, String, ◌≡◌, refl, Bool, false, Option, none, some, if◌then◌else◌, ◌===◌, String_eq,
}
use u2u_marketplace_api.Common.Int.{pos}
use u2u_marketplace_api.Database.Schema.{ContractType, erc721, erc1155}
use u2u_marketplace_api.Metric.{num, General}
use u2u_marketplace_api.Metric.Handlers.{
  ContractCount, CollectionCount, volume_of, holders_of, count_of, general_of, nothing_known,
}
use u2u_marketplace_api.Session.{
  Redis, of_id, of_email, of_external, ExternalRecord, get_session_info,
}

-- The totals with those of an extended collection in their place.
abbrev pub general_with : Option ExternalRecord → ContractType → CollectionCount → General
general_with (some external) erc721 c = record {
  volumn = volume_of c.erc721_contract;
  total_owner = num (pos external.total_owner);
  total_nft = num (pos external.total_nft);
}
general_with none erc721 c = record {
  volumn = volume_of c.erc721_contract;
  total_owner = holders_of c.erc721_contract;
  total_nft = count_of c.erc721_contract;
}
general_with (some external) erc1155 c = record {
  volumn = volume_of c.erc721_contract;
  total_owner = num (pos external.total_owner);
  total_nft = num (pos external.total_nft);
}
general_with none erc1155 c = record {
  volumn = volume_of c.erc721_contract;
  total_owner = holders_of c.erc721_contract;
  total_nft = count_of c.erc721_contract;
}

module _ (redis : Redis) where
  open redis use {Store}

  -- `getAllCollectionExternal`: undefined, none, where the text is missing or no such record.
  unfoldable pub get_all_collection_external : String → ℕ → Store → Option ExternalRecord
  unfolding get_session_info
  get_all_collection_external contract now store =
      elim (get_session_info redis ("External-" ++ contract) now store) [
        | none ↦ none
        | some (of_id _) ↦ none
        | some (of_email _) ↦ some (record { total_nft = 0; total_owner = 0 })
        | some (of_external r) ↦ some r
      ]

  -- The subgraph's answer on a contract is a parameter, none where the request throws.
  module _ (get_collection_count : String → Option CollectionCount) where
    abbrev counted : String → Option ExternalRecord → ContractType → Option General
    counted address external type = elim (get_collection_count address) [
      | none ↦ none
      | some c ↦ some (general_with external type c)
    ]

    -- `getGeneralCollectionData`; none where it throws, as on the fields of an undefined record.
    unfoldable pub get_general_extended :
        Option String → ContractType → Bool → ℕ → Store → Option General
    unfolding get_all_collection_external
    get_general_extended none type flag_extend now store = some nothing_known
    get_general_extended (some address) type flag_extend now store =
        if address === ""
        then some nothing_known
        else (if flag_extend
            then elim (get_all_collection_external address now store) [
              | none ↦ none
              | some external ↦ counted address (some external) type
            ]
            else counted address none type)

    -- A collection whose contract the subgraph knows as ERC1155 only, and that is not extended, is
    -- shown without volume, owners and items, whatever the subgraph counts for it, while the back
    -- office shows its owners and items.
    pub get_general_extended-erc1155 :
        (address : String) (now : ℕ) (store : Store) (c : CollectionCount) (known : ContractCount)
        → (address === "") ≡ false
        → get_collection_count address ≡ some c
        → c.erc721_contract ≡ none
        → c.erc1155_contract ≡ some known
        → (get_general_extended (some address) erc1155 false now store
            ≡ some (record {
              volumn = num (pos 0);
              total_owner = num (pos 0);
              total_nft = num (pos 0);
            }))
          × ((general_of erc1155 c).total_owner ≡ num (pos known.holder_count))
          × ((general_of erc1155 c).total_nft ≡ num (pos known.count))
    unfolding get_general_extended
    get_general_extended-erc1155 address now store c known given e n k =
        (rw (given, get_general_extended) (rw (e, n, counted) refl), rw k refl, rw k refl)
