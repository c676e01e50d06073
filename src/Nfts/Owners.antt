-- ===== src/Nfts/Owners.antt =====
-- `getCurrentOwnersInternal` of src/modules/nft/nft.service.ts: the owners of an NFT, from the answer
-- of the subgraph and the table of users.
use u2u_marketplace_api.Common.{
  ℕ, String, Bool, true, false, ◌&&◌, not, Option, none, some, List, [], ◌∷◌, map, ◌===◌, String_eq,
  find, any, filter,
}
use u2u_marketplace_api.Common.{ltb}
use u2u_marketplace_api.Database.{Prisma}
use u2u_marketplace_api.Database.Schema.{
  ContractType, erc721, erc1155, User, Db, Outcome, done, refused,
}

-- A row of `erc1155Balances`; the balance without an account is the total supply.
pub record Balance : Type 0 where
  pub account : Option String
  pub value : ℕ

-- `ZERO_ADDR`
abbrev pub zero_addr : String
zero_addr = "0x0000000000000000000000000000000000000000"

-- `creatorSelect`
pub record Creator : Type 0 where
  pub id : ℕ
  pub email : Option String
  pub avatar : Option String
  pub username : Option String
  pub public_key : Option String
  pub account_status : Bool
  pub verify_email : Bool
  pub signer : String

abbrev pub creator_select : User → Creator
creator_select u = record {
  id = u.id;
  email = u.email;
  avatar = u.avatar;
  username = u.username;
  public_key = u.public_key;
  account_status = u.account_status;
  verify_email = u.verify_email;
  signer = u.signer;
}

-- An owner who is a user, with the quantity where one is found, or only an address.
pub data Owner : Type 0 where
  known : Creator → Option ℕ → Owner
  address_only : String → Owner

pub record Owners : Type 0 where
  pub owners : List Owner
  pub total_supply : ℕ

-- `nftInfoWithOwner`: the owners of `erc721Tokens`, none where the answer has no such field.
pub record NftInfo : Type 0 where
  pub erc1155_balances : List Balance
  pub erc721_tokens : Option (List String)

abbrev pub is_supply : Balance → Bool
is_supply b = ltb 0 b.value && elim b.account [ none ↦ true | some account ↦ false ]

-- The balances whose account counts as an owner.
abbrev pub is_held : Balance → Bool
is_held b =
    elim b.account [ none ↦ false | some account ↦ not (account === zero_addr) ] && ltb 0 b.value

abbrev pub is_account_of : String → Balance → Bool
is_account_of signer b = elim b.account [ none ↦ false | some account ↦ account === signer ]

-- `signer: { in: ownerAddresses }`
abbrev pub is_holder : List Balance → User → Bool
is_holder balances u = any (is_account_of u.signer) (filter is_held balances)

abbrev pub owner_of : List Balance → User → Owner
owner_of balances u =
    known (creator_select u)
      (elim (find (is_account_of u.signer) balances) [ none ↦ none | some b ↦ some b.value ])

module _ (prisma : Prisma) where
  -- The last lines: where no owner is a user, the first owner of `erc721Tokens` is answered, which
  -- throws where there is none.
  unfoldable pub owners_or_first : NftInfo → List Owner → ℕ → Outcome Owners
  owners_or_first info [] total_supply = elim info.erc721_tokens [
    | none ↦ refused
    | some tokens ↦ elim tokens [
      | [] ↦ refused
      | owner_id ∷ rest ↦
          done (record { owners = address_only owner_id ∷ []; total_supply = total_supply })
    ]
  ]
  owners_or_first info (owner ∷ owners) total_supply =
      done (record { owners = owner ∷ owners; total_supply = total_supply })

  -- The branch for ERC1155
  unfoldable pub owners_1155 : NftInfo → Db → Outcome Owners
  unfolding owners_or_first
  owners_1155 info db = elim (find is_supply info.erc1155_balances) [
    | none ↦ refused
    | some supply ↦
        owners_or_first info
          (map (owner_of info.erc1155_balances)
            (prisma.find_many (is_holder info.erc1155_balances) db.users))
          supply.value
  ]

  -- The branch for ERC721
  unfoldable pub owners_721 : NftInfo → Db → Outcome Owners
  unfolding owners_or_first
  owners_721 info db = elim info.erc721_tokens [
    | none ↦ refused
    | some tokens ↦ elim tokens [
      | [] ↦ refused
      | owner_id ∷ rest ↦
          owners_or_first info
            (map (λ u. known (creator_select u) none)
              (prisma.find_many (λ (u : User). u.signer === owner_id) db.users))
            1
    ]
  ]

  -- `balances` and `tokens` are what the query of the type answers with; the query for an ERC1155
  -- does not ask for `erc721Tokens`.
  unfoldable pub get_current_owners_internal :
      ContractType → List Balance → List String → Db → Outcome Owners
  unfolding owners_1155 owners_721
  get_current_owners_internal erc1155 balances tokens db =
      owners_1155 (record { erc1155_balances = balances; erc721_tokens = none }) db
  get_current_owners_internal erc721 balances tokens db =
      owners_721 (record { erc1155_balances = []; erc721_tokens = some tokens }) db
