-- ===== src/Nfts/Keys.antt =====
-- Requests to create NFTs (src/modules/nft/nft.service.ts), one after another: what is unique, and
-- who owns.
use u2u_marketplace_api.Common.{
  ℕ, ◌≤◌, String, ◌≡◌, refl, sym, ◌∙◌, ◌⊎◌, inl, inr, Bool, true, false, ◌&&◌, none, some, List, [],
  ◌∷◌, ◌++◌, ◌==◌, ◌===◌, arith, Bool-cases, Option-cases, String_eq, ℕ_eq, find, any, count, All,
  All-append, All-map, any-append,
}
use u2u_marketplace_api.Database.{Prisma}
use u2u_marketplace_api.Database.Rows.{one_more, find-count, none-find}
use u2u_marketplace_api.Database.Schema.{Nft, UserNft, Collection, Db}
use u2u_marketplace_api.Metric.Handlers.{same_nft}
use u2u_marketplace_api.Metric.Cascade.{same_nft_refl}
use u2u_marketplace_api.Nfts.{
  CreateNft, new_nft, new_owner, has_transaction, is_named, is_owner, address_has,
  check_nft_existence, store_nft, create_nft,
}

-- The user that an NFT names as its creator owns it.
abbrev pub is_owned : List UserNft → Nft → Bool
is_owned owners n = elim n.creator_id [
  | none ↦ true
  | some user_id ↦ any (is_owner user_id n.id n.collection_id) owners
]

abbrev pub is_linked : List Nft → UserNft → Bool
is_linked nfts o = any (same_nft o.nft_id o.collection_id) nfts

-- No two NFTs have one key, one transaction, or one name in one collection; each is owned by its
-- creator, and each row of an owner has its NFT.
pub record IsMinted (db : Db) : Type 0 where
  pub one_key : (id : String) (collection_id : ℕ) → count (same_nft id collection_id) db.nfts ≤ 1
  pub one_transaction : (tx : String) → count (has_transaction tx) db.nfts ≤ 1
  pub one_name :
      (name : String) (collection_id : ℕ) → count (is_named name collection_id) db.nfts ≤ 1
  pub owned : All (λ n. is_owned db.user_nfts n ≡ true) db.nfts
  pub linked : All (λ o. is_linked db.nfts o ≡ true) db.user_nfts

-- The tables after a request that made an NFT, with what was free before it.
pub record Added (input : CreateNft) (user_id : ℕ) (db after : Db) : Type 0 where
  pub collection_id : ℕ
  pub free_key : find (same_nft input.id collection_id) db.nfts ≡ none
  pub free_transaction : find (has_transaction input.tx_creation_hash) db.nfts ≡ none
  pub free_name : find (is_named input.name collection_id) db.nfts ≡ none
  pub wrote : after ≡ record db {
    nfts = db.nfts ++ new_nft input user_id collection_id ∷ [];
    user_nfts = db.user_nfts ++ new_owner input user_id collection_id ∷ [];
  }

module _ {A : Type 0} (p : A → Bool) (xs : List A) (x : A) where
  any_more : any p xs ≡ true → any p (xs ++ x ∷ []) ≡ true
  any_more h = rw (any-append p xs (x ∷ []), h) refl

  any_last : p x ≡ true → any p (xs ++ x ∷ []) ≡ true
  any_last h =
      rw (any-append p xs (x ∷ []))
        (elim (Bool-cases (any p xs)) [ inl t ↦ rw t refl | inr f ↦ rw (f, h) refl ])

owned_more :
    (owners : List UserNft) (o : UserNft) (n : Nft)
    → is_owned owners n ≡ true
    → is_owned (owners ++ o ∷ []) n ≡ true
owned_more owners o n h = elim (Option-cases n.creator_id) [
  | inl e ↦ rw e refl
  | inr (user_id, e) ↦ rw e (any_more (is_owner user_id n.id n.collection_id) owners o (rw e at h))
]

is_owner_refl : (o : UserNft) → is_owner o.user_id o.nft_id o.collection_id o ≡ true
is_owner_refl o =
    rw ((ℕ_eq.beq_iff o.user_id o.user_id).1 refl, (String_eq.beq_iff o.nft_id o.nft_id).1 refl)
      ((ℕ_eq.beq_iff o.collection_id o.collection_id).1 refl)

both : (a b : Bool) → (a && b) ≡ true → (a ≡ true) × (b ≡ true)
both a b h = ground arith

same_nft-ends :
    (id : String) (collection_id : ℕ) (n : Nft)
    → same_nft id collection_id n ≡ true
    → (id ≡ n.id) × (collection_id ≡ n.collection_id)
same_nft-ends id collection_id n t =
    let (i, c) = both (n.id === id) (n.collection_id == collection_id) t in
    (sym ((String_eq.beq_iff n.id id).0 i), sym ((ℕ_eq.beq_iff n.collection_id collection_id).0 c))

is_named-ends :
    (name : String) (collection_id : ℕ) (n : Nft)
    → is_named name collection_id n ≡ true
    → (name ≡ n.name) × (collection_id ≡ n.collection_id)
is_named-ends name collection_id n t =
    let (i, c) = both (n.name === name) (n.collection_id == collection_id) t in
    (
      sym ((String_eq.beq_iff n.name name).0 i),
      sym ((ℕ_eq.beq_iff n.collection_id collection_id).0 c),
    )

is_owner-ends :
    (user_id : ℕ) (id : String) (collection_id : ℕ) (o : UserNft)
    → is_owner user_id id collection_id o ≡ true
    → (o.nft_id ≡ id) × (o.collection_id ≡ collection_id)
is_owner-ends user_id id collection_id o t =
    let (_, rest) =
      both (o.user_id == user_id) ((o.nft_id === id) && (o.collection_id == collection_id)) t in
    let (i, c) = both (o.nft_id === id) (o.collection_id == collection_id) rest in
    ((String_eq.beq_iff o.nft_id id).0 i, (ℕ_eq.beq_iff o.collection_id collection_id).0 c)

-- Where no NFT has a key, nobody owns one with it.
pub owner-nft :
    (user_id : ℕ) (id : String) (collection_id : ℕ) (nfts : List Nft) (owners : List UserNft)
    → All (λ o. is_linked nfts o ≡ true) owners
    → any (same_nft id collection_id) nfts ≡ false
    → any (is_owner user_id id collection_id) owners ≡ false
owner-nft user_id id collection_id nfts [] h free = refl
owner-nft user_id id collection_id nfts (o ∷ owners) (l, h) free =
    let rest = owner-nft user_id id collection_id nfts owners h free in
    elim (Bool-cases (is_owner user_id id collection_id o)) [
      | inr f ↦ rw (f, rest) refl
      | inl t ↦
          let (i, c) = is_owner-ends user_id id collection_id o t in
          absurd (cc (sym (rw (i, c) at l) ∙ free))
    ]

Added-IsMinted :
    (input : CreateNft) (user_id : ℕ) (db after : Db)
    → IsMinted db
    → Added input user_id db after
    → IsMinted after
Added-IsMinted input user_id db after minted added =
    let c = added.collection_id in
    let nft = new_nft input user_id c in
    let owner = new_owner input user_id c in
    rw added.wrote (record {
      one_key = λ id d. one_more (same_nft id d) nft db.nfts (minted.one_key id d) (λ t.
          let (i, e) = same_nft-ends id d nft t in
          rw (i, e) (find-count (same_nft input.id c) db.nfts added.free_key));
      one_transaction = λ tx.
          one_more (has_transaction tx) nft db.nfts (minted.one_transaction tx) (λ t.
            let e = sym ((String_eq.beq_iff input.tx_creation_hash tx).0 t) in
            rw e
              (find-count (has_transaction input.tx_creation_hash) db.nfts added.free_transaction));
      one_name = λ name d. one_more (is_named name d) nft db.nfts (minted.one_name name d) (λ t.
          let (i, e) = is_named-ends name d nft t in
          rw (i, e) (find-count (is_named input.name c) db.nfts added.free_name));
      owned =
          All-append (λ n. is_owned (db.user_nfts ++ owner ∷ []) n ≡ true) db.nfts (nft ∷ [])
            (All-map (λ n. is_owned (db.user_nfts ++ owner ∷ []) n ≡ true)
              (λ n t. owned_more db.user_nfts owner n t) db.nfts minted.owned)
            (any_last (is_owner user_id input.id c) db.user_nfts owner (is_owner_refl owner), tt);
      linked =
          All-append (λ o. is_linked (db.nfts ++ nft ∷ []) o ≡ true) db.user_nfts (owner ∷ [])
            (All-map (λ o. is_linked (db.nfts ++ nft ∷ []) o ≡ true)
              (λ o t. any_more (same_nft o.nft_id o.collection_id) db.nfts nft t) db.user_nfts
              minted.linked)
            (any_last (same_nft input.id c) db.nfts nft (same_nft_refl nft), tt);
    })

module _ (prisma : Prisma) where
  pub check_nft_existence-free :
      (name : String) (collection_id : ℕ) (db : Db)
      → check_nft_existence prisma name collection_id db ≡ false
      → find (is_named name collection_id) db.nfts ≡ none
  unfolding check_nft_existence
  check_nft_existence-free name collection_id db h =
      let law = prisma.find_first_law (is_named name collection_id) db.nfts in
      elim (Option-cases (prisma.find_first (is_named name collection_id) db.nfts)) [
        | inl n ↦ sym law ∙ n
        | inr (nft, e) ↦ absurd (cc (rw (e, check_nft_existence) at h))
      ]

  store_nft-adds :
      (input : CreateNft) (user_id : ℕ) (collection : Collection) (db : Db)
      → IsMinted db
      → find (has_transaction input.tx_creation_hash) db.nfts ≡ none
      → find (is_named input.name collection.id) db.nfts ≡ none
      → ((store_nft prisma input user_id collection db).1 ≡ db)
        ⊎ Added input user_id db (store_nft prisma input user_id collection db).1
  unfolding store_nft
  store_nft-adds input user_id collection db minted free_transaction free_name =
      let key = same_nft input.id collection.id in
      let owner = is_owner user_id input.id collection.id in
      let law = prisma.create_law key (new_nft input user_id collection.id) db.nfts in
      elim (Bool-cases (any key db.nfts)) [
        | inl t ↦ inl (rw (law, t, store_nft) refl)
        | inr f ↦
            let second =
              prisma.create_law owner (new_owner input user_id collection.id) db.user_nfts in
            let g = owner-nft user_id input.id collection.id db.nfts db.user_nfts minted.linked f in
            inr (
              rw (law, f, second, g, store_nft)
                (record {
                  collection_id = collection.id;
                  free_key = none-find key db.nfts f;
                  free_transaction = free_transaction;
                  free_name = free_name;
                  wrote = refl;
                }))
      ]

  module _ (contains : String → String → Bool) where
    -- A request leaves the tables as they are, or makes an NFT whose keys are free.
    create_nft-adds :
        (input : CreateNft) (user_id : ℕ) (db : Db)
        → IsMinted db
        → ((create_nft prisma contains input user_id db).1 ≡ db)
          ⊎ Added input user_id db (create_nft prisma contains input user_id db).1
    unfolding create_nft
    create_nft-adds input user_id db minted =
        let transaction = has_transaction input.tx_creation_hash in
        let place = address_has contains input.collection_id in
        elim (Option-cases (prisma.find_first transaction db.nfts)) [
          | inr (old, e) ↦ inl (rw (e, create_nft) refl)
          | inl tx ↦ elim (Option-cases (prisma.find_first place db.collections)) [
            | inl n ↦ inl (rw (tx, n, create_nft) refl)
            | inr (collection, c) ↦
                elim (Bool-cases (check_nft_existence prisma input.name collection.id db)) [
                  | inl t ↦ inl (rw (tx, c, t, create_nft) refl)
                  | inr f ↦
                      rw (tx, c, f, create_nft)
                        (store_nft-adds input user_id collection db minted
                          (sym (prisma.find_first_law transaction db.nfts) ∙ tx)
                          (check_nft_existence-free input.name collection.id db f))
                ]
          ]
        ]

    -- The requests of users, each with its input, one after another.
    abbrev pub create_all : List (CreateNft × ℕ) → Db → Db
    create_all [] db = db
    create_all ((input, user_id) ∷ requests) db =
        create_all requests (create_nft prisma contains input user_id db).1

    -- Whatever requests users make to create NFTs, one after another and successful or not: no two
    -- NFTs come to have one key, one transaction, or one name in one collection, each NFT is owned by
    -- the user that it names as its creator, and each row of an owner has its NFT, where this holds
    -- before.
    pub create_all-IsMinted :
        (requests : List (CreateNft × ℕ)) (db : Db)
        → IsMinted db
        → IsMinted (create_all requests db)
    create_all-IsMinted [] db h = h
    create_all-IsMinted ((input, user_id) ∷ requests) db h =
        elim (create_nft-adds input user_id db h) [
          | inl e ↦ create_all-IsMinted requests _ (rw e h)
          | inr added ↦ create_all-IsMinted requests _ (Added-IsMinted input user_id db _ h added)
        ]
