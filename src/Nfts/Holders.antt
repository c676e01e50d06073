-- ===== src/Nfts/Holders.antt =====
-- What `getCurrentOwnersInternal` of src/modules/nft/nft.service.ts answers for an ERC1155: the users
-- whose wallets hold a balance.
use u2u_marketplace_api.Common.{
  ℕ, String, ◌≡◌, ◌↔◌, refl, sym, ◌∙◌, ap, inl, inr, Bool, true, false, ◌&&◌, not, Option, none,
  some, List, [], ◌∷◌, map, ◌===◌, String_eq, Bool-cases, Option-cases, find, filter, Memᴰ,
  Memᴰ-filter, filter-Memᴰ, map-Memᴰ, Memᴰ-map, any-true, any-Memᴰ, arith, ◌<◌, ◌≢◌, All, All-Memᴰ,
}
use u2u_marketplace_api.Common.{ltb, ◌⊎◌}
use u2u_marketplace_api.Database.{Prisma}
use u2u_marketplace_api.Database.Rows.{find-Memᴰ, find-true, find-none}
use u2u_marketplace_api.Database.Schema.{erc1155, User, Db, done, refused}
use u2u_marketplace_api.Nfts.Owners.{
  Balance, zero_addr, Creator, creator_select, Owner, known, address_only, Owners, is_supply,
  is_held, is_account_of, is_holder, owner_of, owners_or_first, owners_1155,
  get_current_owners_internal,
}

both : (a b : Bool) → (a && b) ≡ true → (a ≡ true) × (b ≡ true)
both a b h = ground arith

done_inj : {A : Type 0} (a b : A) → done a ≡ done b → a ≡ b
done_inj a b h = cc h

no_account : (b : Balance) → is_supply b ≡ true → b.account ≡ none
no_account b h = elim (Option-cases b.account) [
  | inl n ↦ n
  | inr (account, e) ↦
      let (_, t) = both (ltb 0 b.value) (elim b.account [ none ↦ true | some account ↦ false ]) h in
      absurd (cc (rw e at t))
]

-- A wallet, not the zero address, holds a balance that is not 0.
abbrev pub Holds : List Balance → String → Type 0
Holds balances signer =
    (b : Balance) × Memᴰ b balances
    × (b.account ≡ some signer)
    × (signer ≢ zero_addr)
    × (0 < b.value)

-- The quantity of an owner is a balance of their wallet.
abbrev pub IsCounted : List Balance → Owner → Type 0
IsCounted balances (known c none) = ⊥
IsCounted balances (known c (some quantity)) =
    (b : Balance) × Memᴰ b balances × (b.account ≡ some c.signer) × (b.value ≡ quantity)
IsCounted balances (address_only address) = ⊥

-- An answer has the columns of a user exactly when the user is in the table and their wallet holds
-- a balance, each owner with a balance of their wallet as quantity, and the supply of a balance
-- without an account.
abbrev pub Lists : List Balance → Db → Owners → Type 0
Lists balances db answer =
    ((c : Creator)
      → ((quantity : Option ℕ) × Memᴰ (known c quantity) answer.owners)
        ↔ ((u : User) × Memᴰ u db.users × (creator_select u ≡ c) × Holds balances u.signer))
    × All (IsCounted balances) answer.owners
    × ((b : Balance) × Memᴰ b balances × (b.account ≡ none) × (b.value ≡ answer.total_supply))

-- Somebody in the table holds a balance.
abbrev pub IsOwned : List Balance → Db → Type 0
IsOwned balances db = (u : User) × Memᴰ u db.users × Holds balances u.signer

-- There is a balance without an account that is not 0.
abbrev pub IsSupplied : List Balance → Type 0
IsSupplied balances = (b : Balance) × Memᴰ b balances × (b.account ≡ none) × (0 < b.value)

account_of :
    (signer : String) (b : Balance) → is_account_of signer b ≡ true → b.account ≡ some signer
account_of signer b t = elim (Option-cases b.account) [
  | inl n ↦ absurd (cc (rw n at t))
  | inr (account, e) ↦ e ∙ ap some ((String_eq.beq_iff account signer).0 (rw e at t))
]

account_fits :
    (signer : String) (b : Balance) → b.account ≡ some signer → is_account_of signer b ≡ true
account_fits signer b e = rw (e, is_account_of) ((String_eq.beq_iff signer signer).1 refl)

is_holder-Holds :
    (balances : List Balance) (u : User) → is_holder balances u ≡ true → Holds balances u.signer
is_holder-Holds balances u h =
    let (b, m, t) = any-true (is_account_of u.signer) (filter is_held balances) h in
    let (inside, held) = Memᴰ-filter is_held balances m in
    let e = account_of u.signer b t in
    let (other, positive) = both (not (u.signer === zero_addr)) (ltb 0 b.value) (rw e at held) in
    (
      b,
      inside,
      e,
      λ zero. absurd (cc (rw ((String_eq.beq_iff u.signer zero_addr).1 zero) at other)),
      ground (arith, positive),
    )

Holds-is_holder :
    (balances : List Balance) (u : User) → Holds balances u.signer → is_holder balances u ≡ true
Holds-is_holder balances u (b, m, e, other, positive) =
    any-Memᴰ (is_account_of u.signer)
      (filter-Memᴰ is_held balances m (rw (e, not_zero) (ground (arith, positive))))
      (account_fits u.signer b e)
  where
    not_zero : (u.signer === zero_addr) ≡ false
    not_zero = elim (Bool-cases (u.signer === zero_addr)) [
      | inl t ↦ absurd (other ((String_eq.beq_iff u.signer zero_addr).0 t))
      | inr f ↦ f
    ]

owner_of-IsCounted :
    (balances : List Balance) (u : User)
    → is_holder balances u ≡ true
    → IsCounted balances (owner_of balances u)
owner_of-IsCounted balances u h = elim (Option-cases (find (is_account_of u.signer) balances)) [
  | inr (b, e) ↦ rw e (
    b,
    find-Memᴰ (is_account_of u.signer) balances e,
    account_of u.signer b (find-true (is_account_of u.signer) balances e),
    refl,
  )
  | inl n ↦
      let (b, m, e, _, _) = is_holder-Holds balances u h in
      let there = any-Memᴰ (is_account_of u.signer) m (account_fits u.signer b e) in
      absurd (cc (sym there ∙ find-none (is_account_of u.signer) balances n))
]

module _ (prisma : Prisma) where
  -- What an ERC1155 answers comes from a supply, and its owners from the table.
  owners_1155-done :
      (balances : List Balance) (db : Db) (answer : Owners)
      → owners_1155 prisma (record { erc1155_balances = balances; erc721_tokens = none }) db
        ≡ done answer
      → (answer.owners ≡ map (owner_of balances) (filter (is_holder balances) db.users))
        × (supply : Balance) × (find is_supply balances ≡ some supply)
        × (supply.value ≡ answer.total_supply)
  unfolding owners_1155 owners_or_first
  owners_1155-done balances db answer h = elim (Option-cases (find is_supply balances)) [
    | inl n ↦ absurd (cc (rw (n, owners_1155) at h))
    | inr (supply, f) ↦
        let (owners, total) =
          listed supply.value
            (map (owner_of balances) (prisma.find_many (is_holder balances) db.users))
            (rw (f, owners_1155) at h) in
        (
          owners
              ∙ ap (map (owner_of balances)) (prisma.find_many_law (is_holder balances) db.users),
          supply,
          f,
          total,
        )
  ]
    where
      listed :
          (supply : ℕ) (rows : List Owner)
          → owners_or_first prisma
              (record { erc1155_balances = balances; erc721_tokens = none })
              rows
              supply
            ≡ done answer
          → (answer.owners ≡ rows) × (supply ≡ answer.total_supply)
      listed supply [] e = absurd (cc e)
      listed supply (owner ∷ owners) e =
          let is : record { owners = owner ∷ owners; total_supply = supply } ≡ answer =
            done_inj _ answer e in
          (sym (ap (λ (o : Owners). o.owners) is), ap (λ (o : Owners). o.total_supply) is)

  done-Lists :
      (balances : List Balance) (tokens : List String) (db : Db) (answer : Owners)
      → get_current_owners_internal prisma erc1155 balances tokens db ≡ done answer
      → Lists balances db answer
  unfolding get_current_owners_internal
  done-Lists balances tokens db answer h =
      let holders = filter (is_holder balances) db.users in
      let (owners, supply, s, total) = owners_1155-done balances db answer h in
      (
        λ c. (
          λ (quantity, m).
              let (u, k, e) = map-Memᴰ (owner_of balances) holders (rw owners at m) in
              let is : c ≡ creator_select u = cc e in
              let (inside, t) = Memᴰ-filter (is_holder balances) db.users k in
              (u, inside, sym is, is_holder-Holds balances u t),
          λ (u, inside, is, holds).
              let k =
                filter-Memᴰ (is_holder balances) db.users inside
                  (Holds-is_holder balances u holds) in
              rw (← is, owners) (_, Memᴰ-map (owner_of balances) k),
        ),
        rw owners (
            All-Memᴰ (IsCounted balances) (map (owner_of balances) holders) (λ o m.
              let (u, k, e) = map-Memᴰ (owner_of balances) holders m in
              let (_, t) = Memᴰ-filter (is_holder balances) db.users k in
              rw e (owner_of-IsCounted balances u t))),
        (
          supply,
          find-Memᴰ is_supply balances s,
          no_account supply (find-true is_supply balances s),
          total,
        ),
      )

  not-IsOwned :
      (balances : List Balance) (db : Db)
      → filter (is_holder balances) db.users ≡ []
      → ¬ IsOwned balances db
  not-IsOwned balances db e (u, m, holds) =
      let k = filter-Memᴰ (is_holder balances) db.users m (Holds-is_holder balances u holds) in
      not_in_nil k e
    where
      not_in_nil : {u : User} {users : List User} → Memᴰ u users → users ≡ [] → ⊥
      not_in_nil (Memᴰ.head h) e = cc e
      not_in_nil (Memᴰ.tail h) e = cc e

  not-IsSupplied :
      (balances : List Balance) → find is_supply balances ≡ none → ¬ IsSupplied balances
  not-IsSupplied balances e (b, m, n, positive) =
      let counts : is_supply b ≡ true = rw n (ground (arith, positive)) in
      absurd (cc (find-none is_supply balances e, any-Memᴰ is_supply m counts))

  -- For every ERC1155, every answer of the subgraph and every table: the request throws, and then no
  -- user's wallet holds a balance or there is no supply; or it answers, and then the columns of a
  -- user are among the owners exactly when the user is in the table and their wallet, which is not
  -- the zero address, holds a balance that is not 0, each owner has a balance of their wallet as
  -- quantity, and the total supply is the value of a balance without an account.
  pub get_current_owners_internal_iff :
      (balances : List Balance) (tokens : List String) (db : Db)
      → ((get_current_owners_internal prisma erc1155 balances tokens db ≡ refused)
          × ((¬ IsOwned balances db) ⊎ (¬ IsSupplied balances)))
        ⊎ ((answer : Owners) × (get_current_owners_internal prisma erc1155 balances tokens db
              ≡ done answer)
            × Lists balances db answer)
  unfolding get_current_owners_internal owners_1155 owners_or_first
  get_current_owners_internal_iff balances tokens db =
      elim (Option-cases (find is_supply balances)) [
        | inl n ↦ inl (rw (n, owners_1155) refl, inr (not-IsSupplied balances n))
        | inr (supply, f) ↦ rows supply f (filter (is_holder balances) db.users) refl
      ]
    where
      law : prisma.find_many (is_holder balances) db.users ≡ filter (is_holder balances) db.users
      law = prisma.find_many_law (is_holder balances) db.users

      rows :
          (supply : Balance)
          → find is_supply balances ≡ some supply
          → (users : List User) → filter (is_holder balances) db.users ≡ users
          → ((get_current_owners_internal prisma erc1155 balances tokens db ≡ refused)
              × ((¬ IsOwned balances db) ⊎ (¬ IsSupplied balances)))
            ⊎ ((answer : Owners) × (get_current_owners_internal prisma erc1155 balances tokens db
                  ≡ done answer)
                × Lists balances db answer)
      rows supply f [] e = inl (rw (f, law, e, owners_1155) refl, inl (not-IsOwned balances db e))
      rows supply f (u ∷ users) e =
          let answer : Owners = record {
            owners = map (owner_of balances) (u ∷ users);
            total_supply = supply.value;
          } in
          let is : get_current_owners_internal prisma erc1155 balances tokens db ≡ done answer =
            rw (f, law, e, owners_1155) refl in
          inr (answer, is, done-Lists balances tokens db answer is)
