-- ===== src/Cms/AccountRequests.antt =====
-- Requests on the accounts (src/modules/cms/service/cms.service.ts), one after another.
use u2u_marketplace_api.Common.{
  ℕ, ◌≤◌, String, ◌≡◌, refl, sym, ap, ◌∙◌, inl, inr, Bool, true, false, ◌||◌, Option, List, [], ◌∷◌,
  ◌==◌, arith, Bool-cases, String_eq, any, count, All, All-append, any-append,
}
use u2u_marketplace_api.Database.{Prisma}
use u2u_marketplace_api.Database.Rows.{All-map_where, any-map_where_same}
use u2u_marketplace_api.Access.{Role}
use u2u_marketplace_api.Cms.Accounts.{
  Account, AccountInput, NewAccount, Staff, is_account, has_username, create_account,
  update_account, update_password, reset_password, change_roles_account, delete_account,
}
use u2u_marketplace_api.Cms.AccountSteps.{
  is_shut, Step, same, changed, added, create_account-Step, update_account-Step,
  update_password-Step, reset_password-Step, change_roles_account-Step, delete_account-Step,
}

-- A request with what its handler takes: the text of an id, the salt of a hash, the id of a new row,
-- the account that asks.
pub data AccountRequest : Type 0 where
  create : NewAccount → String → ℕ → AccountRequest
  update : AccountInput → ℕ → AccountRequest
  password : String → String → String → ℕ → AccountRequest
  reset : String → String → String → ℕ → AccountRequest
  roles : String → List Role → AccountRequest
  delete : String → ℕ → AccountRequest

-- The constraints of the database: no two accounts have one id or one username.
pub record IsKeyed (accounts : List Account) : Type 0 where
  pub one_id : (id : ℕ) → count (is_account id) accounts ≤ 1
  pub one_username : (username : String) → count (has_username username) accounts ≤ 1

-- There is an account with the id, and it is deleted and not active.
pub record IsShut (id : ℕ) (accounts : List Account) : Type 0 where
  pub there : any (is_account id) accounts ≡ true
  pub shut : All (λ a. is_account id a ≡ true → is_shut a ≡ true) accounts

nobody :
    (p q : Account → Bool) (xs : List Account)
    → any (λ a. p a || q a) xs ≡ false
    → (count p xs ≡ 0) × (count q xs ≡ 0)
nobody p q [] h = (refl, refl)
nobody p q (x ∷ xs) h = elim (Bool-cases (p x)) [
  | inl t ↦ absurd (cc (rw (t, any) at h))
  | inr f ↦ elim (Bool-cases (q x)) [
    | inl t ↦ absurd (cc (rw (f, t, any) at h))
    | inr g ↦
        let rest = nobody p q xs (rw (f, g, any) at h) in
        rw (f, g) (omega (arith, rest.0), omega (arith, rest.1))
  ]
]

Step-IsShut : (id : ℕ) {xs ys : List Account} → Step xs ys → IsShut id xs → IsShut id ys
Step-IsShut id (same e) h = rw e h
Step-IsShut id {xs} (changed j f tame e) h = rw e (record {
  there =
      any-map_where_same (is_account id) (is_account j) f xs
        (λ a. ap (λ i. i == id) (tame.same_id a))
      ∙ h.there;
  shut =
      All-map_where (λ (a : Account). is_account id a ≡ true → is_shut a ≡ true) (is_account j) f xs
        (λ a p k t. tame.same_shut a (k (sym (ap (λ i. i == id) (tame.same_id a)) ∙ t)))
        (λ a p k. k) h.shut;
})
Step-IsShut id {xs} (added row free e) h =
    let (ids, _) = nobody (is_account row.id) (has_username row.username) xs free in
    rw e (record {
      there = any-append (is_account id) xs (row ∷ []) ∙ rw h.there refl;
      shut =
          All-append (λ (a : Account). is_account id a ≡ true → is_shut a ≡ true) xs (row ∷ [])
            h.shut (λ t. absurd (taken xs h.there (rw (id_of t) ids)), tt);
    })
  where
    id_of : is_account id row ≡ true → id ≡ row.id
    id_of t = ground arith

    taken : (xs : List Account) → any (is_account id) xs ≡ true → count (is_account id) xs ≡ 0 → ⊥
    taken [] t n = cc t
    taken (x ∷ xs) t n = elim (Bool-cases (is_account id x)) [
      | inl s ↦ absurd (omega (arith, rw s at n))
      | inr s ↦ taken xs (rw (s, any) at t) (omega (arith, rw s at n))
    ]

module _ (prisma : Prisma) (valid_uuid : String → Option ℕ) (hash : String → String → String)
    (compare : String → String → Bool) where
  abbrev pub serve : AccountRequest → Staff → Staff
  serve (create input salt new_id) s = (create_account prisma hash input salt new_id s).1
  serve (update input account_id) s = (update_account prisma input account_id s).1
  serve (password current new salt account_id) s =
      (update_password prisma hash compare current new salt account_id s).1
  serve (reset text new salt account_id) s =
      (reset_password prisma valid_uuid hash text new salt account_id s).1
  serve (roles text new) s = (change_roles_account prisma valid_uuid text new s).1
  serve (delete text account_id) s = (delete_account prisma valid_uuid text account_id s).1

  abbrev pub serve_all : List AccountRequest → Staff → Staff
  serve_all [] s = s
  serve_all (request ∷ requests) s = serve_all requests (serve request s)

  serve-Step : (request : AccountRequest) (s : Staff) → Step s.accounts (serve request s).accounts
  serve-Step (create input salt new_id) s = create_account-Step prisma hash input salt new_id s
  serve-Step (update input account_id) s = update_account-Step prisma input account_id s
  serve-Step (password current new salt account_id) s =
      update_password-Step prisma hash compare current new salt account_id s
  serve-Step (reset text new salt account_id) s =
      reset_password-Step prisma valid_uuid hash text new salt account_id s
  serve-Step (roles text new) s = change_roles_account-Step prisma valid_uuid text new s
  serve-Step (delete text account_id) s = delete_account-Step prisma valid_uuid text account_id s

  -- No request on the accounts opens a deleted account again.
  pub serve_all-IsShut :
      (id : ℕ) (requests : List AccountRequest) (s : Staff)
      → IsShut id s.accounts
      → IsShut id (serve_all requests s).accounts
  serve_all-IsShut id [] s h = h
  serve_all-IsShut id (request ∷ requests) s h =
      serve_all-IsShut id requests (serve request s) (Step-IsShut id (serve-Step request s) h)
