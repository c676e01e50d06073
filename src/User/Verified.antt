-- ===== src/User/Verified.antt =====
-- What `checkVerifyEmail` and `checkListVerify` (src/modules/user/user.service.ts) ask before they
-- verify.
use u2u_marketplace_api.Common.{
  ℕ, String, ◌≡◌, refl, ap, ◌∙◌, inl, inr, Bool, true, false, Option, some, List, [], ◌∷◌,
  Bool-cases, Option-cases, find, map_where, All,
}
use u2u_marketplace_api.Database.{Prisma}
use u2u_marketplace_api.Database.Rows.{find-any}
use u2u_marketplace_api.Database.Schema.{User, Db, done}
use u2u_marketplace_api.Metric.Handlers.{CollectionCount, has_id}
use u2u_marketplace_api.User.Verify.{
  Claims, is_expired, verify_token_confirm, set_verified, required_fields, missing, list_verify,
  Checked, check_verify_email, decide_account, check_list_verify,
}

module _ (prisma : Prisma) where
  -- `checkVerifyEmail` verifies exactly the email that the row of the token's id has by then,
  -- whatever email the token was made for: where the token is accepted and not expired and the row
  -- is not verified yet, the row is marked and nothing else changes.
  pub check_verify_email-marks :
      (verify : String → Option Claims) (now : ℕ) (token : String) (claims : Claims) (user : User)
      (db : Db)
      → verify token ≡ some claims
      → is_expired now claims.exp ≡ false
      → find (has_id claims.id) db.users ≡ some user
      → user.verify_email ≡ false
      → check_verify_email prisma verify now token db
        ≡ (done tt, record db { users = map_where (has_id claims.id) set_verified db.users })
  unfolding check_verify_email verify_token_confirm
  check_verify_email-marks verify now token claims user db v x f e =
      rw
        (
          v,
          x,
          prisma.find_first_law (has_id claims.id) db.users ∙ f,
          e,
          prisma.update_law (has_id claims.id) set_verified db.users,
          find-any (has_id claims.id) db.users f,
          check_verify_email,
          verify_token_confirm,
        )
        refl

fields_there : (fields : List (String × Bool)) → missing fields ≡ [] → All (λ f. f.1 ≡ true) fields
fields_there [] h = tt
fields_there ((field, true) ∷ fields) h = (refl, fields_there fields h)
fields_there ((field, false) ∷ fields) h = absurd (cc h)

nothing_missing :
    (transfers : Bool) (user : User)
    → list_verify transfers user ≡ []
    → (transfers ≡ true) × All (λ f. f.1 ≡ true) (required_fields user)
nothing_missing true user h = (refl, fields_there (required_fields user) h)
nothing_missing false user h = absurd (cc h)

done_inj : (a b : Checked) → done a ≡ done b → a ≡ b
done_inj a b h = cc h

module _ (prisma : Prisma) (get_collection_count : String → Option CollectionCount) where
  decide_account-done :
      (fields : List String) (user : User) (db : Db) (answer : Checked)
      → (decide_account prisma get_collection_count fields user db).0 ≡ done answer
      → answer.account_status ≡ true
      → (fields ≡ []) × (user.account_status ≡ false)
  unfolding decide_account
  decide_account-done (field ∷ fields) user db answer h t = absurd (
      cc (
        ap (λ (c : Checked). c.account_status)
          (done_inj (record { fields = field ∷ fields; account_status = false }) answer h)
        ∙ t))
  decide_account-done [] user db answer h t = elim (Bool-cases user.account_status) [
    | inl s ↦ absurd (cc (rw (s, decide_account) at h))
    | inr s ↦ (refl, s)
  ]

  -- `checkListVerify` answers that the account is verified only where the signer has transfers, no
  -- required field is missing, the email among them, and the account was not verified before.
  pub check_list_verify_sound :
      (nft_transfers : String → Option Bool) (user : User) (db : Db) (answer : Checked)
      → (check_list_verify prisma get_collection_count nft_transfers user db).0 ≡ done answer
      → answer.account_status ≡ true
      → (nft_transfers user.signer ≡ some true)
        × All (λ f. f.1 ≡ true) (required_fields user)
        × (user.account_status ≡ false)
  unfolding check_list_verify
  check_list_verify_sound nft_transfers user db answer h t =
      elim (Option-cases (nft_transfers user.signer)) [
        | inl n ↦ absurd (cc (rw (n, check_list_verify) at h))
        | inr (transfers, e) ↦
            let (complete, fresh) =
              decide_account-done (list_verify transfers user) user db answer
                (rw (e, check_list_verify) at h) t in
            let (moved, fields) = nothing_missing transfers user complete in
            (e ∙ ap some moved, fields, fresh)
      ]
