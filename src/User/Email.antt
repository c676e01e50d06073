-- ===== src/User/Email.antt =====
-- `updateProfile` (src/modules/user/user.service.ts) and the mark of a verified email.
use u2u_marketplace_api.Common.{
  String, ◌≡◌, refl, sym, ap, ◌∙◌, inl, inr, true, ◌&&◌, not, some, String_eq, Bool-cases, find,
  any, map_where,
}
use u2u_marketplace_api.Database.{Prisma}
use u2u_marketplace_api.Database.Rows.{find-map_where}
use u2u_marketplace_api.Database.Schema.{User, Db, done}
use u2u_marketplace_api.Metric.Handlers.{has_id}
use u2u_marketplace_api.User.Profile.{
  UpdateUser, is_empty, apply_update, clash, taken, write_profile, update_profile,
}
use u2u_marketplace_api.User.Unique.{apply_update_id}

done_inj : (a b : User) → done a ≡ done b → a ≡ b
done_inj a b h = cc h

same_email-verified :
    (input : UpdateUser) (user row : User) (email : String)
    → input.email ≡ some email
    → user.email ≡ some email
    → (apply_update input user row).verify_email ≡ true
unfolding apply_update
same_email-verified input user row email e h = rw (e, h) ((String_eq.beq_iff email email).1 refl)

module _ (prisma : Prisma) (input : UpdateUser) (user row after : User) (db : Db)
    (found : find (has_id user.id) db.users ≡ some row) where
  write_profile-done :
      (write_profile prisma input user db).0 ≡ done after → apply_update input user row ≡ after
  unfolding write_profile
  write_profile-done h =
      let change = apply_update input user in
      let law = prisma.update_unique_law clash (has_id user.id) change db.users in
      let again =
        prisma.find_first_law (has_id user.id) (map_where (has_id user.id) change db.users)
        ∙ find-map_where (has_id user.id) change db.users row (λ x. apply_update_id input user x)
            found in
      elim (Bool-cases (is_empty input.email)) [
        | inl t ↦ absurd (cc (rw (t, write_profile) at h))
        | inr f ↦
            elim (Bool-cases (any (λ o. not (has_id user.id o) && clash (change row) o) db.users)) [
              | inl t ↦ absurd (cc (rw (f, law, found, t, write_profile) at h))
              | inr g ↦
                  done_inj (change row) after (rw (f, law, found, g, again, write_profile) at h)
            ]
      ]

  update_profile-done :
      (update_profile prisma input user db).0 ≡ done after → apply_update input user row ≡ after
  unfolding update_profile
  update_profile-done h = elim (Bool-cases (taken prisma (λ u. u.email) input.email user db)) [
    | inl t ↦ absurd (cc (rw (t, update_profile) at h))
    | inr e ↦ elim (Bool-cases (taken prisma (λ u. u.username) input.username user db)) [
      | inl t ↦ absurd (cc (rw (e, t, update_profile) at h))
      | inr n ↦ elim (Bool-cases (taken prisma (λ u. u.short_link) input.short_link user db)) [
        | inl t ↦ absurd (cc (rw (e, n, t, update_profile) at h))
        | inr s ↦ write_profile-done (rw (e, n, s, update_profile) at h)
      ]
    ]
  ]

  -- Whenever `updateProfile` answers, for a user who has a row, and the input repeats the email that
  -- the user has, the row is
  -- marked as having a verified email, whether or not it ever was verified.
  pub update_profile-verify_email :
      (email : String)
      → (update_profile prisma input user db).0 ≡ done after
      → input.email ≡ some email
      → user.email ≡ some email
      → after.verify_email ≡ true
  update_profile-verify_email email h e k =
      ap (λ u. u.verify_email) (sym (update_profile-done h))
      ∙ same_email-verified input user row email e k
