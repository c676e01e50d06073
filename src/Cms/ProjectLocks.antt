-- ===== src/Cms/ProjectLocks.antt =====
-- What an update of a project that deactivates it (`handleUpdateProject` of
-- src/modules/cms/service/launchpad-cms.service.ts) means for the requests after it.
use u2u_marketplace_api.Common.{
  ℕ, String, ◌≡◌, refl, ◌∙◌, inl, inr, false, Option, none, some, List, [], ◌∷◌, map, arith,
  Bool-cases, any, map_where,
}
use u2u_marketplace_api.Database.{Prisma}
use u2u_marketplace_api.Database.Rows.{none-find, any-map_where_same}
use u2u_marketplace_api.Database.Schema.{ProjectRound, Project, Db, done, failed}
use u2u_marketplace_api.Cms.Collections.{Office}
use u2u_marketplace_api.Cms.Projects.{
  ProjectInput, new_project_round, apply_project, is_project, is_open, is_open_project, set_rounds,
  handle_update_project, handle_delete_project, get_detail_project,
}
use u2u_marketplace_api.Cms.ProjectSteps.{handle_update_project-done}

module _ (prisma : Prisma) where
  -- No open project has the id.
  abbrev pub IsLocked : ℕ → Db → Type 0
  IsLocked id db = any (is_open_project id) db.projects ≡ false

  set_rounds-IsLocked :
      (id other : ℕ) (rounds : List ProjectRound) (projects : List Project)
      → any (is_open_project id) projects ≡ false
      → any (is_open_project id) (map_where (is_project other) (set_rounds rounds) projects) ≡ false
  set_rounds-IsLocked id other rounds projects h =
      any-map_where_same (is_open_project id) (is_project other) (set_rounds rounds) projects
        (λ p. refl)
      ∙ h

  closed-IsLocked :
      (id : ℕ) (f : Project → Project) (projects : List Project)
      → ((p : Project) → is_open (f p) ≡ false)
      → any (is_open_project id) (map_where (is_project id) f projects) ≡ false
  closed-IsLocked id f [] h = refl
  closed-IsLocked id f (p ∷ projects) h = elim (Bool-cases (is_project id p)) [
    | inl t ↦ rw (t, h p) (ground (arith, closed-IsLocked id f projects h))
    | inr n ↦ rw (n, n) (closed-IsLocked id f projects h)
  ]

  -- An update of a project that sets `isActivated` to false and answers locks it: after it the project
  -- is not found, and an update or a deletion of it, whatever its input, is answered that it is not
  -- found and changes nothing.
  pub handle_update_project-locks :
      (valid_uuid : String → Option ℕ) (text : String) (input later : ProjectInput)
      (account_id now then_now id : ℕ) (s : Office) (answer : Project)
      → valid_uuid text ≡ some id
      → input.is_activated ≡ some false
      → (handle_update_project prisma valid_uuid text input account_id now s).0 ≡ done answer
      → let after = (handle_update_project prisma valid_uuid text input account_id now s).1 in
        (get_detail_project prisma id after.db ≡ none)
        × (handle_update_project prisma valid_uuid text later account_id then_now after
            ≡ (failed "Not Found", after))
        × (handle_delete_project prisma valid_uuid text account_id after
            ≡ (failed "Not Found", after))
  unfolding handle_update_project handle_delete_project get_detail_project
  handle_update_project-locks valid_uuid text input later account_id now then_now id s answer u off
        h =
      let after = (handle_update_project prisma valid_uuid text input account_id now s).1 in
      let (old, e, same, wrote) =
        handle_update_project-done prisma valid_uuid text input account_id now id s answer u h in
      let rounds = map (new_project_round now) input.rounds in
      let closed : (p : Project) → is_open (apply_project input p) ≡ false = λ p. rw off refl in
      let locked : IsLocked id after.db = rw wrote (
        set_rounds-IsLocked id id rounds _ (
          set_rounds-IsLocked id id [] _
            (closed-IsLocked id (apply_project input) s.db.projects closed))) in
      let gone : prisma.find_first (is_open_project id) after.db.projects ≡ none =
        prisma.find_first_law (is_open_project id) after.db.projects
        ∙ none-find (is_open_project id) after.db.projects locked in
      (gone, update_gone after gone, delete_gone after gone)
    where
      update_gone :
          (after : Office)
          → prisma.find_first (is_open_project id) after.db.projects ≡ none
          → handle_update_project prisma valid_uuid text later account_id then_now after
            ≡ (failed "Not Found", after)
      update_gone after gone = rw (u, gone, handle_update_project) refl

      delete_gone :
          (after : Office)
          → prisma.find_first (is_open_project id) after.db.projects ≡ none
          → handle_delete_project prisma valid_uuid text account_id after
            ≡ (failed "Not Found", after)
      delete_gone after gone = rw (u, gone, handle_delete_project) refl
