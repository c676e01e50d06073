-- ===== src/Cms/ProjectSteps.antt =====
-- What `handleUpdateProject` of src/modules/cms/service/launchpad-cms.service.ts leaves behind.
use u2u_marketplace_api.Common.{
  ℕ, String, ◌≡◌, refl, sym, ap, ◌∙◌, inl, inr, true, Option, none, some, List, [], ◌∷◌, ◌++◌, map,
  ◌==◌, ==_iff, Bool-cases, Option-cases, find, any, map_where,
}
use u2u_marketplace_api.Common.Text.{to_lower_case}
use u2u_marketplace_api.Database.{Prisma}
use u2u_marketplace_api.Database.Rows.{
  find-true, find-any, find-none, find-map_where, any-map_where,
}
use u2u_marketplace_api.Database.Schema.{Collection, ProjectRound, Project, Db, done}
use u2u_marketplace_api.Cms.Rounds.{RoundInfo, is_round, Action, project_updated, handle_action_log}
use u2u_marketplace_api.Cms.Collections.{Office, is_collection}
use u2u_marketplace_api.Cms.Projects.{
  ProjectRoundInput, ProjectInput, new_project_round, apply_project, is_project, is_open_project,
  has_collection_address, has_other_name, set_rounds, rounds_of, in_project, set_project,
  same_project, create_rounds, store_rounds, attach, detach, move_project, write_project,
  handle_update_project,
}

done_inj : {A : Type 0} (a b : A) → done a ≡ done b → a ≡ b
done_inj a b h = cc h

-- Where the rounds of a project are deleted, it has none.
cleared-rounds :
    (id : ℕ) (projects : List Project)
    → rounds_of id (map_where (is_project id) (set_rounds []) projects) ≡ []
cleared-rounds id projects = elim (Option-cases (find (is_project id) projects)) [
  | inr (p, e) ↦
      rw (find-map_where (is_project id) (set_rounds []) projects p (λ q. refl) e, rounds_of) refl
  | inl n ↦
      rw
        (
          any-map_where (is_project id) (set_rounds []) projects
              (find-none (is_project id) projects n),
          n,
          rounds_of,
        )
        refl
]

module _ (prisma : Prisma) where
  -- A loop that comes to its end has added a row for each round of the input, in their order.
  create_rounds_complete :
      (infos : List RoundInfo) (now : ℕ) (inputs : List ProjectRoundInput)
      (rounds : List ProjectRound)
      → (create_rounds prisma infos now inputs rounds).0 ≡ true
      → (create_rounds prisma infos now inputs rounds).1
        ≡ rounds ++ map (new_project_round now) inputs
  unfolding create_rounds
  create_rounds_complete infos now [] rounds h = append_nil rounds
    where
      append_nil : (rounds : List ProjectRound) → rounds ≡ rounds ++ []
      append_nil [] = refl
      append_nil (r ∷ rounds) = ap (λ rest. r ∷ rest) (append_nil rounds)
  create_rounds_complete infos now (input ∷ inputs) rounds h =
      let row = new_project_round now input in
      let law = prisma.create_law (λ (r : ProjectRound). r.round_id == input.round_id) row rounds in
      elim (Bool-cases (any (is_round input.round_id) infos)) [
        | inr f ↦ absurd (cc (rw (f, create_rounds) at h))
        | inl k ↦
            elim (Bool-cases (any (λ (r : ProjectRound). r.round_id == input.round_id) rounds)) [
              | inl t ↦ absurd (cc (rw (k, law, t, create_rounds) at h))
              | inr f ↦
                  rw (k, law, f, create_rounds)
                    (create_rounds_complete infos now inputs (rounds ++ row ∷ [])
                        (rw (k, law, f, create_rounds) at h)
                      ∙ regroup rounds row (map (new_project_round now) inputs))
            ]
      ]
    where
      regroup :
          (rounds : List ProjectRound) (row : ProjectRound) (rest : List ProjectRound)
          → (rounds ++ row ∷ []) ++ rest ≡ rounds ++ row ∷ rest
      regroup [] row rest = refl
      regroup (r ∷ rounds) row rest = ap (λ rest. r ∷ rest) (regroup rounds row rest)

  attach-projects :
      (project_id : Option ℕ) (collection_id : ℕ) (db after : Db)
      → attach prisma project_id collection_id db ≡ some after
      → after.projects ≡ db.projects
  unfolding attach
  attach-projects project_id collection_id db after h =
      elim (Option-cases (
        prisma.update_unique same_project (is_collection collection_id) (set_project project_id)
          db.collections)) [
            | inl n ↦ absurd (cc (rw (n, attach) at h))
            | inr (collections, e) ↦
                let same : some (record db { collections = collections }) ≡ some after =
                  rw (e, attach) at h in
                let made : record db { collections = collections } ≡ after = cc same in
                ap (λ (d : Db). d.projects) (sym made)
          ]

  detach-projects :
      (project_id : ℕ) (db after : Db)
      → detach prisma project_id db ≡ some after
      → after.projects ≡ db.projects
  unfolding detach
  detach-projects project_id db after h =
      elim (Bool-cases (any (in_project project_id) db.collections)) [
        | inr f ↦
            let same : some db ≡ some after = rw (f, detach) at h in
            let made : db ≡ after = cc same in ap (λ (d : Db). d.projects) (sym made)
        | inl t ↦
            elim (Option-cases
              (prisma.update (in_project project_id) (set_project none) db.collections)) [
                | inl n ↦ absurd (cc (rw (t, n, detach) at h))
                | inr (collections, e) ↦
                    let same : some (record db { collections = collections }) ≡ some after =
                      rw (t, e, detach) at h in
                    let made : record db { collections = collections } ≡ after = cc same in
                    ap (λ (d : Db). d.projects) (sym made)
              ]
      ]

  -- The projects after the rounds are stored, whether the loop came to its end or not.
  store_rounds-projects :
      (input : ProjectInput) (project : Project) (action : Action) (account_id now : ℕ) (s : Office)
      → (store_rounds prisma input project action account_id now s).1.db.projects
        ≡ map_where
            (is_project project.id)
            (set_rounds
              (create_rounds prisma s.rounds.round_infos now input.rounds
                (rounds_of project.id s.db.projects)).1)
            s.db.projects
  unfolding store_rounds
  store_rounds-projects input project action account_id now s =
      elim (Bool-cases
        (create_rounds prisma s.rounds.round_infos now input.rounds
          (rounds_of project.id s.db.projects)).0) [
            | inr f ↦ rw (f, store_rounds) refl
            | inl t ↦ elim (Option-cases (handle_action_log prisma account_id action s.rounds)) [
              | inl n ↦ rw (t, n, store_rounds) refl
              | inr (logged, e) ↦ rw (t, e, store_rounds) refl
            ]
          ]

  store_rounds-done :
      (input : ProjectInput) (project answer : Project) (action : Action) (account_id now : ℕ)
      (s : Office)
      → (store_rounds prisma input project action account_id now s).0 ≡ done answer
      → ((create_rounds prisma s.rounds.round_infos now input.rounds
            (rounds_of project.id s.db.projects)).0
          ≡ true)
        × (project ≡ answer)
  unfolding store_rounds
  store_rounds-done input project answer action account_id now s h =
      elim (Bool-cases
        (create_rounds prisma s.rounds.round_infos now input.rounds
          (rounds_of project.id s.db.projects)).0) [
            | inr f ↦ absurd (cc (rw (f, store_rounds) at h))
            | inl t ↦ elim (Option-cases (handle_action_log prisma account_id action s.rounds)) [
              | inl n ↦ absurd (cc (rw (t, n, store_rounds) at h))
              | inr (logged, e) ↦ (t, done_inj project answer (rw (t, e, store_rounds) at h))
            ]
          ]

  -- The projects after a move that answers: each with the id has exactly the rounds of the input.
  move_project-done :
      (input : ProjectInput) (project answer : Project) (collection : Collection)
      (account_id now : ℕ) (s : Office)
      → (move_project prisma input project collection account_id now s).0 ≡ done answer
      → (project ≡ answer)
        × ((move_project prisma input project collection account_id now s).1.db.projects
            ≡ map_where
                (is_project project.id)
                (set_rounds (map (new_project_round now) input.rounds))
                (map_where (is_project project.id) (set_rounds []) s.db.projects))
  unfolding move_project
  move_project-done input project answer collection account_id now s h =
      elim (Option-cases (detach prisma project.id s.db)) [
        | inl n ↦ absurd (cc (rw (n, move_project) at h))
        | inr (detached, d) ↦
            let cleared = record detached {
              projects = map_where (is_project project.id) (set_rounds []) detached.projects;
            } in
            elim (Option-cases (attach prisma (some project.id) collection.id cleared)) [
              | inl n ↦ absurd (cc (rw (d, n, move_project) at h))
              | inr (attached, a) ↦
                  let action = project_updated project.name in
                  let (complete, same) =
                    store_rounds-done input project answer action account_id now
                      (record s { db = attached }) (rw (d, a, move_project) at h) in
                  (
                    same,
                    rw
                        (
                          d,
                          a,
                          move_project,
                          store_rounds-projects input project action account_id now
                              (record s { db = attached }),
                          create_rounds_complete s.rounds.round_infos now input.rounds
                              (rounds_of project.id attached.projects) complete,
                          attach-projects (some project.id) collection.id cleared attached a,
                          detach-projects project.id s.db detached d,
                          cleared-rounds project.id s.db.projects,
                        )
                        refl,
                  )
            ]
      ]

  write_project-done :
      (input : ProjectInput) (collection : Collection) (id account_id now : ℕ) (s : Office)
      (answer : Project)
      → (write_project prisma input collection id account_id now s).0 ≡ done answer
      → (old : Project) × (find (is_project id) s.db.projects ≡ some old)
        × (answer ≡ apply_project input old)
        × ((write_project prisma input collection id account_id now s).1.db.projects
            ≡ map_where (is_project id) (set_rounds (map (new_project_round now) input.rounds)) (
                map_where
                  (is_project id)
                  (set_rounds [])
                  (map_where (is_project id) (apply_project input) s.db.projects)))
  unfolding write_project
  write_project-done input collection id account_id now s answer h =
      let f = apply_project input in
      let rows = map_where (is_project id) f s.db.projects in
      let law = prisma.update_law (is_project id) f s.db.projects in
      elim (Option-cases (find (is_project id) s.db.projects)) [
        | inl n ↦
            absurd (cc (rw (law, find-none (is_project id) s.db.projects n, write_project) at h))
        | inr (old, e) ↦
            let there = find-any (is_project id) s.db.projects e in
            let again =
              prisma.find_first_law (is_project id) rows
              ∙ find-map_where (is_project id) f s.db.projects old (λ p. refl) e in
            let after = record s { db = record s.db { projects = rows } } in
            let mine : old.id ≡ id =
              (==_iff old.id id).0 (find-true (is_project id) s.db.projects e) in
            let (same, moved) =
              move_project-done input (f old) answer collection account_id now after
                (rw (law, there, again, write_project) at h) in
            let rounds = map (new_project_round now) input.rounds in
            (
              old,
              e,
              sym same,
              rw (law, there, again, write_project)
                  (moved
                    ∙ ap
                        (λ i.
                          map_where (is_project i) (set_rounds rounds)
                            (map_where (is_project i) (set_rounds []) rows))
                        mine),
            )
      ]

  pub handle_update_project-done :
      (valid_uuid : String → Option ℕ) (text : String) (input : ProjectInput)
      (account_id now id : ℕ) (s : Office) (answer : Project)
      → valid_uuid text ≡ some id
      → (handle_update_project prisma valid_uuid text input account_id now s).0 ≡ done answer
      → (old : Project) × (find (is_project id) s.db.projects ≡ some old)
        × (answer ≡ apply_project input old)
        × ((handle_update_project prisma valid_uuid text input account_id now s).1.db.projects
            ≡ map_where (is_project id) (set_rounds (map (new_project_round now) input.rounds)) (
                map_where
                  (is_project id)
                  (set_rounds [])
                  (map_where (is_project id) (apply_project input) s.db.projects)))
  unfolding handle_update_project
  handle_update_project-done valid_uuid text input account_id now id s answer u h =
      elim (Option-cases (prisma.find_first (is_open_project id) s.db.projects)) [
        | inl n ↦ absurd (cc (rw (u, n, handle_update_project) at h))
        | inr (found, f) ↦
            elim (Option-cases (
              prisma.find_first (has_collection_address (to_lower_case input.collection_address))
                s.db.collections)) [
                  | inl n ↦ absurd (cc (rw (u, f, n, handle_update_project) at h))
                  | inr (collection, c) ↦
                      elim (Option-cases
                        (prisma.find_first (has_other_name input.name id) s.db.projects)) [
                          | inr (other, o) ↦
                              absurd (cc (rw (u, f, c, o, handle_update_project) at h))
                          | inl n ↦
                              rw (u, f, c, n, handle_update_project)
                                (write_project-done input collection id account_id now s answer
                                  (rw (u, f, c, n, handle_update_project) at h))
                        ]
                ]
      ]

  -- After an update of a project that answers, the row of the project is the answer with exactly the
  -- rounds of the input, in their order, whatever rounds it had before.
  pub handle_update_project-rounds :
      (valid_uuid : String → Option ℕ) (text : String) (input : ProjectInput)
      (account_id now id : ℕ) (s : Office) (answer : Project)
      → valid_uuid text ≡ some id
      → (handle_update_project prisma valid_uuid text input account_id now s).0 ≡ done answer
      → find
          (is_project id)
          (handle_update_project prisma valid_uuid text input account_id now s).1.db.projects
        ≡ some (set_rounds (map (new_project_round now) input.rounds) answer)
  handle_update_project-rounds valid_uuid text input account_id now id s answer u h =
      let (old, e, same, wrote) =
        handle_update_project-done valid_uuid text input account_id now id s answer u h in
      let rounds = map (new_project_round now) input.rounds in
      let f = apply_project input in
      rw (wrote, same)
        (find-map_where (is_project id) (set_rounds rounds) _ (set_rounds [] (f old)) (λ p. refl)
          (find-map_where (is_project id) (set_rounds []) _ (f old) (λ p. refl)
            (find-map_where (is_project id) f s.db.projects old (λ p. refl) e)))
