-- ===== src/Cms/RoundSteps.antt =====
-- What each request on the rounds (src/modules/cms/service/launchpad-cms.service.ts) keeps of them.
use u2u_marketplace_api.Common.{
  ℕ, ◌+◌, ◌≤◌, String, ◌≡◌, refl, ap, ◌∙◌, inl, inr, Bool, true, false, ◌&&◌, not, Option, none,
  some, List, [], ◌∷◌, ◌++◌, ◌===◌, String_eq, arith, Bool-cases, Option-cases, length, count, find,
  any, map_where,
}
use u2u_marketplace_api.Database.{Prisma}
use u2u_marketplace_api.Database.Rows.{count-map_where_same}
use u2u_marketplace_api.Database.Schema.{Outcome, done, refused}
use u2u_marketplace_api.Metric.{to_number}
use u2u_marketplace_api.Cms.Rounds.{
  RoundInfo, RoundInput, Action, round_created, round_updated, round_deleted, LogAction, Rounds,
  is_round, is_named, new_round, rename_round, mark_deleted, handle_action_log, add_round,
  create_round_infor, change_round, log_and_change, update_round, delete_round, with_id,
}
use u2u_marketplace_api.Cms.RoundRows.{
  IsNumbered, IsApart, IsOrdered, count-all, add-IsNumbered, add-IsApart, map-IsNumbered, one_round,
  rename-IsApart,
}

never : (logs : List LogAction) → any (λ l. false) logs ≡ false
never [] = refl
never (l ∷ logs) = never logs

-- No round has the next number yet.
next_unused :
    (rounds : List RoundInfo)
    → IsNumbered rounds
    → any (is_round (length rounds + 1)) rounds ≡ false
next_unused rounds h =
    none_counted (is_round (length rounds + 1)) rounds (ground (arith, h (length rounds + 1)))
  where
    none_counted : (p : RoundInfo → Bool) (rs : List RoundInfo) → count p rs ≡ 0 → any p rs ≡ false
    none_counted p [] k = refl
    none_counted p (r ∷ rs) k = elim (Bool-cases (p r)) [
      | inl t ↦ absurd (omega (arith, rw t at k))
      | inr f ↦ rw f (none_counted p rs (omega (arith, rw f at k)))
    ]

module _ (prisma : Prisma) where
  abbrev pub logged : ℕ → Action → Rounds → Rounds
  logged account_id detail s = record s {
    log_actions = s.log_actions ++ record { account_id = account_id; detail = detail } ∷ [];
  }

  pub handle_action_log-logs :
      (account_id : ℕ) (detail : Action) (s : Rounds)
      → handle_action_log prisma account_id detail s ≡ some (logged account_id detail s)
  unfolding handle_action_log
  handle_action_log-logs account_id detail s =
      rw
        (
          prisma.create_law (λ (l : LogAction). false)
              (record { account_id = account_id; detail = detail }) s.log_actions,
          never s.log_actions,
          handle_action_log,
        )
        refl

  add_round-adds :
      (input : RoundInput) (s : Rounds)
      → IsNumbered s.round_infos
      → add_round prisma input s ≡ (
        done (new_round (length s.round_infos + 1) input),
        record s { round_infos = s.round_infos ++ new_round (length s.round_infos + 1) input ∷ [] },
      )
  unfolding add_round
  add_round-adds input s h =
      ap
        (λ (n : ℕ).
          elim (prisma.create (is_round (n + 1)) (new_round (n + 1) input) s.round_infos)
            as (λ x. Outcome RoundInfo × Rounds) [
              | none ↦ (refused, s)
              | some round_infos ↦
                  (done (new_round (n + 1) input), record s { round_infos = round_infos })
            ])
        (prisma.count_where_law (λ (r : RoundInfo). true) s.round_infos ∙ count-all s.round_infos)
      ∙ rw
          (
            prisma.create_law (is_round (length s.round_infos + 1))
                (new_round (length s.round_infos + 1) input) s.round_infos,
            next_unused s.round_infos h,
          )
          refl

  pub create_round_infor-writes :
      (input : RoundInput) (account_id : ℕ) (s : Rounds)
      → IsOrdered s
      → find (is_named input.name input.type) s.round_infos ≡ none
      → create_round_infor prisma input account_id s ≡ (
        done (new_round (length s.round_infos + 1) input),
        record (logged account_id (round_created input.name input.type) s) {
          round_infos = s.round_infos ++ new_round (length s.round_infos + 1) input ∷ [];
        },
      )
  unfolding create_round_infor
  create_round_infor-writes input account_id s h n =
      let law = prisma.find_first_law (is_named input.name input.type) s.round_infos ∙ n in
      let logs = handle_action_log-logs account_id (round_created input.name input.type) s in
      rw (law, logs, create_round_infor)
        (add_round-adds input (logged account_id (round_created input.name input.type) s) h.0)

  pub create_round_infor-IsOrdered :
      (input : RoundInput) (account_id : ℕ) (s : Rounds)
      → IsOrdered s
      → IsOrdered (create_round_infor prisma input account_id s).1
  unfolding create_round_infor
  create_round_infor-IsOrdered input account_id s h =
      elim (Option-cases (find (is_named input.name input.type) s.round_infos)) [
        | inl n ↦ rw (create_round_infor-writes input account_id s h n) (
          add-IsNumbered s.round_infos input h.0,
          add-IsApart s.round_infos input (length s.round_infos + 1) n h.1,
        )
        | inr (r, e) ↦
            rw
              (
                prisma.find_first_law (is_named input.name input.type) s.round_infos ∙ e,
                create_round_infor,
              )
              h
      ]

  pub log_and_change-IsOrdered :
      (account_id id : ℕ) (detail : Action) (change : RoundInfo → RoundInfo) (s : Rounds)
      → IsNumbered (map_where (is_round id) change s.round_infos)
      → IsApart (map_where (is_round id) change s.round_infos)
      → IsOrdered s
      → IsOrdered (log_and_change prisma account_id id detail change s).1
  unfolding log_and_change change_round
  log_and_change-IsOrdered account_id id detail change s numbered apart h =
      let law = prisma.update_law (is_round id) change s.round_infos in
      let logs = handle_action_log-logs account_id detail s in
      elim (Bool-cases (any (is_round id) s.round_infos)) [
        | inl t ↦ rw (logs, law, t, log_and_change, change_round) (numbered, apart)
        | inr f ↦ rw (logs, law, f, log_and_change, change_round) h
      ]

  pub update_round-IsOrdered :
      (id : ℕ) (input : RoundInput) (account_id : ℕ) (s : Rounds)
      → IsOrdered s
      → IsOrdered (update_round prisma id input account_id s).1
  unfolding update_round
  update_round-IsOrdered id input account_id s h =
      let namesake = λ (x : RoundInfo). is_named input.name input.type x && not (is_round id x) in
      let found = prisma.find_first_law (is_round id) s.round_infos in
      let other = prisma.find_first_law namesake s.round_infos in
      elim (Option-cases (find (is_round id) s.round_infos)) [
        | inl n ↦ rw (found ∙ n, update_round) h
        | inr (r, e) ↦ elim (Option-cases (find namesake s.round_infos)) [
          | inr (r', k) ↦ rw (found ∙ e, other ∙ k, update_round) h
          | inl n ↦
              rw (found ∙ e, other ∙ n, update_round)
                (log_and_change-IsOrdered account_id id (round_updated input.name input.type)
                  (rename_round input) s
                  (map-IsNumbered (is_round id) (rename_round input) s.round_infos (λ x. refl) h.0)
                  (rename-IsApart s.round_infos id r input (one_round s.round_infos id h.0) e n h.1)
                  h)
        ]
      ]

  pub delete_round-IsOrdered :
      (id account_id : ℕ) (s : Rounds)
      → IsOrdered s
      → IsOrdered (delete_round prisma id account_id s).1
  unfolding delete_round
  delete_round-IsOrdered id account_id s h =
      let found = prisma.find_first_law (is_round id) s.round_infos in
      elim (Option-cases (find (is_round id) s.round_infos)) [
        | inl n ↦ rw (found ∙ n, delete_round) h
        | inr (r, e) ↦
            rw (found ∙ e, delete_round)
              (log_and_change-IsOrdered account_id id (round_deleted r.name r.type) mark_deleted s
                (map-IsNumbered (is_round id) mark_deleted s.round_infos (λ x. refl) h.0)
                (λ name type. still_apart name type) h)
      ]
    where
      still_apart :
          (name type : String)
          → count (is_named name type) (map_where (is_round id) mark_deleted s.round_infos) ≤ 1
      still_apart name type =
          rw
            (count-map_where_same (is_round id) (is_named name type) mark_deleted s.round_infos
              (λ x t. refl))
            (h.1 name type)

  pub with_id-IsOrdered :
      (act : ℕ → Rounds → Outcome Unit × Rounds) (id : Option String) (s : Rounds)
      → ((n : ℕ) → IsOrdered (act n s).1)
      → IsOrdered s
      → IsOrdered (with_id prisma act id s).1
  unfolding with_id
  with_id-IsOrdered act none s keeps h = h
  with_id-IsOrdered act (some text) s keeps h = elim (Bool-cases (text === "")) [
    | inl t ↦ rw t h
    | inr f ↦ elim (Option-cases (to_number text)) [
      | inl n ↦ rw (f, n) h
      | inr (id, e) ↦ rw (f, e) (keeps id)
    ]
  ]
