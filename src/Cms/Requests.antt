-- ===== src/Cms/Requests.antt =====
-- Requests on the rounds (src/modules/cms/service/launchpad-cms.service.ts), one after another.
use u2u_marketplace_api.Common.{
  ℕ, ◌+◌, String, ◌≡◌, refl, Option, none, List, [], ◌∷◌, ◌++◌, String_eq, length, find,
}
use u2u_marketplace_api.Database.{Prisma}
use u2u_marketplace_api.Database.Schema.{done}
use u2u_marketplace_api.Cms.Rounds.{
  RoundInput, Rounds, is_named, new_round, create_round_infor, update_round, delete_round,
  update_round_infor, delete_round_infor,
}
use u2u_marketplace_api.Cms.RoundRows.{IsOrdered}
use u2u_marketplace_api.Cms.RoundSteps.{
  create_round_infor-writes, create_round_infor-IsOrdered, update_round-IsOrdered,
  delete_round-IsOrdered, with_id-IsOrdered,
}

-- A request on the rounds, by an account.
pub data RoundRequest : Type 0 where
  create : RoundInput → ℕ → RoundRequest
  update : Option String → RoundInput → ℕ → RoundRequest
  delete : Option String → ℕ → RoundRequest

module _ (prisma : Prisma) where
  abbrev pub serve : RoundRequest → Rounds → Rounds
  serve (create input account_id) s = (create_round_infor prisma input account_id s).1
  serve (update id input account_id) s = (update_round_infor prisma id input account_id s).1
  serve (delete id account_id) s = (delete_round_infor prisma id account_id s).1

  abbrev pub serve_all : List RoundRequest → Rounds → Rounds
  serve_all [] s = s
  serve_all (request ∷ requests) s = serve_all requests (serve request s)

  -- Whatever requests to create, update and delete rounds are served one after another, successful or not, where the rounds are in order before: the ids stay the numbers from 1 to the number of rounds, each once, and no two rounds
  -- have the same name and type.
  pub serve_all-IsOrdered :
      (requests : List RoundRequest) (s : Rounds) → IsOrdered s → IsOrdered (serve_all requests s)
  unfolding update_round_infor delete_round_infor
  serve_all-IsOrdered [] s h = h
  serve_all-IsOrdered (create input account_id ∷ requests) s h =
      serve_all-IsOrdered requests (create_round_infor prisma input account_id s).1
        (create_round_infor-IsOrdered prisma input account_id s h)
  serve_all-IsOrdered (update id input account_id ∷ requests) s h =
      serve_all-IsOrdered requests (update_round_infor prisma id input account_id s).1 (
        with_id-IsOrdered prisma (λ n. update_round prisma n input account_id) id s
          (λ n. update_round-IsOrdered prisma n input account_id s h) h)
  serve_all-IsOrdered (delete id account_id ∷ requests) s h =
      serve_all-IsOrdered requests (delete_round_infor prisma id account_id s).1 (
        with_id-IsOrdered prisma (λ n. delete_round prisma n account_id) id s
          (λ n. delete_round-IsOrdered prisma n account_id s h) h)

  -- Where no round has the name and the type, and the ids are in order, the creation is not refused:
  -- the id, one more than the number of rounds, is free, and the row is added and answered.
  pub create_round_infor-answers :
      (input : RoundInput) (account_id : ℕ) (s : Rounds)
      → IsOrdered s
      → find (is_named input.name input.type) s.round_infos ≡ none
      → ((create_round_infor prisma input account_id s).0
          ≡ done (new_round (length s.round_infos + 1) input))
        × ((create_round_infor prisma input account_id s).1.round_infos
            ≡ s.round_infos ++ new_round (length s.round_infos + 1) input ∷ [])
  create_round_infor-answers input account_id s h n =
      rw (create_round_infor-writes prisma input account_id s h n) (refl, refl)
