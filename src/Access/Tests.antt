-- ===== src/Access/Tests.antt =====
-- Runs of the access decision, and the theorems at concrete accounts.
use u2u_marketplace_api.Common.{◌≤◌, ◌≡◌, refl, true, false, [], ◌∷◌, Memᴰ, arith, All}
use u2u_marketplace_api.Access.{
  Role, admin_blog, creator, admin_marketplace, admin_nft, viewer, is_authorized, can_activate,
}
use u2u_marketplace_api.Access.Ranking.{rank}
use u2u_marketplace_api.Access.Decision.{allows, is_authorized_sound}

decisions :
    (is_authorized (admin_blog ∷ []) creator ≡ true)
    × (is_authorized (creator ∷ []) admin_blog ≡ false)
    × (is_authorized (admin_marketplace ∷ []) admin_nft ≡ true)
    × (is_authorized (admin_nft ∷ []) admin_nft ≡ true)
    × (is_authorized (admin_nft ∷ creator ∷ []) admin_nft ≡ false)
    × (is_authorized [] viewer ≡ false)
unfolding is_authorized
decisions = (refl, refl, refl, refl, refl, refl)

guard : can_activate (admin_blog ∷ []) (admin_nft ∷ creator ∷ []) ≡ true
unfolding can_activate is_authorized
guard = refl

is_authorized_sound_example :
    (role : Role) × Memᴰ role (admin_marketplace ∷ []) × (allows role admin_nft ≡ true)
is_authorized_sound_example = is_authorized_sound (admin_marketplace ∷ []) admin_nft decisions.2

second_ranks : All (λ x. rank x ≤ 2) (admin_nft ∷ creator ∷ [])
unfolding rank
second_ranks = omega arith
