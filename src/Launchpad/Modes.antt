-- ===== src/Launchpad/Modes.antt =====
-- `findAll` of src/modules/launchpad/launchpad.service.ts: the projects of a mode at a time. The
-- source reads the clock in each comparison; here one call reads it once.
use u2u_marketplace_api.Common.{
  ℕ, ◌≤◌, ◌≡◌, refl, Bool, true, false, ◌&&◌, ◌||◌, Option, none, some, List, [], ◌∷◌, arith, ltb,
  leb, filter, every, any, All, Memᴰ, Memᴰ-filter, filter-Memᴰ, ◌↔◌,
}
use u2u_marketplace_api.Database.{Prisma}
use u2u_marketplace_api.Database.Schema.{ProjectRound, Project}

-- `ProjectStat`
pub data ProjectStat : Type 0 where
  minting upcoming ended claim : ProjectStat

-- `===` on two dates that were made apart compares the objects, not the times.
abbrev pub same_object : ℕ → ℕ → Bool
same_object date other = false

abbrev pub is_upcoming : ℕ → ProjectRound → Bool
is_upcoming now round = ltb now round.start

abbrev pub is_minting : ℕ → ProjectRound → Bool
is_minting now round =
    (leb round.start now && leb now round.end_time) || same_object round.claimable_start 0

abbrev pub is_ended : ℕ → ProjectRound → Bool
is_ended now round = ltb round.end_time now

abbrev pub is_claimable : ℕ → ProjectRound → Bool
is_claimable now round = ltb round.claimable_start now

-- The five branches on `query.mode`.
pub in_mode : Option ProjectStat → ℕ → Project → Bool
in_mode (some upcoming) now project = every (is_upcoming now) project.rounds
in_mode (some minting) now project = any (is_minting now) project.rounds
in_mode (some ended) now project = every (is_ended now) project.rounds
in_mode (some claim) now project = any (is_claimable now) project.rounds
in_mode none now project = true

module _ (prisma : Prisma) where
  unfoldable pub find_all : Option ProjectStat → ℕ → List Project → List Project
  unfolding in_mode
  find_all mode now projects =
      filter (in_mode mode now) (prisma.find_many (λ (p : Project). p.is_activated) projects)

-- A round does not end before it starts.
abbrev pub Orderly : Project → Type 0
Orderly project = All (λ (r : ProjectRound). r.start ≤ r.end_time) project.rounds

-- The modes of one project at one time.
abbrev pub Exclusive : ℕ → Project → Type 0
Exclusive now project =
    (in_mode (some upcoming) now project ≡ true → in_mode (some minting) now project ≡ false)
    × (in_mode (some ended) now project ≡ true → in_mode (some minting) now project ≡ false)
    × (in_mode (some upcoming) now project ≡ true
        → in_mode (some ended) now project ≡ true
        → project.rounds ≡ [])

upcoming-minting :
    (now : ℕ) (rounds : List ProjectRound)
    → every (is_upcoming now) rounds ≡ true
    → any (is_minting now) rounds ≡ false
upcoming-minting now [] h = refl
upcoming-minting now (r ∷ rounds) h = ground (arith, h, upcoming-minting now rounds)

ended-minting :
    (now : ℕ) (rounds : List ProjectRound)
    → every (is_ended now) rounds ≡ true
    → any (is_minting now) rounds ≡ false
ended-minting now [] h = refl
ended-minting now (r ∷ rounds) h = ground (arith, h, ended-minting now rounds)

upcoming-ended :
    (now : ℕ) (rounds : List ProjectRound)
    → All (λ (r : ProjectRound). r.start ≤ r.end_time) rounds
    → every (is_upcoming now) rounds ≡ true
    → every (is_ended now) rounds ≡ true
    → rounds ≡ []
upcoming-ended now [] o h k = refl
upcoming-ended now (r ∷ rounds) (le, o) h k = absurd (ground (arith, le, h, k))

-- A project that is upcoming or ended is not minting; one that is upcoming and ended has no rounds,
-- where no round ends before it starts.
pub in_mode-Exclusive : (now : ℕ) (project : Project) → Orderly project → Exclusive now project
unfolding in_mode
in_mode-Exclusive now project o = (
  upcoming-minting now project.rounds,
  ended-minting now project.rounds,
  upcoming-ended now project.rounds o,
)

-- `findAll` lists a project exactly when it is there, activated, and in the mode that was asked for.
pub find_all_iff :
    (prisma : Prisma) (mode : Option ProjectStat) (now : ℕ) (projects : List Project)
    (project : Project)
    → Memᴰ project (find_all prisma mode now projects)
      ↔ (Memᴰ project projects × (project.is_activated ≡ true) × (in_mode mode now project ≡ true))
unfolding find_all
find_all_iff prisma mode now projects project =
    rw (prisma.find_many_law (λ (p : Project). p.is_activated) projects) (
      λ m.
          let (k, mode') =
            Memᴰ-filter (in_mode mode now) (filter (λ (p : Project). p.is_activated) projects) m in
          let (j, active) = Memᴰ-filter (λ (p : Project). p.is_activated) projects k in
          (j, active, mode'),
      λ (j, active, mode').
          filter-Memᴰ (in_mode mode now) (filter (λ (p : Project). p.is_activated) projects)
            (filter-Memᴰ (λ (p : Project). p.is_activated) projects j active) mode',
    )

-- A project without rounds is both upcoming and ended, at any time.
pub no_rounds-in_mode :
    (now : ℕ) (project : Project)
    → project.rounds ≡ []
    → (in_mode (some upcoming) now project ≡ true) × (in_mode (some ended) now project ≡ true)
unfolding in_mode
no_rounds-in_mode now project e = rw e (refl, refl)
