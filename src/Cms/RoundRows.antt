-- ===== src/Cms/RoundRows.antt =====
-- The ids and the names of the rounds of
-- src/modules/cms/service/launchpad-cms.service.ts.
use u2u_marketplace_api.Common.{
  ℕ, ◌+◌, ◌≤◌, String, ◌≡◌, refl, sym, ap, ◌∙◌, inl, inr, Bool, true, ◌&&◌, not, none, some, List,
  [], ◌∷◌, ◌++◌, ◌==◌, ◌===◌, String_eq, arith, leb, if◌then◌else◌, Bool-cases, length, count,
  count-append, length-append, length-map_where, find, map_where,
}
use u2u_marketplace_api.Database.Rows.{one_if, find-count, count-map_where, count-map_where_same}
use u2u_marketplace_api.Cms.Rounds.{
  RoundInfo, RoundInput, Rounds, is_round, is_named, new_round, rename_round,
}

-- The ids are the numbers from 1 to the number of rounds, each once.
abbrev pub IsNumbered : List RoundInfo → Type 0
IsNumbered rounds =
    (id : ℕ) → count (is_round id) rounds ≡ (if leb 1 id && leb id (length rounds) then 1 else 0)

-- No two rounds have the same name and the same type.
abbrev pub IsApart : List RoundInfo → Type 0
IsApart rounds = (name type : String) → count (is_named name type) rounds ≤ 1

abbrev pub IsOrdered : Rounds → Type 0
IsOrdered s = IsNumbered s.round_infos × IsApart s.round_infos

pub count-all : (rounds : List RoundInfo) → count (λ (r : RoundInfo). true) rounds ≡ length rounds
count-all [] = refl
count-all (r ∷ rounds) = omega (arith, count-all rounds)

pub add-IsNumbered :
    (rounds : List RoundInfo) (input : RoundInput)
    → IsNumbered rounds
    → IsNumbered (rounds ++ new_round (length rounds + 1) input ∷ [])
add-IsNumbered rounds input h id =
    let row = new_round (length rounds + 1) input in
    ground
      (arith, count-append (is_round id) rounds (row ∷ []), length-append rounds (row ∷ []), h id)

-- The new round has no namesake.
pub add-IsApart :
    (rounds : List RoundInfo) (input : RoundInput) (id : ℕ)
    → find (is_named input.name input.type) rounds ≡ none
    → IsApart rounds
    → IsApart (rounds ++ new_round id input ∷ [])
add-IsApart rounds input id n h name type =
    let row = new_round id input in
    let split = count-append (is_named name type) rounds (row ∷ []) in
    elim (Bool-cases (is_named name type row)) [
      | inl t ↦ let zero_before = same_name t in omega (arith, rw t at split, zero_before)
      | inr f ↦ omega (arith, rw f at split, h name type)
    ]
  where
    same_name :
        is_named name type (new_round id input) ≡ true → count (is_named name type) rounds ≡ 0
    same_name t = elim (Bool-cases (input.name === name)) [
      | inl a ↦ elim (Bool-cases (input.type === type)) [
        | inl b ↦
            ap (λ c. count (is_named c type) rounds) (sym ((String_eq.beq_iff input.name name).0 a))
            ∙ ap (λ c. count (is_named input.name c) rounds)
                (sym ((String_eq.beq_iff input.type type).0 b))
            ∙ find-count (is_named input.name input.type) rounds n
        | inr b ↦ absurd (cc (rw (a, b) at t))
      ]
      | inr a ↦ absurd (cc (rw a at t))
    ]

pub map-IsNumbered :
    (p : RoundInfo → Bool) (change : RoundInfo → RoundInfo) (rounds : List RoundInfo)
    → ((r : RoundInfo) → (change r).id ≡ r.id)
    → IsNumbered rounds
    → IsNumbered (map_where p change rounds)
map-IsNumbered p change rounds same h id =
    count-map_where_same p (is_round id) change rounds (λ r t. ap (λ n. n == id) (same r))
    ∙ h id
    ∙ ap (λ n. if leb 1 id && leb id n then 1 else 0) (sym (length-map_where p change rounds))

pub one_round :
    (rounds : List RoundInfo) (id : ℕ) → IsNumbered rounds → count (is_round id) rounds ≤ 1
one_round rounds id h = ground (arith, h id)

-- Where only the row that `p` finds passes `q`, `q` counts that row or none.
module _ (p q : RoundInfo → Bool) where
  no_others :
      (rounds : List RoundInfo)
      → count p rounds ≡ 0
      → find (λ r. q r && not (p r)) rounds ≡ none
      → count q rounds ≡ 0
  no_others [] h n = refl
  no_others (r ∷ rounds) h n = elim (Bool-cases (p r)) [
    | inl t ↦ absurd (omega (arith, rw t at h))
    | inr f ↦ elim (Bool-cases (q r)) [
      | inl t ↦ absurd (cc (rw (t, f, find) at n))
      | inr g ↦
          rw g (omega (arith, no_others rounds (omega (arith, rw f at h)) (rw (g, find) at n)))
    ]
  ]

  only_one :
      (rounds : List RoundInfo) (r : RoundInfo)
      → count p rounds ≤ 1
      → find p rounds ≡ some r
      → find (λ x. q x && not (p x)) rounds ≡ none
      → count q rounds ≤ one_if (q r)
  only_one [] r h e n = absurd (cc e)
  only_one (x ∷ rounds) r h e n = elim (Bool-cases (p x)) [
    | inl t ↦
        let here : some x ≡ some r = rw (t, find) at e in
        let same : x ≡ r = cc here in
        let rest : find (λ y. q y && not (p y)) rounds ≡ none = skip t n in
        let none_left = no_others rounds (omega (arith, rw t at h)) rest in
        rw (ap q same) (omega (arith, none_left))
    | inr f ↦ elim (Bool-cases (q x)) [
      | inl t ↦ absurd (cc (rw (t, f, find) at n))
      | inr g ↦ rw g (
          omega (
            arith,
            only_one rounds r (omega (arith, rw f at h)) (rw (f, find) at e) (rw (g, find) at n),
          ))
    ]
  ]
    where
      skip :
          p x ≡ true
          → find (λ y. q y && not (p y)) (x ∷ rounds) ≡ none
          → find (λ y. q y && not (p y)) rounds ≡ none
      skip t n = elim (Bool-cases (q x)) [
        | inl s ↦ rw (s, t, find) at n
        | inr s ↦ rw (s, find) at n
      ]

pub rename-IsApart :
    (rounds : List RoundInfo) (id : ℕ) (r : RoundInfo) (input : RoundInput)
    → count (is_round id) rounds ≤ 1
    → find (is_round id) rounds ≡ some r
    → find (λ x. is_named input.name input.type x && not (is_round id x)) rounds ≡ none
    → IsApart rounds
    → IsApart (map_where (is_round id) (rename_round input) rounds)
rename-IsApart rounds id r input one e n h name type =
    let change =
      count-map_where (is_round id) (is_named name type) (rename_round input) rounds one e in
    elim (Bool-cases (is_named name type (rename_round input r))) [
      | inl t ↦ omega (arith, rw t at change, own t)
      | inr f ↦ omega (arith, rw f at change, h name type)
    ]
  where
    own :
        is_named name type (rename_round input r) ≡ true
        → count (is_named name type) rounds ≤ one_if (is_named name type r)
    own t = elim (Bool-cases (input.name === name)) [
      | inl a ↦ elim (Bool-cases (input.type === type)) [
        | inl b ↦
            rw
              (
                sym ((String_eq.beq_iff input.name name).0 a),
                sym ((String_eq.beq_iff input.type type).0 b),
              )
              (only_one (is_round id) (is_named input.name input.type) rounds r one e n)
        | inr b ↦ absurd (cc (rw (a, b) at t))
      ]
      | inr a ↦ absurd (cc (rw a at t))
    ]
