-- ===== src/Paging/Clean.antt =====
-- What is left in a slug of src/commons/Other.common.ts.
use Prim.Native.Char.{Char}
use Prim.Native.String.{String, ◌++◌}
use Prim.Native.String.append
use u2u_marketplace_api.Common.{
  ℕ, zero, suc, ◌+◌, ◌≡◌, refl, inl, inr, Bool, true, false, not, ◌||◌, ◌&&◌, List, [], ◌∷◌, ◌==◌,
  Bool-cases,
}
use u2u_marketplace_api.Paging.Slug.{
  special, is_in, replace_each, remove_each, is_dash, dashes, replace_dashes, is_at, strip_ends,
  plain_letters, shorten_dashes, string_to_slug, string_to_slug_search,
}

-- No character of a text is in a class.
abbrev pub lacks : List ℕ → String → Bool
lacks letters String.[] = true
lacks letters (String.◌∷◌ c s) = not (is_in letters c) && lacks letters s

-- The same, but for `@`.
abbrev lacks_but_at : List ℕ → String → Bool
lacks_but_at letters String.[] = true
lacks_but_at letters (String.◌∷◌ c s) = (is_at c || not (is_in letters c)) && lacks_but_at letters s

and_true : (a b : Bool) → (a && b) ≡ true → (a ≡ true) × (b ≡ true)
and_true true b h = (refl, h)
and_true false b h = absurd (cc h)

module _ (letters : List ℕ) where
  lacks-remove_each : (s : String) → lacks letters (remove_each letters s) ≡ true
  unfolding remove_each
  lacks-remove_each String.[] = refl
  lacks-remove_each (String.◌∷◌ c s) = elim (Bool-cases (is_in letters c)) [
    | inl t ↦ rw t (lacks-remove_each s)
    | inr f ↦ rw (f, f) (lacks-remove_each s)
  ]

  lacks-remove_other :
      (others : List ℕ) (s : String)
      → lacks letters s ≡ true
      → lacks letters (remove_each others s) ≡ true
  unfolding remove_each
  lacks-remove_other others String.[] h = refl
  lacks-remove_other others (String.◌∷◌ c s) h =
      let (first, rest) = and_true (not (is_in letters c)) (lacks letters s) h in
      elim (Bool-cases (is_in others c)) [
        | inl t ↦ rw t (lacks-remove_other others s rest)
        | inr f ↦ rw (f, first) (lacks-remove_other others s rest)
      ]

  lacks-replace_each :
      (to : Char) (s : String)
      → is_in letters to ≡ false
      → lacks letters (replace_each letters to s) ≡ true
  unfolding replace_each
  lacks-replace_each to String.[] h = refl
  lacks-replace_each to (String.◌∷◌ c s) h = elim (Bool-cases (is_in letters c)) [
    | inl t ↦ rw (t, h) (lacks-replace_each to s h)
    | inr f ↦ rw (f, f) (lacks-replace_each to s h)
  ]

  lacks-replace_other :
      (others : List ℕ) (to : Char) (s : String)
      → is_in letters to ≡ false
      → lacks letters s ≡ true
      → lacks letters (replace_each others to s) ≡ true
  unfolding replace_each
  lacks-replace_other others to String.[] h k = refl
  lacks-replace_other others to (String.◌∷◌ c s) h k =
      let (first, rest) = and_true (not (is_in letters c)) (lacks letters s) k in
      elim (Bool-cases (is_in others c)) [
        | inl t ↦ rw (t, h) (lacks-replace_other others to s h rest)
        | inr f ↦ rw (f, first) (lacks-replace_other others to s h rest)
      ]

  lacks-append :
      (s t : String)
      → lacks letters s ≡ true
      → lacks letters t ≡ true
      → lacks letters (s ++ t) ≡ true
  lacks-append String.[] t h k = rw (append.nil t) k
  lacks-append (String.◌∷◌ c s) t h k =
      let (first, rest) = and_true (not (is_in letters c)) (lacks letters s) h in
      rw (append.cons c s t) (rw first (lacks-append s t rest k))

  lacks-dashes : (n : ℕ) → is_in letters "-" ≡ false → lacks letters (dashes n) ≡ true
  lacks-dashes zero h = refl
  lacks-dashes (suc n) h = lacks-append "-" (dashes n) (rw h refl) (lacks-dashes n h)

  lacks-replace_dashes :
      (size : ℕ) (by : String) (seen : ℕ) (s : String)
      → is_in letters "-" ≡ false
      → lacks letters by ≡ true
      → lacks letters s ≡ true
      → lacks letters (replace_dashes size by seen s) ≡ true
  unfolding replace_dashes
  lacks-replace_dashes size by seen String.[] h b k = lacks-dashes seen h
  lacks-replace_dashes size by seen (String.◌∷◌ c s) h b k =
      let (first, rest) = and_true (not (is_in letters c)) (lacks letters s) k in
      elim (Bool-cases (is_dash c)) [
        | inl t ↦ elim (Bool-cases (seen + 1 == size)) [
          | inl e ↦
              rw (t, e, replace_dashes)
                (lacks-append by (replace_dashes size by 0 s) b
                  (lacks-replace_dashes size by 0 s h b rest))
          | inr e ↦ rw (t, e, replace_dashes) (lacks-replace_dashes size by (seen + 1) s h b rest)
        ]
        | inr f ↦
            rw (f, replace_dashes)
              (lacks-append (dashes seen) (String.◌∷◌ c (replace_dashes size by 0 s))
                (lacks-dashes seen h) (rw first (lacks-replace_dashes size by 0 s h b rest)))
      ]

  lacks-shorten_dashes :
      (by s : String)
      → is_in letters "-" ≡ false
      → lacks letters by ≡ true
      → lacks letters s ≡ true
      → lacks letters (shorten_dashes by s) ≡ true
  unfolding shorten_dashes
  lacks-shorten_dashes by s h b k = lacks-replace_dashes 2 by 0 _ h b (
      lacks-replace_dashes 3 by 0 _ h b
        (lacks-replace_dashes 4 by 0 _ h b (lacks-replace_dashes 5 by 0 s h b k)))

  but_at : (s : String) → lacks letters s ≡ true → lacks_but_at letters s ≡ true
  but_at String.[] h = refl
  but_at (String.◌∷◌ c s) h =
      let (first, rest) = and_true (not (is_in letters c)) (lacks letters s) h in
      elim (Bool-cases (is_at c)) [
        | inl t ↦ rw t (but_at s rest)
        | inr f ↦ rw (f, first) (but_at s rest)
      ]

  but_at-append :
      (s t : String)
      → lacks_but_at letters s ≡ true
      → lacks_but_at letters t ≡ true
      → lacks_but_at letters (s ++ t) ≡ true
  but_at-append String.[] t h k = rw (append.nil t) k
  but_at-append (String.◌∷◌ c s) t h k =
      let (first, rest) = and_true (is_at c || not (is_in letters c)) (lacks_but_at letters s) h in
      rw (append.cons c s t) (rw first (but_at-append s t rest k))

  -- The ends are stripped of each `@`.
  lacks-strip_ends :
      (s : String) → lacks_but_at letters s ≡ true → lacks letters (strip_ends s) ≡ true
  unfolding strip_ends
  lacks-strip_ends String.[] h = refl
  lacks-strip_ends (String.◌∷◌ c String.[]) h = elim (Bool-cases (is_at c)) [
    | inl t ↦ rw (t, strip_ends) refl
    | inr f ↦ rw (f, strip_ends) (rw f at h)
  ]
  lacks-strip_ends (String.◌∷◌ c (String.◌∷◌ d s)) h =
      let (first, rest) =
        and_true (is_at c || not (is_in letters c)) (lacks_but_at letters (String.◌∷◌ d s)) h in
      let (_, after) = and_true (is_at d || not (is_in letters d)) (lacks_but_at letters s) rest in
      elim (Bool-cases (is_at c)) [
        | inl t ↦ elim (Bool-cases (is_dash d)) [
          | inl e ↦ rw (t, e, strip_ends) (lacks-strip_ends s after)
          | inr e ↦ rw (t, e, strip_ends) (lacks-strip_ends (String.◌∷◌ d s) rest)
        ]
        | inr f ↦ elim (Bool-cases (is_dash c && is_at d)) [
          | inl e ↦ rw (f, e, strip_ends) (lacks-strip_ends s after)
          | inr e ↦
              rw (f, e, strip_ends) (rw (rw f at first) (lacks-strip_ends (String.◌∷◌ d s) rest))
        ]
      ]

  at_ends : (s : String) → lacks letters s ≡ true → lacks_but_at letters ("@" ++ (s ++ "@")) ≡ true
  at_ends s h = but_at-append "@" (s ++ "@") refl (but_at-append s "@" (but_at s h) refl)

  lacks-slug :
      (by s : String)
      → is_in letters "-" ≡ false
      → lacks letters by ≡ true
      → lacks letters s ≡ true
      → lacks letters (strip_ends ("@" ++ (shorten_dashes by s ++ "@"))) ≡ true
  lacks-slug by s h b k =
      lacks-strip_ends ("@" ++ (shorten_dashes by s ++ "@"))
        (at_ends (shorten_dashes by s) (lacks-shorten_dashes by s h b k))

-- A slug and a slug for a search have no space and none of the special characters, whatever the
-- title.
pub slugs-lacks :
    (title : String)
    → ((lacks special (string_to_slug_search title) ≡ true)
        × (lacks (32 ∷ []) (string_to_slug_search title) ≡ true))
      × ((lacks special (string_to_slug title) ≡ true)
          × (lacks (32 ∷ []) (string_to_slug title) ≡ true))
unfolding string_to_slug_search string_to_slug
slugs-lacks title =
    let bare = remove_each special (plain_letters title) in
    let clean = lacks-remove_each special (plain_letters title) in
    let joined = remove_each (32 ∷ []) bare in
    let dashed = replace_each (32 ∷ []) "-" bare in
    (
      (
        lacks-slug special "" joined refl refl (lacks-remove_other special (32 ∷ []) bare clean),
        lacks-slug (32 ∷ []) "" joined refl refl (lacks-remove_each (32 ∷ []) bare),
      ),
      (
        lacks-slug special "-" dashed refl refl
            (lacks-replace_other special (32 ∷ []) "-" bare refl clean),
        lacks-slug (32 ∷ []) "-" dashed refl refl (lacks-replace_each (32 ∷ []) "-" bare refl),
      ),
    )
