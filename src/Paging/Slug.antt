-- ===== src/Paging/Slug.antt =====
-- `stringToSlug` and `stringToSlugSearch` of src/commons/Other.common.ts, on texts whose capitals are
-- ASCII or among the letters that the functions replace.
use Prim.Native.Char.{Char, code}
use Prim.Native.String.{String, ◌++◌}
use u2u_marketplace_api.Common.{
  ℕ, zero, suc, ◌+◌, Bool, true, false, ◌&&◌, List, [], ◌∷◌, ◌==◌, any, if◌then◌else◌,
}
use u2u_marketplace_api.Common.Text.{to_lower_case}

-- The letters that become `a`, by their code points, small and capital.
abbrev a_letters : List ℕ
a_letters =
    225 ∷ 224 ∷ 7843 ∷ 7841 ∷ 227 ∷ 259 ∷ 7855 ∷ 7857 ∷ 7859 ∷ 7861 ∷ 7863 ∷ 226 ∷ 7845 ∷ 7847
    ∷ 7849 ∷ 7851 ∷ 7853 ∷ 193 ∷ 192 ∷ 7842 ∷ 7840 ∷ 195 ∷ 258 ∷ 7854 ∷ 7856 ∷ 7858 ∷ 7860 ∷ 7862
    ∷ 194 ∷ 7844 ∷ 7846 ∷ 7848 ∷ 7850 ∷ 7852 ∷ []

-- The letters that become `e`, by their code points, small and capital.
abbrev e_letters : List ℕ
e_letters =
    233 ∷ 232 ∷ 7867 ∷ 7869 ∷ 7865 ∷ 234 ∷ 7871 ∷ 7873 ∷ 7875 ∷ 7877 ∷ 7879 ∷ 201 ∷ 200 ∷ 7866
    ∷ 7868 ∷ 7864 ∷ 202 ∷ 7870 ∷ 7872 ∷ 7874 ∷ 7876 ∷ 7878 ∷ []

-- The letters that become `i`, by their code points, small and capital.
abbrev i_letters : List ℕ
i_letters = 105 ∷ 237 ∷ 236 ∷ 7881 ∷ 297 ∷ 7883 ∷ 73 ∷ 205 ∷ 204 ∷ 7880 ∷ 296 ∷ 7882 ∷ []

-- The letters that become `o`, by their code points, small and capital.
abbrev o_letters : List ℕ
o_letters =
    243 ∷ 242 ∷ 7887 ∷ 7885 ∷ 245 ∷ 244 ∷ 7889 ∷ 7891 ∷ 7893 ∷ 7895 ∷ 7897 ∷ 417 ∷ 7899 ∷ 7901
    ∷ 7903 ∷ 7905 ∷ 7907 ∷ 211 ∷ 210 ∷ 7886 ∷ 7884 ∷ 213 ∷ 212 ∷ 7888 ∷ 7890 ∷ 7892 ∷ 7894 ∷ 7896
    ∷ 416 ∷ 7898 ∷ 7900 ∷ 7902 ∷ 7904 ∷ 7906 ∷ []

-- The letters that become `u`, by their code points, small and capital.
abbrev u_letters : List ℕ
u_letters =
    250 ∷ 249 ∷ 7911 ∷ 361 ∷ 7909 ∷ 432 ∷ 7913 ∷ 7915 ∷ 7917 ∷ 7919 ∷ 7921 ∷ 218 ∷ 217 ∷ 7910 ∷ 360
    ∷ 7908 ∷ 431 ∷ 7912 ∷ 7914 ∷ 7916 ∷ 7918 ∷ 7920 ∷ []

-- The letters that become `y`, by their code points, small and capital.
abbrev y_letters : List ℕ
y_letters = 253 ∷ 7923 ∷ 7927 ∷ 7929 ∷ 7925 ∷ 221 ∷ 7922 ∷ 7926 ∷ 7928 ∷ 7924 ∷ []

-- The letters that become `d`, by their code points, small and capital.
abbrev d_letters : List ℕ
d_letters = 273 ∷ 272 ∷ []

-- The special characters, from the backquote to the underscore.
abbrev pub special : List ℕ
special =
    96 ∷ 126 ∷ 33 ∷ 64 ∷ 35 ∷ 124 ∷ 36 ∷ 37 ∷ 94 ∷ 38 ∷ 42 ∷ 40 ∷ 41 ∷ 43 ∷ 61 ∷ 44 ∷ 46 ∷ 47 ∷ 63
    ∷ 62 ∷ 60 ∷ 39 ∷ 34 ∷ 58 ∷ 59 ∷ 95 ∷ []

abbrev pub is_in : List ℕ → Char → Bool
is_in letters c = any (λ l. l == code c) letters

-- `replace(/…/gi, c)` for a class of single letters.
unfoldable pub replace_each : List ℕ → Char → String → String
replace_each letters to String.[] = String.[]
replace_each letters to (String.◌∷◌ c s) =
    String.◌∷◌ (if is_in letters c then to else c) (replace_each letters to s)

unfoldable pub remove_each : List ℕ → String → String
remove_each letters String.[] = String.[]
remove_each letters (String.◌∷◌ c s) =
    let rest = remove_each letters s in if is_in letters c then rest else String.◌∷◌ c rest

abbrev pub is_dash : Char → Bool
is_dash c = code c == 45

abbrev pub dashes : ℕ → String
dashes zero = ""
dashes (suc n) = "-" ++ dashes n

-- `replace` of `size` dashes in a row by a text, from the left, with `seen` dashes read so far.
unfoldable pub replace_dashes : ℕ → String → ℕ → String → String
replace_dashes size by seen String.[] = dashes seen
replace_dashes size by seen (String.◌∷◌ c s) = elim (is_dash c) [
  | true ↦ elim (seen + 1 == size) [
    | true ↦ by ++ replace_dashes size by 0 s
    | false ↦ replace_dashes size by (seen + 1) s
  ]
  | false ↦ dashes seen ++ String.◌∷◌ c (replace_dashes size by 0 s)
]

abbrev pub is_at : Char → Bool
is_at c = code c == 64

-- `replace(/@-|-@|@/gi, '')`
unfoldable pub strip_ends : String → String
strip_ends String.[] = String.[]
strip_ends (String.◌∷◌ c String.[]) = if is_at c then String.[] else String.◌∷◌ c String.[]
strip_ends (String.◌∷◌ c (String.◌∷◌ d s)) = elim (is_at c) [
  | true ↦ elim (is_dash d) [ true ↦ strip_ends s | false ↦ strip_ends (String.◌∷◌ d s) ]
  | false ↦ elim (is_dash c && is_at d) [
    | true ↦ strip_ends s
    | false ↦ String.◌∷◌ c (strip_ends (String.◌∷◌ d s))
  ]
]

-- The letters without marks.
unfoldable pub plain_letters : String → String
unfolding replace_each
plain_letters title = replace_each d_letters "d" (
    replace_each y_letters "y" (
      replace_each u_letters "u" (
        replace_each o_letters "o" (
          replace_each i_letters "i"
            (replace_each e_letters "e" (replace_each a_letters "a" (to_lower_case title)))))))

unfoldable pub shorten_dashes : String → String → String
unfolding replace_dashes
shorten_dashes by slug =
    replace_dashes 2 by 0
      (replace_dashes 3 by 0 (replace_dashes 4 by 0 (replace_dashes 5 by 0 slug)))

-- `stringToSlug`: a space becomes a dash.
unfoldable pub string_to_slug : String → String
unfolding plain_letters remove_each replace_each shorten_dashes strip_ends
string_to_slug title = strip_ends (
    "@"
    ++ (shorten_dashes "-" (replace_each (32 ∷ []) "-" (remove_each special (plain_letters title)))
        ++ "@"))

-- `stringToSlugSearch`: a space is removed.
unfoldable pub string_to_slug_search : String → String
unfolding plain_letters remove_each shorten_dashes strip_ends
string_to_slug_search title = strip_ends (
    "@"
    ++ (shorten_dashes "" (remove_each (32 ∷ []) (remove_each special (plain_letters title)))
        ++ "@"))
