-- ===== src/Session/Stored.antt =====
-- A store that keeps its entries in a list, the newest first: the laws of `Redis` hold of it.
use u2u_marketplace_api.Common.{
  ℕ, ◌+◌, ◌*◌, String, refl, true, Option, none, some, List, [], ◌∷◌, ltb, if◌then◌else◌, ◌===◌,
  String_eq,
}
use u2u_marketplace_api.Session.{Redis, Value}

-- A value with the time at which it is gone; a deleted key has none.
abbrev pub Entries : Type 0
Entries = List (String × Option (Value × ℕ))

abbrev at_time : ℕ → Option (Value × ℕ) → Option Value
at_time t none = none
at_time t (some (value, expires)) = if ltb t expires then some value else none

abbrev pub entry : String → ℕ → Entries → Option Value
entry key t [] = none
entry key t ((j, e) ∷ entries) = if key === j then at_time t e else entry key t entries

-- A server that is always reached.
abbrev pub stored : Redis
stored = record {
  Store = Entries;
  reachable = λ t. true;
  set_ex = λ key value seconds now entries. (key, some (value, now + seconds * 1000)) ∷ entries;
  del = λ key entries. (key, none) ∷ entries;
  get = entry;
  get_set_law = λ key j value seconds now t entries. refl;
  get_del_law = λ key j t entries. refl;
}
