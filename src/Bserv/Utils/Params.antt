-- ===== src/Bserv/Utils/Params.antt =====
-- bserv/utils.cpp: `parse_params` and `parse_url`. `none` is an exception out of `decode_url`.
pub mod Collects
pub mod RoundTrip
use movie_dbproject.Prelude.{
  ℕ, zero, suc, Bool, true, false, not, ◌&&◌, ◌||◌, Option, none, some, List, [], ◌∷◌, ◌++◌, ◌==◌,
  if◌then◌else◌, ◌>>=◌, length, ◌≡◌, refl,
}
use movie_dbproject.Prelude.Bytes.{Bytes, codes}
use movie_dbproject.Prelude.Dict.{Dict, lookup, insert, erase}
use movie_dbproject.Bserv.Utils.Url.{space, decode_url}

abbrev pub equals : ℕ
equals = b'='

abbrev pub ampersand : ℕ
ampersand = b'&'

abbrev pub is_empty {ℓ} : {A : Type ℓ} → List A → Bool
is_empty [] = true
is_empty (x ∷ xs) = false

-- `dict_params` and `list_params`.
pub record Params : Type 0 where
  pub dict : Dict Bytes
  pub list : Dict (List Bytes)

abbrev pub no_params : Params
no_params = record { dict = []; list = [] }

-- `while (!s.empty() && s.back() == ' ') s.pop_back();`
unfoldable pub trim_end : Bytes → Bytes
trim_end [] = []
trim_end (c ∷ s) = let r = trim_end s in if is_empty r && (c == space) then [] else c ∷ r

-- What the loop does with a decoded pair: a second value for a key moves the key to the lists.
unfoldable pub add_pair : Bytes → Bytes → Params → Params
add_pair key value p = elim (lookup key p.list) [
  | some values ↦ record p { list = insert key (values ++ value ∷ []) p.list }
  | none ↦ elim (lookup key p.dict) [
    | some previous ↦ record {
      dict = erase key p.dict;
      list = insert key (previous ∷ value ∷ []) p.list;
    }
    | none ↦ record p { dict = insert key value p.dict }
  ]
]

-- The variables of the loop; `on_key` says that `a` points to `key`.
pub record Loop : Type 0 where
  pub key : Bytes
  pub value : Bytes
  pub on_key : Bool
  pub params : Params

-- The round at the delimiter, with the two texts trimmed.
close_pair : Bytes → Bytes → Params → Option Loop
unfolding add_pair
close_pair key value params =
    if is_empty key && is_empty value
    then some (record { key = key; value = value; on_key = true; params = params })
    else do
      k ← decode_url key
      v ← decode_url value
      some (record { key = []; value = []; on_key = true; params = add_pair k v params })

-- A character that is neither `=` nor the delimiter; a space at the beginning is dropped.
append_char : ℕ → Loop → Loop
append_char c l =
    if l.on_key
    then (if is_empty l.key && (c == space) then l else record l { key = l.key ++ c ∷ [] })
    else (if is_empty l.value && (c == space) then l else record l { value = l.value ++ c ∷ [] })

-- One round of the loop.
round : ℕ → ℕ → Loop → Option Loop
unfolding close_pair trim_end append_char
round delimiter c l =
    if c == equals
    then some (record l { on_key = not l.on_key })
    else if c == delimiter
    then close_pair (trim_end l.key) (trim_end l.value) l.params
    else some (append_char c l)

rounds : ℕ → Bytes → Loop → Option Loop
unfolding round
rounds delimiter [] l = some l
rounds delimiter (c ∷ s) l = do l' ← round delimiter c l; rounds delimiter s l'

-- `s` from `start_pos` on.
unfoldable pub drop {ℓ} : {A : Type ℓ} → ℕ → List A → List A
drop zero xs = xs
drop (suc n) [] = []
drop (suc n) (x ∷ xs) = drop n xs

abbrev start : Loop
start = record { key = []; value = []; on_key = true; params = no_params }

-- `s` itself is restored by the code before it returns, so it is no part of the result.
unfoldable pub parse_params : Bytes → ℕ → ℕ → Option Params
unfolding rounds drop
parse_params s start_pos delimiter = do
  l ← rounds delimiter (drop start_pos (s ++ delimiter ∷ [])) start
  some l.params

-- The text before the first `?`, and its length.
unfoldable pub before_query : Bytes → Bytes
before_query [] = []
before_query (c ∷ s) = let r = before_query s in if c == b'?' then [] else c ∷ r

unfoldable pub parse_url : Bytes → Option (Bytes × Params)
unfolding before_query parse_params
parse_url s =
    let url = before_query s in
    if length url == length s
    then some (url, no_params)
    else do p ← parse_params s (suc (length url)) ampersand; some (url, p)
