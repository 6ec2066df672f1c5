-- ===== src/Bserv/Router/Pattern.antt =====
-- bserv/include/bserv/router.hpp: the regular expression of a url, and the match of `path`. Of
-- std::regex there is what `get_re_url` can give: plain characters and groups `([…]+)` of a set of
-- characters, with the greedy match of ECMAScript. `compile` is `none` on any other expression.
pub mod Matching
use movie_dbproject.Prelude.{
  ℕ, zero, suc, Bool, length, true, false, not, ◌&&◌, ◌||◌, Option, none, some, List, [], ◌∷◌, ◌++◌,
  ◌==◌, leb, if◌then◌else◌, ◌>>=◌, ◌≡◌, refl,
}
use movie_dbproject.Prelude.Bytes.{Bytes, codes}
use movie_dbproject.Bserv.Utils.Params.{is_empty, drop}
use movie_dbproject.Bserv.Utils.Url.{contains_byte}

-- `s` begins with `p`.
unfoldable pub starts_with : Bytes → Bytes → Bool
starts_with [] s = true
starts_with (c ∷ p) [] = false
starts_with (c ∷ p) (d ∷ s) = (c == d) && starts_with p s

-- `std::regex_replace(s, r, by)` for the expression `first ∷ rest` of plain characters; the number
-- counts the characters of a match that are still to be passed.
replace_from : ℕ → ℕ → Bytes → Bytes → Bytes → Bytes
unfolding starts_with
replace_from skip first rest by [] = []
replace_from (suc skip) first rest by (c ∷ s) = replace_from skip first rest by s
replace_from zero first rest by (c ∷ s) =
    let replaced = by ++ replace_from (length rest) first rest by s in
    let kept = c ∷ replace_from 0 first rest by s in
    if (c == first) && starts_with rest s then replaced else kept

unfoldable pub regex_replace : Bytes → Bytes → Bytes → Bytes
unfolding replace_from
regex_replace s [] by = s
regex_replace s (first ∷ rest) by = replace_from 0 first rest by s

abbrev pub url_regex_mapping : List (Bytes × Bytes)
url_regex_mapping =
    (codes "<int>", codes "([0-9]+)")
    ∷ (codes "<str>", codes "([A-Za-z0-9_\\.\\-]+)")
    ∷ (codes "<path>", codes "([A-Za-z0-9_/\\.\\-]+)")
    ∷ []

replace_each : List (Bytes × Bytes) → Bytes → Bytes
unfolding regex_replace
replace_each [] re_url = re_url
replace_each ((r, s) ∷ mapping) re_url = replace_each mapping (regex_replace re_url r s)

unfoldable pub get_re_url : Bytes → Bytes
unfolding replace_each
get_re_url url = replace_each url_regex_mapping url

-- A piece of a regular expression: a character, or a group of one or more characters of a set,
-- which is a list of ranges.
pub data Piece : Type 0 where
  literal : ℕ → Piece
  group : List (ℕ × ℕ) → Piece

-- The characters with a meaning of their own in an expression.
abbrev pub special : Bytes
special = codes "^$\\.*+?()[]{}|"

-- Where the reading of an expression stands. In a set, `single` is a character that a range may
-- still begin with.
pub data Mode : Type 0 where
  outside opened : Mode
  inside : List (ℕ × ℕ) → Option ℕ → Mode
  escaped : List (ℕ × ℕ) → Mode
  ranged : List (ℕ × ℕ) → ℕ → Mode
  closed repeated : List (ℕ × ℕ) → Mode

with_single : List (ℕ × ℕ) → Option ℕ → List (ℕ × ℕ)
with_single ranges none = ranges
with_single ranges (some c) = ranges ++ (c, c) ∷ []

-- A character in a set.
read_inside : List (ℕ × ℕ) → Option ℕ → ℕ → Option Mode
unfolding with_single
read_inside ranges single c =
    if c == b']'
    then some (closed (with_single ranges single))
    else if c == b'\\'
    then some (escaped (with_single ranges single))
    else if c == b'-'
    then (do low ← single; some (ranged ranges low))
    else if (c == b'[') || (c == b'^')
    then none
    else some (inside (with_single ranges single) (some c))

-- One character of an expression: the pieces so far and the mode behind it.
read : List Piece → Mode → ℕ → Option (List Piece × Mode)
unfolding read_inside contains_byte
read pieces outside c =
    if c == b'('
    then some (pieces, opened)
    else if contains_byte special c
    then none
    else some (pieces ++ literal c ∷ [], outside)
read pieces opened c = if c == b'[' then some (pieces, inside [] none) else none
read pieces (inside ranges single) c = do m ← read_inside ranges single c; some (pieces, m)
read pieces (escaped ranges) c = some (pieces, inside (ranges ++ (c, c) ∷ []) none)
read pieces (ranged ranges low) c =
    if (c == b']') || (c == b'\\')
    then none
    else some (pieces, inside (ranges ++ (low, c) ∷ []) none)
read pieces (closed ranges) c = if c == b'+' then some (pieces, repeated ranges) else none
read pieces (repeated ranges) c =
    if c == b')' then some (pieces ++ group ranges ∷ [], outside) else none

compile_from : List Piece → Mode → Bytes → Option (List Piece)
unfolding read
compile_from pieces outside [] = some pieces
compile_from pieces mode [] = none
compile_from pieces mode (c ∷ s) = do
  (pieces', mode') ← read pieces mode c
  compile_from pieces' mode' s

-- `std::regex{ re_url }`
unfoldable pub compile : Bytes → Option (List Piece)
unfolding compile_from
compile re_url = compile_from [] outside re_url

-- The character is in the set.
unfoldable pub in_set : List (ℕ × ℕ) → ℕ → Bool
in_set [] c = false
in_set ((low, high) ∷ ranges) c = (leb low c && leb c high) || in_set ranges c

-- A group that ends here with what it has taken, which may not be nothing.
unfoldable pub end_group : (Bytes → Option (List Bytes)) → Bytes → Bytes → Option (List Bytes)
end_group rest taken s =
    if is_empty taken then none else (do groups ← rest s; some (taken ∷ groups))

-- A group that has taken `taken` so far: the longest way in which the rest of the expression
-- matches the rest of the text.
unfoldable pub match_group :
    List (ℕ × ℕ) → (Bytes → Option (List Bytes)) → Bytes → Bytes → Option (List Bytes)
unfolding in_set end_group
match_group ranges rest taken [] = end_group rest taken []
match_group ranges rest taken (c ∷ s) =
    let longer = match_group ranges rest (taken ++ c ∷ []) s in
    if in_set ranges c
    then elim longer [ some groups ↦ some groups | none ↦ end_group rest taken (c ∷ s) ]
    else end_group rest taken (c ∷ s)

-- The texts of the groups, where the whole text matches.
unfoldable pub match_pieces : List Piece → Bytes → Option (List Bytes)
unfolding match_group
match_pieces [] [] = some []
match_pieces [] (c ∷ s) = none
match_pieces (literal x ∷ pieces) [] = none
match_pieces (literal x ∷ pieces) (c ∷ s) =
    let rest = match_pieces pieces s in if x == c then rest else none
match_pieces (group ranges ∷ pieces) s = match_group ranges (match_pieces pieces) [] s

-- `path::match`: what `result` is set to, where the url matches.
unfoldable pub match : List Piece → Bytes → Option (List Bytes)
unfolding match_pieces
match re url = do groups ← match_pieces re url; some (url ∷ groups)

-- The expression of a path.
unfoldable pub re_of : Bytes → Option (List Piece)
unfolding get_re_url compile
re_of url = compile (get_re_url url)

int_path : get_re_url (codes "/a/<int>/<str>") ≡ codes "/a/([0-9]+)/([A-Za-z0-9_\\.\\-]+)"
unfolding get_re_url
int_path = refl

two_groups :
    (do re ← re_of (codes "/a/<int>/<path>"); match re (codes "/a/17/b/c-d.e"))
    ≡ some (codes "/a/17/b/c-d.e" ∷ codes "17" ∷ codes "b/c-d.e" ∷ [])
unfolding re_of match
two_groups = refl

greedy :
    (do re ← re_of (codes "/<str>-<str>"); match re (codes "/a-b-c"))
    ≡ some (codes "/a-b-c" ∷ codes "a-b" ∷ codes "c" ∷ [])
unfolding re_of match
greedy = refl
