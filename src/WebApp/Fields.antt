-- ===== src/WebApp/Fields.antt =====
-- WebApp/handlers.cpp: reading the parameters of a request.
pub mod Checks
pub mod Digits
use movie_dbproject.Prelude.{
  ℕ, zero, suc, ◌+◌, ◌-◌, ◌*◌, Bool, true, false, ◌&&◌, ◌||◌, Option, none, some, List, [], ◌∷◌,
  ◌==◌, leb, if◌then◌else◌,
}
use movie_dbproject.Prelude.Bytes.{Bytes, same}
use movie_dbproject.Prelude.Int.{ℤ, pos, negsuc}
use movie_dbproject.Prelude.Dict.{Dict, lookup}
use movie_dbproject.Bserv.Utils.Params.{is_empty}
use movie_dbproject.Bserv.Database.Query.{json_string}
use movie_dbproject.WebApp.Flow.{
  Json, Request, Handler, or_throw, bad_value, bad_number, ◌>>=◌, pure,
}
use movie_dbproject.WebApp.Db.{fits_integer}

-- A `const char*` ends at the first null.
unfoldable pub c_str : Bytes → Bytes
c_str [] = []
c_str (c ∷ s) = let r = c_str s in if c == 0 then [] else c ∷ r

-- `as_string()`; `none` is its exception.
unfoldable pub as_string : Json → Option Bytes
as_string (json_string s) = some s
as_string _ = none

-- `params[key].as_string()`: a key that is missing is made null, which is no string.
unfoldable pub string_param : Dict Json → Bytes → Option Bytes
unfolding as_string
string_param obj key = elim (lookup key obj) [ none ↦ none | some v ↦ as_string v ]

unfoldable pub get_or_empty : Dict Json → Bytes → Option Bytes
unfolding as_string c_str
get_or_empty obj key = elim (lookup key obj) [
  | none ↦ some []
  | some v ↦ elim (as_string v) [ none ↦ none | some s ↦ some (c_str s) ]
]

-- The decimal digits that `std::stoi` reads, up to the first byte that is none.
unfoldable pub scan_decimal : Option ℕ → Bytes → Option ℕ
scan_decimal acc [] = acc
scan_decimal acc (c ∷ s) = elim (leb b'0' c && leb c b'9') [
  | false ↦ acc
  | true ↦ scan_decimal (some (10 * (elim acc [ none ↦ 0 | some v ↦ v ]) + (c - b'0'))) s
]

unfoldable pub skip_white : Bytes → Bytes
skip_white [] = []
skip_white (c ∷ s) = elim (c == b' ' || (leb 9 c && leb c 13)) [
  | true ↦ skip_white s
  | false ↦ c ∷ s
]

unfoldable pub negated : ℕ → ℤ
negated zero = pos zero
negated (suc n) = negsuc n

unfoldable pub signed_decimal : Bytes → Option ℤ
unfolding scan_decimal negated
signed_decimal [] = none
signed_decimal (c ∷ s) =
    if c == b'-'
    then elim (scan_decimal none s) [ none ↦ none | some v ↦ some (negated v) ]
    else if c == b'+'
    then elim (scan_decimal none s) [ none ↦ none | some v ↦ some (pos v) ]
    else elim (scan_decimal none (c ∷ s)) [ none ↦ none | some v ↦ some (pos v) ]

-- `std::stoi`; `none` is `invalid_argument` or `out_of_range`.
unfoldable pub stoi : Bytes → Option ℤ
unfolding skip_white signed_decimal
stoi s = elim (signed_decimal (skip_white s)) [
  | none ↦ none
  | some v ↦ if fits_integer v then some v else none
]

unfoldable pub get_stoi_or_zero : Dict Json → Bytes → Option ℤ
unfolding get_or_empty stoi
get_stoi_or_zero obj key = elim (get_or_empty obj key) [
  | none ↦ none
  | some s ↦ if is_empty s then some (pos 0) else stoi s
]

-- `std::to_string(std::stod(s))`, in millionths, is the parameter `stod`; `none` is its exception.
module _ (stod : Bytes → Option ℤ) where
  unfoldable pub get_stod_or_zero : Dict Json → Bytes → Option ℤ
  unfolding get_or_empty
  get_stod_or_zero obj key = elim (get_or_empty obj key) [
    | none ↦ none
    | some s ↦ if is_empty s then some (pos 0) else stod s
  ]

unfoldable pub array_contains : List Bytes → Bytes → Bool
unfolding same
array_contains [] s = false
array_contains (x ∷ arr) s = same x s || array_contains arr s

-- `get_or_empty(params, key)` in a handler.
abbrev pub text_field : Request → Bytes → Handler Bytes
text_field request key = or_throw (get_or_empty request.params key) bad_value

-- `get_stoi_or_zero(params, key)` in a handler.
abbrev pub number_field : Request → Bytes → Handler ℤ
number_field request key = do
  _ ← text_field request key
  or_throw (get_stoi_or_zero request.params key) bad_number

-- `COALESCE(NULLIF(new, ''), old)`
abbrev pub or_old : Bytes → Bytes → Bytes
or_old new old = if is_empty new then old else new

-- `COALESCE(NULLIF(new, 0), old)`
abbrev pub or_old_number : ℤ → ℤ → ℤ
or_old_number (pos zero) old = old
or_old_number (pos (suc n)) old = pos (suc n)
or_old_number (negsuc n) old = negsuc n
