-- ===== src/Bserv/Utils/Url.antt =====
-- bserv/utils.cpp: `decode_url` and `encode_url`. An exception of `std::stoi` is `none`.
pub mod RoundTrip
use movie_dbproject.Prelude.{
  ℕ, zero, suc, ◌+◌, ◌-◌, ◌*◌, ◌/◌, ◌%◌, Bool, true, false, ◌&&◌, ◌||◌, Option, none, some, ◌≡◌,
  refl, [], ◌∷◌, ◌++◌, ◌==◌, leb, if◌then◌else◌, ◌>>=◌, take,
}
use movie_dbproject.Prelude.Bytes.{Bytes, codes}
use movie_dbproject.Prelude.Int.{ℤ, pos, negsuc}

abbrev pub percent : ℕ
percent = b'%'

abbrev pub plus : ℕ
plus = b'+'

abbrev pub space : ℕ
space = b' '

abbrev pub url_safe_characters : Bytes
url_safe_characters = codes "ABCDEFGHIJKLMNOPQRSTUVWXYZabcdefghijklmnopqrstuvwxyz0123456789-._~"

-- `s.find(c) != npos`
unfoldable pub contains_byte : Bytes → ℕ → Bool
contains_byte [] c = false
contains_byte (x ∷ xs) c = (x == c) || contains_byte xs c

-- The value of a hexadecimal digit.
hex_value : ℕ → Option ℕ
hex_value c =
    if leb b'0' c && leb c b'9'
    then some (c - b'0')
    else if leb b'a' c && leb c b'f'
    then some (c - 87)
    else if leb b'A' c && leb c b'F'
    then some (c - 55)
    else none

-- The digits that `std::stoi` reads in base 16, up to the first byte that is none; `none` if
-- there is not one digit.
scan_digits : Option ℕ → Bytes → Option ℕ
unfolding hex_value
scan_digits acc [] = acc
scan_digits acc (c ∷ s) = elim (hex_value c) [
  | none ↦ acc
  | some d ↦ scan_digits (some (elim acc [ none ↦ d | some v ↦ 16 * v + d ])) s
]

-- The white space that `std::stoi` skips.
is_space : ℕ → Bool
is_space c = (c == space) || (leb 9 c && leb c 13)

skip_space : Bytes → Bytes
unfolding is_space
skip_space [] = []
skip_space (c ∷ s) = elim (is_space c) [ true ↦ skip_space s | false ↦ c ∷ s ]

negate : ℕ → ℤ
negate zero = pos zero
negate (suc n) = negsuc n

-- A sign, then digits.
signed_digits : Bytes → Option ℤ
unfolding scan_digits negate
signed_digits [] = none
signed_digits (c ∷ s) =
    if c == b'-'
    then (do v ← scan_digits none s; some (negate v))
    else if c == plus
    then (do v ← scan_digits none s; some (pos v))
    else (do v ← scan_digits none (c ∷ s); some (pos v))

-- `std::stoi(s, nullptr, 16)` on at most two characters: with so few there is no room for a
-- prefix `0x` before a digit, and no value out of range.
stoi_hex : Bytes → Option ℤ
unfolding skip_space signed_digits
stoi_hex s = signed_digits (skip_space s)

-- `0xff & v`
low_byte : ℤ → ℕ
low_byte (pos n) = n % 256
low_byte (negsuc n) = 255 - n % 256

-- The byte that one round of the loop of `decode_url` appends: at `c`, with `s` behind it.
decode_byte : ℕ → Bytes → Option ℕ
unfolding low_byte take
decode_byte c s =
    if c == percent
    then (do v ← stoi_hex (take 2 s); some (low_byte v))
    else if c == plus
    then some space
    else some c

-- The loop of `decode_url`; the number is how many positions `i += 2` has still to skip.
decode_from : ℕ → Bytes → Option Bytes
unfolding decode_byte
decode_from k [] = some []
decode_from zero (c ∷ s) = do
  b ← decode_byte c s
  r ← decode_from (if c == percent then 2 else 0) s
  some (b ∷ r)
decode_from (suc k) (c ∷ s) = decode_from k s

unfoldable pub decode_url : Bytes → Option Bytes
unfolding decode_from stoi_hex
decode_url s = decode_from 0 s

-- An upper-case hexadecimal digit, as `std::uppercase << std::hex` writes it.
hex_digit : ℕ → ℕ
hex_digit d = if leb d 9 then d + b'0' else d + 55

-- What one round of `encode_url` writes.
unfoldable pub encode_byte : ℕ → Bytes
unfolding contains_byte hex_digit
encode_byte c =
    if contains_byte url_safe_characters c
    then c ∷ []
    else percent ∷ hex_digit (c / 16) ∷ hex_digit (c % 16) ∷ []

unfoldable pub encode_url : Bytes → Bytes
unfolding encode_byte
encode_url [] = []
encode_url (c ∷ s) = encode_byte c ++ encode_url s

plain_text : encode_url (codes "a b&c=d%~") ≡ codes "a%20b%26c%3Dd%25~"
unfolding encode_url
plain_text = refl

form_text : decode_url (codes "a+b%2f%C3") ≡ some (codes "a b/" ++ 195 ∷ [])
unfolding decode_url
form_text = refl

broken_text : decode_url (codes "100%") ≡ none
unfolding decode_url
broken_text = refl
