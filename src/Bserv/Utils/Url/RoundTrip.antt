-- ===== src/Bserv/Utils/Url/RoundTrip.antt =====
-- `decode_url` after `encode_url`.
use movie_dbproject.Prelude.{
  ℕ, ◌/◌, ◌%◌, ◌<◌, ◌≡◌, refl, Bool, true, false, ◌&&◌, ◌||◌, not, inl, inr, Option, none, some, [],
  ◌∷◌, ◌++◌, arith, ◌==◌, ◌>>=◌, Bool-cases, every_byte, every_byte_at, take,
}
use movie_dbproject.Prelude.Int.{ℤ, pos, negsuc}
use movie_dbproject.Prelude.Bytes.{Bytes, AreBytes}
use movie_dbproject.Bserv.Utils.Url.{
  percent, plus, url_safe_characters, contains_byte, stoi_hex, decode_byte, decode_from, decode_url,
  encode_byte, encode_url, hex_digit,
}

-- A byte that is left as it is decodes to itself.
stays : ℕ → Bool
stays c = not (contains_byte url_safe_characters c) || (not (c == percent) && not (c == plus))

stays_table : every_byte 256 stays ≡ true
unfolding stays every_byte contains_byte
stays_table = refl

is_pos : ℕ → Option ℤ → Bool
is_pos c none = false
is_pos c (some (pos n)) = n == c
is_pos c (some (negsuc n)) = false

is_pos-eq : (c : ℕ) (o : Option ℤ) → is_pos c o ≡ true → o ≡ some (pos c)
unfolding is_pos
is_pos-eq c none h = cc
is_pos-eq c (some (pos n)) h = ground arith
is_pos-eq c (some (negsuc n)) h = cc

reads_back : ℕ → Bool
reads_back c = is_pos c (stoi_hex (hex_digit (c / 16) ∷ hex_digit (c % 16) ∷ []))

reads_back_table : every_byte 256 reads_back ≡ true
unfolding reads_back is_pos every_byte stoi_hex hex_digit
reads_back_table = refl

stoi_hex-hex_digit :
    (c : ℕ) → c < 256 → stoi_hex (hex_digit (c / 16) ∷ hex_digit (c % 16) ∷ []) ≡ some (pos c)
stoi_hex-hex_digit c h =
    is_pos-eq c (stoi_hex (hex_digit (c / 16) ∷ hex_digit (c % 16) ∷ []))
      (unfold reads_back in every_byte_at 256 reads_back c h reads_back_table)

split_stays :
    (a b c : Bool) → (not a || (not b && not c)) ≡ true → a ≡ true → (b ≡ false) × (c ≡ false)
split_stays a b c h e = ground arith

stays_lem :
    (c : ℕ)
    → c < 256
    → contains_byte url_safe_characters c ≡ true
    → ((c == percent) ≡ false) × ((c == plus) ≡ false)
unfolding stays
stays_lem c h safe =
    split_stays (contains_byte url_safe_characters c) (c == percent) (c == plus)
      (every_byte_at 256 stays c h stays_table) safe

-- What decoding a byte in front of a text does to its result.
abbrev prefixed : ℕ → Option Bytes → Option Bytes
prefixed c o = do r ← o; some (c ∷ r)

decode_from_safe :
    (c : ℕ) (rest : Bytes)
    → (c == percent) ≡ false
    → (c == plus) ≡ false
    → decode_from 0 (c ∷ rest) ≡ prefixed c (decode_from 0 rest)
unfolding decode_from decode_byte
decode_from_safe c rest p q = ground arith

take_two : (a b : ℕ) (rest : Bytes) → take 2 (a ∷ b ∷ rest) ≡ a ∷ b ∷ []
unfolding take
take_two a b rest = refl

decode_byte_escape :
    (c a b : ℕ) (rest : Bytes)
    → c < 256
    → stoi_hex (a ∷ b ∷ []) ≡ some (pos c)
    → decode_byte percent (a ∷ b ∷ rest) ≡ some c
unfolding decode_byte
decode_byte_escape c a b rest h e = ground (arith, take_two a b rest)

decode_from_escape :
    (c a b : ℕ) (rest : Bytes)
    → c < 256
    → stoi_hex (a ∷ b ∷ []) ≡ some (pos c)
    → decode_from 0 (percent ∷ a ∷ b ∷ rest) ≡ prefixed c (decode_from 0 rest)
unfolding decode_from
decode_from_escape c a b rest h e = ground (arith, decode_byte_escape c a b rest h e)

decode_from-encode_byte :
    (c : ℕ) (rest : Bytes)
    → c < 256
    → decode_from 0 (encode_byte c ++ rest) ≡ prefixed c (decode_from 0 rest)
decode_from-encode_byte c rest h = elim (Bool-cases (contains_byte url_safe_characters c)) [
  | inl safe ↦
      let (p, q) = stays_lem c h safe in unfold encode_byte in rw safe (decode_from_safe c rest p q)
  | inr bad ↦
      unfold encode_byte in
      rw bad (
        decode_from_escape c (hex_digit (c / 16)) (hex_digit (c % 16)) rest h
          (stoi_hex-hex_digit c h))
]

decode_from-encode_url : (s : Bytes) → AreBytes s → decode_from 0 (encode_url s) ≡ some s
unfolding encode_url
decode_from-encode_url [] h = unfold decode_from in refl
decode_from-encode_url (c ∷ s) (hc, hs) =
    rw (decode_from-encode_byte c (encode_url s) hc, decode_from-encode_url s hs)

-- For a text of bytes, decoding its encoding succeeds and gives the text back.
pub decode_url-encode_url : (s : Bytes) → AreBytes s → decode_url (encode_url s) ≡ some s
unfolding decode_url
decode_url-encode_url s h = decode_from-encode_url s h
