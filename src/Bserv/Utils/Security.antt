-- ===== src/Bserv/Utils/Security.antt =====
-- bserv/utils.cpp: `generate_random_string` and the namespace `security`. The hash function and
-- the Base64 encoder of Crypto++ are parameters, and so are the numbers that the generator draws.
pub mod Compare
pub mod Password
use Prim.Native.Nat.{bit_or, bit_xor}
use movie_dbproject.Prelude.{
  ℕ, zero, suc, ◌+◌, ◌≡◌, refl, Bool, true, false, not, [], ◌∷◌, ◌++◌, ◌==◌, if◌then◌else◌, length,
}
use movie_dbproject.Prelude.Bytes.{Bytes, codes}

abbrev pub chars : Bytes
chars = codes "abcdefghijklmnopqrstuvwxyzABCDEFGHIJKLMNOPQRSTUVWXYZ1234567890"

-- `chars[i]`, with the terminating null behind the last character.
unfoldable pub char_at : Bytes → ℕ → ℕ
char_at [] i = 0
char_at (c ∷ s) zero = c
char_at (c ∷ s) (suc i) = char_at s i

-- The loop of `generate_random_string` from round `i` on, with `n` rounds left; `draws i` is the
-- value of `dist(rng)` in round `i`.
random_from : (ℕ → ℕ) → ℕ → ℕ → Bytes
random_from draws i zero = []
random_from draws i (suc n) = char_at chars (draws i) ∷ random_from draws (suc i) n

unfoldable pub generate_random_string : (ℕ → ℕ) → ℕ → Bytes
unfolding random_from char_at
generate_random_string draws len = random_from draws 0 len

-- The loop of `constant_time_compare` over two texts of one length; `result` collects the bits in
-- which they differ.
compare_from : ℕ → Bytes → Bytes → ℕ
compare_from result [] b = result
compare_from result (x ∷ a) [] = result
compare_from result (x ∷ a) (y ∷ b) = compare_from (bit_or result (bit_xor x y)) a b

unfoldable pub constant_time_compare : Bytes → Bytes → Bool
unfolding compare_from
constant_time_compare a b = if length a == length b then compare_from 0 a b == 0 else false

abbrev pub dollar : ℕ
dollar = b'$'

-- The loop of `check_password`: the flag says that `a` points to the salt, and the pair is the
-- salt and the hashed password read so far.
split_from : Bytes → Bool → Bytes × Bytes → Bytes × Bytes
split_from [] to_salt parts = parts
split_from (c ∷ s) to_salt (salt, hashed) =
    split_from s (if c == dollar then not to_salt else to_salt) (
      if c == dollar
      then (salt, hashed)
      else if to_salt
      then (salt ++ c ∷ [], hashed)
      else (salt, hashed ++ c ∷ []))

-- The default argument of `hash_password`.
abbrev pub default_iterations : ℕ
default_iterations = 20000

-- `pbkdf2` is `PKCS5_PBKDF2_HMAC<SHA256>::DeriveKey` with a key of 32 bytes, from the password,
-- the salt and the iterations; `base64` is `Base64Encoder` without line breaks.
module _ (pbkdf2 : Bytes → Bytes → ℕ → Bytes) (base64 : Bytes → Bytes) where
  unfoldable pub hash_password : Bytes → Bytes → ℕ → Bytes
  hash_password password salt iterations = base64 (pbkdf2 password salt iterations)

  unfoldable pub encode_password : (ℕ → ℕ) → Bytes → Bytes
  unfolding generate_random_string
  encode_password draws password =
      let salt = generate_random_string draws 16 in
      salt ++ dollar ∷ hash_password password salt default_iterations

  unfoldable pub check_password : Bytes → Bytes → Bool
  unfolding split_from
  check_password password encoded_password =
      let (salt, hashed_password) = split_from encoded_password true ([], []) in
      constant_time_compare (hash_password password salt default_iterations) hashed_password
