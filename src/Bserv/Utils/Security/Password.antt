-- ===== src/Bserv/Utils/Security/Password.antt =====
-- `check_password` after `encode_password`.
use movie_dbproject.Prelude.{
  ℕ, zero, suc, ◌<◌, ◌≡◌, ◌≢◌, ◌↔◌, refl, ◌∙◌, Bool, true, false, ◌&&◌, not, [], ◌∷◌, ◌++◌, ◌==◌,
  arith, append_assoc, append-nil, every_byte, every_byte_at, ltb,
}
use movie_dbproject.Prelude.Bytes.{Bytes, AreBytes, Lacks}
use movie_dbproject.Bserv.Utils.Security.{
  chars, char_at, random_from, generate_random_string, dollar, split_from, hash_password,
  default_iterations, encode_password, check_password,
}
use movie_dbproject.Bserv.Utils.Security.Compare.{constant_time_compare_iff}

-- Each draw is an index of `chars`, as `uniform_int_distribution` promises.
abbrev pub InRange : (ℕ → ℕ) → Type 0
InRange draws = (i : ℕ) → draws i < 62

good : ℕ → Bool
good i = not (char_at chars i == dollar) && ltb (char_at chars i) 256

good_table : every_byte 62 good ≡ true
unfolding good every_byte char_at
good_table = refl

good_lem : (i : ℕ) → i < 62 → (char_at chars i ≢ dollar) × (char_at chars i < 256)
unfolding good
good_lem i h = ground (arith, every_byte_at 62 good i h good_table)

random_from-Lacks : (draws : ℕ → ℕ) (i n : ℕ) → InRange draws → Lacks dollar (random_from draws i n)
unfolding random_from
random_from-Lacks draws i zero h = tt
random_from-Lacks draws i (suc n) h =
    ((good_lem (draws i) (h i)).0, random_from-Lacks draws (suc i) n h)

split_from-salt :
    (s : Bytes) (rest salt hashed : Bytes)
    → Lacks dollar s
    → split_from (s ++ rest) true (salt, hashed) ≡ split_from rest true (salt ++ s, hashed)
unfolding split_from
split_from-salt [] rest salt hashed h = simp append-nil
split_from-salt (c ∷ s) rest salt hashed (hc, h) =
    ground (arith, split_from-salt s rest (salt ++ c ∷ []) hashed h, append_assoc salt (c ∷ []) s)

split_from-hashed :
    (s : Bytes) (salt hashed : Bytes)
    → Lacks dollar s
    → split_from s false (salt, hashed) ≡ (salt, hashed ++ s)
unfolding split_from
split_from-hashed [] salt hashed h = simp append-nil
split_from-hashed (c ∷ s) salt hashed (hc, h) =
    ground (arith, split_from-hashed s salt (hashed ++ c ∷ []) h, append_assoc hashed (c ∷ []) s)

-- The salt and the hash come apart again, if neither has a dollar sign.
split_from-join :
    (salt hashed : Bytes)
    → Lacks dollar salt
    → Lacks dollar hashed
    → split_from (salt ++ dollar ∷ hashed) true ([], []) ≡ (salt, hashed)
split_from-join salt hashed hs hh =
    split_from-salt salt (dollar ∷ hashed) [] [] hs
    ∙ (unfold split_from in split_from-hashed hashed salt [] hh)

module _ (pbkdf2 : Bytes → Bytes → ℕ → Bytes) (base64 : Bytes → Bytes)
    (base64-Lacks : (s : Bytes) → Lacks dollar (base64 s))
    (base64-AreBytes : (s : Bytes) → AreBytes (base64 s)) (draws : ℕ → ℕ)
    (in_range : InRange draws) where
  -- Where Base64 text has bytes and no dollar sign, and the draws are in range, a password passes
  -- the check against an encoded one exactly when it has the same hash under the salt drawn.
  pub check_password-encode_password :
      (p q : Bytes)
      → (check_password pbkdf2 base64 p (encode_password pbkdf2 base64 draws q) ≡ true) ↔ (
          hash_password pbkdf2 base64 p (generate_random_string draws 16) default_iterations
          ≡ hash_password pbkdf2 base64 q (generate_random_string draws 16) default_iterations)
  unfolding check_password encode_password hash_password
  check_password-encode_password p q =
      rw (split_from-join _ _ (random_from-Lacks draws 0 16 in_range) (base64-Lacks _))
        (constant_time_compare_iff _ _ (base64-AreBytes _) (base64-AreBytes _))
