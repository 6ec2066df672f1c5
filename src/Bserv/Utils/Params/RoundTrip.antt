-- ===== src/Bserv/Utils/Params/RoundTrip.antt =====
-- `parse_params` on a list of pairs that is written with `encode_url`.
use movie_dbproject.Prelude.{
  ℕ, ◌≡◌, ◌∙◌, refl, ap, Bool, true, false, ◌&&◌, ◌||◌, inl, inr, some, List, [], ◌∷◌, ◌++◌, arith,
  ◌==◌, ==_refl, Bool-cases, every_byte, every_byte_at, append_assoc, append-nil, All, All-append,
}
use movie_dbproject.Prelude.Bytes.{Bytes, AreBytes}
use movie_dbproject.Bserv.Utils.Url.{
  percent, space, url_safe_characters, contains_byte, encode_byte, encode_url,
}
use movie_dbproject.Bserv.Utils.Url.RoundTrip.{decode_url-encode_url}
use movie_dbproject.Bserv.Utils.Params.{
  Params, no_params, equals, is_empty, trim_end, add_pair, close_pair, append_char, round, rounds,
  parse_params,
}
use movie_dbproject.Bserv.Utils.Params.Collects.{add_pairs}

-- A byte that `encode_url` can write.
abbrev pub url_char : ℕ → Bool
url_char c = contains_byte url_safe_characters c || (c == percent)

all_url_chars : Bytes → Bool
all_url_chars [] = true
all_url_chars (c ∷ s) = url_char c && all_url_chars s

encodes_to_url_chars : ℕ → Bool
encodes_to_url_chars c = all_url_chars (encode_byte c)

url_chars_table : every_byte 256 encodes_to_url_chars ≡ true
unfolding encodes_to_url_chars all_url_chars every_byte encode_byte
url_chars_table = refl

-- A byte that the loop of `parse_params` only appends.
abbrev IsPlain : ℕ → ℕ → Type 0
IsPlain d c = ((c == equals) ≡ false) × ((c == d) ≡ false) × ((c == space) ≡ false)

url_char-IsPlain : (d c : ℕ) → url_char d ≡ false → url_char c ≡ true → IsPlain d c
url_char-IsPlain d c hd hc = (
  differ equals c (unfold contains_byte in refl) hc,
  differ d c hd hc,
  differ space c (unfold contains_byte in refl) hc,
)
  where
    differ : (e x : ℕ) → url_char e ≡ false → url_char x ≡ true → (x == e) ≡ false
    differ e x he hx = elim (Bool-cases (x == e)) [
      | inr n ↦ n
      | inl y ↦ let q : x ≡ e = ground arith in absurd (ground (arith, ap url_char q))
    ]

all_url_chars-IsPlain :
    (d : ℕ) (s : Bytes) → url_char d ≡ false → all_url_chars s ≡ true → All (IsPlain d) s
unfolding all_url_chars
all_url_chars-IsPlain d [] hd h = tt
all_url_chars-IsPlain d (c ∷ s) hd h =
    (url_char-IsPlain d c hd (ground arith), all_url_chars-IsPlain d s hd (ground arith))

encode_url-IsPlain :
    (d : ℕ) (s : Bytes) → url_char d ≡ false → AreBytes s → All (IsPlain d) (encode_url s)
unfolding encode_url
encode_url-IsPlain d [] hd h = tt
encode_url-IsPlain d (c ∷ s) hd (hc, h) =
    All-append (IsPlain d) (encode_byte c) (encode_url s)
      (all_url_chars-IsPlain d (encode_byte c) hd (
        unfold encodes_to_url_chars in every_byte_at 256 encodes_to_url_chars c hc url_chars_table))
      (encode_url-IsPlain d s hd h)

trim_end-plain : (d : ℕ) (s : Bytes) → All (IsPlain d) s → trim_end s ≡ s
unfolding trim_end
trim_end-plain d [] h = refl
trim_end-plain d (c ∷ s) ((_, _, ns), h) = ground (arith, trim_end-plain d s h, ns)

rounds_key :
    (d : ℕ) (s rest key : Bytes) (p : Params)
    → All (IsPlain d) s
    → rounds d (s ++ rest) (record { key = key; value = []; on_key = true; params = p })
      ≡ rounds d rest (record { key = key ++ s; value = []; on_key = true; params = p })
unfolding rounds append_char
rounds_key d [] rest key p h = simp append-nil
rounds_key d (c ∷ s) rest key p ((ne, nd, ns), h) =
    rw (ne, nd, ns)
      (ground (arith, rounds_key d s rest (key ++ c ∷ []) p h, append_assoc key (c ∷ []) s))

rounds_value :
    (d : ℕ) (s rest key value : Bytes) (p : Params)
    → All (IsPlain d) s
    → rounds d (s ++ rest) (record { key = key; value = value; on_key = false; params = p })
      ≡ rounds d rest (record { key = key; value = value ++ s; on_key = false; params = p })
unfolding rounds append_char
rounds_value d [] rest key value p h = simp append-nil
rounds_value d (c ∷ s) rest key value p ((ne, nd, ns), h) =
    rw (ne, nd, ns)
      (ground
        (arith, rounds_value d s rest key (value ++ c ∷ []) p h, append_assoc value (c ∷ []) s))

is_empty-encode_url : (s : Bytes) → is_empty (encode_url s) ≡ is_empty s
unfolding encode_url
is_empty-encode_url [] = refl
is_empty-encode_url (c ∷ s) =
    unfold encode_byte in
    elim (Bool-cases (contains_byte url_safe_characters c)) [ inl e ↦ rw e | inr e ↦ rw e ]

-- A pair with a key or a value.
abbrev pub IsPair : Bytes × Bytes → Type 0
IsPair (k, v) = AreBytes k × AreBytes v × ((is_empty k && is_empty v) ≡ false)

close_pair-encode_url :
    (k v : Bytes) (p : Params)
    → IsPair (k, v)
    → close_pair (encode_url k) (encode_url v) p
      ≡ some (record { key = []; value = []; on_key = true; params = add_pair k v p })
unfolding close_pair
close_pair-encode_url k v p (hk, hv, ne) = rw (
  is_empty-encode_url k,
  is_empty-encode_url v,
  ne,
  decode_url-encode_url k hk,
  decode_url-encode_url v hv,
)

-- `k=v` with both sides encoded.
abbrev pub pair_text : Bytes × Bytes → Bytes
pair_text (k, v) = encode_url k ++ (equals ∷ encode_url v)

-- `k1=v1`, the delimiter, `k2=v2`, …
abbrev pub print_params : ℕ → List (Bytes × Bytes) → Bytes
print_params d [] = []
print_params d (kv ∷ []) = pair_text kv
print_params d (kv ∷ kv' ∷ kvs) = pair_text kv ++ (d ∷ print_params d (kv' ∷ kvs))

rounds-equals :
    (d : ℕ) (rest key : Bytes) (p : Params)
    → rounds d (equals ∷ rest) (record { key = key; value = []; on_key = true; params = p })
      ≡ rounds d rest (record { key = key; value = []; on_key = false; params = p })
unfolding rounds round
rounds-equals d rest key p = refl

rounds_delimiter :
    (d : ℕ) (rest k v : Bytes) (p : Params)
    → (d == equals) ≡ false
    → trim_end (encode_url k) ≡ encode_url k
    → trim_end (encode_url v) ≡ encode_url v
    → IsPair (k, v)
    → rounds d
        (d ∷ rest)
        (record { key = encode_url k; value = encode_url v; on_key = false; params = p })
      ≡ rounds d rest (record { key = []; value = []; on_key = true; params = add_pair k v p })
unfolding rounds round
rounds_delimiter d rest k v p he tk tv h = rw (he, ==_refl d, tk, tv, close_pair-encode_url k v p h)

rounds-pair_text :
    (d : ℕ) (kv : Bytes × Bytes) (rest : Bytes) (p : Params)
    → url_char d ≡ false
    → (d == equals) ≡ false
    → IsPair kv
    → rounds d
        (pair_text kv ++ (d ∷ rest))
        (record { key = []; value = []; on_key = true; params = p })
      ≡ rounds d rest
          (record { key = []; value = []; on_key = true; params = add_pair kv.0 kv.1 p })
rounds-pair_text d (k, v) rest p hd he (hk, hv, ne) =
    let pk = encode_url-IsPlain d k hd hk in
    let pv = encode_url-IsPlain d v hd hv in
    rw (append_assoc (encode_url k) (equals ∷ encode_url v) (d ∷ rest)) (
      rounds_key d (encode_url k) (equals ∷ encode_url v ++ d ∷ rest) [] p pk
      ∙ rounds-equals d (encode_url v ++ d ∷ rest) (encode_url k) p
      ∙ rounds_value d (encode_url v) (d ∷ rest) (encode_url k) [] p pv
      ∙ rounds_delimiter d rest k v p he (trim_end-plain d (encode_url k) pk)
          (trim_end-plain d (encode_url v) pv) (hk, hv, ne))

rounds-print_params :
    (d : ℕ) (kv : Bytes × Bytes) (kvs : List (Bytes × Bytes)) (p : Params)
    → url_char d ≡ false
    → (d == equals) ≡ false
    → All IsPair (kv ∷ kvs)
    → rounds d
        (print_params d (kv ∷ kvs) ++ d ∷ [])
        (record { key = []; value = []; on_key = true; params = p })
      ≡ some (record { key = []; value = []; on_key = true; params = add_pairs (kv ∷ kvs) p })
rounds-print_params d kv [] p hd he (h, _) =
    rounds-pair_text d kv [] p hd he h ∙ (unfold rounds in refl)
rounds-print_params d kv (kv' ∷ kvs) p hd he (h, hs) =
    rw (append_assoc (pair_text kv) (d ∷ print_params d (kv' ∷ kvs)) (d ∷ [])) (
      rounds-pair_text d kv (print_params d (kv' ∷ kvs) ++ d ∷ []) p hd he h
      ∙ rounds-print_params d kv' kvs (add_pair kv.0 kv.1 p) hd he hs)

-- For a delimiter that is no `=` and that `encode_url` never writes, and for byte texts of which
-- no pair has both empty, parsing the encoded text of a list of pairs succeeds and gives the maps
-- that adding the pairs in order gives.
pub parse_params-print_params :
    (d : ℕ) (kvs : List (Bytes × Bytes))
    → url_char d ≡ false
    → (d == equals) ≡ false
    → All IsPair kvs
    → parse_params (print_params d kvs) 0 d ≡ some (add_pairs kvs no_params)
unfolding parse_params
parse_params-print_params d [] hd he h = rw (he, ==_refl d)
parse_params-print_params d (kv ∷ kvs) hd he h = rw (rounds-print_params d kv kvs no_params hd he h)
