-- ===== src/WebApp/Fields/Digits.antt =====
-- WebApp/handlers.cpp: `get_stoi_or_zero` of a number that `std::to_string` wrote.
use movie_dbproject.Prelude.{
  ℕ, zero, suc, ◌+◌, ◌*◌, ◌-◌, ◌/◌, ◌%◌, ◌≤◌, ◌<◌, ◌≡◌, ◌∙◌, refl, ap, sym, true, none, some, [],
  ◌∷◌, false, leb, arith, Bool-cases, inl, inr,
}
use movie_dbproject.Prelude.Bytes.{Bytes}
use movie_dbproject.Prelude.Int.{ℤ, pos, negsuc}
use movie_dbproject.Bserv.Database.Query.{
  Quoting, db_int, get_value, json_string, to_string, digits_from,
}
use movie_dbproject.Bserv.Utils.Params.{is_empty}
use movie_dbproject.Prelude.Dict.{Dict, lookup}
use movie_dbproject.WebApp.Flow.{Json}
use movie_dbproject.WebApp.Db.{fits_integer}
use movie_dbproject.WebApp.Fields.{
  c_str, as_string, get_or_empty, get_stoi_or_zero, stoi, scan_decimal, signed_decimal, skip_white,
  negated,
}

-- One digit more.
scan_digit :
    (v d : ℕ) (s : Bytes)
    → d ≤ 9
    → scan_decimal (some v) ((d + b'0') ∷ s) ≡ scan_decimal (some (10 * v + d)) s
unfolding scan_decimal
scan_digit v d s h =
    let same_digit : d + b'0' - b'0' ≡ d = omega arith in ground (arith, same_digit)

scan_decimal-digits_from :
    (fuel n : ℕ) (acc : Bytes)
    → n < fuel
    → scan_decimal (some 0) (digits_from fuel n acc) ≡ scan_decimal (some n) acc
unfolding digits_from
scan_decimal-digits_from zero n acc h = absurd (omega arith)
scan_decimal-digits_from (suc fuel) n acc h = elim (Bool-cases (leb n 9)) [
  | inl small ↦ ground (arith, small, scan_digit 0 n acc)
  | inr large ↦
      let parts : 10 * (n / 10) + n % 10 ≡ n = omega arith in
      ground (
        arith,
        large,
        parts,
        scan_digit (n / 10) (n % 10) acc,
        scan_decimal-digits_from fuel (n / 10) ((n % 10 + b'0') ∷ acc),
      )
]

-- The text of a number begins with a digit.
digits_head :
    (fuel n : ℕ) (acc : Bytes)
    → n < fuel
    → (c : ℕ) × (s : Bytes) × (digits_from fuel n acc ≡ c ∷ s) × (b'0' ≤ c) × (c ≤ b'9')
unfolding digits_from
digits_head zero n acc h = absurd (omega arith)
digits_head (suc fuel) n acc h = elim (Bool-cases (leb n 9)) [
  | inl small ↦ (n + b'0', acc, ground (arith, small), omega arith, ground (arith, small))
  | inr large ↦
      let (c, s, e, low, high) =
        digits_head fuel (n / 10) ((n % 10 + b'0') ∷ acc) (ground (arith, large)) in
      (c, s, ground (arith, large, e), low, high)
]

scan_none :
    (c : ℕ) (s : Bytes)
    → b'0' ≤ c
    → c ≤ b'9'
    → scan_decimal none (c ∷ s) ≡ scan_decimal (some 0) (c ∷ s)
unfolding scan_decimal
scan_none c s low high = ground arith

read_digits : (fuel n : ℕ) → n < fuel → scan_decimal none (digits_from fuel n []) ≡ some n
read_digits fuel n h =
    let (c, s, e, low, high) = digits_head fuel n [] h in
    ap (scan_decimal none) e
    ∙ scan_none c s low high
    ∙ ap (scan_decimal (some 0)) (sym e)
    ∙ scan_decimal-digits_from fuel n [] h
    ∙ (unfold scan_decimal in refl)

signed_digits :
    (c : ℕ) (s : Bytes) (n : ℕ)
    → b'0' ≤ c
    → c ≤ b'9'
    → scan_decimal none (c ∷ s) ≡ some n
    → signed_decimal (skip_white (c ∷ s)) ≡ some (pos n)
unfolding signed_decimal skip_white
signed_digits c s n low high e = ground (arith, e)

-- `std::stoi` of what `std::to_string` writes.
stoi-to_string : (v : ℤ) → fits_integer v ≡ true → stoi (to_string v) ≡ some v
unfolding stoi to_string
stoi-to_string (pos n) h =
    let (c, s, e, low, high) = digits_head (suc n) n [] (omega arith) in
    let read : signed_decimal (skip_white (digits_from (suc n) n [])) ≡ some (pos n) =
      ap (λ t. signed_decimal (skip_white t)) e
      ∙ signed_digits c s n low high
          (ap (scan_decimal none) (sym e) ∙ read_digits (suc n) n (omega arith)) in
    ground (arith, read, h)
stoi-to_string (negsuc n) h =
    let read : signed_decimal (skip_white (b'-' ∷ digits_from (suc (suc n)) (suc n) []))
        ≡ some (negsuc n) =
      unfold signed_decimal skip_white negated in
      ground (arith, read_digits (suc (suc n)) (suc n)) in
    ground (arith, read, h)

-- No digit ends a `const char*`.
c_str-digits_from :
    (fuel n : ℕ) (acc : Bytes) → c_str (digits_from fuel n acc) ≡ digits_from fuel n (c_str acc)
unfolding digits_from
c_str-digits_from zero n acc = refl
c_str-digits_from (suc fuel) n acc = elim (Bool-cases (leb n 9)) [
  | inl small ↦ unfold c_str in ground (arith, small)
  | inr large ↦
      let kept : c_str ((n % 10 + b'0') ∷ acc) ≡ (n % 10 + b'0') ∷ c_str acc =
        unfold c_str in ground arith in
      ground (arith, large, kept, c_str-digits_from fuel (n / 10) ((n % 10 + b'0') ∷ acc))
]

c_str-to_string : (v : ℤ) → c_str (to_string v) ≡ to_string v
unfolding to_string c_str
c_str-to_string (pos n) = c_str-digits_from (suc n) n []
c_str-to_string (negsuc n) = ap (λ s. b'-' ∷ s) (c_str-digits_from (suc (suc n)) (suc n) [])

is_empty-to_string : (v : ℤ) → is_empty (to_string v) ≡ false
unfolding to_string
is_empty-to_string (pos n) =
    let (c, s, e, low, high) = digits_head (suc n) n [] (omega arith) in ap is_empty e
is_empty-to_string (negsuc n) = refl

-- A form field that holds the text that a query writes for an integer of 32 bits is read back
-- as this integer by `get_stoi_or_zero`.
pub get_stoi_or_zero-get_value :
    (q : Quoting Bytes) (obj : Dict Json) (key : Bytes) (v : ℤ)
    → fits_integer v ≡ true
    → lookup key obj ≡ some (json_string (get_value q (db_int v)))
    → get_stoi_or_zero obj key ≡ some v
unfolding get_stoi_or_zero get_or_empty as_string get_value
get_stoi_or_zero-get_value q obj key v fits found =
    ground (arith, found, c_str-to_string v, is_empty-to_string v, stoi-to_string v fits)
