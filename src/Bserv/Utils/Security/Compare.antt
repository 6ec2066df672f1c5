-- ===== src/Bserv/Utils/Security/Compare.antt =====
-- `constant_time_compare` decides equality of byte texts.
use Prim.Native.Nat.{bit_or, bit_xor}
use movie_dbproject.Prelude.{
  ℕ, ◌<◌, ◌≡◌, ◌↔◌, refl, Bool, true, false, ◌&&◌, [], ◌∷◌, ◌==◌, ltb, length, arith, every_byte,
  every_byte_at, Bool-cases, inl, inr, ap,
}
use movie_dbproject.Prelude.Bytes.{Bytes, AreBytes}
use movie_dbproject.Bserv.Utils.Security.{compare_from, constant_time_compare}

agree : Bool → Bool → Bool
agree true b = b
agree false true = false
agree false false = true

xor_row : ℕ → Bool
xor_row x = every_byte 256 (λ y. ltb (bit_xor x y) 256 && agree (bit_xor x y == 0) (x == y))

xor_table : every_byte 256 xor_row ≡ true
unfolding xor_row every_byte agree
xor_table = refl

or_row : ℕ → Bool
or_row x =
    every_byte 256 (λ y. ltb (bit_or x y) 256 && agree (bit_or x y == 0) ((x == 0) && (y == 0)))

or_table : every_byte 256 or_row ≡ true
unfolding or_row every_byte agree
or_table = refl

agree_eq : (a b : Bool) → agree a b ≡ true → a ≡ b
unfolding agree
agree_eq true b h = ground arith
agree_eq false true h = cc
agree_eq false false h = refl

xor_facts : (x y : ℕ) → x < 256 → y < 256 → (bit_xor x y < 256) × ((bit_xor x y == 0) ≡ (x == y))
unfolding xor_row
xor_facts x y hx hy =
    let row = every_byte_at 256 xor_row x hx xor_table in
    let cell =
      every_byte_at 256 (λ y. ltb (bit_xor x y) 256 && agree (bit_xor x y == 0) (x == y)) y hy
        row in
    ground (arith, agree_eq (bit_xor x y == 0) (x == y), cell)

or_facts :
    (x y : ℕ)
    → x < 256
    → y < 256
    → (bit_or x y < 256) × ((bit_or x y == 0) ≡ ((x == 0) && (y == 0)))
unfolding or_row
or_facts x y hx hy =
    let row = every_byte_at 256 or_row x hx or_table in
    let cell =
      every_byte_at 256
        (λ y. ltb (bit_or x y) 256 && agree (bit_or x y == 0) ((x == 0) && (y == 0))) y hy row in
    ground (arith, agree_eq (bit_or x y == 0) ((x == 0) && (y == 0)), cell)

compare_from-eq-zero :
    (r : ℕ) (a b : Bytes)
    → r < 256
    → AreBytes a
    → AreBytes b
    → length a ≡ length b
    → (compare_from r a b ≡ 0) ↔ ((r ≡ 0) × (a ≡ b))
unfolding compare_from
compare_from-eq-zero r [] [] hr ha hb e = ground arith
compare_from-eq-zero r [] (y ∷ b) hr ha hb e = absurd (omega arith)
compare_from-eq-zero r (x ∷ a) [] hr ha hb e = absurd (omega arith)
compare_from-eq-zero r (x ∷ a) (y ∷ b) hr (hx, ha) (hy, hb) e =
    let (xb, xz) = xor_facts x y hx hy in
    let (ob, oz) = or_facts r (bit_xor x y) hr xb in
    ground (arith, compare_from-eq-zero (bit_or r (bit_xor x y)) a b ob ha hb (omega arith), xz, oz)

-- On byte texts `constant_time_compare` answers true exactly when the texts are equal.
pub constant_time_compare_iff :
    (a b : Bytes) → AreBytes a → AreBytes b → (constant_time_compare a b ≡ true) ↔ (a ≡ b)
unfolding constant_time_compare
constant_time_compare_iff a b ha hb = elim (Bool-cases (length a == length b)) [
  | inl e ↦
      let h = compare_from-eq-zero 0 a b (omega arith) ha hb (ground arith) in ground (arith, h)
  | inr e ↦ (λ h. ground arith, λ h. ground (arith, ap length h))
]
