-- ===== src/WebApp/Db/Rows.antt =====
-- Laws of `update_where`, `select` and sums over the rows of a table.
use movie_dbproject.Prelude.{
  ℕ, ◌*◌, ◌≡◌, refl, ap, Any, if◌then◌else◌, Bool, true, List, [], ◌∷◌, map, select, length, arith,
  Bool-cases, inl, inr,
}
use movie_dbproject.Prelude.Int.{ℤ, pos, negsuc, ◌+ℤ◌, int_laws, pos_part, neg_part}
use movie_dbproject.WebApp.Db.{update_where, any_row, is_id, millionths}

module _ {ℓ} {A : Type ℓ} where
  -- The rows that an update has changed are those that it found, changed.
  pub select-update_where :
      (p : A → Bool) (f : A → A) (xs : List A)
      → ((x : A) → p (f x) ≡ p x)
      → select p (update_where p f xs) ≡ map f (select p xs)
  unfolding select update_where
  select-update_where p f [] h = refl
  select-update_where p f (x ∷ xs) h = elim (Bool-cases (p x)) [
    | inl e ↦ rw (e, h x, e) (ap (λ r. f x ∷ r) (select-update_where p f xs h))
    | inr e ↦ rw (e, e) (select-update_where p f xs h)
  ]

  -- A test that an update does not change finds the same number of rows.
  pub length-select-update_where :
      (q p : A → Bool) (f : A → A) (xs : List A)
      → ((x : A) → q (f x) ≡ q x)
      → length (select q (update_where p f xs)) ≡ length (select q xs)
  unfolding select update_where
  length-select-update_where q p f [] h = refl
  length-select-update_where q p f (x ∷ xs) h =
      ground (arith, h x, length-select-update_where q p f xs h)

  pub any_row_of_select :
      (p q : A → Bool) (xs : List A) (x : A) (r : List A)
      → select p xs ≡ x ∷ r
      → q x ≡ true
      → any_row q xs ≡ true
  unfolding select any_row
  any_row_of_select p q [] x r e h = cc
  any_row_of_select p q (y ∷ xs) x r e h = ground (arith, any_row_of_select p q xs x r)

  -- A row that a query finds satisfies its condition.
  pub select_holds :
      (p : A → Bool) (xs : List A) (x : A) (r : List A) → select p xs ≡ x ∷ r → p x ≡ true
  unfolding select
  select_holds p [] x r e = cc
  select_holds p (y ∷ xs) x r e = ground (arith, select_holds p xs x r)

  -- The sum of a column.
  unfoldable pub sum_of : (A → ℤ) → List A → ℤ
  sum_of f [] = pos 0
  sum_of f (x ∷ xs) = f x +ℤ sum_of f xs

  sum_of-update_none :
      (f : A → ℤ) (p : A → Bool) (g : A → A) (xs : List A)
      → length (select p xs) ≡ 0
      → sum_of f (update_where p g xs) ≡ sum_of f xs
  unfolding select update_where sum_of
  sum_of-update_none f p g [] h = refl
  sum_of-update_none f p g (x ∷ xs) h = ground (arith, sum_of-update_none f p g xs)

  -- An update of exactly one row that adds `δ` to a column adds `δ` to its sum.
  pub sum_of-update_one :
      (f : A → ℤ) (p : A → Bool) (g : A → A) (δ : ℤ) (xs : List A)
      → ((x : A) → f (g x) ≡ f x +ℤ δ)
      → length (select p xs) ≡ 1
      → sum_of f (update_where p g xs) ≡ sum_of f xs +ℤ δ
  unfolding select update_where sum_of
  sum_of-update_one f p g δ [] h e = absurd (omega arith)
  sum_of-update_one f p g δ (x ∷ xs) h e = elim (Bool-cases (p x)) [
    | inl t ↦ rw (t, h x, sum_of-update_none f p g xs (ground (arith, t))) (omega int_laws)
    | inr t ↦ rw (t, sum_of-update_one f p g δ xs h (ground (arith, t))) (omega int_laws)
  ]

pub millionths_parts :
    (x : ℤ)
    → (pos_part (millionths x) ≡ 1000000 * pos_part x)
      × (neg_part (millionths x) ≡ 1000000 * neg_part x)
unfolding millionths
millionths_parts (pos n) = omega arith
millionths_parts (negsuc n) = omega arith

-- A column that an update does not change is as it was.
pub map-update_where :
    {A B : Type 0} (g : A → B) (p : A → Bool) (f : A → A) (xs : List A)
    → ((x : A) → g (f x) ≡ g x)
    → map g (update_where p f xs) ≡ map g xs
unfolding update_where
map-update_where g p f [] h = refl
map-update_where g p f (x ∷ xs) h = elim (Bool-cases (p x)) [
  | inl e ↦ rw (e, h x, map-update_where g p f xs h) refl
  | inr e ↦ rw (e, map-update_where g p f xs h) refl
]

-- An update, row by row.
pub update_where-map :
    {A : Type 0} (p : A → Bool) (f : A → A) (xs : List A)
    → update_where p f xs ≡ map (λ x. if p x then f x else x) xs
unfolding update_where
update_where-map p f [] = refl
update_where-map p f (x ∷ xs) = ap (λ l. (if p x then f x else x) ∷ l) (update_where-map p f xs)

pub Any-mono :
    {A : Type 0} (P Q : A → Type 0) (xs : List A) → ((x : A) → P x → Q x) → Any P xs → Any Q xs
Any-mono P Q [] f h = absurd h
Any-mono P Q (x ∷ xs) f (inl h) = inl (f x h)
Any-mono P Q (x ∷ xs) f (inr h) = inr (Any-mono P Q xs f h)

pub Any-some : {A : Type 0} (P : A → Type 0) (xs : List A) → Any P xs → (x : A) × P x
Any-some P [] h = absurd h
Any-some P (x ∷ xs) (inl h) = (x, h)
Any-some P (x ∷ xs) (inr h) = Any-some P xs h

pub any_row-Any :
    {A : Type 0} (p : A → Bool) (xs : List A) → any_row p xs ≡ true → Any (λ x. p x ≡ true) xs
unfolding any_row select
any_row-Any p [] h = absurd (ground arith)
any_row-Any p (x ∷ xs) h = elim (Bool-cases (p x)) [
  | inl e ↦ inl e
  | inr e ↦ inr (any_row-Any p xs (ground (arith, e, h)))
]

-- An id that a row has is the number that was given.
pub is_id-pos : (x : ℤ) (i : ℕ) → is_id x i ≡ true → pos i ≡ x
unfolding is_id
is_id-pos (pos n) i h = ground arith
is_id-pos (negsuc n) i h = absurd (ground arith)
