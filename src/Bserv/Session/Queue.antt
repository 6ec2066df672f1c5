-- ===== src/Bserv/Session/Queue.antt =====
-- `queue_`: a `std::set` of pairs of an expiry and a key, as the sorted list of its elements.
use movie_dbproject.Prelude.{
  ℕ, ◌≡◌, refl, Bool, true, false, ◌&&◌, ◌||◌, Option, none, some, List, [], ◌∷◌, ◌==◌, ltb,
  if◌then◌else◌, arith, All, Bool-cases, inl, inr, not,
}

abbrev pub Entry : Type 0
Entry = ℕ × ℕ

-- `<` on pairs
abbrev pub before : Entry → Entry → Bool
before (t, i) (u, j) = ltb t u || (t == u && ltb i j)

abbrev pub same_entry : Entry → Entry → Bool
same_entry (t, i) (u, j) = t == u && i == j

-- `queue_.emplace(p)`
unfoldable pub emplace : Entry → List Entry → List Entry
emplace p [] = p ∷ []
emplace p (x ∷ q) =
    let later = emplace p q in
    if before x p then x ∷ later else if before p x then p ∷ x ∷ q else x ∷ q

-- `queue_.erase(queue_.lower_bound(p))`; `none` is `erase(end())`.
unfoldable pub erase_lower_bound : Entry → List Entry → Option (List Entry)
erase_lower_bound p [] = none
erase_lower_bound p (x ∷ q) = elim (before x p) [
  | false ↦ some q
  | true ↦ elim (erase_lower_bound p q) [ none ↦ none | some r ↦ some (x ∷ r) ]
]

-- Each element stands before all later ones.
abbrev pub IsSorted : List Entry → Type 0
IsSorted [] = Unit
IsSorted (x ∷ q) = All (λ y. before x y ≡ true) q × IsSorted q

unfoldable pub member : Entry → List Entry → Bool
member p [] = false
member p (x ∷ q) = same_entry x p || member p q

pub member-emplace :
    (y p : Entry) (q : List Entry) → member y (emplace p q) ≡ (same_entry p y || member y q)
unfolding member emplace
member-emplace (u, j) (t, i) [] = refl
member-emplace (u, j) (t, i) ((s, k) ∷ q) = ground (arith, member-emplace (u, j) (t, i) q)

emplace-All :
    (P : Entry → Type 0) (p : Entry) (q : List Entry) → P p → All P q → All P (emplace p q)
unfolding emplace
emplace-All P p [] hp h = (hp, tt)
emplace-All P p (x ∷ q) hp (hx, h) = elim (Bool-cases (before x p)) [
  | inl e ↦ rw e (hx, emplace-All P p q hp h)
  | inr e ↦ elim (Bool-cases (before p x)) [
    | inl f ↦ rw (e, f) (hp, (hx, h))
    | inr f ↦ rw (e, f) (hx, h)
  ]
]

before_trans : (x y z : Entry) → before x y ≡ true → before y z ≡ true → before x z ≡ true
before_trans (t, i) (u, j) (v, k) h g = ground arith

All-before_trans :
    (x y : Entry) (q : List Entry)
    → before x y ≡ true
    → All (λ z. before y z ≡ true) q
    → All (λ z. before x z ≡ true) q
All-before_trans x y [] h a = tt
All-before_trans x y (z ∷ q) h (b, a) = (before_trans x y z h b, All-before_trans x y q h a)

pub emplace-IsSorted : (p : Entry) (q : List Entry) → IsSorted q → IsSorted (emplace p q)
unfolding emplace
emplace-IsSorted p [] h = (tt, tt)
emplace-IsSorted p (x ∷ q) (a, h) = elim (Bool-cases (before x p)) [
  | inl e ↦ rw e (emplace-All (λ z. before x z ≡ true) p q e a, emplace-IsSorted p q h)
  | inr e ↦ elim (Bool-cases (before p x)) [
    | inl f ↦ rw (e, f) ((f, All-before_trans p x q f a), (a, h))
    | inr f ↦ rw (e, f) (a, h)
  ]
]

-- An element is before no element of the list that stands after it, so it is no member there.
not-member_of_before :
    (p : Entry) (q : List Entry) → All (λ y. before p y ≡ true) q → member p q ≡ false
unfolding member
not-member_of_before p [] h = refl
not-member_of_before (t, i) ((u, j) ∷ q) (a, h) = ground (arith, not-member_of_before (t, i) q h)

-- The set without an element.
pub remove : Entry → List Entry → List Entry
remove p [] = []
remove p (x ∷ q) = let rest = remove p q in if same_entry x p then q else x ∷ rest

remove-All : (P : Entry → Type 0) (p : Entry) (q : List Entry) → All P q → All P (remove p q)
unfolding remove
remove-All P p [] h = tt
remove-All P p (x ∷ q) (hx, h) = elim (Bool-cases (same_entry x p)) [
  | inl e ↦ rw e h
  | inr e ↦ rw e (hx, remove-All P p q h)
]

pub remove-IsSorted : (p : Entry) (q : List Entry) → IsSorted q → IsSorted (remove p q)
unfolding remove
remove-IsSorted p [] h = tt
remove-IsSorted p (x ∷ q) (a, h) = elim (Bool-cases (same_entry x p)) [
  | inl e ↦ rw e h
  | inr e ↦ rw e (remove-All (λ y. before x y ≡ true) p q a, remove-IsSorted p q h)
]

pub before_of_member :
    (x p : Entry) (q : List Entry)
    → All (λ y. before x y ≡ true) q
    → member p q ≡ true
    → before x p ≡ true
unfolding member
before_of_member x p [] a m = cc
before_of_member (s, k) (t, i) ((u, j) ∷ q) (b, a) m =
    ground (arith, before_of_member (s, k) (t, i) q a)

pub member-remove :
    (y p : Entry) (q : List Entry)
    → IsSorted q
    → member y (remove p q) ≡ (member y q && not (same_entry p y))
unfolding member remove
member-remove (u, j) (t, i) [] h = refl
member-remove (u, j) (t, i) ((s, k) ∷ q) (a, h) =
    ground (arith, member-remove (u, j) (t, i) q h, before_of_member (s, k) (u, j) q a)

-- Erasing the lower bound of an element of the set erases that element.
pub erase_lower_bound-remove :
    (p : Entry) (q : List Entry)
    → IsSorted q
    → member p q ≡ true
    → erase_lower_bound p q ≡ some (remove p q)
unfolding member remove erase_lower_bound
erase_lower_bound-remove p [] h m = cc
erase_lower_bound-remove (t, i) ((s, k) ∷ q) (a, h) m =
    ground (arith, erase_lower_bound-remove (t, i) q h, before_of_member (s, k) (t, i) q a)
