-- ===== src/WebApp/Pages.antt =====
-- WebApp/users.cpp, `redirect_to_users`: the numbers that it gives a page of a list of ten rows
-- each, which room.cpp and movies.cpp compute in the same way.
use movie_dbproject.Prelude.{
  ℕ, zero, suc, ◌+◌, ◌-◌, ◌*◌, ◌/◌, ◌%◌, ◌≤◌, ◌<◌, ◌≡◌, refl, Bool, false, not, Option, none, some,
  List, [], ◌∷◌, ◌++◌, ◌==◌, if◌then◌else◌, ltb, arith, sym, ap, ◌∙◌,
}

-- `int total_pages = total / 10; if (total % 10 != 0) ++total_pages;`
unfoldable pub total_pages : ℕ → ℕ
total_pages total = if not (total % 10 == 0) then total / 10 + 1 else total / 10

-- `for (int i = lower; i < upper; ++i) push_back(i)`, from a lower bound and how many rounds there
-- are.
unfoldable pub numbers_from : ℕ → ℕ → List ℕ
numbers_from lower zero = []
numbers_from lower (suc n) = lower ∷ numbers_from (suc lower) n

-- The object `pagination`.
pub record Pagination : Type 0 where
  pub total : ℕ
  pub previous : Option ℕ
  pub following : Option ℕ
  pub left_ellipsis : Bool
  pub right_ellipsis : Bool
  pub current : ℕ
  pub pages_left : List ℕ
  pub pages_right : List ℕ

-- The object of a page, for a list of some pages; the number of a page is from 1 on.
unfoldable pub numbers_of : ℕ → ℕ → Pagination
unfolding numbers_from
numbers_of pages page_id =
    let lower = if ltb 5 page_id then page_id - 3 else 1 in
    let upper = if ltb (page_id + 4) pages then page_id + 3 else pages in
    record {
      total = pages;
      previous = if ltb 1 page_id then some (page_id - 1) else none;
      following = if ltb page_id pages then some (page_id + 1) else none;
      left_ellipsis = ltb 5 page_id;
      right_ellipsis = ltb (page_id + 4) pages;
      current = page_id;
      pages_left = numbers_from lower (page_id - lower);
      pages_right = numbers_from (page_id + 1) (upper - page_id);
    }

-- No object is made for an empty list.
unfoldable pub pagination : ℕ → ℕ → Option Pagination
unfolding total_pages
pagination total_rows page_id =
    if total_pages total_rows == 0 then none else some (numbers_of (total_pages total_rows) page_id)

pub zero_add : (a : ℕ) → 0 + a ≡ a
zero_add a = omega arith

pub add_zero : (a : ℕ) → a + 0 ≡ a
add_zero a = omega arith

suc_add : (a m : ℕ) → suc a + m ≡ a + suc m
suc_add a m = omega arith

pub add_suc : (m n : ℕ) → suc m + n ≡ suc (m + n)
add_suc m n = omega arith

numbers_from-append :
    (a m n : ℕ) → numbers_from a m ++ numbers_from (a + m) n ≡ numbers_from a (m + n)
unfolding numbers_from
numbers_from-append a zero n = rw (add_zero a, zero_add n) refl
numbers_from-append a (suc m) n =
    rw (add_suc m n, ← suc_add a m) (ap (λ l. a ∷ l) (numbers_from-append (suc a) m n))

-- A list of rows has as many pages as hold them all with ten rows on each, and no page more.
pub total_pages_lem :
    (total : ℕ)
    → (total ≤ 10 * total_pages total) × (0 < total → 10 * (total_pages total - 1) < total)
unfolding total_pages
total_pages_lem total = (ground arith, λ h. ground arith)

around :
    (lower page k : ℕ)
    → lower ≤ page
    → numbers_from lower (page - lower) ++ page ∷ numbers_from (page + 1) k
      ≡ numbers_from lower (page - lower + suc k)
unfolding numbers_from
around lower page k h =
    let here : lower + (page - lower) ≡ page = omega arith in
    let after : suc page ≡ page + 1 = omega arith in
    ap (λ l. numbers_from lower (page - lower) ++ l)
      (ap (λ x. page ∷ numbers_from x k) (sym after) ∙ ap (λ x. numbers_from x (suc k)) (sym here))
    ∙ numbers_from-append lower (page - lower) (suc k)

-- On a page of a list, the numbers to its left, its own and the numbers to its right are
-- consecutive; they start with 1 where there is no ellipsis on the left and end with the last page
-- where there is none on the right, and there is no number behind the last page.
pub numbers_of-consecutive :
    (pages page_id : ℕ)
    → 0 < page_id
    → page_id ≤ pages
    → (lower : ℕ) × (n : ℕ) × ((numbers_of pages page_id).pages_left
          ++ page_id ∷ (numbers_of pages page_id).pages_right
        ≡ numbers_from lower n)
      × ((numbers_of pages page_id).left_ellipsis ≡ false → lower ≡ 1)
      × ((numbers_of pages page_id).right_ellipsis ≡ false → lower + n ≡ pages + 1)
      × (lower + n ≤ pages + 1)
unfolding numbers_of
numbers_of-consecutive pages page_id low high = (
  if ltb 5 page_id then page_id - 3 else 1,
  page_id
      - (if ltb 5 page_id then page_id - 3 else 1)
      + suc ((if ltb (page_id + 4) pages then page_id + 3 else pages) - page_id),
  around (if ltb 5 page_id then page_id - 3 else 1) page_id
      ((if ltb (page_id + 4) pages then page_id + 3 else pages) - page_id) (ground arith),
  λ e. ground (arith, e),
  λ e. ground (arith, e),
  ground arith,
)
