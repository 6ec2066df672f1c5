-- ===== src/WebApp/Db.antt =====
-- The tables of currentDB.sql, a row as a record and a table as the list of its rows, and the
-- statements that several handlers share. A balance is in millionths, since `std::to_string`
-- writes a double with six digits behind the point. The rows stand in the order in which the
-- database gives them to a query without `order by`, which SQL leaves open: what holds of every
-- database here holds for every such order, but one handler sees one order.
pub mod Rows
use movie_dbproject.Prelude.{
  ℕ, zero, suc, ◌+◌, ◌*◌, ◌≡◌, refl, Bool, true, false, not, ◌&&◌, Option, none, some, List, [],
  ◌∷◌, ◌++◌, ◌==◌, ltb, if◌then◌else◌, select, map, sym, arith, ap, Bool-cases, inl, inr, ◌⊎◌,
}
use movie_dbproject.Prelude.Bytes.{Bytes}
use movie_dbproject.Prelude.Int.{ℤ, pos, negsuc, leb_ℤ}

-- `auth_user`
pub record User : Type 0 where
  pub id : ℕ
  pub username : Bytes
  pub password : Bytes
  pub is_superuser : Bool
  pub first_name : Bytes
  pub last_name : Bytes
  pub email : Bytes
  pub is_active : Bool
  pub roal : Bytes
  pub balance : ℤ

-- An average: a total and how many values it is over.
pub record Average : Type 0 where
  pub total : ℤ
  pub count : ℕ

pub record Movie : Type 0 where
  pub movie_id : ℕ
  pub moviename : Bytes
  pub starname : Bytes
  pub detail : Bytes
  pub running_time : ℤ
  pub genre : Bytes
  pub avg_rating : Average
  pub poster : Bytes
  pub box_office : ℤ
  pub num_participants : ℤ
  pub release_date : ℤ
  pub box_office_unit : Bytes
  pub foreign_name : Bytes
  pub location : Bytes
  pub reviewed : Bool

-- `screening_rooms`
pub record Room : Type 0 where
  pub room_id : ℕ
  pub room_name : Bytes
  pub theater_id : ℤ
  pub capacity : ℤ

pub record Screening : Type 0 where
  pub screening_id : ℕ
  pub room_id : ℕ
  pub movie_id : ℕ
  pub time : Bytes
  pub price : ℤ
  pub showing_date : Bytes

pub record Seat : Type 0 where
  pub seat_id : ℕ
  pub screening_id : ℕ
  pub seat_name : Bytes
  pub user_id : Option ℕ

pub record Ticket : Type 0 where
  pub ticket_id : ℕ
  pub user_id : ℕ
  pub screening_id : ℕ
  pub seat_id : ℕ
  pub price : ℤ
  pub refunded : Bool

pub record Comment : Type 0 where
  pub comment_id : ℕ
  pub id : ℕ
  pub movie_id : ℕ
  pub rating : ℤ
  pub content : Bytes

pub record Announcement : Type 0 where
  pub id : ℕ
  pub title : Bytes
  pub content : Bytes

pub record Db : Type 0 where
  pub users : List User
  pub movies : List Movie
  pub rooms : List Room
  pub screenings : List Screening
  pub seats : List Seat
  pub tickets : List Ticket
  pub comments : List Comment
  pub announcements : List Announcement
  pub theaters : List ℕ

-- What a statement can fail with.
pub data DbError : Type 0 where
  check_violation foreign_key_violation unique_violation integer_out_of_range value_too_long
        invalid_offset invalid_text :
      DbError

-- What a statement gives.
pub data Executed {ℓ} (A : Type ℓ) : Type ℓ where
  rows : A → Executed A
  fails : DbError → Executed A

module _ {ℓ} {A : Type ℓ} where
  -- `update … set … where …`
  unfoldable pub update_where : (A → Bool) → (A → A) → List A → List A
  update_where p f [] = []
  update_where p f (x ∷ xs) = (if p x then f x else x) ∷ update_where p f xs

  -- Every row has the property, as a test.
  unfoldable pub all_rows : (A → Bool) → List A → Bool
  all_rows p [] = true
  all_rows p (x ∷ xs) = p x && all_rows p xs

  -- Some row has the property, as a test.
  unfoldable pub any_row : (A → Bool) → List A → Bool
  unfolding select
  any_row p xs = elim (select p xs) [ [] ↦ false | x ∷ r ↦ true ]

-- A number that a caller gives, against an id of a row.
unfoldable pub is_id : ℤ → ℕ → Bool
is_id (pos n) i = n == i
is_id (negsuc n) i = false

-- The range of the SQL type `integer`.
abbrev pub fits_integer : ℤ → Bool
fits_integer x = leb_ℤ (negsuc 2147483647) x && leb_ℤ x (pos 2147483647)

-- Whole units of money in millionths.
unfoldable pub millionths : ℤ → ℤ
millionths (pos n) = pos (1000000 * n)
millionths (negsuc n) = negsuc (1000000 * n + 999999)
