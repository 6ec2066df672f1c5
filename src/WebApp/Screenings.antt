-- ===== src/WebApp/Screenings.antt =====
-- WebApp/movie_manage.cpp, `form_add_screening`: a screening with its seats. `new_id` is the number
-- that the sequence of the screenings gives, `first_seat` the next one of the seats, and `fits` says
-- whether a text fits into a column. The page that follows the commit only reads; it stands as a
-- reply with success.
pub mod Scheduled
pub mod Seats
use movie_dbproject.Prelude.{
  ℕ, zero, suc, ◌+◌, Bool, true, false, not, ◌&&◌, Option, none, some, List, [], ◌∷◌, ◌++◌, ◌==◌,
  if◌then◌else◌, select,
}
use movie_dbproject.Prelude.Bytes.{Bytes, codes}
use movie_dbproject.Prelude.Int.{ℤ, pos, negsuc, pos_part}
use movie_dbproject.Bserv.Utils.Params.{is_empty}
use movie_dbproject.Bserv.Database.Query.{to_string}
use movie_dbproject.WebApp.Db.{
  Movie, Room, Screening, Seat, Db, DbError, Executed, rows, fails, foreign_key_violation,
  value_too_long, any_row, is_id,
}
use movie_dbproject.WebApp.Flow.{
  Request, Session, Handler, Exception, url_not_found, bad_number, runtime_error, rethrown,
  db_error, ◌>>=◌, ◌>>◌, pure, throw, throw_if, succeed, or_throw, begin, commit, get_session,
}
use movie_dbproject.WebApp.Fields.{stoi, text_field, number_field}
use movie_dbproject.WebApp.Permissions.{Roles, check_permission}

-- Whether `check_session_permission` gives `std::nullopt`.
unfoldable pub may : Roles → Bytes → Session → Bool
may roles permission session = elim session.user [
  | none ↦ false
  | some user ↦ check_permission roles user.roal permission
]

-- The seats that the loop inserts from round `i` on, with `n` rounds left.
unfoldable pub seats_from : ℕ → ℕ → ℕ → ℕ → List Seat
seats_from first_seat screening_id i zero = []
seats_from first_seat screening_id i (suc n) =
    record {
      seat_id = first_seat + i;
      screening_id = screening_id;
      seat_name = b'#' ∷ to_string (pos (i + 1));
      user_id = none;
    }
    ∷ seats_from first_seat screening_id (suc i) n

-- What the `try` of `form_add_screening` throws comes out as another exception.
abbrev pub executed_rethrown : {A : Type 0} → Executed A → Handler A
executed_rethrown (rows a) = pure a
executed_rethrown (fails e) = throw (rethrown (db_error e))

abbrev pub only_room : List Room → Handler Room
only_room [] = throw (rethrown (runtime_error "Invalid room id"))
only_room (r ∷ []) = pure r
only_room (r ∷ r' ∷ rest) = throw (rethrown (runtime_error "Invalid room id"))

module _ (fits : Bytes → Bool) where
  -- `insert into screenings …`; the foreign keys are checked.
  unfoldable pub insert_screening : ℕ → ℤ → ℤ → Bytes → ℤ → Bytes → Db → Executed Db
  unfolding any_row is_id
  insert_screening new_id room_id movie_id time price date d =
      if not (fits time && fits date)
      then fails value_too_long
      else if any_row (λ (r : Room). is_id room_id r.room_id) d.rooms
          && any_row (λ (m : Movie). is_id movie_id m.movie_id) d.movies
      then rows (record d {
        screenings =
            d.screenings
            ++ record {
              screening_id = new_id;
              room_id = pos_part room_id;
              movie_id = pos_part movie_id;
              time = time;
              price = price;
              showing_date = date;
            }
              ∷ [];
      })
      else fails foreign_key_violation

  -- The statements in the `try`, and the commit.
  unfoldable pub schedule : ℕ → ℕ → ℤ → ℤ → Bytes → ℤ → Bytes → Db → Handler (Unit {0})
  schedule new_id first_seat room_id mov_id time price date d = do
    d ← executed_rethrown (insert_screening new_id room_id mov_id time price date d)
    room ← only_room (select (λ (r : Room). is_id room_id r.room_id) d.rooms)
    commit (record d { seats = d.seats ++ seats_from first_seat new_id 0 (pos_part room.capacity) })
    succeed "manage_movie_page"

  unfoldable pub form_add_screening : Roles → ℕ → ℕ → Bytes → Request → Handler (Unit {0})
  form_add_screening roles new_id first_seat movie_id request = do
    throw_if (not request.is_post) url_not_found
    session ← get_session
    throw_if (not (may roles (codes "modify_movie") session)) (runtime_error "Permission denied")
    room_text ← text_field request (codes "room_id")
    throw_if (is_empty room_text) (runtime_error "Invalid parameters")
    time ← text_field request (codes "time")
    throw_if (is_empty time) (runtime_error "Invalid parameters")
    price_text ← text_field request (codes "price")
    throw_if (is_empty price_text) (runtime_error "Invalid parameters")
    date ← text_field request (codes "date")
    throw_if (is_empty date) (runtime_error "Invalid parameters")
    d ← begin
    room_id ← or_throw (stoi room_text) (rethrown bad_number)
    mov_id ← or_throw (stoi movie_id) (rethrown bad_number)
    price ← or_throw (stoi price_text) (rethrown bad_number)
    schedule new_id first_seat room_id mov_id time price date d
