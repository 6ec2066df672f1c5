-- ===== src/WebApp/Tickets.antt =====
-- WebApp/tickets.cpp: `buy_ticket` and `refund_ticket`, with `reload_user_info` of users.cpp.
-- `new_id` is the number that the sequence of the tickets gives. A handler runs by itself: what
-- other threads do between its statements is not modelled.
pub mod Committed
pub mod Effects
pub mod Outcomes
pub mod Atomic
pub mod Money
use Prim.Native.String.{String}
use movie_dbproject.Prelude.{
  ℕ, Bool, true, false, not, ◌&&◌, ◌||◌, Option, none, some, List, [], ◌∷◌, ◌++◌, ◌==◌,
  if◌then◌else◌, is_some, select, length,
}
use movie_dbproject.Prelude.Bytes.{Bytes, codes, same}
use movie_dbproject.Prelude.Int.{ℤ, pos, ◌+ℤ◌, ◌-ℤ◌, ltb_ℤ, leb_ℤ}
use movie_dbproject.WebApp.Db.{
  User, Movie, Screening, Seat, Ticket, Db, DbError, Executed, rows, fails, check_violation,
  foreign_key_violation, integer_out_of_range, update_where, all_rows, any_row, is_id, fits_integer,
  millionths,
}
use movie_dbproject.WebApp.Flow.{
  session_user, only_row, Request, Session, Handler, Exception, url_not_found, bad_value,
  bad_number, too_many_objects, db_error, ◌>>=◌, ◌>>◌, pure, throw, throw_if, refuse, refuse_if,
  succeed, or_throw, executed, executed_or, executed_or_what, begin, commit, get_session,
  set_session,
}
use movie_dbproject.WebApp.Fields.{string_param, stoi, c_str}

-- `select * from auth_user where id = ?`, converted to an optional.
unfoldable pub get_user_by_id : Db → ℕ → Handler (Option User)
get_user_by_id d id = elim (select (λ (u : User). u.id == id) d.users) [
  | [] ↦ pure none
  | u ∷ more ↦ elim more [ [] ↦ pure (some u) | v ∷ r ↦ throw too_many_objects ]
]

unfoldable pub reload_user_info : Handler (Unit {0})
reload_user_info = do
  session ← get_session
  elim session.user [
    | none ↦ pure tt
    | some user ↦ do
      d ← begin
      found ← get_user_by_id d user.id
      elim found [ none ↦ pure tt | some u ↦ set_session (record { user = some u }) ]
  ]

-- `update auth_user set balance = balance + x where id = …`; the constraint `nonnegative` is
-- checked on the rows that are changed.
unfoldable pub add_balance : ℤ → ℕ → Db → Executed Db
unfolding update_where all_rows select
add_balance x id d =
    let users =
      update_where (λ u. u.id == id) (λ u. record u { balance = u.balance +ℤ x }) d.users in
    if all_rows (λ (u : User). leb_ℤ (pos 0) u.balance) (select (λ (u : User). u.id == id) users)
    then rows (record d { users = users })
    else fails check_violation

-- `insert into tickets …`, with the foreign keys of the table.
unfoldable pub insert_ticket : Ticket → Db → Executed Db
unfolding any_row select
insert_ticket t d =
    if any_row (λ (u : User). u.id == t.user_id) d.users
      && any_row (λ (c : Screening). c.screening_id == t.screening_id) d.screenings
      && any_row (λ (c : Seat). c.seat_id == t.seat_id) d.seats
    then rows (record d { tickets = d.tickets ++ t ∷ [] })
    else fails foreign_key_violation

-- `update seats set user_id = … where seat_id = …`
unfoldable pub set_holder : Option ℕ → ℕ → Db → Db
unfolding update_where
set_holder holder seat_id d = record d {
  seats = update_where (λ c. c.seat_id == seat_id) (λ c. record c { user_id = holder }) d.seats;
}

unfoldable pub fits : Movie → Bool
fits m = fits_integer m.box_office && fits_integer m.num_participants

-- `update movies set box_office = box_office + x, num_participants = num_participants + n
-- where movie_id = …`; the range of the columns is checked on the rows that are changed.
unfoldable pub add_box_office : ℤ → ℤ → ℕ → Db → Executed Db
unfolding update_where all_rows fits select
add_box_office x n movie_id d =
    let movies =
      update_where (λ (m : Movie). m.movie_id == movie_id)
        (λ m. record m {
          box_office = m.box_office +ℤ x;
          num_participants = m.num_participants +ℤ n;
        })
        d.movies in
    if all_rows fits (select (λ (m : Movie). m.movie_id == movie_id) movies)
    then rows (record d { movies = movies })
    else fails integer_out_of_range

-- The statements of `buy_ticket` behind the checks, and the commit.
unfoldable pub sell : ℕ → ℕ → Screening → Seat → Db → Handler (Unit {0})
sell new_id user_id screening seat d = do
  d ← executed_or (add_balance (pos 0 -ℤ millionths screening.price) user_id d) "Insufficient funds"
  d ← executed_or_what (
      insert_ticket
        (record {
          ticket_id = new_id;
          user_id = user_id;
          screening_id = screening.screening_id;
          seat_id = seat.seat_id;
          price = screening.price;
          refunded = false;
        })
        d)
  let d = set_holder (some user_id) seat.seat_id d
  d ← executed_or_what (add_box_office screening.price (pos 1) screening.movie_id d)
  commit d

-- `select * from seats where screening_id = ? and seat_name = ?`
unfoldable pub find_seats : ℤ → Bytes → Db → List Seat
find_seats screening_id seat_name d =
    select (λ (c : Seat). is_id screening_id c.screening_id && same c.seat_name seat_name) d.seats

-- `select * from screenings where screening_id = ?`
unfoldable pub find_screenings : ℤ → Db → List Screening
find_screenings screening_id d =
    select (λ (c : Screening). is_id screening_id c.screening_id) d.screenings

-- `select * from tickets where ticket_id = ?`
unfoldable pub find_tickets : ℕ → Db → List Ticket
find_tickets ticket_id d = select (λ (t : Ticket). t.ticket_id == ticket_id) d.tickets

-- `buy_ticket` behind the beginning of its transaction.
unfoldable pub purchase : ℕ → ℕ → ℤ → Bytes → Db → Handler (Unit {0})
purchase new_id user_id screening_id seat_name d = do
  seat ← only_row (find_seats screening_id seat_name d) "Invalid seat"
  screening ← only_row (find_screenings screening_id d) "Invalid screening id"
  sell new_id user_id screening seat d
  reload_user_info
  succeed "Ticket bought"

unfoldable pub buy_ticket : ℕ → Request → Handler (Unit {0})
buy_ticket new_id request = do
  throw_if (not request.is_post) url_not_found
  session ← get_session
  refuse_if (not (is_some session.user)) "Not logged in"
  user ← session_user
  screening_id_str ← or_throw (string_param request.params (codes "screening_id")) bad_value
  screening_id ← or_throw (stoi (c_str screening_id_str)) bad_number
  seat_name ← or_throw (string_param request.params (codes "seat")) bad_value
  d ← begin
  purchase new_id user.id screening_id seat_name d

-- `update tickets set refunded = true where ticket_id = …`
unfoldable pub mark_refunded : ℕ → Db → Db
mark_refunded ticket_id d = record d {
  tickets =
      update_where (λ (t : Ticket). t.ticket_id == ticket_id) (λ t. record t { refunded = true })
        d.tickets;
}

-- The statements of `refund_ticket` behind the checks, and the commit.
unfoldable pub give_back : ℕ → Ticket → Db → Handler (Unit {0})
give_back user_id ticket d = do
  d ← executed (add_balance (millionths ticket.price) user_id d)
  let d = mark_refunded ticket.ticket_id d
  let d = set_holder none ticket.seat_id d
  screening ← only_row (find_screenings (pos ticket.screening_id) d) "Invalid screening id"
  d ← executed (add_box_office (pos 0 -ℤ ticket.price) (pos 0 -ℤ pos 1) screening.movie_id d)
  commit d

-- `refund_ticket` behind the beginning of its transaction.
unfoldable pub refund : ℕ → ℕ → Db → Handler (Unit {0})
refund ticket_id user_id d = do
  throw_if (not (fits_integer (pos ticket_id))) (db_error integer_out_of_range)
  ticket ← only_row (find_tickets ticket_id d) "Invalid ticket id"
  refuse_if (not (ticket.user_id == user_id)) "You do not own this ticket"
  refuse_if ticket.refunded "This ticket has already been refunded"
  give_back user_id ticket d
  reload_user_info
  succeed "Ticket refunded"

-- `ticket_id` is the number that the path gives, as a text of digits.
unfoldable pub refund_ticket : ℕ → Request → Handler (Unit {0})
refund_ticket ticket_id request = do
  throw_if (not request.is_post) url_not_found
  session ← get_session
  refuse_if (not (is_some session.user)) "You must log in to refund tickets"
  user ← session_user
  d ← begin
  refund ticket_id user.id d
