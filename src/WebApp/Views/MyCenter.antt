-- ===== src/WebApp/Views/MyCenter.antt =====
-- WebApp/mycenter.cpp: the page of the user, with the tickets of the user.
use movie_dbproject.Prelude.{
  ℕ, Bool, not, Option, none, List, [], ◌∷◌, ◌++◌, ◌==◌, select, map, is_some,
}
use movie_dbproject.Prelude.Bytes.{Bytes}
use movie_dbproject.Prelude.Int.{ℤ}
use movie_dbproject.WebApp.Db.{User, Movie, Room, Screening, Seat, Ticket, Db}
use movie_dbproject.WebApp.Flow.{
  Reply, Handler, runtime_error, ◌>>=◌, ◌>>◌, throw_if, begin, get_session, session_user,
}
use movie_dbproject.WebApp.Permissions.{Roles}
use movie_dbproject.WebApp.Views.{Page, index}

-- `orm_full_ticket_info`, as the page gets it.
pub record FullTicket : Type 0 where
  pub ticket_id : ℕ
  pub moviename : Bytes
  pub username : Bytes
  pub showing_date : Bytes
  pub time : Bytes
  pub room : Bytes
  pub seat_name : Bytes
  pub price : ℤ
  pub refunded : Bool

-- The rows of a product of a table with further ones.
unfoldable pub each : {A B : Type 0} → (A → List B) → List A → List B
each f [] = []
each f (x ∷ xs) = f x ++ each f xs

-- `showing_date` and the time, with a blank between them. The code appends to the string of the key
-- `showing_date` itself, so both keys get the whole text.
abbrev date_and_time : Screening → Bytes
date_and_time c = c.showing_date ++ b' ' ∷ c.time

unfoldable pub full_ticket : Ticket → User → Screening → Seat → Room → Movie → FullTicket
full_ticket t u c s r m = record {
  ticket_id = t.ticket_id;
  moviename = m.moviename;
  username = u.username;
  showing_date = date_and_time c;
  time = date_and_time c;
  room = r.room_name;
  seat_name = s.seat_name;
  price = t.price;
  refunded = t.refunded;
}

-- The rows of the other tables that belong to a ticket.
unfoldable pub rows_of_ticket : Db → Ticket → List FullTicket
unfolding each full_ticket
rows_of_ticket d t =
    each
      (λ u.
        each
          (λ c.
            each
              (λ s.
                each
                  (λ r.
                    map (λ m. full_ticket t u c s r m)
                      (select (λ (m : Movie). m.movie_id == c.movie_id) d.movies))
                  (select (λ (r : Room). r.room_id == c.room_id) d.rooms))
              (select (λ (s : Seat). t.seat_id == s.seat_id) d.seats))
          (select (λ (c : Screening). t.screening_id == c.screening_id) d.screenings))
      (select (λ (u : User). t.user_id == u.id) d.users)

-- The query over six tables. It has no `order by`; the rows stand here in the order of the tickets.
unfoldable pub full_tickets : ℕ → Db → List FullTicket
unfolding rows_of_ticket
full_tickets uid d = each (rows_of_ticket d) (select (λ (t : Ticket). t.user_id == uid) d.tickets)

unfoldable pub redirect_to_mycenter : Roles → Option Reply → Handler (Page (List FullTicket))
unfolding full_tickets index
redirect_to_mycenter roles reply = do
  session ← get_session
  throw_if (not (is_some session.user)) (runtime_error "Not logged in")
  user ← session_user
  d ← begin
  index roles reply (full_tickets user.id d)

unfoldable pub view_mycenter : Roles → Handler (Page (List FullTicket))
unfolding redirect_to_mycenter
view_mycenter roles = redirect_to_mycenter roles none
