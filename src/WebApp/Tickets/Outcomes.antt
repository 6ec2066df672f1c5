-- ===== src/WebApp/Tickets/Outcomes.antt =====
-- What a sale and a refund leave, told of the request, the tables and the session.
use movie_dbproject.WebApp.Tickets.{find_tickets}
use movie_dbproject.WebApp.Tickets.Committed.{Renewed, Sold, Refunded}
use movie_dbproject.WebApp.Fields.{string_param, stoi, c_str}
use movie_dbproject.WebApp.Tickets.Effects.{
  credited, held_by, grossing, paid_back, Sold-tables, Refunded-tables, Refunded-screening,
  Sold-buyer, Sold-solvent,
}
use movie_dbproject.WebApp.Db.Rows.{select_holds}
use movie_dbproject.Prelude.{
  ap, ◌∙◌, ◌++◌, ◌&&◌, ◌⊎◌, none, select, ℕ, ◌≡◌, inl, inr, refl, false, some, [], ◌∷◌, arith, ◌==◌,
}
use movie_dbproject.WebApp.Db.{is_id, millionths, User, Screening, Seat, Ticket}
use movie_dbproject.Prelude.Bytes.{Bytes, codes, same}
use movie_dbproject.Prelude.Int.{ℤ, pos, ◌-ℤ◌, ◌≤ℤ◌}
use movie_dbproject.WebApp.Flow.{State, Session, Request}

-- What a sale leaves. The user of the session has paid the price of the screening that the request
-- names for the seat of this name in it: of the database just the balance of the user, the holder of
-- the seat, and the box office and the spectators of the movie have changed, and the ticket is added.
-- The session has the row of the user as it is now, with a balance that is not negative.
pub record SoldOne (new_id : ℕ) (request : Request) (s s' : State) : Type 0 where
  pub user : User
  pub id_text : Bytes
  pub seat_name : Bytes
  pub screening_id : ℤ
  pub screening : Screening
  pub seat : Seat
  pub buyer : User
  pub at_end : State
  pub logged_in : s.session.user ≡ some user
  pub id_given : string_param request.params (codes "screening_id") ≡ some id_text
  pub id_read : stoi (c_str id_text) ≡ some screening_id
  pub seat_given : string_param request.params (codes "seat") ≡ some seat_name
  pub found :
      select (λ (c : Screening). is_id screening_id c.screening_id) s.db.screenings ≡ screening ∷ []
  pub seat_found :
      select
        (λ (c : Seat). is_id screening_id c.screening_id && same c.seat_name seat_name)
        s.db.seats
      ≡ seat ∷ []
  pub sold : Sold new_id user.id screening seat s.db s at_end
  pub same_db : s'.db ≡ at_end.db
  pub tables : s'.db ≡ record s.db {
    users = credited (pos 0 -ℤ millionths screening.price) user.id s.db.users;
    tickets =
        s.db.tickets
        ++ record {
          ticket_id = new_id;
          user_id = user.id;
          screening_id = screening.screening_id;
          seat_id = seat.seat_id;
          price = screening.price;
          refunded = false;
        }
          ∷ [];
    seats = held_by (some user.id) seat.seat_id s.db.seats;
    movies = grossing screening.price (pos 1) screening.movie_id s.db.movies;
  }
  pub row : select (λ (u : User). u.id == user.id) s'.db.users ≡ buyer ∷ []
  pub renewed : s'.session ≡ record { user = some buyer }
  pub solvent : pos 0 ≤ℤ buyer.balance

module _ (new_id : ℕ) (request : Request) (s : State) (user : User) (id_text seat_name : Bytes)
    (screening_id : ℤ) (logged_in : s.session.user ≡ some user)
    (id_given : string_param request.params (codes "screening_id") ≡ some id_text)
    (id_read : stoi (c_str id_text) ≡ some screening_id)
    (seat_given : string_param request.params (codes "seat") ≡ some seat_name) where
  pub Sold-SoldOne :
      (screening : Screening) (seat : Seat) (s' : State)
      → select (λ (c : Screening). is_id screening_id c.screening_id) s.db.screenings
        ≡ screening ∷ []
      → select
          (λ (c : Seat). is_id screening_id c.screening_id && same c.seat_name seat_name)
          s.db.seats
        ≡ seat ∷ []
      → Sold new_id user.id screening seat s.db s s'
      → (x : Session) → Renewed user.id s' x
      → SoldOne new_id request s (record s' { session = x })
  Sold-SoldOne screening seat s' found seat_found sold x (inr (none_there, e)) =
      absurd (Sold-buyer new_id user.id screening seat s.db s s' sold none_there)
  Sold-SoldOne screening seat s' found seat_found sold x (inl (buyer, row, e)) = record {
    user = user;
    id_text = id_text;
    seat_name = seat_name;
    screening_id = screening_id;
    screening = screening;
    seat = seat;
    buyer = buyer;
    at_end = s';
    logged_in = logged_in;
    id_given = id_given;
    id_read = id_read;
    seat_given = seat_given;
    found = found;
    seat_found = seat_found;
    sold = sold;
    same_db = refl;
    tables = Sold-tables new_id user.id screening seat s.db s s' sold;
    row = row;
    renewed = e;
    solvent = Sold-solvent new_id user.id screening seat s.db s s' buyer sold row;
  }

-- What a refund leaves. The ticket with that id, of that user and not refunded before, is paid back:
-- of the database just the balance of the user, the mark of the ticket, the holder of its seat, and
-- the box office and the spectators of the movie have changed. The session has the row of the user
-- as it is now, where the database has one.
pub record RefundedOne (ticket_id user_id : ℕ) (s s' : State) : Type 0 where
  pub ticket : Ticket
  pub screening : Screening
  pub at_end : State
  pub found : select (λ (t : Ticket). t.ticket_id == ticket_id) s.db.tickets ≡ ticket ∷ []
  pub named : ticket.ticket_id ≡ ticket_id
  pub owned : ticket.user_id ≡ user_id
  pub open_yet : ticket.refunded ≡ false
  pub showing :
      select (λ (c : Screening). ticket.screening_id == c.screening_id) s.db.screenings
      ≡ screening ∷ []
  pub refunded : Refunded user_id ticket s.db s at_end
  pub same_db : s'.db ≡ at_end.db
  pub tables : s'.db ≡ record s.db {
    users = credited (millionths ticket.price) user_id s.db.users;
    tickets = paid_back ticket_id s.db.tickets;
    seats = held_by none ticket.seat_id s.db.seats;
    movies = grossing (pos 0 -ℤ ticket.price) (pos 0 -ℤ pos 1) screening.movie_id s.db.movies;
  }
  pub renewed :
      ((v : User) × (select (λ (w : User). w.id == user_id) s'.db.users ≡ v ∷ [])
        × (s'.session ≡ record { user = some v }))
      ⊎ ((select (λ (w : User). w.id == user_id) s'.db.users ≡ []) × (s'.session ≡ s.session))

pub Refunded-RefundedOne :
    (ticket_id : ℕ) (user : User) (ticket : Ticket) (s s' : State)
    → find_tickets ticket_id s.db ≡ ticket ∷ []
    → ticket.user_id ≡ user.id
    → ticket.refunded ≡ false
    → Refunded user.id ticket s.db s s'
    → (x : Session) → Renewed user.id s' x
    → RefundedOne ticket_id user.id s (record s' { session = x })
unfolding find_tickets
Refunded-RefundedOne ticket_id user ticket s s' found owned open_yet refunded x renewed =
    let named : ticket.ticket_id ≡ ticket_id =
      let it =
        select_holds (λ (t : Ticket). t.ticket_id == ticket_id) s.db.tickets ticket [] found in
      ground (arith, it) in
    record {
      ticket = ticket;
      screening = refunded.screening;
      at_end = s';
      found = found;
      named = named;
      owned = owned;
      open_yet = open_yet;
      showing = Refunded-screening user.id ticket s.db s s' refunded;
      refunded = refunded;
      same_db = refl;
      tables =
          Refunded-tables user.id ticket s.db s s' refunded
          ∙ ap
              (λ i. record s.db {
                users = credited (millionths ticket.price) user.id s.db.users;
                tickets = paid_back i s.db.tickets;
                seats = held_by none ticket.seat_id s.db.seats;
                movies =
                    grossing (pos 0 -ℤ ticket.price) (pos 0 -ℤ pos 1) refunded.screening.movie_id
                      s.db.movies;
              })
              named;
      renewed = elim renewed [
        | inl it ↦ inl it
        | inr (none_there, e) ↦
            inr (none_there, e ∙ ap (λ (y : State). y.session) refunded.committed)
      ];
    }
