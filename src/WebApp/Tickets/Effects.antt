-- ===== src/WebApp/Tickets/Effects.antt =====
-- What a sale and a refund change in the tables, row by row.
use movie_dbproject.Prelude.{
  ℕ, ◌≡◌, ◌≢◌, refl, ap, sym, ◌∙◌, true, false, Option, none, some, List, [], ◌∷◌, ◌++◌, ◌==◌, map,
  select, if◌then◌else◌, arith,
}
use movie_dbproject.Prelude.Int.{ℤ, pos, ◌+ℤ◌, ◌-ℤ◌, leb_ℤ, ◌≤ℤ◌}
use movie_dbproject.WebApp.Db.Rows.{update_where-map}
use movie_dbproject.WebApp.Db.{
  User, Movie, Screening, Seat, Ticket, Db, rows, millionths, is_id, any_row, all_rows,
}
use movie_dbproject.WebApp.Flow.{State}
use movie_dbproject.WebApp.Tickets.{
  mark_refunded, add_balance, insert_ticket, add_box_office, set_holder, find_screenings,
}
use movie_dbproject.WebApp.Tickets.Committed.{Sold, Refunded}

-- The users, one of them with `x` more.
abbrev pub credited : ℤ → ℕ → List User → List User
credited x id = map (λ (u : User). if u.id == id then record u { balance = u.balance +ℤ x } else u)

-- The seats, one of them with another holder.
abbrev pub held_by : Option ℕ → ℕ → List Seat → List Seat
held_by holder seat_id =
    map (λ (c : Seat). if c.seat_id == seat_id then record c { user_id = holder } else c)

-- The movies, one of them with `x` more in its box office and `n` more spectators.
abbrev pub grossing : ℤ → ℤ → ℕ → List Movie → List Movie
grossing x n movie_id = map (λ (m : Movie).
    if m.movie_id == movie_id
    then record m { box_office = m.box_office +ℤ x; num_participants = m.num_participants +ℤ n }
    else m)

-- The tickets, one of them refunded.
abbrev pub paid_back : ℕ → List Ticket → List Ticket
paid_back ticket_id =
    map (λ (t : Ticket). if t.ticket_id == ticket_id then record t { refunded = true } else t)

add_balance-credited :
    (x : ℤ) (i : ℕ) (d d' : Db)
    → add_balance x i d ≡ rows d'
    → d' ≡ record d { users = credited x i d.users }
unfolding add_balance
add_balance-credited x i d d' e =
    let same_rows =
      update_where-map (λ (u : User). u.id == i) (λ u. record u { balance = u.balance +ℤ x })
        d.users in
    ground (arith, e, same_rows)

insert_ticket-rows :
    (t : Ticket) (d d' : Db)
    → insert_ticket t d ≡ rows d'
    → d' ≡ record d { tickets = d.tickets ++ t ∷ [] }
unfolding insert_ticket
insert_ticket-rows t d d' e = ground (arith, e)

set_holder-held_by :
    (h : Option ℕ) (i : ℕ) (d : Db) → set_holder h i d ≡ record d { seats = held_by h i d.seats }
unfolding set_holder
set_holder-held_by h i d =
    ap (λ l. record d { seats = l }) (update_where-map (λ (c : Seat). c.seat_id == i) _ d.seats)

mark_refunded-paid_back :
    (i : ℕ) (d : Db) → mark_refunded i d ≡ record d { tickets = paid_back i d.tickets }
unfolding mark_refunded
mark_refunded-paid_back i d =
    ap (λ l. record d { tickets = l })
      (update_where-map (λ (t : Ticket). t.ticket_id == i) _ d.tickets)

add_box_office-grossing :
    (x n : ℤ) (i : ℕ) (d d' : Db)
    → add_box_office x n i d ≡ rows d'
    → d' ≡ record d { movies = grossing x n i d.movies }
unfolding add_box_office
add_box_office-grossing x n i d d' e =
    let same_rows =
      update_where-map (λ (m : Movie). m.movie_id == i)
        (λ m. record m {
          box_office = m.box_office +ℤ x;
          num_participants = m.num_participants +ℤ n;
        })
        d.movies in
    ground (arith, e, same_rows)

pub Sold-tables :
    (new_id user_id : ℕ) (c : Screening) (seat : Seat) (d : Db) (s s' : State)
    → Sold new_id user_id c seat d s s'
    → s'.db ≡ record d {
      users = credited (pos 0 -ℤ millionths c.price) user_id d.users;
      tickets =
          d.tickets
          ++ record {
            ticket_id = new_id;
            user_id = user_id;
            screening_id = c.screening_id;
            seat_id = seat.seat_id;
            price = c.price;
            refunded = false;
          }
            ∷ [];
      seats = held_by (some user_id) seat.seat_id d.seats;
      movies = grossing c.price (pos 1) c.movie_id d.movies;
    }
Sold-tables new_id user_id c seat d s s' done =
    let paid = add_balance-credited (pos 0 -ℤ millionths c.price) user_id d done.paid done.debit in
    let issued = insert_ticket-rows _ done.paid done.issued done.issue in
    let held = set_holder-held_by (some user_id) seat.seat_id done.issued in
    let booked = add_box_office-grossing c.price (pos 1) c.movie_id _ done.booked done.book in
    rw (done.committed, booked, held, issued, paid) refl

pub Refunded-tables :
    (user_id : ℕ) (t : Ticket) (d : Db) (s s' : State) (done : Refunded user_id t d s s')
    → s'.db ≡ record d {
      users = credited (millionths t.price) user_id d.users;
      tickets = paid_back t.ticket_id d.tickets;
      seats = held_by none t.seat_id d.seats;
      movies = grossing (pos 0 -ℤ t.price) (pos 0 -ℤ pos 1) done.screening.movie_id d.movies;
    }
Refunded-tables user_id t d s s' done =
    let paid = add_balance-credited (millionths t.price) user_id d done.paid done.credit in
    let marked = mark_refunded-paid_back t.ticket_id done.paid in
    let held = set_holder-held_by none t.seat_id (mark_refunded t.ticket_id done.paid) in
    let booked =
      add_box_office-grossing (pos 0 -ℤ t.price) (pos 0 -ℤ pos 1) done.screening.movie_id _
        done.booked done.book in
    rw (done.committed, booked, held, marked, paid) refl

-- The screening of a ticket is that which the database had before the refund.
pub Refunded-screening :
    (user_id : ℕ) (t : Ticket) (d : Db) (s s' : State) (done : Refunded user_id t d s s')
    → select (λ (c : Screening). t.screening_id == c.screening_id) d.screenings
      ≡ done.screening ∷ []
unfolding find_screenings set_holder mark_refunded is_id
Refunded-screening user_id t d s s' done =
    let paid = add_balance-credited (millionths t.price) user_id d done.paid done.credit in
    ap (λ (x : Db). select (λ (c : Screening). t.screening_id == c.screening_id) x.screenings)
      (sym paid)
    ∙ done.showing

-- The users behind a sale are those that the debit left.
Sold-users :
    (new_id user_id : ℕ) (c : Screening) (seat : Seat) (d : Db) (s s' : State)
    (done : Sold new_id user_id c seat d s s')
    → (s'.db.users ≡ done.issued.users) × (done.issued.users ≡ done.paid.users)
Sold-users new_id user_id c seat d s s' done =
    let issued = insert_ticket-rows _ done.paid done.issued done.issue in
    let held = set_holder-held_by (some user_id) seat.seat_id done.issued in
    let booked = add_box_office-grossing c.price (pos 1) c.movie_id _ done.booked done.book in
    (rw (done.committed, booked, held) refl, rw (issued) refl)

insert_ticket-buyer :
    (t : Ticket) (d d' : Db)
    → insert_ticket t d ≡ rows d'
    → select (λ (u : User). u.id == t.user_id) d.users ≢ []
unfolding insert_ticket any_row
insert_ticket-buyer t d d' e none_there = ground (arith, e, none_there)

add_balance-solvent :
    (x : ℤ) (i : ℕ) (d d' : Db)
    → add_balance x i d ≡ rows d'
    → all_rows (λ (u : User). leb_ℤ (pos 0) u.balance) (select (λ (u : User). u.id == i) d'.users)
      ≡ true
unfolding add_balance
add_balance-solvent x i d d' e = ground (arith, e)

-- Whoever has bought a ticket has a row in the database.
pub Sold-buyer :
    (new_id user_id : ℕ) (c : Screening) (seat : Seat) (d : Db) (s s' : State)
    → Sold new_id user_id c seat d s s'
    → select (λ (u : User). u.id == user_id) s'.db.users ≢ []
Sold-buyer new_id user_id c seat d s s' done none_there =
    let (e, f) = Sold-users new_id user_id c seat d s s' done in
    insert_ticket-buyer _ done.paid done.issued done.issue
      (ap (select (λ (u : User). u.id == user_id)) (sym (e ∙ f)) ∙ none_there)

-- His balance is not negative.
pub Sold-solvent :
    (new_id user_id : ℕ) (c : Screening) (seat : Seat) (d : Db) (s s' : State) (buyer : User)
    → Sold new_id user_id c seat d s s'
    → select (λ (u : User). u.id == user_id) s'.db.users ≡ buyer ∷ []
    → pos 0 ≤ℤ buyer.balance
unfolding all_rows
Sold-solvent new_id user_id c seat d s s' buyer done found =
    let (e, f) = Sold-users new_id user_id c seat d s s' done in
    let solvent =
      add_balance-solvent (pos 0 -ℤ millionths c.price) user_id d done.paid done.debit in
    let there = ap (select (λ (u : User). u.id == user_id)) (sym (e ∙ f)) ∙ found in
    ground (arith, solvent, there)
