-- ===== src/WebApp/Tickets/Committed.antt =====
-- What a sale and a refund have done to the database when they end with their commit.
use movie_dbproject.WebApp.Flow.{only_row, refuse, State, Session, next}
use Prim.Native.String.{String}
use movie_dbproject.Prelude.{
  ℕ, ◌≤◌, ◌≡◌, ◌⊎◌, inl, inr, refl, false, none, some, List, [], ◌∷◌, select, length, arith, ◌==◌,
  ap,
}
use movie_dbproject.Prelude.Int.{ℤ, pos, ◌+ℤ◌, ◌-ℤ◌}
use movie_dbproject.WebApp.Db.Rows.{length-select-update_where}
use movie_dbproject.WebApp.Db.{
  User, Screening, Seat, Ticket, Db, DbError, Executed, rows, fails, millionths,
}
use movie_dbproject.WebApp.Tickets.{
  find_screenings, mark_refunded, add_balance, insert_ticket, add_box_office, set_holder,
  get_user_by_id, reload_user_info, sell, give_back,
}

-- No two users have one id.
abbrev pub UniqueUsers : Db → Type 0
UniqueUsers d = (i : ℕ) → length (select (λ (u : User). u.id == i) d.users) ≤ 1

-- A session that has been renewed: it has the row of its user in the database as it is now, or is
-- as it was where the database has none.
abbrev pub Renewed : ℕ → State → Session → Type 0
Renewed user_id s x =
    ((v : User) × (select (λ (w : User). w.id == user_id) s.db.users ≡ v ∷ [])
      × (x ≡ record { user = some v }))
    ⊎ ((select (λ (w : User). w.id == user_id) s.db.users ≡ []) × (x ≡ s.session))

get_user_by_id-found :
    (d : Db) (i : ℕ) (s : State)
    → UniqueUsers d
    → ((v : User) × (select (λ (w : User). w.id == i) d.users ≡ v ∷ [])
        × (get_user_by_id d i s ≡ (next (some v), s)))
      ⊎ ((select (λ (w : User). w.id == i) d.users ≡ []) × (get_user_by_id d i s ≡ (next none, s)))
unfolding get_user_by_id
get_user_by_id-found d i s h = go (select (λ (u : User). u.id == i) d.users) refl
  where
    go :
        (l : List User)
        → select (λ (u : User). u.id == i) d.users ≡ l
        → ((v : User) × (select (λ (w : User). w.id == i) d.users ≡ v ∷ [])
            × (get_user_by_id d i s ≡ (next (some v), s)))
          ⊎ ((select (λ (w : User). w.id == i) d.users ≡ [])
              × (get_user_by_id d i s ≡ (next none, s)))
    go [] e = inr (e, rw (e, get_user_by_id))
    go (u ∷ []) e = inl (u, e, rw (e, get_user_by_id))
    go (u ∷ v ∷ r) e = absurd (let few = h i in ground (arith, ap length e))

-- Reading the user again succeeds, renews the session, and leaves the database alone.
pub reload_user_info-next :
    (s : State) (u : User)
    → s.session.user ≡ some u
    → UniqueUsers s.db
    → (x : Session) × (reload_user_info s ≡ (next tt, record s { session = x })) × Renewed u.id s x
unfolding reload_user_info
reload_user_info-next s u e h = elim (get_user_by_id-found s.db u.id s h) [
  | inl (v, found, f) ↦ (record { user = some v }, ground (arith, e, f), inl (v, found, refl))
  | inr (found, f) ↦ (s.session, ground (arith, e, f), inr (found, refl))
]

pub add_balance-UniqueUsers :
    (x : ℤ) (i : ℕ) (d : Db)
    → UniqueUsers d
    → (d' : Db) → add_balance x i d ≡ rows d'
    → UniqueUsers d'
unfolding add_balance
add_balance-UniqueUsers x i d h d' e j =
    let same_count =
      length-select-update_where (λ (u : User). u.id == j) (λ u. u.id == i)
        (λ u. record u { balance = u.balance +ℤ x }) d.users (λ u. refl) in
    ground (arith, h j, same_count)

pub insert_ticket-users :
    (t : Ticket) (d d' : Db) → insert_ticket t d ≡ rows d' → d'.users ≡ d.users
unfolding insert_ticket
insert_ticket-users t d d' e = ground arith

pub add_box_office-users :
    (x n : ℤ) (i : ℕ) (d d' : Db) → add_box_office x n i d ≡ rows d' → d'.users ≡ d.users
unfolding add_box_office
add_box_office-users x n i d d' e = ground arith

Executed-cases : (r : Executed Db) → ((e : DbError) × (r ≡ fails e)) ⊎ ((d : Db) × (r ≡ rows d))
Executed-cases (rows d) = inr (d, refl)
Executed-cases (fails e) = inl (e, refl)

-- What a sale has done when it ends with its commit.
pub record Sold (new_id user_id : ℕ) (c : Screening) (seat : Seat) (d : Db) (s s' : State)
    : Type 0 where
  pub paid : Db
  pub issued : Db
  pub booked : Db
  pub debit : add_balance (pos 0 -ℤ millionths c.price) user_id d ≡ rows paid
  pub issue :
      insert_ticket
        (record {
          ticket_id = new_id;
          user_id = user_id;
          screening_id = c.screening_id;
          seat_id = seat.seat_id;
          price = c.price;
          refunded = false;
        })
        paid
      ≡ rows issued
  pub book :
      add_box_office c.price (pos 1) c.movie_id (set_holder (some user_id) seat.seat_id issued)
      ≡ rows booked
  pub committed : s' ≡ record s { db = booked }

pub sell-Sold :
    (new_id user_id : ℕ) (c : Screening) (seat : Seat) (d : Db) (s s' : State)
    → sell new_id user_id c seat d s ≡ (next tt, s')
    → Sold new_id user_id c seat d s s'
unfolding sell
sell-Sold new_id user_id c seat d s s' e =
    elim (Executed-cases (add_balance (pos 0 -ℤ millionths c.price) user_id d)) [
      | inl (x, f) ↦ absurd (ground (arith, f, e))
      | inr (d₁, f) ↦ elim (Executed-cases (insert_ticket ticket d₁)) [
        | inl (x, g) ↦ absurd (ground (arith, f, g, e))
        | inr (d₂, g) ↦
            elim (Executed-cases (
              add_box_office c.price (pos 1) c.movie_id
                (set_holder (some user_id) seat.seat_id d₂))) [
                  | inl (x, k) ↦ absurd (ground (arith, f, g, k, e))
                  | inr (d₃, k) ↦ record {
                    paid = d₁;
                    issued = d₂;
                    booked = d₃;
                    debit = f;
                    issue = g;
                    book = k;
                    committed = ground (arith, f, g, k, e);
                  }
                ]
      ]
    ]
  where
    ticket : Ticket
    ticket = record {
      ticket_id = new_id;
      user_id = user_id;
      screening_id = c.screening_id;
      seat_id = seat.seat_id;
      price = c.price;
      refunded = false;
    }

-- The users after a sale are those that the debit has left.
pub sell-UniqueUsers :
    (new_id user_id : ℕ) (c : Screening) (seat : Seat) (d : Db) (s s' : State)
    → UniqueUsers d
    → sell new_id user_id c seat d s ≡ (next tt, s')
    → UniqueUsers s'.db
unfolding set_holder
sell-UniqueUsers new_id user_id c seat d s s' h e i =
    let sold = sell-Sold new_id user_id c seat d s s' e in
    let paid =
      add_balance-UniqueUsers (pos 0 -ℤ millionths c.price) user_id d h sold.paid sold.debit i in
    let f = insert_ticket-users _ sold.paid sold.issued sold.issue in
    let g = add_box_office-users c.price (pos 1) c.movie_id _ sold.booked sold.book in
    rw (sold.committed, g, f) paid

only_row-cases :
    {A : Type 0} (l : List A) → ((m : String) → only_row l m ≡ refuse m) ⊎ ((x : A) × (l ≡ x ∷ []))
only_row-cases [] = inl (λ m. refl)
only_row-cases (x ∷ []) = inr (x, refl)
only_row-cases (x ∷ y ∷ r) = inl (λ m. refl)

-- What a refund has done when it ends with its commit.
pub record Refunded (user_id : ℕ) (t : Ticket) (d : Db) (s s' : State) : Type 0 where
  pub paid : Db
  pub screening : Screening
  pub booked : Db
  pub credit : add_balance (millionths t.price) user_id d ≡ rows paid
  pub showing :
      find_screenings
        (pos t.screening_id)
        (set_holder none t.seat_id (mark_refunded t.ticket_id paid))
      ≡ screening ∷ []
  pub book :
      add_box_office
        (pos 0 -ℤ t.price)
        (pos 0 -ℤ pos 1)
        screening.movie_id
        (set_holder none t.seat_id (mark_refunded t.ticket_id paid))
      ≡ rows booked
  pub committed : s' ≡ record s { db = booked }

pub give_back-Refunded :
    (user_id : ℕ) (t : Ticket) (d : Db) (s s' : State)
    → give_back user_id t d s ≡ (next tt, s')
    → Refunded user_id t d s s'
unfolding give_back
give_back-Refunded user_id t d s s' e =
    elim (Executed-cases (add_balance (millionths t.price) user_id d)) [
      | inl (x, f) ↦ absurd (ground (arith, f, e))
      | inr (d₁, f) ↦
          let d₂ = set_holder none t.seat_id (mark_refunded t.ticket_id d₁) in
          elim (only_row-cases (find_screenings (pos t.screening_id) d₂)) [
            | inl g ↦ absurd (ground (arith, f, g "Invalid screening id", e))
            | inr (c, g) ↦
                elim (Executed-cases
                  (add_box_office (pos 0 -ℤ t.price) (pos 0 -ℤ pos 1) c.movie_id d₂)) [
                    | inl (x, k) ↦ absurd (ground (arith, f, g, k, e))
                    | inr (d₃, k) ↦ record {
                      paid = d₁;
                      screening = c;
                      booked = d₃;
                      credit = f;
                      showing = g;
                      book = k;
                      committed = ground (arith, f, g, k, e);
                    }
                  ]
          ]
    ]

pub give_back-UniqueUsers :
    (user_id : ℕ) (t : Ticket) (d : Db) (s s' : State)
    → UniqueUsers d
    → give_back user_id t d s ≡ (next tt, s')
    → UniqueUsers s'.db
unfolding set_holder mark_refunded
give_back-UniqueUsers user_id t d s s' h e i =
    let done = give_back-Refunded user_id t d s s' e in
    let paid = add_balance-UniqueUsers (millionths t.price) user_id d h done.paid done.credit i in
    let g = add_box_office-users _ _ done.screening.movie_id _ done.booked done.book in
    rw (done.committed, g) paid
