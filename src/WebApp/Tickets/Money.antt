-- ===== src/WebApp/Tickets/Money.antt =====
-- Selling and refunding only move money between the users and the box offices.
use movie_dbproject.WebApp.Tickets.Outcomes.{SoldOne, RefundedOne}
use movie_dbproject.Prelude.{
  ℕ, ◌≤◌, ◌≡◌, ◌∙◌, refl, sym, ap, subst, Bool, true, some, List, [], ◌∷◌, ◌==◌, select, length,
  arith, inl, inr,
}
use movie_dbproject.Prelude.Int.{ℤ, pos, ◌+ℤ◌, ◌-ℤ◌, int_laws, eq_of_parts}
use movie_dbproject.WebApp.Db.Rows.{
  sum_of, sum_of-update_one, length-select-update_where, millionths_parts,
}
use movie_dbproject.WebApp.Db.{
  User, Movie, Screening, Ticket, Db, rows, millionths, update_where, any_row, is_id,
}
use movie_dbproject.WebApp.Flow.{Request, State, Handler, Flow, next, returns, throws}
use movie_dbproject.WebApp.Tickets.{
  add_balance, insert_ticket, add_box_office, set_holder, mark_refunded, find_screenings,
  buy_ticket, refund_ticket,
}
use movie_dbproject.WebApp.Tickets.Committed.{add_balance-UniqueUsers, UniqueUsers}
use movie_dbproject.WebApp.Flow.Ending.{IsAtomic, Atomically, Atomically-IsAtomic}
use movie_dbproject.WebApp.Tickets.Atomic.{buy_ticket-IsAtomic, refund_ticket-IsAtomic}

-- All the money: what the users have, and what the box offices have taken.
abbrev pub money : Db → ℤ
money d =
    sum_of (λ (u : User). u.balance) d.users
    +ℤ millionths (sum_of (λ (m : Movie). m.box_office) d.movies)

-- A screening that a query finds shows one movie.
abbrev pub ShowsMovies : Db → Type 0
ShowsMovies d =
    (n : ℤ) (c : Screening)
    → find_screenings n d ≡ c ∷ []
    → length (select (λ (m : Movie). m.movie_id == c.movie_id) d.movies) ≡ 1

add_balance-sum :
    (x : ℤ) (i : ℕ) (d d' : Db)
    → add_balance x i d ≡ rows d'
    → length (select (λ (u : User). u.id == i) d'.users) ≡ 1
    → sum_of (λ (u : User). u.balance) d'.users ≡ sum_of (λ (u : User). u.balance) d.users +ℤ x
unfolding add_balance
add_balance-sum x i d d' e one =
    let after =
      update_where (λ (u : User). u.id == i) (λ u. record u { balance = u.balance +ℤ x }) d.users in
    let same_users : after ≡ d'.users = ground (arith, e) in
    let same_count =
      length-select-update_where (λ (u : User). u.id == i) (λ u. u.id == i)
        (λ u. record u { balance = u.balance +ℤ x }) d.users (λ u. refl) in
    subst
      (λ us. sum_of (λ (u : User). u.balance) us ≡ sum_of (λ (u : User). u.balance) d.users +ℤ x)
      same_users
      (sum_of-update_one (λ (u : User). u.balance) (λ u. u.id == i)
        (λ u. record u { balance = u.balance +ℤ x }) x d.users (λ u. refl)
        (sym same_count ∙ ap (λ us. length (select (λ (u : User). u.id == i) us)) same_users ∙ one))

add_balance-same_count :
    (x : ℤ) (i : ℕ) (d d' : Db)
    → add_balance x i d ≡ rows d'
    → length (select (λ (u : User). u.id == i) d.users) ≡ 1
    → length (select (λ (u : User). u.id == i) d'.users) ≡ 1
unfolding add_balance
add_balance-same_count x i d d' e one =
    let same_count =
      length-select-update_where (λ (u : User). u.id == i) (λ u. u.id == i)
        (λ u. record u { balance = u.balance +ℤ x }) d.users (λ u. refl) in
    ground (arith, one, same_count)

add_balance-rest :
    (x : ℤ) (i : ℕ) (d d' : Db)
    → add_balance x i d ≡ rows d'
    → (d'.movies ≡ d.movies) × (d'.screenings ≡ d.screenings)
unfolding add_balance
add_balance-rest x i d d' e = ground (arith, e)

insert_ticket-holds :
    (t : Ticket) (d d' : Db)
    → insert_ticket t d ≡ rows d'
    → (any_row (λ (u : User). u.id == t.user_id) d.users ≡ true)
      × (d'.users ≡ d.users)
      × (d'.movies ≡ d.movies)
      × (d'.screenings ≡ d.screenings)
unfolding insert_ticket
insert_ticket-holds t d d' e = ground (arith, e)

add_box_office-sum :
    (x n : ℤ) (i : ℕ) (d d' : Db)
    → add_box_office x n i d ≡ rows d'
    → length (select (λ (m : Movie). m.movie_id == i) d.movies) ≡ 1
    → (d'.users ≡ d.users)
      × (sum_of (λ (m : Movie). m.box_office) d'.movies
          ≡ sum_of (λ (m : Movie). m.box_office) d.movies +ℤ x)
unfolding add_box_office
add_box_office-sum x n i d d' e one =
    let f = λ (m : Movie). record m {
      box_office = m.box_office +ℤ x;
      num_participants = m.num_participants +ℤ n;
    } in
    let same_movies : update_where (λ (m : Movie). m.movie_id == i) f d.movies ≡ d'.movies =
      ground (arith, e) in
    (
      ground (arith, e),
      subst
          (λ ms.
            sum_of (λ (m : Movie). m.box_office) ms
            ≡ sum_of (λ (m : Movie). m.box_office) d.movies +ℤ x)
          same_movies
          (sum_of-update_one (λ (m : Movie). m.box_office) (λ m. m.movie_id == i) f x d.movies
            (λ m. refl) one),
    )

any_row-length :
    {A : Type 0} (p : A → Bool) (xs : List A)
    → any_row p xs ≡ true
    → length (select p xs) ≤ 1
    → length (select p xs) ≡ 1
unfolding any_row
any_row-length p xs e h = ground (arith, e, h)

debit_moves : (b p k : ℤ) → b +ℤ (pos 0 -ℤ millionths p) +ℤ millionths (k +ℤ p) ≡ b +ℤ millionths k
debit_moves b p k =
    let (pp, pn) = millionths_parts p in
    let (kp, kn) = millionths_parts k in
    let (sp, sn) = millionths_parts (k +ℤ p) in eq_of_parts _ _ (omega int_laws)

credit_moves : (b p k : ℤ) → b +ℤ millionths p +ℤ millionths (k +ℤ (pos 0 -ℤ p)) ≡ b +ℤ millionths k
credit_moves b p k =
    let (pp, pn) = millionths_parts p in
    let (kp, kn) = millionths_parts k in
    let (sp, sn) = millionths_parts (k +ℤ (pos 0 -ℤ p)) in eq_of_parts _ _ (omega int_laws)

-- A sale that ends with its commit has moved its price.
sold-money :
    (new_id : ℕ) (request : Request) (s s' : State)
    → UniqueUsers s.db
    → ShowsMovies s.db
    → SoldOne new_id request s s'
    → money s'.db ≡ money s.db
unfolding set_holder find_screenings
sold-money new_id request s s' unique shows one =
    let sold = one.sold in
    let x = pos 0 -ℤ millionths one.screening.price in
    let (has_user, same_users, same_movies, _) =
      insert_ticket-holds _ sold.paid sold.issued sold.issue in
    let (movies, _) = add_balance-rest x one.user.id s.db sold.paid sold.debit in
    let few = add_balance-UniqueUsers x one.user.id s.db unique sold.paid sold.debit one.user.id in
    let (booked_users, booked) =
      add_box_office-sum one.screening.price (pos 1) one.screening.movie_id _ sold.booked sold.book
        (rw (same_movies, movies) (shows one.screening_id one.screening one.found)) in
    let paid =
      add_balance-sum x one.user.id s.db sold.paid sold.debit
        (any_row-length _ sold.paid.users has_user few) in
    rw (one.same_db, sold.committed, booked_users, same_users, paid, booked, same_movies, movies)
      (debit_moves _ one.screening.price _)

-- The id is that of exactly one user.
abbrev pub HasUser : ℕ → Db → Type 0
HasUser i d = length (select (λ (u : User). u.id == i) d.users) ≡ 1

-- A refund that ends with its commit has moved the price of the ticket back.
refunded-money :
    (ticket_id user_id : ℕ) (s s' : State)
    → HasUser user_id s.db
    → ShowsMovies s.db
    → RefundedOne ticket_id user_id s s'
    → money s'.db ≡ money s.db
unfolding set_holder mark_refunded find_screenings
refunded-money ticket_id user_id s s' has_user shows one =
    let done = one.refunded in
    let x = millionths one.ticket.price in
    let (movies, screenings) = add_balance-rest x user_id s.db done.paid done.credit in
    let found =
      ap (λ l. select (λ (c : Screening). is_id (pos one.ticket.screening_id) c.screening_id) l)
        (sym screenings)
      ∙ done.showing in
    let (booked_users, booked) =
      add_box_office-sum (pos 0 -ℤ one.ticket.price) (pos 0 -ℤ pos 1) done.screening.movie_id _
        done.booked done.book
        (rw (movies) (shows (pos one.ticket.screening_id) done.screening found)) in
    let paid =
      add_balance-sum x user_id s.db done.paid done.credit
        (add_balance-same_count x user_id s.db done.paid done.credit has_user) in
    rw (one.same_db, done.committed, booked_users, paid, booked, movies)
      (credit_moves _ one.ticket.price _)

-- What a handler that is atomic keeps is what its success keeps.
atomic_keeps :
    {Q : State → Type 0} (m : Handler (Unit {0})) (s : State)
    → ((s' : State) → Q s' → money s'.db ≡ money s.db)
    → Atomically Q s m
    → money (m s).1.db ≡ money s.db
atomic_keeps {Q} m s keeps h = go (m s).0 (m s).1 (Atomically-IsAtomic Q m s h)
  where
    go : (r : Flow (Unit {0})) (s' : State) → IsAtomic Q s (r, s') → money s'.db ≡ money s.db
    go (next a) s' h = absurd h
    go (returns reply) s' (inl (_, q)) = keeps s' q
    go (returns reply) s' (inr e) = ap (λ x. money x.db) e
    go (throws x) s' e = ap (λ x. money x.db) e

-- `buy_ticket` keeps the sum of all balances and box offices, however it ends, in a database whose
-- users have different ids and in which a screening that is found shows exactly one movie.
pub buy_ticket-money :
    (new_id : ℕ) (request : Request) (s : State)
    → UniqueUsers s.db
    → ShowsMovies s.db
    → money (buy_ticket new_id request s).1.db ≡ money s.db
buy_ticket-money new_id request s unique shows =
    atomic_keeps (buy_ticket new_id request) s (λ s'. sold-money new_id request s s' unique shows)
      (buy_ticket-IsAtomic new_id request s unique)

-- `refund_ticket` by a session whose user is one row of the database keeps the sum of all balances
-- and box offices, however it ends, in a database whose users have different ids and in which a
-- screening that is found shows exactly one movie.
pub refund_ticket-money :
    (ticket_id : ℕ) (request : Request) (s : State) (u : User)
    → s.session.user ≡ some u
    → HasUser u.id s.db
    → UniqueUsers s.db
    → ShowsMovies s.db
    → money (refund_ticket ticket_id request s).1.db ≡ money s.db
refund_ticket-money ticket_id request s u e has_user unique shows =
    atomic_keeps (refund_ticket ticket_id request) s
      (λ s'. refunded-money ticket_id u.id s s' has_user shows)
      (refund_ticket-IsAtomic ticket_id request s u e unique)
