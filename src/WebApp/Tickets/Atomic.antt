-- ===== src/WebApp/Tickets/Atomic.antt =====
-- A ticket is bought, or refunded, as a whole or not at all.
use movie_dbproject.WebApp.Tickets.Outcomes.{
  SoldOne, Sold-SoldOne, RefundedOne, Refunded-RefundedOne,
}
use movie_dbproject.WebApp.Flow.Ending.{
  Atomically-IsAtomic, throw_if-IsCheck, refuse_if-IsCheck, or_throw-IsCheck, only_row-IsCheck,
  Atomically-check, Atomically-bind, get_session-IsCheck, Atomically-begin, session_user-IsCheck,
  Atomically-known, session_user-next, or_throw-next, only_row-next, Atomically-row,
  Atomically-refuse_if, IsAtomic, Atomically, Undone,
}
use movie_dbproject.WebApp.Tickets.{
  purchase, refund, find_seats, find_screenings, find_tickets, reload_user_info, sell, buy_ticket,
  refund_ticket, give_back,
}
use movie_dbproject.WebApp.Tickets.Committed.{
  UniqueUsers, Renewed, reload_user_info-next, sell-Sold, sell-UniqueUsers, give_back-Refunded,
  give_back-UniqueUsers,
}
use movie_dbproject.WebApp.Fields.{string_param, stoi, c_str}
use movie_dbproject.Prelude.{
  sym, subst, ap, ◌∙◌, ℕ, ◌≡◌, inl, inr, refl, true, false, some, arith, Bool-cases, not, is_some,
  ◌==◌,
}
use Prim.Native.String.{String}
use movie_dbproject.WebApp.Db.{
  fits_integer, integer_out_of_range, User, Screening, Seat, Ticket, Db,
}
use movie_dbproject.Prelude.Bytes.{Bytes, codes}
use movie_dbproject.Prelude.Int.{ℤ, pos}
use movie_dbproject.WebApp.Flow.{
  refuse_if, succeed, ◌>>◌, url_not_found, bad_value, bad_number, db_error, State, Session, Flow,
  next, returns, throws, Handler, Request,
}

sell-Undone :
    (new_id user_id : ℕ) (c : Screening) (seat : Seat) (d : Db) (s : State)
    → Undone s (sell new_id user_id c seat d s)
unfolding sell
sell-Undone new_id user_id c seat d s = ground arith

give_back-Undone :
    (user_id : ℕ) (t : Ticket) (d : Db) (s : State) → Undone s (give_back user_id t d s)
unfolding give_back
give_back-Undone user_id t d s = ground arith

-- After a commit that keeps the ids of users apart and the session, the session of the user is
-- renewed and success is replied.
reload-IsAtomic :
    (Q : State → Type 0) (m : String) (s s' : State) (u : User)
    → s'.session.user ≡ some u
    → UniqueUsers s'.db
    → ((x : Session) → Renewed u.id s' x → Q (record s' { session = x }))
    → IsAtomic Q s ((reload_user_info >> succeed m) s')
reload-IsAtomic Q m s s' u logged_in h q =
    let (x, e, renewed) = reload_user_info-next s' u logged_in h in
    subst
      (λ (p : Flow (Unit {0}) × State). IsAtomic Q s (elim p.0 [
        | next a ↦ succeed m p.1
        | returns reply ↦ (returns reply, p.1)
        | throws y ↦ (throws y, p.1)
      ]))
      (sym e) (inl (refl, q x renewed))

module _ (new_id : ℕ) (request : Request) (s : State) (user : User) (id_text seat_name : Bytes)
    (screening_id : ℤ) (logged_in : s.session.user ≡ some user)
    (id_given : string_param request.params (codes "screening_id") ≡ some id_text)
    (id_read : stoi (c_str id_text) ≡ some screening_id)
    (seat_given : string_param request.params (codes "seat") ≡ some seat_name) where
  purchase-IsAtomic :
      UniqueUsers s.db
      → Atomically
          (λ s'. SoldOne new_id request s s')
          s
          (purchase new_id user.id screening_id seat_name s.db)
  unfolding purchase find_seats find_screenings
  purchase-IsAtomic h =
      Atomically-known _ _ _ s
        (only_row-IsCheck (find_seats screening_id seat_name s.db) "Invalid seat")
        λ seat seated.
          Atomically-row _ (find_screenings screening_id s.db) "Invalid screening id"
            (λ screening.
              sell new_id user.id screening seat s.db
              >> (reload_user_info >> succeed "Ticket bought"))
            s
            λ screening found.
              Atomically-bind _ (sell new_id user.id screening seat s.db) _ s
                (sell-Undone new_id user.id screening seat s.db s)
                λ _ s' e.
                  let sold = sell-Sold new_id user.id screening seat s.db s s' e in
                  reload-IsAtomic _ "Ticket bought" s s' user
                    (ap (λ x. x.session.user) sold.committed ∙ logged_in)
                    (sell-UniqueUsers new_id user.id screening seat s.db s s' h e)
                    (Sold-SoldOne new_id request s user id_text seat_name screening_id logged_in
                      id_given id_read seat_given screening seat s' found
                      (only_row-next (find_seats screening_id seat_name s.db) "Invalid seat" s s
                        seat seated)
                      sold)

-- `buy_ticket` in a database whose users have different ids, whatever the request is: it replies
-- with success, and has sold to the user of the session the seat that the request names, of the
-- screening that it names: just his balance, the holder of the seat, and the box office and the
-- spectators of the movie have changed, his ticket is added, and the session has his row as it is
-- now, with a balance that is not negative; or the database and the session are what they were,
-- whatever it refuses or throws.
pub buy_ticket-IsAtomic :
    (new_id : ℕ) (request : Request) (s : State)
    → UniqueUsers s.db
    → Atomically (λ s'. SoldOne new_id request s s') s (buy_ticket new_id request)
unfolding buy_ticket
buy_ticket-IsAtomic new_id request s h =
    Atomically-check _ _ _ s (throw_if-IsCheck (not request.is_post) url_not_found) λ _.
      Atomically-check _ _ _ s get_session-IsCheck λ session.
        Atomically-check _ _ _ s (refuse_if-IsCheck (not (is_some session.user)) "Not logged in")
          λ _. Atomically-known _ _ _ s session_user-IsCheck λ user logged_in.
            Atomically-known _ _ _ s
              (or_throw-IsCheck (string_param request.params (codes "screening_id")) bad_value)
              λ id_text id_given.
                Atomically-known _ _ _ s (or_throw-IsCheck (stoi (c_str id_text)) bad_number)
                  λ screening_id id_read.
                    Atomically-known _ _ _ s
                      (or_throw-IsCheck (string_param request.params (codes "seat")) bad_value)
                      λ seat_name seat_given.
                        Atomically-begin _ (λ d. purchase new_id user.id screening_id seat_name d) s
                          (purchase-IsAtomic new_id request s user id_text seat_name screening_id
                            (session_user-next s s user logged_in)
                            (or_throw-next _ bad_value s s id_text id_given)
                            (or_throw-next _ bad_number s s screening_id id_read)
                            (or_throw-next _ bad_value s s seat_name seat_given) h)

refund-IsAtomic :
    (ticket_id : ℕ) (user : User) (s : State)
    → s.session.user ≡ some user
    → UniqueUsers s.db
    → Atomically (λ s'. RefundedOne ticket_id user.id s s') s (refund ticket_id user.id s.db)
unfolding refund
refund-IsAtomic ticket_id user s logged_in h =
    Atomically-check _ _ _ s
      (throw_if-IsCheck (not (fits_integer (pos ticket_id))) (db_error integer_out_of_range))
      λ _.
        Atomically-row _ (find_tickets ticket_id s.db) "Invalid ticket id" checks s λ ticket found.
          Atomically-refuse_if _ (not (ticket.user_id == user.id)) "You do not own this ticket"
            (rest ticket) s
            λ owned.
              Atomically-refuse_if _ ticket.refunded "This ticket has already been refunded"
                (pay ticket) s
                λ open_yet.
                  Atomically-bind _ (give_back user.id ticket s.db) _ s
                    (give_back-Undone user.id ticket s.db s)
                    λ _ s' e.
                      let refunded = give_back-Refunded user.id ticket s.db s s' e in
                      reload-IsAtomic _ "Ticket refunded" s s' user
                        (ap (λ x. x.session.user) refunded.committed ∙ logged_in)
                        (give_back-UniqueUsers user.id ticket s.db s s' h e)
                        (Refunded-RefundedOne ticket_id user ticket s s' found
                          (ground (arith, owned)) open_yet refunded)
  where
    pay : Ticket → Handler (Unit {0})
    pay ticket = give_back user.id ticket s.db >> (reload_user_info >> succeed "Ticket refunded")

    rest : Ticket → Handler (Unit {0})
    rest ticket = refuse_if ticket.refunded "This ticket has already been refunded" >> pay ticket

    checks : Ticket → Handler (Unit {0})
    checks ticket =
        refuse_if (not (ticket.user_id == user.id)) "You do not own this ticket" >> rest ticket

-- A request with POST by a session with a user comes to the refund itself.
pub refund_ticket-refund :
    (ticket_id : ℕ) (request : Request) (s : State) (u : User)
    → request.is_post ≡ true
    → s.session.user ≡ some u
    → refund_ticket ticket_id request s ≡ refund ticket_id u.id s.db s
unfolding refund_ticket
refund_ticket-refund ticket_id request s u post e = ground (arith, post, e)

refund_ticket-get :
    (ticket_id : ℕ) (request : Request) (s : State)
    → request.is_post ≡ false
    → refund_ticket ticket_id request s ≡ (throws url_not_found, s)
unfolding refund_ticket
refund_ticket-get ticket_id request s get = rw (get) refl

-- `refund_ticket` in a database whose users have different ids, by a session whose user is `u`: it
-- replies with success, and has paid back the ticket with the given id, which is of that user and was
-- not refunded before: it is marked as refunded, its price goes from the box office of the movie to
-- the balance of the user, its seat is free, nothing else of the database changes, and the session
-- has the row of the user as it is now, where the database has one; or the database and the session
-- are what they were, whatever it refuses or throws.
pub refund_ticket-IsAtomic :
    (ticket_id : ℕ) (request : Request) (s : State) (u : User)
    → s.session.user ≡ some u
    → UniqueUsers s.db
    → Atomically (λ s'. RefundedOne ticket_id u.id s s') s (refund_ticket ticket_id request)
unfolding refund_ticket Atomically
refund_ticket-IsAtomic ticket_id request s u e h =
    let at =
      λ (r : Flow (Unit {0}) × State). IsAtomic (λ s'. RefundedOne ticket_id u.id s s') s r in
    elim (Bool-cases request.is_post) [
      | inl post ↦
          subst at (sym (refund_ticket-refund ticket_id request s u post e)) (
            Atomically-IsAtomic _ (refund ticket_id u.id s.db) s
              (refund-IsAtomic ticket_id u s e h))
      | inr get ↦ subst at (sym (refund_ticket-get ticket_id request s get)) refl
    ]
