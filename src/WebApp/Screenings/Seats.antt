-- ===== src/WebApp/Screenings/Seats.antt =====
-- What adding a screening leaves.
use movie_dbproject.WebApp.Screenings.Scheduled.{Scheduled, ScheduledFor, schedule-Scheduled}
use movie_dbproject.Prelude.{ℕ, ◌≡◌, Bool, true, not, arith}
use movie_dbproject.Prelude.Bytes.{Bytes, codes}
use movie_dbproject.Bserv.Utils.Params.{is_empty}
use movie_dbproject.WebApp.Db.{Db}
use movie_dbproject.WebApp.Flow.{
  State, Handler, Request, ◌>>=◌, url_not_found, bad_number, runtime_error, rethrown, or_throw,
}
use movie_dbproject.WebApp.Flow.Ending.{
  Atomically, Atomically-check, Atomically-known, or_throw-next, Atomically-begin, throw_if-IsCheck,
  or_throw-IsCheck, Atomically-mono, Atomically-session_throw_if,
}
use movie_dbproject.WebApp.Fields.{stoi}
use movie_dbproject.WebApp.Fields.Checks.{text_field-IsCheck, text_field-next}
use movie_dbproject.WebApp.Permissions.{Roles}
use movie_dbproject.WebApp.Screenings.{may, schedule, form_add_screening}

-- `form_add_screening`, whatever the request is: the session's role has the permission
-- `modify_movie`, and a screening with the room, time, price and date of the request and the movie of
-- the path is added, with as many seats as this room has places, all of them free; or the database
-- and the session are as they were.
pub form_add_screening-Scheduled :
    (fits : Bytes → Bool) (roles : Roles) (new_id first_seat : ℕ) (movie_id : Bytes)
    (request : Request) (s : State)
    → Atomically
        (λ s'.
          (may roles (codes "modify_movie") s.session ≡ true)
          × ScheduledFor new_id movie_id request s s')
        s
        (form_add_screening fits roles new_id first_seat movie_id request)
unfolding form_add_screening
form_add_screening-Scheduled fits roles new_id first_seat movie_id request s =
    Atomically-check _ _ _ s (throw_if-IsCheck (not request.is_post) url_not_found) λ _.
      Atomically-session_throw_if _ (λ session. not (may roles (codes "modify_movie") session))
        (runtime_error "Permission denied") _ s
        λ allowed.
          Atomically-known _ _ _ s (text_field-IsCheck request (codes "room_id"))
            λ room_text room_id_known.
              Atomically-check _ _ _ s
                (throw_if-IsCheck (is_empty room_text) (runtime_error "Invalid parameters"))
                λ _.
                  Atomically-known _ _ _ s (text_field-IsCheck request (codes "time"))
                    λ time time_known.
                      Atomically-check _ _ _ s
                        (throw_if-IsCheck (is_empty time) (runtime_error "Invalid parameters"))
                        λ _.
                          Atomically-known _ _ _ s (text_field-IsCheck request (codes "price"))
                            λ price_text price_known.
                              Atomically-check _ _ _ s
                                (throw_if-IsCheck (is_empty price_text)
                                  (runtime_error "Invalid parameters"))
                                λ _.
                                  Atomically-known _ _ _ s
                                    (text_field-IsCheck request (codes "date"))
                                    λ date date_known.
                                      Atomically-check _ _ _ s
                                        (throw_if-IsCheck (is_empty date)
                                          (runtime_error "Invalid parameters"))
                                        λ _.
                                          Atomically-begin _
                                            (insertion room_text time price_text date) s
                                            (Atomically-known _ _ _ s
                                              (or_throw-IsCheck (stoi room_text)
                                                (rethrown bad_number))
                                              λ room_id room_read.
                                                Atomically-known _ _ _ s
                                                  (or_throw-IsCheck (stoi movie_id)
                                                    (rethrown bad_number))
                                                  λ mov_id movie_read.
                                                    Atomically-known _ _ _ s
                                                      (or_throw-IsCheck (stoi price_text)
                                                        (rethrown bad_number))
                                                      λ price price_read.
                                                        Atomically-mono
                                                          (λ s'.
                                                            Scheduled new_id room_id mov_id time
                                                            price date s s')
                                                          _ _ s
                                                          (λ s' h. (
                                                            ground (arith, allowed),
                                                            record {
                                                            room_text = room_text;
                                                            price_text = price_text;
                                                            time = time;
                                                            date = date;
                                                            room_id = room_id;
                                                            mov_id = mov_id;
                                                            price = price;
                                                            room_field =
                                                            text_field-next request
                                                            (codes "room_id") s s room_text
                                                            room_id_known;
                                                            price_field =
                                                            text_field-next request (codes "price")
                                                            s s price_text price_known;
                                                            time_field =
                                                            text_field-next request (codes "time") s
                                                            s time time_known;
                                                            date_field =
                                                            text_field-next request (codes "date") s
                                                            s date date_known;
                                                            room_read =
                                                            or_throw-next (stoi room_text)
                                                            (rethrown bad_number) s s room_id
                                                            room_read;
                                                            movie_read =
                                                            or_throw-next (stoi movie_id)
                                                            (rethrown bad_number) s s mov_id
                                                            movie_read;
                                                            price_read =
                                                            or_throw-next (stoi price_text)
                                                            (rethrown bad_number) s s price
                                                            price_read;
                                                            scheduled = h;
                                                            },
                                                          ))
                                                          (schedule-Scheduled fits new_id first_seat
                                                            room_id mov_id time price date s))
  where
    insertion : Bytes → Bytes → Bytes → Bytes → Db → Handler (Unit {0})
    insertion room_text time price_text date d =
        or_throw (stoi room_text) (rethrown bad_number) >>= λ room_id.
        or_throw (stoi movie_id) (rethrown bad_number) >>= λ mov_id.
        or_throw (stoi price_text) (rethrown bad_number) >>= λ price.
        schedule fits new_id first_seat room_id mov_id time price date d
