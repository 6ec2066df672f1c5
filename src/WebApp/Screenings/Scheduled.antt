-- ===== src/WebApp/Screenings/Scheduled.antt =====
-- What the statements that add a screening leave, told of the tables.
use movie_dbproject.Prelude.{
  sym, ◌∙◌, ℕ, zero, suc, ◌≡◌, refl, ap, Bool, true, List, [], ◌∷◌, ◌++◌, arith, select, length,
  All, none, some, inl, ◌==◌,
}
use movie_dbproject.Prelude.Bytes.{Bytes, codes}
use movie_dbproject.Prelude.Int.{ℤ, pos, pos_part}
use movie_dbproject.WebApp.Db.Rows.{select_holds, any_row-Any, Any-some, is_id-pos}
use movie_dbproject.WebApp.Db.{
  Movie, any_row, Room, Screening, Seat, Db, Executed, rows, fails, is_id,
}
use movie_dbproject.WebApp.Flow.{State, Handler, Request, ◌>>=◌, ◌>>◌, succeed, commit}
use movie_dbproject.WebApp.Flow.Ending.{Atomically}
use movie_dbproject.WebApp.Fields.{stoi, get_or_empty}
use movie_dbproject.WebApp.Screenings.{
  seats_from, executed_rethrown, only_room, insert_screening, schedule,
}

-- A screening is added in a room for a movie, with one seat for each place of this room, and all
-- its seats are free.
pub record Scheduled (new_id : ℕ) (room_id movie_id : ℤ) (time : Bytes) (price : ℤ) (date : Bytes)
    (s s' : State) : Type 0 where
  pub screening : Screening
  pub room : Room
  pub seats : List Seat
  pub numbered : screening.screening_id ≡ new_id
  pub in_room : pos screening.room_id ≡ room_id
  pub of_movie : pos screening.movie_id ≡ movie_id
  pub at_time : screening.time ≡ time
  pub for_price : screening.price ≡ price
  pub on_date : screening.showing_date ≡ date
  pub same_room : room.room_id ≡ screening.room_id
  pub found : select (λ (r : Room). screening.room_id == r.room_id) s.db.rooms ≡ room ∷ []
  pub counted : length seats ≡ pos_part room.capacity
  pub free : All (λ (c : Seat). (c.user_id ≡ none) × (c.screening_id ≡ new_id)) seats
  pub after : s' ≡ record s {
    db = record s.db {
      screenings = s.db.screenings ++ screening ∷ [];
      seats = s.db.seats ++ seats;
    };
  }

-- The screening is the one that the path and the fields of the request describe.
pub record ScheduledFor (new_id : ℕ) (movie_id : Bytes) (request : Request) (s s' : State)
    : Type 0 where
  pub room_text : Bytes
  pub price_text : Bytes
  pub time : Bytes
  pub date : Bytes
  pub room_id : ℤ
  pub mov_id : ℤ
  pub price : ℤ
  pub room_field : get_or_empty request.params (codes "room_id") ≡ some room_text
  pub price_field : get_or_empty request.params (codes "price") ≡ some price_text
  pub time_field : get_or_empty request.params (codes "time") ≡ some time
  pub date_field : get_or_empty request.params (codes "date") ≡ some date
  pub room_read : stoi room_text ≡ some room_id
  pub movie_read : stoi movie_id ≡ some mov_id
  pub price_read : stoi price_text ≡ some price
  pub scheduled : Scheduled new_id room_id mov_id time price date s s'

length-seats_from : (f i j n : ℕ) → length (seats_from f i j n) ≡ n
unfolding seats_from
length-seats_from f i j zero = refl
length-seats_from f i j (suc n) = ap suc (length-seats_from f i (suc j) n)

seats_from-free :
    (f i j n : ℕ)
    → All (λ (c : Seat). (c.user_id ≡ none) × (c.screening_id ≡ i)) (seats_from f i j n)
unfolding seats_from
seats_from-free f i j zero = tt
seats_from-free f i j (suc n) = ((refl, refl), seats_from-free f i (suc j) n)

insert_screening-rows :
    (fits : Bytes → Bool) (new_id : ℕ) (room_id mov_id : ℤ) (time : Bytes) (price : ℤ)
    (date : Bytes) (d d' : Db)
    → insert_screening fits new_id room_id mov_id time price date d ≡ rows d'
    → d' ≡ record d {
      screenings =
          d.screenings
          ++ record {
            screening_id = new_id;
            room_id = pos_part room_id;
            movie_id = pos_part mov_id;
            time = time;
            price = price;
            showing_date = date;
          }
            ∷ [];
    }
unfolding insert_screening
insert_screening-rows fits new_id room_id mov_id time price date d d' e = ground (arith, e)

-- A screening that is inserted has a movie.
insert_screening-movie :
    (fits : Bytes → Bool) (new_id : ℕ) (room_id mov_id : ℤ) (time : Bytes) (price : ℤ)
    (date : Bytes) (d d' : Db)
    → insert_screening fits new_id room_id mov_id time price date d ≡ rows d'
    → pos (pos_part mov_id) ≡ mov_id
unfolding insert_screening
insert_screening-movie fits new_id room_id mov_id time price date d d' e =
    let there : any_row (λ (m : Movie). is_id mov_id m.movie_id) d.movies ≡ true =
      ground (arith, e) in
    let (m, same_id) =
      Any-some _ d.movies (any_row-Any (λ (m : Movie). is_id mov_id m.movie_id) d.movies there) in
    let it = is_id-pos mov_id m.movie_id same_id in ground (arith, it)

pub schedule-Scheduled :
    (fits : Bytes → Bool) (new_id first_seat : ℕ) (room_id mov_id : ℤ) (time : Bytes) (price : ℤ)
    (date : Bytes) (s : State)
    → Atomically
        (λ s'. Scheduled new_id room_id mov_id time price date s s')
        s
        (schedule fits new_id first_seat room_id mov_id time price date s.db)
unfolding schedule Atomically is_id
schedule-Scheduled fits new_id first_seat room_id mov_id time price date s =
    go (insert_screening fits new_id room_id mov_id time price date s.db) (λ d e. (
      insert_screening-rows fits new_id room_id mov_id time price date s.db d e,
      insert_screening-movie fits new_id room_id mov_id time price date s.db d e,
    ))
  where
    rest : Db → Room → Handler (Unit {0})
    rest d room =
        commit
          (record d { seats = d.seats ++ seats_from first_seat new_id 0 (pos_part room.capacity) })
        >> succeed "manage_movie_page"

    row : Screening
    row = record {
      screening_id = new_id;
      room_id = pos_part room_id;
      movie_id = pos_part mov_id;
      time = time;
      price = price;
      showing_date = date;
    }

    behind : Db
    behind = record s.db { screenings = s.db.screenings ++ row ∷ [] }

    at_rooms :
        (d : Db)
        → d ≡ behind
        → pos (pos_part mov_id) ≡ mov_id
        → (l : List Room) → select (λ (r : Room). is_id room_id r.room_id) d.rooms ≡ l
        → Atomically
            (λ s'. Scheduled new_id room_id mov_id time price date s s')
            s
            (only_room l >>= rest d)
    at_rooms d e shown [] f = refl
    at_rooms d e shown (x ∷ y ∷ l) f = refl
    at_rooms d e shown (room ∷ []) f =
        let found = ap (λ x. select (λ (r : Room). is_id room_id r.room_id) x.rooms) (sym e) ∙ f in
        let held =
          is_id-pos room_id room.room_id
            (select_holds (λ (r : Room). is_id room_id r.room_id) s.db.rooms room [] found) in
        inl (
          refl,
          record {
            screening = row;
            room = room;
            seats = seats_from first_seat new_id 0 (pos_part room.capacity);
            numbered = refl;
            in_room = ground (arith, held);
            of_movie = shown;
            at_time = refl;
            for_price = refl;
            on_date = refl;
            same_room = ap pos_part held;
            found =
                ap (λ x. select (λ (r : Room). is_id x r.room_id) s.db.rooms)
                  (ap (λ x. pos (pos_part x)) (sym held) ∙ held)
                ∙ found;
            counted = length-seats_from first_seat new_id 0 (pos_part room.capacity);
            free = seats_from-free first_seat new_id 0 (pos_part room.capacity);
            after =
                ap
                  (λ x. record s {
                    db = record x {
                      seats = x.seats ++ seats_from first_seat new_id 0 (pos_part room.capacity);
                    };
                  })
                  e;
          },
        )

    go :
        (r : Executed Db)
        → ((d : Db) → r ≡ rows d → (d ≡ behind) × (pos (pos_part mov_id) ≡ mov_id))
        → Atomically
            (λ s'. Scheduled new_id room_id mov_id time price date s s')
            s
            (executed_rethrown r >>= λ d.
              only_room (select (λ (r : Room). is_id room_id r.room_id) d.rooms) >>= rest d)
    go (fails e) h = refl
    go (rows d) h =
        at_rooms d (h d refl).0 (h d refl).1
          (select (λ (r : Room). is_id room_id r.room_id) d.rooms) refl
