-- ===== src/WebApp/Views/Details.antt =====
-- WebApp/comments.cpp, movie_manage.cpp and tickets.cpp: the pages of one movie. `integer_of` is the
-- database's reading of a text as an integer, `none` where it refuses.
use movie_dbproject.Prelude.{
  ℕ, Bool, not, ◌&&◌, Option, none, some, List, [], ◌∷◌, ◌++◌, ◌==◌, if◌then◌else◌, select, map,
  is_some,
}
use movie_dbproject.Prelude.Bytes.{Bytes, codes, same}
use movie_dbproject.Prelude.Int.{ℤ}
use movie_dbproject.Bserv.Utils.Params.{is_empty}
use movie_dbproject.WebApp.Db.{Movie, Room, Screening, Seat, Comment, Db, invalid_text, is_id}
use movie_dbproject.WebApp.Flow.{
  Request, Reply, Handler, runtime_error, db_error, ◌>>=◌, ◌>>◌, pure, throw, throw_if, or_throw,
  begin, get_session,
}
use movie_dbproject.WebApp.Fields.{stoi, text_field, number_field, array_contains}
use movie_dbproject.WebApp.Permissions.{Roles, check_logged_in}
use movie_dbproject.WebApp.Views.{Page, index, require}

-- The `try` in which a page looks up its movie.
unfoldable pub movie_or_invalid : Bytes → Handler Movie
unfolding is_id stoi
movie_or_invalid movie_id = elim (stoi movie_id) [
  | none ↦ throw (runtime_error "Invalid movie id")
  | some mov_id ↦ do
    d ← begin
    elim (select (λ (m : Movie). is_id mov_id m.movie_id) d.movies) [
      | [] ↦ throw (runtime_error "Invalid movie id")
      | m ∷ more ↦ if is_empty more then pure m else throw (runtime_error "Invalid movie id")
    ]
]

-- What a loop over the screenings collects: the dates, the times on the date that is selected, and
-- the screening that is selected.
pub record Choice : Type 0 where
  pub dates : List Bytes
  pub times : List Bytes
  pub chosen : Option Screening

-- `if (!array_contains(arr, s)) arr.push_back(s);`
unfoldable pub push_new : List Bytes → Bytes → List Bytes
unfolding array_contains
push_new arr s = if array_contains arr s then arr else arr ++ s ∷ []

-- One round of that loop.
unfoldable pub consider : Bytes → Bytes → Screening → Choice → Choice
unfolding push_new
consider selected_date selected_time screening c = record c {
  dates = push_new c.dates screening.showing_date;
  times =
      if same screening.showing_date selected_date
      then push_new c.times screening.time
      else c.times;
  chosen =
      if same screening.showing_date selected_date && same screening.time selected_time
      then some screening
      else c.chosen;
}

unfoldable pub consider_all : Bytes → Bytes → List Screening → Choice → Choice
unfolding consider
consider_all selected_date selected_time [] c = c
consider_all selected_date selected_time (screening ∷ screenings) c =
    consider_all selected_date selected_time screenings
      (consider selected_date selected_time screening c)

-- `select * from seats where seats.screening_id = ? and seats.user_id is NULL`
unfoldable pub free_seats : ℕ → Db → List Seat
free_seats screening_id d =
    select (λ (c : Seat). c.screening_id == screening_id && not (is_some c.user_id)) d.seats

-- The seats that the page offers, behind an empty text.
unfoldable pub offered : Option Screening → Db → List Bytes
unfolding free_seats
offered none d = [] ∷ []
offered (some screening) d =
    [] ∷ map (λ (c : Seat). c.seat_name) (free_seats screening.screening_id d)

-- The room of the number -1 and the empty name stands as `none`.
pub record TicketPage : Type 0 where
  pub movie : Movie
  pub rooms : List (Option Room)
  pub choice : Choice
  pub selected_time : Bytes
  pub selected_date : Bytes
  pub selected_seat : Bytes
  pub selected_roomid : ℤ
  pub seats : List Bytes
  pub allow_submit : Bool

pub record CommentsPage : Type 0 where
  pub movie : Movie
  pub comments : List Comment

pub record ScreeningsPage : Type 0 where
  pub movie : Movie
  pub screenings : List Screening
  pub rooms : List Room

module _ (integer_of : Bytes → Option ℤ) where
  -- A text that a statement compares with an integer.
  unfoldable pub as_integer : Bytes → Handler ℤ
  as_integer s = or_throw (integer_of s) (db_error invalid_text)

  unfoldable pub redirect_to_comments : Roles → Bytes → Option Reply → Handler (Page CommentsPage)
  unfolding movie_or_invalid as_integer index
  redirect_to_comments roles movie_id reply = do
    movie ← movie_or_invalid movie_id
    d ← begin
    id ← as_integer movie_id
    index roles reply (record {
      movie = movie;
      comments = select (λ (c : Comment). is_id id c.movie_id) d.comments;
    })

  unfoldable pub view_comments : Roles → Bytes → Handler (Page CommentsPage)
  unfolding redirect_to_comments
  view_comments roles movie_id = redirect_to_comments roles movie_id none

  unfoldable pub manage_movie_page : Roles → Bytes → Handler (Page ScreeningsPage)
  unfolding require movie_or_invalid as_integer index
  manage_movie_page roles movie_id = do
    require roles (codes "modify_movie")
    movie ← movie_or_invalid movie_id
    d ← begin
    id ← as_integer movie_id
    index roles none (record {
      movie = movie;
      screenings = select (λ (c : Screening). is_id id c.movie_id) d.screenings;
      rooms = d.rooms;
    })

  unfoldable pub buy_ticket_page : Roles → Bytes → Request → Handler (Page TicketPage)
  unfolding movie_or_invalid as_integer consider_all offered index check_logged_in
  buy_ticket_page roles movie_id request = do
    session ← get_session
    throw_if (not (check_logged_in session)) (runtime_error "Not logged in")
    movie ← movie_or_invalid movie_id
    selected_date ← text_field request (codes "date")
    selected_time ← text_field request (codes "time")
    selected_seat ← text_field request (codes "seat")
    room_id ← number_field request (codes "roomid")
    d ← begin
    id ← as_integer movie_id
    let choice =
        consider_all selected_date selected_time
          (select (λ (c : Screening). is_id id c.movie_id && is_id room_id c.room_id) d.screenings)
          (record { dates = [] ∷ []; times = [] ∷ []; chosen = none })
    index roles none (record {
      movie = movie;
      rooms = none ∷ map some d.rooms;
      choice = choice;
      selected_time = selected_time;
      selected_date = selected_date;
      selected_seat = selected_seat;
      selected_roomid = room_id;
      seats = offered choice.chosen d;
      allow_submit = is_some choice.chosen && not (is_empty selected_seat);
    })
