-- ===== src/WebApp/Tests.antt =====
-- Runs of the handlers, and the theorems of `WebApp` at concrete values.
use movie_dbproject.WebApp.Screenings.Scheduled.{ScheduledFor}
use movie_dbproject.WebApp.Tickets.Outcomes.{SoldOne, RefundedOne}
use movie_dbproject.Prelude.{
  none, ℕ, Bool, ◌≡◌, refl, true, false, some, [], ◌∷◌, arith, select, ◌++◌,
}
use movie_dbproject.WebApp.Users.Accounts.{
  user_register-Allowed, Registered, LoggedIn, user_register-Registered, user_login-LoggedIn,
}
use movie_dbproject.WebApp.Samples.{ada, bob, cinema, at_cinema}
use movie_dbproject.Prelude.Bytes.{codes, same, Bytes}
use movie_dbproject.Prelude.Int.{◌+ℤ◌, ◌-ℤ◌, pos}
use movie_dbproject.Prelude.Dict.{lookup}
use movie_dbproject.Bserv.Database.Query.{json_string}
use movie_dbproject.WebApp.Db.{User, is_id, millionths, update_where, all_rows, any_row}
use movie_dbproject.WebApp.Flow.{State, Request, Reply, text, returns}
use movie_dbproject.WebApp.Permissions.{initial_roles, check_permission, get_permission_for_session}
use movie_dbproject.WebApp.Permissions.Roles.{check_permission-get_permission_for_session}
use movie_dbproject.WebApp.Fields.{string_param, stoi, c_str}
use movie_dbproject.WebApp.Tickets.{
  buy_ticket, refund_ticket, find_screenings, find_seats, purchase, sell, add_balance,
  insert_ticket, set_holder, add_box_office, fits, reload_user_info, get_user_by_id,
}
use movie_dbproject.WebApp.Tickets.Committed.{UniqueUsers}
use movie_dbproject.WebApp.Flow.Ending.{Atomically}
use movie_dbproject.WebApp.Tickets.Atomic.{buy_ticket-IsAtomic, refund_ticket-IsAtomic}
use movie_dbproject.WebApp.Permissions.Guard.{Allowed}
use movie_dbproject.WebApp.Comments.{add_comment}
use movie_dbproject.WebApp.Comments.Added.{CommentedFor, add_comment-Commented}
use movie_dbproject.WebApp.Screenings.{may, form_add_screening}
use movie_dbproject.WebApp.Screenings.Seats.{form_add_screening-Scheduled}
use movie_dbproject.WebApp.Movies.{movie_register, review}
use movie_dbproject.WebApp.Movies.Changes.{
  AddedMovie, Reviewed, movie_register-AddedMovie, review-Reviewed,
}
use movie_dbproject.WebApp.Users.{user_register, user_login}
use movie_dbproject.WebApp.Tickets.Money.{
  money, ShowsMovies, HasUser, buy_ticket-money, refund_ticket-money,
}

abbrev order : Request
order = record {
  is_post = true;
  params =
      (codes "screening_id", json_string (codes "3"))
      ∷ (codes "seat", json_string (codes "A1"))
      ∷ [];
}

abbrev bought : Reply
bought = record { success = true; message = text "Ticket bought"; movie_id = none }

-- A seat that bob holds is sold to ada as well.
seat_sold_again : (buy_ticket 7 order at_cinema).0 ≡ returns bought
unfolding buy_ticket string_param stoi c_str purchase find_seats find_screenings sell add_balance
    insert_ticket set_holder add_box_office fits reload_user_info get_user_by_id same lookup select
    update_where all_rows any_row is_id millionths ◌+ℤ◌ ◌-ℤ◌
seat_sold_again = refl

cinema-UniqueUsers : UniqueUsers cinema
unfolding select
cinema-UniqueUsers i = ground arith

cinema-ShowsMovies : ShowsMovies cinema
unfolding find_screenings select
cinema-ShowsMovies n c e = ground (arith, e)

check_permission-get_permission_for_session_example :
    check_permission
      (get_permission_for_session initial_roles (record { user = some ada })).1
      (codes "user")
      (codes "modify_movie")
    ≡ check_permission initial_roles (codes "user") (codes "modify_movie")
check_permission-get_permission_for_session_example =
    check_permission-get_permission_for_session initial_roles (record { user = some ada })
      (codes "user") (codes "modify_movie")

buy_ticket-IsAtomic_example :
    Atomically (λ s'. SoldOne 7 order at_cinema s') at_cinema (buy_ticket 7 order)
buy_ticket-IsAtomic_example = buy_ticket-IsAtomic 7 order at_cinema cinema-UniqueUsers

refund_ticket-IsAtomic_example :
    Atomically (λ s'. RefundedOne 6 1 at_cinema s') at_cinema (refund_ticket 6 order)
refund_ticket-IsAtomic_example =
    refund_ticket-IsAtomic 6 order at_cinema ada refl cinema-UniqueUsers

buy_ticket-money_example : money (buy_ticket 7 order at_cinema).1.db ≡ money cinema
buy_ticket-money_example = buy_ticket-money 7 order at_cinema cinema-UniqueUsers cinema-ShowsMovies

ada-HasUser : HasUser 1 cinema
unfolding select
ada-HasUser = refl

refund_ticket-money_example : money (refund_ticket 6 order at_cinema).1.db ≡ money cinema
refund_ticket-money_example =
    refund_ticket-money 6 order at_cinema ada refl ada-HasUser cinema-UniqueUsers cinema-ShowsMovies

abbrev boss : User
boss = record {
  id = 3;
  username = codes "eve";
  password = codes "s$hhqex";
  is_superuser = false;
  first_name = [];
  last_name = [];
  email = [];
  is_active = true;
  roal = codes "admin";
  balance = pos 0;
}

-- The administrator at work in the cinema.
abbrev at_office : State
at_office = record {
  db = record cinema { users = ada ∷ bob ∷ boss ∷ []; theaters = 1 ∷ [] };
  session = record { user = some boss };
}

abbrev form : Request
form = record {
  is_post = true;
  params =
      (codes "username", json_string (codes "joe"))
      ∷ (codes "password", json_string (codes "pw"))
      ∷ (codes "room_name", json_string (codes "Hall"))
      ∷ (codes "theater_id", json_string (codes "1"))
      ∷ (codes "moviename", json_string (codes "New"))
      ∷ (codes "movie_id", json_string (codes "4"))
      ∷ [];
}

-- The hash of these runs puts the salt in front of the password.
abbrev salted : Bytes → Bytes → ℕ → Bytes
salted password salt n = salt ++ password

abbrev plain_text : Bytes → Bytes
plain_text s = s

abbrev any_length : Bytes → Bool
any_length s = true

movie_register-AddedMovie_example :
    Atomically
      (λ s'.
        Allowed initial_roles (codes "modify_movie") at_office × AddedMovie 9 form at_office s')
      at_office
      (movie_register any_length initial_roles 9 form)
movie_register-AddedMovie_example =
    movie_register-AddedMovie any_length initial_roles 9 form at_office

review-Reviewed_example :
    Atomically
      (λ s'. Allowed initial_roles (codes "review_movie") at_office × Reviewed form at_office s')
      at_office
      (review initial_roles form)
review-Reviewed_example = review-Reviewed initial_roles form at_office

user_register-Registered_example :
    Atomically
      (λ s'. Registered true 9 at_cinema s')
      at_cinema
      (user_register any_length salted plain_text initial_roles (λ i. 0) 9 true form)
user_register-Registered_example =
    user_register-Registered any_length salted plain_text initial_roles (λ i. 0) 9 form at_cinema

user_register-Allowed_example :
    Atomically
      (λ s'.
        Allowed initial_roles (codes "modify_user") at_office × Registered false 9 at_office s')
      at_office
      (user_register any_length salted plain_text initial_roles (λ i. 0) 9 false form)
user_register-Allowed_example =
    user_register-Allowed any_length salted plain_text initial_roles (λ i. 0) 9 form at_office

user_login-LoggedIn_example :
    Atomically
      (λ s'. LoggedIn salted plain_text form at_cinema s')
      at_cinema
      (user_login salted plain_text form)
user_login-LoggedIn_example = user_login-LoggedIn salted plain_text form at_cinema

abbrev opinion : Request
opinion = record {
  is_post = true;
  params =
      (codes "rating", json_string (codes "4"))
      ∷ (codes "content", json_string (codes "good"))
      ∷ [];
}

add_comment-Commented_example :
    Atomically
      (λ s'.
        Allowed initial_roles (codes "add_comment") at_cinema
        × CommentedFor 9 (codes "4") opinion at_cinema s')
      at_cinema
      (add_comment any_length initial_roles 9 (codes "4") opinion)
add_comment-Commented_example =
    add_comment-Commented any_length initial_roles 9 (codes "4") opinion at_cinema

abbrev plan : Request
plan = record {
  is_post = true;
  params =
      (codes "room_id", json_string (codes "1"))
      ∷ (codes "time", json_string (codes "20:00"))
      ∷ (codes "price", json_string (codes "30"))
      ∷ (codes "date", json_string (codes "1"))
      ∷ [];
}

form_add_screening-Scheduled_example :
    Atomically
      (λ s'.
        (may initial_roles (codes "modify_movie") at_office.session ≡ true)
        × ScheduledFor 9 (codes "4") plan at_office s')
      at_office
      (form_add_screening any_length initial_roles 9 20 (codes "4") plan)
form_add_screening-Scheduled_example =
    form_add_screening-Scheduled any_length initial_roles 9 20 (codes "4") plan at_office
