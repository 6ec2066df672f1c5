-- ===== src/WebApp/Views/Forms.antt =====
-- The `form_…` functions of WebApp/: a handler, and the page that shows its reply. The numbers and
-- tests that a handler takes from outside are arguments here too.
use movie_dbproject.Prelude.{
  ℕ, Bool, true, false, not, ◌&&◌, Option, none, some, List, if◌then◌else◌, select,
}
use movie_dbproject.Prelude.Bytes.{Bytes, codes}
use movie_dbproject.Prelude.Int.{ℤ, pos, pos_part, ◌==ℤ◌}
use movie_dbproject.WebApp.Db.{
  User, Room, Screening, Db, Executed, rows, fails, foreign_key_violation, value_too_long,
  update_where, any_row, all_rows, is_id,
}
use movie_dbproject.WebApp.Flow.{
  Request, Reply, Handler, url_not_found, bad_number, bad_value, ◌>>=◌, ◌>>◌, pure, throw, throw_if,
  or_throw, executed, begin, commit,
}
use movie_dbproject.WebApp.Fields.{stoi, text_field, number_field, or_old, or_old_number}
use movie_dbproject.WebApp.Permissions.{Roles}
use movie_dbproject.WebApp.Tickets.{buy_ticket, refund_ticket, reload_user_info}
use movie_dbproject.WebApp.Users.{user_register, user_modify, user_login, user_logout, add_funds}
use movie_dbproject.WebApp.Rooms.{room_register, room_modify}
use movie_dbproject.WebApp.Movies.{movie_register, movie_modify, announcement_add, review}
use movie_dbproject.WebApp.Comments.{add_comment, modify_comment}
use movie_dbproject.WebApp.Views.{Page, ListPage, require, reply_of}
use movie_dbproject.WebApp.Views.Lists.{
  MoviesPage, redirect_to_users, redirect_to_rooms, redirect_to_movies,
}
use movie_dbproject.WebApp.Views.Details.{
  CommentsPage, ScreeningsPage, redirect_to_comments, manage_movie_page,
}
use movie_dbproject.Bserv.Database.Query.{to_string}
use movie_dbproject.WebApp.Views.MyCenter.{FullTicket, redirect_to_mycenter}

module _ (roles : Roles) where
  unfoldable pub form_buy_ticket : ℕ → Request → Handler (Page (List FullTicket))
  form_buy_ticket new_id request = do
    reply ← reply_of (buy_ticket new_id request)
    redirect_to_mycenter roles reply

  unfoldable pub form_refund_ticket : ℕ → Request → Handler (Page (List FullTicket))
  form_refund_ticket ticket_id request = do
    reply ← reply_of (refund_ticket ticket_id request)
    redirect_to_mycenter roles reply

  unfoldable pub form_add_funds : (Bytes → Option ℤ) → Request → Handler (Page (List FullTicket))
  form_add_funds stod request = do
    reply ← reply_of (add_funds stod request)
    reload_user_info
    redirect_to_mycenter roles reply

module _ (fits : Bytes → Bool) (roles : Roles) where
  unfoldable pub form_add_room : ℕ → Request → Handler (Page (ListPage Room))
  form_add_room new_id request = do
    reply ← reply_of (room_register fits roles new_id request)
    redirect_to_rooms roles (pos 1) reply

  unfoldable pub form_modify_room : Bytes → Request → Handler (Page (ListPage Room))
  form_modify_room room_id request = do
    rom_id ← or_throw (stoi room_id) bad_number
    reply ← reply_of (room_modify fits roles rom_id request)
    redirect_to_rooms roles (pos 1) reply

module _ (fits : Bytes → Bool) (like : Bytes → Bytes → Bool) (roles : Roles) where
  unfoldable pub form_add_movie : ℕ → Request → Handler (Page MoviesPage)
  form_add_movie new_id request = do
    reply ← reply_of (movie_register fits roles new_id request)
    redirect_to_movies like roles request (pos 1) reply

  unfoldable pub form_modify_movie : Bytes → Request → Handler (Page MoviesPage)
  form_modify_movie movie_id request = do
    mov_id ← or_throw (stoi movie_id) bad_number
    reply ← reply_of (movie_modify fits roles mov_id request)
    redirect_to_movies like roles request (pos 1) reply

  unfoldable pub form_modify_announcement : ℕ → Request → Handler (Page MoviesPage)
  form_modify_announcement new_id request = do
    reply ← reply_of (announcement_add fits roles new_id request)
    redirect_to_movies like roles request (pos 1) reply

module _ (like : Bytes → Bytes → Bool) (roles : Roles) where
  unfoldable pub form_review : Request → Handler (Page MoviesPage)
  form_review request = do
    reply ← reply_of (review roles request)
    redirect_to_movies like roles request (pos 1) reply

  unfoldable pub form_logout : Request → Handler (Page MoviesPage)
  form_logout request = do
    reply ← reply_of user_logout
    redirect_to_movies like roles request (pos 1) reply

module _ (fits : Bytes → Bool) (pbkdf2 : Bytes → Bytes → ℕ → Bytes) (base64 : Bytes → Bytes)
    (like : Bytes → Bytes → Bool) (roles : Roles) where
  unfoldable pub form_login : Request → Handler (Page MoviesPage)
  form_login request = do
    reply ← reply_of (user_login pbkdf2 base64 request)
    redirect_to_movies like roles request (pos 1) reply

  unfoldable pub form_register : (ℕ → ℕ) → ℕ → Request → Handler (Page MoviesPage)
  form_register draws new_id request = do
    reply ← reply_of (user_register fits pbkdf2 base64 roles draws new_id true request)
    redirect_to_movies like roles request (pos 1) reply

module _ (fits : Bytes → Bool) (pbkdf2 : Bytes → Bytes → ℕ → Bytes) (base64 : Bytes → Bytes)
    (roles : Roles) where
  unfoldable pub form_add_user : (ℕ → ℕ) → ℕ → Request → Handler (Page (ListPage User))
  form_add_user draws new_id request = do
    reply ← reply_of (user_register fits pbkdf2 base64 roles draws new_id false request)
    redirect_to_users roles (pos 1) reply

  -- The path gives digits, so the number is not negative.
  unfoldable pub form_modify_user : (ℕ → ℕ) → Bytes → Request → Handler (Page (ListPage User))
  form_modify_user draws user_id request = do
    usr_id ← or_throw (stoi user_id) bad_number
    reply ← reply_of (user_modify fits pbkdf2 base64 roles draws (pos_part usr_id) request)
    redirect_to_users roles (pos 1) reply

-- The columns of a screening that a request changes.
pub record ScreeningFields : Type 0 where
  pub room_id : ℤ
  pub time : Bytes
  pub price : ℤ
  pub showing_date : Bytes

-- The row that the update of `form_modify_screening` makes of a row.
abbrev pub changed_screening : ScreeningFields → Screening → Screening
changed_screening f c = record c {
  room_id = if f.room_id ==ℤ pos 0 then c.room_id else pos_part f.room_id;
  time = or_old f.time c.time;
  price = or_old_number f.price c.price;
  showing_date = or_old f.showing_date c.showing_date;
}

module _ (fits : Bytes → Bool) where
  -- `update screenings set … where screening_id = ?`; the columns and the foreign key are checked
  -- where a row is changed.
  unfoldable pub update_screening : ℤ → ScreeningFields → Db → Executed Db
  unfolding update_where all_rows any_row is_id
  update_screening screening_id f d =
      let changed =
        update_where (λ (c : Screening). is_id screening_id c.screening_id) (changed_screening f)
          d.screenings in
      let found = select (λ (c : Screening). is_id screening_id c.screening_id) changed in
      if not (all_rows (λ (c : Screening). fits c.time && fits c.showing_date) found)
      then fails value_too_long
      else if any_row (λ (c : Screening). not (f.room_id ==ℤ pos 0)) found
          && not (any_row (λ (r : Room). is_id f.room_id r.room_id) d.rooms)
      then fails foreign_key_violation
      else rows (record d { screenings = changed })

module _ (fits : Bytes → Bool) (integer_of : Bytes → Option ℤ) (roles : Roles) where
  abbrev pub screening_fields : Request → Handler ScreeningFields
  screening_fields request = do
    room_id ← number_field request (codes "room_id")
    time ← text_field request (codes "time")
    price ← number_field request (codes "price")
    showing_date ← text_field request (codes "date")
    pure (record { room_id = room_id; time = time; price = price; showing_date = showing_date })

  unfoldable pub form_modify_screening : Bytes → Request → Handler (Page ScreeningsPage)
  unfolding update_screening
  form_modify_screening screening_id request = do
    throw_if (not request.is_post) url_not_found
    require roles (codes "modify_movie")
    d ← begin
    f ← screening_fields request
    id ← or_throw (stoi screening_id) bad_number
    d ← executed (update_screening fits id f d)
    commit d
    movie_id ← text_field request (codes "movie_id")
    manage_movie_page integer_of roles movie_id

  unfoldable pub form_add_comment : ℕ → Bytes → Request → Handler (Page CommentsPage)
  form_add_comment new_id movie_id request = do
    reply ← reply_of (add_comment fits roles new_id movie_id request)
    redirect_to_comments integer_of roles movie_id reply

  -- `context["movie_id"].as_int64()`: without the key the value is null, which is no number.
  replied_movie : Option Reply → Handler ℕ
  replied_movie none = throw bad_value
  replied_movie (some reply) = or_throw reply.movie_id bad_value

  unfoldable pub form_modify_comment : Bytes → Request → Handler (Page CommentsPage)
  unfolding replied_movie
  form_modify_comment comment_id request = do
    reply ← reply_of (modify_comment fits roles comment_id request)
    movie_id ← replied_movie reply
    redirect_to_comments integer_of roles (to_string (pos movie_id)) reply
