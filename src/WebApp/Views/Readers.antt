-- ===== src/WebApp/Views/Readers.antt =====
-- The pages of WebApp/ only read; and how the form behind a change of a comment ends.
use movie_dbproject.Prelude.{
  Bool, true, false, ◌&&◌, ◌==◌, Option, none, some, [], ◌≡◌, arith, select,
}
use movie_dbproject.Prelude.Bytes.{Bytes, codes}
use movie_dbproject.Prelude.Int.{ℤ}
use movie_dbproject.WebApp.Db.{User, Comment, is_id}
use movie_dbproject.WebApp.Flow.{Request, Reply, text, State, Handler, returns, throws, bad_value}
use movie_dbproject.WebApp.Fields.{stoi}
use movie_dbproject.WebApp.Permissions.{Roles, check_permission, check_session_permission}
use movie_dbproject.WebApp.Comments.{modify_comment}
use movie_dbproject.WebApp.Views.Lists.{redirect_to_users, redirect_to_rooms, redirect_to_movies}
use movie_dbproject.WebApp.Views.Details.{redirect_to_comments, manage_movie_page, buy_ticket_page}
use movie_dbproject.WebApp.Views.MyCenter.{redirect_to_mycenter}
use movie_dbproject.WebApp.Views.Forms.{form_modify_comment}

-- A part of a handler that leaves the state alone.
abbrev Reads : {A : Type 0} → Handler A → Type 0
Reads m = (s : State) → (m s).1 ≡ s

users-Reads :
    (roles : Roles) (page_id : ℤ) (reply : Option Reply)
    → Reads (redirect_to_users roles page_id reply)
unfolding redirect_to_users
users-Reads roles page_id reply s = ground arith

rooms-Reads :
    (roles : Roles) (page_id : ℤ) (reply : Option Reply)
    → Reads (redirect_to_rooms roles page_id reply)
unfolding redirect_to_rooms
rooms-Reads roles page_id reply s = ground arith

movies-Reads :
    (like : Bytes → Bytes → Bool) (roles : Roles) (request : Request) (page_id : ℤ)
    (reply : Option Reply)
    → Reads (redirect_to_movies like roles request page_id reply)
unfolding redirect_to_movies
movies-Reads like roles request page_id reply s = ground arith

comments-Reads :
    (integer_of : Bytes → Option ℤ) (roles : Roles) (movie_id : Bytes) (reply : Option Reply)
    → Reads (redirect_to_comments integer_of roles movie_id reply)
unfolding redirect_to_comments
comments-Reads integer_of roles movie_id reply s = ground arith

mycenter-Reads : (roles : Roles) (reply : Option Reply) → Reads (redirect_to_mycenter roles reply)
unfolding redirect_to_mycenter
mycenter-Reads roles reply s = ground arith

manage_movie_page-Reads :
    (integer_of : Bytes → Option ℤ) (roles : Roles) (movie_id : Bytes)
    → Reads (manage_movie_page integer_of roles movie_id)
unfolding manage_movie_page
manage_movie_page-Reads integer_of roles movie_id s = ground arith

buy_ticket_page-Reads :
    (integer_of : Bytes → Option ℤ) (roles : Roles) (movie_id : Bytes) (request : Request)
    → Reads (buy_ticket_page integer_of roles movie_id request)
unfolding buy_ticket_page
buy_ticket_page-Reads integer_of roles movie_id request s = ground arith

-- Showing a page, whichever it is and however it ends, leaves the database and the session as they
-- were.
pub pages_only_read :
    (like : Bytes → Bytes → Bool) (integer_of : Bytes → Option ℤ) (roles : Roles)
    (request : Request) (page_id : ℤ) (movie_id : Bytes) (reply : Option Reply) (s : State)
    → ((redirect_to_users roles page_id reply s).1 ≡ s)
      × ((redirect_to_rooms roles page_id reply s).1 ≡ s)
      × ((redirect_to_movies like roles request page_id reply s).1 ≡ s)
      × ((redirect_to_comments integer_of roles movie_id reply s).1 ≡ s)
      × ((redirect_to_mycenter roles reply s).1 ≡ s)
      × ((manage_movie_page integer_of roles movie_id s).1 ≡ s)
      × ((buy_ticket_page integer_of roles movie_id request s).1 ≡ s)
pages_only_read like integer_of roles request page_id movie_id reply s = (
  users-Reads roles page_id reply s,
  rooms-Reads roles page_id reply s,
  movies-Reads like roles request page_id reply s,
  comments-Reads integer_of roles movie_id reply s,
  mycenter-Reads roles reply s,
  manage_movie_page-Reads integer_of roles movie_id s,
  buy_ticket_page-Reads integer_of roles movie_id request s,
)

-- A user with neither the comment of the number nor the permission to change those of others is
-- refused by `modify_comment`, but `form_modify_comment` shows no page with this reply: it throws,
-- since it reads the number of the movie out of a reply that has none, and nothing changes.
pub form_modify_comment-refused :
    (fits : Bytes → Bool) (integer_of : Bytes → Option ℤ) (roles : Roles) (comment_id : Bytes)
    (cmt_id : ℤ) (request : Request) (u : User) (s : State)
    → request.is_post ≡ true
    → s.session.user ≡ some u
    → stoi comment_id ≡ some cmt_id
    → select (λ (c : Comment). c.id == u.id && is_id cmt_id c.comment_id) s.db.comments ≡ []
    → check_permission roles u.roal (codes "modify_comment") ≡ false
    → (modify_comment fits roles comment_id request s ≡ (
      returns (record { success = false; message = text "Permission denied"; movie_id = none }),
      s,
    ))
      × (form_modify_comment fits integer_of roles comment_id request s ≡ (throws bad_value, s))
unfolding form_modify_comment
form_modify_comment-refused fits integer_of roles comment_id cmt_id request u s post logged_in read
      none_own may_not =
    let refused : modify_comment fits roles comment_id request s ≡ (
      returns (record { success = false; message = text "Permission denied"; movie_id = none }),
      s,
    ) =
      unfold modify_comment check_session_permission in
      ground (arith, post, logged_in, read, none_own, may_not) in
    (refused, ground (arith, refused))
