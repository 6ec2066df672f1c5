-- ===== src/WebApp/Comments.antt =====
-- WebApp/comments.cpp: comments on movies, and the average rating. `new_id` is the number that a
-- sequence gives, and `fits` says whether a text fits into a column of 255 characters.
pub mod Added
use movie_dbproject.Prelude.{
  ℕ, suc, ◌+◌, Bool, true, false, not, ◌&&◌, ◌||◌, Option, none, some, List, [], ◌∷◌, ◌++◌, ◌==◌,
  if◌then◌else◌, is_some, select, length,
}
use movie_dbproject.Prelude.Bytes.{Bytes, codes}
use movie_dbproject.Prelude.Int.{ℤ, pos, ltb_ℤ, pos_part}
use movie_dbproject.Bserv.Utils.Params.{is_empty}
use movie_dbproject.WebApp.Db.Rows.{sum_of}
use movie_dbproject.WebApp.Db.{
  User, Movie, Average, Screening, Ticket, Comment, Db, DbError, Executed, rows, fails,
  foreign_key_violation, value_too_long, update_where, any_row, is_id,
}
use movie_dbproject.WebApp.Flow.{
  Request, Handler, Exception, url_not_found, bad_value, undefined_behaviour, ◌>>=◌, ◌>>◌, pure,
  throw, throw_if, refuse, refuse_if, succeed, succeed_with, or_throw, or_refuse, executed,
  executed_or_what, begin, commit, get_session, session_user,
}
use movie_dbproject.WebApp.Fields.{stoi, text_field, number_field, or_old, or_old_number}
use movie_dbproject.WebApp.Permissions.{Roles, check_session_permission}

-- `select * from comments where id = ? and movie_id = ?`
unfoldable pub find_comments : ℕ → ℤ → Db → List Comment
find_comments user_id movie_id d =
    select (λ (c : Comment). c.id == user_id && is_id movie_id c.movie_id) d.comments

-- `select * from tickets, screenings where …`: the user has a ticket for a screening of the movie
-- that is not refunded.
unfoldable pub has_ticket : ℕ → ℤ → Db → Bool
unfolding any_row
has_ticket user_id movie_id d =
    any_row
      (λ (t : Ticket).
        t.user_id == user_id
        && not t.refunded
        && any_row
            (λ (c : Screening). c.screening_id == t.screening_id && is_id movie_id c.movie_id)
            d.screenings)
      d.tickets

-- `select avg(rating) from comments where movie_id = ?`
unfoldable pub average_rating : ℤ → Db → Average
unfolding sum_of
average_rating movie_id d =
    let found = select (λ (c : Comment). is_id movie_id c.movie_id) d.comments in
    record { total = sum_of (λ (c : Comment). c.rating) found; count = length found }

-- `update movies set avg_rating = (select avg(rating) …) where movie_id = ?`
unfoldable pub update_rating : ℤ → Db → Db
unfolding update_where
update_rating movie_id d = record d {
  movies =
      update_where (λ (m : Movie). is_id movie_id m.movie_id)
        (λ m. record m { avg_rating = average_rating movie_id d }) d.movies;
}

module _ (fits : Bytes → Bool) where
  -- `insert into comments …`
  unfoldable pub insert_comment : Comment → Db → Executed Db
  unfolding any_row
  insert_comment c d =
      if not (fits c.content)
      then fails value_too_long
      else if any_row (λ (u : User). u.id == c.id) d.users
          && any_row (λ (m : Movie). m.movie_id == c.movie_id) d.movies
      then rows (record d { comments = d.comments ++ c ∷ [] })
      else fails foreign_key_violation

  -- `add_comment` behind the beginning of its transaction.
  unfoldable pub comment_on : ℕ → ℕ → ℤ → ℤ → Bytes → Db → Handler (Unit {0})
  comment_on new_id user_id mov_id rating content d = do
    refuse_if (not (is_empty (find_comments user_id mov_id d))) "You have already commented"
    refuse_if (not (has_ticket user_id mov_id d)) "You must buy a ticket first to comment"
    d ← executed_or_what (
        insert_comment
          (record {
            comment_id = new_id;
            id = user_id;
            movie_id = pos_part mov_id;
            rating = rating;
            content = content;
          })
          d)
    commit (update_rating mov_id d)
    succeed "Comment added"

  unfoldable pub add_comment : Roles → ℕ → Bytes → Request → Handler (Unit {0})
  add_comment roles new_id movie_id request = do
    throw_if (not request.is_post) url_not_found
    check_session_permission roles (codes "add_comment")
    user ← session_user
    rating_text ← text_field request (codes "rating")
    refuse_if (is_empty rating_text) "Rating and content must not be empty"
    content ← text_field request (codes "content")
    refuse_if (is_empty content) "Rating and content must not be empty"
    rating ← number_field request (codes "rating")
    refuse_if (ltb_ℤ rating (pos 0) || ltb_ℤ (pos 5) rating) "Rating must be between 0 and 5"
    mov_id ← or_refuse (stoi movie_id) "Invalid movie id"
    d ← begin
    comment_on new_id user.id mov_id rating content d

  -- `update comments set … where comment_id = ?`
  unfoldable pub update_comment : ℤ → ℤ → Bytes → Db → Executed Db
  unfolding update_where
  update_comment cmt_id rating content d =
      if fits content
      then rows (record d {
        comments =
            update_where (λ (c : Comment). is_id cmt_id c.comment_id)
              (λ c. record c {
                rating = or_old_number rating c.rating;
                content = or_old content c.content;
              })
              d.comments;
      })
      else fails value_too_long

  -- `modify_comment`; `comments[0]` of an empty vector is undefined.
  unfoldable pub modify_comment : Roles → Bytes → Request → Handler (Unit {0})
  modify_comment roles comment_id request = do
    throw_if (not request.is_post) url_not_found
    user ← session_user
    cmt_id ← or_refuse (stoi comment_id) "Invalid comment id"
    d ← begin
    elim (select (λ (c : Comment). c.id == user.id && is_id cmt_id c.comment_id) d.comments) [
      | [] ↦ do check_session_permission roles (codes "modify_comment"); throw undefined_behaviour
      | c ∷ r ↦ do
        rating ← number_field request (codes "rating")
        content ← text_field request (codes "content")
        d ← executed (update_comment cmt_id rating content d)
        commit (update_rating (pos c.movie_id) d)
        succeed_with "Comment modified" c.movie_id
    ]
