-- ===== src/WebApp/Views/Lists.antt =====
-- WebApp/users.cpp, room.cpp and movies.cpp: the pages of users, rooms and movies. A query without
-- an order gives the rows in the order of the table. `like` is the operator of the database, of a
-- pattern and a text.
use movie_dbproject.Prelude.{
  Bool, Option, none, some, List, [], ◌∷◌, ◌++◌, if◌then◌else◌, ltb, length, select,
}
use movie_dbproject.Prelude.Bytes.{Bytes, codes}
use movie_dbproject.Prelude.Int.{ℤ}
use movie_dbproject.WebApp.Db.{User, Room, Movie, Announcement, Db}
use movie_dbproject.WebApp.Flow.{
  Request, Reply, Session, Handler, bad_number, undefined_behaviour, ◌>>=◌, ◌>>◌, pure, throw,
  or_throw, begin, get_session,
}
use movie_dbproject.WebApp.Fields.{stoi, text_field}
use movie_dbproject.WebApp.Permissions.{Roles}
use movie_dbproject.WebApp.Screenings.{may}
use movie_dbproject.WebApp.Views.{Page, ListPage, index, require, list_page}

unfoldable pub redirect_to_users : Roles → ℤ → Option Reply → Handler (Page (ListPage User))
unfolding require list_page index
redirect_to_users roles page_id reply = do
  require roles (codes "modify_user")
  d ← begin
  page ← list_page (length d.users) d.users page_id
  index roles reply page

unfoldable pub view_users : Roles → Bytes → Handler (Page (ListPage User))
unfolding redirect_to_users
view_users roles page_num = do
  page_id ← or_throw (stoi page_num) bad_number
  redirect_to_users roles page_id none

unfoldable pub redirect_to_rooms : Roles → ℤ → Option Reply → Handler (Page (ListPage Room))
unfolding list_page index
redirect_to_rooms roles page_id reply = do
  d ← begin
  page ← list_page (length d.rooms) d.rooms page_id
  index roles reply page

unfoldable pub view_rooms : Roles → Bytes → Handler (Page (ListPage Room))
unfolding redirect_to_rooms
view_rooms roles page_num = do
  page_id ← or_throw (stoi page_num) bad_number
  redirect_to_rooms roles page_id none

-- What the page of movies adds to the list.
pub record MoviesPage : Type 0 where
  pub movies : ListPage Movie
  pub search_kw : Bytes
  pub announcement_title : Bytes
  pub announcement_content : Bytes

-- `select * from announcements order by id desc limit 1`
unfoldable pub newest : List Announcement → Option Announcement
newest [] = none
newest (a ∷ more) = elim (newest more) [
  | none ↦ some a
  | some b ↦ some (if ltb a.id b.id then b else a)
]

-- The row behind `announcements.begin()`, which is undefined where there is none.
abbrev pub first_announcement : Option Announcement → Handler Announcement
first_announcement none = throw undefined_behaviour
first_announcement (some a) = pure a

module _ (like : Bytes → Bytes → Bool) where
  -- `select … from movies where moviename like ?`
  unfoldable pub search : Bytes → Db → List Movie
  search search_kw d =
      select (λ (m : Movie). like (b'%' ∷ search_kw ++ b'%' ∷ []) m.moviename) d.movies

  -- The movies that a session may see.
  unfoldable pub visible : Roles → Session → List Movie → List Movie
  visible roles session movies =
      if may roles (codes "view_unreviewed") session
      then movies
      else select (λ (m : Movie). m.reviewed) movies

  unfoldable pub redirect_to_movies : Roles → Request → ℤ → Option Reply → Handler (Page MoviesPage)
  unfolding list_page index search visible newest
  redirect_to_movies roles request page_id reply = do
    search_kw ← text_field request (codes "s")
    d ← begin
    session ← get_session
    page ←
        list_page (length (search search_kw d)) (visible roles session (search search_kw d)) page_id
    announcement ← first_announcement (newest d.announcements)
    index roles reply (record {
      movies = page;
      search_kw = search_kw;
      announcement_title = announcement.title;
      announcement_content = announcement.content;
    })

  unfoldable pub view_movies : Roles → Request → Bytes → Handler (Page MoviesPage)
  unfolding redirect_to_movies
  view_movies roles request page_num = do
    page_id ← or_throw (stoi page_num) bad_number
    redirect_to_movies roles request page_id none
