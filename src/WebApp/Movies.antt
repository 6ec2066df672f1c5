-- ===== src/WebApp/Movies.antt =====
-- WebApp/movies.cpp: movies and announcements. `new_id` is the number that a sequence gives, and
-- `fits` says whether a text fits into a column of 255 characters.
pub mod Named
pub mod Changes
use movie_dbproject.Prelude.{
  ℕ, Bool, true, false, not, ◌&&◌, Option, none, some, List, [], ◌∷◌, ◌++◌, ◌==◌, if◌then◌else◌,
  is_some, select,
}
use movie_dbproject.Prelude.Bytes.{Bytes, codes, same}
use movie_dbproject.Prelude.Int.{ℤ, pos, negsuc, ◌==ℤ◌}
use movie_dbproject.WebApp.Db.{
  Movie, Average, Announcement, Db, DbError, Executed, rows, fails, value_too_long, update_where,
  all_rows, is_id,
}
use movie_dbproject.WebApp.Flow.{
  Request, Handler, Exception, url_not_found, bad_value, ◌>>=◌, ◌>>◌, pure, throw_if, refuse_if,
  succeed, or_throw, executed, executed_or_what, catch_what, begin, commit, optional_row,
}
use movie_dbproject.WebApp.Fields.{string_param, text_field, number_field, or_old, or_old_number}
use movie_dbproject.WebApp.Permissions.{Roles, check_session_permission}

unfoldable pub get_movie : Db → Bytes → Handler (Option Movie)
get_movie d moviename = optional_row (select (λ (m : Movie). same m.moviename moviename) d.movies)

unfoldable pub get_movie_by_id : Db → ℤ → Handler (Option Movie)
get_movie_by_id d movie_id =
    optional_row (select (λ (m : Movie). is_id movie_id m.movie_id) d.movies)

-- The columns that a request gives.
pub record MovieFields : Type 0 where
  pub moviename : Bytes
  pub starname : Bytes
  pub detail : Bytes
  pub running_time : ℤ
  pub genre : Bytes
  pub avg_rating : ℤ
  pub poster : Bytes
  pub box_office : ℤ
  pub num_participants : ℤ
  pub release_date : ℤ
  pub box_office_unit : Bytes
  pub foreign_name : Bytes
  pub location : Bytes

-- The parameters behind the name, which are all optional.
abbrev pub movie_fields : Request → Bytes → Handler MovieFields
movie_fields request moviename = do
  starname ← text_field request (codes "starname")
  detail ← text_field request (codes "detail")
  running_time ← number_field request (codes "running_time")
  genre ← text_field request (codes "type")
  avg_rating ← number_field request (codes "avg_rating")
  poster ← text_field request (codes "poster")
  box_office ← number_field request (codes "box_office")
  num_participants ← number_field request (codes "num_participants")
  release_date ← number_field request (codes "release_date")
  box_office_unit ← text_field request (codes "box_office_unit")
  foreign_name ← text_field request (codes "foreign_name")
  location ← text_field request (codes "location")
  pure (record {
    moviename = moviename;
    starname = starname;
    detail = detail;
    running_time = running_time;
    genre = genre;
    avg_rating = avg_rating;
    poster = poster;
    box_office = box_office;
    num_participants = num_participants;
    release_date = release_date;
    box_office_unit = box_office_unit;
    foreign_name = foreign_name;
    location = location;
  })

-- A rating that is set as it is.
abbrev pub rating_of : ℤ → Average
rating_of x = record { total = x; count = 1 }

-- The row that `insert into movies …` makes; a movie is not reviewed at first.
abbrev pub new_movie : ℕ → MovieFields → Movie
new_movie new_id f = record {
  movie_id = new_id;
  moviename = f.moviename;
  starname = f.starname;
  detail = f.detail;
  running_time = f.running_time;
  genre = f.genre;
  avg_rating = rating_of f.avg_rating;
  poster = f.poster;
  box_office = f.box_office;
  num_participants = f.num_participants;
  release_date = f.release_date;
  box_office_unit = f.box_office_unit;
  foreign_name = f.foreign_name;
  location = f.location;
  reviewed = false;
}

-- The row that the update of `movie_modify` makes of a row.
abbrev pub changed_movie : MovieFields → Movie → Movie
changed_movie f m = record m {
  moviename = or_old f.moviename m.moviename;
  starname = or_old f.starname m.starname;
  detail = or_old f.detail m.detail;
  running_time = or_old_number f.running_time m.running_time;
  genre = or_old f.genre m.genre;
  avg_rating = if f.avg_rating ==ℤ pos 0 then m.avg_rating else rating_of f.avg_rating;
  poster = or_old f.poster m.poster;
  box_office = or_old_number f.box_office m.box_office;
  num_participants = or_old_number f.num_participants m.num_participants;
  release_date = or_old_number f.release_date m.release_date;
  box_office_unit = or_old f.box_office_unit m.box_office_unit;
  foreign_name = or_old f.foreign_name m.foreign_name;
  location = or_old f.location m.location;
}

-- `update movies set reviewed = true where movie_id = ?`
unfoldable pub mark_reviewed : ℤ → Db → Db
unfolding update_where is_id
mark_reviewed movie_id d = record d {
  movies =
      update_where (λ (m : Movie). is_id movie_id m.movie_id) (λ m. record m { reviewed = true })
        d.movies;
}

unfoldable pub review : Roles → Request → Handler (Unit {0})
review roles request = do
  throw_if (not request.is_post) url_not_found
  check_session_permission roles (codes "review_movie")
  movie_id ← number_field request (codes "movie_id")
  refuse_if (movie_id ==ℤ pos 0) "Invalid movie id"
  d ← begin
  opt_movie ← get_movie_by_id d movie_id
  refuse_if (not (is_some opt_movie)) "Movie does not exist"
  password ← text_field request (codes "password")
  commit (mark_reviewed movie_id d)
  succeed "Movie reviewed"

module _ (fits : Bytes → Bool) where
  movie_fits : Movie → Bool
  movie_fits m =
      fits m.moviename
      && fits m.starname
      && fits m.detail
      && fits m.genre
      && fits m.poster
      && fits m.box_office_unit
      && fits m.foreign_name
      && fits m.location

  -- `insert into movies …`
  unfoldable pub insert_movie : Movie → Db → Executed Db
  unfolding movie_fits
  insert_movie m d =
      if movie_fits m then rows (record d { movies = d.movies ++ m ∷ [] }) else fails value_too_long

  -- `update movies set … where movie_id = ?`
  unfoldable pub update_movie : ℤ → MovieFields → Db → Executed Db
  unfolding movie_fits update_where all_rows is_id
  update_movie movie_id f d =
      let changed =
        update_where (λ (m : Movie). is_id movie_id m.movie_id) (changed_movie f) d.movies in
      if all_rows movie_fits (select (λ (m : Movie). is_id movie_id m.movie_id) changed)
      then rows (record d { movies = changed })
      else fails value_too_long

  -- `insert into announcements …`
  unfoldable pub insert_announcement : Announcement → Db → Executed Db
  insert_announcement a d =
      if fits a.title && fits a.content
      then rows (record d { announcements = d.announcements ++ a ∷ [] })
      else fails value_too_long

  unfoldable pub movie_register : Roles → ℕ → Request → Handler (Unit {0})
  movie_register roles new_id request = do
    throw_if (not request.is_post) url_not_found
    check_session_permission roles (codes "modify_movie")
    moviename ← or_throw (string_param request.params (codes "moviename")) bad_value
    d ← begin
    opt_movie ← get_movie d moviename
    refuse_if (is_some opt_movie) "Movie name exists"
    f ← catch_what (movie_fields request moviename)
    d ← executed_or_what (insert_movie (new_movie new_id f) d)
    commit d
    succeed "Movie registered"

  unfoldable pub movie_modify : Roles → ℤ → Request → Handler (Unit {0})
  movie_modify roles movie_id request = do
    throw_if (not request.is_post) url_not_found
    check_session_permission roles (codes "modify_movie")
    d ← begin
    opt_movie ← get_movie_by_id d movie_id
    refuse_if (not (is_some opt_movie)) "Movie does not exist"
    password ← text_field request (codes "password")
    moviename ← text_field request (codes "moviename")
    f ← movie_fields request moviename
    d ← executed (update_movie movie_id f d)
    commit d
    succeed "Movie modified"

  abbrev pub announcement_fields : ℕ → Request → Handler Announcement
  announcement_fields new_id request = do
    title ← text_field request (codes "title")
    content ← text_field request (codes "content")
    pure (record { id = new_id; title = title; content = content })

  unfoldable pub announcement_add : Roles → ℕ → Request → Handler (Unit {0})
  announcement_add roles new_id request = do
    throw_if (not request.is_post) url_not_found
    check_session_permission roles (codes "modify_announcement")
    d ← begin
    a ← catch_what (announcement_fields new_id request)
    d ← executed_or_what (insert_announcement a d)
    commit d
    succeed "Announcement updated"
