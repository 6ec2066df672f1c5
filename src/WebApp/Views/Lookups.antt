-- ===== src/WebApp/Views/Lookups.antt =====
-- WebApp/users.cpp and movies.cpp: `find_user` and `find_movie`, which answer with JSON and no page.
use movie_dbproject.Prelude.{Bool, none, some}
use movie_dbproject.Prelude.Bytes.{Bytes}
use movie_dbproject.Prelude.Int.{ℤ}
use movie_dbproject.WebApp.Db.{Average}
use movie_dbproject.WebApp.Flow.{Handler, ◌>>=◌, pure, refuse, begin}
use movie_dbproject.WebApp.Fields.{c_str}
use movie_dbproject.WebApp.Users.{get_user}
use movie_dbproject.WebApp.Movies.{get_movie}

-- A user without `id` and `password`.
pub record FoundUser : Type 0 where
  pub username : Bytes
  pub is_superuser : Bool
  pub first_name : Bytes
  pub last_name : Bytes
  pub email : Bytes
  pub is_active : Bool
  pub roal : Bytes
  pub balance : ℤ

unfoldable pub find_user : Bytes → Handler FoundUser
find_user username = do
  d ← begin
  user ← get_user d (c_str username)
  elim user [
    | none ↦ refuse "The requested user does not exist"
    | some u ↦ pure (record {
      username = u.username;
      is_superuser = u.is_superuser;
      first_name = u.first_name;
      last_name = u.last_name;
      email = u.email;
      is_active = u.is_active;
      roal = u.roal;
      balance = u.balance;
    })
  ]

-- A movie as `orm_movie` reads it, which has no field for the review, without `movie_id`.
pub record FoundMovie : Type 0 where
  pub moviename : Bytes
  pub starname : Bytes
  pub detail : Bytes
  pub running_time : ℤ
  pub genre : Bytes
  pub avg_rating : Average
  pub poster : Bytes
  pub box_office : ℤ
  pub num_participants : ℤ
  pub release_date : ℤ
  pub box_office_unit : Bytes
  pub foreign_name : Bytes
  pub location : Bytes

unfoldable pub find_movie : Bytes → Handler FoundMovie
find_movie moviename = do
  d ← begin
  movie ← get_movie d (c_str moviename)
  elim movie [
    | none ↦ refuse "Requested movie does not exist"
    | some m ↦ pure (record {
      moviename = m.moviename;
      starname = m.starname;
      detail = m.detail;
      running_time = m.running_time;
      genre = m.genre;
      avg_rating = m.avg_rating;
      poster = m.poster;
      box_office = m.box_office;
      num_participants = m.num_participants;
      release_date = m.release_date;
      box_office_unit = m.box_office_unit;
      foreign_name = m.foreign_name;
      location = m.location;
    })
  ]
