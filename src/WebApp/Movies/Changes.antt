-- ===== src/WebApp/Movies/Changes.antt =====
-- Who may change and review the movies, and what changes.
use movie_dbproject.Prelude.{
  map, ap, sym, ◌∙◌, if◌then◌else◌, ◌==◌, some, ℕ, ◌≡◌, refl, Bool, true, false, not, [], ◌∷◌, ◌++◌,
  arith, is_some, select,
}
use movie_dbproject.Prelude.Bytes.{Bytes, codes, same}
use movie_dbproject.Prelude.Int.{ℤ, pos, ◌==ℤ◌}
use movie_dbproject.WebApp.Db.Rows.{map-update_where, select_holds, update_where-map, is_id-pos}
use movie_dbproject.WebApp.Db.{Movie, Db, rows, is_id}
use movie_dbproject.WebApp.Flow.{
  State, Handler, Request, ◌>>=◌, ◌>>◌, url_not_found, bad_value, refuse_if, succeed, commit,
  executed, executed_or_what, catch_what, optional_row,
}
use movie_dbproject.WebApp.Flow.Ending.{
  Atomically, IsCheck, Atomically-check, Atomically-known, or_throw-next, Atomically-begin,
  Atomically-executed, Atomically-executed_or_what, Atomically-absent, Atomically-present,
  IsCheck-bind, catch_what-IsCheck, pure-IsCheck, throw_if-IsCheck, refuse_if-IsCheck,
  or_throw-IsCheck, Atomically-commit,
}
use movie_dbproject.WebApp.Fields.{string_param, text_field, number_field, get_stoi_or_zero}
use movie_dbproject.WebApp.Fields.Checks.{
  text_field-IsCheck, number_field-IsCheck, number_field-next,
}
use movie_dbproject.WebApp.Permissions.{Roles}
use movie_dbproject.WebApp.Permissions.Guard.{Allowed, Atomically-permission}
use movie_dbproject.WebApp.Movies.Named.{movie_fields-moviename}
use movie_dbproject.WebApp.Movies.{
  MovieFields, get_movie, get_movie_by_id, movie_fields, new_movie, changed_movie, insert_movie,
  update_movie, mark_reviewed, movie_register, movie_modify, review,
}

-- Of the database and the session only the movies have changed.
abbrev pub OnlyMovies : State → State → Type 0
OnlyMovies s s' = s' ≡ record s { db = record s.db { movies = s'.db.movies } }

movie_fields-IsCheck :
    (request : Request) (moviename : Bytes) → IsCheck (movie_fields request moviename)
movie_fields-IsCheck request moviename =
    IsCheck-bind (text_field request (codes "starname")) _
      (text_field-IsCheck request (codes "starname"))
      λ _.
        IsCheck-bind (text_field request (codes "detail")) _
          (text_field-IsCheck request (codes "detail"))
          λ _.
            IsCheck-bind (number_field request (codes "running_time")) _
              (number_field-IsCheck request (codes "running_time"))
              λ _.
                IsCheck-bind (text_field request (codes "type")) _
                  (text_field-IsCheck request (codes "type"))
                  λ _.
                    IsCheck-bind (number_field request (codes "avg_rating")) _
                      (number_field-IsCheck request (codes "avg_rating"))
                      λ _.
                        IsCheck-bind (text_field request (codes "poster")) _
                          (text_field-IsCheck request (codes "poster"))
                          λ _.
                            IsCheck-bind (number_field request (codes "box_office")) _
                              (number_field-IsCheck request (codes "box_office"))
                              λ _.
                                IsCheck-bind (number_field request (codes "num_participants")) _
                                  (number_field-IsCheck request (codes "num_participants"))
                                  λ _.
                                    IsCheck-bind (number_field request (codes "release_date")) _
                                      (number_field-IsCheck request (codes "release_date"))
                                      λ _.
                                        IsCheck-bind (text_field request (codes "box_office_unit"))
                                          _ (text_field-IsCheck request (codes "box_office_unit"))
                                          λ _.
                                            IsCheck-bind (text_field request (codes "foreign_name"))
                                              _ (text_field-IsCheck request (codes "foreign_name"))
                                              λ _.
                                                IsCheck-bind (text_field request (codes "location"))
                                                  _ (text_field-IsCheck request (codes "location"))
                                                  λ _. pure-IsCheck _

-- The movie that the request names is the only one of the database with its id; it is marked as
-- reviewed, every other movie is as it was, and nothing but the movies changes.
pub record Reviewed (request : Request) (s s' : State) : Type 0 where
  pub movie_id : ℤ
  pub movie : Movie
  pub named : get_stoi_or_zero request.params (codes "movie_id") ≡ some movie_id
  pub found : select (λ (m : Movie). is_id movie_id m.movie_id) s.db.movies ≡ movie ∷ []
  pub same_id : pos movie.movie_id ≡ movie_id
  pub marked :
      s'.db.movies
      ≡ map
          (λ m. if movie.movie_id == m.movie_id then record m { reviewed = true } else m)
          s.db.movies
  pub only : OnlyMovies s s'

mark_reviewed-map :
    (i : ℕ) (d : Db)
    → mark_reviewed (pos i) d ≡ record d {
      movies = map (λ m. if i == m.movie_id then record m { reviewed = true } else m) d.movies;
    }
unfolding mark_reviewed is_id
mark_reviewed-map i d =
    ap (λ l. record d { movies = l })
      (update_where-map (λ (m : Movie). i == m.movie_id) (λ m. record m { reviewed = true })
        d.movies)

-- What marking the only movie with an id leaves.
mark_reviewed-Reviewed :
    (request : Request) (s : State) (movie_id : ℤ) (movie : Movie)
    → get_stoi_or_zero request.params (codes "movie_id") ≡ some movie_id
    → select (λ (m : Movie). is_id movie_id m.movie_id) s.db.movies ≡ movie ∷ []
    → Reviewed request s (record s { db = mark_reviewed movie_id s.db })
mark_reviewed-Reviewed request s movie_id movie named found =
    let same_id =
      is_id-pos movie_id movie.movie_id
        (select_holds (λ (m : Movie). is_id movie_id m.movie_id) s.db.movies movie [] found) in
    let marked =
      ap (λ x. mark_reviewed x s.db) (sym same_id) ∙ mark_reviewed-map movie.movie_id s.db in
    record {
      movie_id = movie_id;
      movie = movie;
      named = named;
      found = found;
      same_id = same_id;
      marked = ap (λ d. d.movies) marked;
      only = ground (arith, marked);
    }

-- `review`, whatever the request is: it replies with success, the session's user has the
-- permission `review_movie`, the movie that the request names, the only one of the database with
-- its id, is marked as reviewed, and nothing else changes; or the database and the session are as
-- they were.
pub review-Reviewed :
    (roles : Roles) (request : Request) (s : State)
    → Atomically
        (λ s'. Allowed roles (codes "review_movie") s × Reviewed request s s')
        s
        (review roles request)
unfolding review get_movie_by_id
review-Reviewed roles request s =
    Atomically-check _ _ _ s (throw_if-IsCheck (not request.is_post) url_not_found) λ _.
      Atomically-permission _ roles (codes "review_movie") _ s λ allowed.
        Atomically-known _ _ _ s (number_field-IsCheck request (codes "movie_id")) λ movie_id named.
          Atomically-check _ _ _ s (refuse_if-IsCheck (movie_id ==ℤ pos 0) "Invalid movie id") λ _.
            Atomically-begin _ (behind_begin movie_id) s (
              Atomically-present _ (select (λ (m : Movie). is_id movie_id m.movie_id) s.db.movies)
                "Movie does not exist" _ s
                λ m found.
                  Atomically-check _ _ _ s (text_field-IsCheck request (codes "password")) λ _.
                    Atomically-commit _ (mark_reviewed movie_id s.db) "Movie reviewed" s (
                      allowed,
                      mark_reviewed-Reviewed request s movie_id m
                          (number_field-next request (codes "movie_id") s s movie_id named) found,
                    ))
  where
    behind_begin : ℤ → Db → Handler (Unit {0})
    behind_begin movie_id d =
        optional_row (select (λ (m : Movie). is_id movie_id m.movie_id) d.movies) >>= λ o.
        refuse_if (not (is_some o)) "Movie does not exist"
        >> (text_field request (codes "password") >>= λ _.
            (commit (mark_reviewed movie_id d) >> succeed "Movie reviewed"))

-- A movie is added, not yet reviewed, under the name of the request, which no movie had.
pub record AddedMovie (new_id : ℕ) (request : Request) (s s' : State) : Type 0 where
  pub movie : Movie
  pub numbered : movie.movie_id ≡ new_id
  pub unreviewed : movie.reviewed ≡ false
  pub named : string_param request.params (codes "moviename") ≡ some movie.moviename
  pub fresh : select (λ (m : Movie). same m.moviename movie.moviename) s.db.movies ≡ []
  pub added : s'.db.movies ≡ s.db.movies ++ movie ∷ []
  pub only : OnlyMovies s s'

insert_movie-AddedMovie :
    (fits : Bytes → Bool) (new_id : ℕ) (f : MovieFields) (request : Request) (s : State) (d : Db)
    → string_param request.params (codes "moviename") ≡ some f.moviename
    → select (λ (m : Movie). same m.moviename f.moviename) s.db.movies ≡ []
    → insert_movie fits (new_movie new_id f) s.db ≡ rows d
    → AddedMovie new_id request s (record s { db = d })
unfolding insert_movie
insert_movie-AddedMovie fits new_id f request s d named fresh e = record {
  movie = new_movie new_id f;
  numbered = refl;
  unreviewed = refl;
  named = named;
  fresh = fresh;
  added = ground (arith, e);
  only = ground (arith, e);
}

-- `movie_register`, whatever the request is: it replies with success, the session's user has the
-- permission `modify_movie`, and exactly one movie is added, which is not reviewed and has the name
-- that the request gives and no movie had; or the database and the session are as they were.
pub movie_register-AddedMovie :
    (fits : Bytes → Bool) (roles : Roles) (new_id : ℕ) (request : Request) (s : State)
    → Atomically
        (λ s'. Allowed roles (codes "modify_movie") s × AddedMovie new_id request s s')
        s
        (movie_register fits roles new_id request)
unfolding movie_register get_movie
movie_register-AddedMovie fits roles new_id request s =
    Atomically-check _ _ _ s (throw_if-IsCheck (not request.is_post) url_not_found) λ _.
      Atomically-permission _ roles (codes "modify_movie") _ s λ allowed.
        Atomically-known _ _ _ s
          (or_throw-IsCheck (string_param request.params (codes "moviename")) bad_value)
          λ moviename named. Atomically-begin _ (behind_begin moviename) s (
            Atomically-absent _ (select (λ (m : Movie). same m.moviename moviename) s.db.movies)
              "Movie name exists" _ s
              λ fresh.
                Atomically-known _ _ _ s
                  (catch_what-IsCheck (movie_fields request moviename)
                    (movie_fields-IsCheck request moviename))
                  λ f gathered.
                    let same_name = movie_fields-moviename request moviename s f gathered in
                    Atomically-executed_or_what _ (insert_movie fits (new_movie new_id f) s.db)
                      "Movie registered" s
                      λ d e. (
                        allowed,
                        insert_movie-AddedMovie fits new_id f request s d
                            (or_throw-next (string_param request.params (codes "moviename"))
                                bad_value s s moviename named
                              ∙ ap some (sym same_name))
                            (ap (λ n. select (λ (m : Movie). same m.moviename n) s.db.movies)
                                same_name
                              ∙ fresh)
                            e,
                      ))
  where
    behind_begin : Bytes → Db → Handler (Unit {0})
    behind_begin moviename d =
        optional_row (select (λ (m : Movie). same m.moviename moviename) d.movies) >>= λ o.
        refuse_if (is_some o) "Movie name exists"
        >> (catch_what (movie_fields request moviename) >>= λ f.
            executed_or_what (insert_movie fits (new_movie new_id f) d) >>= λ d.
            commit d >> succeed "Movie registered")

-- A change leaves which movies there are and which of them are reviewed.
pub record ChangedMovie (s s' : State) : Type 0 where
  pub ids :
      map (λ (m : Movie). m.movie_id) s'.db.movies ≡ map (λ (m : Movie). m.movie_id) s.db.movies
  pub reviews :
      map (λ (m : Movie). m.reviewed) s'.db.movies ≡ map (λ (m : Movie). m.reviewed) s.db.movies
  pub only : OnlyMovies s s'

update_movie-ChangedMovie :
    (fits : Bytes → Bool) (movie_id : ℤ) (f : MovieFields) (s : State) (d : Db)
    → update_movie fits movie_id f s.db ≡ rows d
    → ChangedMovie s (record s { db = d })
unfolding update_movie
update_movie-ChangedMovie fits movie_id f s d e =
    let same_ids =
      map-update_where (λ (m : Movie). m.movie_id) (λ m. is_id movie_id m.movie_id)
        (changed_movie f) s.db.movies (λ m. refl) in
    let same_reviews =
      map-update_where (λ (m : Movie). m.reviewed) (λ m. is_id movie_id m.movie_id)
        (changed_movie f) s.db.movies (λ m. refl) in
    record {
      ids = ground (arith, e, same_ids);
      reviews = ground (arith, e, same_reviews);
      only = ground (arith, e);
    }

-- `movie_modify`, whatever the request is: it replies with success, the session's user has the
-- permission `modify_movie`, the movie was there, and no movie is added, removed, given another id
-- or made reviewed; or the database and the session are as they were.
pub movie_modify-ChangedMovie :
    (fits : Bytes → Bool) (roles : Roles) (movie_id : ℤ) (request : Request) (s : State)
    → Atomically
        (λ s'.
          Allowed roles (codes "modify_movie") s
          × ((m : Movie) × (select (λ (m : Movie). is_id movie_id m.movie_id) s.db.movies ≡ m ∷ []))
          × ChangedMovie s s')
        s
        (movie_modify fits roles movie_id request)
unfolding movie_modify get_movie_by_id
movie_modify-ChangedMovie fits roles movie_id request s =
    Atomically-check _ _ _ s (throw_if-IsCheck (not request.is_post) url_not_found) λ _.
      Atomically-permission _ roles (codes "modify_movie") _ s λ allowed.
        Atomically-begin _ behind_begin s (
          Atomically-present _ (select (λ (m : Movie). is_id movie_id m.movie_id) s.db.movies)
            "Movie does not exist" _ s
            λ m found. Atomically-check _ _ _ s (text_field-IsCheck request (codes "password")) λ _.
              Atomically-check _ _ _ s (text_field-IsCheck request (codes "moviename")) λ moviename.
                Atomically-check _ _ _ s (movie_fields-IsCheck request moviename) λ f.
                  Atomically-executed _ (update_movie fits movie_id f s.db) "Movie modified" s
                    λ d e. (allowed, (m, found), update_movie-ChangedMovie fits movie_id f s d e))
  where
    behind_begin : Db → Handler (Unit {0})
    behind_begin d =
        optional_row (select (λ (m : Movie). is_id movie_id m.movie_id) d.movies) >>= λ o.
        refuse_if (not (is_some o)) "Movie does not exist"
        >> (text_field request (codes "password") >>= λ _.
            text_field request (codes "moviename") >>= λ moviename.
            movie_fields request moviename >>= λ f.
            executed (update_movie fits movie_id f d) >>= λ d. commit d >> succeed "Movie modified")
