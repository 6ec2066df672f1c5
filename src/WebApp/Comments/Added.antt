-- ===== src/WebApp/Comments/Added.antt =====
-- Who may comment on a movie, and what a comment changes.
use movie_dbproject.Prelude.{
  sym, ◌∙◌, map, select, length, Any, ◌==◌, ◌&&◌, if◌then◌else◌, some, ℕ, ◌≡◌, refl, ap, Bool, true,
  false, not, ◌||◌, List, [], ◌∷◌, ◌++◌, arith,
}
use movie_dbproject.Prelude.Bytes.{Bytes, codes}
use movie_dbproject.Prelude.Int.{ℤ, pos, ltb_ℤ, ◌≤ℤ◌, pos_part}
use movie_dbproject.Bserv.Utils.Params.{is_empty}
use movie_dbproject.WebApp.Db.Rows.{
  sum_of, update_where-map, Any-mono, Any-some, any_row-Any, is_id-pos,
}
use movie_dbproject.WebApp.Db.{User, Movie, Screening, Ticket, Comment, Db, rows, is_id}
use movie_dbproject.WebApp.Flow.{
  State, Handler, Request, ◌>>=◌, ◌>>◌, url_not_found, refuse_if, or_refuse, succeed, commit,
  executed_or_what, begin,
}
use movie_dbproject.WebApp.Flow.Ending.{
  Atomically, Atomically-check, Atomically-known, session_user-next, or_refuse-next,
  Atomically-begin, Atomically-refuse_if, Atomically-then, Atomically-mono, throw_if-IsCheck,
  refuse_if-IsCheck, or_refuse-IsCheck, session_user-IsCheck,
}
use movie_dbproject.WebApp.Fields.{stoi, get_or_empty, get_stoi_or_zero}
use movie_dbproject.WebApp.Fields.Checks.{
  text_field-IsCheck, number_field-IsCheck, text_field-next, number_field-next,
}
use movie_dbproject.WebApp.Permissions.{Roles}
use movie_dbproject.WebApp.Permissions.Guard.{Allowed, Atomically-permission}
use movie_dbproject.WebApp.Comments.{
  find_comments, has_ticket, average_rating, update_rating, insert_comment, comment_on, add_comment,
}

-- A user has a ticket, not refunded, for a screening of a movie.
abbrev pub HasTicket : ℕ → ℤ → Db → Type 0
HasTicket user_id movie_id d =
    Any
      (λ (t : Ticket).
        (t.user_id ≡ user_id)
        × (t.refunded ≡ false)
        × Any (λ (c : Screening). (c.screening_id ≡ t.screening_id) × (pos c.movie_id ≡ movie_id))
            d.screenings)
      d.tickets

-- A comment of a user on a movie is added, with a rating from 0 to 5; the user has a ticket for the
-- movie and had no comment on it. The rating of the movie is the average over its comments, the new
-- one among them, and nothing else changes.
pub record Commented (new_id user_id : ℕ) (movie_id rating : ℤ) (content : Bytes) (s s' : State)
    : Type 0 where
  pub comment : Comment
  pub numbered : comment.comment_id ≡ new_id
  pub by_user : comment.id ≡ user_id
  pub on_movie : pos comment.movie_id ≡ movie_id
  pub rated : comment.rating ≡ rating
  pub in_range : (pos 0 ≤ℤ comment.rating) × (comment.rating ≤ℤ pos 5)
  pub said : comment.content ≡ content
  pub first :
      select (λ (c : Comment). c.id == user_id && (comment.movie_id == c.movie_id)) s.db.comments
      ≡ []
  pub paid : HasTicket user_id movie_id s.db
  pub after :
      let comments = s.db.comments ++ comment ∷ [] in
      let of_movie = select (λ (c : Comment). comment.movie_id == c.movie_id) comments in
      s' ≡ record s {
        db = record s.db {
          comments = comments;
          movies =
              map
                (λ (m : Movie).
                  if comment.movie_id == m.movie_id
                  then record m {
                    avg_rating = record {
                      total = sum_of (λ (c : Comment). c.rating) of_movie;
                      count = length of_movie;
                    };
                  }
                  else m)
                s.db.movies;
        };
      }

-- The comment is that of the session's user on the movie of the path, with the rating and the text
-- of the request.
pub record CommentedFor (new_id : ℕ) (movie_id : Bytes) (request : Request) (s s' : State)
    : Type 0 where
  pub user : User
  pub mov_id : ℤ
  pub rating : ℤ
  pub content : Bytes
  pub logged_in : s.session.user ≡ some user
  pub movie_read : stoi movie_id ≡ some mov_id
  pub rating_field : get_stoi_or_zero request.params (codes "rating") ≡ some rating
  pub content_field : get_or_empty request.params (codes "content") ≡ some content
  pub commented : Commented new_id user.id mov_id rating content s s'

has_ticket-HasTicket :
    (user_id : ℕ) (movie_id : ℤ) (d : Db)
    → has_ticket user_id movie_id d ≡ true
    → HasTicket user_id movie_id d
unfolding has_ticket
has_ticket-HasTicket user_id movie_id d h =
    Any-mono _ _ d.tickets
      (λ t e. (
        ground (arith, e),
        ground (arith, e),
        Any-mono _ _ d.screenings
            (λ c f. (ground (arith, f), is_id-pos movie_id c.movie_id (ground (arith, f))))
            (any_row-Any
              (λ (c : Screening). c.screening_id == t.screening_id && is_id movie_id c.movie_id)
              d.screenings (ground (arith, e))),
      ))
      (any_row-Any _ d.tickets h)

HasTicket-pos :
    (user_id : ℕ) (movie_id : ℤ) (d : Db)
    → HasTicket user_id movie_id d
    → pos (pos_part movie_id) ≡ movie_id
HasTicket-pos user_id movie_id d h =
    let (t, (_, _, shown)) = Any-some _ d.tickets h in
    let (c, (_, e)) = Any-some _ d.screenings shown in ap (λ x. pos (pos_part x)) (sym e) ∙ e

insert_comment-rows :
    (fits : Bytes → Bool) (c : Comment) (d d' : Db)
    → insert_comment fits c d ≡ rows d'
    → d' ≡ record d { comments = d.comments ++ c ∷ [] }
unfolding insert_comment
insert_comment-rows fits c d d' e = ground (arith, e)

is_empty_nil : {A : Type 0} (l : List A) → not (is_empty l) ≡ false → l ≡ []
is_empty_nil [] e = refl
is_empty_nil (x ∷ l) e = cc

update_rating-map :
    (i : ℕ) (d : Db)
    → update_rating (pos i) d ≡ record d {
      movies =
          map
            (λ (m : Movie).
              if i == m.movie_id
              then record m {
                avg_rating = record {
                  total =
                      sum_of
                        (λ (c : Comment). c.rating)
                        (select (λ (c : Comment). i == c.movie_id) d.comments);
                  count = length (select (λ (c : Comment). i == c.movie_id) d.comments);
                };
              }
              else m)
            d.movies;
    }
unfolding update_rating average_rating is_id
update_rating-map i d =
    ap (λ l. record d { movies = l }) (update_where-map (λ (m : Movie). i == m.movie_id) _ d.movies)

comment_on-Commented :
    (fits : Bytes → Bool) (new_id user_id : ℕ) (mov_id rating : ℤ) (content : Bytes) (s : State)
    → (ltb_ℤ rating (pos 0) || ltb_ℤ (pos 5) rating) ≡ false
    → Atomically
        (λ s'. Commented new_id user_id mov_id rating content s s')
        s
        (comment_on fits new_id user_id mov_id rating content s.db)
unfolding comment_on find_comments is_id
comment_on-Commented fits new_id user_id mov_id rating content s in_range =
    Atomically-refuse_if _ (not (is_empty (find_comments user_id mov_id s.db)))
      "You have already commented" ticket_first s
      λ none_yet.
        Atomically-refuse_if _ (not (has_ticket user_id mov_id s.db))
          "You must buy a ticket first to comment" insertion s
          λ paid.
            let ticket = has_ticket-HasTicket user_id mov_id s.db (ground (arith, paid)) in
            let shown = HasTicket-pos user_id mov_id s.db ticket in
            Atomically-then _ (insert_comment fits row s.db) (update_rating mov_id) "Comment added"
              s
              λ d e. record {
                comment = row;
                numbered = refl;
                by_user = refl;
                on_movie = shown;
                rated = refl;
                in_range = ground (arith, in_range);
                said = refl;
                first =
                    ap (λ x. find_comments user_id x s.db) shown
                    ∙ is_empty_nil (find_comments user_id mov_id s.db) none_yet;
                paid = ticket;
                after =
                    ap (λ d. record s { db = update_rating mov_id d })
                      (insert_comment-rows fits row s.db d e)
                    ∙ ap
                        (λ x. record s {
                          db =
                              update_rating x
                                (record s.db { comments = s.db.comments ++ row ∷ [] });
                        })
                        (sym shown)
                    ∙ ap (λ d. record s { db = d })
                        (update_rating-map (pos_part mov_id)
                          (record s.db { comments = s.db.comments ++ row ∷ [] }));
              }
  where
    row : Comment
    row = record {
      comment_id = new_id;
      id = user_id;
      movie_id = pos_part mov_id;
      rating = rating;
      content = content;
    }

    insertion : Handler (Unit {0})
    insertion = executed_or_what (insert_comment fits row s.db) >>= λ d.
        commit (update_rating mov_id d) >> succeed "Comment added"

    ticket_first : Handler (Unit {0})
    ticket_first =
        refuse_if (not (has_ticket user_id mov_id s.db)) "You must buy a ticket first to comment"
        >> insertion

-- `add_comment`, whatever the request is: it replies with success, the session's user has the
-- permission `add_comment`, and exactly one comment is added, of this user on the movie of the path,
-- with the text of the request and its rating, which is from 0 to 5; the user has a ticket for the
-- movie that is not refunded and had no comment on it, and the rating of the movie becomes the
-- average over its comments; or the database and the session are as they were.
pub add_comment-Commented :
    (fits : Bytes → Bool) (roles : Roles) (new_id : ℕ) (movie_id : Bytes) (request : Request)
    (s : State)
    → Atomically
        (λ s'. Allowed roles (codes "add_comment") s × CommentedFor new_id movie_id request s s')
        s
        (add_comment fits roles new_id movie_id request)
unfolding add_comment
add_comment-Commented fits roles new_id movie_id request s =
    Atomically-check _ _ _ s (throw_if-IsCheck (not request.is_post) url_not_found) λ _.
      Atomically-permission _ roles (codes "add_comment") _ s λ allowed.
        Atomically-known _ _ _ s session_user-IsCheck λ user logged_in.
          Atomically-check _ _ _ s (text_field-IsCheck request (codes "rating")) λ rating_text.
            Atomically-check _ _ _ s
              (refuse_if-IsCheck (is_empty rating_text) "Rating and content must not be empty")
              λ _.
                Atomically-known _ _ _ s (text_field-IsCheck request (codes "content"))
                  λ content said.
                    Atomically-check _ _ _ s
                      (refuse_if-IsCheck (is_empty content) "Rating and content must not be empty")
                      λ _.
                        Atomically-known _ _ _ s (number_field-IsCheck request (codes "rating"))
                          λ rating rated.
                            Atomically-refuse_if _ (ltb_ℤ rating (pos 0) || ltb_ℤ (pos 5) rating)
                              "Rating must be between 0 and 5" (rest user content rating) s
                              λ in_range.
                                Atomically-known _ _ _ s
                                  (or_refuse-IsCheck (stoi movie_id) "Invalid movie id")
                                  λ mov_id movie_read.
                                    Atomically-begin _
                                      (λ d. comment_on fits new_id user.id mov_id rating content d)
                                      s
                                      (Atomically-mono
                                        (λ s'. Commented new_id user.id mov_id rating content s s')
                                        _ _ s
                                        (λ s' c. (
                                          allowed,
                                          record {
                                            user = user;
                                            mov_id = mov_id;
                                            rating = rating;
                                            content = content;
                                            logged_in = session_user-next s s user logged_in;
                                            movie_read =
                                                or_refuse-next (stoi movie_id) "Invalid movie id" s
                                                  s mov_id movie_read;
                                            rating_field =
                                                number_field-next request (codes "rating") s s
                                                  rating rated;
                                            content_field =
                                                text_field-next request (codes "content") s s
                                                  content said;
                                            commented = c;
                                          },
                                        ))
                                        (comment_on-Commented fits new_id user.id mov_id rating
                                          content s in_range))
  where
    rest : User → Bytes → ℤ → Handler (Unit {0})
    rest user content rating = or_refuse (stoi movie_id) "Invalid movie id" >>= λ mov_id.
        begin >>= λ d. comment_on fits new_id user.id mov_id rating content d
