-- ===== src/WebApp/Views.antt =====
-- WebApp/handlers.cpp and the `redirect_to_…` functions: what a page is rendered from. The template
-- engine is not modelled, so a page is the object `context` that it gets, as a record.
pub mod Lookups
pub mod Lists
pub mod Details
pub mod MyCenter
pub mod Forms
pub mod Readers
pub mod Shown
mod Tests
use movie_dbproject.Prelude.{
  ℕ, zero, suc, ◌*◌, Bool, not, Option, none, some, List, if◌then◌else◌, leb, length, take,
}
use movie_dbproject.Prelude.Bytes.{Bytes}
use movie_dbproject.Prelude.Dict.{Dict}
use movie_dbproject.Prelude.Int.{ℤ, pos, negsuc}
use movie_dbproject.Bserv.Utils.Params.{drop}
use movie_dbproject.WebApp.Db.{User, invalid_offset}
use movie_dbproject.WebApp.Flow.{
  Reply, State, Handler, Flow, next, returns, throws, db_error, undefined_behaviour, runtime_error,
  ◌>>=◌, ◌>>◌, pure, throw, throw_if, get_session,
}
use movie_dbproject.WebApp.Pages.{Pagination, pagination}
use movie_dbproject.WebApp.Permissions.{Roles, get_permission_for_session}
use movie_dbproject.WebApp.Screenings.{may}

-- `context`: what a form replied, if the page follows one, what the page itself adds, and what
-- every page gets.
pub record Page (A : Type 0) : Type 0 where
  pub reply : Option Reply
  pub content : A
  pub permission : Dict Bool
  pub user : Option User

-- `context["permission"] = …; return index(…);`
unfoldable pub index : {A : Type 0} → Roles → Option Reply → A → Handler (Page A)
index roles reply content = do
  session ← get_session
  pure (record {
    reply = reply;
    content = content;
    permission = (get_permission_for_session roles session).0;
    user = session.user;
  })

-- `if (check_session_permission(…) != std::nullopt) throw …("Permission denied");`
unfoldable pub require : Roles → Bytes → Handler (Unit {0})
require roles permission = do
  session ← get_session
  throw_if (not (may roles permission session)) (runtime_error "Permission denied")

-- `(page_id - 1) * 10`, and what the statement says of a negative offset; the product of an `int`
-- that gets too large is undefined.
unfoldable pub page_offset : ℤ → Handler ℕ
page_offset (pos zero) = throw (db_error invalid_offset)
page_offset (pos (suc n)) = if leb n 214748364 then pure (10 * n) else throw undefined_behaviour
page_offset (negsuc n) = throw (db_error invalid_offset)

-- `limit 10 offset …`, on the rows in the order in which the database gives them. The queries have
-- no `order by`, so another page may be cut out of another order.
unfoldable pub limited : {A : Type 0} → ℕ → List A → List A
unfolding take drop
limited offset rows = take 10 (drop offset rows)

-- The number of a page that the database has given an offset for.
abbrev pub page_number : ℤ → ℕ
page_number (pos n) = n
page_number (negsuc n) = 0

-- The rows of a page of a list, with the object `pagination` for all the rows that were counted.
pub record ListPage (A : Type 0) : Type 0 where
  pub rows : List A
  pub numbers : Option Pagination

unfoldable pub list_page : {A : Type 0} → ℕ → List A → ℤ → Handler (ListPage A)
unfolding page_offset limited
list_page total rows page_id = do
  offset ← page_offset page_id
  pure (record { rows = limited offset rows; numbers = pagination total (page_number page_id) })

-- What a handler replies, for the page that a form shows behind it.
abbrev replied : Flow (Unit {0}) × State → Flow (Option Reply) × State
replied (next a, s) = (next none, s)
replied (returns reply, s) = (next (some reply), s)
replied (throws e, s) = (throws e, s)

abbrev pub reply_of : Handler (Unit {0}) → Handler (Option Reply)
reply_of m s = replied (m s)
