-- ===== src/WebApp/Routes/Tests.antt =====
-- Runs of the table of routes, and its theorems at concrete urls.
use movie_dbproject.Prelude.{List, [], ◌∷◌, ◌≡◌, refl, none, some, All, inl, inr}
use movie_dbproject.Prelude.Bytes.{Bytes, codes}
use movie_dbproject.Bserv.Router.Pattern.{literal, in_set, match}
use movie_dbproject.Bserv.Router.Placeholders.{
  session, response, json_params, db_connection_ptr, constant,
}
use movie_dbproject.Bserv.Router.Dispatch.{PathHolder, find_path}
use movie_dbproject.Bserv.Router.Dispatch.Apart.{IsThere}
use movie_dbproject.WebApp.Routes.{Handler, view_movies, paths}
use movie_dbproject.WebApp.Routes.Table.{paths-Spells, paths-IsThere}

abbrev entry : PathHolder Handler
entry = record {
  re = literal b'/' ∷ [];
  pf = view_movies;
  params = db_connection_ptr ∷ json_params ∷ session ∷ response ∷ constant (codes "1") ∷ [];
}

paths-Spells_example :
    (url_params : List Bytes) × (find_path paths (codes "/") ≡ some (entry, url_params))
unfolding paths
paths-Spells_example = paths-Spells entry (codes "/") [] (inr (inl refl)) ([], refl, (refl, refl))

-- The path that the table has for a page of users.
abbrev users_page : List (PathHolder Handler) → PathHolder Handler
users_page (a ∷ b ∷ c ∷ d ∷ e ∷ p ∷ rest) = p
users_page other = entry

paths-IsThere_example :
    All (IsThere (codes "/users/12" ∷ codes "12" ∷ [])) (users_page paths).params
unfolding paths find_path match in_set
paths-IsThere_example =
    paths-IsThere (users_page paths) (codes "/users/12") (codes "/users/12" ∷ codes "12" ∷ []) refl

static_file :
    find_path paths (codes "/statics/../secret")
    ≡ some (
      users_page (entry ∷ entry ∷ entry ∷ entry ∷ entry ∷ paths),
      codes "/statics/../secret" ∷ codes "../secret" ∷ [],
    )
unfolding paths find_path match in_set
static_file = refl

no_such_page : find_path paths (codes "/users/x") ≡ none
unfolding paths find_path match in_set
no_such_page = refl
