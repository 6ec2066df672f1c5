-- ===== src/WebApp/Routes/Table.antt =====
-- WebApp/WebApp.cpp: the table of routes under the router.
use movie_dbproject.Prelude.{List, ◌≡◌, refl, true, some, All, Any, length}
use movie_dbproject.Prelude.Bytes.{Bytes}
use movie_dbproject.Bserv.Router.Pattern.Matching.{Spells}
use movie_dbproject.Bserv.Router.Dispatch.{PathHolder, find_path}
use movie_dbproject.Bserv.Router.Dispatch.Apart.{
  all_apart, all_in_range, IsThere, find_path-Spells, find_path-IsThere,
}
use movie_dbproject.WebApp.Routes.{Handler, paths}

-- Every url of the table is an expression.
paths_compile : length paths ≡ 34
unfolding paths
paths_compile = refl

paths_apart : all_apart paths ≡ true
unfolding paths all_apart
paths_apart = refl

paths_in_range : all_in_range paths ≡ true
unfolding paths all_in_range
paths_in_range = refl

-- A url that is spelled by the pattern of a route of the application is given to the handler of
-- that route, whatever the order of the routes.
pub paths-Spells :
    (p : PathHolder Handler) (url : Bytes) (groups : List Bytes)
    → Any (λ q. q ≡ p) paths
    → Spells p.re url groups
    → (url_params : List Bytes) × (find_path paths url ≡ some (p, url_params))
paths-Spells p url groups there spelled =
    let (url_params, found, _) = find_path-Spells paths p url groups paths_apart there spelled in
    (url_params, found)

-- The handler of a route of the application reads no url parameter that the match does not set.
pub paths-IsThere :
    (p : PathHolder Handler) (url : Bytes) (url_params : List Bytes)
    → find_path paths url ≡ some (p, url_params)
    → All (IsThere url_params) p.params
paths-IsThere p url url_params found = find_path-IsThere paths p url url_params paths_in_range found
