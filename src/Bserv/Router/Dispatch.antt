-- ===== src/Bserv/Router/Dispatch.antt =====
-- bserv/include/bserv/router.hpp: `path`, `make_path` and `router::operator()`. A handler is known
-- by a value of the application's type `Handler`; `call` runs it, and the application gives that.
pub mod Apart
use movie_dbproject.Prelude.{Option, none, some, List, [], ◌∷◌}
use movie_dbproject.Prelude.Bytes.{Bytes}
use movie_dbproject.Bserv.Router.Pattern.{Piece, re_of, match}
use movie_dbproject.Bserv.Router.Resources.{
  Request, Response, JsonLibrary, Environment, Resources, new_resources, url_not_found, Act, ◌>>=◌,
  throw,
}
use movie_dbproject.Bserv.Router.Placeholders.{Placeholder, Argument, arguments}

pub record PathHolder (Handler : Type 0) : Type 0 where
  pub re : List Piece
  pub pf : Handler
  pub params : List Placeholder

-- `make_path`; `none` where the url is no expression that `compile` knows.
unfoldable pub make_path :
    {Handler : Type 0} → Bytes → Handler → List Placeholder → Option (PathHolder Handler)
unfolding re_of
make_path url pf params = elim (re_of url) [
  | none ↦ none
  | some re ↦ some (record { re = re; pf = pf; params = params })
]

-- The loop of `operator()`: the first path that matches, and its `url_params`.
unfoldable pub find_path :
    {Handler : Type 0}
    → List (PathHolder Handler)
    → Bytes
    → Option (PathHolder Handler × List Bytes)
find_path [] url = none
find_path (p ∷ paths) url = elim (match p.re url) [
  | some url_params ↦ some (p, url_params)
  | none ↦ find_path paths url
]

module _ {Json Handler : Type 0} (lib : JsonLibrary Json)
    (call : Handler → List (Argument Json) → Act (Option Json)) where
  -- `path::invoke`
  unfoldable pub invoke :
      Environment → Request → PathHolder Handler → List Bytes → Act (Option Json)
  unfolding arguments
  invoke env req p url_params = do args ← arguments lib env req url_params p.params; call p.pf args

  -- `router::operator()`
  unfoldable pub dispatch :
      List (PathHolder Handler) → Environment → Bytes → Request → Act (Option Json)
  unfolding invoke find_path
  dispatch paths env url req r = elim (find_path paths url) [
    | none ↦ throw url_not_found r
    | some (p, url_params) ↦ invoke env req p url_params (new_resources r.session_mgr r.response)
  ]
