-- ===== src/Bserv/Server/Answers.antt =====
-- bserv/bserv.cpp: what `handle_request` answers.
use movie_dbproject.Prelude.{
  ℕ, ◌++◌, ◌≡◌, refl, ◌⊎◌, inl, inr, Option, none, some, List, [], ◌∷◌, arith, All, true, subst,
}
use movie_dbproject.Prelude.Bytes.{Bytes, codes}
use movie_dbproject.Bserv.Utils.Params.{before_query}
use movie_dbproject.Bserv.Session.{Manager}
use movie_dbproject.Bserv.Router.Pattern.{match}
use movie_dbproject.Bserv.Router.Resources.{
  Request, Response, JsonLibrary, Environment, Resources, new_resources, Thrown, url_not_found,
  bad_request, unknown, std_exception, Ended, gives, throws, draws_exhausted, undefined, Act,
}
use movie_dbproject.Bserv.Router.Placeholders.{Argument}
use movie_dbproject.Bserv.Router.Dispatch.{PathHolder, find_path, dispatch}
use movie_dbproject.Bserv.Server.{
  first_response, error_response, not_found_response, bad_request_response, server_error_response,
  caught, with_value, answer, handle_request,
}

find_path-none :
    {Handler : Type 0} (paths : List (PathHolder Handler)) (url : Bytes)
    → All (λ p. match p.re url ≡ none) paths
    → find_path paths url ≡ none
unfolding find_path
find_path-none [] url h = refl
find_path-none (p ∷ paths) url (e, h) = ground (arith, e, find_path-none paths url h)

-- What each exception says to the client.
pub data Says (target : Bytes) : Thrown → ℕ → Bytes → Type 0 where
  says_not_found :
      Says target url_not_found 404
        (codes "The requested url '" ++ (target ++ codes "' does not exist."))
  says_bad_request : Says target bad_request 400 (codes "Request body is not a valid JSON string.")
  says_what :
      (what : Bytes)
      → Says target (std_exception what) 500 (codes "Internal server error: " ++ what)
  says_unknown : Says target unknown 500 (codes "Internal server error: Unknown exception.")

-- The response to an exception: a page with the status and the text that the exception says, as of
-- this server, in the version and with the connection of the request, without a cookie, and ready
-- to be sent. Nothing of it is of the handler but the text of its exception.
pub record IsError (req : Request) (e : Thrown) (res : Response) : Type 0 where
  pub says : Says (before_query req.target) e res.status res.body
  pub server : res.server ≡ codes "bserv"
  pub content_type : res.content_type ≡ codes "text/html"
  pub no_cookie : res.set_cookie ≡ none
  pub version : res.version ≡ req.version
  pub keep_alive : res.keep_alive ≡ req.keep_alive
  pub prepared : res.prepared ≡ true

caught-IsError :
    (req : Request) (e : Thrown) → IsError req e (caught req (before_query req.target) e)
unfolding caught error_response not_found_response bad_request_response server_error_response
caught-IsError req url_not_found = record {
  says = says_not_found;
  server = refl;
  content_type = refl;
  no_cookie = refl;
  version = refl;
  keep_alive = refl;
  prepared = refl;
}
caught-IsError req bad_request = record {
  says = says_bad_request;
  server = refl;
  content_type = refl;
  no_cookie = refl;
  version = refl;
  keep_alive = refl;
  prepared = refl;
}
caught-IsError req unknown = record {
  says = says_unknown;
  server = refl;
  content_type = refl;
  no_cookie = refl;
  version = refl;
  keep_alive = refl;
  prepared = refl;
}
caught-IsError req (std_exception what) = record {
  says = says_what what;
  server = refl;
  content_type = refl;
  no_cookie = refl;
  version = refl;
  keep_alive = refl;
  prepared = refl;
}

module _ {Json Handler : Type 0} (lib : JsonLibrary Json)
    (call : Handler → List (Argument Json) → Act (Option Json)) where
  -- A url that no path of the table matches is answered with status 404 and a body that names it,
  -- and no session is made or changed.
  pub handle_request-not_found :
      (routes : List (PathHolder Handler)) (env : Environment) (req : Request) (m : Manager)
      → All (λ p. match p.re (before_query req.target) ≡ none) routes
      → handle_request lib call routes env req m
        ≡ (gives (not_found_response req (before_query req.target)), m)
  unfolding handle_request answer dispatch caught
  handle_request-not_found routes env req m h =
      ground (arith, find_path-none routes (before_query req.target) h)

  -- A response is either that of a handler which gave a value, with the value, serialized, as the
  -- body if there is one and as the handler left it otherwise, or that to an exception: with 404 and
  -- a text that names the url where it is `url_not_found`, with 400 where the body of the request is
  -- refused, with 500 and the text of the exception otherwise, and with nothing of what the handler
  -- had set in the response.
  pub handle_request-IsError :
      (routes : List (PathHolder Handler)) (env : Environment) (req : Request) (m : Manager)
      (res : Response)
      → (handle_request lib call routes env req m).0 ≡ gives res
      → let (e, r) =
          dispatch lib call routes env
            (before_query req.target)
            req
            (new_resources m (first_response req)) in
        ((val : Json) × (e ≡ gives (some val))
          × (res ≡ record r.response { body = lib.serialize val; prepared = true }))
        ⊎ ((e ≡ gives none) × (res ≡ r.response))
        ⊎ ((x : Thrown) × (e ≡ throws x) × IsError req x res)
  unfolding handle_request answer
  handle_request-IsError routes env req m res h = go _ h
    where
      go :
          (d : Ended (Option Json) × Resources)
          → (answer lib call req (before_query req.target) d).0 ≡ gives res
          → ((val : Json) × (d.0 ≡ gives (some val))
              × (res ≡ record d.1.response { body = lib.serialize val; prepared = true }))
            ⊎ ((d.0 ≡ gives none) × (res ≡ d.1.response))
            ⊎ ((x : Thrown) × (d.0 ≡ throws x) × IsError req x res)
      go (gives none, r) e = inr (inl (refl, unfold with_value in ground (arith, e)))
      go (gives (some val), r) e = inl (val, refl, unfold with_value in ground (arith, e))
      go (throws x, r) e =
          let same_response : caught req (before_query req.target) x ≡ res = ground (arith, e) in
          inr (inr (x, refl, subst (IsError req x) same_response (caught-IsError req x)))
      go (draws_exhausted, r) e = absurd (ground (arith, e))
      go (undefined, r) e = absurd (ground (arith, e))
