-- ===== src/Bserv/Server.antt =====
-- bserv/bserv.cpp: `handle_request`. The handlers of the application run through the parameter
-- `call` of the router.
pub mod Answers
pub mod Connection
mod Tests
use movie_dbproject.Prelude.{ℕ, true, false, Option, none, some, List, [], ◌++◌}
use movie_dbproject.Prelude.Bytes.{Bytes, codes}
use movie_dbproject.Bserv.Utils.Params.{before_query}
use movie_dbproject.Bserv.Session.{Manager}
use movie_dbproject.Bserv.Router.Resources.{
  Request, Response, JsonLibrary, Environment, Resources, new_resources, Thrown, url_not_found,
  bad_request, unknown, std_exception, Ended, gives, throws, draws_exhausted, undefined, Act,
}
use movie_dbproject.Bserv.Router.Placeholders.{Argument}
use movie_dbproject.Bserv.Router.Dispatch.{PathHolder, dispatch}

-- `NAME`
abbrev pub name : Bytes
name = codes "bserv"

-- The response that the handler finds.
unfoldable pub first_response : Request → Response
first_response req = record {
  status = 200;
  version = req.version;
  server = name;
  content_type = codes "application/json";
  set_cookie = none;
  keep_alive = req.keep_alive;
  body = [];
  prepared = false;
}

-- What the three lambdas have in common.
unfoldable pub error_response : Request → ℕ → Bytes → Response
error_response req status body = record {
  status = status;
  version = req.version;
  server = name;
  content_type = codes "text/html";
  set_cookie = none;
  keep_alive = req.keep_alive;
  body = body;
  prepared = true;
}

unfoldable pub bad_request_response : Request → Bytes → Response
unfolding error_response
bad_request_response req why = error_response req 400 why

unfoldable pub not_found_response : Request → Bytes → Response
unfolding error_response
not_found_response req target =
    error_response req 404 (codes "The requested url '" ++ (target ++ codes "' does not exist."))

unfoldable pub server_error_response : Request → Bytes → Response
unfolding error_response
server_error_response req what = error_response req 500 (codes "Internal server error: " ++ what)

-- The `catch` clauses.
unfoldable pub caught : Request → Bytes → Thrown → Response
unfolding bad_request_response not_found_response server_error_response
caught req url url_not_found = not_found_response req url
caught req url bad_request =
    bad_request_response req (codes "Request body is not a valid JSON string.")
caught req url (std_exception what) = server_error_response req what
caught req url unknown = server_error_response req (codes "Unknown exception.")

module _ {Json Handler : Type 0} (lib : JsonLibrary Json)
    (call : Handler → List (Argument Json) → Act (Option Json)) where
  -- The value that the handler returns goes into the body.
  unfoldable pub with_value : Option Json → Response → Response
  with_value none res = res
  with_value (some val) res = record res { body = lib.serialize val; prepared = true }

  -- How the routes end, as a response and the session manager behind it.
  unfoldable pub answer :
      Request → Bytes → Ended (Option Json) × Resources → Ended Response × Manager
  unfolding caught with_value
  answer req url (gives val, r) = (gives (with_value val r.response), r.session_mgr)
  answer req url (throws e, r) = (gives (caught req url e), r.session_mgr)
  answer req url (draws_exhausted, r) = (draws_exhausted, r.session_mgr)
  answer req url (undefined, r) = (undefined, r.session_mgr)

  unfoldable pub handle_request :
      List (PathHolder Handler) → Environment → Request → Manager → Ended Response × Manager
  unfolding answer dispatch before_query first_response
  handle_request routes env req m =
      let url = before_query req.target in
      answer req url (dispatch lib call routes env url req (new_resources m (first_response req)))
