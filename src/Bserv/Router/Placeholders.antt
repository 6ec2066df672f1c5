-- ===== src/Bserv/Router/Placeholders.antt =====
-- bserv/include/bserv/router.hpp: the placeholders, what `get_parameter_data` gives for each, and

-- the order in which a handler's arguments are made.
pub mod Body
pub mod Cookie
use movie_dbproject.Prelude.{
  ℕ, zero, suc, ◌+◌, Bool, true, false, Option, none, some, List, [], ◌∷◌, ◌++◌, ◌==◌, ◌||◌,
  if◌then◌else◌,
}
use movie_dbproject.Prelude.Bytes.{Bytes, codes, same}
use movie_dbproject.Prelude.Dict.{Dict, lookup, insert, contains}
use movie_dbproject.Bserv.Utils.Url.{space}
use movie_dbproject.Bserv.Utils.Params.{Params, ampersand, is_empty, parse_params, parse_url}
use movie_dbproject.Bserv.Session
use movie_dbproject.Bserv.Session.{Manager, Outcome, Given, get_or_create, try_get}
use movie_dbproject.Bserv.Router.Resources.{
  Request, Response, JsonLibrary, Environment, Resources, Thrown, bad_request, std_exception, Ended,
  gives, throws, draws_exhausted, undefined, Act, ◌>>=◌, pure, throw, or_throw,
}

abbrev pub session_name : Bytes
session_name = codes "bsessionid"

abbrev pub semicolon : ℕ
semicolon = b';'

-- The exception of `std::stoi` out of `decode_url`.
abbrev pub bad_number : Thrown
bad_number = std_exception (codes "stoi")

-- `placeholder<N>`, and an argument that is no placeholder.
pub data Placeholder : Type 0 where
  url_param : ℕ → Placeholder
  session request response json_params db_connection_ptr : Placeholder
  http_client_ptr websocket_server_ptr : Placeholder
  constant : Bytes → Placeholder

-- A call of the session manager: the manager is as before where the call does not end.
with_outcome : {A B : Type 0} → Outcome A → (A → Act B) → Act B
with_outcome (Session.done a) f r = f a r
with_outcome Session.draws_exhausted f r = (draws_exhausted, r)
with_outcome Session.undefined f r = (undefined, r)

abbrev with_manager : Manager → Resources → Resources
with_manager m r = record r { session_mgr = m }

-- The loop over the ids of a repeated cookie, from the n-th call of the manager on: the first id
-- with a session and that session.
unfoldable pub first_session : Environment → ℕ → List Bytes → Act (ℕ × Option (Bytes × ℕ))
unfolding with_outcome
first_session env n [] r = pure (n, none) r
first_session env n (sess_id ∷ session_ids) r =
    with_outcome (try_get (env.clock n) sess_id r.session_mgr)
      (λ found. elim found.0 [
        | some a ↦ λ r'. (gives (suc n, some (sess_id, a)), with_manager found.1 r')
        | none ↦ λ r'. first_session env (suc n) session_ids (with_manager found.1 r')
      ])
      r

-- `get_or_create`, with the cookie of a session that it makes.
unfoldable pub make_session : Environment → ℕ → Bytes → Act (Option ℕ)
unfolding with_outcome
make_session env n session_id r =
    with_outcome (get_or_create (env.clock n) env.strings env.ints session_id r.session_mgr)
      (λ given r'. (
        gives given.session_ptr,
        record r' {
          session_mgr = given.manager;
          session_ptr = given.session_ptr;
          response =
              if given.created
              then record r'.response {
                set_cookie = some (session_name ++ (b'=' ∷ given.key ++ codes "; Path=/"));
              }
              else r'.response;
        },
      ))
      r

-- The session of the cookies: the branches on the two maps.
unfoldable pub session_of : Environment → Params → Act (Option ℕ)
unfolding make_session first_session
session_of env cookies = elim (lookup session_name cookies.dict) [
  | some session_id ↦ make_session env 0 session_id
  | none ↦ elim (lookup session_name cookies.list) [
    | none ↦ make_session env 0 []
    | some session_ids ↦ do
      (n, found) ← first_session env 0 session_ids
      elim found [
        | none ↦ make_session env n []
        | some (sess_id, a) ↦ λ r. (gives (some a), record r { session_ptr = some a })
      ]
  ]
]

-- `get_parameter_data` for `placeholders::session`.
unfoldable pub get_session : Environment → Request → Act (Option ℕ)
unfolding session_of
get_session env req r = elim r.session_ptr [
  | some a ↦ (gives (some a), r)
  | none ↦
      (do
        cookies ← or_throw (parse_params req.cookie 0 semicolon) bad_number
        session_of env cookies)
        r
]

-- The loop over `content_type`.
unfoldable pub media_type : Bytes → Bytes
media_type [] = []
media_type (c ∷ content_type) =
    let rest = media_type content_type in
    if c == space then rest else if c == semicolon then [] else c ∷ rest

module _ {Json : Type 0} (lib : JsonLibrary Json) where
  -- A loop of `add_to_body`; `value` makes a JSON value of what a key has.
  unfoldable pub add_missing : {V : Type 0} → (V → Json) → Dict V → Dict Json → Dict Json
  add_missing value [] body = body
  add_missing value ((k, v) ∷ d) body =
      add_missing value d (if contains k body then body else insert k (value v) body)

  unfoldable pub add_to_body : Params → Dict Json → Dict Json
  unfolding add_missing
  add_to_body p body = add_missing lib.array p.list (add_missing lib.string p.dict body)

  -- The object of the body of the request.
  unfoldable pub body_object : Request → Act (Dict Json)
  unfolding add_to_body media_type
  body_object req =
      if is_empty req.body
      then pure []
      else if same (media_type req.content_type) (codes "application/json")
      then or_throw (lib.parse_object req.body) bad_request
      else if same (media_type req.content_type) (codes "application/x-www-form-urlencoded")
      then (do p ← or_throw (parse_params req.body 0 ampersand) bad_number; pure (add_to_body p []))
      else pure []

  -- `get_parameter_data` for `placeholders::json_params`.
  unfoldable pub get_json_params : Request → Act (Dict Json)
  unfolding body_object
  get_json_params req = do
    body ← body_object req
    (url, p) ← or_throw (parse_url req.target) bad_number
    pure (add_to_body p body)

-- An argument of a handler: references to the request and the response are just named.
pub data Argument (Json : Type 0) : Type 0 where
  text : Bytes → Argument Json
  session_object : Option ℕ → Argument Json
  the_request the_response the_http_client the_websocket_server : Argument Json
  params : Dict Json → Argument Json
  connection : Option ℕ → Argument Json

-- `url_params[N]`
unfoldable pub get_url_param : {A : Type 0} → List A → ℕ → Option A
get_url_param [] n = none
get_url_param (x ∷ xs) zero = some x
get_url_param (x ∷ xs) (suc n) = get_url_param xs n

-- `get_parameter_data` for `placeholders::db_connection_ptr`.
unfoldable pub get_connection : Environment → Act (Option ℕ)
get_connection env r = elim r.db_connection_ptr [
  | some c ↦ (gives (some c), r)
  | none ↦ (gives (some env.connection), record r { db_connection_ptr = some env.connection })
]

module _ {Json : Type 0} (lib : JsonLibrary Json) (env : Environment) (req : Request)
    (url_params : List Bytes) where
  -- `get_parameter_data`
  unfoldable pub get_parameter_data : Placeholder → Act (Argument Json)
  unfolding get_session get_json_params get_connection get_url_param
  get_parameter_data (url_param n) r = elim (get_url_param url_params n) [
    | none ↦ (undefined, r)
    | some s ↦ (gives (text s), r)
  ]
  get_parameter_data session r = (do p ← get_session env req; pure (session_object p)) r
  get_parameter_data request r = (gives the_request, r)
  get_parameter_data response r = (gives the_response, r)
  get_parameter_data json_params r = (do p ← get_json_params lib req; pure (params p)) r
  get_parameter_data db_connection_ptr r = (do c ← get_connection env; pure (connection c)) r
  get_parameter_data http_client_ptr r =
      (gives the_http_client, record r { http_client_ptr = true })
  get_parameter_data websocket_server_ptr r =
      if r.websocket_server_ptr || env.has_websocket
      then (gives the_websocket_server, record r { websocket_server_ptr = true })
      else (undefined, r)
  get_parameter_data (constant s) r = (gives (text s), r)

  -- The arguments of a handler: `path_handler` makes the last one first.
  unfoldable pub arguments : List Placeholder → Act (List (Argument Json))
  unfolding get_parameter_data
  arguments [] = pure []
  arguments (p ∷ ps) = do rest ← arguments ps; a ← get_parameter_data p; pure (a ∷ rest)
