-- ===== src/Bserv/Server/Tests.antt =====
-- Runs of the router and of `handle_request`, and their theorems at concrete values.
use movie_dbproject.Bserv.Router.Placeholders.Body.{
  first_of, body_value, url_value, lookup-get_json_params,
}
use movie_dbproject.Bserv.Utils.Params.{before_query, parse_params, parse_url}
use movie_dbproject.Prelude.{
  false, true, ℕ, ◌≡◌, ◌⊎◌, inl, refl, arith, Bool, Option, none, some, List, [], ◌∷◌, is_some,
  if◌then◌else◌,
}
use movie_dbproject.Bserv.Router.Resources.{
  Request, Response, JsonLibrary, Environment, new_resources, Thrown, gives, throws, Act, pure,
}
use movie_dbproject.Prelude.Bytes.{Bytes, codes, same}
use movie_dbproject.Prelude.Dict.{Dict, lookup, insert}
use movie_dbproject.Bserv.Utils.Url.{contains_byte, decode_url}
use movie_dbproject.Bserv.Session.{new_manager, remove_expired}
use movie_dbproject.Bserv.Session.Calls.{CanDraw}
use movie_dbproject.Bserv.Session.Invariant.{new_manager-Inv}
use movie_dbproject.Bserv.Router.Pattern.{Piece, literal, group, in_set, match}
use movie_dbproject.Bserv.Router.Pattern.Matching.{Spells, match-Spells}
use movie_dbproject.Bserv.Router.Placeholders.{
  json_params, url_param, session, Argument, media_type, get_session, get_json_params,
}
use movie_dbproject.Bserv.Router.Placeholders.Cookie.{kept_cookie, get_session-kept_cookie}
use movie_dbproject.Bserv.Router.Dispatch.{PathHolder, dispatch}
use movie_dbproject.Bserv.Server.{first_response, error_response, handle_request}
use movie_dbproject.Bserv.Server.Answers.{IsError, handle_request-IsError}
use movie_dbproject.Bserv.Server.Connection.{
  Reach, IsConsistent, connection-IsConsistent, start, next, read, handled, wrote, message, run,
  on_read, send, on_write, do_read,
}

-- JSON values that are lists of strings; two texts are objects.
abbrev small_json : JsonLibrary (List Bytes)
small_json = record {
  string = λ s. s ∷ [];
  array = λ values. values;
  parse_object = λ s.
      if same s (codes "{}")
      then some []
      else if same s (codes "{\"a\":\"1\"}")
      then some ((codes "a", codes "1" ∷ []) ∷ [])
      else none;
  serialize = λ values. codes "json";
}

abbrev calm : Environment
calm = record {
  clock = λ n. 7;
  strings = codes "k7" ∷ [];
  ints = 5 ∷ [];
  connection = 0;
  has_websocket = false;
}

abbrev plain_request : Request
plain_request = record {
  target = codes "/users/7?b=2&a=3";
  cookie = [];
  content_type = codes "application/json; charset=UTF-8";
  body = codes "{\"a\":\"1\"}";
  keep_alive = true;
  version = 11;
}

abbrev empty_response : Response
empty_response = record {
  status = 200;
  version = 11;
  server = [];
  content_type = [];
  set_cookie = none;
  keep_alive = true;
  body = [];
  prepared = false;
}

abbrev users_re : List Piece
users_re =
    literal b'/'
    ∷ literal b'u'
    ∷ literal b's'
    ∷ literal b'e'
    ∷ literal b'r'
    ∷ literal b's'
    ∷ literal b'/'
    ∷ group ((b'0', b'9') ∷ [])
    ∷ []

abbrev users_path : PathHolder ℕ
users_path = record { re = users_re; pf = 3; params = url_param 1 ∷ session ∷ json_params ∷ [] }

abbrev entry_path : PathHolder ℕ
entry_path = record { re = literal b'/' ∷ []; pf = 4; params = [] }

abbrev table : List (PathHolder ℕ)
table = entry_path ∷ users_path ∷ []

-- A handler that returns what it was given for its url parameter.
abbrev call : ℕ → List (Argument (List Bytes)) → Act (Option (List Bytes))
call h args = pure (some [])

user_seven : Spells users_re (codes "/users/7") (codes "7" ∷ [])
unfolding in_set
user_seven = (
  codes "users/7",
  refl,
  (
    codes "sers/7",
    refl,
    (
      codes "ers/7",
      refl,
      (
        codes "rs/7",
        refl,
        (
          codes "s/7",
          refl,
          (
            codes "/7",
            refl,
            (codes "7", refl, (codes "7", [], [], refl, refl, refl, (refl, tt), (refl, refl))),
          ),
        ),
      ),
    ),
  ),
)

match-Spells_example :
    ((result : List Bytes)
      → match users_re (codes "/users/7") ≡ some result
      → (groups : List Bytes) × (result ≡ codes "/users/7" ∷ groups)
        × Spells users_re (codes "/users/7") groups)
    × ((groups : List Bytes)
        → Spells users_re (codes "/users/7") groups
        → is_some (match users_re (codes "/users/7")) ≡ true)
match-Spells_example = match-Spells users_re (codes "/users/7")

draws : (CanDraw 7 new_manager (codes "k7" ∷ []) (5 ∷ []))
unfolding remove_expired
draws = (inl refl, inl refl)

get_session-kept_cookie_example :
    let (e, r1) = get_session calm plain_request (new_resources new_manager empty_response) in
    let (e', r2) =
      get_session
        (record calm { clock = λ n. 9 })
        (record plain_request { cookie = kept_cookie r1.response })
        (new_resources r1.session_mgr empty_response) in
    (a : ℕ) × (e ≡ gives (some a)) × (e' ≡ gives (some a)) × (r2.response ≡ empty_response)
unfolding contains_byte
get_session-kept_cookie_example =
    get_session-kept_cookie calm (record calm { clock = λ n. 9 }) plain_request plain_request
      new_manager empty_response empty_response new_manager-Inv refl draws
      ((refl, ground arith, (refl, (refl, tt))), tt) (omega arith)

abbrev merged : Dict (List Bytes)
merged = (codes "a", codes "1" ∷ []) ∷ (codes "b", codes "2" ∷ []) ∷ []

lookup-get_json_params_example :
    (lookup (codes "a") merged
      ≡ first_of
          (body_value small_json plain_request (codes "a"))
          (url_value small_json plain_request (codes "a")))
    × (new_resources new_manager empty_response ≡ new_resources new_manager empty_response)
unfolding get_json_params media_type parse_url parse_params before_query decode_url same lookup
    insert
lookup-get_json_params_example =
    lookup-get_json_params small_json plain_request (new_resources new_manager empty_response)
      (new_resources new_manager empty_response) merged (codes "a") refl

abbrev broken_request : Request
broken_request = record plain_request { body = codes "{" }

handle_request-IsError_example :
    let (e, r) =
      dispatch small_json call table calm
        (before_query (codes "/rooms"))
        (record plain_request { target = codes "/rooms" })
        (new_resources new_manager (first_response plain_request)) in
    ((val : List Bytes) × (e ≡ gives (some val))
      × (error_response plain_request 404 (codes "The requested url '/rooms' does not exist.")
          ≡ record r.response { body = small_json.serialize val; prepared = true }))
    ⊎ ((e ≡ gives none)
        × (error_response plain_request 404 (codes "The requested url '/rooms' does not exist.")
            ≡ r.response))
    ⊎ ((x : Thrown) × (e ≡ throws x)
        × IsError
            (record plain_request { target = codes "/rooms" })
            x
            (error_response plain_request 404 (codes "The requested url '/rooms' does not exist.")))
unfolding handle_request match before_query in_set first_response
handle_request-IsError_example =
    handle_request-IsError small_json call table calm
      (record plain_request { target = codes "/rooms" }) new_manager
      (error_response plain_request 404 (codes "The requested url '/rooms' does not exist.")) refl

-- A session that has read one request and written its response.
abbrev Answers404 : Request → Response → Type 0
Answers404 req msg = msg ≡ error_response req 404 []

abbrev no_upgrade : Request → Bool
no_upgrade req = false

abbrev keeps_open : Response → Bool
keeps_open msg = false

one_answer : Reach Answers404 no_upgrade keeps_open (
    on_write false false (
      send keeps_open
        (error_response plain_request 404 [])
        (on_read no_upgrade (message plain_request) run)))
unfolding run do_read on_read send
one_answer =
    next
      (next (next start (read run (message plain_request) refl)) (
        handled (on_read no_upgrade (message plain_request) run) plain_request
          (error_response plain_request 404 []) refl refl))
      (wrote
        (send keeps_open (error_response plain_request 404 [])
          (on_read no_upgrade (message plain_request) run))
        false false refl)

connection-IsConsistent_example : IsConsistent Answers404 no_upgrade keeps_open (
    on_write false false (
      send keeps_open
        (error_response plain_request 404 [])
        (on_read no_upgrade (message plain_request) run)))
connection-IsConsistent_example =
    connection-IsConsistent Answers404 no_upgrade keeps_open
      (on_write false false (
        send keeps_open (error_response plain_request 404 [])
          (on_read no_upgrade (message plain_request) run)))
      one_answer
