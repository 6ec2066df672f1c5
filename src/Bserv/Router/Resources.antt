-- ===== src/Bserv/Router/Resources.antt =====
-- bserv/include/bserv/router.hpp: `request_resources`, and a monad for the code that works on them
-- and may throw. What the code uses of boost::json is an interface.
use movie_dbproject.Prelude.{ℕ, Bool, false, Option, none, some, List, ◌≡◌, refl, arith}
use movie_dbproject.Prelude.Bytes.{Bytes}
use movie_dbproject.Prelude.Dict.{Dict}
use movie_dbproject.Bserv.Session.{Manager}

-- What the code reads of a request of boost::beast; a header field that is not there is empty.
pub record Request : Type 0 where
  pub target : Bytes
  pub cookie : Bytes
  pub content_type : Bytes
  pub body : Bytes
  pub keep_alive : Bool
  pub version : ℕ

-- What the code sets of a response; `prepared` says that `prepare_payload` was called.
pub record Response : Type 0 where
  pub status : ℕ
  pub version : ℕ
  pub server : Bytes
  pub content_type : Bytes
  pub set_cookie : Option Bytes
  pub keep_alive : Bool
  pub body : Bytes
  pub prepared : Bool

-- `boost::json::value`: a string, an array of strings, `parse(…).as_object()` (`none` where one of
-- the two throws), and `serialize`.
pub record JsonLibrary (Json : Type 0) : Type 0 where
  pub string : Bytes → Json
  pub array : List Bytes → Json
  pub parse_object : Bytes → Option (Dict Json)
  pub serialize : Json → Bytes

-- What comes from outside while one request is handled: the time at each call of the session
-- manager, the values that its generators draw, the connection that `get_or_block` gives, and
-- whether the request came over a websocket.
pub record Environment : Type 0 where
  pub clock : ℕ → ℕ
  pub strings : List Bytes
  pub ints : List ℕ
  pub connection : ℕ
  pub has_websocket : Bool

-- The session manager and the fields of `request_resources` that change. Session objects and
-- connections are known by their addresses; of the client and the websocket server there is
-- whether they have been made.
pub record Resources : Type 0 where
  pub session_mgr : Manager
  pub response : Response
  pub session_ptr : Option ℕ
  pub db_connection_ptr : Option ℕ
  pub http_client_ptr : Bool
  pub websocket_server_ptr : Bool

-- `request_resources resources{ … };`
abbrev pub new_resources : Manager → Response → Resources
new_resources m response = record {
  session_mgr = m;
  response = response;
  session_ptr = none;
  db_connection_ptr = none;
  http_client_ptr = false;
  websocket_server_ptr = false;
}

-- What is thrown: the exceptions of the router, another `std::exception` with its `what()`, or
-- something else.
pub data Thrown : Type 0 where
  url_not_found bad_request unknown : Thrown
  std_exception : Bytes → Thrown

pub data Ended (A : Type 0) : Type 0 where
  gives : A → Ended A
  throws : Thrown → Ended A
  -- The values drawn are used up before a loop that draws them ends.
  draws_exhausted : Ended A
  -- The code reads outside a container or through a null pointer.
  undefined : Ended A

abbrev pub Act : Type 0 → Type 0
Act A = Resources → Ended A × Resources

-- What comes behind a step that has ended.
abbrev pub continue : {A B : Type 0} → Ended A × Resources → (A → Act B) → Ended B × Resources
continue (gives a, r) f = f a r
continue (throws x, r) f = (throws x, r)
continue (draws_exhausted, r) f = (draws_exhausted, r)
continue (undefined, r) f = (undefined, r)

infixl 5 ◌>>=◌
abbrev pub ◌>>=◌ : {A B : Type 0} → Act A → (A → Act B) → Act B
◌>>=◌ m f r = continue (m r) f

module _ {A : Type 0} where
  abbrev pub pure : A → Act A
  pure a r = (gives a, r)

  abbrev pub throw : Thrown → Act A
  throw x r = (throws x, r)

  abbrev pub or_throw : Option A → Thrown → Act A
  or_throw none x = throw x
  or_throw (some a) x = pure a

-- Where a chain gives a value, its first part did.
pub continue-gives :
    {A B : Type 0} (e : Ended A × Resources) (f : A → Act B) {b : B} {r' : Resources}
    → continue e f ≡ (gives b, r')
    → (a : A) × (r1 : Resources) × (e ≡ (gives a, r1)) × (f a r1 ≡ (gives b, r'))
continue-gives (gives a, r1) f h = (a, r1, refl, h)
continue-gives (throws x, r1) f h = absurd (ground arith)
continue-gives (draws_exhausted, r1) f h = absurd (ground arith)
continue-gives (undefined, r1) f h = absurd (ground arith)
