-- ===== src/Bserv/Client.antt =====
-- bserv/client.cpp and bserv/client.hpp: `http_client_send`, `get_request` and `http_client`. What
-- the network does at each call of boost::asio and boost::beast is a parameter, with the text of
-- an error where there is one; so is boost::json.
pub mod Laws
mod Tests
use movie_dbproject.Prelude.{ℕ, Bool, true, Option, none, some, List, [], ◌∷◌, ◌++◌, ◌⊎◌, inl, inr}
use movie_dbproject.Prelude.Bytes.{Bytes, codes}
use movie_dbproject.Bserv.Server.{name}
use movie_dbproject.Bserv.Router.Resources.{Response}

pub data Verb : Type 0 where
  verb_get verb_put verb_post verb_delete : Verb

-- The parts of a `request_type` that `get_request` sets.
pub record ClientRequest : Type 0 where
  pub method : Verb
  pub target : Bytes
  pub host : Bytes
  pub user_agent : Bytes
  pub content_type : Bytes
  pub body : Bytes
  pub prepared : Bool

-- `shutdown` gives no error where it is `not_connected`.
pub record Network (Endpoints : Type 0) : Type 0 where
  pub resolve : Bytes → Bytes → Bytes ⊎ Endpoints
  pub connect : Endpoints → Option Bytes
  pub write : Endpoints → ClientRequest → Option Bytes
  pub read : Endpoints → ClientRequest → Bytes ⊎ Response
  pub shutdown : Endpoints → ClientRequest → Option Bytes

pub record JsonText (Json : Type 0) : Type 0 where
  pub parse : Bytes → Option Json
  pub serialize : Json → Bytes

-- The calls that the client makes, in their order.
pub data Call : Type 0 where
  resolves expires_after connects writes reads shuts_down : Call
  fails : Bytes → Call

pub data ClientError : Type 0 where
  request_failed : Bytes → ClientError
  not_json : ClientError

-- How a call of the client ends, and the calls that it made.
abbrev pub Sent : Type 0 → Type 0
Sent A = (ClientError ⊎ A) × List Call

abbrev failed : {A : Type 0} → Bytes → Bytes → Sent A
failed step message = (inl (request_failed (step ++ message)), [])

-- The calls in front of the rest.
calling : {A : Type 0} → List Call → Sent A → Sent A
calling calls (result, more) = (result, calls ++ more)

module _ {Endpoints : Type 0} (net : Network Endpoints) where
  -- The end: an error of the shutdown is only reported.
  unfoldable pub shut_down : Endpoints → ClientRequest → Response → Sent Response
  shut_down results req res = elim (net.shutdown results req) [
    | none ↦ (inr res, shuts_down ∷ [])
    | some message ↦ (
      inr res,
      shuts_down ∷ fails (codes "http_client_session::stream::socket shutdown: " ++ message) ∷ [],
    )
  ]

  unfoldable pub exchange : Endpoints → ClientRequest → Sent Response
  unfolding shut_down calling
  exchange results req = calling (expires_after ∷ writes ∷ []) (elim (net.write results req) [
    | some message ↦ failed (codes "http_client_session::stream write: ") message
    | none ↦ calling (reads ∷ []) (elim (net.read results req) [
      | inl message ↦ failed (codes "http_client_session::stream read: ") message
      | inr res ↦ shut_down results req res
    ])
  ])

  unfoldable pub http_client_send : Bytes → Bytes → ClientRequest → Sent Response
  unfolding exchange calling
  http_client_send host port req = calling (resolves ∷ []) (elim (net.resolve host port) [
    | inl message ↦ failed (codes "http_client_session::resolver resolve: ") message
    | inr results ↦ calling (expires_after ∷ connects ∷ []) (elim (net.connect results) [
      | some message ↦ failed (codes "http_client_session::stream connect: ") message
      | none ↦ exchange results req
    ])
  ])

  module _ {Json : Type 0} (lib : JsonText Json) where
    unfoldable pub get_request : Bytes → Bytes → Verb → Json → ClientRequest
    get_request host target method val = record {
      method = method;
      target = target;
      host = host;
      user_agent = name;
      content_type = codes "application/json";
      body = lib.serialize val;
      prepared = true;
    }

    -- `json::parse` of the response.
    unfoldable pub value_of : Sent Response → Sent Json
    value_of (inl e, calls) = (inl e, calls)
    value_of (inr res, calls) = elim (lib.parse res.body) [
      | none ↦ (inl not_json, calls)
      | some val ↦ (inr val, calls)
    ]

    unfoldable pub request_for_value : Bytes → Bytes → ClientRequest → Sent Json
    unfolding http_client_send value_of
    request_for_value host port req = value_of (http_client_send host port req)

    unfoldable pub send : Bytes → Bytes → Bytes → Verb → Json → Sent Response
    unfolding http_client_send get_request
    send host port target method val =
        http_client_send host port (get_request host target method val)

    unfoldable pub send_for_value : Bytes → Bytes → Bytes → Verb → Json → Sent Json
    unfolding request_for_value get_request
    send_for_value host port target method val =
        request_for_value host port (get_request host target method val)

    unfoldable pub get : Bytes → Bytes → Bytes → Json → Sent Response
    unfolding send
    get host port target val = send host port target verb_get val

    unfoldable pub get_for_value : Bytes → Bytes → Bytes → Json → Sent Json
    unfolding send_for_value
    get_for_value host port target val = send_for_value host port target verb_get val

    unfoldable pub put : Bytes → Bytes → Bytes → Json → Sent Response
    unfolding send
    put host port target val = send host port target verb_put val

    unfoldable pub put_for_value : Bytes → Bytes → Bytes → Json → Sent Json
    unfolding send_for_value
    put_for_value host port target val = send_for_value host port target verb_put val

    unfoldable pub post : Bytes → Bytes → Bytes → Json → Sent Response
    unfolding send
    post host port target val = send host port target verb_post val

    unfoldable pub post_for_value : Bytes → Bytes → Bytes → Json → Sent Json
    unfolding send_for_value
    post_for_value host port target val = send_for_value host port target verb_post val

    unfoldable pub delete : Bytes → Bytes → Bytes → Json → Sent Response
    unfolding send
    delete host port target val = send host port target verb_delete val

    unfoldable pub delete_for_value : Bytes → Bytes → Bytes → Json → Sent Json
    unfolding send_for_value
    delete_for_value host port target val = send_for_value host port target verb_delete val
