-- ===== src/Bserv/Client/Tests.antt =====
-- Runs of the client, and its theorems at a concrete network.
use movie_dbproject.Prelude.{◌≡◌, refl, true, false, none, some, [], ◌∷◌, ◌++◌, inl, inr}
use movie_dbproject.Prelude.Bytes.{Bytes, codes}
use movie_dbproject.Bserv.Router.Resources.{Response}
use movie_dbproject.Bserv.Client.{
  ClientRequest, Network, JsonText, verb_get, verb_put, verb_post, verb_delete, resolves,
  expires_after, connects, writes, reads, request_failed, http_client_send, get, get_for_value, put,
  put_for_value, post, post_for_value, delete, delete_for_value,
}
use movie_dbproject.Bserv.Client.Laws.{
  timed, closes, responds, result, http_client_send-timed, Reached, Asks, client-Asks,
}

-- A value is its text.
abbrev plain_text : JsonText Bytes
plain_text = record { parse = λ s. some s; serialize = λ s. s }

abbrev with_body : Bytes → Response
with_body body = record {
  status = 200;
  version = 11;
  server = codes "bserv";
  content_type = codes "application/json";
  set_cookie = none;
  keep_alive = false;
  body = body;
  prepared = true;
}

abbrev echo : ClientRequest → Response
echo req = with_body (codes "echo " ++ req.body)

abbrev echo_network : Network Bytes
echo_network = record {
  resolve = λ host port. inr host;
  connect = λ results. none;
  write = λ results req. none;
  read = λ results req. inr (echo req);
  shutdown = λ results req. none;
}

abbrev deaf_network : Network Bytes
deaf_network = record echo_network { read = λ results req. inl (codes "timeout") }

http_client_send-deaf :
    (req : ClientRequest)
    → http_client_send deaf_network (codes "localhost") (codes "8080") req ≡ (
      inl (request_failed (codes "http_client_session::stream read: timeout")),
      resolves ∷ expires_after ∷ connects ∷ expires_after ∷ writes ∷ reads ∷ [],
    )
unfolding http_client_send
http_client_send-deaf req = refl

abbrev sample_request : ClientRequest
sample_request = record {
  method = verb_post;
  target = codes "/echo";
  host = codes "localhost";
  user_agent = codes "bserv";
  content_type = codes "application/json";
  body = codes "1";
  prepared = true;
}

http_client_send-timed_example :
    let (end, calls) =
      http_client_send deaf_network (codes "localhost") (codes "8080") sample_request in
    (timed calls ≡ true) × (closes calls ≡ responds end)
http_client_send-timed_example =
    http_client_send-timed deaf_network (codes "localhost") (codes "8080") sample_request

abbrev local_host : Bytes
local_host = codes "localhost"

abbrev local_port : Bytes
local_port = codes "8080"

abbrev echo_reached : Reached echo_network plain_text local_host local_port echo
echo_reached = record {
  results = local_host;
  resolved = refl;
  connected = refl;
  written = λ req. refl;
  answered = λ req. refl;
}

client-Asks_example :
    Asks echo_network plain_text local_host
      (codes "/echo")
      verb_get
      (codes "1")
      (result (get echo_network plain_text local_host local_port (codes "/echo") (codes "1")))
      (result
        (get_for_value echo_network plain_text local_host local_port (codes "/echo") (codes "1")))
      echo
    × Asks echo_network plain_text local_host
        (codes "/echo")
        verb_put
        (codes "1")
        (result (put echo_network plain_text local_host local_port (codes "/echo") (codes "1")))
        (result
          (put_for_value echo_network plain_text local_host local_port (codes "/echo") (codes "1")))
        echo
    × Asks echo_network plain_text local_host
        (codes "/echo")
        verb_post
        (codes "1")
        (result (post echo_network plain_text local_host local_port (codes "/echo") (codes "1")))
        (result (
          post_for_value echo_network plain_text local_host local_port (codes "/echo") (codes "1")))
        echo
    × Asks echo_network plain_text local_host
        (codes "/echo")
        verb_delete
        (codes "1")
        (result (delete echo_network plain_text local_host local_port (codes "/echo") (codes "1")))
        (result (
          delete_for_value echo_network plain_text local_host local_port
            (codes "/echo")
            (codes "1")))
        echo
client-Asks_example =
    client-Asks echo_network plain_text local_host local_port (codes "/echo") (codes "1") echo
      echo_reached
