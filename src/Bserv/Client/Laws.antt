-- ===== src/Bserv/Client/Laws.antt =====
-- bserv/client.cpp and bserv/client.hpp: the calls of `http_client_send`, and what the methods of
-- the client ask.
use movie_dbproject.Prelude.{
  Bool, true, false, ◌&&◌, none, some, List, [], ◌∷◌, ◌⊎◌, inl, inr, ◌≡◌, arith,
}
use movie_dbproject.Prelude.Bytes.{Bytes, codes}
use movie_dbproject.Bserv.Router.Resources.{Response}
use movie_dbproject.Bserv.Client.{
  Verb, ClientRequest, Network, JsonText, Call, resolves, expires_after, connects, writes, reads,
  shuts_down, fails, ClientError, not_json, Sent, calling, shut_down, exchange, http_client_send,
  get_request, value_of, request_for_value, send, send_for_value, get, put, post, delete, verb_get,
  verb_put, verb_post, verb_delete, get_for_value, put_for_value, post_for_value, delete_for_value,
}

-- Each connecting and each writing directly follows the setting of the timer, and each reading
-- directly follows a writing; the flags say which call was the last one.
timed_from : Bool → Bool → List Call → Bool
timed_from set written [] = true
timed_from set written (expires_after ∷ calls) = timed_from true false calls
timed_from set written (connects ∷ calls) = set && timed_from false false calls
timed_from set written (writes ∷ calls) = set && timed_from false true calls
timed_from set written (reads ∷ calls) = written && timed_from false false calls
timed_from set written (resolves ∷ calls) = timed_from false false calls
timed_from set written (shuts_down ∷ calls) = timed_from false false calls
timed_from set written (fails why ∷ calls) = timed_from false false calls

unfoldable pub timed : List Call → Bool
unfolding timed_from
timed calls = timed_from false false calls

-- Whether the socket has been shut down.
unfoldable pub closes : List Call → Bool
closes [] = false
closes (shuts_down ∷ calls) = true
closes (resolves ∷ calls) = closes calls
closes (expires_after ∷ calls) = closes calls
closes (connects ∷ calls) = closes calls
closes (writes ∷ calls) = closes calls
closes (reads ∷ calls) = closes calls
closes (fails why ∷ calls) = closes calls

abbrev pub responds : {A : Type 0} → ClientError ⊎ A → Bool
responds (inl e) = false
responds (inr a) = true

-- Whatever the network does, `http_client_send` sets the timer directly before it connects and
-- directly before it writes, it reads directly after it wrote, and it shuts the socket down
-- exactly where it returns a response.
pub http_client_send-timed :
    {Endpoints : Type 0} (net : Network Endpoints) (host port : Bytes) (req : ClientRequest)
    → let (result, calls) = http_client_send net host port req in
      (timed calls ≡ true) × (closes calls ≡ responds result)
unfolding http_client_send exchange shut_down calling timed timed_from closes
http_client_send-timed net host port req = (ground arith, ground arith)

abbrev pub result {ℓ} : {A B : Type ℓ} → A × B → A
result (a, b) = a

module _ {Endpoints Json : Type 0} (net : Network Endpoints) (lib : JsonText Json) where
  -- A server that can be reached and that answers every request.
  pub record Reached (host port : Bytes) (answer : ClientRequest → Response) : Type 0 where
    pub results : Endpoints
    pub resolved : net.resolve host port ≡ inr results
    pub connected : net.connect results ≡ none
    pub written : (req : ClientRequest) → net.write results req ≡ none
    pub answered : (req : ClientRequest) → net.read results req ≡ inr (answer req)

  -- What the body of a response is worth.
  unfoldable pub value_in : Response → ClientError ⊎ Json
  value_in res = elim (lib.parse res.body) [ none ↦ inl not_json | some val ↦ inr val ]

  http_client_send-answer :
      (host port : Bytes) (answer : ClientRequest → Response) (req : ClientRequest)
      → Reached host port answer
      → result (http_client_send net host port req) ≡ inr (answer req)
  unfolding http_client_send exchange shut_down calling
  http_client_send-answer host port answer req r =
      ground (arith, r.resolved, r.connected, r.written req, r.answered req)

  result-value_of :
      (sent : Sent Response) (res : Response)
      → result sent ≡ inr res
      → result (value_of net lib sent) ≡ value_in res
  unfolding value_of value_in
  result-value_of (inl e, calls) res h = absurd (ground arith)
  result-value_of (inr res', calls) res h = ground (arith, h)

  -- What a method of the client sends and what it makes of the answer.
  abbrev pub Asks :
      Bytes
      → Bytes
      → Verb
      → Json
      → ClientError ⊎ Response
      → ClientError ⊎ Json
      → (ClientRequest → Response)
      → Type 0
  Asks host target method val plain as_value answer =
      let req : ClientRequest = record {
        method = method;
        target = target;
        host = host;
        user_agent = codes "bserv";
        content_type = codes "application/json";
        body = lib.serialize val;
        prepared = true;
      } in
      (plain ≡ inr (answer req)) × (as_value ≡ value_in (answer req))

  send-Asks :
      (host port target : Bytes) (method : Verb) (val : Json) (answer : ClientRequest → Response)
      → Reached host port answer
      → Asks host target method val
          (result (send net lib host port target method val))
          (result (send_for_value net lib host port target method val))
          answer
  unfolding send send_for_value request_for_value get_request
  send-Asks host port target method val answer r =
      let it =
        http_client_send-answer host port answer (get_request net lib host target method val) r in
      (it, result-value_of _ _ it)

  -- With a server that can be reached and that answers every request, each of the eight methods
  -- of the client ends with the answer to the request of its own verb that has the target, the
  -- host and the serialized value as JSON: four give the response, and the other four the value
  -- in its body, or the error of the parser.
  pub client-Asks :
      (host port target : Bytes) (val : Json) (answer : ClientRequest → Response)
      → Reached host port answer
      → Asks host target verb_get val
          (result (get net lib host port target val))
          (result (get_for_value net lib host port target val))
          answer
        × Asks host target verb_put val
            (result (put net lib host port target val))
            (result (put_for_value net lib host port target val))
            answer
        × Asks host target verb_post val
            (result (post net lib host port target val))
            (result (post_for_value net lib host port target val))
            answer
        × Asks host target verb_delete val
            (result (delete net lib host port target val))
            (result (delete_for_value net lib host port target val))
            answer
  unfolding get get_for_value put put_for_value post post_for_value delete delete_for_value
  client-Asks host port target val answer r = (
    send-Asks host port target verb_get val answer r,
    send-Asks host port target verb_put val answer r,
    send-Asks host port target verb_post val answer r,
    send-Asks host port target verb_delete val answer r,
  )
