-- ===== src/Bserv/Server/Connection.antt =====
-- bserv/bserv.cpp: `http_session`, the handling of one connection, as steps. `handle_request` is
-- the parameter `Answers`, a relation of a request and a response; that a response asks for the end
-- of the connection (`need_eof`) and that a request is an upgrade come from boost::beast.
use movie_dbproject.Prelude.{
  Bool, true, false, Option, none, some, List, [], ◌∷◌, ◌++◌, ◌≡◌, refl, ◌⊎◌, inl, inr,
  if◌then◌else◌, subst, sym,
}
use movie_dbproject.Bserv.Router.Resources.{Request, Response}

-- What the session waits for: a request, the coroutine that handles one, the end of a write that
-- was told whether to close behind it; or nothing more, the socket having been given to a
-- websocket, shut down, or failed.
pub data Phase : Type 0 where
  reading upgraded closed failed : Phase
  handling : Request → Phase
  writing : Bool → Phase

-- `res_`, the requests handed to handlers and the responses written whole, in order.
pub record Connection : Type 0 where
  pub phase : Phase
  pub res : Option Response
  pub received : List Request
  pub written : List Response

-- How `async_read` ends.
pub data ReadResult : Type 0 where
  end_of_stream read_error : ReadResult
  message : Request → ReadResult

unfoldable pub do_read : Connection → Connection
do_read c = record c { phase = reading }

unfoldable pub do_close : Connection → Connection
do_close c = record c { phase = closed }

-- `run` of a new session.
unfoldable pub run : Connection
unfolding do_read
run = do_read (record { phase = reading; res = none; received = []; written = [] })

-- `send_lambda`
unfoldable pub send : (Response → Bool) → Response → Connection → Connection
send need_eof msg c = record c { phase = writing (need_eof msg); res = some msg }

unfoldable pub on_read : (Request → Bool) → ReadResult → Connection → Connection
unfolding do_close
on_read is_upgrade end_of_stream c = do_close c
on_read is_upgrade read_error c = record c { phase = failed }
on_read is_upgrade (message req) c =
    if is_upgrade req
    then record c { phase = upgraded }
    else record c { phase = handling req; received = c.received ++ req ∷ [] }

-- A response is written whole unless there was an error.
with_written : Option Response → List Response → List Response
with_written none written = written
with_written (some msg) written = written ++ msg ∷ []

unfoldable pub on_write : Bool → Bool → Connection → Connection
unfolding do_close do_read with_written
on_write close ec c =
    if ec
    then record c { phase = failed; res = none }
    else let c' = record c { res = none; written = with_written c.res c.written } in
      if close then do_close c' else do_read c'

module _ (Answers : Request → Response → Type 0) (is_upgrade : Request → Bool)
    (need_eof : Response → Bool) where
  -- A callback of the session runs when what it waits for has happened.
  pub data Step : Connection → Connection → Type 0 where
    read :
        (c : Connection) (result : ReadResult)
        → c.phase ≡ reading
        → Step c (on_read is_upgrade result c)
    handled :
        (c : Connection) (req : Request) (msg : Response)
        → c.phase ≡ handling req
        → Answers req msg
        → Step c (send need_eof msg c)
    wrote :
        (c : Connection) (close ec : Bool) → c.phase ≡ writing close → Step c (on_write close ec c)

  pub data Reach : Connection → Type 0 where
    start : Reach run
    next : {c c' : Connection} → Reach c → Step c c' → Reach c'

  -- The n-th response answers the n-th request, and there are as many of the one as of the other.
  abbrev pub InOrder : List Request → List Response → Type 0
  InOrder [] [] = Unit
  InOrder [] (msg ∷ msgs) = ⊥
  InOrder (req ∷ reqs) [] = ⊥
  InOrder (req ∷ reqs) (msg ∷ msgs) = Answers req msg × InOrder reqs msgs

  -- What holds in each phase of `res_`, the requests and the responses.
  abbrev pub Consistent : Phase → Option Response → List Request → List Response → Type 0
  Consistent reading res received written = (res ≡ none) × InOrder received written
  Consistent upgraded res received written = (res ≡ none) × InOrder received written
  Consistent closed res received written = (res ≡ none) × InOrder received written
  Consistent failed res received written =
      (res ≡ none)
      × (InOrder received written ⊎ ((msg : Response) × InOrder received (written ++ msg ∷ [])))
  Consistent (handling req) res received written =
      (res ≡ none)
      × (before : List Request) × (received ≡ before ++ req ∷ [])
      × InOrder before written
  Consistent (writing close) res received written =
      (msg : Response) × (res ≡ some msg)
      × (close ≡ need_eof msg)
      × InOrder received (written ++ msg ∷ [])

  abbrev pub IsConsistent : Connection → Type 0
  IsConsistent c = Consistent c.phase c.res c.received c.written

  InOrder-append :
      (reqs : List Request) (msgs : List Response) (req : Request) (msg : Response)
      → InOrder reqs msgs
      → Answers req msg
      → InOrder (reqs ++ req ∷ []) (msgs ++ msg ∷ [])
  InOrder-append [] [] req msg h a = (a, tt)
  InOrder-append [] (m ∷ msgs) req msg h a = absurd h
  InOrder-append (r ∷ reqs) [] req msg h a = absurd h
  InOrder-append (r ∷ reqs) (m ∷ msgs) req msg (b, h) a = (b, InOrder-append reqs msgs req msg h a)

  -- The consistency of a session whose phase is known.
  in_phase :
      (c : Connection) (p : Phase)
      → c.phase ≡ p
      → IsConsistent c
      → Consistent p c.res c.received c.written
  in_phase c p e h = subst (λ q. Consistent q c.res c.received c.written) e h

  on_message :
      (upgrade : Bool) (c : Connection) (req : Request)
      → Consistent reading c.res c.received c.written
      → IsConsistent (
          if upgrade
          then record c { phase = upgraded }
          else record c { phase = handling req; received = c.received ++ req ∷ [] })
  on_message true c req h = h
  on_message false c req (none_held, in_order) = (none_held, c.received, refl, in_order)

  on_read-IsConsistent :
      (c : Connection) (result : ReadResult)
      → c.phase ≡ reading
      → IsConsistent c
      → IsConsistent (on_read is_upgrade result c)
  unfolding on_read do_close
  on_read-IsConsistent c end_of_stream e h = in_phase c reading e h
  on_read-IsConsistent c read_error e h =
      let (none_held, in_order) = in_phase c reading e h in (none_held, inl in_order)
  on_read-IsConsistent c (message req) e h =
      on_message (is_upgrade req) c req (in_phase c reading e h)

  send-IsConsistent :
      (c : Connection) (req : Request) (msg : Response)
      → Answers req msg
      → Consistent (handling req) c.res c.received c.written
      → IsConsistent (send need_eof msg c)
  unfolding send
  send-IsConsistent c req msg a (_, before, e, in_order) = (
    msg,
    refl,
    refl,
    subst (λ reqs. InOrder reqs (c.written ++ msg ∷ [])) (sym e)
        (InOrder-append before c.written req msg in_order a),
  )

  on_write-IsConsistent :
      (close ec : Bool) (c : Connection)
      → Consistent (writing close) c.res c.received c.written
      → IsConsistent (on_write close ec c)
  unfolding on_write do_close do_read with_written
  on_write-IsConsistent close true c (msg, e, _, in_order) = (refl, inr (msg, in_order))
  on_write-IsConsistent true false c (msg, e, _, in_order) =
      (refl, subst (λ o. InOrder c.received (with_written o c.written)) (sym e) in_order)
  on_write-IsConsistent false false c (msg, e, _, in_order) =
      (refl, subst (λ o. InOrder c.received (with_written o c.written)) (sym e) in_order)

  step-IsConsistent : {c c' : Connection} → Step c c' → IsConsistent c → IsConsistent c'
  step-IsConsistent (read c result e) h = on_read-IsConsistent c result e h
  step-IsConsistent (handled c req msg e a) h =
      send-IsConsistent c req msg a (in_phase c (handling req) e h)
  step-IsConsistent (wrote c close ec e) h =
      on_write-IsConsistent close ec c (in_phase c (writing close) e h)

  -- In every state that a session can reach, a response is kept exactly while it is written; where
  -- the session reads, or has ended other than by an error, the responses written answer all the
  -- requests that were handled, in order; a request in hand is the last one and the only one that
  -- has no response; and a write closes the connection exactly if its response asks for it.
  pub connection-IsConsistent : (c : Connection) → Reach c → IsConsistent c
  unfolding run do_read
  connection-IsConsistent c start = (refl, tt)
  connection-IsConsistent c (next r s) = step-IsConsistent s (connection-IsConsistent _ r)
