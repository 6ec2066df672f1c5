-- ===== src/Bserv/Session/Invariant/Create.antt =====
-- The branch of `get_or_create` that makes a session.
use movie_dbproject.Prelude.{
  ℕ, suc, ◌≡◌, ◌↔◌, true, none, some, if◌then◌else◌, arith, Option-cases, inl, inr,
}
use movie_dbproject.Prelude.Bytes.{Bytes, same, same_iff}
use movie_dbproject.Prelude.Map.{insert, nat_eq, bytes_eq}
use movie_dbproject.Bserv.Session.Queue.{member, emplace, member-emplace, emplace-IsSorted}
use movie_dbproject.Bserv.Session.{Manager}
use movie_dbproject.Bserv.Session.Invariant.{Inv, view}

-- A manager with a new session under the id `s` and the key `i`.
abbrev pub with_session : ℕ → Bytes → ℕ → Manager → Manager
with_session later s i m = record {
  str_to_int = insert s i m.str_to_int;
  int_to_str = insert i s m.int_to_str;
  sessions = insert i m.next_address m.sessions;
  expiry = insert i later m.expiry;
  queue = emplace (later, i) m.queue;
  next_address = suc m.next_address;
}

module _ (later : ℕ) (s : Bytes) (i : ℕ) (m : Manager) (v : Inv m)
    (new_name : m.str_to_int s ≡ none) (new_key : m.int_to_str i ≡ none) where
  with_session-names :
      (r : Bytes) (j : ℕ)
      → ((with_session later s i m).str_to_int r ≡ some j)
        ↔ ((with_session later s i m).int_to_str j ≡ some r)
  with_session-names r j =
      ground (arith, new_name, new_key, v.names r j, v.names s j, v.names r i, same_iff s r)

  with_session-queued :
      (u j : ℕ)
      → (member (u, j) (with_session later s i m).queue ≡ true)
        ↔ ((with_session later s i m).expiry j ≡ some u)
  with_session-queued u j =
      ground (arith, new_key, v.queued u j, v.timed j, member-emplace (u, j) (later, i) m.queue)

  pub with_session-Inv : Inv (with_session later s i m)
  with_session-Inv = record {
    names = with_session-names;
    held = λ j. ground (arith, v.held j);
    timed = λ j. ground (arith, v.timed j);
    queued = with_session-queued;
    sorted = emplace-IsSorted (later, i) m.queue v.sorted;
    addressed = λ j a e. ground (arith, v.addressed j a);
    separate = λ j k a e f. ground (arith, v.separate j k a, v.addressed j a, v.addressed k a);
  }

  pub view-with_session :
      (r : Bytes)
      → view (with_session later s i m) r
        ≡ (if same s r then some (m.next_address, later) else view m r)
  view-with_session r = elim (Option-cases (m.str_to_int r)) [
    | inl e ↦ ground (arith, e)
    | inr (j, e) ↦ ground (arith, e, new_key, v.names r j)
  ]
