-- ===== src/Bserv/Session/Invariant/Visit.antt =====
-- The branch of a call whose key refers to a session.
use movie_dbproject.Prelude.{ℕ, ◌≡◌, ◌↔◌, true, some, if◌then◌else◌, arith, Option-cases, inl, inr}
use movie_dbproject.Prelude.Bytes.{Bytes, same, same_iff}
use movie_dbproject.Prelude.Map.{insert, nat_eq}
use movie_dbproject.Bserv.Session.Queue.{
  member, emplace, remove, member-emplace, member-remove, emplace-IsSorted, remove-IsSorted,
}
use movie_dbproject.Bserv.Session.{Manager}
use movie_dbproject.Bserv.Session.Invariant.{Inv, view}

-- A manager whose session `i` expires at `later` in place of `t`.
abbrev pub extended : ℕ → ℕ → ℕ → Manager → Manager
extended i t later m = record m {
  expiry = insert i later m.expiry;
  queue = emplace (later, i) (remove (t, i) m.queue);
}

module _ (i t later : ℕ) (s : Bytes) (a : ℕ) (m : Manager) (v : Inv m)
    (named : m.str_to_int s ≡ some i) (at : m.sessions i ≡ some a)
    (until : m.expiry i ≡ some t) where
  extended-queued :
      (u j : ℕ)
      → (member (u, j) (extended i t later m).queue ≡ true)
        ↔ ((extended i t later m).expiry j ≡ some u)
  extended-queued u j = ground (
    arith,
    until,
    v.queued u j,
    v.queued t i,
    member-emplace (u, j) (later, i) (remove (t, i) m.queue),
    member-remove (u, j) (t, i) m.queue v.sorted,
  )

  pub extended-Inv : Inv (extended i t later m)
  extended-Inv = record {
    names = v.names;
    held = v.held;
    timed = λ j. ground (arith, v.timed j, v.names s i, named);
    queued = extended-queued;
    sorted =
        emplace-IsSorted (later, i) (remove (t, i) m.queue)
          (remove-IsSorted (t, i) m.queue v.sorted);
    addressed = v.addressed;
    separate = v.separate;
  }

  pub view-extended :
      (r : Bytes) → view (extended i t later m) r ≡ (if same s r then some (a, later) else view m r)
  view-extended r = elim (Option-cases (m.str_to_int r)) [
    | inl e ↦ ground (arith, e, named, same_iff s r)
    | inr (j, e) ↦ ground (arith, e, named, at, same_iff s r, v.names s i, v.names r j)
  ]
