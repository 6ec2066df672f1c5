-- ===== src/Bserv/Session/Invariant/Expiry.antt =====
-- The loop that removes the expired sessions.
use movie_dbproject.Prelude.{
  ℕ, ◌≤◌, ◌<◌, ◌≡◌, ◌∙◌, ◌↔◌, true, false, some, List, [], ◌∷◌, ltb, arith, Bool-cases,
  Option-cases, inl, inr,
}
use movie_dbproject.Prelude.Bytes.{Bytes, same_iff}
use movie_dbproject.Prelude.Map.{nat_eq, bytes_eq}
use movie_dbproject.Bserv.Session.Queue.{Entry, member, before_of_member}
use movie_dbproject.Bserv.Session.{Manager, drop_session, remove_expired_from, remove_expired}
use movie_dbproject.Bserv.Session.Invariant.{Inv, view, live}

-- The manager in the loop, whose queue is what is left of it.
abbrev at_queue : List Entry → Manager → Manager
at_queue q m = record m { queue = q }

module _ (t k : ℕ) (q : List Entry) (m : Manager) (v : Inv (at_queue ((t, k) ∷ q) m)) where
  first_expiry : m.expiry k ≡ some t
  unfolding member
  first_expiry = (v.queued t k).0 (ground arith)

  first_name : (s : Bytes) × (m.int_to_str k ≡ some s)
  first_name = elim (Option-cases (m.int_to_str k)) [
    | inr (s, e) ↦ (s, e)
    | inl e ↦ absurd (ground (arith, v.timed k, first_expiry))
  ]

  drop_names :
      (s : Bytes) (i : ℕ)
      → ((drop_session k m).str_to_int s ≡ some i) ↔ ((drop_session k m).int_to_str i ≡ some s)
  unfolding drop_session
  drop_names s i =
      let (n, e) = first_name in
      ground (arith, e, v.names s i, v.names n i, v.names s k, v.names n k, same_iff n s)

  drop_queued : (u i : ℕ) → (member (u, i) q ≡ true) ↔ ((drop_session k m).expiry i ≡ some u)
  unfolding drop_session member
  drop_queued u i =
      ground (arith, first_expiry, v.queued u i, before_of_member (t, k) (u, i) q v.sorted.0)

  drop-Inv : Inv (at_queue q (drop_session k m))
  drop-Inv = record {
    names = drop_names;
    held = λ i. unfold drop_session in ground (arith, v.held i);
    timed = λ i. unfold drop_session in ground (arith, v.timed i);
    queued = drop_queued;
    sorted = v.sorted.1;
    addressed = λ i a e. unfold drop_session in ground (arith, v.addressed i a);
    separate = λ i j a e f. unfold drop_session in ground (arith, v.separate i j a);
  }

  live_drop :
      (now : ℕ) (s : Bytes) → t < now → live now (view (drop_session k m) s) ≡ live now (view m s)
  unfolding drop_session
  live_drop now s h =
      let (n, e) = first_name in
      elim (Option-cases (m.str_to_int s)) [
        | inl missing ↦ ground (arith, e)
        | inr (i, found) ↦ ground (
          arith,
          e,
          first_expiry,
          found,
          v.names s i,
          v.names n i,
          v.names s k,
          v.names n k,
          same_iff n s,
        )
      ]

-- What the loop leaves: the containers agree, and a client sees the sessions that are live.
pub record Removes (now : ℕ) (m m' : Manager) : Type 0 where
  pub keeps : Inv m'
  pub sees : (s : Bytes) → view m' s ≡ live now (view m s)

live_if_later :
    (now : ℕ) (m : Manager) (s : Bytes)
    → ((i u : ℕ) → m.expiry i ≡ some u → now ≤ u)
    → view m s ≡ live now (view m s)
live_if_later now m s h = elim (Option-cases (m.str_to_int s)) [
  | inl e ↦ ground (arith, e)
  | inr (i, e) ↦ elim (Option-cases (m.expiry i)) [
    | inl f ↦ ground (arith, e, f)
    | inr (u, f) ↦ ground (arith, e, f, h i u f)
  ]
]

none_earlier :
    (now : ℕ) (m : Manager) (i u : ℕ) → Inv (at_queue [] m) → m.expiry i ≡ some u → now ≤ u
unfolding member
none_earlier now m i u v e = ground (arith, v.queued u i)

first_earliest :
    (now t k : ℕ) (q : List Entry) (m : Manager) (i u : ℕ)
    → Inv (at_queue ((t, k) ∷ q) m)
    → ltb t now ≡ false
    → m.expiry i ≡ some u
    → now ≤ u
unfolding member
first_earliest now t k q m i u v h e =
    ground (arith, v.queued u i, before_of_member (t, k) (u, i) q v.sorted.0)

remove_expired_from-Removes :
    (now : ℕ) (q : List Entry) (m : Manager)
    → Inv (at_queue q m)
    → Removes now m (remove_expired_from now q m)
unfolding remove_expired_from
remove_expired_from-Removes now [] m v = record {
  keeps = v;
  sees = λ s. live_if_later now m s (λ i u e. none_earlier now m i u v e);
}
remove_expired_from-Removes now ((t, k) ∷ q) m v = elim (Bool-cases (ltb t now)) [
  | inl e ↦
      let rest = remove_expired_from-Removes now q (drop_session k m) (drop-Inv t k q m v) in
      rw e (record {
        keeps = rest.keeps;
        sees = λ s. rest.sees s ∙ live_drop t k q m v now s (ground arith);
      })
  | inr e ↦ rw e (record {
    keeps = v;
    sees = λ s. live_if_later now m s (λ i u f. first_earliest now t k q m i u v e f);
  })
]

pub remove_expired-Removes : (now : ℕ) (m : Manager) → Inv m → Removes now m (remove_expired now m)
unfolding remove_expired
remove_expired-Removes now m v = remove_expired_from-Removes now m.queue m v
