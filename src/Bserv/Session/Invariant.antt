-- ===== src/Bserv/Session/Invariant.antt =====
-- The containers of `memory_session_manager` agree, and what a client sees of them.
pub mod Expiry
pub mod Visit
pub mod Create
use movie_dbproject.Prelude.{
  ℕ, ◌<◌, ◌≡◌, ◌↔◌, refl, Bool, true, false, Option, none, some, ltb, if◌then◌else◌, ◌>>=◌, is_some,
  arith,
}
use movie_dbproject.Prelude.Bytes.{Bytes}
use movie_dbproject.Bserv.Session.Queue.{IsSorted, member}
use movie_dbproject.Bserv.Session.{Manager, new_manager}

-- The maps between the two kinds of keys are inverse; a key has a session and an expiry just where
-- it has a name; the queue is sorted and holds the expiries; no two keys share a session object.
pub record Inv (m : Manager) : Type 0 where
  pub names : (s : Bytes) (i : ℕ) → (m.str_to_int s ≡ some i) ↔ (m.int_to_str i ≡ some s)
  pub held : (i : ℕ) → is_some (m.sessions i) ≡ is_some (m.int_to_str i)
  pub timed : (i : ℕ) → is_some (m.expiry i) ≡ is_some (m.int_to_str i)
  pub queued : (t i : ℕ) → (member (t, i) m.queue ≡ true) ↔ (m.expiry i ≡ some t)
  pub sorted : IsSorted m.queue
  pub addressed : (i a : ℕ) → m.sessions i ≡ some a → a < m.next_address
  pub separate : (i j a : ℕ) → m.sessions i ≡ some a → m.sessions j ≡ some a → i ≡ j

-- What a client sees of a manager: for a session id, the session object and its expiry.
abbrev pub view : Manager → Bytes → Option (ℕ × ℕ)
view m s = do i ← m.str_to_int s; a ← m.sessions i; t ← m.expiry i; some (a, t)

-- A session that has not expired at the time `now`.
abbrev pub live : ℕ → Option (ℕ × ℕ) → Option (ℕ × ℕ)
live now none = none
live now (some (a, t)) = if ltb t now then none else some (a, t)

pub new_manager-Inv : Inv new_manager
unfolding member
new_manager-Inv = record {
  names = λ s i. ground arith;
  held = λ i. refl;
  timed = λ i. refl;
  queued = λ t i. ground arith;
  sorted = tt;
  addressed = λ i a e. ground arith;
  separate = λ i j a e f. ground arith;
}
