-- ===== src/Bserv/Session.antt =====
-- bserv/session.cpp and bserv/include/bserv/session.hpp: `memory_session_manager`. A session object
-- is known by its address; time is in nanoseconds of `steady_clock` and is an argument of a call,
-- and so are the values that the random generators draw. `lock_` makes each call one step.
pub mod Queue
pub mod Invariant
pub mod Calls
use movie_dbproject.Prelude.{
  ℕ, suc, ◌+◌, ◌*◌, Bool, true, false, not, ◌||◌, Option, none, some, List, [], ◌∷◌, ◌==◌, ltb,
  if◌then◌else◌, is_some, ◌≡◌, refl,
}
use movie_dbproject.Prelude.Bytes.{Bytes, codes}
use movie_dbproject.Prelude.Map.{Map, empty, contains, insert, erase, nat_eq, bytes_eq}
use movie_dbproject.Bserv.Utils.Params.{is_empty}
use Queue.{Entry, emplace, erase_lower_bound}

pub record Manager : Type 0 where
  pub str_to_int : Map Bytes ℕ
  pub int_to_str : Map ℕ Bytes
  pub sessions : Map ℕ ℕ
  pub expiry : Map ℕ ℕ
  pub queue : List Entry
  -- The address of the next object that `std::make_shared` makes.
  pub next_address : ℕ

abbrev pub new_manager : Manager
new_manager = record {
  str_to_int = empty;
  int_to_str = empty;
  sessions = empty;
  expiry = empty;
  queue = [];
  next_address = 0;
}

-- `std::chrono::minutes(20)`
abbrev pub twenty_minutes : ℕ
twenty_minutes = 20 * 60 * 1000000000

-- `int_to_str_[key]`, which is the empty string where the key is missing.
abbrev pub name_of : ℕ → Manager → Bytes
name_of key m = elim (m.int_to_str key) [ none ↦ [] | some s ↦ s ]

-- The body of the loop that removes expired sessions, but for the queue.
unfoldable pub drop_session : ℕ → Manager → Manager
drop_session another_key m = record m {
  sessions = erase another_key m.sessions;
  expiry = erase another_key m.expiry;
  str_to_int = erase (name_of another_key m) m.str_to_int;
  int_to_str = erase another_key m.int_to_str;
}

-- That loop, on the entries of the queue.
unfoldable pub remove_expired_from : ℕ → List Entry → Manager → Manager
unfolding drop_session
remove_expired_from now [] m = record m { queue = [] }
remove_expired_from now ((t, another_key) ∷ q) m =
    let rest = remove_expired_from now q (drop_session another_key m) in
    if ltb t now then rest else record m { queue = (t, another_key) ∷ q }

unfoldable pub remove_expired : ℕ → Manager → Manager
unfolding remove_expired_from
remove_expired now m = remove_expired_from now m.queue m

pub data Outcome {ℓ} (A : Type ℓ) : Type ℓ where
  done : A → Outcome A
  -- The values drawn are used up before a loop that draws them ends.
  draws_exhausted : Outcome A
  -- `erase` of the end of the queue.
  undefined : Outcome A

-- `do { x = draw(); } while (used(x));`
unfoldable pub first_fresh {ℓ} : {A : Type ℓ} → (A → Bool) → List A → Option A
first_fresh used [] = none
first_fresh used (x ∷ draws) = let rest = first_fresh used draws in if used x then rest else some x

-- Sets the expiry of a session and gives the pointer to it.
unfoldable pub extend : ℕ → ℕ → Manager → Option ℕ × Manager
extend now int_key m = (
  m.sessions int_key,
  record m {
    expiry = insert int_key (now + twenty_minutes) m.expiry;
    queue = emplace (now + twenty_minutes, int_key) m.queue;
  },
)

-- `expiry_[int_key]`
abbrev pub expiry_of : ℕ → Manager → ℕ
expiry_of int_key m = elim (m.expiry int_key) [ none ↦ 0 | some t ↦ t ]

-- The branch for a key that refers to a session.
unfoldable pub visit : ℕ → ℕ → Manager → Outcome (Option ℕ × Manager)
unfolding extend
visit now int_key m = elim (erase_lower_bound (expiry_of int_key m, int_key) m.queue) [
  | none ↦ undefined
  | some q ↦ done (extend now int_key (record m { queue = q }))
]

-- The branch that makes a session.
unfoldable pub create : ℕ → Bytes → ℕ → Manager → Option ℕ × Manager
unfolding extend
create now key int_key m = extend now int_key (record m {
  str_to_int = insert key int_key m.str_to_int;
  int_to_str = insert int_key key m.int_to_str;
  sessions = insert int_key m.next_address m.sessions;
  next_address = suc m.next_address;
})

-- What `get_or_create` gives: the returned value, `key` and `session_ptr`, and the manager.
pub record Given : Type 0 where
  pub created : Bool
  pub key : Bytes
  pub session_ptr : Option ℕ
  pub manager : Manager

-- `get_or_create` behind the loop that removes expired sessions.
unfoldable pub find_or_create : ℕ → List Bytes → List ℕ → Bytes → Manager → Outcome Given
unfolding visit create first_fresh
find_or_create now strings ints key m = elim (if is_empty key then none else m.str_to_int key) [
  | some int_key ↦ elim (visit now int_key m) [
    | done (p, m') ↦ done (record { created = false; key = key; session_ptr = p; manager = m' })
    | draws_exhausted ↦ draws_exhausted
    | undefined ↦ undefined
  ]
  | none ↦ elim (first_fresh (λ s. contains s m.str_to_int) strings) [
    | none ↦ draws_exhausted
    | some s ↦ elim (first_fresh (λ i. contains i m.int_to_str) ints) [
      | none ↦ draws_exhausted
      | some i ↦
          let (p, m') = create now s i m in
          done (record { created = true; key = s; session_ptr = p; manager = m' })
    ]
  ]
]

unfoldable pub get_or_create : ℕ → List Bytes → List ℕ → Bytes → Manager → Outcome Given
unfolding find_or_create remove_expired
get_or_create now strings ints key m = find_or_create now strings ints key (remove_expired now m)

-- `try_get`: the pointer, if there is a session, and the manager.
unfoldable pub find_session : ℕ → Bytes → Manager → Outcome (Option ℕ × Manager)
unfolding visit
find_session now key m = elim (if is_empty key then none else m.str_to_int key) [
  | none ↦ done (none, m)
  | some int_key ↦ visit now int_key m
]

unfoldable pub try_get : ℕ → Bytes → Manager → Outcome (Option ℕ × Manager)
unfolding find_session remove_expired
try_get now key m = find_session now key (remove_expired now m)
