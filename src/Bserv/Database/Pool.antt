-- ===== src/Bserv/Database/Pool.antt =====
-- `db_connection_manager` and the destructor of `db_connection`. A mutex is a flag that says
-- whether it is locked; which thread owns it is not modelled. The destructor may unlock
-- `counter_lock_` in a thread that did not lock it: C++ leaves this undefined, and here it is a step
-- like any other. What runs under `queue_lock_` is one step; between taking `counter_lock_`
-- and taking `queue_lock_` other threads may run.
pub mod Invariant
pub mod Safety
use movie_dbproject.Prelude.{
  ℕ, zero, suc, Bool, true, false, Option, none, some, List, [], ◌∷◌, ◌++◌, ◌≡◌, refl, ◌==◌,
  if◌then◌else◌, length,
}

-- A raw connection, by its number.
abbrev pub Connection : Type 0
Connection = ℕ

pub record Manager : Type 0 where
  pub queue : List Connection
  pub counter_locked : Bool

-- The constructor: `n` connections, numbered in the order in which they are opened from `i` on.
pub open_from : ℕ → ℕ → List Connection
open_from i zero = []
open_from i (suc n) = i ∷ open_from (suc i) n

unfoldable pub manager : ℕ → Manager
unfolding open_from
manager n = record { queue = open_from 0 n; counter_locked = false }

-- `counter_lock_.lock()`: `none` while another thread holds the lock.
unfoldable pub lock_counter : Manager → Option Manager
lock_counter m = if m.counter_locked then none else some (record m { counter_locked = true })

-- The rest of `get_or_block`; `none` is `front()` of an empty queue, which is undefined.
unfoldable pub take_front : Manager → Option (Connection × Manager)
take_front m = elim m.queue [
  | [] ↦ none
  | c ∷ rest ↦ some (
    c,
    record { queue = rest; counter_locked = elim rest [ [] ↦ m.counter_locked | d ∷ r ↦ false ] },
  )
]

-- The destructor of `db_connection`, whichever thread runs it.
unfoldable pub put_back : Connection → Manager → Manager
put_back c m = record {
  queue = m.queue ++ c ∷ [];
  counter_locked = if length (m.queue ++ c ∷ []) == 1 then false else m.counter_locked;
}

-- The threads at work: how many stand between the two locks of `get_or_block`, and the
-- connections that are lent out.
pub record System : Type 0 where
  pub mgr : Manager
  pub acquiring : ℕ
  pub leased : List Connection

-- One step of one thread.
pub data Step (s : System) : System → Type 0 where
  lock :
      (m : Manager)
      → lock_counter s.mgr ≡ some m
      → Step s (record s { mgr = m; acquiring = suc s.acquiring })
  take :
      (n : ℕ) (c : Connection) (m : Manager)
      → s.acquiring ≡ suc n
      → take_front s.mgr ≡ some (c, m)
      → Step s (record { mgr = m; acquiring = n; leased = c ∷ s.leased })
  give :
      (xs : List Connection) (c : Connection) (ys : List Connection)
      → s.leased ≡ xs ++ c ∷ ys
      → Step s (record s { mgr = put_back c s.mgr; leased = xs ++ ys })

abbrev pub init : ℕ → System
init n = record { mgr = manager n; acquiring = 0; leased = [] }

pub data Reach (n : ℕ) : System → Type 0 where
  begin : Reach n (init n)
  next : {s t : System} → Reach n s → Step s t → Reach n t
