-- ===== src/Bserv/Database/Pool/Safety.antt =====
-- What the comments of `get_or_block` promise, in every state that the pool can reach.
use mathlib.Core.List.{Perm, Nodup, Mem, Nodup-cons, Nodup-nil, mem-cons, not-mem-nil}
use mathlib.Core.List.Perm
use mathlib.Core.Logic.Or
use native.Mathlib.Bridge.{le_prop}
use movie_dbproject.Prelude.{
  ℕ, zero, suc, ◌≤◌, ◌<◌, ◌≡◌, ◌≢◌, ◌↔◌, true, none, [], ◌∷◌, ◌++◌, arith, length, length-append,
}
use movie_dbproject.Bserv.Database.Pool.{
  Connection, manager, open_from, lock_counter, take_front, System, Reach,
}
use movie_dbproject.Bserv.Database.Pool.Invariant.{
  all_connections, Reach-LockState, Reach-perm, Reach-count,
}

-- In every state that a pool of at least one connection can reach: at most one thread stands
-- between the two locks, the queue that it will find is not empty, and a connection that comes
-- back as the only one in the queue finds the counter lock locked, by whichever thread.
pub pool_safe :
    (n : ℕ) (s : System)
    → 0 < n
    → Reach n s
    → (s.acquiring ≤ 1)
      × (0 < s.acquiring → take_front s.mgr ≢ none)
      × ((c : Connection) → length (s.mgr.queue ++ c ∷ []) ≡ 1 → s.mgr.counter_locked ≡ true)
unfolding take_front
pool_safe n s h r =
    let st = Reach-LockState h r in
    (ground arith, ground arith, λ c e. ground (arith, length-append s.mgr.queue (c ∷ [])))

le-mem-open_from : (i n x : ℕ) → Mem x (open_from i n) → i ≤ x
unfolding open_from
le-mem-open_from i zero x m = absurd (not-mem-nil m)
le-mem-open_from i (suc n) x m =
    Or.elim le_prop (mem-cons.0 m) (λ e. omega arith)
      (λ t. let later = le-mem-open_from (suc i) n x t in omega arith)

Nodup-open_from : (i n : ℕ) → Nodup (open_from i n)
unfolding open_from
Nodup-open_from i zero = Nodup-nil
Nodup-open_from i (suc n) = Nodup-cons.1 (
  (λ m. let later = le-mem-open_from (suc i) n i m in absurd (omega arith)),
  Nodup-open_from (suc i) n,
)

-- In every state that the pool can reach, the connections in the queue and those lent out are
-- the connections that it was opened with, and no connection is lent out twice, or lent out and
-- in the queue at once.
pub pool_conserves :
    (n : ℕ) (s : System)
    → Reach n s
    → Perm (all_connections s) (manager n).queue × Nodup (all_connections s)
unfolding manager
pool_conserves n s r = (Reach-perm r, (Perm.Nodup-iff (Reach-perm r)).1 (Nodup-open_from 0 n))

-- In every state that a pool of at least one connection can reach, the counter lock is locked while
-- no thread stands between the two locks exactly when all `n` connections are lent out. While a
-- thread stands there, other calls of `get_or_block` block too, whatever the queue holds.
pub pool_blocks_iff :
    (n : ℕ) (s : System)
    → 0 < n
    → Reach n s
    → ((lock_counter s.mgr ≡ none) × (s.acquiring ≡ 0)) ↔ (length s.leased ≡ n)
unfolding lock_counter
pool_blocks_iff n s h r = let st = Reach-LockState h r in let ct = Reach-count r in ground arith
