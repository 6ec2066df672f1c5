-- ===== src/Bserv/Database/Pool/Invariant.antt =====
-- What holds in every state that the pool can reach from one or more connections.
use mathlib.Core.List.{Perm, perm_middle}
use mathlib.Core.List.Perm
use movie_dbproject.Prelude.{
  ℕ, zero, suc, ◌+◌, ◌<◌, ◌≡◌, refl, true, false, ◌⊎◌, inl, some, List, [], ◌∷◌, ◌++◌, arith,
  length, length-append, append_assoc, append-nil,
}
use movie_dbproject.Bserv.Database.Pool.{
  Connection, Manager, manager, open_from, lock_counter, take_front, put_back, System, Step, Reach,
  lock, take, give, begin, next,
}

-- The counter lock is free, with a connection in the queue; or one thread is on its way to a
-- connection that is in the queue; or the queue is empty and nobody is on the way.
abbrev pub LockState : System → Type 0
LockState s =
    (s.mgr.counter_locked ≡ false) × (s.acquiring ≡ 0) × (0 < length s.mgr.queue)
    ⊎ ((s.mgr.counter_locked ≡ true) × (s.acquiring ≡ 1) × (0 < length s.mgr.queue)
        ⊎ (s.mgr.counter_locked ≡ true) × (s.acquiring ≡ 0) × (s.mgr.queue ≡ []))

-- The connections in the queue and those lent out.
abbrev pub all_connections : System → List Connection
all_connections s = s.mgr.queue ++ s.leased

lock-LockState :
    (s : System) (m : Manager)
    → lock_counter s.mgr ≡ some m
    → LockState s
    → LockState (record s { mgr = m; acquiring = suc s.acquiring })
unfolding lock_counter
lock-LockState s m e h = ground arith

take-LockState :
    (s : System) (n : ℕ) (c : Connection) (m : Manager)
    → s.acquiring ≡ suc n
    → take_front s.mgr ≡ some (c, m)
    → LockState s
    → LockState (record { mgr = m; acquiring = n; leased = c ∷ s.leased })
unfolding take_front
take-LockState s n c m a e h = ground arith

give-LockState :
    (s : System) (c : Connection) (rest : List Connection)
    → LockState s
    → LockState (record s { mgr = put_back c s.mgr; leased = rest })
unfolding put_back
give-LockState s c rest h = ground (arith, length-append s.mgr.queue (c ∷ []))

Step-LockState : {s t : System} → Step s t → LockState s → LockState t
Step-LockState {s} (lock m e) h = lock-LockState s m e h
Step-LockState {s} (take n c m a e) h = take-LockState s n c m a e h
Step-LockState {s} (give xs c ys e) h = give-LockState s c (xs ++ ys) h

take-queue :
    (m m' : Manager) (c : Connection) → take_front m ≡ some (c, m') → m.queue ≡ c ∷ m'.queue
unfolding take_front
take-queue m m' c e = ground arith

lock-queue : (m m' : Manager) → lock_counter m ≡ some m' → m'.queue ≡ m.queue
unfolding lock_counter
lock-queue m m' e = ground arith

put_back-queue : (c : Connection) (m : Manager) → (put_back c m).queue ≡ m.queue ++ c ∷ []
unfolding put_back
put_back-queue c m = refl

Step-perm : {s t : System} → Step s t → Perm (all_connections t) (all_connections s)
Step-perm {s} (lock m e) = rw (lock-queue s.mgr m e) (Perm.refl (all_connections s))
Step-perm {s} (take n c m a e) = rw (take-queue s.mgr m c e) (perm_middle m.queue s.leased)
Step-perm {s} (give xs c ys e) =
    rw (put_back-queue c s.mgr, e, append_assoc s.mgr.queue (c ∷ []) (xs ++ ys))
      (Perm.append (Perm.refl s.mgr.queue) (Perm.symm (perm_middle xs ys)))

Step-count :
    {s t : System}
    → Step s t
    → length t.mgr.queue + length t.leased ≡ length s.mgr.queue + length s.leased
Step-count {s} (lock m e) = rw (lock-queue s.mgr m e)
Step-count {s} (take n c m a e) = ground (arith, take-queue s.mgr m c e)
Step-count {s} (give xs c ys e) =
    rw (put_back-queue c s.mgr, e)
      (omega
        (arith, length-append s.mgr.queue (c ∷ []), length-append xs ys, length-append xs (c ∷ ys)))

length-open_from : (i n : ℕ) → length (open_from i n) ≡ n
unfolding open_from
length-open_from i zero = refl
length-open_from i (suc n) = omega (arith, length-open_from (suc i) n)

pub Reach-LockState : {n : ℕ} {s : System} → 0 < n → Reach n s → LockState s
unfolding manager
Reach-LockState {n} h begin = inl (refl, refl, omega (arith, length-open_from 0 n))
Reach-LockState h (next r st) = Step-LockState st (Reach-LockState h r)

pub Reach-perm : {n : ℕ} {s : System} → Reach n s → Perm (all_connections s) (open_from 0 n)
unfolding manager
Reach-perm {n} begin = rw append-nil (Perm.refl (open_from 0 n))
Reach-perm (next r st) = Perm.trans (Step-perm st) (Reach-perm r)

pub Reach-count : {n : ℕ} {s : System} → Reach n s → length s.mgr.queue + length s.leased ≡ n
unfolding manager
Reach-count {n} begin = omega (arith, length-open_from 0 n)
Reach-count {n} (next r st) = omega (arith, Step-count st, Reach-count r)
