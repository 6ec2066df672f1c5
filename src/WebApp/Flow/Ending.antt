-- ===== src/WebApp/Flow/Ending.antt =====
-- How a handler ends: with success and what it promises, or with nothing changed.
use movie_dbproject.Prelude.{
  not, is_some, sym, ◌∙◌, subst, ◌≡◌, ◌⊎◌, inl, inr, refl, Bool, true, false, Option, none, some,
  List, [], ◌∷◌, ap, arith,
}
use movie_dbproject.WebApp.Flow.{
  or_refuse, only_row, session_user, executed, executed_or_what, catch_what, commit, get_session,
  begin, set_session, refuse, optional_row, caught, pure, throw_if, refuse_if, or_throw, succeed,
  ◌>>◌, bad_value, State, Session, Flow, next, returns, throws, Handler, Exception, ◌>>=◌,
}
use movie_dbproject.WebApp.Db.{Executed, rows, fails, Db, User}
use Prim.Native.String.{String}

-- What a part of a handler that ends early has left: everything as it was.
abbrev pub Undone : {A : Type 0} → State → Flow A × State → Type 0
Undone s (next a, s') = Unit
Undone s (returns reply, s') = s' ≡ s
Undone s (throws e, s') = s' ≡ s

-- What a whole handler has left: it replied with success and left what `Q` tells, or it left
-- everything as it was.
abbrev pub IsAtomic : (State → Type 0) → State → Flow (Unit {0}) × State → Type 0
IsAtomic Q s (next a, s') = ⊥
IsAtomic Q s (returns reply, s') = ((reply.success ≡ true) × Q s') ⊎ (s' ≡ s)
IsAtomic Q s (throws e, s') = s' ≡ s

pub IsAtomic-bind :
    (Q : State → Type 0) {A : Type 0} (m : Handler A) (k : A → Handler (Unit {0})) (s : State)
    → Undone s (m s)
    → ((a : A) (s' : State) → m s ≡ (next a, s') → IsAtomic Q s (k a s'))
    → IsAtomic Q s ((m >>= k) s)
IsAtomic-bind Q {A} m k s u h = go (m s).0 (m s).1 refl u
  where
    go :
        (r : Flow A) (s' : State)
        → m s ≡ (r, s')
        → Undone s (r, s')
        → IsAtomic Q s (elim r [
          | next a ↦ k a s'
          | returns reply ↦ (returns reply, s')
          | throws e ↦ (throws e, s')
        ])
    go (next a) s' e w = h a s' e
    go (returns reply) s' e w = inr w
    go (throws x) s' e w = w

-- A check ends the handler or goes on, and leaves the state alone.
abbrev pub IsCheck : {A : Type 0} → Handler A → Type 0
IsCheck {A} m = (s : State) → (r : Flow A) × (m s ≡ (r, s))

pub throw_if-IsCheck : (c : Bool) (e : Exception) → IsCheck (throw_if c e)
throw_if-IsCheck true e s = (throws e, refl)
throw_if-IsCheck false e s = (next tt, refl)

pub refuse_if-IsCheck : (c : Bool) (m : String) → IsCheck (refuse_if c m)
refuse_if-IsCheck true m s = (_, refl)
refuse_if-IsCheck false m s = (next tt, refl)

pub or_throw-IsCheck : {A : Type 0} (o : Option A) (e : Exception) → IsCheck (or_throw o e)
or_throw-IsCheck none e s = (throws e, refl)
or_throw-IsCheck (some a) e s = (next a, refl)

pub only_row-IsCheck : {A : Type 0} (l : List A) (m : String) → IsCheck (only_row l m)
only_row-IsCheck [] m s = (_, refl)
only_row-IsCheck (x ∷ []) m s = (next x, refl)
only_row-IsCheck (x ∷ y ∷ r) m s = (_, refl)

-- A handler, run in a state, is atomic.
unfoldable pub Atomically : (State → Type 0) → State → Handler (Unit {0}) → Type 0
Atomically Q s m = IsAtomic Q s (m s)

-- A check whose outcome the rest of the handler may rely on.
pub Atomically-known :
    (Q : State → Type 0) {A : Type 0} (m : Handler A) (k : A → Handler (Unit {0})) (s : State)
    → IsCheck m
    → ((a : A) → m s ≡ (next a, s) → Atomically Q s (k a))
    → Atomically Q s (m >>= k)
unfolding Atomically
Atomically-known Q {A} m k s check h =
    let (r, e) = check s in
    IsAtomic-bind Q m k s (subst (λ x. Undone s x) (sym e) (unchanged r)) (λ a s' f.
      let same_state = ap (λ x. x.1) (sym f ∙ e) in
      subst (λ x. IsAtomic Q s (k a x)) (sym same_state)
        (h a (subst (λ x. m s ≡ (next a, x)) same_state f)))
  where
    unchanged : (r : Flow A) → Undone s (r, s)
    unchanged (next a) = tt
    unchanged (returns reply) = refl
    unchanged (throws x) = refl

pub Atomically-check :
    (Q : State → Type 0) {A : Type 0} (m : Handler A) (k : A → Handler (Unit {0})) (s : State)
    → IsCheck m
    → ((a : A) → Atomically Q s (k a))
    → Atomically Q s (m >>= k)
Atomically-check Q m k s check h = Atomically-known Q m k s check (λ a _. h a)

pub Atomically-IsAtomic :
    (Q : State → Type 0) (m : Handler (Unit {0})) (s : State)
    → Atomically Q s m
    → IsAtomic Q s (m s)
unfolding Atomically
Atomically-IsAtomic Q m s h = h

pub Atomically-bind :
    (Q : State → Type 0) {A : Type 0} (m : Handler A) (k : A → Handler (Unit {0})) (s : State)
    → Undone s (m s)
    → ((a : A) (s' : State) → m s ≡ (next a, s') → IsAtomic Q s (k a s'))
    → Atomically Q s (m >>= k)
unfolding Atomically
Atomically-bind Q m k s u h = IsAtomic-bind Q m k s u h

pub get_session-IsCheck : IsCheck get_session
get_session-IsCheck s = (next s.session, refl)

pub Atomically-begin :
    (Q : State → Type 0) (k : Db → Handler (Unit {0})) (s : State)
    → Atomically Q s (k s.db)
    → Atomically Q s (begin >>= k)
unfolding Atomically
Atomically-begin Q k s h = h

pub session_user-IsCheck : IsCheck session_user
session_user-IsCheck s = or_throw-IsCheck s.session.user bad_value s

pub Atomically-row :
    (Q : State → Type 0) {A : Type 0} (l : List A) (m : String) (k : A → Handler (Unit {0}))
    (s : State)
    → ((x : A) → l ≡ x ∷ [] → Atomically Q s (k x))
    → Atomically Q s (only_row l m >>= k)
unfolding Atomically
Atomically-row Q [] m k s h = inr refl
Atomically-row Q (x ∷ []) m k s h = h x refl
Atomically-row Q (x ∷ y ∷ r) m k s h = inr refl

pub Atomically-refuse_if :
    (Q : State → Type 0) (c : Bool) (m : String) (k : Handler (Unit {0})) (s : State)
    → (c ≡ false → Atomically Q s k)
    → Atomically Q s (refuse_if c m >> k)
unfolding Atomically
Atomically-refuse_if Q true m k s h = inr refl
Atomically-refuse_if Q false m k s h = h refl

-- A statement, its commit and the reply.
pub Atomically-executed :
    (Q : State → Type 0) (r : Executed Db) (m : String) (s : State)
    → ((d : Db) → r ≡ rows d → Q (record s { db = d }))
    → Atomically Q s (executed r >>= λ d. commit d >> succeed m)
unfolding Atomically
Atomically-executed Q (rows d) m s h = inl (refl, h d refl)
Atomically-executed Q (fails e) m s h = refl

-- A statement in a `try`, its commit and the reply.
pub Atomically-executed_or_what :
    (Q : State → Type 0) (r : Executed Db) (m : String) (s : State)
    → ((d : Db) → r ≡ rows d → Q (record s { db = d }))
    → Atomically Q s (executed_or_what r >>= λ d. commit d >> succeed m)
unfolding Atomically
Atomically-executed_or_what Q (rows d) m s h = inl (refl, h d refl)
Atomically-executed_or_what Q (fails e) m s h = inr refl

pub catch_what-IsCheck : {A : Type 0} (m : Handler A) → IsCheck m → IsCheck (catch_what m)
catch_what-IsCheck {A} m check s =
    let (r, e) = check s in
    subst (λ (p : Flow A × State). (r' : Flow A) × (caught p ≡ (r', s))) (sym e) (go r)
  where
    go : (r : Flow A) → (r' : Flow A) × (caught (r, s) ≡ (r', s))
    go (next a) = (next a, refl)
    go (returns reply) = (returns reply, refl)
    go (throws e) = (_, refl)

-- One check after another.
pub IsCheck-bind :
    {A B : Type 0} (m : Handler A) (k : A → Handler B)
    → IsCheck m
    → ((a : A) → IsCheck (k a))
    → IsCheck (m >>= k)
IsCheck-bind {A} {B} m k check h s =
    let (r, e) = check s in
    subst
      (λ (p : Flow A × State).
        (r' : Flow B) × (elim p.0 [
          | next a ↦ k a p.1
          | returns reply ↦ (returns reply, p.1)
          | throws x ↦ (throws x, p.1)
        ]
          ≡ (r', s)))
      (sym e) (go r)
  where
    go :
        (r : Flow A)
        → (r' : Flow B) × (elim r [
          | next a ↦ k a s
          | returns reply ↦ (returns reply, s)
          | throws x ↦ (throws x, s)
        ]
            ≡ (r', s))
    go (next a) = h a s
    go (returns reply) = (returns reply, refl)
    go (throws x) = (throws x, refl)

pub pure-IsCheck : {A : Type 0} (a : A) → IsCheck (pure a)
pure-IsCheck a s = (next a, refl)

-- A handler that refuses where a row is there, and goes on where there is none.
pub Atomically-absent :
    {A : Type 0} (Q : State → Type 0) (l : List A) (m : String) (k : Handler (Unit {0})) (s : State)
    → (l ≡ [] → Atomically Q s k)
    → Atomically Q s (optional_row l >>= λ o. refuse_if (is_some o) m >> k)
unfolding Atomically
Atomically-absent Q [] m k s h = h refl
Atomically-absent Q (x ∷ []) m k s h = inr refl
Atomically-absent Q (x ∷ y ∷ r) m k s h = refl

-- A handler that refuses where no row is there, and goes on where there is one.
pub Atomically-present :
    {A : Type 0} (Q : State → Type 0) (l : List A) (m : String) (k : Handler (Unit {0})) (s : State)
    → ((x : A) → l ≡ x ∷ [] → Atomically Q s k)
    → Atomically Q s (optional_row l >>= λ o. refuse_if (not (is_some o)) m >> k)
unfolding Atomically
Atomically-present Q [] m k s h = inr refl
Atomically-present Q (x ∷ []) m k s h = h x refl
Atomically-present Q (x ∷ y ∷ r) m k s h = refl

-- A commit and the reply.
pub Atomically-commit :
    (Q : State → Type 0) (d : Db) (m : String) (s : State)
    → Q (record s { db = d })
    → Atomically Q s (commit d >> succeed m)
unfolding Atomically
Atomically-commit Q d m s h = inl (refl, h)

-- What a success leaves may be told in other words.
pub Atomically-mono :
    (P Q : State → Type 0) (m : Handler (Unit {0})) (s : State)
    → ((s' : State) → P s' → Q s')
    → Atomically P s m
    → Atomically Q s m
unfolding Atomically
Atomically-mono P Q m s f h = go (m s).0 (m s).1 h
  where
    go : (r : Flow (Unit {0})) (s' : State) → IsAtomic P s (r, s') → IsAtomic Q s (r, s')
    go (next a) s' h = h
    go (returns reply) s' (inl (e, p)) = inl (e, f s' p)
    go (returns reply) s' (inr e) = inr e
    go (throws x) s' h = h

-- The session is set, and success is replied.
pub Atomically-session :
    (Q : State → Type 0) (x : Session) (m : String) (s : State)
    → Q (record s { session = x })
    → Atomically Q s (set_session x >> succeed m)
unfolding Atomically
Atomically-session Q x m s h = inl (refl, h)

-- A handler that refuses where a row is missing, and goes on with the row where it is there.
pub Atomically-user :
    {A : Type 0} (Q : State → Type 0) (l : List A) (m : String) (k : A → Handler (Unit {0}))
    (s : State)
    → ((x : A) → l ≡ x ∷ [] → Atomically Q s (k x))
    → Atomically Q s (optional_row l >>= λ o. (elim o [ none ↦ refuse m | some x ↦ pure x ]) >>= k)
unfolding Atomically
Atomically-user Q [] m k s h = inr refl
Atomically-user Q (x ∷ []) m k s h = h x refl
Atomically-user Q (x ∷ y ∷ r) m k s h = refl

pub or_refuse-IsCheck : {A : Type 0} (o : Option A) (m : String) → IsCheck (or_refuse o m)
or_refuse-IsCheck none m s = (_, refl)
or_refuse-IsCheck (some a) m s = (next a, refl)

-- A statement in a `try`, a second one, their commit and the reply.
pub Atomically-then :
    (Q : State → Type 0) (r : Executed Db) (f : Db → Db) (m : String) (s : State)
    → ((d : Db) → r ≡ rows d → Q (record s { db = f d }))
    → Atomically Q s (executed_or_what r >>= λ d. commit (f d) >> succeed m)
unfolding Atomically
Atomically-then Q (rows d) f m s h = inl (refl, h d refl)
Atomically-then Q (fails e) f m s h = inr refl

-- A handler that throws by a test of the session, and else goes on.
pub Atomically-session_throw_if :
    (Q : State → Type 0) (c : Session → Bool) (e : Exception) (k : Handler (Unit {0})) (s : State)
    → (c s.session ≡ false → Atomically Q s k)
    → Atomically Q s (get_session >>= λ session. throw_if (c session) e >> k)
unfolding Atomically
Atomically-session_throw_if Q c e k s h = go (c s.session) h
  where
    go : (b : Bool) → (b ≡ false → IsAtomic Q s (k s)) → IsAtomic Q s ((throw_if b e >> k) s)
    go true h = refl
    go false h = h refl

-- A value that an expression gave.
pub or_throw-next :
    {A : Type 0} (o : Option A) (e : Exception) (s s' : State) (a : A)
    → or_throw o e s ≡ (next a, s')
    → o ≡ some a
or_throw-next none e s s' a h = absurd (ground arith)
or_throw-next (some x) e s s' a h = ground arith

pub or_refuse-next :
    {A : Type 0} (o : Option A) (m : String) (s s' : State) (a : A)
    → or_refuse o m s ≡ (next a, s')
    → o ≡ some a
or_refuse-next none m s s' a h = absurd (ground arith)
or_refuse-next (some x) m s s' a h = ground arith

pub only_row-next :
    {A : Type 0} (l : List A) (m : String) (s s' : State) (a : A)
    → only_row l m s ≡ (next a, s')
    → l ≡ a ∷ []
only_row-next [] m s s' a h = absurd (ground arith)
only_row-next (x ∷ []) m s s' a h = ground arith
only_row-next (x ∷ y ∷ r) m s s' a h = absurd (ground arith)

pub session_user-next :
    (s s' : State) (u : User) → session_user s ≡ (next u, s') → s.session.user ≡ some u
session_user-next s s' u h = or_throw-next s.session.user bad_value s s' u h
