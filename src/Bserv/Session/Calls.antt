-- ===== src/Bserv/Session/Calls.antt =====
-- What `get_or_create` and `try_get` do, in terms of what a client sees.
use movie_dbproject.Prelude.{
  ℕ, ◌+◌, ◌≡◌, ◌≢◌, ◌∙◌, ◌↔◌, refl, Bool, true, false, Option, none, some, List, [], ◌∷◌,
  if◌then◌else◌, is_some, arith, Bool-cases, Option-cases, inl, inr, ◌⊎◌, Any, ==_refl,
}
use movie_dbproject.Prelude.Bytes.{Bytes, same}
use movie_dbproject.Prelude.Map.{contains}
use movie_dbproject.Bserv.Utils.Params.{is_empty}
use movie_dbproject.Bserv.Session.Queue.{erase_lower_bound-remove}
use movie_dbproject.Bserv.Session.{
  Manager, twenty_minutes, visit, create, first_fresh, done, find_or_create, get_or_create,
  find_session, try_get, remove_expired,
}
use movie_dbproject.Bserv.Session.Invariant.{Inv, view, live}
use movie_dbproject.Bserv.Session.Invariant.Expiry.{Removes, remove_expired-Removes}
use movie_dbproject.Bserv.Session.Invariant.Visit.{extended, extended-Inv, view-extended}
use movie_dbproject.Bserv.Session.Invariant.Create.{
  with_session, with_session-Inv, view-with_session,
}

-- After a call at `now` that gives the object `a` for the id `s`: the containers agree, `s` has the
-- object for twenty minutes, and every other session is as it was in `before`.
pub record Serves (now : ℕ) (s : Bytes) (a : ℕ) (before : Bytes → Option (ℕ × ℕ)) (m : Manager)
    : Type 0 where
  pub agrees : Inv m
  pub sees :
      (r : Bytes) → view m r ≡ (if same s r then some (a, now + twenty_minutes) else before r)

-- What stands behind an id in the maps.
found_parts :
    (m : Manager) (v : Inv m) (s : Bytes) (i : ℕ)
    → m.str_to_int s ≡ some i
    → (a : ℕ) × (t : ℕ) × (m.sessions i ≡ some a) × (m.expiry i ≡ some t)
found_parts m v s i e = elim (Option-cases (m.sessions i)) [
  | inl f ↦ absurd (ground (arith, f, e, v.held i, v.names s i))
  | inr (a, f) ↦ elim (Option-cases (m.expiry i)) [
    | inl g ↦ absurd (ground (arith, g, e, v.timed i, v.names s i))
    | inr (t, g) ↦ (a, t, f, g)
  ]
]

visit-extended :
    (now i a t : ℕ) (m : Manager) (v : Inv m)
    → m.sessions i ≡ some a
    → m.expiry i ≡ some t
    → visit now i m ≡ done (some a, extended i t (now + twenty_minutes) m)
unfolding visit
visit-extended now i a t m v ha ht =
    ground (arith, ha, ht, erase_lower_bound-remove (t, i) m.queue v.sorted ((v.queued t i).1 ht))

-- The sessions that a client sees once the expired ones are gone.
abbrev pub seen : ℕ → Manager → Bytes → Option (ℕ × ℕ)
seen now m s = live now (view m s)

view-found :
    (m : Manager) (v : Inv m) (s : Bytes) (a t : ℕ)
    → view m s ≡ some (a, t)
    → (i : ℕ) × (m.str_to_int s ≡ some i) × (m.sessions i ≡ some a) × (m.expiry i ≡ some t)
view-found m v s a t h = elim (Option-cases (m.str_to_int s)) [
  | inl e ↦ absurd (ground (arith, e, h))
  | inr (i, e) ↦
      let (b, u, f, g) = found_parts m v s i e in
      (i, e, ground (arith, e, f, g, h), ground (arith, e, f, g, h))
]

view-missing : (m : Manager) (v : Inv m) (s : Bytes) → (view m s ≡ none) ↔ (m.str_to_int s ≡ none)
view-missing m v s = elim (Option-cases (m.str_to_int s)) [
  | inl e ↦ (λ h. e, λ h. ground (arith, e))
  | inr (i, e) ↦
      let (b, u, f, g) = found_parts m v s i e in
      (λ h. absurd (ground (arith, e, f, g, h)), λ h. absurd (ground (arith, e, h)))
]

extended-Serves :
    (now : ℕ) (s : Bytes) (i a t : ℕ) (before : Bytes → Option (ℕ × ℕ)) (m : Manager) (v : Inv m)
    → ((r : Bytes) → view m r ≡ before r)
    → m.str_to_int s ≡ some i
    → m.sessions i ≡ some a
    → m.expiry i ≡ some t
    → Serves now s a before (extended i t (now + twenty_minutes) m)
extended-Serves now s i a t before m v b e f g = record {
  agrees = extended-Inv i t (now + twenty_minutes) s a m v e f g;
  sees = λ r. rw (← b r) (view-extended i t (now + twenty_minutes) s a m v e f g r);
}

-- Where the containers agree and the id is that of a session that has not expired, `get_or_create`
-- creates nothing, gives back the id and the session's object, and the session has twenty minutes
-- from now; all other sessions that have not expired stay as they are, and the expired ones go.
pub get_or_create_found :
    (now : ℕ) (strings : List Bytes) (ints : List ℕ) (s : Bytes) (a t : ℕ) (m : Manager)
    → Inv m
    → is_empty s ≡ false
    → seen now m s ≡ some (a, t)
    → (m' : Manager) × (get_or_create now strings ints s m
        ≡ done (record { created = false; key = s; session_ptr = some a; manager = m' }))
      × Serves now s a (seen now m) m'
unfolding get_or_create find_or_create
get_or_create_found now strings ints s a t m v ne h =
    let r = remove_expired-Removes now m v in
    let (i, e, f, g) = view-found (remove_expired now m) r.keeps s a t (r.sees s ∙ h) in
    (
      extended i t (now + twenty_minutes) (remove_expired now m),
      ground (arith, ne, e, visit-extended now i a t (remove_expired now m) r.keeps f g),
      extended-Serves now s i a t (seen now m) (remove_expired now m) r.keeps r.sees e f g,
    )

-- Where the containers agree and the id is that of a session that has not expired, `try_get` gives
-- the session's object, and the session has twenty minutes from now; all other sessions that have
-- not expired stay as they are, and the expired ones go.
pub try_get_found :
    (now : ℕ) (s : Bytes) (a t : ℕ) (m : Manager)
    → Inv m
    → is_empty s ≡ false
    → seen now m s ≡ some (a, t)
    → (m' : Manager) × (try_get now s m ≡ done (some a, m')) × Serves now s a (seen now m) m'
unfolding try_get find_session
try_get_found now s a t m v ne h =
    let r = remove_expired-Removes now m v in
    let (i, e, f, g) = view-found (remove_expired now m) r.keeps s a t (r.sees s ∙ h) in
    (
      extended i t (now + twenty_minutes) (remove_expired now m),
      ground (arith, ne, e, visit-extended now i a t (remove_expired now m) r.keeps f g),
      extended-Serves now s i a t (seen now m) (remove_expired now m) r.keeps r.sees e f g,
    )

-- Where the containers agree and the id is empty or that of no session that has not expired,
-- `try_get` gives nothing and makes no session: the expired ones go, and nothing else changes.
pub try_get_missing :
    (now : ℕ) (s : Bytes) (m : Manager)
    → Inv m
    → (is_empty s ≡ true) ⊎ (seen now m s ≡ none)
    → (m' : Manager) × (try_get now s m ≡ done (none, m'))
      × Inv m'
      × ((r : Bytes) → view m' r ≡ seen now m r)
unfolding try_get find_session
try_get_missing now s m v h =
    let r = remove_expired-Removes now m v in
    let gone = view-missing (remove_expired now m) r.keeps s in
    (remove_expired now m, ground (arith, r.sees s, gone.0), r.keeps, r.sees)

first_fresh_lem {ℓ} :
    {A : Type ℓ} (used : A → Bool) (xs : List A)
    → Any (λ x. used x ≡ false) xs
    → (x : A) × (first_fresh used xs ≡ some x) × (used x ≡ false)
unfolding first_fresh
first_fresh_lem used [] h = absurd h
first_fresh_lem used (x ∷ xs) h = elim (Bool-cases (used x)) [
  | inr e ↦ (x, rw e, e)
  | inl e ↦
      let later : Any (λ y. used y ≡ false) xs = elim h [ inl f ↦ absurd (cc) | inr g ↦ g ] in
      let (y, f, g) = first_fresh_lem used xs later in (y, rw e f, g)
]

Any-mono {ℓ} :
    {A : Type ℓ} (P Q : A → Type 0) (xs : List A) → ((x : A) → P x → Q x) → Any P xs → Any Q xs
Any-mono P Q [] f h = absurd h
Any-mono P Q (x ∷ xs) f (inl p) = inl (f x p)
Any-mono P Q (x ∷ xs) f (inr h) = inr (Any-mono P Q xs f h)

-- An id and a key that the generators draw can serve for a new session.
abbrev pub CanDraw : ℕ → Manager → List Bytes → List ℕ → Type 0
CanDraw now m strings ints =
    Any (λ s. seen now m s ≡ none) strings
    × Any (λ i. contains i (remove_expired now m).int_to_str ≡ false) ints

find_or_create-with_session :
    (now : ℕ) (strings : List Bytes) (ints : List ℕ) (s key : Bytes) (i : ℕ) (m : Manager)
    → (is_empty s ≡ true) ⊎ (m.str_to_int s ≡ none)
    → first_fresh (λ k. contains k m.str_to_int) strings ≡ some key
    → first_fresh (λ k. contains k m.int_to_str) ints ≡ some i
    → find_or_create now strings ints s m
      ≡ done (record {
        created = true;
        key = key;
        session_ptr = some m.next_address;
        manager = with_session (now + twenty_minutes) key i m;
      })
unfolding find_or_create create
find_or_create-with_session now strings ints s key i m h e f = ground (arith, ==_refl i)

-- No live session has the object that is made next.
next_address_fresh :
    (m : Manager) (v : Inv m) (r : Bytes) (t : ℕ) → view m r ≢ some (m.next_address, t)
next_address_fresh m v r t h =
    let (i, e, f, g) = view-found m v r m.next_address t h in
    let below = v.addressed i m.next_address f in omega arith

with_session-Serves :
    (now : ℕ) (key : Bytes) (i : ℕ) (before : Bytes → Option (ℕ × ℕ)) (m : Manager) (v : Inv m)
    → ((r : Bytes) → view m r ≡ before r)
    → contains key m.str_to_int ≡ false
    → contains i m.int_to_str ≡ false
    → Serves now key m.next_address before (with_session (now + twenty_minutes) key i m)
with_session-Serves now key i before m v b e f = record {
  agrees = with_session-Inv (now + twenty_minutes) key i m v (missing_of _ e) (missing_of _ f);
  sees = λ r.
      rw (← b r)
        (view-with_session (now + twenty_minutes) key i m v (missing_of _ e) (missing_of _ f) r);
}
  where
    missing_of : {A : Type 0} (o : Option A) → is_some o ≡ false → o ≡ none
    missing_of none h = refl
    missing_of (some a) h = cc

-- An id that no live session has is used by none.
unused_ids :
    (now : ℕ) (strings : List Bytes) (m m' : Manager)
    → Removes now m m'
    → Any (λ s. seen now m s ≡ none) strings
    → Any (λ s. contains s m'.str_to_int ≡ false) strings
unused_ids now strings m m' r =
    Any-mono (λ s. seen now m s ≡ none) _ strings
      (λ s e. let miss = (view-missing m' r.keeps s).0 (r.sees s ∙ e) in ground arith)

new_in :
    (now : ℕ) (strings : List Bytes) (ints : List ℕ) (s : Bytes) (m m' : Manager)
    → Removes now m m'
    → (is_empty s ≡ true) ⊎ (seen now m s ≡ none)
    → Any (λ k. contains k m'.str_to_int ≡ false) strings
    → Any (λ i. contains i m'.int_to_str ≡ false) ints
    → (key : Bytes) × (a : ℕ) × (m'' : Manager) × (find_or_create now strings ints s m'
        ≡ done (record { created = true; key = key; session_ptr = some a; manager = m'' }))
      × (seen now m key ≡ none)
      × ((r : Bytes) (t : ℕ) → seen now m r ≢ some (a, t))
      × Serves now key a (seen now m) m''
new_in now strings ints s m m' r h hs hi =
    let (key, kf, ku) = first_fresh_lem (λ k. contains k m'.str_to_int) strings hs in
    let (i, jf, ju) = first_fresh_lem (λ k. contains k m'.int_to_str) ints hi in
    let gone = view-missing m' r.keeps s in
    (
      key,
      m'.next_address,
      with_session (now + twenty_minutes) key i m',
      find_or_create-with_session now strings ints s key i m' (ground (arith, r.sees s)) kf jf,
      ground (arith, r.sees key),
      λ q t e. next_address_fresh m' r.keeps q t (r.sees q ∙ e),
      with_session-Serves now key i (seen now m) m' r.keeps r.sees ku ju,
    )

-- Where the containers agree, the id is empty or that of no session that has not expired, and the
-- draws hold a fresh id and a fresh key, `get_or_create` says that it created a session: its id is
-- one that no live session has, its object is no live session's, it has twenty minutes from now,
-- and all other sessions that have not expired stay as they are.
pub get_or_create_new :
    (now : ℕ) (strings : List Bytes) (ints : List ℕ) (s : Bytes) (m : Manager)
    → Inv m
    → (is_empty s ≡ true) ⊎ (seen now m s ≡ none)
    → CanDraw now m strings ints
    → (key : Bytes) × (a : ℕ) × (m' : Manager) × (get_or_create now strings ints s m
        ≡ done (record { created = true; key = key; session_ptr = some a; manager = m' }))
      × (seen now m key ≡ none)
      × ((r : Bytes) (t : ℕ) → seen now m r ≢ some (a, t))
      × Serves now key a (seen now m) m'
unfolding get_or_create
get_or_create_new now strings ints s m v h (hs, hi) =
    let r = remove_expired-Removes now m v in
    new_in now strings ints s m (remove_expired now m) r h (unused_ids now strings m _ r hs) hi
