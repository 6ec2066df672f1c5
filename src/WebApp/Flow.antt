-- ===== src/WebApp/Flow.antt =====
-- The frame of a handler: the request, the session, the reply, and a monad for early returns and
-- exceptions over the database and the session.
pub mod Ending
use Prim.Native.String.{String}
use movie_dbproject.Prelude.{ℕ, List, [], ◌∷◌, Bool, true, false, Option, none, some, if◌then◌else◌}
use movie_dbproject.Prelude.Bytes.{Bytes}
use movie_dbproject.Prelude.Dict.{Dict}
use movie_dbproject.Bserv.Database.Query.{JsonValue}
use movie_dbproject.WebApp.Db.{User, Db, DbError, Executed, rows, fails}

-- What is thrown. `bad_value` is boost::json's exception of a value that has another type,
-- `bad_number` that of `std::stoi` and `std::stod`.
pub data Exception : Type 0 where
  url_not_found bad_value bad_number too_many_objects : Exception
  runtime_error : String → Exception
  -- The code reads outside a container here, and C++ says nothing about what happens.
  undefined_behaviour : Exception
  db_error : DbError → Exception
  -- `throw std::runtime_error(e.what())` in a `catch`.
  rethrown : Exception → Exception

-- A message of a reply: a text of the code, or `e.what()`.
pub data Message : Type 0 where
  text : String → Message
  what : Exception → Message

-- `{{"success", …}, {"message", …}}`; only `modify_comment` puts the key `movie_id` into one.
pub record Reply : Type 0 where
  pub success : Bool
  pub message : Message
  pub movie_id : Option ℕ

-- A JSON value of a request; a double is kept as its text.
abbrev pub Json : Type 0
Json = JsonValue Bytes

pub record Request : Type 0 where
  pub is_post : Bool
  pub params : Dict Json

-- A session object: the row of the user that has logged in, as it was when it was last read.
pub record Session : Type 0 where
  pub user : Option User

pub record State : Type 0 where
  pub db : Db
  pub session : Session

-- How a part of a handler ends: with a value, with the handler's reply, or with an exception.
pub data Flow (A : Type 0) : Type 0 where
  next : A → Flow A
  returns : Reply → Flow A
  throws : Exception → Flow A

abbrev pub Handler : Type 0 → Type 0
Handler A = State → Flow A × State

infixl 5 ◌>>=◌ ◌>>◌
abbrev pub ◌>>=◌ : {A B : Type 0} → Handler A → (A → Handler B) → Handler B
◌>>=◌ m f s =
    let (r, s') = m s in
    elim r [ next a ↦ f a s' | returns reply ↦ (returns reply, s') | throws e ↦ (throws e, s') ]

abbrev pub ◌>>◌ : {B : Type 0} → Handler (Unit {0}) → Handler B → Handler B
m >> k = m >>= λ _. k

module _ {A : Type 0} where
  abbrev pub pure : A → Handler A
  pure a s = (next a, s)

  abbrev pub throw : Exception → Handler A
  throw e s = (throws e, s)

  -- `return {{"success", false}, {"message", …}};`
  abbrev pub refuse : String → Handler A
  refuse m s = (returns (record { success = false; message = text m; movie_id = none }), s)

  abbrev pub refuse_what : Exception → Handler A
  refuse_what e s = (returns (record { success = false; message = what e; movie_id = none }), s)

  -- `return {{"success", true}, {"message", …}};`
  abbrev pub succeed : String → Handler A
  succeed m s = (returns (record { success = true; message = text m; movie_id = none }), s)

  -- `return {{"success", true}, {"message", …}, {"movie_id", …}};`
  abbrev pub succeed_with : String → ℕ → Handler A
  succeed_with m i s = (returns (record { success = true; message = text m; movie_id = some i }), s)

  -- The value of an expression that may throw.
  abbrev pub or_throw : Option A → Exception → Handler A
  or_throw none e = throw e
  or_throw (some a) e = pure a

  -- The value of an expression in a `try` whose `catch` returns a message of its own.
  abbrev pub or_refuse : Option A → String → Handler A
  or_refuse none m = refuse m
  or_refuse (some a) m = pure a

  -- A statement outside any `try`.
  abbrev pub executed : Executed A → Handler A
  executed (rows a) = pure a
  executed (fails e) = throw (db_error e)

  -- A statement in a `try` whose `catch` returns a message of its own.
  abbrev pub executed_or : Executed A → String → Handler A
  executed_or (rows a) m = pure a
  executed_or (fails e) m = refuse m

  -- A statement in a `try` whose `catch` returns `e.what()`.
  abbrev pub executed_or_what : Executed A → Handler A
  executed_or_what (rows a) = pure a
  executed_or_what (fails e) = refuse_what (db_error e)

-- What the `catch` below does to the end of its `try`:
-- `try { … } catch (const std::exception& e) { return {{"success", false}, {"message", e.what()}}; }`
abbrev pub caught : {A : Type 0} → Flow A × State → Flow A × State
caught (next a, s) = (next a, s)
caught (returns reply, s) = (returns reply, s)
caught (throws e, s) = refuse_what e s

abbrev pub catch_what : {A : Type 0} → Handler A → Handler A
catch_what m s = caught (m s)

-- `if (c) throw e;`
abbrev pub throw_if : Bool → Exception → Handler (Unit {0})
throw_if c e = if c then throw e else pure tt

-- `if (c) return {{"success", false}, {"message", m}};`
abbrev pub refuse_if : Bool → String → Handler (Unit {0})
refuse_if c m = if c then refuse m else pure tt

-- The database as a transaction finds it when it begins.
abbrev pub begin : Handler Db
begin s = (next s.db, s)

-- A transaction ends without `commit` when it is destroyed: nothing of it stays.
abbrev pub commit : Db → Handler (Unit {0})
commit d s = (next tt, record s { db = d })

abbrev pub get_session : Handler Session
get_session s = (next s.session, s)

abbrev pub set_session : Session → Handler (Unit {0})
set_session x s = (next tt, record s { session = x })

-- The user of the session; a handler has tested that there is one.
abbrev pub session_user : Handler User
session_user = do session ← get_session; or_throw session.user bad_value

-- `if (rows.size() != 1) return {{"success", false}, {"message", …}};`, and then the row.
abbrev pub only_row : {A : Type 0} → List A → String → Handler A
only_row [] m = refuse m
only_row (x ∷ []) m = pure x
only_row (x ∷ y ∷ r) m = refuse m

-- `convert_to_optional`
abbrev pub optional_row : {A : Type 0} → List A → Handler (Option A)
optional_row [] = pure none
optional_row (x ∷ []) = pure (some x)
optional_row (x ∷ y ∷ r) = throw too_many_objects
