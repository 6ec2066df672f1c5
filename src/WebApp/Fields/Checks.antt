-- ===== src/WebApp/Fields/Checks.antt =====
-- Reading a field leaves the state alone.
use movie_dbproject.Prelude.Bytes.{Bytes}
use movie_dbproject.Prelude.{◌≡◌, Option, none, some, arith}
use movie_dbproject.Prelude.Int.{ℤ}
use movie_dbproject.WebApp.Flow.{Request, State, next, or_throw, bad_value, bad_number, ◌>>=◌}
use movie_dbproject.WebApp.Flow.Ending.{IsCheck, IsCheck-bind, or_throw-IsCheck, or_throw-next}
use movie_dbproject.WebApp.Fields.{get_or_empty, get_stoi_or_zero, text_field, number_field}

pub text_field-IsCheck : (request : Request) (key : Bytes) → IsCheck (text_field request key)
text_field-IsCheck request key = or_throw-IsCheck (get_or_empty request.params key) bad_value

pub number_field-IsCheck : (request : Request) (key : Bytes) → IsCheck (number_field request key)
number_field-IsCheck request key =
    IsCheck-bind (text_field request key)
      (λ _. or_throw (get_stoi_or_zero request.params key) bad_number)
      (text_field-IsCheck request key)
      (λ _. or_throw-IsCheck (get_stoi_or_zero request.params key) bad_number)

pub text_field-next :
    (request : Request) (key : Bytes) (s s' : State) (v : Bytes)
    → text_field request key s ≡ (next v, s')
    → get_or_empty request.params key ≡ some v
text_field-next request key s s' v h =
    or_throw-next (get_or_empty request.params key) bad_value s s' v h

pub number_field-next :
    (request : Request) (key : Bytes) (s s' : State) (v : ℤ)
    → number_field request key s ≡ (next v, s')
    → get_stoi_or_zero request.params key ≡ some v
number_field-next request key s s' v h =
    go (get_or_empty request.params key) (get_stoi_or_zero request.params key) h
  where
    go :
        (t : Option Bytes) (o : Option ℤ)
        → (or_throw t bad_value >>= λ _. or_throw o bad_number) s ≡ (next v, s')
        → o ≡ some v
    go none o h = absurd (ground arith)
    go (some x) o h = or_throw-next o bad_number s s' v h
