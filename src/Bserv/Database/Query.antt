-- ===== src/Bserv/Database/Query.antt =====
-- `db_transaction::exec` and the parameters of a query. `tx.quote` and `tx.quote_name` of libpqxx,
-- and the text that `std::to_string` gives a double, are parameters.
pub mod Template
use movie_dbproject.Prelude.{
  ℕ, zero, suc, ◌+◌, ◌/◌, ◌%◌, Bool, true, false, Option, none, some, List, [], ◌∷◌, ◌++◌, ◌==◌,
  leb, if◌then◌else◌, ◌>>=◌, ◌≡◌, refl,
}
use movie_dbproject.Prelude.Bytes.{Bytes, codes}
use movie_dbproject.Prelude.Int.{ℤ, pos, negsuc}

-- The decimal digits of a number, on fuel; `suc n` rounds are enough for `n`.
unfoldable pub digits_from : ℕ → ℕ → Bytes → Bytes
digits_from zero n acc = acc
digits_from (suc f) n acc =
    let more = digits_from f (n / 10) ((n % 10 + b'0') ∷ acc) in
    if leb n 9 then (n + b'0') ∷ acc else more

-- `std::to_string` of an integer.
unfoldable pub to_string : ℤ → Bytes
unfolding digits_from
to_string (pos n) = digits_from (suc n) n []
to_string (negsuc n) = b'-' ∷ digits_from (suc (suc n)) (suc n) []

-- A `boost::json::value`, as far as `db_value<boost::json::value>` looks at it.
pub data JsonValue (Double : Type 0) : Type 0 where
  json_bool : Bool → JsonValue Double
  json_double : Double → JsonValue Double
  json_int64 json_uint64 : ℤ → JsonValue Double
  json_null json_array json_object : JsonValue Double
  json_string : Bytes → JsonValue Double

-- The classes derived from `db_parameter`.
pub data Parameter (Double : Type 0) : Type 0 where
  db_name db_string : Bytes → Parameter Double
  db_int : ℤ → Parameter Double
  db_double : Double → Parameter Double
  db_bool : Bool → Parameter Double
  db_null : Parameter Double

-- The constructor of `db_value<boost::json::value>`; `none` is `unsupported_json_value_type`.
unfoldable pub json_parameter : {Double : Type 0} → JsonValue Double → Option (Parameter Double)
json_parameter (json_bool b) = some (db_bool b)
json_parameter (json_double d) = some (db_double d)
json_parameter (json_int64 i) = some (db_int i)
json_parameter (json_uint64 i) = some (db_int i)
json_parameter json_null = some db_null
json_parameter (json_string s) = some (db_string s)
json_parameter json_array = none
json_parameter json_object = none

pub record Quoting (Double : Type 0) : Type 0 where
  pub quote : Bytes → Bytes
  pub quote_name : Bytes → Bytes
  pub double_text : Double → Bytes

-- `get_value`
unfoldable pub get_value : {Double : Type 0} → Quoting Double → Parameter Double → Bytes
unfolding to_string
get_value q (db_name s) = q.quote_name s
get_value q (db_string s) = q.quote s
get_value q (db_int i) = to_string i
get_value q (db_double d) = q.double_text d
get_value q (db_bool true) = codes "true"
get_value q (db_bool false) = codes "false"
get_value q db_null = codes "null"

pub data QueryError : Type 0 where
  too_few_parameters too_many_parameters : QueryError

pub data Query : Type 0 where
  query : Bytes → Query
  error : QueryError → Query

abbrev pub mark : ℕ
mark = b'?'

-- `s[i + 1] == '?'`, where `s` is the text behind position `i`.
abbrev pub at_mark : Bytes → Bool
at_mark [] = false
at_mark (c ∷ s) = c == mark

-- The loop of `exec`: `skip` says that `++i` has passed over this position, `values` are those
-- from `idx` on, and `q` is the query so far.
unfoldable pub substitute : Bool → Bytes → List Bytes → Bytes → Query
substitute skip [] [] q = query q
substitute skip [] (v ∷ values) q = error too_many_parameters
substitute true (c ∷ s) values q = substitute false s values q
substitute false (c ∷ s) [] q =
    let copy = substitute false s [] (q ++ c ∷ []) in
    let escape = substitute true s [] (q ++ c ∷ []) in
    if c == mark then if at_mark s then escape else error too_few_parameters else copy
substitute false (c ∷ s) (v ∷ values) q =
    let copy = substitute false s (v ∷ values) (q ++ c ∷ []) in
    let escape = substitute true s (v ∷ values) (q ++ c ∷ []) in
    let fill = substitute false s values (q ++ v) in
    if c == mark then if at_mark s then escape else fill else copy

-- The text that `exec` hands to the database.
unfoldable pub exec_text : Bytes → List Bytes → Query
unfolding substitute
exec_text s values = substitute false s values []
