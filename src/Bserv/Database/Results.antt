-- ===== src/Bserv/Database/Results.antt =====
-- bserv/include/bserv/database.hpp: `db_field` and `db_relation_to_object`, which make JSON objects
-- of the rows of a result. `as_type` is the conversion `as<Type>()` of libpqxx, of a text that the
-- database gives, `none` where it throws.
pub mod Columns
use movie_dbproject.Prelude.{ℕ, zero, suc, Bool, true, false, Option, none, some, List, [], ◌∷◌}
use movie_dbproject.Prelude.Bytes.{Bytes}
use movie_dbproject.Prelude.Dict.{Dict, insert}
use movie_dbproject.Bserv.Database.Query.{JsonValue, json_null, json_string}

abbrev pub Json : Type 0
Json = JsonValue Bytes

-- The `Type` of a field but for strings.
pub data Kind : Type 0 where
  int_kind double_kind bool_kind : Kind

-- `db_field<Type>`, `db_field<std::string>` and the two of `std::optional`.
pub data FieldType : Type 0 where
  typed optional_typed : Kind → FieldType
  text optional_text : FieldType

-- `db_field_holder`
pub record Field : Type 0 where
  pub name : Bytes
  pub field_type : FieldType

-- A row of libpqxx: a text or null for each column.
abbrev pub Row : Type 0
Row = List (Option Bytes)

pub data Converted (A : Type 0) : Type 0 where
  gives : A → Converted A
  conversion_error too_many_objects : Converted A
  -- A column that the row does not have.
  undefined : Converted A

infixl 5 ◌>>=◌
abbrev pub ◌>>=◌ : {A B : Type 0} → Converted A → (A → Converted B) → Converted B
gives a >>= f = f a
conversion_error >>= f = conversion_error
too_many_objects >>= f = too_many_objects
undefined >>= f = undefined

or_error : Option Json → Converted Json
or_error none = conversion_error
or_error (some j) = gives j

-- `row[field_idx]`
unfoldable pub column : Row → ℕ → Converted (Option Bytes)
column [] i = undefined
column (v ∷ row) zero = gives v
column (v ∷ row) (suc i) = column row i

module _ (as_type : Kind → Bytes → Option Json) where
  -- `as<Type>()`, which throws for a null.
  converted : Kind → Option Bytes → Converted Json
  unfolding or_error
  converted kind none = conversion_error
  converted kind (some s) = or_error (as_type kind s)

  -- The value that `add` puts into the object; `c_str()` of a null is the empty string.
  unfoldable pub value_of : FieldType → Option Bytes → Converted Json
  unfolding converted
  value_of (typed kind) v = converted kind v
  value_of (optional_typed kind) none = gives json_null
  value_of (optional_typed kind) (some s) = converted kind (some s)
  value_of text none = gives (json_string [])
  value_of text (some s) = gives (json_string s)
  value_of optional_text none = gives json_null
  value_of optional_text (some s) = gives (json_string s)

  unfoldable pub add : Field → Row → ℕ → Dict Json → Converted (Dict Json)
  unfolding value_of column
  add field row field_idx obj = do
    v ← column row field_idx
    j ← value_of field.field_type v
    gives (insert field.name j obj)

  -- The loop of `convert_row` from the i-th field on.
  unfoldable pub convert_from : ℕ → List Field → Row → Dict Json → Converted (Dict Json)
  unfolding add
  convert_from i [] row obj = gives obj
  convert_from i (field ∷ fields) row obj = do
    obj' ← add field row i obj
    convert_from (suc i) fields row obj'

  unfoldable pub convert_row : List Field → Row → Converted (Dict Json)
  unfolding convert_from
  convert_row fields row = convert_from 0 fields row []

  unfoldable pub convert_to_vector : List Field → List Row → Converted (List (Dict Json))
  unfolding convert_row
  convert_to_vector fields [] = gives []
  convert_to_vector fields (row ∷ result) = do
    obj ← convert_row fields row
    results ← convert_to_vector fields result
    gives (obj ∷ results)

  unfoldable pub convert_to_optional : List Field → List Row → Converted (Option (Dict Json))
  unfolding convert_row
  convert_to_optional fields [] = gives none
  convert_to_optional fields (row ∷ []) = do obj ← convert_row fields row; gives (some obj)
  convert_to_optional fields (row ∷ row' ∷ result) = too_many_objects
