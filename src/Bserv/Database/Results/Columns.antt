-- ===== src/Bserv/Database/Results/Columns.antt =====
-- bserv/include/bserv/database.hpp: the object of a row has the columns of the row.
use movie_dbproject.Prelude.{
  ℕ, suc, ◌≡◌, ◌∙◌, refl, ap, sym, false, Option, some, List, [], ◌∷◌, arith, All,
}
use movie_dbproject.Prelude.Bytes.{Bytes, same, same_refl}
use movie_dbproject.Prelude.Dict.{Dict, lookup, insert, lookup-insert}
use movie_dbproject.Bserv.Database.Results.{
  Json, Kind, Field, Row, Converted, gives, conversion_error, too_many_objects, undefined, ◌>>=◌,
  column, value_of, add, convert_from, convert_row,
}

-- The names of fields differ from each other.
abbrev pub Distinct : List Field → Type 0
Distinct [] = Unit
Distinct (f ∷ fields) = All (λ (g : Field). same g.name f.name ≡ false) fields × Distinct fields

-- Where a chain gives a value, its first part did.
bind-gives :
    {A B : Type 0} (m : Converted A) (f : A → Converted B) (b : B)
    → (m >>= f) ≡ gives b
    → (a : A) × (m ≡ gives a) × (f a ≡ gives b)
bind-gives (gives a) f b h = (a, refl, h)
bind-gives conversion_error f b h = absurd (ground arith)
bind-gives too_many_objects f b h = absurd (ground arith)
bind-gives undefined f b h = absurd (ground arith)

module _ (as_type : Kind → Bytes → Option Json) where
  -- The object has under the name of each field, from the i-th on, the value of its column.
  abbrev pub HasColumns : ℕ → List Field → Row → Dict Json → Type 0
  HasColumns i [] row obj = Unit
  HasColumns i (f ∷ fields) row obj =
      ((v : Option Bytes) × (j : Json) × (column row i ≡ gives v)
        × (value_of as_type f.field_type v ≡ gives j)
        × (lookup f.name obj ≡ some j))
      × HasColumns (suc i) fields row obj

  -- What a part of a conversion gives.
  add-gives :
      (f : Field) (row : Row) (i : ℕ) (obj obj' : Dict Json)
      → add as_type f row i obj ≡ gives obj'
      → (v : Option Bytes) × (j : Json) × (column row i ≡ gives v)
        × (value_of as_type f.field_type v ≡ gives j)
        × (insert f.name j obj ≡ obj')
  unfolding add
  add-gives f row i obj obj' h =
      let (v, e, h') = bind-gives (column row i) _ obj' h in
      let (j, g, h'') = bind-gives (value_of as_type f.field_type v) _ obj' h' in
      (v, j, e, g, ground (arith, h''))

  -- A key that no field has keeps what it has.
  convert_from-keeps :
      (i : ℕ) (fields : List Field) (row : Row) (obj obj' : Dict Json) (k : Bytes)
      → All (λ (g : Field). same g.name k ≡ false) fields
      → convert_from as_type i fields row obj ≡ gives obj'
      → lookup k obj' ≡ lookup k obj
  unfolding convert_from
  convert_from-keeps i [] row obj obj' k all h = ground (arith, h)
  convert_from-keeps i (f ∷ fields) row obj obj' k (other, all) h =
      let (obj1, e, h') = bind-gives (add as_type f row i obj) _ obj' h in
      let (v, j, _, _, made) = add-gives f row i obj obj1 e in
      convert_from-keeps (suc i) fields row obj1 obj' k all h'
      ∙ ap (lookup k) (sym made)
      ∙ lookup-insert k f.name j obj
      ∙ ground (arith, other)

  convert_from-HasColumns :
      (i : ℕ) (fields : List Field) (row : Row) (obj obj' : Dict Json)
      → Distinct fields
      → convert_from as_type i fields row obj ≡ gives obj'
      → HasColumns i fields row obj'
  unfolding convert_from
  convert_from-HasColumns i [] row obj obj' distinct h = tt
  convert_from-HasColumns i (f ∷ fields) row obj obj' (different, distinct) h =
      let (obj1, e, h') = bind-gives (add as_type f row i obj) _ obj' h in
      let (v, j, c, g, made) = add-gives f row i obj obj1 e in
      (
        (
          v,
          j,
          c,
          g,
          convert_from-keeps (suc i) fields row obj1 obj' f.name different h'
              ∙ ap (lookup f.name) (sym made)
              ∙ lookup-insert f.name f.name j obj
              ∙ ground (arith, same_refl f.name),
        ),
        convert_from-HasColumns (suc i) fields row obj1 obj' distinct h',
      )

  -- Where the fields of a relation have different names, the object that is made of a row has under
  -- the name of each field the value of the column at the place of the field.
  pub convert_row-HasColumns :
      (fields : List Field) (row : Row) (obj : Dict Json)
      → Distinct fields
      → convert_row as_type fields row ≡ gives obj
      → HasColumns 0 fields row obj
  unfolding convert_row
  convert_row-HasColumns fields row obj distinct h =
      convert_from-HasColumns 0 fields row [] obj distinct h
