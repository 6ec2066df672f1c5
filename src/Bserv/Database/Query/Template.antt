-- ===== src/Bserv/Database/Query/Template.antt =====
-- `exec` against a description of what a query template means.
use movie_dbproject.Prelude.{
  ℕ, suc, ◌≡◌, ◌∙◌, refl, ap, false, List, [], ◌∷◌, ◌++◌, ◌==◌, if◌then◌else◌, arith, append_assoc,
  append-nil, Bool-cases, inl, inr, length, ◌↔◌,
}
use movie_dbproject.Prelude.Bytes.{Bytes}
use movie_dbproject.Bserv.Database.Query.{
  Query, query, error, too_few_parameters, too_many_parameters, mark, at_mark, substitute,
  exec_text,
}

-- A template: bytes and places for parameters.
pub data Piece : Type 0 where
  byte : ℕ → Piece
  place : Piece

-- A template as the text of a query: a question mark is written twice, a place as one.
abbrev pub print_piece : Piece → Bytes
print_piece (byte c) = if c == mark then mark ∷ mark ∷ [] else c ∷ []
print_piece place = mark ∷ []

abbrev pub print_template : List Piece → Bytes
print_template [] = []
print_template (p ∷ t) = print_piece p ++ print_template t

-- No place stands in front of a question mark or of another place, where the text of the template
-- would read otherwise.
abbrev pub IsSeparated : List Piece → Type 0
IsSeparated [] = Unit
IsSeparated (byte c ∷ t) = IsSeparated t
IsSeparated (place ∷ t) = (at_mark (print_template t) ≡ false) × IsSeparated t

-- The meaning: each place takes the next value as it is.
abbrev pub prepend : Bytes → Query → Query
prepend b (query q) = query (b ++ q)
prepend b (error e) = error e

abbrev pub fill : List Piece → List Bytes → Query
fill [] [] = query []
fill [] (v ∷ vs) = error too_many_parameters
fill (byte c ∷ t) vs = prepend (c ∷ []) (fill t vs)
fill (place ∷ t) [] = error too_few_parameters
fill (place ∷ t) (v ∷ vs) = prepend v (fill t vs)

prepend_assoc : (a b : Bytes) (x : Query) → prepend (a ++ b) x ≡ prepend a (prepend b x)
prepend_assoc a b (query q) = ap query (append_assoc a b q)
prepend_assoc a b (error e) = refl

substitute-copy :
    (c : ℕ) (s : Bytes) (vs : List Bytes) (q : Bytes)
    → (c == mark) ≡ false
    → substitute false (c ∷ s) vs q ≡ substitute false s vs (q ++ c ∷ [])
unfolding substitute
substitute-copy c s [] q h = rw h
substitute-copy c s (v ∷ vs) q h = rw h

substitute-escape :
    (s : Bytes) (vs : List Bytes) (q : Bytes)
    → substitute false (mark ∷ mark ∷ s) vs q ≡ substitute false s vs (q ++ mark ∷ [])
unfolding substitute
substitute-escape s [] q = refl
substitute-escape s (v ∷ vs) q = refl

substitute-place :
    (s : Bytes) (v : Bytes) (vs : List Bytes) (q : Bytes)
    → at_mark s ≡ false
    → substitute false (mark ∷ s) (v ∷ vs) q ≡ substitute false s vs (q ++ v)
unfolding substitute
substitute-place s v vs q h = rw h

substitute-too_few :
    (s q : Bytes) → at_mark s ≡ false → substitute false (mark ∷ s) [] q ≡ error too_few_parameters
unfolding substitute
substitute-too_few s q h = rw h

substitute-fill :
    (t : List Piece) (vs : List Bytes) (q : Bytes)
    → IsSeparated t
    → substitute false (print_template t) vs q ≡ prepend q (fill t vs)
substitute-fill [] [] q h = unfold substitute in rw append-nil
substitute-fill [] (v ∷ vs) q h = unfold substitute in refl
substitute-fill (place ∷ t) [] q (a, h) = substitute-too_few (print_template t) q a
substitute-fill (place ∷ t) (v ∷ vs) q (a, h) =
    substitute-place (print_template t) v vs q a
    ∙ substitute-fill t vs (q ++ v) h
    ∙ prepend_assoc q v (fill t vs)
substitute-fill (byte c ∷ t) vs q h = elim (Bool-cases (c == mark)) [
  | inl e ↦
      let same_byte : c ≡ mark = ground arith in
      rw same_byte (
        substitute-escape (print_template t) vs q
        ∙ substitute-fill t vs (q ++ mark ∷ []) h
        ∙ prepend_assoc q (mark ∷ []) (fill t vs))
  | inr e ↦ rw e (
      substitute-copy c (print_template t) vs q e
      ∙ substitute-fill t vs (q ++ c ∷ []) h
      ∙ prepend_assoc q (c ∷ []) (fill t vs))
]

-- For a separated template, `exec` on its text puts the values into the places in order, each as
-- it is and also where it holds question marks; it fails with "too few parameters" or "too many
-- parameters" just as the template does.
pub exec_text-print_template :
    (t : List Piece) (values : List Bytes)
    → IsSeparated t
    → exec_text (print_template t) values ≡ fill t values
unfolding exec_text
exec_text-print_template t values h = substitute-fill t values [] h ∙ prepend_nil (fill t values)
  where
    prepend_nil : (x : Query) → prepend [] x ≡ x
    prepend_nil (query q) = refl
    prepend_nil (error e) = refl

-- The places of a template.
abbrev pub places : List Piece → ℕ
places [] = 0
places (byte c ∷ t) = places t
places (place ∷ t) = suc (places t)

-- The text is built, and no error is thrown.
abbrev pub IsQuery : Query → Type 0
IsQuery (query q) = Unit {0}
IsQuery (error e) = ⊥

prepend-IsQuery : (b : Bytes) (x : Query) → IsQuery (prepend b x) ↔ IsQuery x
prepend-IsQuery b (query q) = (λ h. h, λ h. h)
prepend-IsQuery b (error e) = (λ h. h, λ h. h)

fill-IsQuery : (t : List Piece) (vs : List Bytes) → IsQuery (fill t vs) ↔ (length vs ≡ places t)
fill-IsQuery [] [] = (λ h. refl, λ h. tt)
fill-IsQuery [] (v ∷ vs) = (λ h. absurd h, λ h. absurd (omega arith))
fill-IsQuery (place ∷ t) [] = (λ h. absurd h, λ h. absurd (omega arith))
fill-IsQuery (place ∷ t) (v ∷ vs) =
    let (to, from) = prepend-IsQuery v (fill t vs) in
    let (ih, hi) = fill-IsQuery t vs in (λ h. ap suc (ih (to h)), λ h. from (hi (omega arith)))
fill-IsQuery (byte c ∷ t) vs =
    let (to, from) = prepend-IsQuery (c ∷ []) (fill t vs) in
    let (ih, hi) = fill-IsQuery t vs in (λ h. ih (to h), λ h. from (hi h))

-- For a separated template, `exec` reaches the database exactly when it is given as many values
-- as the template has places.
pub exec_text-IsQuery :
    (t : List Piece) (values : List Bytes)
    → IsSeparated t
    → IsQuery (exec_text (print_template t) values) ↔ (length values ≡ places t)
exec_text-IsQuery t values h = rw (exec_text-print_template t values h) (fill-IsQuery t values)
