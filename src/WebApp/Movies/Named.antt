-- ===== src/WebApp/Movies/Named.antt =====
-- What the fields that `movie_fields` gathers have of the name.
use movie_dbproject.Prelude.{◌≡◌, refl, arith, subst}
use movie_dbproject.Prelude.Bytes.{Bytes, codes}
use movie_dbproject.WebApp.Flow.{
  State, Flow, Handler, Request, next, returns, throws, ◌>>=◌, pure, caught, catch_what,
}
use movie_dbproject.WebApp.Fields.{text_field, number_field}
use movie_dbproject.WebApp.Movies.{MovieFields, movie_fields}

-- What a part of a handler gives has a property, whenever it gives something.
abbrev Yields : {A : Type 0} → (A → Type 0) → Handler A → Type 0
Yields {A} P m = (s s' : State) (a : A) → m s ≡ (next a, s') → P a

Yields-pure : {A : Type 0} (P : A → Type 0) (a : A) → P a → Yields P (pure a)
Yields-pure P a p s s' b e = let same_value : a ≡ b = ground (arith, e) in subst P same_value p

Yields-bind :
    {A B : Type 0} (P : B → Type 0) (m : Handler A) (k : A → Handler B)
    → ((a : A) → Yields P (k a))
    → Yields P (m >>= k)
Yields-bind {A} P m k h s s' b e = go (m s).0 (m s).1 e
  where
    go :
        (r : Flow A) (t : State)
        → elim r [ next a ↦ k a t | returns reply ↦ (returns reply, t) | throws x ↦ (throws x, t) ]
          ≡ (next b, s')
        → P b
    go (next a) t e = h a t s' b e
    go (returns reply) t e = absurd (ground (arith, e))
    go (throws x) t e = absurd (ground (arith, e))

Yields-catch_what :
    {A : Type 0} (P : A → Type 0) (m : Handler A) → Yields P m → Yields P (catch_what m)
Yields-catch_what {A} P m h s s' a e = go (m s).0 (m s).1 refl e
  where
    go : (r : Flow A) (t : State) → m s ≡ (r, t) → caught (r, t) ≡ (next a, s') → P a
    go (next b) t f e = h s t a (ground (arith, f, e))
    go (returns reply) t f e = absurd (ground (arith, e))
    go (throws x) t f e = absurd (ground (arith, e))

fields_named :
    (request : Request) (moviename : Bytes)
    → Yields (λ (f : MovieFields). f.moviename ≡ moviename) (movie_fields request moviename)
fields_named request moviename = Yields-bind _ (text_field request (codes "starname")) _ λ _.
    Yields-bind _ (text_field request (codes "detail")) _ λ _.
      Yields-bind _ (number_field request (codes "running_time")) _ λ _.
        Yields-bind _ (text_field request (codes "type")) _ λ _.
          Yields-bind _ (number_field request (codes "avg_rating")) _ λ _.
            Yields-bind _ (text_field request (codes "poster")) _ λ _.
              Yields-bind _ (number_field request (codes "box_office")) _ λ _.
                Yields-bind _ (number_field request (codes "num_participants")) _ λ _.
                  Yields-bind _ (number_field request (codes "release_date")) _ λ _.
                    Yields-bind _ (text_field request (codes "box_office_unit")) _ λ _.
                      Yields-bind _ (text_field request (codes "foreign_name")) _ λ _.
                        Yields-bind _ (text_field request (codes "location")) _
                          λ _. Yields-pure _ _ refl

-- The fields have the name that they are gathered under.
pub movie_fields-moviename :
    (request : Request) (moviename : Bytes) (s : State) (f : MovieFields)
    → catch_what (movie_fields request moviename) s ≡ (next f, s)
    → f.moviename ≡ moviename
movie_fields-moviename request moviename s f h =
    Yields-catch_what (λ f. f.moviename ≡ moviename) (movie_fields request moviename)
      (fields_named request moviename) s s f h
