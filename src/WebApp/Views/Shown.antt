-- ===== src/WebApp/Views/Shown.antt =====
-- What the pages of WebApp/ show.
use movie_dbproject.Prelude.{
  ℕ, zero, suc, ◌*◌, ◌≡◌, refl, subst, leb, ◌⊎◌, Bool, true, false, ◌&&◌, Option, none, some, List,
  [], ◌∷◌, arith, All, Any, take, select, Bool-cases, Option-cases, inl, inr,
}
use movie_dbproject.Prelude.Bytes.{Bytes, codes, same, same_iff}
use movie_dbproject.Prelude.Int.{ℤ, pos, negsuc}
use movie_dbproject.Bserv.Utils.Params.{drop}
use movie_dbproject.WebApp.Db.{Movie, Screening}
use movie_dbproject.WebApp.Flow.{
  Request, Reply, State, Exception, next, throws, undefined_behaviour,
}
use movie_dbproject.WebApp.Fields.{get_or_empty}
use movie_dbproject.WebApp.Permissions.{Roles}
use movie_dbproject.WebApp.Screenings.{may}
use movie_dbproject.WebApp.Views.{Page, limited, page_offset}
use movie_dbproject.WebApp.Views.Lists.{MoviesPage, newest, search, redirect_to_movies}
use movie_dbproject.WebApp.Views.Details.{Choice, consider, consider_all}

module _ {A : Type 0} where
  All-take : (P : A → Type 0) (n : ℕ) (xs : List A) → All P xs → All P (take n xs)
  unfolding take
  All-take P zero xs h = tt
  All-take P (suc n) [] h = tt
  All-take P (suc n) (x ∷ xs) (p, h) = (p, All-take P n xs h)

  All-drop : (P : A → Type 0) (n : ℕ) (xs : List A) → All P xs → All P (drop n xs)
  unfolding drop
  All-drop P zero xs h = h
  All-drop P (suc n) [] h = tt
  All-drop P (suc n) (x ∷ xs) (p, h) = All-drop P n xs h

  All-select : (p : A → Bool) (xs : List A) → All (λ x. p x ≡ true) (select p xs)
  unfolding select
  All-select p [] = tt
  All-select p (x ∷ xs) = elim (Bool-cases (p x)) [
    | inl e ↦ rw e (e, All-select p xs)
    | inr e ↦ rw e (All-select p xs)
  ]

-- An offset, or an exception.
page_offset-cases :
    (page_id : ℤ)
    → ((offset : ℕ) × ((s : State) → page_offset page_id s ≡ (next offset, s)))
      ⊎ ((e : Exception) × ((s : State) → page_offset page_id s ≡ (throws e, s)))
unfolding page_offset
page_offset-cases (pos zero) = inr (_, λ s. refl)
page_offset-cases (pos (suc n)) = elim (Bool-cases (leb n 214748364)) [
  | inl e ↦ inl (10 * n, λ s. ground (arith, e))
  | inr e ↦ inr (undefined_behaviour, λ s. ground (arith, e))
]
page_offset-cases (negsuc n) = inr (_, λ s. refl)

-- `redirect_to_movies`, the list of movies: for a session without the permission `view_unreviewed`
-- all movies of the list that it gives are reviewed, whatever is searched for and whichever page is
-- asked for. Of the other pages nothing is said.
pub redirect_to_movies-reviewed :
    (like : Bytes → Bytes → Bool) (roles : Roles) (request : Request) (page_id : ℤ)
    (reply : Option Reply) (s s' : State) (page : Page MoviesPage)
    → may roles (codes "view_unreviewed") s.session ≡ false
    → redirect_to_movies like roles request page_id reply s ≡ (next page, s')
    → All (λ (m : Movie). m.reviewed ≡ true) page.content.movies.rows
unfolding redirect_to_movies
redirect_to_movies-reviewed like roles request page_id reply s s' page no_permission shown =
    elim (Option-cases (get_or_empty request.params (codes "s"))) [
      | inl f ↦ absurd (ground (arith, shown, f))
      | inr (kw, f) ↦ elim (page_offset-cases page_id) [
        | inr (e, g) ↦ absurd (ground (arith, shown, f, g s))
        | inl (offset, g) ↦ elim (Option-cases (newest s.db.announcements)) [
          | inl k ↦ absurd (ground (arith, shown, f, g s, k))
          | inr (a, k) ↦
              let here : limited offset (select (λ (m : Movie). m.reviewed) (search like kw s.db))
                  ≡ page.content.movies.rows =
                ground (arith, shown, f, g s, k, no_permission) in
              subst (All (λ (m : Movie). m.reviewed ≡ true)) here (
                unfold limited in
                All-take _ 10 _ (
                  All-drop _ offset _
                    (All-select (λ (m : Movie). m.reviewed) (search like kw s.db))))
        ]
      ]
    ]

-- The screening is the one from before, or one of the list that fits.
chosen_from :
    (date time : Bytes) (l : List Screening) (c : Choice) (s : Screening)
    → (consider_all date time l c).chosen ≡ some s
    → (c.chosen ≡ some s) ⊎ (Any (λ x. x ≡ s) l × (s.showing_date ≡ date) × (s.time ≡ time))
unfolding consider_all
chosen_from date time [] c s h = inl h
chosen_from date time (x ∷ l) c s h = elim (chosen_from date time l (consider date time x c) s h) [
  | inr (there, d, t) ↦ inr (inr there, d, t)
  | inl e ↦ elim (Bool-cases (same x.showing_date date && same x.time time)) [
    | inr other ↦ inl (unfold consider in ground (arith, e, other))
    | inl fits_both ↦
        let same_one : x ≡ s = unfold consider in ground (arith, e, fits_both) in
        inr (
          inl same_one,
          subst (λ (y : Screening). y.showing_date ≡ date) same_one
              ((same_iff x.showing_date date).0 (ground (arith, fits_both))),
          subst (λ (y : Screening). y.time ≡ time) same_one
              ((same_iff x.time time).0 (ground (arith, fits_both))),
        )
  ]
]

-- The screening that the page of a movie takes as selected is one of those of the movie in the
-- room, on the date and at the time that were selected.
pub consider_all-chosen :
    (date time : Bytes) (screenings : List Screening) (c : Choice) (s : Screening)
    → c.chosen ≡ none
    → (consider_all date time screenings c).chosen ≡ some s
    → Any (λ x. x ≡ s) screenings × (s.showing_date ≡ date) × (s.time ≡ time)
consider_all-chosen date time screenings c s before h =
    elim (chosen_from date time screenings c s h) [ inl e ↦ absurd (cc) | inr found ↦ found ]
