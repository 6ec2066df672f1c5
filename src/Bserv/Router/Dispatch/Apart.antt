-- ===== src/Bserv/Router/Dispatch/Apart.antt =====
-- bserv/include/bserv/router.hpp: paths of which no two match the same url, so that their order in
-- the table does not matter, and placeholders that stay within `url_params`.
use movie_dbproject.Prelude.{
  ℕ, zero, suc, ◌<◌, Bool, true, false, not, ◌&&◌, some, List, [], ◌∷◌, ◌++◌, ◌==◌, leb,
  if◌then◌else◌, ◌≡◌, refl, ap, sym, subst, arith, All, Any, length, Option-cases, inl, inr,
  is_some,
}
use movie_dbproject.Prelude.Bytes.{Bytes}
use movie_dbproject.Bserv.Utils.Params.{is_empty}
use movie_dbproject.Bserv.Router.Pattern.{Piece, literal, group, in_set, match}
use movie_dbproject.Bserv.Router.Pattern.Matching.{Spells, match-Spells}
use movie_dbproject.Bserv.Router.Placeholders.{Placeholder, url_param, get_url_param}
use movie_dbproject.Bserv.Router.Dispatch.{PathHolder, find_path}

-- A test that no text is spelled by both.
unfoldable pub apart : List Piece → List Piece → Bool
unfolding in_set
apart [] [] = false
apart [] (q ∷ qs) = true
apart (p ∷ ps) [] = true
apart (literal c ∷ ps) (literal d ∷ qs) = let rest = apart ps qs in if c == d then rest else true
apart (literal c ∷ ps) (group ranges ∷ qs) = not (in_set ranges c)
apart (group ranges ∷ ps) (literal c ∷ qs) = not (in_set ranges c)
apart (group ranges ∷ ps) (group others ∷ qs) = false

-- A text that begins with a group begins with a character of its set.
group_head :
    (ranges : List (ℕ × ℕ)) (g t s : Bytes)
    → s ≡ g ++ t
    → is_empty g ≡ false
    → All (λ c. in_set ranges c ≡ true) g
    → (c : ℕ) × (u : Bytes) × (s ≡ c ∷ u) × (in_set ranges c ≡ true)
group_head ranges [] t s e ne all = absurd (cc)
group_head ranges (c ∷ g) t s e ne (hc, all) = (c, g ++ t, e, hc)

apart-Spells :
    (ps qs : List Piece) (s : Bytes) (gs hs : List Bytes)
    → apart ps qs ≡ true
    → Spells ps s gs
    → Spells qs s hs
    → ⊥
unfolding apart
apart-Spells [] [] s gs hs h a b = cc
apart-Spells [] (literal d ∷ qs) s gs hs h (e, _) (t, f, _) = ground (arith, e, f)
apart-Spells [] (group others ∷ qs) s gs hs h (e, _) (g, t, rest, f, _, ne, all, _) =
    let (c, u, f', _) = group_head others g t s f ne all in ground (arith, e, f')
apart-Spells (literal c ∷ ps) [] s gs hs h (t, f, _) (e, _) = ground (arith, e, f)
apart-Spells (group ranges ∷ ps) [] s gs hs h (g, t, rest, f, _, ne, all, _) (e, _) =
    let (c, u, f', _) = group_head ranges g t s f ne all in ground (arith, e, f')
apart-Spells (literal c ∷ ps) (literal d ∷ qs) s gs hs h (t, e, a) (u, f, b) =
    let same_rest : t ≡ u = ground (arith, e, f) in
    apart-Spells ps qs t gs hs (ground (arith, h, e, f)) a (rw same_rest b)
apart-Spells (literal c ∷ ps) (group others ∷ qs) s gs hs h (t, e, _)
      (g, u, rest, f, _, ne, all, _) =
    let (d, v, f', hd) = group_head others g u s f ne all in
    let same_one : d ≡ c = ground (arith, e, f') in
    ground (arith, h, subst (λ x. in_set others x ≡ true) same_one hd)
apart-Spells (group ranges ∷ ps) (literal d ∷ qs) s gs hs h (g, u, rest, f, _, ne, all, _)
      (t, e, _) =
    let (c, v, f', hc) = group_head ranges g u s f ne all in
    let same_one : c ≡ d = ground (arith, e, f') in
    ground (arith, h, subst (λ x. in_set ranges x ≡ true) same_one hc)
apart-Spells (group ranges ∷ ps) (group others ∷ qs) s gs hs h a b = cc

matches-Spells :
    (re : List Piece) (url : Bytes) (url_params : List Bytes)
    → match re url ≡ some url_params
    → (groups : List Bytes) × (url_params ≡ url ∷ groups) × Spells re url groups
matches-Spells re url url_params h = (match-Spells re url).0 url_params h

module _ {Handler : Type 0} where
  apart_from : List Piece → List (PathHolder Handler) → Bool
  unfolding apart
  apart_from re [] = true
  apart_from re (q ∷ paths) = apart re q.re && apart_from re paths

  -- A test that no two paths match the same url.
  unfoldable pub all_apart : List (PathHolder Handler) → Bool
  unfolding apart_from
  all_apart [] = true
  all_apart (p ∷ paths) = apart_from p.re paths && all_apart paths

  apart_from-Spells :
      (re : List Piece) (paths : List (PathHolder Handler)) (p : PathHolder Handler) (url : Bytes)
      (gs hs : List Bytes)
      → apart_from re paths ≡ true
      → Any (λ q. q ≡ p) paths
      → Spells re url gs
      → Spells p.re url hs
      → ⊥
  unfolding apart_from
  apart_from-Spells re [] p url gs hs h m a b = absurd m
  apart_from-Spells re (q ∷ paths) p url gs hs h (inl e) a b =
      apart-Spells re q.re url gs hs (ground (arith, h)) a
        (subst (λ (x : PathHolder Handler). Spells x.re url hs) (sym e) b)
  apart_from-Spells re (q ∷ paths) p url gs hs h (inr m) a b =
      apart_from-Spells re paths p url gs hs (ground (arith, h)) m a b

  -- Where the test holds, a url that one of the paths spells is given to that path, wherever it
  -- stands in the table.
  pub find_path-Spells :
      (paths : List (PathHolder Handler)) (p : PathHolder Handler) (url : Bytes)
      (groups : List Bytes)
      → all_apart paths ≡ true
      → Any (λ q. q ≡ p) paths
      → Spells p.re url groups
      → (url_params : List Bytes) × (find_path paths url ≡ some (p, url_params))
        × (match p.re url ≡ some url_params)
  unfolding all_apart find_path
  find_path-Spells [] p url groups h m a = absurd m
  find_path-Spells (q ∷ paths) p url groups h (inl e) a = elim (Option-cases (match q.re url)) [
    | inl none_here ↦
        let found =
          (match-Spells q.re url).1 groups
            (subst (λ (x : PathHolder Handler). Spells x.re url groups) (sym e) a) in
        absurd (ground (arith, none_here, found))
    | inr (url_params, here) ↦ (
      url_params,
      ground (arith, e, here),
      ground (arith, ap (λ (x : PathHolder Handler). x.re) e, here),
    )
  ]
  find_path-Spells (q ∷ paths) p url groups h (inr m) a = elim (Option-cases (match q.re url)) [
    | inl none_here ↦
        let (url_params, found, matches) =
          find_path-Spells paths p url groups (ground (arith, h)) m a in
        (url_params, ground (arith, none_here, found), matches)
    | inr (url_params, here) ↦
        let (gs, _, b) = matches-Spells q.re url url_params here in
        absurd (apart_from-Spells q.re paths p url gs groups (ground (arith, h)) m b a)
  ]

-- How many groups an expression has.
unfoldable pub count_groups : List Piece → ℕ
count_groups [] = 0
count_groups (literal c ∷ pieces) = count_groups pieces
count_groups (group ranges ∷ pieces) = suc (count_groups pieces)

length-Spells :
    (pieces : List Piece) (s : Bytes) (groups : List Bytes)
    → Spells pieces s groups
    → length groups ≡ count_groups pieces
unfolding count_groups
length-Spells [] s groups (_, e) = ground (arith, e)
length-Spells (literal c ∷ pieces) s groups (t, _, h) = length-Spells pieces t groups h
length-Spells (group ranges ∷ pieces) s groups (g, t, rest, _, e, _, _, h) =
    ground (arith, e, length-Spells pieces t rest h)

-- A placeholder stands for an element that `n` url parameters have.
unfoldable pub within : ℕ → Placeholder → Bool
within n (url_param i) = leb (suc i) n
within n p = true

unfoldable pub all_within : ℕ → List Placeholder → Bool
unfolding within
all_within n [] = true
all_within n (p ∷ ps) = within n p && all_within n ps

module _ {Handler : Type 0} where
  -- A test that no handler reads outside its url parameters.
  unfoldable pub all_in_range : List (PathHolder Handler) → Bool
  unfolding all_within count_groups
  all_in_range [] = true
  all_in_range (p ∷ paths) = all_within (suc (count_groups p.re)) p.params && all_in_range paths

get_url_param-below :
    {A : Type 0} (xs : List A) (i : ℕ) → i < length xs → is_some (get_url_param xs i) ≡ true
unfolding get_url_param
get_url_param-below [] i h = absurd (omega arith)
get_url_param-below (x ∷ xs) zero h = refl
get_url_param-below (x ∷ xs) (suc i) h = get_url_param-below xs i (omega arith)

-- What a placeholder reads is there.
abbrev pub IsThere : List Bytes → Placeholder → Type 0
IsThere url_params (url_param i) = is_some (get_url_param url_params i) ≡ true
IsThere url_params p = Unit

all_within-IsThere :
    (ps : List Placeholder) (url_params : List Bytes)
    → all_within (length url_params) ps ≡ true
    → All (IsThere url_params) ps
unfolding all_within within
all_within-IsThere [] url_params h = tt
all_within-IsThere (p ∷ ps) url_params h =
    (here p (ground (arith, h)), all_within-IsThere ps url_params (ground (arith, h)))
  where
    here : (q : Placeholder) → within (length url_params) q ≡ true → IsThere url_params q
    here (url_param i) e = get_url_param-below url_params i (ground (arith, e))
    here q e = tt

module _ {Handler : Type 0} where
  -- Where the second test holds, the handler of the path that is found reads no url parameter that
  -- is not there.
  pub find_path-IsThere :
      (paths : List (PathHolder Handler)) (p : PathHolder Handler) (url : Bytes)
      (url_params : List Bytes)
      → all_in_range paths ≡ true
      → find_path paths url ≡ some (p, url_params)
      → All (IsThere url_params) p.params
  unfolding all_in_range find_path
  find_path-IsThere [] p url url_params h e = absurd (ground (arith, e))
  find_path-IsThere (q ∷ paths) p url url_params h e = elim (Option-cases (match q.re url)) [
    | inl none_here ↦
        find_path-IsThere paths p url url_params (ground (arith, h)) (ground (arith, e, none_here))
    | inr (found, here) ↦
        let (groups, eg, spelled) = matches-Spells q.re url found here in
        let same_path : q ≡ p = ground (arith, e, here) in
        let same_params : found ≡ url_params = ground (arith, e, here) in
        subst (λ (x : PathHolder Handler). All (IsThere url_params) x.params) same_path
          (all_within-IsThere q.params url_params
            (rw (← same_params, eg, length-Spells q.re url groups spelled) (ground (arith, h))))
  ]
