-- ===== src/Bserv/Router/Placeholders/Body.antt =====
-- bserv/include/bserv/router.hpp: what a handler finds in the object of `json_params`.
use movie_dbproject.Prelude.{
  Option, none, some, [], ◌∷◌, ◌≡◌, arith, if◌then◌else◌, Bool-cases, Option-cases, inl, inr, ◌>>=◌,
}
use movie_dbproject.Prelude.Bytes.{Bytes, codes, same, same_iff}
use movie_dbproject.Prelude.Dict.{Dict, lookup, insert, contains, lookup-insert}
use movie_dbproject.Bserv.Utils.Params.{Params, ampersand, is_empty, parse_params, parse_url}
use movie_dbproject.Bserv.Router.Resources.{Request, JsonLibrary, Resources, gives, continue-gives}
use movie_dbproject.Bserv.Router.Placeholders.{
  media_type, add_missing, add_to_body, body_object, get_json_params,
}

-- The first value if there is one, else the second.
abbrev pub first_of {ℓ} : {A : Type ℓ} → Option A → Option A → Option A
first_of none o = o
first_of (some a) o = some a

abbrev map_option {ℓ κ} : {A : Type ℓ} {B : Type κ} → (A → B) → Option A → Option B
map_option f none = none
map_option f (some a) = some (f a)

module _ {Json : Type 0} (lib : JsonLibrary Json) where
  lookup-add_missing :
      {V : Type 0} (value : V → Json) (d : Dict V) (body : Dict Json) (k : Bytes)
      → lookup k (add_missing lib value d body)
        ≡ first_of (lookup k body) (map_option value (lookup k d))
  unfolding add_missing lookup
  lookup-add_missing value [] body k = ground arith
  lookup-add_missing value ((j, v) ∷ d) body k = elim (Bool-cases (contains j body)) [
    | inl there ↦ rw there (ground (arith, there, same_iff j k, lookup-add_missing value d body k))
    | inr missing ↦ rw missing (
        ground (
          arith,
          missing,
          same_iff j k,
          lookup-add_missing value d (insert j (value v) body) k,
          lookup-insert k j (value v) body,
        ))
  ]

  -- What the two maps of `parse_params` say of a key.
  abbrev pub param_value : Params → Bytes → Option Json
  param_value p k =
      first_of (map_option lib.string (lookup k p.dict)) (map_option lib.array (lookup k p.list))

  lookup-add_to_body :
      (p : Params) (body : Dict Json) (k : Bytes)
      → lookup k (add_to_body lib p body) ≡ first_of (lookup k body) (param_value p k)
  unfolding add_to_body
  lookup-add_to_body p body k = ground (
    arith,
    lookup-add_missing lib.array p.list (add_missing lib lib.string p.dict body) k,
    lookup-add_missing lib.string p.dict body k,
  )

  -- What the body of the request says of a key: by its media type it is a JSON object, a list of
  -- parameters, or nothing that is read.
  abbrev pub body_value : Request → Bytes → Option Json
  body_value req k =
      if is_empty req.body
      then none
      else if same (media_type req.content_type) (codes "application/json")
      then (do body ← lib.parse_object req.body; lookup k body)
      else if same (media_type req.content_type) (codes "application/x-www-form-urlencoded")
      then (do p ← parse_params req.body 0 ampersand; param_value p k)
      else none

  -- What the query of the url says of a key.
  abbrev pub url_value : Request → Bytes → Option Json
  url_value req k = do (url, p) ← parse_url req.target; param_value p k

  lookup-body_object :
      (req : Request) (r r' : Resources) (body : Dict Json) (k : Bytes)
      → body_object lib req r ≡ (gives body, r')
      → (lookup k body ≡ body_value req k) × (r' ≡ r)
  unfolding body_object lookup
  lookup-body_object req r r' body k h = elim (Bool-cases (is_empty req.body)) [
    | inl e ↦ ground (arith, h, e)
    | inr e ↦ elim (Bool-cases (same (media_type req.content_type) (codes "application/json"))) [
      | inl j ↦ elim (Option-cases (lib.parse_object req.body)) [
        | inl f ↦ absurd (ground (arith, h, e, j, f))
        | inr (b, f) ↦ ground (arith, h, e, j, f)
      ]
      | inr j ↦
          elim (Bool-cases
            (same (media_type req.content_type) (codes "application/x-www-form-urlencoded"))) [
              | inl u ↦ elim (Option-cases (parse_params req.body 0 ampersand)) [
                | inl f ↦ absurd (ground (arith, h, e, j, u, f))
                | inr (p, f) ↦ ground (arith, h, e, j, u, f, lookup-add_to_body p [] k)
              ]
              | inr u ↦ ground (arith, h, e, j, u)
            ]
    ]
  ]

  -- A handler that gets the object of `json_params` finds under a key what the body says of it, and
  -- where the body says nothing, what the query of the url says; and making the object changes no
  -- resource.
  pub lookup-get_json_params :
      (req : Request) (r r' : Resources) (body : Dict Json) (k : Bytes)
      → get_json_params lib req r ≡ (gives body, r')
      → (lookup k body ≡ first_of (body_value req k) (url_value req k)) × (r' ≡ r)
  unfolding get_json_params
  lookup-get_json_params req r r' body k h =
      let (b, r1, e, f) = continue-gives (body_object lib req r) _ h in
      let (values, same_r) = lookup-body_object req r r1 b k e in
      elim (Option-cases (parse_url req.target)) [
        | inl g ↦ absurd (ground (arith, f, g))
        | inr ((url, p), g) ↦ ground (arith, f, g, values, same_r, lookup-add_to_body p b k)
      ]
