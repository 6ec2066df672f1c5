-- ===== src/Bserv/Router/Placeholders/Cookie.antt =====
-- bserv/include/bserv/router.hpp: the session of a request, and the cookie that leads back to it.
use movie_dbproject.Prelude.{
  ℕ, ◌+◌, ◌≤◌, ◌≡◌, ◌∙◌, ap, subst, refl, Bool, true, false, none, some, List, [], ◌∷◌, ◌++◌, ◌==◌,
  if◌then◌else◌, arith, All, Bool-cases, Option-cases, inl, inr,
}
use movie_dbproject.Prelude.Bytes.{Bytes, codes, AreBytes, same, same_refl}
use movie_dbproject.Prelude.Dict.{lookup, insert}
use movie_dbproject.Bserv.Utils.Url.{url_safe_characters, contains_byte, encode_byte, encode_url}
use movie_dbproject.Bserv.Utils.Params.{is_empty, add_pair, parse_params}
use movie_dbproject.Bserv.Utils.Params.RoundTrip.{IsPair, print_params, parse_params-print_params}
use movie_dbproject.Bserv.Session
use movie_dbproject.Bserv.Session.{
  Manager, first_fresh, find_or_create, remove_expired, get_or_create, twenty_minutes,
}
use movie_dbproject.Prelude.Map.{contains}
use movie_dbproject.Bserv.Session.Invariant.{Inv}
use movie_dbproject.Bserv.Session.Calls.{
  Serves, seen, CanDraw, get_or_create_found, get_or_create_new,
}
use movie_dbproject.Bserv.Router.Resources.{
  Request, Response, Environment, Resources, new_resources, gives,
}
use movie_dbproject.Bserv.Router.Placeholders.{
  session_name, semicolon, make_session, session_of, get_session, with_outcome,
}

-- An id that can stand in a cookie: not empty, of characters that `encode_url` leaves.
abbrev pub IsSessionId : Bytes → Type 0
IsSessionId s =
    (is_empty s ≡ false) × AreBytes s × All (λ c. contains_byte url_safe_characters c ≡ true) s

-- The `Cookie` header that a client sends for an id.
abbrev pub cookie_of : Bytes → Bytes
cookie_of id = session_name ++ b'=' ∷ id

encode_url-safe :
    (s : Bytes) → All (λ c. contains_byte url_safe_characters c ≡ true) s → encode_url s ≡ s
unfolding encode_url encode_byte
encode_url-safe [] h = refl
encode_url-safe (c ∷ s) (hc, h) = ground (arith, encode_url-safe s h)

IsSessionId-IsPair : (id : Bytes) → IsSessionId id → All IsPair ((session_name, id) ∷ [])
IsSessionId-IsPair id (ne, bytes, safe) = ((ground arith, bytes, refl), tt)

-- The cookies of such a header.
parse_params-cookie_of :
    (id : Bytes)
    → IsSessionId id
    → parse_params (cookie_of id) 0 semicolon
      ≡ some (record { dict = (session_name, id) ∷ []; list = [] })
unfolding add_pair lookup insert encode_url encode_byte contains_byte
parse_params-cookie_of id v =
    ap (λ s. parse_params s 0 semicolon) printed
    ∙ parse_params-print_params semicolon ((session_name, id) ∷ []) refl refl
        (IsSessionId-IsPair id v)
  where
    printed : cookie_of id ≡ print_params semicolon ((session_name, id) ∷ [])
    printed = ground (arith, encode_url-safe id v.2)

-- A request with such a header.
get_session-known :
    (env : Environment) (req : Request) (r : Resources) (id : Bytes) (a t : ℕ)
    → Inv r.session_mgr
    → r.session_ptr ≡ none
    → req.cookie ≡ cookie_of id
    → IsSessionId id
    → seen (env.clock 0) r.session_mgr id ≡ some (a, t)
    → (m : Manager) × (get_session env req r
        ≡ (gives (some a), record r { session_mgr = m; session_ptr = some a }))
      × Serves (env.clock 0) id a (seen (env.clock 0) r.session_mgr) m
unfolding get_session session_of make_session with_outcome lookup same
get_session-known env req r id a t v none_yet sent good known =
    let (m, e, serves) =
      get_or_create_found (env.clock 0) env.strings env.ints id a t r.session_mgr v good.0 known in
    (m, rw (none_yet, sent, parse_params-cookie_of id good, e), serves)

first_fresh-All {ℓ} :
    {A : Type ℓ} (P : A → Type 0) (used : A → Bool) (xs : List A) (x : A)
    → All P xs
    → first_fresh used xs ≡ some x
    → P x
unfolding first_fresh
first_fresh-All P used [] x all h = absurd (cc)
first_fresh-All P used (y ∷ ys) x (py, all) h = elim (Bool-cases (used y)) [
  | inl e ↦ first_fresh-All P used ys x all (ground (arith, h, e))
  | inr e ↦ let same_one : y ≡ x = ground (arith, h, e) in subst P same_one py
]

-- The id of a session that is made is one of those drawn.
get_or_create-drawn :
    (P : Bytes → Type 0) (now : ℕ) (strings : List Bytes) (ints : List ℕ) (m : Manager)
    (given : Session.Given)
    → All P strings
    → get_or_create now strings ints [] m ≡ Session.done given
    → P given.key
unfolding get_or_create find_or_create
get_or_create-drawn P now strings ints m given all h =
    elim (Option-cases (first_fresh (λ s. contains s (remove_expired now m).str_to_int) strings)) [
      | inl e ↦ absurd (ground (arith, h, e))
      | inr (key, e) ↦
          elim (Option-cases
            (first_fresh (λ i. contains i (remove_expired now m).int_to_str) ints)) [
              | inl f ↦ absurd (ground (arith, h, e, f))
              | inr (i, f) ↦
                  let same_one : key ≡ given.key = ground (arith, h, e, f) in
                  subst P same_one (first_fresh-All P _ strings key all e)
            ]
    ]

-- What a client keeps of a response and sends back: the cookie up to its attributes.
abbrev before_semicolon : Bytes → Bytes
before_semicolon [] = []
before_semicolon (c ∷ s) = if c == semicolon then [] else c ∷ before_semicolon s

abbrev pub kept_cookie : Response → Bytes
kept_cookie response = elim response.set_cookie [ none ↦ [] | some s ↦ before_semicolon s ]

safe-ne-semicolon : (c : ℕ) → contains_byte url_safe_characters c ≡ true → (c == semicolon) ≡ false
unfolding contains_byte
safe-ne-semicolon c h = ground (arith, h)

before_semicolon-safe :
    (s rest : Bytes)
    → All (λ c. contains_byte url_safe_characters c ≡ true) s
    → before_semicolon (s ++ semicolon ∷ rest) ≡ s
before_semicolon-safe [] rest h = refl
before_semicolon-safe (c ∷ s) rest (hc, h) =
    ground (arith, safe-ne-semicolon c hc, before_semicolon-safe s rest h)

-- A request without a cookie.
get_session-new :
    (env : Environment) (req : Request) (m : Manager) (response : Response)
    → Inv m
    → req.cookie ≡ []
    → CanDraw (env.clock 0) m env.strings env.ints
    → All IsSessionId env.strings
    → (id : Bytes) × (a : ℕ) × (m' : Manager) × (get_session env req (new_resources m response) ≡ (
      gives (some a),
      record (new_resources m'
          (record response { set_cookie = some (cookie_of id ++ codes "; Path=/") })) {
            session_ptr = some a;
          },
    ))
      × IsSessionId id
      × Serves (env.clock 0) id a (seen (env.clock 0) m) m'
unfolding get_session session_of make_session with_outcome lookup contains_byte
get_session-new env req m response v no_cookie can_draw good =
    let (id, a, m', e, fresh_id, fresh_object, serves) =
      get_or_create_new (env.clock 0) env.strings env.ints [] m v (inl refl) can_draw in
    (
      id,
      a,
      m',
      rw (no_cookie, parse_params-print_params semicolon [] refl refl tt, e),
      get_or_create-drawn IsSessionId (env.clock 0) env.strings env.ints m _ good e,
      serves,
    )

before_semicolon-cookie_of :
    (id : Bytes)
    → IsSessionId id
    → before_semicolon (cookie_of id ++ codes "; Path=/") ≡ cookie_of id
before_semicolon-cookie_of id good =
    ground (arith, before_semicolon-safe id (codes " Path=/") good.2)

-- Where the containers of the session manager agree and the generators draw ids that can stand in
-- a cookie and that are not in use: a request without a cookie is given a session, and a request
-- that brings the cookie of its response back within twenty minutes is given the same session
-- object, and no other cookie.
pub get_session-kept_cookie :
    (env env' : Environment) (first second : Request) (m : Manager) (response response' : Response)
    → Inv m
    → first.cookie ≡ []
    → CanDraw (env.clock 0) m env.strings env.ints
    → All IsSessionId env.strings
    → env'.clock 0 ≤ env.clock 0 + twenty_minutes
    → let (e, r1) = get_session env first (new_resources m response) in
      let (e', r2) =
        get_session env'
          (record second { cookie = kept_cookie r1.response })
          (new_resources r1.session_mgr response') in
      (a : ℕ) × (e ≡ gives (some a)) × (e' ≡ gives (some a)) × (r2.response ≡ response')
get_session-kept_cookie env env' first second m response response' v no_cookie can_draw good soon =
    let (id, a, m', e, named, serves) =
      get_session-new env first m response v no_cookie can_draw good in
    let still : seen (env'.clock 0) m' id ≡ some (a, env.clock 0 + twenty_minutes) =
      rw (serves.sees id, same_refl id) (ground (arith, soon)) in
    let (m'', e', serves') =
      get_session-known env'
        (record second { cookie = before_semicolon (cookie_of id ++ codes "; Path=/") })
        (new_resources m' response') id a (env.clock 0 + twenty_minutes) serves.agrees refl
        (before_semicolon-cookie_of id named) named still in
    (a, rw e, rw (e, e'), rw (e, e'))
