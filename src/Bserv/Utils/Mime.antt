-- ===== src/Bserv/Utils/Mime.antt =====
-- bserv/utils.cpp, `file`: `mime_type`.
use movie_dbproject.Prelude.{
  ℕ, ◌+◌, ◌≡◌, ◌∙◌, refl, Bool, ◌&&◌, Option, none, some, List, [], ◌∷◌, ◌++◌, map, ap, arith, ◌==◌,
  leb, if◌then◌else◌, sym,
}
use movie_dbproject.Prelude.Bytes.{Bytes, codes, same, Lacks}

abbrev pub dot : ℕ
dot = b'.'

-- `path.substr(path.rfind("."))`, or `none` where there is no dot.
last_dot : Bytes → Option Bytes
last_dot [] = none
last_dot (c ∷ s) = elim (last_dot s) [
  | some e ↦ some e
  | none ↦ if c == dot then some (c ∷ s) else none
]

abbrev extension : Option Bytes → Bytes
extension none = []
extension (some e) = e

unfoldable pub to_lower : ℕ → ℕ
to_lower c = if leb b'A' c && leb c b'Z' then c + 32 else c

-- `boost::beast::iequals`
iequals : Bytes → Bytes → Bool
unfolding to_lower same
iequals a b = same (map to_lower a) (map to_lower b)

-- The ladder of `mime_type`, in its order.
abbrev mime_types : List (Bytes × Bytes)
mime_types =
    (codes ".htm", codes "text/html")
    ∷ (codes ".html", codes "text/html")
    ∷ (codes ".php", codes "text/html")
    ∷ (codes ".css", codes "text/css")
    ∷ (codes ".txt", codes "text/plain")
    ∷ (codes ".js", codes "application/javascript")
    ∷ (codes ".json", codes "application/json")
    ∷ (codes ".xml", codes "application/xml")
    ∷ (codes ".swf", codes "application/x-shockwave-flash")
    ∷ (codes ".flv", codes "video/x-flv")
    ∷ (codes ".png", codes "image/png")
    ∷ (codes ".jpe", codes "image/jpeg")
    ∷ (codes ".jpeg", codes "image/jpeg")
    ∷ (codes ".jpg", codes "image/jpeg")
    ∷ (codes ".gif", codes "image/gif")
    ∷ (codes ".bmp", codes "image/bmp")
    ∷ (codes ".ico", codes "image/vnd.microsoft.icon")
    ∷ (codes ".tiff", codes "image/tiff")
    ∷ (codes ".tif", codes "image/tiff")
    ∷ (codes ".svg", codes "image/svg+xml")
    ∷ (codes ".svgz", codes "image/svg+xml")
    ∷ []

first_type : Bytes → List (Bytes × Bytes) → Bytes
first_type ext [] = codes "application/text"
first_type ext ((e, t) ∷ rest) = if iequals ext e then t else first_type ext rest

unfoldable pub mime_type : Bytes → Bytes
unfolding last_dot first_type iequals
mime_type path = first_type (extension (last_dot path)) mime_types

last_dot-Lacks : (s : Bytes) → Lacks dot s → last_dot s ≡ none
unfolding last_dot
last_dot-Lacks [] h = refl
last_dot-Lacks (c ∷ s) (hc, h) = rw (last_dot-Lacks s h) (ground arith)

last_dot-append :
    (stem ext : Bytes) → Lacks dot ext → last_dot (stem ++ dot ∷ ext) ≡ some (dot ∷ ext)
unfolding last_dot
last_dot-append [] ext h = rw (last_dot-Lacks ext h)
last_dot-append (c ∷ s) ext h = rw (last_dot-append s ext h)

first_type-to_lower :
    (a b : Bytes) (table : List (Bytes × Bytes))
    → map to_lower a ≡ map to_lower b
    → first_type a table ≡ first_type b table
unfolding first_type iequals
first_type-to_lower a b [] h = refl
first_type-to_lower a b ((e, t) ∷ rest) h = rw (h, first_type-to_lower a b rest h)

mime_type_lem :
    (path ext : Bytes) → last_dot path ≡ some ext → mime_type path ≡ first_type ext mime_types
unfolding mime_type
mime_type_lem path ext h = ap (λ o. first_type (extension o) mime_types) h

-- The type of a file depends on what follows its last dot, up to case: two paths whose
-- extensions, free of dots, agree in lower case have the same type, whatever their stems are.
pub mime_type-extension :
    (stem stem' ext ext' : Bytes)
    → Lacks dot ext
    → Lacks dot ext'
    → map to_lower ext ≡ map to_lower ext'
    → mime_type (stem ++ dot ∷ ext) ≡ mime_type (stem' ++ dot ∷ ext')
mime_type-extension stem stem' ext ext' h h' e =
    mime_type_lem (stem ++ dot ∷ ext) (dot ∷ ext) (last_dot-append stem ext h)
    ∙ first_type-to_lower (dot ∷ ext) (dot ∷ ext') mime_types (ap (λ t. to_lower dot ∷ t) e)
    ∙ sym (mime_type_lem (stem' ++ dot ∷ ext') (dot ∷ ext') (last_dot-append stem' ext' h'))
