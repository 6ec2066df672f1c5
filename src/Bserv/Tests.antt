-- ===== src/Bserv/Tests.antt =====
-- Runs of the framework's definitions, and the theorems of `Bserv` at concrete values.
use movie_dbproject.Bserv.Session.Calls.{
  try_get_found, CanDraw, Serves, seen, get_or_create_found, get_or_create_new,
}
use movie_dbproject.Bserv.Session.{
  try_get, Manager, new_manager, get_or_create, done, twenty_minutes, remove_expired,
}
use movie_dbproject.Bserv.Utils.Security.Compare.{constant_time_compare_iff}
use movie_dbproject.Bserv.Utils.Security.{
  constant_time_compare, dollar, check_password, encode_password, hash_password,
  generate_random_string, default_iterations,
}
use movie_dbproject.Prelude.{
  ℕ, ◌+◌, ◌%◌, ◌<◌, ◌≡◌, ◌≢◌, ◌≤◌, ◌↔◌, refl, true, false, none, some, List, [], ◌∷◌, ◌++◌, arith,
  length, inl, inr, Option,
}
use movie_dbproject.Prelude.Bytes.{Bytes, codes, AreBytes, Lacks, same}
use movie_dbproject.Prelude.Dict.{lookup, insert, erase}
use movie_dbproject.Bserv.Utils.Url.{decode_url, encode_url, contains_byte}
use movie_dbproject.Bserv.Utils.Url.RoundTrip.{decode_url-encode_url}
use movie_dbproject.Bserv.Utils.Security.Password.{check_password-encode_password}
use movie_dbproject.Bserv.Utils.Params.{no_params, parse_params}
use movie_dbproject.Bserv.Utils.Params.Collects.{add_pairs, add_pairs-Holds, Holds}
use movie_dbproject.Bserv.Utils.Params.RoundTrip.{url_char, print_params, parse_params-print_params}
use movie_dbproject.Bserv.Database.Query.{exec_text, json_int64, json_null}
use movie_dbproject.Prelude.Int.{pos}
use movie_dbproject.Bserv.Database.Results.{
  Json, Kind, int_kind, typed, optional_text, Field, convert_row,
}
use movie_dbproject.Bserv.Database.Results.Columns.{HasColumns, convert_row-HasColumns}
use movie_dbproject.Bserv.Database.Query.Template.{
  byte, place, print_template, fill, exec_text-print_template,
}
use movie_dbproject.Bserv.Database.Pool.{
  manager, lock_counter, take_front, System, lock, take, Reach, begin, next,
}
use movie_dbproject.Bserv.Database.Pool.Invariant.{all_connections}
use movie_dbproject.Bserv.Database.Pool.Safety.{pool_safe, pool_conserves, pool_blocks_iff}
use movie_dbproject.Bserv.Session.Queue.{emplace}
use movie_dbproject.Bserv.Session.Invariant.{Inv, new_manager-Inv}
use movie_dbproject.Bserv.Session.Invariant.Create.{with_session, with_session-Inv}
use mathlib.Core.List.{Perm, Nodup}

plain_text : encode_url (codes "a b&c=d%~") ≡ codes "a%20b%26c%3Dd%25~"
unfolding encode_url
plain_text = refl

form_text : decode_url (codes "a+b%2f%C3") ≡ some (codes "a b/" ++ 195 ∷ [])
unfolding decode_url
form_text = refl

broken_text : decode_url (codes "100%") ≡ none
unfolding decode_url
broken_text = refl

-- A repeated key moves to the second map.
repeated_params :
    parse_params (codes "a=1&b=2&a=3") 0 38
    ≡ some (record {
      dict = (codes "b", codes "2") ∷ [];
      list = (codes "a", codes "1" ∷ codes "3" ∷ []) ∷ [];
    })
unfolding parse_params decode_url lookup insert same erase
repeated_params = refl

decode_url-encode_url_example : decode_url (encode_url (codes "50% a+b")) ≡ some (codes "50% a+b")
decode_url-encode_url_example = decode_url-encode_url (codes "50% a+b") (ground arith)

-- A text of the letters from `a` to `p`.
abbrev letters : Bytes → Bytes
letters [] = []
letters (c ∷ s) = (97 + c % 16) ∷ letters s

letters-Lacks : (s : Bytes) → Lacks dollar (letters s)
letters-Lacks [] = tt
letters-Lacks (c ∷ s) = (λ e. absurd (omega arith), letters-Lacks s)

letters-AreBytes : (s : Bytes) → AreBytes (letters s)
letters-AreBytes [] = tt
letters-AreBytes (c ∷ s) = (omega arith, letters-AreBytes s)

abbrev salted : Bytes → Bytes → ℕ → Bytes
salted password salt n = salt ++ password

check_password-encode_password_example :
    (check_password salted letters
        (codes "pw")
        (encode_password salted letters (λ i. i % 62) (codes "pw"))
      ≡ true)
    ↔ (hash_password salted letters
          (codes "pw")
          (generate_random_string (λ i. i % 62) 16)
          default_iterations
        ≡ hash_password salted letters
            (codes "pw")
            (generate_random_string (λ i. i % 62) 16)
            default_iterations)
check_password-encode_password_example =
    check_password-encode_password salted letters letters-Lacks letters-AreBytes (λ i. i % 62)
      (λ i. omega arith) (codes "pw") (codes "pw")

abbrev three_pairs : List (Bytes × Bytes)
three_pairs = (codes "a", codes "1") ∷ (codes "b", codes "x y") ∷ (codes "a", codes "3") ∷ []

add_pairs-Holds_example :
    Holds (codes "a") (codes "1" ∷ codes "3" ∷ []) (add_pairs three_pairs no_params)
unfolding same
add_pairs-Holds_example = add_pairs-Holds (codes "a") three_pairs

url_char-ampersand : url_char 38 ≡ false
unfolding contains_byte
url_char-ampersand = refl

parse_params-print_params_example :
    parse_params (print_params 38 three_pairs) 0 38 ≡ some (add_pairs three_pairs no_params)
parse_params-print_params_example =
    parse_params-print_params 38 three_pairs url_char-ampersand refl (ground arith)

exec_text-print_template_example :
    exec_text (print_template (byte 97 ∷ byte 63 ∷ place ∷ [])) (codes "7?" ∷ [])
    ≡ fill (byte 97 ∷ byte 63 ∷ place ∷ []) (codes "7?" ∷ [])
exec_text-print_template_example =
    exec_text-print_template (byte 97 ∷ byte 63 ∷ place ∷ []) (codes "7?" ∷ []) (refl, tt)

-- A pool with one connection, after a thread has got it.
abbrev lent : System
lent = record { mgr = record { queue = []; counter_locked = true }; acquiring = 0; leased = 0 ∷ [] }

lent-Reach : Reach 1 lent
unfolding manager lock_counter take_front
lent-Reach =
    next (next begin (lock (record { queue = 0 ∷ []; counter_locked = true }) refl))
      (take 0 0 (record { queue = []; counter_locked = true }) refl refl)

pool_safe_example :
    (lent.acquiring ≤ 1)
    × (0 < lent.acquiring → take_front lent.mgr ≢ none)
    × ((c : ℕ) → length (lent.mgr.queue ++ c ∷ []) ≡ 1 → lent.mgr.counter_locked ≡ true)
pool_safe_example = pool_safe 1 lent (omega arith) lent-Reach

pool_conserves_example :
    Perm (all_connections lent) (manager 1).queue × Nodup (all_connections lent)
pool_conserves_example = pool_conserves 1 lent lent-Reach

pool_blocks_iff_example :
    ((lock_counter lent.mgr ≡ none) × (lent.acquiring ≡ 0)) ↔ (length lent.leased ≡ 1)
pool_blocks_iff_example = pool_blocks_iff 1 lent (omega arith) lent-Reach

-- A manager with one session: the id `s`, the key 5, the object 0.
abbrev one_session : Manager
one_session = with_session twenty_minutes (codes "s") 5 new_manager

one_session-Inv : Inv one_session
one_session-Inv =
    with_session-Inv twenty_minutes (codes "s") 5 new_manager new_manager-Inv refl refl

one_session-seen : seen 7 one_session (codes "s") ≡ some (0, twenty_minutes)
unfolding emplace same
one_session-seen = refl

one_session-other : seen 7 one_session (codes "t") ≡ none
unfolding emplace same
one_session-other = refl

get_or_create_found_example :
    (m' : Manager) × (get_or_create 7 [] [] (codes "s") one_session
      ≡ done (record { created = false; key = codes "s"; session_ptr = some 0; manager = m' }))
    × Serves 7 (codes "s") 0 (seen 7 one_session) m'
get_or_create_found_example =
    get_or_create_found 7 [] [] (codes "s") 0 twenty_minutes one_session one_session-Inv refl
      one_session-seen

fresh_draws : CanDraw 7 one_session (codes "s" ∷ codes "t" ∷ []) (5 ∷ 6 ∷ [])
unfolding remove_expired emplace same
fresh_draws = (inr (inl refl), inr (inl refl))

get_or_create_new_example :
    (key : Bytes) × (a : ℕ) × (m' : Manager) × (get_or_create 7
        (codes "s" ∷ codes "t" ∷ [])
        (5 ∷ 6 ∷ [])
        []
        one_session
      ≡ done (record { created = true; key = key; session_ptr = some a; manager = m' }))
    × (seen 7 one_session key ≡ none)
    × ((r : Bytes) (t : ℕ) → seen 7 one_session r ≢ some (a, t))
    × Serves 7 key a (seen 7 one_session) m'
get_or_create_new_example =
    get_or_create_new 7 (codes "s" ∷ codes "t" ∷ []) (5 ∷ 6 ∷ []) [] one_session one_session-Inv
      (inl refl) fresh_draws

-- A conversion that takes each text as a number.
abbrev seven : Kind → Bytes → Option Json
seven kind s = some (json_int64 (pos 7))

abbrev two_fields : List Field
two_fields =
    record { name = codes "id"; field_type = typed int_kind }
    ∷ record { name = codes "name"; field_type = optional_text }
    ∷ []

convert_row-HasColumns_example :
    HasColumns seven 0 two_fields
      (some (codes "7") ∷ none ∷ [])
      ((codes "id", json_int64 (pos 7)) ∷ (codes "name", json_null) ∷ [])
unfolding convert_row same insert
convert_row-HasColumns_example =
    convert_row-HasColumns seven two_fields (some (codes "7") ∷ none ∷ [])
      ((codes "id", json_int64 (pos 7)) ∷ (codes "name", json_null) ∷ []) ((refl, tt), (tt, tt))
      refl

constant_time_compare_iff_example :
    (constant_time_compare (codes "abc") (codes "abd") ≡ true) ↔ (codes "abc" ≡ codes "abd")
constant_time_compare_iff_example =
    constant_time_compare_iff (codes "abc") (codes "abd") (ground arith) (ground arith)

try_get_found_example :
    (m' : Manager) × (try_get 7 (codes "s") one_session ≡ done (some 0, m'))
    × Serves 7 (codes "s") 0 (seen 7 one_session) m'
try_get_found_example =
    try_get_found 7 (codes "s") 0 twenty_minutes one_session one_session-Inv refl one_session-seen
