-- ===== src/WebApp/Startup.antt =====
-- WebApp/WebApp.cpp: how `main` reads the configuration; bserv/config.hpp: the configuration;
-- WebApp/rendering.cpp: the two roots of the files, and `serve`; bserv/bserv.cpp: the threads of
-- the server. The parser of boost::json, the files and the number of the processor's threads are
-- parameters.
pub mod Configured
mod Tests
use movie_dbproject.Prelude.{
  ℕ, zero, suc, ◌+◌, ◌-◌, ◌%◌, Bool, true, false, Option, none, some, List, [], ◌∷◌, ◌++◌, ◌==◌,
  ltb, if◌then◌else◌, ◌>>=◌, ◌⊎◌,
}
use movie_dbproject.Prelude.Bytes.{Bytes, codes}
use movie_dbproject.Prelude.Int.{ℤ, pos, negsuc}
use movie_dbproject.Prelude.Dict.{Dict, lookup}
use movie_dbproject.Bserv.Database.Query.{json_int64}
use movie_dbproject.Bserv.Router.Resources.{Response, Thrown}
use movie_dbproject.Bserv.Utils.Files.{read_bin, serve}
use movie_dbproject.WebApp.Flow.{Json}
use movie_dbproject.WebApp.Fields.{c_str, as_string}

-- The fields that `main` sets.
pub record ServerConfig : Type 0 where
  pub port : Option ℕ
  pub num_threads : Option ℤ
  pub num_db_conn : Option ℤ
  pub log_path : Option Bytes
  pub db_conn_str : Option Bytes

abbrev pub server_config : ServerConfig
server_config = record {
  port = none;
  num_threads = none;
  num_db_conn = none;
  log_path = none;
  db_conn_str = none;
}

-- `value_or`, as each getter does it.
get_field : {A : Type 0} → Option A → A → A
get_field none default_value = default_value
get_field (some v) default_value = v

unfoldable pub get_port : ServerConfig → ℕ
unfolding get_field
get_port config = get_field config.port 8080

-- `NUM_THREADS` of the processor's number of threads.
default_threads : ℕ → ℤ
default_threads hardware_concurrency =
    if ltb 0 hardware_concurrency then pos hardware_concurrency else pos 1

unfoldable pub get_num_threads : ℕ → ServerConfig → ℤ
unfolding get_field default_threads
get_num_threads hardware_concurrency config =
    get_field config.num_threads (default_threads hardware_concurrency)

unfoldable pub get_num_db_conn : ServerConfig → ℤ
unfolding get_field
get_num_db_conn config = get_field config.num_db_conn (pos 10)

unfoldable pub get_db_conn_str : ServerConfig → Bytes
unfolding get_field
get_db_conn_str config = get_field config.db_conn_str []

unfoldable pub get_log_path : ServerConfig → Bytes
unfolding get_field
get_log_path config = get_field config.log_path []

-- `(unsigned short)v`
unfoldable pub unsigned_short : ℤ → ℕ
unsigned_short (pos n) = n % 65536
unsigned_short (negsuc n) = 65535 - n % 65536

-- `(int)v`
unfoldable pub to_int : ℤ → ℤ
to_int (pos n) =
    let u = n % 4294967296 in if ltb u 2147483648 then pos u else negsuc (4294967295 - u)
to_int (negsuc n) =
    let u = n % 4294967296 in if ltb u 2147483648 then negsuc u else pos (4294967295 - u)

-- `as_int64()`; `none` is its exception.
unfoldable pub as_int64 : Json → Option ℤ
as_int64 (json_int64 v) = some v
as_int64 _ = none

-- `if (config_obj.contains(key)) config.set…(read(config_obj[key]))`
when_given :
    {A : Type 0}
    → Dict Json
    → Bytes
    → (Json → Option A)
    → (A → ServerConfig)
    → ServerConfig
    → Option ServerConfig
when_given config_obj key read set config = elim (lookup key config_obj) [
  | none ↦ some config
  | some v ↦ elim (read v) [ none ↦ none | some a ↦ some (set a) ]
]

-- The optional settings; `none` is an exception.
unfoldable pub read_config : Dict Json → Option ServerConfig
unfolding when_given as_int64 as_string unsigned_short to_int c_str
read_config config_obj = do
  c ←
      when_given config_obj (codes "port") as_int64
        (λ v. record server_config { port = some (unsigned_short v) }) server_config
  c ←
      when_given config_obj (codes "thread-num") as_int64
        (λ v. record c { num_threads = some (to_int v) }) c
  c ←
      when_given config_obj (codes "conn-num") as_int64
        (λ v. record c { num_db_conn = some (to_int v) }) c
  c ←
      when_given config_obj (codes "conn-str") as_string
        (λ s. record c { db_conn_str = some (c_str s) }) c
  when_given config_obj (codes "log-dir") as_string (λ s. record c { log_path = some s }) c

-- How a step of `main` ends: with EXIT_FAILURE, without a meaning in C++, or with a value.
pub data Outcome (A : Type 0) : Type 0 where
  exit_failure : Outcome A
  undefined : Outcome A
  goes_on : A → Outcome A

unfoldable pub ends_in_slash : Bytes → Bool
ends_in_slash [] = false
ends_in_slash (c ∷ []) = c == b'/'
ends_in_slash (c ∷ d ∷ s) = ends_in_slash (d ∷ s)

-- `init_rendering` and `init_static_root`. An empty root is read at the position in front of it.
unfoldable pub init_root : Bytes → Outcome Bytes
unfolding ends_in_slash
init_root [] = undefined
init_root (c ∷ s) =
    if ends_in_slash (c ∷ s) then goes_on (c ∷ s) else goes_on ((c ∷ s) ++ b'/' ∷ [])

-- A root that must be specified.
unfoldable pub read_root : Dict Json → Bytes → Outcome Bytes
unfolding init_root as_string c_str
read_root config_obj key = elim (lookup key config_obj) [
  | none ↦ exit_failure
  | some v ↦ elim (as_string v) [ none ↦ exit_failure | some s ↦ init_root (c_str s) ]
]

-- What `main` goes on with.
pub record Settings : Type 0 where
  pub config : ServerConfig
  pub template_root : Bytes
  pub static_root : Bytes

-- The two roots, the first one first.
with_roots : ServerConfig → Outcome Bytes → Outcome Bytes → Outcome Settings
with_roots c exit_failure static = exit_failure
with_roots c undefined static = undefined
with_roots c (goes_on t) exit_failure = exit_failure
with_roots c (goes_on t) undefined = undefined
with_roots c (goes_on t) (goes_on s) =
    goes_on (record { config = c; template_root = t; static_root = s })

module _ (open_file : Bytes → Option Bytes) where
  -- `render_file` gets this name, and `serve` the other.
  abbrev pub template_file : Settings → Bytes → Bytes
  template_file s file = s.template_root ++ file

  unfoldable pub serve_static_files : Settings → Response → Bytes → Thrown ⊎ Response
  unfolding serve
  serve_static_files s response path = serve open_file response (s.static_root ++ path)

  -- `main` up to `show_config`, on the arguments behind the program's name. `parse` is
  -- `boost::json::parse(…).as_object()`, with `none` for an exception.
  module _ (parse : Bytes → Option (Dict Json)) where
    unfoldable pub configure : List Bytes → Outcome Settings
    unfolding read_bin read_config read_root with_roots
    configure (file ∷ []) = elim (do content ← read_bin open_file file; parse content) [
      | none ↦ exit_failure
      | some config_obj ↦ elim (read_config config_obj) [
        | none ↦ exit_failure
        | some c ↦
            with_roots c (read_root config_obj (codes "template_root"))
              (read_root config_obj (codes "static_root"))
      ]
    ]
    configure _ = exit_failure

-- The end of the constructor of the server: the number of threads that run. `exit_failure` is the
-- exception of `v.reserve`, which nothing catches.
unfoldable pub run_threads : ℕ → ServerConfig → Outcome ℕ
unfolding get_num_threads
run_threads hardware_concurrency config = elim (get_num_threads hardware_concurrency config) [
  | pos zero ↦ exit_failure
  | pos (suc n) ↦ goes_on (suc n)
  | negsuc n ↦ if n == 2147483647 then undefined else exit_failure
]
