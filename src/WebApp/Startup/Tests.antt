-- ===== src/WebApp/Startup/Tests.antt =====
-- Runs of the start, and its theorem at a concrete configuration.
use movie_dbproject.Prelude.{◌≡◌, refl, true, false, Option, none, some, [], ◌∷◌, inl, inr}
use movie_dbproject.Prelude.Bytes.{Bytes, codes, same}
use movie_dbproject.Prelude.Int.{pos}
use movie_dbproject.Prelude.Dict.{Dict, lookup}
use movie_dbproject.Bserv.Database.Query.{json_int64, json_string}
use movie_dbproject.Bserv.Router.Resources.{Response, url_not_found}
use movie_dbproject.WebApp.Flow.{Json}
use movie_dbproject.WebApp.Startup.{
  exit_failure, goes_on, Settings, configure, run_threads, serve_static_files,
}
use movie_dbproject.WebApp.Startup.Configured.{IsConfigured, configure-IsConfigured}

-- A port that is out of range, and one root with its slash.
abbrev example_config : Dict Json
example_config =
    (codes "port", json_int64 (pos 65617))
    ∷ (codes "thread-num", json_int64 (pos 0))
    ∷ (codes "template_root", json_string (codes "templates"))
    ∷ (codes "static_root", json_string (codes "statics/"))
    ∷ []

abbrev example_files : Bytes → Option Bytes
example_files name = elim (same name (codes "statics/a.css")) [
  | true ↦ some (codes "b {}")
  | false ↦ elim (same name (codes "config.json")) [ true ↦ some (codes "{") | false ↦ none ]
]

abbrev example_parse : Bytes → Option (Dict Json)
example_parse content = elim (same content (codes "{")) [
  | true ↦ some example_config
  | false ↦ none
]

abbrev example_settings : Settings
example_settings = record {
  config = record {
    port = some 81;
    num_threads = some (pos 0);
    num_db_conn = none;
    log_path = none;
    db_conn_str = none;
  };
  template_root = codes "templates/";
  static_root = codes "statics/";
}

example_settings-configure :
    configure example_files example_parse (codes "config.json" ∷ []) ≡ goes_on example_settings
unfolding configure same lookup
example_settings-configure = refl

configure-IsConfigured_example : IsConfigured example_settings
configure-IsConfigured_example =
    configure-IsConfigured example_files example_parse (codes "config.json" ∷ []) example_settings
      example_settings-configure

configure_missing : configure example_files example_parse (codes "other.json" ∷ []) ≡ exit_failure
unfolding configure same
configure_missing = refl

-- With no thread the room for the others cannot be reserved.
run_threads_zero : run_threads 8 example_settings.config ≡ exit_failure
unfolding run_threads
run_threads_zero = refl

abbrev ready : Response
ready = record {
  status = 200;
  version = 11;
  server = codes "bserv";
  content_type = codes "application/json";
  set_cookie = none;
  keep_alive = true;
  body = [];
  prepared = false;
}

serve_static_files_there :
    serve_static_files example_files example_settings ready (codes "a.css")
    ≡ inr (record ready { content_type = codes "text/css"; body = codes "b {}"; prepared = true })
unfolding serve_static_files same
serve_static_files_there = refl

serve_static_files_missing :
    serve_static_files example_files example_settings ready (codes "b.css") ≡ inl url_not_found
unfolding serve_static_files same
serve_static_files_missing = refl
