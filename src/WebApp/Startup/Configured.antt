-- ===== src/WebApp/Startup/Configured.antt =====
-- WebApp/WebApp.cpp: what holds of the settings that `main` goes on with.
use movie_dbproject.Prelude.{
  ℕ, ◌<◌, ◌≡◌, refl, Bool, true, Option, none, some, List, [], ◌∷◌, ◌++◌, arith, subst, Bool-cases,
  Option-cases, inl, inr, ◌>>=◌,
}
use movie_dbproject.Prelude.Bytes.{Bytes, codes}
use movie_dbproject.Prelude.Int.{ℤ, pos, negsuc}
use movie_dbproject.Prelude.Dict.{Dict, lookup}
use movie_dbproject.WebApp.Db.{fits_integer}
use movie_dbproject.Bserv.Utils.Files.{read_bin}
use movie_dbproject.WebApp.Flow.{Json}
use movie_dbproject.WebApp.Fields.{c_str, as_string}
use movie_dbproject.WebApp.Startup.{
  ServerConfig, server_config, get_field, get_port, default_threads, get_num_threads,
  get_num_db_conn, unsigned_short, to_int, when_given, read_config, Outcome, exit_failure,
  undefined, goes_on, ends_in_slash, init_root, read_root, with_roots, Settings, configure,
}

unsigned_short-bound : (v : ℤ) → unsigned_short v < 65536
unfolding unsigned_short
unsigned_short-bound (pos n) = omega arith
unsigned_short-bound (negsuc n) = omega arith

to_int-fits : (v : ℤ) → fits_integer (to_int v) ≡ true
unfolding to_int
to_int-fits (pos n) = ground arith
to_int-fits (negsuc n) = ground arith

-- A number of 32 bits is kept.
to_int-kept : (v : ℤ) → fits_integer v ≡ true → to_int v ≡ v
unfolding to_int
to_int-kept (pos n) h = ground arith
to_int-kept (negsuc n) h = ground arith

-- A field that is set has 32 bits.
field_fits : Option ℤ → Bool
field_fits none = true
field_fits (some v) = fits_integer v

InRange : ServerConfig → Type 0
InRange c =
    (get_port c < 65536) × (field_fits c.num_threads ≡ true) × (field_fits c.num_db_conn ≡ true)

when_given-InRange :
    {A : Type 0} (config_obj : Dict Json) (key : Bytes) (read : Json → Option A)
    (set : A → ServerConfig) (config c : ServerConfig)
    → InRange config
    → ((a : A) → InRange (set a))
    → when_given config_obj key read set config ≡ some c
    → InRange c
unfolding when_given InRange
when_given-InRange config_obj key read set config c kept given e =
    elim (Option-cases (lookup key config_obj)) [
      | inl missing ↦ ground (arith, missing, e, kept)
      | inr (v, found) ↦ elim (Option-cases (read v)) [
        | inl wrong ↦ ground (arith, found, e, wrong)
        | inr (a, it) ↦ ground (arith, found, e, it, given a)
      ]
    ]

bind-some :
    {A B : Type 0} (m : Option A) (f : A → Option B) (b : B)
    → (m >>= f) ≡ some b
    → (a : A) × (m ≡ some a) × (f a ≡ some b)
bind-some none f b h = absurd (ground arith)
bind-some (some a) f b h = (a, refl, h)

read_config-InRange :
    (config_obj : Dict Json) (c : ServerConfig) → read_config config_obj ≡ some c → InRange c
unfolding read_config InRange get_port get_field field_fits
read_config-InRange config_obj c h =
    let (c1, e1, h1) = bind-some _ _ c h in
    let (c2, e2, h2) = bind-some _ _ c h1 in
    let (c3, e3, h3) = bind-some _ _ c h2 in
    let (c4, e4, h4) = bind-some _ _ c h3 in
    let r1 : InRange c1 =
      when_given-InRange _ _ _ _ server_config c1 (omega arith, refl, refl)
        (λ v. (unsigned_short-bound v, refl, refl)) e1 in
    let (port1, threads1, conns1) = r1 in
    let r2 : InRange c2 =
      when_given-InRange _ _ _ _ c1 c2 r1 (λ v. (port1, to_int-fits v, conns1)) e2 in
    let (port2, threads2, conns2) = r2 in
    let r3 : InRange c3 =
      when_given-InRange _ _ _ _ c2 c3 r2 (λ v. (port2, threads2, to_int-fits v)) e3 in
    let r4 : InRange c4 = when_given-InRange _ _ _ _ c3 c4 r3 (λ s. r3) e4 in
    when_given-InRange _ _ _ _ c4 c r4 (λ s. r4) h4

ends_in_slash-append : (s : Bytes) → ends_in_slash (s ++ b'/' ∷ []) ≡ true
unfolding ends_in_slash
ends_in_slash-append [] = refl
ends_in_slash-append (c ∷ []) = refl
ends_in_slash-append (c ∷ d ∷ s) = ends_in_slash-append (d ∷ s)

init_root-slash : (s t : Bytes) → init_root s ≡ goes_on t → ends_in_slash t ≡ true
unfolding init_root
init_root-slash [] t h = absurd (ground arith)
init_root-slash (c ∷ s) t h = elim (Bool-cases (ends_in_slash (c ∷ s))) [
  | inl it ↦ ground (arith, it, h)
  | inr no_slash ↦ ground (arith, no_slash, h, ends_in_slash-append (c ∷ s))
]

read_root-slash :
    (config_obj : Dict Json) (key t : Bytes)
    → read_root config_obj key ≡ goes_on t
    → ends_in_slash t ≡ true
unfolding read_root
read_root-slash config_obj key t h = elim (Option-cases (lookup key config_obj)) [
  | inl missing ↦ ground (arith, missing, h)
  | inr (v, found) ↦ elim (Option-cases (as_string v)) [
    | inl wrong ↦ ground (arith, found, wrong, h)
    | inr (s, it) ↦ init_root-slash (c_str s) t (ground (arith, found, it, h))
  ]
]

-- What the server and the pages rely on.
pub record IsConfigured (s : Settings) : Type 0 where
  pub port : get_port s.config < 65536
  pub threads :
      (hardware_concurrency : ℕ)
      → fits_integer (pos hardware_concurrency) ≡ true
      → fits_integer (get_num_threads hardware_concurrency s.config) ≡ true
  pub connections : fits_integer (get_num_db_conn s.config) ≡ true
  pub template_slash : ends_in_slash s.template_root ≡ true
  pub static_slash : ends_in_slash s.static_root ≡ true

get_field-fits :
    (field : Option ℤ) (default_value : ℤ)
    → field_fits field ≡ true
    → fits_integer default_value ≡ true
    → fits_integer (get_field field default_value) ≡ true
unfolding get_field field_fits
get_field-fits none default_value h small = small
get_field-fits (some v) default_value h small = h

default_threads-fits :
    (n : ℕ) → fits_integer (pos n) ≡ true → fits_integer (default_threads n) ≡ true
unfolding default_threads
default_threads-fits n small = ground arith

IsConfigured-of :
    (c : ServerConfig) (t u : Bytes)
    → InRange c
    → ends_in_slash t ≡ true
    → ends_in_slash u ≡ true
    → IsConfigured (record { config = c; template_root = t; static_root = u })
unfolding get_num_threads get_num_db_conn InRange
IsConfigured-of c t u (p, threads_fit, conns_fit) ht hu = record {
  port = p;
  threads = λ n small.
      get_field-fits c.num_threads (default_threads n) threads_fit (default_threads-fits n small);
  connections = get_field-fits c.num_db_conn (pos 10) conns_fit refl;
  template_slash = ht;
  static_slash = hu;
}

with_roots-IsConfigured :
    (c : ServerConfig) (t u : Outcome Bytes) (s : Settings)
    → InRange c
    → ((r : Bytes) → t ≡ goes_on r → ends_in_slash r ≡ true)
    → ((r : Bytes) → u ≡ goes_on r → ends_in_slash r ≡ true)
    → with_roots c t u ≡ goes_on s
    → IsConfigured s
unfolding with_roots
with_roots-IsConfigured c exit_failure u s r ht hu h = absurd (ground arith)
with_roots-IsConfigured c undefined u s r ht hu h = absurd (ground arith)
with_roots-IsConfigured c (goes_on t) exit_failure s r ht hu h = absurd (ground arith)
with_roots-IsConfigured c (goes_on t) undefined s r ht hu h = absurd (ground arith)
with_roots-IsConfigured c (goes_on t) (goes_on u) s r ht hu h =
    let it_is : record { config = c; template_root = t; static_root = u } ≡ s = ground arith in
    subst IsConfigured it_is (IsConfigured-of c t u r (ht t refl) (hu u refl))

module _ (open_file : Bytes → Option Bytes) (parse : Bytes → Option (Dict Json)) where
  -- Whatever the arguments, the files and the text of the configuration are: when `main` goes on,
  -- the port is below 2^16, the number of threads has 32 bits where the processor's has them, the
  -- number of connections has 32 bits, and the names of both roots end in a slash.
  pub configure-IsConfigured :
      (args : List Bytes) (s : Settings)
      → configure open_file parse args ≡ goes_on s
      → IsConfigured s
  unfolding configure
  configure-IsConfigured [] s h = absurd (ground arith)
  configure-IsConfigured (a ∷ b ∷ args) s h = absurd (ground arith)
  configure-IsConfigured (file ∷ []) s h = elim (Option-cases (read_bin open_file file >>= parse)) [
    | inl e ↦ absurd (ground (arith, e, h))
    | inr (obj, e) ↦ elim (Option-cases (read_config obj)) [
      | inl e2 ↦ absurd (ground (arith, e, e2, h))
      | inr (c, e2) ↦
          with_roots-IsConfigured c (read_root obj (codes "template_root"))
            (read_root obj (codes "static_root")) s (read_config-InRange obj c e2)
            (λ t ht. read_root-slash obj (codes "template_root") t ht)
            (λ t ht. read_root-slash obj (codes "static_root") t ht) (ground (arith, e, e2, h))
    ]
  ]
