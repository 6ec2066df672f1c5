-- ===== src/WebApp/Users/Accounts.antt =====
-- What registering, changing accounts and logging in leave.
use movie_dbproject.Prelude.{
  ap, ℕ, ◌≡◌, refl, Bool, true, false, not, [], ◌∷◌, ◌++◌, arith, is_some, none, some,
  if◌then◌else◌, select,
}
use movie_dbproject.Prelude.Bytes.{Bytes, codes, same}
use movie_dbproject.Prelude.Int.{pos}
use movie_dbproject.Prelude.Dict.{contains}
use movie_dbproject.Bserv.Utils.Security.{encode_password, check_password}
use movie_dbproject.WebApp.Db.{User, Db, rows}
use movie_dbproject.WebApp.Flow.{
  State, Handler, Request, refuse, ◌>>=◌, ◌>>◌, url_not_found, bad_value, throw_if, refuse_if,
  or_throw, succeed, commit, set_session, executed, begin, pure, optional_row,
}
use movie_dbproject.WebApp.Flow.Ending.{
  Atomically, Atomically-check, Atomically-known, or_throw-next, Atomically-begin,
  Atomically-executed, Atomically-absent, pure-IsCheck, throw_if-IsCheck, refuse_if-IsCheck,
  or_throw-IsCheck, Atomically-refuse_if, Atomically-mono, Atomically-session, Atomically-user,
}
use movie_dbproject.WebApp.Fields.{string_param, text_field, c_str}
use movie_dbproject.WebApp.Fields.Checks.{text_field-IsCheck}
use movie_dbproject.WebApp.Permissions.{Roles}
use movie_dbproject.WebApp.Permissions.Guard.{Allowed, Atomically-permission}
use movie_dbproject.WebApp.Users.{find_users, get_user, insert_user, user_register, user_login}

-- A user logs in whose row is the only one of the database with the name of the request, who is
-- active, and whose password the request gives; the session has that row, and nothing else changes.
pub record LoggedIn (pbkdf2 : Bytes → Bytes → ℕ → Bytes) (base64 : Bytes → Bytes)
    (request : Request) (s s' : State) : Type 0 where
  pub username : Bytes
  pub password : Bytes
  pub user : User
  pub name_given : string_param request.params (codes "username") ≡ some username
  pub password_given : string_param request.params (codes "password") ≡ some password
  pub found : select (λ (u : User). same u.username username) s.db.users ≡ user ∷ []
  pub active : user.is_active ≡ true
  pub checked : check_password pbkdf2 base64 (c_str password) (c_str user.password) ≡ true
  pub after : s' ≡ record { db = s.db; session = record { user = some user } }

-- A user is added, with no money and as no superuser, under a name that no user had; whoever
-- registers for himself gets the role `user`.
pub record Registered (regular : Bool) (new_id : ℕ) (s s' : State) : Type 0 where
  pub user : User
  pub numbered : user.id ≡ new_id
  pub poor : user.balance ≡ pos 0
  pub plain : user.is_superuser ≡ false
  pub role : regular ≡ true → user.roal ≡ codes "user"
  pub fresh : find_users user.username s.db ≡ []
  pub after : s' ≡ record s { db = record s.db { users = s.db.users ++ user ∷ [] } }

insert_user-rows :
    (fits : Bytes → Bool) (u : User) (d d' : Db)
    → insert_user fits u d ≡ rows d'
    → d' ≡ record d { users = d.users ++ u ∷ [] }
unfolding insert_user
insert_user-rows fits u d d' e = ground (arith, e)

module _ (fits : Bytes → Bool) (pbkdf2 : Bytes → Bytes → ℕ → Bytes) (base64 : Bytes → Bytes)
    (roles : Roles) (draws : ℕ → ℕ) (new_id : ℕ) (regular : Bool) (request : Request) where
  -- The row that a registration makes of its fields.
  abbrev row_of : Bytes → Bytes → Bytes → Bytes → Bytes → Bytes → User
  row_of username password roal first_name last_name email = record {
    id = new_id;
    username = username;
    password = encode_password pbkdf2 base64 draws (c_str password);
    is_superuser = false;
    first_name = first_name;
    last_name = last_name;
    email = email;
    is_active = true;
    roal = if regular then codes "user" else roal;
    balance = pos 0;
  }

  abbrev behind_begin : Bytes → Db → Handler (Unit {0})
  behind_begin username d = optional_row (find_users username d) >>= λ o.
      refuse_if (is_some o) "Username exists"
      >> (or_throw (string_param request.params (codes "password")) bad_value >>= λ password.
          text_field request (codes "roal") >>= λ roal.
          text_field request (codes "first_name") >>= λ first_name.
          text_field request (codes "last_name") >>= λ last_name.
          text_field request (codes "email") >>= λ email.
          executed (insert_user fits (row_of username password roal first_name last_name email) d)
          >>= λ d. commit d >> succeed "User registered")

  behind_begin-Registered :
      (username : Bytes) (s : State)
      → Atomically (λ s'. Registered regular new_id s s') s (behind_begin username s.db)
  behind_begin-Registered username s =
      Atomically-absent _ (find_users username s.db) "Username exists" _ s λ fresh.
        Atomically-check _ _ _ s
          (or_throw-IsCheck (string_param request.params (codes "password")) bad_value)
          λ password. Atomically-check _ _ _ s (text_field-IsCheck request (codes "roal")) λ roal.
            Atomically-check _ _ _ s (text_field-IsCheck request (codes "first_name")) λ first_name.
              Atomically-check _ _ _ s (text_field-IsCheck request (codes "last_name")) λ last_name.
                Atomically-check _ _ _ s (text_field-IsCheck request (codes "email")) λ email.
                  Atomically-executed _
                    (insert_user fits (row_of username password roal first_name last_name email)
                      s.db)
                    "User registered" s
                    λ d e. record {
                      user = row_of username password roal first_name last_name email;
                      numbered = refl;
                      poor = refl;
                      plain = refl;
                      role = λ e. rw e refl;
                      fresh = fresh;
                      after =
                          ap (λ d. record s { db = d })
                            (insert_user-rows fits
                              (row_of username password roal first_name last_name email) s.db d e);
                    }

  checks_of : Handler (Unit {0})
  checks_of =
      throw_if (not request.is_post) url_not_found
      >> (refuse_if (not (contains (codes "username") request.params)) "Username is required"
          >> (refuse_if (not (contains (codes "password") request.params)) "Password is required"
              >> (or_throw (string_param request.params (codes "username")) bad_value
                  >>= λ username. begin >>= behind_begin username)))

  checks_of-Registered : (s : State) → Atomically (λ s'. Registered regular new_id s s') s checks_of
  unfolding checks_of
  checks_of-Registered s =
      Atomically-check _ _ _ s (throw_if-IsCheck (not request.is_post) url_not_found) λ _.
        Atomically-check _ _ _ s
          (refuse_if-IsCheck (not (contains (codes "username") request.params))
            "Username is required")
          λ _.
            Atomically-check _ _ _ s
              (refuse_if-IsCheck (not (contains (codes "password") request.params))
                "Password is required")
              λ _.
                Atomically-check _ _ _ s
                  (or_throw-IsCheck (string_param request.params (codes "username")) bad_value)
                  λ username.
                    Atomically-begin _ (behind_begin username) s
                      (behind_begin-Registered username s)

-- `user_register` with `regular_user`, whatever the request is: it replies with success, and
-- exactly one user is added, with the role `user`, no money, and a name that no user had; or the
-- database and the session are as they were.
pub user_register-Registered :
    (fits : Bytes → Bool) (pbkdf2 : Bytes → Bytes → ℕ → Bytes) (base64 : Bytes → Bytes)
    (roles : Roles) (draws : ℕ → ℕ) (new_id : ℕ) (request : Request) (s : State)
    → Atomically
        (λ s'. Registered true new_id s s')
        s
        (user_register fits pbkdf2 base64 roles draws new_id true request)
unfolding user_register get_user checks_of
user_register-Registered fits pbkdf2 base64 roles draws new_id request s =
    Atomically-check _ _ _ s (pure-IsCheck tt)
      λ _. checks_of-Registered fits pbkdf2 base64 roles draws new_id true request s

-- `user_register` without `regular_user`, whatever the request is: it replies with success, the
-- session's user has the permission `modify_user`, and exactly one user is added, with no money and
-- a name that no user had; or the database and the session are as they were.
pub user_register-Allowed :
    (fits : Bytes → Bool) (pbkdf2 : Bytes → Bytes → ℕ → Bytes) (base64 : Bytes → Bytes)
    (roles : Roles) (draws : ℕ → ℕ) (new_id : ℕ) (request : Request) (s : State)
    → Atomically
        (λ s'. Allowed roles (codes "modify_user") s × Registered false new_id s s')
        s
        (user_register fits pbkdf2 base64 roles draws new_id false request)
unfolding user_register get_user checks_of
user_register-Allowed fits pbkdf2 base64 roles draws new_id request s =
    Atomically-permission _ roles (codes "modify_user") _ s λ allowed.
      Atomically-mono (λ s'. Registered false new_id s s') _ _ s (λ s' r. (allowed, r))
        (checks_of-Registered fits pbkdf2 base64 roles draws new_id false request s)

-- `user_login`, whatever the request is: it replies with success, and the session has the row of an
-- active user, the only one of the database with the name that the request gives, against whose
-- password the password that the request gives was checked; or the database and the session are as
-- they were. The database never changes.
pub user_login-LoggedIn :
    (pbkdf2 : Bytes → Bytes → ℕ → Bytes) (base64 : Bytes → Bytes) (request : Request) (s : State)
    → Atomically (λ s'. LoggedIn pbkdf2 base64 request s s') s (user_login pbkdf2 base64 request)
unfolding user_login get_user find_users
user_login-LoggedIn pbkdf2 base64 request s =
    Atomically-check _ _ _ s (throw_if-IsCheck (not request.is_post) url_not_found) λ _.
      Atomically-check _ _ _ s
        (refuse_if-IsCheck (not (contains (codes "username") request.params))
          "`username` is required")
        λ _.
          Atomically-check _ _ _ s
            (refuse_if-IsCheck (not (contains (codes "password") request.params))
              "`password` is required")
            λ _.
              Atomically-known _ _ _ s
                (or_throw-IsCheck (string_param request.params (codes "username")) bad_value)
                λ username named. Atomically-begin _ (behind username) s (
                  Atomically-user _ (find_users username s.db) "invalid username/password" rest s
                    λ user found.
                      Atomically-refuse_if _ (not user.is_active) "invalid username/password"
                        (rest' user) s
                        λ active.
                          Atomically-known _ _ _ s
                            (or_throw-IsCheck (string_param request.params (codes "password"))
                              bad_value)
                            λ password told.
                              Atomically-refuse_if _
                                (not (
                                  check_password pbkdf2 base64 (c_str password)
                                    (c_str user.password)))
                                "invalid username/password" (enter user) s
                                λ checked.
                                  Atomically-session _ (record { user = some user })
                                    "Login successful" s
                                    (record {
                                      username = username;
                                      password = password;
                                      user = user;
                                      name_given =
                                          or_throw-next
                                            (string_param request.params (codes "username"))
                                            bad_value s s username named;
                                      password_given =
                                          or_throw-next
                                            (string_param request.params (codes "password"))
                                            bad_value s s password told;
                                      found = found;
                                      active = ground (arith, active);
                                      checked = ground (arith, checked);
                                      after = refl;
                                    }))
  where
    enter : User → Handler (Unit {0})
    enter user = set_session (record { user = some user }) >> succeed "Login successful"

    rest' : User → Handler (Unit {0})
    rest' user = or_throw (string_param request.params (codes "password")) bad_value >>= λ password.
        refuse_if (not (check_password pbkdf2 base64 (c_str password) (c_str user.password)))
          "invalid username/password"
        >> enter user

    rest : User → Handler (Unit {0})
    rest user = refuse_if (not user.is_active) "invalid username/password" >> rest' user

    behind : Bytes → Db → Handler (Unit {0})
    behind username d = optional_row (find_users username d) >>= λ o.
        (elim o [ none ↦ refuse "invalid username/password" | some u ↦ pure u ]) >>= rest
