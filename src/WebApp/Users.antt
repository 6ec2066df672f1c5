-- ===== src/WebApp/Users.antt =====
-- WebApp/users.cpp: accounts. `new_id` is the number that the sequence of the users gives, `draws`
-- are the numbers drawn for a salt, and `fits` says whether a text fits into a column of 255
-- characters.
pub mod Accounts
use movie_dbproject.Prelude.{
  ℕ, Bool, true, false, not, ◌&&◌, ◌||◌, Option, none, some, List, [], ◌∷◌, ◌++◌, ◌==◌,
  if◌then◌else◌, is_some, select,
}
use movie_dbproject.Prelude.Bytes.{Bytes, codes, same}
use movie_dbproject.Prelude.Int.{ℤ, pos}
use movie_dbproject.Prelude.Dict.{contains}
use movie_dbproject.Bserv.Utils.Params.{is_empty}
use movie_dbproject.Bserv.Utils.Security.{encode_password, check_password}
use movie_dbproject.WebApp.Db.{
  User, Db, DbError, Executed, rows, fails, unique_violation, value_too_long, update_where, any_row,
  all_rows,
}
use movie_dbproject.WebApp.Flow.{
  optional_row, session_user, Request, Session, Handler, Exception, url_not_found, bad_value,
  bad_number, runtime_error, too_many_objects, ◌>>=◌, ◌>>◌, pure, throw, throw_if, refuse,
  refuse_if, succeed, or_throw, executed, begin, commit, get_session, set_session,
}
use movie_dbproject.WebApp.Fields.{string_param, text_field, or_old, get_stod_or_zero, c_str}
use movie_dbproject.WebApp.Permissions.{Roles, check_session_permission}
use movie_dbproject.WebApp.Tickets.{get_user_by_id, add_balance, reload_user_info}

-- `select * from auth_user where username = ?`
unfoldable pub find_users : Bytes → Db → List User
find_users username d = select (λ (u : User). same u.username username) d.users

unfoldable pub get_user : Db → Bytes → Handler (Option User)
get_user d username = optional_row (find_users username d)

unfoldable pub user_logout : Handler (Unit {0})
user_logout = do
  session ← get_session
  (if is_some session.user then set_session (record { user = none }) else pure tt)
  succeed "Logout successful"

module _ (stod : Bytes → Option ℤ) where
  -- `add_funds`; a balance that gets negative violates the constraint of the table.
  unfoldable pub add_funds : Request → Handler (Unit {0})
  add_funds request = do
    throw_if (not request.is_post) url_not_found
    session ← get_session
    throw_if (not (is_some session.user)) (runtime_error "Not logged in")
    user ← session_user
    d ← begin
    _ ← text_field request (codes "value")
    value ← or_throw (get_stod_or_zero stod request.params (codes "value")) bad_number
    d ← executed (add_balance value user.id d)
    commit d
    succeed "Funds added"

module _ (fits : Bytes → Bool) where
  all_fit : User → Bool
  all_fit u =
      fits u.username
      && fits u.password
      && fits u.first_name
      && fits u.last_name
      && fits u.email
      && fits u.roal

  -- `insert into auth_user …`
  unfoldable pub insert_user : User → Db → Executed Db
  unfolding all_fit any_row
  insert_user u d =
      if not (all_fit u)
      then fails value_too_long
      else if any_row (λ (v : User). same v.username u.username) d.users
      then fails unique_violation
      else rows (record d { users = d.users ++ u ∷ [] })

  -- `update auth_user set … where id = ?` of `user_modify`, by the row that it sets; the columns
  -- and the names are checked.
  unfoldable pub update_user : ℕ → (User → User) → Db → Executed Db
  unfolding all_fit any_row all_rows update_where
  update_user user_id f d =
      if not (
        all_rows all_fit
          (select (λ (u : User). u.id == user_id) (update_where (λ u. u.id == user_id) f d.users)))
      then fails value_too_long
      else if any_row
          (λ (v : User).
            not (v.id == user_id)
            && any_row (λ (u : User). u.id == user_id && same (f u).username v.username) d.users)
          d.users
      then fails unique_violation
      else rows (record d { users = update_where (λ u. u.id == user_id) f d.users })

module _ (fits : Bytes → Bool) (pbkdf2 : Bytes → Bytes → ℕ → Bytes) (base64 : Bytes → Bytes)
    (roles : Roles) where
  unfoldable pub user_register : (ℕ → ℕ) → ℕ → Bool → Request → Handler (Unit {0})
  user_register draws new_id regular_user request = do
    (if regular_user then pure tt else check_session_permission roles (codes "modify_user"))
    throw_if (not request.is_post) url_not_found
    refuse_if (not (contains (codes "username") request.params)) "Username is required"
    refuse_if (not (contains (codes "password") request.params)) "Password is required"
    username ← or_throw (string_param request.params (codes "username")) bad_value
    d ← begin
    opt_user ← get_user d username
    refuse_if (is_some opt_user) "Username exists"
    password ← or_throw (string_param request.params (codes "password")) bad_value
    roal ← text_field request (codes "roal")
    first_name ← text_field request (codes "first_name")
    last_name ← text_field request (codes "last_name")
    email ← text_field request (codes "email")
    d ← executed (
        insert_user fits
          (record {
            id = new_id;
            username = username;
            password = encode_password pbkdf2 base64 draws (c_str password);
            is_superuser = false;
            first_name = first_name;
            last_name = last_name;
            email = email;
            is_active = true;
            roal = if regular_user then codes "user" else roal;
            balance = pos 0;
          })
          d)
    commit d
    succeed "User registered"

  unfoldable pub user_modify : (ℕ → ℕ) → ℕ → Request → Handler (Unit {0})
  user_modify draws user_id request = do
    check_session_permission roles (codes "modify_user")
    throw_if (not request.is_post) url_not_found
    d ← begin
    opt_user ← get_user_by_id d user_id
    refuse_if (not (is_some opt_user)) "User does not exist"
    password ← text_field request (codes "password")
    username ← text_field request (codes "username")
    first_name ← text_field request (codes "first_name")
    last_name ← text_field request (codes "last_name")
    email ← text_field request (codes "email")
    roal ← text_field request (codes "roal")
    d ← executed (
        update_user fits user_id
          (λ u. record u {
            username = or_old username u.username;
            password =
                or_old
                  (if is_empty password
                    then password
                    else encode_password pbkdf2 base64 draws (c_str password))
                  u.password;
            first_name = or_old first_name u.first_name;
            last_name = or_old last_name u.last_name;
            email = or_old email u.email;
            roal = or_old roal u.roal;
          })
          d)
    commit d
    succeed "User modified"

module _ (pbkdf2 : Bytes → Bytes → ℕ → Bytes) (base64 : Bytes → Bytes) where
  unfoldable pub user_login : Request → Handler (Unit {0})
  user_login request = do
    throw_if (not request.is_post) url_not_found
    refuse_if (not (contains (codes "username") request.params)) "`username` is required"
    refuse_if (not (contains (codes "password") request.params)) "`password` is required"
    username ← or_throw (string_param request.params (codes "username")) bad_value
    d ← begin
    opt_user ← get_user d username
    user ← (elim opt_user [ none ↦ refuse "invalid username/password" | some u ↦ pure u ])
    refuse_if (not user.is_active) "invalid username/password"
    password ← or_throw (string_param request.params (codes "password")) bad_value
    refuse_if (not (check_password pbkdf2 base64 (c_str password) (c_str user.password)))
        "invalid username/password"
    set_session (record { user = some user })
    succeed "Login successful"
