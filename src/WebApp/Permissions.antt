-- ===== src/WebApp/Permissions.antt =====
-- WebApp/permissions.cpp. The global map `m` is an argument, since reading a role that it lacks
-- by `m[roal]` adds the role.
pub mod Roles
pub mod Guard
use movie_dbproject.Prelude.{
  Bool, true, false, Option, none, some, List, [], ◌∷◌, if◌then◌else◌, is_some,
}
use movie_dbproject.Prelude.Bytes.{Bytes, codes}
use movie_dbproject.Prelude.Dict.{Dict, lookup, insert}
use movie_dbproject.WebApp.Db.{User}
use movie_dbproject.WebApp.Flow.{Session, Handler, refuse, pure, get_session, ◌>>=◌}

abbrev pub user_perms : Dict Bool
user_perms = (codes "add_comment", true) ∷ []

abbrev pub manager_perms : Dict Bool
manager_perms =
    (codes "modify_announcement", true)
    ∷ (codes "view_unreviewed", true)
    ∷ (codes "modify_movie", true)
    ∷ (codes "view_user", true)
    ∷ (codes "modify_user", true)
    ∷ (codes "modify_room", true)
    ∷ (codes "add_comment", true)
    ∷ (codes "modify_comment", true)
    ∷ []

abbrev pub admin_perms : Dict Bool
admin_perms =
    (codes "modify_announcement", true)
    ∷ (codes "review_movie", true)
    ∷ (codes "view_unreviewed", true)
    ∷ (codes "modify_movie", true)
    ∷ (codes "view_user", true)
    ∷ (codes "modify_user", true)
    ∷ (codes "modify_room", true)
    ∷ (codes "add_comment", true)
    ∷ (codes "modify_comment", true)
    ∷ []

abbrev pub Roles : Type 0
Roles = Dict (Dict Bool)

-- `m`, as it is initialised.
abbrev pub initial_roles : Roles
initial_roles =
    (codes "user", user_perms)
    ∷ (codes "manager", manager_perms)
    ∷ (codes "admin", admin_perms)
    ∷ []

-- The object of permissions, and `m` afterwards.
unfoldable pub get_permission_for_session : Roles → Session → Dict Bool × Roles
get_permission_for_session m session = elim session.user [
  | none ↦ ([], m)
  | some user ↦ elim (lookup user.roal m) [
    | some perms ↦ (perms, m)
    | none ↦ ([], insert user.roal [] m)
  ]
]

unfoldable pub check_permission : Roles → Bytes → Bytes → Bool
check_permission m user_type permission = elim (lookup user_type m) [
  | none ↦ false
  | some perms ↦ elim (lookup permission perms) [ none ↦ false | some allowed ↦ allowed ]
]

unfoldable pub check_logged_in : Session → Bool
check_logged_in session = is_some session.user

-- `check_session_permission`, and the `return` of what it gives.
unfoldable pub check_session_permission : Roles → Bytes → Handler (Unit {0})
unfolding check_permission
check_session_permission m permission = do
  session ← get_session
  elim session.user [
    | none ↦ refuse "Not logged in"
    | some user ↦
        if check_permission m user.roal permission then pure tt else refuse "Permission denied"
  ]
