-- ===== src/WebApp/Permissions/Roles.antt =====
-- Which role may do what.
use movie_dbproject.Prelude.{
  ◌≡◌, refl, Bool, true, false, none, some, [], ◌∷◌, arith, Option-cases, inl, inr, ◌&&◌,
}
use movie_dbproject.Prelude.Bytes.{Bytes, codes, same, same_iff}
use movie_dbproject.Prelude.Dict.{Dict, lookup, lookup-insert}
use movie_dbproject.WebApp.Flow.{Session}
use movie_dbproject.WebApp.Permissions.{
  Roles, initial_roles, user_perms, manager_perms, admin_perms, get_permission_for_session,
  check_permission,
}

-- Every permission of the first dictionary stands in the second.
within : Dict Bool → Dict Bool → Bool
within [] d = true
within ((k, v) ∷ c) d = elim (lookup k d) [ none ↦ false | some w ↦ w && within c d ]

within-lookup :
    (c d : Dict Bool) (p : Bytes) (v : Bool)
    → within c d ≡ true
    → lookup p c ≡ some v
    → lookup p d ≡ some true
unfolding within lookup
within-lookup [] d p v h e = cc
within-lookup ((k, w) ∷ c) d p v h e = ground (arith, same_iff k p, within-lookup c d p v)

perms_mono :
    (c d : Dict Bool) (p : Bytes)
    → within c d ≡ true
    → (elim (lookup p c) [ none ↦ false | some v ↦ v ]) ≡ true
    → (elim (lookup p d) [ none ↦ false | some v ↦ v ]) ≡ true
perms_mono c d p h e = elim (Option-cases (lookup p c)) [
  | inl f ↦ ground (arith, f)
  | inr (v, f) ↦ rw (within-lookup c d p v h f)
]

user_within_manager : within user_perms manager_perms ≡ true
unfolding within lookup same
user_within_manager = refl

manager_within_admin : within manager_perms admin_perms ≡ true
unfolding within lookup same
manager_within_admin = refl

lookup_nil : (p : Bytes) → lookup {V = Bool} p [] ≡ none
unfolding lookup
lookup_nil p = refl

-- Whatever a user may do a manager may do, and whatever a manager may do an administrator may do.
pub check_permission_mono :
    (p : Bytes)
    → (check_permission initial_roles (codes "user") p ≡ true
        → check_permission initial_roles (codes "manager") p ≡ true)
      × (check_permission initial_roles (codes "manager") p ≡ true
          → check_permission initial_roles (codes "admin") p ≡ true)
unfolding check_permission lookup same
check_permission_mono p = (
  perms_mono user_perms manager_perms p user_within_manager,
  perms_mono manager_perms admin_perms p manager_within_admin,
)

-- Reading the permissions of a session, whatever the role of its user, changes the answer to no
-- question for a permission, although it may add a role to the map.
pub check_permission-get_permission_for_session :
    (m : Roles) (s : Session) (role p : Bytes)
    → check_permission (get_permission_for_session m s).1 role p ≡ check_permission m role p
unfolding check_permission get_permission_for_session
check_permission-get_permission_for_session m s role p = elim (Option-cases s.user) [
  | inl e ↦ rw e
  | inr (u, e) ↦ elim (Option-cases (lookup u.roal m)) [
    | inr (d, f) ↦ ground (arith, e, f)
    | inl f ↦
        ground (arith, e, f, lookup-insert role u.roal [] m, same_iff u.roal role, lookup_nil p)
  ]
]
