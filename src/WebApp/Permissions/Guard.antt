-- ===== src/WebApp/Permissions/Guard.antt =====
-- Handlers behind `check_session_permission`.
use movie_dbproject.Prelude.{
  none, ◌⊎◌, sym, ap, subst, ◌∙◌, ◌≡◌, refl, true, false, some, inl, inr, arith, Option-cases,
  Bool-cases,
}
use movie_dbproject.Prelude.Bytes.{Bytes}
use movie_dbproject.WebApp.Db.{User}
use movie_dbproject.WebApp.Flow.{Reply, text, next, returns, State, Handler, ◌>>◌}
use movie_dbproject.WebApp.Flow.Ending.{Atomically, IsAtomic, IsAtomic-bind, Undone}
use movie_dbproject.WebApp.Permissions.{Roles, check_permission, check_session_permission}

-- The session has a user, whose role has the permission.
abbrev pub Allowed : Roles → Bytes → State → Type 0
Allowed roles permission s =
    (u : User) × (s.session.user ≡ some u) × (check_permission roles u.roal permission ≡ true)

check_session_permission-cases :
    (roles : Roles) (p : Bytes) (s : State)
    → ((r : Reply) × (check_session_permission roles p s ≡ (returns r, s)))
      ⊎ (Allowed roles p s × (check_session_permission roles p s ≡ (next tt, s)))
unfolding check_session_permission
check_session_permission-cases roles p s = elim (Option-cases s.session.user) [
  | inl e ↦ inl (
    record { success = false; message = text "Not logged in"; movie_id = none },
    ground (arith, e),
  )
  | inr (u, e) ↦ elim (Bool-cases (check_permission roles u.roal p)) [
    | inl f ↦ inr ((u, e, f), ground (arith, e, f))
    | inr f ↦ inl (
      record { success = false; message = text "Permission denied"; movie_id = none },
      ground (arith, e, f),
    )
  ]
]

pub Atomically-permission :
    (Q : State → Type 0) (roles : Roles) (p : Bytes) (k : Handler (Unit {0})) (s : State)
    → (Allowed roles p s → Atomically Q s k)
    → Atomically Q s (check_session_permission roles p >> k)
unfolding Atomically
Atomically-permission Q roles p k s h = elim (check_session_permission-cases roles p s) [
  | inl (r, e) ↦
      IsAtomic-bind Q (check_session_permission roles p) (λ _. k) s
        (subst (λ x. Undone s x) (sym e) refl) (λ a s' f. absurd (ground (arith, e, f)))
  | inr (allowed, e) ↦
      IsAtomic-bind Q (check_session_permission roles p) (λ _. k) s
        (subst (λ x. Undone s x) (sym e) tt)
        (λ a s' f. subst (λ x. IsAtomic Q s (k x)) (sym (ap (λ x. x.1) (sym f ∙ e))) (h allowed))
]
