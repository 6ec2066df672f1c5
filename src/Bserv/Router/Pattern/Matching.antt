-- ===== src/Bserv/Router/Pattern/Matching.antt =====
-- bserv/include/bserv/router.hpp: `match` against the texts that an expression stands for.
use movie_dbproject.Prelude.{
  ℕ, true, false, Option, some, List, [], ◌∷◌, ◌++◌, ◌≡◌, refl, arith, All, append_assoc,
  append-nil, Bool-cases, Option-cases, inl, inr, is_some,
}
use movie_dbproject.Prelude.Bytes.{Bytes}
use movie_dbproject.Bserv.Utils.Params.{is_empty}
use movie_dbproject.Bserv.Router.Pattern.{
  Piece, literal, group, in_set, end_group, match_group, match_pieces, match,
}

-- The text is made of the pieces, with these texts for the groups.
abbrev pub Spells : List Piece → Bytes → List Bytes → Type 0
Spells [] s groups = (s ≡ []) × (groups ≡ [])
Spells (literal c ∷ pieces) s groups = (t : Bytes) × (s ≡ c ∷ t) × Spells pieces t groups
Spells (group ranges ∷ pieces) s groups =
    (g : Bytes) × (t : Bytes) × (rest : List Bytes) × (s ≡ g ++ t)
    × (groups ≡ g ∷ rest)
    × (is_empty g ≡ false)
    × All (λ c. in_set ranges c ≡ true) g
    × Spells pieces t rest

-- A text of a group and what is behind it, for a matcher of the rest that is right.
module _ (ranges : List (ℕ × ℕ)) (rest : Bytes → Option (List Bytes)) where
  -- The group takes `taken` and then a part of `s`, and the matcher gets what is left.
  abbrev Splits : Bytes → Bytes → List Bytes → Type 0
  Splits taken s groups =
      (g : Bytes) × (t : Bytes) × (gs : List Bytes) × (s ≡ g ++ t)
      × (groups ≡ (taken ++ g) ∷ gs)
      × (is_empty (taken ++ g) ≡ false)
      × All (λ c. in_set ranges c ≡ true) g
      × (rest t ≡ some gs)

  end_group-Splits :
      (taken s : Bytes) (groups : List Bytes)
      → end_group rest taken s ≡ some groups
      → Splits taken s groups
  unfolding end_group
  end_group-Splits taken s groups h = elim (Option-cases (rest s)) [
    | inl e ↦ absurd (ground (arith, h, e))
    | inr (gs, e) ↦ (
      [],
      s,
      gs,
      refl,
      ground (arith, h, e, append-nil taken),
      ground (arith, h, e, append-nil taken),
      tt,
      e,
    )
  ]

  -- A character more in the group.
  Splits-longer :
      (taken s : Bytes) (c : ℕ) (groups : List Bytes)
      → in_set ranges c ≡ true
      → Splits (taken ++ c ∷ []) s groups
      → Splits taken (c ∷ s) groups
  Splits-longer taken s c groups h (g, t, gs, es, eg, ne, all, e) = (
    c ∷ g,
    t,
    gs,
    ground (arith, es),
    ground (arith, eg, append_assoc taken (c ∷ []) g),
    ground (arith, ne, append_assoc taken (c ∷ []) g),
    (h, all),
    e,
  )

  match_group-Splits :
      (taken s : Bytes) (groups : List Bytes)
      → match_group ranges rest taken s ≡ some groups
      → Splits taken s groups
  unfolding match_group
  match_group-Splits taken [] groups h = end_group-Splits taken [] groups h
  match_group-Splits taken (c ∷ s) groups h = elim (Bool-cases (in_set ranges c)) [
    | inl yes_in ↦ elim (Option-cases (match_group ranges rest (taken ++ c ∷ []) s)) [
      | inl e ↦ end_group-Splits taken (c ∷ s) groups (ground (arith, h, e, yes_in))
      | inr (gs, e) ↦
          Splits-longer taken s c groups yes_in
            (match_group-Splits (taken ++ c ∷ []) s groups (ground (arith, h, e, yes_in)))
    ]
    | inr no_in ↦ end_group-Splits taken (c ∷ s) groups (ground (arith, h, no_in))
  ]

  -- The other way: a group that can be taken is found.
  match_group-found :
      (taken g t : Bytes)
      → is_empty (taken ++ g) ≡ false
      → All (λ c. in_set ranges c ≡ true) g
      → is_some (rest t) ≡ true
      → is_some (match_group ranges rest taken (g ++ t)) ≡ true
  unfolding match_group end_group
  match_group-found taken [] [] ne all h = ground (arith, ne, h, append-nil taken)
  match_group-found taken [] (c ∷ t) ne all h = ground (arith, ne, h, append-nil taken)
  match_group-found taken (c ∷ g) t ne (hc, all) h =
      ground (arith, match_group-found (taken ++ c ∷ []) g t, append_assoc taken (c ∷ []) g)

-- Where `match_pieces` gives groups, the text is spelled with them.
match_pieces-Spells :
    (pieces : List Piece) (s : Bytes) (groups : List Bytes)
    → match_pieces pieces s ≡ some groups
    → Spells pieces s groups
unfolding match_pieces
match_pieces-Spells [] [] groups h = ground arith
match_pieces-Spells [] (c ∷ s) groups h = cc
match_pieces-Spells (literal x ∷ pieces) [] groups h = cc
match_pieces-Spells (literal x ∷ pieces) (c ∷ s) groups h =
    (s, ground arith, match_pieces-Spells pieces s groups (ground arith))
match_pieces-Spells (group ranges ∷ pieces) s groups h =
    let (g, t, gs, es, eg, ne, all, e) =
      match_group-Splits ranges (match_pieces pieces) [] s groups h in
    (g, t, gs, es, eg, ne, all, match_pieces-Spells pieces t gs e)

-- A text that is spelled in some way matches.
match_pieces-found :
    (pieces : List Piece) (s : Bytes) (groups : List Bytes)
    → Spells pieces s groups
    → is_some (match_pieces pieces s) ≡ true
unfolding match_pieces
match_pieces-found [] s groups (e, _) = rw e
match_pieces-found (literal x ∷ pieces) s groups (t, e, h) =
    rw e (ground (arith, match_pieces-found pieces t groups h))
match_pieces-found (group ranges ∷ pieces) s groups (g, t, gs, es, eg, ne, all, h) = rw es (
    match_group-found ranges (match_pieces pieces) [] g t ne all (match_pieces-found pieces t gs h))

-- A path matches a url exactly when the url is spelled by the pieces of its expression, each
-- group one or more characters of its set; and `result` is then the url itself, followed by the
-- texts of the groups of one such spelling.
pub match-Spells :
    (re : List Piece) (url : Bytes)
    → ((result : List Bytes)
        → match re url ≡ some result
        → (groups : List Bytes) × (result ≡ url ∷ groups) × Spells re url groups)
      × ((groups : List Bytes) → Spells re url groups → is_some (match re url) ≡ true)
unfolding match
match-Spells re url = (
  λ result h. elim (Option-cases (match_pieces re url)) [
    | inl e ↦ absurd (ground (arith, h, e))
    | inr (groups, e) ↦ (groups, ground (arith, h, e), match_pieces-Spells re url groups e)
  ],
  λ groups h. ground (arith, match_pieces-found re url groups h),
)
