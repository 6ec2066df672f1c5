-- ===== src/Bserv/Utils/Params/Collects.antt =====
-- What the parameter maps hold after a list of pairs: every value of every key, in order.
use movie_dbproject.Prelude.{
  ◌≡◌, ◌∙◌, refl, false, none, some, List, [], ◌∷◌, ◌++◌, if◌then◌else◌, arith, append_assoc,
  Bool-cases, inl, inr, append-nil,
}
use movie_dbproject.Prelude.Bytes.{Bytes, same, same_iff, same_refl}
use movie_dbproject.Prelude.Dict.{lookup, lookup-insert, lookup-erase}
use movie_dbproject.Bserv.Utils.Params.{Params, no_params, add_pair}

-- All pairs, in order.
abbrev pub add_pairs : List (Bytes × Bytes) → Params → Params
add_pairs [] p = p
add_pairs ((k, v) ∷ kvs) p = add_pairs kvs (add_pair k v p)

-- The values that the pairs give to a key, in order.
abbrev pub values_of : Bytes → List (Bytes × Bytes) → List Bytes
values_of k [] = []
values_of k ((j, v) ∷ kvs) = let rest = values_of k kvs in if same j k then v ∷ rest else rest

-- How the two maps show the values of a key: none, one, or at least two.
abbrev pub Holds : Bytes → List Bytes → Params → Type 0
Holds k [] p = (lookup k p.dict ≡ none) × (lookup k p.list ≡ none)
Holds k (v ∷ []) p = (lookup k p.dict ≡ some v) × (lookup k p.list ≡ none)
Holds k (v ∷ w ∷ vs) p = (lookup k p.dict ≡ none) × (lookup k p.list ≡ some (v ∷ w ∷ vs))

-- Another key is left alone.
add_pair_other :
    (k j v : Bytes) (p : Params)
    → same j k ≡ false
    → (lookup k (add_pair j v p).dict ≡ lookup k p.dict)
      × (lookup k (add_pair j v p).list ≡ lookup k p.list)
unfolding add_pair
add_pair_other k j v p ne = grind (arith, lookup-insert, lookup-erase)

Holds-transfer :
    (k : Bytes) (vs : List Bytes) (p q : Params)
    → lookup k q.dict ≡ lookup k p.dict
    → lookup k q.list ≡ lookup k p.list
    → Holds k vs p
    → Holds k vs q
Holds-transfer k [] p q d l h = (d ∙ h.0, l ∙ h.1)
Holds-transfer k (v ∷ []) p q d l h = (d ∙ h.0, l ∙ h.1)
Holds-transfer k (v ∷ w ∷ vs) p q d l h = (d ∙ h.0, l ∙ h.1)

add_pair-Holds_self :
    (k v : Bytes) (vs : List Bytes) (p : Params)
    → Holds k vs p
    → Holds k (vs ++ v ∷ []) (add_pair k v p)
unfolding add_pair
add_pair-Holds_self k v [] p h = ground (arith, lookup-insert k k v p.dict, same_refl k)
add_pair-Holds_self k v (x ∷ []) p h =
    ground (arith, lookup-erase k k p.dict, lookup-insert k k (x ∷ v ∷ []) p.list, same_refl k)
add_pair-Holds_self k v (x ∷ y ∷ vs) p h =
    ground (arith, lookup-insert k k ((x ∷ y ∷ vs) ++ v ∷ []) p.list, same_refl k)

add_pairs-Holds_from :
    (k : Bytes) (kvs : List (Bytes × Bytes)) (vs : List Bytes) (p : Params)
    → Holds k vs p
    → Holds k (vs ++ values_of k kvs) (add_pairs kvs p)
add_pairs-Holds_from k [] vs p h = rw (append-nil vs) h
add_pairs-Holds_from k ((j, v) ∷ kvs) vs p h = elim (Bool-cases (same j k)) [
  | inl e ↦
      let eq = (same_iff j k).0 e in
      rw (e, eq, ← append_assoc vs (v ∷ []) (values_of k kvs))
        (add_pairs-Holds_from k kvs (vs ++ v ∷ []) (add_pair k v p)
          (add_pair-Holds_self k v vs p h))
  | inr e ↦
      let (d, l) = add_pair_other k j v p e in
      rw e (
        add_pairs-Holds_from k kvs vs (add_pair j v p)
          (Holds-transfer k vs p (add_pair j v p) d l h))
]

-- After the pairs of a list, a key that has no value stands in neither map, one with a single
-- value stands in the first map with it, and one with more stands in the second map alone, with
-- all its values in order.
pub add_pairs-Holds :
    (k : Bytes) (kvs : List (Bytes × Bytes)) → Holds k (values_of k kvs) (add_pairs kvs no_params)
add_pairs-Holds k kvs = add_pairs-Holds_from k kvs [] no_params (unfold lookup in (refl, refl))
