-- ===== src/Prelude/Map.antt =====
-- A `std::map` that is never walked: a function from keys to optional values. A key type has a
-- Boolean equality, given as an instance.
use Prim.Native.Nat.{ℕ}
use mathlib.Core.Path.{◌≡◌}
use mathlib.Core.Logic.{◌↔◌}
use mathlib.Core.Bool.{Bool, true}
use mathlib.Core.Option.{Option, none, some}
use movie_dbproject.Prelude.Tests.{◌==◌, ==_iff, if◌then◌else◌, is_some}
use movie_dbproject.Prelude.Bytes.{Bytes, same, same_iff}

pub record Eq {ℓ} (K : Type ℓ) : Type ℓ where
  pub beq : K → K → Bool
  pub beq_iff : (a b : K) → (beq a b ≡ true) ↔ (a ≡ b)

instance abbrev pub nat_eq : Eq ℕ
nat_eq = record { beq = λ a b. a == b; beq_iff = ==_iff }

instance abbrev pub bytes_eq : Eq Bytes
bytes_eq = record { beq = same; beq_iff = same_iff }

abbrev pub Map {ℓ κ} : Type ℓ → Type κ → Type (ℓ ⊔ κ)
Map K V = K → Option V

module _ {ℓ κ} {K : Type ℓ} {V : Type κ} where
  abbrev pub empty : Map K V
  empty k = none

  -- `m.count(k) != 0`
  abbrev pub contains : K → Map K V → Bool
  contains k m = is_some (m k)

module _ {ℓ κ} {K : Type ℓ} ⦃e : Eq K⦄ {V : Type κ} where
  -- `m[k] = v`
  abbrev pub insert : K → V → Map K V → Map K V
  insert k v m j = if e.beq k j then some v else m j

  -- `m.erase(k)`
  abbrev pub erase : K → Map K V → Map K V
  erase k m j = if e.beq k j then none else m j
