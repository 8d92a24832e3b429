-- ===== src/Prelude/Maps.antt =====
-- JavaScript's `Map` as an association list in insertion order: `set` on a key that is there
-- keeps the entry's place, and on a new key appends.
use mathlib.Core.Path.{◌≡◌, refl}
use mathlib.Core.Bool.{true}
use mathlib.Core.Option.{Option, none, some}
use mathlib.Core.List.{List, [], ◌∷◌, map}
use native.Mathlib.Omega.{arith}
use prosper.Prelude.Tests.{if◌then◌else◌}
use prosper.Prelude.Equality.{Eq, ◌==◌}

abbrev pub Assoc {ℓ κ} : Type ℓ → Type κ → Type (ℓ ⊔ κ)
Assoc K V = List (K × V)

abbrev pub keys {ℓ κ} : {K : Type ℓ} {V : Type κ} → Assoc K V → List K
keys = map (λ e. e.0)

abbrev pub values {ℓ κ} : {K : Type ℓ} {V : Type κ} → Assoc K V → List V
values = map (λ e. e.1)

pub beq_refl {ℓ} : {K : Type ℓ} ⦃e : Eq K⦄ (k : K) → (k == k) ≡ true
beq_refl ⦃e⦄ k = (e.test_iff k k).1 refl

module _ {ℓ κ} {K : Type ℓ} {V : Type κ} ⦃e : Eq K⦄ where
  -- `m.get(k)`
  unfoldable pub lookup : K → Assoc K V → Option V
  lookup k [] = none
  lookup k ((j, v) ∷ m) = if j == k then some v else lookup k m

  -- `m.set(k, v)`
  unfoldable pub insert : K → V → Assoc K V → Assoc K V
  insert stored new ((i, old) ∷ m) =
      if i == stored then (i, new) ∷ m else (i, old) ∷ insert stored new m
  insert stored new [] = (stored, new) ∷ []

  -- `new Map(entries)`
  unfoldable pub from_entries : List (K × V) → Assoc K V → Assoc K V
  unfolding insert
  from_entries [] m = m
  from_entries ((k, v) ∷ l) m = from_entries l (insert k v m)

  -- A stored key answers with the new value, and every other key as before.
  pub lookup-insert :
      (stored asked : K) (new : V) (m : Assoc K V)
      → lookup asked (insert stored new m) ≡ (if stored == asked then some new else lookup asked m)
  unfolding insert lookup
  lookup-insert stored asked new ((i, old) ∷ m) = ground (
    arith,
    lookup-insert stored asked new m,
    e.test_iff stored asked,
    e.test_iff i stored,
    e.test_iff i asked,
  )
  lookup-insert stored asked new [] = refl

  pub lookup-insert_self : (k : K) (v : V) (m : Assoc K V) → lookup k (insert k v m) ≡ some v
  lookup-insert_self k v m = rw (lookup-insert k k v m, beq_refl k)
