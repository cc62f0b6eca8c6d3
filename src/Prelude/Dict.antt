-- ===== src/Prelude/Dict.antt =====
-- `Map` of JavaScript: an association list in insertion order. `set` replaces a value in place.
use mathlib.Core.Path.{◌≡◌, refl}
use mathlib.Core.Bool.{Bool, true, false}
use mathlib.Core.Option.{Option, none, some}
use mathlib.Core.List.{List, [], ◌∷◌}
use native.Mathlib.Omega.{arith}
use creation_of_energy_token.Prelude.Tests.{if◌then◌else◌}
use creation_of_energy_token.Prelude.Equality.{Eq, ◌===◌}

abbrev pub Dict {ℓ κ} : Type ℓ → Type κ → Type (ℓ ⊔ κ)
Dict K V = List (K × V)

module _ {ℓ κ} {K : Type ℓ} {V : Type κ} ⦃e : Eq K⦄ where
  unfoldable pub get : K → List (K × V) → Option V
  get k [] = none
  get k ((j, v) ∷ m) = if j === k then some v else get k m

  unfoldable pub set : K → V → List (K × V) → List (K × V)
  set k v [] = (k, v) ∷ []
  set k v ((j, w) ∷ m) = if j === k then (j, v) ∷ m else (j, w) ∷ set k v m

  unfoldable pub delete : K → List (K × V) → List (K × V)
  delete k [] = []
  delete k ((j, w) ∷ m) = let rest = delete k m in if j === k then rest else (j, w) ∷ rest

  abbrev pub has : K → List (K × V) → Bool
  has k m = elim (get k m) [ none ↦ false | some _ ↦ true ]

  pub get-set :
      (k j : K) (v : V) (m : List (K × V))
      → get j (set k v m) ≡ (if k === j then some v else get j m)
  unfolding get set
  get-set k j v [] = refl
  get-set k j v ((i, w) ∷ m) =
      ground (arith, e.beq_iff k j, e.beq_iff i k, e.beq_iff i j, get-set k j v m)

  pub get-set_self : (k : K) (v : V) (m : List (K × V)) → get k (set k v m) ≡ some v
  get-set_self k v m = ground (arith, get-set k k v m, e.beq_iff k k)

  pub get-set_ne : (k j : K) (v : V) (m : List (K × V)) → (k ≡ j → ⊥) → get j (set k v m) ≡ get j m
  get-set_ne k j v m h = ground (arith, get-set k j v m, e.beq_iff k j)

  pub get-delete_self : (k : K) (m : List (K × V)) → get k (delete k m) ≡ none
  unfolding get delete
  get-delete_self k [] = refl
  get-delete_self k ((i, w) ∷ m) = ground (arith, get-delete_self k m)

  pub get-delete_ne : (k j : K) (m : List (K × V)) → (k ≡ j → ⊥) → get j (delete k m) ≡ get j m
  unfolding get delete
  get-delete_ne k j [] h = refl
  get-delete_ne k j ((i, w) ∷ m) h =
      ground (arith, e.beq_iff k j, e.beq_iff i k, e.beq_iff i j, get-delete_ne k j m h)

  -- `map.values()`, in insertion order
  abbrev pub values : List (K × V) → List V
  values [] = []
  values ((k, v) ∷ m) = v ∷ values m
