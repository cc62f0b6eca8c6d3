-- ===== src/Prelude/Equality.antt =====
-- JavaScript strings and `===`. A string is the list of its UTF-16 code units.
use Prim.Native.Nat.{ℕ}
use Prim.Native.Char.{code}
use Prim.Native.String.{String}
use mathlib.Core.Path.{◌≡◌, refl}
use mathlib.Core.Logic.{◌↔◌}
use mathlib.Core.Bool.{Bool, true, false, ◌&&◌}
use mathlib.Core.List.{List, [], ◌∷◌}
use native.Mathlib.Omega.{arith}
use creation_of_energy_token.Prelude.Tests.{◌==◌, ==_iff}

abbrev pub Text : Type 0
Text = List ℕ

-- The code units of a literal; every literal of the program is in the basic plane.
abbrev pub codes : String → Text
codes String.[] = []
codes (String.◌∷◌ c s) = code c ∷ codes s

pub record Eq {ℓ} (A : Type ℓ) : Type ℓ where
  pub beq : A → A → Bool
  pub beq_iff : (a b : A) → (beq a b ≡ true) ↔ (a ≡ b)

infix 50 ◌===◌
abbrev pub ◌===◌ {ℓ} : {A : Type ℓ} ⦃e : Eq A⦄ → A → A → Bool
◌===◌ ⦃e⦄ = e.beq

unfoldable pub text_eq : Text → Text → Bool
text_eq [] [] = true
text_eq (a ∷ s) (b ∷ t) = a == b && text_eq s t
text_eq _ _ = false

pub text_eq_iff : (s t : Text) → (text_eq s t ≡ true) ↔ (s ≡ t)
unfolding text_eq
text_eq_iff [] [] = ground arith
text_eq_iff [] (b ∷ t) = ground arith
text_eq_iff (a ∷ s) [] = ground arith
text_eq_iff (a ∷ s) (b ∷ t) = ground (arith, text_eq_iff s t)

instance abbrev pub text_Eq : Eq Text
text_Eq = record { beq = text_eq; beq_iff = text_eq_iff }

instance abbrev pub nat_Eq : Eq ℕ
nat_Eq = record { beq = ◌==◌; beq_iff = ==_iff }

module _ {ℓ} {A : Type ℓ} ⦃e : Eq A⦄ where
  pub ===_refl : (a : A) → (a === a) ≡ true
  ===_refl a = (e.beq_iff a a).1 refl

  pub ===_ne : (a b : A) → (a ≡ b → ⊥) → (a === b) ≡ false
  ===_ne a b h = ground (arith, e.beq_iff a b)

  -- `set.has(a)` and `list.includes(a)`
  abbrev pub includes : List A → A → Bool
  includes [] a = false
  includes (x ∷ xs) a = elim (x === a) [ true ↦ true | false ↦ includes xs a ]
