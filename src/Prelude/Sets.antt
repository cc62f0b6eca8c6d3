-- ===== src/Prelude/Sets.antt =====
-- `Set` of JavaScript: the list of its members, each once, in the order of insertion.
use Prim.Native.Nat.{suc, ◌≤◌}
use mathlib.Core.Path.{◌≡◌, refl}
use mathlib.Core.Bool.{Bool, true, false}
use mathlib.Core.List.{List, [], ◌∷◌, ◌++◌}
use native.Mathlib.Omega.{arith}
use creation_of_energy_token.Prelude.Tests.{if◌then◌else◌}
use creation_of_energy_token.Prelude.Lists.{length, All}
use creation_of_energy_token.Prelude.Equality.{Eq, ◌===◌, includes}

module _ {ℓ} {A : Type ℓ} ⦃e : Eq A⦄ where
  abbrev pub add_unless : Bool → List A → A → List A
  add_unless true seen x = seen
  add_unless false seen x = seen ++ x ∷ []

  -- `set.add(x)`
  abbrev pub add : List A → A → List A
  add seen x = add_unless (includes seen x) seen x

  unfoldable pub add_all : List A → List A → List A
  add_all seen [] = seen
  add_all seen (x ∷ xs) = add_all (add seen x) xs

  -- `new Set(xs)`
  unfoldable pub unique : List A → List A
  unique xs = add_all [] xs

  -- No member stands twice.
  abbrev pub Distinct : List A → Type 0
  Distinct [] = Unit
  Distinct (x ∷ xs) = (includes xs x ≡ false) × Distinct xs

  abbrev pub Within : List A → List A → Type 0
  Within ys xs = All (λ x. includes ys x ≡ true) xs

  pub includes-append :
      (xs ys : List A) (a : A)
      → includes (xs ++ ys) a ≡ (if includes xs a then true else includes ys a)
  includes-append [] ys a = refl
  includes-append (x ∷ xs) ys a = ground (arith, includes-append xs ys a)

  pub Distinct-append :
      (xs : List A) (a : A) → Distinct xs → includes xs a ≡ false → Distinct (xs ++ a ∷ [])
  Distinct-append [] a d h = (refl, tt)
  Distinct-append (x ∷ xs) a (fresh, d) h = (
    ground (arith, includes-append xs (a ∷ []) x, e.beq_iff a x, e.beq_iff x a),
    Distinct-append xs a d (ground arith),
  )

  add_unless-Distinct :
      (old : Bool) (seen : List A) (x : A)
      → includes seen x ≡ old
      → Distinct seen
      → Distinct (add_unless old seen x)
  add_unless-Distinct true seen x h d = d
  add_unless-Distinct false seen x h d = Distinct-append seen x d h

  add_all-Distinct : (seen xs : List A) → Distinct seen → Distinct (add_all seen xs)
  unfolding add_all
  add_all-Distinct seen [] d = d
  add_all-Distinct seen (x ∷ xs) d =
      add_all-Distinct (add seen x) xs (add_unless-Distinct (includes seen x) seen x refl d)

  pub unique-Distinct : (xs : List A) → Distinct (unique xs)
  unfolding unique
  unique-Distinct xs = add_all-Distinct [] xs tt

  pub includes-add :
      (seen : List A) (x a : A)
      → includes (add seen x) a ≡ (if includes seen a then true else x === a)
  includes-add seen x a = ground (arith, includes-append seen (x ∷ []) a, e.beq_iff x a)

  pub includes-add_all :
      (seen xs : List A) (a : A)
      → includes (add_all seen xs) a ≡ (if includes seen a then true else includes xs a)
  unfolding add_all
  includes-add_all seen [] a = ground arith
  includes-add_all seen (x ∷ xs) a =
      ground (arith, includes-add seen x a, includes-add_all (add seen x) xs a)

  pub includes-unique : (xs : List A) (a : A) → includes (unique xs) a ≡ includes xs a
  unfolding unique
  includes-unique xs a = includes-add_all [] xs a

  Within-cons : (y : A) (ys xs : List A) → Within ys xs → Within (y ∷ ys) xs
  Within-cons y ys [] h = tt
  Within-cons y ys (x ∷ xs) (here, later) = (ground arith, Within-cons y ys xs later)

  pub Within-self : (xs : List A) → Within xs xs
  Within-self [] = tt
  Within-self (x ∷ xs) = (ground (arith, e.beq_iff x x), Within-cons x xs xs (Within-self xs))

  pub Within-of_eq :
      (ys zs xs : List A) → ((a : A) → includes ys a ≡ includes zs a) → Within ys xs → Within zs xs
  Within-of_eq ys zs [] same h = tt
  Within-of_eq ys zs (x ∷ xs) same (here, later) =
      (ground (arith, same x), Within-of_eq ys zs xs same later)

  pub includes_here : (x : A) (xs : List A) → includes (x ∷ xs) x ≡ true
  includes_here x xs = ground (arith, e.beq_iff x x)

  pub includes_there : (y x : A) (xs : List A) → includes xs x ≡ true → includes (y ∷ xs) x ≡ true
  includes_there y x xs h = ground arith

  erase : A → List A → List A
  erase a [] = []
  erase a (x ∷ xs) = elim (x === a) [ true ↦ xs | false ↦ x ∷ erase a xs ]

  length-erase :
      (a : A) (xs : List A) → includes xs a ≡ true → length xs ≡ suc (length (erase a xs))
  unfolding erase
  length-erase a [] h = ground arith
  length-erase a (x ∷ xs) h = ground (arith, length-erase a xs)

  includes-erase :
      (a b : A) (xs : List A)
      → (b === a) ≡ false
      → includes xs b ≡ true
      → includes (erase a xs) b ≡ true
  unfolding erase
  includes-erase a b [] ne h = h
  includes-erase a b (x ∷ xs) ne h =
      ground (arith, includes-erase a b xs, e.beq_iff x a, e.beq_iff x b, e.beq_iff b a)

  Within-erase :
      (a : A) (xs ys : List A) → includes ys a ≡ false → Within xs ys → Within (erase a xs) ys
  Within-erase a xs [] fresh h = tt
  Within-erase a xs (y ∷ ys) fresh (here, later) =
      (includes-erase a y xs (ground arith) here, Within-erase a xs ys (ground arith) later)

  -- Distinct members of a list are no more than the list is long.
  pub length-le_of_Within : (xs ys : List A) → Distinct ys → Within xs ys → length ys ≤ length xs
  length-le_of_Within xs [] d h = omega arith
  length-le_of_Within xs (y ∷ ys) (fresh, d) (here, later) = omega (
    arith,
    length-erase y xs here,
    length-le_of_Within (erase y xs) ys d (Within-erase y xs ys fresh later),
  )

  -- In a list without repetition, no member of the first part stands in the second.
  pub Distinct-append_fresh :
      (xs : List A) (a : A) (ys : List A) → Distinct (xs ++ a ∷ ys) → includes xs a ≡ false
  Distinct-append_fresh [] a ys d = refl
  Distinct-append_fresh (x ∷ xs) a ys (fresh, d) = ground (
    arith,
    Distinct-append_fresh xs a ys d,
    includes-append xs (a ∷ ys) x,
    e.beq_iff a x,
    e.beq_iff x a,
  )
