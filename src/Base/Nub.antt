-- ===== src/Base/Nub.antt =====
-- The first occurrences of a list's elements, the specification of the loops that skip repetitions.
use quayctl.Base.Tests.{Eq, ◌==◌, if◌then◌else◌}
use quayctl.Base.Lists.{contains, Distinct}
use mathlib.Core.Path.{◌≡◌, refl, ap}
use mathlib.Core.Bool.{true, false}
use mathlib.Core.List.{List, [], ◌∷◌}
use native.Mathlib.Omega.{arith}

module _ {ℓ} {A : Type ℓ} ⦃e : Eq A⦄ where
  -- A list without the elements that equal `x`.
  unfoldable pub remove : A → List A → List A
  remove x [] = []
  remove x (y ∷ ys) = let rest = remove x ys in if x == y then rest else y ∷ rest

  -- The first occurrence of each element.
  unfoldable pub nub : List A → List A
  unfolding remove
  nub [] = []
  nub (x ∷ xs) = x ∷ remove x (nub xs)

  contains-remove :
      (x a : A) (xs : List A) → contains (remove x xs) a ≡ (if x == a then false else contains xs a)
  unfolding contains remove
  contains-remove x a [] = ground arith
  contains-remove x a (y ∷ ys) =
      ground (arith, contains-remove x a ys, e.agrees x y, e.agrees x a, e.agrees a y)

  remove-Distinct : (x : A) (xs : List A) → Distinct xs → Distinct (remove x xs)
  unfolding remove
  remove-Distinct x [] d = tt
  remove-Distinct x (y ∷ ys) d = ground (arith, remove-Distinct x ys d.1, contains-remove x y ys)

  pub contains-nub : (xs : List A) (a : A) → contains (nub xs) a ≡ contains xs a
  unfolding contains nub
  contains-nub [] a = refl
  contains-nub (x ∷ xs) a =
      ground (arith, contains-remove x a (nub xs), contains-nub xs a, e.agrees x a, e.agrees a x)

  pub nub-Distinct : (xs : List A) → Distinct (nub xs)
  unfolding nub
  nub-Distinct [] = tt
  nub-Distinct (x ∷ xs) = ground (
    arith,
    contains-remove x x (nub xs),
    remove-Distinct x (nub xs) (nub-Distinct xs),
    e.agrees x x,
  )

  -- A list without the elements of `seen`.
  unfoldable pub without : List A → List A → List A
  without seen [] = []
  without seen (y ∷ ys) = let rest = without seen ys in if contains seen y then rest else y ∷ rest

  pub without-nil : (xs : List A) → without [] xs ≡ xs
  unfolding without contains
  without-nil [] = refl
  without-nil (x ∷ xs) = ap (◌∷◌ x) (without-nil xs)

  pub without-remove :
      (seen : List A) (x : A) (xs : List A) → without seen (remove x xs) ≡ without (x ∷ seen) xs
  unfolding without remove contains
  without-remove seen x [] = refl
  without-remove seen x (y ∷ ys) =
      ground (arith, without-remove seen x ys, e.agrees x y, e.agrees y x)

  pub without-cons_of_contains :
      (seen : List A) (x : A) (xs : List A)
      → contains seen x ≡ true
      → without (x ∷ seen) xs ≡ without seen xs
  unfolding without contains
  without-cons_of_contains seen x [] h = refl
  without-cons_of_contains seen x (y ∷ ys) h =
      ground (arith, without-cons_of_contains seen x ys h, e.agrees y x)
