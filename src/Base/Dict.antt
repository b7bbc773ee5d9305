-- ===== src/Base/Dict.antt =====
-- A Go map with string keys, as the list of its entries. Where the program ranges over a map the
-- order of the entries is any order, and so is that of the list.
use mathlib.Core.Path.{◌≡◌, refl}
use mathlib.Core.Bool.{true, false}
use mathlib.Core.Option.{Option, none, some}
use mathlib.Core.List.{List, [], ◌∷◌}
use native.Mathlib.Omega.{arith}
use quayctl.Base.Tests.{◌==◌, if◌then◌else◌}
use mathlib.Core.Logic.{◌≢◌}
use quayctl.Base.Lists.{contains, Distinct}
use quayctl.Base.Strings.{Str, str_eq, str_beq_iff}

abbrev pub Dict {ℓ} : Type ℓ → Type ℓ
Dict V = List (Str × V)

module _ {ℓ} {V : Type ℓ} where
  -- `v, found := m[k]`
  unfoldable pub lookup : Str → Dict V → Option V
  lookup k [] = none
  lookup k ((j, v) ∷ m) = if j == k then some v else lookup k m

  -- `delete(m, k)`
  unfoldable pub erase : Str → Dict V → Dict V
  erase k [] = []
  erase k ((j, v) ∷ m) = let rest = erase k m in if j == k then rest else (j, v) ∷ rest

  -- `m[k] = v`
  unfoldable pub insert : Str → V → Dict V → Dict V
  unfolding erase
  insert k v m = (k, v) ∷ erase k m

  unfoldable pub keys : Dict V → List Str
  keys [] = []
  keys ((k, v) ∷ m) = k ∷ keys m

  pub lookup-erase :
      (k j : Str) (m : Dict V) → lookup j (erase k m) ≡ (if k == j then none else lookup j m)
  unfolding lookup erase
  lookup-erase k j [] = ground arith
  lookup-erase k j ((i, w) ∷ m) =
      ground (arith, str_beq_iff k j, str_beq_iff i k, str_beq_iff i j, lookup-erase k j m)

  pub lookup-insert :
      (k j : Str) (v : V) (m : Dict V)
      → lookup j (insert k v m) ≡ (if k == j then some v else lookup j m)
  unfolding lookup insert
  lookup-insert k j v m = ground (arith, lookup-erase k j m)

  pub lookup-insert_self : (k : Str) (v : V) (m : Dict V) → lookup k (insert k v m) ≡ some v
  lookup-insert_self k v m = ground (arith, lookup-insert k k v m, str_beq_iff k k)

  pub lookup-insert_ne :
      (k j : Str) (v : V) (m : Dict V) → k ≢ j → lookup j (insert k v m) ≡ lookup j m
  lookup-insert_ne k j v m n = ground (arith, lookup-insert k j v m, str_beq_iff k j)

  pub lookup_of_not_key : (k : Str) (m : Dict V) → contains (keys m) k ≡ false → lookup k m ≡ none
  unfolding lookup keys contains
  lookup_of_not_key k [] h = refl
  lookup_of_not_key k ((j, v) ∷ m) h =
      ground (arith, lookup_of_not_key k m, str_beq_iff j k, str_beq_iff k j)

  pub lookup-contains-keys :
      (k : Str) (m : Dict V) (v : V) → lookup k m ≡ some v → contains (keys m) k ≡ true
  unfolding lookup keys contains
  lookup-contains-keys k [] v e = cc
  lookup-contains-keys k ((j, w) ∷ m) v e =
      ground (arith, lookup-contains-keys k m v, str_beq_iff j k, str_beq_iff k j)

  pub contains-keys-erase :
      (k j : Str) (m : Dict V)
      → contains (keys (erase k m)) j ≡ true
      → (contains (keys m) j ≡ true) × (k ≢ j)
  unfolding keys erase contains
  contains-keys-erase k j [] h = cc
  contains-keys-erase k j ((i, v) ∷ m) h =
      ground (arith, contains-keys-erase k j m, str_beq_iff i k, str_beq_iff j i)

  pub keys_erase-Distinct : (k : Str) (m : Dict V) → Distinct (keys m) → Distinct (keys (erase k m))
  unfolding keys erase
  keys_erase-Distinct k [] distinct = tt
  keys_erase-Distinct k ((j, v) ∷ m) distinct =
      ground (arith, keys_erase-Distinct k m distinct.1, distinct.0, contains-keys-erase k j m)

  pub erase_no_key : (k : Str) (m : Dict V) → contains (keys (erase k m)) k ≡ false
  unfolding keys erase contains
  erase_no_key k [] = refl
  erase_no_key k ((j, v) ∷ m) = ground (arith, erase_no_key k m, str_beq_iff j k, str_beq_iff k j)
