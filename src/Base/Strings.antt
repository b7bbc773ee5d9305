-- ===== src/Base/Strings.antt =====
-- A Go string is its bytes. `text` reads a literal of the source, which is ASCII there.
use Prim.Native.Nat.{ℕ}
use Prim.Native.Char.{code}
use Prim.Native.String.{String}
use mathlib.Core.Path.{◌≡◌, refl}
use mathlib.Core.Logic.{◌↔◌}
use mathlib.Core.Bool.{Bool, true, false, ◌&&◌}
use mathlib.Core.Option.{Option, none, some}
use mathlib.Core.List.{List, [], ◌∷◌}
use native.Mathlib.Omega.{arith}
use quayctl.Base.Tests.{Eq, ◌==◌, nat_eq, leb, if◌then◌else◌}
use quayctl.Base.Lists.{length, take, drop}

abbrev pub Str : Type 0
Str = List ℕ

unfoldable pub text : String → Str
text String.[] = []
text (String.◌∷◌ c s) = code c ∷ text s

unfoldable pub str_beq : Str → Str → Bool
str_beq [] [] = true
str_beq [] (b ∷ t) = false
str_beq (a ∷ s) [] = false
str_beq (a ∷ s) (b ∷ t) = a == b && str_beq s t

pub str_beq_iff : (s t : Str) → (str_beq s t ≡ true) ↔ (s ≡ t)
unfolding str_beq
str_beq_iff [] [] = ((λ _. refl), (λ _. refl))
str_beq_iff [] (b ∷ t) = ((λ e. cc), (λ e. cc))
str_beq_iff (a ∷ s) [] = ((λ e. cc), (λ e. cc))
str_beq_iff (a ∷ s) (b ∷ t) =
    ((λ e. ground (arith, str_beq_iff s t)), (λ e. ground (arith, str_beq_iff s t)))

instance abbrev pub str_eq : Eq Str
str_eq = record { test = str_beq; agrees = str_beq_iff }

-- `s[n:]`; `none` where Go panics.
unfoldable pub slice_from : ℕ → Str → Option Str
slice_from n s = if leb n (length s) then some (drop n s) else none

-- `s[0:n]`; `none` where Go panics.
unfoldable pub slice_to : ℕ → Str → Option Str
slice_to n s = if leb n (length s) then some (take n s) else none

-- `strings.HasPrefix`
unfoldable pub has_prefix : Str → Str → Bool
has_prefix s [] = true
has_prefix [] (b ∷ p) = false
has_prefix (a ∷ s) (b ∷ p) = a == b && has_prefix s p
