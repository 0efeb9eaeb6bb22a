-- ===== src/Base/Bytes.antt =====
-- Go strings are sequences of bytes. `lit` gives the bytes of a literal of the source; all of these
-- are ASCII, so the bytes are the code points.
use Prim.Native.Nat.{ℕ}
use Prim.Native.Char.{code}
use Prim.Native.String.{String}
use mathlib.Core.Path.{◌≡◌, refl}
use mathlib.Core.Logic.{◌↔◌, ◌≢◌}
use mathlib.Core.Bool.{Bool, true, false, ◌&&◌}
use mathlib.Core.List.{List, [], ◌∷◌}
use native.Mathlib.Omega.{arith}
use devcontainer_manager.Base.Tests.{nat_eq}

abbrev pub Str : Type 0
Str = List ℕ

unfoldable pub lit : String → Str
lit String.[] = []
lit (String.◌∷◌ c s) = code c ∷ lit s

-- `s == ""`
abbrev pub is_empty : Str → Bool
is_empty [] = true
is_empty (_ ∷ _) = false

infix 50 ◌==◌
unfoldable pub ◌==◌ : Str → Str → Bool
[] == [] = true
[] == (_ ∷ _) = false
(_ ∷ _) == [] = false
(a ∷ s) == (b ∷ t) = nat_eq a b && s == t

pub eq_iff : (s t : Str) → ((s == t) ≡ true) ↔ (s ≡ t)
unfolding ◌==◌
eq_iff [] [] = ground arith
eq_iff [] (_ ∷ _) = ground arith
eq_iff (_ ∷ _) [] = ground arith
eq_iff (a ∷ s) (b ∷ t) = ground (arith, eq_iff s t)

pub eq_refl : (s : Str) → (s == s) ≡ true
eq_refl s = (eq_iff s s).1 refl

pub eq-false_of_ne : (s t : Str) → s ≢ t → (s == t) ≡ false
eq-false_of_ne s t h = ground (arith, eq_iff s t)

-- `firstNonEmpty`, of one, two and more values, as the packages dockerx, syncx and t3 each have it.
unfoldable pub first_non_empty : List Str → Str
first_non_empty [] = []
first_non_empty ([] ∷ values) = first_non_empty values
first_non_empty ((c ∷ value) ∷ _) = c ∷ value
