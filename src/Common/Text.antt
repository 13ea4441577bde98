-- ===== src/Common/Text.antt =====
-- Go strings and byte slices as lists of bytes, and the functions of `strings` and `bytes` that the
-- sources call.
use Prim.Native.Char.{code}
use Prim.Native.String.{String}
use Prim.Native.Nat.{ℕ, suc}
use mathlib.Core.Path.{◌≡◌, refl}
use mathlib.Core.Logic.{◌↔◌}
use mathlib.Core.Bool.{Bool, true, false, ◌&&◌, ◌||◌}
use mathlib.Core.Option
use mathlib.Core.Option.{Option, none, some}
use mathlib.Core.List.{List, [], ◌∷◌, ◌++◌}
use native.Mathlib.Omega.{arith}
use go_listener.Common.Tests.{◌==◌, if◌then◌else◌}

abbrev pub Bytes : Type 0
Bytes = List ℕ

-- The bytes of an ASCII literal.
abbrev pub codes : String → Bytes
codes String.[] = []
codes (String.◌∷◌ c s) = code c ∷ codes s

-- `bytes.Equal`, and `==` on strings.
unfoldable pub equal : Bytes → Bytes → Bool
equal (c ∷ s) (d ∷ t) = c == d && equal s t
equal [] [] = true
equal _ _ = false

pub equal_iff : (s t : Bytes) → (equal s t ≡ true) ↔ (s ≡ t)
unfolding equal
equal_iff (c ∷ s) (d ∷ t) = ground (equal_iff s t, arith)
equal_iff _ _ = ground arith

pub equal_refl : (a : Bytes) → equal a a ≡ true
equal_refl a = (equal_iff a a).1 refl

-- `s == ""`
abbrev pub is_empty : Bytes → Bool
is_empty [] = true
is_empty (_ ∷ _) = false

-- `strings.IndexByte`, with `none` for -1.
unfoldable pub index_byte : Bytes → ℕ → Option ℕ
index_byte [] c = none
index_byte (x ∷ xs) c = if x == c then some 0 else Option.map suc (index_byte xs c)

-- `strings.Contains(s, string(c))`
unfoldable pub contains : Bytes → ℕ → Bool
contains [] c = false
contains (x ∷ xs) c = x == c || contains xs c

-- `strings.SplitN(s, string(c), 2)` at a string that contains `c`: what stands before the first `c`
-- and after it. `none` is the case of one field.
unfoldable pub cut : Bytes → ℕ → Option (Bytes × Bytes)
cut [] c = none
cut (x ∷ xs) c =
    if x == c then some ([], xs) else Option.map (λ (before, after). (x ∷ before, after)) (cut xs c)

-- `strings.Split(s, string(c))`: never empty.
unfoldable pub split_onto : Bytes → Bytes → ℕ → List Bytes
split_onto field [] c = field ∷ []
split_onto field (x ∷ xs) c = elim (x == c) [
  | true ↦ field ∷ split_onto [] xs c
  | false ↦ split_onto (field ++ x ∷ []) xs c
]

unfoldable pub split : Bytes → ℕ → List Bytes
unfolding split_onto
split s c = split_onto [] s c

-- `strings.HasPrefix(s, string(c))` and `strings.HasSuffix(s, string(c))`
unfoldable pub starts_with : Bytes → ℕ → Bool
starts_with [] c = false
starts_with (x ∷ _) c = x == c

unfoldable pub ends_with : Bytes → ℕ → Bool
ends_with [] c = false
ends_with (x ∷ []) c = x == c
ends_with (x ∷ y ∷ s) c = ends_with (y ∷ s) c
