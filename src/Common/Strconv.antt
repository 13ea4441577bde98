-- ===== src/Common/Strconv.antt =====
-- `strconv.ParseUint(s, 10, 64)` and `strconv.Atoi`, with `none` for every error.
use go_listener.Common.Tests.{ltb, leb, ◌==◌, if◌then◌else◌}
use go_listener.Common.Text.{Bytes}
use go_listener.Common.Int.{ℤ, pos, negsuc}
use Prim.Native.Nat.{ℕ, ◌+◌, ◌-◌, ◌*◌, ◌^◌}
use mathlib.Core.Bool.{Bool, ◌&&◌}
use mathlib.Core.Option.{Option, none, some}
use mathlib.Core.List.{[], ◌∷◌}

abbrev is_digit : ℕ → Bool
is_digit c = leb b'0' c && leb c b'9'

-- The decimal digits of `s` behind the number read so far.
unfoldable pub parse_digits : ℕ → Bytes → Option ℕ
parse_digits acc [] = some acc
parse_digits acc (c ∷ s) =
    let rest = parse_digits (acc * 10 + (c - b'0')) s in if is_digit c then rest else none

-- At least one digit.
unfoldable pub parse_number : Bytes → Option ℕ
unfolding parse_digits
parse_number [] = none
parse_number (c ∷ s) = parse_digits 0 (c ∷ s)

-- A number that `fits`, as `f` makes it.
abbrev ranged {ℓ} : {A : Type ℓ} → Option ℕ → (ℕ → Bool) → (ℕ → A) → Option A
ranged none fits f = none
ranged (some n) fits f = if fits n then some (f n) else none

unfoldable pub parse_uint : Bytes → Option ℕ
unfolding parse_number
parse_uint s = ranged (parse_number s) (λ n. ltb n (2 ^ 64)) (λ n. n)

-- -n
abbrev negate : ℕ → ℤ
negate n = if n == 0 then pos 0 else negsuc (n - 1)

-- `int` has 64 bits.
unfoldable pub atoi : Bytes → Option ℤ
unfolding parse_number
atoi [] = none
atoi (c ∷ s) =
    if c == b'-'
    then ranged (parse_number s) (λ n. leb n (2 ^ 63)) negate
    else if c == b'+'
    then ranged (parse_number s) (λ n. ltb n (2 ^ 63)) pos
    else ranged (parse_number (c ∷ s)) (λ n. ltb n (2 ^ 63)) pos
