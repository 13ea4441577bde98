-- ===== src/Common/Int.antt =====
-- Go's `int`, as an integer without bounds; the code that parses or narrows one writes out its range.
use Prim.Native.Nat.{ℕ, ◌-◌, ◌%◌}

-- `negsuc n` is -(n + 1).
pub data ℤ : Type 0 where
  pos : ℕ → ℤ
  negsuc : ℕ → ℤ

-- `uint16(n)`
unfoldable pub uint16 : ℤ → ℕ
uint16 (pos n) = n % 65536
uint16 (negsuc n) = 65535 - n % 65536
