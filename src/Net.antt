-- ===== src/Net.antt =====
-- The parts of Go's `net`, `io` and `encoding/binary` that the sources compute with.
pub mod Conn
pub mod HostPort
use go_listener.Common.{
  ℕ, zero, suc, ◌+◌, ◌-◌, ◌*◌, ◌/◌, ◌%◌, Bool, true, false, ◌&&◌, Option, none, some, List, [], ◌∷◌,
  ◌++◌, leb, ◌==◌, if◌then◌else◌, length, take, drop, replicate, Outcome, ok, err, panic,
}
use go_listener.Common.Int.{ℤ}
use go_listener.Common.Text.{Bytes, equal}

-- `net.Addr`: the two pointer types that the code switches on, each an IP (a byte slice of 4 or 16
-- bytes, or any other) and a port, and every other dynamic type, nil among them.
pub data Addr : Type 0 where
  tcp : Bytes → ℤ → Addr
  udp : Bytes → ℤ → Addr
  other : ℕ → Addr

-- `net.v4InV6Prefix`
abbrev v4_in_v6_prefix : Bytes
v4_in_v6_prefix = replicate 10 0 ++ 0xff ∷ 0xff ∷ []

-- `IP.To4`, with `none` for nil.
unfoldable pub to4 : Bytes → Option Bytes
unfolding equal
to4 ip =
    if length ip == 4
    then some ip
    else if length ip == 16 && equal (take 12 ip) v4_in_v6_prefix
    then some (drop 12 ip)
    else none

-- A nil slice is the empty one.
abbrev pub or_nil : Option Bytes → Bytes
or_nil none = []
or_nil (some ip) = ip

-- `s[lo:hi]` for `lo ≤ hi`: out of range it panics.
unfoldable pub slice {ℓ} : {E : Type ℓ} → ℕ → ℕ → Bytes → Outcome E Bytes
slice lo hi s = if leb hi (length s) then ok (take (hi - lo) (drop lo s)) else panic

-- `binary.BigEndian.Uint16`: it reads two bytes, and panics on a shorter slice.
unfoldable pub be_uint16 {ℓ} : {E : Type ℓ} → Bytes → Outcome E ℕ
be_uint16 (hi ∷ lo ∷ _) = ok (hi * 256 + lo)
be_uint16 _ = panic

-- `binary.BigEndian.PutUint16(_, v)` of a `uint16`
abbrev pub be_bytes : ℕ → Bytes
be_bytes v = v / 256 ∷ v % 256 ∷ []

-- `copy(dst, src)`: as many bytes as the shorter has.
unfoldable pub copy : Bytes → Bytes → Bytes
copy [] src = []
copy (d ∷ dst) [] = d ∷ dst
copy (d ∷ dst) (s ∷ src) = s ∷ copy dst src

-- `copy(buf[lo:hi], src)` within a buffer that has `hi` bytes.
unfoldable pub copy_into : ℕ → ℕ → Bytes → Bytes → Bytes
unfolding copy
copy_into lo hi src buf = take lo buf ++ (copy (take (hi - lo) (drop lo buf)) src ++ drop hi buf)
