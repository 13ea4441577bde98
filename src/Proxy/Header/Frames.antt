-- ===== src/Proxy/Header/Frames.antt =====
-- proxy/header.go: the frame around what `Header.Format` copies into its buffer.
use go_listener.Common.{
  ℕ, zero, suc, drop-append, ◌+◌, ◌-◌, ◌≤◌, ◌≡◌, refl, sym, ap, ◌∙◌, arith, [], ◌∷◌, ◌++◌, length,
  take, drop, replicate, length-append, length-take, length-drop,
}
use mathlib.Core.List.{append_assoc}
use go_listener.Common.Int.{ℤ}
use go_listener.Common.Text.{Bytes}
use go_listener.Net.{copy, copy_into, be_bytes}
use go_listener.Proxy.Header.{
  protocol_signature, format_ipv4_header, format_ipv6_header, start_header, put_uint16,
}
use go_listener.Proxy.Header.Wire.{wire}

length-copy : (dst src : Bytes) → length (copy dst src) ≡ length dst
unfolding copy
length-copy [] src = refl
length-copy (d ∷ dst) [] = refl
length-copy (d ∷ dst) (s ∷ src) = omega (arith, length-copy dst src)

length-copy_into :
    (lo hi : ℕ) (src buf : Bytes)
    → lo ≤ hi
    → hi ≤ length buf
    → length (copy_into lo hi src buf) ≡ length buf
unfolding copy_into
length-copy_into lo hi src buf h k = omega (
  arith,
  h,
  k,
  length-append (take lo buf) (copy (take (hi - lo) (drop lo buf)) src ++ drop hi buf),
  length-append (copy (take (hi - lo) (drop lo buf)) src) (drop hi buf),
  length-copy (take (hi - lo) (drop lo buf)) src,
  length-take lo buf,
  length-take (hi - lo) (drop lo buf),
  length-drop lo buf,
  length-drop hi buf,
)

take-past : (n m : ℕ) (a r : Bytes) → length a + m ≡ n → take n (a ++ r) ≡ a ++ take m r
take-past n m [] r h = let e : n ≡ m = omega arith in ap (λ k. take k r) e
take-past zero m (x ∷ a) r h = absurd (omega arith)
take-past (suc n) m (x ∷ a) r h = ap (◌∷◌ x) (take-past n m a r (omega arith))

copy_into-past :
    (lo hi lo' hi' : ℕ) (src a r : Bytes)
    → length a + lo ≡ lo'
    → length a + hi ≡ hi'
    → copy_into lo' hi' src (a ++ r) ≡ a ++ copy_into lo hi src r
unfolding copy_into
copy_into-past lo hi lo' hi' src a r p q =
    let gap : hi' - lo' ≡ hi - lo = omega (arith, p, q) in
    rw (copy_into, take-past lo' lo a r p, drop-append lo' lo a r p, drop-append hi' hi a r q, gap)
      (append_assoc a (take lo r) (copy (take (hi - lo) (drop lo r)) src ++ drop hi r))

-- A header in the wire format, with the command PROXY and a payload of this many bytes.
abbrev pub IsWire : ℕ → ℕ → Bytes → Type 0
IsWire n family b = (payload : Bytes) × (b ≡ wire 1 family payload) × (length payload ≡ n)

frame : ℕ → ℕ → Bytes
frame family n = protocol_signature ++ 33 ∷ family ∷ be_bytes n

-- A copy behind the first 16 bytes and within the payload.
copy_into-IsWire :
    (lo hi lo' hi' n family : ℕ) (src b : Bytes)
    → lo ≤ hi
    → hi ≤ n
    → 16 + lo ≡ lo'
    → 16 + hi ≡ hi'
    → IsWire n family b
    → IsWire n family (copy_into lo' hi' src b)
unfolding frame
copy_into-IsWire lo hi lo' hi' n family src b h k p q (payload, e, l) =
    let payload' = copy_into lo hi src payload in
    let same : length payload' ≡ length payload =
      length-copy_into lo hi src payload h (omega (arith, l)) in
    (
      payload',
      ap (copy_into lo' hi' src) e
          ∙ copy_into-past lo hi lo' hi' src (frame family (length payload)) payload p q
          ∙ ap (λ m. frame family m ++ payload') (sym same),
      same ∙ l,
    )

pub format_ipv4-IsWire :
    (family : ℕ) (r l : Bytes) (p q : ℤ) → IsWire 12 family (format_ipv4_header family r l p q)
unfolding format_ipv4_header start_header put_uint16 copy_into
format_ipv4-IsWire family r l p q =
    copy_into-IsWire 10 12 26 28 12 family _ _ (omega arith) (omega arith) refl refl (
      copy_into-IsWire 8 10 24 26 12 family _ _ (omega arith) (omega arith) refl refl (
        copy_into-IsWire 4 8 20 24 12 family _ _ (omega arith) (omega arith) refl refl (
          copy_into-IsWire 0 4 16 20 12 family _ _ (omega arith) (omega arith) refl refl
            (replicate 12 0, refl, refl))))

pub format_ipv6-IsWire :
    (family : ℕ) (r l : Bytes) (p q : ℤ) → IsWire 36 family (format_ipv6_header family r l p q)
unfolding format_ipv6_header start_header put_uint16 copy_into
format_ipv6-IsWire family r l p q =
    copy_into-IsWire 34 36 50 52 36 family _ _ (omega arith) (omega arith) refl refl (
      copy_into-IsWire 32 34 48 50 36 family _ _ (omega arith) (omega arith) refl refl (
        copy_into-IsWire 16 32 32 48 36 family _ _ (omega arith) (omega arith) refl refl (
          copy_into-IsWire 0 16 16 32 36 family _ _ (omega arith) (omega arith) refl refl
            (replicate 36 0, refl, refl))))
