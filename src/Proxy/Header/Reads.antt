-- ===== src/Proxy/Header/Reads.antt =====
-- proxy/header.go: the bounds of the slices and indices in `ReadHeader`.
use go_listener.Common.{
  ℕ, ◌+◌, ◌-◌, ◌*◌, ◌/◌, ◌%◌, ◌≤◌, [], ◌∷◌, ◌++◌, ◌≡◌, ◌≢◌, inl, inr, refl, sym, arith, length,
  take, drop, length-append, length-take, length-drop, take-append-drop, take-append, drop-append,
  ok, panic,
}
use go_listener.Common.Int.{ℤ, pos}
use go_listener.Common.Text.{Bytes}
use go_listener.Net.{Addr, tcp, udp, slice, be_uint16}
use go_listener.Net.Conn.{Conn, full, read_full, Read-cases}
use go_listener.Proxy.Header.{
  Header, HeaderError, Preamble, port_at, parse_addrs, parse_proxy_header, read_header, run_command,
  read_payload, check_preamble, split_preamble,
}

-- `ReadFull` returns as many bytes as it was asked for, and leaves those behind them.
pub read_full-eq-full :
    (n : ℕ) (c c' : Conn) {b : Bytes}
    → read_full n c ≡ full b c'
    → (length b ≡ n) × (c' ≡ record c { input = c'.input }) × (c.input ≡ b ++ c'.input)
unfolding read_full
read_full-eq-full n c c' h = ground (arith, length-take n c.input, take-append-drop n c.input)

slice-past :
    (lo hi n : ℕ) (a b : Bytes)
    → length a ≡ n
    → slice {E = HeaderError} (n + lo) (n + hi) (a ++ b) ≡ slice lo hi b
unfolding slice
slice-past lo hi n a b h =
    rw (drop-append (n + lo) lo a b (omega arith)) (ground (arith, length-append a b))

four : (b : Bytes) → length b ≡ 4 → (w x y z : ℕ) × (b ≡ w ∷ x ∷ y ∷ z ∷ [])
four (w ∷ x ∷ y ∷ z ∷ []) h = (w, x, y, z, refl)
four _ h = absurd (omega arith)

slice_front : (n : ℕ) (a b : Bytes) → length a ≡ n → slice {E = HeaderError} 0 n (a ++ b) ≡ ok a
unfolding slice
slice_front n a b h =
    rw (slice, take-append (n - 0) a b (omega arith)) (ground (arith, length-append a b))

pub split_preamble_lem :
    (s : Bytes) (w x y z : ℕ)
    → length s ≡ 12
    → split_preamble (s ++ w ∷ x ∷ y ∷ z ∷ [])
      ≡ ok (record {
        signature = s;
        version = w / 16;
        command = w % 16;
        family = x;
        payload_length = y * 256 + z;
      })
unfolding split_preamble
split_preamble_lem s w x y z h =
    let t = w ∷ x ∷ y ∷ z ∷ [] in
    rw
      (
        split_preamble,
        slice_front 12 s t h,
        slice-past 0 1 12 s t h,
        slice-past 1 2 12 s t h,
        slice-past 2 4 12 s t h,
      )
      (unfold slice be_uint16 in refl)

-- The first 16 bytes of an input always divide into the fields of a preamble.
pub split_preamble_total :
    (b : Bytes)
    → length b ≡ 16
    → (s : Bytes) × (w : ℕ) × (x : ℕ) × (y : ℕ) × (z : ℕ) × (length s ≡ 12)
      × (b ≡ s ++ w ∷ x ∷ y ∷ z ∷ [])
split_preamble_total b h =
    let (w, x, y, z, e) = four (drop 12 b) (omega (arith, length-drop 12 b)) in
    (take 12 b, w, x, y, z, omega (arith, length-take 12 b), rw (← e) (sym (take-append-drop 12 b)))

slice-ok :
    (lo hi : ℕ) (b : Bytes)
    → hi ≤ length b
    → slice {E = HeaderError} lo hi b ≡ ok (take (hi - lo) (drop lo b))
unfolding slice
slice-ok lo hi b h = ground arith

be_uint16_total : (b : Bytes) → 2 ≤ length b → (v : ℕ) × (be_uint16 {E = HeaderError} b ≡ ok v)
unfolding be_uint16
be_uint16_total (x ∷ y ∷ b) h = (_, refl)
be_uint16_total _ h = absurd (omega arith)

port_at_total : (lo : ℕ) (b : Bytes) → lo + 2 ≤ length b → (v : ℕ) × (port_at lo b ≡ ok (pos v))
unfolding port_at
port_at_total lo b h =
    let (v, e) =
      be_uint16_total (take (lo + 2 - lo) (drop lo b))
        (omega (arith, length-take (lo + 2 - lo) (drop lo b), length-drop lo b)) in
    (v, rw (slice-ok lo (lo + 2) b h, e))

pub parse_addrs_total :
    (wrap : Bytes → ℤ → Addr) (s : ℕ) (b : Bytes)
    → 2 * s + 4 ≤ length b
    → (h : Header) × (parse_addrs wrap s b ≡ ok h)
unfolding parse_addrs
parse_addrs_total wrap s b h =
    let (p, ep) = port_at_total (2 * s) b (omega arith) in
    let (q, eq) = port_at_total (2 * s + 2) b (omega arith) in
    (
      record {
        remote_addr = wrap (take (s - 0) b) (pos p);
        local_addr = wrap (take (2 * s - s) (drop s b)) (pos q);
      },
      rw (slice-ok 0 s b (omega arith), ep, slice-ok s (2 * s) b (omega arith), eq),
    )

-- A payload that passes the check on its length is read within its bounds.
parse_proxy_header-ne-panic : (family : ℕ) (b : Bytes) → parse_proxy_header family b ≢ panic
unfolding parse_proxy_header
parse_proxy_header-ne-panic family b = ground (
  arith,
  parse_addrs_total tcp 4 b,
  parse_addrs_total udp 4 b,
  parse_addrs_total tcp 16 b,
  parse_addrs_total udp 16 b,
)

read_payload-ne-panic : (p : Preamble) (c : Conn) → (read_payload p c).0 ≢ panic
unfolding read_payload run_command
read_payload-ne-panic p c = elim (Read-cases (read_full p.payload_length c)) [
  | inl (e, c', r) ↦ rw (read_payload, r) (λ h. cc)
  | inr (b, c', r) ↦ rw (read_payload, r) (ground (arith, parse_proxy_header-ne-panic p.family b))
]

check_preamble-ne-panic : (p : Preamble) (c : Conn) → (check_preamble (ok p) c).0 ≢ panic
unfolding check_preamble
check_preamble-ne-panic p c = ground (arith, read_payload-ne-panic p c)

pub read_header-ne-panic : (c : Conn) → (read_header c).0 ≢ panic
unfolding read_header
read_header-ne-panic c = elim (Read-cases (read_full 16 c)) [
  | inl (e, c', r) ↦ rw (read_header, r) (λ h. cc)
  | inr (b, c', r) ↦
      let (s, w, x, y, z, hs, e) = split_preamble_total b (read_full-eq-full 16 c c' r).0 in
      rw (read_header, r, e, split_preamble_lem s w x y z hs) (check_preamble-ne-panic _ c')
]
