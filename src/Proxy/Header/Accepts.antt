-- ===== src/Proxy/Header/Accepts.antt =====
-- proxy/header.go: the inputs that `ReadHeader` accepts.
use mathlib.Core.List.{append_assoc}
use go_listener.Common.{
  ℕ, ◌+◌, ◌*◌, ◌/◌, ◌%◌, ◌<◌, [], ◌∷◌, ◌++◌, ◌≡◌, ◌⊎◌, inl, inr, ◌∙◌, arith, length, All, ok,
}
use go_listener.Common.Text.{Bytes, equal_iff}
use go_listener.Net.Conn.{Conn, full, read_full, Read-cases}
use go_listener.Proxy.Header.{
  Header, Preamble, parse_proxy_header, read_header, run_command, read_payload, check_preamble,
  split_preamble, protocol_signature,
}
use go_listener.Proxy.Header.Wire.{wire, feed}
use go_listener.Proxy.Header.Reads.{read_full-eq-full, split_preamble_total, split_preamble_lem}

abbrev IsBytes : Bytes → Type 0
IsBytes = All (λ b. b < 256)

-- What a command says of the connection's addresses.
abbrev pub Means : ℕ → ℕ → Bytes → Conn → Header → Type 0
Means command family payload c h =
    ((command ≡ 0) × (h ≡ record { remote_addr = c.remote_addr; local_addr = c.local_addr }))
    ⊎ ((command ≡ 1) × (parse_proxy_header family payload ≡ ok h))

run_command-eq-ok :
    (c : Conn) (p : Preamble) (payload : Bytes) (h : Header)
    → run_command c p payload ≡ ok h
    → Means p.command p.family payload c h
unfolding run_command
run_command-eq-ok c p payload h e = ground arith

check_preamble-eq-ok :
    (p : Preamble) (c c' : Conn) (h : Header)
    → check_preamble (ok p) c ≡ (ok h, c')
    → (payload : Bytes) × (p.signature ≡ protocol_signature)
      × (p.version ≡ 2)
      × (read_full p.payload_length c ≡ full payload c')
      × (run_command c' p payload ≡ ok h)
unfolding check_preamble read_payload
check_preamble-eq-ok p c c' h e = elim (Read-cases (read_full p.payload_length c)) [
  | inl (x, d, r) ↦ ground arith
  | inr (b, d, r) ↦ (
    b,
    ground (arith, equal_iff p.signature protocol_signature),
    ground arith,
    ground arith,
    ground arith,
  )
]

IsBytes-append : (a b : Bytes) → IsBytes (a ++ b) → IsBytes b
IsBytes-append [] b h = h
IsBytes-append (x ∷ a) b h = IsBytes-append a b h.1

wire_of_parts :
    (s : Bytes) (w x y z : ℕ) (payload rest : Bytes)
    → s ≡ protocol_signature
    → w / 16 ≡ 2
    → length payload ≡ y * 256 + z
    → z < 256
    → (s ++ w ∷ x ∷ y ∷ z ∷ []) ++ (payload ++ rest) ≡ wire (w % 16) x payload ++ rest
wire_of_parts s w x y z payload rest hs hw hl hz =
    let ew : 32 + w % 16 ≡ w = omega arith in
    let ey : length payload / 256 ≡ y = omega arith in
    let ez : length payload % 256 ≡ z = omega arith in rw (hs, ew, ey, ez)

unread :
    (c d c' : Conn) (b : Bytes)
    → d ≡ record c { input = d.input }
    → c' ≡ record d { input = c'.input }
    → c.input ≡ b ++ c'.input
    → c ≡ feed b c'
unread c d c' b ed ec e = ground arith

abbrev Accepted : Conn → Conn → Header → Type 0
Accepted c c' h =
    (command : ℕ) × (family : ℕ) × (payload : Bytes) × (c ≡ feed (wire command family payload) c')
    × Means command family payload c' h

-- The same from the parts of the 16 bytes read first.
from_parts :
    (c d c' : Conn) (h : Header) (s : Bytes) (w x y z : ℕ)
    → IsBytes c.input
    → d ≡ record c { input = d.input }
    → c.input ≡ (s ++ w ∷ x ∷ y ∷ z ∷ []) ++ d.input
    → length s ≡ 12
    → check_preamble (split_preamble (s ++ w ∷ x ∷ y ∷ z ∷ [])) d ≡ (ok h, c')
    → Accepted c c' h
from_parts c d c' h s w x y z small ed ei hs e =
    let (payload, sig, version, rp, run) =
      check_preamble-eq-ok _ d c' h (rw (split_preamble_lem s w x y z hs) at e) in
    let (hp, ec, ep) = read_full-eq-full (y * 256 + z) d c' rp in
    let tail = rw append_assoc at (rw ei at small) in
    let hz : z < 256 = (IsBytes-append s (w ∷ x ∷ y ∷ z ∷ d.input) tail).1.1.1.0 in
    let whole = wire_of_parts s w x y z payload c'.input sig version hp hz in
    (
      w % 16,
      x,
      payload,
      unread c d c' (wire (w % 16) x payload) ed ec (ei ∙ rw ep whole),
      run_command-eq-ok c' _ payload h run,
    )

-- Whatever `ReadHeader` accepts begins with a header in the wire format, of command 0 or 1. That
-- header is all that it consumes, and its result is what the command says.
pub read_header-eq-ok :
    (c c' : Conn) (h : Header)
    → IsBytes c.input
    → read_header c ≡ (ok h, c')
    → (command : ℕ) × (family : ℕ) × (payload : Bytes) × (c ≡ feed (wire command family payload) c')
      × Means command family payload c' h
unfolding read_header
read_header-eq-ok c c' h small e = elim (Read-cases (read_full 16 c)) [
  | inl (x, d, r) ↦ ground arith
  | inr (b, d, r) ↦
      let (hb, ed, ei) = read_full-eq-full 16 c d r in
      let (s, w, x, y, z, hs, eb) = split_preamble_total b hb in
      from_parts c d c' h s w x y z small ed (rw eb at ei) hs (rw (read_header, r, eb) at e)
]
