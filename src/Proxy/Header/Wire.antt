-- ===== src/Proxy/Header/Wire.antt =====
-- The wire format of a PROXY header, apart from the code: what `Format` writes and what `ReadHeader`
-- makes of it.
use mathlib.Core.List.{append_assoc, append-nil}
use go_listener.Common.{
  ℕ, ◌+◌, ◌-◌, ◌<◌, some, [], ◌∷◌, ◌++◌, ◌≡◌, refl, sym, ap, ◌∙◌, arith, length, replicate,
  length-append, take-append, drop-append, ok,
}
use go_listener.Common.Int.{ℤ, uint16}
use go_listener.Common.Text.{Bytes, equal}
use go_listener.Net.{copy, copy_into, be_bytes, to4, slice, be_uint16}
use go_listener.Net.Conn.{Conn, full, read_full}
use go_listener.Proxy.Header.{
  Preamble, protocol_signature, format_ipv4_header, format_ipv6_header, read_header, run_command,
  put_uint16, start_header, check_preamble, read_payload, split_preamble,
}

-- A header: the signature, version 2 with the command, the family, the payload's length, the payload.
abbrev pub wire : ℕ → ℕ → Bytes → Bytes
wire command family payload =
    protocol_signature ++ (32 + command) ∷ family ∷ (be_bytes (length payload) ++ payload)

-- The connection with `b` in front of what has yet to be read.
abbrev pub feed : Bytes → Conn → Conn
feed b c = record c { input = b ++ c.input }

copy_lem : (dst src : Bytes) → length dst ≡ length src → copy dst src ≡ src
unfolding copy
copy_lem [] [] h = refl
copy_lem [] (s ∷ src) h = absurd (omega arith)
copy_lem (d ∷ dst) [] h = absurd (omega arith)
copy_lem (d ∷ dst) (s ∷ src) h = ap (◌∷◌ s) (copy_lem dst src (omega arith))

copy_into_lem :
    (lo hi : ℕ) (a b b' c : Bytes)
    → length a ≡ lo
    → length a + length b ≡ hi
    → length b ≡ length b'
    → copy_into lo hi b' (a ++ (b ++ c)) ≡ a ++ (b' ++ c)
unfolding copy_into
copy_into_lem lo hi a b b' c p q r = rw (
  take-append lo a (b ++ c) p,
  drop-append lo 0 a (b ++ c) (omega arith),
  take-append (hi - lo) b c (omega arith),
  drop-append hi (length b) a (b ++ c) q,
  drop-append (length b) 0 b c (omega arith),
  copy_lem b b' r,
)

pub read_full-feed :
    (n : ℕ) (b : Bytes) (c : Conn) → length b ≡ n → read_full n (feed b c) ≡ full b c
unfolding read_full
read_full-feed n b c h =
    rw (take-append n b c.input h, drop-append n 0 b c.input (omega arith))
      (ground (arith, length-append b c.input))

abbrev preamble_of : ℕ → ℕ → ℕ → Preamble
preamble_of command family n = record {
  signature = protocol_signature;
  version = 2;
  command = command;
  family = family;
  payload_length = n;
}

pub split_preamble-wire :
    (command family n : ℕ)
    → command < 16
    → split_preamble (protocol_signature ++ (32 + command) ∷ family ∷ be_bytes n)
      ≡ ok (preamble_of command family n)
unfolding split_preamble slice be_uint16
split_preamble-wire command family n h = ground arith

-- What `ReadHeader` makes of a well-formed header: the command decides, and exactly the header is
-- consumed.
pub read_header-wire :
    (command family : ℕ) (payload : Bytes) (c : Conn)
    → command < 16
    → read_header (feed (wire command family payload) c)
      ≡ (run_command c (preamble_of command family (length payload)) payload, c)
unfolding read_header check_preamble read_payload equal
read_header-wire command family payload c h =
    rw
      (
        read_header,
        read_full-feed 16
            (protocol_signature ++ (32 + command) ∷ family ∷ be_bytes (length payload))
            (feed payload c) refl,
      )
      (rw (split_preamble-wire command family (length payload) h)
        (rw (read_payload, read_full-feed (length payload) payload c refl)))

-- The payload of the two address families.
abbrev pub addresses : Bytes → Bytes → ℤ → ℤ → Bytes
addresses remote_ip local_ip remote_port local_port =
    remote_ip ++ (local_ip ++ (be_bytes (uint16 remote_port) ++ be_bytes (uint16 local_port)))

abbrev head_of : ℕ → ℕ → Bytes
head_of family n = protocol_signature ++ 33 ∷ family ∷ be_bytes n

pub length-addresses :
    (s : ℕ) (r l : Bytes) (rp lp : ℤ)
    → length r ≡ s
    → length l ≡ s
    → length (addresses r l rp lp) ≡ s + s + 4
length-addresses s r l rp lp hr hl = omega (
  arith,
  length-append r (l ++ (be_bytes (uint16 rp) ++ be_bytes (uint16 lp))),
  length-append l (be_bytes (uint16 rp) ++ be_bytes (uint16 lp)),
)

copy_zeros :
    (lo hi : ℕ) (a b z c : Bytes)
    → length a ≡ lo
    → length a + length b ≡ hi
    → length z ≡ length b
    → copy_into lo hi b (a ++ (z ++ c)) ≡ (a ++ b) ++ c
copy_zeros lo hi a b z c p q r =
    copy_into_lem lo hi a z b c p (omega arith) r ∙ sym (append_assoc a b c)

-- Both formats fill a buffer of zeros from left to right.
fill :
    (family n s : ℕ) (r l z : Bytes) (rp lp : ℤ)
    → length r ≡ s
    → length l ≡ s
    → length z ≡ s
    → put_uint16 (s + s + 18) (uint16 lp) (
        put_uint16 (s + s + 16) (uint16 rp) (
          copy_into
            (s + 16)
            (s + s + 16)
            l
            (copy_into 16 (s + 16) r (head_of family n ++ (z ++ (z ++ 0 ∷ 0 ∷ 0 ∷ 0 ∷ []))))))
      ≡ head_of family n ++ addresses r l rp lp
unfolding put_uint16
fill family n s r l z rp lp hr hl hz =
    let a = head_of family n in
    let bp = be_bytes (uint16 rp) in
    let bl = be_bytes (uint16 lp) in
    let two_ips = length-append r l in
    let two : Bytes = 0 ∷ 0 ∷ [] in
    rw
      (
        copy_zeros 16 (s + 16) a r z (z ++ 0 ∷ 0 ∷ 0 ∷ 0 ∷ []) refl (omega arith) (omega arith),
        copy_zeros (s + 16) (s + s + 16) (a ++ r) l z (0 ∷ 0 ∷ 0 ∷ 0 ∷ [])
            (omega (arith, two_ips, length-append (r ++ l) bp))
            (omega (arith, two_ips, length-append (r ++ l) bp)) (omega arith),
        copy_zeros (s + s + 16) (s + s + 16 + 2) (a ++ r ++ l) bp two two
            (omega (arith, two_ips, length-append (r ++ l) bp))
            (omega (arith, two_ips, length-append (r ++ l) bp)) refl,
        copy_zeros (s + s + 18) (s + s + 18 + 2) (a ++ r ++ l ++ bp) bl two []
            (omega (arith, two_ips, length-append (r ++ l) bp))
            (omega (arith, two_ips, length-append (r ++ l) bp)) refl,
      )
      (simp (append_assoc, append-nil))

pub format_ipv6-wire :
    (family : ℕ) (r l : Bytes) (rp lp : ℤ)
    → length r ≡ 16
    → length l ≡ 16
    → format_ipv6_header family r l rp lp ≡ wire 1 family (addresses r l rp lp)
unfolding format_ipv6_header start_header
format_ipv6-wire family r l rp lp hr hl =
    let n : length (addresses r l rp lp) ≡ 36 = length-addresses 16 r l rp lp hr hl in
    rw n (fill family 36 16 r l (replicate 16 0) rp lp hr hl refl)

pub format_ipv4-wire :
    (family : ℕ) (r l q k : Bytes) (rp lp : ℤ)
    → to4 r ≡ some q
    → to4 l ≡ some k
    → length q ≡ 4
    → length k ≡ 4
    → format_ipv4_header family r l rp lp ≡ wire 1 family (addresses q k rp lp)
unfolding format_ipv4_header start_header
format_ipv4-wire family r l q k rp lp er el hq hk =
    let n : length (addresses q k rp lp) ≡ 12 = length-addresses 4 q k rp lp hq hk in
    rw (er, el, n) (fill family 12 4 q k (replicate 4 0) rp lp hq hk refl)
