-- ===== src/Proxy/Header/RoundTrip.antt =====
-- proxy/header.go: `ReadHeader` after `Header.Format`.
use mathlib.Core.List.{append_assoc, append-nil}
use go_listener.Common.{
  ℕ, ◌+◌, ◌-◌, ◌*◌, ◌%◌, ◌<◌, none, some, [], ◌++◌, ◌≡◌, ◌⊎◌, inl, inr, refl, arith, ltb,
  if◌then◌else◌, length, length-append, length-drop, take-append, drop-append, ok, err,
}
use go_listener.Common.Int.{ℤ, pos, negsuc, uint16}
use go_listener.Common.Text.{Bytes}
use go_listener.Net.{Addr, tcp, udp, be_bytes, to4, or_nil, slice, be_uint16}
use go_listener.Net.Conn.{Conn}
use go_listener.Proxy.Header.{
  Header, format, format_addrs, format_version, port_at, parse_addrs, parse_proxy_header,
  read_header, run_command, family_tcp4, HeaderError, too_short, family_udp4, family_tcp6,
  family_udp6,
}
use go_listener.Proxy.Header.Wire.{
  wire, feed, addresses, length-addresses, read_header-wire, format_ipv4-wire, format_ipv6-wire,
}

slice_lem :
    (lo hi : ℕ) (a b c : Bytes)
    → length a ≡ lo
    → length a + length b ≡ hi
    → slice {E = HeaderError} lo hi (a ++ (b ++ c)) ≡ ok b
unfolding slice
slice_lem lo hi a b c p q =
    rw (drop-append lo 0 a (b ++ c) (omega arith), take-append (hi - lo) b c (omega arith))
      (ground (arith, length-append a (b ++ c), length-append b c))

abbrev IsPort : ℤ → Type 0
IsPort (pos n) = n < 65536
IsPort (negsuc _) = ⊥

port_lem :
    (lo : ℕ) (a c : Bytes) (p : ℤ)
    → length a ≡ lo
    → IsPort p
    → port_at lo (a ++ (be_bytes (uint16 p) ++ c)) ≡ ok p
unfolding port_at uint16 be_uint16
port_lem lo a c (negsuc n) h e = absurd e
port_lem lo a c (pos n) h e =
    rw (port_at, slice_lem lo (lo + 2) a (be_bytes (n % 65536)) c h (omega arith)) (ground arith)

parse_addrs-addresses :
    (wrap : Bytes → ℤ → Addr) (s : ℕ) (r l : Bytes) (rp lp : ℤ)
    → length r ≡ s
    → length l ≡ s
    → IsPort rp
    → IsPort lp
    → parse_addrs wrap s (addresses r l rp lp)
      ≡ ok (record { remote_addr = wrap r rp; local_addr = wrap l lp })
unfolding parse_addrs
parse_addrs-addresses wrap s r l rp lp hr hl ir il =
    let bp = be_bytes (uint16 rp) in
    let bl = be_bytes (uint16 lp) in
    rw (
      slice_lem 0 s [] r (l ++ (bp ++ bl)) refl (omega arith),
      port_first,
      slice_lem s (2 * s) r l (bp ++ bl) hr (omega arith),
      port_last,
    )
  where
    port_last : port_at (2 * s + 2) (addresses r l rp lp) ≡ ok lp
    port_last =
        rw
          (
            ← append_assoc r l (be_bytes (uint16 rp) ++ be_bytes (uint16 lp)),
            ← append_assoc (r ++ l) (be_bytes (uint16 rp)) (be_bytes (uint16 lp)),
            ← append-nil (be_bytes (uint16 lp)),
          )
          (port_lem (2 * s + 2) (r ++ l ++ be_bytes (uint16 rp)) [] lp
            (omega (arith, length-append r l, length-append (r ++ l) (be_bytes (uint16 rp)))) il)

    port_first : port_at (2 * s) (addresses r l rp lp) ≡ ok rp
    port_first =
        rw (← append_assoc r l (be_bytes (uint16 rp) ++ be_bytes (uint16 lp))) (
          port_lem (2 * s) (r ++ l) (be_bytes (uint16 lp)) rp (omega (arith, length-append r l)) ir)

to4-length : (ip q : Bytes) → to4 ip ≡ some q → length q ≡ 4
unfolding to4
to4-length ip q h = ground (arith, length-drop 12 ip)

abbrev IsPair : Bytes → Bytes → Type 0
IsPair r l =
    ((q : Bytes) × (k : Bytes) × (to4 r ≡ some q) × (to4 l ≡ some k))
    ⊎ ((to4 r ≡ none) × (length r ≡ 16) × (length l ≡ 16))

-- What a header can carry: two TCP or two UDP addresses of one IP version, with ports of 16 bits.
abbrev pub IsFormattable : Addr → Addr → Type 0
IsFormattable (tcp r p) (tcp l q) = IsPort p × IsPort q × IsPair r l
IsFormattable (udp r p) (udp l q) = IsPort p × IsPort q × IsPair r l
IsFormattable _ _ = ⊥

-- The same IP as it is written: in 4 bytes where the remote one has such a form.
abbrev shorten : Bytes → Bytes → Bytes
shorten r ip = elim (to4 r) [ some _ ↦ or_nil (to4 ip) | none ↦ ip ]

abbrev pub canonical : Addr → Addr → Header
canonical (tcp r p) (tcp l q) = record {
  remote_addr = tcp (shorten r r) p;
  local_addr = tcp (shorten r l) q;
}
canonical (udp r p) (udp l q) = record {
  remote_addr = udp (shorten r r) p;
  local_addr = udp (shorten r l) q;
}
canonical r l = record { remote_addr = r; local_addr = l }

read-addresses :
    (family s : ℕ) (wrap : Bytes → ℤ → Addr) (r l : Bytes) (rp lp : ℤ) (c : Conn)
    → ((p : Bytes)
        → parse_proxy_header family p
          ≡ (if ltb (length p) (s + s + 4) then err (too_short family) else parse_addrs wrap s p))
    → length r ≡ s
    → length l ≡ s
    → IsPort rp
    → IsPort lp
    → read_header (feed (wire 1 family (addresses r l rp lp)) c)
      ≡ (ok (record { remote_addr = wrap r rp; local_addr = wrap l lp }), c)
unfolding run_command
read-addresses family s wrap r l rp lp c case hr hl ir il =
    rw
      (
        read_header-wire 1 family (addresses r l rp lp) c (omega arith),
        run_command,
        case (addresses r l rp lp),
        length-addresses s r l rp lp hr hl,
        parse_addrs-addresses wrap s r l rp lp hr hl ir il,
      )
      (ground arith)

-- Both versions of the IP, for the families and the pointer type of either case of `Format`.
read-format_version :
    (family4 family6 : ℕ) (wrap : Bytes → ℤ → Addr)
    → ((p : Bytes)
        → parse_proxy_header family4 p
          ≡ (if ltb (length p) 12 then err (too_short family4) else parse_addrs wrap 4 p))
    → ((p : Bytes)
        → parse_proxy_header family6 p
          ≡ (if ltb (length p) 36 then err (too_short family6) else parse_addrs wrap 16 p))
    → (r l : Bytes) (p q : ℤ) (c : Conn) → IsPort p × IsPort q × IsPair r l
    → read_header (feed (format_version family4 family6 r l p q) c)
      ≡ (ok (record { remote_addr = wrap (shorten r r) p; local_addr = wrap (shorten r l) q }), c)
unfolding format_version
read-format_version f4 f6 wrap case4 case6 r l p q c (ip, iq, inl (r4, l4, er, el)) =
    rw (format_version, shorten, er, format_ipv4-wire f4 r l r4 l4 p q er el hr hl, el, er)
      (read-addresses f4 4 wrap r4 l4 p q c case4 hr hl ip iq)
  where
    hr : length r4 ≡ 4
    hr = to4-length r r4 er

    hl : length l4 ≡ 4
    hl = to4-length l l4 el
read-format_version f4 f6 wrap case4 case6 r l p q c (ip, iq, inr (er, hr, hl)) =
    rw (format_version, shorten, er, format_ipv6-wire f6 r l p q hr hl)
      (read-addresses f6 16 wrap r l p q c case6 hr hl ip iq)

written :
    (r l : Addr) (c : Conn)
    → IsFormattable r l
    → (b : Bytes) × (format_addrs r l ≡ ok b) × (read_header (feed b c) ≡ (ok (canonical r l), c))
unfolding format_addrs parse_proxy_header
written (tcp r p) (tcp l q) c h =
    (_, refl, read-format_version family_tcp4 family_tcp6 tcp (λ _. refl) (λ _. refl) r l p q c h)
written (udp r p) (udp l q) c h =
    (_, refl, read-format_version family_udp4 family_udp6 udp (λ _. refl) (λ _. refl) r l p q c h)
written _ _ c h = absurd h

-- A header that holds two TCP or two UDP addresses of one IP version, with ports of 16 bits, is
-- written without a panic, and `ReadHeader` reads it back in front of any further input: it returns
-- the same addresses (an IPv4 address in its 4-byte form) and leaves the rest unread.
pub read_header-format :
    (h : Header) (c : Conn)
    → IsFormattable h.remote_addr h.local_addr
    → (b : Bytes) × (format h ≡ ok b)
      × (read_header (feed b c) ≡ (ok (canonical h.remote_addr h.local_addr), c))
unfolding format
read_header-format h c f = written h.remote_addr h.local_addr c f
