-- ===== src/Proxy/Header/Written.antt =====
-- proxy/header.go: the size of what `Header.Format` writes.
use go_listener.Common.{
  ℕ, ◌≡◌, refl, ap, ◌∙◌, arith, Option, none, some, [], ◌⊎◌, inl, inr, ok, err, panic, Outcome,
}
use go_listener.Common.Int.{ℤ}
use go_listener.Common.Text.{Bytes}
use go_listener.Net.{Addr, tcp, udp, other, to4, copy_into}
use go_listener.Proxy.Header.{
  Header, format, format_addrs, format_version, format_ipv4_header, format_ipv6_header,
  format_unspecified_header, family_tcp4, family_tcp6, family_udp4, family_udp6, family_unspecified,
  read_header, parse_proxy_header, run_command, unsupported_family,
}
use go_listener.Proxy.Header.Faults.{Mismatched}
use go_listener.Net.Conn.{Conn}
use go_listener.Proxy.Header.Frames.{IsWire, format_ipv4-IsWire, format_ipv6-IsWire}
use go_listener.Proxy.Header.Wire.{wire, feed, read_header-wire}
use go_listener.Proxy.Header.Reads.{parse_addrs_total}

-- The family, and the size of the payload that goes with it, for a remote address.
abbrev pub IsSize : Addr → ℕ → ℕ → Type 0
IsSize (tcp ip port) n family =
    ((n ≡ 12) × (family ≡ family_tcp4)) ⊎ ((n ≡ 36) × (family ≡ family_tcp6))
IsSize (udp ip port) n family =
    ((n ≡ 12) × (family ≡ family_udp4)) ⊎ ((n ≡ 36) × (family ≡ family_udp6))
IsSize (other k) n family = (n ≡ 0) × (family ≡ family_unspecified)

-- What `ReadHeader` makes of it: the header of a TCP or UDP address is accepted, any other refused.
abbrev pub IsAnswered : Addr → Bytes → Conn → Type 0
IsAnswered (other k) b c = read_header (feed b c) ≡ (err (unsupported_family family_unspecified), c)
IsAnswered _ b c = (h : Header) × (read_header (feed b c) ≡ (ok h, c))

module _ (c : Conn) where
  read_header-proxied :
      (family : ℕ) (payload : Bytes) (h : Header)
      → parse_proxy_header family payload ≡ ok h
      → read_header (feed (wire 1 family payload) c) ≡ (ok h, c)
  unfolding run_command
  read_header-proxied family payload h e =
      read_header-wire 1 family payload c (omega arith) ∙ ap (λ r. (r, c)) e

  IsWire-IsAnswered :
      (r : Addr) (n family : ℕ) (b : Bytes)
      → IsWire n family b
      → IsSize r n family
      → IsAnswered r b c
  unfolding parse_proxy_header run_command
  IsWire-IsAnswered (tcp ip port) n family b (p, e, l) (inl (k, f)) =
      let (h, q) = parse_addrs_total tcp 4 p (omega (arith, l, k)) in
      (h, ap (λ b. read_header (feed b c)) e ∙ read_header-proxied family p h (ground (arith, q)))
  IsWire-IsAnswered (tcp ip port) n family b (p, e, l) (inr (k, f)) =
      let (h, q) = parse_addrs_total tcp 16 p (omega (arith, l, k)) in
      (h, ap (λ b. read_header (feed b c)) e ∙ read_header-proxied family p h (ground (arith, q)))
  IsWire-IsAnswered (udp ip port) n family b (p, e, l) (inl (k, f)) =
      let (h, q) = parse_addrs_total udp 4 p (omega (arith, l, k)) in
      (h, ap (λ b. read_header (feed b c)) e ∙ read_header-proxied family p h (ground (arith, q)))
  IsWire-IsAnswered (udp ip port) n family b (p, e, l) (inr (k, f)) =
      let (h, q) = parse_addrs_total udp 16 p (omega (arith, l, k)) in
      (h, ap (λ b. read_header (feed b c)) e ∙ read_header-proxied family p h (ground (arith, q)))
  IsWire-IsAnswered (other j) n family b (p, e, l) (k, f) =
      ap (λ b. read_header (feed b c)) e
      ∙ read_header-wire 1 family p c (omega arith)
      ∙ ap (λ f. (parse_proxy_header f p, c)) f

-- A version for the IPs, of the families given.
abbrev IsVersion : ℕ → ℕ → Bytes → Type 0
IsVersion f4 f6 b =
    (n : ℕ) × (family : ℕ) × IsWire n family b
    × (((n ≡ 12) × (family ≡ f4)) ⊎ ((n ≡ 36) × (family ≡ f6)))

format_version-IsVersion :
    (f4 f6 : ℕ) (r l : Bytes) (p q : ℤ) → IsVersion f4 f6 (format_version f4 f6 r l p q)
unfolding format_version
format_version-IsVersion f4 f6 r l p q = go (to4 r)
  where
    go :
        (o : Option Bytes)
        → IsVersion f4 f6 (elim o [
          | some _ ↦ format_ipv4_header f4 r l p q
          | none ↦ format_ipv6_header f6 r l p q
        ])
    go (some _) = (12, f4, format_ipv4-IsWire f4 r l p q, inl (refl, refl))
    go none = (36, f6, format_ipv6-IsWire f6 r l p q, inr (refl, refl))

abbrev Written : Addr → Outcome (Unit {0}) Bytes → Type 0
Written r o =
    (b : Bytes) × (n : ℕ) × (family : ℕ) × (o ≡ ok b) × IsWire n family b × IsSize r n family

format_addrs-Written :
    (r l : Addr)
    → ((format_addrs r l ≡ panic) × Mismatched r l)
      ⊎ ((¬ Mismatched r l) × Written r (format_addrs r l))
unfolding format_addrs format_unspecified_header copy_into
format_addrs-Written (tcp r p) (tcp l q) =
    let (n, family, w, k) = format_version-IsVersion family_tcp4 family_tcp6 r l p q in
    inr (absurd, (_, n, family, refl, w, k))
format_addrs-Written (udp r p) (udp l q) =
    let (n, family, w, k) = format_version-IsVersion family_udp4 family_udp6 r l p q in
    inr (absurd, (_, n, family, refl, w, k))
format_addrs-Written (other n) l =
    inr (absurd, (_, 0, family_unspecified, refl, ([], refl, refl), (refl, refl)))
format_addrs-Written (tcp r p) (udp l q) = inl (refl, tt)
format_addrs-Written (tcp r p) (other n) = inl (refl, tt)
format_addrs-Written (udp r p) (tcp l q) = inl (refl, tt)
format_addrs-Written (udp r p) (other n) = inl (refl, tt)

-- Whatever the addresses, with IPs and ports of any size: `Format` panics, where the remote address
-- is a TCP or a UDP address and the local one is of another type. Otherwise it writes a header in the
-- wire format whose length field counts the payload, which has 12 bytes for IPv4, 36 for IPv6 and none
-- for a remote address of another type. In front of any connection, `ReadHeader` accepts the first
-- two, and refuses the last, which has the command PROXY with the unspecified family.
pub format-IsWire :
    (h : Header) (c : Conn)
    → ((format h ≡ panic) × Mismatched h.remote_addr h.local_addr)
      ⊎ ((¬ Mismatched h.remote_addr h.local_addr)
          × (b : Bytes) × (n : ℕ) × (family : ℕ) × (format h ≡ ok b)
          × IsWire n family b
          × IsSize h.remote_addr n family
          × IsAnswered h.remote_addr b c)
unfolding format
format-IsWire h c = elim (format_addrs-Written h.remote_addr h.local_addr) [
  | inl p ↦ inl p
  | inr (m, (b, n, family, e, w, k)) ↦
      inr (m, b, n, family, e, w, k, IsWire-IsAnswered c h.remote_addr n family b w k)
]
