-- ===== src/Proxy/Header/Faults.antt =====
-- proxy/header.go: the addresses of other types in `Header.Format`.
use go_listener.Common.{◌≡◌, ◌↔◌, refl, panic}
use go_listener.Net.{Addr, tcp, udp, other}
use go_listener.Proxy.Header.{Header, format, format_addrs}

-- The two addresses have different dynamic types, and the remote one is a TCP or a UDP address.
abbrev pub Mismatched : Addr → Addr → Type 0
Mismatched (tcp _ _) (tcp _ _) = ⊥
Mismatched (udp _ _) (udp _ _) = ⊥
Mismatched (other _) _ = ⊥
Mismatched _ _ = Unit

mismatched : (r l : Addr) → (format_addrs r l ≡ panic) ↔ Mismatched r l
unfolding format_addrs
mismatched (tcp _ _) (tcp _ _) = ((λ h. cc), absurd)
mismatched (udp _ _) (udp _ _) = ((λ h. cc), absurd)
mismatched (other _) l = ((λ h. cc), absurd)
mismatched _ _ = ((λ h. tt), (λ h. refl))

-- `Format` panics exactly where the remote address is a TCP or a UDP address and the local one is
-- of another type.
format-eq-panic : (h : Header) → (format h ≡ panic) ↔ Mismatched h.remote_addr h.local_addr
unfolding format
format-eq-panic h = mismatched h.remote_addr h.local_addr
