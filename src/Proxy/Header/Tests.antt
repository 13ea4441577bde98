-- ===== src/Proxy/Header/Tests.antt =====
-- The header code on bytes as a proxy sends them, and the theorems at concrete inputs.
use go_listener.Common.{ℕ, [], ◌∷◌, ◌++◌, ◌≡◌, ◌⊎◌, refl, ok, err, panic, inl, arith, replicate}
use go_listener.Common.Int.{pos, uint16}
use go_listener.Common.Text.{Bytes, equal}
use go_listener.Net.{tcp, udp, other, to4, slice, be_uint16, copy_into}
use go_listener.Net.Conn.{Conn, ReadEnd, ReadError, read_full}
use go_listener.Proxy.Header.{
  Header, format, format_addrs, format_version, format_ipv4_header, start_header, put_uint16,
  read_header, check_preamble, read_payload, run_command, split_preamble, index, parse_proxy_header,
  parse_addrs, port_at, not_proxied, read_failed, unsupported_family, too_short,
}
use go_listener.Proxy.Header.Wire.{wire, feed}
use go_listener.Proxy.Header.RoundTrip.{read_header-format, canonical}
use go_listener.Proxy.Header.Accepts.{read_header-eq-ok, Means}
use go_listener.Proxy.Header.Written.{format-IsWire, IsSize, IsAnswered}
use go_listener.Proxy.Header.Frames.{IsWire}
use go_listener.Proxy.Header.Faults.{Mismatched}

-- A connection that has sent `b` and is then closed.
abbrev pub sent : Bytes → Conn
sent b = record { input = b; ends = ReadEnd.eof; local_addr = other 1; remote_addr = other 2 }

abbrev pub client : Header
client = record {
  remote_addr = tcp (1 ∷ 2 ∷ 3 ∷ 4 ∷ []) (pos 4660);
  local_addr = tcp (10 ∷ 0 ∷ 0 ∷ 1 ∷ []) (pos 443);
}

abbrev pub client_bytes : Bytes
client_bytes =
    0x0D ∷ 0x0A ∷ 0x0D ∷ 0x0A ∷ 0x00 ∷ 0x0D ∷ 0x0A ∷ 0x51 ∷ 0x55 ∷ 0x49 ∷ 0x54 ∷ 0x0A ∷ 0x21 ∷ 0x11
    ∷ 0 ∷ 12 ∷ 1 ∷ 2 ∷ 3 ∷ 4 ∷ 10 ∷ 0 ∷ 0 ∷ 1 ∷ 0x12 ∷ 0x34 ∷ 1 ∷ 187 ∷ []

pub format-client : format client ≡ ok client_bytes
unfolding format format_addrs format_version format_ipv4_header start_header put_uint16 copy_into
    uint16 to4
format-client = refl

abbrev pub client_payload : Bytes
client_payload = 1 ∷ 2 ∷ 3 ∷ 4 ∷ 10 ∷ 0 ∷ 0 ∷ 1 ∷ 0x12 ∷ 0x34 ∷ 1 ∷ 187 ∷ []

pub parse-client : parse_proxy_header 0x11 client_payload ≡ ok client
unfolding parse_proxy_header parse_addrs port_at slice be_uint16
parse-client = refl

pub read-client :
    read_header (sent (client_bytes ++ 71 ∷ 69 ∷ [])) ≡ (ok client, sent (71 ∷ 69 ∷ []))
unfolding read_header check_preamble read_payload run_command split_preamble index
    parse_proxy_header parse_addrs port_at read_full slice be_uint16 equal
read-client = refl

read_errors :
    ((read_header (sent [])).0 ≡ err (read_failed ReadError.eof))
    × ((read_header (sent (0x0D ∷ []))).0 ≡ err (read_failed ReadError.unexpected_eof))
    × ((read_header (sent (replicate 20 71))).0 ≡ err not_proxied)
    × ((read_header (sent (wire 1 0x11 (replicate 11 0)))).0 ≡ err (too_short 0x11))
    × ((read_header (sent (wire 1 0x31 []))).0 ≡ err (unsupported_family 0x31))
unfolding read_header check_preamble read_payload run_command split_preamble index
    parse_proxy_header parse_addrs port_at read_full slice be_uint16 equal
read_errors = (refl, refl, refl, refl, refl)

-- An IPv4 address in its 16-byte form is written, and read back, in 4 bytes.
abbrev mapped : Header
mapped = record {
  remote_addr = udp (replicate 10 0 ++ 0xff ∷ 0xff ∷ 1 ∷ 2 ∷ 3 ∷ 4 ∷ []) (pos 65535);
  local_addr = udp (9 ∷ 8 ∷ 7 ∷ 6 ∷ []) (pos 0);
}

read_header-format_example :
    (b : Bytes) × (format mapped ≡ ok b)
    × (read_header (feed b (sent (1 ∷ [])))
        ≡ (ok (canonical mapped.remote_addr mapped.local_addr), sent (1 ∷ [])))
unfolding to4 equal
read_header-format_example =
    read_header-format mapped (sent (1 ∷ [])) (omega arith, omega arith, inl (_, _, refl, refl))

read_header-eq-ok_example :
    (command : ℕ) × (family : ℕ) × (payload : Bytes) × (sent (client_bytes ++ 71 ∷ [])
      ≡ feed (wire command family payload) (sent (71 ∷ [])))
    × Means command family payload (sent (71 ∷ [])) client
unfolding read_header check_preamble read_payload run_command split_preamble index
    parse_proxy_header parse_addrs port_at read_full slice be_uint16 equal
read_header-eq-ok_example =
    read_header-eq-ok (sent (client_bytes ++ 71 ∷ [])) (sent (71 ∷ [])) client (omega arith) refl

-- The addresses of a UNIX socket.
abbrev unspecified : Header
unspecified = record { remote_addr = other 3; local_addr = other 4 }

format-IsWire_example :
    ((format unspecified ≡ panic) × Mismatched (other 3) (other 4))
    ⊎ ((¬ Mismatched (other 3) (other 4))
        × (b : Bytes) × (n : ℕ) × (family : ℕ) × (format unspecified ≡ ok b)
        × IsWire n family b
        × IsSize (other 3) n family
        × IsAnswered (other 3) b (sent []))
format-IsWire_example = format-IsWire unspecified (sent [])
