-- ===== src/Proxy/Header.antt =====
-- proxy/header.go: the PROXY protocol version 2 header, read from a connection and written out.
pub mod Wire
pub mod Accepts
pub mod Faults
pub mod Tests
pub mod Reads
pub mod Partial
pub mod Extended
pub mod Bounds
pub mod Frames
pub mod Written
pub mod RoundTrip
use Prim.Native.Nat.{bit_or}
use go_listener.Common.{
  ℕ, ◌+◌, ◌*◌, ◌/◌, ◌%◌, ◌^◌, Bool, true, false, not, Option, none, some, List, [], ◌∷◌, ◌++◌, ltb,
  ◌==◌, if◌then◌else◌, length, set, replicate, Outcome, ok, err, panic, ◌>>=◌,
}
use go_listener.Common.Int.{ℤ, pos, uint16}
use go_listener.Common.Text.{Bytes, equal}
use go_listener.Net.{Addr, tcp, udp, other, to4, or_nil, slice, be_uint16, be_bytes, copy_into}
use go_listener.Net.Conn.{Conn, ReadError, Read, full, short, read_full}

abbrev pub protocol_signature : Bytes
protocol_signature =
    0x0D ∷ 0x0A ∷ 0x0D ∷ 0x0A ∷ 0x00 ∷ 0x0D ∷ 0x0A ∷ 0x51 ∷ 0x55 ∷ 0x49 ∷ 0x54 ∷ 0x0A ∷ []

abbrev pub protocol_version : ℕ
protocol_version = 2

abbrev command_local : ℕ
command_local = 0x00

abbrev command_proxy : ℕ
command_proxy = 0x01

abbrev pub family_unspecified : ℕ
family_unspecified = 0x00

abbrev pub family_tcp4 : ℕ
family_tcp4 = 0x11

abbrev pub family_udp4 : ℕ
family_udp4 = 0x12

abbrev pub family_tcp6 : ℕ
family_tcp6 = 0x21

abbrev pub family_udp6 : ℕ
family_udp6 = 0x22

pub record Header : Type 0 where
  pub remote_addr : Addr
  pub local_addr : Addr

-- The errors of `ReadHeader` and `parseProxyHeader`, one for each message.
pub data HeaderError : Type 0 where
  read_failed : ReadError → HeaderError
  not_proxied : HeaderError
  unsupported_version : HeaderError
  unsupported_command : ℕ → HeaderError
  too_short : ℕ → HeaderError  -- for the family given
  unsupported_family : ℕ → HeaderError

abbrev pub Try : Type 0 → Type 0
Try A = Outcome HeaderError A

-- `int(binary.BigEndian.Uint16(payload[lo:lo+2]))`
pub port_at : ℕ → Bytes → Try ℤ
port_at lo payload = do b ← slice lo (lo + 2) payload; v ← be_uint16 b; ok (pos v)

-- The two addresses of a payload with `size` bytes to an IP. `wrap` is the pointer type that the
-- case of the switch makes.
pub parse_addrs : (Bytes → ℤ → Addr) → ℕ → Bytes → Try Header
parse_addrs wrap size payload = do
  remote_ip ← slice 0 size payload
  remote_port ← port_at (2 * size) payload
  local_ip ← slice size (2 * size) payload
  local_port ← port_at (2 * size + 2) payload
  ok (record { remote_addr = wrap remote_ip remote_port; local_addr = wrap local_ip local_port })

unfoldable pub parse_proxy_header : ℕ → Bytes → Try Header
parse_proxy_header family payload =
    if family == family_tcp4
    then (if ltb (length payload) 12 then err (too_short family) else parse_addrs tcp 4 payload)
    else if family == family_udp4
    then (if ltb (length payload) 12 then err (too_short family) else parse_addrs udp 4 payload)
    else if family == family_tcp6
    then (if ltb (length payload) 36 then err (too_short family) else parse_addrs tcp 16 payload)
    else if family == family_udp6
    then (if ltb (length payload) 36 then err (too_short family) else parse_addrs udp 16 payload)
    else err (unsupported_family family)

-- The fields of the 16 bytes that stand in front of the payload. `x >> 4` is `x / 16`, `x & 0xF` is
-- `x % 16`.
pub record Preamble : Type 0 where
  pub signature : Bytes
  pub version : ℕ
  pub command : ℕ
  pub family : ℕ
  pub payload_length : ℕ

-- `b[i]`
pub index : ℕ → Bytes → Try ℕ
index i b = do s ← slice i (i + 1) b; elim s [ [] ↦ panic | x ∷ _ ↦ ok x ]

unfoldable pub split_preamble : Bytes → Try Preamble
unfolding index
split_preamble b = do
  signature ← slice 0 12 b
  b12 ← index 12 b
  b13 ← index 13 b
  tail ← slice 14 16 b
  length ← be_uint16 tail
  ok (record {
    signature = signature;
    version = b12 / 2 ^ 4;
    command = b12 % 2 ^ 4;
    family = b13;
    payload_length = length;
  })

-- The last switch of `ReadHeader`.
unfoldable pub run_command : Conn → Preamble → Bytes → Try Header
run_command c p payload =
    if p.command == command_local
    then ok (record { local_addr = c.local_addr; remote_addr = c.remote_addr })
    else if p.command == command_proxy
    then parse_proxy_header p.family payload
    else err (unsupported_command p.command)

-- The second half of `ReadHeader`, from the payload's buffer on.
pub read_payload : Preamble → Conn → Try Header × Conn
read_payload p c = elim (read_full p.payload_length c) [
  | short e c' ↦ (err (read_failed e), c')
  | full payload c' ↦ (run_command c' p payload, c')
]

-- The checks of `ReadHeader` on the preamble.
pub check_preamble : Try Preamble → Conn → Try Header × Conn
unfolding read_payload
check_preamble (err e) c = (err e, c)
check_preamble panic c = (panic, c)
check_preamble (ok p) c =
    if not (equal p.signature protocol_signature)
    then (err not_proxied, c)
    else if not (p.version == protocol_version)
    then (err unsupported_version, c)
    else read_payload p c

-- `ReadHeader`, with the connection as it leaves it.
unfoldable pub read_header : Conn → Try Header × Conn
unfolding check_preamble
read_header c = elim (read_full 16 c) [
  | short e c' ↦ (err (read_failed e), c')
  | full preamble c' ↦ check_preamble (split_preamble preamble) c'
]

-- `(protocolVersion << 4) | commandProxy`
abbrev version_and_command : ℕ
version_and_command = bit_or (protocol_version * 2 ^ 4) command_proxy

-- `binary.BigEndian.PutUint16(header[lo:lo+2], v)`
pub put_uint16 : ℕ → ℕ → Bytes → Bytes
put_uint16 lo v = copy_into lo (lo + 2) (be_bytes v)

-- The first five lines of `formatIPv4Header` and `formatIPv6Header`, which differ in the sizes.
pub start_header : ℕ → ℕ → ℕ → Bytes
unfolding copy_into put_uint16
start_header size family length =
    let h = copy_into 0 12 protocol_signature (replicate size 0) in
    let h = set h 12 version_and_command in let h = set h 13 family in put_uint16 14 length h

pub format_ipv4_header : ℕ → Bytes → Bytes → ℤ → ℤ → Bytes
format_ipv4_header family remote_ip local_ip remote_port local_port =
    let h = start_header 28 family 12 in
    let h = copy_into 16 20 (or_nil (to4 remote_ip)) h in
    let h = copy_into 20 24 (or_nil (to4 local_ip)) h in
    let h = put_uint16 24 (uint16 remote_port) h in put_uint16 26 (uint16 local_port) h

pub format_ipv6_header : ℕ → Bytes → Bytes → ℤ → ℤ → Bytes
format_ipv6_header family remote_ip local_ip remote_port local_port =
    let h = start_header 52 family 36 in
    let h = copy_into 16 32 remote_ip h in
    let h = copy_into 32 48 local_ip h in
    let h = put_uint16 48 (uint16 remote_port) h in put_uint16 50 (uint16 local_port) h

pub format_unspecified_header : Bytes
unfolding copy_into
format_unspecified_header =
    let h = copy_into 0 12 protocol_signature (replicate 16 0) in
    let h = set h 12 version_and_command in set h 13 family_unspecified

-- The test on `remoteAddr.IP.To4()` in two cases of `Format`, which differ in the families.
pub format_version : ℕ → ℕ → Bytes → Bytes → ℤ → ℤ → Bytes
format_version family4 family6 remote_ip local_ip remote_port local_port = elim (to4 remote_ip) [
  | some _ ↦ format_ipv4_header family4 remote_ip local_ip remote_port local_port
  | none ↦ format_ipv6_header family6 remote_ip local_ip remote_port local_port
]

-- `Header.Format`. A local address of another type than the remote one fails the type assertion.
pub format_addrs : Addr → Addr → Outcome (Unit {0}) Bytes
format_addrs (tcp remote_ip remote_port) (tcp local_ip local_port) =
    ok (format_version family_tcp4 family_tcp6 remote_ip local_ip remote_port local_port)
format_addrs (udp remote_ip remote_port) (udp local_ip local_port) =
    ok (format_version family_udp4 family_udp6 remote_ip local_ip remote_port local_port)
format_addrs (other _) _ = ok format_unspecified_header
format_addrs _ _ = panic

unfoldable pub format : Header → Outcome (Unit {0}) Bytes
format h = format_addrs h.remote_addr h.local_addr
