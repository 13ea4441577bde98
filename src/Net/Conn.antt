-- ===== src/Net/Conn.antt =====
-- A `net.Conn` as its reader sees it, and `io.ReadFull`.
use go_listener.Common.{ℕ, [], leb, if◌then◌else◌, length, take, drop, ◌≡◌, refl, ◌⊎◌, inl, inr}
use go_listener.Common.Text.{Bytes, is_empty}
use go_listener.Net.{Addr}

-- What `Read` returns once the bytes that arrive have been read.
pub data ReadEnd : Type 0 where
  eof : ReadEnd
  failed : ℕ → ReadEnd  -- any other error: a timeout, a reset

pub record Conn : Type 0 where
  pub input : Bytes
  pub ends : ReadEnd
  pub local_addr : Addr
  pub remote_addr : Addr

pub data ReadError : Type 0 where
  eof unexpected_eof : ReadError
  failed : ℕ → ReadError

-- `io.ReadFull` turns `io.EOF` after some bytes into `io.ErrUnexpectedEOF`.
abbrev pub short_read : ReadEnd → Bytes → ReadError
short_read ReadEnd.eof got = if is_empty got then ReadError.eof else unexpected_eof
short_read (ReadEnd.failed e) got = ReadError.failed e

pub data Read : Type 0 where
  full : Bytes → Conn → Read
  short : ReadError → Conn → Read

-- `io.ReadFull(conn, buf)` for a buffer of `n` bytes. It reads nothing for an empty buffer.
unfoldable pub read_full : ℕ → Conn → Read
read_full n c =
    if leb n (length c.input)
    then full (take n c.input) (record c { input = drop n c.input })
    else short (short_read c.ends c.input) (record c { input = [] })

pub Read-cases :
    (r : Read)
    → ((e : ReadError) × (c : Conn) × (r ≡ short e c)) ⊎ ((b : Bytes) × (c : Conn) × (r ≡ full b c))
Read-cases (short e c) = inl (e, c, refl)
Read-cases (full b c) = inr (b, c, refl)
