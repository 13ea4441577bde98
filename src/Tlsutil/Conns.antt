-- ===== src/Tlsutil/Conns.antt =====
-- tlsutil/hello.go: `readOnlyConn` and `peekedConn`, for code that does more to a connection than read.
use go_listener.Common.{
  ℕ, ◌≡◌, refl, ap, ◌∙◌, Bool, true, false, ◌&&◌, Option, [], ◌++◌, length, Outcome, ok, err,
}
use mathlib.Core.List.{append_assoc}
use go_listener.Common.Text.{Bytes, is_empty}
use go_listener.Tlsutil.{
  Reading, finished, read, Reader, multi_read, peek_client_hello, run_tee-content,
  multi_read-content,
}

-- What the model keeps of a `net.Conn`: what arrives, what was written, whether it is closed, and its
-- deadline.
pub record Conn : Type 0 where
  pub reader : Reader
  pub written : Bytes
  pub closed : Bool
  pub deadline : Option ℕ

pub data WriteError : Type 0 where
  closed_pipe : WriteError  -- `io.ErrClosedPipe`
  use_of_closed : WriteError  -- `net.ErrClosed`

-- What uses a connection and ends with a result. It goes on with what a read or a write returned.
pub data Using {ℓ} (A : Type ℓ) : Type ℓ where
  done : A → Using A
  reads : ℕ → (Bytes → Using A) → Using A
  writes : Bytes → (Outcome WriteError ℕ → Using A) → Using A
  closes : Using A → Using A
  sets_deadline : Option ℕ → Using A → Using A

-- The methods of `readOnlyConn`: `Read` passes on, `Write` fails, and the others do nothing.
read_only {ℓ} : {A : Type ℓ} → Using A → Reading A
read_only (done a) = finished a
read_only (reads n k) = read n (λ b. read_only (k b))
read_only (writes b k) = read_only (k (err closed_pipe))
read_only (closes u) = read_only u
read_only (sets_deadline t u) = read_only u

-- `peekedConn`: the connection, with the bytes peeked at that were not read yet.
pub record PeekedConn : Type 0 where
  pub conn : Conn
  pub peeked : Bytes

-- `PeekClientHelloFromConn`
unfoldable pub peek_client_hello_from_conn :
    {Hello Error : Type 0} → Using (Option Hello × Error) → Conn → Outcome Error Hello × PeekedConn
unfolding peek_client_hello read_only
peek_client_hello_from_conn handshake conn =
    let (hello, (peeked, reader)) = peek_client_hello (read_only handshake) conn.reader in
    (hello, record { conn = record conn { reader = reader }; peeked = peeked })

-- `Write` of a `net.Conn`
write_on : Bool → Bytes → Conn → Outcome WriteError ℕ × Conn
write_on true b c = (err use_of_closed, c)
write_on false b c = (ok (length b), record c { written = c.written ++ b })

-- `Read` of a `peekedConn`, which is that of the reader that `PeekClientHello` returned. It gets
-- nothing from a closed connection behind what was peeked at.
read_on : Bool → ℕ → PeekedConn → Bytes × PeekedConn
unfolding multi_read
read_on true n p = ([], p)
read_on false n p =
    let (b, (peeked, reader)) = multi_read n (p.peeked, p.conn.reader) in
    (b, record { conn = record (p.conn) { reader = reader }; peeked = peeked })

read_peeked : ℕ → PeekedConn → Bytes × PeekedConn
unfolding read_on
read_peeked n p = read_on (p.conn.closed && is_empty p.peeked) n p

abbrev on_conn : (Conn → Conn) → PeekedConn → PeekedConn
on_conn f p = record p { conn = f p.conn }

-- What uses a `peekedConn`, whose other methods are those of the connection: the bytes that it got,
-- and the connection then.
unfoldable pub use_peeked {ℓ} : {A : Type ℓ} → Using A → PeekedConn → Bytes × PeekedConn
unfolding read_peeked write_on
use_peeked (done a) p = ([], p)
use_peeked (reads n k) p =
    let (b, p') = read_peeked n p in let (bs, p'') = use_peeked (k b) p' in (b ++ bs, p'')
use_peeked (writes b k) p =
    let (r, c) = write_on p.conn.closed b p.conn in use_peeked (k r) (on_conn (λ _. c) p)
use_peeked (closes u) p = use_peeked u (on_conn (λ c. record c { closed = true }) p)
use_peeked (sets_deadline t u) p = use_peeked u (on_conn (λ c. record c { deadline = t }) p)

abbrev holds : PeekedConn → Bytes
holds p = p.peeked ++ p.conn.reader.input

write_on-reader : (w : Bool) (b : Bytes) (c : Conn) → (write_on w b c).1.reader ≡ c.reader
unfolding write_on
write_on-reader true b c = refl
write_on-reader false b c = refl

read_on-holds :
    (w : Bool) (n : ℕ) (p : PeekedConn) → (read_on w n p).0 ++ holds (read_on w n p).1 ≡ holds p
unfolding read_on
read_on-holds true n p = refl
read_on-holds false n p = multi_read-content n (p.peeked, p.conn.reader)

use_peeked-holds {ℓ} :
    {A : Type ℓ} (u : Using A) (p : PeekedConn)
    → (use_peeked u p).0 ++ holds (use_peeked u p).1 ≡ holds p
unfolding use_peeked read_peeked
use_peeked-holds (done a) p = refl
use_peeked-holds (reads n k) p =
    append_assoc (read_peeked n p).0 (use_peeked (k (read_peeked n p).0) (read_peeked n p).1).0 _
    ∙ ap (◌++◌ (read_peeked n p).0) (use_peeked-holds (k (read_peeked n p).0) (read_peeked n p).1)
    ∙ read_on-holds (p.conn.closed && is_empty p.peeked) n p
use_peeked-holds (writes b k) p =
    use_peeked-holds (k (write_on p.conn.closed b p.conn).0)
      (on_conn (λ _. (write_on p.conn.closed b p.conn).1) p)
    ∙ ap (λ r. p.peeked ++ r.input) (write_on-reader p.conn.closed b p.conn)
use_peeked-holds (closes u) p = use_peeked-holds u (on_conn (λ c. record c { closed = true }) p)
use_peeked-holds (sets_deadline t u) p =
    use_peeked-holds u (on_conn (λ c. record c { deadline = t }) p)

-- Whatever the handshake does, reads, writes, closing and deadlines, in whatever pieces the bytes
-- arrive, and whether a hello is found or not: nothing was written to the connection, and it is as
-- open and has the deadline that it had; and whatever then uses the connection that
-- `PeekClientHelloFromConn` returns gets the bytes of the original one from the start.
pub peek_client_hello_from_conn-untouched {ℓ} :
    {Hello Error : Type 0} {A : Type ℓ} (handshake : Using (Option Hello × Error))
    (server : Using A) (c : Conn)
    → let p = (peek_client_hello_from_conn handshake c).1 in
      let after = use_peeked server p in
      (p.conn ≡ record c { reader = p.conn.reader })
      × (after.0 ++ (after.1.peeked ++ after.1.conn.reader.input) ≡ c.reader.input)
unfolding peek_client_hello_from_conn peek_client_hello
peek_client_hello_from_conn-untouched handshake server c = (
  refl,
  use_peeked-holds server (peek_client_hello_from_conn handshake c).1
      ∙ run_tee-content (read_only handshake) ([], c.reader),
)
