-- ===== src/Proxy/Listener/Forwarded.antt =====
-- proxy/listener.go, proxy/header.go and proxy/conn.go: connections from a proxy that writes headers with
-- `Format`.
use go_listener.Common.{
  ℕ, ◌≡◌, ◌≢◌, sym, ap, ◌∙◌, All, All-map, ok, err, length, ◌<◌, arith, refl, Outcome,
}
use mathlib.Core.Path.{subst, ap₂}
use go_listener.Common.Text.{Bytes}
use go_listener.Net.Conn.{Conn}
use go_listener.Proxy.Conn.{ProxyConn, as_conn, net_conn}
use go_listener.Proxy.Header.{Header, HeaderError, Try, format, read_header, run_command}
use go_listener.Proxy.Header.Wire.{wire, feed, read_header-wire}
use go_listener.Proxy.Header.RoundTrip.{IsFormattable, canonical, read_header-format}
use go_listener.Serve.{State, Steps}
use go_listener.Proxy.Listener
use go_listener.Proxy.Listener.Addresses.{
  IsRead, IsFault, IsReported, new_listener-IsRead, new_listener-IsReported,
}

ok-injective :
    {a b : Header} {c d : Conn} → Path (Try Header × Conn) (ok a, c) (ok b, d) → (a ≡ b) × (c ≡ d)
ok-injective {a} {b} h = (go (ap (λ r. r.0) h), ap (λ r. r.1) h)
  where
    go : Path (Try Header) (ok a) (ok b) → a ≡ b
    go q = cc

-- An error is not about a header.
abbrev pub IsElsewhere : Listener.Error → Type 0
IsElsewhere (Listener.of_handler e) = (x : HeaderError) → e.error ≢ Listener.bad_header x
IsElsewhere (Listener.of_inner e) = Unit

-- A connection with the addresses of a header in the place of its own.
abbrev addressed : Header → Conn → Conn
addressed h c = record c { local_addr = h.local_addr; remote_addr = h.remote_addr }

-- What a proxy writes in front of a connection: a header that `Format` made, where it forwards one, or a
-- header with the command LOCAL, of any family and payload, where it connects for itself.
pub data Sender : Type 0 where
  forwards : Header → Sender
  checks : (family : ℕ) (payload : Bytes) → Sender

-- A connection on which a sender's header arrives and then this stream.
abbrev pub Sends : Sender → Conn → Conn → Type 0
Sends (forwards h) stream client =
    IsFormattable h.remote_addr h.local_addr
    × ((b : Bytes) × (format h ≡ ok b) × (client ≡ feed b stream))
Sends (checks family payload) stream client =
    (length payload < 65536) × (client ≡ feed (wire 0 family payload) stream)

-- The header as it is read.
abbrev pub written : Sender → Conn → Header
written (forwards h) stream = canonical h.remote_addr h.local_addr
written (checks family payload) stream = record {
  local_addr = stream.local_addr;
  remote_addr = stream.remote_addr;
}

-- The connection that a program behind the listener works with.
abbrev pub seen : Sender → Conn → Conn
seen (forwards h) stream = addressed (canonical h.remote_addr h.local_addr) stream
seen (checks family payload) stream = stream

pub seen_lem : (s : Sender) (stream : Conn) → addressed (written s stream) stream ≡ seen s stream
seen_lem (forwards h) stream = refl
seen_lem (checks family payload) stream = refl

pub read_header-Sends :
    (s : Sender) (stream client : Conn)
    → Sends s stream client
    → read_header client ≡ (ok (written s stream), stream)
unfolding run_command
read_header-Sends (forwards h) stream client (f, (b, e, q)) =
    let (b', e', r) = read_header-format h stream f in
    let same : Path (Outcome (Unit {0}) Bytes) (ok b) (ok b') = sym e ∙ e' in
    let bytes : b ≡ b' = cc in ap read_header q ∙ ap (λ b. read_header (feed b stream)) bytes ∙ r
read_header-Sends (checks family payload) stream client (n, q) =
    ap read_header q ∙ read_header-wire 0 family payload stream (omega arith)

-- What is passed on of a connection whose header was read.
pub as_conn-seen :
    (s : Sender) (stream client : Conn) (p : ProxyConn)
    → Sends s stream client
    → read_header client
      ≡ (ok (record { local_addr = p.local_addr; remote_addr = p.remote_addr }), p.inner)
    → (as_conn p ≡ seen s stream) × (net_conn p ≡ stream)
unfolding as_conn net_conn
as_conn-seen s stream client p k r =
    let (h, rest) = ok-injective (sym r ∙ read_header-Sends s stream client k) in
    (ap₂ addressed h rest ∙ seen_lem s stream, rest)

module _ (sender : ℕ → Sender) (stream : ℕ → Conn) where
  -- A connection to pass on is the one that a program is to work with, and `NetConn` its stream.
  abbrev pub IsForwarded : Listener.Task → Type 0
  IsForwarded (Listener.sending_conn c p) =
      (as_conn p ≡ seen (sender c) (stream c)) × (net_conn p ≡ stream c)
  IsForwarded _ = Unit

module _ (sender : ℕ → Sender) (stream client : ℕ → Conn)
    (sends : (c : ℕ) → Sends (sender c) (stream c) (client c)) where
  read-client : (c : ℕ) → read_header (client c) ≡ (ok (written (sender c) (stream c)), stream c)
  read-client c = read_header-Sends (sender c) (stream c) (client c) (sends c)

  forwarded : (t : Listener.Task) → IsRead client t → IsForwarded sender stream t
  forwarded (Listener.sending_conn c p) i =
      as_conn-seen (sender c) (stream c) (client c) p (sends c) i
  forwarded Listener.accepting i = tt
  forwarded (Listener.sending_error e) i = tt
  forwarded (Listener.starting c) i = tt
  forwarded (Listener.reading c) i = tt
  forwarded (Listener.clearing c h r) i = tt
  forwarded (Listener.reporting e) i = tt

  elsewhere : (e : Listener.Error) → IsReported client e → IsElsewhere e
  unfolding IsReported
  elsewhere (Listener.of_inner e) i = tt
  elsewhere (Listener.of_handler e) i = λ x q.
      let (c, rest, r) = subst (IsFault client) q i.2 in
      let never : Path (Try Header) (err x) (ok (written (sender c) (stream c))) =
        ap (λ r. r.0) (sym r ∙ read-client c) in
      cc

  -- If what arrives on each connection is a header and then a stream, where the header is one that
  -- `Format` wrote for two TCP or two UDP addresses of one IP version, with ports of 16 bits, or has
  -- the command LOCAL with any family and payload: in every run of a PROXY listener, each connection
  -- that a handler is about to pass to a caller of `Accept` is, for its methods, the stream with the
  -- addresses of the header (an IPv4 address in its 4-byte form), or the stream itself for LOCAL; its
  -- `NetConn` is the stream; and no error that `Accept` returned is about a header.
  pub new_listener-forwards :
      (s : State Listener.Task Listener.Error)
      → Steps (Listener.routines client) Listener.new_listener s
      → All (IsForwarded sender stream) s.tasks × All IsElsewhere s.errors
  new_listener-forwards s xs = (
    All-map (IsRead client) (IsForwarded sender stream) forwarded s.tasks
        (new_listener-IsRead client s xs),
    All-map (IsReported client) IsElsewhere elsewhere s.errors
        (new_listener-IsReported client s xs),
  )
