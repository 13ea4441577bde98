-- ===== src/Proxy/Listener/Addresses.antt =====
-- proxy/listener.go: the addresses of the connections that are passed on.
use go_listener.Common.{ℕ, ◌≡◌, Bool, true, false, All, ok, err, refl}
use go_listener.Net.Conn.{Conn}
use go_listener.Proxy.Header.{read_header}
use go_listener.Serve.{Effect, State, Steps}
use go_listener.Serve.Invariant.{Steps-All}
use go_listener.Proxy.Listener
use go_listener.Proxy.Listener.{is_temporary, is_timeout}

-- A fault of a header is the one that `ReadHeader` found in what arrived on a connection.
abbrev pub IsFault : (ℕ → Conn) → Listener.Fault → Type 0
IsFault client (Listener.bad_header x) =
    (c : ℕ) × (rest : Conn) × (read_header (client c) ≡ (err x, rest))
IsFault client _ = Unit

-- A connection to pass on, with the addresses that `ReadHeader` returned for it, behind its header.
abbrev pub IsRead : (ℕ → Conn) → Listener.Task → Type 0
IsRead client (Listener.clearing c h rest) = read_header (client c) ≡ (ok h, rest)
IsRead client (Listener.sending_conn c p) =
    read_header (client c)
    ≡ (ok (record { local_addr = p.local_addr; remote_addr = p.remote_addr }), p.inner)
IsRead client (Listener.reporting e) = (e.temporary ≡ true) × IsFault client e.error
IsRead client _ = Unit

-- An error that `Accept` returns: one of the inner listener, or a temporary one of a handler.
unfoldable pub IsReported : (ℕ → Conn) → Listener.Error → Type 0
unfolding is_temporary is_timeout
IsReported client (Listener.of_inner e) = Unit
IsReported client (Listener.of_handler e) =
    (is_temporary e ≡ true) × (is_timeout e ≡ false) × IsFault client e.error

keeps :
    (client : ℕ → Conn) (done : Bool) (t : Listener.Task) (e : Effect Listener.Task Listener.Error)
    → Listener.Move client done t e
    → IsRead client t
    → All (IsRead client) e.tasks × All (IsReported client) e.errors
unfolding IsReported
keeps _ _ _ _ (Listener.header_read done c h rest q) i = ((q, tt), tt)
keeps _ _ _ _ (Listener.deadline_cleared done c h rest) i = ((i, tt), tt)
keeps _ _ _ _ (Listener.accept_closed done) i = (tt, tt)
keeps _ _ _ _ (Listener.accept_error done e) i = ((tt, tt), tt)
keeps _ _ _ _ (Listener.accept_conn done c) i = ((tt, (tt, tt)), tt)
keeps _ _ _ _ (Listener.error_sent done e) i = ((tt, tt), (tt, tt))
keeps _ _ _ _ (Listener.error_not_sent e) i = (tt, tt)
keeps _ _ _ _ (Listener.deadline_set done c) i = ((tt, tt), tt)
keeps _ _ _ _ (Listener.deadline_fails done c e) i = (((refl, tt), tt), tt)
keeps _ _ _ _ (Listener.header_fails done c x rest q) i = (((refl, (c, rest, q)), tt), tt)
keeps _ _ _ _ (Listener.read_fails done c e) i = (((refl, tt), tt), tt)
keeps _ _ _ _ (Listener.clear_fails done c e h rest) i = (((refl, tt), tt), tt)
keeps _ _ _ _ (Listener.conn_sent done c p) i = (tt, tt)
keeps _ _ _ _ (Listener.conn_not_sent c p) i = (tt, tt)
keeps _ _ _ _ (Listener.reported done e) i = (tt, ((i.0, refl, i.1), tt))
keeps _ _ _ _ (Listener.not_reported e) i = (tt, tt)

-- In every run of a PROXY listener: each connection that a handler is about to pass to a caller of
-- `Accept` has the two addresses that `ReadHeader` returned for what arrived on that connection, and
-- its first byte is the one behind the header; and each error that `Accept` returned is one of the
-- inner listener or one of a handler, which is temporary, is not a timeout, and where it is about a
-- header, is the error that `ReadHeader` returned for what arrived on some connection.
pub new_listener-relays :
    (client : ℕ → Conn) (s : State Listener.Task Listener.Error)
    → Steps (Listener.routines client) Listener.new_listener s
    → All (IsRead client) s.tasks × All (IsReported client) s.errors
new_listener-relays client s xs =
    Steps-All (Listener.routines client) (IsRead client) (IsReported client) (keeps client)
      Listener.new_listener s xs ((tt, tt), tt)

pub new_listener-IsRead :
    (client : ℕ → Conn) (s : State Listener.Task Listener.Error)
    → Steps (Listener.routines client) Listener.new_listener s
    → All (IsRead client) s.tasks
new_listener-IsRead client s xs = (new_listener-relays client s xs).0

pub new_listener-IsReported :
    (client : ℕ → Conn) (s : State Listener.Task Listener.Error)
    → Steps (Listener.routines client) Listener.new_listener s
    → All (IsReported client) s.errors
new_listener-IsReported client s xs = (new_listener-relays client s xs).1
