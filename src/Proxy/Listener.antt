-- ===== src/Proxy/Listener.antt =====
-- proxy/listener.go and proxy/error.go: the listener that reads a header from each connection.
pub mod Runs
pub mod Addresses
pub mod Forwarded
use go_listener.Common.{
  ℕ, zero, suc, ◌+◌, ◌<◌, ◌≡◌, refl, arith, Bool, true, false, List, [], ◌∷◌, ◌++◌, ok, err,
}
use go_listener.Net.Conn.{Conn}
use go_listener.Proxy.Conn.{ProxyConn}
use go_listener.Proxy.Header.{Header, HeaderError, read_header}
use go_listener.Serve.{occurs, Effect, held, total, Routines, State, new_state}

-- What a handler reports: an error of `SetReadDeadline`, of the connection while `ReadHeader` reads, as
-- at the read deadline, or of `ReadHeader` on what arrived.
pub data Fault : Type 0 where
  deadline_failed conn_failed : ℕ → Fault
  bad_header : HeaderError → Fault

-- `acceptError`
pub record AcceptError : Type 0 where
  pub error : Fault
  pub temporary : Bool

-- Its methods.
unfoldable pub is_temporary : AcceptError → Bool
is_temporary e = e.temporary

unfoldable pub is_timeout : AcceptError → Bool
is_timeout e = false

-- An error that `Accept` returns: one of the inner listener, or of a handler.
pub data Error : Type 0 where
  of_inner : ℕ → Error
  of_handler : AcceptError → Error

-- Where `handleAccepts` or a `handleConnection` stands. One that returned is gone from the state.
pub data Task : Type 0 where
  accepting : Task  -- at `inner.Accept()`
  sending_error : ℕ → Task  -- `handleAccepts` at the `select` of `sendError`
  starting : ℕ → Task  -- at the first `SetReadDeadline`
  reading : ℕ → Task  -- at `ReadHeader`
  clearing : ℕ → Header → Conn → Task  -- at the second `SetReadDeadline`
  sending_conn : ℕ → ProxyConn → Task  -- at the `select` of `sendConn`
  reporting : AcceptError → Task  -- at the `select` of `sendError`, with the connection closed

abbrev quiet : List Task → Effect Task Error
quiet ts = record { tasks = ts; accepted = []; delivered = []; closed = []; errors = [] }

-- `conn.Close()` and then `sendError`
abbrev refuse : ℕ → Fault → Effect Task Error
refuse c fault = record {
  tasks = reporting (record { error = fault; temporary = true }) ∷ [];
  accepted = [];
  delivered = [];
  closed = c ∷ [];
  errors = [];
}

-- The steps of both functions, where `client` is what arrives on each connection. Reading can fail on
-- every one, at the read deadline. In a `select` either channel may be ready, `done` once `Close` ran.
pub data Move (client : ℕ → Conn) : Bool → Task → Effect Task Error → Type 0 where
  accept_closed : (done : Bool) → Move client done accepting (quiet [])
  accept_error : (done : Bool) (e : ℕ) → Move client done accepting (quiet (sending_error e ∷ []))
  accept_conn :
      (done : Bool) (c : ℕ)
      → Move client done accepting (record {
        tasks = accepting ∷ starting c ∷ [];
        accepted = c ∷ [];
        delivered = [];
        closed = [];
        errors = [];
      })
  error_sent :
      (done : Bool) (e : ℕ)
      → Move client done (sending_error e) (record {
        tasks = accepting ∷ [];
        accepted = [];
        delivered = [];
        closed = [];
        errors = of_inner e ∷ [];
      })
  error_not_sent : (e : ℕ) → Move client true (sending_error e) (quiet [])
  deadline_set : (done : Bool) (c : ℕ) → Move client done (starting c) (quiet (reading c ∷ []))
  deadline_fails :
      (done : Bool) (c e : ℕ) → Move client done (starting c) (refuse c (deadline_failed e))
  header_read :
      (done : Bool) (c : ℕ) (h : Header) (rest : Conn)
      → read_header (client c) ≡ (ok h, rest)
      → Move client done (reading c) (quiet (clearing c h rest ∷ []))
  header_fails :
      (done : Bool) (c : ℕ) (x : HeaderError) (rest : Conn)
      → read_header (client c) ≡ (err x, rest)
      → Move client done (reading c) (refuse c (bad_header x))
  read_fails : (done : Bool) (c e : ℕ) → Move client done (reading c) (refuse c (conn_failed e))
  deadline_cleared :
      (done : Bool) (c : ℕ) (h : Header) (rest : Conn)
      → Move client done (clearing c h rest) (
          quiet (
            sending_conn c
              (record { inner = rest; local_addr = h.local_addr; remote_addr = h.remote_addr })
            ∷ []))
  clear_fails :
      (done : Bool) (c e : ℕ) (h : Header) (rest : Conn)
      → Move client done (clearing c h rest) (refuse c (deadline_failed e))
  conn_sent :
      (done : Bool) (c : ℕ) (p : ProxyConn)
      → Move client done
          (sending_conn c p)
          (record { tasks = []; accepted = []; delivered = c ∷ []; closed = []; errors = [] })
  conn_not_sent :
      (c : ℕ) (p : ProxyConn)
      → Move client true
          (sending_conn c p)
          (record { tasks = []; accepted = []; delivered = []; closed = c ∷ []; errors = [] })
  reported :
      (done : Bool) (e : AcceptError)
      → Move client done (reporting e) (record {
        tasks = [];
        accepted = [];
        delivered = [];
        closed = [];
        errors = of_handler e ∷ [];
      })
  not_reported : (e : AcceptError) → Move client true (reporting e) (quiet [])

abbrev pub holds : Task → List ℕ
holds (starting c) = c ∷ []
holds (reading c) = c ∷ []
holds (clearing c _ _) = c ∷ []
holds (sending_conn c _) = c ∷ []
holds _ = []

abbrev pub measure : Task → ℕ
measure (starting c) = 4
measure (reading c) = 3
measure (clearing c _ _) = 2
measure (sending_error e) = 2
measure _ = 1

pub conserves :
    (client : ℕ → Conn) (done : Bool) (t : Task) (e : Effect Task Error)
    → Move client done t e
    → (c : ℕ)
    → occurs c (holds t) + occurs c e.accepted
      ≡ occurs c (held holds e.tasks) + occurs c e.delivered + occurs c e.closed
unfolding occurs held
conserves _ _ _ _ (accept_closed done) c = omega arith
conserves _ _ _ _ (accept_error done e) c = omega arith
conserves _ _ _ _ (accept_conn done x) c = omega arith
conserves _ _ _ _ (error_sent done e) c = omega arith
conserves _ _ _ _ (error_not_sent e) c = omega arith
conserves _ _ _ _ (deadline_set done x) c = omega arith
conserves _ _ _ _ (deadline_fails done x e) c = omega arith
conserves _ _ _ _ (header_read done x h r q) c = omega arith
conserves _ _ _ _ (header_fails done x y r q) c = omega arith
conserves _ _ _ _ (read_fails done x e) c = omega arith
conserves _ _ _ _ (deadline_cleared done x h r) c = omega arith
conserves _ _ _ _ (clear_fails done x e h r) c = omega arith
conserves _ _ _ _ (conn_sent done x p) c = omega arith
conserves _ _ _ _ (conn_not_sent x p) c = omega arith
conserves _ _ _ _ (reported done e) c = omega arith
conserves _ _ _ _ (not_reported e) c = omega arith

-- The read deadline, a minute away, ends a `ReadHeader` without the client, with an error.
pub ends :
    (client : ℕ → Conn) (t : Task)
    → (e : Effect Task Error) × Move client true t e
      × (total measure e.tasks < measure t)
      × (e.delivered ≡ [])
      × (e.accepted ≡ [])
      × (e.errors ≡ [])
unfolding total
ends _ accepting = (_, accept_closed true, omega arith, refl, refl, refl)
ends _ (sending_error e) = (_, error_not_sent e, omega arith, refl, refl, refl)
ends _ (starting c) = (_, deadline_set true c, omega arith, refl, refl, refl)
ends _ (reading c) = (_, read_fails true c 0, omega arith, refl, refl, refl)
ends _ (clearing c h r) = (_, deadline_cleared true c h r, omega arith, refl, refl, refl)
ends _ (sending_conn c p) = (_, conn_not_sent c p, omega arith, refl, refl, refl)
ends _ (reporting e) = (_, not_reported e, omega arith, refl, refl, refl)

abbrev pub routines : (ℕ → Conn) → Routines
routines client = record {
  Task = Task;
  Error = Error;
  Move = Move client;
  holds = holds;
  measure = measure;
  conserves = conserves client;
  ends = ends client;
}

-- `NewListener`
abbrev pub new_listener : State Task Error
new_listener = new_state (accepting ∷ [])
