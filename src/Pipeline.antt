-- ===== src/Pipeline.antt =====
-- proxy/listener.go, proxy/conn.go and tls/listener.go: the layers of an open listener at work, one on
-- another.
pub mod Exact
pub mod Opened
use go_listener.Common.{ℕ, ◌<◌, ◌≡◌, List, ◌∷◌, ◌++◌}
use go_listener.Net.Conn.{Conn}
use go_listener.System.{
  Listener, net_listener, watched_listener, proxy_listener, tls_listener, TlsConfig,
}
use go_listener.Proxy.Conn.{ProxyConn, as_conn}
use go_listener.Proxy.Listener
use go_listener.Proxy.Listener.Forwarded.{Sender, Sends, seen}
use go_listener.Serve.{occurs, State, Steps}

-- `tls.Server` is a parameter: the connection that it makes of another one.
module _ (server : TlsConfig → Conn → Conn) where
  -- What may come from a caller of `Accept` as a connection, where `client` arrives on the socket. A
  -- PROXY listener is in some run in which the connections that it accepted are such ones of its inner
  -- listener, with a handler about to pass this one on.
  abbrev pub Passes : (ℕ → Conn) → Listener → ℕ → Conn → Type 0
  Passes client (net_listener h bound) c conn = conn ≡ client c
  Passes client (watched_listener h path) c conn = conn ≡ client c
  Passes client (proxy_listener l) c conn =
      (inner : ℕ → Conn) × (s : State Listener.Task Listener.Error) × Steps
        (Listener.routines inner) Listener.new_listener s
      × ((k : ℕ) → 0 < occurs k s.accepted → Passes client l k (inner k))
      × (p : ProxyConn) × (before : List Listener.Task) × (after : List Listener.Task) × (s.tasks
          ≡ before ++ Listener.sending_conn c p ∷ after)
      × (conn ≡ as_conn p)
  Passes client (tls_listener config l) c conn =
      (under : Conn) × Passes client l c under × (conn ≡ server config under)

  -- A connection with a header for each PROXY listener in front of its data, the outermost last, and
  -- what is to be seen of it.
  abbrev pub Carries : Listener → Conn → Conn → Type 0
  Carries (net_listener h bound) raw conn = conn ≡ raw
  Carries (watched_listener h path) raw conn = conn ≡ raw
  Carries (proxy_listener l) raw conn =
      (sender : Sender) × (stream : Conn) × (under : Conn) × Carries l raw under
      × Sends sender stream under
      × (conn ≡ seen sender stream)
  Carries (tls_listener config l) raw conn =
      (under : Conn) × Carries l raw under × (conn ≡ server config under)
