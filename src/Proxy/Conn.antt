-- ===== src/Proxy/Conn.antt =====
-- proxy/conn.go: a connection with the addresses of its header.
use go_listener.Net.{Addr}
use go_listener.Net.Conn.{Conn}

-- `proxyConn`
pub record ProxyConn : Type 0 where
  pub inner : Conn
  pub local_addr : Addr
  pub remote_addr : Addr

-- The connection that its methods make of it: `LocalAddr` and `RemoteAddr` return the fields, and all
-- other methods are those of the embedded connection.
unfoldable pub as_conn : ProxyConn → Conn
as_conn p = record (p.inner) { local_addr = p.local_addr; remote_addr = p.remote_addr }

-- `NetConn`
unfoldable pub net_conn : ProxyConn → Conn
net_conn p = p.inner
