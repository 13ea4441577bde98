-- ===== src/Builtin/Types.antt =====
-- builtin.go: the dynamic types of the listeners that the openers make.
use go_listener.Common.{ℕ, Option, none, some, ◌^◌, ltb, if◌then◌else◌}
use go_listener.Common.Text.{Bytes, codes, is_empty, split}
use go_listener.Common.Strconv.{parse_uint, atoi}
use go_listener.Json.{Fields, get, as_object}
use go_listener.System.{
  Listener, net_listener, watched_listener, proxy_listener, tls_listener, bound_tcp, bound_fd, M,
  Env, OpenError, open_socket, syscall,
}
use go_listener.System.Yields.{
  Yields, fail-Yields, bind-Yields, map-Yields, Option-Yields, if-Yields,
}
use go_listener.Registry.{
  OpenListenerFunc, open_fd, open_fdname, open_tcp, open_unix, open_proxy, open_https, custom,
}
use go_listener.Unix.{
  listen, make_temp_dir, bind_socket, protect, identify, install, or_cleanup, cleanup, remove,
  listen_unix, temp_path, set_mode,
}
use go_listener.Builtin.{
  open_fd_listener, open_fd_string, open_file, listen_file, with_closed, open_fdname_listener,
  open_fd_named, check_listen_pid, find_name, open_tcp_listener, listen_tcp, TcpArgs, tcp_args,
  bad_args, resolve, tcp_params, tcp_argument, open_unix_listener, open_unix_path,
  open_proxy_listener, open_inner_json,
}

-- The listeners that an opener makes.
abbrev pub HasType : OpenListenerFunc → Listener → Type 0
HasType open_fd (net_listener h (bound_fd n)) = Unit
HasType open_fdname (net_listener h (bound_fd n)) = Unit
HasType open_tcp (net_listener h (bound_tcp network ip port)) = Unit
HasType open_unix (watched_listener h path) = Unit
HasType open_proxy (proxy_listener l) = Unit
HasType open_https (tls_listener config l) = Unit
HasType (custom n) l = Unit
HasType _ _ = ⊥

module _ (env : Env) where
  listen_file-Yields :
      (P : Listener → Type 0) (fd : ℕ)
      → ((h : ℕ) → P (net_listener h (bound_fd fd)))
      → Yields P (listen_file env fd)
  unfolding listen_file with_closed
  listen_file-Yields P fd p w = bind-Yields P (open_socket env) _ (λ h w. p h) w

  open_fd_string-HasType : (o : Option Bytes) → Yields (HasType open_fd) (open_fd_string env o)
  unfolding open_fd_string open_file
  open_fd_string-HasType none = fail-Yields (HasType open_fd) OpenError.no_fd
  open_fd_string-HasType (some s) =
      Option-Yields (HasType open_fd) (parse_uint s) _ _
        (fail-Yields (HasType open_fd) (OpenError.bad_fd s))
        λ fd.
          if-Yields (HasType open_fd) (ltb fd (2 ^ 63)) _ _
            (listen_file-Yields (HasType open_fd) fd (λ h. tt)) (λ w. tt)

  pub open_fd_listener-HasType :
      (params : Fields) (arg : Bytes) → Yields (HasType open_fd) (open_fd_listener env params arg)
  unfolding open_fd_listener
  open_fd_listener-HasType params arg = open_fd_string-HasType _

  open_fd_named-HasType : (o : Option Bytes) → Yields (HasType open_fdname) (open_fd_named env o)
  unfolding open_fd_named
  open_fd_named-HasType none = fail-Yields (HasType open_fdname) OpenError.no_name
  open_fd_named-HasType (some name) =
      Option-Yields (HasType open_fdname) (check_listen_pid env) _ _
        (Option-Yields (HasType open_fdname)
          (find_name 0 name (split (env.getenv (codes "LISTEN_FDNAMES")) b':')) _ _
          (fail-Yields (HasType open_fdname) (OpenError.name_not_found name))
          (λ i. listen_file-Yields (HasType open_fdname) _ (λ h. tt)))
        (fail-Yields (HasType open_fdname))

  pub open_fdname_listener-HasType :
      (params : Fields) (arg : Bytes)
      → Yields (HasType open_fdname) (open_fdname_listener env params arg)
  unfolding open_fdname_listener
  open_fdname_listener-HasType params arg = open_fd_named-HasType _

  listen_tcp-HasType : (a : TcpArgs) → Yields (HasType open_tcp) (listen_tcp env a)
  unfolding listen_tcp
  listen_tcp-HasType (bad_args e) = fail-Yields (HasType open_tcp) (OpenError.bad_argument e)
  listen_tcp-HasType (tcp_args ip port) =
      Option-Yields (HasType open_tcp) (resolve env ip) _ _
        (fail-Yields (HasType open_tcp) OpenError.bad_ip)
        λ (network, address).
          Option-Yields (HasType open_tcp) (atoi port) _ _
            (fail-Yields (HasType open_tcp) OpenError.bad_port)
            λ n. bind-Yields (HasType open_tcp) (open_socket env) _ (λ h w. tt)

  pub open_tcp_listener-HasType :
      (params : Fields) (arg : Bytes) → Yields (HasType open_tcp) (open_tcp_listener env params arg)
  unfolding open_tcp_listener
  open_tcp_listener-HasType params arg =
      listen_tcp-HasType (if is_empty arg then tcp_params params else tcp_argument arg)

  install-HasType :
      (dir path : Bytes) (mode h : ℕ) → Yields (HasType open_unix) (install env dir path mode h)
  unfolding install
  install-HasType dir path mode h =
      bind-Yields (HasType open_unix) (or_cleanup (cleanup env dir (some h)) (syscall env)) _
        λ _ w. tt

  pub listen-HasType : (path : Bytes) (mode : ℕ) → Yields (HasType open_unix) (listen env path mode)
  unfolding listen bind_socket protect identify
  listen-HasType path mode =
      let dir = env.temp_dir path in
      bind-Yields (HasType open_unix) (make_temp_dir env dir) _ λ _.
        bind-Yields (HasType open_unix)
          (or_cleanup (remove env dir) (listen_unix env (temp_path dir))) _
          λ h.
            bind-Yields (HasType open_unix) (or_cleanup (cleanup env dir (some h)) (syscall env)) _
              λ _ w.
                bind-Yields (HasType open_unix)
                  (or_cleanup (cleanup env dir (some h)) (syscall env)) _
                  (λ _. install-HasType dir path mode h) (set_mode (temp_path dir) h mode w)

  open_unix_path-HasType : (o : Option Bytes) → Yields (HasType open_unix) (open_unix_path env o)
  unfolding open_unix_path
  open_unix_path-HasType none = fail-Yields (HasType open_unix) OpenError.no_path
  open_unix_path-HasType (some path) = listen-HasType path 0o666

  pub open_unix_listener-HasType :
      (params : Fields) (arg : Bytes)
      → Yields (HasType open_unix) (open_unix_listener env params arg)
  unfolding open_unix_listener
  open_unix_listener-HasType params arg = open_unix_path-HasType _

pub open_proxy_listener-HasType :
    (open_spec : Bytes → M Listener) (open_json : Fields → M Listener) (params : Fields)
    (arg : Bytes)
    → Yields (HasType open_proxy) (open_proxy_listener open_spec open_json params arg)
unfolding open_proxy_listener
open_proxy_listener-HasType open_spec open_json params arg =
    map-Yields (HasType open_proxy) proxy_listener
      (if is_empty arg
        then open_inner_json open_json (as_object (get (codes "listener") params))
        else open_spec arg)
      (λ l. tt)
