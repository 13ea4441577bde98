-- ===== src/Builtin/Descriptors.antt =====
-- builtin.go: the descriptors that the openers close.
use go_listener.Common.{
  ℕ, ◌^◌, ltb, ◌≡◌, refl, ap, Option, none, some, if◌then◌else◌, Outcome, ok, err, panic, ◌∷◌,
}
use go_listener.Common.Text.{Bytes, codes, is_empty, split}
use go_listener.Common.Strconv.{parse_uint, atoi}
use go_listener.Json.{Fields, get, as_object}
use go_listener.System.{
  World, OpenError, Listener, net_listener, watched_listener, proxy_listener, bound_fd, bound_tcp,
  M, Env, tls_listener, continue, open_socket, pure, ◌>>=◌,
}
use go_listener.System.Yields.{Yields-mono, bind-Yields}
use go_listener.System.Descriptors.{
  fd_of, Released, Releases, fail-Releases, bind-Keeps, open_socket-Keeps, Keeps-Releases,
  map-Releases, Option-Releases, if-Releases,
}
use go_listener.Unix
use go_listener.Unix.Descriptors.{listen-Keeps}
use go_listener.Registry.{open_unix}
use go_listener.Builtin.Types.{HasType, listen-HasType}
use go_listener.Builtin.{
  open_fd_listener, open_fd_string, open_file, listen_file, with_closed, open_fdname_listener,
  open_fd_named, check_listen_pid, find_name, open_tcp_listener, listen_tcp, TcpArgs, tcp_args,
  bad_args, resolve, tcp_params, tcp_argument, open_unix_listener, open_unix_path,
  open_proxy_listener, open_inner_json,
}

module _ (env : Env) where
  listen_file-Releases : (fd : ℕ) → Releases (listen_file env fd)
  unfolding listen_file with_closed
  listen_file-Releases fd w = go (open_socket env w) (open_socket-Keeps env w)
    where
      go :
          (r : Outcome OpenError ℕ × World)
          → r.1.closed_fds ≡ w.closed_fds
          → Released w
              (continue r (λ h. pure (net_listener h (bound_fd fd)))).0
              (record ((continue r (λ h. pure (net_listener h (bound_fd fd)))).1) {
                closed_fds =
                    fd ∷ (continue r (λ h. pure (net_listener h (bound_fd fd)))).1.closed_fds;
              })
      go (ok h, u) e = ap (◌∷◌ fd) e
      go (err x, u) e = (some fd, ap (◌∷◌ fd) e)
      go (panic, u) e = tt

  open_fd_string-Releases : (o : Option Bytes) → Releases (open_fd_string env o)
  unfolding open_fd_string open_file
  open_fd_string-Releases none = fail-Releases OpenError.no_fd
  open_fd_string-Releases (some s) =
      Option-Releases (parse_uint s) _ _ (fail-Releases (OpenError.bad_fd s))
        λ fd. if-Releases (ltb fd (2 ^ 63)) _ _ (listen_file-Releases fd) (λ w. tt)

  pub open_fd_listener-Releases :
      (params : Fields) (arg : Bytes) → Releases (open_fd_listener env params arg)
  unfolding open_fd_listener
  open_fd_listener-Releases params arg = open_fd_string-Releases _

  open_fd_named-Releases : (o : Option Bytes) → Releases (open_fd_named env o)
  unfolding open_fd_named
  open_fd_named-Releases none = fail-Releases OpenError.no_name
  open_fd_named-Releases (some name) =
      Option-Releases (check_listen_pid env) _ _
        (Option-Releases (find_name 0 name (split (env.getenv (codes "LISTEN_FDNAMES")) b':')) _ _
          (fail-Releases (OpenError.name_not_found name)) (λ i. listen_file-Releases _))
        fail-Releases

  pub open_fdname_listener-Releases :
      (params : Fields) (arg : Bytes) → Releases (open_fdname_listener env params arg)
  unfolding open_fdname_listener
  open_fdname_listener-Releases params arg = open_fd_named-Releases _

  listen_tcp-Releases : (a : TcpArgs) → Releases (listen_tcp env a)
  unfolding listen_tcp
  listen_tcp-Releases (bad_args e) = fail-Releases (OpenError.bad_argument e)
  listen_tcp-Releases (tcp_args ip port) =
      Option-Releases (resolve env ip) _ _ (fail-Releases OpenError.bad_ip) λ (network, address).
        Option-Releases (atoi port) _ _ (fail-Releases OpenError.bad_port) λ n.
          let f = λ (h : ℕ). pure (net_listener h (bound_tcp network address n)) in
          Keeps-Releases (open_socket env >>= f)
            (bind-Keeps (open_socket env) f (open_socket-Keeps env) (λ h w. refl))
            (bind-Yields (λ l. fd_of l ≡ none) (open_socket env) f (λ h w. refl))

  pub open_tcp_listener-Releases :
      (params : Fields) (arg : Bytes) → Releases (open_tcp_listener env params arg)
  unfolding open_tcp_listener
  open_tcp_listener-Releases params arg =
      listen_tcp-Releases (if is_empty arg then tcp_params params else tcp_argument arg)

  watched_fd : (l : Listener) → HasType open_unix l → fd_of l ≡ none
  watched_fd (watched_listener h path) t = refl
  watched_fd (net_listener h b) t = absurd t
  watched_fd (proxy_listener l) t = absurd t
  watched_fd (tls_listener config l) t = absurd t

  open_unix_path-Releases : (o : Option Bytes) → Releases (open_unix_path env o)
  unfolding open_unix_path
  open_unix_path-Releases none = fail-Releases OpenError.no_path
  open_unix_path-Releases (some path) =
      Keeps-Releases (Unix.listen env path 0o666) (listen-Keeps env path 0o666) (
        Yields-mono (HasType open_unix) (λ l. fd_of l ≡ none) (Unix.listen env path 0o666)
          watched_fd (listen-HasType env path 0o666))

  pub open_unix_listener-Releases :
      (params : Fields) (arg : Bytes) → Releases (open_unix_listener env params arg)
  unfolding open_unix_listener
  open_unix_listener-Releases params arg = open_unix_path-Releases _

module _ (open_spec : Bytes → M Listener) (open_json : Fields → M Listener)
    (of_spec : (s : Bytes) → Releases (open_spec s))
    (of_json : (m : Fields) → Releases (open_json m)) where
  open_inner_json-Releases : (o : Option Fields) → Releases (open_inner_json open_json o)
  unfolding open_inner_json
  open_inner_json-Releases none = fail-Releases OpenError.no_inner
  open_inner_json-Releases (some m) = of_json m

  pub open_proxy_listener-Releases :
      (params : Fields) (arg : Bytes)
      → Releases (open_proxy_listener open_spec open_json params arg)
  unfolding open_proxy_listener
  open_proxy_listener-Releases params arg =
      map-Releases proxy_listener (λ l. refl) _
        (if-Releases (is_empty arg) _ _
          (open_inner_json-Releases (as_object (get (codes "listener") params))) (of_spec arg))
