-- ===== src/Builtin/Returns.antt =====
-- builtin.go: the openers return.
use go_listener.Common.{
  arith, ◌≡◌, ◌≢◌, ◌∙◌, true, false, Option-cases, inl, inr, ℕ, ◌^◌, ltb, ap, Option, none, some,
  if◌then◌else◌,
}
use mathlib.Core.Path.{subst}
use go_listener.Common.Text.{Bytes, codes, is_empty, split}
use go_listener.Common.Strconv.{parse_uint, atoi}
use go_listener.Json.{Fields, get, as_object}
use go_listener.System.{
  OpenError, exhausted, Listener, net_listener, proxy_listener, bound_fd, bound_tcp, M, Env,
  open_socket, pure,
}
use go_listener.System.Returns.{
  Returns, fail-Returns, bind-Returns, open_socket-Returns, map-Returns, Option-Returns,
  Option-Returns_each, if-Returns_each,
}
use go_listener.Unix.Returns.{listen-Returns}
use go_listener.Builtin.{
  argument, number_or_string, open_fd_listener, open_fd_string, open_file, listen_file, with_closed,
  open_fdname_listener, open_fd_named, check_listen_pid, find_name, open_tcp_listener, listen_tcp,
  TcpArgs, tcp_args, bad_args, resolve, tcp_params, tcp_argument, open_unix_listener,
  open_unix_path, open_proxy_listener, open_inner_json,
}

abbrev FitsNumber : Option ℕ → Type 0
FitsNumber none = Unit
FitsNumber (some fd) = ltb fd (2 ^ 63) ≡ true

-- A string that does not name a descriptor by a number from 2^63 on, at which `net.FileListener` panics.
abbrev pub FitsFd : Bytes → Type 0
FitsFd s = FitsNumber (parse_uint s)

abbrev pub FitsArgument : Option Bytes → Type 0
FitsArgument none = Unit
FitsArgument (some s) = FitsFd s

module _ (env : Env) where
  listen_file-Returns : (fd : ℕ) → Returns (listen_file env fd)
  unfolding listen_file with_closed
  listen_file-Returns fd w =
      bind-Returns (open_socket env) (λ h. pure (net_listener h (bound_fd fd)))
        (open_socket-Returns env) (λ h u. tt) w

  open_fd_string-Returns : (o : Option Bytes) → FitsArgument o → Returns (open_fd_string env o)
  unfolding open_fd_string open_file
  open_fd_string-Returns none h = fail-Returns OpenError.no_fd (λ q. cc)
  open_fd_string-Returns (some s) h =
      Option-Returns_each (parse_uint s) _ _ (fail-Returns (OpenError.bad_fd s) (λ q. cc)) λ fd e.
        if-Returns_each (ltb fd (2 ^ 63)) _ _ (λ t. listen_file-Returns fd)
          λ f. let t : ltb fd (2 ^ 63) ≡ true = subst FitsNumber e h in absurd (cc)

  pub open_fd_listener-Returns :
      (params : Fields) (arg : Bytes)
      → FitsArgument (argument arg (number_or_string (get (codes "fd") params)))
      → Returns (open_fd_listener env params arg)
  unfolding open_fd_listener
  open_fd_listener-Returns params arg h = open_fd_string-Returns _ h

  check_listen_pid-ne-exhausted : check_listen_pid env ≢ some exhausted
  unfolding check_listen_pid
  check_listen_pid-ne-exhausted = ground arith

  open_fd_named-Returns : (o : Option Bytes) → Returns (open_fd_named env o)
  unfolding open_fd_named
  open_fd_named-Returns none = fail-Returns OpenError.no_name (λ q. cc)
  open_fd_named-Returns (some name) = elim (Option-cases (check_listen_pid env)) [
    | inl e ↦
        rw (open_fd_named, e)
          (Option-Returns (find_name 0 name (split (env.getenv (codes "LISTEN_FDNAMES")) b':')) _ _
            (fail-Returns (OpenError.name_not_found name) (λ q. cc)) (λ i. listen_file-Returns _))
    | inr (x, e) ↦
        rw (open_fd_named, e) (fail-Returns x (λ q. check_listen_pid-ne-exhausted (e ∙ ap some q)))
  ]

  pub open_fdname_listener-Returns :
      (params : Fields) (arg : Bytes) → Returns (open_fdname_listener env params arg)
  unfolding open_fdname_listener
  open_fdname_listener-Returns params arg = open_fd_named-Returns _

  listen_tcp-Returns : (a : TcpArgs) → Returns (listen_tcp env a)
  unfolding listen_tcp
  listen_tcp-Returns (bad_args e) = fail-Returns (OpenError.bad_argument e) (λ q. cc)
  listen_tcp-Returns (tcp_args ip port) =
      Option-Returns (resolve env ip) _ _ (fail-Returns OpenError.bad_ip (λ q. cc))
        λ (network, address).
          Option-Returns (atoi port) _ _ (fail-Returns OpenError.bad_port (λ q. cc)) λ n.
            bind-Returns (open_socket env)
              (λ h. pure (net_listener h (bound_tcp network address n))) (open_socket-Returns env)
              (λ h w. tt)

  pub open_tcp_listener-Returns :
      (params : Fields) (arg : Bytes) → Returns (open_tcp_listener env params arg)
  unfolding open_tcp_listener
  open_tcp_listener-Returns params arg =
      listen_tcp-Returns (if is_empty arg then tcp_params params else tcp_argument arg)

  open_unix_path-Returns : (o : Option Bytes) → Returns (open_unix_path env o)
  unfolding open_unix_path
  open_unix_path-Returns none = fail-Returns OpenError.no_path (λ q. cc)
  open_unix_path-Returns (some path) = listen-Returns env path 0o666

  pub open_unix_listener-Returns :
      (params : Fields) (arg : Bytes) → Returns (open_unix_listener env params arg)
  unfolding open_unix_listener
  open_unix_listener-Returns params arg = open_unix_path-Returns _

module _ (open_spec : Bytes → M Listener) (open_json : Fields → M Listener) where
  pub open_proxy_listener-Returns :
      (params : Fields) (arg : Bytes)
      → ((m : Fields) → as_object (get (codes "listener") params) ≡ some m → Returns (open_json m))
      → (is_empty arg ≡ false → Returns (open_spec arg))
      → Returns (open_proxy_listener open_spec open_json params arg)
  unfolding open_proxy_listener open_inner_json
  open_proxy_listener-Returns params arg of_json of_spec = map-Returns proxy_listener _ (
      if-Returns_each (is_empty arg) _ _
        (λ t.
          Option-Returns_each (as_object (get (codes "listener") params)) _ _
            (fail-Returns OpenError.no_inner (λ q. cc)) of_json)
        of_spec)
