-- ===== src/Builtin/Sockets.antt =====
-- builtin.go: the sockets of each opener.
use go_listener.Common.{
  ℕ, ◌^◌, ltb, refl, arith, Option, none, some, List, if◌then◌else◌, ok, err, panic, Outcome,
}
use go_listener.Common.Text.{Bytes, codes, is_empty, split}
use go_listener.Common.Strconv.{parse_uint, atoi}
use go_listener.Json.{Fields, get, as_object}
use go_listener.System.{
  World, OpenError, Listener, net_listener, proxy_listener, M, Env, bound_fd, bound_tcp,
}
use go_listener.System.Sockets.{
  Opened, IsTidy, fail-IsTidy, map-IsTidy, open_socket-IsTidy, Option-IsTidy, if-IsTidy,
}
use go_listener.Unix.Sockets.{listen-IsTidy}
use go_listener.Builtin.{
  open_fd_listener, open_fd_string, open_file, listen_file, open_fdname_listener, open_fd_named,
  check_listen_pid, find_name, with_closed, tcp_params, tcp_argument, open_tcp_listener, listen_tcp,
  TcpArgs, tcp_args, bad_args, resolve, open_unix_listener, open_unix_path, open_proxy_listener,
  open_inner_json,
}

Opened-closed_fds :
    (w : World) (r : Outcome OpenError Listener) (u : World) (fds : List ℕ)
    → Opened w r u
    → Opened w r (record u { closed_fds = fds })
Opened-closed_fds w (ok l) u fds o = o
Opened-closed_fds w (err e) u fds o = o
Opened-closed_fds w panic u fds o = o

listen_file-IsTidy : (env : Env) (fd : ℕ) → IsTidy (listen_file env fd)
unfolding listen_file with_closed
listen_file-IsTidy env fd w b =
    Opened-closed_fds w _ _ _
      (open_socket-IsTidy env (λ h. net_listener h (bound_fd fd)) (λ h. refl) w b)

open_file-IsTidy : (env : Env) (fd : ℕ) → IsTidy (open_file env fd)
unfolding open_file
open_file-IsTidy env fd =
    if-IsTidy (ltb fd (2 ^ 63)) _ _ (listen_file-IsTidy env fd) (λ w b. (refl, omega arith))

open_fd_string-IsTidy : (env : Env) (o : Option Bytes) → IsTidy (open_fd_string env o)
unfolding open_fd_string
open_fd_string-IsTidy env none = fail-IsTidy OpenError.no_fd
open_fd_string-IsTidy env (some s) =
    Option-IsTidy (parse_uint s) _ _ (fail-IsTidy (OpenError.bad_fd s)) (open_file-IsTidy env)

pub open_fd_listener-IsTidy :
    (env : Env) (params : Fields) (arg : Bytes) → IsTidy (open_fd_listener env params arg)
unfolding open_fd_listener
open_fd_listener-IsTidy env params arg = open_fd_string-IsTidy env _

open_fd_named-IsTidy : (env : Env) (o : Option Bytes) → IsTidy (open_fd_named env o)
unfolding open_fd_named
open_fd_named-IsTidy env none = fail-IsTidy OpenError.no_name
open_fd_named-IsTidy env (some name) =
    Option-IsTidy (check_listen_pid env) _ _
      (Option-IsTidy (find_name 0 name (split (env.getenv (codes "LISTEN_FDNAMES")) b':')) _ _
        (fail-IsTidy (OpenError.name_not_found name)) (λ i. listen_file-IsTidy env _))
      fail-IsTidy

pub open_fdname_listener-IsTidy :
    (env : Env) (params : Fields) (arg : Bytes) → IsTidy (open_fdname_listener env params arg)
unfolding open_fdname_listener
open_fdname_listener-IsTidy env params arg = open_fd_named-IsTidy env _

listen_tcp-IsTidy : (env : Env) (a : TcpArgs) → IsTidy (listen_tcp env a)
unfolding listen_tcp
listen_tcp-IsTidy env (bad_args e) = fail-IsTidy (OpenError.bad_argument e)
listen_tcp-IsTidy env (tcp_args ip port) =
    Option-IsTidy (resolve env ip) _ _ (fail-IsTidy OpenError.bad_ip) λ (network, address).
      Option-IsTidy (atoi port) _ _ (fail-IsTidy OpenError.bad_port)
        λ n. open_socket-IsTidy env (λ h. net_listener h (bound_tcp network address n)) (λ h. refl)

pub open_tcp_listener-IsTidy :
    (env : Env) (params : Fields) (arg : Bytes) → IsTidy (open_tcp_listener env params arg)
unfolding open_tcp_listener
open_tcp_listener-IsTidy env params arg =
    listen_tcp-IsTidy env (if is_empty arg then tcp_params params else tcp_argument arg)

open_unix_path-IsTidy : (env : Env) (o : Option Bytes) → IsTidy (open_unix_path env o)
unfolding open_unix_path
open_unix_path-IsTidy env none = fail-IsTidy OpenError.no_path
open_unix_path-IsTidy env (some path) = listen-IsTidy env path 0o666

pub open_unix_listener-IsTidy :
    (env : Env) (params : Fields) (arg : Bytes) → IsTidy (open_unix_listener env params arg)
unfolding open_unix_listener
open_unix_listener-IsTidy env params arg = open_unix_path-IsTidy env _

module _ (open_spec : Bytes → M Listener) (open_json : Fields → M Listener)
    (tidy_spec : (s : Bytes) → IsTidy (open_spec s))
    (tidy_json : (m : Fields) → IsTidy (open_json m)) where
  open_inner_json-IsTidy : (o : Option Fields) → IsTidy (open_inner_json open_json o)
  unfolding open_inner_json
  open_inner_json-IsTidy none = fail-IsTidy OpenError.no_inner
  open_inner_json-IsTidy (some m) = tidy_json m

  pub open_proxy_listener-IsTidy :
      (params : Fields) (arg : Bytes) → IsTidy (open_proxy_listener open_spec open_json params arg)
  unfolding open_proxy_listener
  open_proxy_listener-IsTidy params arg =
      map-IsTidy proxy_listener (λ l. refl) _
        (if-IsTidy (is_empty arg) _ _
          (open_inner_json-IsTidy (as_object (get (codes "listener") params))) (tidy_spec arg))
