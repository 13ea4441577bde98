-- ===== src/Builtin.antt =====
-- builtin.go: the openers that the package registers itself. Those that open an inner listener take
-- `Open` and `OpenJSON` as arguments, which Open.antt ties together.
pub mod Sockets
pub mod Descriptors
pub mod Returns
pub mod Types
pub mod Tcp
pub mod Names
use go_listener.Common.{
  ℕ, suc, ◌+◌, ◌^◌, ltb, Bool, true, false, Option, none, some, List, [], ◌∷◌, ◌++◌, ◌==◌,
  if◌then◌else◌, Outcome, ok, err, panic,
}
use go_listener.Common.Int.{ℤ, pos, negsuc}
use go_listener.Common.Text.{Bytes, codes, equal, is_empty, contains, split}
use go_listener.Common.Strconv.{parse_uint, atoi}
use go_listener.Net.{to4}
use go_listener.Net.HostPort.{HostPort, host_port, split_host_port}
use go_listener.Json.{Json, Fields, get, as_string, as_number, as_object}
use go_listener.System
use go_listener.System.{
  World, Listener, net_listener, proxy_listener, Env, M, ◌>>=◌, ◌>>◌, pure, fail, OpenError,
  Network, tcp, tcp4, tcp6, bound_tcp, bound_fd, open_socket,
}
use go_listener.Unix

-- `net.FileListener(os.NewFile(fd))` with the deferred `Close`: the listener is a duplicate, and the
-- descriptor is closed whether or not it could be made.
with_closed : {A : Type 0} → ℕ → M A → M A
with_closed fd m w = let (r, w') = m w in (r, record w' { closed_fds = fd ∷ w'.closed_fds })

unfoldable pub listen_file : Env → ℕ → M Listener
unfolding open_socket with_closed
listen_file env fd = with_closed fd (do h ← open_socket env; pure (net_listener h (bound_fd fd)))

-- The string that an opener works on: its argument, or else a parameter.
abbrev pub argument : Bytes → Option Bytes → Option Bytes
argument [] param = param
argument (c ∷ arg) param = some (c ∷ arg)

-- `v, ok := params[k].(json.Number)`, or else of the type `string`
abbrev pub number_or_string : Option Json → Option Bytes
number_or_string v = elim (as_number v) [ some s ↦ some s | none ↦ as_string v ]

-- `os.NewFile` gives nil for a number that is negative as an `int`, and `net.FileListener` panics on it.
unfoldable pub open_file : Env → ℕ → M Listener
open_file env fd = if ltb fd (2 ^ 63) then listen_file env fd else (λ w. (panic, w))

open_fd_string : Env → Option Bytes → M Listener
open_fd_string env none = fail OpenError.no_fd
open_fd_string env (some s) = elim (parse_uint s) [
  | none ↦ fail (OpenError.bad_fd s)
  | some fd ↦ open_file env fd
]

-- `openFDListener`
unfoldable pub open_fd_listener : Env → Fields → Bytes → M Listener
unfolding open_fd_string open_file as_number as_string get
open_fd_listener env params arg =
    open_fd_string env (argument arg (number_or_string (get (codes "fd") params)))

-- The loop over `$LISTEN_FDNAMES`: the index of the first field that is the name.
unfoldable pub find_name : ℕ → Bytes → List Bytes → Option ℕ
unfolding equal
find_name i name [] = none
find_name i name (f ∷ fields) = if equal f name then some i else find_name (i + 1) name fields

-- `==` on `int`
unfoldable pub equal_int : ℤ → ℤ → Bool
equal_int (pos a) (pos b) = a == b
equal_int (negsuc a) (negsuc b) = a == b
equal_int _ _ = false

-- The checks on `$LISTEN_PID`: `none` if it is this process.
check_listen_pid : Env → Option OpenError
unfolding equal_int atoi
check_listen_pid env =
    let s = env.getenv (codes "LISTEN_PID") in
    if is_empty s then some OpenError.no_listen_pid else elim (atoi s) [
      | none ↦ some OpenError.bad_listen_pid
      | some pid ↦
          if equal_int pid env.getpid then none else some (OpenError.wrong_pid pid env.getpid)
    ]

open_fd_named : Env → Option Bytes → M Listener
unfolding check_listen_pid find_name split
open_fd_named env none = fail OpenError.no_name
open_fd_named env (some name) = elim (check_listen_pid env) [
  | some e ↦ fail e
  | none ↦ elim (find_name 0 name (split (env.getenv (codes "LISTEN_FDNAMES")) b':')) [
    | some i ↦ listen_file env (3 + i)
    | none ↦ fail (OpenError.name_not_found name)
  ]
]

-- `openFDNameListener`
unfoldable pub open_fdname_listener : Env → Fields → Bytes → M Listener
unfolding open_fd_named as_string get
open_fdname_listener env params arg =
    open_fd_named env (argument arg (as_string (get (codes "name") params)))

-- What `openTCPListener` reads from its argument and parameters: the IP and the port, as strings.
pub data TcpArgs : Type 0 where
  tcp_args : (ip port : Bytes) → TcpArgs
  bad_args : HostPort → TcpArgs

-- The first `if`, on a string argument.
unfoldable pub tcp_argument : Bytes → TcpArgs
unfolding contains split_host_port
tcp_argument arg =
    if contains arg b':'
    then elim (split_host_port arg) [ host_port ip port ↦ tcp_args ip port | e ↦ bad_args e ]
    else tcp_args [] arg

-- Its other branches, on the parameters: with an address the port is not read.
unfoldable pub tcp_params : Fields → TcpArgs
unfolding as_string as_number get
tcp_params params = elim (as_string (get (codes "address") params)) [
  | some ip ↦ tcp_args ip []
  | none ↦ elim (number_or_string (get (codes "port") params)) [
    | some port ↦ tcp_args [] port
    | none ↦ tcp_args [] []
  ]
]

-- `network` and `address.IP`: `none` if the string is no IP address.
unfoldable pub resolve : Env → Bytes → Option (Network × Bytes)
unfolding to4
resolve env [] = some (tcp, [])
resolve env (c ∷ s) = elim (env.parse_ip (c ∷ s)) [
  | none ↦ none
  | some ip ↦ elim (to4 ip) [ some _ ↦ some (tcp4, ip) | none ↦ some (tcp6, ip) ]
]

-- From the IP on. `net.ListenTCP` is a system call for the network, the IP and the port.
unfoldable pub listen_tcp : Env → TcpArgs → M Listener
unfolding resolve atoi open_socket
listen_tcp env (bad_args e) = fail (OpenError.bad_argument e)
listen_tcp env (tcp_args ip port) = elim (resolve env ip) [
  | none ↦ fail OpenError.bad_ip
  | some (network, address) ↦ elim (atoi port) [
    | none ↦ fail OpenError.bad_port
    | some n ↦ do h ← open_socket env; pure (net_listener h (bound_tcp network address n))
  ]
]

-- `openTCPListener`
unfoldable pub open_tcp_listener : Env → Fields → Bytes → M Listener
unfolding tcp_argument tcp_params listen_tcp
open_tcp_listener env params arg =
    listen_tcp env (if is_empty arg then tcp_params params else tcp_argument arg)

open_unix_path : Env → Option Bytes → M Listener
open_unix_path env none = fail OpenError.no_path
open_unix_path env (some path) = Unix.listen env path 0o666

-- `openUnixListener`
unfoldable pub open_unix_listener : Env → Fields → Bytes → M Listener
unfolding open_unix_path as_string get
open_unix_listener env params arg =
    open_unix_path env (argument arg (as_string (get (codes "path") params)))

-- `openProxyListener`
unfoldable pub open_inner_json : (Fields → M Listener) → Option Fields → M Listener
open_inner_json open_json none = fail OpenError.no_inner
open_inner_json open_json (some spec) = open_json spec

abbrev pub proxied : M Listener → M Listener
proxied inner = do l ← inner; pure (proxy_listener l)

unfoldable pub open_proxy_listener :
    (Bytes → M Listener) → (Fields → M Listener) → Fields → Bytes → M Listener
unfolding open_inner_json as_object get
open_proxy_listener open_spec open_json params arg = proxied (
    if is_empty arg
    then open_inner_json open_json (as_object (get (codes "listener") params))
    else open_spec arg)
