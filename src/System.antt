-- ===== src/System.antt =====
-- The operating system as builtin.go and unix/listener.go use it. Whether a system call fails is the
-- environment's choice at each call.
pub mod Sockets
pub mod Yields
pub mod Descriptors
pub mod Returns
use go_listener.Common.{
  ℕ, suc, ◌+◌, Bool, true, false, Option, none, some, List, [], ◌∷◌, ◌++◌, ◌==◌, if◌then◌else◌,
  Outcome, ok, err, panic,
}
use go_listener.Common.Int.{ℤ}
use go_listener.Common.Text.{Bytes, equal}
use go_listener.Json.{Fields}
use go_listener.Net.HostPort.{HostPort}

-- Where a TLS listener takes its certificates from: the constructor of its `GetCertificateFunc`.
pub data CertSource : Type 0 where
  from_file from_directory : Bytes → CertSource
  automatically : Option (List Bytes) → CertSource  -- `none` for nil

pub record TlsConfig : Type 0 where
  pub source : CertSource
  pub default_server_name : Option Bytes
  pub next_protos : List Bytes

-- The network of `net.ListenTCP`.
pub data Network : Type 0 where
  tcp tcp4 tcp6 : Network

-- What a socket of the package `net` listens on: a TCP address, or what a descriptor was bound to.
pub data Bound : Type 0 where
  bound_tcp : Network → (ip : Bytes) → (port : ℤ) → Bound
  bound_fd : ℕ → Bound

-- `net.Listener` by its dynamic type, over the handle of an open socket.
pub data Listener : Type 0 where
  net_listener : ℕ → Bound → Listener
  watched_listener : ℕ → Bytes → Listener  -- of the package `unix`, with the path that it watches
  proxy_listener : Listener → Listener
  tls_listener : TlsConfig → Listener → Listener

-- The errors, one for each message of the sources; `system` is one of the operating system.
pub data OpenError : Type 0 where
  system : ℕ → OpenError
  unknown_type : Bytes → OpenError
  no_type no_fd no_name no_path no_inner no_certificate : OpenError
  bad_fd : Bytes → OpenError
  no_listen_pid bad_listen_pid : OpenError
  wrong_pid : ℤ → ℤ → OpenError
  name_not_found : Bytes → OpenError
  bad_argument : HostPort → OpenError
  bad_ip bad_port bad_tls_spec : OpenError
  no_temp_dir : ℕ → OpenError
  in_spec : Bytes → OpenError → OpenError
  exhausted : OpenError  -- the model's own: the fuel ran out

pub data Node : Type 0 where
  directory : Node
  socket : (handle mode : ℕ) → Node

pub record World : Type 0 where
  pub clock : ℕ  -- system calls made so far
  pub next : ℕ  -- the handle of the next socket
  pub live : List ℕ  -- the open sockets, newest first
  pub files : List (Bytes × Node)
  pub closed_fds : List ℕ  -- the descriptors, given by number, that were closed

abbrev pub M : Type 0 → Type 0
M A = World → Outcome OpenError A × World

abbrev pub pure : {A : Type 0} → A → M A
pure a w = (ok a, w)

abbrev pub fail : {A : Type 0} → OpenError → M A
fail e w = (err e, w)

-- What follows a step, on what the step returned.
abbrev pub continue :
    {A B : Type 0} → Outcome OpenError A × World → (A → M B) → Outcome OpenError B × World
continue (ok a, w) f = f a w
continue (err e, w) f = (err e, w)
continue (panic, w) f = (panic, w)

infixl 5 ◌>>=◌ ◌>>◌
abbrev pub ◌>>=◌ : {A B : Type 0} → M A → (A → M B) → M B
◌>>=◌ m f w = continue (m w) f

abbrev pub ◌>>◌ : {B : Type 0} → M (Unit {0}) → M B → M B
m >> k = m >>= λ _. k

-- What the code asks of its surroundings and does not implement.
pub record Env : Type 0 where
  pub fails : ℕ → Option ℕ  -- the error of the system call at this clock, if it fails
  pub remove_fails : ℕ → Bool  -- whether `os.Remove` fails at this clock
  pub temp_dir : Bytes → Bytes  -- the directory that `os.MkdirTemp` makes beside a path
  pub parse_ip : Bytes → Option Bytes  -- `net.ParseIP`
  pub getenv : Bytes → Bytes
  pub getpid : ℤ
  pub alpn_proto : Bytes  -- `acme.ALPNProto`
  pub custom : ℕ → Fields → Bytes → M Listener  -- an opener that a program registers

abbrev pub tick : World → World
tick w = record w { clock = w.clock + 1 }

-- A system call with no effect that the model keeps, and the error that the caller makes of a failure.
unfoldable pub syscall_as : (ℕ → OpenError) → Env → M (Unit {0})
syscall_as wrap env w = elim (env.fails w.clock) [
  | none ↦ (ok tt, tick w)
  | some e ↦ (err (wrap e), tick w)
]

abbrev pub syscall : Env → M (Unit {0})
syscall = syscall_as system

-- A system call that opens a listening socket.
unfoldable pub open_socket : Env → M ℕ
open_socket env = do
  syscall env
  λ w. (ok w.next, record w { next = w.next + 1; live = w.next ∷ w.live })

unfoldable pub remove_handle : ℕ → List ℕ → List ℕ
remove_handle h [] = []
remove_handle h (x ∷ xs) = if x == h then remove_handle h xs else x ∷ remove_handle h xs

unfoldable pub close_handle : ℕ → World → World
unfolding remove_handle
close_handle h w = record w { live = remove_handle h w.live }

abbrev pub handle_of : Listener → ℕ
handle_of (net_listener h _) = h
handle_of (watched_listener h _) = h
handle_of (proxy_listener l) = handle_of l
handle_of (tls_listener _ l) = handle_of l

-- `Close` of a listener that has just been opened: each wrapper closes what it wraps.
unfoldable pub close : Listener → World → World
unfolding close_handle
close (net_listener h _) w = close_handle h w
close (watched_listener h _) w = close_handle h w
close (proxy_listener l) w = close l w
close (tls_listener _ l) w = close l w
