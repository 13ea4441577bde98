-- ===== src/Unix/Returns.antt =====
-- unix/listener.go: `Listen` returns.
use go_listener.Common.{ℕ, some, Outcome, ok, err, panic}
use go_listener.Common.Text.{Bytes}
use go_listener.System.{
  World, OpenError, system, no_temp_dir, Env, M, syscall, syscall_as, open_socket,
}
use go_listener.System.Returns.{
  IsReturned, Returns, bind-Returns, syscall-Returns, open_socket-Returns,
}
use go_listener.Unix.{
  temp_path, remove, cleanup, undo_failure, or_cleanup, make_temp_dir, listen_unix, set_mode,
  install, identify, protect, bind_socket, listen,
}

or_cleanup-Returns :
    {A : Type 0} (undo : World → World) (m : M A) → Returns m → Returns (or_cleanup undo m)
or_cleanup-Returns {A} undo m r w = go (m w) (r w)
  where
    go : (r : Outcome OpenError A × World) → IsReturned r.0 → IsReturned (undo_failure undo r).0
    go (ok a, v) k = k
    go (err e, v) k = k
    go (panic, v) k = k

module _ (env : Env) (dir path : Bytes) (mode : ℕ) where
  call-Returns : (h : ℕ) → Returns (or_cleanup (cleanup env dir (some h)) (syscall env))
  call-Returns h =
      or_cleanup-Returns (cleanup env dir (some h)) (syscall env)
        (syscall-Returns system env (λ n q. cc))

  install-Returns : (h : ℕ) → Returns (install env dir path mode h)
  unfolding install
  install-Returns h =
      bind-Returns (or_cleanup (cleanup env dir (some h)) (syscall env)) _ (call-Returns h)
        (λ u w. tt)

  protect-Returns : (h : ℕ) → Returns (protect env dir path mode h)
  unfolding protect identify
  protect-Returns h =
      bind-Returns (or_cleanup (cleanup env dir (some h)) (syscall env)) _ (call-Returns h) λ u w.
        bind-Returns (or_cleanup (cleanup env dir (some h)) (syscall env)) _ (call-Returns h)
          (λ v. install-Returns h) (set_mode (temp_path dir) h mode w)

  listen_unix-Returns : Returns (listen_unix env (temp_path dir))
  unfolding listen_unix
  listen_unix-Returns = bind-Returns (open_socket env) _ (open_socket-Returns env) (λ h w. tt)

  bind_socket-Returns : Returns (bind_socket env dir path mode)
  unfolding bind_socket
  bind_socket-Returns =
      bind-Returns (or_cleanup (remove env dir) (listen_unix env (temp_path dir))) _
        (or_cleanup-Returns (remove env dir) (listen_unix env (temp_path dir)) listen_unix-Returns)
        protect-Returns

pub listen-Returns : (env : Env) (path : Bytes) (mode : ℕ) → Returns (listen env path mode)
unfolding listen make_temp_dir
listen-Returns env path mode =
    bind-Returns (make_temp_dir env (env.temp_dir path)) _
      (bind-Returns (syscall_as no_temp_dir env) _ (syscall-Returns no_temp_dir env (λ n q. cc))
        (λ u w. tt))
      (λ u. bind_socket-Returns env (env.temp_dir path) path mode)
