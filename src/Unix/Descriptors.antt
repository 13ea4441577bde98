-- ===== src/Unix/Descriptors.antt =====
-- unix/listener.go: `Listen` closes no descriptor that is given by number.
use go_listener.Common.{ℕ, ◌≡◌, refl, ◌∙◌, arith, Option, none, some, Outcome, ok, err, panic}
use go_listener.Common.Text.{Bytes}
use go_listener.System.{
  World, OpenError, system, no_temp_dir, Env, M, socket, syscall, syscall_as, open_socket,
  close_handle,
}
use go_listener.System.Descriptors.{Keeps, bind-Keeps, syscall-Keeps, open_socket-Keeps}
use go_listener.Unix.{
  temp_path, remove, rename, cleanup, undo_failure, or_cleanup, make_temp_dir, listen_unix,
  set_mode, install, identify, protect, bind_socket, listen,
}

abbrev KeepsFds : (World → World) → Type 0
KeepsFds f = (w : World) → (f w).closed_fds ≡ w.closed_fds

remove-KeepsFds : (env : Env) (p : Bytes) → KeepsFds (remove env p)
unfolding remove
remove-KeepsFds env p w = ground arith

cleanup-KeepsFds : (env : Env) (dir : Bytes) (o : Option ℕ) → KeepsFds (cleanup env dir o)
unfolding cleanup close_handle
cleanup-KeepsFds env dir none w =
    remove-KeepsFds env dir (remove env (temp_path dir) w) ∙ remove-KeepsFds env (temp_path dir) w
cleanup-KeepsFds env dir (some h) w =
    remove-KeepsFds env dir (remove env (temp_path dir) (close_handle h w))
    ∙ remove-KeepsFds env (temp_path dir) (close_handle h w)

or_cleanup-Keeps :
    {A : Type 0} (undo : World → World) (m : M A)
    → KeepsFds undo
    → Keeps m
    → Keeps (or_cleanup undo m)
or_cleanup-Keeps {A} undo m u k w = go (m w) ∙ k w
  where
    go : (r : Outcome OpenError A × World) → (undo_failure undo r).1.closed_fds ≡ r.1.closed_fds
    go (ok a, v) = refl
    go (err e, v) = u v
    go (panic, v) = u v

module _ (env : Env) (dir path : Bytes) (mode : ℕ) where
  call-Keeps : (h : ℕ) → Keeps (or_cleanup (cleanup env dir (some h)) (syscall env))
  call-Keeps h =
      or_cleanup-Keeps (cleanup env dir (some h)) (syscall env) (cleanup-KeepsFds env dir (some h))
        (syscall-Keeps system env)

  install-Keeps : (h : ℕ) → Keeps (install env dir path mode h)
  unfolding install rename
  install-Keeps h =
      bind-Keeps (or_cleanup (cleanup env dir (some h)) (syscall env)) _ (call-Keeps h)
        λ u w. cleanup-KeepsFds env dir none (rename (temp_path dir) path (socket h mode) w)

  protect-Keeps : (h : ℕ) → Keeps (protect env dir path mode h)
  unfolding protect identify set_mode
  protect-Keeps h =
      bind-Keeps (or_cleanup (cleanup env dir (some h)) (syscall env)) _ (call-Keeps h) λ u w.
        bind-Keeps (or_cleanup (cleanup env dir (some h)) (syscall env)) _ (call-Keeps h)
          (λ v. install-Keeps h) (set_mode (temp_path dir) h mode w)

  listen_unix-Keeps : Keeps (listen_unix env (temp_path dir))
  unfolding listen_unix
  listen_unix-Keeps = bind-Keeps (open_socket env) _ (open_socket-Keeps env) (λ h w. refl)

  bind_socket-Keeps : Keeps (bind_socket env dir path mode)
  unfolding bind_socket
  bind_socket-Keeps =
      bind-Keeps (or_cleanup (remove env dir) (listen_unix env (temp_path dir))) _
        (or_cleanup-Keeps (remove env dir) (listen_unix env (temp_path dir))
          (remove-KeepsFds env dir) listen_unix-Keeps)
        protect-Keeps

pub listen-Keeps : (env : Env) (path : Bytes) (mode : ℕ) → Keeps (listen env path mode)
unfolding listen make_temp_dir
listen-Keeps env path mode =
    bind-Keeps (make_temp_dir env (env.temp_dir path)) _
      (bind-Keeps (syscall_as no_temp_dir env) _ (syscall-Keeps no_temp_dir env) (λ u w. refl))
      (λ u. bind_socket-Keeps env (env.temp_dir path) path mode)
