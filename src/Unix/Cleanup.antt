-- ===== src/Unix/Cleanup.antt =====
-- unix/listener.go: the files and the sockets that `Listen` leaves behind.
use go_listener.Common.{
  ℕ, ◌+◌, ◌<◌, ◌≤◌, false, none, some, ◌∷◌, ◌++◌, ◌≡◌, ◌≢◌, refl, arith, All, Option-cases, inl,
  inr, Outcome, ok, err, panic,
}
use go_listener.Common.Text.{Bytes, codes}
use go_listener.System.{
  World, directory, socket, Listener, watched_listener, OpenError, system, no_temp_dir, Env,
  open_socket, remove_handle, tick, syscall_as,
}
use go_listener.Unix.{
  put, bind_socket, protect, identify, install, erase, has_prefix, temp_path, listen, make_temp_dir,
  listen_unix, cleanup, set_mode, rename, remove, default_mode,
}
use go_listener.Unix.Laws.{
  IsFresh, holding, remove-dir, cleanup-open, chmod-files, rename-files, cleanup-renamed,
  remove_handle-fresh,
}

-- The result of `Listen` on `path`, in a world that was `w`.
abbrev pub Listened : Bytes → ℕ → World → Outcome OpenError Listener → World → Type 0
Listened path mode w (ok l) w' =
    (l ≡ watched_listener w.next path)
    × (w'.files ≡ (path, socket w.next mode) ∷ erase path w.files)
    × (w'.live ≡ w.next ∷ w.live)
    × (w'.next ≡ w.next + 1)
Listened path mode w (err e) w' = (w'.files ≡ w.files) × (w'.live ≡ w.live) × (w.next ≤ w'.next)
Listened path mode w panic w' = ⊥

-- One call of `Listen` at a time.
module _ (env : Env) (dir path : Bytes) (mode h : ℕ) (w : World) where
  pub install-ok :
      env.fails w.clock ≡ none
      → install env dir path mode h w ≡ (
        ok (watched_listener h path),
        cleanup env dir none (rename (temp_path dir) path (socket h mode) (tick w)),
      )
  unfolding install syscall_as
  install-ok f = ground arith

  pub install-err :
      (e : ℕ)
      → env.fails w.clock ≡ some e
      → install env dir path mode h w ≡ (err (system e), cleanup env dir (some h) (tick w))
  unfolding install syscall_as
  install-err e f = ground arith

  pub identify-ok :
      env.fails w.clock ≡ none
      → identify env dir path mode h w ≡ install env dir path mode h (tick w)
  unfolding identify syscall_as
  identify-ok f = ground arith

  pub identify-err :
      (e : ℕ)
      → env.fails w.clock ≡ some e
      → identify env dir path mode h w ≡ (err (system e), cleanup env dir (some h) (tick w))
  unfolding identify syscall_as
  identify-err e f = ground arith

  pub protect-ok :
      env.fails w.clock ≡ none
      → protect env dir path mode h w
        ≡ identify env dir path mode h (set_mode (temp_path dir) h mode (tick w))
  unfolding protect syscall_as
  protect-ok f = ground arith

  pub protect-err :
      (e : ℕ)
      → env.fails w.clock ≡ some e
      → protect env dir path mode h w ≡ (err (system e), cleanup env dir (some h) (tick w))
  unfolding protect syscall_as
  protect-err e f = ground arith

module _ (env : Env) (dir path : Bytes) (mode : ℕ) (w : World) where
  pub bind_socket-ok :
      env.fails w.clock ≡ none
      → bind_socket env dir path mode w
        ≡ protect env dir path mode w.next (record w {
          clock = w.clock + 1;
          next = w.next + 1;
          live = w.next ∷ w.live;
          files = (temp_path dir, socket w.next default_mode) ∷ w.files;
        })
  unfolding bind_socket listen_unix open_socket syscall_as
  bind_socket-ok f = ground arith

  pub bind_socket-err :
      (e : ℕ)
      → env.fails w.clock ≡ some e
      → bind_socket env dir path mode w ≡ (err (system e), remove env dir (tick w))
  unfolding bind_socket listen_unix open_socket syscall_as
  bind_socket-err e f = ground arith

module _ (env : Env) (path : Bytes) (mode : ℕ) (w : World) where
  pub listen-ok :
      env.fails w.clock ≡ none
      → listen env path mode w
        ≡ bind_socket env (env.temp_dir path) path mode (put (env.temp_dir path) directory (tick w))
  unfolding listen make_temp_dir syscall_as
  listen-ok f = ground arith

  pub listen-err :
      (e : ℕ) → env.fails w.clock ≡ some e → listen env path mode w ≡ (err (no_temp_dir e), tick w)
  unfolding listen make_temp_dir syscall_as
  listen-err e f = ground arith

module _ (env : Env) (path : Bytes) (mode : ℕ) (w : World)
    (fresh : IsFresh env (env.temp_dir path) w.files) (elsewhere : path ≢ env.temp_dir path)
    (outside : has_prefix path (env.temp_dir path ++ codes "/") ≡ false)
    (below : All (λ h. h < w.next) w.live) where
  abbrev dir : Bytes
  dir = env.temp_dir path

  abbrev Result : Outcome OpenError Listener × World → Type 0
  Result (r, w') = Listened path mode w r w'

  -- The world with the socket open, at a later call.
  abbrev bound : ℕ → World
  bound k = record w { clock = k; next = w.next + 1; live = w.next ∷ w.live }

  handle_removed : remove_handle w.next (w.next ∷ w.live) ≡ w.live
  unfolding remove_handle
  handle_removed = ground (arith, remove_handle-fresh w.next w.live below)

  -- The deferred calls after a failure between the socket's creation and the rename.
  undone :
      (k m e : ℕ)
      → Result (
        err (system e),
        cleanup env dir (some w.next) (holding fresh (bound k) (socket w.next m)),
      )
  undone k m e = rw (cleanup-open fresh (bound k) w.next m) (refl, handle_removed, omega arith)

  abbrev here : ℕ → ℕ → World
  here k m = holding fresh (bound k) (socket w.next m)

  abbrev made : ℕ → World
  made k = record w { clock = k; files = (dir, directory) ∷ w.files }

  install-Result : (k : ℕ) → Result (install env dir path mode w.next (here k mode))
  install-Result k = elim (Option-cases (env.fails k)) [
    | inl f ↦
        rw
          (
            install-ok env dir path mode w.next (here k mode) f,
            rename-files fresh (socket w.next mode) elsewhere outside (bound (k + 1))
                (socket w.next mode),
            cleanup-renamed fresh (socket w.next mode) elsewhere outside (bound (k + 1)),
          )
          (refl, refl, refl, refl)
    | inr (e, f) ↦
        rw (install-err env dir path mode w.next (here k mode) e f) (undone (k + 1) mode e)
  ]

  identify-Result : (k : ℕ) → Result (identify env dir path mode w.next (here k mode))
  identify-Result k = elim (Option-cases (env.fails k)) [
    | inl f ↦ rw (identify-ok env dir path mode w.next (here k mode) f) (install-Result (k + 1))
    | inr (e, f) ↦
        rw (identify-err env dir path mode w.next (here k mode) e f) (undone (k + 1) mode e)
  ]

  protect-Result : (k m : ℕ) → Result (protect env dir path mode w.next (here k m))
  protect-Result k m = elim (Option-cases (env.fails k)) [
    | inl f ↦
        rw
          (
            protect-ok env dir path mode w.next (here k m) f,
            chmod-files fresh (bound (k + 1)) (socket w.next m) w.next mode,
          )
          (identify-Result (k + 1))
    | inr (e, f) ↦ rw (protect-err env dir path mode w.next (here k m) e f) (undone (k + 1) m e)
  ]

  bind_socket-Result : (k : ℕ) → Result (bind_socket env dir path mode (made k))
  bind_socket-Result k = elim (Option-cases (env.fails k)) [
    | inl f ↦ rw (bind_socket-ok env dir path mode (made k) f) (protect-Result (k + 1) default_mode)
    | inr (e, f) ↦
        rw
          (
            bind_socket-err env dir path mode (made k) e f,
            remove-dir fresh (record w { clock = k + 1 }),
          )
          (refl, refl, omega arith)
  ]

  -- Listen of a UNIX socket, at whatever call it fails, leaves no file, no directory and no open
  -- socket behind. Where it succeeds, the socket that it opened stands at the path with the mode
  -- asked for, in the place of what stood there, all other files are as they were, and the
  -- temporary ones are gone. The temporary directory is new, the path is outside it, no removal
  -- fails, and the handles in use are below the next one.
  pub listen-Listened : Listened path mode w (listen env path mode w).0 (listen env path mode w).1
  listen-Listened = elim (Option-cases (env.fails w.clock)) [
    | inl f ↦ rw (listen-ok env path mode w f) (bind_socket-Result (w.clock + 1))
    | inr (e, f) ↦ rw (listen-err env path mode w e f) (refl, refl, omega arith)
  ]
