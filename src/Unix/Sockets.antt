-- ===== src/Unix/Sockets.antt =====
-- unix/listener.go: the sockets of `Listen`.
use go_listener.Common.{
  ℕ, ◌+◌, ◌≡◌, refl, ap, ◌∙◌, arith, none, some, ◌∷◌, err, Option-cases, inl, inr, Outcome,
}
use go_listener.Common.Text.{Bytes}
use go_listener.System.{
  World, OpenError, system, Listener, Env, socket, tick, remove_handle, close_handle, directory,
}
use go_listener.System.Sockets.{AreBelow, Opened, IsTidy, remove_handle-fresh}
use go_listener.Unix.{
  temp_path, listen, bind_socket, protect, identify, install, cleanup, remove, rename, set_mode,
  put,
}
use go_listener.Unix.Cleanup.{
  install-ok, install-err, identify-ok, identify-err, protect-ok, protect-err, bind_socket-ok,
  bind_socket-err, listen-ok, listen-err,
}

remove_keeps :
    (env : Env) (p : Bytes) (w : World)
    → ((remove env p w).live ≡ w.live) × ((remove env p w).next ≡ w.next)
unfolding remove
remove_keeps env p w = ground arith

cleanup_keeps :
    (env : Env) (dir : Bytes) (w : World)
    → ((cleanup env dir none w).live ≡ w.live) × ((cleanup env dir none w).next ≡ w.next)
unfolding cleanup
cleanup_keeps env dir w =
    let first = remove_keeps env (temp_path dir) w in
    let second = remove_keeps env dir (remove env (temp_path dir) w) in
    (second.0 ∙ first.0, second.1 ∙ first.1)

module _ (env : Env) (dir path : Bytes) (mode : ℕ) (w : World)
    (below : AreBelow w.next w.live) where
  -- A world in which the socket opened for this listener is the newest.
  abbrev Holds : World → Type 0
  Holds u = (u.live ≡ w.next ∷ w.live) × (u.next ≡ w.next + 1)

  abbrev Result : Outcome OpenError Listener × World → Type 0
  Result (r, u) = Opened w r u

  undone : (e : ℕ) (u : World) → Holds u → Result (err (system e), cleanup env dir (some w.next) u)
  unfolding cleanup close_handle remove_handle
  undone e u h =
      let closed = close_handle w.next u in
      let (live, next) = cleanup_keeps env dir closed in
      (
        live ∙ rw h.0 (ground (arith, remove_handle-fresh w.next w.live below)),
        omega (arith, next, h.1),
      )

  install-Opened : (u : World) → Holds u → Result (install env dir path mode w.next u)
  unfolding cleanup rename
  install-Opened u h = elim (Option-cases (env.fails u.clock)) [
    | inl f ↦ rw (install-ok env dir path mode w.next u f) (
        let (live, next) =
          cleanup_keeps env dir (rename (temp_path dir) path (socket w.next mode) (tick u)) in
        (live ∙ h.0, omega arith, omega (arith, next, h.1)))
    | inr (e, f) ↦ rw (install-err env dir path mode w.next u e f) (undone e (tick u) h)
  ]

  identify-Opened : (u : World) → Holds u → Result (identify env dir path mode w.next u)
  identify-Opened u h = elim (Option-cases (env.fails u.clock)) [
    | inl f ↦ rw (identify-ok env dir path mode w.next u f) (install-Opened (tick u) h)
    | inr (e, f) ↦ rw (identify-err env dir path mode w.next u e f) (undone e (tick u) h)
  ]

  protect-Opened : (u : World) → Holds u → Result (protect env dir path mode w.next u)
  unfolding set_mode
  protect-Opened u h = elim (Option-cases (env.fails u.clock)) [
    | inl f ↦ rw (protect-ok env dir path mode w.next u f) (identify-Opened _ h)
    | inr (e, f) ↦ rw (protect-err env dir path mode w.next u e f) (undone e (tick u) h)
  ]

  bind_socket-Opened :
      (u : World) → u.live ≡ w.live → u.next ≡ w.next → Result (bind_socket env dir path mode u)
  bind_socket-Opened u hl hn = elim (Option-cases (env.fails u.clock)) [
    | inl f ↦
        rw (bind_socket-ok env dir path mode u f, hn) (protect-Opened _ (ap (◌∷◌ w.next) hl, refl))
    | inr (e, f) ↦
        rw (bind_socket-err env dir path mode u e f)
          (let (live, next) = remove_keeps env dir (tick u) in (live ∙ hl, omega (arith, next)))
  ]

pub listen-IsTidy : (env : Env) (path : Bytes) (mode : ℕ) → IsTidy (listen env path mode)
listen-IsTidy env path mode w b = elim (Option-cases (env.fails w.clock)) [
  | inl f ↦ rw (listen-ok env path mode w f) (
      bind_socket-Opened env (env.temp_dir path) path mode w b
        (put (env.temp_dir path) directory (tick w)) refl refl)
  | inr (e, f) ↦ rw (listen-err env path mode w e f) (refl, omega arith)
]
