-- ===== src/Open/Sockets.antt =====
-- open.go: the sockets of `Open` and `OpenJSON`.
use go_listener.Common.{ℕ, zero, suc, []}
use go_listener.Common.Text.{Bytes, codes, cut}
use go_listener.Json.{Fields, nothing, get, as_string}
use go_listener.System.{World, OpenError, Listener, M, Env}
use go_listener.System.Sockets.{AreBelow, Opened, IsTidy, fail-IsTidy, Option-IsTidy}
use go_listener.Registry.{
  OpenListenerFunc, open_fd, open_fdname, open_tcp, open_unix, open_proxy, open_https, custom,
  Registry, get_open_listener_func,
}
use go_listener.Builtin.Sockets.{
  open_fd_listener-IsTidy, open_fdname_listener-IsTidy, open_tcp_listener-IsTidy,
  open_unix_listener-IsTidy, open_proxy_listener-IsTidy,
}
use go_listener.Https.Sockets.{open_https_listener-IsTidy}
use go_listener.Open.{call, open_type, open_step, open_json_step, open_spec, open_json}

-- What is asked of the openers that a program registers.
abbrev pub CustomIsTidy : Env → Type 0
CustomIsTidy env = (n : ℕ) (params : Fields) (arg : Bytes) → IsTidy (env.custom n params arg)

module _ (env : Env) (reg : Registry) (tidy : CustomIsTidy env) where
  module _ (o : Bytes → M Listener) (j : Fields → M Listener) (to : (s : Bytes) → IsTidy (o s))
      (tj : (m : Fields) → IsTidy (j m)) where
    call-IsTidy :
        (f : OpenListenerFunc) (params : Fields) (arg : Bytes)
        → IsTidy (call env reg o j f params arg)
    unfolding call
    call-IsTidy open_fd params arg = open_fd_listener-IsTidy env params arg
    call-IsTidy open_fdname params arg = open_fdname_listener-IsTidy env params arg
    call-IsTidy open_tcp params arg = open_tcp_listener-IsTidy env params arg
    call-IsTidy open_unix params arg = open_unix_listener-IsTidy env params arg
    call-IsTidy open_proxy params arg = open_proxy_listener-IsTidy o j to tj params arg
    call-IsTidy open_https params arg = open_https_listener-IsTidy env o j to tj params arg
    call-IsTidy (custom n) params arg = tidy n params arg

    open_type-IsTidy :
        (t : Bytes) (params : Fields) (arg : Bytes) → IsTidy (open_type env reg o j t params arg)
    unfolding open_type
    open_type-IsTidy t params arg =
        Option-IsTidy (get_open_listener_func t reg) _ _ (fail-IsTidy (OpenError.unknown_type t))
          λ f. call-IsTidy f params arg

    open_step-IsTidy : (spec : Bytes) → IsTidy (open_step env reg o j spec)
    unfolding open_step
    open_step-IsTidy spec =
        Option-IsTidy (cut spec b':') _ _ (open_tcp_listener-IsTidy env nothing spec)
          λ (t, arg). open_type-IsTidy t nothing arg

    open_json_step-IsTidy : (spec : Fields) → IsTidy (open_json_step env reg o j spec)
    unfolding open_json_step
    open_json_step-IsTidy spec =
        Option-IsTidy (as_string (get (codes "type") spec)) _ _ (fail-IsTidy OpenError.no_type)
          λ t. open_type-IsTidy t spec []

  mutual
    unfolding open_spec open_json

    spec-IsTidy : (fuel : ℕ) (spec : Bytes) → IsTidy (open_spec env reg fuel spec)
    spec-IsTidy zero spec = fail-IsTidy OpenError.exhausted
    spec-IsTidy (suc fuel) spec = open_step-IsTidy _ _ (spec-IsTidy fuel) (json-IsTidy fuel) spec

    json-IsTidy : (fuel : ℕ) (spec : Fields) → IsTidy (open_json env reg fuel spec)
    json-IsTidy zero spec = fail-IsTidy OpenError.exhausted
    json-IsTidy (suc fuel) spec =
        open_json_step-IsTidy _ _ (spec-IsTidy fuel) (json-IsTidy fuel) spec

  pub open_spec-IsTidy : (fuel : ℕ) (spec : Bytes) → IsTidy (open_spec env reg fuel spec)
  open_spec-IsTidy = spec-IsTidy

  -- In a world where the handles in use are below the next one, and if the openers that a program
  -- registers do the same, Open and OpenJSON open exactly one new socket, which the listener that they
  -- return closes, or fail or panic and leave the open sockets as they were. So on every nesting of
  -- specifications and every pattern of failing system calls.
  pub open_spec-Opened :
      (fuel : ℕ) (spec : Bytes) (object : Fields) (w : World)
      → AreBelow w.next w.live
      → Opened w (open_spec env reg fuel spec w).0 (open_spec env reg fuel spec w).1
        × Opened w (open_json env reg fuel object w).0 (open_json env reg fuel object w).1
  open_spec-Opened fuel spec object w below =
      (spec-IsTidy fuel spec w below, json-IsTidy fuel object w below)
