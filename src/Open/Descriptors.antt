-- ===== src/Open/Descriptors.antt =====
-- open.go: the descriptors that `Open` and `OpenJSON` close.
use go_listener.Common.{ℕ, zero, suc, []}
use go_listener.Common.Text.{Bytes, codes, cut}
use go_listener.Json.{Fields, nothing, get, as_string}
use go_listener.System.{World, OpenError, Listener, M, Env}
use go_listener.System.Descriptors.{Released, Releases, fail-Releases, Option-Releases}
use go_listener.Registry.{
  OpenListenerFunc, open_fd, open_fdname, open_tcp, open_unix, open_proxy, open_https, custom,
  Registry, get_open_listener_func,
}
use go_listener.Builtin.Descriptors.{
  open_fd_listener-Releases, open_fdname_listener-Releases, open_tcp_listener-Releases,
  open_unix_listener-Releases, open_proxy_listener-Releases,
}
use go_listener.Https.Descriptors.{open_https_listener-Releases}
use go_listener.Open.{call, open_type, open_step, open_json_step, open_spec, open_json}

-- What is asked of the openers that a program registers.
abbrev pub CustomReleases : Env → Type 0
CustomReleases env = (n : ℕ) (params : Fields) (arg : Bytes) → Releases (env.custom n params arg)

module _ (env : Env) (reg : Registry) (customs : CustomReleases env) where
  module _ (o : Bytes → M Listener) (j : Fields → M Listener)
      (of_spec : (s : Bytes) → Releases (o s)) (of_json : (m : Fields) → Releases (j m)) where
    call-Releases :
        (f : OpenListenerFunc) (params : Fields) (arg : Bytes)
        → Releases (call env reg o j f params arg)
    unfolding call
    call-Releases open_fd params arg = open_fd_listener-Releases env params arg
    call-Releases open_fdname params arg = open_fdname_listener-Releases env params arg
    call-Releases open_tcp params arg = open_tcp_listener-Releases env params arg
    call-Releases open_unix params arg = open_unix_listener-Releases env params arg
    call-Releases open_proxy params arg =
        open_proxy_listener-Releases o j of_spec of_json params arg
    call-Releases open_https params arg =
        open_https_listener-Releases env o j of_spec of_json params arg
    call-Releases (custom n) params arg = customs n params arg

    open_type-Releases :
        (t : Bytes) (params : Fields) (arg : Bytes) → Releases (open_type env reg o j t params arg)
    unfolding open_type
    open_type-Releases t params arg =
        Option-Releases (get_open_listener_func t reg) _ _
          (fail-Releases (OpenError.unknown_type t)) λ f. call-Releases f params arg

    open_step-Releases : (spec : Bytes) → Releases (open_step env reg o j spec)
    unfolding open_step
    open_step-Releases spec =
        Option-Releases (cut spec b':') _ _ (open_tcp_listener-Releases env nothing spec)
          λ (t, arg). open_type-Releases t nothing arg

    open_json_step-Releases : (object : Fields) → Releases (open_json_step env reg o j object)
    unfolding open_json_step
    open_json_step-Releases object =
        Option-Releases (as_string (get (codes "type") object)) _ _
          (fail-Releases OpenError.no_type) λ t. open_type-Releases t object []

  mutual
    unfolding open_spec open_json

    spec-Releases : (fuel : ℕ) (spec : Bytes) → Releases (open_spec env reg fuel spec)
    spec-Releases zero spec = fail-Releases OpenError.exhausted
    spec-Releases (suc fuel) spec =
        open_step-Releases _ _ (spec-Releases fuel) (json-Releases fuel) spec

    json-Releases : (fuel : ℕ) (object : Fields) → Releases (open_json env reg fuel object)
    json-Releases zero object = fail-Releases OpenError.exhausted
    json-Releases (suc fuel) object =
        open_json_step-Releases _ _ (spec-Releases fuel) (json-Releases fuel) object

  -- If the openers that a program registers do the same: where Open or OpenJSON returns a listener, the
  -- descriptor given by number or by name that its socket was made from, if it was made from one, was
  -- closed, and no other; where one fails, it closed one such descriptor at most. So on every nesting
  -- of specifications and every pattern of failing system calls.
  pub open_spec-Released :
      (fuel : ℕ) (spec : Bytes) (object : Fields) (w : World)
      → Released w (open_spec env reg fuel spec w).0 (open_spec env reg fuel spec w).1
        × Released w (open_json env reg fuel object w).0 (open_json env reg fuel object w).1
  open_spec-Released fuel spec object w = (spec-Releases fuel spec w, json-Releases fuel object w)
