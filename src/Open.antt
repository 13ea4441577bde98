-- ===== src/Open.antt =====
-- open.go and close.go: opening by a string, by a JSON object, and many at once.
pub mod All
pub mod Sizes
pub mod Agree
pub mod Fuel
pub mod Notations
pub mod Meaning
pub mod Encoding
pub mod Sockets
pub mod Descriptors
pub mod Fits
pub mod Decoded
pub mod Returns
pub mod Types
pub mod Standard
use go_listener.Common.{
  ℕ, zero, suc, ◌+◌, Bool, true, false, Option, none, some, List, [], ◌∷◌, ◌++◌, if◌then◌else◌,
  Outcome, ok, err, panic,
}
use go_listener.Common.Text.{Bytes, codes, cut}
use go_listener.Json.{Json, Fields, nothing, get, as_string}
use go_listener.System.{World, Listener, Env, M, ◌>>=◌, ◌>>◌, pure, fail, OpenError, close}
use go_listener.Registry.{
  OpenListenerFunc, open_fd, open_fdname, open_tcp, open_unix, open_proxy, open_https, custom,
  Registry, get_open_listener_func,
}
use go_listener.Builtin.{
  open_fd_listener, open_fdname_listener, open_tcp_listener, open_unix_listener,
  open_proxy_listener,
}
use go_listener.Https.{open_https_listener}

module _ (env : Env) (reg : Registry) where
  -- A call of an `OpenListenerFunc`, given what `Open` and `OpenJSON` do.
  unfoldable pub call :
      (Bytes → M Listener) → (Fields → M Listener) → OpenListenerFunc → Fields → Bytes → M Listener
  call open_spec open_json open_fd params arg = open_fd_listener env params arg
  call open_spec open_json open_fdname params arg = open_fdname_listener env params arg
  call open_spec open_json open_tcp params arg = open_tcp_listener env params arg
  call open_spec open_json open_unix params arg = open_unix_listener env params arg
  call open_spec open_json open_proxy params arg =
      open_proxy_listener open_spec open_json params arg
  call open_spec open_json open_https params arg =
      open_https_listener env open_spec open_json params arg
  call open_spec open_json (custom n) params arg = env.custom n params arg

  -- `openType`
  unfoldable pub open_type :
      (Bytes → M Listener) → (Fields → M Listener) → Bytes → Fields → Bytes → M Listener
  unfolding call get_open_listener_func
  open_type open_spec open_json listener_type params arg =
      elim (get_open_listener_func listener_type reg) [
        | none ↦ fail (OpenError.unknown_type listener_type)
        | some f ↦ call open_spec open_json f params arg
      ]

  -- `Open` behind its test, given what the two functions do on smaller specifications.
  unfoldable pub open_step : (Bytes → M Listener) → (Fields → M Listener) → Bytes → M Listener
  unfolding cut open_type
  open_step open_spec open_json spec = elim (cut spec b':') [
    | some (listener_type, arg) ↦ open_type open_spec open_json listener_type nothing arg
    | none ↦ open_tcp_listener env nothing spec
  ]

  -- `OpenJSON`, in the same way.
  unfoldable pub open_json_step : (Bytes → M Listener) → (Fields → M Listener) → Fields → M Listener
  unfolding as_string get open_type
  open_json_step open_spec open_json spec = elim (as_string (get (codes "type") spec)) [
    | some listener_type ↦ open_type open_spec open_json listener_type spec []
    | none ↦ fail OpenError.no_type
  ]

  -- `Open` and `OpenJSON`, with fuel for the nesting of specifications.
  unfoldable mutual
    pub open_spec : ℕ → Bytes → M Listener
    open_spec zero spec = fail OpenError.exhausted
    open_spec (suc fuel) spec = open_step (open_spec fuel) (open_json fuel) spec

    pub open_json : ℕ → Fields → M Listener
    open_json zero spec = fail OpenError.exhausted
    open_json (suc fuel) spec = open_json_step (open_spec fuel) (open_json fuel) spec

-- `CloseAll`
unfoldable pub close_all : List Listener → World → World
close_all [] w = w
close_all (l ∷ ls) w = close_all ls (close l w)

-- What the loop of `OpenAll` does on the result of `Open`, given what it does on the rest.
unfoldable pub open_all_next :
    (List Listener → M (List Listener))
    → List Listener
    → Bytes
    → Outcome OpenError Listener × World
    → Outcome OpenError (List Listener) × World
unfolding close_all
open_all_next rest listeners spec (ok l, w) = rest (listeners ++ l ∷ []) w
open_all_next rest listeners spec (err e, w) =
    (err (OpenError.in_spec spec e), close_all listeners w)
open_all_next rest listeners spec (panic, w) = (panic, w)

-- The loop of `OpenAll` over the specifications left, with the listeners opened so far.
unfoldable pub open_all_onto : (Bytes → M Listener) → List Listener → List Bytes → M (List Listener)
unfolding open_all_next
open_all_onto opens listeners [] w = (ok listeners, w)
open_all_onto opens listeners (spec ∷ specs) w =
    open_all_next (λ ls. open_all_onto opens ls specs) listeners spec (opens spec w)

-- `OpenAll`, with the fuel of each `Open`.
unfoldable pub open_all : Env → Registry → ℕ → List Bytes → M (List Listener)
unfolding open_all_onto
open_all env reg fuel specs = open_all_onto (open_spec env reg fuel) [] specs
