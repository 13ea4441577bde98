-- ===== src/Open/Types.antt =====
-- open.go and tls/listener.go: the dynamic types of the listeners.
use go_listener.Common.{ℕ, zero, suc, ◌≡◌, refl, Option, none, some, []}
use go_listener.Common.Text.{Bytes, codes, cut, is_empty}
use go_listener.Json.{Fields, nothing, get, as_string, as_object}
use go_listener.System.{World, Listener, tls_listener, M, Env, OpenError, CertSource, fail}
use go_listener.System.Yields.{
  IsOk, Yields, fail-Yields, map-Yields, any-Yields, Yields-mono, Option-Yields, Option-Yields_each,
  if-Yields,
}
use go_listener.Registry.{
  OpenListenerFunc, open_fd, open_fdname, open_tcp, open_unix, open_proxy, open_https, custom,
  Registry, get_open_listener_func,
}
use go_listener.Builtin.Types.{
  HasType, open_fd_listener-HasType, open_fdname_listener-HasType, open_tcp_listener-HasType,
  open_unix_listener-HasType, open_proxy_listener-HasType,
}
use go_listener.Https.{
  wrap_tls, open_https_argument, open_https_params, open_https_listener, source_of_params,
  source_of_spec,
}
use go_listener.Open.{call, open_type, open_step, open_json_step, open_spec, open_json}

wrap_tls-HasType :
    (env : Env) (params : Fields) (source : CertSource) (m : M Listener)
    → Yields (HasType open_https) (wrap_tls env params source m)
unfolding wrap_tls
wrap_tls-HasType env params source m = map-Yields (HasType open_https) (tls_listener _) m (λ l. tt)

module _ (env : Env) (reg : Registry) where
  -- The table has an opener for a type of listener, and this is one that it makes.
  abbrev IsNamed : Bytes → Listener → Type 0
  IsNamed t l = (f : OpenListenerFunc) × (get_open_listener_func t reg ≡ some f) × HasType f l

  module _ (o : Bytes → M Listener) (j : Fields → M Listener) where
    open_https_listener-HasType :
        (params : Fields) (arg : Bytes)
        → Yields (HasType open_https) (open_https_listener env o j params arg)
    unfolding open_https_listener open_https_argument open_https_params
    open_https_listener-HasType params arg =
        if-Yields (HasType open_https) (is_empty arg) _ _
          (Option-Yields (HasType open_https) (source_of_params params) _ _
            (fail-Yields (HasType open_https) OpenError.no_certificate)
            λ source.
              Option-Yields (HasType open_https) (as_object (get (codes "listener") params)) _ _
                (fail-Yields (HasType open_https) OpenError.no_inner)
                λ spec. wrap_tls-HasType env params source (j spec))
          (Option-Yields (HasType open_https) (cut arg b':') _ _
            (fail-Yields (HasType open_https) OpenError.bad_tls_spec)
            λ (cert_spec, inner_spec).
              wrap_tls-HasType env params (source_of_spec cert_spec) (o inner_spec))

    call-HasType :
        (f : OpenListenerFunc) (params : Fields) (arg : Bytes)
        → Yields (HasType f) (call env reg o j f params arg)
    unfolding call
    call-HasType open_fd params arg = open_fd_listener-HasType env params arg
    call-HasType open_fdname params arg = open_fdname_listener-HasType env params arg
    call-HasType open_tcp params arg = open_tcp_listener-HasType env params arg
    call-HasType open_unix params arg = open_unix_listener-HasType env params arg
    call-HasType open_proxy params arg = open_proxy_listener-HasType o j params arg
    call-HasType open_https params arg = open_https_listener-HasType params arg
    call-HasType (custom n) params arg =
        any-Yields (HasType (custom n)) (env.custom n params arg) (λ l. tt)

    open_type-IsNamed :
        (t : Bytes) (params : Fields) (arg : Bytes)
        → Yields (IsNamed t) (open_type env reg o j t params arg)
    unfolding open_type
    open_type-IsNamed t params arg = go (get_open_listener_func t reg) refl
      where
        go :
            (r : Option OpenListenerFunc)
            → get_open_listener_func t reg ≡ r
            → Yields (IsNamed t) (elim r [
              | none ↦ fail (OpenError.unknown_type t)
              | some f ↦ call env reg o j f params arg
            ])
        go none e = fail-Yields (IsNamed t) (OpenError.unknown_type t)
        go (some f) e =
            Yields-mono (HasType f) (IsNamed t) (call env reg o j f params arg) (λ l p. (f, e, p))
              (call-HasType f params arg)

  -- What `Open` of a string may return, by the part of it before the first colon.
  abbrev pub IsOfSpec : Bytes → Listener → Type 0
  unfolding cut
  IsOfSpec spec l = elim (cut spec b':') [ some (t, arg) ↦ IsNamed t l | none ↦ HasType open_tcp l ]

  -- What `OpenJSON` of an object may return, by its field `type`.
  abbrev pub IsOfObject : Fields → Listener → Type 0
  unfolding as_string get
  IsOfObject spec l = elim (as_string (get (codes "type") spec)) [ some t ↦ IsNamed t l | none ↦ ⊥ ]

  both-HasType :
      (fuel : ℕ)
      → ((spec : Bytes) → Yields (IsOfSpec spec) (open_spec env reg fuel spec))
        × ((spec : Fields) → Yields (IsOfObject spec) (open_json env reg fuel spec))
  unfolding open_spec open_json open_step open_json_step
  both-HasType zero = (
    λ spec. fail-Yields (IsOfSpec spec) OpenError.exhausted,
    λ spec. fail-Yields (IsOfObject spec) OpenError.exhausted,
  )
  both-HasType (suc fuel) =
      let o = open_spec env reg fuel in
      let j = open_json env reg fuel in
      (
        λ spec.
            Option-Yields_each (HasType open_tcp) (λ (t, arg) l. IsNamed t l) (cut spec b':') _ _
              (open_tcp_listener-HasType env nothing spec)
              (λ (t, arg). open_type-IsNamed o j t nothing arg),
        λ spec.
            Option-Yields_each (λ l. ⊥) IsNamed (as_string (get (codes "type") spec)) _ _
              (fail-Yields (λ l. ⊥) OpenError.no_type) (λ t. open_type-IsNamed o j t spec []),
      )

  -- The dynamic type of every listener that `Open` and `OpenJSON` return, in whatever world and with
  -- whatever table: the table has an opener for the type of the specification, and the listener is one
  -- that this opener makes. The openers of the packages make a socket of a descriptor for `fd` and
  -- `fdname`, one of an address for `tcp`, a watched one for `unix`, a PROXY listener for `proxy` and a
  -- TLS listener for `tls` and `https`. A string without a colon gives a socket of an address, and an
  -- object without a type nothing.
  pub open_spec-HasType :
      (fuel : ℕ) (spec : Bytes) (object : Fields) (w : World)
      → IsOk (IsOfSpec spec) (open_spec env reg fuel spec w).0
        × IsOk (IsOfObject object) (open_json env reg fuel object w).0
  open_spec-HasType fuel spec object w =
      ((both-HasType fuel).0 spec w, (both-HasType fuel).1 object w)
