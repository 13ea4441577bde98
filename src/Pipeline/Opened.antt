-- ===== src/Pipeline/Opened.antt =====
-- open.go, proxy/listener.go, proxy/conn.go and tls/listener.go: from the string of a specification to the
-- connections that a program gets.
use go_listener.Common.{ℕ, ◌<◌, ◌≡◌, sym, ap, ◌⊎◌, inl, inr, ◌∙◌, ◌↔◌, none, ok, length, ◌∷◌}
use mathlib.Core.Path.{subst}
use go_listener.Common.Text.{Bytes}
use go_listener.Json.{nothing}
use go_listener.Net.Conn.{Conn}
use go_listener.System.{
  World, Listener, net_listener, watched_listener, proxy_listener, tls_listener, TlsConfig, Env,
}
use go_listener.System.Yields.{IsOk, Yields, Yields-mono, wrap-Yields}
use go_listener.Registry.{Registry, open_fd, open_fdname, open_tcp, open_unix}
use go_listener.Builtin.{
  open_fd_listener, open_fdname_listener, open_tcp_listener, open_unix_listener,
}
use go_listener.Builtin.Types.{
  HasType, open_fd_listener-HasType, open_fdname_listener-HasType, open_tcp_listener-HasType,
  open_unix_listener-HasType,
}
use go_listener.Https.{source_of_spec, next_protos, default_name, wrap_tls}
use go_listener.Open.{open_spec}
use go_listener.Open.Meaning.{Spec, print, IsPrintable, meaning, IsStandard, open_spec-eq-meaning}
use go_listener.Proxy.Listener.Forwarded.{Sender, Sends, seen}
use go_listener.Pipeline.{Passes, Carries}
use go_listener.Pipeline.Exact.{Passes-eq, Carries-Passes}

none_of : ⊥ ⊎ (⊥ ⊎ (⊥ ⊎ ⊥)) → ⊥
none_of (inl t) = t
none_of (inr (inl t)) = t
none_of (inr (inr (inl t))) = t
none_of (inr (inr (inr t))) = t

module _ (env : Env) (server : TlsConfig → Conn → Conn) where
  -- The configuration of a TLS listener with this certificate in its specification.
  abbrev config_of : Bytes → TlsConfig
  config_of cert = record {
    source = source_of_spec cert;
    default_server_name = none;
    next_protos = next_protos env (source_of_spec cert);
  }

  -- What a client sends to the listener of a specification, a header for each `proxy:` in it, the one
  -- next to the socket first, and what the program is to see of that.
  abbrev Arrives : Spec → Conn → Conn → Type 0
  Arrives (Spec.proxy spec) raw conn =
      (sender : Sender) × (stream : Conn) × (under : Conn) × Arrives spec raw under
      × Sends sender stream under
      × (conn ≡ seen sender stream)
  Arrives (Spec.tls cert spec) raw conn =
      (under : Conn) × Arrives spec raw under × (conn ≡ server (config_of cert) under)
  Arrives (Spec.https cert spec) raw conn =
      (under : Conn) × Arrives spec raw under × (conn ≡ server (config_of cert) under)
  Arrives _ raw conn = conn ≡ raw

  abbrev IsBuilt : Spec → Listener → Type 0
  IsBuilt spec l = (raw conn : Conn) → Arrives spec raw conn → Carries server l raw conn

  -- A socket passes on what arrives on it.
  socket-Carries :
      (l : Listener)
      → HasType open_fd l ⊎ (HasType open_fdname l ⊎ (HasType open_tcp l ⊎ HasType open_unix l))
      → (raw conn : Conn) → conn ≡ raw
      → Carries server l raw conn
  socket-Carries (net_listener h b) t raw conn e = e
  socket-Carries (watched_listener h p) t raw conn e = e
  socket-Carries (proxy_listener l) t raw conn e = absurd (none_of t)
  socket-Carries (tls_listener config l) t raw conn e = absurd (none_of t)

  meaning-IsBuilt : (spec : Spec) → Yields (IsBuilt spec) (meaning env spec)
  unfolding meaning wrap_tls default_name
  meaning-IsBuilt (Spec.fd c s) =
      Yields-mono (HasType open_fd) (IsBuilt (Spec.fd c s)) (open_fd_listener env nothing (c ∷ s))
        (λ l t. socket-Carries l (inl t)) (open_fd_listener-HasType env nothing (c ∷ s))
  meaning-IsBuilt (Spec.fdname c s) =
      Yields-mono (HasType open_fdname) (IsBuilt (Spec.fdname c s))
        (open_fdname_listener env nothing (c ∷ s)) (λ l t. socket-Carries l (inr (inl t)))
        (open_fdname_listener-HasType env nothing (c ∷ s))
  meaning-IsBuilt (Spec.tcp c s) =
      Yields-mono (HasType open_tcp) (IsBuilt (Spec.tcp c s))
        (open_tcp_listener env nothing (c ∷ s)) (λ l t. socket-Carries l (inr (inr (inl t))))
        (open_tcp_listener-HasType env nothing (c ∷ s))
  meaning-IsBuilt (Spec.unix c s) =
      Yields-mono (HasType open_unix) (IsBuilt (Spec.unix c s))
        (open_unix_listener env nothing (c ∷ s)) (λ l t. socket-Carries l (inr (inr (inr t))))
        (open_unix_listener-HasType env nothing (c ∷ s))
  meaning-IsBuilt (Spec.port c s) =
      Yields-mono (HasType open_tcp) (IsBuilt (Spec.port c s))
        (open_tcp_listener env nothing (c ∷ s)) (λ l t. socket-Carries l (inr (inr (inl t))))
        (open_tcp_listener-HasType env nothing (c ∷ s))
  meaning-IsBuilt (Spec.proxy spec) =
      wrap-Yields (IsBuilt spec) (IsBuilt (Spec.proxy spec)) proxy_listener (meaning env spec)
        (λ l b raw conn (sender, stream, under, k, r, e).
          (sender, stream, under, b raw under k, r, e))
        (meaning-IsBuilt spec)
  meaning-IsBuilt (Spec.tls cert spec) =
      wrap-Yields (IsBuilt spec) (IsBuilt (Spec.tls cert spec)) (tls_listener (config_of cert))
        (meaning env spec) (λ l b raw conn (under, k, e). (under, b raw under k, e))
        (meaning-IsBuilt spec)
  meaning-IsBuilt (Spec.https cert spec) =
      wrap-Yields (IsBuilt spec) (IsBuilt (Spec.https cert spec)) (tls_listener (config_of cert))
        (meaning env spec) (λ l b raw conn (under, k, e). (under, b raw under k, e))
        (meaning-IsBuilt spec)

module _ (env : Env) (reg : Registry) (standard : IsStandard reg)
    (server : TlsConfig → Conn → Conn) where
  -- Open of the string of a specification, on more fuel than it has bytes, in a table where the types
  -- have the openers of the packages, where a bare port and the certificate of a TLS listener have no
  -- colon in them. If it returns a listener, and what arrives on a connection is, for each `proxy:` of
  -- the specification, a header and then the rest, where the header is one that `Format` wrote for two
  -- TCP or two UDP addresses of one IP version, with ports of 16 bits, or has the command LOCAL: there
  -- is exactly one connection that a caller of `Accept` may get of it, in whatever runs of the layers.
  -- Each PROXY layer takes its header off and gives the addresses of it, or for LOCAL those that it
  -- found; each TLS layer makes of what it finds what `tls.Server` does with the configuration that
  -- the specification says.
  pub open_spec-Passes :
      (spec : Spec) (n : ℕ)
      → length (print spec) < n
      → IsPrintable spec
      → (w w' : World) (l : Listener) → open_spec env reg n (print spec) w ≡ (ok l, w')
      → (client : ℕ → Conn) (c : ℕ) (final : Conn) → Arrives env server spec (client c) final
      → (conn : Conn) → Passes server client l c conn ↔ (conn ≡ final)
  open_spec-Passes spec n len printable w w' l opened client c final arrives conn =
      let meant : meaning env spec w ≡ (ok l, w') =
        sym (ap (λ m. m w) (open_spec-eq-meaning env reg standard spec n len printable)) ∙ opened in
      let built : IsBuilt env server spec l =
        subst (IsOk (IsBuilt env server spec)) (ap (λ r. r.0) meant)
          (meaning-IsBuilt env server spec w) in
      let carries = built (client c) final arrives in
      (
        Passes-eq server client l c conn final carries,
        λ e.
            subst (Passes server client l c) (sym e)
              (Carries-Passes server client l c final carries),
      )
