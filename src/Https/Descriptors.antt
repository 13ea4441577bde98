-- ===== src/Https/Descriptors.antt =====
-- tls/listener.go: the descriptors that `openHTTPSListener` closes.
use go_listener.Common.{refl}
use go_listener.Common.Text.{Bytes, codes, is_empty, cut}
use go_listener.Json.{Fields, get, as_object}
use go_listener.System.{OpenError, Listener, tls_listener, CertSource, M, Env}
use go_listener.System.Descriptors.{
  Releases, fail-Releases, map-Releases, Option-Releases, if-Releases,
}
use go_listener.Https.{
  wrap_tls, open_https_argument, open_https_params, open_https_listener, source_of_params,
  source_of_spec,
}

module _ (env : Env) (open_spec : Bytes → M Listener) (open_json : Fields → M Listener)
    (of_spec : (s : Bytes) → Releases (open_spec s))
    (of_json : (m : Fields) → Releases (open_json m)) where
  wrap_tls-Releases :
      (params : Fields) (source : CertSource) (m : M Listener)
      → Releases m
      → Releases (wrap_tls env params source m)
  unfolding wrap_tls
  wrap_tls-Releases params source m r = map-Releases (tls_listener _) (λ l. refl) m r

  argument-Releases :
      (params : Fields) (arg : Bytes) → Releases (open_https_argument env open_spec params arg)
  unfolding open_https_argument
  argument-Releases params arg =
      Option-Releases (cut arg b':') _ _ (fail-Releases OpenError.bad_tls_spec)
        λ (cert, inner). wrap_tls-Releases params (source_of_spec cert) _ (of_spec inner)

  params-Releases : (params : Fields) → Releases (open_https_params env open_json params)
  unfolding open_https_params
  params-Releases params =
      Option-Releases (source_of_params params) _ _ (fail-Releases OpenError.no_certificate)
        λ source.
          Option-Releases (as_object (get (codes "listener") params)) _ _
            (fail-Releases OpenError.no_inner)
            λ spec. wrap_tls-Releases params source _ (of_json spec)

  pub open_https_listener-Releases :
      (params : Fields) (arg : Bytes)
      → Releases (open_https_listener env open_spec open_json params arg)
  unfolding open_https_listener
  open_https_listener-Releases params arg =
      if-Releases (is_empty arg) _ _ (params-Releases params) (argument-Releases params arg)
