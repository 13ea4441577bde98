-- ===== src/Https/Sockets.antt =====
-- tls/listener.go: the sockets of `openHTTPSListener`.
use go_listener.Common.{refl}
use go_listener.Common.Text.{Bytes, codes, is_empty, cut}
use go_listener.Json.{Fields, get, as_object}
use go_listener.System.{OpenError, Listener, tls_listener, CertSource, M, Env}
use go_listener.System.Sockets.{IsTidy, fail-IsTidy, map-IsTidy, Option-IsTidy, if-IsTidy}
use go_listener.Https.{
  wrap_tls, open_https_argument, open_https_params, open_https_listener, source_of_params,
  source_of_spec,
}

module _ (env : Env) (open_spec : Bytes → M Listener) (open_json : Fields → M Listener)
    (tidy_spec : (s : Bytes) → IsTidy (open_spec s))
    (tidy_json : (m : Fields) → IsTidy (open_json m)) where
  wrap_tls-IsTidy :
      (params : Fields) (source : CertSource) (m : M Listener)
      → IsTidy m
      → IsTidy (wrap_tls env params source m)
  unfolding wrap_tls
  wrap_tls-IsTidy params source m t = map-IsTidy (tls_listener _) (λ l. refl) m t

  open_https_argument-IsTidy :
      (params : Fields) (arg : Bytes) → IsTidy (open_https_argument env open_spec params arg)
  unfolding open_https_argument
  open_https_argument-IsTidy params arg =
      Option-IsTidy (cut arg b':') _ _ (fail-IsTidy OpenError.bad_tls_spec)
        λ (cert_spec, inner_spec).
          wrap_tls-IsTidy params (source_of_spec cert_spec) _ (tidy_spec inner_spec)

  open_https_params-IsTidy : (params : Fields) → IsTidy (open_https_params env open_json params)
  unfolding open_https_params
  open_https_params-IsTidy params =
      Option-IsTidy (source_of_params params) _ _ (fail-IsTidy OpenError.no_certificate) λ source.
        Option-IsTidy (as_object (get (codes "listener") params)) _ _
          (fail-IsTidy OpenError.no_inner) λ spec. wrap_tls-IsTidy params source _ (tidy_json spec)

  pub open_https_listener-IsTidy :
      (params : Fields) (arg : Bytes)
      → IsTidy (open_https_listener env open_spec open_json params arg)
  unfolding open_https_listener
  open_https_listener-IsTidy params arg =
      if-IsTidy (is_empty arg) _ _ (open_https_params-IsTidy params)
        (open_https_argument-IsTidy params arg)
