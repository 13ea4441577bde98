-- ===== src/Https/Returns.antt =====
-- tls/listener.go: `openHTTPSListener` returns.
use go_listener.Common.{◌≡◌, some}
use go_listener.Common.Text.{Bytes, codes, is_empty, cut}
use go_listener.Json.{Fields, get, as_object}
use go_listener.System.{OpenError, Listener, tls_listener, CertSource, M, Env}
use go_listener.System.Returns.{
  Returns, fail-Returns, map-Returns, Option-Returns, Option-Returns_each, if-Returns,
}
use go_listener.Https.{
  wrap_tls, open_https_argument, open_https_params, open_https_listener, source_of_params,
  source_of_spec,
}

module _ (env : Env) (open_spec : Bytes → M Listener) (open_json : Fields → M Listener) where
  wrap_tls-Returns :
      (params : Fields) (source : CertSource) (m : M Listener)
      → Returns m
      → Returns (wrap_tls env params source m)
  unfolding wrap_tls
  wrap_tls-Returns params source m r = map-Returns (tls_listener _) m r

  argument-Returns :
      (params : Fields) (arg : Bytes)
      → ((p : Bytes × Bytes) → cut arg b':' ≡ some p → Returns (open_spec p.1))
      → Returns (open_https_argument env open_spec params arg)
  unfolding open_https_argument
  argument-Returns params arg of_spec =
      Option-Returns_each (cut arg b':') _ _ (fail-Returns OpenError.bad_tls_spec (λ q. cc))
        λ p e. wrap_tls-Returns params (source_of_spec p.0) _ (of_spec p e)

  params-Returns :
      (params : Fields)
      → ((m : Fields) → as_object (get (codes "listener") params) ≡ some m → Returns (open_json m))
      → Returns (open_https_params env open_json params)
  unfolding open_https_params
  params-Returns params of_json =
      Option-Returns (source_of_params params) _ _ (fail-Returns OpenError.no_certificate (λ q. cc))
        λ source.
          Option-Returns_each (as_object (get (codes "listener") params)) _ _
            (fail-Returns OpenError.no_inner (λ q. cc))
            λ spec e. wrap_tls-Returns params source _ (of_json spec e)

  pub open_https_listener-Returns :
      (params : Fields) (arg : Bytes)
      → ((m : Fields) → as_object (get (codes "listener") params) ≡ some m → Returns (open_json m))
      → ((p : Bytes × Bytes) → cut arg b':' ≡ some p → Returns (open_spec p.1))
      → Returns (open_https_listener env open_spec open_json params arg)
  unfolding open_https_listener
  open_https_listener-Returns params arg of_json of_spec =
      if-Returns (is_empty arg) _ _ (params-Returns params of_json)
        (argument-Returns params arg of_spec)
