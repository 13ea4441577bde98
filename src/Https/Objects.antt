-- ===== src/Https/Objects.antt =====
-- tls/listener.go: `openHTTPSListener` on an object with a certificate source and an inner listener.
use go_listener.Common.{◌≡◌, refl, []}
use go_listener.Common.Text.{Bytes, codes, equal}
use go_listener.Json.{
  string, strings, object, Fields, nothing, field, get, as_string, as_strings, as_object,
}
use go_listener.System.{Listener, Env, M, CertSource, from_file, from_directory, automatically}
use go_listener.Https.{
  open_https_listener, open_https_params, source_of_params, wrap_tls, default_name,
}

-- The field that names a source. A list of hostnames is the `[]string` of a program.
abbrev pub source_field : CertSource → Fields
source_field (from_file p) = field (codes "cert") (string p) nothing
source_field (from_directory p) = field (codes "cert_directory") (string p) nothing
source_field (automatically h) = field (codes "autocert_hostnames") (strings h) nothing

abbrev pub tls_fields : Bytes → CertSource → Fields → Fields
tls_fields t source inner =
    field (codes "type") (string t) (field (codes "listener") (object inner) (source_field source))

module _ (env : Env) (o : Bytes → M Listener) (j : Fields → M Listener) (t : Bytes)
    (inner : Fields) where
  pub open_https_listener-tls_fields :
      (source : CertSource)
      → open_https_listener env o j (tls_fields t source inner) []
        ≡ wrap_tls env nothing source (j inner)
  unfolding open_https_listener open_https_params source_of_params wrap_tls default_name get equal
      as_string as_strings as_object
  open_https_listener-tls_fields (from_file p) = refl
  open_https_listener-tls_fields (from_directory p) = refl
  open_https_listener-tls_fields (automatically h) = refl
