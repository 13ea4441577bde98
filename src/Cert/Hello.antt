-- ===== src/Cert/Hello.antt =====
-- cert/sni.go: the `ClientHelloInfo` and the default for its server name.
use go_listener.Common.{ℕ, Option, List, if◌then◌else◌}
use go_listener.Common.Text.{Bytes, is_empty}

-- The fields of `tls.ClientHelloInfo` that the package reads. `none` is a nil slice.
pub record Hello : Type 0 where
  pub server_name : Bytes
  pub signature_schemes : Option (List ℕ)
  pub cipher_suites : List ℕ

-- `GetCertificateDefaultServerName`
unfoldable pub get_certificate_default_server_name {ℓ} :
    {A : Type ℓ} → Bytes → (Hello → A) → Hello → A
get_certificate_default_server_name default_server_name get_certificate hello =
    if is_empty hello.server_name
    then get_certificate (record hello { server_name = default_server_name })
    else get_certificate hello
