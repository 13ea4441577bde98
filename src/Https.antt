-- ===== src/Https.antt =====
-- tls/listener.go: `openHTTPSListener`.
pub mod Sockets
pub mod Descriptors
pub mod Returns
pub mod Objects
pub mod Serving
use go_listener.Common.{
  ℕ, Bool, true, false, ◌&&◌, Option, none, some, List, [], ◌∷◌, ◌++◌, if◌then◌else◌, Outcome, ok,
  err, panic,
}
use go_listener.Common.Text.{Bytes, codes, equal, is_empty, cut, split, starts_with, ends_with}
use go_listener.Json.{Json, Fields, get, as_string, as_strings, as_object}
use go_listener.System.{
  World, Listener, tls_listener, TlsConfig, CertSource, from_file, from_directory, automatically,
  Env, M, ◌>>=◌, ◌>>◌, pure, fail, OpenError,
}

-- The choice by the form of `CERT_SPEC`.
unfoldable pub source_of_spec : Bytes → CertSource
unfolding starts_with ends_with split
source_of_spec spec =
    if starts_with spec b'/' && ends_with spec b'/'
    then from_directory spec
    else if starts_with spec b'/'
    then from_file spec
    else automatically (some (split spec b','))

-- The choice by the parameters.
unfoldable pub source_of_params : Fields → Option CertSource
unfolding as_string as_strings get
source_of_params params = elim (as_string (get (codes "cert") params)) [
  | some path ↦ some (from_file path)
  | none ↦ elim (as_string (get (codes "cert_directory") params)) [
    | some path ↦ some (from_directory path)
    | none ↦ elim (as_strings (get (codes "autocert_hostnames") params)) [
      | some hostnames ↦ some (automatically hostnames)
      | none ↦ none
    ]
  ]
]

-- `nextProtos`: an automatic certificate adds the protocol of the ACME challenge.
unfoldable pub next_protos : Env → CertSource → List Bytes
next_protos env (automatically _) = codes "h2" ∷ codes "http/1.1" ∷ env.alpn_proto ∷ []
next_protos env _ = codes "h2" ∷ codes "http/1.1" ∷ []

-- The default server name, if there is one and it is not empty.
unfoldable pub default_name : Fields → Option Bytes
unfolding as_string get
default_name params = elim (as_string (get (codes "default_server_name") params)) [
  | some name ↦ if is_empty name then none else some name
  | none ↦ none
]

unfoldable pub wrap_tls : Env → Fields → CertSource → M Listener → M Listener
unfolding next_protos default_name
wrap_tls env params source inner = do
  l ← inner
  pure (
      tls_listener
        (record {
          source = source;
          default_server_name = default_name params;
          next_protos = next_protos env source;
        })
        l)

-- The first branch, on a string argument.
unfoldable pub open_https_argument : Env → (Bytes → M Listener) → Fields → Bytes → M Listener
unfolding cut source_of_spec wrap_tls
open_https_argument env open_spec params arg = elim (cut arg b':') [
  | none ↦ fail OpenError.bad_tls_spec
  | some (cert_spec, inner_spec) ↦
      wrap_tls env params (source_of_spec cert_spec) (open_spec inner_spec)
]

-- The second, on the parameters.
unfoldable pub open_https_params : Env → (Fields → M Listener) → Fields → M Listener
unfolding source_of_params wrap_tls as_object get
open_https_params env open_json params = elim (source_of_params params) [
  | none ↦ fail OpenError.no_certificate
  | some source ↦ elim (as_object (get (codes "listener") params)) [
    | none ↦ fail OpenError.no_inner
    | some inner_spec ↦ wrap_tls env params source (open_json inner_spec)
  ]
]

unfoldable pub open_https_listener :
    Env → (Bytes → M Listener) → (Fields → M Listener) → Fields → Bytes → M Listener
unfolding open_https_argument open_https_params
open_https_listener env open_spec open_json params arg =
    if is_empty arg
    then open_https_params env open_json params
    else open_https_argument env open_spec params arg
