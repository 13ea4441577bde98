-- ===== src/Tests/Serving.antt =====
-- A TLS listener with a directory of certificates.
use go_listener.Common.{◌≡◌, refl, true, none, inl, some, [], ◌∷◌, ok, err}
use go_listener.Common.Int.{pos}
use go_listener.Common.Text.{codes, equal, contains, starts_with}
use go_listener.Common.Strconv.{atoi, parse_number, parse_digits}
use go_listener.Json.{Fields, nothing, field, string, object, get, as_string, as_number, as_object}
use go_listener.System.{
  World, Listener, net_listener, bound_tcp, tcp, tls_listener, TlsConfig, from_directory, fail,
  unknown_type, open_socket, syscall_as,
}
use go_listener.Builtin.{open_tcp_listener, tcp_params, listen_tcp, resolve}
use go_listener.Https.{
  open_https_listener, open_https_params, source_of_params, default_name, wrap_tls, next_protos,
}
use go_listener.Https.Serving.{serve, with_error, of_directory, of_manager}
use go_listener.Https.Serving.Opened.{open_https_listener-serves}
use go_listener.Cert.Auto.{Environment}
use go_listener.Cert.KeyTypes.{get_supported_key_types}
use go_listener.Cert.Cache.{new_file_cache}
use go_listener.Cert.Cache.Versions.{see}
use go_listener.Cert.Dir.{not_found}
use go_listener.Cert.Dir.Names.{first_of, candidates}
use go_listener.Cert.Sources.{load_in}
use go_listener.Tests.World.{working, start}
use go_listener.Tests.Certs.{decoders, version, at, nameless}

abbrev pub settings : Environment
settings = record {
  getenv = λ k. codes "x";
  getuid = 0;
  user_home_dir = none;
  decode_base64 = λ k. some k;
}

abbrev params : Fields
params = field (codes "cert_directory") (string (codes "/c")) (
    field (codes "default_server_name") (string (codes "a.b")) (
      field (codes "listener") (object (field (codes "port") (string (codes "443")) nothing))
        nothing))

abbrev config : TlsConfig
config = record {
  source = from_directory (codes "/c");
  default_server_name = some (codes "a.b");
  next_protos = codes "h2" ∷ codes "http/1.1" ∷ [];
}

abbrev opened : World
opened = record start { clock = 1; next = 4; live = 3 ∷ 1 ∷ [] }

open-params :
    open_https_listener working
      (λ s. fail (unknown_type s))
      (λ m. open_tcp_listener working m [])
      params
      []
      start
    ≡ (ok (tls_listener config (net_listener 3 (bound_tcp tcp [] (pos 443)))), opened)
unfolding open_https_listener open_https_params source_of_params default_name wrap_tls next_protos
    open_tcp_listener tcp_params listen_tcp resolve open_socket syscall_as get as_string as_number
    as_object equal atoi parse_number parse_digits
open-params = refl

open_https_listener-serves_example :
    (c : TlsConfig) × (inner : Listener) × (tls_listener config
        (net_listener 3 (bound_tcp tcp [] (pos 443)))
      ≡ tls_listener c inner)
    × (serve decoders
          (see decoders version (at 5))
          settings
          (λ m hello. err (of_manager 0))
          c
          nameless
          new_file_cache
        ≡ with_error of_directory (
            first_of
              (load_in decoders
                (see decoders version (at 5))
                (record { path = codes "/c"; cached = true }))
              (not_found (codes "a.b"))
              (candidates (codes "a.b") (get_supported_key_types nameless))
              new_file_cache))
unfolding get as_string equal contains starts_with
open_https_listener-serves_example =
    open_https_listener-serves decoders (see decoders version (at 5)) settings
      (λ m hello. err (of_manager 0)) working (λ s. fail (unknown_type s))
      (λ m. open_tcp_listener working m []) params [] start
      (tls_listener config (net_listener 3 (bound_tcp tcp [] (pos 443)))) opened open-params
      (codes "/c") (inl (refl, refl, refl)) nameless (codes "a.b") refl refl (λ q. cc)
      new_file_cache
