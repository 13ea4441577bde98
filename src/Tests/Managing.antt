-- ===== src/Tests/Managing.antt =====
-- A TLS listener with automatic certificates.
use go_listener.Common.{◌≡◌, refl, none, inr, some, List, [], ◌∷◌, ok, err}
use go_listener.Common.Int.{pos}
use go_listener.Common.Text.{Bytes, codes, contains, starts_with, ends_with, cut, split}
use go_listener.Common.Strconv.{atoi, parse_number, parse_digits}
use go_listener.Json.{nothing, get}
use go_listener.System.{
  World, Listener, net_listener, bound_tcp, tcp, tls_listener, TlsConfig, automatically, fail,
  unknown_type, open_socket, syscall_as,
}
use go_listener.Builtin.{open_tcp_listener, tcp_argument, listen_tcp, resolve}
use go_listener.Https.{
  open_https_listener, open_https_argument, source_of_spec, default_name, wrap_tls, next_protos,
}
use go_listener.Https.Serving.{serve, of_manager}
use go_listener.Https.Serving.Managed.{open_https_listener-manages}
use go_listener.Cert.Auto.{Manager}
use go_listener.Cert.Auto.Settings.{IsManager}
use go_listener.Cert.Hello.{Hello}
use go_listener.Cert.Cache.{FileCache}
use go_listener.Cert.Cache.Versions.{see}
use go_listener.Tests.World.{working, start}
use go_listener.Tests.Certs.{decoders, version, at}
use go_listener.Tests.Serving.{settings}

abbrev hosts : List Bytes
hosts = codes "a.b" ∷ codes "c" ∷ []

abbrev config : TlsConfig
config = record {
  source = automatically (some hosts);
  default_server_name = none;
  next_protos = codes "h2" ∷ codes "http/1.1" ∷ codes "acme" ∷ [];
}

abbrev opened : World
opened = record start { clock = 1; next = 4; live = 3 ∷ 1 ∷ [] }

abbrev bound : Listener
bound = net_listener 3 (bound_tcp tcp [] (pos 443))

open-argument :
    open_https_listener working
      (λ s. open_tcp_listener working nothing s)
      (λ m. fail (unknown_type []))
      nothing
      (codes "a.b,c:443")
      start
    ≡ (ok (tls_listener config bound), opened)
unfolding open_https_listener open_https_argument source_of_spec default_name wrap_tls next_protos
    open_tcp_listener tcp_argument listen_tcp resolve open_socket syscall_as contains starts_with
    ends_with cut split atoi parse_number parse_digits
open-argument = refl

open_https_listener-manages_example :
    (c : TlsConfig) × (inner : Listener) × (tls_listener config bound ≡ tls_listener c inner)
    × (c.next_protos ≡ codes "h2" ∷ codes "http/1.1" ∷ codes "acme" ∷ [])
    × (m : Manager) × IsManager settings (some hosts) m
    × ((hello : Hello) (certs : FileCache Bytes)
        → serve decoders
            (see decoders version (at 5))
            settings
            (λ m hello. err (of_manager 0))
            c
            hello
            certs
          ≡ (err (of_manager 0), certs))
unfolding get starts_with contains
open_https_listener-manages_example =
    open_https_listener-manages decoders (see decoders version (at 5)) settings
      (λ m hello. err (of_manager 0)) working (λ s. open_tcp_listener working nothing s)
      (λ m. fail (unknown_type [])) nothing (codes "a.b,c:443") start (tls_listener config bound)
      opened open-argument (some hosts)
      (inr (codes "a.b", codes "c" ∷ [], codes "443", refl, refl, refl, refl, (refl, (refl, tt))))
