-- ===== src/Tests/Layers.antt =====
-- A listener with three layers at work.
use go_listener.Common.{ℕ, ◌≡◌, ◌↔◌, refl, ap, ◌∙◌, arith, none, inl, [], ◌∷◌, ok, drop}
use go_listener.Common.Int.{pos}
use go_listener.Common.Strconv.{atoi, parse_number, parse_digits}
use go_listener.Common.Text.{codes, contains, starts_with, ends_with}
use go_listener.Net.{to4}
use go_listener.Net.Conn.{Conn}
use go_listener.System.{
  World, Listener, net_listener, proxy_listener, tls_listener, TlsConfig, from_file, tcp, bound_tcp,
  open_socket, syscall_as,
}
use go_listener.Registry.{default_registry}
use go_listener.Builtin.{open_tcp_listener, tcp_argument, listen_tcp, resolve}
use go_listener.Https.{source_of_spec, wrap_tls, next_protos, default_name}
use go_listener.Open.{open_spec}
use go_listener.Open.Meaning.{print, meaning, open_spec-eq-meaning}
use go_listener.Proxy.Header.Wire.{feed}
use go_listener.Proxy.Header.Tests.{sent, client, client_bytes, format-client}
use go_listener.Proxy.Listener.Forwarded.{forwards}
use go_listener.Pipeline.{Passes}
use go_listener.Pipeline.Opened.{open_spec-Passes}
use go_listener.Tests.Specs.{default-IsStandard, nested_spec}
use go_listener.Tests.World.{working, start}

-- A server that finds a stream behind the five bytes of a record.
abbrev server : TlsConfig → Conn → Conn
server config conn = record conn { input = drop 5 conn.input }

abbrev stream : Conn
stream = sent (22 ∷ 3 ∷ 1 ∷ 0 ∷ 2 ∷ 71 ∷ 69 ∷ [])

abbrev clients : ℕ → Conn
clients c = feed client_bytes stream

abbrev layers : Listener
layers =
    tls_listener
      (record {
        source = from_file (codes "/c");
        default_server_name = none;
        next_protos = codes "h2" ∷ codes "http/1.1" ∷ [];
      })
      (proxy_listener (net_listener 3 (bound_tcp tcp [] (pos 80))))

abbrev opened : World
opened = record start { clock = 1; next = 4; live = 3 ∷ 1 ∷ [] }

meaning-nested : meaning working nested_spec start ≡ (ok layers, opened)
unfolding meaning wrap_tls source_of_spec starts_with ends_with default_name next_protos
    open_tcp_listener tcp_argument contains listen_tcp resolve open_socket syscall_as atoi
    parse_number parse_digits
meaning-nested = refl

open-nested : open_spec working default_registry 30 (print nested_spec) start ≡ (ok layers, opened)
unfolding contains
open-nested =
    ap (λ m. m start)
      (open_spec-eq-meaning working default_registry default-IsStandard nested_spec 30 (omega arith)
        (refl, tt))
    ∙ meaning-nested

-- The connection of the client that the header names, with the data of the TLS connection.
abbrev final : Conn
final =
    server
      (record {
        source = from_file (codes "/c");
        default_server_name = none;
        next_protos = codes "h2" ∷ codes "http/1.1" ∷ [];
      })
      (record stream { local_addr = client.local_addr; remote_addr = client.remote_addr })

open_spec-Passes_example : Passes server clients layers 0 final ↔ (final ≡ final)
unfolding contains source_of_spec starts_with ends_with next_protos to4
open_spec-Passes_example =
    open_spec-Passes working default_registry default-IsStandard server nested_spec 30 (omega arith)
      (refl, tt) start opened layers open-nested clients 0 final
      (
        _,
        (
          forwards client,
          stream,
          clients 0,
          refl,
          ((omega arith, omega arith, inl (_, _, refl, refl)), (client_bytes, format-client, refl)),
          refl,
        ),
        refl,
      )
      final
