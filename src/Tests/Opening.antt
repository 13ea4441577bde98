-- ===== src/Tests/Opening.antt =====
-- Listeners opened from specifications.
use go_listener.Common.{ℕ, ◌≡◌, refl, arith, List, [], ◌∷◌, ◌++◌, err, ◌⊎◌}
use go_listener.Common.Text.{Bytes, codes, equal}
use go_listener.Common.Strconv.{parse_uint, parse_number, parse_digits}
use go_listener.Json.{
  string, number, array, end, item, object, Fields, nothing, field, get, as_string,
}
use go_listener.System.{OpenError, bad_ip, bad_port}
use go_listener.System.Sockets.{Opened, fail-IsTidy}
use go_listener.Registry.{get_open_listener_func, default_registry}
use go_listener.Builtin.{open_tcp_listener}
use go_listener.Builtin.Tcp.{open_tcp_listener-address}
use go_listener.Open.Decoded.{IsUnmanaged, open_json-IsUnmanaged}
use go_listener.Open.{open_step, open_json_step, open_spec, open_json, open_all}
use go_listener.Open.Sockets.{CustomIsTidy, open_spec-Opened}
use go_listener.System.Descriptors.{Released, fail-Releases}
use go_listener.Open.Descriptors.{CustomReleases, open_spec-Released}
use go_listener.System.Returns.{IsReturned, fail-Returns}
use go_listener.Open.Fits.{Fits, FitsFields}
use go_listener.Open.Returns.{CustomReturns, open_spec-IsReturned}
use go_listener.Open.Types.{IsOfSpec, IsOfObject, open_spec-HasType}
use go_listener.System.Yields.{IsOk, Yields, fail-Yields}
use go_listener.Open.All.{OpenedAll, open_all-OpenedAll}
use go_listener.Open.Fuel.{open_spec-eq-steps}
use go_listener.Open.Notations.{typed, open_spec-eq-open_json}
use go_listener.Unix
use go_listener.Unix.{has_prefix}
use go_listener.Unix.Laws.{IsFresh}
use go_listener.Unix.Cleanup.{Listened, listen-Listened}
use go_listener.Tests.World.{working, failing, start}

pub working-IsTidy : CustomIsTidy working
working-IsTidy n params arg = fail-IsTidy (OpenError.unknown_type arg)

failing-IsTidy : CustomIsTidy failing
failing-IsTidy n params arg = fail-IsTidy (OpenError.unknown_type arg)

abbrev nested : Bytes
nested = codes "tls:/cert.pem:proxy:tcp:80"

abbrev nested_json : Fields
nested_json =
    typed (codes "proxy") (codes "listener")
      (object (typed (codes "tcp") (codes "port") (string (codes "80"))))

open_spec-Opened_example :
    Opened start
      (open_spec working default_registry 30 nested start).0
      (open_spec working default_registry 30 nested start).1
    × Opened start
        (open_json working default_registry 30 nested_json start).0
        (open_json working default_registry 30 nested_json start).1
open_spec-Opened_example =
    open_spec-Opened working default_registry working-IsTidy 30 nested nested_json start
      (omega arith, tt)

working-Releases : CustomReleases working
working-Releases n params arg = fail-Releases (OpenError.unknown_type arg)

abbrev proxied_fd : Bytes
proxied_fd = codes "proxy:fd:4"

open_spec-Released_example :
    Released start
      (open_spec working default_registry 30 proxied_fd start).0
      (open_spec working default_registry 30 proxied_fd start).1
    × Released start
        (open_json working default_registry 30 nested_json start).0
        (open_json working default_registry 30 nested_json start).1
open_spec-Released_example =
    open_spec-Released working default_registry working-Releases 30 proxied_fd nested_json start

working-Returns : CustomReturns working
working-Returns n params arg = fail-Returns (OpenError.unknown_type arg) (λ q. cc)

proxied_fd-Fits : Fits proxied_fd
unfolding parse_uint parse_number parse_digits
proxied_fd-Fits = (tt, (tt, (tt, (tt, (tt, (tt, (tt, (tt, (refl, (tt, tt))))))))))

nested_json-Fits : FitsFields nested_json
unfolding equal parse_uint
nested_json-Fits = (tt, ((tt, (tt, tt)), tt))

open_spec-IsReturned_example :
    IsReturned (open_spec working default_registry 30 proxied_fd start).0
    × IsReturned (open_json working default_registry 30 nested_json start).0
open_spec-IsReturned_example =
    open_spec-IsReturned working default_registry working-Returns 30 proxied_fd nested_json start
      (omega arith) (omega arith) proxied_fd-Fits nested_json-Fits

open_spec-HasType_example :
    IsOk
      (IsOfSpec working default_registry nested)
      (open_spec working default_registry 30 nested start).0
    × IsOk
        (IsOfObject working default_registry nested_json)
        (open_json working default_registry 30 nested_json start).0
open_spec-HasType_example = open_spec-HasType working default_registry 30 nested nested_json start

-- The second of three fails, after the first was opened.
abbrev three : List Bytes
three = codes "tcp:80" ∷ codes "tcp:81" ∷ codes "tcp:82" ∷ []

open_all-OpenedAll_example :
    OpenedAll
      (open_spec failing default_registry 9)
      (open_all failing default_registry 9)
      start
      three
      (open_all failing default_registry 9 three start).0
      (open_all failing default_registry 9 three start).1
open_all-OpenedAll_example =
    open_all-OpenedAll failing default_registry failing-IsTidy 9 three start (omega arith, tt)

open_spec-eq-steps_example :
    ((open_spec working default_registry 30 nested ≡ open_spec working default_registry 40 nested)
      × (open_spec working default_registry 30 nested
          ≡ open_step working default_registry
              (open_spec working default_registry 30)
              (open_json working default_registry 30)
              nested))
    × ((open_json working default_registry 30 nested_json
          ≡ open_json working default_registry 40 nested_json)
        × (open_json working default_registry 30 nested_json
            ≡ open_json_step working default_registry
                (open_spec working default_registry 30)
                (open_json working default_registry 30)
                nested_json))
    × (open_all working default_registry 30 three start
        ≡ open_all working default_registry 40 three start)
open_spec-eq-steps_example =
    open_spec-eq-steps working default_registry 30 40 nested nested_json three start (omega arith)
      (omega arith) (omega arith) (omega arith) (omega arith)

same_notations :
    (open_spec working default_registry 5 (codes "unix:" ++ 52 ∷ [])
      ≡ open_json working default_registry 5
          (typed (codes "unix") (codes "path") (string (52 ∷ []))))
    × (open_spec working default_registry 5 (codes "fd:" ++ 52 ∷ [])
        ≡ open_json working default_registry 5 (typed (codes "fd") (codes "fd") (string (52 ∷ []))))
    × (open_spec working default_registry 5 (codes "fd:" ++ 52 ∷ [])
        ≡ open_json working default_registry 5 (typed (codes "fd") (codes "fd") (number (52 ∷ []))))
    × (open_spec working default_registry 5 (codes "fdname:" ++ 52 ∷ [])
        ≡ open_json working default_registry 5
            (typed (codes "fdname") (codes "name") (string (52 ∷ []))))
unfolding get_open_listener_func equal
same_notations = open_spec-eq-open_json working default_registry 4 refl refl refl 52 []

abbrev with_address : Fields
with_address =
    field (codes "address") (string (codes "::1"))
      (field (codes "port") (string (codes "80")) nothing)

open_tcp_listener-address_example :
    (open_tcp_listener working with_address [] start ≡ (err bad_ip, start))
    ⊎ (open_tcp_listener working with_address [] start ≡ (err bad_port, start))
unfolding get as_string equal
open_tcp_listener-address_example =
    open_tcp_listener-address working with_address (codes "::1") start refl

abbrev with_hostnames : Fields
with_hostnames = field (codes "type") (string (codes "tls")) (
    field (codes "autocert_hostnames") (array (item (string (codes "example.com")) end)) (
      field (codes "listener") (object (typed (codes "tcp") (codes "port") (string (codes "80"))))
        nothing))

working-IsUnmanaged :
    (n : ℕ) (params : Fields) (arg : Bytes) → Yields IsUnmanaged (working.custom n params arg)
working-IsUnmanaged n params arg = fail-Yields IsUnmanaged (OpenError.unknown_type arg)

open_json-IsUnmanaged_example :
    IsOk IsUnmanaged (open_json working default_registry 9 with_hostnames start).0
open_json-IsUnmanaged_example =
    open_json-IsUnmanaged working default_registry working-IsUnmanaged 9 with_hostnames start
      (tt, ((tt, tt), ((tt, (tt, tt)), tt)))

-- The temporary directory is new and beside the path.
start-IsFresh : IsFresh failing (failing.temp_dir (codes "/s")) []
unfolding Unix.lookup Unix.has_children
start-IsFresh = record { unused = refl; empty = refl; removes = λ k. refl }

listen-Listened_example :
    Listened
      (codes "/s")
      0o600
      start
      (Unix.listen failing (codes "/s") 0o600 start).0
      (Unix.listen failing (codes "/s") 0o600 start).1
unfolding has_prefix equal
listen-Listened_example =
    listen-Listened failing (codes "/s") 0o600 start start-IsFresh (λ h. cc) refl (omega arith, tt)
