-- ===== src/Tests/Specs.antt =====
-- Specifications in both notations and what they mean.
use go_listener.Common.{◌≡◌, refl, arith, [], ◌∷◌}
use go_listener.Common.Text.{codes, equal, contains}
use go_listener.Registry.{get_open_listener_func, default_registry}
use go_listener.Open.{open_spec, open_json}
use go_listener.Https.{source_of_spec}
use go_listener.Common.Text.{starts_with, ends_with}
use go_listener.Open.Encoding.{encode, open_json-eq-meaning}
use go_listener.Open.Meaning.{Spec, meaning, IsStandard, open_spec-eq-meaning}
use go_listener.Tests.World.{working}

pub default-IsStandard : IsStandard default_registry
unfolding get_open_listener_func equal
default-IsStandard = record {
  has_fd = refl;
  has_fdname = refl;
  has_tcp = refl;
  has_unix = refl;
  has_proxy = refl;
  has_tls = refl;
  has_https = refl;
}

-- `tls:/c:proxy:tcp:80`
abbrev pub nested_spec : Spec
nested_spec = Spec.tls (codes "/c") (Spec.proxy (Spec.tcp 56 (48 ∷ [])))

open_spec-eq-meaning_example :
    open_spec working default_registry 30 (codes "tls:/c:proxy:tcp:80")
    ≡ meaning working nested_spec
unfolding contains
open_spec-eq-meaning_example =
    open_spec-eq-meaning working default_registry default-IsStandard nested_spec 30 (omega arith)
      (refl, tt)

-- `tls:/c:proxy:80`
abbrev nested_port : Spec
nested_port = Spec.tls (codes "/c") (Spec.proxy (Spec.port 56 (48 ∷ [])))

open_json-eq-meaning_example :
    open_json working default_registry 30 (encode nested_port) ≡ meaning working nested_port
unfolding contains source_of_spec starts_with ends_with
open_json-eq-meaning_example =
    open_json-eq-meaning working default_registry default-IsStandard nested_port 30 (omega arith)
      refl
