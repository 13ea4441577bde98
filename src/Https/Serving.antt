-- ===== src/Https/Serving.antt =====
-- tls/listener.go with the package cert: the certificates that a TLS listener serves.
pub mod Named
pub mod Opened
pub mod Managed
use go_listener.Common.{
  ℕ, ◌≡◌, ◌≢◌, refl, sym, ap, ◌∙◌, Bool, true, false, ◌||◌, Option, none, some, List, [], ◌∷◌,
  Outcome, ok, err, panic, if◌then◌else◌, ◌⊎◌, inl, inr, Option-cases,
}
use mathlib.Core.Path.{subst}
use go_listener.Common.Text.{Bytes, codes, contains, starts_with, is_empty, cut}
use go_listener.Json.{Fields, get, as_object}
use go_listener.System.{
  World, Listener, tls_listener, TlsConfig, CertSource, from_file, from_directory, automatically,
  Env, M,
}
use go_listener.Https.{
  source_of_spec, source_of_params, default_name, wrap_tls, open_https_argument, open_https_params,
  open_https_listener,
}
use go_listener.Cert.Auto.{Environment, Manager, get_certificate_automatically}
use go_listener.Cert.Hello.{Hello, get_certificate_default_server_name}
use go_listener.Cert.KeyTypes.{get_supported_key_types}
use go_listener.Cert.Load.{Decoders, Certificate, LoadError}
use go_listener.Cert.Cache.{FileCache, Snapshot}
use go_listener.Cert.Dir.{DirError, no_sni, not_found}
use go_listener.Cert.Dir.Names.{candidates, first_of, get_certificate-eq-first_of}
use go_listener.Cert.Sources.{load_in, get_certificate_from_file, get_certificate_from_directory}

-- The errors of a `GetCertificateFunc`.
pub data ServeError : Type 0 where
  of_file : LoadError → ServeError
  of_directory : DirError → ServeError
  of_manager : ℕ → ServeError

abbrev Served : Decoders → Type 0
Served d = Outcome ServeError (Certificate d.Key) × FileCache d.Key

abbrev pub with_error :
    {E A S : Type 0} → (E → ServeError) → Outcome E A × S → Outcome ServeError A × S
with_error f (ok a, s) = (ok a, s)
with_error f (err e, s) = (err (f e), s)
with_error f (panic, s) = (panic, s)

-- `manager` is the `GetCertificate` of an ACME manager.
module _ (d : Decoders) (files : Snapshot) (settings : Environment)
    (manager : Manager → Hello → Outcome ServeError (Certificate d.Key)) where
  -- The `getCertificate` of a source.
  unfoldable pub get_certificate_of : CertSource → Hello → FileCache d.Key → Served d
  unfolding get_certificate_from_directory
  get_certificate_of (from_file path) hello certs =
      with_error of_file (get_certificate_from_file d files path hello certs)
  get_certificate_of (from_directory path) hello certs =
      with_error of_directory (get_certificate_from_directory d files path hello certs)
  get_certificate_of (automatically hostnames) hello certs =
      (manager (get_certificate_automatically settings hostnames) hello, certs)

  -- `config.GetCertificate`, on what the default server name is.
  unfoldable pub serve_named : Option Bytes → CertSource → Hello → FileCache d.Key → Served d
  unfolding get_certificate_of get_certificate_default_server_name
  serve_named none source = get_certificate_of source
  serve_named (some name) source =
      get_certificate_default_server_name name (get_certificate_of source)

  unfoldable pub serve : TlsConfig → Hello → FileCache d.Key → Served d
  unfolding serve_named
  serve config = serve_named config.default_server_name config.source

-- The source that a specification names, as a string or as an object.
unfoldable pub source_named : Fields → Bytes → Option CertSource
unfolding source_of_params source_of_spec cut
source_named params [] = source_of_params params
source_named params (c ∷ arg) = elim (cut (c ∷ arg) b':') [
  | none ↦ none
  | some (cert_spec, inner_spec) ↦ some (source_of_spec cert_spec)
]

-- The server name that counts.
abbrev pub effective_name : Option Bytes → Bytes → Bytes
effective_name (some name) [] = name
effective_name _ sent = sent
