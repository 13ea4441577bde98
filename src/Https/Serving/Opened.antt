-- ===== src/Https/Serving/Opened.antt =====
-- tls/listener.go with cert/dir.go: which certificate a client of an opened TLS listener gets.
use go_listener.Common.{
  ℕ, ◌≡◌, ◌≢◌, refl, sym, ap, ◌∙◌, true, false, ◌||◌, Option, none, some, [], ◌∷◌, Outcome, ok, err,
  panic, if◌then◌else◌, inl, inr, Option-cases,
}
use mathlib.Core.Path.{subst}
use go_listener.Common.Text.{Bytes, codes, contains, starts_with, is_empty, cut}
use go_listener.Json.{Fields, get, as_object}
use go_listener.System.{
  OpenError, continue, pure, World, Listener, tls_listener, TlsConfig, CertSource, from_directory,
  Env, M,
}
use go_listener.Https.{
  next_protos, source_of_spec, source_of_params, default_name, wrap_tls, open_https_argument,
  open_https_params, open_https_listener,
}
use go_listener.Cert.Auto.{Environment, Manager}
use go_listener.Cert.Hello.{Hello, get_certificate_default_server_name}
use go_listener.Cert.KeyTypes.{get_supported_key_types}
use go_listener.Cert.Load.{Decoders, Certificate}
use go_listener.Cert.Cache.{FileCache, Snapshot}
use go_listener.Cert.Dir.{not_found}
use go_listener.Cert.Dir.Names.{candidates, first_of, get_certificate-eq-first_of}
use go_listener.Cert.Sources.{load_in, get_certificate_from_directory}
use go_listener.Https.Serving.{
  ServeError, of_directory, with_error, get_certificate_of, serve_named, serve, source_named,
  effective_name,
}
use go_listener.Https.Serving.Named.{
  sent_or_default, NamesDirectory, effective_name-default, source_named-directory,
}

-- What `openHTTPSListener` made of its parameters.
unfoldable pub IsConfigured : Env → Fields → Bytes → Outcome OpenError Listener × World → Type 0
IsConfigured env params arg (ok l, w) =
    (config : TlsConfig) × (inner : Listener) × (l ≡ tls_listener config inner)
    × (source_named params arg ≡ some config.source)
    × (config.default_server_name ≡ default_name params)
    × (config.next_protos ≡ next_protos env config.source)
IsConfigured env params arg _ = Unit

pub some-injective : {A : Type 0} {a b : A} → some a ≡ some b → a ≡ b
some-injective h = cc

failed-IsConfigured :
    (env : Env) (params : Fields) (arg : Bytes) (e : OpenError) (w : World)
    → IsConfigured env params arg (err e, w)
unfolding IsConfigured
failed-IsConfigured env params arg e w = tt

module _ (env : Env) (params : Fields) where
  wrap-IsConfigured :
      (arg : Bytes) (source : CertSource) (inner : M Listener) (w : World)
      → source_named params arg ≡ some source
      → IsConfigured env params arg (wrap_tls env params source inner w)
  unfolding wrap_tls IsConfigured
  wrap-IsConfigured arg source inner w h = go (inner w)
    where
      config : TlsConfig
      config = record {
        source = source;
        default_server_name = default_name params;
        next_protos = next_protos env source;
      }

      go :
          (r : Outcome OpenError Listener × World)
          → IsConfigured env params arg (continue r (λ l. pure (tls_listener config l)))
      go (ok l, w') = (config, l, refl, h, refl, refl)
      go (err e, w') = tt
      go (panic, w') = tt

  params-IsConfigured :
      (open_json : Fields → M Listener) (w : World)
      → IsConfigured env params [] (open_https_params env open_json params w)
  unfolding open_https_params source_named
  params-IsConfigured open_json w = elim (Option-cases (source_of_params params)) [
    | inl e ↦
        rw (open_https_params, e) (failed-IsConfigured env params [] OpenError.no_certificate w)
    | inr (source, e) ↦ elim (Option-cases (as_object (get (codes "listener") params))) [
      | inl f ↦
          rw (open_https_params, e, f) (failed-IsConfigured env params [] OpenError.no_inner w)
      | inr (inner, f) ↦
          rw (open_https_params, e, f) (wrap-IsConfigured [] source (open_json inner) w e)
    ]
  ]

  named :
      (c : ℕ) (arg cert_spec inner_spec : Bytes)
      → cut (c ∷ arg) b':' ≡ some (cert_spec, inner_spec)
      → source_named params (c ∷ arg) ≡ some (source_of_spec cert_spec)
  unfolding source_named
  named c arg cert_spec inner_spec e = rw (source_named, e) refl

  argument-IsConfigured :
      (open_spec : Bytes → M Listener) (c : ℕ) (arg : Bytes) (w : World)
      → IsConfigured env params (c ∷ arg) (open_https_argument env open_spec params (c ∷ arg) w)
  unfolding open_https_argument
  argument-IsConfigured open_spec c arg w = elim (Option-cases (cut (c ∷ arg) b':')) [
    | inl e ↦
        rw (open_https_argument, e)
          (failed-IsConfigured env params (c ∷ arg) OpenError.bad_tls_spec w)
    | inr ((cert_spec, inner_spec), e) ↦
        rw (open_https_argument, e)
          (wrap-IsConfigured (c ∷ arg) (source_of_spec cert_spec) (open_spec inner_spec) w
            (named c arg cert_spec inner_spec e))
  ]

  pub opened-IsConfigured :
      (open_spec : Bytes → M Listener) (open_json : Fields → M Listener) (arg : Bytes) (w : World)
      → IsConfigured env params arg (open_https_listener env open_spec open_json params arg w)
  unfolding open_https_listener
  opened-IsConfigured open_spec open_json [] w = params-IsConfigured open_json w
  opened-IsConfigured open_spec open_json (c ∷ arg) w = argument-IsConfigured open_spec c arg w

module _ (d : Decoders) (files : Snapshot) (settings : Environment)
    (manager : Manager → Hello → Outcome ServeError (Certificate d.Key)) where
  pub serve_named-effective :
      (o : Option Bytes) (source : CertSource) (hello : Hello) (certs : FileCache d.Key)
      → serve_named d files settings manager o source hello certs
        ≡ get_certificate_of d files settings manager source
            (record hello { server_name = effective_name o hello.server_name })
            certs
  unfolding serve_named get_certificate_default_server_name
  serve_named-effective none source hello certs = refl
  serve_named-effective (some name) source hello certs = go hello.server_name refl
    where
      go :
          (sent : Bytes)
          → hello.server_name ≡ sent
          → (if is_empty sent
                then get_certificate_of d files settings manager source
                    (record hello { server_name = name })
                else get_certificate_of d files settings manager source hello)
              certs
            ≡ get_certificate_of d files settings manager source
                (record hello { server_name = effective_name (some name) sent })
                certs
      go [] e = refl
      go (c ∷ m) e =
          ap
            (λ n.
              get_certificate_of d files settings manager source (record hello { server_name = n })
                certs)
            e

  directory-first_of :
      (path : Bytes) (hello : Hello) (certs : FileCache d.Key)
      → (starts_with hello.server_name b'.' || contains hello.server_name b'/') ≡ false
      → hello.server_name ≢ []
      → get_certificate_of d files settings manager (from_directory path) hello certs
        ≡ with_error of_directory (
            first_of
              (load_in d files (record { path = path; cached = true }))
              (not_found hello.server_name)
              (candidates hello.server_name (get_supported_key_types hello))
              certs)
  unfolding get_certificate_of get_certificate_from_directory
  directory-first_of path hello certs h n =
      elim (get_certificate-eq-first_of (load_in d files (record { path = path; cached = true }))
        hello certs) [
          | inl (e, q) ↦ absurd (n e)
          | inr (inl (e, q)) ↦ cc
          | inr (inr (a, q)) ↦ ap (with_error of_directory) q
        ]

  -- If `openHTTPSListener` returns a listener, and its specification, a string or an object, names a
  -- directory of certificates: it is a TLS listener, and a client is served the first certificate
  -- that loads from the directory in the documented order, for the server name that it sends, or the
  -- parameter default_server_name where it sends none, or the error that there is none. The name has
  -- no slash, is not empty and does not begin with a dot. A string names a directory by a path that
  -- begins and ends with a slash and has no colon; an object by the string cert_directory, and no
  -- string cert.
  pub open_https_listener-serves :
      (env : Env) (open_spec : Bytes → M Listener) (open_json : Fields → M Listener)
      (params : Fields) (arg : Bytes) (w : World) (l : Listener) (w' : World)
      → open_https_listener env open_spec open_json params arg w ≡ (ok l, w')
      → (path : Bytes) → NamesDirectory params arg path
      → (hello : Hello) (name : Bytes)
      → sent_or_default (get (codes "default_server_name") params) hello.server_name ≡ name
      → (starts_with name b'.' || contains name b'/') ≡ false
      → name ≢ []
      → (certs : FileCache d.Key)
      → (config : TlsConfig) × (inner : Listener) × (l ≡ tls_listener config inner)
        × (serve d files settings manager config hello certs
            ≡ with_error of_directory (
                first_of
                  (load_in d files (record { path = path; cached = true }))
                  (not_found name)
                  (candidates name (get_supported_key_types hello))
                  certs))
  unfolding serve IsConfigured get_supported_key_types
  open_https_listener-serves env open_spec open_json params arg w l w' e path p hello name q h n
        certs =
      let (config, inner, k, source, default, protos) =
        subst (IsConfigured env params arg) e
          (opened-IsConfigured env params open_spec open_json arg w) in
      let from : config.source ≡ from_directory path =
        some-injective (sym source ∙ source_named-directory params arg path p) in
      let same : effective_name config.default_server_name hello.server_name ≡ name =
        ap (λ o. effective_name o hello.server_name) default
        ∙ effective_name-default params hello.server_name
        ∙ q in
      (
        config,
        inner,
        k,
        serve_named-effective config.default_server_name config.source hello certs
            ∙ ap
                (λ n.
                  get_certificate_of d files settings manager config.source
                    (record hello { server_name = n }) certs)
                same
            ∙ ap
                (λ s.
                  get_certificate_of d files settings manager s
                    (record hello { server_name = name }) certs)
                from
            ∙ directory-first_of path (record hello { server_name = name }) certs h n,
      )
