-- ===== src/Https/Serving/Managed.antt =====
-- tls/listener.go with cert/auto.go: automatic certificates.
use go_listener.Common.{◌≡◌, refl, sym, ap, ◌∙◌, Option, List, [], ◌∷◌, Outcome, ok}
use mathlib.Core.Path.{subst}
use go_listener.Common.Text.{Bytes, codes}
use go_listener.Json.{Fields, get}
use go_listener.System.{World, Listener, tls_listener, TlsConfig, automatically, Env, M}
use go_listener.Https.{next_protos, open_https_listener}
use go_listener.Cert.Auto.{Environment, Manager, get_certificate_automatically}
use go_listener.Cert.Auto.Settings.{IsManager, get_certificate_automatically-IsManager}
use go_listener.Cert.Hello.{Hello}
use go_listener.Cert.Load.{Decoders, Certificate}
use go_listener.Cert.Cache.{FileCache, Snapshot}
use go_listener.Https.Serving.{ServeError, get_certificate_of, serve, effective_name}
use go_listener.Https.Serving.Named.{
  sent_or_default, NamesHosts, effective_name-default, source_named-hosts,
}
use go_listener.Https.Serving.Opened.{
  IsConfigured, opened-IsConfigured, serve_named-effective, some-injective,
}

module _ (d : Decoders) (files : Snapshot) (settings : Environment)
    (manager : Manager → Hello → Outcome ServeError (Certificate d.Key)) where
  managed :
      (hostnames : Option (List Bytes)) (hello : Hello) (certs : FileCache d.Key)
      → get_certificate_of d files settings manager (automatically hostnames) hello certs
        ≡ (manager (get_certificate_automatically settings hostnames) hello, certs)
  unfolding get_certificate_of
  managed hostnames hello certs = refl

  -- If `openHTTPSListener` returns a listener, and its specification, a string or an object, names
  -- hosts for automatic certificates: it is a TLS listener that offers the protocol of the ACME
  -- challenge behind h2 and http/1.1, and a client is served, from one manager, what this returns for
  -- the server name that the client sends, or the parameter default_server_name where it sends none,
  -- and the cache of files is not touched. The manager allows these hosts, and any host where the list
  -- is nil; it has no cache exactly if none of the four places for one is to be had, and an account
  -- binding exactly if the environment gives a name and a key that can be decoded. A string names the
  -- hosts with commas between them, and neither begins with a slash nor has a colon in them; an object
  -- by a []string, and neither a string cert nor a string cert_directory.
  pub open_https_listener-manages :
      (env : Env) (open_spec : Bytes → M Listener) (open_json : Fields → M Listener)
      (params : Fields) (arg : Bytes) (w : World) (l : Listener) (w' : World)
      → open_https_listener env open_spec open_json params arg w ≡ (ok l, w')
      → (hostnames : Option (List Bytes)) → NamesHosts params arg hostnames
      → (config : TlsConfig) × (inner : Listener) × (l ≡ tls_listener config inner)
        × (config.next_protos ≡ codes "h2" ∷ codes "http/1.1" ∷ env.alpn_proto ∷ [])
        × (m : Manager) × IsManager settings hostnames m
        × ((hello : Hello) (certs : FileCache d.Key)
            → serve d files settings manager config hello certs ≡ (
              manager m (record hello {
                server_name =
                    sent_or_default (get (codes "default_server_name") params) hello.server_name;
              }),
              certs,
            ))
  unfolding serve IsConfigured next_protos
  open_https_listener-manages env open_spec open_json params arg w l w' e hostnames p =
      let (config, inner, k, source, default, protos) =
        subst (IsConfigured env params arg) e
          (opened-IsConfigured env params open_spec open_json arg w) in
      let from : config.source ≡ automatically hostnames =
        some-injective (sym source ∙ source_named-hosts params arg hostnames p) in
      (
        config,
        inner,
        k,
        protos ∙ ap (next_protos env) from,
        get_certificate_automatically settings hostnames,
        get_certificate_automatically-IsManager settings hostnames,
        λ hello certs.
            serve_named-effective d files settings manager config.default_server_name config.source
              hello certs
            ∙ ap
                (λ s.
                  get_certificate_of d files settings manager s
                    (record hello {
                      server_name = effective_name config.default_server_name hello.server_name;
                    })
                    certs)
                from
            ∙ managed hostnames _ certs
            ∙ ap
                (λ n. (
                  manager (get_certificate_automatically settings hostnames)
                      (record hello { server_name = n }),
                  certs,
                ))
                (ap (λ o. effective_name o hello.server_name) default
                  ∙ effective_name-default params hello.server_name),
      )
