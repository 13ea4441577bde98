-- ===== src/Open/Encoding.antt =====
-- open.go: specifications as JSON objects, and `OpenJSON` of them.
use go_listener.Common.{ℕ, zero, suc, ◌<◌, ◌≡◌, refl, ap, sym, ◌∙◌, arith, false, some, [], ◌∷◌}
use go_listener.Common.Text.{Bytes, codes, contains, equal}
use go_listener.Json.{string, object, Fields, nothing, field, get, as_string, as_number, as_object}
use go_listener.System.{Listener, Env, M}
use go_listener.Registry.{
  OpenListenerFunc, open_fd, open_fdname, open_tcp, open_unix, open_proxy, open_https, Registry,
  get_open_listener_func,
}
use go_listener.Builtin.{
  open_fd_listener, open_fdname_listener, open_unix_listener, open_proxy_listener, open_inner_json,
  proxied,
}
use go_listener.Builtin.Tcp.{open_tcp_listener-port}
use go_listener.Https.{source_of_spec, wrap_tls}
use go_listener.Https.Objects.{source_field, tls_fields, open_https_listener-tls_fields}
use go_listener.Open.{call, open_json_step, open_spec, open_json}
use go_listener.Open.Sizes.{depth}
use go_listener.Open.Notations.{typed, open_type-registered}
use go_listener.Open.Meaning.{
  Spec, fd, fdname, tcp, unix, port, proxy, tls, https, meaning, IsStandard,
}

-- The object of a specification. One of an address has none that opens it, and is given its address.
abbrev pub encode : Spec → Fields
encode (fd c s) = typed (codes "fd") (codes "fd") (string (c ∷ s))
encode (fdname c s) = typed (codes "fdname") (codes "name") (string (c ∷ s))
encode (tcp c s) = typed (codes "tcp") (codes "address") (string (c ∷ s))
encode (unix c s) = typed (codes "unix") (codes "path") (string (c ∷ s))
encode (port c s) = typed (codes "tcp") (codes "port") (string (c ∷ s))
encode (proxy spec) = typed (codes "proxy") (codes "listener") (object (encode spec))
encode (tls cert spec) = tls_fields (codes "tls") (source_of_spec cert) (encode spec)
encode (https cert spec) = tls_fields (codes "https") (source_of_spec cert) (encode spec)

abbrev pub HasObject : Spec → Type 0
unfolding contains
HasObject (tcp c s) = ⊥
HasObject (port c s) = contains (c ∷ s) b':' ≡ false
HasObject (proxy spec) = HasObject spec
HasObject (tls cert spec) = HasObject spec
HasObject (https cert spec) = HasObject spec
HasObject _ = Unit

module _ (env : Env) (reg : Registry) where
  object_step :
      (o : Bytes → M Listener) (j : Fields → M Listener) (t : Bytes) (rest : Fields)
      (f : OpenListenerFunc)
      → get_open_listener_func t reg ≡ some f
      → open_json_step env reg o j (field (codes "type") (string t) rest)
        ≡ call env reg o j f (field (codes "type") (string t) rest) []
  unfolding open_json_step get equal as_string
  object_step o j t rest f g =
      open_type-registered env reg 0 o j t f (field (codes "type") (string t) rest) [] g

  module _ (standard : IsStandard reg) where
    -- In a table where the types have the openers of the packages, OpenJSON of the object of a
    -- specification, on more fuel than it is deep, is what the specification means. No part of it is a
    -- TCP listener on an address, and a port has no colon in it.
    pub open_json-eq-meaning :
        (spec : Spec) (n : ℕ)
        → depth (encode spec) < n
        → HasObject spec
        → open_json env reg n (encode spec) ≡ meaning env spec
    unfolding open_spec open_json meaning contains call open_fd_listener open_fdname_listener
        open_unix_listener open_proxy_listener open_inner_json get equal as_string as_number
        as_object
    open_json-eq-meaning spec zero l p = absurd (omega arith)
    open_json-eq-meaning (fd c s) (suc n) l p =
        object_step (open_spec env reg n) (open_json env reg n) (codes "fd")
          (field (codes "fd") (string (c ∷ s)) nothing) open_fd standard.has_fd
    open_json-eq-meaning (fdname c s) (suc n) l p =
        object_step (open_spec env reg n) (open_json env reg n) (codes "fdname")
          (field (codes "name") (string (c ∷ s)) nothing) open_fdname standard.has_fdname
    open_json-eq-meaning (tcp c s) (suc n) l p = absurd p
    open_json-eq-meaning (unix c s) (suc n) l p =
        object_step (open_spec env reg n) (open_json env reg n) (codes "unix")
          (field (codes "path") (string (c ∷ s)) nothing) open_unix standard.has_unix
    open_json-eq-meaning (port c s) (suc n) l p =
        object_step (open_spec env reg n) (open_json env reg n) (codes "tcp")
          (field (codes "port") (string (c ∷ s)) nothing) open_tcp standard.has_tcp
        ∙ sym (
            open_tcp_listener-port env c s (typed (codes "tcp") (codes "port") (string (c ∷ s))) p
              refl refl)
    open_json-eq-meaning (proxy spec) (suc n) l p =
        object_step (open_spec env reg n) (open_json env reg n) (codes "proxy")
          (field (codes "listener") (object (encode spec)) nothing) open_proxy standard.has_proxy
        ∙ ap proxied (open_json-eq-meaning spec n (omega arith) p)
    open_json-eq-meaning (tls cert spec) (suc n) l p =
        object_step (open_spec env reg n) (open_json env reg n) (codes "tls")
          (field (codes "listener") (object (encode spec)) (source_field (source_of_spec cert)))
          open_https standard.has_tls
        ∙ open_https_listener-tls_fields env (open_spec env reg n) (open_json env reg n)
            (codes "tls") (encode spec) (source_of_spec cert)
        ∙ ap (wrap_tls env nothing (source_of_spec cert))
            (open_json-eq-meaning spec n (omega arith) p)
    open_json-eq-meaning (https cert spec) (suc n) l p =
        object_step (open_spec env reg n) (open_json env reg n) (codes "https")
          (field (codes "listener") (object (encode spec)) (source_field (source_of_spec cert)))
          open_https standard.has_https
        ∙ open_https_listener-tls_fields env (open_spec env reg n) (open_json env reg n)
            (codes "https") (encode spec) (source_of_spec cert)
        ∙ ap (wrap_tls env nothing (source_of_spec cert))
            (open_json-eq-meaning spec n (omega arith) p)
