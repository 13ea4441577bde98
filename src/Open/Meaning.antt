-- ===== src/Open/Meaning.antt =====
-- open.go: specifications by their structure, and `Open` of their strings.
use go_listener.Common.{
  ℕ, zero, suc, ◌<◌, ◌≡◌, refl, ap, ◌∙◌, arith, false, Option, none, some, [], ◌∷◌, ◌++◌, length,
  length-append,
}
use go_listener.Common.Text.{Bytes, codes, cut, contains}
use go_listener.Json.{Fields, nothing}
use go_listener.System.{Listener, Env, M, fail, OpenError}
use go_listener.Registry.{
  OpenListenerFunc, open_fd, open_fdname, open_tcp, open_unix, open_proxy, open_https, Registry,
  get_open_listener_func,
}
use go_listener.Builtin.{
  open_fd_listener, open_fdname_listener, open_unix_listener, open_tcp_listener,
  open_proxy_listener, proxied,
}
use go_listener.Https.{open_https_listener, open_https_argument, source_of_spec, wrap_tls}
use go_listener.Open.{call, open_type, open_step, open_spec, open_json}
use go_listener.Open.Notations.{open_type-registered}

-- The specifications that the documentation lists. The arguments of the first five are not empty.
pub data Spec : Type 0 where
  fd fdname tcp unix : ℕ → Bytes → Spec
  port : ℕ → Bytes → Spec
  proxy : Spec → Spec
  tls https : Bytes → Spec → Spec

abbrev pub print : Spec → Bytes
print (fd c s) = codes "fd:" ++ c ∷ s
print (fdname c s) = codes "fdname:" ++ c ∷ s
print (tcp c s) = codes "tcp:" ++ c ∷ s
print (unix c s) = codes "unix:" ++ c ∷ s
print (port c s) = c ∷ s
print (proxy spec) = codes "proxy:" ++ print spec
print (tls cert spec) = codes "tls:" ++ (cert ++ b':' ∷ print spec)
print (https cert spec) = codes "https:" ++ (cert ++ b':' ∷ print spec)

-- A bare port and the certificate of a TLS listener have no colon in them.
abbrev pub IsPrintable : Spec → Type 0
unfolding contains
IsPrintable (port c s) = contains (c ∷ s) b':' ≡ false
IsPrintable (proxy spec) = IsPrintable spec
IsPrintable (tls cert spec) = (contains cert b':' ≡ false) × IsPrintable spec
IsPrintable (https cert spec) = (contains cert b':' ≡ false) × IsPrintable spec
IsPrintable _ = Unit

-- The listener of an inner specification with the wrappers around it.
unfoldable pub meaning : Env → Spec → M Listener
meaning env (fd c s) = open_fd_listener env nothing (c ∷ s)
meaning env (fdname c s) = open_fdname_listener env nothing (c ∷ s)
meaning env (tcp c s) = open_tcp_listener env nothing (c ∷ s)
meaning env (unix c s) = open_unix_listener env nothing (c ∷ s)
meaning env (port c s) = open_tcp_listener env nothing (c ∷ s)
meaning env (proxy spec) = proxied (meaning env spec)
meaning env (tls cert spec) = wrap_tls env nothing (source_of_spec cert) (meaning env spec)
meaning env (https cert spec) = wrap_tls env nothing (source_of_spec cert) (meaning env spec)

-- A table in which the types have the openers of the packages.
pub record IsStandard (reg : Registry) : Type 0 where
  pub has_fd : get_open_listener_func (codes "fd") reg ≡ some open_fd
  pub has_fdname : get_open_listener_func (codes "fdname") reg ≡ some open_fdname
  pub has_tcp : get_open_listener_func (codes "tcp") reg ≡ some open_tcp
  pub has_unix : get_open_listener_func (codes "unix") reg ≡ some open_unix
  pub has_proxy : get_open_listener_func (codes "proxy") reg ≡ some open_proxy
  pub has_tls : get_open_listener_func (codes "tls") reg ≡ some open_https
  pub has_https : get_open_listener_func (codes "https") reg ≡ some open_https

print-cons : (s : Spec) → (c : ℕ) × (t : Bytes) × (print s ≡ c ∷ t)
print-cons (fd c s) = (_, _, refl)
print-cons (fdname c s) = (_, _, refl)
print-cons (tcp c s) = (_, _, refl)
print-cons (unix c s) = (_, _, refl)
print-cons (port c s) = (_, _, refl)
print-cons (proxy s) = (_, _, refl)
print-cons (tls cert s) = (_, _, refl)
print-cons (https cert s) = (_, _, refl)

pub cut-append : (a t : Bytes) (c : ℕ) → contains a c ≡ false → cut (a ++ c ∷ t) c ≡ some (a, t)
unfolding cut contains
cut-append [] t c h = ground arith
cut-append (x ∷ a) t c h = ground (arith, cut-append a t c)

cut-none : (a : Bytes) (c : ℕ) → contains a c ≡ false → cut a c ≡ none
unfolding cut contains
cut-none [] c h = refl
cut-none (x ∷ a) c h = ground (arith, cut-none a c)

module _ (env : Env) (reg : Registry) where
  on_cut :
      (o : Bytes → M Listener) (r : Option (Bytes × Bytes)) (cert t : Bytes)
      → r ≡ some (cert, t)
      → Path
          (M Listener)
          (elim r [
            | none ↦ fail OpenError.bad_tls_spec
            | some (cert_spec, inner_spec) ↦
                wrap_tls env nothing (source_of_spec cert_spec) (o inner_spec)
          ])
          (wrap_tls env nothing (source_of_spec cert) (o t))
  on_cut o r cert t h = rw h refl

  wrapped :
      (o : Bytes → M Listener) (j : Fields → M Listener) (cert t : Bytes)
      → contains cert b':' ≡ false
      → call env reg o j open_https nothing (cert ++ b':' ∷ t)
        ≡ wrap_tls env nothing (source_of_spec cert) (o t)
  unfolding call open_https_listener open_https_argument
  wrapped o j [] t h = on_cut o (cut (b':' ∷ t) b':') [] t (cut-append [] t b':' h)
  wrapped o j (x ∷ cert) t h =
      on_cut o (cut ((x ∷ cert) ++ b':' ∷ t) b':') (x ∷ cert) t (cut-append (x ∷ cert) t b':' h)

  -- `Open` of a string with a type.
  typed_step :
      (o : Bytes → M Listener) (j : Fields → M Listener) (t arg : Bytes) (f : OpenListenerFunc)
      → contains t b':' ≡ false
      → get_open_listener_func t reg ≡ some f
      → open_step env reg o j (t ++ b':' ∷ arg) ≡ call env reg o j f nothing arg
  unfolding open_step
  typed_step o j t arg f h g = go (cut (t ++ b':' ∷ arg) b':') (cut-append t arg b':' h)
    where
      go :
          (r : Option (Bytes × Bytes))
          → r ≡ some (t, arg)
          → Path
              (M Listener)
              (elim r [
                | some (t, arg) ↦ open_type env reg o j t nothing arg
                | none ↦ open_tcp_listener env nothing (t ++ b':' ∷ arg)
              ])
              (call env reg o j f nothing arg)
      go r e = rw e (open_type-registered env reg 0 o j t f nothing arg g)

  bare_step :
      (o : Bytes → M Listener) (j : Fields → M Listener) (spec : Bytes)
      → contains spec b':' ≡ false
      → open_step env reg o j spec ≡ open_tcp_listener env nothing spec
  unfolding open_step
  bare_step o j spec h = go (cut spec b':') (cut-none spec b':' h)
    where
      go :
          (r : Option (Bytes × Bytes))
          → r ≡ none
          → Path
              (M Listener)
              (elim r [
                | some (t, arg) ↦ open_type env reg o j t nothing arg
                | none ↦ open_tcp_listener env nothing spec
              ])
              (open_tcp_listener env nothing spec)
      go r e = rw e refl

  proxied_step :
      (o : Bytes → M Listener) (j : Fields → M Listener) (spec : Spec)
      → call env reg o j open_proxy nothing (print spec) ≡ proxied (o (print spec))
  unfolding call open_proxy_listener
  proxied_step o j spec = go (print spec) (print-cons spec)
    where
      go :
          (s : Bytes)
          → ((c : ℕ) × (t : Bytes) × (s ≡ c ∷ t))
          → call env reg o j open_proxy nothing s ≡ proxied (o s)
      go s (c, t, e) = rw e refl

  module _ (standard : IsStandard reg) where
    -- In a table where the types have the openers of the packages, Open of the string of a
    -- specification, on more fuel than it has bytes, is what the specification means: the listener
    -- of the innermost one with the wrappers of all those around it. A bare port and the
    -- certificate of a TLS listener have no colon in them.
    pub open_spec-eq-meaning :
        (spec : Spec) (n : ℕ)
        → length (print spec) < n
        → IsPrintable spec
        → open_spec env reg n (print spec) ≡ meaning env spec
    unfolding open_spec open_json meaning contains call
    open_spec-eq-meaning spec zero l p = absurd (omega arith)
    open_spec-eq-meaning (fd c s) (suc n) l p =
        typed_step (open_spec env reg n) (open_json env reg n) (codes "fd") (c ∷ s) open_fd refl
          standard.has_fd
    open_spec-eq-meaning (fdname c s) (suc n) l p =
        typed_step (open_spec env reg n) (open_json env reg n) (codes "fdname") (c ∷ s) open_fdname
          refl standard.has_fdname
    open_spec-eq-meaning (tcp c s) (suc n) l p =
        typed_step (open_spec env reg n) (open_json env reg n) (codes "tcp") (c ∷ s) open_tcp refl
          standard.has_tcp
    open_spec-eq-meaning (unix c s) (suc n) l p =
        typed_step (open_spec env reg n) (open_json env reg n) (codes "unix") (c ∷ s) open_unix refl
          standard.has_unix
    open_spec-eq-meaning (port c s) (suc n) l p =
        bare_step (open_spec env reg n) (open_json env reg n) (c ∷ s) p
    open_spec-eq-meaning (proxy spec) (suc n) l p =
        typed_step (open_spec env reg n) (open_json env reg n) (codes "proxy") (print spec)
          open_proxy refl standard.has_proxy
        ∙ proxied_step (open_spec env reg n) (open_json env reg n) spec
        ∙ ap proxied (open_spec-eq-meaning spec n (omega arith) p)
    open_spec-eq-meaning (tls cert spec) (suc n) l p =
        typed_step (open_spec env reg n) (open_json env reg n) (codes "tls")
          (cert ++ b':' ∷ print spec) open_https refl standard.has_tls
        ∙ wrapped (open_spec env reg n) (open_json env reg n) cert (print spec) p.0
        ∙ ap (wrap_tls env nothing (source_of_spec cert)) (
            open_spec-eq-meaning spec n (omega (arith, length-append cert (b':' ∷ print spec))) p.1)
    open_spec-eq-meaning (https cert spec) (suc n) l p =
        typed_step (open_spec env reg n) (open_json env reg n) (codes "https")
          (cert ++ b':' ∷ print spec) open_https refl standard.has_https
        ∙ wrapped (open_spec env reg n) (open_json env reg n) cert (print spec) p.0
        ∙ ap (wrap_tls env nothing (source_of_spec cert)) (
            open_spec-eq-meaning spec n (omega (arith, length-append cert (b':' ∷ print spec))) p.1)
