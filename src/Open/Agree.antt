-- ===== src/Open/Agree.antt =====
-- open.go: what one call of `Open` or `OpenJSON` asks of the inner ones.
use go_listener.Common.{◌<◌, ◌≤◌, ◌≡◌, refl, ap, arith, Option, none, some, [], ◌∷◌, length}
use go_listener.Common.Text.{Bytes, codes, cut}
use go_listener.Json.{Json, object, string, Fields, nothing, get, as_string, as_object}
use go_listener.System.{Listener, Env, M, fail, OpenError, CertSource}
use go_listener.Registry.{
  OpenListenerFunc, open_fd, open_fdname, open_tcp, open_unix, open_proxy, open_https, custom,
  Registry, get_open_listener_func,
}
use go_listener.Builtin.{open_tcp_listener, open_proxy_listener, proxied, open_inner_json}
use go_listener.Https.{
  open_https_listener, open_https_argument, open_https_params, source_of_spec, source_of_params,
  wrap_tls,
}
use go_listener.Open.{call, open_type, open_step, open_json_step}
use go_listener.Open.Sizes.{depth, Shorter, cut-Shorter, Shallower, get-Shallower}

module _ (env : Env) (reg : Registry) (o o' : Bytes → M Listener) (j j' : Fields → M Listener) where
  same_call_of_string :
      (f : OpenListenerFunc) (arg : Bytes)
      → ((s : Bytes) → length s ≤ length arg → o s ≡ o' s)
      → call env reg o j f nothing arg ≡ call env reg o' j' f nothing arg
  unfolding call open_proxy_listener open_https_listener open_https_argument open_https_params
      open_inner_json as_object get source_of_params as_string
  same_call_of_string open_fd arg h = refl
  same_call_of_string open_fdname arg h = refl
  same_call_of_string open_tcp arg h = refl
  same_call_of_string open_unix arg h = refl
  same_call_of_string (custom n) arg h = refl
  same_call_of_string open_proxy [] h = refl
  same_call_of_string open_proxy (c ∷ s) h = ap proxied (h (c ∷ s) (omega arith))
  same_call_of_string open_https [] h = refl
  same_call_of_string open_https (c ∷ s) h = go (cut (c ∷ s) b':') (cut-Shorter (c ∷ s) b':')
    where
      go :
          (r : Option (Bytes × Bytes))
          → Shorter (length (c ∷ s)) r
          → Path
              (M Listener)
              (elim r [
                | none ↦ fail OpenError.bad_tls_spec
                | some (cert_spec, inner_spec) ↦
                    wrap_tls env nothing (source_of_spec cert_spec) (o inner_spec)
              ])
              (elim r [
                | none ↦ fail OpenError.bad_tls_spec
                | some (cert_spec, inner_spec) ↦
                    wrap_tls env nothing (source_of_spec cert_spec) (o' inner_spec)
              ])
      go none l = refl
      go (some p) l = ap (wrap_tls env nothing (source_of_spec p.0)) (h p.1 (omega arith))

  same_call_of_object :
      (f : OpenListenerFunc) (m : Fields)
      → ((m' : Fields) → depth m' < depth m → j m' ≡ j' m')
      → call env reg o j f m [] ≡ call env reg o' j' f m []
  unfolding call open_proxy_listener open_https_listener open_https_params open_inner_json as_object
  same_call_of_object open_fd m h = refl
  same_call_of_object open_fdname m h = refl
  same_call_of_object open_tcp m h = refl
  same_call_of_object open_unix m h = refl
  same_call_of_object (custom n) m h = refl
  same_call_of_object open_proxy m h =
      go (get (codes "listener") m) (get-Shallower (codes "listener") m)
    where
      go :
          (r : Option Json)
          → Shallower (depth m) r
          → proxied (open_inner_json j (as_object r)) ≡ proxied (open_inner_json j' (as_object r))
      go (some (object m')) l = ap proxied (h m' (omega arith))
      go _ l = refl
  same_call_of_object open_https m h =
      go (source_of_params m) (get (codes "listener") m) (get-Shallower (codes "listener") m)
    where
      https : (Fields → M Listener) → Option CertSource → Option Fields → M Listener
      https k c r = elim c [
        | none ↦ fail OpenError.no_certificate
        | some source ↦ elim r [
          | none ↦ fail OpenError.no_inner
          | some spec ↦ wrap_tls env m source (k spec)
        ]
      ]

      go :
          (c : Option CertSource) (r : Option Json)
          → Shallower (depth m) r
          → https j c (as_object r) ≡ https j' c (as_object r)
      go none r l = refl
      go (some source) (some (object m')) l = ap (wrap_tls env m source) (h m' (omega arith))
      go (some source) _ l = refl

  same_type_of_string :
      (t arg : Bytes)
      → ((s : Bytes) → length s ≤ length arg → o s ≡ o' s)
      → open_type env reg o j t nothing arg ≡ open_type env reg o' j' t nothing arg
  unfolding open_type
  same_type_of_string t arg h = go (get_open_listener_func t reg)
    where
      go :
          (r : Option OpenListenerFunc)
          → Path
              (M Listener)
              (elim r [
                | none ↦ fail (OpenError.unknown_type t)
                | some f ↦ call env reg o j f nothing arg
              ])
              (elim r [
                | none ↦ fail (OpenError.unknown_type t)
                | some f ↦ call env reg o' j' f nothing arg
              ])
      go none = refl
      go (some f) = same_call_of_string f arg h

  same_type_of_object :
      (t : Bytes) (m : Fields)
      → ((m' : Fields) → depth m' < depth m → j m' ≡ j' m')
      → open_type env reg o j t m [] ≡ open_type env reg o' j' t m []
  unfolding open_type
  same_type_of_object t m h = go (get_open_listener_func t reg)
    where
      go :
          (r : Option OpenListenerFunc)
          → Path
              (M Listener)
              (elim r [ none ↦ fail (OpenError.unknown_type t) | some f ↦ call env reg o j f m [] ])
              (elim r [
                | none ↦ fail (OpenError.unknown_type t)
                | some f ↦ call env reg o' j' f m []
              ])
      go none = refl
      go (some f) = same_call_of_object f m h

  -- `Open` asks only for shorter specifications.
  pub same_step :
      (spec : Bytes)
      → ((s : Bytes) → length s < length spec → o s ≡ o' s)
      → open_step env reg o j spec ≡ open_step env reg o' j' spec
  unfolding open_step
  same_step spec h = go (cut spec b':') (cut-Shorter spec b':')
    where
      go :
          (r : Option (Bytes × Bytes))
          → Shorter (length spec) r
          → Path
              (M Listener)
              (elim r [
                | some (t, arg) ↦ open_type env reg o j t nothing arg
                | none ↦ open_tcp_listener env nothing spec
              ])
              (elim r [
                | some (t, arg) ↦ open_type env reg o' j' t nothing arg
                | none ↦ open_tcp_listener env nothing spec
              ])
      go none l = refl
      go (some p) l = same_type_of_string p.0 p.1 (λ s k. h s (omega arith))

  -- `OpenJSON` asks only for the objects in it.
  pub same_json_step :
      (m : Fields)
      → ((m' : Fields) → depth m' < depth m → j m' ≡ j' m')
      → open_json_step env reg o j m ≡ open_json_step env reg o' j' m
  unfolding open_json_step as_string
  same_json_step m h = go (get (codes "type") m)
    where
      go :
          (r : Option Json)
          → Path
              (M Listener)
              (elim (as_string r) [
                | some t ↦ open_type env reg o j t m []
                | none ↦ fail OpenError.no_type
              ])
              (elim (as_string r) [
                | some t ↦ open_type env reg o' j' t m []
                | none ↦ fail OpenError.no_type
              ])
      go (some (string t)) = same_type_of_object t m h
      go _ = refl
