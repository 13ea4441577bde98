-- ===== src/Open/Decoded.antt =====
-- open.go and tls/listener.go: `OpenJSON` of an object that `encoding/json` decodes.
use go_listener.Common.{ℕ, zero, suc, ◌≡◌, refl, Option, none, some, List, [], Bool-cases, inl, inr}
use mathlib.Core.Path.{subst}
use go_listener.Common.Text.{Bytes, codes, equal}
use go_listener.Json.{
  Json, null, boolean, number, string, strings, array, object, Items, end, item, Fields, nothing,
  field, get, as_string, as_strings, as_object,
}
use go_listener.System.{
  World, Listener, net_listener, watched_listener, proxy_listener, tls_listener, CertSource,
  from_file, from_directory, automatically, TlsConfig, M, Env, OpenError, fail,
}
use go_listener.System.Yields.{IsOk, Yields, fail-Yields, wrap-Yields, Yields-mono, Option-Yields}
use go_listener.Registry.{
  OpenListenerFunc, open_fd, open_fdname, open_tcp, open_unix, open_proxy, open_https, custom,
  Registry, get_open_listener_func,
}
use go_listener.Builtin.{
  open_fd_listener, open_fdname_listener, open_tcp_listener, open_unix_listener,
  open_proxy_listener, open_inner_json,
}
use go_listener.Builtin.Types.{
  HasType, open_fd_listener-HasType, open_fdname_listener-HasType, open_tcp_listener-HasType,
  open_unix_listener-HasType,
}
use go_listener.Https.{open_https_listener, open_https_params, source_of_params, wrap_tls}
use go_listener.Open.{call, open_type, open_json_step, open_spec, open_json}

-- What `encoding/json` decodes: no value in it is a `[]string`.
abbrev mutual
  pub IsDecoded : Fields → Type 0
  IsDecoded nothing = Unit
  IsDecoded (field k v m) = IsDecodedValue v × IsDecoded m

  IsDecodedValue : Json → Type 0
  IsDecodedValue (strings l) = ⊥
  IsDecodedValue (array i) = IsDecodedItems i
  IsDecodedValue (object m) = IsDecoded m
  IsDecodedValue null = Unit
  IsDecodedValue (boolean b) = Unit
  IsDecodedValue (number s) = Unit
  IsDecodedValue (string s) = Unit

  IsDecodedItems : Items → Type 0
  IsDecodedItems end = Unit
  IsDecodedItems (item v i) = IsDecodedValue v × IsDecodedItems i

abbrev IsManual : CertSource → Type 0
IsManual (automatically h) = ⊥
IsManual (from_file p) = Unit
IsManual (from_directory p) = Unit

-- None of the TLS layers of the listener has automatic certificates.
abbrev pub IsUnmanaged : Listener → Type 0
IsUnmanaged (net_listener h b) = Unit
IsUnmanaged (watched_listener h p) = Unit
IsUnmanaged (proxy_listener l) = IsUnmanaged l
IsUnmanaged (tls_listener config l) = IsManual config.source × IsUnmanaged l

abbrev IsDecodedFound : Option Json → Type 0
IsDecodedFound none = Unit
IsDecodedFound (some v) = IsDecodedValue v

get-IsDecoded : (k : Bytes) (m : Fields) → IsDecoded m → IsDecodedFound (get k m)
unfolding get
get-IsDecoded k nothing h = tt
get-IsDecoded k (field j v m) h = elim (Bool-cases (equal j k)) [
  | inl e ↦ rw (get, e) h.0
  | inr e ↦ rw (get, e) (get-IsDecoded k m h.1)
]

object-IsDecoded :
    (v : Option Json) (m : Fields) → IsDecodedFound v → as_object v ≡ some m → IsDecoded m
unfolding as_object
object-IsDecoded (some (object i)) m h e = let q : i ≡ m = cc in subst IsDecoded q h
object-IsDecoded none m h e = cc
object-IsDecoded (some null) m h e = cc
object-IsDecoded (some (boolean b)) m h e = cc
object-IsDecoded (some (number s)) m h e = cc
object-IsDecoded (some (string s)) m h e = cc
object-IsDecoded (some (strings l)) m h e = cc
object-IsDecoded (some (array i)) m h e = cc

as_strings-none : (v : Option Json) → IsDecodedFound v → as_strings v ≡ none
unfolding as_strings
as_strings-none none h = refl
as_strings-none (some null) h = refl
as_strings-none (some (boolean b)) h = refl
as_strings-none (some (number s)) h = refl
as_strings-none (some (string s)) h = refl
as_strings-none (some (array i)) h = refl
as_strings-none (some (object m)) h = refl
as_strings-none (some (strings l)) h = absurd h

some-IsManual : (a b : CertSource) → IsManual a → some a ≡ some b → IsManual b
some-IsManual a b h e = let q : a ≡ b = cc in subst IsManual q h

source_of_params-IsManual :
    (m : Fields) (source : CertSource)
    → IsDecoded m
    → source_of_params m ≡ some source
    → IsManual source
unfolding source_of_params
source_of_params-IsManual m source h =
    go (as_string (get (codes "cert") m)) (as_string (get (codes "cert_directory") m))
      (as_strings (get (codes "autocert_hostnames") m))
      (as_strings-none (get (codes "autocert_hostnames") m)
        (get-IsDecoded (codes "autocert_hostnames") m h))
  where
    go :
        (a b : Option Bytes) (c : Option (Option (List Bytes)))
        → c ≡ none
        → Path
            (Option CertSource)
            (elim a [
              | some path ↦ some (from_file path)
              | none ↦ elim b [
                | some path ↦ some (from_directory path)
                | none ↦ elim c [ some hostnames ↦ some (automatically hostnames) | none ↦ none ]
              ]
            ])
            (some source)
        → IsManual source
    go (some p) b c n e = some-IsManual (from_file p) source tt e
    go none (some p) c n e = some-IsManual (from_directory p) source tt e
    go none none none n e = cc
    go none none (some h) n e = cc

-- A listener that is neither a PROXY one nor a TLS one.
not_wrapped :
    (f : OpenListenerFunc)
    → ((l : Listener) → HasType f (proxy_listener l) → ⊥)
    → ((l : Listener) (config : TlsConfig) → HasType f (tls_listener config l) → ⊥)
    → (l : Listener) → HasType f l
    → IsUnmanaged l
not_wrapped f h k (net_listener i b) p = tt
not_wrapped f h k (watched_listener i path) p = tt
not_wrapped f h k (proxy_listener l) p = absurd (h l p)
not_wrapped f h k (tls_listener config l) p = absurd (k l config p)

module _ (env : Env) (reg : Registry)
    (customs : (n : ℕ) (params : Fields) (arg : Bytes)
      → Yields IsUnmanaged (env.custom n params arg)) where
  module _ (o : Bytes → M Listener) (j : Fields → M Listener) (m : Fields) (decoded : IsDecoded m)
      (of_object : (m : Fields) → IsDecoded m → Yields IsUnmanaged (j m)) where
    inner_of :
        (v : Option Fields)
        → as_object (get (codes "listener") m) ≡ v
        → Yields IsUnmanaged (open_inner_json j v)
    unfolding open_inner_json
    inner_of none e = fail-Yields IsUnmanaged OpenError.no_inner
    inner_of (some i) e = of_object i (
        object-IsDecoded (get (codes "listener") m) i (get-IsDecoded (codes "listener") m decoded)
          e)

    proxy-IsUnmanaged : Yields IsUnmanaged (open_proxy_listener o j m [])
    unfolding open_proxy_listener
    proxy-IsUnmanaged =
        wrap-Yields IsUnmanaged IsUnmanaged proxy_listener
          (open_inner_json j (as_object (get (codes "listener") m))) (λ l p. p)
          (inner_of (as_object (get (codes "listener") m)) refl)

    wrap_tls-IsUnmanaged :
        (source : CertSource) (inner : M Listener)
        → IsManual source
        → Yields IsUnmanaged inner
        → Yields IsUnmanaged (wrap_tls env m source inner)
    unfolding wrap_tls
    wrap_tls-IsUnmanaged source inner h y =
        wrap-Yields IsUnmanaged IsUnmanaged (tls_listener _) inner (λ l p. (h, p)) y

    https-IsUnmanaged : Yields IsUnmanaged (open_https_listener env o j m [])
    unfolding open_https_listener open_https_params
    https-IsUnmanaged =
        go (source_of_params m) (as_object (get (codes "listener") m))
          (λ source e. source_of_params-IsManual m source decoded e)
          (λ i e. of_object i (
            object-IsDecoded (get (codes "listener") m) i
              (get-IsDecoded (codes "listener") m decoded) e))
      where
        go :
            (c : Option CertSource) (v : Option Fields)
            → ((source : CertSource) → c ≡ some source → IsManual source)
            → ((i : Fields) → v ≡ some i → Yields IsUnmanaged (j i))
            → Yields IsUnmanaged (elim c [
              | none ↦ fail OpenError.no_certificate
              | some source ↦ elim v [
                | none ↦ fail OpenError.no_inner
                | some inner_spec ↦ wrap_tls env m source (j inner_spec)
              ]
            ])
        go none v h k = fail-Yields IsUnmanaged OpenError.no_certificate
        go (some source) none h k = fail-Yields IsUnmanaged OpenError.no_inner
        go (some source) (some i) h k = wrap_tls-IsUnmanaged source (j i) (h source refl) (k i refl)

    call-IsUnmanaged : (f : OpenListenerFunc) → Yields IsUnmanaged (call env reg o j f m [])
    unfolding call
    call-IsUnmanaged open_fd =
        Yields-mono (HasType open_fd) IsUnmanaged (open_fd_listener env m [])
          (not_wrapped open_fd (λ l t. t) (λ l c t. t)) (open_fd_listener-HasType env m [])
    call-IsUnmanaged open_fdname =
        Yields-mono (HasType open_fdname) IsUnmanaged (open_fdname_listener env m [])
          (not_wrapped open_fdname (λ l t. t) (λ l c t. t)) (open_fdname_listener-HasType env m [])
    call-IsUnmanaged open_tcp =
        Yields-mono (HasType open_tcp) IsUnmanaged (open_tcp_listener env m [])
          (not_wrapped open_tcp (λ l t. t) (λ l c t. t)) (open_tcp_listener-HasType env m [])
    call-IsUnmanaged open_unix =
        Yields-mono (HasType open_unix) IsUnmanaged (open_unix_listener env m [])
          (not_wrapped open_unix (λ l t. t) (λ l c t. t)) (open_unix_listener-HasType env m [])
    call-IsUnmanaged open_proxy = proxy-IsUnmanaged
    call-IsUnmanaged open_https = https-IsUnmanaged
    call-IsUnmanaged (custom n) = customs n m []

    step-IsUnmanaged : Yields IsUnmanaged (open_json_step env reg o j m)
    unfolding open_json_step open_type
    step-IsUnmanaged =
        Option-Yields IsUnmanaged (as_string (get (codes "type") m)) _ _
          (fail-Yields IsUnmanaged OpenError.no_type)
          λ t.
            Option-Yields IsUnmanaged (get_open_listener_func t reg) _ _
              (fail-Yields IsUnmanaged (OpenError.unknown_type t)) call-IsUnmanaged

  -- OpenJSON of an object that `encoding/json` decodes, in which no value is a []string, returns no
  -- listener with automatic certificates in any of its TLS layers, whatever the object, the nesting and
  -- the table, if no opener that a program registers returns one.
  pub open_json-IsUnmanaged :
      (fuel : ℕ) (spec : Fields) (w : World)
      → IsDecoded spec
      → IsOk IsUnmanaged (open_json env reg fuel spec w).0
  unfolding open_json
  open_json-IsUnmanaged zero spec w h = tt
  open_json-IsUnmanaged (suc fuel) spec w h =
      step-IsUnmanaged (open_spec env reg fuel) (open_json env reg fuel) spec h
        (λ m d w'. open_json-IsUnmanaged fuel m w' d) w
