-- ===== src/Open/Returns.antt =====
-- open.go: `Open` and `OpenJSON` return.
use go_listener.Common.{ℕ, zero, suc, ◌<◌, ◌≡◌, arith, some, [], ◌∷◌, length, false}
use mathlib.Core.Path.{subst}
use go_listener.Common.Text.{Bytes, codes, cut, is_empty}
use go_listener.Json.{Fields, nothing, get, as_string, as_number, as_object}
use go_listener.System.{World, OpenError, Listener, M, Env}
use go_listener.System.Returns.{
  IsReturned, Returns, fail-Returns, Option-Returns, Option-Returns_each,
}
use go_listener.Registry.{
  OpenListenerFunc, open_fd, open_fdname, open_tcp, open_unix, open_proxy, open_https, custom,
  Registry, get_open_listener_func,
}
use go_listener.Builtin.{argument, number_or_string}
use go_listener.Builtin.Returns.{
  FitsFd, FitsArgument, open_fd_listener-Returns, open_fdname_listener-Returns,
  open_tcp_listener-Returns, open_unix_listener-Returns, open_proxy_listener-Returns,
}
use go_listener.Https.Returns.{open_https_listener-Returns}
use go_listener.Open.Sizes.{depth, Shorter, cut-Shorter, inner-depth}
use go_listener.Open.Fits.{Fits, FitsFields, cut-Fits, argument-Fits, inner-Fits}
use go_listener.Open.{call, open_type, open_step, open_json_step, open_spec, open_json}

-- What is asked of the openers that a program registers.
abbrev pub CustomReturns : Env → Type 0
CustomReturns env = (n : ℕ) (params : Fields) (arg : Bytes) → Returns (env.custom n params arg)

module _ (env : Env) (reg : Registry) (customs : CustomReturns env) where
  -- What one call asks of the inner ones.
  module _ (o : Bytes → M Listener) (j : Fields → M Listener) (params : Fields) (arg : Bytes)
      (fits : FitsArgument (argument arg (number_or_string (get (codes "fd") params))))
      (of_object : (m : Fields)
        → as_object (get (codes "listener") params) ≡ some m
        → Returns (j m))
      (of_arg : is_empty arg ≡ false → Returns (o arg))
      (of_rest : (p : Bytes × Bytes) → cut arg b':' ≡ some p → Returns (o p.1)) where
    call-Returns : (f : OpenListenerFunc) → Returns (call env reg o j f params arg)
    unfolding call
    call-Returns open_fd = open_fd_listener-Returns env params arg fits
    call-Returns open_fdname = open_fdname_listener-Returns env params arg
    call-Returns open_tcp = open_tcp_listener-Returns env params arg
    call-Returns open_unix = open_unix_listener-Returns env params arg
    call-Returns open_proxy = open_proxy_listener-Returns o j params arg of_object of_arg
    call-Returns open_https = open_https_listener-Returns env o j params arg of_object of_rest
    call-Returns (custom n) = customs n params arg

    open_type-Returns : (t : Bytes) → Returns (open_type env reg o j t params arg)
    unfolding open_type
    open_type-Returns t =
        Option-Returns (get_open_listener_func t reg) _ _
          (fail-Returns (OpenError.unknown_type t) (λ q. cc)) call-Returns

  argument_of_string :
      (arg : Bytes)
      → FitsFd arg
      → FitsArgument (argument arg (number_or_string (get (codes "fd") nothing)))
  unfolding get as_number as_string
  argument_of_string [] h = tt
  argument_of_string (c ∷ arg) h = h

  open_step-Returns :
      (o : Bytes → M Listener) (j : Fields → M Listener) (spec : Bytes)
      → Fits spec
      → ((s : Bytes) → length s < length spec → Fits s → Returns (o s))
      → Returns (open_step env reg o j spec)
  unfolding open_step get as_object
  open_step-Returns o j spec h of_spec =
      Option-Returns_each (cut spec b':') _ _ (open_tcp_listener-Returns env nothing spec) λ p e.
        let (fd, rest) = cut-Fits spec p e h in
        let short = subst (Shorter (length spec)) e (cut-Shorter spec b':') in
        open_type-Returns o j nothing p.1 (argument_of_string p.1 fd) (λ m q. cc)
          (λ q. of_spec p.1 short rest)
          (λ q k.
            let shorter = subst (Shorter (length p.1)) k (cut-Shorter p.1 b':') in
            of_spec q.1 (omega (arith, short, shorter)) (cut-Fits p.1 q k rest).1)
          p.0

  open_json_step-Returns :
      (o : Bytes → M Listener) (j : Fields → M Listener) (object : Fields)
      → FitsFields object
      → ((m : Fields) → depth m < depth object → FitsFields m → Returns (j m))
      → Returns (open_json_step env reg o j object)
  unfolding open_json_step cut
  open_json_step-Returns o j object h of_object =
      Option-Returns (as_string (get (codes "type") object)) _ _
        (fail-Returns OpenError.no_type (λ q. cc))
        λ t.
          open_type-Returns o j object [] (argument-Fits object h)
            (λ m e. of_object m (inner-depth object m e) (inner-Fits object m h e)) (λ q. cc)
            (λ p e. cc) t

  mutual
    unfolding open_spec open_json

    spec-Returns : (n : ℕ) (s : Bytes) → length s < n → Fits s → Returns (open_spec env reg n s)
    spec-Returns zero s l h = absurd (omega arith)
    spec-Returns (suc n) s l h = open_step-Returns _ _ s h (λ t k. spec-Returns n t (omega arith))

    json-Returns :
        (n : ℕ) (m : Fields) → depth m < n → FitsFields m → Returns (open_json env reg n m)
    json-Returns zero m l h = absurd (omega arith)
    json-Returns (suc n) m l h =
        open_json_step-Returns _ _ m h (λ m' k. json-Returns n m' (omega arith))

  -- On more fuel than the string has bytes, Open returns, and so does OpenJSON on more than the object
  -- is deep: a listener, or an error of the code, of the system or of an opener that a program
  -- registers, and neither a panic nor the model's own error. Those openers end in neither, and no
  -- descriptor number from 2^63 on stands behind a colon at the end of the string, or under the key fd
  -- of the object and of those in it.
  pub open_spec-IsReturned :
      (n : ℕ) (spec : Bytes) (object : Fields) (w : World)
      → length spec < n
      → depth object < n
      → Fits spec
      → FitsFields object
      → IsReturned (open_spec env reg n spec w).0 × IsReturned (open_json env reg n object w).0
  open_spec-IsReturned n spec object w h k f g =
      (spec-Returns n spec h f w, json-Returns n object k g w)
