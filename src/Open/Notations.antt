-- ===== src/Open/Notations.antt =====
-- open.go: the two notations of a listener, `Open`'s string and `OpenJSON`'s object.
use go_listener.Common.{ℕ, suc, ◌≡◌, refl, sym, ◌∙◌, Option, none, some, [], ◌∷◌, ◌++◌}
use go_listener.Common.Text.{Bytes, codes, cut, equal}
use go_listener.Json.{
  Json, string, number, object, Fields, nothing, field, get, as_string, as_object, as_number,
}
use go_listener.System.{Listener, Env, M, fail, OpenError}
use go_listener.Registry.{
  OpenListenerFunc, open_fd, open_fdname, open_unix, open_proxy, Registry, get_open_listener_func,
}
use go_listener.Builtin.{
  open_fd_listener, open_fdname_listener, open_unix_listener, open_proxy_listener, open_inner_json,
  proxied,
}
use go_listener.Open.{call, open_type, open_step, open_json_step, open_spec, open_json}

-- The object with a type and one more field.
abbrev pub typed : Bytes → Bytes → Json → Fields
typed t k v = field (codes "type") (string t) (field k v nothing)

module _ (env : Env) (reg : Registry) (n : ℕ) where
  pub open_type-registered :
      (o : Bytes → M Listener) (j : Fields → M Listener) (t : Bytes) (f : OpenListenerFunc)
      (params : Fields) (arg : Bytes)
      → get_open_listener_func t reg ≡ some f
      → open_type env reg o j t params arg ≡ call env reg o j f params arg
  unfolding open_type
  open_type-registered o j t f params arg h = go (get_open_listener_func t reg) h
    where
      go :
          (r : Option OpenListenerFunc)
          → r ≡ some f
          → Path
              (M Listener)
              (elim r [
                | none ↦ fail (OpenError.unknown_type t)
                | some f ↦ call env reg o j f params arg
              ])
              (call env reg o j f params arg)
      go r e = rw e refl

  -- Both notations call the same opener.
  same_opener :
      (o : Bytes → M Listener) (j : Fields → M Listener) (t : Bytes) (f : OpenListenerFunc)
      → get_open_listener_func t reg ≡ some f
      → (params : Fields) (arg : Bytes)
      → call env reg o j f nothing arg ≡ call env reg o j f params []
      → open_type env reg o j t nothing arg ≡ open_type env reg o j t params []
  same_opener o j t f h params arg same =
      open_type-registered o j t f nothing arg h
      ∙ same
      ∙ sym (open_type-registered o j t f params [] h)

  -- In a table where these types have the openers of the package, the string unix:path, for a path
  -- that is not empty, opens what the object with the path does; so for fd:n, with the number as a
  -- string or as a number, and for fdname:name.
  pub open_spec-eq-open_json :
      get_open_listener_func (codes "unix") reg ≡ some open_unix
      → get_open_listener_func (codes "fd") reg ≡ some open_fd
      → get_open_listener_func (codes "fdname") reg ≡ some open_fdname
      → (c : ℕ) (s : Bytes)
      → (open_spec env reg (suc n) (codes "unix:" ++ c ∷ s)
          ≡ open_json env reg (suc n) (typed (codes "unix") (codes "path") (string (c ∷ s))))
        × (open_spec env reg (suc n) (codes "fd:" ++ c ∷ s)
            ≡ open_json env reg (suc n) (typed (codes "fd") (codes "fd") (string (c ∷ s))))
        × (open_spec env reg (suc n) (codes "fd:" ++ c ∷ s)
            ≡ open_json env reg (suc n) (typed (codes "fd") (codes "fd") (number (c ∷ s))))
        × (open_spec env reg (suc n) (codes "fdname:" ++ c ∷ s)
            ≡ open_json env reg (suc n) (typed (codes "fdname") (codes "name") (string (c ∷ s))))
  unfolding open_spec open_json open_step open_json_step call open_unix_listener open_fd_listener
      open_fdname_listener cut as_string as_number get equal
  open_spec-eq-open_json u f g c s = (
    same_opener _ _ (codes "unix") open_unix u
        (typed (codes "unix") (codes "path") (string (c ∷ s))) (c ∷ s) refl,
    same_opener _ _ (codes "fd") open_fd f (typed (codes "fd") (codes "fd") (string (c ∷ s)))
        (c ∷ s) refl,
    same_opener _ _ (codes "fd") open_fd f (typed (codes "fd") (codes "fd") (number (c ∷ s)))
        (c ∷ s) refl,
    same_opener _ _ (codes "fdname") open_fdname g
        (typed (codes "fdname") (codes "name") (string (c ∷ s))) (c ∷ s) refl,
  )

  -- In a table where the type proxy has the opener of the package, the string proxy:spec, for a
  -- specification that is not empty, and the object with an inner object open the inner listener,
  -- whatever it is, on one fuel less, with a PROXY listener around it.
  open_spec-proxied :
      get_open_listener_func (codes "proxy") reg ≡ some open_proxy
      → (c : ℕ) (s : Bytes) (m : Fields)
      → (open_spec env reg (suc n) (codes "proxy:" ++ c ∷ s)
          ≡ proxied (open_spec env reg n (c ∷ s)))
        × (open_json env reg (suc n) (typed (codes "proxy") (codes "listener") (object m))
            ≡ proxied (open_json env reg n m))
  unfolding open_spec open_json open_step open_json_step call open_proxy_listener open_inner_json
      cut as_string as_object get equal
  open_spec-proxied h c s m = (
    open_type-registered _ _ (codes "proxy") open_proxy nothing (c ∷ s) h,
    open_type-registered _ _ (codes "proxy") open_proxy
        (typed (codes "proxy") (codes "listener") (object m)) [] h,
  )
