-- ===== src/Registry.antt =====
-- listener.go: the table of listener types.
pub mod Laws
pub mod Programs
pub mod Inits
use go_listener.Common.{ℕ, Option, none, some, List, [], ◌∷◌, if◌then◌else◌}
use go_listener.Common.Text.{Bytes, codes, equal}

-- An `OpenListenerFunc`, by the function that it is; `custom` is one of a program's own.
pub data OpenListenerFunc : Type 0 where
  open_fd open_fdname open_tcp open_unix open_proxy open_https : OpenListenerFunc
  custom : ℕ → OpenListenerFunc

-- `listenerTypes`
abbrev pub Registry : Type 0
Registry = List (Bytes × OpenListenerFunc)

-- `getOpenListenerFunc`, with `none` for nil.
unfoldable pub get_open_listener_func : Bytes → Registry → Option OpenListenerFunc
unfolding equal
get_open_listener_func name [] = none
get_open_listener_func name ((n, f) ∷ reg) =
    if equal n name then some f else get_open_listener_func name reg

-- `RegisterListenerType`: the new table, or the panic for a nil function or a name in use.
pub data Registered : Type 0 where
  registered : Registry → Registered
  panic_nil : Registered
  panic_twice : Bytes → Registered

register_fresh : Option OpenListenerFunc → Bytes → OpenListenerFunc → Registry → Registered
register_fresh (some _) name f reg = panic_twice name
register_fresh none name f reg = registered ((name, f) ∷ reg)

unfoldable pub register_listener_type : Bytes → Option OpenListenerFunc → Registry → Registered
unfolding register_fresh get_open_listener_func
register_listener_type name none reg = panic_nil
register_listener_type name (some f) reg =
    register_fresh (get_open_listener_func name reg) name f reg

-- Registrations one after another, up to the first panic.
abbrev pub then_register : Registered → Bytes → OpenListenerFunc → Registered
then_register (registered reg) name f = register_listener_type name (some f) reg
then_register r name f = r

-- `init` of the root package
unfoldable pub init_builtin : Registry → Registered
unfolding register_listener_type
init_builtin reg =
    then_register
      (then_register
        (then_register
          (then_register (register_listener_type (codes "fd") (some open_fd) reg) (codes "fdname")
            open_fdname)
          (codes "tcp") open_tcp)
        (codes "unix") open_unix)
      (codes "proxy") open_proxy

-- `init` of the package `tls`
unfoldable pub init_tls : Registry → Registered
unfolding register_listener_type
init_tls reg =
    then_register (register_listener_type (codes "tls") (some open_https) reg) (codes "https")
      open_https

-- The table after the first, and after both.
abbrev pub builtin_registry : Registry
builtin_registry =
    (codes "proxy", open_proxy)
    ∷ (codes "unix", open_unix)
    ∷ (codes "tcp", open_tcp)
    ∷ (codes "fdname", open_fdname)
    ∷ (codes "fd", open_fd)
    ∷ []

abbrev pub default_registry : Registry
default_registry = (codes "https", open_https) ∷ (codes "tls", open_https) ∷ builtin_registry
