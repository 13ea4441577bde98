-- ===== src/Tests/Registering.antt =====
-- The registrations of programs.
use go_listener.Common.{◌≡◌, refl, some, [], ◌∷◌, inl, inr}
use go_listener.Common.Text.{codes, equal}
use go_listener.Registry.{
  open_tcp, custom, registered, register_listener_type, get_open_listener_func, init_builtin,
  init_tls, builtin_registry, default_registry, Registry,
}
use go_listener.Registry.Programs.{Calls, register_all, IsTable, register_all-IsTable}
use go_listener.Registry.Inits.{builtin, tls, own, run_parts}
use go_listener.Open.Meaning.{IsStandard}
use go_listener.Open.Standard.{run_parts-IsStandard}

-- The packages register their types without a panic.
registrations :
    (init_builtin [] ≡ registered builtin_registry)
    × (init_tls builtin_registry ≡ registered default_registry)
unfolding init_builtin init_tls register_listener_type get_open_listener_func equal
registrations = (refl, refl)

-- A name that is registered again.
abbrev again : Calls
again =
    (codes "tcp", some open_tcp)
    ∷ (codes "mine", some (custom 0))
    ∷ (codes "tcp", some (custom 1))
    ∷ []

register_all-IsTable_example : IsTable again (register_all again [])
register_all-IsTable_example = register_all-IsTable again

abbrev program : Registry
program = (codes "mine", custom 0) ∷ default_registry

program_run :
    run_parts (builtin ∷ tls ∷ own (codes "mine") (some (custom 0)) ∷ []) [] ≡ registered program
unfolding run_parts init_builtin init_tls register_listener_type get_open_listener_func equal
program_run = refl

run_parts-IsStandard_example : IsStandard program
run_parts-IsStandard_example =
    run_parts-IsStandard (builtin ∷ tls ∷ own (codes "mine") (some (custom 0)) ∷ []) program
      program_run (inl refl) (inr (inl refl))
