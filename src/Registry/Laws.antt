-- ===== src/Registry/Laws.antt =====
-- listener.go: a lookup after `RegisterListenerType`.
use go_listener.Common.{none, some, ◌∷◌, ◌≡◌, refl, if◌then◌else◌, Option-cases, inl, inr, ◌⊎◌}
use go_listener.Common.Text.{Bytes, equal}
use go_listener.Registry.{
  OpenListenerFunc, Registry, registered, panic_twice, get_open_listener_func,
  register_listener_type, register_fresh,
}

-- `RegisterListenerType` of a function panics exactly where the name is in the table. Where it does
-- not, a lookup then gives the new function for the new name and what it gave before for any other.
get-register_listener_type :
    (name : Bytes) (f : OpenListenerFunc) (reg : Registry)
    → ((register_listener_type name (some f) reg ≡ panic_twice name)
        × ((g : OpenListenerFunc) × (get_open_listener_func name reg ≡ some g)))
      ⊎ ((reg' : Registry) × (register_listener_type name (some f) reg ≡ registered reg')
          × (get_open_listener_func name reg ≡ none)
          × ((key : Bytes)
              → get_open_listener_func key reg'
                ≡ (if equal name key then some f else get_open_listener_func key reg)))
unfolding register_listener_type register_fresh get_open_listener_func
get-register_listener_type name f reg = elim (Option-cases (get_open_listener_func name reg)) [
  | inl e ↦ inr ((name, f) ∷ reg, rw (register_fresh, e), e, λ key. refl)
  | inr (g, e) ↦ inl (rw (register_fresh, e), (g, e))
]
