-- ===== src/Registry/Inits.antt =====
-- listener.go, and the `init` functions of builtin.go and tls/listener.go: the table of a program that
-- imports the packages.
use go_listener.Common.{◌≡◌, refl, sym, ap, ◌∙◌, Option, some, List, [], ◌∷◌, ◌++◌}
use go_listener.Common.Text.{Bytes, codes}
use go_listener.Registry.{
  OpenListenerFunc, open_fd, open_fdname, open_tcp, open_unix, open_proxy, open_https, Registry,
  Registered, registered, panic_nil, panic_twice, register_listener_type, then_register,
  init_builtin, init_tls,
}
use go_listener.Registry.Programs.{Calls, register_all}

-- What a program does before it opens a listener: the `init` of the root package, that of the package
-- `tls`, and its own registrations.
pub data Part : Type 0 where
  builtin tls : Part
  own : Bytes → Option OpenListenerFunc → Part

run_part : Part → Registry → Registered
unfolding init_builtin init_tls register_listener_type
run_part builtin reg = init_builtin reg
run_part tls reg = init_tls reg
run_part (own name f) reg = register_listener_type name f reg

unfoldable pub run_parts : List Part → Registry → Registered
unfolding run_part
run_parts [] reg = registered reg
run_parts (part ∷ parts) reg = elim (run_part part reg) [
  | registered reg' ↦ run_parts parts reg'
  | panic_nil ↦ panic_nil
  | panic_twice n ↦ panic_twice n
]

abbrev pub calls_of : Part → Calls
calls_of builtin =
    (codes "fd", some open_fd)
    ∷ (codes "fdname", some open_fdname)
    ∷ (codes "tcp", some open_tcp)
    ∷ (codes "unix", some open_unix)
    ∷ (codes "proxy", some open_proxy)
    ∷ []
calls_of tls = (codes "tls", some open_https) ∷ (codes "https", some open_https) ∷ []
calls_of (own name f) = (name, f) ∷ []

abbrev pub calls_of_all : List Part → Calls
calls_of_all [] = []
calls_of_all (part ∷ parts) = calls_of part ++ calls_of_all parts

-- More calls behind a result.
after : Registered → Calls → Registered
after (registered reg) calls = register_all calls reg
after panic_nil calls = panic_nil
after (panic_twice n) calls = panic_twice n

after-nil : (r : Registered) → after r [] ≡ r
unfolding after register_all
after-nil (registered reg) = refl
after-nil panic_nil = refl
after-nil (panic_twice n) = refl

after-cons :
    (r : Registered) (n : Bytes) (f : OpenListenerFunc) (calls : Calls)
    → after r ((n, some f) ∷ calls) ≡ after (then_register r n f) calls
unfolding after register_all
after-cons (registered reg) n f calls = go (register_listener_type n (some f) reg)
  where
    go :
        (r : Registered)
        → Path Registered
            (elim r [
              | registered reg' ↦ register_all calls reg'
              | panic_nil ↦ panic_nil
              | panic_twice n ↦ panic_twice n
            ])
            (after r calls)
    go (registered reg') = refl
    go panic_nil = refl
    go (panic_twice n) = refl
after-cons panic_nil n f calls = refl
after-cons (panic_twice n) m f calls = refl

-- Calls with functions, one after another as the `init` functions make them.
then_all : Registered → List (Bytes × OpenListenerFunc) → Registered
then_all r [] = r
then_all r ((n, f) ∷ calls) = then_all (then_register r n f) calls

abbrev given : List (Bytes × OpenListenerFunc) → Calls
given [] = []
given ((n, f) ∷ calls) = (n, some f) ∷ given calls

after-then_all :
    (r : Registered) (calls : List (Bytes × OpenListenerFunc))
    → after r (given calls) ≡ then_all r calls
unfolding then_all
after-then_all r [] = after-nil r
after-then_all r ((n, f) ∷ calls) =
    after-cons r n f (given calls) ∙ after-then_all (then_register r n f) calls

run_part-calls :
    (part : Part) (reg : Registry) → run_part part reg ≡ register_all (calls_of part) reg
unfolding run_part after register_all then_all
run_part-calls builtin reg = sym (
    after-then_all (registered reg) (
      (codes "fd", open_fd)
      ∷ (codes "fdname", open_fdname)
      ∷ (codes "tcp", open_tcp)
      ∷ (codes "unix", open_unix)
      ∷ (codes "proxy", open_proxy)
      ∷ []))
run_part-calls tls reg =
    sym (
      after-then_all (registered reg)
        ((codes "tls", open_https) ∷ (codes "https", open_https) ∷ []))
run_part-calls (own name f) reg = sym (after_one (register_listener_type name f reg))
  where
    after_one :
        (r : Registered)
        → Path Registered
            (elim r [
              | registered reg' ↦ registered reg'
              | panic_nil ↦ panic_nil
              | panic_twice n ↦ panic_twice n
            ])
            r
    after_one (registered reg') = refl
    after_one panic_nil = refl
    after_one (panic_twice n) = refl

register_all-append :
    (a b : Calls) (reg : Registry) → register_all (a ++ b) reg ≡ after (register_all a reg) b
unfolding register_all after
register_all-append [] b reg = refl
register_all-append ((n, f) ∷ a) b reg =
    go (register_listener_type n f reg) (register_all-append a b)
  where
    go :
        (r : Registered)
        → ((reg : Registry) → register_all (a ++ b) reg ≡ after (register_all a reg) b)
        → Path Registered
            (elim r [
              | registered reg' ↦ register_all (a ++ b) reg'
              | panic_nil ↦ panic_nil
              | panic_twice n ↦ panic_twice n
            ])
            (after
              (elim r [
                | registered reg' ↦ register_all a reg'
                | panic_nil ↦ panic_nil
                | panic_twice n ↦ panic_twice n
              ])
              b)
    go (registered reg') h = h reg'
    go panic_nil h = refl
    go (panic_twice n) h = refl

-- The parts make the calls one after another.
pub run_parts-calls :
    (parts : List Part) (reg : Registry)
    → run_parts parts reg ≡ register_all (calls_of_all parts) reg
unfolding run_parts register_all after
run_parts-calls [] reg = refl
run_parts-calls (part ∷ parts) reg =
    go (run_part part reg) (run_parts-calls parts)
    ∙ ap (λ r. after r (calls_of_all parts)) (run_part-calls part reg)
    ∙ sym (register_all-append (calls_of part) (calls_of_all parts) reg)
  where
    go :
        (r : Registered)
        → ((reg : Registry) → run_parts parts reg ≡ register_all (calls_of_all parts) reg)
        → Path Registered
            (elim r [
              | registered reg' ↦ run_parts parts reg'
              | panic_nil ↦ panic_nil
              | panic_twice n ↦ panic_twice n
            ])
            (after r (calls_of_all parts))
    go (registered reg') h = h reg'
    go panic_nil h = refl
    go (panic_twice n) h = refl
