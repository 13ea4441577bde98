-- ===== src/Open/Standard.antt =====
-- listener.go, builtin.go and tls/listener.go: the table in which a program opens its listeners.
use go_listener.Common.{◌≡◌, refl, sym, ◌∙◌, Option, some, List, [], ◌∷◌, ◌++◌, ◌⊎◌, inl, inr}
use mathlib.Core.Path.{subst}
use go_listener.Common.Text.{Bytes, codes}
use go_listener.Registry.{
  OpenListenerFunc, open_fd, open_fdname, open_tcp, open_unix, open_proxy, open_https, Registry,
  registered,
}
use go_listener.Registry.Programs.{Calls, Occurs, IsTable, register_all-IsTable}
use go_listener.Registry.Inits.{
  Part, builtin, tls, run_parts, calls_of, calls_of_all, run_parts-calls,
}
use go_listener.Open.Meaning.{IsStandard}

Occurs-append :
    (name : Bytes) (f : Option OpenListenerFunc) (a b : Calls)
    → Occurs name f a ⊎ Occurs name f b
    → Occurs name f (a ++ b)
Occurs-append name f [] b (inr o) = o
Occurs-append name f [] b (inl o) = absurd o
Occurs-append name f ((n, g) ∷ a) b (inl (inl e)) = inl e
Occurs-append name f ((n, g) ∷ a) b (inl (inr o)) = inr (Occurs-append name f a b (inl o))
Occurs-append name f ((n, g) ∷ a) b (inr o) = inr (Occurs-append name f a b (inr o))

abbrev Has : Part → List Part → Type 0
Has part [] = ⊥
Has part (p ∷ parts) = (part ≡ p) ⊎ Has part parts

Has-Occurs :
    (part : Part) (parts : List Part) (name : Bytes) (f : Option OpenListenerFunc)
    → Has part parts
    → Occurs name f (calls_of part)
    → Occurs name f (calls_of_all parts)
Has-Occurs part [] name f h o = absurd h
Has-Occurs part (p ∷ parts) name f (inl e) o =
    Occurs-append name f (calls_of p) (calls_of_all parts)
      (inl (subst (λ p. Occurs name f (calls_of p)) e o))
Has-Occurs part (p ∷ parts) name f (inr h) o =
    Occurs-append name f (calls_of p) (calls_of_all parts) (inr (Has-Occurs part parts name f h o))

-- In the table of every program that imports the root package and the package `tls`, in whatever order
-- their `init` functions and its own registrations run, the types of the two packages have the
-- openers of the packages, if nothing panics.
pub run_parts-IsStandard :
    (parts : List Part) (reg : Registry)
    → run_parts parts [] ≡ registered reg
    → Has builtin parts
    → Has tls parts
    → IsStandard reg
unfolding IsTable
run_parts-IsStandard parts reg e b t =
    let table : IsTable (calls_of_all parts) (registered reg) =
      subst (IsTable (calls_of_all parts)) (sym (run_parts-calls parts []) ∙ e)
        (register_all-IsTable (calls_of_all parts)) in
    let from =
      λ (part : Part) (h : Has part parts) (name : Bytes) (f : OpenListenerFunc)
          (o : Occurs name (some f) (calls_of part)).
        (table.1 name f).1 (Has-Occurs part parts name (some f) h o) in
    record {
      has_fd = from builtin b (codes "fd") open_fd (inl (refl, refl));
      has_fdname = from builtin b (codes "fdname") open_fdname (inr (inl (refl, refl)));
      has_tcp = from builtin b (codes "tcp") open_tcp (inr (inr (inl (refl, refl))));
      has_unix = from builtin b (codes "unix") open_unix (inr (inr (inr (inl (refl, refl)))));
      has_proxy =
          from builtin b (codes "proxy") open_proxy (inr (inr (inr (inr (inl (refl, refl))))));
      has_tls = from tls t (codes "tls") open_https (inl (refl, refl));
      has_https = from tls t (codes "https") open_https (inr (inl (refl, refl)));
    }
