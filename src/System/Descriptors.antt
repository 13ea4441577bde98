-- ===== src/System/Descriptors.antt =====
-- Which of the descriptors given by number an operation closes.
use go_listener.Common.{
  ℕ, ◌≡◌, refl, ◌∙◌, Bool, true, false, Option, none, some, List, ◌∷◌, if◌then◌else◌, Outcome, ok,
  err, panic, Option-cases, inl, inr,
}
use go_listener.System.{
  World, OpenError, Listener, net_listener, watched_listener, proxy_listener, tls_listener,
  bound_fd, bound_tcp, M, continue, ◌>>=◌, pure, fail, Env, syscall_as, open_socket,
}
use go_listener.System.Yields.{IsOk, Yields}

-- The descriptor that the socket of a listener was made from.
abbrev pub fd_of : Listener → Option ℕ
fd_of (net_listener h (bound_fd fd)) = some fd
fd_of (net_listener h (bound_tcp network ip port)) = none
fd_of (watched_listener h path) = none
fd_of (proxy_listener l) = fd_of l
fd_of (tls_listener config l) = fd_of l

abbrev with_fd : Option ℕ → List ℕ → List ℕ
with_fd none fds = fds
with_fd (some fd) fds = fd ∷ fds

-- A success closed the descriptor that the socket was made from, if it was made from one, and no other;
-- a failure closed one at most.
abbrev pub Released : World → Outcome OpenError Listener → World → Type 0
Released w (ok l) w' = w'.closed_fds ≡ with_fd (fd_of l) w.closed_fds
Released w (err e) w' = (o : Option ℕ) × (w'.closed_fds ≡ with_fd o w.closed_fds)
Released w panic w' = Unit

abbrev pub Releases : M Listener → Type 0
Releases m = (w : World) → Released w (m w).0 (m w).1

pub fail-Releases : (e : OpenError) → Releases (fail e)
fail-Releases e w = (none, refl)

-- An operation that closes no descriptor.
abbrev pub Keeps : {A : Type 0} → M A → Type 0
Keeps m = (w : World) → (m w).1.closed_fds ≡ w.closed_fds

pub bind-Keeps :
    {A B : Type 0} (m : M A) (f : A → M B) → Keeps m → ((a : A) → Keeps (f a)) → Keeps (m >>= f)
bind-Keeps {A} {B} m f k h w = go (m w) ∙ k w
  where
    go : (r : Outcome OpenError A × World) → (continue r f).1.closed_fds ≡ r.1.closed_fds
    go (ok a, u) = h a u
    go (err e, u) = refl
    go (panic, u) = refl

pub syscall-Keeps : (wrap : ℕ → OpenError) (env : Env) → Keeps (syscall_as wrap env)
unfolding syscall_as
syscall-Keeps wrap env w = elim (Option-cases (env.fails w.clock)) [
  | inl e ↦ rw (syscall_as, e) refl
  | inr (x, e) ↦ rw (syscall_as, e) refl
]

pub open_socket-Keeps : (env : Env) → Keeps (open_socket env)
unfolding open_socket
open_socket-Keeps env =
    bind-Keeps (syscall_as OpenError.system env) _ (syscall-Keeps _ env) (λ u w. refl)

-- Of a socket that is made from no descriptor.
pub Keeps-Releases : (m : M Listener) → Keeps m → Yields (λ l. fd_of l ≡ none) m → Releases m
Keeps-Releases m k y w = go (m w) (k w) (y w)
  where
    go :
        (r : Outcome OpenError Listener × World)
        → r.1.closed_fds ≡ w.closed_fds
        → IsOk (λ l. fd_of l ≡ none) r.0
        → Released w r.0 r.1
    go (ok l, u) e n = rw n e
    go (err x, u) e n = (none, e)
    go (panic, u) e n = tt

pub map-Releases :
    (f : Listener → Listener)
    → ((l : Listener) → fd_of (f l) ≡ fd_of l)
    → (m : M Listener) → Releases m
    → Releases (m >>= λ l. pure (f l))
map-Releases f same m r w = go (m w) (r w)
  where
    go :
        (r : Outcome OpenError Listener × World)
        → Released w r.0 r.1
        → Released w (continue r (λ l. pure (f l))).0 (continue r (λ l. pure (f l))).1
    go (ok l, u) e = rw (same l) e
    go (err x, u) e = e
    go (panic, u) e = tt

pub Option-Releases {ℓ} :
    {A : Type ℓ} (o : Option A) (m : M Listener) (f : A → M Listener)
    → Releases m
    → ((a : A) → Releases (f a))
    → Releases (elim o [ none ↦ m | some a ↦ f a ])
Option-Releases none m f rm rf = rm
Option-Releases (some a) m f rm rf = rf a

pub if-Releases :
    (b : Bool) (m n : M Listener) → Releases m → Releases n → Releases (if b then m else n)
if-Releases true m n rm rn = rm
if-Releases false m n rm rn = rn
