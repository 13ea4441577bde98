-- ===== src/System/Returns.antt =====
-- Which operations return, and end neither in a panic nor in the model's own error.
use go_listener.Common.{
  ℕ, ◌≡◌, ◌≢◌, refl, Bool, true, false, Option, none, some, if◌then◌else◌, Outcome, ok, err, panic,
  Option-cases, inl, inr,
}
use go_listener.System.{
  World, OpenError, system, exhausted, Listener, M, continue, ◌>>=◌, pure, fail, Env, syscall_as,
  open_socket,
}

-- A value, or an error of the code or of the system.
abbrev pub IsReturned : {A : Type 0} → Outcome OpenError A → Type 0
IsReturned (ok a) = Unit
IsReturned (err e) = e ≢ exhausted
IsReturned panic = ⊥

abbrev pub Returns : {A : Type 0} → M A → Type 0
Returns m = (w : World) → IsReturned (m w).0

pub fail-Returns : (e : OpenError) → e ≢ exhausted → Returns (fail {A = Listener} e)
fail-Returns e n w = n

pub bind-Returns :
    {A B : Type 0} (m : M A) (f : A → M B)
    → Returns m
    → ((a : A) → Returns (f a))
    → Returns (m >>= f)
bind-Returns {A} {B} m f r h w = go (m w) (r w)
  where
    go : (r : Outcome OpenError A × World) → IsReturned r.0 → IsReturned (continue r f).0
    go (ok a, u) k = h a u
    go (err e, u) k = k
    go (panic, u) k = k

pub syscall-Returns :
    (wrap : ℕ → OpenError) (env : Env)
    → ((n : ℕ) → wrap n ≢ exhausted)
    → Returns (syscall_as wrap env)
unfolding syscall_as
syscall-Returns wrap env h w = elim (Option-cases (env.fails w.clock)) [
  | inl e ↦ rw (syscall_as, e) tt
  | inr (x, e) ↦ rw (syscall_as, e) (h x)
]

pub open_socket-Returns : (env : Env) → Returns (open_socket env)
unfolding open_socket
open_socket-Returns env =
    bind-Returns (syscall_as system env) _ (syscall-Returns system env (λ n q. cc)) (λ u w. tt)

pub map-Returns :
    (f : Listener → Listener) (m : M Listener) → Returns m → Returns (m >>= λ l. pure (f l))
map-Returns f m r = bind-Returns m (λ l. pure (f l)) r (λ l w. tt)

pub Option-Returns {ℓ} :
    {A : Type ℓ} {B : Type 0} (o : Option A) (m : M B) (f : A → M B)
    → Returns m
    → ((a : A) → Returns (f a))
    → Returns (elim o [ none ↦ m | some a ↦ f a ])
Option-Returns none m f rm rf = rm
Option-Returns (some a) m f rm rf = rf a

pub if-Returns :
    {A : Type 0} (b : Bool) (m n : M A) → Returns m → Returns n → Returns (if b then m else n)
if-Returns true m n rm rn = rm
if-Returns false m n rm rn = rn

-- Choices of which the branches are asked only where they are taken.
pub Option-Returns_each {ℓ} :
    {A : Type ℓ} {B : Type 0} (o : Option A) (m : M B) (f : A → M B)
    → Returns m
    → ((a : A) → o ≡ some a → Returns (f a))
    → Returns (elim o [ none ↦ m | some a ↦ f a ])
Option-Returns_each none m f rm rf = rm
Option-Returns_each (some a) m f rm rf = rf a refl

pub if-Returns_each :
    {B : Type 0} (b : Bool) (m n : M B)
    → (b ≡ true → Returns m)
    → (b ≡ false → Returns n)
    → Returns (if b then m else n)
if-Returns_each true m n rm rn = rm refl
if-Returns_each false m n rm rn = rn refl
