-- ===== src/System/Sockets.antt =====
-- Which sockets are open: what an operation that opens one listener does to the set of them.
use go_listener.Common.{
  ℕ, ◌+◌, ◌<◌, ◌≤◌, ◌≡◌, refl, arith, Bool, true, false, Option, none, some, List, [], ◌∷◌, All,
  if◌then◌else◌, Outcome, ok, err, panic, Option-cases, inl, inr,
}
use go_listener.System.{
  World, OpenError, system, continue, Listener, handle_of, M, ◌>>=◌, fail, pure, Env, tick,
  syscall_as, open_socket, remove_handle,
}

-- Handles are given out in increasing order.
abbrev pub AreBelow : ℕ → List ℕ → Type 0
AreBelow n = All (λ h. h < n)

pub AreBelow-mono : (m n : ℕ) (hs : List ℕ) → m ≤ n → AreBelow m hs → AreBelow n hs
AreBelow-mono m n [] h b = tt
AreBelow-mono m n (x ∷ hs) h b = (omega arith, AreBelow-mono m n hs h b.1)

-- A success opened one new socket, that of the listener returned; a failure or a panic left the open
-- ones as they were.
abbrev pub Opened : World → Outcome OpenError Listener → World → Type 0
Opened w (ok l) w' =
    (w'.live ≡ handle_of l ∷ w.live) × (w.next ≤ handle_of l) × (handle_of l < w'.next)
Opened w (err e) w' = (w'.live ≡ w.live) × (w.next ≤ w'.next)
Opened w panic w' = (w'.live ≡ w.live) × (w.next ≤ w'.next)

-- An operation that keeps the account in every world where the handles in use are below the next.
abbrev pub IsTidy : M Listener → Type 0
IsTidy m = (w : World) → AreBelow w.next w.live → Opened w (m w).0 (m w).1

pub fail-IsTidy : (e : OpenError) → IsTidy (fail e)
fail-IsTidy e w b = (refl, omega arith)

-- A wrapper that keeps the handle.
module _ (f : Listener → Listener) (keeps : (l : Listener) → handle_of (f l) ≡ handle_of l) where
  Opened-map :
      (w : World) (r : Outcome OpenError Listener) (w' : World)
      → Opened w r w'
      → Opened w (continue (r, w') (λ l. pure (f l))).0 (continue (r, w') (λ l. pure (f l))).1
  Opened-map w (ok l) w' o = rw (keeps l) o
  Opened-map w (err e) w' o = o
  Opened-map w panic w' o = o

  pub map-IsTidy : (m : M Listener) → IsTidy m → IsTidy (m >>= λ l. pure (f l))
  map-IsTidy m t w b = Opened-map w (m w).0 (m w).1 (t w b)

module _ (env : Env) (w : World) where
  open_socket-ok :
      env.fails w.clock ≡ none
      → open_socket env w
        ≡ (ok w.next, record (tick w) { next = w.next + 1; live = w.next ∷ w.live })
  unfolding open_socket syscall_as
  open_socket-ok f = ground arith

  open_socket-err :
      (e : ℕ) → env.fails w.clock ≡ some e → open_socket env w ≡ (err (system e), tick w)
  unfolding open_socket syscall_as
  open_socket-err e f = ground arith

pub open_socket-IsTidy :
    (env : Env) (f : ℕ → Listener)
    → ((h : ℕ) → handle_of (f h) ≡ h)
    → IsTidy (open_socket env >>= λ h. pure (f h))
open_socket-IsTidy env f keeps w b = elim (Option-cases (env.fails w.clock)) [
  | inl e ↦ rw (open_socket-ok env w e, keeps w.next) (refl, omega arith, omega arith)
  | inr (x, e) ↦ rw (open_socket-err env w x e) (refl, omega arith)
]

pub remove_handle-fresh : (n : ℕ) (hs : List ℕ) → AreBelow n hs → remove_handle n hs ≡ hs
unfolding remove_handle
remove_handle-fresh n [] b = refl
remove_handle-fresh n (h ∷ hs) b = ground (arith, remove_handle-fresh n hs b.1)

-- A choice between tidy operations.
pub Option-IsTidy {ℓ} :
    {A : Type ℓ} (o : Option A) (m : M Listener) (f : A → M Listener)
    → IsTidy m
    → ((a : A) → IsTidy (f a))
    → IsTidy (elim o [ none ↦ m | some a ↦ f a ])
Option-IsTidy none m f tm tf = tm
Option-IsTidy (some a) m f tm tf = tf a

pub if-IsTidy : (b : Bool) (m n : M Listener) → IsTidy m → IsTidy n → IsTidy (if b then m else n)
if-IsTidy true m n tm tn = tm
if-IsTidy false m n tm tn = tn
