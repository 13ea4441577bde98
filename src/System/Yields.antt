-- ===== src/System/Yields.antt =====
-- What holds of the listener that an operation returns, if it returns one.
use go_listener.Common.{
  Bool, true, false, Option, none, some, if◌then◌else◌, Outcome, ok, err, panic,
}
use go_listener.System.{World, OpenError, Listener, continue, M, ◌>>=◌, fail, pure}

module _ (P : Listener → Type 0) where
  abbrev pub IsOk : Outcome OpenError Listener → Type 0
  IsOk (ok l) = P l
  IsOk (err e) = Unit
  IsOk panic = Unit

  abbrev pub Yields : M Listener → Type 0
  Yields m = (w : World) → IsOk (m w).0

  pub fail-Yields : (e : OpenError) → Yields (fail e)
  fail-Yields e w = tt

  continue-IsOk :
      {A : Type 0} (r : Outcome OpenError A × World) (f : A → M Listener)
      → ((a : A) → Yields (f a))
      → IsOk (continue r f).0
  continue-IsOk (ok a, w) f h = h a w
  continue-IsOk (err e, w) f h = tt
  continue-IsOk (panic, w) f h = tt

  pub bind-Yields :
      {A : Type 0} (m : M A) (f : A → M Listener) → ((a : A) → Yields (f a)) → Yields (m >>= f)
  bind-Yields m f h w = continue-IsOk (m w) f h

  pub any-Yields : (m : M Listener) → ((l : Listener) → P l) → Yields m
  any-Yields m h w = go (m w).0
    where
      go : (r : Outcome OpenError Listener) → IsOk r
      go (ok l) = h l
      go (err e) = tt
      go panic = tt

  pub map-Yields :
      (f : Listener → Listener) (m : M Listener)
      → ((l : Listener) → P (f l))
      → Yields (m >>= λ l. pure (f l))
  map-Yields f m h = bind-Yields m (λ l. pure (f l)) (λ l w. h l)

  pub Option-Yields {ℓ} :
      {A : Type ℓ} (o : Option A) (m : M Listener) (f : A → M Listener)
      → Yields m
      → ((a : A) → Yields (f a))
      → Yields (elim o [ none ↦ m | some a ↦ f a ])
  Option-Yields none m f ym yf = ym
  Option-Yields (some a) m f ym yf = yf a

  pub if-Yields : (b : Bool) (m n : M Listener) → Yields m → Yields n → Yields (if b then m else n)
  if-Yields true m n ym yn = ym
  if-Yields false m n ym yn = yn

-- A wrapper around a listener of which something is known.
pub wrap-Yields :
    (P Q : Listener → Type 0) (f : Listener → Listener) (m : M Listener)
    → ((l : Listener) → P l → Q (f l))
    → Yields P m
    → Yields Q (m >>= λ l. pure (f l))
wrap-Yields P Q f m h y w = go (m w) (y w)
  where
    go :
        (r : Outcome OpenError Listener × World)
        → IsOk P r.0
        → IsOk Q (continue r (λ l. pure (f l))).0
    go (ok l, w) p = h l p
    go (err e, w) p = tt
    go (panic, w) p = tt

pub Yields-mono :
    (P Q : Listener → Type 0) (m : M Listener)
    → ((l : Listener) → P l → Q l)
    → Yields P m
    → Yields Q m
Yields-mono P Q m h y w = go (m w).0 (y w)
  where
    go : (r : Outcome OpenError Listener) → IsOk P r → IsOk Q r
    go (ok l) p = h l p
    go (err e) p = tt
    go panic p = tt

-- A choice on which the predicate depends as well.
pub Option-Yields_each {ℓ} :
    {A : Type ℓ} (P : Listener → Type 0) (Q : A → Listener → Type 0) (o : Option A) (m : M Listener)
    (f : A → M Listener)
    → Yields P m
    → ((a : A) → Yields (Q a) (f a))
    → Yields (λ l. elim o [ none ↦ P l | some a ↦ Q a l ]) (elim o [ none ↦ m | some a ↦ f a ])
Option-Yields_each P Q none m f ym yf = ym
Option-Yields_each P Q (some a) m f ym yf = yf a
