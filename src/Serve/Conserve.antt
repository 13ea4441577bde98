-- ===== src/Serve/Conserve.antt =====
-- The account of connections in the runs of proxy/listener.go and multi.go.
use go_listener.Common.{ℕ, ◌+◌, ◌≡◌, ap, arith, Bool, true, false, List, [], ◌∷◌, ◌++◌}
use go_listener.Serve.{
  occurs, held, Routines, State, close, close_on, Step, move, accepts, refuses, closes, Steps, stop,
  next,
}

pub occurs-append : (c : ℕ) (xs ys : List ℕ) → occurs c (xs ++ ys) ≡ occurs c xs + occurs c ys
unfolding occurs
occurs-append c [] ys = omega arith
occurs-append c (x ∷ xs) ys = omega (arith, occurs-append c xs ys)

module _ (r : Routines) where
  pub held-append :
      (c : ℕ) (xs ys : List r.Task)
      → occurs c (held r.holds (xs ++ ys)) ≡ occurs c (held r.holds xs) + occurs c (held r.holds ys)
  unfolding occurs held
  held-append c [] ys = omega arith
  held-append c (x ∷ xs) ys = omega (
    arith,
    held-append c xs ys,
    occurs-append c (r.holds x) (held r.holds (xs ++ ys)),
    occurs-append c (r.holds x) (held r.holds xs),
  )

  -- Every connection accepted is with a caller of `Accept`, closed or with a goroutine.
  abbrev pub Accounted : State r.Task r.Error → Type 0
  Accounted s =
      (c : ℕ)
      → occurs c s.accepted
        ≡ occurs c s.delivered + occurs c s.closed + occurs c (held r.holds s.tasks)

  close_on-Accounted :
      (b : Bool) (s : State r.Task r.Error) → Accounted s → Accounted (close_on b s).1
  unfolding close_on
  close_on-Accounted true s a = a
  close_on-Accounted false s a = a

  Step-Accounted : (s t : State r.Task r.Error) → Step r s t → Accounted s → Accounted t
  unfolding close held
  Step-Accounted _ _ (move s before after t e q m l) a = λ c. omega (
    arith,
    a c,
    r.conserves s.done t e m c,
    ap (λ ts. occurs c (held r.holds ts)) q,
    held-append c before (t ∷ after),
    occurs-append c (r.holds t) (held r.holds after),
    held-append c before (e.tasks ++ after),
    held-append c e.tasks after,
    occurs-append c e.accepted s.accepted,
    occurs-append c e.delivered s.delivered,
    occurs-append c e.closed s.closed,
  )
  Step-Accounted _ _ (accepts s) a = a
  Step-Accounted _ _ (refuses s d w) a = a
  Step-Accounted _ _ (closes s) a = close_on-Accounted s.done s a

  pub Steps-Accounted : (s t : State r.Task r.Error) → Steps r s t → Accounted s → Accounted t
  Steps-Accounted _ _ (stop s) a = a
  Steps-Accounted _ _ (next s t u x xs) a = Steps-Accounted t u xs (Step-Accounted s t x a)
