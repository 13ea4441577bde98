-- ===== src/Serve/Invariant.antt =====
-- Properties of single goroutines of proxy/listener.go and multi.go.
use go_listener.Common.{Bool, true, false, ◌∷◌, ◌++◌, All, All-append, All-split}
use mathlib.Core.Path.{subst}
use go_listener.Serve.{
  Effect, Routines, State, close, close_on, Step, move, accepts, refuses, closes, Steps, stop, next,
}

-- What single goroutines know, and what holds of every error that they pass to a caller.
module _ (r : Routines) (P : r.Task → Type 0) (Q : r.Error → Type 0)
    (keeps : (done : Bool) (t : r.Task) (e : Effect r.Task r.Error)
      → r.Move done t e
      → P t
      → All P e.tasks × All Q e.errors) where
  abbrev IsKept : State r.Task r.Error → Type 0
  IsKept s = All P s.tasks × All Q s.errors

  closed-IsKept : (b : Bool) (s : State r.Task r.Error) → IsKept s → IsKept (close_on b s).1
  unfolding close_on
  closed-IsKept true s a = a
  closed-IsKept false s a = a

  Step-IsKept : (s t : State r.Task r.Error) → Step r s t → IsKept s → IsKept t
  unfolding close
  Step-IsKept _ _ (move s before after t e q m l) a =
      let (b, c) = All-split P before (t ∷ after) (subst (All P) q a.0) in
      let (k, g) = keeps s.done t e m c.0 in
      (
        All-append P before (e.tasks ++ after) b (All-append P e.tasks after k c.1),
        All-append Q e.errors s.errors g a.1,
      )
  Step-IsKept _ _ (accepts s) a = a
  Step-IsKept _ _ (refuses s d w) a = a
  Step-IsKept _ _ (closes s) a = closed-IsKept s.done s a

  pub Steps-All :
      (s t : State r.Task r.Error)
      → Steps r s t
      → All P s.tasks × All Q s.errors
      → All P t.tasks × All Q t.errors
  Steps-All _ _ (stop s) a = a
  Steps-All _ _ (next s t u x xs) a = Steps-All t u xs (Step-IsKept s t x a)
