-- ===== src/Serve/Answers.antt =====
-- The calls of `Accept` in the runs of proxy/listener.go and multi.go.
use go_listener.Common.{◌+◌, ◌≡◌, refl, arith, Bool, true, false, length, length-append, ◌⊎◌, inl}
use go_listener.Serve.{
  Routines, State, close, close_on, Step, move, accepts, refuses, closes, Steps, stop, next,
}

module _ (r : Routines) where
  -- Every call of `Accept` is blocked, or has returned a connection, an error of a goroutine or, only
  -- after `Close`, `net.ErrClosed`; and the inner listeners are closed exactly after `Close`.
  abbrev pub Answered : State r.Task r.Error → Type 0
  Answered s =
      (s.calls ≡ s.waiting + length s.delivered + length s.errors + s.refused)
      × ((s.done ≡ true) ⊎ (s.refused ≡ 0))
      × (s.inner_closed ≡ s.done)

  close_on-Answered : (b : Bool) (s : State r.Task r.Error) → Answered s → Answered (close_on b s).1
  unfolding close_on
  close_on-Answered true s a = a
  close_on-Answered false s a = (a.0, inl refl, refl)

  Step-Answered : (s t : State r.Task r.Error) → Step r s t → Answered s → Answered t
  unfolding close
  Step-Answered _ _ (move s before after t e q m l) a = (
    omega (arith, a.0, l, length-append e.delivered s.delivered, length-append e.errors s.errors),
    a.1,
    a.2,
  )
  Step-Answered _ _ (accepts s) a = (omega (arith, a.0), a.1, a.2)
  Step-Answered _ _ (refuses s d w) a = (omega (arith, a.0, w), inl d, a.2)
  Step-Answered _ _ (closes s) a = close_on-Answered s.done s a

  pub Steps-Answered : (s t : State r.Task r.Error) → Steps r s t → Answered s → Answered t
  Steps-Answered _ _ (stop s) a = a
  Steps-Answered _ _ (next s t u x xs) a = Steps-Answered t u xs (Step-Answered s t x a)
