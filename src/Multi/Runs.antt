-- ===== src/Multi/Runs.antt =====
-- multi.go: the runs of a `MultiListener`.
use go_listener.Common.{ℕ, ◌+◌, ◌≡◌, refl, arith, inr, List, [], ◌∷◌}
use go_listener.Serve.{occurs, held, State, Steps}
use go_listener.Serve.Conserve.{Accounted, Steps-Accounted}
use go_listener.Serve.Answers.{Answered, Steps-Answered}
use go_listener.Serve.Drain.{ClosesDown, close-ClosesDown}
use go_listener.Multi.{Task, routines, holds, multi_listener}

started : {L : Type 0} (ls : List L) (c : ℕ) → occurs c (held holds (multi_listener ls).tasks) ≡ 0
unfolding multi_listener held occurs
started [] c = refl
started (l ∷ ls) c = started ls c

multi_listener-Accounted : {L : Type 0} (ls : List L) → Accounted routines (multi_listener ls)
unfolding multi_listener occurs
multi_listener-Accounted ls c = omega (arith, started ls c)

multi_listener-Answered : {L : Type 0} (ls : List L) → Answered routines (multi_listener ls)
unfolding multi_listener
multi_listener-Answered ls = (refl, inr refl, refl)

-- In every run of a `MultiListener`, in every order of the steps of its goroutines and callers, each
-- connection that a listener accepted is with a caller of `Accept`, closed, or about to be sent, as
-- often as it was accepted; each call of `Accept` is blocked, or has returned a connection, an error
-- of a listener or, only after `Close`, `net.ErrClosed`; and the listeners are closed exactly after
-- `Close`. Each `Close` but the first returns `net.ErrClosed` and changes nothing; and from whatever
-- state a `Close` comes in, all goroutines can run to their end without a client, each blocked
-- caller getting `net.ErrClosed`, with no connection left open.
pub multi_listener-ClosesDown :
    {L : Type 0} (ls : List L) (s : State Task ℕ)
    → Steps routines (multi_listener ls) s
    → ((c : ℕ)
        → occurs c s.accepted
          ≡ occurs c s.delivered + occurs c s.closed + occurs c (held holds s.tasks))
      × Answered routines s
      × ClosesDown routines s
multi_listener-ClosesDown ls s xs =
    let a = Steps-Accounted routines (multi_listener ls) s xs (multi_listener-Accounted ls) in
    let k = Steps-Answered routines (multi_listener ls) s xs (multi_listener-Answered ls) in
    (a, k, close-ClosesDown routines s a k.2)
