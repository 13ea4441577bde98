-- ===== src/Proxy/Listener/Runs.antt =====
-- proxy/listener.go: the runs of a PROXY listener.
use go_listener.Common.{ℕ, ◌+◌, ◌≡◌, arith, refl, inr}
use go_listener.Net.Conn.{Conn}
use go_listener.Serve.{occurs, held, State, Steps}
use go_listener.Serve.Conserve.{Accounted, Steps-Accounted}
use go_listener.Serve.Answers.{Answered, Steps-Answered}
use go_listener.Serve.Drain.{ClosesDown, close-ClosesDown}
use go_listener.Proxy.Listener.{Task, Error, routines, holds, new_listener}

pub new_listener-Accounted : (client : ℕ → Conn) → Accounted (routines client) new_listener
unfolding held occurs
new_listener-Accounted client c = omega arith

-- In every run of a PROXY listener, in every order of the steps of its goroutines and callers, each
-- connection that the inner listener accepted is with a caller of `Accept`, closed, or in the hands
-- of one handler, as often as it was accepted; each call of `Accept` is blocked, or has returned a
-- connection, an error of a goroutine or, only after `Close`, `net.ErrClosed`; and the inner
-- listener is closed exactly after `Close`. Each `Close` but the first returns `net.ErrClosed` and
-- changes nothing; and from whatever state a `Close` comes in, all goroutines can run to their end
-- without a client, each blocked caller getting `net.ErrClosed`, with no connection left open.
pub new_listener-ClosesDown :
    (client : ℕ → Conn) (s : State Task Error)
    → Steps (routines client) new_listener s
    → ((c : ℕ)
        → occurs c s.accepted
          ≡ occurs c s.delivered + occurs c s.closed + occurs c (held holds s.tasks))
      × Answered (routines client) s
      × ClosesDown (routines client) s
new_listener-ClosesDown client s xs =
    let a = Steps-Accounted (routines client) new_listener s xs (new_listener-Accounted client) in
    let k = Steps-Answered (routines client) new_listener s xs (refl, inr refl, refl) in
    (a, k, close-ClosesDown (routines client) s a k.2)
