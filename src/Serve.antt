-- ===== src/Serve.antt =====
-- What proxy/listener.go and multi.go share: goroutines that accept connections and pass them to the
-- callers of `Accept` over channels that a `Close` ends. A channel without a buffer passes a value in
-- one step of the sender and the receiver.
pub mod Conserve
pub mod Answers
pub mod Drain
pub mod Invariant
use go_listener.Common.{
  ℕ, suc, ◌+◌, ◌-◌, ◌≤◌, length, ◌<◌, ◌≡◌, refl, Bool, true, false, Option, none, some, List, [],
  ◌∷◌, ◌++◌, if◌then◌else◌, ◌==◌,
}

-- How often a connection is in a list.
unfoldable pub occurs : ℕ → List ℕ → ℕ
occurs c [] = 0
occurs c (x ∷ xs) = (if x == c then 1 else 0) + occurs c xs

-- What one step of a goroutine does: the goroutines that it goes on as, the connections that it
-- accepted, passed to a caller of `Accept` and closed, and the errors that it passed to one.
pub record Effect (Task Error : Type 0) : Type 0 where
  pub tasks : List Task
  pub accepted : List ℕ
  pub delivered : List ℕ
  pub closed : List ℕ
  pub errors : List Error

-- The callers of `Accept` that a step needs, one for each value that it sends.
abbrev pub receivers : {Task Error : Type 0} → Effect Task Error → ℕ
receivers e = length e.delivered + length e.errors

unfoldable pub held : {Task : Type 0} → (Task → List ℕ) → List Task → List ℕ
held holds [] = []
held holds (t ∷ ts) = holds t ++ held holds ts

unfoldable pub total : {Task : Type 0} → (Task → ℕ) → List Task → ℕ
total measure [] = 0
total measure (t ∷ ts) = measure t + total measure ts

-- A listener, by what its goroutines can do, and what a theorem on their runs needs of that.
pub record Routines : Type 1 where
  pub Task : Type 0
  pub Error : Type 0  -- what `Accept` can return, apart from `net.ErrClosed`
  pub Move : Bool → Task → Effect Task Error → Type 0  -- the flag: the channel of `Close` is closed
  pub holds : Task → List ℕ  -- the connections that a goroutine has to pass on or close
  pub measure : Task → ℕ
  -- no step loses a connection or has it twice
  pub conserves :
      (done : Bool) (t : Task) (e : Effect Task Error)
      → Move done t e
      → (c : ℕ)
      → occurs c (holds t) + occurs c e.accepted
        ≡ occurs c (held holds e.tasks) + occurs c e.delivered + occurs c e.closed
  -- after `Close` each goroutine has a step towards its end that needs no caller and no client
  pub ends :
      (t : Task)
      → (e : Effect Task Error) × Move true t e
        × (total measure e.tasks < measure t)
        × (e.delivered ≡ [])
        × (e.accepted ≡ [])
        × (e.errors ≡ [])

-- The listener, its callers, and what became of the connections so far. `waiting` counts the callers
-- blocked in `Accept`, `calls` all that called it, and `refused` those that got `net.ErrClosed`.
pub record State (Task Error : Type 0) : Type 0 where
  pub done : Bool
  pub inner_closed : Bool  -- whether the inner listeners were closed
  pub tasks : List Task
  pub waiting : ℕ
  pub calls : ℕ
  pub refused : ℕ
  pub accepted : List ℕ
  pub delivered : List ℕ
  pub closed : List ℕ
  pub errors : List Error

abbrev pub new_state : {Task Error : Type 0} → List Task → State Task Error
new_state tasks = record {
  done = false;
  inner_closed = false;
  tasks = tasks;
  waiting = 0;
  calls = 0;
  refused = 0;
  accepted = [];
  delivered = [];
  closed = [];
  errors = [];
}

abbrev pub apply :
    {Task Error : Type 0}
    → State Task Error
    → List Task
    → Effect Task Error
    → List Task
    → State Task Error
apply s before e after = record {
  done = s.done;
  inner_closed = s.inner_closed;
  tasks = before ++ (e.tasks ++ after);
  waiting = s.waiting - receivers e;
  calls = s.calls;
  refused = s.refused;
  accepted = e.accepted ++ s.accepted;
  delivered = e.delivered ++ s.delivered;
  closed = e.closed ++ s.closed;
  errors = e.errors ++ s.errors;
}

-- `Accept` up to its `select`, and the case of that for `Close`.
abbrev pub accept : {Task Error : Type 0} → State Task Error → State Task Error
accept s = record s { waiting = suc s.waiting; calls = suc s.calls }

abbrev pub refuse : {Task Error : Type 0} → State Task Error → State Task Error
refuse s = record s { waiting = s.waiting - 1; refused = suc s.refused }

-- `Close` under its mutex: whether it returns `net.ErrClosed`, and the state. It closes the channel and
-- then the inner listeners.
unfoldable pub close_on : {Task Error : Type 0} → Bool → State Task Error → Bool × State Task Error
close_on true s = (true, s)
close_on false s = (false, record s { done = true; inner_closed = true })

unfoldable pub close : {Task Error : Type 0} → State Task Error → Bool × State Task Error
unfolding close_on
close s = close_on s.done s

module _ (r : Routines) where
  pub data Step : State r.Task r.Error → State r.Task r.Error → Type 0 where
    move :
        (s : State r.Task r.Error) (before after : List r.Task) (t : r.Task)
        (e : Effect r.Task r.Error)
        → s.tasks ≡ before ++ t ∷ after
        → r.Move s.done t e
        → receivers e ≤ s.waiting
        → Step s (apply s before e after)
    accepts : (s : State r.Task r.Error) → Step s (accept s)
    refuses : (s : State r.Task r.Error) → s.done ≡ true → 0 < s.waiting → Step s (refuse s)
    closes : (s : State r.Task r.Error) → Step s (close s).1

  pub data Steps : State r.Task r.Error → State r.Task r.Error → Type 0 where
    stop : (s : State r.Task r.Error) → Steps s s
    next : (s t u : State r.Task r.Error) → Step s t → Steps t u → Steps s u
