-- ===== src/Multi.antt =====
-- multi.go: a listener that aggregates others.
pub mod Runs
pub mod Inner
pub mod Opened
use go_listener.Common.{
  ℕ, zero, suc, ◌+◌, ◌<◌, ◌≡◌, refl, arith, Bool, true, false, List, [], ◌∷◌, ◌++◌, map,
}
use go_listener.Common.Text.{Bytes, codes}
use go_listener.Serve
use go_listener.Serve.{occurs, Effect, held, total, Routines, State, new_state}

-- Where a `handleAccepts` stands. One that returned is gone from the state.
pub data Task : Type 0 where
  accepting : Task  -- at `l.Accept()`
  sending_conn : ℕ → Task  -- at the `select` of `sendConn`
  sending_error : ℕ → Task  -- at the `select` of `sendError`

abbrev quiet : List Task → Effect Task ℕ
quiet ts = record { tasks = ts; accepted = []; delivered = []; closed = []; errors = [] }

-- The steps of `handleAccepts`. In a `select` either channel may be ready, `closed` once `Close` ran.
pub data Move : Bool → Task → Effect Task ℕ → Type 0 where
  accept_closed : (done : Bool) → Move done accepting (quiet [])
  accept_error : (done : Bool) (e : ℕ) → Move done accepting (quiet (sending_error e ∷ []))
  accept_conn :
      (done : Bool) (c : ℕ)
      → Move done accepting (record {
        tasks = sending_conn c ∷ [];
        accepted = c ∷ [];
        delivered = [];
        closed = [];
        errors = [];
      })
  conn_sent :
      (done : Bool) (c : ℕ)
      → Move done (sending_conn c) (record {
        tasks = accepting ∷ [];
        accepted = [];
        delivered = c ∷ [];
        closed = [];
        errors = [];
      })
  conn_not_sent :
      (c : ℕ)
      → Move true
          (sending_conn c)
          (record { tasks = []; accepted = []; delivered = []; closed = c ∷ []; errors = [] })
  error_sent :
      (done : Bool) (e : ℕ)
      → Move done (sending_error e) (record {
        tasks = accepting ∷ [];
        accepted = [];
        delivered = [];
        closed = [];
        errors = e ∷ [];
      })
  error_not_sent : (e : ℕ) → Move true (sending_error e) (quiet [])

abbrev pub holds : Task → List ℕ
holds (sending_conn c) = c ∷ []
holds _ = []

abbrev pub measure : Task → ℕ
measure accepting = 1
measure _ = 2

pub conserves :
    (done : Bool) (t : Task) (e : Effect Task ℕ)
    → Move done t e
    → (c : ℕ)
    → occurs c (holds t) + occurs c e.accepted
      ≡ occurs c (held holds e.tasks) + occurs c e.delivered + occurs c e.closed
unfolding occurs held
conserves _ _ _ (accept_closed done) c = omega arith
conserves _ _ _ (accept_error done e) c = omega arith
conserves _ _ _ (accept_conn done x) c = omega arith
conserves _ _ _ (conn_sent done x) c = omega arith
conserves _ _ _ (conn_not_sent x) c = omega arith
conserves _ _ _ (error_sent done e) c = omega arith
conserves _ _ _ (error_not_sent e) c = omega arith

pub ends :
    (t : Task)
    → (e : Effect Task ℕ) × Move true t e
      × (total measure e.tasks < measure t)
      × (e.delivered ≡ [])
      × (e.accepted ≡ [])
      × (e.errors ≡ [])
unfolding total
ends accepting = (quiet [], accept_closed true, omega arith, refl, refl, refl)
ends (sending_conn c) = (_, conn_not_sent c, omega arith, refl, refl, refl)
ends (sending_error e) = (_, error_not_sent e, omega arith, refl, refl, refl)

abbrev pub routines : Routines
routines = record {
  Task = Task;
  Error = ℕ;
  Move = Move;
  holds = holds;
  measure = measure;
  conserves = conserves;
  ends = ends;
}

-- `multiListener`: its channels are the state that its goroutines and callers share.
abbrev pub MultiListener : Type 0
MultiListener = State Task ℕ

-- `MultiListener`: a goroutine for each listener.
unfoldable pub multi_listener : {L : Type 0} → List L → MultiListener
multi_listener listeners = new_state (map (λ l. accepting) listeners)

-- `Accept` up to its `select`, and `Close`
abbrev pub accept : MultiListener → MultiListener
accept = Serve.accept

abbrev pub close : MultiListener → Bool × MultiListener
unfolding Serve.close
close = Serve.close

-- `Network` and `String` of `multiAddr`
abbrev multi_addr : Bytes × Bytes
multi_addr = (codes "multi", codes "multi")

-- `Addr`
abbrev addr : MultiListener → Bytes × Bytes
addr listener = multi_addr
