-- ===== src/Multi/Inner.antt =====
-- multi.go: a `MultiListener` with the listeners that it aggregates, whose sockets are those of the
-- operating system.
use go_listener.Common.{◌≡◌, Bool, true, false, List, [], ◌∷◌}
use go_listener.System
use go_listener.System.{World, Listener}
use go_listener.Serve
use go_listener.Multi
use go_listener.Multi.{MultiListener, multi_listener, routines}

-- `multiListener`
pub record Aggregate : Type 0 where
  pub listeners : List Listener
  pub channels : MultiListener

-- `MultiListener`
abbrev pub aggregate : List Listener → Aggregate
aggregate listeners = record { listeners = listeners; channels = multi_listener listeners }

-- The loop of `Close` over the listeners.
unfoldable pub close_each : List Listener → World → World
close_each [] w = w
close_each (l ∷ ls) w = close_each ls (System.close l w)

unfoldable pub close_on : Bool → Aggregate → World → World
unfolding close_each
close_on true m w = w
close_on false m w = close_each m.listeners w

-- `Close`: whether it returns `net.ErrClosed`, and what it leaves.
unfoldable pub close : Aggregate → World → Bool × Aggregate × World
unfolding close_on
close m w = (
  (Multi.close m.channels).0,
  record m { channels = (Multi.close m.channels).1 },
  close_on (Multi.close m.channels).0 m w,
)

-- The steps of the program that has it: those of the goroutines and of the callers of `Accept`, and
-- `Close`. Nothing else opens or closes a socket.
pub data Step : Aggregate × World → Aggregate × World → Type 0 where
  works :
      (m : Aggregate) (s : MultiListener) (w : World)
      → Serve.Step routines m.channels s
      → s.done ≡ m.channels.done
      → Step (m, w) (record m { channels = s }, w)
  closes : (m : Aggregate) (w : World) → Step (m, w) ((close m w).1, (close m w).2)

pub data Steps : Aggregate × World → Aggregate × World → Type 0 where
  stop : (p : Aggregate × World) → Steps p p
  next : (p q r : Aggregate × World) → Step p q → Steps q r → Steps p r
