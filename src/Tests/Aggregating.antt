-- ===== src/Tests/Aggregating.antt =====
-- A program that opens two sockets, aggregates them, and closes what it has.
use go_listener.Common.{◌≡◌, refl, arith, List, [], ◌∷◌, length, ok, if◌then◌else◌}
use go_listener.Common.Int.{pos}
use go_listener.Common.Strconv.{atoi, parse_number, parse_digits}
use go_listener.Common.Text.{Bytes, codes, equal, cut, contains}
use go_listener.System.{World, Listener, net_listener, bound_tcp, tcp, open_socket, syscall_as}
use go_listener.Registry.{default_registry, get_open_listener_func}
use go_listener.Builtin.{open_tcp_listener, tcp_argument, listen_tcp, resolve}
use go_listener.Open.{call, open_type, open_step, open_spec, open_all, open_all_onto, open_all_next}
use go_listener.Open.All.{opened}
use go_listener.Serve
use go_listener.Multi
use go_listener.Multi.{multi_listener}
use go_listener.Multi.Inner.{Aggregate, aggregate, close, Steps, stop, next, works, closes}
use go_listener.Multi.Opened.{open_all-close}
use go_listener.Tests.World.{working, start}
use go_listener.Tests.Opening.{working-IsTidy}

abbrev both : List Bytes
both = codes "tcp:80" ∷ codes "80" ∷ []

abbrev sockets : List Listener
sockets =
    net_listener 3 (bound_tcp tcp [] (pos 80)) ∷ net_listener 4 (bound_tcp tcp [] (pos 80)) ∷ []

abbrev started : World
started = record { clock = 2; next = 5; live = 4 ∷ 3 ∷ 1 ∷ []; files = []; closed_fds = [] }

both_open : open_all working default_registry 9 both start ≡ (ok sockets, started)
unfolding open_all open_all_onto open_all_next open_spec open_step open_type call cut equal
    get_open_listener_func open_tcp_listener tcp_argument contains listen_tcp resolve atoi
    parse_number parse_digits open_socket syscall_as
both_open = refl

-- The program calls `Accept`, and then `Close`.
abbrev called : Aggregate
called = record (aggregate sockets) { channels = Multi.accept (multi_listener sockets) }

after_close :
    Steps (aggregate sockets, started) ((close called started).1, (close called started).2)
after_close =
    next _ _ _
      (works (aggregate sockets) (Multi.accept (multi_listener sockets)) started
        (Serve.accepts (multi_listener sockets)) refl)
      (next _ _ _ (closes called started) (stop _))

open_all-close_example :
    (length sockets ≡ length both)
    × ((close called started).2.live ≡ (
        if (close called started).1.channels.done then start.live else opened sockets start.live))
    × ((close (close called started).1 (close called started).2).2.live ≡ start.live)
open_all-close_example =
    open_all-close working default_registry working-IsTidy 9 both start (omega arith, tt) sockets
      started both_open (close called started).1 (close called started).2 after_close
