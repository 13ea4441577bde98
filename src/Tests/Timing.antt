-- ===== src/Tests/Timing.antt =====
-- A client that sends a header in time, and one that stops within it.
use go_listener.Common.{
  ℕ, ◌+◌, ◌≡◌, ◌⊎◌, refl, arith, inr, true, false, none, some, List, [], ◌∷◌, ◌++◌,
}
use go_listener.Common.Text.{Bytes}
use go_listener.Net.{other}
use go_listener.Net.Conn.{ReadEnd, ReadError}
use go_listener.Proxy.Header.{read_failed}
use go_listener.Proxy.Header.Tests.{client, client_bytes, client_payload, parse-client}
use go_listener.Proxy.Listener.{bad_header}
use go_listener.Proxy.Handler.{Socket, all_before, minute, passed, refused, handle_connection}
use go_listener.Proxy.Handler.Settled.{IsSettled}
use go_listener.Proxy.Handler.Timed.{handle_connection-answers}
use go_listener.Proxy.Handler.Moves.{whole, Follows, handle_connection-Follows}

-- All of these bytes at one second.
abbrev at : ℕ → Bytes → List (ℕ × ℕ)
at t [] = []
at t (b ∷ s) = (t, b) ∷ at t s

-- A header at the second 3, and a byte behind it at the second 99.
abbrev socket : Socket
socket = record {
  arrivals = at 3 client_bytes ++ (99, 71) ∷ [];
  ends = ReadEnd.eof;
  end_time = 100;
  local_addr = other 1;
  remote_addr = other 2;
  deadline = none;
  closed = false;
}

handle_connection-answers_example :
    ((all_before (some (0 + minute)) (at 3 client_bytes) ≡ true)
      × (handle_connection 110 0 none none socket
          ≡ passed client (record socket { arrivals = (99, 71) ∷ []; deadline = none })))
    ⊎ ((all_before (some (0 + minute)) (at 3 client_bytes) ≡ false)
        × (s' : Socket) × (handle_connection 110 0 none none socket
            ≡ refused
                (record {
                  error = bad_header (read_failed (ReadError.failed 110));
                  temporary = true;
                })
                s')
        × (s'.closed ≡ true))
handle_connection-answers_example =
    handle_connection-answers 110 0 socket (at 3 client_bytes) ((99, 71) ∷ []) 1 0x11 client_payload
      client refl refl (inr (refl, parse-client))

-- Half of a header, and nothing for an hour.
abbrev stalled : Socket
stalled = record socket {
  arrivals = at 3 (0x0D ∷ 0x0A ∷ []) ++ at 3600 (0x0D ∷ []);
  end_time = 3600;
}

handle_connection-Follows_example :
    IsSettled 110 0 none none stalled (handle_connection 110 0 none none stalled)
    × Follows (λ c. whole stalled) 7 (handle_connection 110 0 none none stalled)
handle_connection-Follows_example =
    handle_connection-Follows 110 0 none none stalled (λ c. whole stalled) 7 refl (omega arith)
