-- ===== src/Proxy/Handler/Settled.antt =====
-- proxy/listener.go: how every `handleConnection` ends.
use go_listener.Common.{ℕ, ◌+◌, ◌≡◌, refl, true, Option, none, some, ok, err, panic}
use go_listener.Net.Conn.{Conn}
use go_listener.Proxy.Header.{Try, Header, read_header}
use go_listener.Proxy.Header.Reads.{read_header-ne-panic}
use go_listener.Proxy.Listener.{is_temporary}
use go_listener.Proxy.Handler.{
  Socket, visible, after_reading, minute, Handled, passed, refused, panicked, refuse,
  clear_deadline, after_header, handle_connection,
}

-- The connection while `ReadHeader` reads from it.
abbrev pub waiting : ℕ → Socket → Socket
waiting now s = record s { deadline = some (now + minute) }

-- A connection that is passed on has no deadline, is as open as it was, and has the addresses that
-- `ReadHeader` returned; both calls of `SetReadDeadline` had succeeded. Any other is closed, with a
-- temporary error.
unfoldable pub IsSettled : (exceeded now : ℕ) (first second : Option ℕ) → Socket → Handled → Type 0
unfolding visible is_temporary
IsSettled exceeded now first second s (passed h s') =
    (first ≡ none)
    × (second ≡ none)
    × ((read_header (visible exceeded (waiting now s))).0 ≡ ok h)
    × (s'.deadline ≡ none)
    × (s'.closed ≡ s.closed)
IsSettled exceeded now first second s (refused e s') = (s'.closed ≡ true) × (is_temporary e ≡ true)
IsSettled exceeded now first second s panicked = ⊥

module _ (exceeded now : ℕ) (s : Socket) where
  after_header-IsSettled :
      (second : Option ℕ) (r : Try Header) (rest : Conn)
      → (read_header (visible exceeded (waiting now s))).0 ≡ r
      → IsSettled exceeded now none second s
          (after_header second r (after_reading exceeded (waiting now s) rest))
  unfolding after_header clear_deadline refuse IsSettled is_temporary after_reading
  after_header-IsSettled (some e) (ok h) rest q = (refl, refl)
  after_header-IsSettled none (ok h) rest q = (refl, refl, q, refl, refl)
  after_header-IsSettled second (err x) rest q = (refl, refl)
  after_header-IsSettled second panic rest q =
      absurd (read_header-ne-panic (visible exceeded (waiting now s)) q)

  pub handle_connection-IsSettled :
      (first second : Option ℕ)
      → IsSettled exceeded now first second s (handle_connection exceeded now first second s)
  unfolding handle_connection refuse IsSettled is_temporary
  handle_connection-IsSettled (some e) second = (refl, refl)
  handle_connection-IsSettled none second =
      after_header-IsSettled second _ (read_header (visible exceeded (waiting now s))).1 refl
