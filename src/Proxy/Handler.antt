-- ===== src/Proxy/Handler.antt =====
-- proxy/listener.go: `handleConnection` on a connection whose bytes arrive in the course of time.
pub mod Settled
pub mod Timed
pub mod Moves
use go_listener.Common.{
  ℕ, ◌+◌, ◌-◌, Bool, true, false, ◌&&◌, Option, none, some, List, [], ◌∷◌, ltb, if◌then◌else◌,
  length, drop, ok, err, panic,
}
use go_listener.Common.Text.{Bytes}
use go_listener.Net.{Addr}
use go_listener.Net.Conn.{Conn, ReadEnd}
use go_listener.Proxy.Header.{Header, Try, read_header}
use go_listener.Proxy.Listener.{AcceptError, Fault, deadline_failed, bad_header}

-- A connection: the bytes with the second at which each arrives, what then ends them and when, the read
-- deadline, and whether it was closed.
pub record Socket : Type 0 where
  pub arrivals : List (ℕ × ℕ)
  pub ends : ReadEnd
  pub end_time : ℕ
  pub local_addr : Addr
  pub remote_addr : Addr
  pub deadline : Option ℕ
  pub closed : Bool

abbrev pub bytes : List (ℕ × ℕ) → Bytes
bytes [] = []
bytes ((t, b) ∷ xs) = b ∷ bytes xs

unfoldable pub is_before : Option ℕ → ℕ → Bool
is_before none t = true
is_before (some d) t = ltb t d

-- Whether all of it arrives before the deadline.
unfoldable pub all_before : Option ℕ → List (ℕ × ℕ) → Bool
unfolding is_before
all_before d [] = true
all_before d ((t, b) ∷ xs) = is_before d t && all_before d xs

-- What arrives before the deadline.
unfoldable pub arrived : Option ℕ → List (ℕ × ℕ) → Bytes
unfolding is_before
arrived d [] = []
arrived d ((t, b) ∷ xs) = if is_before d t then b ∷ arrived d xs else []

module _ (exceeded : ℕ) where
  -- The connection as a reader sees it that reads all that it gets: at the deadline `Read` returns
  -- `os.ErrDeadlineExceeded`, here the error `exceeded`.
  unfoldable pub visible : Socket → Conn
  unfolding arrived all_before
  visible s = record {
    input = arrived s.deadline s.arrivals;
    ends =
        if all_before s.deadline s.arrivals && is_before s.deadline s.end_time
        then s.ends
        else ReadEnd.failed exceeded;
    local_addr = s.local_addr;
    remote_addr = s.remote_addr;
  }

  -- The connection when this is what a reader has left of what it saw.
  unfoldable pub after_reading : Socket → Conn → Socket
  unfolding visible
  after_reading s rest = record s {
    arrivals = drop (length (visible s).input - length rest.input) s.arrivals;
  }

-- `1 * time.Minute`, in seconds
abbrev pub minute : ℕ
minute = 60

-- How `handleConnection` ends: with a `proxyConn` for `sendConn`, the addresses of the header beside the
-- connection, or with an error for `sendError`.
pub data Handled : Type 0 where
  passed : Header → Socket → Handled
  refused : AcceptError → Socket → Handled
  panicked : Handled

-- `conn.Close()`, and the error
unfoldable pub refuse : Fault → Socket → Handled
refuse fault s = refused (record { error = fault; temporary = true }) (record s { closed = true })

-- From the second `SetReadDeadline` on, with the error of this if it fails.
unfoldable pub clear_deadline : Option ℕ → Header → Socket → Handled
unfolding refuse
clear_deadline (some e) h s = refuse (deadline_failed e) s
clear_deadline none h s = passed h (record s { deadline = none })

-- From the result of `ReadHeader` on.
unfoldable pub after_header : Option ℕ → Try Header → Socket → Handled
unfolding clear_deadline refuse
after_header fails (ok h) s = clear_deadline fails h s
after_header fails (err x) s = refuse (bad_header x) s
after_header fails panic s = panicked

-- `handleConnection` at the second `now`, with the errors of its two calls of `SetReadDeadline` if they
-- fail, up to its call of `sendConn` or `sendError`.
unfoldable pub handle_connection : (exceeded now : ℕ) → (first second : Option ℕ) → Socket → Handled
unfolding after_header after_reading
handle_connection exceeded now (some e) second s = refuse (deadline_failed e) s
handle_connection exceeded now none second s =
    let s = record s { deadline = some (now + minute) } in
    let (r, rest) = read_header (visible exceeded s) in
    after_header second r (after_reading exceeded s rest)
