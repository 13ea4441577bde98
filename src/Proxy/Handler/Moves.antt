-- ===== src/Proxy/Handler/Moves.antt =====
-- proxy/listener.go: what a `handleConnection` does in time, as steps of the listener.
use mathlib.Core.List.{append_assoc}
use go_listener.Common.{
  ℕ, zero, suc, ◌+◌, ◌-◌, ◌<◌, ◌≡◌, ◌⊎◌, refl, ap, sym, ◌∙◌, arith, All, All-split, Option, none,
  some, List, [], ◌∷◌, ◌++◌, false, length, length-append, drop, drop-append, ok, err, panic,
  Bool-cases, inl, inr,
}
use mathlib.Core.Path.{subst}
use go_listener.Common.Text.{Bytes}
use go_listener.Net.Conn.{Conn, ReadError}
use go_listener.Proxy.Header.{
  Header, HeaderError, Try, read_header, read_failed, not_proxied, unsupported_version,
  unsupported_command, too_short, unsupported_family,
}
use go_listener.Proxy.Header.Bounds.{Took, read_header-Took}
use go_listener.Proxy.Header.Extended.{IsFinal, extend, read_header-extend}
use go_listener.Proxy.Header.Reads.{read_header-ne-panic}
use go_listener.Serve.{Effect}
use go_listener.Proxy.Listener
use go_listener.Proxy.Listener.{Fault, bad_header, conn_failed, deadline_failed}
use go_listener.Proxy.Handler.{
  Socket, bytes, is_before, arrived, visible, after_reading, minute, Handled, passed, refused,
  panicked, refuse, clear_deadline, after_header, handle_connection,
}
use go_listener.Proxy.Handler.Settled.{waiting, IsSettled, handle_connection-IsSettled}

-- A goroutine goes on from one task to another by steps of the listener, before `Close`, and closes
-- these connections on the way.
pub data Goes (client : ℕ → Conn) : Listener.Task → List ℕ → Listener.Task → Type 0 where
  stays : (t : Listener.Task) → Goes client t [] t
  moves :
      (t u v : Listener.Task) (e : Effect Listener.Task Listener.Error) (closed : List ℕ)
      → Listener.Move client false t e
      → e.tasks ≡ u ∷ []
      → Goes client u closed v
      → Goes client t (e.closed ++ closed) v

-- All that arrives on a connection.
abbrev pub whole : Socket → Conn
whole s = record {
  input = bytes s.arrivals;
  ends = s.ends;
  local_addr = s.local_addr;
  remote_addr = s.remote_addr;
}

-- The fault as the steps of the listener have it, where an error of the connection has no number.
abbrev as_move : Fault → Fault
as_move (bad_header (read_failed e)) = conn_failed 0
as_move f = f

-- The steps that come to the same: to the `select` of `sendConn` with the connection of the header, or
-- to that of `sendError` with the connection closed.
abbrev pub Follows : (ℕ → Conn) → ℕ → Handled → Type 0
Follows client c (passed h s') = Goes client (Listener.starting c) [] (
    Listener.sending_conn c
      (record { inner = whole s'; local_addr = h.local_addr; remote_addr = h.remote_addr }))
Follows client c (refused e s') =
    Goes client (Listener.starting c) (c ∷ [])
      (Listener.reporting (record e { error = as_move e.error }))
Follows client c panicked = ⊥

module _ (d : Option ℕ) where
  arrived-prefix : (xs : List (ℕ × ℕ)) → (q : Bytes) × (bytes xs ≡ arrived d xs ++ q)
  unfolding arrived
  arrived-prefix [] = ([], refl)
  arrived-prefix ((t, b) ∷ xs) = elim (Bool-cases (is_before d t)) [
    | inl h ↦ let (q, e) = arrived-prefix xs in rw h (q, ap (◌∷◌ b) e)
    | inr h ↦ rw h (b ∷ bytes xs, refl)
  ]

bytes-drop : (n : ℕ) (xs : List (ℕ × ℕ)) → bytes (drop n xs) ≡ drop n (bytes xs)
bytes-drop zero xs = refl
bytes-drop (suc n) [] = refl
bytes-drop (suc n) (x ∷ xs) = bytes-drop n xs

HeaderError-cases :
    (x : HeaderError)
    → ((e : ReadError) × (x ≡ read_failed e))
      ⊎ (IsFinal (err x) × (as_move (bad_header x) ≡ bad_header x))
HeaderError-cases (read_failed e) = inl (e, refl)
HeaderError-cases not_proxied = inr (tt, refl)
HeaderError-cases unsupported_version = inr (tt, refl)
HeaderError-cases (unsupported_command n) = inr (tt, refl)
HeaderError-cases (too_short n) = inr (tt, refl)
HeaderError-cases (unsupported_family n) = inr (tt, refl)

module _ (exceeded now : ℕ) (s : Socket) (client : ℕ → Conn) (c : ℕ) (is_whole : client c ≡ whole s)
    (small : All (λ b. b < 256) (bytes s.arrivals)) where
  seen : Conn
  unfolding visible
  seen = visible exceeded (waiting now s)

  -- What arrives after the deadline.
  later : (q : Bytes) × (bytes s.arrivals ≡ seen.input ++ q)
  unfolding seen visible
  later = arrived-prefix (some (now + minute)) s.arrivals

  seen_small : All (λ b. b < 256) seen.input
  seen_small =
      (All-split (λ b. b < 256) seen.input later.0 (subst (All (λ b. b < 256)) later.1 small)).0

  client-extend : client c ≡ extend later.0 s.ends seen
  unfolding seen visible
  client-extend = is_whole ∙ ap (λ i. record (whole s) { input = i }) later.1

  read_client :
      (r : Try Header) (rest : Conn)
      → read_header seen ≡ (r, rest)
      → IsFinal r
      → read_header (client c) ≡ (r, extend later.0 s.ends rest)
  read_client r rest e final =
      ap read_header client-extend
      ∙ read_header-extend later.0 s.ends seen (subst IsFinal (sym (ap (λ r. r.0) e)) final)
      ∙ ap (λ r. (r.0, extend later.0 s.ends r.1)) e

  -- What a handler has left is what the steps of the listener leave.
  left :
      (rest : Conn)
      → Took (16 + 65535) seen rest
      → whole (after_reading exceeded (waiting now s) rest) ≡ extend later.0 s.ends rest
  unfolding after_reading seen visible
  left rest (taken, l, e, k) =
      let n = length seen.input - length rest.input in
      let rest_bytes : bytes (drop n s.arrivals) ≡ rest.input ++ later.0 =
        bytes-drop n s.arrivals
        ∙ ap (drop n) (later.1 ∙ ap (λ i. i ++ later.0) e ∙ append_assoc taken rest.input later.0)
        ∙ drop-append n 0 taken (rest.input ++ later.0)
            (omega (arith, ap length e, length-append taken rest.input)) in
      ap (λ i. record (whole s) { input = i }) rest_bytes
      ∙ ap (λ (r : Conn). record r { input = rest.input ++ later.0; ends = s.ends }) (sym k)

  from_reading :
      (closed : List ℕ) (t : Listener.Task)
      → Goes client (Listener.reading c) closed t
      → Goes client (Listener.starting c) closed t
  from_reading closed t g = moves _ _ _ _ closed (Listener.deadline_set false c) refl g

  after_header-Follows :
      (second : Option ℕ) (r : Try Header) (rest : Conn)
      → read_header seen ≡ (r, rest)
      → Follows client c (after_header second r (after_reading exceeded (waiting now s) rest))
  unfolding after_header clear_deadline refuse
  after_header-Follows (some e) (ok h) rest q = from_reading (c ∷ []) _ (
      moves _ _ _ _ (c ∷ []) (Listener.header_read false c h _ (read_client (ok h) rest q tt)) refl
        (moves _ _ _ _ [] (Listener.clear_fails false c e h _) refl (stays _)))
  after_header-Follows none (ok h) rest q =
      let took =
        subst (Took (16 + 65535) seen) (ap (λ r. r.1) q) (read_header-Took seen seen_small) in
      from_reading [] _ (
        moves _ _ _ _ [] (Listener.header_read false c h _ (read_client (ok h) rest q tt)) refl (
          moves _ _ _ _ [] (Listener.deadline_cleared false c h _) refl (
            subst
              (λ i.
                Goes client
                  (Listener.sending_conn c (record {
                    inner = extend later.0 s.ends rest;
                    local_addr = h.local_addr;
                    remote_addr = h.remote_addr;
                  }))
                  []
                  (Listener.sending_conn c
                    (record { inner = i; local_addr = h.local_addr; remote_addr = h.remote_addr })))
              (sym (left rest took)) (stays _))))
  after_header-Follows second (err x) rest q = elim (HeaderError-cases x) [
    | inl (e, k) ↦
        rw k (
          from_reading (c ∷ []) _ (moves _ _ _ _ [] (Listener.read_fails false c 0) refl (stays _)))
    | inr (final, k) ↦ rw k (
        from_reading (c ∷ []) _ (
          moves _ _ _ _ [] (Listener.header_fails false c x _ (read_client (err x) rest q final))
            refl (stays _)))
  ]
  after_header-Follows second panic rest q = absurd (read_header-ne-panic seen (ap (λ r. r.0) q))

  follows :
      (first second : Option ℕ) → Follows client c (handle_connection exceeded now first second s)
  unfolding handle_connection refuse seen
  follows (some e) second = moves _ _ _ _ [] (Listener.deadline_fails false c e) refl (stays _)
  follows none second = after_header-Follows second (read_header seen).0 (read_header seen).1 refl

-- Whatever arrives and when, and whether the calls of SetReadDeadline fail or not: a handler does not
-- panic. It passes a connection on only if both calls succeeded, with the addresses that ReadHeader
-- returned for what arrived within the minute, no deadline any more, and as open as it was; any other
-- connection it closes, with a temporary error. And it does what steps of the listener do, on all that
-- arrives on the connection: those to `sendConn` with the same connection, or to `sendError` with the
-- same error, one of reading up to its number.
pub handle_connection-Follows :
    (exceeded now : ℕ) (first second : Option ℕ) (s : Socket) (client : ℕ → Conn) (c : ℕ)
    → client c ≡ whole s
    → All (λ b. b < 256) (bytes s.arrivals)
    → IsSettled exceeded now first second s (handle_connection exceeded now first second s)
      × Follows client c (handle_connection exceeded now first second s)
handle_connection-Follows exceeded now first second s client c is_whole small = (
  handle_connection-IsSettled exceeded now s first second,
  follows exceeded now s client c is_whole small first second,
)
