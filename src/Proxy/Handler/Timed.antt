-- ===== src/Proxy/Handler/Timed.antt =====
-- proxy/listener.go: a `handleConnection` whose client sends a header, in time or not.
use go_listener.Common.{
  ℕ, ◌+◌, ◌-◌, ◌<◌, ◌≡◌, ◌⊎◌, refl, ap, ◌∙◌, inl, inr, arith, true, false, ◌&&◌, if◌then◌else◌,
  Option, none, some, List, [], ◌∷◌, ◌++◌, length, length-append, drop, drop-append, ok, err,
  Bool-cases,
}
use go_listener.Common.Text.{Bytes}
use go_listener.Net.Conn.{Conn, ReadEnd, ReadError}
use go_listener.Proxy.Header.{Header, Preamble, read_header, read_failed, run_command}
use go_listener.Proxy.Header.Wire.{wire, read_header-wire}
use go_listener.Proxy.Header.Accepts.{Means}
use go_listener.Proxy.Header.Partial.{read_header-partial}
use go_listener.Proxy.Listener.{bad_header}
use go_listener.Proxy.Handler.{
  Socket, bytes, is_before, all_before, arrived, visible, after_reading, minute, passed, refused,
  refuse, clear_deadline, after_header, handle_connection,
}
use go_listener.Proxy.Handler.Settled.{waiting}

module _ (d : Option ℕ) where
  arrived-before :
      (xs ys : List (ℕ × ℕ))
      → all_before d xs ≡ true
      → arrived d (xs ++ ys) ≡ bytes xs ++ arrived d ys
  unfolding arrived all_before
  arrived-before [] ys e = refl
  arrived-before ((t, b) ∷ xs) ys e = ground (arith, arrived-before xs ys)

  -- What arrives late, and what arrives in time, of a part that does not arrive whole in time.
  arrived-late :
      (xs ys : List (ℕ × ℕ))
      → all_before d xs ≡ false
      → (q : Bytes) × (arrived d (xs ++ ys) ++ q ≡ bytes xs)
        × (length (arrived d (xs ++ ys)) < length (bytes xs))
  unfolding arrived all_before
  arrived-late [] ys e = cc
  arrived-late ((t, b) ∷ xs) ys e = elim (Bool-cases (is_before d t)) [
    | inl h ↦
        let (q, f, l) = arrived-late xs ys (rw h at e) in rw h (q, ap (◌∷◌ b) f, omega (arith, l))
    | inr h ↦ rw h (b ∷ bytes xs, refl, omega arith)
  ]

  all_before-late :
      (xs ys : List (ℕ × ℕ)) → all_before d xs ≡ false → all_before d (xs ++ ys) ≡ false
  unfolding all_before
  all_before-late [] ys e = cc
  all_before-late ((t, b) ∷ xs) ys e = ground (arith, all_before-late xs ys)

length-bytes : (xs : List (ℕ × ℕ)) → length (bytes xs) ≡ length xs
length-bytes [] = refl
length-bytes (x ∷ xs) = omega (arith, length-bytes xs)

run_command-Means :
    (c : Conn) (p : Preamble) (payload : Bytes) (h : Header)
    → Means p.command p.family payload c h
    → run_command c p payload ≡ ok h
unfolding run_command
run_command-Means c p payload h (inl (e, q)) = ground arith
run_command-Means c p payload h (inr (e, q)) = ground arith

module _ (exceeded now : ℕ) (s : Socket) (head tail : List (ℕ × ℕ)) (command family : ℕ)
    (payload : Bytes) (h : Header) (sent : s.arrivals ≡ head ++ tail)
    (is_header : bytes head ≡ wire command family payload)
    (means : Means command family payload (visible exceeded s) h) where
  due : Option ℕ
  due = some (now + minute)

  seen : Conn
  unfolding visible due
  seen = visible exceeded (waiting now s)

  known : command < 16
  known = elim means [ inl m ↦ omega (arith, m.0) | inr m ↦ omega (arith, m.0) ]

  -- What the reader sees up to the deadline.
  seen_input : seen.input ≡ arrived due (head ++ tail)
  unfolding seen due visible
  seen_input = ap (arrived due) sent

  -- The connection behind the header.
  behind : Conn
  unfolding seen visible due arrived
  behind = record seen { input = arrived due tail }

  in_time : all_before due head ≡ true → read_header seen ≡ (ok h, behind)
  unfolding seen behind due visible
  in_time e =
      ap (λ i. read_header (record seen { input = i }))
        (seen_input ∙ arrived-before due head tail e ∙ ap (λ b. b ++ arrived due tail) is_header)
      ∙ read_header-wire command family payload behind known
      ∙ ap (λ r. (r, behind)) (run_command-Means behind _ payload h means)

  late :
      all_before due head ≡ false
      → (read_header seen).0 ≡ err (read_failed (ReadError.failed exceeded))
  unfolding seen due visible
  late e =
      let (q, f, l) = arrived-late due head tail e in
      let ends_late =
        ap (λ b. if b && is_before due s.end_time then s.ends else ReadEnd.failed exceeded)
          (ap (all_before due) sent ∙ all_before-late due head tail e) in
      read_header-partial command family exceeded payload q seen known
        (ap (λ i. i ++ q) seen_input ∙ f ∙ is_header)
        (omega (arith, ap length seen_input, ap length is_header, l)) ends_late

  left :
      all_before due head ≡ true
      → after_reading exceeded (waiting now s) behind ≡ record (waiting now s) { arrivals = tail }
  unfolding after_reading visible seen behind due
  left e =
      ap (λ xs. record (waiting now s) { arrivals = xs })
        (ap (drop (length seen.input - length behind.input)) sent
          ∙ drop-append (length seen.input - length behind.input) 0 head tail (
              omega (
                arith,
                ap length (seen_input ∙ arrived-before due head tail e),
                length-append (bytes head) (arrived due tail),
                length-bytes head,
              )))

  passes :
      all_before due head ≡ true
      → handle_connection exceeded now none none s
        ≡ passed h (record s { arrivals = tail; deadline = none })
  unfolding handle_connection after_header clear_deadline seen
  passes e =
      ap (λ r. after_header none r.0 (after_reading exceeded (waiting now s) r.1)) (in_time e)
      ∙ ap (λ s'. passed h (record s' { deadline = none })) (left e)

  refuses :
      all_before due head ≡ false
      → (s' : Socket) × (handle_connection exceeded now none none s
          ≡ refused
              (record {
                error = bad_header (read_failed (ReadError.failed exceeded));
                temporary = true;
              })
              s')
        × (s'.closed ≡ true)
  unfolding handle_connection after_header refuse seen
  refuses e = (
    _,
    ap (λ r. after_header none r (after_reading exceeded (waiting now s) (read_header seen).1))
        (late e),
    refl,
  )

-- On a connection on which a header that ReadHeader accepts arrives, if the two calls of SetReadDeadline
-- succeed: where the whole header arrives within a minute, the handler passes on the connection, with
-- the addresses of the header, what arrived or will arrive behind the header, and no deadline; where
-- any of it does not, the handler reports that ReadHeader ran into the deadline, and has closed the
-- connection.
pub handle_connection-answers :
    (exceeded now : ℕ) (s : Socket) (head tail : List (ℕ × ℕ)) (command family : ℕ)
    (payload : Bytes) (h : Header)
    → s.arrivals ≡ head ++ tail
    → bytes head ≡ wire command family payload
    → Means command family payload (visible exceeded s) h
    → ((all_before (some (now + minute)) head ≡ true)
        × (handle_connection exceeded now none none s
            ≡ passed h (record s { arrivals = tail; deadline = none })))
      ⊎ ((all_before (some (now + minute)) head ≡ false)
          × (s' : Socket) × (handle_connection exceeded now none none s
              ≡ refused
                  (record {
                    error = bad_header (read_failed (ReadError.failed exceeded));
                    temporary = true;
                  })
                  s')
          × (s'.closed ≡ true))
unfolding due
handle_connection-answers exceeded now s head tail command family payload h sent is_header means =
    elim (Bool-cases (all_before (some (now + minute)) head)) [
      | inl e ↦
          inl (e, passes exceeded now s head tail command family payload h sent is_header means e)
      | inr e ↦
          let (s', r, closed) =
            refuses exceeded now s head tail command family payload h sent is_header means e in
          inr (e, s', r, closed)
    ]
