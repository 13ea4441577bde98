-- ===== src/Tests/Running.antt =====
-- Listeners at work: runs with a connection each, and a client whose hello is peeked at.
use go_listener.Common.{
  ℕ, ◌+◌, ◌≡◌, refl, true, false, not, ◌||◌, err, arith, List, [], ◌∷◌, ◌++◌, panic,
}
use go_listener.Common.{All}
use go_listener.Net.Conn.{Conn, unexpected_eof, read_full}
use go_listener.Proxy.Header.{HeaderError, read_header}
use go_listener.Proxy.Header.Tests.{sent, client, client_bytes, read-client}
use go_listener.Proxy.Listener.Addresses.{
  IsRead, IsReported, new_listener-relays, new_listener-IsReported,
}
use go_listener.Serve
use go_listener.Serve.{State, Steps, new_state, occurs, held}
use go_listener.Serve.Answers.{Answered}
use go_listener.Serve.Drain.{ClosesDown}
use go_listener.Multi
use go_listener.Multi.{multi_listener}
use go_listener.Multi.Runs.{multi_listener-ClosesDown}
use go_listener.Proxy.Listener
use go_listener.Proxy.Listener.Runs.{new_listener-ClosesDown}
use go_listener.Unix.Watch
use go_listener.Unix.Watch.{Watched, new_watched_listener, close-panics}

abbrev two : List ℕ
two = 0 ∷ 1 ∷ []

-- `Accept` is called, and the first of two listeners accepts the connection 7.
abbrev multi : State Multi.Task ℕ
multi = record (new_state (Multi.sending_conn 7 ∷ Multi.accepting ∷ [])) {
  waiting = 1;
  calls = 1;
  accepted = 7 ∷ [];
}

multi_run : Steps Multi.routines (multi_listener two) multi
unfolding multi_listener
multi_run = Serve.next _ _ _ (Serve.accepts (multi_listener two)) (
    Serve.next _ _ _
      (Serve.move _ [] (Multi.accepting ∷ []) Multi.accepting _ refl (Multi.accept_conn false 7)
        (omega arith))
      (Serve.stop _))

multi_listener-ClosesDown_example :
    ((c : ℕ)
      → occurs c multi.accepted
        ≡ occurs c multi.delivered
          + occurs c multi.closed
          + occurs c (held Multi.holds multi.tasks))
    × Answered Multi.routines multi
    × ClosesDown Multi.routines multi
multi_listener-ClosesDown_example = multi_listener-ClosesDown two multi multi_run

-- `Accept` is called, the connection 7 is accepted, and its header has been read.
abbrev proxied : State Listener.Task Listener.Error
proxied =
    record (new_state
      (Listener.accepting ∷ Listener.clearing 7 client (sent (71 ∷ 69 ∷ [])) ∷ [])) {
        waiting = 1;
        calls = 1;
        accepted = 7 ∷ [];
      }

abbrev clients : ℕ → Conn
clients c = sent (client_bytes ++ 71 ∷ 69 ∷ [])

proxied_run : Steps (Listener.routines clients) Listener.new_listener proxied
proxied_run = Serve.next _ _ _ (Serve.accepts Listener.new_listener) (
    Serve.next _ _ _
      (Serve.move _ [] [] Listener.accepting _ refl (Listener.accept_conn false 7) (omega arith))
      (Serve.next _ _ _
        (Serve.move _ (Listener.accepting ∷ []) [] (Listener.starting 7) _ refl
          (Listener.deadline_set false 7) (omega arith))
        (Serve.next _ _ _
          (Serve.move _ (Listener.accepting ∷ []) [] (Listener.reading 7) _ refl
            (Listener.header_read false 7 client (sent (71 ∷ 69 ∷ [])) read-client) (omega arith))
          (Serve.stop _))))

new_listener-ClosesDown_example :
    ((c : ℕ)
      → occurs c proxied.accepted
        ≡ occurs c proxied.delivered
          + occurs c proxied.closed
          + occurs c (held Listener.holds proxied.tasks))
    × Answered (Listener.routines clients) proxied
    × ClosesDown (Listener.routines clients) proxied
new_listener-ClosesDown_example = new_listener-ClosesDown clients proxied proxied_run

new_listener-relays_example :
    All (IsRead clients) proxied.tasks × All (IsReported clients) proxied.errors
new_listener-relays_example = new_listener-relays clients proxied proxied_run

-- What arrives on the connection 7 is no header, and the caller of `Accept` gets the error of that.
abbrev strangers : ℕ → Conn
strangers c = sent (71 ∷ 69 ∷ [])

abbrev strange : Listener.AcceptError
strange = record {
  error = Listener.bad_header (HeaderError.read_failed unexpected_eof);
  temporary = true;
}

abbrev answered : State Listener.Task Listener.Error
answered = record (new_state (Listener.accepting ∷ [])) {
  calls = 1;
  accepted = 7 ∷ [];
  closed = 7 ∷ [];
  errors = Listener.of_handler strange ∷ [];
}

read-strangers : read_header (strangers 7) ≡ (err (HeaderError.read_failed unexpected_eof), sent [])
unfolding read_header read_full
read-strangers = refl

answered_run : Steps (Listener.routines strangers) Listener.new_listener answered
answered_run = Serve.next _ _ _ (Serve.accepts Listener.new_listener) (
    Serve.next _ _ _
      (Serve.move _ [] [] Listener.accepting _ refl (Listener.accept_conn false 7) (omega arith))
      (Serve.next _ _ _
        (Serve.move _ (Listener.accepting ∷ []) [] (Listener.starting 7) _ refl
          (Listener.deadline_set false 7) (omega arith))
        (Serve.next _ _ _
          (Serve.move _ (Listener.accepting ∷ []) [] (Listener.reading 7) _ refl
            (Listener.header_fails false 7 (HeaderError.read_failed unexpected_eof) (sent [])
              read-strangers)
            (omega arith))
          (Serve.next _ _ _
            (Serve.move _ (Listener.accepting ∷ []) [] (Listener.reporting strange) _ refl
              (Listener.reported false strange) (omega arith))
            (Serve.stop _)))))

answered-IsReported : All (IsReported strangers) answered.errors
answered-IsReported = new_listener-IsReported strangers answered answered_run

-- The socket file was replaced.
abbrev replaced : Watched
replaced = record { closed = false; socket_closed = true; watching = false }

replaced_run : Watch.Steps new_watched_listener replaced
unfolding Watch.tick
replaced_run = Watch.next _ _ _ (Watch.ticks false new_watched_listener refl) (Watch.stop _)

close-panics_example :
    (replaced.socket_closed
      ≡ (replaced.closed || Watch.found new_watched_listener replaced replaced_run))
    × (replaced.socket_closed ≡ (replaced.closed || not replaced.watching))
    × ((Watch.close (Watch.close replaced).1).0 ≡ panic)
close-panics_example = close-panics replaced replaced_run
