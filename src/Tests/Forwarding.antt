-- ===== src/Tests/Forwarding.antt =====
-- A proxy that writes a header in front of each connection, and a listener behind it.
use go_listener.Common.{ℕ, zero, suc, ◌≡◌, refl, arith, false, [], ◌∷◌, ok, inl, All}
use go_listener.Net.{to4}
use go_listener.Net.Conn.{Conn}
use go_listener.Proxy.Header.{Header, read_header, run_command}
use go_listener.Proxy.Header.Wire.{wire, feed, read_header-wire}
use go_listener.Proxy.Header.Tests.{sent, client, client_bytes, format-client, read-client}
use go_listener.Proxy.Listener
use go_listener.Proxy.Listener.Forwarded.{
  IsForwarded, IsElsewhere, Sender, forwards, checks, Sends, new_listener-forwards,
}
use go_listener.Serve
use go_listener.Serve.{State, Steps, new_state}

abbrev stream : ℕ → Conn
stream c = sent (71 ∷ 69 ∷ [])

-- The first connection is forwarded for a client; with all others the proxy looks if the program is up.
abbrev sender : ℕ → Sender
sender zero = forwards client
sender (suc c) = checks 0 (9 ∷ [])

abbrev clients : ℕ → Conn
clients zero = feed client_bytes (stream zero)
clients (suc c) = feed (wire 0 0 (9 ∷ [])) (stream (suc c))

abbrev forwarded : Listener.Task
forwarded =
    Listener.sending_conn 0 (record {
      inner = stream 0;
      local_addr = client.local_addr;
      remote_addr = client.remote_addr;
    })

abbrev own : Header
own = record { remote_addr = (stream 1).remote_addr; local_addr = (stream 1).local_addr }

abbrev checked : Listener.Task
checked =
    Listener.sending_conn 1
      (record { inner = stream 1; local_addr = own.local_addr; remote_addr = own.remote_addr })

abbrev passing : State Listener.Task Listener.Error
passing = record (new_state (Listener.accepting ∷ checked ∷ forwarded ∷ [])) {
  accepted = 1 ∷ 0 ∷ [];
}

read-local : read_header (clients 1) ≡ (ok own, stream 1)
unfolding run_command
read-local = read_header-wire 0 0 (9 ∷ []) (stream 1) (omega arith)

abbrev passing_once : State Listener.Task Listener.Error
passing_once = record (new_state (Listener.accepting ∷ forwarded ∷ [])) { accepted = 0 ∷ [] }

checking_run : Steps (Listener.routines clients) passing_once passing
checking_run =
    Serve.next _ _ _
      (Serve.move _ [] (forwarded ∷ []) Listener.accepting _ refl (Listener.accept_conn false 1)
        (omega arith))
      (Serve.next _ _ _
        (Serve.move _ (Listener.accepting ∷ []) (forwarded ∷ []) (Listener.starting 1) _ refl
          (Listener.deadline_set false 1) (omega arith))
        (Serve.next _ _ _
          (Serve.move _ (Listener.accepting ∷ []) (forwarded ∷ []) (Listener.reading 1) _ refl
            (Listener.header_read false 1 own (stream 1) read-local) (omega arith))
          (Serve.next _ _ _
            (Serve.move _ (Listener.accepting ∷ []) (forwarded ∷ [])
              (Listener.clearing 1 own (stream 1)) _ refl
              (Listener.deadline_cleared false 1 own (stream 1)) (omega arith))
            (Serve.stop _))))

passing_run : Steps (Listener.routines clients) Listener.new_listener passing
passing_run =
    Serve.next _ _ _
      (Serve.move _ [] [] Listener.accepting _ refl (Listener.accept_conn false 0) (omega arith))
      (Serve.next _ _ _
        (Serve.move _ (Listener.accepting ∷ []) [] (Listener.starting 0) _ refl
          (Listener.deadline_set false 0) (omega arith))
        (Serve.next _ _ _
          (Serve.move _ (Listener.accepting ∷ []) [] (Listener.reading 0) _ refl
            (Listener.header_read false 0 client (stream 0) read-client) (omega arith))
          (Serve.next _ _ _
            (Serve.move _ (Listener.accepting ∷ []) [] (Listener.clearing 0 client (stream 0)) _
              refl (Listener.deadline_cleared false 0 client (stream 0)) (omega arith))
            checking_run)))

sends : (c : ℕ) → Sends (sender c) (stream c) (clients c)
unfolding to4
sends zero =
    ((omega arith, omega arith, inl (_, _, refl, refl)), (client_bytes, format-client, refl))
sends (suc c) = (omega arith, refl)

new_listener-forwards_example :
    All (IsForwarded sender stream) passing.tasks × All IsElsewhere passing.errors
new_listener-forwards_example =
    new_listener-forwards sender stream clients sends passing passing_run
