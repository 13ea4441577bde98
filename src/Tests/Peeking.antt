-- ===== src/Tests/Peeking.antt =====
-- A ClientHello that is peeked at, on a connection.
use go_listener.Common.{ℕ, ◌≡◌, false, Option, none, some, [], ◌∷◌, ◌++◌}
use go_listener.Common.Text.{Bytes}
use go_listener.Tlsutil.Conns.{
  Conn, Using, done, reads, writes, closes, sets_deadline, peek_client_hello_from_conn, use_peeked,
  peek_client_hello_from_conn-untouched,
}

-- A handshake that reads three bytes, answers, and closes what it takes for the connection.
abbrev handshake : Using (Option Bytes × ℕ)
handshake = sets_deadline (some 3) (reads 3 (λ b. writes (1 ∷ []) (λ r. closes (done (some b, 0)))))

-- A server that reads, answers and reads again.
abbrev server : Using (Unit {0})
server = reads 2 (λ b. writes b (λ r. reads 1 (λ c. done tt)))

abbrev conn : Conn
conn = record {
  reader = record { input = 5 ∷ 6 ∷ 7 ∷ 8 ∷ 9 ∷ []; chunks = 2 ∷ 4 ∷ 4 ∷ [] };
  written = [];
  closed = false;
  deadline = none;
}

peek_client_hello_from_conn-untouched_example :
    let p = (peek_client_hello_from_conn handshake conn).1 in
    let after = use_peeked server p in
    (p.conn ≡ record conn { reader = p.conn.reader })
    × (after.0 ++ (after.1.peeked ++ after.1.conn.reader.input) ≡ 5 ∷ 6 ∷ 7 ∷ 8 ∷ 9 ∷ [])
peek_client_hello_from_conn-untouched_example =
    peek_client_hello_from_conn-untouched handshake server conn
