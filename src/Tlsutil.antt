-- ===== src/Tlsutil.antt =====
-- tlsutil/hello.go: reading the ClientHello of a connection ahead.
pub mod Conns
use go_listener.Common.{
  ℕ, ◌≡◌, refl, ap, sym, ◌∙◌, Option, none, some, List, [], ◌∷◌, ◌++◌, take, drop, take-append-drop,
  Outcome, ok, err,
}
use Prim.Native.Nat.{min}
use mathlib.Core.List.{append_assoc}
use go_listener.Common.Text.{Bytes}

-- What reads from a connection and ends with a result: `Handshake` of `crypto/tls`, or whoever reads
-- the connection later. It asks for some bytes and goes on with those that it gets.
pub data Reading {ℓ} (A : Type ℓ) : Type ℓ where
  finished : A → Reading A
  read : ℕ → (Bytes → Reading A) → Reading A

-- An `io.Reader`: the bytes to come, and how many of them each call returns at most.
pub record Reader : Type 0 where
  pub input : Bytes
  pub chunks : List ℕ

-- Without a chunk left nothing arrives any more.
chunk : List ℕ → ℕ → ℕ
chunk [] n = 0
chunk (k ∷ ks) n = min k n

abbrev rest_of : List ℕ → List ℕ
rest_of [] = []
rest_of (k ∷ ks) = ks

-- `Read` into a slice of this length
read_from : ℕ → Reader → Bytes × Reader
unfolding chunk
read_from n r =
    let k = chunk r.chunks n in
    (take k r.input, record { input = drop k r.input; chunks = rest_of r.chunks })

-- `io.TeeReader`: what is read is also written to the buffer.
unfoldable pub tee_read : ℕ → Bytes × Reader → Bytes × (Bytes × Reader)
unfolding read_from
tee_read n (peeked, r) = let (s, r') = read_from n r in (s, (peeked ++ s, r'))

-- `io.MultiReader` of the buffer and the reader: the buffer until it is empty.
unfoldable pub multi_read : ℕ → Bytes × Reader → Bytes × (Bytes × Reader)
unfolding read_from
multi_read n ([], r) = let (s, r') = read_from n r in (s, ([], r'))
multi_read n (c ∷ peeked, r) = (take n (c ∷ peeked), (drop n (c ∷ peeked), r))

-- A reading on a state that gives bytes, with all of those that it got.
unfoldable pub run {ℓ} :
    {S : Type 0} {A : Type ℓ} → (ℕ → S → Bytes × S) → Reading A → S → A × (Bytes × S)
run reads (finished a) s = (a, ([], s))
run reads (read n k) s =
    let (b, s') = reads n s in let (a, (bs, s'')) = run reads (k b) s' in (a, (b ++ bs, s''))

-- `ReadClientHello`, with what `Handshake` left: the hello that its callback saw, and its error.
read_client_hello : {Hello Error : Type 0} → Option Hello × Error → Outcome Error Hello
read_client_hello (none, e) = err e
read_client_hello (some hello, e) = ok hello

-- `PeekClientHello`: the outcome, and the reader that it returns in either case.
unfoldable pub peek_client_hello :
    {Hello Error : Type 0}
    → Reading (Option Hello × Error)
    → Reader
    → Outcome Error Hello × (Bytes × Reader)
unfolding run tee_read read_client_hello
peek_client_hello handshake r =
    let (a, (bs, s)) = run tee_read handshake ([], r) in (read_client_hello a, s)

abbrev content : Bytes × Reader → Bytes
content (peeked, r) = peeked ++ r.input

tee_read-content : (n : ℕ) (s : Bytes × Reader) → content (tee_read n s).1 ≡ content s
unfolding tee_read read_from
tee_read-content n (peeked, r) =
    append_assoc peeked (take (chunk r.chunks n) r.input) (drop (chunk r.chunks n) r.input)
    ∙ ap (◌++◌ peeked) (take-append-drop (chunk r.chunks n) r.input)

pub run_tee-content {ℓ} :
    {A : Type ℓ} (m : Reading A) (s : Bytes × Reader) → content (run tee_read m s).1.1 ≡ content s
unfolding run
run_tee-content (finished a) s = refl
run_tee-content (read n k) s =
    run_tee-content (k (tee_read n s).0) (tee_read n s).1 ∙ tee_read-content n s

pub multi_read-content :
    (n : ℕ) (s : Bytes × Reader) → (multi_read n s).0 ++ content (multi_read n s).1 ≡ content s
unfolding multi_read read_from
multi_read-content n ([], r) = take-append-drop (chunk r.chunks n) r.input
multi_read-content n (c ∷ peeked, r) =
    sym (append_assoc (take n (c ∷ peeked)) (drop n (c ∷ peeked)) r.input)
    ∙ ap (λ l. l ++ r.input) (take-append-drop n (c ∷ peeked))

run_multi-content {ℓ} :
    {A : Type ℓ} (m : Reading A) (s : Bytes × Reader)
    → (run multi_read m s).1.0 ++ content (run multi_read m s).1.1 ≡ content s
unfolding run
run_multi-content (finished a) s = refl
run_multi-content (read n k) s =
    append_assoc (multi_read n s).0 (run multi_read (k (multi_read n s).0) (multi_read n s).1).1.0 _
    ∙ ap (◌++◌ (multi_read n s).0) (run_multi-content (k (multi_read n s).0) (multi_read n s).1)
    ∙ multi_read-content n s

-- Whatever the handshake reads, in whatever pieces the bytes arrive, and whether a hello is found or
-- not, whoever reads the connection that `PeekClientHello` returns gets the bytes of the original one
-- from the start, in order and without a gap: those that it got and those still to come are the input.
peek_client_hello-content {ℓ} :
    {Hello Error : Type 0} {A : Type ℓ} (handshake : Reading (Option Hello × Error))
    (reading : Reading A) (r : Reader)
    → let after = run multi_read reading (peek_client_hello handshake r).1 in
      after.1.0 ++ (after.1.1.0 ++ after.1.1.1.input) ≡ r.input
unfolding peek_client_hello
peek_client_hello-content handshake reading r =
    run_multi-content reading (run tee_read handshake ([], r)).1.1
    ∙ run_tee-content handshake ([], r)
