-- ===== src/Proxy/Header/Bounds.antt =====
-- proxy/header.go: how much `ReadHeader` takes from the connection.
use go_listener.Common.{
  ℕ, ◌+◌, ◌*◌, ◌≤◌, ◌<◌, ◌≡◌, refl, sym, ap, ◌∙◌, arith, [], ◌∷◌, ◌++◌, length, length-append, All,
  All-split, inl, inr, ok, panic, ◌≢◌, Bool, true, false, if◌then◌else◌, leb, take, drop,
  Bool-cases, ◌==◌,
}
use mathlib.Core.Path.{subst}
use mathlib.Core.List.{append_assoc, append-nil}
use go_listener.Common.Text.{Bytes, equal}
use go_listener.Net.Conn.{Conn, short_read, ReadError, full, short, read_full, Read-cases}
use go_listener.Proxy.Header.{
  Preamble, read_header, read_payload, check_preamble, protocol_signature, protocol_version,
}
use go_listener.Proxy.Header.Reads.{
  read_full-eq-full, split_preamble_lem, split_preamble_total, read_header-ne-panic,
}

-- At most so many bytes were taken off the front of the input, and nothing else changed.
abbrev pub Took : ℕ → Conn → Conn → Type 0
Took n c c' =
    (taken : Bytes) × (length taken ≤ n)
    × (c.input ≡ taken ++ c'.input)
    × (c' ≡ record c { input = c'.input })

Took-mono : (m n : ℕ) (c c' : Conn) → m ≤ n → Took m c c' → Took n c c'
Took-mono m n c c' h (t, l, e, q) = (t, omega arith, e, q)

Took-trans : (m n : ℕ) (a b c : Conn) → Took m a b → Took n b c → Took (m + n) a c
Took-trans m n a b c (t, l, e, q) (u, k, f, r) = (
  t ++ u,
  omega (arith, length-append t u),
  e ∙ ap (◌++◌ t) f ∙ sym (append_assoc t u c.input),
  r ∙ ap again q,
)
  where
    again : Conn → Conn
    again x = record x { input = c.input }

read_full-short : (n : ℕ) (c c' : Conn) (e : ReadError) → read_full n c ≡ short e c' → Took n c c'
unfolding read_full
read_full-short n c c' e h = go (leb n (length c.input)) refl h
  where
    go :
        (b : Bool)
        → leb n (length c.input) ≡ b
        → (if b
            then full (take n c.input) (record c { input = drop n c.input })
            else short (short_read c.ends c.input) (record c { input = [] }))
          ≡ short e c'
        → Took n c c'
    go true l k = cc
    go false l k =
        let q : record c { input = [] } ≡ c' = cc in
        subst (Took n c) q (c.input, ground arith, sym (append-nil c.input), refl)

read_full-Took : (n : ℕ) (c c' : Conn) (b : Bytes) → read_full n c ≡ full b c' → Took n c c'
read_full-Took n c c' b h =
    let (l, q, e) = read_full-eq-full n c c' h in (b, omega (arith, l), e, q)

read_payload-Took : (p : Preamble) (c : Conn) → Took p.payload_length c (read_payload p c).1
unfolding read_payload
read_payload-Took p c = elim (Read-cases (read_full p.payload_length c)) [
  | inl (e, c', r) ↦ rw (read_payload, r) (read_full-short p.payload_length c c' e r)
  | inr (b, c', r) ↦ rw (read_payload, r) (read_full-Took p.payload_length c c' b r)
]

none_taken : (n : ℕ) (c : Conn) → Took n c c
none_taken n c = ([], omega arith, refl, refl)

check_preamble-Took :
    (p : Preamble) (c : Conn) → Took p.payload_length c (check_preamble (ok p) c).1
unfolding check_preamble
check_preamble-Took p c = elim (Bool-cases (equal p.signature protocol_signature)) [
  | inl a ↦ elim (Bool-cases (p.version == protocol_version)) [
    | inl b ↦ rw (a, b) (read_payload-Took p c)
    | inr b ↦ rw (a, b) (none_taken p.payload_length c)
  ]
  | inr a ↦ rw a (none_taken p.payload_length c)
]

pub read_header-Took :
    (c : Conn) → All (λ b. b < 256) c.input → Took (16 + 65535) c (read_header c).1
unfolding read_header
read_header-Took c bytes = elim (Read-cases (read_full 16 c)) [
  | inl (e, c', r) ↦
      rw (read_header, r)
        (Took-mono 16 (16 + 65535) c c' (omega arith) (read_full-short 16 c c' e r))
  | inr (b, c', r) ↦
      let (hb, q, split) = read_full-eq-full 16 c c' r in
      let (s, w, x, y, z, hs, e) = split_preamble_total b hb in
      let small =
        (All-split (λ b. b < 256) b c'.input (subst (All (λ b. b < 256)) split bytes)).0 in
      let tail =
        (All-split (λ b. b < 256) s (w ∷ x ∷ y ∷ z ∷ []) (subst (All (λ b. b < 256)) e small)).1 in
      rw (read_header, r, e, split_preamble_lem s w x y z hs)
        (Took-mono (16 + (y * 256 + z)) (16 + 65535) c _ (omega (arith, tail.1.1.0, tail.1.1.1.0)) (
          Took-trans 16 (y * 256 + z) c c' _ (read_full-Took 16 c c' b r)
            (check_preamble-Took _ c')))
]

-- Whatever bytes arrive, `ReadHeader` does not panic: every index and slice of it is within bounds.
-- Whether it returns a header or an error, it takes at most the 16 bytes in front and the 65535 that
-- a length of 16 bits allows off the connection, from the front, and changes nothing else of it.
pub read_header-takes :
    (c : Conn)
    → All (λ b. b < 256) c.input
    → ((read_header c).0 ≢ panic) × Took (16 + 65535) c (read_header c).1
read_header-takes c bytes = (read_header-ne-panic c, read_header-Took c bytes)
