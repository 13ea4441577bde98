-- ===== src/Proxy/Header/Extended.antt =====
-- proxy/header.go: `ReadHeader` on a connection on which more arrives.
use mathlib.Core.List.{append_assoc}
use go_listener.Common.{
  ℕ, ◌≡◌, refl, ap, sym, ◌∙◌, inl, inr, ◌++◌, ok, err, panic, Bool-cases, ◌==◌,
}
use go_listener.Common.Text.{Bytes, equal}
use go_listener.Net.Conn.{Conn, ReadEnd, full, read_full, Read-cases}
use go_listener.Proxy.Header.{
  Header, Try, Preamble, read_header, read_payload, check_preamble, read_failed, run_command,
  protocol_signature, protocol_version, split_preamble,
}
use go_listener.Proxy.Header.Reads.{read_full-eq-full}
use go_listener.Proxy.Header.Wire.{feed, read_full-feed}

-- A result that is not about the end of what arrived.
abbrev pub IsFinal : Try Header → Type 0
IsFinal (err (read_failed e)) = ⊥
IsFinal _ = Unit

module _ (q : Bytes) (ends : ReadEnd) where
  -- The connection with more behind what it has, and another end.
  abbrev pub extend : Conn → Conn
  extend c = record c { input = c.input ++ q; ends = ends }

  read_full-extend :
      (n : ℕ) (c c' : Conn) (b : Bytes)
      → read_full n c ≡ full b c'
      → read_full n (extend c) ≡ full b (extend c')
  read_full-extend n c c' b r =
      let (l, k, e) = read_full-eq-full n c c' r in
      let behind : extend c ≡ feed b (extend (record c { input = c'.input })) =
        ap (λ i. record c { input = i; ends = ends })
          (ap (λ i. i ++ q) e ∙ append_assoc b c'.input q) in
      ap (read_full n) (behind ∙ ap (λ d. feed b (extend d)) (sym k))
      ∙ read_full-feed n b (extend c') l

  read_payload-extend :
      (p : Preamble) (c : Conn)
      → IsFinal (read_payload p c).0
      → read_payload p (extend c) ≡ ((read_payload p c).0, extend (read_payload p c).1)
  unfolding read_payload run_command
  read_payload-extend p c final = elim (Read-cases (read_full p.payload_length c)) [
    | inl (e, c', r) ↦ absurd (rw (read_payload, r) at final)
    | inr (b, c', r) ↦ rw (read_payload, r, read_full-extend p.payload_length c c' b r) refl
  ]

  check_preamble-extend :
      (p : Try Preamble) (c : Conn)
      → IsFinal (check_preamble p c).0
      → check_preamble p (extend c) ≡ ((check_preamble p c).0, extend (check_preamble p c).1)
  unfolding check_preamble
  check_preamble-extend (err e) c final = refl
  check_preamble-extend panic c final = refl
  check_preamble-extend (ok p) c final = elim (Bool-cases (equal p.signature protocol_signature)) [
    | inl a ↦ elim (Bool-cases (p.version == protocol_version)) [
      | inl b ↦ rw (a, b) (read_payload-extend p c (rw (a, b) at final))
      | inr b ↦ rw (a, b) refl
    ]
    | inr a ↦ rw a refl
  ]

  -- Where what arrived decides, what arrives later changes nothing, and is left behind it.
  pub read_header-extend :
      (c : Conn)
      → IsFinal (read_header c).0
      → read_header (extend c) ≡ ((read_header c).0, extend (read_header c).1)
  unfolding read_header
  read_header-extend c final = elim (Read-cases (read_full 16 c)) [
    | inl (e, c', r) ↦ absurd (rw (read_header, r) at final)
    | inr (b, c', r) ↦
        rw (read_header, r, read_full-extend 16 c c' b r)
          (check_preamble-extend (split_preamble b) c' (rw (read_header, r) at final))
  ]
