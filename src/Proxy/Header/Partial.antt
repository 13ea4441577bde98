-- ===== src/Proxy/Header/Partial.antt =====
-- proxy/header.go: `ReadHeader` on a part of a header.
use go_listener.Common.{
  ℕ, ◌+◌, ◌<◌, ◌≤◌, ◌≡◌, refl, ap, ◌∙◌, ◌⊎◌, inl, inr, arith, [], ◌∷◌, ◌++◌, length, length-append,
  err,
}
use go_listener.Common.Text.{Bytes, equal}
use go_listener.Net.{be_bytes}
use go_listener.Net.Conn.{Conn, ReadEnd, ReadError, short, read_full}
use go_listener.Proxy.Header.{
  read_header, check_preamble, read_payload, read_failed, protocol_signature,
}
use go_listener.Proxy.Header.Wire.{wire, feed, read_full-feed, split_preamble-wire}

-- Of two ways to divide a list, the one with the shorter front divides the front of the other.
divide :
    (a b p q : Bytes)
    → p ++ q ≡ a ++ b
    → length a ≤ length p
    → (r : Bytes) × (p ≡ a ++ r) × (r ++ q ≡ b)
divide [] b p q e h = (p, refl, e)
divide (x ∷ a) b [] q e h = absurd (omega arith)
divide (x ∷ a) b (y ∷ p) q e h = let (r, f, g) = divide a b p q (cc) (omega arith) in (r, cc, g)

read_full-failed :
    (n e : ℕ) (c : Conn)
    → length c.input < n
    → c.ends ≡ ReadEnd.failed e
    → read_full n c ≡ short (ReadError.failed e) (record c { input = [] })
unfolding read_full
read_full-failed n e c h q = ground arith

front : ℕ → ℕ → Bytes → Bytes
front command family payload =
    protocol_signature ++ (32 + command) ∷ family ∷ be_bytes (length payload)

-- The connection fails within the payload.
payload-partial :
    (command family e : ℕ) (payload : Bytes) (d : Conn)
    → command < 16
    → length d.input < length payload
    → d.ends ≡ ReadEnd.failed e
    → (read_header (feed (front command family payload) d)).0
      ≡ err (read_failed (ReadError.failed e))
unfolding read_header check_preamble read_payload equal front
payload-partial command family e payload d small h failed =
    rw (read_header, read_full-feed 16 (front command family payload) d refl)
      (rw (split_preamble-wire command family (length payload) small)
        (rw (read_payload, read_full-failed (length payload) e d h failed) refl))

-- A connection that fails before a header has arrived whole fails `ReadHeader` with the same error.
pub read_header-partial :
    (command family e : ℕ) (payload q : Bytes) (c : Conn)
    → command < 16
    → c.input ++ q ≡ wire command family payload
    → length c.input < length (wire command family payload)
    → c.ends ≡ ReadEnd.failed e
    → (read_header c).0 ≡ err (read_failed (ReadError.failed e))
unfolding read_header front
read_header-partial command family e payload q c small split h failed =
    elim (short_or_long (length c.input)) [
      | inl l ↦ rw (read_header, read_full-failed 16 e c l failed) refl
      | inr l ↦
          let (r, f, g) = divide (front command family payload) payload c.input q split l in
          let d : Conn = record c { input = r } in
          let whole : c ≡ feed (front command family payload) d =
            ap (λ i. record c { input = i }) f in
          let less : length r < length payload =
            omega (arith, ap length f, length-append (front command family payload) r) in
          ap (λ c. (read_header c).0) whole
          ∙ payload-partial command family e payload d small less failed
    ]
  where
    short_or_long : (n : ℕ) → (n < 16) ⊎ (16 ≤ n)
    short_or_long n = omega arith
