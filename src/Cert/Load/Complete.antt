-- ===== src/Cert/Load/Complete.antt =====
-- cert/cert.go: the files that `LoadCertificate` loads.
use go_listener.Common.{
  ℕ, zero, suc, ◌+◌, ◌<◌, ◌≤◌, ◌≡◌, refl, ap, sym, ◌∙◌, arith, Option, none, some, List, [], ◌∷◌,
  ◌++◌, Outcome, ok, ◌>>=◌, length, length-append, All,
}
use mathlib.Core.List.{append-nil}
use go_listener.Common.Text.{Bytes}
use go_listener.Cert.Load.{
  Block, LoadError, Decoders, Certificate, PrivateKey, new_certificate, Kind, key, certificate,
  ocsp, sct, unknown, kind_of, add_kind, add_key, add_ocsp, add_block, finish, finish_key,
  finish_leaf, load_blocks, load_certificate, make_private_key,
}
use go_listener.Cert.Load.Blocks.{
  bytes_of, count, file_blocks, one, Adds, add_kind-AddsOne, bytes_of-cons, Adds-cons,
}
use go_listener.Cert.Load.Fuel.{Shrinks}

module _ (d : Decoders) where
  -- The key in a block of a private key can be made.
  abbrev MakesKey : Kind → Block → Type 0
  MakesKey key b = (k : PrivateKey d.Key) × (make_private_key d b ≡ ok k)
  MakesKey _ b = Unit

  -- These blocks fit behind what the certificate has already.
  abbrev Fits : List Block → Certificate d.Key → Type 0
  Fits bs c =
      (count c.private_key + length (bytes_of key bs) ≤ 1)
      × (count c.ocsp_staple + length (bytes_of ocsp bs) ≤ 1)
      × (bytes_of unknown bs ≡ [])
      × All (λ b. MakesKey (kind_of b.kind) b) bs

  add_key-ok :
      (p : Option (PrivateKey d.Key)) (b : Block) (c : Certificate d.Key)
      → MakesKey key b
      → count p + 1 ≤ 1
      → (c' : Certificate d.Key) × (add_key d p b c ≡ ok c')
  unfolding add_key
  add_key-ok (some k) b c m h = absurd (omega arith)
  add_key-ok none b c (k, e) h = (record c { private_key = some k }, rw e refl)

  add_ocsp-ok :
      (p : Option Bytes) (b : Block) (c : Certificate d.Key)
      → count p + 1 ≤ 1
      → (c' : Certificate d.Key) × (add_ocsp d p b c ≡ ok c')
  unfolding add_ocsp
  add_ocsp-ok (some k) b c h = absurd (omega arith)
  add_ocsp-ok none b c h = (_, refl)

  add_kind-ok :
      (k : Kind) (b : Block) (c : Certificate d.Key)
      → MakesKey k b
      → count c.private_key + length (one d k key b.bytes) ≤ 1
      → count c.ocsp_staple + length (one d k ocsp b.bytes) ≤ 1
      → one d k unknown b.bytes ≡ []
      → (c' : Certificate d.Key) × (add_kind d k b c ≡ ok c')
  unfolding add_kind
  add_kind-ok key b c m h i u = add_key-ok c.private_key b c m h
  add_kind-ok certificate b c m h i u = (_, refl)
  add_kind-ok ocsp b c m h i u = add_ocsp-ok c.ocsp_staple b c i
  add_kind-ok sct b c m h i u = (_, refl)
  add_kind-ok unknown b c m h i u = cc

  nil-append : (xs ys : List Bytes) → xs ++ ys ≡ [] → (xs ≡ []) × (ys ≡ [])
  nil-append [] ys h = (refl, h)
  nil-append (x ∷ xs) ys h = cc

  Fits-cons :
      (b : Block) (bs : List Block) (c : Certificate d.Key)
      → Fits (b ∷ bs) c
      → (c' : Certificate d.Key) × (add_block d b c ≡ ok c') × Fits bs c'
  unfolding add_block
  Fits-cons b bs c (h, i, u, m) =
      let k : Kind = kind_of b.kind in
      let eh : length (bytes_of key (b ∷ bs))
          ≡ length (one d k key b.bytes) + length (bytes_of key bs) =
        ap length (bytes_of-cons d key b bs)
        ∙ length-append (one d k key b.bytes) (bytes_of key bs) in
      let ei : length (bytes_of ocsp (b ∷ bs))
          ≡ length (one d k ocsp b.bytes) + length (bytes_of ocsp bs) =
        ap length (bytes_of-cons d ocsp b bs)
        ∙ length-append (one d k ocsp b.bytes) (bytes_of ocsp bs) in
      let (u1, u2) =
        nil-append (one d k unknown b.bytes) (bytes_of unknown bs)
          (sym (bytes_of-cons d unknown b bs) ∙ u) in
      let (c', e) = add_kind-ok k b c m.0 (omega (arith, h, eh)) (omega (arith, i, ei)) u1 in
      let (a1, a2, a3, a4, a5) = add_kind-AddsOne d k b c c' e in
      (c', e, (omega (arith, h, eh, a3), omega (arith, i, ei, a4), u2, m.1))

  load_blocks-Fits :
      Shrinks d
      → (n : ℕ) (input : Bytes) (c : Certificate d.Key) → length input < n
      → Fits (file_blocks d n input) c
      → (c' : Certificate d.Key) × Adds d (file_blocks d n input) c c'
        × (load_blocks d n input c ≡ finish d c')
  unfolding load_blocks add_block
  load_blocks-Fits s zero input c l f = absurd (omega arith)
  load_blocks-Fits s (suc n) input c l f = go (d.decode input) refl f (load_blocks-Fits s n)
    where
      go :
          (o : Option (Block × Bytes))
          → d.decode input ≡ o
          → Fits (elim o [ none ↦ [] | some (b, rest) ↦ b ∷ file_blocks d n rest ]) c
          → ((input : Bytes) (c : Certificate d.Key)
              → length input < n
              → Fits (file_blocks d n input) c
              → (c' : Certificate d.Key) × Adds d (file_blocks d n input) c c'
                × (load_blocks d n input c ≡ finish d c'))
          → (c' : Certificate d.Key) × Adds d
              (elim o [ none ↦ [] | some (b, rest) ↦ b ∷ file_blocks d n rest ])
              c
              c'
            × Path
                (Outcome LoadError (Certificate d.Key))
                (elim o [
                  | none ↦ finish d c
                  | some (block, rest) ↦ add_block d block c >>= λ c. load_blocks d n rest c
                ])
                (finish d c')
      go none e f next = (
        c,
        (sym (append-nil c.chain), sym (append-nil c.scts), omega arith, omega arith, refl),
        refl,
      )
      go (some (b, rest)) e f next =
          let shorter : length rest < length input = s input b rest e in
          let (c1, q, f1) = Fits-cons b (file_blocks d n rest) c f in
          let (c', a, r) = next rest c1 (omega arith) f1 in
          (
            c',
            Adds-cons d b (file_blocks d n rest) c c1 c'
                (add_kind-AddsOne d (kind_of b.kind) b c c1 q) a,
            ap (λ o. o >>= λ c. load_blocks d n rest c) q ∙ r,
          )

  finish_leaf-ok :
      (c : Certificate d.Key) (leaf : Bytes) (rest : List Bytes) (t : ℕ)
      → d.parse_certificate leaf ≡ some t
      → finish_leaf d (leaf ∷ rest) c ≡ ok (record c { leaf_not_after = some t })
  unfolding finish_leaf
  finish_leaf-ok c leaf rest t q = rw (finish_leaf, q) refl

  finish-ok :
      (p : Option (PrivateKey d.Key)) (chain : List Bytes) (c : Certificate d.Key) (leaf : Bytes)
      (rest : List Bytes) (t : ℕ)
      → c.private_key ≡ p
      → c.chain ≡ chain
      → count p ≡ 1
      → chain ≡ leaf ∷ rest
      → d.parse_certificate leaf ≡ some t
      → finish_key d c.private_key c ≡ ok (record c { leaf_not_after = some t })
  unfolding finish_key
  finish-ok none chain c leaf rest t e f h g q = absurd (omega arith)
  finish-ok (some k) chain c leaf rest t e f h g q =
      ap (λ p. finish_key d p c) e
      ∙ (ap (λ l. finish_leaf d l c) (f ∙ g) ∙ finish_leaf-ok c leaf rest t q)

  -- A file in the documented format loads, where `pem.Decode` returns the data behind the block that it
  -- found: with exactly one private key, at most one OCSP response, no unrecognized block and at least
  -- one certificate, if the key can be made for its usage and the first certificate can be parsed. The
  -- chain is the certificates of the file.
  pub load_certificate-eq-ok :
      Shrinks d
      → (input : Bytes) (leaf : Bytes) (rest : List Bytes) (t : ℕ)
      → length (bytes_of key (file_blocks d (suc (length input)) input)) ≡ 1
      → length (bytes_of ocsp (file_blocks d (suc (length input)) input)) ≤ 1
      → bytes_of unknown (file_blocks d (suc (length input)) input) ≡ []
      → bytes_of certificate (file_blocks d (suc (length input)) input) ≡ leaf ∷ rest
      → d.parse_certificate leaf ≡ some t
      → All (λ b. MakesKey (kind_of b.kind) b) (file_blocks d (suc (length input)) input)
      → (r : Certificate d.Key) × (load_certificate d (some input) ≡ ok r)
        × (r.chain ≡ leaf ∷ rest)
        × (r.leaf_not_after ≡ some t)
  unfolding load_certificate finish
  load_certificate-eq-ok s input leaf rest t hk ho hu hc hp hm =
      let (c, (a1, a2, a3, a4, a5), e) =
        load_blocks-Fits s (suc (length input)) input (new_certificate d.Key) (omega arith)
          (omega (arith, hk), omega (arith, ho), hu, hm) in
      (
        record c { leaf_not_after = some t },
        e
            ∙ finish-ok c.private_key c.chain c leaf rest t refl refl (omega (arith, a3, hk))
                (a1 ∙ hc) hp,
        a1 ∙ hc,
        refl,
      )
