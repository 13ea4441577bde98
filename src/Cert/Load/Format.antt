-- ===== src/Cert/Load/Format.antt =====
-- cert/cert.go: what the blocks of a file are that `LoadCertificate` loads, and the certificate of it.
use go_listener.Common.{
  ℕ, zero, suc, ◌≤◌, ◌≡◌, refl, ap, sym, arith, Option, none, some, List, [], ◌∷◌, Outcome, ok, err,
  ◌>>=◌, >>=-eq-ok, length,
}
use mathlib.Core.List.{append-nil}
use go_listener.Common.Text.{Bytes}
use go_listener.Cert.Load.{
  Block, LoadError, Decoders, Certificate, PrivateKey, new_certificate, key, certificate, ocsp, sct,
  unknown, kind_of, add_block, finish, finish_key, finish_leaf, load_blocks, load_certificate,
}
use go_listener.Cert.Load.Blocks.{bytes_of, count, file_blocks, Adds, add_kind-AddsOne, Adds-cons}

module _ (d : Decoders) where
  -- What the whole loop returns: a certificate that the blocks added up to, and then the leaf.
  load_blocks-Adds :
      (n : ℕ) (input : Bytes) (c r : Certificate d.Key)
      → load_blocks d n input c ≡ ok r
      → (c' : Certificate d.Key) × Adds d (file_blocks d n input) c c' × (finish d c' ≡ ok r)
  unfolding load_blocks add_block
  load_blocks-Adds zero input c r h = cc
  load_blocks-Adds (suc n) input c r h = go (d.decode input) h (load_blocks-Adds n)
    where
      go :
          (o : Option (Block × Bytes))
          → Path
              (Outcome LoadError (Certificate d.Key))
              (elim o [
                | none ↦ finish d c
                | some (block, rest) ↦ add_block d block c >>= λ c. load_blocks d n rest c
              ])
              (ok r)
          → ((input : Bytes) (c r : Certificate d.Key)
              → load_blocks d n input c ≡ ok r
              → (c' : Certificate d.Key) × Adds d (file_blocks d n input) c c'
                × (finish d c' ≡ ok r))
          → (c' : Certificate d.Key) × Adds d
              (elim o [ none ↦ [] | some (b, rest) ↦ b ∷ file_blocks d n rest ])
              c
              c'
            × (finish d c' ≡ ok r)
      go none h next = (
        c,
        (sym (append-nil c.chain), sym (append-nil c.scts), omega arith, omega arith, refl),
        h,
      )
      go (some (b, rest)) h next =
          let (c1, e, h') = >>=-eq-ok (add_block d b c) (λ c. load_blocks d n rest c) h in
          let (c', a, f) = next rest c1 r h' in
          (
            c',
            Adds-cons d b (file_blocks d n rest) c c1 c'
                (add_kind-AddsOne d (kind_of b.kind) b c c1 e) a,
            f,
          )

  -- The certificate that comes of `c`, with its leaf.
  abbrev Finished : Certificate d.Key → Certificate d.Key → Type 0
  Finished c r =
      (count c.private_key ≡ 1)
      × (leaf : Bytes) × (rest : List Bytes) × (t : ℕ) × (c.chain ≡ leaf ∷ rest)
      × (d.parse_certificate leaf ≡ some t)
      × (r ≡ record c { leaf_not_after = some t })

  finish_leaf-Finished :
      (chain : List Bytes) (c r : Certificate d.Key)
      → finish_leaf d chain c ≡ ok r
      → (leaf : Bytes) × (rest : List Bytes) × (t : ℕ) × (chain ≡ leaf ∷ rest)
        × (d.parse_certificate leaf ≡ some t)
        × (r ≡ record c { leaf_not_after = some t })
  unfolding finish_leaf
  finish_leaf-Finished [] c r h = cc
  finish_leaf-Finished (leaf ∷ rest) c r h = go (d.parse_certificate leaf) refl h
    where
      go :
          (o : Option ℕ)
          → d.parse_certificate leaf ≡ o
          → Path
              (Outcome LoadError (Certificate d.Key))
              (elim o [
                | none ↦ err LoadError.bad_leaf
                | some t ↦ ok (record c { leaf_not_after = some t })
              ])
              (ok r)
          → (leaf' : Bytes) × (rest' : List Bytes) × (t : ℕ) × (leaf ∷ rest ≡ leaf' ∷ rest')
            × (d.parse_certificate leaf' ≡ some t)
            × (r ≡ record c { leaf_not_after = some t })
      go none e h = cc
      go (some t) e h = (leaf, rest, t, refl, e, cc)

  finish-Finished :
      (p : Option (PrivateKey d.Key)) (c r : Certificate d.Key)
      → c.private_key ≡ p
      → finish_key d p c ≡ ok r
      → Finished c r
  unfolding finish_key
  finish-Finished none c r e h = cc
  finish-Finished (some k) c r e h =
      let (leaf, rest, t, s, p, q) = finish_leaf-Finished c.chain c r h in
      (ap count e, leaf, rest, t, s, p, q)

  count_le : {A : Type 0} (o : Option A) → count o ≤ 1
  count_le none = omega arith
  count_le (some a) = omega arith

  -- The file has exactly one private key, one OCSP response at most, a certificate at least and no
  -- unrecognized block. The certificate holds all of them, in their order,
  -- and its leaf is the first one.
  abbrev pub IsLoaded : List Block → Certificate d.Key → Type 0
  IsLoaded bs r =
      (length (bytes_of key bs) ≡ 1)
      × (length (bytes_of ocsp bs) ≤ 1)
      × (bytes_of unknown bs ≡ [])
      × (r.chain ≡ bytes_of certificate bs)
      × (r.scts ≡ bytes_of sct bs)
      × (count r.ocsp_staple ≡ length (bytes_of ocsp bs))
      × (leaf : Bytes) × (rest : List Bytes) × (t : ℕ) × (r.chain ≡ leaf ∷ rest)
      × (d.parse_certificate leaf ≡ some t)
      × (r.leaf_not_after ≡ some t)

  pub load_certificate-IsLoaded :
      (input : Bytes) (r : Certificate d.Key)
      → load_certificate d (some input) ≡ ok r
      → IsLoaded (file_blocks d (suc (length input)) input) r
  unfolding load_certificate finish
  load_certificate-IsLoaded input r h =
      let (c, (a1, a2, a3, a4, a5), f) =
        load_blocks-Adds (suc (length input)) input (new_certificate d.Key) r h in
      let (k, leaf, rest, t, e, p, q) = finish-Finished c.private_key c r refl f in
      rw q (
        omega (arith, a3, k),
        omega (arith, a4, count_le c.ocsp_staple),
        a5,
        a1,
        a2,
        omega (arith, a4),
        leaf,
        rest,
        t,
        e,
        p,
        refl,
      )
