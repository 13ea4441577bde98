-- ===== src/Cert/Load/Blocks.antt =====
-- cert/cert.go: what the blocks of a file add to a certificate.
use go_listener.Common.{
  ℕ, zero, suc, ◌+◌, ◌≡◌, refl, ap, sym, ◌∙◌, arith, Bool, true, false, Option, none, some, List,
  [], ◌∷◌, ◌++◌, if◌then◌else◌, ok, >>=-eq-ok, length, length-append,
}
use mathlib.Core.List.{append-nil, append_assoc}
use go_listener.Common.Text.{Bytes}
use go_listener.Cert.Load.{
  Block, Decoders, Certificate, PrivateKey, Kind, key, certificate, ocsp, sct, unknown, kind_of,
  add_kind, add_key, add_ocsp, make_private_key,
}

-- The contents of the blocks of a kind, in their order.
abbrev pub same_kind : Kind → Kind → Bool
same_kind key key = true
same_kind certificate certificate = true
same_kind ocsp ocsp = true
same_kind sct sct = true
same_kind unknown unknown = true
same_kind _ _ = false

abbrev pub bytes_of : Kind → List Block → List Bytes
bytes_of k [] = []
bytes_of k (b ∷ bs) =
    if same_kind (kind_of b.kind) k then b.bytes ∷ bytes_of k bs else bytes_of k bs

abbrev pub count : {A : Type 0} → Option A → ℕ
count none = 0
count (some _) = 1

module _ (d : Decoders) where
  -- The blocks of the data, one after another.
  abbrev pub file_blocks : ℕ → Bytes → List Block
  file_blocks zero input = []
  file_blocks (suc n) input = elim (d.decode input) [
    | none ↦ []
    | some (b, rest) ↦ b ∷ file_blocks n rest
  ]

  -- What reading blocks makes of a certificate.
  abbrev pub Adds : List Block → Certificate d.Key → Certificate d.Key → Type 0
  Adds bs c c' =
      (c'.chain ≡ c.chain ++ bytes_of certificate bs)
      × (c'.scts ≡ c.scts ++ bytes_of sct bs)
      × (count c'.private_key ≡ count c.private_key + length (bytes_of key bs))
      × (count c'.ocsp_staple ≡ count c.ocsp_staple + length (bytes_of ocsp bs))
      × (bytes_of unknown bs ≡ [])

  -- One block of a kind.
  abbrev pub one : Kind → Kind → Bytes → List Bytes
  one k k' s = if same_kind k k' then s ∷ [] else []

  abbrev AddsOne : Kind → Bytes → Certificate d.Key → Certificate d.Key → Type 0
  AddsOne k s c c' =
      (c'.chain ≡ c.chain ++ one k certificate s)
      × (c'.scts ≡ c.scts ++ one k sct s)
      × (count c'.private_key ≡ count c.private_key + length (one k key s))
      × (count c'.ocsp_staple ≡ count c.ocsp_staple + length (one k ocsp s))
      × (one k unknown s ≡ [])

  add_key-AddsOne :
      (p : Option (PrivateKey d.Key)) (b : Block) (c c' : Certificate d.Key)
      → c.private_key ≡ p
      → add_key d p b c ≡ ok c'
      → AddsOne key b.bytes c c'
  unfolding add_key
  add_key-AddsOne (some k) b c c' e h = cc
  add_key-AddsOne none b c c' e h =
      let (k, m, r) =
        >>=-eq-ok (make_private_key d b) (λ k. ok (record c { private_key = some k })) h in
      let r' : record c { private_key = some k } ≡ c' = cc in
      rw (sym r', e) (sym (append-nil c.chain), sym (append-nil c.scts), refl, omega arith, refl)

  add_ocsp-AddsOne :
      (p : Option Bytes) (b : Block) (c c' : Certificate d.Key)
      → c.ocsp_staple ≡ p
      → add_ocsp d p b c ≡ ok c'
      → AddsOne ocsp b.bytes c c'
  unfolding add_ocsp
  add_ocsp-AddsOne (some k) b c c' e h = cc
  add_ocsp-AddsOne none b c c' e h =
      let r' : record c { ocsp_staple = some b.bytes } ≡ c' = cc in
      rw (sym r', e) (sym (append-nil c.chain), sym (append-nil c.scts), omega arith, refl, refl)

  pub add_kind-AddsOne :
      (k : Kind) (b : Block) (c c' : Certificate d.Key)
      → add_kind d k b c ≡ ok c'
      → AddsOne k b.bytes c c'
  unfolding add_kind
  add_kind-AddsOne key b c c' h = add_key-AddsOne c.private_key b c c' refl h
  add_kind-AddsOne certificate b c c' h =
      let r : record c { chain = c.chain ++ b.bytes ∷ [] } ≡ c' = cc in
      rw (sym r) (refl, sym (append-nil c.scts), omega arith, omega arith, refl)
  add_kind-AddsOne ocsp b c c' h = add_ocsp-AddsOne c.ocsp_staple b c c' refl h
  add_kind-AddsOne sct b c c' h =
      let r : record c { scts = c.scts ++ b.bytes ∷ [] } ≡ c' = cc in
      rw (sym r) (sym (append-nil c.chain), refl, omega arith, omega arith, refl)
  add_kind-AddsOne unknown b c c' h = cc

  if-cons :
      (t : Bool) (s : Bytes) (r : List Bytes)
      → (if t then s ∷ r else r) ≡ (if t then s ∷ [] else []) ++ r
  if-cons true s r = refl
  if-cons false s r = refl

  pub bytes_of-cons :
      (k : Kind) (b : Block) (bs : List Block)
      → bytes_of k (b ∷ bs) ≡ one (kind_of b.kind) k b.bytes ++ bytes_of k bs
  bytes_of-cons k b bs = if-cons (same_kind (kind_of b.kind) k) b.bytes (bytes_of k bs)

  chained :
      (x y z : List Bytes) (k : Kind) (b : Block) (bs : List Block)
      → y ≡ x ++ one (kind_of b.kind) k b.bytes
      → z ≡ y ++ bytes_of k bs
      → z ≡ x ++ bytes_of k (b ∷ bs)
  chained x y z k b bs e f =
      f
      ∙ ap (λ l. l ++ bytes_of k bs) e
      ∙ append_assoc x (one (kind_of b.kind) k b.bytes) (bytes_of k bs)
      ∙ ap (◌++◌ x) (sym (bytes_of-cons k b bs))

  counted :
      (x y z : ℕ) (k : Kind) (b : Block) (bs : List Block)
      → y ≡ x + length (one (kind_of b.kind) k b.bytes)
      → z ≡ y + length (bytes_of k bs)
      → z ≡ x + length (bytes_of k (b ∷ bs))
  counted x y z k b bs e f =
      let q : length (bytes_of k (b ∷ bs))
          ≡ length (one (kind_of b.kind) k b.bytes) + length (bytes_of k bs) =
        ap length (bytes_of-cons k b bs)
        ∙ length-append (one (kind_of b.kind) k b.bytes) (bytes_of k bs) in
      omega (arith, q)

  pub Adds-cons :
      (b : Block) (bs : List Block) (c c' c'' : Certificate d.Key)
      → AddsOne (kind_of b.kind) b.bytes c c'
      → Adds bs c' c''
      → Adds (b ∷ bs) c c''
  Adds-cons b bs c c' c'' (s1, s2, s3, s4, s5) (t1, t2, t3, t4, t5) = (
    chained c.chain c'.chain c''.chain certificate b bs s1 t1,
    chained c.scts c'.scts c''.scts sct b bs s2 t2,
    counted (count c.private_key) (count c'.private_key) (count c''.private_key) key b bs s3 t3,
    counted (count c.ocsp_staple) (count c'.ocsp_staple) (count c''.ocsp_staple) ocsp b bs s4 t4,
    bytes_of-cons unknown b bs ∙ ap (λ l. l ++ bytes_of unknown bs) s5 ∙ t5,
  )
