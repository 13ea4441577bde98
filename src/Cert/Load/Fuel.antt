-- ===== src/Cert/Load/Fuel.antt =====
-- cert/cert.go: the fuel of the loop in `LoadCertificate`.
use go_listener.Common.{
  ℕ, zero, suc, ◌<◌, ◌≡◌, ◌≢◌, refl, ap, ◌∙◌, arith, Bool, true, false, Option, none, some, List,
  [], ◌∷◌, if◌then◌else◌, Outcome, ok, err, panic, ◌>>=◌, length,
}
use go_listener.Common.Text.{Bytes, codes, equal, is_empty}
use go_listener.Cert.Load.Blocks.{file_blocks}
use go_listener.Cert.Load.Format.{load_certificate-IsLoaded}
use go_listener.Cert.Load.Kinds.{HasFormat, IsLoaded-HasFormat}
use go_listener.Cert.Load.{
  Block, LoadError, exhausted, bad_key, Decoders, Certificate, PrivateKey, new_certificate, Kind,
  key, certificate, ocsp, sct, unknown, kind_of, add_kind, add_key, add_ocsp, add_block, finish,
  finish_key, finish_leaf, load_blocks, load_certificate, parse_private_key, restrict,
  make_private_key, from_option,
}

-- `pem.Decode` returns the remainder behind the block that it found.
abbrev pub Shrinks : Decoders → Type 0
Shrinks d =
    (input : Bytes) (b : Block) (rest : Bytes)
    → d.decode input ≡ some (b, rest)
    → length rest < length input

-- An outcome that is neither the model's own error nor a panic.
abbrev Proper : {A : Type 0} → Outcome LoadError A → Type 0
Proper m = (m ≢ err exhausted) × (m ≢ panic)

>>=-Proper :
    {A B : Type 0} (m : Outcome LoadError A) (f : A → Outcome LoadError B)
    → Proper m
    → ((a : A) → Proper (f a))
    → Proper (m >>= f)
>>=-Proper (ok a) f h k = k a
>>=-Proper (err e) f h k = ((λ q. h.0 (cc)), (λ q. cc))
>>=-Proper panic f h k = absurd (h.1 refl)

if-Proper :
    {A : Type 0} (b : Bool) (x y : Outcome LoadError A)
    → Proper x
    → Proper y
    → Proper (if b then x else y)
if-Proper true x y h k = h
if-Proper false x y h k = k

from_option-Proper : {A : Type 0} (o : Option A) → Proper (from_option bad_key o)
from_option-Proper none = ((λ q. cc), (λ q. cc))
from_option-Proper (some a) = ((λ q. cc), (λ q. cc))

module _ (d : Decoders) where
  parse_private_key-Proper : (b : Block) → Proper (parse_private_key d b)
  unfolding parse_private_key
  parse_private_key-Proper b =
      if-Proper (equal b.kind (codes "PRIVATE KEY")) _ _
        (from_option-Proper (d.parse_pkcs8 b.bytes))
        (if-Proper (equal b.kind (codes "RSA PRIVATE KEY")) _ _
          (from_option-Proper (d.parse_pkcs1 b.bytes))
          (if-Proper (equal b.kind (codes "EC PRIVATE KEY")) _ _
            (from_option-Proper (d.parse_ec b.bytes)) ((λ q. cc), (λ q. cc))))

  restrict-Proper : (u : Bytes) (k : d.Key) → Proper (restrict d u k)
  unfolding restrict
  restrict-Proper u k =
      if-Proper (is_empty u) _ _ ((λ q. cc), (λ q. cc))
        (if-Proper (equal u (codes "decrypt")) _ _
          (if-Proper (d.is_decrypter k) _ _ ((λ q. cc), (λ q. cc)) ((λ q. cc), (λ q. cc)))
          (if-Proper (equal u (codes "sign")) _ _
            (if-Proper (d.is_signer k) _ _ ((λ q. cc), (λ q. cc)) ((λ q. cc), (λ q. cc)))
            ((λ q. cc), (λ q. cc))))

  add_key-Proper :
      (p : Option (PrivateKey d.Key)) (b : Block) (c : Certificate d.Key) → Proper (add_key d p b c)
  unfolding add_key make_private_key
  add_key-Proper (some k) b c = ((λ q. cc), (λ q. cc))
  add_key-Proper none b c =
      >>=-Proper (make_private_key d b) _
        (>>=-Proper (parse_private_key d b) _ (parse_private_key-Proper b)
          (restrict-Proper b.usage))
        (λ k. ((λ q. cc), (λ q. cc)))

  add_kind-Proper : (k : Kind) (b : Block) (c : Certificate d.Key) → Proper (add_kind d k b c)
  unfolding add_kind add_ocsp
  add_kind-Proper key b c = add_key-Proper c.private_key b c
  add_kind-Proper certificate b c = ((λ q. cc), (λ q. cc))
  add_kind-Proper ocsp b c = go c.ocsp_staple
    where
      go : (o : Option Bytes) → Proper (add_ocsp d o b c)
      go none = ((λ q. cc), (λ q. cc))
      go (some s) = ((λ q. cc), (λ q. cc))
  add_kind-Proper sct b c = ((λ q. cc), (λ q. cc))
  add_kind-Proper unknown b c = ((λ q. cc), (λ q. cc))

  finish-Proper : (c : Certificate d.Key) → Proper (finish d c)
  unfolding finish finish_key finish_leaf
  finish-Proper c = go c.private_key c.chain
    where
      leafed :
          (o : Option ℕ)
          → Proper (elim o [
            | none ↦ err LoadError.bad_leaf
            | some t ↦ ok (record c { leaf_not_after = some t })
          ])
      leafed none = ((λ q. cc), (λ q. cc))
      leafed (some t) = ((λ q. cc), (λ q. cc))

      chained : (l : List Bytes) → Proper (finish_leaf d l c)
      chained [] = ((λ q. cc), (λ q. cc))
      chained (x ∷ l) = leafed (d.parse_certificate x)

      go : (p : Option (PrivateKey d.Key)) (l : List Bytes) → Proper (finish_key d p c)
      go none l = ((λ q. cc), (λ q. cc))
      go (some k) l = chained c.chain

  load_blocks-Proper :
      Shrinks d
      → (n : ℕ) (input : Bytes) (c : Certificate d.Key) → length input < n
      → Proper (load_blocks d n input c)
  unfolding load_blocks add_block
  load_blocks-Proper s zero input c h = absurd (omega arith)
  load_blocks-Proper s (suc n) input c h = go (d.decode input) refl (load_blocks-Proper s n)
    where
      go :
          (o : Option (Block × Bytes))
          → d.decode input ≡ o
          → ((input : Bytes) (c : Certificate d.Key)
              → length input < n
              → Proper (load_blocks d n input c))
          → Proper (elim o [
            | none ↦ finish d c
            | some (block, rest) ↦ add_block d block c >>= λ c. load_blocks d n rest c
          ])
      go none e next = finish-Proper c
      go (some (b, rest)) e next =
          let l : length rest < length input = s input b rest e in
          >>=-Proper (add_block d b c) _ (add_kind-Proper (kind_of b.kind) b c)
            (λ c'. next rest c' (omega arith))

  pub load_certificate-returns :
      Shrinks d
      → (file : Option Bytes)
      → (load_certificate d file ≢ err exhausted) × (load_certificate d file ≢ panic)
  unfolding load_certificate
  load_certificate-returns s none = ((λ q. cc), (λ q. cc))
  load_certificate-returns s (some input) =
      load_blocks-Proper s (suc (length input)) input (new_certificate d.Key) (omega arith)

  -- The answer for a file with these bytes: a certificate if they have the format, or an error of the code.
  abbrev pub Answered : Bytes → Outcome LoadError (Certificate d.Key) → Type 0
  Answered input (ok r) = HasFormat d (file_blocks d (suc (length input)) input) r
  Answered input (err e) = e ≢ exhausted
  Answered input panic = ⊥

  -- Where `pem.Decode` returns the data behind the block that it found, `LoadCertificate` returns,
  -- whatever the file holds: the fuel of the model never runs out and nothing panics. A file that it
  -- loads has exactly one block PRIVATE KEY, RSA PRIVATE KEY or EC PRIVATE KEY, at most one OCSP
  -- RESPONSE, at least one CERTIFICATE, and beside these only blocks SIGNED CERTIFICATE TIMESTAMP. The
  -- chain and the SCTs are those of the file in its order, and the leaf is the first of the chain.
  pub load_certificate-Answered :
      Shrinks d → (input : Bytes) → Answered input (load_certificate d (some input))
  load_certificate-Answered s input = go (load_certificate d (some input)) refl
    where
      go :
          (r : Outcome LoadError (Certificate d.Key))
          → load_certificate d (some input) ≡ r
          → Answered input r
      go (ok r) e = IsLoaded-HasFormat d _ r (load_certificate-IsLoaded d input r e)
      go (err x) e = λ q. absurd ((load_certificate-returns s (some input)).0 (e ∙ ap err q))
      go panic e = absurd ((load_certificate-returns s (some input)).1 e)
