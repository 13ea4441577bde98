-- ===== src/Cert/Load/Kinds.antt =====
-- cert/cert.go: the types of the blocks that `LoadCertificate` takes, by their names.
use go_listener.Common.{
  ℕ, ◌≤◌, ◌≡◌, refl, ap, sym, ◌∙◌, Bool, true, false, ◌||◌, some, List, [], ◌∷◌, if◌then◌else◌,
  length, All, Bool-cases, inl, inr,
}
use mathlib.Core.Path.{subst}
use go_listener.Common.Text.{Bytes, codes, equal, equal_iff}
use go_listener.Cert.Load.{
  Block, Decoders, Certificate, Kind, key, certificate, ocsp, sct, unknown, kind_of,
}
use go_listener.Cert.Load.Blocks.{bytes_of, same_kind, count}
use go_listener.Cert.Load.Format.{IsLoaded}

abbrev key_types : List Bytes
key_types = codes "PRIVATE KEY" ∷ codes "RSA PRIVATE KEY" ∷ codes "EC PRIVATE KEY" ∷ []

abbrev certificate_types : List Bytes
certificate_types = codes "CERTIFICATE" ∷ []

abbrev ocsp_types : List Bytes
ocsp_types = codes "OCSP RESPONSE" ∷ []

abbrev sct_types : List Bytes
sct_types = codes "SIGNED CERTIFICATE TIMESTAMP" ∷ []

abbrev is_among : Bytes → List Bytes → Bool
is_among k [] = false
is_among k (t ∷ ts) = equal k t || is_among k ts

-- The contents of the blocks of these types, in their order.
abbrev bytes_typed : List Bytes → List Block → List Bytes
bytes_typed ts [] = []
bytes_typed ts (b ∷ bs) =
    if is_among b.kind ts then b.bytes ∷ bytes_typed ts bs else bytes_typed ts bs

abbrev IsKnown : Bytes → Type 0
IsKnown k =
    (is_among k key_types
      || (is_among k certificate_types || (is_among k ocsp_types || is_among k sct_types)))
    ≡ true

abbrev HasKind : Bytes → Type 0
HasKind k =
    (same_kind (kind_of k) key ≡ is_among k key_types)
    × (same_kind (kind_of k) certificate ≡ is_among k certificate_types)
    × (same_kind (kind_of k) ocsp ≡ is_among k ocsp_types)
    × (same_kind (kind_of k) sct ≡ is_among k sct_types)
    × (same_kind (kind_of k) unknown ≡ false → IsKnown k)

of_type : (k t : Bytes) → HasKind t → equal k t ≡ true → HasKind k
of_type k t h e = subst HasKind (sym ((equal_iff k t).0 e)) h

kind_of-HasKind : (k : Bytes) → HasKind k
unfolding kind_of equal
kind_of-HasKind k = elim (Bool-cases (equal k (codes "PRIVATE KEY"))) [
  | inl e ↦ of_type k (codes "PRIVATE KEY") (refl, refl, refl, refl, (λ h. refl)) e
  | inr a ↦ elim (Bool-cases (equal k (codes "RSA PRIVATE KEY"))) [
    | inl e ↦ of_type k (codes "RSA PRIVATE KEY") (refl, refl, refl, refl, (λ h. refl)) e
    | inr b ↦ elim (Bool-cases (equal k (codes "EC PRIVATE KEY"))) [
      | inl e ↦ of_type k (codes "EC PRIVATE KEY") (refl, refl, refl, refl, (λ h. refl)) e
      | inr c ↦ elim (Bool-cases (equal k (codes "CERTIFICATE"))) [
        | inl e ↦ of_type k (codes "CERTIFICATE") (refl, refl, refl, refl, (λ h. refl)) e
        | inr x ↦ elim (Bool-cases (equal k (codes "OCSP RESPONSE"))) [
          | inl e ↦ of_type k (codes "OCSP RESPONSE") (refl, refl, refl, refl, (λ h. refl)) e
          | inr y ↦ elim (Bool-cases (equal k (codes "SIGNED CERTIFICATE TIMESTAMP"))) [
            | inl e ↦
                of_type k (codes "SIGNED CERTIFICATE TIMESTAMP")
                  (refl, refl, refl, refl, (λ h. refl)) e
            | inr z ↦ rw (kind_of, a, b, c, x, y, z) (refl, refl, refl, refl, (λ h. cc))
          ]
        ]
      ]
    ]
  ]
]

typed :
    (k : Kind) (ts : List Bytes)
    → ((b : Block) → same_kind (kind_of b.kind) k ≡ is_among b.kind ts)
    → (bs : List Block) → bytes_of k bs ≡ bytes_typed ts bs
typed k ts h [] = refl
typed k ts h (b ∷ bs) =
    rw (h b) (ap (λ l. if is_among b.kind ts then b.bytes ∷ l else l) (typed k ts h bs))

bytes_of-IsKnown : (bs : List Block) → bytes_of unknown bs ≡ [] → All (λ b. IsKnown b.kind) bs
bytes_of-IsKnown [] h = tt
bytes_of-IsKnown (b ∷ bs) h = elim (Bool-cases (same_kind (kind_of b.kind) unknown)) [
  | inl e ↦
      let q : b.bytes ∷ bytes_of unknown bs ≡ [] =
        subst (λ t. (if t then b.bytes ∷ bytes_of unknown bs else bytes_of unknown bs) ≡ []) e h in
      absurd (cc)
  | inr e ↦
      let q : bytes_of unknown bs ≡ [] =
        subst (λ t. (if t then b.bytes ∷ bytes_of unknown bs else bytes_of unknown bs) ≡ []) e h in
      ((kind_of-HasKind b.kind).4 e, bytes_of-IsKnown bs q)
]

module _ (d : Decoders) where
  -- The file has exactly one private key, in one of three formats, one OCSP response at most, a
  -- certificate at least and beside these only SCTs. The certificate holds all of them, in their
  -- order, and its leaf is the first one.
  abbrev pub HasFormat : List Block → Certificate d.Key → Type 0
  HasFormat bs r =
      (length (bytes_typed key_types bs) ≡ 1)
      × (length (bytes_typed ocsp_types bs) ≤ 1)
      × All (λ b. IsKnown b.kind) bs
      × (r.chain ≡ bytes_typed certificate_types bs)
      × (r.scts ≡ bytes_typed sct_types bs)
      × (count r.ocsp_staple ≡ length (bytes_typed ocsp_types bs))
      × (leaf : Bytes) × (rest : List Bytes) × (t : ℕ) × (r.chain ≡ leaf ∷ rest)
      × (d.parse_certificate leaf ≡ some t)
      × (r.leaf_not_after ≡ some t)

  pub IsLoaded-HasFormat :
      (bs : List Block) (r : Certificate d.Key) → IsLoaded d bs r → HasFormat bs r
  IsLoaded-HasFormat bs r (k, o, u, c, s, n, leaf, rest, t, e, p, q) =
      let keys = typed key key_types (λ b. (kind_of-HasKind b.kind).0) bs in
      let certs = typed certificate certificate_types (λ b. (kind_of-HasKind b.kind).1) bs in
      let responses = typed ocsp ocsp_types (λ b. (kind_of-HasKind b.kind).2) bs in
      let scts = typed sct sct_types (λ b. (kind_of-HasKind b.kind).3) bs in
      (
        ap length (sym keys) ∙ k,
        subst (λ l. length l ≤ 1) responses o,
        bytes_of-IsKnown bs u,
        c ∙ certs,
        s ∙ scts,
        n ∙ ap length responses,
        leaf,
        rest,
        t,
        e,
        p,
        q,
      )
