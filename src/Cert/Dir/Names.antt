-- ===== src/Cert/Dir/Names.antt =====
-- cert/dir.go: the names of the files that are tried, and their order.
use go_listener.Common.{
  ℕ, suc, ◌≡◌, ◌≢◌, refl, ap, sym, ◌∙◌, ◌==◌, arith, Bool, true, false, ◌||◌, Option, none, some,
  List, [], ◌∷◌, ◌++◌, if◌then◌else◌, drop, Outcome, ok, err, All, All-append, Bool-cases, inl, inr,
  ◌⊎◌,
}
use mathlib.Core.Option
use go_listener.Common.Text.{Bytes, codes, contains, starts_with, index_byte}
use go_listener.Cert.Hello.{Hello}
use go_listener.Cert.KeyTypes.{KeyTypes, get_supported_key_types}
use go_listener.Cert.Dir.{
  DirError, no_sni, invalid_name, not_found, suffix, Load, then_else, try, try_both, search,
  get_named, get_certificate,
}

-- What follows the first label in WILDCARD_NAME, in which a `_` stands for the label.
abbrev after_label : Bytes → Bytes
after_label [] = []
after_label (c ∷ s) = if c == b'.' then c ∷ s else after_label s

suffix-eq-after_label : (s : Bytes) → suffix s ≡ after_label s
unfolding suffix index_byte
suffix-eq-after_label [] = refl
suffix-eq-after_label (c ∷ s) = elim (Bool-cases (c == b'.')) [
  | inl e ↦ rw (suffix, index_byte, e) refl
  | inr e ↦ rw (suffix, index_byte, e) (go (index_byte s b'.') ∙ suffix-eq-after_label s)
]
  where
    go :
        (o : Option ℕ)
        → elim (Option.map suc o) [ some dot ↦ drop dot (c ∷ s) | none ↦ [] ]
          ≡ elim o [ some dot ↦ drop dot s | none ↦ [] ]
    go none = refl
    go (some n) = refl

-- The documented order: SERVER_NAME and then WILDCARD_NAME, with the ending for ECDSA, for RSA and for
-- either.
abbrev pub names_with : Bytes → Bytes → List Bytes
names_with server_name ending =
    (server_name ++ ending) ∷ (b'_' ∷ after_label server_name ++ ending) ∷ []

abbrev pub candidates : Bytes → KeyTypes → List Bytes
candidates server_name types =
    (if types.ecdsa then names_with server_name (codes ".pem.ecdsa") else [])
    ++ ((if types.rsa then names_with server_name (codes ".pem.rsa") else [])
        ++ names_with server_name (codes ".pem"))

module _ {S Cert : Type 0} (load : Load S Cert) where
  -- The first of these files that loads, and the error if there is none.
  abbrev pub next_of : (S → Outcome DirError Cert × S) → Option Cert × S → Outcome DirError Cert × S
  next_of next (some cert, s) = (ok cert, s)
  next_of next (none, s) = next s

  abbrev pub first_of : DirError → List Bytes → S → Outcome DirError Cert × S
  first_of e [] s = (err e, s)
  first_of e (f ∷ fs) s = next_of (first_of e fs) (load f s)

  then_else_lem :
      (r : Option Cert × S) (next : S → Outcome DirError Cert × S)
      → then_else load r next ≡ next_of next r
  unfolding then_else
  then_else_lem (some cert, s) next = refl
  then_else_lem (none, s) next = refl

  try_both_lem :
      (name ending : Bytes) (next : S → Outcome DirError Cert × S) (e : DirError) (fs : List Bytes)
      → ((s : S) → next s ≡ first_of e fs s)
      → (s : S) → try_both load name ending next s ≡ first_of e (names_with name ending ++ fs) s
  unfolding try_both try
  try_both_lem name ending next e fs h s = rw (sym (suffix-eq-after_label name)) (
      then_else_lem (load (name ++ ending) s) _
      ∙ ap (λ k. next_of k (load (name ++ ending) s))
          (λ i s'.
            (then_else_lem (load (b'_' ∷ suffix name ++ ending) s') next
                ∙ ap (λ k. next_of k (load (b'_' ∷ suffix name ++ ending) s')) (λ j s''. h s'' j))
              i))

  search-rsa :
      (name : Bytes) (b : Bool) (s : S)
      → (if b
            then try_both load name
                (codes ".pem.rsa")
                (try_both load name (codes ".pem") (λ s. (err (not_found name), s)))
            else try_both load name (codes ".pem") (λ s. (err (not_found name), s)))
          s
        ≡ first_of
            (not_found name)
            ((if b then names_with name (codes ".pem.rsa") else [])
              ++ names_with name (codes ".pem"))
            s
  search-rsa name true =
      try_both_lem name (codes ".pem.rsa") _ (not_found name) (names_with name (codes ".pem"))
        (try_both_lem name (codes ".pem") _ (not_found name) [] (λ s. refl))
  search-rsa name false = try_both_lem name (codes ".pem") _ (not_found name) [] (λ s. refl)

  search-eq-first_of :
      (name : Bytes) (types : KeyTypes) (s : S)
      → search load name types s ≡ first_of (not_found name) (candidates name types) s
  unfolding search
  search-eq-first_of name types = go types.ecdsa
    where
      rsa : S → Outcome DirError Cert × S
      rsa =
          if types.rsa
          then try_both load name (codes ".pem.rsa")
              (try_both load name (codes ".pem") (λ s. (err (not_found name), s)))
          else try_both load name (codes ".pem") (λ s. (err (not_found name), s))

      rest : List Bytes
      rest =
          (if types.rsa then names_with name (codes ".pem.rsa") else [])
          ++ names_with name (codes ".pem")

      go :
          (b : Bool) (s : S)
          → (if b then try_both load name (codes ".pem.ecdsa") rsa else rsa) s
            ≡ first_of
                (not_found name)
                ((if b then names_with name (codes ".pem.ecdsa") else []) ++ rest)
                s
      go true =
          try_both_lem name (codes ".pem.ecdsa") rsa (not_found name) rest
            (search-rsa name types.rsa)
      go false = search-rsa name types.rsa

-- The name of an entry of the directory itself: no path into another one, and not hidden.
abbrev pub IsEntry : Bytes → Type 0
IsEntry f = (contains f b'/' ≡ false) × (starts_with f b'.' ≡ false) × (f ≢ [])

contains-append :
    (a b : Bytes) (c : ℕ)
    → contains a c ≡ false
    → contains b c ≡ false
    → contains (a ++ b) c ≡ false
unfolding contains
contains-append [] b c h k = k
contains-append (x ∷ a) b c h k = ground (arith, contains-append a b c)

after_label-contains : (s : Bytes) → contains s b'/' ≡ false → contains (after_label s) b'/' ≡ false
unfolding contains
after_label-contains [] h = h
after_label-contains (x ∷ s) h = elim (Bool-cases (x == b'.')) [
  | inl e ↦ rw (after_label, e) h
  | inr e ↦ rw (after_label, e) (after_label-contains s (ground arith))
]

All-if :
    {A : Type 0} (P : A → Type 0)
    → (b : Bool) (xs : List A) → All P xs
    → All P (if b then xs else [])
All-if P true xs a = a
All-if P false xs a = tt

neither : (a b : Bool) → (a || b) ≡ false → (a ≡ false) × (b ≡ false)
neither true b h = cc
neither false b h = (refl, h)

-- A server name that passes the checks.
module _ (c : ℕ) (s : Bytes) (h : contains (c ∷ s) b'/' ≡ false)
    (k : starts_with (c ∷ s) b'.' ≡ false) where
  name-IsEntry : (ending : Bytes) → contains ending b'/' ≡ false → IsEntry ((c ∷ s) ++ ending)
  unfolding starts_with
  name-IsEntry ending q = (contains-append (c ∷ s) ending b'/' h q, k, λ n. cc)

  wildcard-IsEntry :
      (ending : Bytes)
      → contains ending b'/' ≡ false
      → IsEntry (b'_' ∷ after_label (c ∷ s) ++ ending)
  unfolding contains starts_with
  wildcard-IsEntry ending q = (
    contains-append (after_label (c ∷ s)) ending b'/' (after_label-contains (c ∷ s) h) q,
    refl,
    λ n. cc,
  )

  names_with-IsEntry :
      (ending : Bytes) → contains ending b'/' ≡ false → All IsEntry (names_with (c ∷ s) ending)
  names_with-IsEntry ending q = (name-IsEntry ending q, (wildcard-IsEntry ending q, tt))

  candidates-IsEntry : (types : KeyTypes) → All IsEntry (candidates (c ∷ s) types)
  unfolding contains
  candidates-IsEntry types =
      All-append IsEntry _ _
        (All-if IsEntry types.ecdsa _ (names_with-IsEntry (codes ".pem.ecdsa") refl))
        (All-append IsEntry _ _
          (All-if IsEntry types.rsa _ (names_with-IsEntry (codes ".pem.rsa") refl))
          (names_with-IsEntry (codes ".pem") refl))

-- For a server name without a slash that is neither empty nor begins with a dot, `GetCertificate`
-- returns the first certificate that loads in the documented order, or the error that none was
-- found, and every file that it tries is an entry of the directory itself. For an empty name and for
-- any other it returns the error of that and tries no file.
pub get_certificate-eq-first_of :
    {S Cert : Type 0}
    → (load : Load S Cert) (hello : Hello) (s : S)
    → ((hello.server_name ≡ []) × (get_certificate load hello s ≡ (err no_sni, s)))
      ⊎ ((((starts_with hello.server_name b'.' || contains hello.server_name b'/') ≡ true)
            × (get_certificate load hello s ≡ (err invalid_name, s)))
          ⊎ (All IsEntry (candidates hello.server_name (get_supported_key_types hello))
              × (get_certificate load hello s
                  ≡ first_of load
                      (not_found hello.server_name)
                      (candidates hello.server_name (get_supported_key_types hello))
                      s)))
unfolding get_certificate get_named
get_certificate-eq-first_of load hello s = go hello.server_name
  where
    types : KeyTypes
    types = get_supported_key_types hello

    go :
        (name : Bytes)
        → ((name ≡ []) × (get_named load name types s ≡ (err no_sni, s)))
          ⊎ ((((starts_with name b'.' || contains name b'/') ≡ true)
                × (get_named load name types s ≡ (err invalid_name, s)))
              ⊎ (All IsEntry (candidates name types)
                  × (get_named load name types s
                      ≡ first_of load (not_found name) (candidates name types) s)))
    go [] = inl (refl, refl)
    go (c ∷ n) = elim (Bool-cases (starts_with (c ∷ n) b'.' || contains (c ∷ n) b'/')) [
      | inl e ↦ inr (inl (e, rw (get_named, e) refl))
      | inr e ↦
          let (k, h) = neither (starts_with (c ∷ n) b'.') (contains (c ∷ n) b'/') e in
          inr (
            inr (
              candidates-IsEntry c n h k types,
              rw (get_named, e) (search-eq-first_of load (c ∷ n) types s),
            ))
    ]
