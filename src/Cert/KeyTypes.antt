-- ===== src/Cert/KeyTypes.antt =====
-- cert/keytype.go: the kinds of keys that a client supports.
use go_listener.Common.{
  ℕ, ◌≡◌, refl, ap, sym, ◌∙◌, arith, Bool, true, false, ◌||◌, Option, none, some, List, [], ◌∷◌,
  if◌then◌else◌, ◌==◌,
}
use go_listener.Cert.Hello.{Hello}

pub record KeyTypes : Type 0 where
  pub rsa : Bool
  pub ecdsa : Bool

-- Membership in the constants of one case of a `switch`.
one_of : ℕ → List ℕ → Bool
one_of x [] = false
one_of x (y ∷ ys) = x == y || one_of x ys

abbrev pub ecdsa_schemes : List ℕ
ecdsa_schemes = 0x0203 ∷ 0x0403 ∷ 0x0503 ∷ 0x0603 ∷ []

abbrev pub rsa_schemes : List ℕ
rsa_schemes = 0x0201 ∷ 0x0401 ∷ 0x0501 ∷ 0x0601 ∷ 0x0804 ∷ 0x0805 ∷ 0x0806 ∷ []

abbrev pub ecdsa_suites : List ℕ
ecdsa_suites = 0xc007 ∷ 0xc009 ∷ 0xc00a ∷ 0xc023 ∷ 0xc02b ∷ 0xc02c ∷ 0xcca9 ∷ []

abbrev pub rsa_suites : List ℕ
rsa_suites =
    0x0005 ∷ 0x000a ∷ 0x002f ∷ 0x0035 ∷ 0x003c ∷ 0x009c ∷ 0x009d ∷ 0xc011 ∷ 0xc012 ∷ 0xc013 ∷ 0xc014
    ∷ 0xc027 ∷ 0xc02f ∷ 0xc030 ∷ 0xcca8 ∷ []

-- The body of either loop, on whether the number is among the constants of either case.
mark : Bool → Bool → KeyTypes → KeyTypes
mark is_ecdsa is_rsa types =
    if is_ecdsa
    then record types { ecdsa = true }
    else if is_rsa
    then record types { rsa = true }
    else types

mark_all : List ℕ → List ℕ → KeyTypes → List ℕ → KeyTypes
unfolding mark one_of
mark_all ecdsa rsa types [] = types
mark_all ecdsa rsa types (x ∷ xs) =
    mark_all ecdsa rsa (mark (one_of x ecdsa) (one_of x rsa) types) xs

abbrev no_types : KeyTypes
no_types = record { rsa = false; ecdsa = false }

-- `keyTypesForSignatureSchemes`
key_types_for_signature_schemes : List ℕ → KeyTypes
unfolding mark_all
key_types_for_signature_schemes schemes = mark_all ecdsa_schemes rsa_schemes no_types schemes

-- `keyTypesForCipherSuites`
key_types_for_cipher_suites : List ℕ → KeyTypes
unfolding mark_all
key_types_for_cipher_suites suites = mark_all ecdsa_suites rsa_suites no_types suites

-- `getSupportedKeyTypes`, on the signature schemes and the cipher suites
supported : Option (List ℕ) → List ℕ → KeyTypes
unfolding key_types_for_signature_schemes key_types_for_cipher_suites
supported (some schemes) suites = key_types_for_signature_schemes schemes
supported none suites = key_types_for_cipher_suites suites

unfoldable pub get_supported_key_types : Hello → KeyTypes
unfolding supported
get_supported_key_types hello = supported hello.signature_schemes hello.cipher_suites

-- Whether a list has one of the constants.
abbrev pub has_one_of : List ℕ → List ℕ → Bool
unfolding one_of
has_one_of consts [] = false
has_one_of consts (x ∷ xs) = one_of x consts || has_one_of consts xs

-- A number is in one case of the `switch` at most.
Apart : List ℕ → List ℕ → Type 0
unfolding one_of
Apart ecdsa rsa = (x : ℕ) → one_of x ecdsa ≡ true → one_of x rsa ≡ false

||-assoc : (a b c : Bool) → ((a || b) || c) ≡ (a || (b || c))
||-assoc true b c = refl
||-assoc false b c = refl

||-true : (a : Bool) → (a || true) ≡ true
||-true true = refl
||-true false = refl

||-false : (a : Bool) → (a || false) ≡ a
||-false true = refl
||-false false = refl

mark-rsa :
    (e r : Bool) (types : KeyTypes)
    → (e ≡ true → r ≡ false)
    → (mark e r types).rsa ≡ (types.rsa || r)
unfolding mark
mark-rsa true r types h = rw (h refl) (sym (||-false types.rsa))
mark-rsa false true types h = sym (||-true types.rsa)
mark-rsa false false types h = sym (||-false types.rsa)

mark-ecdsa : (e r : Bool) (types : KeyTypes) → (mark e r types).ecdsa ≡ (types.ecdsa || e)
unfolding mark
mark-ecdsa true r types = sym (||-true types.ecdsa)
mark-ecdsa false true types = sym (||-false types.ecdsa)
mark-ecdsa false false types = sym (||-false types.ecdsa)

module _ (ecdsa rsa : List ℕ) (apart : Apart ecdsa rsa) where
  mark_all-rsa :
      (types : KeyTypes) (xs : List ℕ)
      → (mark_all ecdsa rsa types xs).rsa ≡ (types.rsa || has_one_of rsa xs)
  unfolding mark_all Apart
  mark_all-rsa types [] = sym (||-false types.rsa)
  mark_all-rsa types (x ∷ xs) =
      mark_all-rsa (mark (one_of x ecdsa) (one_of x rsa) types) xs
      ∙ ap (λ b. b || has_one_of rsa xs) (mark-rsa (one_of x ecdsa) (one_of x rsa) types (apart x))
      ∙ ||-assoc types.rsa (one_of x rsa) (has_one_of rsa xs)

  mark_all-ecdsa :
      (types : KeyTypes) (xs : List ℕ)
      → (mark_all ecdsa rsa types xs).ecdsa ≡ (types.ecdsa || has_one_of ecdsa xs)
  unfolding mark_all
  mark_all-ecdsa types [] = sym (||-false types.ecdsa)
  mark_all-ecdsa types (x ∷ xs) =
      mark_all-ecdsa (mark (one_of x ecdsa) (one_of x rsa) types) xs
      ∙ ap (λ b. b || has_one_of ecdsa xs) (mark-ecdsa (one_of x ecdsa) (one_of x rsa) types)
      ∙ ||-assoc types.ecdsa (one_of x ecdsa) (has_one_of ecdsa xs)

schemes-Apart : Apart ecdsa_schemes rsa_schemes
unfolding Apart one_of
schemes-Apart x h = ground arith

suites-Apart : Apart ecdsa_suites rsa_suites
unfolding Apart one_of
suites-Apart x h = ground arith

-- Whether the numbers that count have a constant of one kind of key: the signature schemes, if the
-- client sends a list of them, and else the cipher suites.
abbrev pub names_one_of : List ℕ → List ℕ → Option (List ℕ) → List ℕ → Bool
names_one_of in_schemes in_suites (some schemes) suites = has_one_of in_schemes schemes
names_one_of in_schemes in_suites none suites = has_one_of in_suites suites

-- A client that sends signature schemes supports a kind of key exactly if one of them is of that
-- kind, and its cipher suites do not count; one that sends none supports a kind exactly if one of
-- its cipher suites is of it. The order does not matter.
pub get_supported_key_types_lem :
    (hello : Hello)
    → ((get_supported_key_types hello).rsa
        ≡ names_one_of rsa_schemes rsa_suites hello.signature_schemes hello.cipher_suites)
      × ((get_supported_key_types hello).ecdsa
          ≡ names_one_of ecdsa_schemes ecdsa_suites hello.signature_schemes hello.cipher_suites)
unfolding get_supported_key_types supported key_types_for_signature_schemes
    key_types_for_cipher_suites
get_supported_key_types_lem hello = go hello.signature_schemes hello.cipher_suites
  where
    go :
        (o : Option (List ℕ)) (suites : List ℕ)
        → ((supported o suites).rsa ≡ names_one_of rsa_schemes rsa_suites o suites)
          × ((supported o suites).ecdsa ≡ names_one_of ecdsa_schemes ecdsa_suites o suites)
    go (some s) suites = (
      mark_all-rsa ecdsa_schemes rsa_schemes schemes-Apart no_types s,
      mark_all-ecdsa ecdsa_schemes rsa_schemes schemes-Apart no_types s,
    )
    go none suites = (
      mark_all-rsa ecdsa_suites rsa_suites suites-Apart no_types suites,
      mark_all-ecdsa ecdsa_suites rsa_suites suites-Apart no_types suites,
    )
