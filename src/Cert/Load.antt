-- ===== src/Cert/Load.antt =====
-- cert/cert.go: `LoadCertificate`. The decoders of `encoding/pem` and `crypto/x509` are parameters.
pub mod Blocks
pub mod Format
pub mod Kinds
pub mod Fuel
pub mod Complete
use go_listener.Common.{
  ℕ, zero, suc, Bool, true, false, ◌||◌, Option, none, some, List, [], ◌∷◌, ◌++◌, if◌then◌else◌,
  Outcome, ok, err, panic, ◌>>=◌, length,
}
use go_listener.Common.Text.{Bytes, codes, equal, is_empty}

-- `pem.Block`: its header `Usage` (empty if absent) is the only one that is read.
pub record Block : Type 0 where
  pub kind : Bytes
  pub usage : Bytes
  pub bytes : Bytes

pub data LoadError : Type 0 where
  no_file two_keys two_ocsp no_key no_certificates bad_leaf : LoadError
  bad_key no_decryption no_signing : LoadError
  bad_usage : Bytes → LoadError
  bad_block : Bytes → LoadError
  exhausted : LoadError  -- the model's own: the fuel ran out

-- What the package uses of the decoders. A certificate is known by the end of its validity.
pub record Decoders : Type 1 where
  pub Key : Type 0
  pub decode : Bytes → Option (Block × Bytes)  -- `pem.Decode`, with `none` for a nil block
  pub parse_pkcs8 : Bytes → Option Key
  pub parse_pkcs1 : Bytes → Option Key
  pub parse_ec : Bytes → Option Key
  pub is_decrypter : Key → Bool
  pub is_signer : Key → Bool
  pub parse_certificate : Bytes → Option ℕ  -- `NotAfter`

-- A `crypto.PrivateKey` of a certificate: with all its operations, or restricted by its usage.
pub data PrivateKey (Key : Type 0) : Type 0 where
  any_use decrypt_only sign_only : Key → PrivateKey Key

-- `tls.Certificate`. Nil is `none`, and `leaf` is set last.
pub record Certificate (Key : Type 0) : Type 0 where
  pub private_key : Option (PrivateKey Key)
  pub chain : List Bytes
  pub ocsp_staple : Option Bytes
  pub scts : List Bytes
  pub leaf_not_after : Option ℕ

abbrev pub new_certificate : (Key : Type 0) → Certificate Key
new_certificate Key = record {
  private_key = none;
  chain = [];
  ocsp_staple = none;
  scts = [];
  leaf_not_after = none;
}

-- The cases of the `switch` on the type of a block.
pub data Kind : Type 0 where
  key certificate ocsp sct unknown : Kind

unfoldable pub kind_of : Bytes → Kind
unfolding equal
kind_of kind =
    if equal kind (codes "PRIVATE KEY")
      || (equal kind (codes "RSA PRIVATE KEY") || equal kind (codes "EC PRIVATE KEY"))
    then key
    else if equal kind (codes "CERTIFICATE")
    then certificate
    else if equal kind (codes "OCSP RESPONSE")
    then ocsp
    else if equal kind (codes "SIGNED CERTIFICATE TIMESTAMP")
    then sct
    else unknown

abbrev from_option {ℓ} : {A : Type ℓ} → LoadError → Option A → Outcome LoadError A
from_option e none = err e
from_option e (some a) = ok a

module _ (d : Decoders) where
  -- `parsePrivateKey`
  unfoldable pub parse_private_key : Block → Outcome LoadError d.Key
  unfolding equal
  parse_private_key block =
      if equal block.kind (codes "PRIVATE KEY")
      then from_option bad_key (d.parse_pkcs8 block.bytes)
      else if equal block.kind (codes "RSA PRIVATE KEY")
      then from_option bad_key (d.parse_pkcs1 block.bytes)
      else if equal block.kind (codes "EC PRIVATE KEY")
      then from_option bad_key (d.parse_ec block.bytes)
      else err bad_key

  -- `makePrivateKey` from the usage on
  unfoldable pub restrict : Bytes → d.Key → Outcome LoadError (PrivateKey d.Key)
  unfolding equal
  restrict usage k =
      if is_empty usage
      then ok (any_use k)
      else if equal usage (codes "decrypt")
      then (if d.is_decrypter k then ok (decrypt_only k) else err no_decryption)
      else if equal usage (codes "sign")
      then (if d.is_signer k then ok (sign_only k) else err no_signing)
      else err (bad_usage usage)

  unfoldable pub make_private_key : Block → Outcome LoadError (PrivateKey d.Key)
  unfolding parse_private_key restrict
  make_private_key block = do k ← parse_private_key block; restrict block.usage k

  -- The cases of the `switch`: the certificate with one more block in it.
  unfoldable pub add_key :
      Option (PrivateKey d.Key) → Block → Certificate d.Key → Outcome LoadError (Certificate d.Key)
  unfolding make_private_key
  add_key (some _) block cert = err two_keys
  add_key none block cert = do k ← make_private_key block; ok (record cert { private_key = some k })

  unfoldable pub add_ocsp :
      Option Bytes → Block → Certificate d.Key → Outcome LoadError (Certificate d.Key)
  add_ocsp (some _) block cert = err two_ocsp
  add_ocsp none block cert = ok (record cert { ocsp_staple = some block.bytes })

  unfoldable pub add_kind : Kind → Block → Certificate d.Key → Outcome LoadError (Certificate d.Key)
  unfolding add_key add_ocsp
  add_kind key block cert = add_key cert.private_key block cert
  add_kind certificate block cert = ok (record cert { chain = cert.chain ++ block.bytes ∷ [] })
  add_kind ocsp block cert = add_ocsp cert.ocsp_staple block cert
  add_kind sct block cert = ok (record cert { scts = cert.scts ++ block.bytes ∷ [] })
  add_kind unknown block cert = err (bad_block block.kind)

  unfoldable pub add_block : Block → Certificate d.Key → Outcome LoadError (Certificate d.Key)
  unfolding add_kind kind_of
  add_block block cert = add_kind (kind_of block.kind) block cert

  -- What follows the loop.
  unfoldable pub finish_leaf :
      List Bytes → Certificate d.Key → Outcome LoadError (Certificate d.Key)
  finish_leaf [] cert = err no_certificates
  finish_leaf (leaf ∷ _) cert = elim (d.parse_certificate leaf) [
    | none ↦ err bad_leaf
    | some t ↦ ok (record cert { leaf_not_after = some t })
  ]

  unfoldable pub finish_key :
      Option (PrivateKey d.Key) → Certificate d.Key → Outcome LoadError (Certificate d.Key)
  unfolding finish_leaf
  finish_key none cert = err no_key
  finish_key (some _) cert = finish_leaf cert.chain cert

  unfoldable pub finish : Certificate d.Key → Outcome LoadError (Certificate d.Key)
  unfolding finish_key
  finish cert = finish_key cert.private_key cert

  -- The loop over the blocks in the data, with fuel for their number.
  unfoldable pub load_blocks : ℕ → Bytes → Certificate d.Key → Outcome LoadError (Certificate d.Key)
  unfolding add_block finish
  load_blocks zero input cert = err exhausted
  load_blocks (suc fuel) input cert = elim (d.decode input) [
    | none ↦ finish cert
    | some (block, rest) ↦ add_block block cert >>= λ c. load_blocks fuel rest c
  ]

  -- `LoadCertificate` of a file, which is `none` if it cannot be read. Each block takes a byte at
  -- least, so that the fuel is enough.
  unfoldable pub load_certificate : Option Bytes → Outcome LoadError (Certificate d.Key)
  unfolding load_blocks
  load_certificate none = err no_file
  load_certificate (some input) = load_blocks (suc (length input)) input (new_certificate d.Key)
