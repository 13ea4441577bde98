-- ===== src/Cert/Dir.antt =====
-- cert/dir.go: the files of a directory that are tried for a client.
pub mod Names
pub mod Default
use go_listener.Common.{
  ℕ, suc, ◌+◌, Bool, true, false, ◌||◌, Option, none, some, List, [], ◌∷◌, ◌++◌, if◌then◌else◌,
  drop, Outcome, ok, err, panic,
}
use go_listener.Common.Text.{Bytes, codes, contains, starts_with, is_empty, index_byte}
use go_listener.Cert.Hello.{Hello}
use go_listener.Cert.KeyTypes.{KeyTypes, get_supported_key_types}

pub data DirError : Type 0 where
  no_sni invalid_name : DirError
  not_found : Bytes → DirError

-- `serverNameSuffix`: the name from its first dot on.
unfoldable pub suffix : Bytes → Bytes
unfolding index_byte
suffix server_name = elim (index_byte server_name b'.') [
  | some dot ↦ drop dot server_name
  | none ↦ []
]

-- `dir.loadCertificate` on a state, which is the cache. Every error of it leads to the next file.
abbrev pub Load {ℓ κ} : Type ℓ → Type κ → Type (ℓ ⊔ κ)
Load S Cert = Bytes → S → Option Cert × S

module _ {S Cert : Type 0} (load : Load S Cert) where
  abbrev pub Search : Type 0
  Search = S → Outcome DirError Cert × S

  -- One `if cert, err := dir.loadCertificate(filename); err == nil`, and what follows it.
  unfoldable pub then_else : Option Cert × S → Search → Outcome DirError Cert × S
  then_else (some cert, s) next = (ok cert, s)
  then_else (none, s) next = next s

  unfoldable pub try : Bytes → Search → Search
  unfolding then_else
  try filename next s = then_else (load filename s) next

  -- The two files of one ending.
  unfoldable pub try_both : Bytes → Bytes → Search → Search
  unfolding try suffix
  try_both server_name ending next =
      try (server_name ++ ending) (try (b'_' ∷ suffix server_name ++ ending) next)

  -- `GetCertificate` behind the checks of the server name.
  unfoldable pub search : Bytes → KeyTypes → Search
  unfolding try_both
  search server_name types =
      let plain = try_both server_name (codes ".pem") (λ s. (err (not_found server_name), s)) in
      let rsa = if types.rsa then try_both server_name (codes ".pem.rsa") plain else plain in
      if types.ecdsa then try_both server_name (codes ".pem.ecdsa") rsa else rsa

  unfoldable pub get_named : Bytes → KeyTypes → Search
  unfolding search contains starts_with
  get_named server_name types s =
      if is_empty server_name
      then (err no_sni, s)
      else if starts_with server_name b'.' || contains server_name b'/'
      then (err invalid_name, s)
      else search server_name types s

  -- `GetCertificate`
  unfoldable pub get_certificate : Hello → Search
  unfolding get_named get_supported_key_types
  get_certificate hello = get_named hello.server_name (get_supported_key_types hello)
