-- ===== src/Cert/Sources.antt =====
-- cert/file.go and cert/dir.go: the functions that get a certificate from one file and from the files
-- of a directory, with the cache as their state. A file is the same throughout a call.

pub mod Alone
use go_listener.Common.{
  ℕ, zero, suc, Bool, true, Option, none, some, List, [], ◌∷◌, map, if◌then◌else◌, Outcome, ok, err,
  panic,
}
use go_listener.Common.Text.{Bytes}
use go_listener.Common.Paths.{join}
use go_listener.Cert.Hello.{Hello}
use go_listener.Cert.KeyTypes.{get_supported_key_types}
use go_listener.Cert.Load.{Decoders, Certificate, LoadError, load_certificate}
use go_listener.Cert.Cache.{FileCache, Snapshot, contents_of, load}
use go_listener.Cert.Cache.Shared.{Search, search_on}
use go_listener.Cert.Dir.{DirError, Load, get_certificate}
use go_listener.Cert.Dir.Names.{candidates}

-- `directory`, whose `Cache` may be nil.
pub record Directory : Type 0 where
  pub path : Bytes
  pub cached : Bool

-- `err == nil`
abbrev pub successful :
    {Key : Type 0}
    → Outcome LoadError (Certificate Key) × FileCache Key
    → Option (Certificate Key) × FileCache Key
successful (ok cert, certs) = (some cert, certs)
successful (err e, certs) = (none, certs)
successful (panic, certs) = (none, certs)

module _ (d : Decoders) (files : Snapshot) where
  -- `loadCertificate`, which does not panic.
  unfoldable pub load_in : Directory → Load (FileCache d.Key) (Certificate d.Key)
  unfolding load load_certificate join
  load_in dir filename certs =
      let full_path = join dir.path filename in
      if dir.cached
      then successful (load d certs full_path files files)
      else successful (load_certificate d (contents_of d (files full_path)), certs)

  -- The function that `GetCertificateFromFile` returns.
  abbrev pub get_certificate_from_file :
      Bytes → Hello → FileCache d.Key → Outcome LoadError (Certificate d.Key) × FileCache d.Key
  unfolding load
  get_certificate_from_file path hello certs = load d certs path files files

  -- The function that `GetCertificateFromDirectory` returns.
  unfoldable pub get_certificate_from_directory :
      Bytes → Hello → FileCache d.Key → Outcome DirError (Certificate d.Key) × FileCache d.Key
  unfolding get_certificate load_in
  get_certificate_from_directory path hello =
      get_certificate (load_in (record { path = path; cached = true })) hello

  -- A call that no other one interrupts, for some steps.
  unfoldable pub run : ℕ → FileCache d.Key → Search d.Key → Search d.Key × FileCache d.Key
  unfolding search_on
  run zero certs s = (s, certs)
  run (suc n) certs s = let (s', certs') = search_on d files certs s in run n certs' s'
