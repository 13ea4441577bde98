-- ===== src/Cert/Cache.antt =====
-- cert/cache.go: certificates kept until their file changes.
pub mod Versions
pub mod Fresh
pub mod Shared
use go_listener.Common.{
  ℕ, ◌≡◌, refl, Bool, true, false, ◌&&◌, not, Option, none, some, List, [], ◌∷◌, if◌then◌else◌,
  ◌==◌, ltb, Outcome, ok, err, panic, ◌>>=◌,
}
use go_listener.Common.Text.{Bytes, equal}
use go_listener.Cert.Load.{Decoders, Certificate, LoadError, load_certificate}

-- `cachedFile`
pub record CachedFile (Key : Type 0) : Type 0 where
  pub certificate : Certificate Key
  pub mod_time : ℕ

-- `fileCache`: its map, `none` being the zero value that a missing key gives.
abbrev pub FileCache : Type 0 → Type 0
FileCache Key = Bytes → Option (CachedFile Key)

abbrev pub new_file_cache : {Key : Type 0} → FileCache Key
new_file_cache name = none

-- A file as `os.Stat` and `os.ReadFile` see it at one time: `none` if it cannot be read.
pub record File : Type 0 where
  pub modified : ℕ
  pub contents : Bytes

abbrev pub Snapshot : Type 0
Snapshot = Bytes → Option File

module _ (d : Decoders) where
  -- `get`
  unfoldable pub get : FileCache d.Key → Bytes → Option (CachedFile d.Key)
  get certs filename = certs filename

  -- `add`
  unfoldable pub add : FileCache d.Key → Bytes → CachedFile d.Key → FileCache d.Key
  unfolding equal
  add certs filename cached name = if equal filename name then some cached else certs name

  -- `isFresh`, with what is then returned
  unfoldable pub fresh : Option (CachedFile d.Key) → ℕ → Option (Certificate d.Key)
  fresh none latest = none
  fresh (some cached) latest = if cached.mod_time == latest then some cached.certificate else none

  abbrev pub contents_of : Option File → Option Bytes
  contents_of none = none
  contents_of (some f) = some f.contents

  -- The end of `Load`, on what `LoadCertificate` returned.
  unfoldable pub store :
      FileCache d.Key
      → Bytes
      → ℕ
      → Outcome LoadError (Certificate d.Key)
      → Outcome LoadError (Certificate d.Key) × FileCache d.Key
  unfolding add
  store certs filename mod_time (ok cert) =
      (ok cert, add certs filename (record { certificate = cert; mod_time = mod_time }))
  store certs filename mod_time (err e) = (err e, certs)
  store certs filename mod_time panic = (panic, certs)

  -- `Load` behind `os.Stat`, on the entry that is fresh, if one is.
  unfoldable pub load_fresh :
      FileCache d.Key
      → Bytes
      → ℕ
      → Option File
      → Option (Certificate d.Key)
      → Outcome LoadError (Certificate d.Key) × FileCache d.Key
  unfolding store load_certificate
  load_fresh certs filename mod_time file (some cert) = (ok cert, certs)
  load_fresh certs filename mod_time file none =
      store certs filename mod_time (load_certificate d (contents_of file))

  unfoldable pub load_stat :
      FileCache d.Key
      → Bytes
      → Option File
      → Option File
      → Outcome LoadError (Certificate d.Key) × FileCache d.Key
  unfolding load_fresh fresh get
  load_stat certs filename none file = (err LoadError.no_file, certs)
  load_stat certs filename (some f) file =
      load_fresh certs filename f.modified file (fresh (get certs filename) f.modified)

  -- `Load`: the file may change between `os.Stat`, which sees `before`, and `os.ReadFile`, which
  -- sees `after`.
  unfoldable pub load :
      FileCache d.Key
      → Bytes
      → Snapshot
      → Snapshot
      → Outcome LoadError (Certificate d.Key) × FileCache d.Key
  unfolding load_stat
  load certs filename before after = load_stat certs filename (before filename) (after filename)

  -- `now.After(cert.Leaf.NotAfter)`, which panics at a nil leaf.
  unfoldable pub is_expired : ℕ → CachedFile d.Key → Outcome (Unit {0}) Bool
  is_expired now cached = elim cached.certificate.leaf_not_after [
    | none ↦ panic
    | some t ↦ ok (ltb t now)
  ]

  unfoldable pub keep :
      ℕ → Option (CachedFile d.Key) → Outcome (Unit {0}) (Option (CachedFile d.Key))
  unfolding is_expired
  keep now none = ok none
  keep now (some cached) = do
    expired ← is_expired now cached
    ok (if expired then none else some cached)

  -- `Clean`, by what becomes of each entry.
  unfoldable pub clean :
      ℕ → FileCache d.Key → Bytes → Outcome (Unit {0}) (Option (CachedFile d.Key))
  unfolding keep
  clean now certs name = keep now (certs name)

  -- It returns, with the second cache in place of the first.
  abbrev pub Cleaned : ℕ → FileCache d.Key → FileCache d.Key → Type 0
  unfolding clean
  Cleaned now certs certs' = (name : Bytes) → clean now certs name ≡ ok (certs' name)
