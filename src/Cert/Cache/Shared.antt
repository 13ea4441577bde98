-- ===== src/Cert/Cache/Shared.antt =====
-- cert/globalcache.go and the calls of cert/cache.go that overlap: one cache, and the goroutines that
-- load from it. Each operation under the mutex, each call of the system and each step of the files is
-- one step.
pub mod Versioned
pub mod Searching
pub mod Since
pub mod Runs
pub mod Ends
use go_listener.Common.{
  ℕ, suc, ◌≡◌, ◌<◌, Option, none, some, List, [], ◌∷◌, ◌++◌, Outcome, ok, err, panic,
}
use go_listener.Common.Text.{Bytes}
use go_listener.Cert.Load.{Decoders, Certificate, LoadError, load_certificate}
use go_listener.Cert.Cache.{
  FileCache, File, Snapshot, new_file_cache, contents_of, get, add, fresh, Cleaned,
}
use go_listener.Cert.Cache.Versions.{Moment, Later, see}

-- Where a goroutine is in `Load`, with its `filename`, its `modTime` and its `cert`.
pub data Loading (Key : Type 0) : Type 0 where
  getting reading : Bytes → ℕ → Loading Key  -- before `c.get` and before `LoadCertificate`
  adding : Bytes → ℕ → Certificate Key → Loading Key  -- before `c.add`
  served : Bytes → ℕ → Certificate Key → Loading Key
  failed : LoadError → Loading Key
  panicked : Loading Key

-- A call of a function that `GetCertificateFromFile` or `GetCertificateFromDirectory` returned: the
-- files that it loads until one succeeds, where it is in that, and the files behind.
pub record Search (Key : Type 0) : Type 0 where
  pub names : List Bytes
  pub loading : Loading Key
  pub rest : List Bytes

-- A search of the process, with the files as they were when the call began.
pub record Call (Key : Type 0) : Type 0 where
  pub began : Moment
  pub search : Search Key

-- The variables of `cert/globalcache.go`, with the number of goroutines in `cleanGlobalFileCache`.
pub record Global (Key : Type 0) : Type 0 where
  pub cache : Option (FileCache Key)
  pub cleaners : ℕ

-- The process and the files that it sees.
pub record Process (Key : Type 0) : Type 0 where
  pub files : Moment
  pub global : Global Key
  pub searches : List (Call Key)

-- `globalFileCacheInit.Do`, which finds the pointer nil the first time.
abbrev pub init_global : {Key : Type 0} → Option (FileCache Key) → Global Key → Global Key
init_global none g = record { cache = some new_file_cache; cleaners = suc g.cleaners }
init_global (some certs) g = g

-- `globalFileCache`, which the two functions call when they make a function.
abbrev global_file_cache : {Key : Type 0} → Global Key → Global Key
global_file_cache g = init_global g.cache g

abbrev pub new_process : {Key : Type 0} → Moment → Process Key
new_process m = record { files = m; global = record { cache = none; cleaners = 0 }; searches = [] }

module _ (d : Decoders) where
  -- `os.Stat` and what follows it
  unfoldable pub stat : Bytes → Option File → Loading d.Key
  stat name none = failed LoadError.no_file
  stat name (some f) = getting name f.modified

  -- what follows `c.get`, on the entry that is fresh, if one is
  unfoldable pub after_get : Bytes → ℕ → Option (Certificate d.Key) → Loading d.Key
  after_get name t none = reading name t
  after_get name t (some cert) = served name t cert

  -- what follows `LoadCertificate`
  unfoldable pub after_read : Bytes → ℕ → Outcome LoadError (Certificate d.Key) → Loading d.Key
  after_read name t (ok cert) = adding name t cert
  after_read name t (err e) = failed e
  after_read name t panic = panicked

  -- One step of `Load` on the files and the cache as they are.
  unfoldable pub go_on :
      Snapshot → FileCache d.Key → Loading d.Key → Loading d.Key × FileCache d.Key
  unfolding after_get after_read get fresh add load_certificate
  go_on files certs (getting name t) = (after_get name t (fresh d (get d certs name) t), certs)
  go_on files certs (reading name t) =
      (after_read name t (load_certificate d (contents_of d (files name))), certs)
  go_on files certs (adding name t cert) =
      (served name t cert, add d certs name (record { certificate = cert; mod_time = t }))
  go_on files certs (served name t cert) = (served name t cert, certs)
  go_on files certs (failed e) = (failed e, certs)
  go_on files certs panicked = (panicked, certs)

  -- The call of `Load` on the next file, or the error where there is none.
  unfoldable pub try_next : Snapshot → List Bytes → LoadError → List Bytes → Search d.Key
  unfolding stat
  try_next files names e [] = record { names = names; loading = failed e; rest = [] }
  try_next files names e (name ∷ rest) = record {
    names = names;
    loading = stat name (files name);
    rest = rest;
  }

  unfoldable pub start : Snapshot → List Bytes → Search d.Key
  unfolding try_next
  start files names = try_next files names LoadError.no_file names

  -- One step of a call, by where it is: an error leads to the next file.
  unfoldable pub search_at :
      Snapshot → FileCache d.Key → Search d.Key → Loading d.Key → Search d.Key × FileCache d.Key
  unfolding go_on try_next
  search_at files certs s (failed e) = (try_next files s.names e s.rest, certs)
  search_at files certs s l =
      let (l', certs') = go_on files certs l in
      (record { names = s.names; loading = l'; rest = s.rest }, certs')

  unfoldable pub search_on :
      Snapshot → FileCache d.Key → Search d.Key → Search d.Key × FileCache d.Key
  unfolding search_at
  search_on files certs s = search_at files certs s s.loading

  module _ (version : Bytes → ℕ → Bytes) where
    pub data Step : Process d.Key → Process d.Key → Type 0 where
      -- a function is made
      makes : (p : Process d.Key) → Step p (record p { global = global_file_cache p.global })
      -- such a function is called, and looks at its first file
      calls :
          (p : Process d.Key) (certs : FileCache d.Key) (names : List Bytes)
          → p.global.cache ≡ some certs
          → Step p (record p {
            searches =
                record { began = p.files; search = start (see d version p.files) names }
                ∷ p.searches;
          })
      -- a call goes on
      goes :
          (p : Process d.Key) (certs : FileCache d.Key) (before after : List (Call d.Key))
          (c : Call d.Key)
          → p.global.cache ≡ some certs
          → p.searches ≡ before ++ c ∷ after
          → Step p (record {
            files = p.files;
            global = record {
              cache = some (search_on (see d version p.files) certs c.search).1;
              cleaners = p.global.cleaners;
            };
            searches =
                before
                ++ record {
                  began = c.began;
                  search = (search_on (see d version p.files) certs c.search).0;
                }
                  ∷ after;
          })
      -- the timer of a goroutine in `cleanGlobalFileCache` fires at a time
      cleans :
          (p : Process d.Key) (certs certs' : FileCache d.Key) (now : ℕ)
          → p.global.cache ≡ some certs
          → 0 < p.global.cleaners
          → Cleaned d now certs certs'
          → Step p
              (record p { global = record { cache = some certs'; cleaners = p.global.cleaners } })
      -- files are replaced, made or removed
      changes : (p : Process d.Key) (m : Moment) → Later p.files m → Step p (record p { files = m })

    pub data Steps : Process d.Key → Process d.Key → Type 0 where
      stop : (p : Process d.Key) → Steps p p
      next : (p q r : Process d.Key) → Steps p q → Step q r → Steps p r
