-- ===== src/Cert/Sources/Alone.antt =====
-- cert/dir.go with cert/cache.go: a call that no other one interrupts.
use go_listener.Common.{
  ℕ, zero, suc, ◌+◌, arith, false, ◌≡◌, ◌≢◌, refl, sym, ap, ◌∙◌, true, Option, none, some, List, [],
  ◌∷◌, map, Outcome, ok, err, panic, inl, inr, ◌||◌, All,
}
use mathlib.Core.Path.{subst}
use go_listener.Common.Text.{Bytes, contains, starts_with}
use go_listener.Common.Paths.{join, clean, IsUnder, join-IsUnder}
use go_listener.Cert.Hello.{Hello}
use go_listener.Cert.KeyTypes.{KeyTypes, get_supported_key_types}
use go_listener.Cert.Load.{Decoders, Certificate, LoadError, load_certificate}
use go_listener.Cert.Load.Fuel.{Shrinks, load_certificate-returns}
use go_listener.Cert.Cache.{
  FileCache, File, Snapshot, contents_of, load, load_stat, load_fresh, store, fresh, get,
}
use go_listener.Cert.Cache.Shared.{
  Search, search_on, search_at, go_on, after_get, after_read, stat, try_next, start, Loading,
  served, failed,
}
use go_listener.Cert.Dir.{DirError, not_found, Load, get_certificate}
use go_listener.Cert.Dir.Names.{candidates, first_of, next_of, IsEntry, get_certificate-eq-first_of}
use go_listener.Cert.Sources.{successful, load_in, run, get_certificate_from_directory}

module _ (d : Decoders) (files : Snapshot) where
  abbrev at : List Bytes → List Bytes → Loading d.Key → Search d.Key
  at names rest l = record { names = names; loading = l; rest = rest }

  -- Where `Load` of a file ends.
  abbrev Landed : Bytes → Outcome LoadError (Certificate d.Key) → Loading d.Key → Type 0
  Landed name (ok cert) l = (t : ℕ) × (l ≡ served name t cert)
  Landed name (err e) l = l ≡ failed e
  Landed name panic l = ⊥

  -- The steps of one load.
  abbrev Loads :
      List Bytes
      → List Bytes
      → Bytes
      → Search d.Key
      → FileCache d.Key
      → Outcome LoadError (Certificate d.Key) × FileCache d.Key
      → Type 0
  Loads names rest name s certs (r, certs') =
      (n : ℕ) × (l : Loading d.Key) × (run d files n certs s ≡ (at names rest l, certs'))
      × Landed name r l

  module _ (names rest : List Bytes) (name : Bytes) (certs : FileCache d.Key)
      (returns : load_certificate d (contents_of d (files name)) ≢ panic) where
    read-Loads :
        (t : ℕ) (r : Outcome LoadError (Certificate d.Key))
        → r ≢ panic
        → Loads names rest name
            (at names rest (after_read d name t r))
            certs
            (store d certs name t r)
    unfolding run store after_read search_on search_at go_on
    read-Loads t (ok cert) p = (1, served name t cert, refl, (t, refl))
    read-Loads t (err e) p = (0, failed e, refl, refl)
    read-Loads t panic p = absurd (p refl)

    get-Loads :
        (t : ℕ) (o : Option (Certificate d.Key))
        → Loads names rest name
            (at names rest (after_get d name t o))
            certs
            (load_fresh d certs name t (files name) o)
    unfolding run load_fresh after_get search_on search_at go_on
    get-Loads t (some cert) = (0, served name t cert, refl, (t, refl))
    get-Loads t none =
        let (n, l, q, k) = read-Loads t (load_certificate d (contents_of d (files name))) returns in
        (suc n, l, q, k)

    stat-Loads :
        (o : Option File)
        → Loads names rest name
            (at names rest (stat d name o))
            certs
            (load_stat d certs name o (files name))
    unfolding run load_stat stat search_on search_at go_on
    stat-Loads none = (0, failed LoadError.no_file, refl, refl)
    stat-Loads (some f) =
        let (n, l, q, k) = get-Loads f.modified (fresh d (get d certs name) f.modified) in
        (suc n, l, q, k)

    load-Loads :
        Loads names rest name
          (at names rest (stat d name (files name)))
          certs
          (load d certs name files files)
    unfolding load
    load-Loads = stat-Loads (files name)

  run-add :
      (n m : ℕ) (certs : FileCache d.Key) (s : Search d.Key)
      → run d files (n + m) certs s
        ≡ (let (s', certs') = run d files n certs s in run d files m certs' s')
  unfolding run
  run-add zero m certs s = let q : 0 + m ≡ m = omega arith in ap (λ k. run d files k certs s) q
  run-add (suc n) m certs s =
      let (s', certs') = search_on d files certs s in
      let q : suc n + m ≡ suc (n + m) = omega arith in
      ap (λ k. run d files k certs s) q ∙ run-add n m certs' s'

  -- A search that has served the certificate, or that has failed on its last file.
  abbrev pub EndsIn : Search d.Key → Outcome DirError (Certificate d.Key) → Type 0
  EndsIn s (ok cert) = (name : Bytes) × (t : ℕ) × (s.loading ≡ served name t cert)
  EndsIn s (err e) = (x : LoadError) × (s.loading ≡ failed x) × (s.rest ≡ [])
  EndsIn s panic = ⊥

  -- Some steps from the search on end in what the result says, with its cache.
  abbrev pub Serves :
      Search d.Key
      → FileCache d.Key
      → Outcome DirError (Certificate d.Key) × FileCache d.Key
      → Type 0
  Serves s certs (r, certs') =
      (n : ℕ) × EndsIn (run d files n certs s).0 r × ((run d files n certs s).1 ≡ certs')

  module _ (returns : (name : Bytes) → load_certificate d (contents_of d (files name)) ≢ panic)
      (path_of : Bytes → Bytes) (load_at : Load (FileCache d.Key) (Certificate d.Key))
      (loads : (f : Bytes) (certs : FileCache d.Key)
        → load_at f certs ≡ successful (load d certs (path_of f) files files)) where
    -- An error takes one more step, to the next file.
    run-failed :
        (n m : ℕ) (names rest : List Bytes) (x : LoadError) (certs certs' : FileCache d.Key)
        (s : Search d.Key)
        → run d files n certs s ≡ (at names rest (failed x), certs')
        → run d files (n + suc m) certs s ≡ run d files m certs' (try_next d files names x rest)
    unfolding run search_on search_at
    run-failed n m names rest x certs certs' s e =
        run-add n (suc m) certs s ∙ ap (λ r. run d files (suc m) r.1 r.0) e

    then-Serves :
        (names : List Bytes) (rest : List Bytes) (f : Bytes) (certs : FileCache d.Key)
        (s : Search d.Key)
        (next : FileCache d.Key → Outcome DirError (Certificate d.Key) × FileCache d.Key)
        (q : Outcome LoadError (Certificate d.Key) × FileCache d.Key)
        → Loads names rest f s certs q
        → ((e : LoadError) (certs : FileCache d.Key)
            → Serves (try_next d files names e rest) certs (next certs))
        → Serves s certs (next_of load_at next (successful q))
    then-Serves names rest f certs s next (ok cert, certs') (n, l, e, (t, k)) ih =
        (n, (f, t, ap (λ r. r.0.loading) e ∙ k), ap (λ r. r.1) e)
    then-Serves names rest f certs s next (err x, certs') (n, l, e, k) ih =
        let (m, a, b) = ih x certs' in
        let q =
          run-failed n m names rest x certs certs' s (e ∙ ap (λ l. (at names rest l, certs')) k) in
        (n + suc m, subst (λ r. EndsIn r.0 (next certs').0) (sym q) a, ap (λ r. r.1) q ∙ b)
    then-Serves names rest f certs s next (panic, certs') (n, l, e, k) ih = absurd k

    first_of-Serves :
        (names : List Bytes) (fs : List Bytes) (e : LoadError) (x : DirError)
        (certs : FileCache d.Key)
        → Serves (try_next d files names e (map path_of fs)) certs (first_of load_at x fs certs)
    unfolding try_next run
    first_of-Serves names [] e x certs = (0, (e, refl, refl), refl)
    first_of-Serves names (f ∷ fs) e x certs = rw (loads f certs) (
        then-Serves names (map path_of fs) (path_of f) certs _ _ _
          (load-Loads names (map path_of fs) (path_of f) certs (returns (path_of f)))
          (λ e' certs'. first_of-Serves names fs e' x certs'))

-- Where `pem.Decode` returns the data behind the block that it found, and for a server name without a
-- slash that is neither empty nor begins with a dot: a call of the function of a directory that is
-- not interrupted ends with the certificate that the search returns served, or with its last file
-- failed if that returns an error, and with the same cache; the search does not panic; and every path that it opens is that of a file of the directory
-- itself, whatever the path of the directory is.
pub get_certificate_from_directory-Serves :
    (d : Decoders) (files : Snapshot)
    → Shrinks d
    → (path : Bytes) (hello : Hello) (certs : FileCache d.Key)
    → (starts_with hello.server_name b'.' || contains hello.server_name b'/') ≡ false
    → hello.server_name ≢ []
    → All
        (λ f. IsUnder (clean path) f (join path f))
        (candidates hello.server_name (get_supported_key_types hello))
      × Serves d files
          (start d files
            (map (join path) (candidates hello.server_name (get_supported_key_types hello))))
          certs
          (get_certificate_from_directory d files path hello certs)
unfolding start load_in get_certificate_from_directory get_certificate
get_certificate_from_directory-Serves d files shrinks path hello certs h n =
    elim (get_certificate-eq-first_of (load_in d files (record { path = path; cached = true }))
      hello certs) [
        | inl (e, q) ↦ absurd (n e)
        | inr (inl (e, q)) ↦ cc
        | inr (inr (a, q)) ↦ (
          entries _ a,
          subst
              (Serves d files (start d files (map (join path) (candidates hello.server_name types)))
                certs)
              (sym q)
              (first_of-Serves d files
                (λ name. (load_certificate-returns d shrinks (contents_of d (files name))).1)
                (join path) (load_in d files (record { path = path; cached = true }))
                (λ f certs. refl) (map (join path) (candidates hello.server_name types))
                (candidates hello.server_name types) LoadError.no_file (not_found hello.server_name)
                certs),
        )
      ]
  where
    types : KeyTypes
    types = get_supported_key_types hello

    entries :
        (fs : List Bytes) → All IsEntry fs → All (λ f. IsUnder (clean path) f (join path f)) fs
    entries [] a = tt
    entries (f ∷ fs) a = (join-IsUnder f a.0.2 a.0.1 a.0.0 path, entries fs a.1)
