-- ===== src/Cert/Cache/Shared/Ends.antt =====
-- cert/cache.go and cert/dir.go: the end of a call among others.
use go_listener.Common.{
  ℕ, suc, ◌+◌, ◌*◌, ◌≤◌, ◌≡◌, ◌≢◌, refl, arith, Option, none, some, List, [], ◌∷◌, length, Outcome,
  ok, err, panic,
}
use go_listener.Common.Text.{Bytes}
use go_listener.Cert.Load.{Decoders, Certificate, LoadError, load_certificate}
use go_listener.Cert.Load.Fuel.{Shrinks, load_certificate-returns}
use go_listener.Cert.Cache.{FileCache, File, Snapshot, contents_of, get, fresh}
use go_listener.Cert.Cache.Shared.{
  Loading, getting, reading, adding, served, failed, panicked, Search, stat, after_get, after_read,
  go_on, try_next, start, search_at, search_on,
}

-- The steps that a call has left at most: four for each file.
abbrev left_at : {Key : Type 0} → ℕ → Loading Key → ℕ
left_at rest (getting name t) = 3 + 4 * rest
left_at rest (reading name t) = 2 + 4 * rest
left_at rest (adding name t cert) = 1
left_at rest (served name t cert) = 0
left_at rest (failed e) = 4 * rest
left_at rest panicked = 0

abbrev left : {Key : Type 0} → Search Key → ℕ
left s = left_at (length s.rest) s.loading

-- A call that returned: a certificate, or an error behind its last file.
abbrev pub IsReturned : {Key : Type 0} → List Bytes → Loading Key → Type 0
IsReturned rest (served name t cert) = Unit
IsReturned rest (failed e) = rest ≡ []
IsReturned rest _ = ⊥

module _ (d : Decoders) where
  -- The steps of a call, each on the files and the cache as others left them.
  abbrev pub amid : List (Snapshot × FileCache d.Key) → Search d.Key → Search d.Key
  unfolding search_on
  amid [] s = s
  amid ((files, certs) ∷ others) s = amid others (search_on d files certs s).0

module _ (d : Decoders) (shrinks : Shrinks d) where
  -- A call with at most so many steps left, that has not panicked.
  abbrev Within : ℕ → List Bytes → Loading d.Key → Type 0
  Within n rest l = (left_at (length rest) l ≤ n) × (l ≢ panicked)

  stat-Within :
      (n : ℕ) (rest : List Bytes) (name : Bytes) (o : Option File)
      → 3 + 4 * length rest ≤ n
      → Within n rest (stat d name o)
  unfolding stat
  stat-Within n rest name none h = (omega arith, λ q. cc)
  stat-Within n rest name (some f) h = (h, λ q. cc)

  get-Within :
      (n : ℕ) (rest : List Bytes) (name : Bytes) (t : ℕ) (o : Option (Certificate d.Key))
      → 3 + 4 * length rest ≤ suc n
      → Within n rest (after_get d name t o)
  unfolding after_get
  get-Within n rest name t none h = (omega arith, λ q. cc)
  get-Within n rest name t (some c) h = (omega arith, λ q. cc)

  read-Within :
      (n : ℕ) (rest : List Bytes) (name : Bytes) (t : ℕ) (o : Outcome LoadError (Certificate d.Key))
      → o ≢ panic
      → 2 + 4 * length rest ≤ suc n
      → Within n rest (after_read d name t o)
  unfolding after_read
  read-Within n rest name t (ok c) p h = (omega arith, λ q. cc)
  read-Within n rest name t (err e) p h = (omega arith, λ q. cc)
  read-Within n rest name t panic p h = absurd (p refl)

  next-Within :
      (n : ℕ) (files : Snapshot) (names : List Bytes) (e : LoadError) (rest : List Bytes)
      → 4 * length rest ≤ suc n
      → Within n (try_next d files names e rest).rest (try_next d files names e rest).loading
  unfolding try_next
  next-Within n files names e [] h = (omega arith, λ q. cc)
  next-Within n files names e (name ∷ rest) h = stat-Within n rest name (files name) (omega arith)

  -- Each step leaves fewer.
  search_at-Within :
      (n : ℕ) (files : Snapshot) (certs : FileCache d.Key) (s : Search d.Key) (l : Loading d.Key)
      → Within (suc n) s.rest l
      → Within n (search_at d files certs s l).0.rest (search_at d files certs s l).0.loading
  unfolding search_at go_on
  search_at-Within n files certs s (getting name t) h =
      get-Within n s.rest name t (fresh d (get d certs name) t) h.0
  search_at-Within n files certs s (reading name t) h =
      read-Within n s.rest name t (load_certificate d (contents_of d (files name)))
        (load_certificate-returns d shrinks (contents_of d (files name))).1 h.0
  search_at-Within n files certs s (adding name t c) h = (omega arith, λ q. cc)
  search_at-Within n files certs s (served name t c) h = (omega arith, λ q. cc)
  search_at-Within n files certs s (failed e) h = next-Within n files s.names e s.rest h.0
  search_at-Within n files certs s panicked h = absurd (h.1 refl)

  returned : (rest : List Bytes) (l : Loading d.Key) → Within 0 rest l → IsReturned rest l
  returned rest (served name t c) h = tt
  returned [] (failed e) h = refl
  returned (f ∷ rest) (failed e) h = absurd (omega (arith, h.0))
  returned rest (getting name t) h = absurd (omega (arith, h.0))
  returned rest (reading name t) h = absurd (omega (arith, h.0))
  returned rest (adding name t c) h = absurd (omega (arith, h.0))
  returned rest panicked h = absurd (h.1 refl)

  amid-IsReturned :
      (others : List (Snapshot × FileCache d.Key)) (s : Search d.Key)
      → Within (length others) s.rest s.loading
      → IsReturned (amid d others s).rest (amid d others s).loading
  unfolding amid
  amid-IsReturned [] s h = returned s.rest s.loading h
  amid-IsReturned ((files, certs) ∷ others) s h =
      amid-IsReturned others (search_on d files certs s).0
        (search_at-Within (length others) files certs s s.loading h)

  -- Where `pem.Decode` returns the data behind the block that it found: a call of the function of a
  -- file or a directory returns a certificate, or an error behind its last file, after at most four
  -- steps for each of its files, whatever other goroutines do to the cache and whatever happens to
  -- the files between these steps; and it does not panic.
  pub start-IsReturned :
      (files : Snapshot) (names : List Bytes) (others : List (Snapshot × FileCache d.Key))
      → 4 * length names ≤ length others
      → IsReturned
          (amid d others (start d files names)).rest
          (amid d others (start d files names)).loading
  unfolding start
  start-IsReturned files names others h =
      amid-IsReturned others (start d files names)
        (next-Within (length others) files names LoadError.no_file names (omega arith))
