-- ===== src/Cert/Cache/Shared/Searching.antt =====
-- cert/globalcache.go and the callers of cert/cache.go: the files of a call, in their order.
use go_listener.Common.{
  sym, ℕ, ◌≡◌, refl, ◌∙◌, Option, none, some, List, [], ◌∷◌, ◌++◌, Outcome, ok, err, panic,
}
use mathlib.Core.List.{append_assoc}
use go_listener.Common.Text.{Bytes}
use go_listener.Cert.Load.{Decoders, Certificate, LoadError}
use go_listener.Cert.Cache.{FileCache, File}
use go_listener.Cert.Cache.Versions.{Moment, see, IsValid}
use go_listener.Cert.Cache.Shared.{
  Loading, getting, reading, adding, served, failed, panicked, Search, stat, after_get, after_read,
  go_on, try_next, start, search_at, search_on,
}
use go_listener.Cert.Cache.Shared.Versioned.{IsLoading, stat-IsLoading, go_on-IsValid}

module _ (d : Decoders) where
  -- Which file of a call is being loaded, or which are left after an error.
  abbrev pub IsTrying : List Bytes → List Bytes → Loading d.Key → Type 0
  IsTrying names rest (getting name t) = (tried : List Bytes) × (names ≡ tried ++ name ∷ rest)
  IsTrying names rest (reading name t) = (tried : List Bytes) × (names ≡ tried ++ name ∷ rest)
  IsTrying names rest (adding name t c) = (tried : List Bytes) × (names ≡ tried ++ name ∷ rest)
  IsTrying names rest (served name t c) = (tried : List Bytes) × (names ≡ tried ++ name ∷ rest)
  IsTrying names rest (failed e) = (tried : List Bytes) × (names ≡ tried ++ rest)
  IsTrying names rest panicked = Unit

  past :
      (names : List Bytes) (name : Bytes) (rest : List Bytes) (e : LoadError)
      → (tried : List Bytes) × (names ≡ tried ++ name ∷ rest)
      → IsTrying names rest (failed e)
  past names name rest e (tried, q) =
      (tried ++ name ∷ [], q ∙ sym (append_assoc tried (name ∷ []) rest))

  after_get-IsTrying :
      (names rest : List Bytes) (name : Bytes) (t : ℕ) (o : Option (Certificate d.Key))
      → IsTrying names rest (getting name t)
      → IsTrying names rest (after_get d name t o)
  unfolding after_get
  after_get-IsTrying names rest name t none h = h
  after_get-IsTrying names rest name t (some c) h = h

  after_read-IsTrying :
      (names rest : List Bytes) (name : Bytes) (t : ℕ) (o : Outcome LoadError (Certificate d.Key))
      → IsTrying names rest (reading name t)
      → IsTrying names rest (after_read d name t o)
  unfolding after_read
  after_read-IsTrying names rest name t (ok c) h = h
  after_read-IsTrying names rest name t (err e) h = past names name rest e h
  after_read-IsTrying names rest name t panic h = tt

  stat-IsTrying :
      (names rest : List Bytes) (name : Bytes) (o : Option File)
      → (tried : List Bytes) × (names ≡ tried ++ name ∷ rest)
      → IsTrying names rest (stat d name o)
  unfolding stat
  stat-IsTrying names rest name none h = past names name rest LoadError.no_file h
  stat-IsTrying names rest name (some f) h = h

  module _ (version : Bytes → ℕ → Bytes) where
    -- A call knows its file, and is at one of its files.
    abbrev pub IsSearching : Moment → Search d.Key → Type 0
    IsSearching m s = IsLoading d version m s.loading × IsTrying s.names s.rest s.loading

    module _ (m : Moment) where
      try_next-IsSearching :
          (names : List Bytes) (e : LoadError) (rest : List Bytes)
          → IsTrying names rest (failed e)
          → IsSearching m (try_next d (see d version m) names e rest)
      unfolding try_next
      try_next-IsSearching names e [] h = (tt, h)
      try_next-IsSearching names e (name ∷ rest) h =
          (stat-IsLoading d version m name, stat-IsTrying names rest name _ h)

      pub start-IsSearching : (names : List Bytes) → IsSearching m (start d (see d version m) names)
      unfolding start
      start-IsSearching names = try_next-IsSearching names LoadError.no_file names ([], refl)

      search_at-IsSearching :
          (certs : FileCache d.Key) (s : Search d.Key) (l : Loading d.Key)
          → IsValid d version certs m
          → IsLoading d version m l
          → IsTrying s.names s.rest l
          → IsSearching m (search_at d (see d version m) certs s l).0
            × IsValid d version (search_at d (see d version m) certs s l).1 m
      unfolding search_at go_on
      search_at-IsSearching certs s (failed e) v k h = (try_next-IsSearching s.names e s.rest h, v)
      search_at-IsSearching certs s (getting name t) v k h =
          let (k', v') = go_on-IsValid d version m certs v (getting name t) k in
          ((k', after_get-IsTrying s.names s.rest name t _ h), v')
      search_at-IsSearching certs s (reading name t) v k h =
          let (k', v') = go_on-IsValid d version m certs v (reading name t) k in
          ((k', after_read-IsTrying s.names s.rest name t _ h), v')
      search_at-IsSearching certs s (adding name t c) v k h =
          let (k', v') = go_on-IsValid d version m certs v (adding name t c) k in ((k', h), v')
      search_at-IsSearching certs s (served name t c) v k h = ((k, h), v)
      search_at-IsSearching certs s panicked v k h = ((tt, tt), v)

      -- Every step of a call keeps what it knows and the cache valid.
      pub search_on-IsSearching :
          (certs : FileCache d.Key) (s : Search d.Key)
          → IsValid d version certs m
          → IsSearching m s
          → IsSearching m (search_on d (see d version m) certs s).0
            × IsValid d version (search_on d (see d version m) certs s).1 m
      unfolding search_on
      search_on-IsSearching certs s v k = search_at-IsSearching certs s s.loading v k.0 k.1
