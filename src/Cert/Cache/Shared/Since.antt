-- ===== src/Cert/Cache/Shared/Since.antt =====
-- cert/globalcache.go and the callers of cert/cache.go: how old what a call takes from a file may be.
use go_listener.Common.{
  ℕ, ◌≤◌, arith, Bool, true, false, Option, none, some, List, [], ◌∷◌, if◌then◌else◌, Outcome, ok,
  err, panic,
}
use go_listener.Common.Text.{Bytes}
use go_listener.Cert.Load.{Decoders, Certificate, LoadError}
use go_listener.Cert.Cache.{FileCache}
use go_listener.Cert.Cache.Versions.{Moment, Later, see, IsOf}
use go_listener.Cert.Cache.Shared.{
  Loading, getting, reading, adding, served, failed, panicked, Search, Call, stat, after_get,
  after_read, go_on, try_next, start, search_at, search_on,
}
use go_listener.Cert.Cache.Shared.Searching.{IsSearching}

module _ (d : Decoders) (version : Bytes → ℕ → Bytes) where
  -- The modification time that a call holds is not before that of the file at a moment.
  abbrev pub IsSince : Moment → Loading d.Key → Type 0
  IsSince began (getting name t) = began.latest name ≤ t
  IsSince began (reading name t) = began.latest name ≤ t
  IsSince began (adding name t cert) = began.latest name ≤ t
  IsSince began (served name t cert) = began.latest name ≤ t
  IsSince began (failed e) = Unit
  IsSince began panicked = Unit

  -- A call that knows its file, and of which the files have not grown older since it began.
  abbrev pub IsCall : Moment → Call d.Key → Type 0
  IsCall m c = IsSearching d version m c.search × Later c.began m × IsSince c.began c.search.loading

  pub IsOf-since :
      (name : Bytes) (lo t hi : ℕ) (cert : Certificate d.Key)
      → lo ≤ t
      → IsOf d version name t hi cert
      → IsOf d version name lo hi cert
  IsOf-since name lo t hi cert h (k, a, b, l) = (k, omega arith, b, l)

  module _ (began m : Moment) (later : Later began m) where
    stat-IsSince : (name : Bytes) → IsSince began (stat d name (see d version m name))
    unfolding stat
    stat-IsSince name = go (m.present name)
      where
        go :
            (b : Bool)
            → IsSince began (
                stat d name (
                  if b
                  then some
                      (record { modified = m.latest name; contents = version name (m.latest name) })
                  else none))
        go true = later name
        go false = tt

    try_next-IsSince :
        (names : List Bytes) (e : LoadError) (rest : List Bytes)
        → IsSince began (try_next d (see d version m) names e rest).loading
    unfolding try_next
    try_next-IsSince names e [] = tt
    try_next-IsSince names e (name ∷ rest) = stat-IsSince name

    pub start-IsSince :
        (names : List Bytes) → IsSince began (start d (see d version m) names).loading
    unfolding start
    start-IsSince names = try_next-IsSince names LoadError.no_file names

    after_get-IsSince :
        (name : Bytes) (t : ℕ) (o : Option (Certificate d.Key))
        → began.latest name ≤ t
        → IsSince began (after_get d name t o)
    unfolding after_get
    after_get-IsSince name t none h = h
    after_get-IsSince name t (some cert) h = h

    after_read-IsSince :
        (name : Bytes) (t : ℕ) (r : Outcome LoadError (Certificate d.Key))
        → began.latest name ≤ t
        → IsSince began (after_read d name t r)
    unfolding after_read
    after_read-IsSince name t (ok cert) h = h
    after_read-IsSince name t (err e) h = tt
    after_read-IsSince name t panic h = tt

    search_at-IsSince :
        (certs : FileCache d.Key) (s : Search d.Key) (l : Loading d.Key)
        → IsSince began l
        → IsSince began (search_at d (see d version m) certs s l).0.loading
    unfolding search_at go_on
    search_at-IsSince certs s (failed e) h = try_next-IsSince s.names e s.rest
    search_at-IsSince certs s (getting name t) h = after_get-IsSince name t _ h
    search_at-IsSince certs s (reading name t) h = after_read-IsSince name t _ h
    search_at-IsSince certs s (adding name t cert) h = h
    search_at-IsSince certs s (served name t cert) h = h
    search_at-IsSince certs s panicked h = tt

    pub search_on-IsSince :
        (certs : FileCache d.Key) (s : Search d.Key)
        → IsSince began s.loading
        → IsSince began (search_on d (see d version m) certs s).0.loading
    unfolding search_on
    search_on-IsSince certs s h = search_at-IsSince certs s s.loading h
