-- ===== src/Cert/Cache/Shared/Versioned.antt =====
-- cert/cache.go and cert/globalcache.go: what overlapping calls are served.
use go_listener.Common.{
  ℕ, ◌≡◌, ◌≤◌, refl, arith, Option, none, some, Outcome, ok, err, panic, Bool, true, false,
  if◌then◌else◌, ◌==◌, ==_iff,
}
use go_listener.Common.Text.{Bytes}
use go_listener.Cert.Load.{Decoders, Certificate, LoadError, load_certificate}
use go_listener.Cert.Cache.{CachedFile, FileCache, contents_of, get, fresh}
use go_listener.Cert.Cache.Versions.{Moment, Later, see, IsOf, IsOf-mono, IsValid, IsValid-add}
use go_listener.Cert.Cache.Shared.{
  Loading, getting, reading, adding, served, failed, panicked, stat, after_get, after_read, go_on,
}

module _ (d : Decoders) (version : Bytes → ℕ → Bytes) where
  -- What a goroutine knows of its file.
  abbrev pub IsLoading : Moment → Loading d.Key → Type 0
  IsLoading m (getting name t) = t ≤ m.latest name
  IsLoading m (reading name t) = t ≤ m.latest name
  IsLoading m (adding name t cert) = IsOf d version name t (m.latest name) cert
  IsLoading m (served name t cert) = IsOf d version name t (m.latest name) cert
  IsLoading m (failed e) = Unit
  IsLoading m panicked = Unit

  pub IsLoading-mono :
      (m m' : Moment) → Later m m' → (l : Loading d.Key) → IsLoading m l → IsLoading m' l
  IsLoading-mono m m' h (getting name t) v = omega (arith, h name)
  IsLoading-mono m m' h (reading name t) v = omega (arith, h name)
  IsLoading-mono m m' h (adding name t cert) v =
      IsOf-mono d version name t (m.latest name) (m'.latest name) cert (h name) v
  IsLoading-mono m m' h (served name t cert) v =
      IsOf-mono d version name t (m.latest name) (m'.latest name) cert (h name) v
  IsLoading-mono m m' h (failed e) v = tt
  IsLoading-mono m m' h panicked v = tt

  module _ (m : Moment) where
    pub stat-IsLoading : (name : Bytes) → IsLoading m (stat d name (see d version m name))
    unfolding stat
    stat-IsLoading name = go (m.present name)
      where
        go :
            (b : Bool)
            → IsLoading m (
                stat d name (
                  if b
                  then some
                      (record { modified = m.latest name; contents = version name (m.latest name) })
                  else none))
        go true = omega arith
        go false = tt

    module _ (certs : FileCache d.Key) (valid : IsValid d version certs m) where
      get-IsLoading :
          (name : Bytes) (t : ℕ)
          → t ≤ m.latest name
          → IsLoading m (after_get d name t (fresh d (get d certs name) t))
      unfolding after_get fresh get
      get-IsLoading name t h = go (certs name) refl
        where
          hit :
              (c : CachedFile d.Key)
              → certs name ≡ some c
              → (b : Bool) → (c.mod_time == t) ≡ b
              → IsLoading m (after_get d name t (if b then some c.certificate else none))
          hit c e true q =
              let (v, a, b, l) = valid name c e in
              (v, omega (arith, (==_iff c.mod_time t).0 q, a), b, l)
          hit c e false q = h

          go :
              (o : Option (CachedFile d.Key))
              → certs name ≡ o
              → IsLoading m (after_get d name t (fresh d o t))
          go none e = h
          go (some c) e = hit c e (c.mod_time == t) refl

      read-IsLoading :
          (name : Bytes) (t : ℕ)
          → t ≤ m.latest name
          → IsLoading m
              (after_read d name t (load_certificate d (contents_of d (see d version m name))))
      unfolding after_read load_certificate
      read-IsLoading name t h = go (m.present name)
        where
          found :
              (o : Outcome LoadError (Certificate d.Key))
              → load_certificate d (some (version name (m.latest name))) ≡ o
              → IsLoading m (after_read d name t o)
          found (ok cert) e = (m.latest name, h, omega arith, e)
          found (err x) e = tt
          found panic e = tt

          go :
              (b : Bool)
              → IsLoading m (
                  after_read d name t (
                    load_certificate d (
                      contents_of d (
                        if b
                        then some (record {
                          modified = m.latest name;
                          contents = version name (m.latest name);
                        })
                        else none))))
          go true = found _ refl
          go false = tt

      -- Every step of a load keeps what it knows and the cache valid.
      pub go_on-IsValid :
          (l : Loading d.Key)
          → IsLoading m l
          → IsLoading m (go_on d (see d version m) certs l).0
            × IsValid d version (go_on d (see d version m) certs l).1 m
      unfolding go_on
      go_on-IsValid (getting name t) h = (get-IsLoading name t h, valid)
      go_on-IsValid (reading name t) h = (read-IsLoading name t h, valid)
      go_on-IsValid (adding name t cert) h = (
        h,
        IsValid-add d version m m (λ n. omega arith) certs valid name
            (record { certificate = cert; mod_time = t }) h,
      )
      go_on-IsValid (served name t cert) h = (h, valid)
      go_on-IsValid (failed e) h = (tt, valid)
      go_on-IsValid panicked h = (tt, valid)
