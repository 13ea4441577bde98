-- ===== src/Cert/Cache/Fresh.antt =====
-- cert/cache.go: the versions of a file whose certificates the cache serves.
use go_listener.Common.{
  ℕ, ◌≡◌, refl, Bool, true, false, Option, none, some, if◌then◌else◌, ltb, ok, panic, ap, ◌∙◌,
  Outcome, ◌>>=◌, >>=-eq-ok,
}
use go_listener.Common.Text.{Bytes}
use go_listener.Cert.Load.{Decoders, Certificate}
use go_listener.Cert.Load.Format.{load_certificate-IsLoaded}
use go_listener.Cert.Cache.{
  CachedFile, FileCache, new_file_cache, load, is_expired, keep, clean, Cleaned,
}
use go_listener.Cert.Cache.Versions.{Moment, Later, see, IsOf, IsValid, IsValid-later, load-Loaded}

module _ (d : Decoders) (version : Bytes → ℕ → Bytes) where
  keep-eq-some :
      (now : ℕ) (o : Option (CachedFile d.Key)) (c : CachedFile d.Key)
      → keep d now o ≡ ok (some c)
      → o ≡ some c
  unfolding keep
  keep-eq-some now none c h = cc
  keep-eq-some now (some x) c h =
      let (expired, e, q) = >>=-eq-ok (is_expired d now x) _ h in go expired q
    where
      go :
          (b : Bool)
          → Path
              (Outcome (Unit {0}) (Option (CachedFile d.Key)))
              (ok (if b then none else some x))
              (ok (some c))
          → some x ≡ some c
      go true q = cc
      go false q = cc

  pub clean-IsValid :
      (now : ℕ) (m : Moment) (certs certs' : FileCache d.Key)
      → Cleaned d now certs certs'
      → IsValid d version certs m
      → IsValid d version certs' m
  unfolding clean
  clean-IsValid now m certs certs' k v name c e =
      v name c (keep-eq-some now (certs name) c (k name ∙ ap ok e))

  -- The caches that loads and cleanings make of a new one while the files change.
  pub data Reachable : FileCache d.Key → Moment → Type 0 where
    reach_new : (m : Moment) → Reachable new_file_cache m
    reach_load :
        (certs : FileCache d.Key) (m before after : Moment) (name : Bytes)
        → Reachable certs m
        → Later m before
        → Later before after
        → Reachable (load d certs name (see d version before) (see d version after)).1 after
    reach_clean :
        (certs certs' : FileCache d.Key) (m : Moment) (now : ℕ)
        → Reachable certs m
        → Cleaned d now certs certs'
        → Reachable certs' m

  Reachable-IsValid :
      (certs : FileCache d.Key) (m : Moment) → Reachable certs m → IsValid d version certs m
  Reachable-IsValid _ _ (reach_new m) = λ name c e. cc
  Reachable-IsValid _ _ (reach_load certs m before after name r l l') =
      (load-Loaded d version before after l' certs
        (IsValid-later d version m before l certs (Reachable-IsValid certs m r)) name).1
  Reachable-IsValid _ _ (reach_clean certs certs' m now r k) =
      clean-IsValid now m certs certs' k (Reachable-IsValid certs m r)

  -- Whatever was loaded and cleaned before, and even if the file is replaced while it is read, `Load`
  -- returns the certificate of a version of the file that is not older than the file was at the call
  -- nor newer than at the return, if modification times do not go back and change with the contents.
  pub load-IsOf :
      (certs : FileCache d.Key) (m before after : Moment)
      → Reachable certs m
      → Later m before
      → Later before after
      → (name : Bytes) (cert : Certificate d.Key)
      → (load d certs name (see d version before) (see d version after)).0 ≡ ok cert
      → IsOf d version name (before.latest name) (after.latest name) cert
  load-IsOf certs m before after r l l' name =
      (load-Loaded d version before after l' certs
        (IsValid-later d version m before l certs (Reachable-IsValid certs m r)) name).0

  keep-leaf :
      (now t : ℕ) (o : Option (CachedFile d.Key)) (c : CachedFile d.Key)
      → o ≡ some c
      → c.certificate.leaf_not_after ≡ some t
      → keep d now o ≡ ok (if ltb t now then none else some c)
  unfolding keep is_expired
  keep-leaf now t none c e h = cc
  keep-leaf now t (some x) c e h =
      let q : x ≡ c = cc in rw q (expired c.certificate.leaf_not_after h)
    where
      expired :
          (l : Option ℕ)
          → l ≡ some t
          → Path
              (Outcome (Unit {0}) (Option (CachedFile d.Key)))
              ((elim l [ none ↦ panic | some t ↦ ok (ltb t now) ]) >>= λ b.
                ok (if b then none else some c))
              (ok (if ltb t now then none else some c))
      expired none h = cc
      expired (some u) h = let q : u ≡ t = cc in rw q refl

  -- In a valid cache.
  pub valid-clean :
      (certs : FileCache d.Key) (m : Moment)
      → IsValid d version certs m
      → (now : ℕ) (name : Bytes) (c : CachedFile d.Key) → certs name ≡ some c
      → (t : ℕ) × (c.certificate.leaf_not_after ≡ some t)
        × (clean d now certs name ≡ ok (if ltb t now then none else some c))
  unfolding clean
  valid-clean certs m valid now name c e =
      let (v, a, b, q) = valid name c e in
      let (p1, p2, p3, p4, p5, p6, leaf, rest, t, p7, p8, p9) =
        load_certificate-IsLoaded d (version name v) c.certificate q in
      (t, p9, keep-leaf now t (certs name) c e p9)

  -- In a cache that loads and cleanings have made of a new one.
  clean_lem :
      (certs : FileCache d.Key) (m : Moment)
      → Reachable certs m
      → (now : ℕ) (name : Bytes) (c : CachedFile d.Key) → certs name ≡ some c
      → (t : ℕ) × (c.certificate.leaf_not_after ≡ some t)
        × (clean d now certs name ≡ ok (if ltb t now then none else some c))
  clean_lem certs m r = valid-clean certs m (Reachable-IsValid certs m r)
