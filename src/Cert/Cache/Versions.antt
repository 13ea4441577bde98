-- ===== src/Cert/Cache/Versions.antt =====
-- cert/cache.go: one call of `Load`, and the versions of the files.
use go_listener.Common.{
  ℕ, ◌≤◌, ◌≡◌, refl, ap, sym, ◌∙◌, arith, Bool, true, false, Option, none, some, if◌then◌else◌,
  ◌==◌, ==_iff, Outcome, ok, err, panic, ◌⊎◌, inl, inr,
}
use go_listener.Common.Text.{Bytes, equal, equal_iff}
use go_listener.Cert.Load.{Decoders, Certificate, LoadError, load_certificate}
use go_listener.Cert.Cache.{
  CachedFile, FileCache, Snapshot, get, add, fresh, store, load_fresh, load_stat, load,
}

-- The files at one time: when each was modified last, and whether it is there.
pub record Moment : Type 0 where
  pub latest : Bytes → ℕ
  pub present : Bytes → Bool

-- Modification times do not go back.
abbrev pub Later : Moment → Moment → Type 0
Later m m' = (name : Bytes) → m.latest name ≤ m'.latest name

if-some :
    {A : Type 0} (b : Bool) (x c : A) (y : Option A)
    → (if b then some x else y) ≡ some c
    → ((b ≡ true) × (x ≡ c)) ⊎ ((b ≡ false) × (y ≡ some c))
if-some true x c y h = inl (refl, cc)
if-some false x c y h = inr (refl, h)

-- `version` gives what a file holds since it was modified at a time.
module _ (d : Decoders) (version : Bytes → ℕ → Bytes) where
  abbrev pub see : Moment → Snapshot
  see m name =
      if m.present name
      then some (record { modified = m.latest name; contents = version name (m.latest name) })
      else none

  -- The certificate is of a version of the file from one time to another.
  abbrev pub IsOf : Bytes → ℕ → ℕ → Certificate d.Key → Type 0
  IsOf name lo hi cert =
      (t : ℕ) × (lo ≤ t) × (t ≤ hi) × (load_certificate d (some (version name t)) ≡ ok cert)

  pub IsOf-mono :
      (name : Bytes) (lo hi hi' : ℕ) (cert : Certificate d.Key)
      → hi ≤ hi'
      → IsOf name lo hi cert
      → IsOf name lo hi' cert
  IsOf-mono name lo hi hi' cert h (t, a, b, c) = (t, a, omega arith, c)

  -- Each certificate in the cache is of a version from the time that it stands under on.
  abbrev pub IsValid : FileCache d.Key → Moment → Type 0
  IsValid certs m =
      (name : Bytes) (cached : CachedFile d.Key)
      → certs name ≡ some cached
      → IsOf name cached.mod_time (m.latest name) cached.certificate

  -- The result of a load.
  abbrev Loaded :
      Bytes → Moment → Moment → Outcome LoadError (Certificate d.Key) × FileCache d.Key → Type 0
  Loaded name before after (r, certs) =
      ((cert : Certificate d.Key)
        → r ≡ ok cert
        → IsOf name (before.latest name) (after.latest name) cert)
      × IsValid certs after

  module _ (before after : Moment) (later : Later before after) (certs : FileCache d.Key)
      (valid : IsValid certs before) where
    pub IsValid-later : IsValid certs after
    IsValid-later name cached e =
        IsOf-mono name cached.mod_time (before.latest name) (after.latest name) cached.certificate
          (later name) (valid name cached e)

    fresh-IsOf :
        (name : Bytes) (cert : Certificate d.Key)
        → fresh d (get d certs name) (before.latest name) ≡ some cert
        → IsOf name (before.latest name) (after.latest name) cert
    unfolding fresh get
    fresh-IsOf name cert h = go (certs name) refl h
      where
        go :
            (o : Option (CachedFile d.Key))
            → certs name ≡ o
            → fresh d o (before.latest name) ≡ some cert
            → IsOf name (before.latest name) (after.latest name) cert
        go none e h = cc
        go (some cached) e h =
            elim (if-some (cached.mod_time == before.latest name) cached.certificate cert none h) [
              | inl (t, q) ↦
                  let (v, a, b, c) = valid name cached e in
                  (
                    v,
                    omega (arith, (==_iff cached.mod_time (before.latest name)).0 t, a),
                    omega (arith, b, later name),
                    c ∙ ap ok q,
                  )
              | inr (f, q) ↦ cc
            ]

    pub IsValid-add :
        (name : Bytes) (cached : CachedFile d.Key)
        → IsOf name cached.mod_time (after.latest name) cached.certificate
        → IsValid (add d certs name cached) after
    unfolding add
    IsValid-add name cached o key c e = elim (if-some (equal name key) cached c (certs key) e) [
      | inl (t, q) ↦ rw (sym q, sym ((equal_iff name key).0 t)) o
      | inr (f, q) ↦ IsValid-later key c q
    ]

    store-Loaded :
        (name : Bytes) (r : Outcome LoadError (Certificate d.Key))
        → load_certificate d (some (version name (after.latest name))) ≡ r
        → Loaded name before after (store d certs name (before.latest name) r)
    unfolding store
    store-Loaded name (ok cert) e = (
      (λ c q. rw (let q' : c ≡ cert = cc in q') now),
      IsValid-add name (record { certificate = cert; mod_time = before.latest name }) now,
    )
      where
        now : IsOf name (before.latest name) (after.latest name) cert
        now = (after.latest name, later name, omega arith, e)
    store-Loaded name (err x) e = ((λ c q. cc), IsValid-later)
    store-Loaded name panic e = ((λ c q. cc), IsValid-later)

    unstored : (name : Bytes) (x : LoadError) → Loaded name before after (err x, certs)
    unstored name x = ((λ c q. cc), IsValid-later)

    load_fresh-Loaded :
        (name : Bytes) (o : Option (Certificate d.Key)) (there : Bool)
        → fresh d (get d certs name) (before.latest name) ≡ o
        → Loaded name before after (
            load_fresh d certs name
              (before.latest name)
              (if there
                then some (record {
                  modified = after.latest name;
                  contents = version name (after.latest name);
                })
                else none)
              o)
    unfolding load_fresh
    load_fresh-Loaded name (some cert) there h =
        ((λ c q. rw (let q' : c ≡ cert = cc in q') (fresh-IsOf name cert h)), IsValid-later)
    load_fresh-Loaded name none true h =
        store-Loaded name (load_certificate d (some (version name (after.latest name)))) refl
    load_fresh-Loaded name none false h = unstored name LoadError.no_file

    -- `Load` returns the certificate of a version of the file that is not older than the one at the
    -- call nor newer than the one at the return, and keeps the cache valid.
    pub load-Loaded :
        (name : Bytes) → Loaded name before after (load d certs name (see before) (see after))
    unfolding load load_stat
    load-Loaded name = go (before.present name)
      where
        go :
            (p : Bool)
            → Loaded name before after (
                load_stat d certs name
                  (if p
                    then some (record {
                      modified = before.latest name;
                      contents = version name (before.latest name);
                    })
                    else none)
                  (see after name))
        go true =
            load_fresh-Loaded name (fresh d (get d certs name) (before.latest name))
              (after.present name) refl
        go false = unstored name LoadError.no_file
