-- ===== src/Cert/Cache/Shared/Runs.antt =====
-- cert/globalcache.go and the callers of cert/cache.go: runs of a process.
use go_listener.Common.{
  ℕ, suc, ◌≡◌, refl, arith, ap, ok, ltb, if◌then◌else◌, Option, none, some, List, [], ◌∷◌, ◌++◌,
  All, All-append, All-split,
}
use mathlib.Core.Path.{subst}
use go_listener.Common.Text.{Bytes}
use go_listener.Cert.Load.{Decoders, Certificate}
use go_listener.Cert.Cache.{FileCache, CachedFile, clean}
use go_listener.Cert.Cache.Versions.{Moment, Later, IsOf, IsValid, IsValid-later}
use go_listener.Cert.Cache.Fresh.{clean-IsValid, valid-clean}
use go_listener.Cert.Cache.Shared.{
  served, Call, Global, Process, init_global, new_process, Step, makes, calls, goes, cleans,
  changes, Steps, stop, next,
}
use go_listener.Cert.Cache.Shared.Versioned.{IsLoading, IsLoading-mono}
use go_listener.Cert.Cache.Shared.Searching.{IsTrying, start-IsSearching, search_on-IsSearching}
use go_listener.Cert.Cache.Shared.Since.{
  IsSince, IsCall, IsOf-since, start-IsSince, search_on-IsSince,
}

module _ (d : Decoders) (version : Bytes → ℕ → Bytes) where
  -- There is at most one cache, with one goroutine that cleans it, and what it holds is valid.
  abbrev IsGlobal : Moment → Option (FileCache d.Key) → ℕ → Type 0
  IsGlobal m none cleaners = cleaners ≡ 0
  IsGlobal m (some certs) cleaners = (cleaners ≡ 1) × IsValid d version certs m

  abbrev IsProcess : Process d.Key → Type 0
  IsProcess p =
      IsGlobal p.files p.global.cache p.global.cleaners × All (IsCall d version p.files) p.searches

  init-IsGlobal :
      (m : Moment) (g : Global d.Key) (o : Option (FileCache d.Key))
      → g.cache ≡ o
      → IsGlobal m o g.cleaners
      → IsGlobal m (init_global o g).cache (init_global o g).cleaners
  init-IsGlobal m g none e v = (ap suc v, λ name c q. cc)
  init-IsGlobal m g (some certs) e v = rw e v

  IsGlobal-mono :
      (m m' : Moment) (o : Option (FileCache d.Key)) (n : ℕ)
      → Later m m'
      → IsGlobal m o n
      → IsGlobal m' o n
  IsGlobal-mono m m' none n h v = v
  IsGlobal-mono m m' (some certs) n h v = (v.0, IsValid-later d version m m' h certs v.1)

  searches_mono :
      (m m' : Moment) (cs : List (Call d.Key))
      → Later m m'
      → All (IsCall d version m) cs
      → All (IsCall d version m') cs
  searches_mono m m' [] h a = tt
  searches_mono m m' (c ∷ cs) h ((s, began, since), a) = (
    (
      (IsLoading-mono d version m m' h c.search.loading s.0, s.1),
      (λ name. omega (arith, began name, h name)),
      since,
    ),
    searches_mono m m' cs h a,
  )

  global-some :
      (p : Process d.Key) (certs : FileCache d.Key)
      → p.global.cache ≡ some certs
      → IsProcess p
      → (p.global.cleaners ≡ 1) × IsValid d version certs p.files
  global-some p certs e v = subst (λ o. IsGlobal p.files o p.global.cleaners) e v.0

  Step-IsProcess : (p q : Process d.Key) → Step d version p q → IsProcess p → IsProcess q
  Step-IsProcess _ _ (makes p) v = (init-IsGlobal p.files p.global p.global.cache refl v.0, v.1)
  Step-IsProcess _ _ (calls p certs names e) v = (
    v.0,
    (
      (
        start-IsSearching d version p.files names,
        (λ name. omega arith),
        start-IsSince d version p.files p.files (λ name. omega arith) names,
      ),
      v.1,
    ),
  )
  Step-IsProcess _ _ (goes p certs before after c e q) v =
      let (b, ((s, began, since), cs)) =
        All-split (IsCall d version p.files) before (c ∷ after)
          (subst (All (IsCall d version p.files)) q v.1) in
      let (one, valid) = global-some p certs e v in
      let (s', valid') = search_on-IsSearching d version p.files certs c.search valid s in
      let since' = search_on-IsSince d version c.began p.files began certs c.search since in
      ((one, valid'), All-append (IsCall d version p.files) before _ b ((s', began, since'), cs))
  Step-IsProcess _ _ (cleans p certs certs' now e pos k) v =
      let (one, valid) = global-some p certs e v in
      ((one, clean-IsValid d version now p.files certs certs' k valid), v.1)
  Step-IsProcess _ _ (changes p m h) v = (
    IsGlobal-mono p.files m p.global.cache p.global.cleaners h v.0,
    searches_mono p.files m p.searches h v.1,
  )

  Steps-IsProcess : (p q : Process d.Key) → Steps d version p q → IsProcess p → IsProcess q
  Steps-IsProcess _ _ (stop p) v = v
  Steps-IsProcess _ _ (next p q r xs x) v = Step-IsProcess q r x (Steps-IsProcess p q xs v)

  cleaned :
      (m : Moment) (o : Option (FileCache d.Key)) (n : ℕ)
      → IsGlobal m o n
      → n ≡ (elim o [ none ↦ 0 | some certs ↦ 1 ])
  cleaned m none n v = v
  cleaned m (some certs) n v = v.0

  -- In every run of a process, whatever functions it makes and however their calls, the cleaning and
  -- the changes of the files interleave, there is at most one cache, with one goroutine that cleans
  -- it; and a call that returns a certificate returns that of one of its files, of a version that is
  -- not older than the file was when the call began nor newer than at the return, if modification
  -- times do not go back and change with the contents.
  pub new_process-served :
      (m : Moment) (p : Process d.Key)
      → Steps d version (new_process m) p
      → (before after : List (Call d.Key)) (c : Call d.Key) → p.searches ≡ before ++ c ∷ after
      → (name : Bytes) (t : ℕ) (cert : Certificate d.Key) → c.search.loading ≡ served name t cert
      → (p.global.cleaners ≡ (elim p.global.cache [ none ↦ 0 | some certs ↦ 1 ]))
        × ((tried : List Bytes) × (c.search.names ≡ tried ++ name ∷ c.search.rest))
        × IsOf d version name (c.began.latest name) (p.files.latest name) cert
  new_process-served m p xs before after c q name t cert e =
      let v = Steps-IsProcess (new_process m) p xs (refl, tt) in
      let (s, began, since) =
        (All-split (IsCall d version p.files) before (c ∷ after)
          (subst (All (IsCall d version p.files)) q v.1)).1.0 in
      let (l, tried) =
        subst (λ l. IsLoading d version p.files l × IsTrying d c.search.names c.search.rest l) e
          s in
      let later = subst (IsSince d version c.began) e since in
      (
        cleaned p.files p.global.cache p.global.cleaners v.0,
        tried,
        IsOf-since d version name (c.began.latest name) t (p.files.latest name) cert later l,
      )

  -- In every run of a process, whatever interleaves, while modification times do not go back and change
  -- with the contents, every certificate in the cache has a leaf, so that `Clean` does not panic at it,
  -- and it drops the certificate exactly if the end of its validity lies before the time of the cleaning.
  pub new_process-clean :
      (m : Moment) (p : Process d.Key)
      → Steps d version (new_process m) p
      → (certs : FileCache d.Key) → p.global.cache ≡ some certs
      → (now : ℕ) (name : Bytes) (c : CachedFile d.Key) → certs name ≡ some c
      → (t : ℕ) × (c.certificate.leaf_not_after ≡ some t)
        × (clean d now certs name ≡ ok (if ltb t now then none else some c))
  new_process-clean m p xs certs e =
      valid-clean d version certs p.files
        (global-some p certs e (Steps-IsProcess (new_process m) p xs (refl, tt))).1
