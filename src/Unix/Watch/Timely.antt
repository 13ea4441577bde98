-- ===== src/Unix/Watch/Timely.antt =====
-- unix/listener.go: when a watched listener closes its socket.
use go_listener.Common.{
  ℕ, suc, ◌≤◌, ◌<◌, ◌≡◌, ◌≢◌, refl, sym, ap, ◌∙◌, arith, Bool, true, false, not, ◌||◌, ◌∷◌, ◌++◌,
  ◌⊎◌, inl, inr, if◌then◌else◌, ==_iff, All, ok, err,
}
use mathlib.Core.Path.{subst}
use go_listener.Common.Text.{Bytes, codes, equal_refl}
use go_listener.System.{World, socket, Listener, Env}
use go_listener.Unix.{Files, lookup, listen, has_prefix, erase}
use go_listener.Unix.Laws.{IsFresh}
use go_listener.Unix.Cleanup.{Listened, listen-Listened}
use go_listener.Unix.Watch.{
  accept, err_closed, close, close_on, tick, Watched, IsConsistent, close_on-IsConsistent,
  tick-IsConsistent,
}
use go_listener.Unix.Watch.Files.{
  period, is_same, Surroundings, surroundings, seen, Step, closes, ticks, returns, passes, changes,
  Steps, stop, next,
}

module _ (h : ℕ) (path : Bytes) where
  -- What holds of the listener, with whether the path is the socket's now.
  abbrev IsTimely : Bool → Surroundings → Type 0
  IsTimely same s =
      ((s.watched.watching ≡ true → (s.replaced_for ≤ s.since_tick) × (s.since_tick ≤ period)))
      × (same ≡ true → s.replaced_for ≡ 0)
      × IsConsistent s.watched
      × (s.watched.watching ≡ false → (s.watched.closed ≡ true) ⊎ (s.disturbed ≡ true))
      × (same ≡ false → s.disturbed ≡ true)

  close-IsTimely :
      (b same : Bool) (s : Surroundings)
      → s.watched.closed ≡ b
      → IsTimely same s
      → IsTimely same (record s { watched = (close_on b s.watched).1 })
  unfolding close_on
  close-IsTimely true same s e i = i
  close-IsTimely false same s e (a, b, c, d, f) =
      (a, b, close_on-IsConsistent false s.watched e c, (λ q. inl refl), f)

  seen-eq-true :
      (failed : Bool) (files : Files)
      → is_same h (seen h path failed files) ≡ true
      → is_same h (lookup path files) ≡ true
  unfolding seen is_same
  seen-eq-true true files e = cc
  seen-eq-true false files e = e

  seen-eq-false :
      (failed : Bool) (files : Files)
      → is_same h (seen h path failed files) ≡ false
      → (failed ≡ true) ⊎ (is_same h (lookup path files) ≡ false)
  unfolding seen
  seen-eq-false true files e = inl refl
  seen-eq-false false files e = inr e

  or_true : (a b : Bool) → b ≡ true → (a || b) ≡ true
  or_true true b e = refl
  or_true false b e = e

  or_left : (a b : Bool) → a ≡ true → (a || b) ≡ true
  or_left a b e = ap (λ a. a || b) e

  now : Surroundings → Bool
  now s = is_same h (lookup path s.files)

  tick-IsTimely :
      (b failed : Bool) (s : Surroundings)
      → is_same h (seen h path failed s.files) ≡ b
      → IsTimely (now s) s
      → IsTimely (now s) (record s {
        watched = tick b s.watched;
        since_tick = 0;
        disturbed = failed || s.disturbed;
      })
  unfolding tick now
  tick-IsTimely true failed s e (a, b, c, d, f) = (
    (λ q. (omega (arith, b (seen-eq-true failed s.files e)), omega arith)),
    b,
    c,
    (λ q. elim (d q) [ inl k ↦ inl k | inr k ↦ inr (or_true failed s.disturbed k) ]),
    λ q. or_true failed s.disturbed (f q),
  )
  tick-IsTimely false failed s e (a, b, c, d, f) = (
    (λ q. cc),
    b,
    tick-IsConsistent false s.watched c,
    (λ q. elim (seen-eq-false failed s.files e) [
      | inl k ↦ inr (or_left failed s.disturbed k)
      | inr k ↦ inr (or_true failed s.disturbed (f k))
    ]),
    λ q. or_true failed s.disturbed (f q),
  )

  pass-IsTimely :
      (b : Bool) (s : Surroundings)
      → (s.since_tick < period) ⊎ (s.watched.watching ≡ false)
      → IsTimely b s
      → IsTimely b (record s {
        since_tick = suc s.since_tick;
        replaced_for = if b then 0 else suc s.replaced_for;
      })
  pass-IsTimely true s (inr w) (a, z, c, d, f) = ((λ q. cc), (λ q. refl), c, d, f)
  pass-IsTimely false s (inr w) (a, z, c, d, f) = ((λ q. cc), (λ q. cc), c, d, f)
  pass-IsTimely true s (inl l) (a, z, c, d, f) =
      ((λ q. (omega arith, omega (arith, l))), (λ q. refl), c, d, f)
  pass-IsTimely false s (inl l) (a, z, c, d, f) =
      ((λ q. (omega (arith, (a q).0), omega (arith, l))), (λ q. cc), c, d, f)

  change-IsTimely :
      (b b' : Bool) (files : Files) (s : Surroundings)
      → IsTimely b s
      → IsTimely b' (record s {
        files = files;
        replaced_for = if b' then 0 else s.replaced_for;
        disturbed = not b' || s.disturbed;
      })
  change-IsTimely b true files s (a, z, c, d, f) =
      ((λ q. (omega arith, (a q).1)), (λ q. refl), c, d, λ q. cc)
  change-IsTimely b false files s (a, z, c, d, f) = (a, (λ q. cc), c, (λ q. inr refl), λ q. refl)

  Step-IsTimely : (s t : Surroundings) → Step h path s t → IsTimely (now s) s → IsTimely (now t) t
  unfolding now close
  Step-IsTimely _ _ (closes s) i = close-IsTimely s.watched.closed (now s) s refl i
  Step-IsTimely _ _ (ticks failed s w e) i =
      tick-IsTimely (is_same h (seen h path failed s.files)) failed s refl i
  Step-IsTimely _ _ (returns s w e) (a, z, c, d, f) =
      ((λ q. cc), z, (c.0, λ q. cc), (λ q. inl e), f)
  Step-IsTimely _ _ (passes s l) i = pass-IsTimely (now s) s l i
  Step-IsTimely _ _ (changes files s) i =
      change-IsTimely (now s) (is_same h (lookup path files)) files s i

  Steps-IsTimely : (s t : Surroundings) → Steps h path s t → IsTimely (now s) s → IsTimely (now t) t
  Steps-IsTimely _ _ (stop s) i = i
  Steps-IsTimely _ _ (next s t u x xs) i = Steps-IsTimely t u xs (Step-IsTimely s t x i)

  timely :
      (s : Surroundings)
      → IsTimely (now s) s
      → ((s.replaced_for ≤ period) ⊎ (s.watched.socket_closed ≡ true))
        × ((s.watched.socket_closed ≡ false) ⊎ ((s.watched.closed ≡ true) ⊎ (s.disturbed ≡ true)))
  timely s (a, z, c, d, f) = go s.watched.watching s.watched.closed refl refl
    where
      go :
          (w k : Bool)
          → s.watched.watching ≡ w
          → s.watched.closed ≡ k
          → ((s.replaced_for ≤ period) ⊎ (s.watched.socket_closed ≡ true))
            × ((s.watched.socket_closed ≡ false)
                ⊎ ((s.watched.closed ≡ true) ⊎ (s.disturbed ≡ true)))
      go w true e q = (inr (c.0 q), inr (inl q))
      go true false e q = (inl (omega (arith, (a e).0, (a e).1)), inl (c.1 q ∙ ap not e))
      go false false e q = (inr (c.1 q ∙ ap not e), inr (d e))

accept-closed :
    {A : Type 0} (a : A) (w : Watched) → w.socket_closed ≡ true → accept a w ≡ err err_closed
unfolding accept
accept-closed a w e = ap (λ b. if b then err err_closed else ok a) e

answers :
    {A B C : Type 0} (s : Surroundings) (a : A)
    → (B ⊎ (s.watched.socket_closed ≡ true)) × C
    → (B ⊎ ((s.watched.socket_closed ≡ true) × (accept a s.watched ≡ err err_closed))) × C
answers s a (inl b, c) = (inl b, c)
answers s a (inr e, c) = (inr (e, accept-closed a s.watched e), c)

found :
    (h mode : ℕ) (path : Bytes) (files : Files)
    → is_same h (lookup path ((path, socket h mode) ∷ files)) ≡ true
unfolding lookup is_same
found h mode path files = rw (lookup, equal_refl path) ((==_iff h h).1 refl)

-- In a run of the watched listener that a successful `Listen` returned, from the files that this left
-- on, with the timer in time: if the path has not been the socket's for more than 5 seconds, the
-- socket is closed, and Accept returns the error of that; and it is closed only after `Close`, or if at some time the path was not the
-- socket's or `os.Lstat` failed. For `Listen`, the temporary directory is new, the path is outside
-- it, no removal fails, and the handles in use are below the next one.
pub listen-watched :
    (env : Env) (path : Bytes) (mode : ℕ) (w : World)
    → IsFresh env (env.temp_dir path) w.files
    → path ≢ env.temp_dir path
    → has_prefix path (env.temp_dir path ++ codes "/") ≡ false
    → All (λ h. h < w.next) w.live
    → (l : Listener) (w' : World) → listen env path mode w ≡ (ok l, w')
    → (s : Surroundings) → Steps w.next path (surroundings w'.files) s
    → {A : Type 0} (a : A)
    → ((s.replaced_for ≤ period)
        ⊎ ((s.watched.socket_closed ≡ true) × (accept a s.watched ≡ err err_closed)))
      × ((s.watched.socket_closed ≡ false) ⊎ ((s.watched.closed ≡ true) ⊎ (s.disturbed ≡ true)))
unfolding now
listen-watched env path mode w fresh elsewhere outside below l w' e s xs a = answers s a (
    timely w.next path s (
      Steps-IsTimely w.next path (surroundings w'.files) s xs (
        (λ q. (omega arith, omega arith)),
        (λ q. refl),
        ((λ q. cc), λ q. refl),
        (λ q. cc),
        λ q. let k : true ≡ false = sym there ∙ q in cc,
      )))
  where
    done : Listened path mode w (ok l) w'
    done =
        subst (λ r. Listened path mode w r.0 r.1) e
          (listen-Listened env path mode w fresh elsewhere outside below)

    there : is_same w.next (lookup path w'.files) ≡ true
    there =
        ap (λ fs. is_same w.next (lookup path fs)) done.1
        ∙ found w.next mode path (erase path w.files)
