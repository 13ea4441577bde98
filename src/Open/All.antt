-- ===== src/Open/All.antt =====
-- open.go and close.go: the sockets of `OpenAll` and `CloseAll`.
use go_listener.Common.{
  ℕ, suc, ◌<◌, ◌≤◌, ◌≡◌, refl, ap, sym, ◌∙◌, arith, List, [], ◌∷◌, ◌++◌, ok, err, panic, Outcome,
  length, length-append,
}
use mathlib.Core.List.{append_assoc}
use go_listener.Common.Text.{Bytes}
use go_listener.System.{
  World, OpenError, in_spec, Listener, net_listener, watched_listener, proxy_listener, tls_listener,
  M, Env, continue, handle_of, close, close_handle, remove_handle,
}
use go_listener.System.Sockets.{AreBelow, AreBelow-mono, Opened, IsTidy, remove_handle-fresh}
use go_listener.Registry.{Registry}
use go_listener.Open.{open_spec, close_all, open_all_next, open_all_onto, open_all}
use go_listener.Open.Sockets.{CustomIsTidy, open_spec-IsTidy}

close_lem : (l : Listener) (w : World) → close l w ≡ close_handle (handle_of l) w
unfolding close
close_lem (net_listener h b) w = refl
close_lem (watched_listener h p) w = refl
close_lem (proxy_listener l) w = close_lem l w
close_lem (tls_listener c l) w = close_lem l w

-- The open sockets after opening these listeners in turn, newest first.
abbrev pub opened : List Listener → List ℕ → List ℕ
opened [] hs = hs
opened (l ∷ ls) hs = opened ls (handle_of l ∷ hs)

opened-append :
    (ls : List Listener) (l : Listener) (hs : List ℕ)
    → opened (ls ++ l ∷ []) hs ≡ handle_of l ∷ opened ls hs
opened-append [] l hs = refl
opened-append (x ∷ ls) l hs = opened-append ls l (handle_of x ∷ hs)

-- The handles rise, from `n` on and below `m`.
abbrev Rising : ℕ → List Listener → ℕ → Type 0
Rising n [] m = n ≤ m
Rising n (l ∷ ls) m = (n ≤ handle_of l) × Rising (suc (handle_of l)) ls m

Rising-append :
    (n m k : ℕ) (ls : List Listener) (l : Listener)
    → Rising n ls m
    → m ≤ handle_of l
    → handle_of l < k
    → Rising n (ls ++ l ∷ []) k
Rising-append n m k [] l r p q = (omega arith, omega arith)
Rising-append n m k (x ∷ ls) l r p q = (r.0, Rising-append (suc (handle_of x)) m k ls l r.1 p q)

opened-AreBelow :
    (n m : ℕ) (ls : List Listener) (hs : List ℕ)
    → Rising n ls m
    → AreBelow n hs
    → AreBelow m (opened ls hs)
opened-AreBelow n m [] hs r b = AreBelow-mono n m hs r b
opened-AreBelow n m (x ∷ ls) hs r b =
    opened-AreBelow (suc (handle_of x)) m ls (handle_of x ∷ hs) r.1
      (omega arith, AreBelow-mono n (suc (handle_of x)) hs (omega arith) b)

remove_handle-opened :
    (h n m : ℕ) (ls : List Listener) (hs : List ℕ)
    → h < n
    → Rising n ls m
    → remove_handle h (opened ls hs) ≡ opened ls (remove_handle h hs)
unfolding remove_handle
remove_handle-opened h n m [] hs lt r = refl
remove_handle-opened h n m (x ∷ ls) hs lt r =
    remove_handle-opened h (suc (handle_of x)) m ls (handle_of x ∷ hs) (omega arith) r.1
    ∙ ap (opened ls) (ground arith)

removed_self : (h : ℕ) (hs : List ℕ) → AreBelow h hs → remove_handle h (h ∷ hs) ≡ hs
unfolding remove_handle
removed_self h hs b = ground (arith, remove_handle-fresh h hs b)

-- `CloseAll` of listeners opened in turn leaves the sockets that were open before.
close_all-opened :
    (n m : ℕ) (ls : List Listener) (hs : List ℕ) (w : World)
    → Rising n ls m
    → AreBelow n hs
    → w.live ≡ opened ls hs
    → (close_all ls w).live ≡ hs
unfolding close_all close_handle
close_all-opened n m [] hs w r b e = e
close_all-opened n m (x ∷ ls) hs w r b e =
    rw (close_all, close_lem x w)
      (close_all-opened (suc h) m ls hs (close_handle h w) r.1
        (AreBelow-mono n (suc h) hs (omega arith) b) left)
  where
    h : ℕ
    h = handle_of x

    gone : remove_handle h (h ∷ hs) ≡ hs
    gone = removed_self h hs (AreBelow-mono n h hs r.0 b)

    left : (close_handle h w).live ≡ opened ls hs
    left =
        ap (remove_handle h) e
        ∙ remove_handle-opened h (suc h) m ls (h ∷ hs) (omega arith) r.1
        ∙ ap (opened ls) gone

module _ (opens : Bytes → M Listener) (opens_all : List Bytes → M (List Listener)) where
  -- Where opening these in the world `w` stops: those before a specification have been opened, as the
  -- listeners `ls`, and opening this one ends in `r`.
  abbrev pub StopsAt :
      World → List Bytes → Outcome OpenError Listener → Bytes → List Listener → Type 0
  StopsAt w specs r spec ls =
      (before after : List Bytes) × (u : World) × (specs ≡ before ++ spec ∷ after)
      × (opens_all before w ≡ (ok ls, u))
      × ((opens spec u).0 ≡ r)

  -- The result of opening these specifications in a world that was `w`: a listener for each, and their
  -- sockets open beside the old ones, which `CloseAll` leaves alone; or the error of the first one that
  -- fails, under its name, and the old ones alone; or a panic at one, with the sockets of those before
  -- it still open.
  abbrev pub OpenedAll : World → List Bytes → Outcome OpenError (List Listener) → World → Type 0
  OpenedAll w specs (ok ls) w' =
      (length ls ≡ length specs) × (w'.live ≡ opened ls w.live) × ((close_all ls w').live ≡ w.live)
  OpenedAll w specs (err e) w' =
      (w'.live ≡ w.live)
      × (spec : Bytes) × (inner : OpenError) × (ls : List Listener) × (e ≡ in_spec spec inner)
      × StopsAt w specs (err inner) spec ls
  OpenedAll w specs panic w' =
      (spec : Bytes) × (ls : List Listener) × (w'.live ≡ opened ls w.live)
      × StopsAt w specs panic spec ls

module _ (opens : Bytes → M Listener) (ls : List Listener) (spec : Bytes) (specs : List Bytes)
    (u u' : World) where
  onto-ok :
      (l : Listener)
      → opens spec u ≡ (ok l, u')
      → open_all_onto opens ls (spec ∷ specs) u ≡ open_all_onto opens (ls ++ l ∷ []) specs u'
  unfolding open_all_onto open_all_next
  onto-ok l h = ap (open_all_next (λ ls. open_all_onto opens ls specs) ls spec) h

  onto-err :
      (e : OpenError)
      → opens spec u ≡ (err e, u')
      → open_all_onto opens ls (spec ∷ specs) u ≡ (err (in_spec spec e), close_all ls u')
  unfolding open_all_onto open_all_next
  onto-err e h = ap (open_all_next (λ ls. open_all_onto opens ls specs) ls spec) h

  onto-panic : opens spec u ≡ (panic, u') → open_all_onto opens ls (spec ∷ specs) u ≡ (panic, u')
  unfolding open_all_onto open_all_next
  onto-panic h = ap (open_all_next (λ ls. open_all_onto opens ls specs) ls spec) h

module _ (opens : Bytes → M Listener) where
  -- Specifications in two parts are opened one part after the other.
  onto-append :
      (ls : List Listener) (xs ys : List Bytes) (w : World)
      → open_all_onto opens ls (xs ++ ys) w
        ≡ continue (open_all_onto opens ls xs w) (λ ks. open_all_onto opens ks ys)
  unfolding open_all_onto
  onto-append ls [] ys w = refl
  onto-append ls (x ∷ xs) ys w =
      go (opens x w).0 (opens x w).1 refl (λ l u. onto-append (ls ++ l ∷ []) xs ys u)
    where
      go :
          (q : Outcome OpenError Listener) (u : World)
          → opens x w ≡ (q, u)
          → ((l : Listener) (u : World)
              → open_all_onto opens (ls ++ l ∷ []) (xs ++ ys) u
                ≡ continue
                    (open_all_onto opens (ls ++ l ∷ []) xs u)
                    (λ ks. open_all_onto opens ks ys))
          → open_all_onto opens ls (x ∷ xs ++ ys) w
            ≡ continue (open_all_onto opens ls (x ∷ xs) w) (λ ks. open_all_onto opens ks ys)
      go (ok l) u h rest =
          rw (onto-ok opens ls x (xs ++ ys) w u l h, onto-ok opens ls x xs w u l h) (rest l u)
      go (err e) u h rest =
          rw (onto-err opens ls x (xs ++ ys) w u e h, onto-err opens ls x xs w u e h) refl
      go panic u h rest =
          rw (onto-panic opens ls x (xs ++ ys) w u h, onto-panic opens ls x xs w u h) refl

module _ (opens : Bytes → M Listener) (tidy : (s : Bytes) → IsTidy (opens s)) (w : World)
    (below : AreBelow w.next w.live) (all : List Bytes) where
  -- Where the listeners of the first specifications have been opened.
  abbrev IsAt : List Bytes → List Listener → List Bytes → World → Type 0
  IsAt before ls specs u =
      (all ≡ before ++ specs)
      × (open_all_onto opens [] before w ≡ (ok ls, u))
      × (length ls ≡ length before)
      × Rising w.next ls u.next
      × (u.live ≡ opened ls w.live)

  IsAt-next :
      (before : List Bytes) (ls : List Listener) (spec : Bytes) (specs : List Bytes) (u u' : World)
      (l : Listener)
      → opens spec u ≡ (ok l, u')
      → Opened u (ok l) u'
      → IsAt before ls (spec ∷ specs) u
      → IsAt (before ++ spec ∷ []) (ls ++ l ∷ []) specs u'
  unfolding open_all_onto
  IsAt-next before ls spec specs u u' l h o (split, run, n, r, e) = (
    split ∙ sym (append_assoc before (spec ∷ []) specs),
    onto-append opens [] before (spec ∷ []) w
        ∙ ap (λ q. continue q (λ ks. open_all_onto opens ks (spec ∷ []))) run
        ∙ onto-ok opens ls spec [] u u' l h,
    omega (arith, length-append ls (l ∷ []), length-append before (spec ∷ [])),
    Rising-append w.next u.next u'.next ls l r o.1 o.2,
    o.0 ∙ ap (λ hs. handle_of l ∷ hs) e ∙ sym (opened-append ls l w.live),
  )

  abbrev IsOpenedAll : Outcome OpenError (List Listener) × World → Type 0
  IsOpenedAll r = OpenedAll opens (open_all_onto opens []) w all r.0 r.1

  onto-OpenedAll :
      (specs before : List Bytes) (ls : List Listener) (u : World)
      → IsAt before ls specs u
      → IsOpenedAll (open_all_onto opens ls specs u)
  unfolding open_all_onto
  onto-OpenedAll [] before ls u (split, run, n, r, e) = (
    omega (arith, length-append before [], ap length split),
    e,
    close_all-opened w.next u.next ls w.live u r below e,
  )
  onto-OpenedAll (spec ∷ specs) before ls u at =
      go (opens spec u).0 (opens spec u).1 refl
        (tidy spec u (rw at.4 (opened-AreBelow w.next u.next ls w.live at.3 below)))
        (λ l u' at'. onto-OpenedAll specs (before ++ spec ∷ []) (ls ++ l ∷ []) u' at')
    where
      go :
          (q : Outcome OpenError Listener) (u' : World)
          → opens spec u ≡ (q, u')
          → Opened u q u'
          → ((l : Listener) (u' : World)
              → IsAt (before ++ spec ∷ []) (ls ++ l ∷ []) specs u'
              → IsOpenedAll (open_all_onto opens (ls ++ l ∷ []) specs u'))
          → IsOpenedAll (open_all_onto opens ls (spec ∷ specs) u)
      go (ok l) u' h o rest =
          rw (onto-ok opens ls spec specs u u' l h)
            (rest l u' (IsAt-next before ls spec specs u u' l h o at))
      go (err x) u' h o rest = rw (onto-err opens ls spec specs u u' x h) (
        close_all-opened w.next u.next ls w.live u' at.3 below (o.0 ∙ at.4),
        spec,
        x,
        ls,
        refl,
        (before, specs, u, at.0, at.1, ap (λ q. q.0) h),
      )
      go panic u' h o rest =
          rw (onto-panic opens ls spec specs u u' h)
            (spec, ls, o.0 ∙ at.4, (before, specs, u, at.0, at.1, ap (λ q. q.0) h))

-- If each opener that a program registers opens one socket or leaves the open ones as they were,
-- and the handles in use are below the next one, OpenAll returns one listener for each
-- specification, their sockets open beside those that were open before, and CloseAll of them leaves
-- exactly the sockets that were open before; or the specifications before one of them are opened and
-- it fails, its error is returned under its name, and exactly the sockets that were open before are
-- open; or opening it panics, and the sockets of those before it are still open beside the old ones.
pub open_all-OpenedAll :
    (env : Env) (reg : Registry)
    → CustomIsTidy env
    → (fuel : ℕ) (specs : List Bytes) (w : World) → AreBelow w.next w.live
    → OpenedAll
        (open_spec env reg fuel)
        (open_all env reg fuel)
        w
        specs
        (open_all env reg fuel specs w).0
        (open_all env reg fuel specs w).1
unfolding open_all open_all_onto
open_all-OpenedAll env reg tidy fuel specs w below =
    onto-OpenedAll (open_spec env reg fuel) (open_spec-IsTidy env reg tidy fuel) w below specs specs
      [] [] w (refl, refl, refl, omega arith, refl)
