-- ===== src/Unix/Watch.antt =====
-- unix/listener.go: the listener that closes itself when its file is replaced.
pub mod Files
pub mod Timely
use go_listener.Common.{
  ◌≡◌, refl, ap, sym, ◌∙◌, Bool, true, false, not, ◌||◌, Outcome, ok, err, panic, if◌then◌else◌,
}

-- `watchedListener`: whether the channel `closed` and the socket are closed, and whether the
-- goroutine that runs `watch` has not returned.
pub record Watched : Type 0 where
  pub closed : Bool
  pub socket_closed : Bool
  pub watching : Bool

-- `newWatchedListener`, and the goroutine that `Listen` starts
abbrev pub new_watched_listener : Watched
new_watched_listener = record { closed = false; socket_closed = false; watching = true }

pub data CloseError : Type 0 where
  err_closed : CloseError

-- `Close` of the socket
abbrev close_socket : Watched → Outcome CloseError (Unit {0}) × Watched
close_socket w =
    (if w.socket_closed then err err_closed else ok tt, record w { socket_closed = true })

-- `Accept`, where the call on an open socket returns `next`.
unfoldable pub accept : {A : Type 0} → A → Watched → Outcome CloseError A
accept next w = if w.socket_closed then err err_closed else ok next

-- `close(wl.closed)` panics on a channel that is closed.
unfoldable pub close_on : Bool → Watched → Outcome CloseError (Unit {0}) × Watched
close_on true w = (panic, w)
close_on false w = close_socket (record w { closed = true })

-- `Close`
unfoldable pub close : Watched → Outcome CloseError (Unit {0}) × Watched
unfolding close_on
close w = close_on w.closed w

-- `watch` on a tick of its timer: whether `os.Lstat` still finds the same file.
unfoldable pub tick : Bool → Watched → Watched
tick true w = w
tick false w = record (close_socket w).1 { watching = false }

-- The steps of the listener: `Close`, a tick, and the return of `watch` on the closed channel.
pub data Step : Watched → Watched → Type 0 where
  closes : (w : Watched) → Step w (close w).1
  ticks : (same : Bool) (w : Watched) → w.watching ≡ true → Step w (tick same w)
  returns :
      (w : Watched) → w.watching ≡ true → w.closed ≡ true → Step w (record w { watching = false })

pub data Steps : Watched → Watched → Type 0 where
  stop : (w : Watched) → Steps w w
  next : (w x y : Watched) → Step w x → Steps x y → Steps w y

-- The socket is closed after `Close`, and before it exactly when `watch` has returned.
abbrev pub IsConsistent : Watched → Type 0
IsConsistent w =
    (w.closed ≡ true → w.socket_closed ≡ true)
    × (w.closed ≡ false → w.socket_closed ≡ not w.watching)

pub close_on-IsConsistent :
    (b : Bool) (w : Watched) → w.closed ≡ b → IsConsistent w → IsConsistent (close_on b w).1
unfolding close_on
close_on-IsConsistent true w e i = i
close_on-IsConsistent false w e i = (λ h. refl, λ h. cc)

pub tick-IsConsistent : (b : Bool) (w : Watched) → IsConsistent w → IsConsistent (tick b w)
unfolding tick
tick-IsConsistent true w i = i
tick-IsConsistent false w i = (λ h. refl, λ h. refl)

Step-IsConsistent : (w x : Watched) → Step w x → IsConsistent w → IsConsistent x
unfolding close
Step-IsConsistent _ _ (closes w) i = close_on-IsConsistent w.closed w refl i
Step-IsConsistent _ _ (ticks same w e) i = tick-IsConsistent same w i
Step-IsConsistent _ _ (returns w e c) i = (i.0, λ h. cc)

Steps-IsConsistent : (w x : Watched) → Steps w x → IsConsistent w → IsConsistent x
Steps-IsConsistent _ _ (stop w) i = i
Steps-IsConsistent _ _ (next w x y s t) i = Steps-IsConsistent x y t (Step-IsConsistent w x s i)

close-cases : (w : Watched) → (close w).1.closed ≡ true
unfolding close
close-cases w = go w.closed refl
  where
    go : (b : Bool) → w.closed ≡ b → (close_on b w).1.closed ≡ true
    go true e = e
    go false e = refl

panics : (w : Watched) → w.closed ≡ true → (close w).0 ≡ panic
unfolding close close_on
panics w e = go w.closed e
  where
    go : (b : Bool) → b ≡ true → (close_on b w).0 ≡ panic
    go true e = refl
    go false e = cc

one_equation : (c s t : Bool) → (c ≡ true → s ≡ true) → (c ≡ false → s ≡ not t) → s ≡ (c || not t)
one_equation true s t h k = h refl
one_equation false s t h k = k refl

-- Whether `watch` found another file at the path on a tick of the run.
abbrev finds : (w x : Watched) → Step w x → Bool
finds _ _ (closes w) = false
finds _ _ (ticks same w e) = not same
finds _ _ (returns w e c) = false

abbrev pub found : (w x : Watched) → Steps w x → Bool
found _ _ (stop w) = false
found _ _ (next w x y s t) = finds w x s || found x y t

or-false : (b : Bool) → (b || false) ≡ b
or-false true = refl
or-false false = refl

or-true : (b c : Bool) → (b || (c || true)) ≡ true
or-true true c = refl
or-true false true = refl
or-true false false = refl

or_assoc : (a b c : Bool) → ((a || b) || c) ≡ (a || (b || c))
or_assoc true b c = refl
or_assoc false b c = refl

-- The socket is closed after `Close`, and before it exactly if another file was found.
abbrev IsClosedBy : Bool → Watched → Type 0
IsClosedBy b w = w.socket_closed ≡ (w.closed || b)

Step-IsClosedBy :
    (b : Bool) (w x : Watched) (s : Step w x) → IsClosedBy b w → IsClosedBy (b || finds w x s) x
unfolding close close_on tick
Step-IsClosedBy b _ _ (closes w) i = rw (or-false b) (go w.closed refl)
  where
    go : (c : Bool) → w.closed ≡ c → IsClosedBy b (close_on c w).1
    go true e = i
    go false e = refl
Step-IsClosedBy b _ _ (ticks true w e) i = rw (or-false b) i
Step-IsClosedBy b _ _ (ticks false w e) i = sym (or-true w.closed b)
Step-IsClosedBy b _ _ (returns w e c) i = rw (or-false b) i

Steps-IsClosedBy :
    (b : Bool) (w x : Watched) (run : Steps w x)
    → IsClosedBy b w
    → IsClosedBy (b || found w x run) x
Steps-IsClosedBy b _ _ (stop w) i = rw (or-false b) i
Steps-IsClosedBy b _ _ (next w x y s t) i =
    Steps-IsClosedBy (b || finds w x s) x y t (Step-IsClosedBy b w x s i)
    ∙ ap (λ c. y.closed || c) (or_assoc b (finds w x s) (found x y t))

-- In every run of the listener its socket is closed exactly if `Close` was called or `watch` found
-- another file at the path on a tick, and exactly if `Close` was called or `watch` has returned. A
-- `Close` after a `Close` panics.
pub close-panics :
    (w : Watched) (run : Steps new_watched_listener w)
    → (w.socket_closed ≡ (w.closed || found new_watched_listener w run))
      × (w.socket_closed ≡ (w.closed || not w.watching))
      × ((close (close w).1).0 ≡ panic)
close-panics w run =
    let i = Steps-IsConsistent new_watched_listener w run ((λ h. cc), λ h. refl) in
    (
      Steps-IsClosedBy false new_watched_listener w run refl,
      one_equation w.closed w.socket_closed w.watching i.0 i.1,
      panics (close w).1 (close-cases w),
    )
