-- ===== src/Multi/Opened.antt =====
-- multi.go and open.go: a `MultiListener` of what `OpenAll` returned.
use go_listener.Common.{
  ℕ, ◌≡◌, refl, ap, sym, ◌∙◌, Bool, true, false, List, [], ◌∷◌, length, ok, if◌then◌else◌,
}
use mathlib.Core.Path.{subst}
use go_listener.Common.Text.{Bytes}
use go_listener.System.{World, Listener, Env}
use go_listener.System.Sockets.{AreBelow}
use go_listener.Registry.{Registry}
use go_listener.Open.{open_spec, open_all, close_all}
use go_listener.Open.Sockets.{CustomIsTidy}
use go_listener.Open.All.{opened, OpenedAll, open_all-OpenedAll}
use go_listener.Serve
use go_listener.Multi
use go_listener.Multi.{MultiListener, multi_listener}
use go_listener.Multi.Inner.{
  Aggregate, aggregate, close_each, close_on, close, Step, works, closes, Steps, stop, next,
}

Serve_close_on-done :
    (b : Bool) (s : MultiListener)
    → s.done ≡ b
    → ((Serve.close_on b s).0 ≡ b) × ((Serve.close_on b s).1.done ≡ true)
unfolding Serve.close_on
Serve_close_on-done true s e = (refl, e)
Serve_close_on-done false s e = (refl, refl)

close-done : (s : MultiListener) → ((Multi.close s).0 ≡ s.done) × ((Multi.close s).1.done ≡ true)
unfolding Serve.close
close-done s = Serve_close_on-done s.done s refl

close_each-eq-close_all : (ls : List Listener) (w : World) → close_each ls w ≡ close_all ls w
unfolding close_each close_all
close_each-eq-close_all [] w = refl
close_each-eq-close_all (l ∷ ls) w = close_each-eq-close_all ls _

module _ (ls : List Listener) (w : World) where
  -- The listeners are the ones that it was made with, in the world that they were opened in until
  -- `Close` has closed them.
  abbrev IsHolding : Aggregate × World → Type 0
  IsHolding p = (p.0.listeners ≡ ls) × (p.1 ≡ (if p.0.channels.done then close_each ls w else w))

  close_on-closes :
      (b : Bool) (m : Aggregate) (u : World)
      → m.channels.done ≡ b
      → IsHolding (m, u)
      → close_on b m u ≡ close_each ls w
  unfolding close_on
  close_on-closes true m u e i = i.1 ∙ ap (λ b. if b then close_each ls w else w) e
  close_on-closes false m u e i =
      ap (λ ks. close_each ks u) i.0
      ∙ ap (close_each ls) (i.1 ∙ ap (λ b. if b then close_each ls w else w) e)

  close-closes : (m : Aggregate) (u : World) → IsHolding (m, u) → (close m u).2 ≡ close_each ls w
  unfolding close
  close-closes m u i =
      ap (λ b. close_on b m u) (close-done m.channels).0
      ∙ close_on-closes m.channels.done m u refl i

  Step-IsHolding : (p q : Aggregate × World) → Step p q → IsHolding p → IsHolding q
  unfolding close
  Step-IsHolding _ _ (works m s u x e) i =
      (i.0, i.1 ∙ ap (λ b. if b then close_each ls w else w) (sym e))
  Step-IsHolding _ _ (closes m u) i = (
    i.0,
    close-closes m u i ∙ ap (λ b. if b then close_each ls w else w) (sym (close-done m.channels).1),
  )

  Steps-IsHolding : (p q : Aggregate × World) → Steps p q → IsHolding p → IsHolding q
  Steps-IsHolding _ _ (stop p) i = i
  Steps-IsHolding _ _ (next p q r x xs) i = Steps-IsHolding q r xs (Step-IsHolding p q x i)

  -- The same of the open sockets, of listeners whose sockets are beside those of `hs`.
  live-closes :
      (hs : List ℕ)
      → w.live ≡ opened ls hs
      → (close_all ls w).live ≡ hs
      → (m : Aggregate) (u : World) → IsHolding (m, u)
      → (u.live ≡ (if m.channels.done then hs else opened ls hs)) × ((close m u).2.live ≡ hs)
  live-closes hs before after m u i = (ap (λ v. v.live) i.1 ∙ cases m.channels.done, all_closed)
    where
      closed : (close_each ls w).live ≡ hs
      closed = ap (λ v. v.live) (close_each-eq-close_all ls w) ∙ after

      cases :
          (b : Bool) → (if b then close_each ls w else w).live ≡ (if b then hs else opened ls hs)
      cases true = closed
      cases false = before

      all_closed : (close m u).2.live ≡ hs
      all_closed = ap (λ v. v.live) (close-closes m u i) ∙ closed

-- In every run of a MultiListener of the listeners that OpenAll returned, in which nothing else opens
-- or closes a socket: until Close exactly one socket for each specification is open beside those that
-- were open before OpenAll, from then on exactly the latter are, and a Close at any time leaves
-- exactly them. For OpenAll, the handles in use are below the next one, and each opener that a program
-- registers opens one socket or leaves the open ones as they were.
pub open_all-close :
    (env : Env) (reg : Registry)
    → CustomIsTidy env
    → (fuel : ℕ) (specs : List Bytes) (w : World) → AreBelow w.next w.live
    → (ls : List Listener) (w' : World) → open_all env reg fuel specs w ≡ (ok ls, w')
    → (m : Aggregate) (u : World) → Steps (aggregate ls, w') (m, u)
    → (length ls ≡ length specs)
      × (u.live ≡ (if m.channels.done then w.live else opened ls w.live))
      × ((close m u).2.live ≡ w.live)
unfolding multi_listener
open_all-close env reg tidy fuel specs w below ls w' e m u xs =
    let (n, before, after) =
      subst (λ r. OpenedAll (open_spec env reg fuel) (open_all env reg fuel) w specs r.0 r.1) e
        (open_all-OpenedAll env reg tidy fuel specs w below) in
    let i = Steps-IsHolding ls w' (aggregate ls, w') (m, u) xs (refl, refl) in
    let (held, left) = live-closes ls w' w.live before after m u i in (n, held, left)
