-- ===== src/Serve/Drain.antt =====
-- The goroutines of proxy/listener.go and multi.go after `Close`.
use go_listener.Common.{
  ℕ, zero, suc, length, ◌+◌, ◌<◌, ◌≡◌, refl, ap, ◌∙◌, arith, Bool, true, false, List, [], ◌∷◌, ◌++◌,
}
use go_listener.Serve.Conserve.{Accounted, Steps-Accounted}
use go_listener.Serve.{
  occurs, held, total, Routines, Effect, receivers, State, apply, refuse, close, close_on, move,
  refuses, closes, Steps, stop, next,
}

module _ (r : Routines) where
  total-append :
      (xs ys : List r.Task) → total r.measure (xs ++ ys) ≡ total r.measure xs + total r.measure ys
  unfolding total
  total-append [] ys = omega arith
  total-append (x ∷ xs) ys = omega (arith, total-append xs ys)

  -- A run from the state to one without goroutines and blocked callers, in which no connection and no
  -- error reaches a caller and no connection is accepted.
  abbrev pub Ends : State r.Task r.Error → Type 0
  Ends s =
      (t : State r.Task r.Error) × Steps r s t
      × (t.tasks ≡ [])
      × (t.delivered ≡ s.delivered)
      × (t.accepted ≡ s.accepted)
      × (t.errors ≡ s.errors)
      × (t.waiting ≡ 0)
      × (t.refused ≡ s.refused + s.waiting)

  -- The callers return one after another.
  dismiss :
      (n : ℕ) (s : State r.Task r.Error) → s.done ≡ true → s.tasks ≡ [] → s.waiting ≡ n → Ends s
  dismiss zero s d e w = (s, stop s, e, refl, refl, refl, w, omega (arith, w))
  dismiss (suc n) s d e w =
      let pos : 0 < s.waiting = omega (arith, w) in
      let (u, xs, a, b, c, f, g, h) = dismiss n (refuse s) d e (omega (arith, w)) in
      (u, next s (refuse s) u (refuses s d pos) xs, a, b, c, f, g, omega (arith, h, pos))

  quiet-receivers : (e : Effect r.Task r.Error) → e.delivered ≡ [] → e.errors ≡ [] → receivers e ≡ 0
  quiet-receivers e p q = omega (arith, ap length p, ap length q)

  drain : (n : ℕ) (s : State r.Task r.Error) → s.done ≡ true → total r.measure s.tasks < n → Ends s
  unfolding total
  drain zero s d h = absurd (omega arith)
  drain (suc n) s d h = go s.tasks refl (drain n)
    where
      go :
          (ts : List r.Task)
          → s.tasks ≡ ts
          → ((s : State r.Task r.Error) → s.done ≡ true → total r.measure s.tasks < n → Ends s)
          → Ends s
      go [] e rest = dismiss s.waiting s d e refl
      go (t ∷ ts) e rest =
          let (x, m, l, p, q, k) = r.ends t in
          let none_needed : receivers x ≡ 0 = quiet-receivers x p k in
          let smaller : total r.measure (x.tasks ++ ts) < n =
            omega (arith, h, l, total-append x.tasks ts, ap (total r.measure) e) in
          let (u, xs, a, b, c, f, g, w) = rest (apply s [] x ts) d smaller in
          (
            u,
            next s (apply s [] x ts) u (move s [] ts t x e (rw d m) (omega (arith, none_needed)))
                xs,
            a,
            b ∙ ap (λ l. l ++ s.delivered) p,
            c ∙ ap (λ l. l ++ s.accepted) q,
            f ∙ ap (λ l. l ++ s.errors) k,
            g,
            omega (arith, w, none_needed),
          )

  -- From every state after `Close` there is such a run.
  done-Ends : (s : State r.Task r.Error) → s.done ≡ true → Ends s
  done-Ends s d = drain (suc (total r.measure s.tasks)) s d (omega arith)

  close_on-true : (u : State r.Task r.Error) → close_on true u ≡ (true, u)
  unfolding close_on
  close_on-true u = refl

  -- `Close` changes nothing but the channel and the inner listeners.
  close_on-done :
      (b : Bool) (s : State r.Task r.Error)
      → s.done ≡ b
      → s.inner_closed ≡ b
      → ((close_on b s).0 ≡ b) × ((close_on b s).1 ≡ record s { done = true; inner_closed = true })
  unfolding close_on
  close_on-done true s e f =
      (refl, ap (λ d. record s { done = d.0; inner_closed = d.1 }) (pair e f))
    where
      pair : {a b : Bool} → a ≡ true → b ≡ true → Path (Bool × Bool) (a, b) (true, true)
      pair p q = λ i. (p i, q i)
  close_on-done false s e f = (refl, refl)

  -- `Close` closes the inner listeners, and after it there is a run of the goroutines and the blocked callers alone to their end. Each of
  -- these callers gets `net.ErrClosed`, and at the end every connection accepted is with a caller or
  -- closed, as often as it was accepted.
  abbrev pub ClosesDown : State r.Task r.Error → Type 0
  ClosesDown s =
      ((close s).0 ≡ s.done)
      × (close (close s).1 ≡ (true, (close s).1))
      × (t : State r.Task r.Error) × Steps r (close s).1 t
      × ((close s).1.inner_closed ≡ true)
      × (t.tasks ≡ [])
      × (t.waiting ≡ 0)
      × (t.refused ≡ s.refused + s.waiting)
      × (t.errors ≡ s.errors)
      × (t.delivered ≡ s.delivered)
      × ((c : ℕ) → occurs c t.accepted ≡ occurs c t.delivered + occurs c t.closed)

  -- In a state where every connection is accounted for.
  pub close-ClosesDown :
      (s : State r.Task r.Error) → Accounted r s → s.inner_closed ≡ s.done → ClosesDown s
  unfolding close held occurs
  close-ClosesDown s a inner =
      let (t, xs, e, f, g, h, w, k) = done-Ends (close s).1 (ap (λ u. u.done) q) in
      (
        b,
        again (close s).1 (ap (λ u. u.done) q),
        t,
        xs,
        ap (λ u. u.inner_closed) q,
        e,
        w,
        k ∙ ap (λ u. u.refused + u.waiting) q,
        h ∙ ap (λ u. u.errors) q,
        f ∙ ap (λ u. u.delivered) q,
        λ c. omega (
          arith,
          Steps-Accounted r s t (next s (close s).1 t (closes s) xs) a c,
          ap (λ ts. occurs c (held r.holds ts)) e,
        ),
      )
    where
      b : (close s).0 ≡ s.done
      b = (close_on-done s.done s refl inner).0

      q : (close s).1 ≡ record s { done = true; inner_closed = true }
      q = (close_on-done s.done s refl inner).1

      again : (u : State r.Task r.Error) → u.done ≡ true → close_on u.done u ≡ (true, u)
      again u d = ap (λ b. close_on b u) d ∙ close_on-true u
