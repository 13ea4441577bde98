-- ===== src/Pipeline/Exact.antt =====
-- proxy/listener.go and proxy/conn.go: what the layers of an open listener pass on.
use go_listener.Common.{
  ℕ, ◌<◌, ◌≡◌, refl, sym, ap, ◌∙◌, arith, List, [], ◌∷◌, ◌++◌, All, All-split, false, ok, ◌==◌,
  Bool-cases, inl, inr,
}
use mathlib.Core.Path.{subst}
use go_listener.Net.Conn.{Conn}
use go_listener.System.{
  Listener, net_listener, watched_listener, proxy_listener, tls_listener, TlsConfig,
}
use go_listener.Proxy.Conn.{ProxyConn, as_conn}
use go_listener.Proxy.Header.{Header, read_header}
use go_listener.Proxy.Listener
use go_listener.Proxy.Listener.Addresses.{IsRead, new_listener-IsRead}
use go_listener.Proxy.Listener.Forwarded.{written, seen_lem, read_header-Sends, as_conn-seen}
use go_listener.Proxy.Listener.Runs.{new_listener-Accounted}
use go_listener.Serve
use go_listener.Serve.{occurs, held, State, Steps, new_state}
use go_listener.Serve.Conserve.{occurs-append, held-append, Steps-Accounted}
use go_listener.Pipeline.{Passes, Carries}

occurs_head : (c : ℕ) → occurs c (c ∷ []) ≡ 1
unfolding occurs
occurs_head c = ground arith

-- A connection in the hands of a handler was accepted.
held-accepted :
    (inner : ℕ → Conn) (s : State Listener.Task Listener.Error)
    → Steps (Listener.routines inner) Listener.new_listener s
    → (c : ℕ) (p : ProxyConn) (before after : List Listener.Task)
    → s.tasks ≡ before ++ Listener.sending_conn c p ∷ after
    → 0 < occurs c s.accepted
unfolding held occurs
held-accepted inner s xs c p before after q =
    let r = Listener.routines inner in
    omega (
      arith,
      Steps-Accounted r Listener.new_listener s xs (new_listener-Accounted inner) c,
      ap (λ ts. occurs c (held Listener.holds ts)) q,
      held-append r c before (Listener.sending_conn c p ∷ after),
      occurs-append c (c ∷ []) (held Listener.holds after),
      occurs_head c,
    )

module _ (server : TlsConfig → Conn → Conn) (client : ℕ → Conn) where
  pub Passes-eq :
      (l : Listener) (c : ℕ) (conn final : Conn)
      → Carries server l (client c) final
      → Passes server client l c conn
      → conn ≡ final
  Passes-eq (net_listener h b) c conn final k p = p ∙ sym k
  Passes-eq (watched_listener h b) c conn final k p = p ∙ sym k
  Passes-eq (proxy_listener l) c conn final (sender, stream, under, k, sends, e)
        (inner, s, xs, ps, p, before, after, q, f) =
      let accepted = held-accepted inner s xs c p before after q in
      let same : inner c ≡ under = Passes-eq l c (inner c) under k (ps c accepted) in
      let read =
        (All-split (IsRead inner) before (Listener.sending_conn c p ∷ after)
          (subst (All (IsRead inner)) q (new_listener-IsRead inner s xs))).1.0 in
      f ∙ (as_conn-seen sender stream under p sends (ap read_header (sym same) ∙ read)).0 ∙ sym e
  Passes-eq (tls_listener config l) c conn final (under, k, e) (under', p, f) =
      f ∙ ap (server config) (Passes-eq l c under' under k p) ∙ sym e

  -- The run in which a PROXY listener accepts one connection and reads its header.
  one_run :
      (c : ℕ) (under stream : Conn) (h : Header)
      → read_header under ≡ (ok h, stream)
      → Steps
          (Listener.routines (λ k. under))
          Listener.new_listener
          (record (new_state (
            Listener.accepting
            ∷ Listener.sending_conn c
                (record { inner = stream; local_addr = h.local_addr; remote_addr = h.remote_addr })
            ∷ [])) { accepted = c ∷ [] })
  one_run c under stream h r =
      let later : List Listener.Task = Listener.accepting ∷ [] in
      Serve.next _ _ _
        (Serve.move _ [] [] Listener.accepting _ refl (Listener.accept_conn false c) (omega arith))
        (Serve.next _ _ _
          (Serve.move _ later [] (Listener.starting c) _ refl (Listener.deadline_set false c)
            (omega arith))
          (Serve.next _ _ _
            (Serve.move _ later [] (Listener.reading c) _ refl
              (Listener.header_read false c h stream r) (omega arith))
            (Serve.next _ _ _
              (Serve.move _ later [] (Listener.clearing c h stream) _ refl
                (Listener.deadline_cleared false c h stream) (omega arith))
              (Serve.stop _))))

  pub Carries-Passes :
      (l : Listener) (c : ℕ) (final : Conn)
      → Carries server l (client c) final
      → Passes server client l c final
  unfolding occurs as_conn
  Carries-Passes (net_listener h b) c final k = k
  Carries-Passes (watched_listener h b) c final k = k
  Carries-Passes (proxy_listener l) c final (sender, stream, under, k, sends, e) =
      let read = read_header-Sends sender stream under sends in
      let inner_passes : (n : ℕ) → 0 < occurs n (c ∷ []) → Passes server client l n under = λ n h.
        elim (Bool-cases (c == n)) [
          | inl same ↦
              let q : c ≡ n = ground arith in
              subst (λ n. Passes server client l n under) q (Carries-Passes l c under k)
          | inr other ↦ absurd (ground arith)
        ] in
      (
        λ n. under,
        _,
        one_run c under stream (written sender stream) read,
        inner_passes,
        _,
        Listener.accepting ∷ [],
        [],
        refl,
        e ∙ sym (seen_lem sender stream),
      )
  Carries-Passes (tls_listener config l) c final (under, k, e) =
      (under, Carries-Passes l c under k, e)
