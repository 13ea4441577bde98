-- ===== src/Registry/Programs.antt =====
-- listener.go: all the registrations of a program.
use go_listener.Common.{
  ℕ, ◌+◌, ◌≤◌, ◌≡◌, ◌≢◌, ◌↔◌, refl, sym, ap, ◌∙◌, arith, Option, none, some, List, [], ◌∷◌,
  if◌then◌else◌, ◌⊎◌, inl, inr, Bool-cases,
}
use go_listener.Common.Text.{Bytes, equal, equal_iff}
use go_listener.Registry.{
  OpenListenerFunc, Registry, Registered, registered, panic_nil, panic_twice,
  get_open_listener_func, register_listener_type, register_fresh,
}

-- The calls of `RegisterListenerType`, with the name and the function of each, where nil is `none`.
abbrev pub Calls : Type 0
Calls = List (Bytes × Option OpenListenerFunc)

-- They are made one after another, up to the first panic.
unfoldable pub register_all : Calls → Registry → Registered
unfolding register_listener_type
register_all [] reg = registered reg
register_all ((name, f) ∷ calls) reg = elim (register_listener_type name f reg) [
  | registered reg' ↦ register_all calls reg'
  | panic_nil ↦ panic_nil
  | panic_twice n ↦ panic_twice n
]

-- How often a name is registered.
unfoldable pub times : Bytes → Calls → ℕ
unfolding equal
times name [] = 0
times name ((n, f) ∷ calls) = (if equal n name then 1 else 0) + times name calls

abbrev pub Occurs : Bytes → Option OpenListenerFunc → Calls → Type 0
Occurs name f [] = ⊥
Occurs name f ((n, g) ∷ calls) = ((name ≡ n) × (f ≡ g)) ⊎ Occurs name f calls

-- What the calls do to a table.
Results : Calls → Registry → Registered → Type 0
unfolding get_open_listener_func
Results calls reg (registered reg') =
    ((name : Bytes)
      → ((get_open_listener_func name reg ≡ none) × (times name calls ≤ 1))
        ⊎ (times name calls ≡ 0))
    × ((name : Bytes) (f : OpenListenerFunc)
        → (get_open_listener_func name reg' ≡ some f)
          ↔ (Occurs name (some f) calls ⊎ (get_open_listener_func name reg ≡ some f)))
Results calls reg panic_nil = (name : Bytes) × Occurs name none calls
Results calls reg (panic_twice name) =
    (2 ≤ times name calls) ⊎ ((1 ≤ times name calls) × (get_open_listener_func name reg ≢ none))

-- One more call in front, of a name that is not in the table.
module _ (n : Bytes) (f : OpenListenerFunc) (reg : Registry)
    (unused : get_open_listener_func n reg ≡ none) where
  get_added :
      (m : Bytes)
      → ((n ≡ m)
          × (get_open_listener_func m ((n, f) ∷ reg) ≡ some f)
          × (get_open_listener_func m reg ≡ none)
          × ((calls : Calls) → times m ((n, some f) ∷ calls) ≡ 1 + times m calls))
        ⊎ ((n ≢ m)
            × (get_open_listener_func m ((n, f) ∷ reg) ≡ get_open_listener_func m reg)
            × ((calls : Calls) → times m ((n, some f) ∷ calls) ≡ times m calls))
  unfolding get_open_listener_func times
  get_added m = elim (Bool-cases (equal n m)) [
    | inl e ↦
        let same = (equal_iff n m).0 e in
        inl (
          same,
          rw e refl,
          ap (λ k. get_open_listener_func k reg) (sym same) ∙ unused,
          λ calls. rw e refl,
        )
    | inr e ↦ inr (λ q. let t = (equal_iff n m).1 q in cc, rw e refl, λ calls. rw e (omega arith))
  ]

  once :
      (calls : Calls) (m : Bytes)
      → ((get_open_listener_func m ((n, f) ∷ reg) ≡ none) × (times m calls ≤ 1))
        ⊎ (times m calls ≡ 0)
      → ((get_open_listener_func m reg ≡ none) × (times m ((n, some f) ∷ calls) ≤ 1))
        ⊎ (times m ((n, some f) ∷ calls) ≡ 0)
  once calls m (inl (e, l)) = elim (get_added m) [
    | inl (q, a, b, c) ↦ absurd (cc (sym a ∙ e))
    | inr (q, a, c) ↦ inl (sym a ∙ e, omega (arith, c calls))
  ]
  once calls m (inr e) = elim (get_added m) [
    | inl (q, a, b, c) ↦ inl (b, omega (arith, c calls))
    | inr (q, a, c) ↦ inr (c calls ∙ e)
  ]

  holds :
      (calls : Calls) (reg' : Registry) (m : Bytes) (g : OpenListenerFunc)
      → (get_open_listener_func m reg' ≡ some g)
        ↔ (Occurs m (some g) calls ⊎ (get_open_listener_func m ((n, f) ∷ reg) ≡ some g))
      → (get_open_listener_func m reg' ≡ some g)
        ↔ (Occurs m (some g) ((n, some f) ∷ calls) ⊎ (get_open_listener_func m reg ≡ some g))
  holds calls reg' m g (to, from) = (
    λ h. elim (to h) [
      | inl o ↦ inl (inr o)
      | inr e ↦ elim (get_added m) [
        | inl (q, a, b, c) ↦ inl (inl (sym q, sym e ∙ a))
        | inr (q, a, c) ↦ inr (sym a ∙ e)
      ]
    ],
    λ h. from (elim h [
      | inl (inl (q, s)) ↦ elim (get_added m) [
        | inl (p, a, b, c) ↦ inr (a ∙ sym s)
        | inr (p, a, c) ↦ absurd (p (sym q))
      ]
      | inl (inr o) ↦ inl o
      | inr e ↦ elim (get_added m) [
        | inl (p, a, b, c) ↦ absurd (cc (sym b ∙ e))
        | inr (p, a, c) ↦ inr (a ∙ e)
      ]
    ]),
  )

  Results-cons :
      (calls : Calls) (r : Registered)
      → Results calls ((n, f) ∷ reg) r
      → Results ((n, some f) ∷ calls) reg r
  unfolding Results
  Results-cons calls (registered reg') (one, same) =
      (λ m. once calls m (one m), λ m g. holds calls reg' m g (same m g))
  Results-cons calls panic_nil (m, o) = (m, inr o)
  Results-cons calls (panic_twice m) (inl l) = elim (get_added m) [
    | inl (q, a, b, c) ↦ inl (omega (arith, c calls))
    | inr (q, a, c) ↦ inl (omega (arith, c calls))
  ]
  Results-cons calls (panic_twice m) (inr (l, used)) = elim (get_added m) [
    | inl (q, a, b, c) ↦ inl (omega (arith, c calls))
    | inr (q, a, c) ↦ inr (omega (arith, c calls), λ e. used (a ∙ e))
  ]

register_all-Results : (calls : Calls) (reg : Registry) → Results calls reg (register_all calls reg)
unfolding Results register_all register_fresh times
register_all-Results [] reg =
    (λ m. inr refl, λ m g. (λ h. inr h, λ h. elim h [ inl o ↦ absurd o | inr e ↦ e ]))
register_all-Results ((n, none) ∷ calls) reg = (n, inl (refl, refl))
register_all-Results ((n, some f) ∷ calls) reg =
    go (get_open_listener_func n reg) refl (register_all-Results calls ((n, f) ∷ reg))
  where
    go :
        (o : Option OpenListenerFunc)
        → get_open_listener_func n reg ≡ o
        → Results calls ((n, f) ∷ reg) (register_all calls ((n, f) ∷ reg))
        → Results ((n, some f) ∷ calls) reg (elim (register_fresh o n f reg) [
          | registered reg' ↦ register_all calls reg'
          | panic_nil ↦ panic_nil
          | panic_twice n ↦ panic_twice n
        ])
    go none e r = Results-cons n f reg e calls _ r
    go (some g) e r = inr (rw (times, (equal_iff n n).1 refl) (omega arith), λ q. cc)

-- What a program's calls come to.
unfoldable pub IsTable : Calls → Registered → Type 0
unfolding get_open_listener_func
IsTable calls (registered reg) =
    ((name : Bytes) → times name calls ≤ 1)
    × ((name : Bytes) (f : OpenListenerFunc)
        → (get_open_listener_func name reg ≡ some f) ↔ Occurs name (some f) calls)
IsTable calls panic_nil = (name : Bytes) × Occurs name none calls
IsTable calls (panic_twice name) = 2 ≤ times name calls

-- What all the calls of `RegisterListenerType` in a program come to, in whatever order they are. If
-- none panics, no name is registered twice, and a lookup gives a function for a name exactly if it
-- was registered under it. A panic for nil is at a call with nil, and one for a name is for one that
-- the calls have twice.
pub register_all-IsTable : (calls : Calls) → IsTable calls (register_all calls [])
unfolding IsTable Results get_open_listener_func
register_all-IsTable calls = go (register_all calls []) (register_all-Results calls [])
  where
    go : (r : Registered) → Results calls [] r → IsTable calls r
    go (registered reg) (one, same) = (
      λ m. elim (one m) [ inl (e, l) ↦ l | inr e ↦ omega (arith, e) ],
      λ m g. (
        λ h. elim ((same m g).0 h) [ inl o ↦ o | inr e ↦ absurd (cc e) ],
        λ o. (same m g).1 (inl o),
      ),
    )
    go panic_nil r = r
    go (panic_twice m) (inl l) = l
    go (panic_twice m) (inr (l, used)) = absurd (used refl)
