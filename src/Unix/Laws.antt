-- ===== src/Unix/Laws.antt =====
-- unix/listener.go: paths and files, as `Listen` and its deferred calls need them.
use go_listener.Common.{
  ℕ, ◌+◌, ◌<◌, true, false, none, some, List, [], ◌∷◌, ◌++◌, ◌≡◌, refl, ◌≢◌, arith, All, Bool-cases,
  inl, inr,
}
use go_listener.Common.Text.{Bytes, equal, equal_refl, equal_iff, codes}
use go_listener.System.{World, Node, directory, socket, Env, remove_handle, close_handle}
use go_listener.Unix.{
  Files, erase, lookup, has_prefix, has_children, temp_path, unlink, remove, rename, set_mode,
  cleanup,
}

equal-append : (a : Bytes) (c : ℕ) (b : Bytes) → equal a (a ++ c ∷ b) ≡ false
unfolding equal
equal-append [] c b = refl
equal-append (x ∷ a) c b = ground (arith, equal-append a c b)

has_prefix-longer : (a : Bytes) (c : ℕ) → has_prefix a (a ++ c ∷ []) ≡ false
unfolding has_prefix
has_prefix-longer [] c = refl
has_prefix-longer (x ∷ a) c = ground (arith, has_prefix-longer a c)

has_prefix-below : (a : Bytes) (c : ℕ) (b : Bytes) → has_prefix (a ++ c ∷ b) (a ++ c ∷ []) ≡ true
unfolding has_prefix equal
has_prefix-below [] c b = ground arith
has_prefix-below (x ∷ a) c b = ground (arith, has_prefix-below a c b)

erase-absent : (p : Bytes) (fs : Files) → lookup p fs ≡ none → erase p fs ≡ fs
unfolding erase lookup
erase-absent p [] h = refl
erase-absent p ((q, n) ∷ fs) h = ground (arith, erase-absent p fs)

lookup-erase_absent : (p q : Bytes) (fs : Files) → lookup p fs ≡ none → lookup p (erase q fs) ≡ none
unfolding erase lookup
lookup-erase_absent p q [] h = refl
lookup-erase_absent p q ((r, n) ∷ fs) h = ground (arith, lookup-erase_absent p q fs)

has_children-erase :
    (p q : Bytes) (fs : Files) → has_children p fs ≡ false → has_children p (erase q fs) ≡ false
unfolding erase has_children
has_children-erase p q [] h = refl
has_children-erase p q ((r, n) ∷ fs) h = ground (arith, has_children-erase p q fs)

-- With nothing below a directory, the path of the socket in it is free.
lookup-temp_path :
    (dir : Bytes) (fs : Files) → has_children dir fs ≡ false → lookup (temp_path dir) fs ≡ none
unfolding has_children lookup
lookup-temp_path dir [] h = refl
lookup-temp_path dir ((q, n) ∷ fs) h = elim (Bool-cases (equal q (temp_path dir))) [
  | inl e ↦
      let q_is = (equal_iff q (temp_path dir)).0 e in
      let below = rw (← q_is) at (has_prefix-below dir b'/' (codes "socket")) in
      ground (arith, below)
  | inr e ↦ ground (arith, lookup-temp_path dir fs)
]

pub remove_handle-fresh : (n : ℕ) (hs : List ℕ) → All (λ h. h < n) hs → remove_handle n hs ≡ hs
unfolding remove_handle
remove_handle-fresh n [] b = refl
remove_handle-fresh n (h ∷ hs) b = ground (arith, remove_handle-fresh n hs b.1)

-- What `os.MkdirTemp` promises of the name it picks, and that no removal fails.
pub record IsFresh (env : Env) (dir : Bytes) (fs : Files) : Type 0 where
  pub unused : lookup dir fs ≡ none
  pub empty : has_children dir fs ≡ false
  pub removes : (k : ℕ) → env.remove_fails k ≡ false

module _ {env : Env} {dir : Bytes} {fs : Files} (fresh : IsFresh env dir fs) where
  -- The world while the temporary directory holds the socket.
  abbrev pub holding : World → Node → World
  holding w n = record w { files = (temp_path dir, n) ∷ (dir, directory) ∷ fs }

  erase-temp_path :
      (n : Node)
      → erase (temp_path dir) ((temp_path dir, n) ∷ (dir, directory) ∷ fs) ≡ (dir, directory) ∷ fs
  unfolding erase
  erase-temp_path n = ground (
    arith,
    equal_refl (temp_path dir),
    equal-append dir b'/' (codes "socket"),
    erase-absent (temp_path dir) fs,
    lookup-temp_path dir fs fresh.empty,
  )

  pub remove-dir :
      (w : World)
      → remove env dir (record w { files = (dir, directory) ∷ fs })
        ≡ record w { clock = w.clock + 1; files = fs }
  unfolding remove unlink lookup erase has_children
  remove-dir w = ground (
    arith,
    fresh.removes w.clock,
    equal_refl dir,
    has_prefix-longer dir b'/',
    erase-absent dir fs fresh.unused,
    fresh.empty,
  )

  -- The deferred calls before the rename close the socket and leave no file.
  pub cleanup-open :
      (w : World) (h m : ℕ)
      → cleanup env dir (some h) (holding w (socket h m))
        ≡ record w { clock = w.clock + 1 + 1; live = remove_handle h w.live; files = fs }
  unfolding cleanup close_handle remove lookup unlink
  cleanup-open w h m =
      rw
        (
          cleanup,
          fresh.removes w.clock,
          equal_refl (temp_path dir),
          unlink,
          erase-temp_path (socket h m),
        )
        (remove-dir (record w { clock = w.clock + 1; live = remove_handle h w.live }))

  pub chmod-files :
      (w : World) (n : Node) (h mode : ℕ)
      → set_mode (temp_path dir) h mode (holding w n) ≡ holding w (socket h mode)
  unfolding set_mode
  chmod-files w n h mode = rw (erase-temp_path n)

  module _ {path : Bytes} (n : Node) (elsewhere : path ≢ dir)
      (outside : has_prefix path (dir ++ codes "/") ≡ false) where
    path-ne-temp_path : equal path (temp_path dir) ≡ false
    path-ne-temp_path = elim (Bool-cases (equal path (temp_path dir))) [
      | inl e ↦
          let below =
            rw (← (equal_iff path (temp_path dir)).0 e) at
              (has_prefix-below dir b'/' (codes "socket")) in
          cc (below, outside)
      | inr e ↦ e
    ]

    pub rename-files :
        (w : World) (n' : Node)
        → rename (temp_path dir) path n (holding w n')
          ≡ record w { files = (path, n) ∷ (dir, directory) ∷ erase path fs }
    unfolding rename
    rename-files w n' =
        rw (erase-temp_path n') (unfold erase in ground (arith, equal_iff dir path, elsewhere))

    -- After the rename they leave the socket open, and no file but the one at `path`.
    pub cleanup-renamed :
        (w : World)
        → cleanup env dir none (record w { files = (path, n) ∷ (dir, directory) ∷ erase path fs })
          ≡ record w { clock = w.clock + 1 + 1; files = (path, n) ∷ erase path fs }
    unfolding cleanup remove lookup unlink erase has_children
    cleanup-renamed w = ground (
      arith,
      fresh.removes w.clock,
      fresh.removes (w.clock + 1),
      path-ne-temp_path,
      equal_iff path dir,
      elsewhere,
      outside,
      equal_refl dir,
      equal-append dir b'/' (codes "socket"),
      has_prefix-longer dir b'/',
      lookup-erase_absent (temp_path dir) path fs (lookup-temp_path dir fs fresh.empty),
      has_children-erase dir path fs fresh.empty,
      erase-absent dir (erase path fs) (lookup-erase_absent dir path fs fresh.unused),
    )
