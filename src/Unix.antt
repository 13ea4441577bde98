-- ===== src/Unix.antt =====
-- unix/listener.go: the socket is made in a temporary directory and renamed into place.
pub mod Laws
pub mod Cleanup
pub mod Sockets
pub mod Descriptors
pub mod Returns
pub mod Watch
use go_listener.Common.{
  ℕ, Bool, true, false, ◌&&◌, Option, none, some, List, [], ◌∷◌, ◌++◌, if◌then◌else◌, Outcome, ok,
  err, panic,
}
use go_listener.Common.Text.{Bytes, equal, codes}
use go_listener.System.{
  World, Node, directory, socket, Listener, watched_listener, OpenError, system, no_temp_dir, Env,
  M, ◌>>=◌, ◌>>◌, pure, tick, syscall_as, syscall, open_socket, close_handle,
}

abbrev pub Files : Type 0
Files = List (Bytes × Node)

unfoldable pub erase : Bytes → Files → Files
unfolding equal
erase p [] = []
erase p ((q, n) ∷ fs) = if equal q p then erase p fs else (q, n) ∷ erase p fs

unfoldable pub lookup : Bytes → Files → Option Node
unfolding equal
lookup p [] = none
lookup p ((q, n) ∷ fs) = if equal q p then some n else lookup p fs

-- `strings.HasPrefix`
unfoldable pub has_prefix : Bytes → Bytes → Bool
has_prefix s [] = true
has_prefix [] (c ∷ p) = false
has_prefix (d ∷ s) (c ∷ p) = equal (d ∷ []) (c ∷ []) && has_prefix s p

-- Whether a file stands below `p`.
unfoldable pub has_children : Bytes → Files → Bool
unfolding has_prefix
has_children p [] = false
has_children p ((q, n) ∷ fs) = if has_prefix q (p ++ codes "/") then true else has_children p fs

-- `filepath.Join(tempDir, "socket")`
abbrev pub temp_path : Bytes → Bytes
temp_path dir = dir ++ codes "/socket"

abbrev pub put : Bytes → Node → World → World
put p n w = record w { files = (p, n) ∷ w.files }

-- `os.Remove`, whose error the code ignores. It leaves a directory that is not empty.
unfoldable pub unlink : Option Node → Bytes → Files → Files
unlink none p fs = fs
unlink (some directory) p fs = if has_children p fs then fs else erase p fs
unlink (some (socket h mode)) p fs = erase p fs

unfoldable pub remove : Env → Bytes → World → World
remove env p w =
    if env.remove_fails w.clock
    then tick w
    else record (tick w) { files = unlink (lookup p w.files) p w.files }

-- `os.Rename` of a file that is there: it replaces what stands at the new path.
unfoldable pub rename : Bytes → Bytes → Node → World → World
unfolding erase
rename from to n w = record w { files = (to, n) ∷ erase to (erase from w.files) }

-- The deferred calls of `Listen`, in the order in which they run. They close the socket unless
-- `tempListener` was set to nil.
unfoldable pub cleanup : Env → Bytes → Option ℕ → World → World
cleanup env dir none w = remove env dir (remove env (temp_path dir) w)
cleanup env dir (some h) w = remove env dir (remove env (temp_path dir) (close_handle h w))

abbrev pub undo_failure :
    {A : Type 0} → (World → World) → Outcome OpenError A × World → Outcome OpenError A × World
undo_failure undo (ok a, w) = (ok a, w)
undo_failure undo (err e, w) = (err e, undo w)
undo_failure undo (panic, w) = (panic, undo w)

-- A step of `Listen` behind which the deferred calls run if it fails.
abbrev pub or_cleanup : {A : Type 0} → (World → World) → M A → M A
or_cleanup undo m w = undo_failure undo (m w)

abbrev effect : (World → World) → M (Unit {0})
effect f w = (ok tt, f w)

-- `os.MkdirTemp`, whose error is wrapped.
unfoldable pub make_temp_dir : Env → Bytes → M (Unit {0})
make_temp_dir env dir = do syscall_as no_temp_dir env; effect (put dir directory)

-- `net.ListenUnix`, with the mode that the umask leaves.
abbrev pub default_mode : ℕ
default_mode = 0o755

unfoldable pub listen_unix : Env → Bytes → M ℕ
listen_unix env p = do h ← open_socket env; effect (put p (socket h default_mode)); pure h

-- `os.Chmod`
unfoldable pub set_mode : Bytes → ℕ → ℕ → World → World
unfolding erase
set_mode p h mode w = record w { files = (p, socket h mode) ∷ erase p w.files }

-- The end of `Listen`, from the rename on.
unfoldable pub install : Env → Bytes → Bytes → ℕ → ℕ → M Listener
install env dir path mode h = do
  or_cleanup (cleanup env dir (some h)) (syscall env)
  effect (rename (temp_path dir) path (socket h mode))
  effect (cleanup env dir none)
  pure (watched_listener h path)

-- From `os.Lstat` on. What it returns is the socket itself, known by its handle.
unfoldable pub identify : Env → Bytes → Bytes → ℕ → ℕ → M Listener
identify env dir path mode h = do
  or_cleanup (cleanup env dir (some h)) (syscall env)
  install env dir path mode h

-- From `os.Chmod` on.
unfoldable pub protect : Env → Bytes → Bytes → ℕ → ℕ → M Listener
protect env dir path mode h = do
  or_cleanup (cleanup env dir (some h)) (syscall env)
  effect (set_mode (temp_path dir) h mode)
  identify env dir path mode h

-- From `net.ListenUnix` on.
unfoldable pub bind_socket : Env → Bytes → Bytes → ℕ → M Listener
bind_socket env dir path mode = do
  h ← or_cleanup (remove env dir) (listen_unix env (temp_path dir))
  protect env dir path mode h

-- `Listen`
unfoldable pub listen : Env → Bytes → ℕ → M Listener
listen env path mode = do
  let dir = env.temp_dir path
  make_temp_dir env dir
  bind_socket env dir path mode
