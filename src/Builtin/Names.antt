-- ===== src/Builtin/Names.antt =====
-- builtin.go: which descriptor `openFDNameListener` opens.
use go_listener.Common.{
  ℕ, zero, suc, ◌+◌, ◌<◌, ◌≡◌, ◌≢◌, refl, ap, ◌∙◌, arith, true, Option, none, some, List, [], ◌∷◌,
  err, get_elem?, ◌⊎◌, inl, inr, if◌then◌else◌, Bool-cases,
}
use go_listener.Common.Int.{ℤ, pos, negsuc}
use go_listener.Common.Strconv.{atoi}
use go_listener.Common.Text.{Bytes, codes, equal, equal_iff, split, is_empty}
use go_listener.Json.{Fields, get, as_string}
use go_listener.System.{World, Env, OpenError, M, fail, Listener}
use go_listener.Builtin.{
  find_name, equal_int, check_listen_pid, open_fd_named, listen_file, open_fdname_listener,
  argument,
}

-- The first place of a name.
abbrev pub IsFirst : Bytes → List Bytes → ℕ → Type 0
IsFirst name fields i =
    (get_elem? fields i ≡ some name) × ((j : ℕ) → j < i → get_elem? fields j ≢ some name)

-- `find_name`, from a number on.
Found : Bytes → List Bytes → ℕ → Option ℕ → Type 0
Found name fields k none = (j : ℕ) → get_elem? fields j ≢ some name
Found name fields k (some n) = (i : ℕ) × (n ≡ k + i) × IsFirst name fields i

Found-cons :
    (name f : Bytes) (fields : List Bytes) (k : ℕ) (o : Option ℕ)
    → f ≢ name
    → Found name fields (k + 1) o
    → Found name (f ∷ fields) k o
unfolding Found
Found-cons name f fields k none ne h = misses
  where
    misses : (j : ℕ) → get_elem? (f ∷ fields) j ≢ some name
    misses zero q = ne (cc)
    misses (suc j) q = h j q
Found-cons name f fields k (some n) ne (i, e, (at, before)) =
    (suc i, omega (arith, e), (at, earlier))
  where
    earlier : (j : ℕ) → j < suc i → get_elem? (f ∷ fields) j ≢ some name
    earlier zero l q = ne (cc)
    earlier (suc j) l q = before j (omega arith) q

find_name-Found :
    (k : ℕ) (name : Bytes) (fields : List Bytes) → Found name fields k (find_name k name fields)
unfolding find_name Found
find_name-Found k name [] = λ j q. cc
find_name-Found k name (f ∷ fields) = elim (Bool-cases (equal f name)) [
  | inl e ↦
      rw (find_name, e)
        (0, omega arith, (ap some ((equal_iff f name).0 e), λ j l q. absurd (omega arith)))
  | inr e ↦
      rw (find_name, e)
        (Found-cons name f fields k (find_name (k + 1) name fields)
          (λ q. let t : equal f name ≡ true = (equal_iff f name).1 q in cc)
          (find_name-Found (k + 1) name fields))
]

equal_int_refl : (a : ℤ) → equal_int a a ≡ true
unfolding equal_int
equal_int_refl (pos a) = ground arith
equal_int_refl (negsuc a) = ground arith

atoi-empty : atoi [] ≡ none
unfolding atoi
atoi-empty = refl

check_listen_pid-none :
    (env : Env)
    → atoi (env.getenv (codes "LISTEN_PID")) ≡ some env.getpid
    → check_listen_pid env ≡ none
unfolding check_listen_pid
check_listen_pid-none env h = go (env.getenv (codes "LISTEN_PID")) h
  where
    go :
        (s : Bytes)
        → atoi s ≡ some env.getpid
        → (if is_empty s then some OpenError.no_listen_pid else elim (atoi s) [
          | none ↦ some OpenError.bad_listen_pid
          | some pid ↦
              if equal_int pid env.getpid then none else some (OpenError.wrong_pid pid env.getpid)
        ])
          ≡ none
    go [] e = let q : atoi [] ≡ none = atoi-empty in cc
    go (c ∷ s) e = rw (e, equal_int_refl env.getpid) refl

-- What is opened for the place of a name.
abbrev named : Env → Bytes → Option ℕ → M Listener
named env name o = elim o [
  | some i ↦ listen_file env (3 + i)
  | none ↦ fail (OpenError.name_not_found name)
]

open_fd_named-eq :
    (env : Env) (name : Bytes) (w : World)
    → check_listen_pid env ≡ none
    → open_fd_named env (some name) w
      ≡ named env name (find_name 0 name (split (env.getenv (codes "LISTEN_FDNAMES")) b':')) w
unfolding open_fd_named
open_fd_named-eq env name w h = rw (open_fd_named, h) refl

-- If `$LISTEN_PID` is this process, `openFDNameListener` of a name opens the descriptor 3 + i, where i
-- is the first place of the name in `$LISTEN_FDNAMES`, or returns the error that it is not there.
pub open_fdname_listener-IsFirst :
    (env : Env) (params : Fields) (arg name : Bytes) (w : World)
    → argument arg (as_string (get (codes "name") params)) ≡ some name
    → atoi (env.getenv (codes "LISTEN_PID")) ≡ some env.getpid
    → let fields = split (env.getenv (codes "LISTEN_FDNAMES")) b':' in
      ((i : ℕ) × IsFirst name fields i
        × (open_fdname_listener env params arg w ≡ listen_file env (3 + i) w))
      ⊎ (((j : ℕ) → get_elem? fields j ≢ some name)
          × (open_fdname_listener env params arg w ≡ (err (OpenError.name_not_found name), w)))
unfolding open_fdname_listener Found
open_fdname_listener-IsFirst env params arg name w h k =
    go (find_name 0 name fields) (find_name-Found 0 name fields) (
      ap (λ o. open_fd_named env o w) h ∙ open_fd_named-eq env name w (check_listen_pid-none env k))
  where
    fields : List Bytes
    fields = split (env.getenv (codes "LISTEN_FDNAMES")) b':'

    go :
        (o : Option ℕ)
        → Found name fields 0 o
        → open_fdname_listener env params arg w ≡ named env name o w
        → ((i : ℕ) × IsFirst name fields i
            × (open_fdname_listener env params arg w ≡ listen_file env (3 + i) w))
          ⊎ (((j : ℕ) → get_elem? fields j ≢ some name)
              × (open_fdname_listener env params arg w ≡ (err (OpenError.name_not_found name), w)))
    go none f e = inr (f, e)
    go (some n) (i, q, f) e =
        let p : n ≡ i = omega (arith, q) in inl (i, f, e ∙ ap (λ n. listen_file env (3 + n) w) p)
