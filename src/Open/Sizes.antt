-- ===== src/Open/Sizes.antt =====
-- The sizes of strings and of JSON objects that open.go takes apart.
use go_listener.Common.{
  ℕ, suc, ◌+◌, ◌<◌, ◌≤◌, ◌≡◌, sym, arith, Bool, true, false, Option, none, some, [], ◌∷◌,
  if◌then◌else◌, ◌==◌, length,
}
use mathlib.Core.Option
use go_listener.Common.Text.{Bytes, codes, cut, equal}
use go_listener.Json.{
  Json, object, null, boolean, number, string, strings, array, Fields, nothing, field, get,
  as_object,
}

-- How deep the objects of a map are nested, or more.
abbrev mutual
  pub depth : Fields → ℕ
  depth nothing = 0
  depth (field k v m) = suc (depth_value v) + depth m

  depth_value : Json → ℕ
  depth_value (object m) = suc (depth m)
  depth_value null = 0
  depth_value (boolean b) = 0
  depth_value (number s) = 0
  depth_value (string s) = 0
  depth_value (strings l) = 0
  depth_value (array i) = 0

abbrev pub Shorter : ℕ → Option (Bytes × Bytes) → Type 0
Shorter n none = Unit
Shorter n (some p) = length p.1 < n

map-Shorter :
    (x n : ℕ) (o : Option (Bytes × Bytes))
    → Shorter n o
    → Shorter (suc n) (Option.map (λ (before, after). (x ∷ before, after)) o)
map-Shorter x n none h = tt
map-Shorter x n (some p) h = omega arith

if-Shorter :
    (b : Bool) (n : ℕ) (o q : Option (Bytes × Bytes))
    → Shorter n o
    → Shorter n q
    → Shorter n (if b then o else q)
if-Shorter true n o q h k = h
if-Shorter false n o q h k = k

pub cut-Shorter : (s : Bytes) (c : ℕ) → Shorter (length s) (cut s c)
unfolding cut
cut-Shorter [] c = tt
cut-Shorter (y ∷ s) c =
    if-Shorter (y == c) (length (y ∷ s)) _ _ (omega arith)
      (map-Shorter y (length s) (cut s c) (cut-Shorter s c))

abbrev pub Shallower : ℕ → Option Json → Type 0
Shallower n none = Unit
Shallower n (some v) = depth_value v < n

Shallower-mono : (m n : ℕ) (o : Option Json) → m ≤ n → Shallower m o → Shallower n o
Shallower-mono m n none l h = tt
Shallower-mono m n (some v) l h = omega arith

if-Shallower :
    (b : Bool) (n : ℕ) (o q : Option Json)
    → Shallower n o
    → Shallower n q
    → Shallower n (if b then o else q)
if-Shallower true n o q h k = h
if-Shallower false n o q h k = k

pub get-Shallower : (k : Bytes) (m : Fields) → Shallower (depth m) (get k m)
unfolding get
get-Shallower k nothing = tt
get-Shallower k (field j x m) =
    if-Shallower (equal j k) _ _ _ (omega arith)
      (Shallower-mono (depth m) _ (get k m) (omega arith) (get-Shallower k m))

pub inner-depth :
    (m m' : Fields) → as_object (get (codes "listener") m) ≡ some m' → depth m' < depth m
unfolding as_object
inner-depth m m' e = go (get (codes "listener") m) (get-Shallower (codes "listener") m) e
  where
    go : (o : Option Json) → Shallower (depth m) o → as_object o ≡ some m' → depth m' < depth m
    go (some (object i)) k q = let q' : i ≡ m' = cc in rw (sym q') (omega (arith, k))
    go none k q = cc
    go (some (number s)) k q = cc
    go (some (string s)) k q = cc
    go (some null) k q = cc
    go (some (boolean x)) k q = cc
    go (some (strings l)) k q = cc
    go (some (array i)) k q = cc
