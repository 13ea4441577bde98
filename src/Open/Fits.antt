-- ===== src/Open/Fits.antt =====
-- builtin.go and open.go: specifications that name no descriptor by a number from 2^63 on.
use go_listener.Common.{
  ℕ, ◌≡◌, Bool, true, false, Option, none, some, [], ◌∷◌, ◌==◌, Bool-cases, inl, inr,
}
use mathlib.Core.Path.{subst}
use mathlib.Core.Option
use go_listener.Common.Text.{Bytes, codes, cut, equal, equal_iff}
use go_listener.Json.{
  Json, object, null, boolean, number, string, strings, array, Fields, nothing, field, get,
  as_object, as_number, as_string,
}
use go_listener.Builtin.{number_or_string}
use go_listener.Builtin.Returns.{FitsFd, FitsArgument}

-- Behind every colon.
abbrev AfterColon : Bool → Bytes → Type 0
AfterColon true s = FitsFd s
AfterColon false s = Unit

abbrev pub Fits : Bytes → Type 0
Fits [] = Unit
Fits (c ∷ s) = AfterColon (c == b':') s × Fits s

-- Under the key `fd`, in an object and in those in it.
abbrev Named : Bool → Bytes → Type 0
Named true s = FitsFd s
Named false s = Unit

abbrev mutual
  pub FitsFields : Fields → Type 0
  FitsFields nothing = Unit
  FitsFields (field k v m) = FitsValue (equal k (codes "fd")) v × FitsFields m

  FitsValue : Bool → Json → Type 0
  FitsValue b (object m) = FitsFields m
  FitsValue b (number s) = Named b s
  FitsValue b (string s) = Named b s
  FitsValue b null = Unit
  FitsValue b (boolean x) = Unit
  FitsValue b (strings l) = Unit
  FitsValue b (array i) = Unit

abbrev FitsCut : Option (Bytes × Bytes) → Type 0
FitsCut none = Unit
FitsCut (some p) = FitsFd p.1 × Fits p.1

map-FitsCut :
    (x : ℕ) (o : Option (Bytes × Bytes))
    → FitsCut o
    → FitsCut (Option.map (λ (before, after). (x ∷ before, after)) o)
map-FitsCut x none h = tt
map-FitsCut x (some p) h = h

cut-FitsCut : (s : Bytes) → Fits s → FitsCut (cut s b':')
unfolding cut
cut-FitsCut [] h = tt
cut-FitsCut (x ∷ s) h = elim (Bool-cases (x == b':')) [
  | inl e ↦ rw (cut, e) (subst (λ b. AfterColon b s) e h.0, h.1)
  | inr e ↦ rw (cut, e) (map-FitsCut x (cut s b':') (cut-FitsCut s h.1))
]

pub cut-Fits :
    (s : Bytes) (p : Bytes × Bytes) → cut s b':' ≡ some p → Fits s → FitsFd p.1 × Fits p.1
cut-Fits s p e h = subst FitsCut e (cut-FitsCut s h)

abbrev FitsFound : Bool → Option Json → Type 0
FitsFound b none = Unit
FitsFound b (some v) = FitsValue b v

get-FitsFound : (k : Bytes) (m : Fields) → FitsFields m → FitsFound (equal k (codes "fd")) (get k m)
unfolding get
get-FitsFound k nothing h = tt
get-FitsFound k (field j v m) h = elim (Bool-cases (equal j k)) [
  | inl e ↦ rw (get, e) (subst (λ i. FitsValue (equal i (codes "fd")) v) ((equal_iff j k).0 e) h.0)
  | inr e ↦ rw (get, e) (get-FitsFound k m h.1)
]

pub argument-Fits :
    (m : Fields) → FitsFields m → FitsArgument (number_or_string (get (codes "fd") m))
unfolding as_number as_string equal
argument-Fits m h = go (get (codes "fd") m) (get-FitsFound (codes "fd") m h)
  where
    go : (o : Option Json) → FitsFound true o → FitsArgument (number_or_string o)
    go none k = tt
    go (some (number s)) k = k
    go (some (string s)) k = k
    go (some null) k = tt
    go (some (boolean x)) k = tt
    go (some (strings l)) k = tt
    go (some (array i)) k = tt
    go (some (object i)) k = tt

pub inner-Fits :
    (m m' : Fields) → FitsFields m → as_object (get (codes "listener") m) ≡ some m' → FitsFields m'
unfolding as_object equal
inner-Fits m m' h e = go (get (codes "listener") m) (get-FitsFound (codes "listener") m h) e
  where
    go : (o : Option Json) → FitsFound false o → as_object o ≡ some m' → FitsFields m'
    go (some (object i)) k q = let q' : i ≡ m' = cc in subst FitsFields q' k
    go none k q = cc
    go (some (number s)) k q = cc
    go (some (string s)) k q = cc
    go (some null) k q = cc
    go (some (boolean x)) k q = cc
    go (some (strings l)) k q = cc
    go (some (array i)) k q = cc
