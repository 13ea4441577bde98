-- ===== src/Common/Paths.antt =====
-- `path/filepath`: `Clean` and `Join`, on the separator of Unix.
use Prim.Native.Nat.{ℕ}
use mathlib.Core.Path.{◌≡◌, refl, ap, sym, subst, ◌∙◌}
use mathlib.Core.Logic.{◌≢◌, ◌⊎◌, inl, inr}
use mathlib.Core.Bool.{Bool, true, false, ◌||◌}
use mathlib.Core.List.{List, [], ◌∷◌, ◌++◌, append-nil, append_assoc}
use go_listener.Common.Tests.{◌==◌, ==_iff, if◌then◌else◌}
use go_listener.Common.Text.{
  Bytes, codes, equal, contains, split, split_onto, starts_with, is_empty,
}

-- The elements of a path so far, the last one first. `..` takes the last one away, is dropped at the
-- root, and is kept where nothing but `..` stands before it.
up : Bool → List Bytes → List Bytes
unfolding equal
up true [] = []
up false [] = (b'.' ∷ b'.' ∷ []) ∷ []
up rooted (e ∷ es) = if equal e (b'.' ∷ b'.' ∷ []) then (b'.' ∷ b'.' ∷ []) ∷ e ∷ es else es

add_element : Bool → List Bytes → Bytes → List Bytes
unfolding up equal
add_element rooted es e =
    if is_empty e || equal e (b'.' ∷ [])
    then es
    else if equal e (b'.' ∷ b'.' ∷ [])
    then up rooted es
    else e ∷ es

add_elements : Bool → List Bytes → List Bytes → List Bytes
unfolding add_element
add_elements rooted es [] = es
add_elements rooted es (f ∷ fs) = add_elements rooted (add_element rooted es f) fs

unfoldable pub path_of : Bool → List Bytes → Bytes
path_of true [] = b'/' ∷ []
path_of false [] = b'.' ∷ []
path_of true (e ∷ []) = b'/' ∷ e
path_of false (e ∷ []) = e
path_of rooted (e ∷ f ∷ es) = path_of rooted (f ∷ es) ++ b'/' ∷ e

-- `filepath.Clean`
unfoldable pub clean : Bytes → Bytes
unfolding path_of add_elements starts_with split
clean path =
    path_of (starts_with path b'/') (add_elements (starts_with path b'/') [] (split path b'/'))

-- `filepath.Join` of two elements
unfoldable pub join : Bytes → Bytes → Bytes
unfolding clean
join [] [] = []
join [] (c ∷ name) = clean (c ∷ name)
join (c ∷ dir) name = clean ((c ∷ dir) ++ b'/' ∷ name)

clean_example : clean (codes "/a//b/../c/./") ≡ codes "/a/c"
unfolding clean up split split_onto add_elements add_element path_of starts_with equal
clean_example = refl

join_example : join (codes "../x/") (codes "y") ≡ codes "../x/y"
unfolding join clean up split split_onto add_elements add_element path_of starts_with equal
join_example = refl

or-eq-false : (a b : Bool) → (a || b) ≡ false → (a ≡ false) × (b ≡ false)
or-eq-false true b h = cc
or-eq-false false b h = (refl, h)

pub split_onto-plain :
    (field s : Bytes) (c : ℕ) → contains s c ≡ false → split_onto field s c ≡ (field ++ s) ∷ []
unfolding split_onto contains
split_onto-plain field [] c h = ap (λ f. f ∷ []) (sym (append-nil field))
split_onto-plain field (x ∷ s) c h =
    rw (split_onto, plain.0)
      (split_onto-plain (field ++ x ∷ []) s c plain.1
        ∙ ap (λ f. f ∷ []) (append_assoc field (x ∷ []) s))
  where
    plain : ((x == c) ≡ false) × (contains s c ≡ false)
    plain = or-eq-false (x == c) (contains s c) h

split_onto-append :
    (field s name : Bytes) (c : ℕ)
    → contains name c ≡ false
    → split_onto field (s ++ c ∷ name) c ≡ split_onto field s c ++ name ∷ []
unfolding split_onto
split_onto-append field [] name c h =
    rw (split_onto, (==_iff c c).1 refl) (ap (◌∷◌ field) (split_onto-plain [] name c h))
split_onto-append field (x ∷ s) name c h =
    split_at (x == c) field (field ++ x ∷ []) (s ++ c ∷ name) s (split_onto-append [] s name c h)
      (split_onto-append (field ++ x ∷ []) s name c h)
  where
    split_at :
        (b : Bool) (f g u v : Bytes)
        → split_onto [] u c ≡ split_onto [] v c ++ name ∷ []
        → split_onto g u c ≡ split_onto g v c ++ name ∷ []
        → (elim b [ true ↦ f ∷ split_onto [] u c | false ↦ split_onto g u c ])
          ≡ (elim b [ true ↦ f ∷ split_onto [] v c | false ↦ split_onto g v c ]) ++ name ∷ []
    split_at true f g u v p q = ap (◌∷◌ f) p
    split_at false f g u v p q = q

add_elements-append :
    (rooted : Bool) (es fs : List Bytes) (name : Bytes)
    → add_elements rooted es (fs ++ name ∷ []) ≡ add_element rooted (add_elements rooted es fs) name
unfolding add_elements
add_elements-append rooted es [] name = refl
add_elements-append rooted es (f ∷ fs) name =
    add_elements-append rooted (add_element rooted es f) fs name

add_element-plain :
    (rooted : Bool) (es : List Bytes) (name : Bytes)
    → name ≢ []
    → starts_with name b'.' ≡ false
    → add_element rooted es name ≡ name ∷ es
unfolding add_element starts_with equal
add_element-plain rooted es [] n h = absurd (n refl)
add_element-plain rooted es (x ∷ s) n h = rw h refl

-- A file of a directory, by the path of the directory and the name of the file.
abbrev pub IsUnder : Bytes → Bytes → Bytes → Type 0
IsUnder dir name path =
    ((dir ≡ b'.' ∷ []) × (path ≡ name))
    ⊎ (((dir ≡ b'/' ∷ []) × (path ≡ b'/' ∷ name)) ⊎ (path ≡ dir ++ b'/' ∷ name))

path_of-IsUnder :
    (rooted : Bool) (es : List Bytes) (name : Bytes)
    → IsUnder (path_of rooted es) name (path_of rooted (name ∷ es))
unfolding path_of
path_of-IsUnder true [] name = inr (inl (refl, refl))
path_of-IsUnder false [] name = inl (refl, refl)
path_of-IsUnder rooted (e ∷ es) name = inr (inr refl)

-- The path that is cleaned, on its elements.
elements : Bool → Bytes → List Bytes
elements rooted path = add_elements rooted [] (split path b'/')

starts_with-plain : (s : Bytes) (c : ℕ) → contains s c ≡ false → starts_with s c ≡ false
unfolding starts_with contains
starts_with-plain [] c h = refl
starts_with-plain (x ∷ s) c h = (or-eq-false (x == c) (contains s c) h).0

join-empty : (name : Bytes) → name ≢ [] → join [] name ≡ clean name
unfolding join
join-empty [] n = absurd (n refl)
join-empty (c ∷ name) n = refl

module _ (name : Bytes) (n : name ≢ []) (no_dot : starts_with name b'.' ≡ false)
    (no_slash : contains name b'/' ≡ false) where
  elements-append :
      (rooted : Bool) (dir : Bytes)
      → elements rooted (dir ++ b'/' ∷ name) ≡ name ∷ elements rooted dir
  unfolding elements split
  elements-append rooted dir =
      ap (add_elements rooted []) (split_onto-append [] dir name b'/' no_slash)
      ∙ add_elements-append rooted [] (split dir b'/') name
      ∙ add_element-plain rooted (elements rooted dir) name n no_dot

  elements-plain : (rooted : Bool) → elements rooted name ≡ name ∷ []
  unfolding elements split add_elements
  elements-plain rooted =
      ap (add_elements rooted []) (split_onto-plain [] name b'/' no_slash)
      ∙ add_element-plain rooted [] name n no_dot

  clean-plain : clean name ≡ name
  unfolding clean path_of elements
  clean-plain =
      ap (λ b. path_of b (elements b name)) (starts_with-plain name b'/' no_slash)
      ∙ ap (path_of false) (elements-plain false)

  -- What `Join` makes of a directory and a name is a file of the directory itself.
  pub join-IsUnder : (dir : Bytes) → IsUnder (clean dir) name (join dir name)
  unfolding join clean elements split split_onto add_elements add_element path_of starts_with
  join-IsUnder [] = inl (refl, join-empty name n ∙ clean-plain)
  join-IsUnder (c ∷ dir) =
      subst (IsUnder (clean (c ∷ dir)) name)
        (ap (path_of (c == b'/')) (sym (elements-append (c == b'/') (c ∷ dir))))
        (path_of-IsUnder (c == b'/') (elements (c == b'/') (c ∷ dir)) name)
