-- ===== src/Https/Serving/Named.antt =====
-- tls/listener.go: what a specification of a TLS listener says, in the words of the README: its
-- certificates, as `CERT_SPEC` or as a parameter, and the default server name.
use go_listener.Common.{
  ℕ, ◌≡◌, ◌≢◌, refl, sym, ap, ◌∙◌, arith, true, false, Option, none, some, List, [], ◌∷◌, ◌++◌,
  if◌then◌else◌, ◌==◌, All, ◌⊎◌, inl, inr, Bool-cases,
}
use mathlib.Core.List.{append_assoc, append-nil}
use go_listener.Common.Text.{
  Bytes, codes, contains, starts_with, ends_with, cut, split, split_onto, is_empty,
}
use go_listener.Common.Paths.{split_onto-plain}
use go_listener.Json.{
  Json, null, boolean, number, string, strings, array, object, Fields, get, as_string, as_strings,
}
use go_listener.System.{from_directory, automatically}
use go_listener.Https.{source_of_spec, source_of_params, default_name}
use go_listener.Https.Serving.{source_named, effective_name}
use go_listener.Open.Meaning.{cut-append}

-- The server name that a client sends, or the parameter `default_server_name` where it sends none.
abbrev pub sent_or_default : Option Json → Bytes → Bytes
sent_or_default (some (string name)) [] = name
sent_or_default _ sent = sent

-- A path that begins and ends with a slash.
abbrev IsDirectoryPath : Bytes → Type 0
IsDirectoryPath path = (path ≡ b'/' ∷ []) ⊎ ((mid : Bytes) × (path ≡ b'/' ∷ mid ++ b'/' ∷ []))

-- The specification names this directory: `DIRECTORY:SOCKET_SPEC`, or the parameter
-- `cert_directory` and no file.
abbrev pub NamesDirectory : Fields → Bytes → Bytes → Type 0
NamesDirectory params arg path =
    ((arg ≡ [])
      × (as_string (get (codes "cert") params) ≡ none)
      × (get (codes "cert_directory") params ≡ some (string path)))
    ⊎ ((inner : Bytes) × (arg ≡ path ++ b':' ∷ inner)
        × (contains path b':' ≡ false)
        × IsDirectoryPath path)

-- Names with commas between them.
abbrev pub separated : Bytes → List Bytes → Bytes
separated host [] = host
separated host (h ∷ hosts) = host ++ b',' ∷ separated h hosts

-- The specification names these hosts: `HOSTNAME[,HOSTNAME...]:SOCKET_SPEC`, or the parameter
-- `autocert_hostnames` with the `[]string` of a program, `none` if that is nil, and neither a file nor
-- a directory.
abbrev pub NamesHosts : Fields → Bytes → Option (List Bytes) → Type 0
NamesHosts params arg hostnames =
    ((arg ≡ [])
      × (as_string (get (codes "cert") params) ≡ none)
      × (as_string (get (codes "cert_directory") params) ≡ none)
      × (get (codes "autocert_hostnames") params ≡ some (strings hostnames)))
    ⊎ ((host : Bytes) × (hosts : List Bytes) × (inner : Bytes) × (hostnames ≡ some (host ∷ hosts))
        × (arg ≡ separated host hosts ++ b':' ∷ inner)
        × (contains (separated host hosts) b':' ≡ false)
        × (starts_with (separated host hosts) b'/' ≡ false)
        × All (λ h. contains h b',' ≡ false) (host ∷ hosts))

pub effective_name-default :
    (params : Fields) (sent : Bytes)
    → effective_name (default_name params) sent
      ≡ sent_or_default (get (codes "default_server_name") params) sent
unfolding default_name as_string
effective_name-default params sent = go (get (codes "default_server_name") params) sent
  where
    go :
        (v : Option Json) (sent : Bytes)
        → effective_name
            (elim (as_string v) [
              | some name ↦ if is_empty name then none else some name
              | none ↦ none
            ])
            sent
          ≡ sent_or_default v sent
    go none sent = refl
    go (some (string [])) [] = refl
    go (some (string [])) (c ∷ s) = refl
    go (some (string (b ∷ n))) [] = refl
    go (some (string (b ∷ n))) (c ∷ s) = refl
    go (some null) sent = refl
    go (some (boolean b)) sent = refl
    go (some (number b)) sent = refl
    go (some (strings b)) sent = refl
    go (some (array b)) sent = refl
    go (some (object b)) sent = refl

ends_with-append : (s : Bytes) (c : ℕ) → ends_with (s ++ c ∷ []) c ≡ true
unfolding ends_with
ends_with-append [] c = ground arith
ends_with-append (x ∷ []) c = ground arith
ends_with-append (x ∷ y ∷ s) c = ends_with-append (y ∷ s) c

source_of_spec-directory :
    (path : Bytes) → IsDirectoryPath path → source_of_spec path ≡ from_directory path
unfolding source_of_spec starts_with
source_of_spec-directory path (inl e) = rw (e, source_of_spec) refl
source_of_spec-directory path (inr (mid, e)) =
    rw (e, source_of_spec, ends_with-append (b'/' ∷ mid) b'/') refl

split_onto-cons :
    (field s rest : Bytes) (c : ℕ)
    → contains s c ≡ false
    → split_onto field (s ++ c ∷ rest) c ≡ (field ++ s) ∷ split_onto [] rest c
unfolding split_onto contains
split_onto-cons field [] rest c h = rw (split_onto, append-nil field) (ground arith)
split_onto-cons field (x ∷ s) rest c h = elim (Bool-cases (x == c)) [
  | inl e ↦ absurd (ground arith)
  | inr e ↦
      rw (split_onto, e)
        (split_onto-cons (field ++ x ∷ []) s rest c (ground arith)
          ∙ ap (λ f. f ∷ split_onto [] rest c) (append_assoc field (x ∷ []) s))
]

split-separated :
    (host : Bytes) (hosts : List Bytes)
    → All (λ h. contains h b',' ≡ false) (host ∷ hosts)
    → split_onto [] (separated host hosts) b',' ≡ host ∷ hosts
split-separated host [] a = split_onto-plain [] host b',' a.0
split-separated host (h ∷ hosts) a =
    split_onto-cons [] host (separated h hosts) b',' a.0
    ∙ ap (λ hs. host ∷ hs) (split-separated h hosts a.1)

named_of_argument :
    (params : Fields) (spec inner arg : Bytes)
    → arg ≡ spec ++ b':' ∷ inner
    → contains spec b':' ≡ false
    → source_named params arg ≡ some (source_of_spec spec)
unfolding source_named
named_of_argument params spec inner [] e h = absurd (nonempty spec e)
  where
    nonempty : (s : Bytes) → [] ≢ s ++ b':' ∷ inner
    nonempty [] q = cc
    nonempty (x ∷ s) q = cc
named_of_argument params spec inner (c ∷ arg) e h =
    rw (source_named, ap (λ a. cut a b':') e ∙ cut-append spec inner b':' h) refl

pub source_named-directory :
    (params : Fields) (arg path : Bytes)
    → NamesDirectory params arg path
    → source_named params arg ≡ some (from_directory path)
unfolding source_named source_of_params as_string
source_named-directory params arg path (inl (e, no_file, named)) =
    rw (e, source_named, source_of_params, no_file, named) refl
source_named-directory params arg path (inr (inner, e, plain, is_directory)) =
    named_of_argument params path inner arg e plain
    ∙ ap some (source_of_spec-directory path is_directory)

source_of_spec-hosts :
    (host : Bytes) (hosts : List Bytes)
    → starts_with (separated host hosts) b'/' ≡ false
    → All (λ h. contains h b',' ≡ false) (host ∷ hosts)
    → source_of_spec (separated host hosts) ≡ automatically (some (host ∷ hosts))
unfolding source_of_spec split
source_of_spec-hosts host hosts h a =
    rw (source_of_spec, h) (ap (λ hs. automatically (some hs)) (split-separated host hosts a))

pub source_named-hosts :
    (params : Fields) (arg : Bytes) (hostnames : Option (List Bytes))
    → NamesHosts params arg hostnames
    → source_named params arg ≡ some (automatically hostnames)
unfolding source_named source_of_params as_strings
source_named-hosts params arg hostnames (inl (e, no_file, no_directory, named)) =
    rw (e, source_named, source_of_params, no_file, no_directory, named) refl
source_named-hosts params arg hostnames (inr (host, hosts, inner, e, a, plain, no_path, names)) =
    named_of_argument params (separated host hosts) inner arg a plain
    ∙ ap some (source_of_spec-hosts host hosts no_path names ∙ ap automatically (sym e))
