-- ===== src/Cert/Auto/Settings.antt =====
-- cert/auto.go: what the settings from the environment come to.
use go_listener.Common.{
  ℕ, suc, zero, ◌≡◌, ◌≢◌, ◌↔◌, refl, ◌||◌, Option, none, some, [], ◌∷◌, if◌then◌else◌, ◌==◌, arith,
  List,
}
use go_listener.Common.Text.{Bytes, codes, is_empty}
use go_listener.Common.Paths.{join}
use go_listener.Cert.Auto.{
  Environment, AccountBinding, Manager, get_autocert_cache, get_autocert_eab,
  get_certificate_automatically,
}

-- There is no place for a cache.
abbrev IsHomeless : Environment → Type 0
IsHomeless env =
    (env.getenv (codes "AUTOCERT_CACHE_DIR") ≡ [])
    × (env.getuid ≢ 0)
    × (env.getenv (codes "XDG_DATA_HOME") ≡ [])
    × (env.user_home_dir ≡ none)

cache-none : (env : Environment) → (get_autocert_cache env ≡ none) ↔ IsHomeless env
unfolding get_autocert_cache
cache-none env =
    go (env.getenv (codes "AUTOCERT_CACHE_DIR")) env.getuid (env.getenv (codes "XDG_DATA_HOME"))
      env.user_home_dir
  where
    go :
        (dir : Bytes) (uid : ℕ) (home : Bytes) (user : Option Bytes)
        → ((if is_empty dir
              then (if uid == 0
                  then some (codes "/var/lib/autocert-cache")
                  else if is_empty home
                  then elim user [
                    | some h ↦ some (join h (codes ".local/share/autocert-cache"))
                    | none ↦ none
                  ]
                  else some (join home (codes "autocert-cache")))
              else some dir)
            ≡ none)
          ↔ ((dir ≡ []) × (uid ≢ 0) × (home ≡ []) × (user ≡ none))
    go (c ∷ dir) uid home user = (λ h. cc, λ (a, b, c, d). cc)
    go [] zero home user = (λ h. cc, λ (a, b, c, d). absurd (b refl))
    go [] (suc n) (c ∷ home) user = (λ h. absurd (ground arith), λ (a, b, c, d). cc)
    go [] (suc n) [] (some u) = (λ h. absurd (ground arith), λ (a, b, c, d). cc)
    go [] (suc n) [] none = (λ h. (refl, λ q. omega arith, refl, refl), λ h. ground arith)

-- An account is bound by a key that the environment gives for it.
abbrev IsBound : Environment → AccountBinding → Type 0
IsBound env b =
    (b.kid ≡ env.getenv (codes "AUTOCERT_EAB_KID"))
    × (b.kid ≢ [])
    × (env.getenv (codes "AUTOCERT_EAB_KEY") ≢ [])
    × (env.decode_base64 (env.getenv (codes "AUTOCERT_EAB_KEY")) ≡ some b.key)

eab-some :
    (env : Environment) (b : AccountBinding) → (get_autocert_eab env ≡ some b) ↔ IsBound env b
unfolding get_autocert_eab
eab-some env b =
    go (env.getenv (codes "AUTOCERT_EAB_KID")) (env.getenv (codes "AUTOCERT_EAB_KEY"))
      (env.decode_base64 (env.getenv (codes "AUTOCERT_EAB_KEY")))
  where
    go :
        (kid key : Bytes) (o : Option Bytes)
        → ((if is_empty kid || is_empty key
              then none
              else elim o [ none ↦ none | some k ↦ some (record { kid = kid; key = k }) ])
            ≡ some b)
          ↔ ((b.kid ≡ kid) × (b.kid ≢ []) × (key ≢ []) × (o ≡ some b.key))
    go [] key o = (λ h. cc, λ (a, n, m, d). absurd (n a))
    go (c ∷ kid) [] o = (λ h. cc, λ (a, n, m, d). absurd (m refl))
    go (c ∷ kid) (k ∷ key) none = (λ h. cc, λ (a, n, m, d). cc)
    go (c ∷ kid) (k ∷ key) (some x) = (
      λ h. (ground arith, λ q. ground arith, λ q. cc, ground arith),
      λ (a, n, m, d). ground arith,
    )

-- A manager that is made from the settings of the environment for a whitelist of names.
abbrev pub IsManager : Environment → Option (List Bytes) → Manager → Type 0
IsManager env hostnames m =
    (m.host_policy ≡ hostnames)
    × ((m.cache ≡ none) ↔ IsHomeless env)
    × ((b : AccountBinding) → (m.account_binding ≡ some b) ↔ IsBound env b)

pub get_certificate_automatically-IsManager :
    (env : Environment) (hostnames : Option (List Bytes))
    → IsManager env hostnames (get_certificate_automatically env hostnames)
unfolding get_certificate_automatically
get_certificate_automatically-IsManager env hostnames = (refl, cache-none env, eab-some env)
