-- ===== src/Cert/Auto.antt =====
-- cert/auto.go: the settings of the ACME client, from the environment.
pub mod Settings
use go_listener.Common.{ℕ, ◌||◌, Option, none, some, List, if◌then◌else◌, ◌==◌}
use go_listener.Common.Text.{Bytes, codes, is_empty}
use go_listener.Common.Paths.{join}

-- What the settings are made of.
pub record Environment : Type 0 where
  pub getenv : Bytes → Bytes
  pub getuid : ℕ
  pub user_home_dir : Option Bytes
  pub decode_base64 : Bytes → Option Bytes  -- `base64.RawURLEncoding.DecodeString`

-- `getAutocertCache`, with the directory of the `DirCache`
unfoldable pub get_autocert_cache : Environment → Option Bytes
unfolding join
get_autocert_cache env =
    let cache_dir = env.getenv (codes "AUTOCERT_CACHE_DIR") in
    let data_dir = env.getenv (codes "XDG_DATA_HOME") in
    if is_empty cache_dir
    then (if env.getuid == 0
        then some (codes "/var/lib/autocert-cache")
        else if is_empty data_dir
        then elim env.user_home_dir [
          | some home ↦ some (join home (codes ".local/share/autocert-cache"))
          | none ↦ none
        ]
        else some (join data_dir (codes "autocert-cache")))
    else some cache_dir

-- `acme.ExternalAccountBinding`
pub record AccountBinding : Type 0 where
  pub kid : Bytes
  pub key : Bytes

-- `getAutocertEAB`
unfoldable pub get_autocert_eab : Environment → Option AccountBinding
get_autocert_eab env =
    let kid = env.getenv (codes "AUTOCERT_EAB_KID") in
    let key = env.getenv (codes "AUTOCERT_EAB_KEY") in
    if is_empty kid || is_empty key then none else elim (env.decode_base64 key) [
      | none ↦ none
      | some k ↦ some (record { kid = kid; key = k })
    ]

-- `autocert.Manager` as `getCertificateAutomatically` fills it in. The host policy is nil or a
-- whitelist.
pub record Manager : Type 0 where
  pub directory_url : Bytes
  pub cache : Option Bytes
  pub host_policy : Option (List Bytes)
  pub email : Bytes
  pub account_binding : Option AccountBinding

unfoldable pub get_certificate_automatically : Environment → Option (List Bytes) → Manager
unfolding get_autocert_cache get_autocert_eab
get_certificate_automatically env hostnames = record {
  directory_url = env.getenv (codes "AUTOCERT_ACME_SERVER");
  cache = get_autocert_cache env;
  host_policy = hostnames;
  email = env.getenv (codes "AUTOCERT_EMAIL");
  account_binding = get_autocert_eab env;
}
