-- ===== src/Cert/Dir/Default.antt =====
-- cert/sni.go and cert/dir.go: a default server name before the search of a directory.
use go_listener.Common.{
  ◌≡◌, ◌≢◌, refl, ap, sym, ◌∙◌, Option, none, some, List, [], ◌∷◌, if◌then◌else◌, err, inl, inr,
}
use go_listener.Common.Text.{Bytes, is_empty}
use go_listener.Cert.Hello.{Hello, get_certificate_default_server_name}
use go_listener.Cert.KeyTypes.{get_supported_key_types}
use go_listener.Cert.Dir.{no_sni, not_found, Load, get_certificate}
use go_listener.Cert.Dir.Names.{first_of, next_of, candidates, get_certificate-eq-first_of}

module _ {S Cert : Type 0} (load : Load S Cert) where
  first_of-ne-no_sni :
      (n : Bytes) (fs : List Bytes) (s : S) → (first_of load (not_found n) fs s).0 ≢ err no_sni
  first_of-ne-no_sni n [] s = λ h. cc
  first_of-ne-no_sni n (f ∷ fs) s = go (load f s) (first_of-ne-no_sni n fs)
    where
      go :
          (r : Option Cert × S)
          → ((s : S) → (first_of load (not_found n) fs s).0 ≢ err no_sni)
          → (next_of load (first_of load (not_found n) fs) r).0 ≢ err no_sni
      go (some c, s) next = λ h. cc
      go (none, s) next = next s

  named-ne-no_sni :
      (hello : Hello) (s : S)
      → hello.server_name ≢ []
      → (get_certificate load hello s).0 ≢ err no_sni
  named-ne-no_sni hello s n q = elim (get_certificate-eq-first_of load hello s) [
    | inl (e, r) ↦ n e
    | inr (inl (e, r)) ↦ cc
    | inr (inr (a, r)) ↦
        first_of-ne-no_sni hello.server_name
          (candidates hello.server_name (get_supported_key_types hello)) s
          (ap (λ p. p.0) (sym r) ∙ q)
  ]

  -- With a default server name that is not empty, the search of a directory never fails for want of
  -- one, whether the client sends a name or not.
  default_server_name-ne-no_sni :
      (name : Bytes) (hello : Hello) (s : S)
      → name ≢ []
      → (get_certificate_default_server_name name (get_certificate load) hello s).0 ≢ err no_sni
  unfolding get_certificate_default_server_name
  default_server_name-ne-no_sni name hello s n = go hello.server_name refl
    where
      renamed : Hello
      renamed = record hello { server_name = name }

      go :
          (sent : Bytes)
          → hello.server_name ≡ sent
          → ((if is_empty sent then get_certificate load renamed else get_certificate load hello)
              s).0
            ≢ err no_sni
      go [] e = named-ne-no_sni renamed s n
      go (c ∷ m) e = named-ne-no_sni hello s (λ q. cc)
