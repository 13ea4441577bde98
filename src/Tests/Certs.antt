-- ===== src/Tests/Certs.antt =====
-- Certificates loaded, cached and searched for.
use go_listener.Common.{
  ℕ, suc, ◌≡◌, refl, arith, true, false, ◌||◌, Option, none, some, [], ◌∷◌, ok, err, ◌⊎◌,
  if◌then◌else◌, ◌==◌, All,
}
use go_listener.Common.Text.{Bytes, codes, equal, contains, starts_with}
use go_listener.Cert.Hello.{Hello}
use go_listener.Cert.KeyTypes.{
  rsa_schemes, ecdsa_schemes, rsa_suites, ecdsa_suites, names_one_of, get_supported_key_types,
  get_supported_key_types_lem,
}
use go_listener.Cert.Load.{
  Decoders, Block, Certificate, any_use, load_certificate, load_blocks, add_block, add_kind,
  add_key, make_private_key, parse_private_key, restrict, kind_of, finish, finish_key, finish_leaf,
}
use go_listener.Cert.Load.Complete.{load_certificate-eq-ok}
use go_listener.Cert.Load.Fuel.{Shrinks, Answered, load_certificate-Answered}
use go_listener.Cert.Cache.{
  CachedFile, FileCache, new_file_cache, get, add, fresh, store, load_fresh, load_stat, load,
}
use go_listener.Cert.Cache.Versions.{Moment, see, IsOf}
use go_listener.Cert.Cache.Fresh.{reach_new, load-IsOf}
use go_listener.Cert.Dir.{no_sni, invalid_name, not_found, Load, get_certificate}
use go_listener.Cert.Dir.Names.{first_of, candidates, IsEntry, get_certificate-eq-first_of}

-- A file format of one byte for a block: 1 is a private key, and any other byte a certificate.
abbrev next_block : Bytes → Option (Block × Bytes)
next_block [] = none
next_block (c ∷ rest) = some (
  record {
    kind = if c == 1 then codes "PRIVATE KEY" else codes "CERTIFICATE";
    usage = [];
    bytes = c ∷ [];
  },
  rest,
)

abbrev pub decoders : Decoders
decoders = record {
  Key = Bytes;
  decode = next_block;
  parse_pkcs8 = λ b. some b;
  parse_pkcs1 = λ b. none;
  parse_ec = λ b. none;
  is_decrypter = λ k. false;
  is_signer = λ k. true;
  parse_certificate = λ b. some 100;
}

abbrev pub loaded : Certificate Bytes
loaded = record {
  private_key = some (any_use (1 ∷ []));
  chain = (2 ∷ []) ∷ (3 ∷ []) ∷ [];
  ocsp_staple = none;
  scts = [];
  leaf_not_after = some 100;
}

load-file : load_certificate decoders (some (2 ∷ 1 ∷ 3 ∷ [])) ≡ ok loaded
unfolding load_certificate load_blocks add_block add_kind add_key make_private_key parse_private_key
    restrict kind_of finish finish_key finish_leaf equal
load-file = refl

pub decoders-Shrinks : Shrinks decoders
decoders-Shrinks [] b rest h = cc
decoders-Shrinks (c ∷ s) b rest h = let q : s ≡ rest = cc in rw q (omega arith)

load_certificate-eq-ok_example :
    (r : Certificate Bytes) × (load_certificate decoders (some (2 ∷ 1 ∷ 3 ∷ [])) ≡ ok r)
    × (r.chain ≡ (2 ∷ []) ∷ (3 ∷ []) ∷ [])
    × (r.leaf_not_after ≡ some 100)
unfolding kind_of make_private_key parse_private_key restrict equal
load_certificate-eq-ok_example =
    load_certificate-eq-ok decoders decoders-Shrinks (2 ∷ 1 ∷ 3 ∷ []) (2 ∷ []) ((3 ∷ []) ∷ []) 100
      refl (omega arith) refl refl refl (tt, ((any_use (1 ∷ []), refl), (tt, tt)))

load_certificate-Answered_example :
    Answered decoders (2 ∷ 1 ∷ 3 ∷ []) (load_certificate decoders (some (2 ∷ 1 ∷ 3 ∷ [])))
load_certificate-Answered_example =
    load_certificate-Answered decoders decoders-Shrinks (2 ∷ 1 ∷ 3 ∷ [])

abbrev pub version : Bytes → ℕ → Bytes
version name t = 2 ∷ 1 ∷ 3 ∷ []

abbrev pub at : ℕ → Moment
at t = record { latest = λ name. t; present = λ name. true }

abbrev pub file : Bytes
file = codes "/a"

load-empty :
    (load decoders new_file_cache file
      (see decoders version (at 5))
      (see decoders version (at 6))).0
    ≡ ok loaded
unfolding load load_stat load_fresh fresh get store load_certificate load_blocks add_block add_kind
    add_key make_private_key parse_private_key restrict kind_of finish finish_key finish_leaf equal
load-empty = refl

load-IsOf_example : IsOf decoders version file 5 6 loaded
load-IsOf_example =
    load-IsOf decoders version new_file_cache (at 4) (at 5) (at 6) (reach_new (at 4))
      (λ n. omega arith) (λ n. omega arith) file loaded load-empty

abbrev kept : CachedFile Bytes
kept = record { certificate = loaded; mod_time = 5 }

abbrev cache : FileCache Bytes
cache =
    (load decoders new_file_cache file (see decoders version (at 5))
      (see decoders version (at 6))).1

cache-file : cache file ≡ some kept
unfolding load load_stat load_fresh fresh get store add load_certificate load_blocks add_block
    add_kind add_key make_private_key parse_private_key restrict kind_of finish finish_key
    finish_leaf equal
cache-file = refl

abbrev pub modern : Hello
modern = record {
  server_name = codes "a.b";
  signature_schemes = some (0x0403 ∷ 0x0804 ∷ []);
  cipher_suites = [];
}

get_supported_key_types_lem_example :
    ((get_supported_key_types modern).rsa
      ≡ names_one_of rsa_schemes rsa_suites (some (0x0403 ∷ 0x0804 ∷ [])) [])
    × ((get_supported_key_types modern).ecdsa
        ≡ names_one_of ecdsa_schemes ecdsa_suites (some (0x0403 ∷ 0x0804 ∷ [])) [])
get_supported_key_types_lem_example = get_supported_key_types_lem modern

-- A directory that holds a wildcard certificate alone, and counts how often it is looked into.
abbrev lookup_wildcard : Load ℕ Bytes
unfolding equal
lookup_wildcard f n = (if equal f (codes "_.b.pem.rsa") then some f else none, suc n)

get_certificate-eq-first_of_example :
    ((modern.server_name ≡ []) × (get_certificate lookup_wildcard modern 0 ≡ (err no_sni, 0)))
    ⊎ ((((starts_with modern.server_name b'.' || contains modern.server_name b'/') ≡ true)
          × (get_certificate lookup_wildcard modern 0 ≡ (err invalid_name, 0)))
        ⊎ (All IsEntry (candidates modern.server_name (get_supported_key_types modern))
            × (get_certificate lookup_wildcard modern 0
                ≡ first_of lookup_wildcard
                    (not_found modern.server_name)
                    (candidates modern.server_name (get_supported_key_types modern))
                    0)))
get_certificate-eq-first_of_example = get_certificate-eq-first_of lookup_wildcard modern 0

abbrev pub nameless : Hello
nameless = record modern { server_name = [] }
