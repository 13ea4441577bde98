-- ===== src/Tests/Sharing.antt =====
-- Calls that share a cache.
use go_listener.Common.{
  ℕ, ok, if◌then◌else◌, ltb, replicate, ◌≡◌, refl, arith, none, some, List, [], ◌∷◌, ◌++◌, map, All,
}
use go_listener.Common.Text.{Bytes, codes, equal, contains, starts_with}
use go_listener.Common.Paths.{IsUnder, clean as clean_path, join}
use go_listener.Cert.KeyTypes.{get_supported_key_types}
use go_listener.Cert.Load.{
  load_certificate, load_blocks, add_block, add_kind, add_key, make_private_key, parse_private_key,
  restrict, kind_of, finish, finish_key, finish_leaf,
}
use go_listener.Cert.Cache.{clean, CachedFile, Snapshot, FileCache, new_file_cache, fresh, get, add}
use go_listener.Cert.Cache.Versions.{see, IsOf}
use go_listener.Cert.Cache.Shared.{
  Call, Process, new_process, Steps, stop, next, makes, calls, goes, changes, served, search_on,
  search_at, go_on, after_get, after_read, start, try_next, stat,
}
use go_listener.Cert.Cache.Shared.Runs.{new_process-served, new_process-clean}
use go_listener.Cert.Cache.Shared.Ends.{IsReturned, amid, start-IsReturned}
use go_listener.Cert.Dir.Names.{candidates}
use go_listener.Cert.Sources.{get_certificate_from_directory}
use go_listener.Cert.Sources.Alone.{Serves, get_certificate_from_directory-Serves}
use go_listener.Tests.Certs.{decoders, decoders-Shrinks, loaded, version, at, file, modern}

-- A function of the file is made and called, and the file is replaced before it is read.
abbrev made : Process Bytes
made = record (new_process (at 5)) { global = record { cache = some new_file_cache; cleaners = 1 } }

abbrev call : Call Bytes
call = record {
  began = at 5;
  search = record { names = file ∷ []; loading = served file 5 loaded; rest = [] };
}

abbrev done : Process Bytes
done = record {
  files = at 6;
  global = record {
    cache = some (add decoders new_file_cache file (record { certificate = loaded; mod_time = 5 }));
    cleaners = 1;
  };
  searches = call ∷ [];
}

done_run : Steps decoders version (new_process (at 5)) done
unfolding search_on search_at go_on after_get after_read start try_next stat fresh get
    load_certificate load_blocks add_block add_kind add_key make_private_key parse_private_key
    restrict kind_of finish finish_key finish_leaf equal
done_run =
    next _ _ _
      (next _ _ _
        (next _ _ _
          (next _ _ _
            (next _ _ _ (next _ _ _ (stop _) (makes (new_process (at 5))))
              (calls _ new_file_cache (file ∷ []) refl))
            (goes _ new_file_cache [] [] _ refl refl))
          (changes _ (at 6) (λ n. omega arith)))
        (goes _ new_file_cache [] [] _ refl refl))
      (goes _ new_file_cache [] [] _ refl refl)

new_process-served_example :
    (done.global.cleaners ≡ (elim done.global.cache [ none ↦ 0 | some certs ↦ 1 ]))
    × ((tried : List Bytes) × (file ∷ [] ≡ tried ++ file ∷ []))
    × IsOf decoders version file 5 6 loaded
new_process-served_example =
    new_process-served decoders version (at 5) done done_run [] [] call refl file 5 loaded refl

get_certificate_from_directory-Serves_example :
    All
      (λ f. IsUnder (clean_path (codes "/etc/certs")) f (join (codes "/etc/certs") f))
      (candidates modern.server_name (get_supported_key_types modern))
    × Serves decoders
        (see decoders version (at 5))
        (start decoders (see decoders version (at 5)) (
          map
            (join (codes "/etc/certs"))
            (candidates modern.server_name (get_supported_key_types modern))))
        new_file_cache
        (get_certificate_from_directory decoders
          (see decoders version (at 5))
          (codes "/etc/certs")
          modern
          new_file_cache)
unfolding contains starts_with
get_certificate_from_directory-Serves_example =
    get_certificate_from_directory-Serves decoders (see decoders version (at 5)) decoders-Shrinks
      (codes "/etc/certs") modern new_file_cache refl (λ q. cc)

-- Other goroutines change nothing between the steps.
abbrev others : List (Snapshot × FileCache Bytes)
others = replicate 4 (see decoders version (at 5), new_file_cache)

start-IsReturned_example :
    IsReturned
      (amid decoders others (start decoders (see decoders version (at 5)) (file ∷ []))).rest
      (amid decoders others (start decoders (see decoders version (at 5)) (file ∷ []))).loading
start-IsReturned_example =
    start-IsReturned decoders decoders-Shrinks (see decoders version (at 5)) (file ∷ []) others
      (omega arith)

abbrev kept : CachedFile Bytes
kept = record { certificate = loaded; mod_time = 5 }

abbrev filled : FileCache Bytes
unfolding add
filled = add decoders new_file_cache file kept

filled-file : filled file ≡ some kept
unfolding filled add equal
filled-file = refl

new_process-clean_example :
    (t : ℕ) × (loaded.leaf_not_after ≡ some t)
    × (clean decoders 101 filled file ≡ ok (if ltb t 101 then none else some kept))
unfolding filled
new_process-clean_example =
    new_process-clean decoders version (at 5) done done_run filled refl 101 file kept filled-file
