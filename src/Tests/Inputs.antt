-- ===== src/Tests/Inputs.antt =====
-- The environment of a process, and the bytes of a header, as inputs.
use go_listener.Common.{
  ◌≢◌, panic, ℕ, ◌+◌, ◌<◌, ◌≡◌, ◌≢◌, refl, true, false, ◌&&◌, Bool, some, [], ◌∷◌, ◌++◌, err, All,
  ltb, ltb→lt, get_elem?, ◌⊎◌, if◌then◌else◌,
}
use go_listener.Common.Text.{Bytes, codes, equal, split}
use go_listener.Common.Strconv.{atoi, parse_number, parse_digits}
use go_listener.Json.{nothing}
use go_listener.System.{Env, OpenError}
use go_listener.Builtin.{open_fdname_listener, listen_file}
use go_listener.Builtin.Names.{IsFirst, open_fdname_listener-IsFirst}
use go_listener.Proxy.Header.{read_header}
use go_listener.Proxy.Header.Bounds.{Took, read_header-takes}
use go_listener.Proxy.Header.Tests.{sent, client_bytes}
use go_listener.Tests.World.{working, start}

-- Two descriptors were passed on, with the names a and b.
abbrev passed : Env
unfolding equal
passed = record working {
  getenv = λ k. if equal k (codes "LISTEN_PID") then codes "7" else codes "a:b";
}

open_fdname_listener-IsFirst_example :
    let fields = split (passed.getenv (codes "LISTEN_FDNAMES")) b':' in
    ((i : ℕ) × IsFirst (codes "b") fields i
      × (open_fdname_listener passed nothing (codes "b") start ≡ listen_file passed (3 + i) start))
    ⊎ (((j : ℕ) → get_elem? fields j ≢ some (codes "b"))
        × (open_fdname_listener passed nothing (codes "b") start
            ≡ (err (OpenError.name_not_found (codes "b")), start)))
unfolding passed atoi parse_number parse_digits equal
open_fdname_listener-IsFirst_example =
    open_fdname_listener-IsFirst passed nothing (codes "b") (codes "b") start refl refl

abbrev are_bytes : Bytes → Bool
are_bytes [] = true
are_bytes (b ∷ s) = ltb b 256 && are_bytes s

and-eq-true : (a b : Bool) → (a && b) ≡ true → (a ≡ true) × (b ≡ true)
and-eq-true true b h = (refl, h)
and-eq-true false b h = cc

are_bytes-All : (s : Bytes) → are_bytes s ≡ true → All (λ b. b < 256) s
are_bytes-All [] h = tt
are_bytes-All (b ∷ s) h =
    let (p, q) = and-eq-true (ltb b 256) (are_bytes s) h in (ltb→lt b 256 p, are_bytes-All s q)

read_header-takes_example :
    ((read_header (sent (client_bytes ++ 71 ∷ 69 ∷ []))).0 ≢ panic)
    × Took
        (16 + 65535)
        (sent (client_bytes ++ 71 ∷ 69 ∷ []))
        (read_header (sent (client_bytes ++ 71 ∷ 69 ∷ []))).1
read_header-takes_example =
    read_header-takes (sent (client_bytes ++ 71 ∷ 69 ∷ []))
      (are_bytes-All (client_bytes ++ 71 ∷ 69 ∷ []) refl)
