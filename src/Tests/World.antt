-- ===== src/Tests/World.antt =====
-- A program to test with: a system where no call fails, one where the second call fails, and the
-- types of listeners that the packages register.
use go_listener.Common.{if◌then◌else◌, ◌==◌, false, Option, none, some, [], ◌∷◌, ◌++◌}
use go_listener.Common.Int.{pos}
use go_listener.Common.Text.{Bytes, codes}
use go_listener.System.{World, Env, fail, unknown_type}

-- `a` is an IPv4 address, and nothing else is an address.
abbrev pub parse_ip : Bytes → Option Bytes
parse_ip [] = none
parse_ip (x ∷ _) = some (x ∷ 0 ∷ 0 ∷ 1 ∷ [])

abbrev pub working : Env
working = record {
  fails = λ k. none;
  remove_fails = λ k. false;
  temp_dir = λ p. p ++ codes "~";
  parse_ip = parse_ip;
  getenv = λ k. codes "7";
  getpid = pos 7;
  alpn_proto = codes "acme";
  custom = λ n params arg. fail (unknown_type arg);
}

-- The second call fails.
abbrev pub failing : Env
failing = record working { fails = λ k. if k == 1 then some 13 else none }

abbrev pub start : World
start = record { clock = 0; next = 3; live = 1 ∷ []; files = []; closed_fds = [] }
