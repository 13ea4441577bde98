-- ===== src/Net/HostPort.antt =====
-- `net.SplitHostPort`, with its five errors.
use go_listener.Common.{
  ℕ, suc, ◌+◌, Option, none, some, [], ◌∷◌, ◌==◌, if◌then◌else◌, length, take, drop, get_elem?,
}
use go_listener.Common.Text.{Bytes, index_byte, contains, starts_with}

pub data HostPort : Type 0 where
  host_port : Bytes → Bytes → HostPort
  missing_port too_many_colons missing_bracket unexpected_open unexpected_close : HostPort

-- `bytealg.LastIndexByteString`
last_index : Bytes → ℕ → Option ℕ
last_index [] c = none
last_index (x ∷ s) c = elim (last_index s c) [
  | some i ↦ some (suc i)
  | none ↦ if x == c then some 0 else none
]

-- The end of the function: `j` and `k` are where the brackets may not stand any more.
finish : Bytes → Bytes → ℕ → ℕ → ℕ → HostPort
unfolding contains
finish s host i j k =
    if contains (drop j s) b'['
    then unexpected_open
    else if contains (drop k s) b']'
    then unexpected_close
    else host_port host (drop (i + 1) s)

-- The host in brackets; `i` is the last colon, `end` the first `]`.
bracketed : Bytes → ℕ → ℕ → HostPort
unfolding finish
bracketed s i end =
    if end + 1 == length s
    then missing_port
    else if end + 1 == i
    then finish s (drop 1 (take end s)) i 1 (end + 1)
    else elim (get_elem? s (end + 1)) [
      | some c ↦ if c == b':' then too_many_colons else missing_port
      | none ↦ missing_port
    ]

unfoldable pub split_host_port : Bytes → HostPort
unfolding last_index bracketed contains starts_with index_byte finish
split_host_port s = elim (last_index s b':') [
  | none ↦ missing_port
  | some i ↦
      if starts_with s b'['
      then elim (index_byte s b']') [ none ↦ missing_bracket | some end ↦ bracketed s i end ]
      else if contains (take i s) b':'
      then too_many_colons
      else finish s (take i s) i 0 0
]
