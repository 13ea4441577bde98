-- ===== src/Builtin/Tcp.antt =====
-- builtin.go: `openTCPListener` on a string, on a port parameter and on an address parameter.
use go_listener.Common.{
  ℕ, ◌≡◌, refl, ap, sym, ◌∙◌, false, Option, none, some, [], ◌∷◌, err, ◌⊎◌, inl, inr, Option-cases,
}
use go_listener.Common.Text.{Bytes, codes, contains}
use go_listener.Common.Strconv.{atoi}
use go_listener.Json.{Fields, nothing, get, as_string}
use go_listener.System.{World, Env, OpenError}
use go_listener.Builtin.{
  TcpArgs, tcp_args, tcp_argument, tcp_params, number_or_string, resolve, listen_tcp,
  open_tcp_listener,
}

-- The parameters, by what the map holds.
params_of : Option Bytes → Option Bytes → TcpArgs
params_of a p = elim a [
  | some ip ↦ tcp_args ip []
  | none ↦ elim p [ some port ↦ tcp_args [] port | none ↦ tcp_args [] [] ]
]

tcp_params_lem :
    (m : Fields)
    → tcp_params m
      ≡ params_of (as_string (get (codes "address") m)) (number_or_string (get (codes "port") m))
unfolding tcp_params params_of
tcp_params_lem m = refl

params_of-port :
    (a p : Option Bytes) (port : Bytes)
    → a ≡ none
    → p ≡ some port
    → params_of a p ≡ tcp_args [] port
unfolding params_of
params_of-port a p port h k = rw (h, k) refl

params_of-address : (a p : Option Bytes) (ip : Bytes) → a ≡ some ip → params_of a p ≡ tcp_args ip []
unfolding params_of
params_of-address a p ip h = rw h refl

tcp_argument-port : (s : Bytes) → contains s b':' ≡ false → tcp_argument s ≡ tcp_args [] s
unfolding tcp_argument
tcp_argument-port s h = rw h refl

module _ (env : Env) where
  -- A port without an address is the same listener as an argument and as a parameter, a string or a
  -- number, if the parameters have no address.
  pub open_tcp_listener-port :
      (c : ℕ) (s : Bytes) (params : Fields)
      → contains (c ∷ s) b':' ≡ false
      → as_string (get (codes "address") params) ≡ none
      → number_or_string (get (codes "port") params) ≡ some (c ∷ s)
      → open_tcp_listener env nothing (c ∷ s) ≡ open_tcp_listener env params []
  unfolding open_tcp_listener
  open_tcp_listener-port c s params h a p =
      ap (listen_tcp env)
        (tcp_argument-port (c ∷ s) h ∙ sym (tcp_params_lem params ∙ params_of-port _ _ (c ∷ s) a p))

  no_port :
      (ip : Bytes) (w : World)
      → (listen_tcp env (tcp_args ip []) w ≡ (err OpenError.bad_ip, w))
        ⊎ (listen_tcp env (tcp_args ip []) w ≡ (err OpenError.bad_port, w))
  unfolding listen_tcp atoi
  no_port ip w = elim (Option-cases (resolve env ip)) [
    | inl n ↦ inl (rw (listen_tcp, n) refl)
    | inr (r, n) ↦ inr (rw (listen_tcp, n) refl)
  ]

  -- With an address among the parameters `openTCPListener` fails, whatever the address and the other
  -- parameters are: the port is not read, and the empty string is no port.
  pub open_tcp_listener-address :
      (params : Fields) (ip : Bytes) (w : World)
      → as_string (get (codes "address") params) ≡ some ip
      → (open_tcp_listener env params [] w ≡ (err OpenError.bad_ip, w))
        ⊎ (open_tcp_listener env params [] w ≡ (err OpenError.bad_port, w))
  unfolding open_tcp_listener
  open_tcp_listener-address params ip w h =
      rw
        (tcp_params_lem params
          ∙ params_of-address _ (number_or_string (get (codes "port") params)) ip h)
        (no_port ip w)
