-- ===== src/Open/Fuel.antt =====
-- open.go: the fuel of `Open` and `OpenJSON`.
use go_listener.Common.{
  ℕ, zero, suc, ◌<◌, ◌≡◌, refl, ap, ◌∙◌, arith, length, List, [], ◌∷◌, ◌++◌, All, All-map, Outcome,
  ok, err, panic,
}
use go_listener.Common.Text.{Bytes}
use go_listener.Json.{Fields}
use go_listener.System.{World, OpenError, Listener, M, Env}
use go_listener.Registry.{Registry}
use go_listener.Open.{
  open_step, open_json_step, open_spec, open_json, open_all, open_all_onto, open_all_next,
}
use go_listener.Open.Sizes.{depth}
use go_listener.Open.Agree.{same_step, same_json_step}

module _ (o p : Bytes → M Listener) where
  onto_same :
      (specs : List Bytes) (ls : List Listener) (w : World)
      → All (λ s. o s ≡ p s) specs
      → open_all_onto o ls specs w ≡ open_all_onto p ls specs w
  unfolding open_all_onto open_all_next
  onto_same [] ls w h = refl
  onto_same (spec ∷ specs) ls w (e, h) =
      ap (λ m. open_all_next (λ ks. open_all_onto o ks specs) ls spec (m w)) e
      ∙ go (p spec w) (λ ks u. onto_same specs ks u h)
    where
      go :
          (r : Outcome OpenError Listener × World)
          → ((ks : List Listener) (u : World)
              → open_all_onto o ks specs u ≡ open_all_onto p ks specs u)
          → open_all_next (λ ks. open_all_onto o ks specs) ls spec r
            ≡ open_all_next (λ ks. open_all_onto p ks specs) ls spec r
      go (ok l, u) same = same (ls ++ l ∷ []) u
      go (err e, u) same = refl
      go (panic, u) same = refl

module _ (env : Env) (reg : Registry) where
  spec_same :
      (n m : ℕ) (s : Bytes)
      → length s < n
      → length s < m
      → open_spec env reg n s ≡ open_spec env reg m s
  unfolding open_spec open_json
  spec_same zero m s h k = absurd (omega arith)
  spec_same (suc n) zero s h k = absurd (omega arith)
  spec_same (suc n) (suc m) s h k =
      same_step env reg _ _ _ _ s (λ t l. spec_same n m t (omega arith) (omega arith))

  json_same :
      (n m : ℕ) (s : Fields)
      → depth s < n
      → depth s < m
      → open_json env reg n s ≡ open_json env reg m s
  unfolding open_spec open_json
  json_same zero m s h k = absurd (omega arith)
  json_same (suc n) zero s h k = absurd (omega arith)
  json_same (suc n) (suc m) s h k =
      same_json_step env reg _ _ _ _ s (λ t l. json_same n m t (omega arith) (omega arith))

  open_spec-eq-open_step :
      (n m : ℕ) (spec : Bytes)
      → length spec < n
      → length spec < m
      → (open_spec env reg n spec ≡ open_spec env reg m spec)
        × (open_spec env reg n spec
            ≡ open_step env reg (open_spec env reg n) (open_json env reg n) spec)
  unfolding open_spec open_json
  open_spec-eq-open_step zero m spec h k = absurd (omega arith)
  open_spec-eq-open_step (suc n) m spec h k = (
    spec_same (suc n) m spec h k,
    same_step env reg _ _ _ _ spec (λ s l. spec_same n (suc n) s (omega arith) (omega arith)),
  )

  open_json-eq-open_json_step :
      (n m : ℕ) (spec : Fields)
      → depth spec < n
      → depth spec < m
      → (open_json env reg n spec ≡ open_json env reg m spec)
        × (open_json env reg n spec
            ≡ open_json_step env reg (open_spec env reg n) (open_json env reg n) spec)
  unfolding open_spec open_json
  open_json-eq-open_json_step zero m spec h k = absurd (omega arith)
  open_json-eq-open_json_step (suc n) m spec h k = (
    json_same (suc n) m spec h k,
    same_json_step env reg _ _ _ _ spec (λ s l. json_same n (suc n) s (omega arith) (omega arith)),
  )

  open_all-same :
      (n k : ℕ) (specs : List Bytes) (w : World)
      → All (λ s. (length s < n) × (length s < k)) specs
      → open_all env reg n specs w ≡ open_all env reg k specs w
  unfolding open_all
  open_all-same n k specs w h =
      onto_same (open_spec env reg n) (open_spec env reg k) specs [] w
        (All-map (λ s. (length s < n) × (length s < k)) _ (λ s l. spec_same n k s l.0 l.1) specs h)

  -- More fuel than the string has bytes is enough for `Open`, more than each string has for `OpenAll`,
  -- and more than the object is deep for `OpenJSON`: the result does not depend on it, and for `Open`
  -- and `OpenJSON` satisfies the recursive equation of the source, in which the two functions call
  -- themselves and not versions with less fuel.
  pub open_spec-eq-steps :
      (n k : ℕ) (spec : Bytes) (object : Fields) (specs : List Bytes) (w : World)
      → length spec < n
      → length spec < k
      → depth object < n
      → depth object < k
      → All (λ s. (length s < n) × (length s < k)) specs
      → ((open_spec env reg n spec ≡ open_spec env reg k spec)
          × (open_spec env reg n spec
              ≡ open_step env reg (open_spec env reg n) (open_json env reg n) spec))
        × ((open_json env reg n object ≡ open_json env reg k object)
            × (open_json env reg n object
                ≡ open_json_step env reg (open_spec env reg n) (open_json env reg n) object))
        × (open_all env reg n specs w ≡ open_all env reg k specs w)
  open_spec-eq-steps n k spec object specs w a b c d e = (
    open_spec-eq-open_step n k spec a b,
    open_json-eq-open_json_step n k object c d,
    open_all-same n k specs w e,
  )
