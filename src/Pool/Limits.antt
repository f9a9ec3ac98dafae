-- ===== src/Pool/Limits.antt =====
-- smtp/pool.go: the limits of the configuration, and what Close leaves behind.
use gsmail.Prelude.{ℕ, ◌≤◌, ◌<◌, ◌≡◌, refl, ◌⊎◌, true, some, List, [], ◌∷◌, length, arith}
use gsmail.Prelude.Int.{pos_part}
use gsmail.Pool.Maps.{remove}
use gsmail.Pool.State.{PoolConfig, Pool, Pc, waiting, Event, advance, new_pool}
use gsmail.Pool.Run.{System, Move, call, step, Reach, here, next}

pub record IsWithin (config : PoolConfig) (p : Pool) : Type 0 where
  pub same : p.config ≡ (new_pool config).config
  pub open_limit : 0 < pos_part config.max_open → p.open_count ≤ pos_part config.max_open
  pub idle_limit : length p.idle ≤ pos_part p.config.max_idle
  pub fair : (p.idle ≡ []) ⊎ (p.waiters ≡ [])
  pub quiet : p.closed ≡ true → (p.idle ≡ []) × (p.waiters ≡ [])

remove-nil : (ch : ℕ) (ws : List ℕ) → ws ≡ [] → remove ch ws ≡ []
unfolding remove
remove-nil ch [] e = refl
remove-nil ch (w ∷ ws) e = cc

module _ (config : PoolConfig) (ev : Event) (p : Pool) where
  advance-IsWithin :
      {p' : Pool} (pc : Pc) {pc' : Pc}
      → IsWithin config p
      → advance ev p pc ≡ some (p', pc')
      → IsWithin config p'
  unfolding advance new_pool
  advance-IsWithin (waiting ch start) v h = ground (arith, remove-nil ch p.waiters)
  advance-IsWithin pc v h = ground arith

Move-IsWithin :
    (config : PoolConfig) {s t : System}
    → Move s t
    → IsWithin config s.pool
    → IsWithin config t.pool
Move-IsWithin config (call pc c ep et) v = rw ep v
Move-IsWithin config {s} (step ev xs ys pc pc' e e' fresh moved) v =
    advance-IsWithin config ev s.pool pc v moved

-- In every interleaving of Get, Put and Close: the configuration is NewPool's, at most MaxOpen
-- connections are open where MaxOpen is positive, at most MaxIdle are idle, nobody waits while a
-- connection is idle, and a closed pool has neither idle connections nor waiters.
pub Reach-IsWithin : {config : PoolConfig} {s : System} → Reach config s → IsWithin config s.pool
unfolding new_pool
Reach-IsWithin {config} here = ground arith
Reach-IsWithin {config} (next r m) = Move-IsWithin config m (Reach-IsWithin r)
