-- ===== src/Pool/Invariant/Defs.antt =====
-- smtp/pool.go: who has which connection.
use gsmail.Prelude.{ℕ, ◌+◌, ◌≤◌, ◌≡◌, refl, Option, List, [], ◌∷◌, ◌++◌, length, arith, ◌==◌}
use gsmail.Pool.Maps.{one_if, count_keys, count_msgs}
use gsmail.Pool.State.{
  PooledClient, Pool, Pc, checking, dropping, adopting, dialing, dialed, dial_failed, served, got,
  put_entry, released, resetting, storing, sending, discarding, Event, wake_all,
}

-- A connection that is counted in `open_count` and is neither idle nor active belongs to a goroutine.
abbrev pub transit : Pc → ℕ
transit (checking pc start) = 1
transit (dropping start) = 1
transit (adopting c t) = 1
transit dialing = 1
transit (dialed c) = 1
transit dial_failed = 1
transit (released c t bad) = 1
transit (resetting c t) = 1
transit (storing c t) = 1
transit discarding = 1
transit _ = 0

-- The goroutine has `c` and the pool does not.
abbrev pub owns : ℕ → Pc → ℕ
owns c (checking pc start) = one_if (pc.client == c)
owns c (adopting d t) = one_if (d == c)
owns c (dialed d) = one_if (d == c)
owns c (released d t bad) = one_if (d == c)
owns c (resetting d t) = one_if (d == c)
owns c (storing d t) = one_if (d == c)
owns c _ = 0

-- The goroutine has `c` on loan: `c` is in `active`.
abbrev pub borrows : ℕ → Pc → ℕ
borrows c (served d start) = one_if (d == c)
borrows c (got d) = one_if (d == c)
borrows c (put_entry d bad) = one_if (d == c)
borrows c (sending w d) = one_if (d == c)
borrows c _ = 0

unfoldable pub count_idle : ℕ → List PooledClient → ℕ
count_idle c [] = 0
count_idle c (pc ∷ l) = one_if (pc.client == c) + count_idle c l

-- How often the pool and the channels have `c`, and the share of one goroutine.
abbrev pub copies : ℕ → Pool → ℕ
copies c p = count_idle c p.idle + count_keys c p.active

-- The invariant seen from one goroutine: the others hold `k` connections in transit, and of each
-- client `o c` as their own and `b c` on loan.
pub record Inv (k : ℕ) (o b : ℕ → ℕ) (p : Pool) (pc : Pc) : Type 0 where
  pub counted : p.open_count ≡ length p.idle + length p.active + (k + transit pc)
  pub lent : (c : ℕ) → count_keys c p.active ≡ b c + borrows c pc + count_msgs c p.chans
  pub single : (c : ℕ) → copies c p + (o c + owns c pc) ≤ 1

pub count_msgs-wake_all :
    (c : ℕ) (ws : List ℕ) (l : List (ℕ × Option ℕ))
    → count_msgs c (wake_all ws ++ l) ≡ count_msgs c l
unfolding count_msgs
count_msgs-wake_all c [] l = refl
count_msgs-wake_all c (w ∷ ws) l = omega (arith, count_msgs-wake_all c ws l)

-- a dial makes a client that nobody has
abbrev pub IsFresh : (o : ℕ → ℕ) → Event → Pool → Pc → Type 0
IsFresh o ev p dialing = copies ev.client p + o ev.client ≡ 0
IsFresh o ev p _ = Unit
