-- ===== src/Pool/Run.antt =====
-- smtp/pool.go: goroutines over one pool, in every interleaving of their steps.
use gsmail.Prelude.{ℕ, ◌+◌, ◌≤◌, ◌≡◌, some, List, [], ◌∷◌, ◌++◌, length, arith, ap}
use gsmail.Pool.Maps.{count_keys, count_msgs}
use gsmail.Pool.State.{PoolConfig, Pool, Pc, get_entry, closing, Event, advance, new_pool, stats}
use gsmail.Pool.Invariant.{transit, owns, borrows, count_idle, copies, Inv, IsFresh, advance-Inv}

pub record System : Type 0 where
  pub pool : Pool
  pub procs : List Pc

abbrev pub total : (Pc → ℕ) → List Pc → ℕ
total f [] = 0
total f (pc ∷ procs) = f pc + total f procs

-- Get and Close are called at any time, by any goroutine. Put is called by a goroutine that Get gave
-- a client to, once for each client.
pub data IsCall : Pc → Type 0 where
  get_call : (start : ℕ) → IsCall (get_entry start)
  close_call : IsCall closing

pub data Move (s t : System) : Type 0 where
  call : (pc : Pc) → IsCall pc → t.pool ≡ s.pool → t.procs ≡ pc ∷ s.procs → Move s t
  step :
      (ev : Event) (before after : List Pc) (pc pc' : Pc)
      → s.procs ≡ before ++ pc ∷ after
      → t.procs ≡ before ++ pc' ∷ after
      → IsFresh (λ c. total (owns c) s.procs) ev s.pool pc
      → advance ev s.pool pc ≡ some (t.pool, pc')
      → Move s t

abbrev pub start_of : PoolConfig → System
start_of config = record { pool = new_pool config; procs = [] }

pub data Reach (config : PoolConfig) : System → Type 0 where
  here : Reach config (start_of config)
  next : {s t : System} → Reach config s → Move s t → Reach config t

pub record SystemInv (s : System) : Type 0 where
  pub counted :
      s.pool.open_count ≡ length s.pool.idle + length s.pool.active + total transit s.procs
  pub lent :
      (c : ℕ) → count_keys c s.pool.active ≡ total (borrows c) s.procs + count_msgs c s.pool.chans
  pub single : (c : ℕ) → copies c s.pool + total (owns c) s.procs ≤ 1

total-append : (f : Pc → ℕ) (xs ys : List Pc) → total f (xs ++ ys) ≡ total f xs + total f ys
total-append f [] ys = omega arith
total-append f (x ∷ xs) ys = omega (arith, total-append f xs ys)

total_middle :
    (f : Pc → ℕ) {procs : List Pc} (xs : List Pc) (pc : Pc) (ys : List Pc)
    → procs ≡ xs ++ pc ∷ ys
    → total f procs ≡ total f xs + total f ys + f pc
total_middle f xs pc ys e = omega (arith, ap (total f) e, total-append f xs (pc ∷ ys))

IsFresh-middle :
    (ev : Event) (p : Pool) (pc : Pc) (xs ys : List Pc) {procs : List Pc}
    → procs ≡ xs ++ pc ∷ ys
    → IsFresh (λ c. total (owns c) procs) ev p pc
    → IsFresh (λ c. total (owns c) xs + total (owns c) ys) ev p pc
IsFresh-middle ev p Pc.dialing xs ys e f =
    omega (arith, total_middle (owns ev.client) xs Pc.dialing ys e)
IsFresh-middle ev p _ xs ys e f = tt

Move-SystemInv : {s t : System} → Move s t → SystemInv s → SystemInv t
Move-SystemInv {s} {t} (call pc c ep et) v = rw (ep, et) (calls_hold_nothing c)
  where
    calls_hold_nothing :
        {q : Pc} → IsCall q → SystemInv (record { pool = s.pool; procs = q ∷ s.procs })
    calls_hold_nothing (get_call start) = record {
      counted = omega (arith, v.counted);
      lent = λ c'. omega (arith, v.lent c');
      single = λ c'. omega (arith, v.single c');
    }
    calls_hold_nothing close_call = record {
      counted = omega (arith, v.counted);
      lent = λ c'. omega (arith, v.lent c');
      single = λ c'. omega (arith, v.single c');
    }
Move-SystemInv {s} {t} (step ev xs ys pc pc' e e' fresh moved) v = record {
  counted = omega (arith, after.counted, total_middle transit xs pc' ys e');
  lent = λ c. omega (arith, after.lent c, total_middle (borrows c) xs pc' ys e');
  single = λ c. omega (arith, after.single c, total_middle (owns c) xs pc' ys e');
}
  where
    k : ℕ
    k = total transit xs + total transit ys

    o : ℕ → ℕ
    o c = total (owns c) xs + total (owns c) ys

    b : ℕ → ℕ
    b c = total (borrows c) xs + total (borrows c) ys

    before : Inv k o b s.pool pc
    before = record {
      counted = omega (arith, v.counted, total_middle transit xs pc ys e);
      lent = λ c. omega (arith, v.lent c, total_middle (borrows c) xs pc ys e);
      single = λ c. omega (arith, v.single c, total_middle (owns c) xs pc ys e);
    }

    after : Inv k o b t.pool pc'
    after = advance-Inv ev s.pool pc before (IsFresh-middle ev s.pool pc xs ys e fresh) moved

Reach-SystemInv : {config : PoolConfig} {s : System} → Reach config s → SystemInv s
unfolding new_pool count_idle count_keys count_msgs
Reach-SystemInv here = record {
  counted = omega arith;
  lent = λ c. omega arith;
  single = λ c. omega arith;
}
Reach-SystemInv (next r m) = Move-SystemInv m (Reach-SystemInv r)

-- In every interleaving of Get, Put and Close, the open count of Stats is the idle connections,
-- those in use, and those that some goroutine is just now dialing, checking, returning or closing.
pub stats-accounted :
    {config : PoolConfig} {s : System}
    → Reach config s
    → (stats s.pool).open_connections
      ≡ (stats s.pool).idle_connections + (stats s.pool).in_use + total transit s.procs
unfolding stats
stats-accounted r = (Reach-SystemInv r).counted

-- In every interleaving, a client is in at most one place: the idle ones, one goroutine that is
-- handling it, one borrower, or one message to a waiter.
pub client_in_one_place :
    {config : PoolConfig} {s : System} (c : ℕ)
    → Reach config s
    → count_idle c s.pool.idle
        + total (owns c) s.procs
        + total (borrows c) s.procs
        + count_msgs c s.pool.chans
      ≤ 1
client_in_one_place c r = omega (arith, (Reach-SystemInv r).lent c, (Reach-SystemInv r).single c)
