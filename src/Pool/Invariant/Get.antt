-- ===== src/Pool/Invariant/Get.antt =====
-- smtp/pool.go: what the invariant needs of the steps of Get that take no message.
use gsmail.Prelude.{ℕ, ◌+◌, ◌≡◌, some, arith, ◌==◌, ==_iff, Bool-cases, inl, inr}
use gsmail.Pool.Maps.{insert, count_keys, count_msgs, count_keys-without, length-without}
use gsmail.Pool.State.{
  PooledClient, Pool, Pc, get_entry, checking, dropping, adopting, dialing, dialed, dial_failed,
  resumed, served, Event, advance,
}
use gsmail.Pool.Invariant.Defs.{count_idle, copies, Inv}

module _ {k : ℕ} {o b : ℕ → ℕ} (ev : Event) (p : Pool) where
  pub get_entry-Inv :
      {p' : Pool} {pc' : Pc} (start : ℕ)
      → Inv k o b p (get_entry start)
      → advance ev p (get_entry start) ≡ some (p', pc')
      → Inv k o b p' pc'
  unfolding advance count_idle count_msgs insert count_keys
  get_entry-Inv {p'} {pc'} start v h = record {
    counted = ground (arith);
    lent = λ c. ground (arith, v.lent c);
    single = λ c. ground (arith, v.single c);
  }

  pub checking-Inv :
      {p' : Pool} {pc' : Pc} (pc : PooledClient) (start : ℕ)
      → Inv k o b p (checking pc start)
      → advance ev p (checking pc start) ≡ some (p', pc')
      → Inv k o b p' pc'
  unfolding advance count_idle count_msgs insert count_keys
  checking-Inv {p'} {pc'} pc start v h = record {
    counted = ground (arith);
    lent = λ c. ground (arith, v.lent c);
    single = λ c. ground (arith, v.single c);
  }

  pub dropping-Inv :
      {p' : Pool} {pc' : Pc} (start : ℕ)
      → Inv k o b p (dropping start)
      → advance ev p (dropping start) ≡ some (p', pc')
      → Inv k o b p' pc'
  unfolding advance count_idle count_msgs insert count_keys
  dropping-Inv {p'} {pc'} start v h = record {
    counted = ground (arith);
    lent = λ c. ground (arith, v.lent c);
    single = λ c. ground (arith, v.single c);
  }

  pub adopting-Inv :
      {p' : Pool} {pc' : Pc} (d t : ℕ)
      → Inv k o b p (adopting d t)
      → advance ev p (adopting d t) ≡ some (p', pc')
      → Inv k o b p' pc'
  unfolding advance count_idle count_msgs insert count_keys
  adopting-Inv {p'} {pc'} d t v h = record {
    counted = ground (arith, length-without d p.active, v.single d);
    lent = λ c. ground (arith, v.lent c, v.single c, count_keys-without c d p.active);
    single = λ c. ground (arith, v.single c, count_keys-without c d p.active);
  }

  pub dialing-Inv :
      {p' : Pool} {pc' : Pc}
      → Inv k o b p dialing
      → copies ev.client p + o ev.client ≡ 0
      → advance ev p dialing ≡ some (p', pc')
      → Inv k o b p' pc'
  unfolding advance count_idle count_msgs
  dialing-Inv {p'} {pc'} v f h = record {
    counted = ground arith;
    lent = λ c. ground (arith, v.lent c);
    single = λ c. elim (Bool-cases (ev.client == c)) [
      | inl same ↦ rw (← (==_iff ev.client c).0 same) (ground (arith, v.single ev.client))
      | inr other ↦ ground (arith, v.single c)
    ];
  }

  pub dialed-Inv :
      {p' : Pool} {pc' : Pc} (d : ℕ)
      → Inv k o b p (dialed d)
      → advance ev p (dialed d) ≡ some (p', pc')
      → Inv k o b p' pc'
  unfolding advance count_idle count_msgs insert count_keys
  dialed-Inv {p'} {pc'} d v h = record {
    counted = ground (arith, length-without d p.active, v.single d);
    lent = λ c. ground (arith, v.lent c, v.single c, count_keys-without c d p.active);
    single = λ c. ground (arith, v.single c, count_keys-without c d p.active);
  }

  pub dial_failed-Inv :
      {p' : Pool} {pc' : Pc}
      → Inv k o b p dial_failed
      → advance ev p dial_failed ≡ some (p', pc')
      → Inv k o b p' pc'
  unfolding advance count_idle count_msgs insert count_keys
  dial_failed-Inv {p'} {pc'} v h = record {
    counted = ground (arith);
    lent = λ c. ground (arith, v.lent c);
    single = λ c. ground (arith, v.single c);
  }

  pub resumed-Inv :
      {p' : Pool} {pc' : Pc} (start : ℕ)
      → Inv k o b p (resumed start)
      → advance ev p (resumed start) ≡ some (p', pc')
      → Inv k o b p' pc'
  unfolding advance count_idle count_msgs insert count_keys
  resumed-Inv {p'} {pc'} start v h = record {
    counted = ground (arith);
    lent = λ c. ground (arith, v.lent c);
    single = λ c. ground (arith, v.single c);
  }

  pub served-Inv :
      {p' : Pool} {pc' : Pc} (d start : ℕ)
      → Inv k o b p (served d start)
      → advance ev p (served d start) ≡ some (p', pc')
      → Inv k o b p' pc'
  unfolding advance count_idle count_msgs insert count_keys
  served-Inv {p'} {pc'} d start v h = record {
    counted = ground (arith);
    lent = λ c. ground (arith, v.lent c);
    single = λ c. ground (arith, v.single c);
  }
