-- ===== src/Pool/Invariant/Put.antt =====
-- smtp/pool.go: what the invariant needs of the steps of Put, and Close.
use gsmail.Prelude.{ℕ, ◌≡◌, Bool, Option, some, arith}
use gsmail.Pool.Maps.{insert, count_keys, count_msgs, count_keys-without, length-without}
use gsmail.Pool.State.{
  Pool, Pc, got, put_entry, released, resetting, storing, sending, discarding, closing, Event,
  advance,
}
use gsmail.Pool.Invariant.Defs.{count_idle, Inv, count_msgs-wake_all}

module _ {k : ℕ} {o b : ℕ → ℕ} (ev : Event) (p : Pool) where
  pub got-Inv :
      {p' : Pool} {pc' : Pc} (d : ℕ)
      → Inv k o b p (got d)
      → advance ev p (got d) ≡ some (p', pc')
      → Inv k o b p' pc'
  unfolding advance count_idle count_msgs insert count_keys
  got-Inv {p'} {pc'} d v h = record {
    counted = ground (arith);
    lent = λ c. ground (arith, v.lent c);
    single = λ c. ground (arith, v.single c);
  }

  pub put_entry-Inv :
      {p' : Pool} {pc' : Pc} (d : ℕ) (bad : Bool)
      → Inv k o b p (put_entry d bad)
      → advance ev p (put_entry d bad) ≡ some (p', pc')
      → Inv k o b p' pc'
  unfolding advance count_idle count_msgs insert count_keys
  put_entry-Inv {p'} {pc'} d bad v h = record {
    counted = ground (arith, length-without d p.active, v.lent d, v.single d);
    lent = λ c. ground (arith, v.lent c, v.single c, count_keys-without c d p.active);
    single = λ c. ground (arith, v.single c, v.lent c, count_keys-without c d p.active);
  }

  pub released-Inv :
      {p' : Pool} {pc' : Pc} (d : ℕ) (t : Option ℕ) (bad : Bool)
      → Inv k o b p (released d t bad)
      → advance ev p (released d t bad) ≡ some (p', pc')
      → Inv k o b p' pc'
  unfolding advance count_idle count_msgs insert count_keys
  released-Inv {p'} {pc'} d t bad v h = record {
    counted = ground (arith);
    lent = λ c. ground (arith, v.lent c);
    single = λ c. ground (arith, v.single c);
  }

  pub resetting-Inv :
      {p' : Pool} {pc' : Pc} (d t : ℕ)
      → Inv k o b p (resetting d t)
      → advance ev p (resetting d t) ≡ some (p', pc')
      → Inv k o b p' pc'
  unfolding advance count_idle count_msgs insert count_keys
  resetting-Inv {p'} {pc'} d t v h = record {
    counted = ground (arith);
    lent = λ c. ground (arith, v.lent c);
    single = λ c. ground (arith, v.single c);
  }

  pub storing-Inv :
      {p' : Pool} {pc' : Pc} (d t : ℕ)
      → Inv k o b p (storing d t)
      → advance ev p (storing d t) ≡ some (p', pc')
      → Inv k o b p' pc'
  unfolding advance count_idle count_msgs insert count_keys
  storing-Inv {p'} {pc'} d t v h = record {
    counted = ground (arith, length-without d p.active, v.single d);
    lent = λ c. ground (arith, v.lent c, v.single c, count_keys-without c d p.active);
    single = λ c. ground (arith, v.single c, count_keys-without c d p.active);
  }

  pub sending-Inv :
      {p' : Pool} {pc' : Pc} (w d : ℕ)
      → Inv k o b p (sending w d)
      → advance ev p (sending w d) ≡ some (p', pc')
      → Inv k o b p' pc'
  unfolding advance count_idle count_msgs insert count_keys
  sending-Inv {p'} {pc'} w d v h = record {
    counted = ground (arith);
    lent = λ c. ground (arith, v.lent c);
    single = λ c. ground (arith, v.single c);
  }

  pub discarding-Inv :
      {p' : Pool} {pc' : Pc}
      → Inv k o b p discarding
      → advance ev p discarding ≡ some (p', pc')
      → Inv k o b p' pc'
  unfolding advance count_idle count_msgs insert count_keys
  discarding-Inv {p'} {pc'} v h = record {
    counted = ground (arith);
    lent = λ c. ground (arith, v.lent c);
    single = λ c. ground (arith, v.single c);
  }

  pub closing-Inv :
      {p' : Pool} {pc' : Pc}
      → Inv k o b p closing
      → advance ev p closing ≡ some (p', pc')
      → Inv k o b p' pc'
  unfolding advance count_idle count_msgs insert count_keys
  closing-Inv {p'} {pc'} v h = record {
    counted = ground (arith);
    lent = λ c. ground (arith, v.lent c, count_msgs-wake_all c p.waiters p.chans);
    single = λ c. ground (arith, v.single c);
  }
