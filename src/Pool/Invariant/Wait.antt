-- ===== src/Pool/Invariant/Wait.antt =====
-- smtp/pool.go: what the invariant needs of the steps of Get at a channel.
use gsmail.Prelude.{ℕ, ◌≡◌, some, arith, Option-cases, inl, inr}
use gsmail.Pool.Maps.{receive, count_msgs-receive}
use gsmail.Pool.State.{Pool, Pc, waiting, draining, Event, advance}
use gsmail.Pool.Invariant.Defs.{Inv}

module _ {k : ℕ} {o b : ℕ → ℕ} (ev : Event) (p : Pool) where
  pub waiting-Inv :
      {p' : Pool} {pc' : Pc} (ch start : ℕ)
      → Inv k o b p (waiting ch start)
      → advance ev p (waiting ch start) ≡ some (p', pc')
      → Inv k o b p' pc'
  unfolding advance
  waiting-Inv {p'} {pc'} ch start v h = elim (Option-cases (receive ch p.chans)) [
    | inl empty ↦ record {
      counted = ground arith;
      lent = λ c. ground (arith, v.lent c);
      single = λ c. ground (arith, v.single c);
    }
    | inr ((m, l), e) ↦ record {
      counted = ground arith;
      lent = λ c. ground (arith, v.lent c, count_msgs-receive c ch p.chans e);
      single = λ c. ground (arith, v.single c);
    }
  ]

  pub draining-Inv :
      {p' : Pool} {pc' : Pc} (ch : ℕ)
      → Inv k o b p (draining ch)
      → advance ev p (draining ch) ≡ some (p', pc')
      → Inv k o b p' pc'
  unfolding advance
  draining-Inv {p'} {pc'} ch v h = elim (Option-cases (receive ch p.chans)) [
    | inl empty ↦ record {
      counted = ground arith;
      lent = λ c. ground (arith, v.lent c);
      single = λ c. ground (arith, v.single c);
    }
    | inr ((m, l), e) ↦ record {
      counted = ground arith;
      lent = λ c. ground (arith, v.lent c, count_msgs-receive c ch p.chans e);
      single = λ c. ground (arith, v.single c);
    }
  ]
