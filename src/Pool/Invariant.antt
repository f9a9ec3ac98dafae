-- ===== src/Pool/Invariant.antt =====
-- smtp/pool.go: what one step of a goroutine among others keeps.
mod Defs
mod Get
mod Put
mod Wait
unfoldable pub use Defs.*
use Get.{
  get_entry-Inv, checking-Inv, dropping-Inv, adopting-Inv, dialing-Inv, dialed-Inv, dial_failed-Inv,
  resumed-Inv, served-Inv,
}
use Put.{
  got-Inv, put_entry-Inv, released-Inv, resetting-Inv, storing-Inv, sending-Inv, discarding-Inv,
  closing-Inv,
}
use Wait.{waiting-Inv, draining-Inv}
use gsmail.Prelude.{
  ℕ, zero, suc, ◌+◌, ◌-◌, ◌≤◌, ◌<◌, ◌≡◌, refl, ◌⊎◌, Bool, true, false, Option, none, some, List, [],
  ◌∷◌, ◌++◌, length, arith, ◌==◌, ==_iff, Bool-cases, Option-cases, inl, inr,
}
use gsmail.Prelude.Int.{ℤ, pos, pos_part, leb_ℤ, ltb_ℤ}
use gsmail.Pool.Maps.{
  get, without, insert, remove, mem, receive, one_if, count_keys, count_msgs, holds_msg,
  count_keys-without, length-without, count_msgs-receive,
}
use gsmail.Pool.State.{
  PoolConfig, PooledClient, Pool, Pc, get_entry, checking, dropping, adopting, dialing, dialed,
  dial_failed, waiting, draining, resumed, served, got, failed, put_entry, released, resetting,
  storing, sending, discarding, closing, finished, Event, advance, dec_open_locked, close, full,
  wake_all,
}

module _ {k : ℕ} {o b : ℕ → ℕ} (ev : Event) (p : Pool) where
  -- Every step of every goroutine keeps the invariant.
  pub advance-Inv :
      {p' : Pool} (pc : Pc) {pc' : Pc}
      → Inv k o b p pc
      → IsFresh o ev p pc
      → advance ev p pc ≡ some (p', pc')
      → Inv k o b p' pc'
  advance-Inv (get_entry start) v f h = get_entry-Inv ev p start v h
  advance-Inv (checking pc start) v f h = checking-Inv ev p pc start v h
  advance-Inv (dropping start) v f h = dropping-Inv ev p start v h
  advance-Inv (adopting c t) v f h = adopting-Inv ev p c t v h
  advance-Inv dialing v f h = dialing-Inv ev p v f h
  advance-Inv (dialed c) v f h = dialed-Inv ev p c v h
  advance-Inv dial_failed v f h = dial_failed-Inv ev p v h
  advance-Inv (waiting ch start) v f h = waiting-Inv ev p ch start v h
  advance-Inv (draining ch) v f h = draining-Inv ev p ch v h
  advance-Inv (resumed start) v f h = resumed-Inv ev p start v h
  advance-Inv (served c start) v f h = served-Inv ev p c start v h
  advance-Inv (got c) v f h = got-Inv ev p c v h
  advance-Inv (failed e) v f h = unfold advance in cc
  advance-Inv (put_entry c bad) v f h = put_entry-Inv ev p c bad v h
  advance-Inv (released c t bad) v f h = released-Inv ev p c t bad v h
  advance-Inv (resetting c t) v f h = resetting-Inv ev p c t v h
  advance-Inv (storing c t) v f h = storing-Inv ev p c t v h
  advance-Inv (sending w c) v f h = sending-Inv ev p w c v h
  advance-Inv discarding v f h = discarding-Inv ev p v h
  advance-Inv closing v f h = closing-Inv ev p v h
  advance-Inv finished v f h = unfold advance in cc
