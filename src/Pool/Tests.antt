-- ===== src/Pool/Tests.antt =====
-- smtp/pool.go: the theorems on the pool at a run of one Get, with a waiter behind it.
use gsmail.Prelude.{◌+◌, ◌≤◌, ◌≡◌, refl, true, false, [], ◌∷◌}
use gsmail.Prelude.Int.{pos}
use gsmail.Pool.Maps.{count_keys, count_msgs, insert}
use gsmail.Pool.State.{
  PoolConfig, get_entry, dialing, dialed, got, waiting, Event, advance, new_pool, stats, full,
}
use gsmail.Pool.Invariant.{transit, owns, borrows, count_idle}
use gsmail.Pool.Run.{
  System, total, Reach, here, next, call, step, get_call, stats-accounted, client_in_one_place,
}
use gsmail.Pool.Limits.{IsWithin, Reach-IsWithin}

abbrev config : PoolConfig
config = record {
  max_idle = pos 1;
  max_open = pos 1;
  idle_timeout = pos 0;
  max_lifetime = pos 0;
  wait = true;
}

abbrev event : Event
event = record { now = 5; ok = true; client = 7; cancelled = false }

-- client 7 is lent, and a second Get waits on channel 0
abbrev lent : System
lent = record {
  pool = record (new_pool config) {
    open_count = 1;
    active = (7, 5) ∷ [];
    waiters = 0 ∷ [];
    next_chan = 1;
    wait_count = 1;
  };
  procs = waiting 0 6 ∷ got 7 ∷ [];
}

one_get : Reach config (record {
  pool = record (new_pool config) { open_count = 1; active = (7, 5) ∷ [] };
  procs = got 7 ∷ [];
})
unfolding new_pool advance full insert count_idle count_keys
one_get =
    next
      (next
        (next (next here (call (get_entry 1) (get_call 1) refl refl))
          (step event [] [] (get_entry 1) dialing refl refl tt refl))
        (step event [] [] dialing (dialed 7) refl refl refl refl))
      (step event [] [] (dialed 7) (got 7) refl refl tt refl)

run : Reach config lent
unfolding new_pool advance full
run =
    next (next one_get (call (get_entry 6) (get_call 6) refl refl))
      (step event [] (got 7 ∷ []) (get_entry 6) (waiting 0 6) refl refl tt refl)

stats-accounted_example :
    (stats lent.pool).open_connections
    ≡ (stats lent.pool).idle_connections + (stats lent.pool).in_use + total transit lent.procs
stats-accounted_example = stats-accounted run

client_in_one_place_example :
    count_idle 7 lent.pool.idle
      + total (owns 7) lent.procs
      + total (borrows 7) lent.procs
      + count_msgs 7 lent.pool.chans
    ≤ 1
client_in_one_place_example = client_in_one_place 7 run

Reach-IsWithin_example : IsWithin config lent.pool
Reach-IsWithin_example = Reach-IsWithin run
