-- ===== src/Pool.antt =====
-- smtp/pool.go: the connection pool. Each region between Lock and Unlock, each network call and each
-- channel operation is one step of a goroutine, so the steps of goroutines interleave as in the
-- program. The clock, the network and the choice in a select are the event of the step.
mod Maps
mod State
mod Tests
pub mod Invariant
pub mod Run
pub mod Limits
pub use State.{
  PoolConfig, PooledClient, Pool, new_pool, Stats, stats, Pc, get_entry, checking, dropping,
  adopting, dialing, dialed, dial_failed, waiting, draining, resumed, served, got, failed,
  put_entry, released, resetting, storing, sending, discarding, closing, finished, Event,
}
unfoldable pub use State.{dec_open_locked, full, stale, close, advance}
