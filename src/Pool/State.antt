-- ===== src/Pool/State.antt =====
-- smtp/pool.go: the state of a pool, and the steps of Get, Put and Close.
use gsmail.Prelude.{
  ℕ, suc, ◌+◌, ◌-◌, Bool, true, false, not, ◌&&◌, ◌||◌, Option, none, some, List, [], ◌∷◌, ◌++◌,
  length, if◌then◌else◌,
}
use gsmail.Prelude.Int.{ℤ, pos, ◌-ℤ◌, ltb_ℤ, leb_ℤ}
use gsmail.Errors.{Error, sentinel, err_pool_closed, err_pool_full, foreign, canceled}
use gsmail.Pool.Maps.{get, without, insert, remove, mem, receive}

pub record PoolConfig : Type 0 where
  pub max_idle : ℤ
  pub max_open : ℤ
  pub idle_timeout : ℤ
  pub max_lifetime : ℤ
  pub wait : Bool

-- Clients are numbered by their addresses, times are nanoseconds.
pub record PooledClient : Type 0 where
  pub client : ℕ
  pub created_at : ℕ
  pub last_used : ℕ

-- The head of `idle` is the end of the slice, the head of `waiters` its start. `active` maps a client
-- to its creation time. `chans` is what the one-place channels of the waiters hold, by channel:
-- `none` is the nil client. `next_chan` names the next channel that make returns.
pub record Pool : Type 0 where
  pub config : PoolConfig
  pub idle : List PooledClient
  pub open_count : ℕ
  pub closed : Bool
  pub waiters : List ℕ
  pub active : List (ℕ × ℕ)
  pub wait_count : ℕ
  pub wait_duration : ℕ
  pub chans : List (ℕ × Option ℕ)
  pub next_chan : ℕ

unfoldable pub new_pool : PoolConfig → Pool
new_pool config = record {
  config = record config {
    max_idle = if leb_ℤ config.max_idle (pos 0) then pos 2 else config.max_idle;
  };
  idle = [];
  open_count = 0;
  closed = false;
  waiters = [];
  active = [];
  wait_count = 0;
  wait_duration = 0;
  chans = [];
  next_chan = 0;
}

pub record Stats : Type 0 where
  pub open_connections : ℕ
  pub idle_connections : ℕ
  pub in_use : ℕ
  pub wait_count : ℕ
  pub wait_duration : ℕ

unfoldable pub stats : Pool → Stats
stats p = record {
  open_connections = p.open_count;
  idle_connections = length p.idle;
  in_use = length p.active;
  wait_count = p.wait_count;
  wait_duration = p.wait_duration;
}

abbrev wake : List ℕ → Pool → Pool
wake [] p = p
wake (w ∷ ws) p = record p { waiters = ws; chans = (w, none) ∷ p.chans }

-- `-` stops at 0, as the test p.open > 0 does.
unfoldable pub dec_open_locked : Pool → Pool
dec_open_locked p = wake p.waiters (record p { open_count = p.open_count - 1 })

-- `for _, w := range p.waiters { w <- nil }`
abbrev pub wake_all : List ℕ → List (ℕ × Option ℕ)
wake_all [] = []
wake_all (w ∷ ws) = (w, none) ∷ wake_all ws

unfoldable pub close : Pool → Pool
close p = if p.closed then p else (record p {
  closed = true;
  idle = [];
  open_count = p.open_count - length p.idle;
  chans = wake_all p.waiters ++ p.chans;
  waiters = [];
})

unfoldable pub full : Pool → Bool
full p = ltb_ℤ (pos 0) p.config.max_open && leb_ℤ p.config.max_open (pos p.open_count)

-- a limit that is set and exceeded by time.Since
abbrev pub exceeded : ℤ → ℕ → ℕ → Bool
exceeded limit now since = ltb_ℤ (pos 0) limit && ltb_ℤ limit (pos now -ℤ pos since)

unfoldable pub stale : PoolConfig → ℕ → PooledClient → Bool
stale c now pc =
    exceeded c.idle_timeout now pc.last_used || exceeded c.max_lifetime now pc.created_at

-- Where a goroutine stands. The number behind a step of Get is `start`; `got` and `failed` are its
-- returns, `finished` that of Put and of Close. A Put carries its client, whether err is not nil,
-- and createdAt.
pub data Pc : Type 0 where
  get_entry : ℕ → Pc
  checking : PooledClient → ℕ → Pc
  dropping : ℕ → Pc
  adopting : ℕ → ℕ → Pc
  dialing : Pc
  dialed : ℕ → Pc
  dial_failed : Pc
  waiting : ℕ → ℕ → Pc
  draining : ℕ → Pc
  resumed : ℕ → Pc
  served : ℕ → ℕ → Pc
  got : ℕ → Pc
  failed : Error → Pc
  put_entry : ℕ → Bool → Pc
  released : ℕ → Option ℕ → Bool → Pc
  resetting : ℕ → ℕ → Pc
  storing : ℕ → ℕ → Pc
  sending : ℕ → ℕ → Pc
  discarding : Pc
  closing : Pc
  finished : Pc

-- What the outside decides in a step: the time, whether the network call succeeds (for a client
-- that is held: whether its holder returns it without an error), the client that a dial makes, and
-- whether a select takes ctx.Done.
pub record Event : Type 0 where
  pub now : ℕ
  pub ok : Bool
  pub client : ℕ
  pub cancelled : Bool

abbrev dial_error : Error
dial_error = foreign (record { id = 0; retryable = none; delay = none })

take_idle : Pool → List PooledClient → ℕ → Pool × Pc
take_idle p (pc ∷ rest) start = (record p { idle = rest }, checking pc start)
take_idle p [] start =
    if full p
    then (if p.config.wait
        then (
          record p {
            waiters = p.waiters ++ p.next_chan ∷ [];
            next_chan = suc p.next_chan;
            wait_count = suc p.wait_count;
          },
          waiting p.next_chan start,
        )
        else (p, failed (sentinel err_pool_full)))
    else (record p { open_count = suc p.open_count }, dialing)

-- the region of Get that each round of its loop starts with
enter_get : Pool → ℕ → Pool × Pc
unfolding take_idle
enter_get p start =
    if p.closed then (p, failed (sentinel err_pool_closed)) else take_idle p p.idle start

-- `case client := <-waitChan`; `none` where the channel is empty, which blocks
answered : Pool → ℕ → Option (Option ℕ × List (ℕ × Option ℕ)) → Option (Pool × Pc)
answered p start none = none
answered p start (some (none, chans)) = some (record p { chans = chans }, resumed start)
answered p start (some (some c, chans)) = some (record p { chans = chans }, served c start)

-- `case <-ctx.Done()`
cancel_wait : Pool → ℕ → Pool × Pc
cancel_wait p ch =
    if mem ch p.waiters
    then (record p { waiters = remove ch p.waiters }, failed canceled)
    else (p, draining ch)

-- `if client := <-waitChan; client != nil`
drained : Pool → Option (Option ℕ × List (ℕ × Option ℕ)) → Option (Pool × Pc)
drained p none = none
drained p (some (none, chans)) = some (record p { chans = chans }, failed canceled)
drained p (some (some c, chans)) = some (record p { chans = chans }, put_entry c true)

-- `if err != nil || (MaxLifetime > 0 && ok && time.Since(createdAt) > MaxLifetime)`
must_discard : PoolConfig → ℕ → Option ℕ → Bool → Bool
must_discard c now none bad = bad
must_discard c now (some created_at) bad = bad || exceeded c.max_lifetime now created_at

-- createdAt is the zero time where the client was not in the map
abbrev created_or_zero : Option ℕ → ℕ
created_or_zero none = 0
created_or_zero (some t) = t

-- the last region of Put
store : ℕ → Pool → List ℕ → ℕ → ℕ → Pool × Pc
store now p (w ∷ ws) c created_at =
    (record p { waiters = ws; active = insert c created_at p.active }, sending w c)
store now p [] c created_at =
    if leb_ℤ p.config.max_idle (pos (length p.idle)) then (dec_open_locked p, finished) else (
      record p { idle = record { client = c; created_at = created_at; last_used = now } ∷ p.idle },
      finished,
    )

-- One step of a goroutine; `none` where it blocks or has returned.
unfoldable pub advance : Event → Pool → Pc → Option (Pool × Pc)
unfolding enter_get answered cancel_wait drained must_discard store dec_open_locked full stale close
advance ev p (get_entry start) = some (enter_get p start)
advance ev p (checking pc start) = some (
  p,
  (if stale p.config ev.now pc || not ev.ok
      then dropping start
      else adopting pc.client pc.created_at),
)
advance ev p (dropping start) = some (dec_open_locked p, get_entry start)
advance ev p (adopting c t) = some (record p { active = insert c t p.active }, got c)
advance ev p dialing = some (p, (if ev.ok then dialed ev.client else dial_failed))
advance ev p (dialed c) = some (record p { active = insert c ev.now p.active }, got c)
advance ev p dial_failed = some (dec_open_locked p, failed dial_error)
advance ev p (waiting ch start) =
    if ev.cancelled then some (cancel_wait p ch) else answered p start (receive ch p.chans)
advance ev p (draining ch) = drained p (receive ch p.chans)
advance ev p (resumed start) =
    some (record p { wait_duration = p.wait_duration + (ev.now - start) }, get_entry start)
advance ev p (served c start) =
    some (record p { wait_duration = p.wait_duration + (ev.now - start) }, got c)
advance ev p (got c) = some (p, put_entry c (not ev.ok))
advance ev p (put_entry c bad) =
    some (record p { active = without c p.active }, released c (get c p.active) bad)
advance ev p (released c t bad) = some (
  p,
  (if must_discard p.config ev.now t bad then discarding else resetting c (created_or_zero t)),
)
advance ev p (resetting c t) = some (p, (if ev.ok then storing c t else discarding))
advance ev p (storing c t) =
    some (if p.closed then (dec_open_locked p, finished) else store ev.now p p.waiters c t)
advance ev p (sending w c) = some (record p { chans = (w, some c) ∷ p.chans }, finished)
advance ev p discarding = some (dec_open_locked p, finished)
advance ev p closing = some (close p, finished)
advance ev p (failed e) = none
advance ev p finished = none
