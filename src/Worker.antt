-- ===== src/Worker.antt =====
-- worker.go: BackgroundSender. The queue is a FIFO of the given capacity; a send, a receive, a call of
-- the sender and each region under the lock are one step each.
mod Tests
mod Invariant
pub mod Delivery
use gsmail.Prelude.{
  ◌≡◌, ℕ, zero, suc, Bool, true, false, Option, none, some, List, [], ◌∷◌, ◌++◌, length, ltb,
  if◌then◌else◌,
}
use gsmail.Prelude.Int.{ℤ, ltb_ℤ, pos, pos_part}
use gsmail.Errors.{Error, sentinel, err_sender_stopped, err_queue_full}

-- A worker is about to receive, blocked in its receive, between its receive and its call of
-- sender.Send, in that call, or at its end.
pub data Worker (M : Type 0) : Type 0 where
  polling : Worker M
  receiving : Worker M
  holding : M → Worker M
  sending : M → Worker M
  exited : Worker M

-- How far the one effective call of Stop or StopNow has come.
pub data Stopper : Type 0 where
  not_called stop_waiting now_marked now_waiting stop_done now_done : Stopper

-- `attempted` are the calls of sender.Send so far, with whether their context was cancelled when they
-- started; `accepted` are the messages for which TrySend has returned nil, and `received` those that
-- the workers have received. `stopped` is also whether
-- the queue is closed.
pub record BackgroundSender (M : Type 0) : Type 0 where
  pub buffer : ℕ
  pub queue : List M
  pub err_chan : List (M × Error)
  pub stopped : Bool
  pub cancelled : Bool
  pub workers : List (Worker M)
  pub stopper : Stopper
  pub accepted : List M
  pub received : List M
  pub attempted : List (M × Bool)

module _ {M : Type 0} where
  unfoldable pub new_background_sender : ℤ → BackgroundSender M
  new_background_sender buffer_size = record {
    buffer = pos_part buffer_size;
    queue = [];
    err_chan = [];
    stopped = false;
    cancelled = false;
    workers = [];
    stopper = not_called;
    accepted = [];
    received = [];
    attempted = [];
  }

  unfoldable pub add_workers : ℕ → List (Worker M) → List (Worker M)
  add_workers zero ws = ws
  add_workers (suc n) ws = polling ∷ add_workers n ws

  unfoldable pub start : ℤ → BackgroundSender M → BackgroundSender M
  unfolding add_workers
  start num_workers s = record s {
    workers = add_workers (if ltb_ℤ num_workers (pos 1) then 1 else pos_part num_workers) s.workers;
  }

  -- the workers after a message is handed to one that is blocked in its receive
  unfoldable pub hand_to : M → List (Worker M) → Option (List (Worker M))
  hand_to m [] = none
  hand_to m (receiving ∷ ws) = some (holding m ∷ ws)
  hand_to m (w ∷ ws) = elim (hand_to m ws) [ none ↦ none | some ws' ↦ some (w ∷ ws') ]

  handed : M → Option (List (Worker M)) → BackgroundSender M → BackgroundSender M × Option Error
  handed m none s = (s, some (sentinel err_queue_full))
  handed m (some ws) s = (
    record s { workers = ws; accepted = s.accepted ++ m ∷ []; received = s.received ++ m ∷ [] },
    none,
  )

  -- `case s.queue <- email`: into the buffer, or, where that is full, to a blocked receiver, which
  -- there can only be while nothing is queued.
  enqueue : M → List M → BackgroundSender M → BackgroundSender M × Option Error
  unfolding handed
  enqueue m [] s =
      if ltb 0 s.buffer
      then (record s { queue = m ∷ []; accepted = s.accepted ++ m ∷ [] }, none)
      else handed m (hand_to m s.workers) s
  enqueue m (q ∷ queue) s =
      if ltb (length (q ∷ queue)) s.buffer
      then (record s { queue = (q ∷ queue) ++ m ∷ []; accepted = s.accepted ++ m ∷ [] }, none)
      else (s, some (sentinel err_queue_full))

  unfoldable pub try_send : M → BackgroundSender M → BackgroundSender M × Option Error
  unfolding enqueue
  try_send m s = if s.stopped then (s, some (sentinel err_sender_stopped)) else enqueue m s.queue s

  -- a receive of the range loop, on an open and on a closed queue
  pub receive : List M → Bool → BackgroundSender M → BackgroundSender M × Worker M
  receive (m ∷ queue) closed s =
      (record s { queue = queue; received = s.received ++ m ∷ [] }, holding m)
  receive [] true s = (s, exited)
  receive [] false s = (s, receiving)

  -- `case s.errChan <- …`, dropped where the channel is full. What a reader takes that is blocked in
  -- its receive on an empty channel leaves the channel as it was too.
  pub report : M → Option Error → BackgroundSender M → BackgroundSender M
  report m none s = s
  report m (some e) s =
      if ltb (length s.err_chan) s.buffer
      then (record s { err_chan = s.err_chan ++ (m, e) ∷ [] })
      else s

  -- A step of a worker; `outcome` is what sender.Send returns.
  unfoldable pub worker :
      Option Error → Worker M → BackgroundSender M → BackgroundSender M × Worker M
  unfolding receive report
  worker outcome polling s = receive s.queue s.stopped s
  worker outcome receiving s = receive s.queue s.stopped s
  worker outcome (holding m) s =
      (record s { attempted = s.attempted ++ (m, s.cancelled) ∷ [] }, sending m)
  worker outcome (sending m) s = (report m outcome s, polling)
  worker outcome exited s = (s, exited)

  unfoldable pub all_exited : List (Worker M) → Bool
  all_exited [] = true
  all_exited (exited ∷ ws) = all_exited ws
  all_exited (w ∷ ws) = false

  -- The call that stopOnce lets through; the other calls do nothing. `now` tells StopNow from Stop.
  pub marked : Bool → Stopper → BackgroundSender M → BackgroundSender M
  marked now not_called s = record s {
    stopped = true;
    stopper = if now then now_marked else stop_waiting;
  }
  marked now _ s = s

  unfoldable pub mark_stopped : Bool → BackgroundSender M → BackgroundSender M
  unfolding marked
  mark_stopped now s = marked now s.stopper s

  -- The steps after markStopped: Stop waits for the workers and then cancels, StopNow cancels and
  -- then waits.
  pub finished : Stopper → BackgroundSender M → BackgroundSender M
  unfolding all_exited
  finished stop_waiting s =
      if all_exited s.workers then (record s { cancelled = true; stopper = stop_done }) else s
  finished now_marked s = record s { cancelled = true; stopper = now_waiting }
  finished now_waiting s = if all_exited s.workers then (record s { stopper = now_done }) else s
  finished _ s = s

  unfoldable pub finish_stop : BackgroundSender M → BackgroundSender M
  unfolding finished
  finish_stop s = finished s.stopper s

  -- Start is called before Stop. One step of the sender: by a caller, a worker, a reader of Errors, or the stopping goroutine.
  pub data Step (s t : BackgroundSender M) : Type 0 where
    starts : (n : ℤ) → s.stopped ≡ false → t ≡ start n s → Step s t
    sends : (m : M) → t ≡ (try_send m s).0 → Step s t
    works :
        (outcome : Option Error) (before after : List (Worker M)) (w : Worker M)
        → s.workers ≡ before ++ w ∷ after
        → t ≡ record (worker outcome w s).0 { workers = before ++ (worker outcome w s).1 ∷ after }
        → Step s t
    reads :
        (es : List (M × Error)) (e : M × Error)
        → s.err_chan ≡ e ∷ es
        → t ≡ record s { err_chan = es }
        → Step s t
    stops : (now : Bool) → t ≡ mark_stopped now s → Step s t
    finishes : t ≡ finish_stop s → Step s t

  pub data Reach (buffer_size : ℤ) : BackgroundSender M → Type 0 where
    here : Reach buffer_size (new_background_sender buffer_size)
    next : {s t : BackgroundSender M} → Reach buffer_size s → Step s t → Reach buffer_size t
