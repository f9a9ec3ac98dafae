-- ===== src/Worker/Tests.antt =====
-- worker.go: the theorems on the background sender at runs with two workers.
use gsmail.Prelude.{ℕ, ◌≡◌, refl, true, false, none, [], ◌∷◌, ◌++◌, All}
use mathlib.Core.List.{Perm}
use gsmail.Prelude.Int.{pos}
use gsmail.Worker.{
  BackgroundSender, new_background_sender, start, add_workers, try_send, worker, polling, holding,
  sending, exited, mark_stopped, finish_stop, all_exited, stop_done, now_done, Reach, here, next,
  starts, sends, works, stops, finishes,
}
use gsmail.Worker.Invariant.{messages, held, IsLive}
use gsmail.Worker.Delivery.{accepted-received, stop_drains, stop_now_drains}

-- The second worker has overtaken the first one: 8 is being sent, 7 is held, and 9 is queued.
abbrev busy : BackgroundSender ℕ
busy = record (new_background_sender (pos 2)) {
  queue = 9 ∷ [];
  workers = holding 7 ∷ sending 8 ∷ [];
  accepted = 7 ∷ 8 ∷ 9 ∷ [];
  received = 7 ∷ 8 ∷ [];
  attempted = (8, false) ∷ [];
}

busy_reached : Reach (pos 2) busy
unfolding new_background_sender start add_workers try_send worker
busy_reached =
    next
      (next
        (next
          (next (next (next (next (here) (starts (pos 2) refl refl)) (sends 7 refl)) (sends 8 refl))
            (works none ([]) (polling ∷ []) (polling) refl refl))
          (works none (holding 7 ∷ []) ([]) (polling) refl refl))
        (works none (holding 7 ∷ []) ([]) (holding 8) refl refl))
      (sends 9 refl)

-- All are sent, and the workers have ended.
abbrev stopped : BackgroundSender ℕ
stopped = record busy {
  queue = [];
  stopped = true;
  cancelled = true;
  workers = exited ∷ exited ∷ [];
  stopper = stop_done;
  received = 7 ∷ 8 ∷ 9 ∷ [];
  attempted = (8, false) ∷ (7, false) ∷ (9, false) ∷ [];
}

stopped_reached : Reach (pos 2) stopped
unfolding new_background_sender worker mark_stopped finish_stop all_exited
stopped_reached =
    next
      (next
        (next
          (next
            (next
              (next
                (next
                  (next
                    (next (next (busy_reached) (stops false refl))
                      (works none ([]) (sending 8 ∷ []) (holding 7) refl refl))
                    (works none ([]) (sending 8 ∷ []) (sending 7) refl refl))
                  (works none (polling ∷ []) ([]) (sending 8) refl refl))
                (works none ([]) (polling ∷ []) (polling) refl refl))
              (works none ([]) (polling ∷ []) (holding 9) refl refl))
            (works none ([]) (polling ∷ []) (sending 9) refl refl))
          (works none ([]) (polling ∷ []) (polling) refl refl))
        (works none (exited ∷ []) ([]) (polling) refl refl))
      (finishes refl)

-- StopNow cancels first, and what is held or queued is sent with a cancelled context.
abbrev stopped_now : BackgroundSender ℕ
stopped_now = record stopped {
  stopper = now_done;
  attempted = (8, false) ∷ (7, true) ∷ (9, true) ∷ [];
}

stopped_now_reached : Reach (pos 2) stopped_now
unfolding new_background_sender worker mark_stopped finish_stop all_exited
stopped_now_reached =
    next
      (next
        (next
          (next
            (next
              (next
                (next
                  (next
                    (next (next (next (busy_reached) (stops true refl)) (finishes refl))
                      (works none ([]) (sending 8 ∷ []) (holding 7) refl refl))
                    (works none ([]) (sending 8 ∷ []) (sending 7) refl refl))
                  (works none (polling ∷ []) ([]) (sending 8) refl refl))
                (works none ([]) (polling ∷ []) (polling) refl refl))
              (works none ([]) (polling ∷ []) (holding 9) refl refl))
            (works none ([]) (polling ∷ []) (sending 9) refl refl))
          (works none ([]) (polling ∷ []) (polling) refl refl))
        (works none (exited ∷ []) ([]) (polling) refl refl))
      (finishes refl)

accepted-received_example :
    (busy.accepted ≡ busy.received ++ busy.queue)
    × Perm busy.received (messages busy.attempted ++ held busy.workers)
accepted-received_example = accepted-received (pos 2) busy busy_reached

stop_drains_example :
    Perm stopped.accepted (messages stopped.attempted) × All IsLive stopped.attempted
stop_drains_example = stop_drains (pos 2) stopped stopped_reached (λ e. cc e) refl

stop_now_drains_example : Perm stopped_now.accepted (messages stopped_now.attempted)
stop_now_drains_example = stop_now_drains (pos 2) stopped_now stopped_now_reached (λ e. cc e) refl
