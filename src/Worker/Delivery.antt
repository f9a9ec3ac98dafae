-- ===== src/Worker/Delivery.antt =====
-- worker.go: the messages that reach sender.Send, over whole runs.
use gsmail.Prelude.{
  ℕ, zero, suc, ◌≡◌, ◌≢◌, refl, sym, ap, ◌∙◌, inl, inr, Bool, true, false, Option, none, some, List,
  [], ◌∷◌, ◌++◌, append-nil, arith, All, All-append, Bool-cases, if◌then◌else◌, ltb, length,
}
use mathlib.Core.Path.{subst}
use mathlib.Core.List.{Perm}
use mathlib.Core.List.Perm
use gsmail.Prelude.Int.{ℤ, ltb_ℤ, pos, pos_part}
use gsmail.Errors.{Error}
use gsmail.Worker.{
  Worker, polling, receiving, holding, sending, exited, Stopper, not_called, stop_waiting,
  now_marked, now_waiting, stop_done, now_done, BackgroundSender, new_background_sender,
  add_workers, start, report, worker, all_exited, marked, mark_stopped, finished, finish_stop, Step,
  starts, sends, works, reads, stops, finishes, Reach, here, next,
}
use gsmail.Worker.Invariant.{
  messages, held, same-Taken, attempt-Taken, IsLive, Ended, Phase, Inv, Ended-step, open_Inv,
  receive-Inv, awake_Inv, try_send-Inv,
}

module _ {M : Type 0} where
  add_workers-Ended :
      (s : BackgroundSender M) (n : ℕ) (ws : List (Worker M))
      → All (Ended s) ws
      → All (Ended s) (add_workers n ws)
  unfolding add_workers
  add_workers-Ended s zero ws h = h
  add_workers-Ended s (suc n) ws h = (tt, add_workers-Ended s n ws h)

  held-add_workers : (n : ℕ) (ws : List (Worker M)) → held (add_workers n ws) ≡ held ws
  unfolding add_workers
  held-add_workers zero ws = refl
  held-add_workers (suc n) ws = held-add_workers n ws

  start-Inv : (n : ℤ) (s : BackgroundSender M) → s.stopped ≡ false → Inv s → Inv (start n s)
  unfolding start
  start-Inv n s o v =
      open_Inv s _ v o refl refl refl v.fifo
        (subst (λ l. Perm s.received (messages s.attempted ++ l))
          (sym (held-add_workers (if ltb_ℤ n (pos 1) then 1 else pos_part n) s.workers)) v.taken)
        (λ c live. live)
        (add_workers-Ended s (if ltb_ℤ n (pos 1) then 1 else pos_part n) s.workers v.ended)

  report_lem :
      (m : M) (o : Option Error) (s : BackgroundSender M)
      → (es : List (M × Error)) × (report m o s ≡ record s { err_chan = es })
  unfolding report
  report_lem m none s = (s.err_chan, refl)
  report_lem m (some e) s = (
    if ltb (length s.err_chan) s.buffer then s.err_chan ++ (m, e) ∷ [] else s.err_chan,
    ground arith,
  )

  works-Inv :
      (o : Option Error) (s t : BackgroundSender M) (before after : List (Worker M)) (w : Worker M)
      → s.workers ≡ before ++ w ∷ after
      → t ≡ record (worker o w s).0 { workers = before ++ (worker o w s).1 ∷ after }
      → Inv s
      → Inv t
  unfolding worker
  works-Inv o s t before after polling ew et v =
      receive-Inv s t before after polling _ ew (unfold all_exited in refl) v s.queue s.stopped refl
        refl refl refl et
  works-Inv o s t before after receiving ew et v =
      receive-Inv s t before after receiving _ ew (unfold all_exited in refl) v s.queue s.stopped
        refl refl refl refl et
  works-Inv o s t before after (holding m) ew et v =
      awake_Inv s t before after (holding m) (sending m) ew (unfold all_exited in refl) v
        (ap (λ x. x.workers) et) (ap (λ x. x.stopped) et) (ap (λ x. x.cancelled) et)
        (ap (λ x. x.stopper) et) (rw et v.fifo)
        (rw et (attempt-Taken s before after m s.cancelled ew v.taken))
        (λ c live. rw et (All-append IsLive s.attempted _ live (c, tt))) (λ h. rw et h) tt
  works-Inv o s t before after (sending m) ew et v =
      let (es, same) = report_lem m o s in
      let et' : t ≡ record s { err_chan = es; workers = before ++ polling ∷ after } =
        et
        ∙ ap (λ (r : BackgroundSender M). record r { workers = before ++ polling ∷ after }) same in
      awake_Inv s t before after (sending m) polling ew (unfold all_exited in refl) v
        (ap (λ x. x.workers) et') (ap (λ x. x.stopped) et') (ap (λ x. x.cancelled) et')
        (ap (λ x. x.stopper) et') (rw et' v.fifo)
        (rw et' (same-Taken s before after (sending m) polling ew refl v.taken))
        (λ c live. rw et' live) (λ h. rw et' h) tt
  works-Inv o s t before after exited ew et v =
      subst Inv (sym (et ∙ ap (λ (ws : List (Worker M)). record s { workers = ws }) (sym ew))) v

  marked-Inv :
      (now : Bool) (st : Stopper) (s : BackgroundSender M)
      → Phase s st
      → Inv s
      → Inv (marked now st s)
  unfolding marked
  marked-Inv true not_called s p v = record {
    fifo = v.fifo;
    taken = v.taken;
    ended = Ended-step s (marked true not_called s) s.workers (λ h. (refl, h.1)) v.ended;
    phase = refl;
  }
  marked-Inv false not_called s p v = record {
    fifo = v.fifo;
    taken = v.taken;
    ended = Ended-step s (marked false not_called s) s.workers (λ h. (refl, h.1)) v.ended;
    phase = (refl, p.1, p.2);
  }
  marked-Inv now stop_waiting s p v = v
  marked-Inv now now_marked s p v = v
  marked-Inv now now_waiting s p v = v
  marked-Inv now stop_done s p v = v
  marked-Inv now now_done s p v = v

  finished-Inv : (st : Stopper) (s : BackgroundSender M) → Phase s st → Inv s → Inv (finished st s)
  unfolding finished
  finished-Inv not_called s p v = v
  finished-Inv stop_waiting s p v = elim (Bool-cases (all_exited s.workers)) [
    | inl done ↦
        let t = record s { cancelled = true; stopper = stop_done } in
        subst (λ b. Inv (if b then t else s)) (sym done)
          (record {
            fifo = v.fifo;
            taken = v.taken;
            ended = Ended-step s t s.workers (λ h. h) v.ended;
            phase = (p.0, done, p.2);
          })
    | inr wait ↦
        subst (λ b. Inv (if b then record s { cancelled = true; stopper = stop_done } else s))
          (sym wait) v
  ]
  finished-Inv now_marked s p v =
      let t = record s { cancelled = true; stopper = now_waiting } in
      record {
        fifo = v.fifo;
        taken = v.taken;
        ended = Ended-step s t s.workers (λ h. h) v.ended;
        phase = p;
      }
  finished-Inv now_waiting s p v = elim (Bool-cases (all_exited s.workers)) [
    | inl done ↦
        let t = record s { stopper = now_done } in
        subst (λ b. Inv (if b then t else s)) (sym done)
          (record {
            fifo = v.fifo;
            taken = v.taken;
            ended = Ended-step s t s.workers (λ h. h) v.ended;
            phase = (p, done);
          })
    | inr wait ↦ subst (λ b. Inv (if b then record s { stopper = now_done } else s)) (sym wait) v
  ]
  finished-Inv stop_done s p v = v
  finished-Inv now_done s p v = v

  Phase-reads :
      (s : BackgroundSender M) (es : List (M × Error)) (st : Stopper)
      → Phase s st
      → Phase (record s { err_chan = es }) st
  Phase-reads s es not_called p = p
  Phase-reads s es stop_waiting p = p
  Phase-reads s es now_marked p = p
  Phase-reads s es now_waiting p = p
  Phase-reads s es stop_done p = p
  Phase-reads s es now_done p = p

  Step-Inv : {s t : BackgroundSender M} → Step s t → Inv s → Inv t
  Step-Inv {s} (starts n o e) v = subst Inv (sym e) (start-Inv n s o v)
  Step-Inv {s} (sends m e) v = subst Inv (sym e) (try_send-Inv m s v)
  Step-Inv {s} {t} (works o before after w ew et) v = works-Inv o s t before after w ew et v
  Step-Inv {s} (reads es x e et) v = subst Inv (sym et) (record {
    fifo = v.fifo;
    taken = v.taken;
    ended = Ended-step s (record s { err_chan = es }) s.workers (λ h. h) v.ended;
    phase = Phase-reads s es s.stopper v.phase;
  })
  Step-Inv {s} (stops now e) v =
      subst Inv (sym e) (unfold mark_stopped in marked-Inv now s.stopper s v.phase v)
  Step-Inv {s} (finishes e) v =
      subst Inv (sym e) (unfold finish_stop in finished-Inv s.stopper s v.phase v)

  Reach-Inv : {size : ℤ} {s : BackgroundSender M} → Reach size s → Inv s
  unfolding new_background_sender
  Reach-Inv here = record { fifo = refl; taken = Perm.nil; ended = tt; phase = (refl, refl, tt) }
  Reach-Inv (next r step) = Step-Inv step (Reach-Inv r)

  -- In every state the sender reaches, what TrySend and Send have accepted is, in this order, what
  -- the workers have received and then what is queued; and what they have received is, in some
  -- order and each message as often, what they have passed to sender.Send and what a worker holds
  -- between its receive and that call.
  pub accepted-received :
      (size : ℤ) (s : BackgroundSender M)
      → Reach size s
      → (s.accepted ≡ s.received ++ s.queue)
        × Perm s.received (messages s.attempted ++ held s.workers)
  accepted-received size s r = ((Reach-Inv r).fifo, (Reach-Inv r).taken)

  queue-Ended :
      (s : BackgroundSender M) (ws : List (Worker M))
      → ws ≢ []
      → all_exited ws ≡ true
      → All (Ended s) ws
      → s.queue ≡ []
  unfolding all_exited
  queue-Ended s [] some_worker e h = absurd (some_worker refl)
  queue-Ended s (exited ∷ ws) some_worker e h = h.0.1
  queue-Ended s (polling ∷ ws) some_worker e h = cc
  queue-Ended s (receiving ∷ ws) some_worker e h = cc
  queue-Ended s (holding m ∷ ws) some_worker e h = cc
  queue-Ended s (sending m ∷ ws) some_worker e h = cc

  held-all_exited : (ws : List (Worker M)) → all_exited ws ≡ true → held ws ≡ []
  unfolding all_exited
  held-all_exited [] e = refl
  held-all_exited (exited ∷ ws) e = held-all_exited ws e
  held-all_exited (polling ∷ ws) e = cc
  held-all_exited (receiving ∷ ws) e = cc
  held-all_exited (holding m ∷ ws) e = cc
  held-all_exited (sending m ∷ ws) e = cc

  -- once the workers have ended, no message is queued or held
  drained :
      (s : BackgroundSender M)
      → Inv s
      → s.workers ≢ []
      → all_exited s.workers ≡ true
      → Perm s.accepted (messages s.attempted)
  drained s v some_worker done =
      subst (λ l. Perm l (messages s.attempted))
        (sym (
          v.fifo
          ∙ ap (λ z. s.received ++ z) (queue-Ended s s.workers some_worker done v.ended)
          ∙ append-nil s.received))
        (subst (Perm s.received)
          (ap (λ z. messages s.attempted ++ z) (held-all_exited s.workers done)
            ∙ append-nil (messages s.attempted))
          v.taken)

  -- Where a worker was started, once Stop has returned, every accepted message has been passed to
  -- sender.Send, as often as it was accepted and nothing else, each with a context that was not
  -- cancelled when that call started.
  pub stop_drains :
      (size : ℤ) (s : BackgroundSender M)
      → Reach size s
      → s.workers ≢ []
      → s.stopper ≡ stop_done
      → Perm s.accepted (messages s.attempted) × All IsLive s.attempted
  stop_drains size s r some_worker e =
      let v = Reach-Inv r in
      let p : Phase s stop_done = subst (Phase s) e v.phase in (drained s v some_worker p.1, p.2)

  -- Where a worker was started, once StopNow has returned, every accepted message has been passed
  -- to sender.Send, as often as it was accepted: none of those that were queued is discarded.
  pub stop_now_drains :
      (size : ℤ) (s : BackgroundSender M)
      → Reach size s
      → s.workers ≢ []
      → s.stopper ≡ now_done
      → Perm s.accepted (messages s.attempted)
  stop_now_drains size s r some_worker e =
      let v = Reach-Inv r in
      let p : Phase s now_done = subst (Phase s) e v.phase in drained s v some_worker p.1
