-- ===== src/Worker/Invariant.antt =====
-- worker.go: the invariant of the background sender, and the steps at its queue.
use gsmail.Prelude.{
  ◌≡◌, refl, sym, ap, ◌∙◌, inl, inr, Bool, true, false, Option, none, some, List, [], ◌∷◌, ◌++◌,
  map, append-nil, append_assoc, length, arith, All, Bool-cases, Option-cases, if◌then◌else◌, ltb,
}
use mathlib.Core.List.{map-append, Perm, perm_append_singleton, perm_middle}
use mathlib.Core.List.Perm
use mathlib.Core.Path.{subst}
use gsmail.Errors.{sentinel, err_sender_stopped}
use gsmail.Worker.{
  Worker, polling, receiving, holding, sending, exited, Stopper, not_called, stop_waiting,
  now_marked, now_waiting, stop_done, now_done, BackgroundSender, hand_to, handed, enqueue,
  try_send, receive, all_exited,
}

module _ {M : Type 0} where
  abbrev pub messages : List (M × Bool) → List M
  messages = map (λ x. x.0)

  -- the calls of sender.Send that started with a live context
  abbrev pub IsLive : M × Bool → Type 0
  IsLive x = x.1 ≡ false

  abbrev pub Ended : BackgroundSender M → Worker M → Type 0
  Ended s exited = (s.stopped ≡ true) × (s.queue ≡ [])
  Ended s _ = Unit

  abbrev pub Phase : BackgroundSender M → Stopper → Type 0
  Phase s not_called = (s.stopped ≡ false) × (s.cancelled ≡ false) × All IsLive s.attempted
  Phase s stop_waiting = (s.stopped ≡ true) × (s.cancelled ≡ false) × All IsLive s.attempted
  Phase s stop_done = (s.stopped ≡ true) × (all_exited s.workers ≡ true) × All IsLive s.attempted
  Phase s now_done = (s.stopped ≡ true) × (all_exited s.workers ≡ true)
  Phase s _ = s.stopped ≡ true

  -- the messages that a worker, and the workers, have received and not yet passed to sender.Send
  abbrev pub held_by : Worker M → List M
  held_by (holding m) = m ∷ []
  held_by _ = []

  abbrev pub held : List (Worker M) → List M
  held [] = []
  held (w ∷ ws) = held_by w ++ held ws

  -- Every message that was received is held or has been passed to sender.Send, each as often.
  abbrev pub Taken : BackgroundSender M → Type 0
  Taken s = Perm s.received (messages s.attempted ++ held s.workers)

  pub record Inv (s : BackgroundSender M) : Type 0 where
    pub fifo : s.accepted ≡ s.received ++ s.queue
    pub taken : Taken s
    pub ended : All (Ended s) s.workers
    pub phase : Phase s s.stopper

  held_middle :
      (before after : List (Worker M)) (w : Worker M)
      → held (before ++ w ∷ after) ≡ held before ++ (held_by w ++ held after)
  held_middle [] after w = refl
  held_middle (x ∷ before) after w =
      ap (λ l. held_by x ++ l) (held_middle before after w)
      ∙ sym (append_assoc (held_by x) (held before) (held_by w ++ held after))

  -- a worker that holds no message, before and after
  held_same :
      (before after : List (Worker M)) (w w' : Worker M)
      → held_by w ≡ held_by w'
      → held (before ++ w ∷ after) ≡ held (before ++ w' ∷ after)
  held_same before after w w' e =
      held_middle before after w
      ∙ ap (λ l. held before ++ (l ++ held after)) e
      ∙ sym (held_middle before after w')

  -- One more message is received, and held.
  taken_receive :
      {rs : List M} (as' bs cs : List M) (m : M)
      → Perm rs (as' ++ (bs ++ cs))
      → Perm (rs ++ m ∷ []) (as' ++ (bs ++ m ∷ cs))
  taken_receive {rs} as' bs cs m p = Perm.trans (perm_append_singleton m rs) (
      Perm.trans (Perm.cons m p) (
        Perm.trans (Perm.symm (perm_middle as' (bs ++ cs)))
          (Perm.append_left as' (Perm.symm (perm_middle bs cs)))))

  -- A message that is held is passed to sender.Send.
  taken_attempt :
      {rs : List M} (xs : List (M × Bool)) (bs cs : List M) (m : M) (b : Bool)
      → Perm rs (messages xs ++ (bs ++ m ∷ cs))
      → Perm rs (messages (xs ++ (m, b) ∷ []) ++ (bs ++ cs))
  taken_attempt xs bs cs m b p =
      let same : messages (xs ++ (m, b) ∷ []) ++ (bs ++ cs) ≡ messages xs ++ m ∷ (bs ++ cs) =
        simp (map-append, append_assoc) in
      subst (Perm _) (sym same) (Perm.trans p (Perm.append_left (messages xs) (perm_middle bs cs)))

  pub fifo_take : (xs : List M) (m : M) (q : List M) → xs ++ m ∷ q ≡ (xs ++ m ∷ []) ++ q
  fifo_take xs m q = sym (append_assoc xs (m ∷ []) q)

  fifo_push :
      {acc : List M} (xs : List M) (m : M) (q : List M)
      → acc ≡ xs ++ q
      → acc ++ m ∷ [] ≡ xs ++ (q ++ m ∷ [])
  fifo_push xs m q e = rw e (append_assoc xs q (m ∷ []))

  -- An ended worker has seen the queue closed and empty, so a step that finds it otherwise concerns
  -- no ended worker.
  pub Ended-step :
      (s t : BackgroundSender M) (ws : List (Worker M))
      → ((s.stopped ≡ true) × (s.queue ≡ []) → (t.stopped ≡ true) × (t.queue ≡ []))
      → All (Ended s) ws
      → All (Ended t) ws
  Ended-step s t [] f h = tt
  Ended-step s t (exited ∷ ws) f h = (f h.0, Ended-step s t ws f h.1)
  Ended-step s t (polling ∷ ws) f h = (tt, Ended-step s t ws f h.1)
  Ended-step s t (receiving ∷ ws) f h = (tt, Ended-step s t ws f h.1)
  Ended-step s t (holding m ∷ ws) f h = (tt, Ended-step s t ws f h.1)
  Ended-step s t (sending m ∷ ws) f h = (tt, Ended-step s t ws f h.1)

  Ended-replace :
      (t : BackgroundSender M) (before after : List (Worker M)) (w w' : Worker M)
      → Ended t w'
      → All (Ended t) (before ++ w ∷ after)
      → All (Ended t) (before ++ w' ∷ after)
  Ended-replace t [] after w w' n h = (n, h.1)
  Ended-replace t (x ∷ before) after w w' n h = (h.0, Ended-replace t before after w w' n h.1)

  -- a worker that is blocked in its receive holds the message afterwards
  abbrev HandedTo : M → List (Worker M) → List (Worker M) → Type 0
  HandedTo m ws ws' =
      (before : List (Worker M)) × (after : List (Worker M)) × (ws ≡ before ++ receiving ∷ after)
      × (ws' ≡ before ++ holding m ∷ after)

  HandedTo-later :
      (m : M) (w : Worker M) (ws ws' ws1 : List (Worker M))
      → w ∷ ws1 ≡ ws'
      → HandedTo m ws ws1
      → HandedTo m (w ∷ ws) ws'
  HandedTo-later m w ws ws' ws1 same (before, after, e, e') =
      (w ∷ before, after, ap (λ l. w ∷ l) e, sym same ∙ ap (λ l. w ∷ l) e')

  hand_to-HandedTo :
      (m : M) (ws : List (Worker M)) {ws' : List (Worker M)}
      → hand_to m ws ≡ some ws'
      → HandedTo m ws ws'
  unfolding hand_to
  hand_to-HandedTo m [] e = cc
  hand_to-HandedTo m (receiving ∷ ws) {ws'} e =
      let same : holding m ∷ ws ≡ ws' = ground arith in ([], ws, refl, sym same)
  hand_to-HandedTo m (polling ∷ ws) {ws'} e = elim (Option-cases (hand_to m ws)) [
    | inl nobody ↦ ground (arith, nobody)
    | inr (ws1, found) ↦
        HandedTo-later m polling ws ws' ws1 (ground (arith, found)) (hand_to-HandedTo m ws found)
  ]
  hand_to-HandedTo m (exited ∷ ws) {ws'} e = elim (Option-cases (hand_to m ws)) [
    | inl nobody ↦ ground (arith, nobody)
    | inr (ws1, found) ↦
        HandedTo-later m exited ws ws' ws1 (ground (arith, found)) (hand_to-HandedTo m ws found)
  ]
  hand_to-HandedTo m (holding n ∷ ws) {ws'} e = elim (Option-cases (hand_to m ws)) [
    | inl nobody ↦ ground (arith, nobody)
    | inr (ws1, found) ↦
        HandedTo-later m (holding n) ws ws' ws1 (ground (arith, found))
          (hand_to-HandedTo m ws found)
  ]
  hand_to-HandedTo m (sending n ∷ ws) {ws'} e = elim (Option-cases (hand_to m ws)) [
    | inl nobody ↦ ground (arith, nobody)
    | inr (ws1, found) ↦
        HandedTo-later m (sending n) ws ws' ws1 (ground (arith, found))
          (hand_to-HandedTo m ws found)
  ]

  -- the workers once one that held nothing holds a message, or holds nothing still
  receive-Taken :
      (s : BackgroundSender M) (before after : List (Worker M)) (w : Worker M) (m : M)
      → s.workers ≡ before ++ w ∷ after
      → held_by w ≡ []
      → Taken s
      → Perm (s.received ++ m ∷ []) (messages s.attempted ++ held (before ++ holding m ∷ after))
  receive-Taken s before after w m ew none_held taken =
      subst (λ l. Perm (s.received ++ m ∷ []) (messages s.attempted ++ l))
        (sym (held_middle before after (holding m)))
        (taken_receive (messages s.attempted) (held before) (held after) m (
          subst (λ l. Perm s.received (messages s.attempted ++ l))
            (ap held ew
              ∙ held_middle before after w
              ∙ ap (λ l. held before ++ (l ++ held after)) none_held)
            taken))

  pub same-Taken :
      (s : BackgroundSender M) (before after : List (Worker M)) (w w' : Worker M)
      → s.workers ≡ before ++ w ∷ after
      → held_by w ≡ held_by w'
      → Taken s
      → Perm s.received (messages s.attempted ++ held (before ++ w' ∷ after))
  same-Taken s before after w w' ew e taken =
      subst (λ l. Perm s.received (messages s.attempted ++ l))
        (ap held ew ∙ held_same before after w w' e) taken

  -- the worker that held `m` calls sender.Send with it
  pub attempt-Taken :
      (s : BackgroundSender M) (before after : List (Worker M)) (m : M) (b : Bool)
      → s.workers ≡ before ++ holding m ∷ after
      → Taken s
      → Perm s.received
          (messages (s.attempted ++ (m, b) ∷ []) ++ held (before ++ sending m ∷ after))
  attempt-Taken s before after m b ew taken =
      subst (λ l. Perm s.received (messages (s.attempted ++ (m, b) ∷ []) ++ l))
        (sym (held_middle before after (sending m)))
        (taken_attempt s.attempted (held before) (held after) m b (
          subst (λ l. Perm s.received (messages s.attempted ++ l))
            (ap held ew ∙ held_middle before after (holding m)) taken))

  -- while the queue is open nothing has been cancelled
  Phase-open :
      (s : BackgroundSender M) (st : Stopper)
      → Phase s st
      → s.stopped ≡ false
      → (st ≡ not_called) × (s.cancelled ≡ false) × All IsLive s.attempted
  Phase-open s not_called p open_queue = (refl, p.1, p.2)
  Phase-open s stop_waiting p open_queue = cc
  Phase-open s now_marked p open_queue = cc
  Phase-open s now_waiting p open_queue = cc
  Phase-open s stop_done p open_queue = cc
  Phase-open s now_done p open_queue = cc

  -- a state in which the queue is open, from its parts
  pub open_Inv :
      (s t : BackgroundSender M)
      → Inv s
      → s.stopped ≡ false
      → t.stopped ≡ s.stopped
      → t.cancelled ≡ s.cancelled
      → t.stopper ≡ s.stopper
      → t.accepted ≡ t.received ++ t.queue
      → Taken t
      → (s.cancelled ≡ false → All IsLive s.attempted → All IsLive t.attempted)
      → All (Ended s) t.workers
      → Inv t
  open_Inv s t v o es ec ep fifo taken live ended = record {
    fifo = fifo;
    taken = taken;
    ended = Ended-step s t t.workers (λ h. cc) ended;
    phase =
        let p = Phase-open s s.stopper v.phase o in
        subst (Phase t) (sym (ep ∙ p.0)) (es ∙ o, ec ∙ p.1, live p.1 p.2);
  }

  handed-Inv :
      (m : M) (s : BackgroundSender M) (o : Option (List (Worker M)))
      → hand_to m s.workers ≡ o
      → s.stopped ≡ false
      → s.queue ≡ []
      → Inv s
      → Inv (handed m o s).0
  unfolding handed
  handed-Inv m s none e o q v = v
  handed-Inv m s (some ws) e o q v =
      let (before, after, ew, ew') = hand_to-HandedTo m s.workers e in
      open_Inv s _ v o refl refl refl
        (fifo_push s.received m s.queue v.fifo ∙ rw q (sym (append-nil (s.received ++ m ∷ []))))
        (rw ew' (receive-Taken s before after receiving m ew refl v.taken)) (λ c live. live)
        (subst (All (Ended s)) (sym ew') (
          Ended-replace s before after receiving (holding m) tt (subst (All (Ended s)) ew v.ended)))

  enqueue-Inv :
      (m : M) (q : List M) (s : BackgroundSender M)
      → s.queue ≡ q
      → s.stopped ≡ false
      → Inv s
      → Inv (enqueue m q s).0
  unfolding enqueue
  enqueue-Inv m [] s e o v = elim (Bool-cases (ltb 0 s.buffer)) [
    | inl room ↦ rw room (
        open_Inv s (record s { queue = m ∷ []; accepted = s.accepted ++ m ∷ [] }) v o refl refl refl
          (fifo_push s.received m s.queue v.fifo ∙ ap (λ z. s.received ++ (z ++ m ∷ [])) e) v.taken
          (λ c live. live) v.ended)
    | inr full ↦ rw full (handed-Inv m s (hand_to m s.workers) refl o e v)
  ]
  enqueue-Inv m (x ∷ q) s e o v = elim (Bool-cases (ltb (length (x ∷ q)) s.buffer)) [
    | inl room ↦ rw room (
        open_Inv s (record s { queue = (x ∷ q) ++ m ∷ []; accepted = s.accepted ++ m ∷ [] }) v o
          refl refl refl
          (fifo_push s.received m s.queue v.fifo ∙ ap (λ z. s.received ++ (z ++ m ∷ [])) e) v.taken
          (λ c live. live) v.ended)
    | inr full ↦ rw full v
  ]

  pub try_send-Inv : (m : M) (s : BackgroundSender M) → Inv s → Inv (try_send m s).0
  unfolding try_send
  try_send-Inv m s v = elim (Bool-cases s.stopped) [
    | inl shut ↦
        subst
          (λ b. Inv (if b then (s, some (sentinel err_sender_stopped)) else enqueue m s.queue s).0)
          (sym shut) v
    | inr o ↦
        subst
          (λ b. Inv (if b then (s, some (sentinel err_sender_stopped)) else enqueue m s.queue s).0)
          (sym o) (enqueue-Inv m s.queue s refl o v)
  ]

  all_exited_middle :
      (before after : List (Worker M)) (w : Worker M)
      → all_exited (w ∷ []) ≡ false
      → all_exited (before ++ w ∷ after) ≡ false
  unfolding all_exited
  all_exited_middle [] after polling h = refl
  all_exited_middle [] after receiving h = refl
  all_exited_middle [] after (holding m) h = refl
  all_exited_middle [] after (sending m) h = refl
  all_exited_middle [] after exited h = cc
  all_exited_middle (exited ∷ before) after w h = all_exited_middle before after w h
  all_exited_middle (polling ∷ before) after w h = refl
  all_exited_middle (receiving ∷ before) after w h = refl
  all_exited_middle (holding m ∷ before) after w h = refl
  all_exited_middle (sending m ∷ before) after w h = refl

  Phase-awake :
      (s t : BackgroundSender M) (st : Stopper)
      → t.stopped ≡ s.stopped
      → t.cancelled ≡ s.cancelled
      → (s.cancelled ≡ false → All IsLive s.attempted → All IsLive t.attempted)
      → all_exited s.workers ≡ false
      → Phase s st
      → Phase t st
  Phase-awake s t not_called es ec live a p = (es ∙ p.0, ec ∙ p.1, live p.1 p.2)
  Phase-awake s t stop_waiting es ec live a p = (es ∙ p.0, ec ∙ p.1, live p.1 p.2)
  Phase-awake s t now_marked es ec live a p = es ∙ p
  Phase-awake s t now_waiting es ec live a p = es ∙ p
  Phase-awake s t stop_done es ec live a p = cc
  Phase-awake s t now_done es ec live a p = cc

  -- A step of a worker that has not ended, which becomes `w'`.
  module _ (s t : BackgroundSender M) (before after : List (Worker M)) (w w' : Worker M)
      (ew : s.workers ≡ before ++ w ∷ after) (awake : all_exited (w ∷ []) ≡ false) (v : Inv s) where
    pub awake_Inv :
        t.workers ≡ before ++ w' ∷ after
        → t.stopped ≡ s.stopped
        → t.cancelled ≡ s.cancelled
        → t.stopper ≡ s.stopper
        → t.accepted ≡ t.received ++ t.queue
        → Taken t
        → (s.cancelled ≡ false → All IsLive s.attempted → All IsLive t.attempted)
        → ((s.stopped ≡ true) × (s.queue ≡ []) → (t.stopped ≡ true) × (t.queue ≡ []))
        → Ended t w'
        → Inv t
    awake_Inv et es ec ep fifo taken live closed ended = record {
      fifo = fifo;
      taken = taken;
      ended = subst (All (Ended t)) (sym et) (
          Ended-replace t before after w w' ended
            (subst (All (Ended t)) ew (Ended-step s t s.workers closed v.ended)));
      phase = subst (Phase t) (sym ep) (
          Phase-awake s t s.stopper es ec live
            (ap all_exited ew ∙ all_exited_middle before after w awake) v.phase);
    }

    -- a receive: the queue, `q`, and whether it is closed, `c`
    pub receive-Inv :
        (q : List M) (c : Bool)
        → held_by w ≡ []
        → s.queue ≡ q
        → s.stopped ≡ c
        → w' ≡ (receive q c s).1
        → t ≡ record (receive q c s).0 { workers = before ++ w' ∷ after }
        → Inv t
    unfolding receive
    receive-Inv (m ∷ q) c nh eq es ew' et =
        awake_Inv (ap (λ x. x.workers) et) (ap (λ x. x.stopped) et) (ap (λ x. x.cancelled) et)
          (ap (λ x. x.stopper) et)
          (rw et (v.fifo ∙ ap (λ z. s.received ++ z) eq ∙ fifo_take s.received m q))
          (rw (et, ew') (receive-Taken s before after w m ew nh v.taken)) (λ c live. rw et live)
          (λ h. cc) (rw ew' tt)
    receive-Inv [] true nh eq es ew' et =
        awake_Inv (ap (λ x. x.workers) et) (ap (λ x. x.stopped) et) (ap (λ x. x.cancelled) et)
          (ap (λ x. x.stopper) et) (rw et v.fifo)
          (rw (et, ew') (same-Taken s before after w exited ew nh v.taken)) (λ c live. rw et live)
          (λ h. rw et h) (rw (et, ew') (es, eq))
    receive-Inv [] false nh eq es ew' et =
        awake_Inv (ap (λ x. x.workers) et) (ap (λ x. x.stopped) et) (ap (λ x. x.cancelled) et)
          (ap (λ x. x.stopper) et) (rw et v.fifo)
          (rw (et, ew') (same-Taken s before after w receiving ew nh v.taken))
          (λ c live. rw et live) (λ h. rw et h) (rw ew' tt)
