-- ===== src/CommandBus/Counting.antt =====
-- Each step of the bus keeps its wait groups right.
use eventsourcing.Shared.{
  count-get, match_cases, update, update_cases, ℕ, ℤ, ◌-◌, ◌≡◌, refl, sym, ap, ◌∙◌, subst, String,
  string_eq, true, ◌&&◌, Option, none, some, List, [], ◌∷◌, ◌++◌, ◌==◌, nat_eq, get_elem?, arith,
  if_cases,
}
use eventsourcing.Shared.Dict
use eventsourcing.CommandBus.{
  CommandBus, Caller, Worker, idle, exited, holds, handles, waiting, returned, Reply, Handled,
  Action, is_entering, is_waiting, set_caller, leave, leave_closed, leave_ended, return, receive,
  abandon, end_ctx, exit, respond, checked, check_by, finish_by, taken, bus_closed, ctx_ended,
  close_drain, register, enqueue, step, run, new_command_bus, BusError, is_idle, is_empty,
  dispatches, enqueues, leaves_closed, leaves_ended, receives, abandons, ends_ctx, takes, checks,
  exits, finishes, closes_stop, closes_drain, adds, registers, reply_of, has_room, select_shard,
}
use eventsourcing.CommandBus.Callers.{at_caller_cases}
use eventsourcing.CommandBus.Counted.{
  is_exited, Counted, waits_only, other_gone, set-Counted, work-Counted, dispatch-Counted,
}

module _ {A X H : Type 0} where
  leave-Counted :
      (e : BusError X) (i : ℕ) (x : Caller A X) (b : CommandBus A X H)
      → get_elem? b.callers i ≡ some x
      → is_entering x ≡ true
      → Counted b
      → Counted (leave e i x b)
  leave-Counted e i x b at enters c =
      set-Counted i x (record x { progress = returned _ }) b 1 1 _ _ at (ground (arith, enters))
        (ground (arith, enters)) refl refl c

  return-Counted :
      (r : Reply X) (i : ℕ) (x : Caller A X) (b : CommandBus A X H)
      → get_elem? b.callers i ≡ some x
      → is_waiting x ≡ true
      → Counted b
      → Counted (return r i x b)
  return-Counted r i x b at waits c =
      let enters = waits_only x waits in
      set-Counted i x (record x { progress = returned r }) b 1 0 _ _ at
        (ground (arith, waits, enters)) (ground (arith, enters)) refl (omega arith) c

  respond-Counted :
      (k : ℕ) (r : Reply X) (i : ℕ) (x : Caller A X) (b : CommandBus A X H)
      → get_elem? b.callers i ≡ some x
      → Counted b
      → Counted (respond k r i x b)
  respond-Counted k r i x b at c =
      work-Counted (update b.workers k idle) b.queues (set_caller i (record x { reply = some r }) b)
        (λ j h. ((other_gone b.workers k j idle refl h).0, refl))
        (set-Counted i x (record x { reply = some r }) b 0 0 _ _ at (omega arith) (omega arith)
          (omega arith) (omega arith) c)

  enqueue-Counted :
      (hash : String → ℕ) (i : ℕ) (x : Caller A X) (b : CommandBus A X H)
      → get_elem? b.callers i ≡ some x
      → Counted b
      → Counted (enqueue hash i x b)
  unfolding enqueue
  enqueue-Counted hash i x b at c =
      let k = select_shard hash b x.command.aggregate_id in
      if_cases Counted (is_entering x && has_room hash b k) _ _
        (λ h.
          let enters : is_entering x ≡ true = ground (arith, h) in
          work-Counted b.workers (update b.queues k (b.queues k ++ i ∷ []))
            (record (set_caller i (record x { progress = waiting }) b) {
              enqueue_wg = b.enqueue_wg - 1;
            })
            (λ j left. absurd (
              count-get is_entering b.callers i x at enters
                (omega (arith, c.enqueue_wg, (c.drained (c.gone j left).1).1))))
            (set-Counted i x (record x { progress = waiting }) b 0 1 _ _ at (ground (arith, enters))
              (ground (arith, enters)) (omega arith) refl c))
        (λ _. c)

  leave_closed-Counted :
      (i : ℕ) (x : Caller A X) (b : CommandBus A X H)
      → get_elem? b.callers i ≡ some x
      → Counted b
      → Counted (leave_closed i x b)
  unfolding leave_closed
  leave_closed-Counted i x b at c =
      if_cases Counted (is_entering x && b.stop_closed) _ _
        (λ h. leave-Counted bus_closed i x b at (ground (arith, h)) c) (λ _. c)

  leave_ended-Counted :
      (i : ℕ) (x : Caller A X) (b : CommandBus A X H)
      → get_elem? b.callers i ≡ some x
      → Counted b
      → Counted (leave_ended i x b)
  unfolding leave_ended
  leave_ended-Counted i x b at c =
      if_cases Counted (is_entering x && x.ended) _ _
        (λ h. leave-Counted ctx_ended i x b at (ground (arith, h)) c) (λ _. c)

  receive-Counted :
      (i : ℕ) (x : Caller A X) (b : CommandBus A X H)
      → get_elem? b.callers i ≡ some x
      → Counted b
      → Counted (receive i x b)
  unfolding receive
  receive-Counted i x b at c =
      if_cases Counted (is_waiting x) _ _
        (λ waits.
          match_cases Counted x.reply b _ (λ _. c) (λ r _. return-Counted r i x b at waits c))
        (λ _. c)

  abandon-Counted :
      (i : ℕ) (x : Caller A X) (b : CommandBus A X H)
      → get_elem? b.callers i ≡ some x
      → Counted b
      → Counted (abandon i x b)
  unfolding abandon
  abandon-Counted i x b at c =
      if_cases Counted (is_waiting x && x.ended) _ _
        (λ h. return-Counted _ i x b at (ground (arith, h)) c) (λ _. c)

  taken-Counted :
      (k : ℕ) (w : Worker) (q : List ℕ) (b : CommandBus A X H) → Counted b → Counted (taken k w q b)
  taken-Counted k idle [] b c = c
  taken-Counted k idle (i ∷ is) b c =
      work-Counted (update b.workers k (holds i)) (update b.queues k is) b
        (λ j h.
          let (left, other) = other_gone b.workers k j (holds i) refl h in (left, rw (other) refl))
        c
  taken-Counted k exited q b c = c
  taken-Counted k (holds i) q b c = c
  taken-Counted k (handles i) q b c = c

  exit-Counted : (k : ℕ) (b : CommandBus A X H) → Counted b → Counted (exit k b)
  unfolding exit
  exit-Counted k b c =
      if_cases Counted (is_idle (b.workers k) && b.drain_closed && is_empty (b.queues k)) _ _
        (λ h. record {
          wg = c.wg;
          enqueue_wg = c.enqueue_wg;
          drained = c.drained;
          gone = λ j.
              update_cases
                (λ v. is_exited v ≡ true → (is_empty (b.queues j) ≡ true) × (b.drain_closed ≡ true))
                b.workers k j exited
                (λ e _.
                  (ap (λ n. is_empty (b.queues n)) (sym e) ∙ ground (arith, h), ground (arith, h)))
                (λ _ left. c.gone j left);
        })
        (λ _. c)

  checked-Counted :
      (k i : ℕ) (x : Caller A X) (b : CommandBus A X H)
      → get_elem? b.callers i ≡ some x
      → Counted b
      → Counted (checked k i x b)
  checked-Counted k i x b at c =
      if_cases Counted x.ended _ _ (λ _. respond-Counted k _ i x b at c)
        (λ _.
          match_cases Counted (Dict.get b.handlers x.command.command_type) _ _
            (λ _. respond-Counted k _ i x b at c)
            (λ h _.
              work-Counted (update b.workers k (handles i)) b.queues b
                (λ j left. ((other_gone b.workers k j (handles i) refl left).0, refl)) c))

  check_by-Counted :
      (k : ℕ) (w : Worker) (b : CommandBus A X H) → Counted b → Counted (check_by k w b)
  check_by-Counted k idle b c = c
  check_by-Counted k exited b c = c
  check_by-Counted k (holds i) b c =
      at_caller_cases Counted (checked k) i b c (λ x at. checked-Counted k i x b at c)
  check_by-Counted k (handles i) b c = c

  finish_by-Counted :
      (k : ℕ) (x : Handled X) (w : Worker) (b : CommandBus A X H)
      → Counted b
      → Counted (finish_by k x w b)
  finish_by-Counted k x idle b c = c
  finish_by-Counted k x exited b c = c
  finish_by-Counted k x (holds i) b c = c
  finish_by-Counted k x (handles i) b c =
      at_caller_cases Counted (respond k (reply_of x)) i b c
        (λ y at. respond-Counted k (reply_of x) i y b at c)

  close_drain-Counted : (b : CommandBus A X H) → Counted b → Counted (close_drain b)
  unfolding close_drain
  close_drain-Counted b c =
      if_cases Counted (b.stop_closed && b.enqueue_wg == 0) _ _
        (λ h. record {
          wg = c.wg;
          enqueue_wg = c.enqueue_wg;
          drained = λ _. (ground (arith, h), ground (arith, h));
          gone = λ j left. ((c.gone j left).0, refl);
        })
        (λ _. c)

  register-Counted :
      (name : String) (h : H) (b b' : CommandBus A X H)
      → register name h b ≡ some b'
      → Counted b
      → Counted b'
  unfolding register
  register-Counted name h b b' =
      match_cases (λ (o : Option (CommandBus A X H)). o ≡ some b' → Counted b → Counted b')
        (Dict.get b.handlers name) _ _
        (λ new e c.
          subst (λ (o : Option (CommandBus A X H)). elim o [ none ↦ Unit | some z ↦ Counted z ]) e
            (record { wg = c.wg; enqueue_wg = c.enqueue_wg; drained = c.drained; gone = c.gone }))
        (λ _ _ e. absurd (ground (arith, e)))

module _ {A X H : Type 0} (hash : String → ℕ) where
  step-Counted : (a : Action A X H) (b : CommandBus A X H) → Counted b → Counted (step hash a b)
  step-Counted (dispatches cmd) b c = dispatch-Counted cmd b c
  step-Counted (enqueues i) b c =
      at_caller_cases Counted (enqueue hash) i b c (λ x at. enqueue-Counted hash i x b at c)
  step-Counted (leaves_closed i) b c =
      at_caller_cases Counted leave_closed i b c (λ x at. leave_closed-Counted i x b at c)
  step-Counted (leaves_ended i) b c =
      at_caller_cases Counted leave_ended i b c (λ x at. leave_ended-Counted i x b at c)
  step-Counted (receives i) b c =
      at_caller_cases Counted receive i b c (λ x at. receive-Counted i x b at c)
  step-Counted (abandons i) b c =
      at_caller_cases Counted abandon i b c (λ x at. abandon-Counted i x b at c)
  step-Counted (ends_ctx i) b c = at_caller_cases Counted end_ctx i b c (λ x at.
      set-Counted i x (record x { ended = true }) b 0 0 b.wg b.enqueue_wg at (omega arith)
        (omega arith) (omega arith) (omega arith) c)
  step-Counted (takes k) b c = taken-Counted k (b.workers k) (b.queues k) b c
  step-Counted (checks k) b c = check_by-Counted k (b.workers k) b c
  step-Counted (exits k) b c = exit-Counted k b c
  step-Counted (finishes k x) b c = finish_by-Counted k x (b.workers k) b c
  step-Counted closes_stop b c = record {
    wg = c.wg;
    enqueue_wg = c.enqueue_wg;
    drained = λ h. (refl, (c.drained h).1);
    gone = c.gone;
  }
  step-Counted closes_drain b c = close_drain-Counted b c
  step-Counted (adds m) b c = record {
    wg = c.wg;
    enqueue_wg = c.enqueue_wg;
    drained = c.drained;
    gone = c.gone;
  }
  step-Counted (registers name h) b c =
      match_cases Counted (register name h b) b _ (λ _. c)
        (λ b' e. register-Counted name h b b' e c)

  pub run-Counted :
      (actions : List (Action A X H)) (b : CommandBus A X H)
      → Counted b
      → Counted (run hash actions b)
  unfolding run
  run-Counted [] b c = c
  run-Counted (a ∷ rest) b c = run-Counted rest (step hash a b) (step-Counted a b c)

  pub new_command_bus-Counted :
      (buffer : ℕ) (shards : ℤ) → Counted {A = A} {X = X} {H = H} (new_command_bus buffer shards)
  unfolding new_command_bus
  new_command_bus-Counted buffer shards = record {
    wg = refl;
    enqueue_wg = refl;
    drained = λ h. absurd (ground (arith, h));
    gone = λ k h. absurd (ground (arith, h));
  }
