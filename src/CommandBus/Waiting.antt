-- ===== src/CommandBus/Waiting.antt =====
-- Each step of the bus keeps the command of a waiting Dispatch with its shard.
use eventsourcing.Shared.{
  get-append, match_cases, update, update_cases, ℕ, ◌≡◌, refl, sym, ap, ◌∙◌, subst, String,
  string_eq, true, ◌||◌, ◌&&◌, Option, none, some, List, [], ◌∷◌, ◌++◌, ◌==◌, nat_eq, get_elem?,
  arith, if_cases, beq_refl, inl, inr,
}
use eventsourcing.Shared.Dict
use eventsourcing.CommandBus.{
  CommandBus, Caller, Command, Worker, idle, exited, holds, handles, waiting, returned, Reply,
  Handled, Action, is_entering, is_waiting, set_caller, dispatch, leave_closed, leave_ended,
  receive, abandon, end_ctx, exit, respond, checked, check_by, finish_by, taken, close_drain,
  register, enqueue, step, run, is_idle, is_empty, dispatches, enqueues, leaves_closed,
  leaves_ended, receives, abandons, ends_ctx, takes, checks, exits, finishes, closes_stop,
  closes_drain, adds, registers, reply_of, has_room, select_shard,
}
use eventsourcing.CommandBus.Callers.{at_caller_cases}
use eventsourcing.CommandBus.Shards.{
  has, with_shard, is_some, Waits, set-Waits, move-Waits, grows, lands, moves, not_idle,
}

module _ {A X H : Type 0} (hash : String → ℕ) where
  unfoldable pub WaitsIn : CommandBus A X H → Type 0
  WaitsIn b = Waits hash b.shard_count b.callers b.queues b.workers

  -- A caller that returns.
  returned-WaitsIn :
      (i : ℕ) (x : Caller A X) (r : Reply X) (b : CommandBus A X H)
      → WaitsIn b
      → WaitsIn (set_caller i (record x { progress = returned r }) b)
  unfolding WaitsIn
  returned-WaitsIn i x r b waits =
      set-Waits hash b.shard_count b.callers b.queues b.queues b.workers b.workers i
        (record x { progress = returned r }) (λ j k other h. h) (λ h. absurd (ground (arith, h)))
        waits

  dispatch-WaitsIn : (cmd : Command A) (b : CommandBus A X H) → WaitsIn b → WaitsIn (dispatch cmd b)
  unfolding dispatch WaitsIn Waits
  dispatch-WaitsIn cmd b waits =
      if_cases WaitsIn b.stop_closed _ _
        (λ _ i c at h. elim (get-append b.callers i _ at) [
          | inl new ↦ absurd (ground (arith, h, ap (λ (z : Caller A X). is_waiting z) new))
          | inr old ↦ waits i c old h
        ])
        (λ _ i c at h. elim (get-append b.callers i _ at) [
          | inl new ↦ absurd (ground (arith, h, ap (λ (z : Caller A X). is_waiting z) new))
          | inr old ↦ waits i c old h
        ])

  enqueue-WaitsIn :
      (i : ℕ) (x : Caller A X) (b : CommandBus A X H) → WaitsIn b → WaitsIn (enqueue hash i x b)
  unfolding enqueue WaitsIn
  enqueue-WaitsIn i x b waits =
      let k = select_shard hash b x.command.aggregate_id in
      if_cases WaitsIn (is_entering x && has_room hash b k) _ _
        (λ _.
          set-Waits hash b.shard_count b.callers b.queues (update b.queues k (b.queues k ++ i ∷ []))
            b.workers b.workers i (record x { progress = waiting })
            (λ j s other.
              update_cases
                (λ q.
                  with_shard (b.queues s) (b.workers s) j ≡ true
                  → with_shard q (b.workers s) j ≡ true)
                b.queues k s (b.queues k ++ i ∷ [])
                (λ here h.
                  grows i j (b.queues k) (b.workers s) (
                    subst (λ (n : ℕ). with_shard (b.queues n) (b.workers s) j ≡ true) (sym here) h))
                (λ _ h. h))
            (λ _.
              update_cases (λ q. (is_some x.reply || with_shard q (b.workers k) i) ≡ true) b.queues
                k k (b.queues k ++ i ∷ [])
                (λ here. ground (arith, lands i (b.queues k) (b.workers k)))
                (λ apart. absurd (ground (arith, apart, beq_refl k))))
            waits)
        (λ _. waits)

  receive-WaitsIn :
      (i : ℕ) (x : Caller A X) (b : CommandBus A X H) → WaitsIn b → WaitsIn (receive i x b)
  unfolding receive WaitsIn
  receive-WaitsIn i x b waits =
      if_cases WaitsIn (is_waiting x) _ _
        (λ _. match_cases WaitsIn x.reply b _ (λ _. waits) (λ r _. returned-WaitsIn i x r b waits))
        (λ _. waits)

  taken-WaitsIn :
      (k : ℕ) (w : Worker) (q : List ℕ) (b : CommandBus A X H)
      → b.workers k ≡ w
      → b.queues k ≡ q
      → WaitsIn b
      → WaitsIn (taken k w q b)
  unfolding WaitsIn
  taken-WaitsIn k idle [] b ew eq waits = waits
  taken-WaitsIn k idle (i ∷ is) b ew eq waits =
      move-Waits hash b.shard_count b.callers b.queues (update b.queues k is) b.workers
        (update b.workers k (holds i))
        (λ j s h.
          if_cases (λ (q : List ℕ). with_shard q (update b.workers k (holds i) s) j ≡ true) (k == s)
            is (b.queues s)
            (λ here.
              let e : k ≡ s = (nat_eq.equal_iff k s).1 here in
              let was : with_shard (b.queues k) (b.workers k) j ≡ true =
                subst (λ (m : ℕ). with_shard (b.queues m) (b.workers m) j ≡ true) (sym e) h in
              subst (λ (m : ℕ). with_shard is (update b.workers k (holds i) m) j ≡ true) e
                (rw (beq_refl k) (moves i j is (rw (eq, ew) at was))))
            (λ there. rw (there) h))
        waits
  taken-WaitsIn k exited q b ew eq waits = waits
  taken-WaitsIn k (holds i) q b ew eq waits = waits
  taken-WaitsIn k (handles i) q b ew eq waits = waits

  leave_closed-WaitsIn :
      (i : ℕ) (x : Caller A X) (b : CommandBus A X H) → WaitsIn b → WaitsIn (leave_closed i x b)
  unfolding leave_closed WaitsIn
  leave_closed-WaitsIn i x b waits =
      if_cases WaitsIn (is_entering x && b.stop_closed) _ _ (λ _. returned-WaitsIn i x _ b waits)
        (λ _. waits)

  leave_ended-WaitsIn :
      (i : ℕ) (x : Caller A X) (b : CommandBus A X H) → WaitsIn b → WaitsIn (leave_ended i x b)
  unfolding leave_ended WaitsIn
  leave_ended-WaitsIn i x b waits =
      if_cases WaitsIn (is_entering x && x.ended) _ _ (λ _. returned-WaitsIn i x _ b waits)
        (λ _. waits)

  abandon-WaitsIn :
      (i : ℕ) (x : Caller A X) (b : CommandBus A X H) → WaitsIn b → WaitsIn (abandon i x b)
  unfolding abandon WaitsIn
  abandon-WaitsIn i x b waits =
      if_cases WaitsIn (is_waiting x && x.ended) _ _ (λ _. returned-WaitsIn i x _ b waits)
        (λ _. waits)

  end_ctx-WaitsIn :
      (i : ℕ) (x : Caller A X) (b : CommandBus A X H)
      → get_elem? b.callers i ≡ some x
      → WaitsIn b
      → WaitsIn (end_ctx i x b)
  unfolding WaitsIn Waits
  end_ctx-WaitsIn i x b at waits =
      set-Waits hash b.shard_count b.callers b.queues b.queues b.workers b.workers i
        (record x { ended = true }) (λ j k other h. h) (λ h. waits i x at h) waits

  -- A worker that goes from one state to another keeps what it has.
  work-WaitsIn :
      (k : ℕ) (v : Worker) (b : CommandBus A X H)
      → ((j : ℕ) → has (b.workers k) j ≡ true → has v j ≡ true)
      → WaitsIn b
      → WaitsIn (record b { workers = update b.workers k v })
  unfolding WaitsIn
  work-WaitsIn k v b keeps waits =
      move-Waits hash b.shard_count b.callers b.queues b.queues b.workers (update b.workers k v)
        (λ j s h.
          update_cases (λ w. with_shard (b.queues s) w j ≡ true) b.workers k s v
            (λ here. ground (arith, h, keeps j, ap (λ (m : ℕ). has (b.workers m) j) here)) (λ _. h))
        waits

  respond-WaitsIn :
      (k : ℕ) (r : Reply X) (i : ℕ) (x : Caller A X) (b : CommandBus A X H)
      → ((j : ℕ) → has (b.workers k) j ≡ (i == j))
      → WaitsIn b
      → WaitsIn (respond k r i x b)
  unfolding WaitsIn
  respond-WaitsIn k r i x b mine waits =
      set-Waits hash b.shard_count b.callers b.queues b.queues b.workers (update b.workers k idle) i
        (record x { reply = some r })
        (λ j s other h.
          update_cases (λ w. with_shard (b.queues s) w j ≡ true) b.workers k s idle
            (λ here. ground (arith, h, other, mine j, ap (λ (m : ℕ). has (b.workers m) j) here))
            (λ _. h))
        (λ _. refl) waits

  exit-WaitsIn : (k : ℕ) (b : CommandBus A X H) → WaitsIn b → WaitsIn (exit k b)
  unfolding exit WaitsIn
  exit-WaitsIn k b waits =
      if_cases WaitsIn (is_idle (b.workers k) && b.drain_closed && is_empty (b.queues k)) _ _
        (λ h.
          work-WaitsIn k exited b
            (λ j mine. absurd (not_idle (b.workers k) j mine (ground (arith, h)))) waits)
        (λ _. waits)

  checked-WaitsIn :
      (k i : ℕ) (x : Caller A X) (b : CommandBus A X H)
      → ((j : ℕ) → has (b.workers k) j ≡ (i == j))
      → WaitsIn b
      → WaitsIn (checked k i x b)
  unfolding WaitsIn
  checked-WaitsIn k i x b mine waits =
      if_cases WaitsIn x.ended _ _ (λ _. respond-WaitsIn k _ i x b mine waits)
        (λ _.
          match_cases WaitsIn (Dict.get b.handlers x.command.command_type) _ _
            (λ _. respond-WaitsIn k _ i x b mine waits)
            (λ h _. work-WaitsIn k (handles i) b (λ j m. sym (mine j) ∙ m) waits))

  check_by-WaitsIn :
      (k : ℕ) (w : Worker) (b : CommandBus A X H)
      → b.workers k ≡ w
      → WaitsIn b
      → WaitsIn (check_by k w b)
  check_by-WaitsIn k idle b e waits = waits
  check_by-WaitsIn k exited b e waits = waits
  check_by-WaitsIn k (holds i) b e waits =
      at_caller_cases WaitsIn (checked k) i b waits
        (λ x at. checked-WaitsIn k i x b (λ j. ap (λ (w : Worker). has w j) e) waits)
  check_by-WaitsIn k (handles i) b e waits = waits

  finish_by-WaitsIn :
      (k : ℕ) (x : Handled X) (w : Worker) (b : CommandBus A X H)
      → b.workers k ≡ w
      → WaitsIn b
      → WaitsIn (finish_by k x w b)
  finish_by-WaitsIn k x idle b e waits = waits
  finish_by-WaitsIn k x exited b e waits = waits
  finish_by-WaitsIn k x (holds i) b e waits = waits
  finish_by-WaitsIn k x (handles i) b e waits =
      at_caller_cases WaitsIn (respond k (reply_of x)) i b waits
        (λ y at. respond-WaitsIn k (reply_of x) i y b (λ j. ap (λ (w : Worker). has w j) e) waits)

  register-WaitsIn :
      (name : String) (h : H) (b b' : CommandBus A X H)
      → register name h b ≡ some b'
      → WaitsIn b
      → WaitsIn b'
  unfolding register WaitsIn
  register-WaitsIn name h b b' =
      match_cases (λ (o : Option (CommandBus A X H)). o ≡ some b' → WaitsIn b → WaitsIn b')
        (Dict.get b.handlers name) _ _
        (λ new e waits.
          subst (λ (o : Option (CommandBus A X H)). elim o [ none ↦ Unit | some z ↦ WaitsIn z ]) e
            waits)
        (λ _ _ e. absurd (ground (arith, e)))

  step-WaitsIn : (a : Action A X H) (b : CommandBus A X H) → WaitsIn b → WaitsIn (step hash a b)
  unfolding close_drain WaitsIn
  step-WaitsIn (dispatches cmd) b waits = dispatch-WaitsIn cmd b waits
  step-WaitsIn (enqueues i) b waits =
      at_caller_cases WaitsIn (enqueue hash) i b waits (λ x _. enqueue-WaitsIn i x b waits)
  step-WaitsIn (leaves_closed i) b waits =
      at_caller_cases WaitsIn leave_closed i b waits (λ x _. leave_closed-WaitsIn i x b waits)
  step-WaitsIn (leaves_ended i) b waits =
      at_caller_cases WaitsIn leave_ended i b waits (λ x _. leave_ended-WaitsIn i x b waits)
  step-WaitsIn (receives i) b waits =
      at_caller_cases WaitsIn receive i b waits (λ x _. receive-WaitsIn i x b waits)
  step-WaitsIn (abandons i) b waits =
      at_caller_cases WaitsIn abandon i b waits (λ x _. abandon-WaitsIn i x b waits)
  step-WaitsIn (ends_ctx i) b waits =
      at_caller_cases WaitsIn end_ctx i b waits (λ x at. end_ctx-WaitsIn i x b at waits)
  step-WaitsIn (takes k) b waits = taken-WaitsIn k (b.workers k) (b.queues k) b refl refl waits
  step-WaitsIn (checks k) b waits = check_by-WaitsIn k (b.workers k) b refl waits
  step-WaitsIn (exits k) b waits = exit-WaitsIn k b waits
  step-WaitsIn (finishes k x) b waits = finish_by-WaitsIn k x (b.workers k) b refl waits
  step-WaitsIn closes_stop b waits = waits
  step-WaitsIn closes_drain b waits =
      if_cases WaitsIn (b.stop_closed && b.enqueue_wg == 0) _ _ (λ _. waits) (λ _. waits)
  step-WaitsIn (adds m) b waits = waits
  step-WaitsIn (registers name h) b waits =
      match_cases WaitsIn (register name h b) b _ (λ _. waits)
        (λ b' e. register-WaitsIn name h b b' e waits)

  pub run-WaitsIn :
      (actions : List (Action A X H)) (b : CommandBus A X H)
      → WaitsIn b
      → WaitsIn (run hash actions b)
  unfolding run
  run-WaitsIn [] b waits = waits
  run-WaitsIn (a ∷ rest) b waits = run-WaitsIn rest (step hash a b) (step-WaitsIn a b waits)
