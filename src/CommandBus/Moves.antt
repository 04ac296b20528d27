-- ===== src/CommandBus/Moves.antt =====
-- Each step of the bus keeps the callers whose commands were enqueued.
use eventsourcing.Shared.{
  match_cases, ℕ, ◌≡◌, refl, sym, ap, ◌∙◌, String, string_eq, Bool, true, false, not, ◌&&◌, Option,
  none, some, List, [], ◌∷◌, ◌==◌, nat_eq, get_elem?, arith, if_cases,
}
use eventsourcing.Shared.Dict
use eventsourcing.CommandBus.{
  CommandBus, Caller, Worker, idle, exited, holds, handles, waiting, returned, Reply, Handled,
  Action, is_entering, is_waiting, dispatch, leave_closed, leave_ended, receive, abandon, end_ctx,
  exit, respond, checked, check_by, finish_by, taken, close_drain, register, enqueue, step, is_idle,
  is_empty, dispatches, enqueues, leaves_closed, leaves_ended, receives, abandons, ends_ctx, takes,
  checks, exits, finishes, closes_stop, closes_drain, adds, registers, reply_of, has_room,
  select_shard,
}
use eventsourcing.CommandBus.Callers.{at_caller_cases}
use eventsourcing.CommandBus.Onward.{
  is_closed, Clean, Onward, same-Onward, append-Onward, set-Onward, reply_of-clean, entering_out,
}

module _ {A X H : Type 0} where
  unfoldable pub Moves : CommandBus A X H → CommandBus A X H → Type 0
  Moves b b' = Onward b.callers b'.callers

  respond-Moves :
      (k : ℕ) (r : Reply X) (i : ℕ) (x : Caller A X) (b : CommandBus A X H)
      → get_elem? b.callers i ≡ some x
      → is_closed r ≡ false
      → Clean b.callers
      → Moves b (respond k r i x b)
  unfolding Moves
  respond-Moves k r i x b at other all =
      set-Onward b.callers i x (record x { reply = some r }) at (ground (arith, other)) (λ h. h) all

  enqueue-Moves :
      (hash : String → ℕ) (i : ℕ) (x : Caller A X) (b : CommandBus A X H)
      → get_elem? b.callers i ≡ some x
      → Clean b.callers
      → Moves b (enqueue hash i x b)
  unfolding enqueue Moves Clean
  enqueue-Moves hash i x b at all =
      if_cases (Moves b)
        (is_entering x && has_room hash b (select_shard hash b x.command.aggregate_id)) _ _
        (λ _.
          set-Onward b.callers i x (record x { progress = waiting }) at (all i x at) (λ _. refl)
            all)
        (λ _. same-Onward b.callers all)

  leave_closed-Moves :
      (i : ℕ) (x : Caller A X) (b : CommandBus A X H)
      → get_elem? b.callers i ≡ some x
      → Clean b.callers
      → Moves b (leave_closed i x b)
  unfolding leave_closed Moves Clean
  leave_closed-Moves i x b at all =
      if_cases (Moves b) (is_entering x && b.stop_closed) _ _
        (λ h.
          set-Onward b.callers i x _ at (all i x at)
            (λ went. absurd (ground (arith, went, entering_out x.progress (ground (arith, h)))))
            all)
        (λ _. same-Onward b.callers all)

  leave_ended-Moves :
      (i : ℕ) (x : Caller A X) (b : CommandBus A X H)
      → get_elem? b.callers i ≡ some x
      → Clean b.callers
      → Moves b (leave_ended i x b)
  unfolding leave_ended Moves Clean
  leave_ended-Moves i x b at all =
      if_cases (Moves b) (is_entering x && x.ended) _ _
        (λ h. set-Onward b.callers i x _ at (all i x at) (λ _. refl) all)
        (λ _. same-Onward b.callers all)

  receive-Moves :
      (i : ℕ) (x : Caller A X) (b : CommandBus A X H)
      → get_elem? b.callers i ≡ some x
      → Clean b.callers
      → Moves b (receive i x b)
  unfolding receive Moves Clean
  receive-Moves i x b at all =
      if_cases (Moves b) (is_waiting x) _ _
        (λ _.
          match_cases (Moves b) x.reply b _ (λ _. same-Onward b.callers all)
            (λ r e.
              set-Onward b.callers i x (record x { progress = returned r }) at (all i x at)
                (λ _.
                  sym (
                    ap
                      (λ (o : Option (Reply X)). elim o as (λ _. Bool) [
                        | none ↦ true
                        | some r ↦ not (is_closed r)
                      ])
                      e)
                  ∙ all i x at)
                all))
        (λ _. same-Onward b.callers all)

  abandon-Moves :
      (i : ℕ) (x : Caller A X) (b : CommandBus A X H)
      → get_elem? b.callers i ≡ some x
      → Clean b.callers
      → Moves b (abandon i x b)
  unfolding abandon Moves Clean
  abandon-Moves i x b at all =
      if_cases (Moves b) (is_waiting x && x.ended) _ _
        (λ h. set-Onward b.callers i x _ at (all i x at) (λ _. refl) all)
        (λ _. same-Onward b.callers all)

  checked-Moves :
      (k i : ℕ) (x : Caller A X) (b : CommandBus A X H)
      → get_elem? b.callers i ≡ some x
      → Clean b.callers
      → Moves b (checked k i x b)
  unfolding Moves
  checked-Moves k i x b at all =
      if_cases (Moves b) x.ended _ _ (λ _. respond-Moves k _ i x b at refl all)
        (λ _.
          match_cases (Moves b) (Dict.get b.handlers x.command.command_type) _ _
            (λ _. respond-Moves k _ i x b at refl all) (λ h _. same-Onward b.callers all))

  check_by-Moves :
      (k : ℕ) (w : Worker) (b : CommandBus A X H) → Clean b.callers → Moves b (check_by k w b)
  unfolding Moves
  check_by-Moves k idle b all = same-Onward b.callers all
  check_by-Moves k exited b all = same-Onward b.callers all
  check_by-Moves k (holds i) b all =
      at_caller_cases (Moves b) (checked k) i b (same-Onward b.callers all)
        (λ x at. checked-Moves k i x b at all)
  check_by-Moves k (handles i) b all = same-Onward b.callers all

  finish_by-Moves :
      (k : ℕ) (h : Handled X) (w : Worker) (b : CommandBus A X H)
      → Clean b.callers
      → Moves b (finish_by k h w b)
  unfolding Moves
  finish_by-Moves k h idle b all = same-Onward b.callers all
  finish_by-Moves k h exited b all = same-Onward b.callers all
  finish_by-Moves k h (holds i) b all = same-Onward b.callers all
  finish_by-Moves k h (handles i) b all =
      at_caller_cases (Moves b) (respond k (reply_of h)) i b (same-Onward b.callers all)
        (λ x at. respond-Moves k (reply_of h) i x b at (reply_of-clean h) all)

  end_ctx-Moves :
      (i : ℕ) (x : Caller A X) (b : CommandBus A X H)
      → get_elem? b.callers i ≡ some x
      → Clean b.callers
      → Moves b (end_ctx i x b)
  unfolding Moves Clean
  end_ctx-Moves i x b at all = set-Onward b.callers i x _ at (all i x at) (λ h. h) all

  taken-Moves :
      (k : ℕ) (w : Worker) (q : List ℕ) (b : CommandBus A X H)
      → Clean b.callers
      → Moves b (taken k w q b)
  unfolding Moves
  taken-Moves k idle [] b all = same-Onward b.callers all
  taken-Moves k idle (i ∷ is) b all = same-Onward b.callers all
  taken-Moves k exited q b all = same-Onward b.callers all
  taken-Moves k (holds i) q b all = same-Onward b.callers all
  taken-Moves k (handles i) q b all = same-Onward b.callers all

  pub step-Moves :
      (hash : String → ℕ) (a : Action A X H) (b : CommandBus A X H)
      → Clean b.callers
      → Moves b (step hash a b)
  unfolding dispatch exit close_drain register Moves
  step-Moves hash (dispatches cmd) b all =
      if_cases (Moves b) b.stop_closed _ _ (λ _. append-Onward b.callers _ refl all)
        (λ _. append-Onward b.callers _ refl all)
  step-Moves hash (enqueues i) b all =
      at_caller_cases (Moves b) (enqueue hash) i b (same-Onward b.callers all)
        (λ x at. enqueue-Moves hash i x b at all)
  step-Moves hash (leaves_closed i) b all =
      at_caller_cases (Moves b) leave_closed i b (same-Onward b.callers all)
        (λ x at. leave_closed-Moves i x b at all)
  step-Moves hash (leaves_ended i) b all =
      at_caller_cases (Moves b) leave_ended i b (same-Onward b.callers all)
        (λ x at. leave_ended-Moves i x b at all)
  step-Moves hash (receives i) b all =
      at_caller_cases (Moves b) receive i b (same-Onward b.callers all)
        (λ x at. receive-Moves i x b at all)
  step-Moves hash (abandons i) b all =
      at_caller_cases (Moves b) abandon i b (same-Onward b.callers all)
        (λ x at. abandon-Moves i x b at all)
  step-Moves hash (ends_ctx i) b all =
      at_caller_cases (Moves b) end_ctx i b (same-Onward b.callers all)
        (λ x at. end_ctx-Moves i x b at all)
  step-Moves hash (takes k) b all = taken-Moves k (b.workers k) (b.queues k) b all
  step-Moves hash (checks k) b all = check_by-Moves k (b.workers k) b all
  step-Moves hash (exits k) b all =
      if_cases (Moves b) (is_idle (b.workers k) && b.drain_closed && is_empty (b.queues k)) _ _
        (λ _. same-Onward b.callers all) (λ _. same-Onward b.callers all)
  step-Moves hash (finishes k h) b all = finish_by-Moves k h (b.workers k) b all
  step-Moves hash closes_stop b all = same-Onward b.callers all
  step-Moves hash closes_drain b all =
      if_cases (Moves b) (b.stop_closed && b.enqueue_wg == 0) _ _ (λ _. same-Onward b.callers all)
        (λ _. same-Onward b.callers all)
  step-Moves hash (adds ms) b all = same-Onward b.callers all
  step-Moves hash (registers name h) b all =
      match_cases (λ (o : Option (CommandBus A X H)). Moves b (elim o [ none ↦ b | some b' ↦ b' ]))
        (Dict.get b.handlers name) _ _ (λ _. same-Onward b.callers all)
        (λ _ _. same-Onward b.callers all)
