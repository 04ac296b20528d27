-- ===== src/CommandBus/Order.antt =====
-- The order of the commands of a shard, from their enqueueing to their replies.
use eventsourcing.Shared.{
  match_cases, update, ℕ, ℤ, pos, negsuc, max, zero, suc, ◌%◌, ◌≡◌, refl, sym, ap, ◌∙◌, String,
  string_eq, Bool, true, false, ◌&&◌, Option, none, some, List, [], ◌∷◌, ◌++◌, ◌==◌, nat_eq,
  append-nil, append_assoc, get_elem?, set_elem, keep, if◌then◌else◌, if_cases, Bool-cases, inl,
  inr, arith,
}
use eventsourcing.Shared.Dict
use eventsourcing.CommandBus.{
  CommandBus, Caller, Worker, idle, exited, holds, handles, Handled, Action, is_entering,
  is_waiting, dispatch, leave_closed, leave_ended, receive, abandon, end_ctx, exit, respond, Reply,
  checked, check_by, finish_by, taken, close_drain, register, enqueue, step, run, new_command_bus,
  is_idle, is_empty, dispatches, enqueues, leaves_closed, leaves_ended, receives, abandons,
  ends_ctx, takes, checks, exits, finishes, closes_stop, closes_drain, adds, registers, reply_of,
  has_room, select_shard, waiting, clamp,
}
use eventsourcing.CommandBus.Callers.{at_caller_cases}
use eventsourcing.CommandBus.Counted.{waits_only}

-- The command that a worker has taken and not answered.
abbrev pub at_worker : Worker → List ℕ
at_worker idle = []
at_worker exited = []
at_worker (holds i) = i ∷ []
at_worker (handles i) = i ∷ []

abbrev has_reply : {A X : Type 0} → Option (Caller A X) → Bool
has_reply none = false
has_reply (some c) = elim c.reply [ none ↦ false | some _ ↦ true ]

-- The command that the worker has let go of, if its response channel has a reply.
abbrev pub answer : {A X : Type 0} → Worker → Worker → List (Caller A X) → List ℕ
answer w idle callers = keep (λ i. has_reply (get_elem? callers i)) (at_worker w)
answer w exited callers = []
answer w (holds i) callers = []
answer w (handles i) callers = []

get-set_elem_self :
    {C : Type 0} (xs : List C) (i : ℕ) (x y : C)
    → get_elem? xs i ≡ some x
    → get_elem? (set_elem xs i y) i ≡ some y
get-set_elem_self [] i x y h = cc
get-set_elem_self (z ∷ xs) zero x y h = refl
get-set_elem_self (z ∷ xs) (suc i) x y h = get-set_elem_self xs i x y h

idle_lem : (w : Worker) → is_idle w ≡ true → at_worker w ≡ []
idle_lem idle h = refl
idle_lem exited h = refl
idle_lem (holds i) h = absurd (ground (arith, h))
idle_lem (handles i) h = absurd (ground (arith, h))

stays :
    {A X : Type 0} (w : Worker) (q : List ℕ) (callers : List (Caller A X))
    → (at_worker w ++ q) ++ [] ≡ answer w w callers ++ (at_worker w ++ q)
stays idle q callers = append-nil q
stays exited q callers = append-nil q
stays (holds i) q callers = append-nil (i ∷ q)
stays (handles i) q callers = append-nil (i ∷ q)

stays_more :
    {A X : Type 0} (w : Worker) (q more : List ℕ) (callers : List (Caller A X))
    → (at_worker w ++ q) ++ more ≡ answer w w callers ++ (at_worker w ++ (q ++ more))
stays_more idle q more callers = refl
stays_more exited q more callers = refl
stays_more (holds i) q more callers = refl
stays_more (handles i) q more callers = refl

module _ {A X : Type 0} (hash : String → ℕ) (shards k : ℕ) where
  -- The i-th call of Dispatch goes on from its first select to the second, with a command whose
  -- aggregate has its shard here.
  abbrev pub enters_by : ℕ → Option (Caller A X) → Option (Caller A X) → List ℕ
  enters_by i none after = []
  enters_by i (some c) none = []
  enters_by i (some c) (some c') =
      if is_entering c && is_waiting c' && hash c.command.aggregate_id % shards == k
      then i ∷ []
      else []

module _ {A X H : Type 0} (hash : String → ℕ) (shards k : ℕ) where
  -- The commands of the shard that have no reply: the worker's, and those in the queue.
  abbrev pub pending : CommandBus A X H → List ℕ
  pending b = at_worker (b.workers k) ++ b.queues k

  -- The same of a step from b to b'.
  abbrev pub enters : Action A X H → CommandBus A X H → CommandBus A X H → List ℕ
  enters (enqueues i) b b' =
      enters_by hash shards k i (get_elem? b.callers i) (get_elem? b'.callers i)
  enters _ b b' = []

  unfoldable pub entered : List (Action A X H) → CommandBus A X H → List ℕ
  entered [] b = []
  entered (a ∷ rest) b = enters a b (step hash a b) ++ entered rest (step hash a b)

  -- What the shard's worker answers from b to b'.
  abbrev pub answers : CommandBus A X H → CommandBus A X H → List ℕ
  answers b b' = answer (b.workers k) (b'.workers k) b'.callers

  unfoldable pub answered : List (Action A X H) → CommandBus A X H → List ℕ
  answered [] b = []
  answered (a ∷ rest) b = answers b (step hash a b) ++ answered rest (step hash a b)

  -- A step from b to b' that adds `new` to the shard.
  record Line (b : CommandBus A X H) (new : List ℕ) (b' : CommandBus A X H) : Type 0 where
    kept : b'.shard_count ≡ b.shard_count
    moves : pending b ++ new ≡ answers b b' ++ pending b'

  still :
      {b b' : CommandBus A X H}
      → b'.shard_count ≡ b.shard_count
      → b'.workers k ≡ b.workers k
      → b'.queues k ≡ b.queues k
      → Line b [] b'
  still {b} {b'} same w q = record {
    kept = same;
    moves = rw (w, q) (stays (b.workers k) (b.queues k) b'.callers);
  }

  respond-Line :
      (j i : ℕ) (r : Reply X) (c : Caller A X) (b : CommandBus A X H)
      → at_worker (b.workers j) ≡ i ∷ []
      → get_elem? b.callers i ≡ some c
      → Line b [] (respond j r i c b)
  respond-Line j i r c b busy at = elim (Bool-cases (j == k)) [
    | inl here ↦
        let on : at_worker (b.workers k) ≡ i ∷ [] =
          ap (λ (n : ℕ). at_worker (b.workers n)) (sym ((nat_eq.equal_iff j k).1 here)) ∙ busy in
        record {
          kept = refl;
          moves =
              rw (here, on, get-set_elem_self b.callers i c (record c { reply = some r }) at)
                (append-nil (i ∷ b.queues k));
        }
    | inr there ↦ still refl (rw (there) refl) refl
  ]

  handle-Line :
      (j i : ℕ) (b : CommandBus A X H)
      → at_worker (b.workers j) ≡ i ∷ []
      → Line b [] (record b { workers = update b.workers j (handles i) })
  handle-Line j i b busy = elim (Bool-cases (j == k)) [
    | inl here ↦
        let on : at_worker (b.workers k) ≡ i ∷ [] =
          ap (λ (n : ℕ). at_worker (b.workers n)) (sym ((nat_eq.equal_iff j k).1 here)) ∙ busy in
        record { kept = refl; moves = rw (here, on) (append-nil (i ∷ b.queues k)) }
    | inr there ↦ still refl (rw (there) refl) refl
  ]

  checked-Line :
      (j i : ℕ) (c : Caller A X) (b : CommandBus A X H)
      → at_worker (b.workers j) ≡ i ∷ []
      → get_elem? b.callers i ≡ some c
      → Line b [] (checked j i c b)
  checked-Line j i c b busy at =
      if_cases (Line b []) c.ended _ _ (λ _. respond-Line j i _ c b busy at)
        (λ _.
          match_cases (Line b []) (Dict.get b.handlers c.command.command_type) _ _
            (λ _. respond-Line j i _ c b busy at) (λ _ _. handle-Line j i b busy))

  check_by-Line :
      (j : ℕ) (b : CommandBus A X H) (w : Worker) → b.workers j ≡ w → Line b [] (check_by j w b)
  check_by-Line j b idle e = still refl refl refl
  check_by-Line j b exited e = still refl refl refl
  check_by-Line j b (holds i) e =
      at_caller_cases (Line b []) (checked j) i b (still refl refl refl)
        (λ c at. checked-Line j i c b (ap at_worker e) at)
  check_by-Line j b (handles i) e = still refl refl refl

  finish_by-Line :
      (j : ℕ) (x : Handled X) (b : CommandBus A X H) (w : Worker)
      → b.workers j ≡ w
      → Line b [] (finish_by j x w b)
  finish_by-Line j x b idle e = still refl refl refl
  finish_by-Line j x b exited e = still refl refl refl
  finish_by-Line j x b (holds i) e = still refl refl refl
  finish_by-Line j x b (handles i) e =
      at_caller_cases (Line b []) (respond j (reply_of x)) i b (still refl refl refl)
        (λ c at. respond-Line j i (reply_of x) c b (ap at_worker e) at)

  take-Line :
      (j : ℕ) (b : CommandBus A X H) (w : Worker) (q : List ℕ)
      → b.workers j ≡ w
      → b.queues j ≡ q
      → Line b [] (taken j w q b)
  take-Line j b idle [] e f = still refl refl refl
  take-Line j b idle (i ∷ is) e f = elim (Bool-cases (j == k)) [
    | inl here ↦
        let same : j ≡ k = (nat_eq.equal_iff j k).1 here in
        let on : b.workers k ≡ idle = ap b.workers (sym same) ∙ e in
        let first : b.queues k ≡ i ∷ is = ap b.queues (sym same) ∙ f in
        record { kept = refl; moves = rw (here, on, first) (append-nil (i ∷ is)) }
    | inr there ↦ still refl (rw (there) refl) (rw (there) refl)
  ]
  take-Line j b exited q e f = still refl refl refl
  take-Line j b (holds i) q e f = still refl refl refl
  take-Line j b (handles i) q e f = still refl refl refl

  exit-Line :
      (j : ℕ) (b : CommandBus A X H)
      → is_idle (b.workers j) ≡ true
      → Line b [] (record b { workers = update b.workers j exited })
  exit-Line j b h = elim (Bool-cases (j == k)) [
    | inl here ↦
        let on : at_worker (b.workers k) ≡ [] =
          ap (λ (n : ℕ). at_worker (b.workers n)) (sym ((nat_eq.equal_iff j k).1 here))
          ∙ idle_lem (b.workers j) h in
        record { kept = refl; moves = rw (here, on) (append-nil (b.queues k)) }
    | inr there ↦ still refl (rw (there) refl) refl
  ]

  -- A step that enqueues.
  enqueue-Line :
      (i : ℕ) (c : Caller A X) (b : CommandBus A X H)
      → b.shard_count ≡ shards
      → get_elem? b.callers i ≡ some c
      → Line b
          (enters_by hash shards k i (some c) (get_elem? (enqueue hash i c b).callers i))
          (enqueue hash i c b)
  unfolding enqueue
  enqueue-Line i c b same at =
      let s = select_shard hash b c.command.aggregate_id in
      let c' = record c { progress = waiting } in
      let e : hash c.command.aggregate_id % shards ≡ s =
        ap (λ (n : ℕ). hash c.command.aggregate_id % n) (sym same) in
      if_cases
        (λ (x : CommandBus A X H).
          Line b (enters_by hash shards k i (some c) (get_elem? x.callers i)) x)
        (is_entering c && has_room hash b s) _ _
        (λ goes. record {
          kept = refl;
          moves =
              let put : get_elem? (set_elem b.callers i c') i ≡ some c' =
                get-set_elem_self b.callers i c c' at in
              elim (Bool-cases (s == k)) [
                | inl here ↦
                    let q : b.queues s ≡ b.queues k = ap b.queues ((nat_eq.equal_iff s k).1 here) in
                    let added : enters_by hash shards k i (some c) (some c') ≡ i ∷ [] =
                      ground (arith, goes, here, e) in
                    rw (put, here, added, q)
                      (stays_more (b.workers k) (b.queues k) (i ∷ []) (set_elem b.callers i c'))
                | inr there ↦
                    let none_added : enters_by hash shards k i (some c) (some c') ≡ [] =
                      ground (arith, there, e) in
                    rw (put, there, none_added)
                      (stays (b.workers k) (b.queues k) (set_elem b.callers i c'))
              ];
        })
        (λ _.
          let none_added : enters_by hash shards k i (some c) (some c) ≡ [] =
            ground (arith, waits_only c) in
          rw (at, none_added) (still refl refl refl))

  enqueues-Line :
      (i : ℕ) (b : CommandBus A X H) (o : Option (Caller A X))
      → b.shard_count ≡ shards
      → get_elem? b.callers i ≡ o
      → (let b' : CommandBus A X H = elim o [ none ↦ b | some c ↦ enqueue hash i c b ] in
          Line b (enters_by hash shards k i o (get_elem? b'.callers i)) b')
  enqueues-Line i b none same at = still refl refl refl
  enqueues-Line i b (some c) same at = enqueue-Line i c b same at

  step_in_order :
      (a : Action A X H) (b : CommandBus A X H)
      → b.shard_count ≡ shards
      → Line b (enters a b (step hash a b)) (step hash a b)
  unfolding dispatch leave_closed leave_ended receive abandon exit close_drain register
  step_in_order (dispatches cmd) b same =
      if_cases (Line b []) b.stop_closed _ _ (λ _. still refl refl refl) (λ _. still refl refl refl)
  step_in_order (enqueues i) b same = enqueues-Line i b (get_elem? b.callers i) same refl
  step_in_order (leaves_closed i) b same =
      at_caller_cases (Line b []) leave_closed i b (still refl refl refl) (λ x _.
        if_cases (Line b []) (is_entering x && b.stop_closed) _ _ (λ _. still refl refl refl)
          (λ _. still refl refl refl))
  step_in_order (leaves_ended i) b same =
      at_caller_cases (Line b []) leave_ended i b (still refl refl refl) (λ x _.
        if_cases (Line b []) (is_entering x && x.ended) _ _ (λ _. still refl refl refl)
          (λ _. still refl refl refl))
  step_in_order (receives i) b same =
      at_caller_cases (Line b []) receive i b (still refl refl refl) (λ x _.
        if_cases (Line b []) (is_waiting x) _ _
          (λ _.
            match_cases (Line b []) x.reply b _ (λ _. still refl refl refl)
              (λ _ _. still refl refl refl))
          (λ _. still refl refl refl))
  step_in_order (abandons i) b same =
      at_caller_cases (Line b []) abandon i b (still refl refl refl) (λ x _.
        if_cases (Line b []) (is_waiting x && x.ended) _ _ (λ _. still refl refl refl)
          (λ _. still refl refl refl))
  step_in_order (ends_ctx i) b same =
      at_caller_cases (Line b []) end_ctx i b (still refl refl refl) (λ _ _. still refl refl refl)
  step_in_order (takes j) b same = take-Line j b (b.workers j) (b.queues j) refl refl
  step_in_order (checks j) b same = check_by-Line j b (b.workers j) refl
  step_in_order (exits j) b same =
      if_cases (Line b []) (is_idle (b.workers j) && b.drain_closed && is_empty (b.queues j)) _ _
        (λ h. exit-Line j b (ground (arith, h))) (λ _. still refl refl refl)
  step_in_order (finishes j x) b same = finish_by-Line j x b (b.workers j) refl
  step_in_order closes_stop b same = still refl refl refl
  step_in_order closes_drain b same =
      if_cases (Line b []) (b.stop_closed && b.enqueue_wg == 0) _ _ (λ _. still refl refl refl)
        (λ _. still refl refl refl)
  step_in_order (adds m) b same = still refl refl refl
  step_in_order (registers name h) b same =
      match_cases
        (λ (o : Option (CommandBus A X H)). Line b [] (elim o [ none ↦ b | some b' ↦ b' ]))
        (Dict.get b.handlers name) _ _ (λ _. still refl refl refl) (λ _ _. still refl refl refl)

  line_in_order :
      (actions : List (Action A X H)) (b : CommandBus A X H)
      → b.shard_count ≡ shards
      → pending b ++ entered actions b ≡ answered actions b ++ pending (run hash actions b)
  unfolding entered answered run
  line_in_order [] b same = append-nil (pending b)
  line_in_order (a ∷ rest) b same =
      let b' = step hash a b in
      let line = step_in_order a b same in
      sym (append_assoc (pending b) (enters a b b') (entered rest b'))
      ∙ ap (λ (l : List ℕ). l ++ entered rest b') line.moves
      ∙ append_assoc (answers b b') (pending b') (entered rest b')
      ∙ ap (λ (l : List ℕ). answers b b' ++ l) (line_in_order rest b' (line.kept ∙ same))
      ∙ sym (append_assoc (answers b b') (answered rest b') (pending (run hash rest b')))

-- The shards of a bus that is made with this number of them.
abbrev pub at_least_one : ℤ → ℕ
at_least_one (pos n) = max n 1
at_least_one (negsuc n) = 1

clamp-eq : (n : ℤ) → clamp n ≡ at_least_one n
clamp-eq (pos zero) = omega arith
clamp-eq (pos (suc n)) = omega arith
clamp-eq (negsuc n) = refl

module _ {A X H : Type 0} (hash : String → ℕ) (buffer k : ℕ) (shard_count : ℤ) where
  -- However the goroutines of a bus interleave, a Dispatch that enqueues its command does so on the
  -- shard that the hash of the command's aggregate gives, and the worker of a shard answers the
  -- commands of its shard in the order in which they were enqueued, each once: those that it has
  -- answered, the one that it is at, and those in the queue, in this order, are those that were
  -- enqueued.
  pub run_in_order :
      (actions : List (Action A X H))
      → entered hash (at_least_one shard_count) k actions (new_command_bus buffer shard_count)
        ≡ answered hash (at_least_one shard_count) k actions (new_command_bus buffer shard_count)
          ++ pending hash
              (at_least_one shard_count)
              k
              (run hash actions (new_command_bus buffer shard_count))
  unfolding new_command_bus
  run_in_order actions =
      line_in_order hash (at_least_one shard_count) k actions (new_command_bus buffer shard_count)
        (clamp-eq shard_count)
