-- ===== src/Automation/Runs/Ends.antt =====
-- A batch ends: its goroutines never wait for one another for ever.
use eventsourcing.Shared.{
  ℕ, suc, zero, ◌+◌, ◌-◌, ◌*◌, ◌<◌, ◌≡◌, refl, ap, ◌⊎◌, inl, inr, String, string_eq, nat_eq, false,
  Option, none, some, List, [], ◌∷◌, ◌++◌, ◌==◌, length, length-append, get_elem?, set_elem, arith,
}
use eventsourcing.Shared.Dict
use eventsourcing.Shared.Dict.{Dict}
use eventsourcing.Automation.Items.{Item, Outcome}
use eventsourcing.Automation.Runs.{
  next, BatchRun, Dispatcher, Job, Stage, works, sends, gone, Loop, looks, blocks, ended, Move,
  started, settled, sent, step, run_batch, mark, add_items, add_item, new_batch_run, queue,
}
use eventsourcing.Automation.Runs.Moves.{Starts, popped, step_cases, looked_cases}
use eventsourcing.Automation.Runs.Exclusive.{count_outcome-queues}

abbrev stage_weight : Stage → ℕ
stage_weight works = 4
stage_weight sends = 3
stage_weight gone = 0

abbrev loop_weight : Loop → ℕ
loop_weight looks = 1
loop_weight blocks = 0
loop_weight ended = 0

module _ {T : Type 0} where
  abbrev jobs_weight : List (Job T) → ℕ
  jobs_weight [] = 0
  jobs_weight (j ∷ js) = stage_weight j.stage + jobs_weight js

  -- The items that wait in the queues.
  abbrev waiting : Dict String (List (Item T)) → ℕ
  waiting [] = 0
  waiting ((k, q) ∷ qs) = length q + waiting qs

  -- A bound on the moves that are left.
  abbrev pub measure : Dispatcher T → ℕ
  measure d = 5 * waiting d.batch.queues + jobs_weight d.jobs + 2 * d.finished + loop_weight d.loop

  jobs_weight-append :
      (js : List (Job T)) (j : Job T)
      → jobs_weight (js ++ j ∷ []) ≡ jobs_weight js + stage_weight j.stage
  jobs_weight-append [] j = omega arith
  jobs_weight-append (x ∷ js) j = omega (arith, jobs_weight-append js j)

  jobs_weight-set_elem :
      (js : List (Job T)) (i : ℕ) {y : Job T} (j : Job T)
      → get_elem? js i ≡ some y
      → jobs_weight (set_elem js i j) + stage_weight y.stage ≡ jobs_weight js + stage_weight j.stage
  jobs_weight-set_elem [] i j h = cc
  jobs_weight-set_elem (x ∷ js) zero j h = ground (arith, h)
  jobs_weight-set_elem (x ∷ js) (suc i) j h = omega (arith, jobs_weight-set_elem js i j h)

  abbrev queue_in : Dict String (List (Item T)) → String → List (Item T)
  queue_in qs k = elim (Dict.get qs k) [ none ↦ [] | some q ↦ q ]

  waiting-put :
      (qs : Dict String (List (Item T))) (k : String) (q : List (Item T))
      → waiting (Dict.put qs k q) + length (queue_in qs k) ≡ waiting qs + length q
  unfolding Dict.put Dict.get
  waiting-put [] k q = omega arith
  waiting-put ((j, r) ∷ qs) k q = ground (arith, waiting-put qs k q)

  waiting-popped :
      (b : BatchRun T) (k : String) (it : Item T) (rest : List (Item T))
      → queue b k ≡ it ∷ rest
      → waiting (popped b k rest).queues + 1 ≡ waiting b.queues
  waiting-popped b k it rest h = omega (arith, waiting-put b.queues k rest, ap length h)

  -- A move to a state that is nearer to the end.
  abbrev pub Nearer : Dispatcher T → Dispatcher T → Type 0
  Nearer d x = measure x < measure d

  start-Nearer :
      (d : Dispatcher T) (k : String) (it : Item T) (rest : List (Item T))
      → Starts d.batch k it rest
      → Nearer d (started (some (k, it, popped d.batch k rest)) d)
  start-Nearer d k it rest s = omega (
    arith,
    waiting-popped d.batch k it rest s.head,
    jobs_weight-append d.jobs (record { key = k; item = it; stage = works }),
  )

  loop-Nearer :
      (d : Dispatcher T) (l : Loop)
      → d.loop ≡ looks
      → loop_weight l ≡ 0
      → Nearer d (record d { loop = l })
  loop-Nearer d l e h = omega (arith, ap loop_weight e, h)

  pub wake-Nearer :
      (d : Dispatcher T)
      → d.loop ≡ blocks
      → (d.finished == 0) ≡ false
      → Nearer d (record d { loop = looks; finished = d.finished - 1 })
  wake-Nearer d e h = ground (arith, ap loop_weight e, h)

  pub settle-Nearer :
      {X : Type 0} (d : Dispatcher T) (i : ℕ) (out : Option (Outcome X)) (j : Job T)
      → get_elem? d.jobs i ≡ some j
      → j.stage ≡ works
      → Nearer d (settled i out j works d)
  settle-Nearer d i out j at now = omega (
    arith,
    ap waiting (
        count_outcome-queues j.key out (record d.batch {
          in_use = mark d.batch.in_use j.key false;
          active = d.batch.active - 1;
        })),
    ap stage_weight now,
    jobs_weight-set_elem d.jobs i (record j { stage = sends }) at,
  )

  pub send-Nearer :
      (d : Dispatcher T) (i : ℕ) (j : Job T)
      → get_elem? d.jobs i ≡ some j
      → j.stage ≡ sends
      → Nearer d (sent i j sends d)
  send-Nearer d i j at now =
      omega
        (arith, ap stage_weight now, jobs_weight-set_elem d.jobs i (record j { stage = gone }) at)

  pub look-Nearer :
      (concurrency : ℕ) (d : Dispatcher T)
      → d.loop ≡ looks
      → Nearer d (started (next concurrency d.batch) d)
  look-Nearer concurrency d =
      looked_cases concurrency (Nearer d) d (λ k it rest _ _ _ s. start-Nearer d k it rest s)
        (λ e _. loop-Nearer d blocks e refl) (λ e _ _. loop-Nearer d ended e refl)

  -- A move does nothing, or brings the batch nearer to its end.
  pub step_nears :
      {X : Type 0} (concurrency : ℕ) (m : Move X) (d : Dispatcher T)
      → (step concurrency m d ≡ d) ⊎ (measure (step concurrency m d) < measure d)
  step_nears concurrency m d =
      step_cases concurrency (λ x. (x ≡ d) ⊎ Nearer d x) m d
        (record {
          stays = inl refl;
          starts = λ k it rest _ _ _ s. inr (start-Nearer d k it rest s);
          waits = λ e _. inr (loop-Nearer d blocks e refl);
          ends = λ e _ _. inr (loop-Nearer d ended e refl);
          wakes = λ e h. inr (wake-Nearer d e h);
          settles = λ i out j at now. inr (settle-Nearer d i out j at now);
          sends_on = λ i j at now. inr (send-Nearer d i j at now);
        })

  waiting-add_items :
      (sk : ℕ → Item T → String) (i : ℕ) (items : List (Item T)) (b : BatchRun T)
      → waiting (add_items sk i items b).queues ≡ waiting b.queues + length items
  unfolding add_items
  waiting-add_items sk i [] b = omega arith
  waiting-add_items sk i (it ∷ its) b = omega (
    arith,
    waiting-add_items sk (suc i) its (add_item (sk i it) it b),
    waiting-put b.queues (sk i it) (queue b (sk i it) ++ it ∷ []),
    length-append (queue b (sk i it)) (it ∷ []),
  )

  pub measure-run_batch :
      (sk : ℕ → Item T → String) (items : List (Item T))
      → measure (run_batch sk items) ≡ 5 * length items + 1
  measure-run_batch sk items = omega (arith, waiting-add_items sk 0 items new_batch_run)
