-- ===== src/Automation/Runs/Finished.antt =====
-- The end of a batch's run: that it comes, and what has been done by then.
use eventsourcing.Shared.{
  ℕ, suc, zero, ◌+◌, ◌*◌, ◌<◌, ◌≤◌, ◌≡◌, ◌≢◌, refl, ap, sym, ◌∙◌, subst, ◌⊎◌, inl, inr, String,
  string_eq, nat_eq, true, Option, none, some, List, [], ◌∷◌, ◌++◌, append-nil, ◌==◌, length,
  get_elem?, arith, Bool-cases, count, All,
}
use eventsourcing.Shared.Dict
use eventsourcing.Automation.Items.{Item, Outcome}
use eventsourcing.Automation.Runs.{
  Dispatcher, Job, Stage, works, sends, gone, Loop, looks, blocks, ended, Move, look, wake, settle,
  send, step, run, run_batch, sent, woken, looked, next,
}
use eventsourcing.Automation.Runs.Moves.{Held, run_keeps, step_cases}
use eventsourcing.Automation.Runs.Exclusive.{in_work, works_on, run-Exclusive}
use eventsourcing.Automation.Runs.Ordered.{chain, of_key, InOrder, run-InOrder}
use eventsourcing.Automation.Runs.Parked.{step-settle}
use eventsourcing.Automation.Runs.Ends.{
  measure, Nearer, measure-run_batch, look-Nearer, wake-Nearer, settle-Nearer, send-Nearer,
  step_nears,
}
use eventsourcing.Automation.Runs.Settled.{CameTo, ends_run, is_failure, stopped_came, parked_came}
use eventsourcing.Automation.Runs.Live.{Live, left, moves-Live, count-find}

-- The moves end the work of the items with these outcomes, by the numbers of their starts.
abbrev Yields : {X : Type 0} → (ℕ → Option (Outcome X)) → Move X → Type 0
Yields outcome look = Unit {0}
Yields outcome wake = Unit {0}
Yields outcome (settle i out) = out ≡ outcome i
Yields outcome (send i) = Unit {0}

abbrev pub AllYield : {X : Type 0} → (ℕ → Option (Outcome X)) → List (Move X) → Type 0
AllYield outcome moves = All (Yields outcome) moves

-- A move that brings the batch nearer to its end.
abbrev Onward : {T X : Type 0} → (ℕ → Option (Outcome X)) → ℕ → Dispatcher T → Type 0
Onward {X} outcome concurrency d = (m : Move X) × Nearer d (step concurrency m d) × Yields outcome m

Loop-cases : (l : Loop) → (l ≡ ended) ⊎ (l ≢ ended)
Loop-cases looks = inr (λ h. cc)
Loop-cases blocks = inr (λ h. cc)
Loop-cases ended = inl refl

step-send :
    {T : Type 0} (X : Type 0) (concurrency i : ℕ) (j : Job T) (d : Dispatcher T)
    → get_elem? d.jobs i ≡ some j
    → j.stage ≡ sends
    → (let m : Move X = send i in step concurrency m d) ≡ sent i j sends d
step-send {T} X concurrency i j d at now =
    ap
      (λ (o : Option (Job T)). elim o as (λ _. Dispatcher T) [
        | none ↦ d
        | some j ↦ sent i j j.stage d
      ])
      at
    ∙ ap (λ s. sent i j s d) now

module _ {T X : Type 0} (concurrency : ℕ) where
  module _ (outcome : ℕ → Option (Outcome X)) where
    goroutine_goes :
        (d : Dispatcher T) (i : ℕ) (j : Job T) (s : Stage)
        → get_elem? d.jobs i ≡ some j
        → j.stage ≡ s
        → left j ≡ true
        → Onward outcome concurrency d
    goroutine_goes d i j works at now h = (
      settle i (outcome i),
      subst (Nearer d) (sym (step-settle concurrency i (outcome i) j d at now))
          (settle-Nearer d i (outcome i) j at now),
      refl,
    )
    goroutine_goes d i j sends at now h = (
      send i,
      subst (Nearer d) (sym (step-send X concurrency i j d at now)) (send-Nearer d i j at now),
      tt,
    )
    goroutine_goes d i j gone at now h = absurd (ground (arith, h, now))

    loop_goes :
        (d : Dispatcher T) (l : Loop)
        → d.loop ≡ l
        → l ≢ ended
        → Live concurrency d
        → Onward outcome concurrency d
    loop_goes d looks e h live = (
      look,
      subst (λ l. Nearer d (looked (next concurrency d.batch) l d)) (sym e)
          (look-Nearer concurrency d e),
      tt,
    )
    loop_goes d ended e h live = absurd (h refl)
    loop_goes d blocks e h live = elim (Bool-cases (d.finished == 0)) [
      | inl none_in ↦
          let (i, j, at, t) = count-find left d.jobs (ground (arith, none_in, live.blocked e)) in
          goroutine_goes d i j j.stage at refl t
      | inr some_in ↦ (
        wake,
        subst (λ l. Nearer d (woken l d)) (sym e)
            (ground (arith, some_in, wake-Nearer d e some_in)),
        tt,
      )
    ]

    reach_end :
        (n : ℕ) (d : Dispatcher T)
        → measure d ≤ n
        → Live concurrency d
        → (more : List (Move X)) × ((run concurrency more d).loop ≡ ended)
          × (length more ≤ n)
          × AllYield outcome more
    unfolding run
    reach_end zero d bound live = elim (Loop-cases d.loop) [
      | inl e ↦ ([], e, omega arith, tt)
      | inr h ↦
          let (m, near, like) = loop_goes d d.loop refl h live in
          absurd (omega (arith, near, bound))
    ]
    reach_end (suc n) d bound live = elim (Loop-cases d.loop) [
      | inl e ↦ ([], e, omega arith, tt)
      | inr h ↦
          let (m, near, like) = loop_goes d d.loop refl h live in
          let (more, e, short, alike) =
            reach_end n (step concurrency m d) (omega (arith, near, bound))
              (step_cases concurrency (Live concurrency) m d (moves-Live concurrency d live)) in
          (m ∷ more, e, omega (arith, short), (like, alike))
    ]

-- What a batch has done when these moves have ended its run: nothing is in work, and all items of
-- each key have been started, unless an item of the key failed, or some item's work ended with a
-- deferral or with the stop of the runner.
pub record Finished {T X : Type 0} (concurrency : ℕ) (moves : List (Move X))
    (items : String → List (Item T)) (start : Dispatcher T) : Type 0 where
  pub idle : count in_work (run concurrency moves start).jobs ≡ 0
  pub served :
      CameTo (λ _ out. ends_run out ≡ true) concurrency moves start
      ⊎ ((k : String)
          → (chain k (run concurrency moves start).jobs ≡ items k)
            ⊎ CameTo (λ j out. (j ≡ k) × (is_failure out ≡ true)) concurrency moves start)

-- The same by the marks on the batch.
record Marked {T : Type 0} (items : String → List (Item T)) (d : Dispatcher T) : Type 0 where
  idle : count in_work d.jobs ≡ 0
  served :
      (d.batch.stopped ≡ true)
      ⊎ ((k : String) → (chain k d.jobs ≡ items k) ⊎ (d.batch.parked k ≡ true))

module _ {T : Type 0} (concurrency : ℕ) (items : String → List (Item T)) (d : Dispatcher T) where
  served_key :
      (o : InOrder items d) (live : Live concurrency d) (k : String)
      → count (works_on k) d.jobs ≡ 0
      → Held d.batch k
      → (chain k d.jobs ≡ items k) ⊎ (d.batch.parked k ≡ true)
  served_key o live k none_in (inl empty) =
      inl
        (sym (append-nil (chain k d.jobs)) ∙ ap (λ q. chain k d.jobs ++ q) (sym empty) ∙ o.chains k)
  served_key o live k none_in (inr h) = inr (ground (arith, h, live.exclusive.one k, none_in))

  count_on : (k : String) (js : List (Job T)) → count (works_on k) js ≤ count in_work js
  count_on k [] = omega arith
  count_on k (j ∷ js) = ground (arith, count_on k js)

  end_state :
      0 < concurrency → d.loop ≡ ended → InOrder items d → Live concurrency d → Marked items d
  unfolding Dict.get
  end_state room e o live =
      let (quiet, stuck) = live.over e in
      let idle : count in_work d.jobs ≡ 0 = live.exclusive.active ∙ quiet in
      let free : (k : String) → count (works_on k) d.jobs ≡ 0 =
        λ k. omega (arith, count_on k d.jobs, idle) in
      record {
        idle = idle;
        served = elim stuck [
          | inl h ↦ inl (ground (arith, h, quiet, room))
          | inr held ↦ inr (λ k. elim (o.known k) [
            | inl h ↦ served_key o live k (free k) (held k h)
            | inr h ↦ served_key o live k (free k) (inl (ground (arith, h)))
          ])
        ];
      }

run_nears :
    {T X : Type 0} (concurrency : ℕ) (moves : List (Move X)) (d : Dispatcher T)
    → measure (run concurrency moves d) ≤ measure d
unfolding run
run_nears concurrency [] d = omega arith
run_nears concurrency (m ∷ rest) d = elim (step_nears concurrency m d) [
  | inl e ↦ omega (arith, run_nears concurrency rest (step concurrency m d), ap measure e)
  | inr h ↦ omega (arith, run_nears concurrency rest (step concurrency m d), h)
]

module _ {T X : Type 0} (concurrency : ℕ) (sk : ℕ → Item T → String) (items : List (Item T)) where
  run-Live : (moves : List (Move X)) → Live concurrency (run concurrency moves (run_batch sk items))
  unfolding run
  run-Live moves =
      let none_yet : List (Move X) = [] in
      run_keeps concurrency (Live concurrency) moves (run_batch sk items) (moves-Live concurrency)
        (record {
          exclusive = run-Exclusive concurrency sk items none_yet;
          blocked = λ h. cc;
          over = λ h. cc;
        })

  -- Wherever the goroutines of a batch have got to, and whatever outcomes are given for the items
  -- whose work has not ended, some at most 5 n + 1 moves for n items, in which the work of each ends
  -- with the outcome given for it, lead to the end of the run.
  pub run_reaches_end :
      (outcome : ℕ → Option (Outcome X)) (moves : List (Move X))
      → (more : List (Move X)) × ((run concurrency more
            (run concurrency moves (run_batch sk items))).loop
          ≡ ended)
        × (length more ≤ 5 * length items + 1)
        × AllYield outcome more
  run_reaches_end outcome moves =
      reach_end concurrency outcome (5 * length items + 1)
        (run concurrency moves (run_batch sk items))
        (omega
          (arith, measure-run_batch sk items, run_nears concurrency moves (run_batch sk items)))
        (run-Live moves)

  -- When a batch has ended, none of its items is in work, and unless the work of an item ended with a
  -- deferral or because the runner was stopping, all items of each ordering key have started, in
  -- claim order, or one of that key has failed; Concurrency is not 0.
  pub run-Finished :
      (moves : List (Move X))
      → 0 < concurrency
      → (run concurrency moves (run_batch sk items)).loop ≡ ended
      → Finished concurrency moves (λ k. of_key sk 0 k items) (run_batch sk items)
  run-Finished moves room e =
      let m =
        end_state concurrency (λ k. of_key sk 0 k items)
          (run concurrency moves (run_batch sk items)) room e
          (run-InOrder concurrency sk items moves) (run-Live moves) in
      record {
        idle = m.idle;
        served = elim m.served [
          | inl h ↦ inl (stopped_came concurrency sk items moves h)
          | inr each ↦ inr (λ k. elim (each k) [
            | inl all_of ↦ inl all_of
            | inr h ↦ inr (parked_came concurrency sk items moves k h)
          ])
        ];
      }
