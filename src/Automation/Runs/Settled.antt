-- ===== src/Automation/Runs/Settled.antt =====
-- What the outcomes that a run has counted account for: a parked key, and a run that has stopped.
use eventsourcing.Shared.{
  ℕ, ◌-◌, ◌≡◌, refl, sym, ◌∙◌, ◌⊎◌, inl, inr, String, string_eq, Bool, true, false, Option, none,
  some, List, [], ◌∷◌, ◌==◌, get_elem?, arith, ◌+◌, suc, eq_iff, nat_eq, if_cases, match_cases,
}
use eventsourcing.Shared.Dict
use eventsourcing.Shared.Dict.{Dict}
use eventsourcing.Automation.Items.{Item, Outcome, done, failed, deferred_outcome}
use eventsourcing.Automation.Runs.{
  BatchRun, Dispatcher, Job, Stage, works, sends, gone, Loop, looks, blocks, ended, Move, look,
  wake, settle, send, next, looked, woken, settled, sent, step, run, run_batch, count_outcome, mark,
  add_items, add_item, new_batch_run,
}
use eventsourcing.Automation.Runs.Moves.{looked_cases}

-- The outcome of an item that failed, and one that ends the run: a deferral, or none, when the run
-- was stopping.
abbrev pub is_failure : {X : Type 0} → Option (Outcome X) → Bool
is_failure none = false
is_failure (some o) = elim o.kind [ done ↦ false | failed ↦ true | deferred_outcome ↦ false ]

abbrev pub ends_run : {X : Type 0} → Option (Outcome X) → Bool
ends_run none = true
ends_run (some o) = elim o.kind [ done ↦ false | failed ↦ false | deferred_outcome ↦ true ]

module _ {T X : Type 0} (P : String → Option (Outcome X) → Type 0) where
  -- The move is the end of an item's work, with such an outcome.
  abbrev pub Settles : Move X → Dispatcher T → Type 0
  Settles look d = ⊥
  Settles wake d = ⊥
  Settles (send i) d = ⊥
  Settles (settle i out) d =
      (j : Job T) × (get_elem? d.jobs i ≡ some j) × (j.stage ≡ works) × P j.key out

  -- On the way of these moves, the work of an item has ended with such an outcome.
  abbrev pub CameTo : ℕ → List (Move X) → Dispatcher T → Type 0
  CameTo concurrency [] d = ⊥
  CameTo concurrency (m ∷ rest) d = Settles m d ⊎ CameTo concurrency rest (step concurrency m d)

module _ {T X : Type 0} where
  stopped_counts :
      (k : String) (out : Option (Outcome X)) (b : BatchRun T)
      → (count_outcome k out b).stopped ≡ true
      → (ends_run out ≡ true) ⊎ (b.stopped ≡ true)
  stopped_counts k none b h = inl refl
  stopped_counts k (some o) b h = ground (arith, h)

  parked_counts :
      (k j : String) (out : Option (Outcome X)) (b : BatchRun T)
      → (count_outcome j out b).parked k ≡ true
      → ((j ≡ k) × (is_failure out ≡ true)) ⊎ (b.parked k ≡ true)
  parked_counts k j none b h = inr h
  parked_counts k j (some o) b h = ground (arith, h, eq_iff j k)

module _ {T X : Type 0} (P : String → Option (Outcome X) → Type 0) (marked : BatchRun T → Bool)
    (same : (b : BatchRun T) (o : List String) (q : Dict String (List (Item T))) (u : String → Bool)
        (a : ℕ)
      → marked (record b { order = o; queues = q; in_use = u; active = a }) ≡ marked b)
    (counts : (k : String) (out : Option (Outcome X)) (b : BatchRun T)
      → marked (count_outcome k out b) ≡ true
      → P k out ⊎ (marked b ≡ true))
    (concurrency : ℕ) where
  abbrev Kept : Dispatcher T → Dispatcher T → Type 0
  Kept d x = marked x.batch ≡ true → marked d.batch ≡ true

  look_keeps :
      (d : Dispatcher T) (l : Loop) → d.loop ≡ l → Kept d (looked (next concurrency d.batch) l d)
  look_keeps d looks e =
      looked_cases concurrency (Kept d) d
        (λ k it rest _ _ _ _ h.
          sym (
            same d.batch d.batch.order (Dict.put d.batch.queues k rest) (mark d.batch.in_use k true)
              (d.batch.active + 1))
          ∙ h)
        (λ _ _ h. h) (λ _ _ _ h. h) e
  look_keeps d blocks e = λ h. h
  look_keeps d ended e = λ h. h

  wake_keeps : (d : Dispatcher T) (l : Loop) → Kept d (woken l d)
  wake_keeps d looks = λ h. h
  wake_keeps d blocks = if_cases (Kept d) (d.finished == 0) _ _ (λ _ h. h) (λ _ h. h)
  wake_keeps d ended = λ h. h

  send_keeps : (i : ℕ) (j : Job T) (d : Dispatcher T) (s : Stage) → Kept d (sent i j s d)
  send_keeps i j d works = λ h. h
  send_keeps i j d sends = λ h. h
  send_keeps i j d gone = λ h. h

  settle_marks :
      (i : ℕ) (out : Option (Outcome X)) (j : Job T) (d : Dispatcher T) (s : Stage)
      → get_elem? d.jobs i ≡ some j
      → j.stage ≡ s
      → marked (settled i out j s d).batch ≡ true
      → Settles P (settle i out) d ⊎ (marked d.batch ≡ true)
  settle_marks i out j d sends at e h = inr h
  settle_marks i out j d gone at e h = inr h
  settle_marks i out j d works at e h =
      let b = record d.batch {
        in_use = mark d.batch.in_use j.key false;
        active = d.batch.active - 1;
      } in
      elim (counts j.key out b h) [
        | inl p ↦ inl (j, at, e, p)
        | inr was ↦ inr (
            sym (
              same d.batch d.batch.order d.batch.queues (mark d.batch.in_use j.key false)
                (d.batch.active - 1))
            ∙ was)
      ]

  step_marks :
      (m : Move X) (d : Dispatcher T)
      → marked (step concurrency m d).batch ≡ true
      → Settles P m d ⊎ (marked d.batch ≡ true)
  step_marks look d h = inr (look_keeps d d.loop refl h)
  step_marks wake d h = inr (wake_keeps d d.loop h)
  step_marks (send i) d h = inr (
      match_cases (Kept d) (get_elem? d.jobs i) d (λ j. sent i j j.stage d) (λ _ h. h)
        (λ j _. send_keeps i j d j.stage) h)
  step_marks (settle i out) d h =
      match_cases
        (λ (x : Dispatcher T).
          marked x.batch ≡ true → Settles P (settle i out) d ⊎ (marked d.batch ≡ true))
        (get_elem? d.jobs i) d (λ j. settled i out j j.stage d) (λ _ h. inr h)
        (λ j at. settle_marks i out j d j.stage at refl) h

  run_marks :
      (moves : List (Move X)) (d : Dispatcher T)
      → marked (run concurrency moves d).batch ≡ true
      → CameTo P concurrency moves d ⊎ (marked d.batch ≡ true)
  unfolding run
  run_marks [] d h = inr h
  run_marks (m ∷ rest) d h = elim (run_marks rest (step concurrency m d) h) [
    | inl later ↦ inl (inr later)
    | inr marks ↦ elim (step_marks m d marks) [ inl now ↦ inl (inl now) | inr was ↦ inr was ]
  ]

  add_items_keeps :
      (sk : ℕ → Item T → String) (i : ℕ) (items : List (Item T)) (b : BatchRun T)
      → marked (add_items sk i items b) ≡ marked b
  unfolding add_items
  add_items_keeps sk i [] b = refl
  add_items_keeps sk i (it ∷ its) b =
      let b' = add_item (sk i it) it b in
      add_items_keeps sk (suc i) its b' ∙ same b b'.order b'.queues b.in_use b.active

  came_to :
      (sk : ℕ → Item T → String) (items : List (Item T)) (moves : List (Move X))
      → marked new_batch_run ≡ false
      → marked (run concurrency moves (run_batch sk items)).batch ≡ true
      → CameTo P concurrency moves (run_batch sk items)
  came_to sk items moves fresh h = elim (run_marks moves (run_batch sk items) h) [
    | inl came ↦ came
    | inr was ↦ absurd (ground (arith, was, fresh, add_items_keeps sk 0 items new_batch_run))
  ]

module _ {T X : Type 0} (concurrency : ℕ) (sk : ℕ → Item T → String) (items : List (Item T))
    (moves : List (Move X)) where
  -- A run that has stopped was ended by the outcome of an item.
  pub stopped_came :
      (run concurrency moves (run_batch sk items)).batch.stopped ≡ true
      → CameTo (λ _ out. ends_run out ≡ true) concurrency moves (run_batch sk items)
  stopped_came =
      came_to (λ _ out. ends_run out ≡ true) (λ b. b.stopped) (λ _ _ _ _ _. refl)
        (λ k out b h. stopped_counts k out b h) concurrency sk items moves refl

  -- A key that is parked has an item that failed.
  pub parked_came :
      (k : String)
      → (run concurrency moves (run_batch sk items)).batch.parked k ≡ true
      → CameTo (λ j out. (j ≡ k) × (is_failure out ≡ true)) concurrency moves (run_batch sk items)
  parked_came k =
      came_to (λ j out. (j ≡ k) × (is_failure out ≡ true)) (λ b. b.parked k) (λ _ _ _ _ _. refl)
        (λ j out b h. parked_counts k j out b h) concurrency sk items moves refl
