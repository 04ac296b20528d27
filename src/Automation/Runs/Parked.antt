-- ===== src/Automation/Runs/Parked.antt =====
-- What starts after a failure, after a deferral, and once the run is stopping.
use eventsourcing.Shared.{
  ℕ, ◌-◌, ◌≡◌, refl, ap, sym, ◌∙◌, String, string_eq, Bool, true, false, Option, none, some, List,
  [], ◌∷◌, ◌++◌, append-nil, ◌==◌, get_elem?, arith, Bool-cases, inl, inr, ◌⊎◌, subst,
}
use eventsourcing.Automation.Items.{Item, Outcome, done, failed, deferred_outcome}
use eventsourcing.Automation.Runs.{
  BatchRun, Dispatcher, Job, works, sends, gone, Loop, Move, settle, settled, step, run,
  count_outcome, mark,
}
use eventsourcing.Automation.Runs.Moves.{Cases, run_keeps}
use eventsourcing.Automation.Runs.Ordered.{chain, chain-append, chain-set_elem}

-- Whether the outcome of an item of the key j holds back the items of the key k: a failure those of
-- its own key, a deferral and the end of the run all.
abbrev pub holds_back : {X : Type 0} → String → Option (Outcome X) → String → Bool
holds_back j none k = true
holds_back j (some o) k = elim o.kind [ done ↦ false | failed ↦ j == k | deferred_outcome ↦ true ]

module _ {T : Type 0} where
  -- The key is parked, and these of its items have started.
  record Parks (k : String) (its : List (Item T)) (d : Dispatcher T) : Type 0 where
    parked : d.batch.parked k ≡ true
    begun : chain k d.jobs ≡ its

  -- The batch has stopped, and these of each key's items have started.
  record Halts (its : String → List (Item T)) (d : Dispatcher T) : Type 0 where
    stopped : d.batch.stopped ≡ true
    begun : (k : String) → chain k d.jobs ≡ its k

  start_other :
      (d : Dispatcher T) (j k : String) (it : Item T)
      → (j == k) ≡ false
      → chain k (d.jobs ++ record { key = j; item = it; stage = works } ∷ []) ≡ chain k d.jobs
  start_other d j k it other =
      rw (chain-append k d.jobs (record { key = j; item = it; stage = works }), other)
        (append-nil (chain k d.jobs))

  count_outcome-parked :
      {X : Type 0} (n k : String) (out : Option (Outcome X)) (b : BatchRun T)
      → b.parked k ≡ true
      → (count_outcome n out b).parked k ≡ true
  count_outcome-parked n k out b h = ground arith

  count_outcome-stopped :
      {X : Type 0} (n : String) (out : Option (Outcome X)) (b : BatchRun T)
      → b.stopped ≡ true
      → (count_outcome n out b).stopped ≡ true
  count_outcome-stopped n out b h = ground arith

  moves-Parks :
      {X : Type 0} (concurrency : ℕ) (k : String) (its : List (Item T)) (d : Dispatcher T)
      → Parks k its d
      → Cases X concurrency (Parks k its) d
  moves-Parks concurrency k its d p =
      let kept : (l : Loop) (n : ℕ) → Parks k its (record d { loop = l; finished = n }) =
        λ l n. record { parked = p.parked; begun = p.begun } in
      record {
        stays = p;
        starts = λ j it rest _ _ _ s. record {
          parked = p.parked;
          begun = elim (Bool-cases (j == k)) [
            | inl e ↦ absurd (
                ground
                  (arith, ap d.batch.parked ((string_eq.equal_iff j k).1 e), s.unparked, p.parked))
            | inr e ↦ start_other d j k it e ∙ p.begun
          ];
        };
        waits = λ _ _. kept Loop.blocks d.finished;
        ends = λ _ _ _. kept Loop.ended d.finished;
        wakes = λ _ _. kept Loop.looks (d.finished - 1);
        settles = λ i out j at _. record {
          parked =
              count_outcome-parked j.key k out
                (record d.batch {
                  in_use = mark d.batch.in_use j.key false;
                  active = d.batch.active - 1;
                })
                p.parked;
          begun = chain-set_elem k d.jobs i j sends at ∙ p.begun;
        };
        sends_on = λ i j at _. record {
          parked = p.parked;
          begun = chain-set_elem k d.jobs i j gone at ∙ p.begun;
        };
      }

  moves-Halts :
      {X : Type 0} (concurrency : ℕ) (its : String → List (Item T)) (d : Dispatcher T)
      → Halts its d
      → Cases X concurrency (Halts its) d
  moves-Halts concurrency its d p =
      let kept : (l : Loop) (n : ℕ) → Halts its (record d { loop = l; finished = n }) =
        λ l n. record { stopped = p.stopped; begun = p.begun } in
      record {
        stays = p;
        starts = λ _ _ _ _ runs _ _. absurd (ground (arith, runs, p.stopped));
        waits = λ _ _. kept Loop.blocks d.finished;
        ends = λ _ _ _. kept Loop.ended d.finished;
        wakes = λ _ _. kept Loop.looks (d.finished - 1);
        settles = λ i out j at _. record {
          stopped =
              count_outcome-stopped j.key out
                (record d.batch {
                  in_use = mark d.batch.in_use j.key false;
                  active = d.batch.active - 1;
                })
                p.stopped;
          begun = λ k. chain-set_elem k d.jobs i j sends at ∙ p.begun k;
        };
        sends_on = λ i j at _. record {
          stopped = p.stopped;
          begun = λ k. chain-set_elem k d.jobs i j gone at ∙ p.begun k;
        };
      }

  count_outcome_holds :
      {X : Type 0} (j k : String) (out : Option (Outcome X)) (b : BatchRun T)
      → holds_back j out k ≡ true
      → ((count_outcome j out b).stopped ≡ true) ⊎ ((count_outcome j out b).parked k ≡ true)
  count_outcome_holds j k out b h = ground (arith, h)

module _ {T X : Type 0} (concurrency : ℕ) where
  pub step-settle :
      (i : ℕ) (out : Option (Outcome X)) (j : Job T) (d : Dispatcher T)
      → get_elem? d.jobs i ≡ some j
      → j.stage ≡ works
      → step concurrency (settle i out) d ≡ settled i out j works d
  step-settle i out j d at now =
      ap
        (λ (o : Option (Job T)). elim o as (λ _. Dispatcher T) [
          | none ↦ d
          | some j ↦ settled i out j j.stage d
        ])
        at
      ∙ ap (λ s. settled i out j s d) now

  -- Once an item in work has failed, no further item of its ordering key starts, however the run
  -- goes on; once one has been deferred, or the run is stopping, no further item of any key does.
  pub nothing_overtakes :
      (out : Option (Outcome X)) (i : ℕ) (j : Job T) (k : String) (d : Dispatcher T)
      (moves : List (Move X))
      → get_elem? d.jobs i ≡ some j
      → j.stage ≡ works
      → holds_back j.key out k ≡ true
      → chain k (run concurrency moves (step concurrency (settle i out) d)).jobs ≡ chain k d.jobs
  nothing_overtakes out i j k d moves at now h =
      let d' = settled i out j works d in
      let same : (n : String) → chain n d'.jobs ≡ chain n d.jobs =
        λ n. chain-set_elem n d.jobs i j sends at in
      let b = record d.batch {
        in_use = mark d.batch.in_use j.key false;
        active = d.batch.active - 1;
      } in
      subst (λ x. chain k (run concurrency moves x).jobs ≡ chain k d.jobs)
        (sym (step-settle i out j d at now))
        (elim (count_outcome_holds j.key k out b h) [
          | inl stopped ↦
              (run_keeps concurrency (Halts (λ n. chain n d'.jobs)) moves d'
                  (moves-Halts concurrency (λ n. chain n d'.jobs))
                  (record { stopped = stopped; begun = λ n. refl })).begun
                k
              ∙ same k
          | inr parked ↦
              (run_keeps concurrency (Parks k (chain k d'.jobs)) moves d'
                (moves-Parks concurrency k (chain k d'.jobs))
                (record { parked = parked; begun = refl })).begun
              ∙ same k
        ])
