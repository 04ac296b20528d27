-- ===== src/Automation/Runs/Exclusive.antt =====
-- How many of a batch's items are in work at once.
use eventsourcing.Shared.{
  ℕ, suc, ◌-◌, ◌<◌, ◌≤◌, ◌≡◌, refl, ap, sym, ◌∙◌, String, string_eq, nat_eq, Bool, true, false,
  ◌&&◌, Option, some, List, [], ◌∷◌, ◌==◌, get_elem?, bit, count, count-append, count-set_elem,
  arith,
}
use eventsourcing.Automation.Items.{Item, Outcome}
use eventsourcing.Automation.Runs.{
  BatchRun, Dispatcher, Job, Stage, works, sends, gone, Loop, looks, blocks, ended, Move, started,
  settled, sent, run, run_batch, count_outcome, mark, add_items, add_item, new_batch_run,
}
use eventsourcing.Automation.Runs.Moves.{Cases, Starts, popped, run_keeps}

abbrev pub is_works : Stage → Bool
is_works works = true
is_works sends = false
is_works gone = false

abbrev pub in_work : {T : Type 0} → Job T → Bool
in_work j = is_works j.stage

abbrev pub works_on : {T : Type 0} → String → Job T → Bool
works_on k j = is_works j.stage && j.key == k

-- At most `concurrency` items are in work, and of an ordering key at most one.
pub record Exclusive {T : Type 0} (concurrency : ℕ) (d : Dispatcher T) : Type 0 where
  pub active : count in_work d.jobs ≡ d.batch.active
  pub bounded : d.batch.active ≤ concurrency
  pub one : (k : String) → count (works_on k) d.jobs ≡ bit (d.batch.in_use k)

module _ {T X : Type 0} (k : String) (out : Option (Outcome X)) (b : BatchRun T) where
  pub count_outcome-active : (count_outcome k out b).active ≡ b.active
  count_outcome-active = ground arith

  pub count_outcome-in_use : (count_outcome k out b).in_use ≡ b.in_use
  count_outcome-in_use = ground arith

  pub count_outcome-queues : (count_outcome k out b).queues ≡ b.queues
  count_outcome-queues = ground arith

  pub count_outcome-order : (count_outcome k out b).order ≡ b.order
  count_outcome-order = ground arith

module _ {T : Type 0} (concurrency : ℕ) where
  start-Exclusive :
      (d : Dispatcher T) (k : String) (it : Item T) (rest : List (Item T))
      → d.batch.active < concurrency
      → Starts d.batch k it rest
      → Exclusive concurrency d
      → Exclusive concurrency (started (some (k, it, popped d.batch k rest)) d)
  start-Exclusive d k it rest room s e =
      let new : Job T = record { key = k; item = it; stage = works } in
      record {
        active = omega (arith, count-append in_work d.jobs new, e.active);
        bounded = omega (arith, room);
        one = λ j. ground (
          arith,
          count-append (works_on j) d.jobs new,
          e.one j,
          ap d.batch.in_use ((string_eq.equal_iff k j).1 _),
          s.free,
        );
      }

  settle-Exclusive :
      {X : Type 0} (d : Dispatcher T) (i : ℕ) (out : Option (Outcome X)) (j : Job T)
      → get_elem? d.jobs i ≡ some j
      → j.stage ≡ works
      → Exclusive concurrency d
      → Exclusive concurrency (settled i out j works d)
  settle-Exclusive d i out j at now e =
      let b = record d.batch {
        in_use = mark d.batch.in_use j.key false;
        active = d.batch.active - 1;
      } in
      let y = record j { stage = sends } in
      let w : in_work j ≡ true = ap is_works now in
      record {
        active =
            omega (arith, ap bit w, count-set_elem in_work d.jobs i y at, e.active)
            ∙ sym (count_outcome-active j.key out b);
        bounded = omega (arith, count_outcome-active j.key out b, e.bounded);
        one = λ k.
            ground (arith, w, count-set_elem (works_on k) d.jobs i y at, e.one k)
            ∙ ap (λ (f : String → Bool). bit (f k)) (sym (count_outcome-in_use j.key out b));
      }

  send-Exclusive :
      (d : Dispatcher T) (i : ℕ) (j : Job T)
      → get_elem? d.jobs i ≡ some j
      → j.stage ≡ sends
      → Exclusive concurrency d
      → Exclusive concurrency (sent i j sends d)
  send-Exclusive d i j at now e =
      let y = record j { stage = gone } in
      let w : in_work j ≡ false = ap is_works now in
      record {
        active = omega (arith, ap bit w, count-set_elem in_work d.jobs i y at, e.active);
        bounded = e.bounded;
        one = λ k. ground (arith, w, count-set_elem (works_on k) d.jobs i y at, e.one k);
      }

  pub moves-Exclusive :
      {X : Type 0} (d : Dispatcher T)
      → Exclusive concurrency d
      → Cases X concurrency (Exclusive concurrency) d
  moves-Exclusive d e =
      let kept : (l : Loop) (n : ℕ) → Exclusive concurrency (record d { loop = l; finished = n }) =
        λ l n. record { active = e.active; bounded = e.bounded; one = e.one } in
      record {
        stays = e;
        starts = λ k it rest _ _ room s. start-Exclusive d k it rest room s e;
        waits = λ _ _. kept blocks d.finished;
        ends = λ _ _ _. kept ended d.finished;
        wakes = λ _ _. kept looks (d.finished - 1);
        settles = λ i out j at now. settle-Exclusive d i out j at now e;
        sends_on = λ i j at now. send-Exclusive d i j at now e;
      }

-- The loop over the items neither counts nor marks.
pub add_items-fresh :
    {T : Type 0} (sk : ℕ → Item T → String) (i : ℕ) (items : List (Item T)) (b : BatchRun T)
    → ((add_items sk i items b).active ≡ b.active) × ((add_items sk i items b).in_use ≡ b.in_use)
unfolding add_items
add_items-fresh sk i [] b = (refl, refl)
add_items-fresh sk i (it ∷ its) b = add_items-fresh sk (suc i) its (add_item (sk i it) it b)

-- However the goroutines of a batch interleave, at most `concurrency` of its items are in work, of
-- an ordering key at most one, and the batch's count and marks say so.
pub run-Exclusive :
    {T X : Type 0} (concurrency : ℕ) (sk : ℕ → Item T → String) (items : List (Item T))
    (moves : List (Move X))
    → Exclusive concurrency (run concurrency moves (run_batch sk items))
run-Exclusive concurrency sk items moves =
    let (quiet, free) = add_items-fresh sk 0 items new_batch_run in
    run_keeps concurrency (Exclusive concurrency) moves (run_batch sk items)
      (moves-Exclusive concurrency)
      (record {
        active = sym quiet;
        bounded = omega (arith, quiet);
        one = λ k. ap (λ (f : String → Bool). bit (f k)) (sym free);
      })
