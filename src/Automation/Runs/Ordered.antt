-- ===== src/Automation/Runs/Ordered.antt =====
-- The items of an ordering key, as they start.
use eventsourcing.Shared.{
  ℕ, suc, ◌-◌, ◌≡◌, refl, ap, sym, ◌∙◌, String, string_eq, nat_eq, Bool, true, false, Option, none,
  some, List, [], ◌∷◌, ◌++◌, append-nil, append_assoc, ◌==◌, get_elem?, set_elem, any, match_cases,
  any-append, arith, Bool-cases, inl, inr, if◌then◌else◌, zero, ◌⊎◌,
}
use eventsourcing.Shared.Dict
use eventsourcing.Shared.Dict.{Dict, get-put}
use eventsourcing.Automation.Items.{Item, Outcome}
use eventsourcing.Automation.Runs.{
  BatchRun, Dispatcher, Job, Stage, works, sends, gone, Loop, looks, blocks, ended, Move, started,
  settled, run, run_batch, count_outcome, mark, add_items, add_item, new_batch_run, queue,
}
use eventsourcing.Automation.Runs.Moves.{Cases, Starts, popped, run_keeps}
use eventsourcing.Automation.Runs.Exclusive.{count_outcome-queues, count_outcome-order}

module _ {T : Type 0} where
  -- The items of a key that have started, in the order of their starts.
  abbrev pub chain : String → List (Job T) → List (Item T)
  chain k [] = []
  chain k (j ∷ js) = let rest = chain k js in if j.key == k then j.item ∷ rest else rest

  -- The items of a key among those claimed, in claim order.
  abbrev pub of_key : (ℕ → Item T → String) → ℕ → String → List (Item T) → List (Item T)
  of_key sk i k [] = []
  of_key sk i k (it ∷ its) =
      let rest = of_key sk (suc i) k its in if sk i it == k then it ∷ rest else rest

  pub chain-append :
      (k : String) (js : List (Job T)) (j : Job T)
      → chain k (js ++ j ∷ []) ≡ chain k js ++ (if j.key == k then j.item ∷ [] else [])
  chain-append k [] j = ground arith
  chain-append k (x ∷ js) j = ground (arith, chain-append k js j)

  pub chain-set_elem :
      (k : String) (js : List (Job T)) (i : ℕ) (j : Job T) (s : Stage)
      → get_elem? js i ≡ some j
      → chain k (set_elem js i (record j { stage = s })) ≡ chain k js
  chain-set_elem k [] i j s h = refl
  chain-set_elem k (x ∷ js) zero j s h = ground (arith, h)
  chain-set_elem k (x ∷ js) (suc i) j s h = rw (chain-set_elem k js i j s h) refl

  pub queue-put :
      (b : BatchRun T) (j k : String) (q : List (Item T))
      → queue (popped b j q) k ≡ (if j == k then q else queue b k)
  queue-put b j k q = ground (arith, get-put b.queues j k q)

  -- A key with a queue is in the order.
  abbrev pub Known : BatchRun T → Type 0
  Known b = (k : String) → (any (λ j. j == k) b.order ≡ true) ⊎ (Dict.get b.queues k ≡ none)

  queue_same : (k : String) (b c : BatchRun T) → b.queues ≡ c.queues → queue b k ≡ queue c k
  queue_same k b c e =
      ap
        (λ (qs : Dict String (List (Item T))). elim (Dict.get qs k) as (λ _. List (Item T)) [
          | none ↦ []
          | some q ↦ q
        ])
        e

  same_order_lem : (b c : BatchRun T) → b.order ≡ c.order → b.queues ≡ c.queues → Known c → Known b
  same_order_lem b c o q known k = elim (known k) [
    | inl h ↦ inl (ap (any (λ j. j == k)) o ∙ h)
    | inr h ↦ inr (ap (λ (qs : Dict String (List (Item T))). Dict.get qs k) q ∙ h)
  ]

  put-Known :
      (order : List String) (b : BatchRun T) (j : String) (q : List (Item T))
      → any (λ i. i == j) order ≡ true
      → ((k : String) → any (λ i. i == k) b.order ≡ true → any (λ i. i == k) order ≡ true)
      → Known b
      → Known (record b { order = order; queues = Dict.put b.queues j q })
  put-Known order b j q here more known k = elim (Bool-cases (j == k)) [
    | inl e ↦ inl (ap (λ n. any (λ i. i == n) order) (sym ((string_eq.equal_iff j k).1 e)) ∙ here)
    | inr e ↦ elim (known k) [
      | inl h ↦ inl (more k h)
      | inr h ↦ inr (rw (get-put b.queues j k q, e) h)
    ]
  ]

  queue-add_item :
      (b : BatchRun T) (j k : String) (it : Item T)
      → queue (add_item j it b) k ≡ queue b k ++ (if j == k then it ∷ [] else [])
  queue-add_item b j k it = elim (Bool-cases (j == k)) [
    | inl e ↦
        rw (queue-put b j k (queue b j ++ it ∷ []), e)
          (ap (λ n. queue b n ++ it ∷ []) ((string_eq.equal_iff j k).1 e))
    | inr e ↦ rw (queue-put b j k (queue b j ++ it ∷ []), e) (sym (append-nil (queue b k)))
  ]

  append_if :
      (q : List (Item T)) (here : Bool) (it : Item T) (r : List (Item T))
      → (q ++ (if here then it ∷ [] else [])) ++ r ≡ q ++ (if here then it ∷ r else r)
  append_if q true it r = append_assoc q (it ∷ []) r
  append_if q false it r = append_assoc q [] r

  if_append :
      (here : Bool) (it : Item T) (r : List (Item T))
      → (if here then it ∷ r else r) ≡ (if here then it ∷ [] else []) ++ r
  if_append true it r = refl
  if_append false it r = refl

  pub queue-add_items :
      (sk : ℕ → Item T → String) (i : ℕ) (items : List (Item T)) (b : BatchRun T) (k : String)
      → queue (add_items sk i items b) k ≡ queue b k ++ of_key sk i k items
  unfolding add_items
  queue-add_items sk i [] b k = sym (append-nil (queue b k))
  queue-add_items sk i (it ∷ its) b k =
      queue-add_items sk (suc i) its (add_item (sk i it) it b) k
      ∙ ap (λ q. q ++ of_key sk (suc i) k its) (queue-add_item b (sk i it) k it)
      ∙ append_if (queue b k) (sk i it == k) it (of_key sk (suc i) k its)

  present :
      (b : BatchRun T) (j : String) {q : List (Item T)}
      → Dict.get b.queues j ≡ some q
      → Known b
      → any (λ i. i == j) b.order ≡ true
  present b j at known = elim (known j) [ inl h ↦ h | inr h ↦ absurd (ground (arith, at, h)) ]

  has_queue :
      (o : Option (List (Item T))) (it : Item T) (rest : List (Item T))
      → elim o as (λ _. List (Item T)) [ none ↦ [] | some q ↦ q ] ≡ it ∷ rest
      → (q : List (Item T)) × (o ≡ some q)
  has_queue none it rest h = cc
  has_queue (some q) it rest h = (q, refl)

  add_item-Known : (b : BatchRun T) (j : String) (it : Item T) → Known b → Known (add_item j it b)
  add_item-Known b j it known =
      match_cases
        (λ (o : List String).
          Known (record b { order = o; queues = Dict.put b.queues j (queue b j ++ it ∷ []) }))
        (Dict.get b.queues j) (b.order ++ j ∷ []) (λ _. b.order)
        (λ _.
          put-Known (b.order ++ j ∷ []) b j (queue b j ++ it ∷ [])
            (ground (arith, any-append (λ i. i == j) b.order (j ∷ []), string_eq.equal_iff j j))
            (λ k h. ground (arith, any-append (λ i. i == k) b.order (j ∷ []), h)) known)
        (λ q at.
          put-Known b.order b j (queue b j ++ it ∷ []) (present b j at known) (λ k h. h) known)

  add_items-Known :
      (sk : ℕ → Item T → String) (i : ℕ) (items : List (Item T)) (b : BatchRun T)
      → Known b
      → Known (add_items sk i items b)
  unfolding add_items
  add_items-Known sk i [] b known = known
  add_items-Known sk i (it ∷ its) b known =
      add_items-Known sk (suc i) its (add_item (sk i it) it b) (add_item-Known b (sk i it) it known)

-- Of each key, the items that have started and those that wait are the key's, in claim order, and a
-- key with items that wait is in the batch's order.
pub record InOrder {T : Type 0} (items : String → List (Item T)) (d : Dispatcher T) : Type 0 where
  pub chains : (k : String) → chain k d.jobs ++ queue d.batch k ≡ items k
  pub known : Known d.batch

module _ {T : Type 0} (items : String → List (Item T)) where
  start-InOrder :
      (d : Dispatcher T) (j : String) (it : Item T) (rest : List (Item T))
      → Starts d.batch j it rest
      → InOrder items d
      → InOrder items (started (some (j, it, popped d.batch j rest)) d)
  start-InOrder d j it rest s o = record {
    chains = λ k.
        let new : Job T = record { key = j; item = it; stage = works } in
        rw (chain-append k d.jobs new, queue-put d.batch j k rest)
          (elim (Bool-cases (j == k)) [
            | inl e ↦ rw e (
                append_assoc (chain k d.jobs) (it ∷ []) rest
                ∙ ap (λ q. chain k d.jobs ++ q)
                    (sym s.head ∙ ap (queue d.batch) ((string_eq.equal_iff j k).1 e))
                ∙ o.chains k)
            | inr e ↦ rw (e, append-nil (chain k d.jobs)) (o.chains k)
          ]);
    known =
        let (q, at) = has_queue (Dict.get d.batch.queues j) it rest s.head in
        put-Known d.batch.order d.batch j rest (present d.batch j at o.known) (λ k h. h) o.known;
  }

  settle-InOrder :
      {X : Type 0} (d : Dispatcher T) (i : ℕ) (out : Option (Outcome X)) (j : Job T)
      → get_elem? d.jobs i ≡ some j
      → InOrder items d
      → InOrder items (settled i out j works d)
  settle-InOrder d i out j at o =
      let b = record d.batch {
        in_use = mark d.batch.in_use j.key false;
        active = d.batch.active - 1;
      } in
      record {
        chains = λ k. rw (chain-set_elem k d.jobs i j sends at) (
            ap (λ q. chain k d.jobs ++ q)
              (queue_same k (count_outcome j.key out b) d.batch (count_outcome-queues j.key out b))
            ∙ o.chains k);
        known =
            same_order_lem (count_outcome j.key out b) d.batch (count_outcome-order j.key out b)
              (count_outcome-queues j.key out b) o.known;
      }

  pub moves-InOrder :
      {X : Type 0} (concurrency : ℕ) (d : Dispatcher T)
      → InOrder items d
      → Cases X concurrency (InOrder items) d
  moves-InOrder concurrency d o =
      let kept : (l : Loop) (n : ℕ) → InOrder items (record d { loop = l; finished = n }) =
        λ l n. record { chains = o.chains; known = o.known } in
      record {
        stays = o;
        starts = λ k it rest _ _ _ s. start-InOrder d k it rest s o;
        waits = λ _ _. kept blocks d.finished;
        ends = λ _ _ _. kept ended d.finished;
        wakes = λ _ _. kept looks (d.finished - 1);
        settles = λ i out j at _. settle-InOrder d i out j at o;
        sends_on = λ i j at _. record {
          chains = λ k. rw (chain-set_elem k d.jobs i j gone at) (o.chains k);
          known = o.known;
        };
      }

module _ {T X : Type 0} (concurrency : ℕ) (sk : ℕ → Item T → String) where
  -- However the goroutines of a batch interleave, of each ordering key the items that have started,
  -- in the order of their starts, followed by those that wait, are the batch's items of that key in
  -- claim order: none is lost, started twice, or started before one claimed earlier.
  pub run-InOrder :
      (items : List (Item T)) (moves : List (Move X))
      → InOrder (λ k. of_key sk 0 k items) (run concurrency moves (run_batch sk items))
  unfolding Dict.get
  run-InOrder items moves =
      run_keeps concurrency (InOrder (λ k. of_key sk 0 k items)) moves (run_batch sk items)
        (moves-InOrder (λ k. of_key sk 0 k items) concurrency)
        (record {
          chains = λ k. queue-add_items sk 0 items new_batch_run k;
          known = add_items-Known sk 0 items new_batch_run (λ k. inr refl);
        })
