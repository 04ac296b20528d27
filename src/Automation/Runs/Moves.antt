-- ===== src/Automation/Runs/Moves.antt =====
-- What a move of a batch's goroutines does, case by case, and what `next` finds.
use eventsourcing.Shared.{
  ℕ, ◌-◌, ◌<◌, ◌≡◌, refl, subst, sym, ◌⊎◌, inl, inr, String, string_eq, nat_eq, true, false, ◌||◌,
  Option, none, some, List, [], ◌∷◌, ◌==◌, leb, any, get_elem?, if_cases, match_cases, Bool-cases,
  arith,
}
use eventsourcing.Shared.Dict
use eventsourcing.Automation.Items.{Item, Outcome}
use eventsourcing.Automation.Runs.{
  BatchRun, Dispatcher, Job, Stage, works, sends, gone, Loop, looks, blocks, ended, Move, look,
  wake, settle, send, queue, next_of, next, started, looked, woken, settled, sent, step, run,
}

queue_cases {κ} :
    {C D : Type 0} (P : D → Type κ) (q : List C) (d : D) (f : C → List C → D)
    → (q ≡ [] → P d)
    → ((x : C) (r : List C) → q ≡ x ∷ r → P (f x r))
    → P (elim q [ [] ↦ d | x ∷ r ↦ f x r ])
queue_cases P [] d f left right = left refl
queue_cases P (x ∷ r) d f left right = right x r refl

module _ {T : Type 0} where
  -- No item of the key can start.
  abbrev pub Held : BatchRun T → String → Type 0
  Held b k = (queue b k ≡ []) ⊎ ((b.in_use k || b.parked k) ≡ true)

  -- The head of the key's queue can start.
  pub record Starts (b : BatchRun T) (k : String) (it : Item T) (rest : List (Item T))
      : Type 0 where
    pub head : queue b k ≡ it ∷ rest
    pub free : b.in_use k ≡ false
    pub unparked : b.parked k ≡ false

  abbrev pub popped : BatchRun T → String → List (Item T) → BatchRun T
  popped b k rest = record b { queues = Dict.put b.queues k rest }

  -- What a search through the keys has found.
  abbrev Found : List String → BatchRun T → Option (String × Item T × BatchRun T) → Type 0
  Found ks b none = (k : String) → any (λ j. j == k) ks ≡ true → Held b k
  Found ks b (some (k, it, b')) =
      (rest : List (Item T)) × Starts b k it rest × (b' ≡ popped b k rest)

  passed_over :
      (k : String) (ks : List String) (b : BatchRun T)
      (found : Option (String × Item T × BatchRun T))
      → Held b k
      → Found ks b found
      → Found (k ∷ ks) b found
  passed_over k ks b (some x) held f = f
  passed_over k ks b none held f = λ j h. elim (Bool-cases (k == j)) [
    | inl e ↦ subst (Held b) ((string_eq.equal_iff k j).1 e) held
    | inr e ↦ f j (ground (arith, h, e))
  ]

  next_of-Found : (ks : List String) (b : BatchRun T) → Found ks b (next_of ks b)
  unfolding next_of
  next_of-Found [] b = λ k h. absurd (ground (arith, h))
  next_of-Found (k ∷ ks) b =
      queue_cases (Found (k ∷ ks) b) (queue b k) _ _
        (λ e. passed_over k ks b (next_of ks b) (inl e) (next_of-Found ks b))
        (λ it rest e.
          if_cases (Found (k ∷ ks) b) (b.in_use k || b.parked k) _ _
            (λ h. passed_over k ks b (next_of ks b) (inr h) (next_of-Found ks b))
            (λ h. (
              rest,
              record { head = e; free = ground (arith, h); unparked = ground (arith, h) },
              refl,
            )))

  -- A batch from which nothing can start.
  abbrev pub Stuck : ℕ → BatchRun T → Type 0
  Stuck concurrency b =
      ((b.stopped || leb concurrency b.active) ≡ true)
      ⊎ ((k : String) → any (λ j. j == k) b.order ≡ true → Held b k)

  -- A property of the state after a move follows from these.
  pub record Cases {κ} (X : Type 0) (concurrency : ℕ) (P : Dispatcher T → Type κ) (d : Dispatcher T)
      : Type κ where
    pub stays : P d
    pub starts :
        (k : String) (it : Item T) (rest : List (Item T))
        → d.loop ≡ looks
        → d.batch.stopped ≡ false
        → d.batch.active < concurrency
        → Starts d.batch k it rest
        → P (started (some (k, it, popped d.batch k rest)) d)
    pub waits : d.loop ≡ looks → (d.batch.active == 0) ≡ false → P (record d { loop = blocks })
    pub ends :
        d.loop ≡ looks
        → (d.batch.active == 0) ≡ true
        → Stuck concurrency d.batch
        → P (record d { loop = ended })
    pub wakes :
        d.loop ≡ blocks
        → (d.finished == 0) ≡ false
        → P (record d { loop = looks; finished = d.finished - 1 })
    pub settles :
        (i : ℕ) (out : Option (Outcome X)) (j : Job T)
        → get_elem? d.jobs i ≡ some j
        → j.stage ≡ works
        → P (settled i out j works d)
    pub sends_on :
        (i : ℕ) (j : Job T) → get_elem? d.jobs i ≡ some j → j.stage ≡ sends → P (sent i j sends d)

module _ {κ} {T : Type 0} (P : Dispatcher T → Type κ) (d : Dispatcher T) where
  found_cases :
      (found : Option (String × Item T × BatchRun T))
      → (((k : String) → any (λ j. j == k) d.batch.order ≡ true → Held d.batch k)
          → P (started none d))
      → ((k : String) (it : Item T) (rest : List (Item T))
          → Starts d.batch k it rest
          → P (started (some (k, it, popped d.batch k rest)) d))
      → Found d.batch.order d.batch found
      → P (started found d)
  found_cases none idle start f = idle f
  found_cases (some (k, it, b')) idle start (rest, s, e) =
      subst (λ b. P (started (some (k, it, b)) d)) (sym e) (start k it rest s)

  look_cases :
      (l : Loop) (found : Option (String × Item T × BatchRun T))
      → d.loop ≡ l
      → P d
      → (d.loop ≡ looks → P (started found d))
      → P (looked found l d)
  look_cases looks found e stay start = start e
  look_cases blocks found e stay start = stay
  look_cases ended found e stay start = stay

  wake_cases :
      (l : Loop) → d.loop ≡ l → P d → (d.loop ≡ blocks → P (woken blocks d)) → P (woken l d)
  wake_cases looks e stay go = stay
  wake_cases blocks e stay go = go e
  wake_cases ended e stay go = stay

  settle_cases :
      {X : Type 0} (i : ℕ) (out : Option (Outcome X)) (j : Job T) (s : Stage)
      → j.stage ≡ s
      → P d
      → (j.stage ≡ works → P (settled i out j works d))
      → P (settled i out j s d)
  settle_cases i out j works e stay go = go e
  settle_cases i out j sends e stay go = stay
  settle_cases i out j gone e stay go = stay

  send_cases :
      (i : ℕ) (j : Job T) (s : Stage)
      → j.stage ≡ s
      → P d
      → (j.stage ≡ sends → P (sent i j sends d))
      → P (sent i j s d)
  send_cases i j works e stay go = stay
  send_cases i j sends e stay go = go e
  send_cases i j gone e stay go = stay

module _ {T : Type 0} (concurrency : ℕ) where
  pub looked_cases {κ} :
      (P : Dispatcher T → Type κ) (d : Dispatcher T)
      → ((k : String) (it : Item T) (rest : List (Item T))
          → d.loop ≡ looks
          → d.batch.stopped ≡ false
          → d.batch.active < concurrency
          → Starts d.batch k it rest
          → P (started (some (k, it, popped d.batch k rest)) d))
      → (d.loop ≡ looks → (d.batch.active == 0) ≡ false → P (record d { loop = blocks }))
      → (d.loop ≡ looks
          → (d.batch.active == 0) ≡ true
          → Stuck concurrency d.batch
          → P (record d { loop = ended }))
      → d.loop ≡ looks
      → P (started (next concurrency d.batch) d)
  unfolding next
  looked_cases P d starts waits ends e =
      let idle : Stuck concurrency d.batch → P (started none d) = λ stuck.
        if_cases (λ (l : Loop). P (record d { loop = l })) (d.batch.active == 0) ended blocks
          (λ h. ends e h stuck) (λ h. waits e h) in
      if_cases (λ (o : Option (String × Item T × BatchRun T)). P (started o d))
        (d.batch.stopped || leb concurrency d.batch.active) _ _ (λ h. idle (inl h))
        (λ h.
          found_cases P d (next_of d.batch.order d.batch) (λ f. idle (inr f))
            (λ k it rest s. starts k it rest e (ground (arith, h)) (ground (arith, h)) s)
            (next_of-Found d.batch.order d.batch))

module _ {T X : Type 0} (concurrency : ℕ) where
  pub step_cases {κ} :
      (P : Dispatcher T → Type κ) (m : Move X) (d : Dispatcher T)
      → Cases X concurrency P d
      → P (step concurrency m d)
  step_cases P look d c =
      look_cases P d d.loop (next concurrency d.batch) refl c.stays
        (looked_cases concurrency P d c.starts c.waits c.ends)
  step_cases P wake d c =
      wake_cases P d d.loop refl c.stays
        (λ e. if_cases P (d.finished == 0) _ _ (λ _. c.stays) (λ h. c.wakes e h))
  step_cases P (settle i out) d c =
      match_cases P (get_elem? d.jobs i) _ _ (λ _. c.stays)
        (λ j at. settle_cases P d i out j j.stage refl c.stays (c.settles i out j at))
  step_cases P (send i) d c =
      match_cases P (get_elem? d.jobs i) _ _ (λ _. c.stays)
        (λ j at. send_cases P d i j j.stage refl c.stays (c.sends_on i j at))

  -- An invariant of the moves holds after every run.
  pub run_keeps {κ} :
      (P : Dispatcher T → Type κ) (moves : List (Move X)) (d : Dispatcher T)
      → ((x : Dispatcher T) → P x → Cases X concurrency P x)
      → P d
      → P (run concurrency moves d)
  unfolding run
  run_keeps P [] d keeps p = p
  run_keeps P (m ∷ rest) d keeps p =
      run_keeps P rest (step concurrency m d) keeps (step_cases P m d (keeps d p))
