-- ===== src/CommandBus/Counted.antt =====
-- The two wait groups, and what Stop may conclude from them.
use eventsourcing.Shared.{
  bit, count, count-append, count-set_elem, update, update_cases, ℕ, ◌+◌, ◌-◌, ◌≡◌, refl, ap, ◌∙◌,
  string_eq, Bool, true, false, ◌||◌, some, List, ◌==◌, nat_eq, get_elem?, arith, if_cases,
}
use eventsourcing.CommandBus.{
  CommandBus, Caller, Command, Worker, exited, Progress, entering, waiting, returned, is_entering,
  is_waiting, set_caller, dispatch, is_empty,
}

abbrev pub is_active : {A X : Type 0} → Caller A X → Bool
is_active c = is_entering c || is_waiting c

abbrev pub is_exited : Worker → Bool
is_exited exited = true
is_exited _ = false

one_place :
    {X : Type 0} (p : Progress X)
    → elim p [ waiting ↦ true | _ ↦ false ] ≡ true
    → elim p [ entering ↦ true | _ ↦ false ] ≡ false
one_place entering h = absurd (ground (arith, h))
one_place waiting h = refl
one_place (returned r) h = refl

-- The wait groups count the calls of Dispatch that have not returned, and those that may still
-- enqueue; drainCh is closed only once there are none of these; and a worker is gone only then, with
-- its queue empty.
pub record Counted {A X H : Type 0} (b : CommandBus A X H) : Type 0 where
  pub wg : b.wg ≡ count is_active b.callers
  pub enqueue_wg : b.enqueue_wg ≡ count is_entering b.callers
  pub drained : b.drain_closed ≡ true → (b.stop_closed ≡ true) × (b.enqueue_wg ≡ 0)
  pub gone :
      (k : ℕ)
      → is_exited (b.workers k) ≡ true
      → (is_empty (b.queues k) ≡ true) × (b.drain_closed ≡ true)

pub waits_only : {A X : Type 0} (x : Caller A X) → is_waiting x ≡ true → is_entering x ≡ false
waits_only x = one_place x.progress

pub other_gone :
    (f : ℕ → Worker) (k j : ℕ) (w : Worker)
    → is_exited w ≡ false
    → is_exited (update f k w j) ≡ true
    → (is_exited (f j) ≡ true) × ((k == j) ≡ false)
other_gone f k j w stays =
    update_cases (λ v. is_exited v ≡ true → (is_exited (f j) ≡ true) × ((k == j) ≡ false)) f k j w
      (λ _ h. absurd (ground (arith, stays, h))) (λ other h. (h, other))

module _ {A X H : Type 0} where
  pub dispatch-Counted :
      (cmd : Command A) (b : CommandBus A X H) → Counted b → Counted (dispatch cmd b)
  unfolding dispatch
  dispatch-Counted cmd b c =
      if_cases Counted b.stop_closed _ _
        (λ closed. record {
          wg = omega (arith, c.wg, count-append is_active b.callers _);
          enqueue_wg = omega (arith, c.enqueue_wg, count-append is_entering b.callers _);
          drained = c.drained;
          gone = c.gone;
        })
        (λ open_. record {
          wg = omega (arith, c.wg, count-append is_active b.callers _);
          enqueue_wg = omega (arith, c.enqueue_wg, count-append is_entering b.callers _);
          drained = λ h. absurd (ground (arith, open_, (c.drained h).0));
          gone = c.gone;
        })

  -- A caller that goes on, with the wait groups as far down as it is out of their count.
  pub set-Counted :
      (i : ℕ) (x y : Caller A X) (b : CommandBus A X H) (m n w e : ℕ)
      → get_elem? b.callers i ≡ some x
      → bit (is_active x) ≡ m + bit (is_active y)
      → bit (is_entering x) ≡ n + bit (is_entering y)
      → w ≡ b.wg - m
      → e ≡ b.enqueue_wg - n
      → Counted b
      → Counted (record (set_caller i y b) { wg = w; enqueue_wg = e })
  set-Counted i x y b m n w e at active enters hw he c = record {
    wg = omega (arith, c.wg, active, hw, count-set_elem is_active b.callers i y at);
    enqueue_wg =
        omega (arith, c.enqueue_wg, enters, he, count-set_elem is_entering b.callers i y at);
    drained = λ h. let (closed, none_left) = c.drained h in (closed, omega (arith, none_left, he));
    gone = c.gone;
  }

  -- Workers and queues that change where no worker is gone.
  pub work-Counted :
      (workers : ℕ → Worker) (queues : ℕ → List ℕ) (b : CommandBus A X H)
      → ((j : ℕ)
          → is_exited (workers j) ≡ true
          → (is_exited (b.workers j) ≡ true) × (queues j ≡ b.queues j))
      → Counted b
      → Counted (record b { workers = workers; queues = queues })
  work-Counted workers queues b stay c = record {
    wg = c.wg;
    enqueue_wg = c.enqueue_wg;
    drained = c.drained;
    gone = λ j h.
        let (left, same) = stay j h in
        let (empty, closed) = c.gone j left in (ap is_empty same ∙ empty, closed);
  }
