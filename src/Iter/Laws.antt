-- ===== src/Iter/Laws.antt =====
-- The life of an iterator: it is closed once, and after that it yields nothing and keeps its error.
use eventsourcing.Shared.{
  ℕ, ◌+◌, ◌≡◌, refl, Bool, true, false, Option, none, some, List, [], ◌∷◌, arith, if_cases, ◌⊎◌,
  inl, inr, if◌then◌else◌,
}
use eventsourcing.Iter.{
  Pulled, item, eof, failed, Source, Iterator, new_iterator, close, finish, next, value, after_pull,
  after_ctx,
}

-- What a client can do with an iterator.
pub data Call : Type 0 where
  calls_next calls_close : Call

module _ {W E T : Type 0} where
  after_pull_cases {ℓ} :
      (P : Iterator W E T × Bool → Type ℓ) (it : Iterator W E T) (p : Pulled E T)
      → ((e : Option E) → P (finish it e, false))
      → ((v : T) → p ≡ item v → P (record it { current = some v }, true))
      → P (after_pull it p)
  unfolding after_pull
  after_pull_cases P it (item v) ended got = got v refl
  after_pull_cases P it eof ended got = ended none
  after_pull_cases P it (failed e) ended got = ended (some e)

  after_ctx_cases {ℓ} :
      (P : Iterator W E T × Bool → Type ℓ) (it : Iterator W E T) (o : Option E)
      → ((w : W) (e : Option E)
          → (w ≡ it.world) ⊎ (w ≡ (it.source.next it.world).1)
          → P (finish (record it { world = w }) e, false))
      → ((v : T)
          → (it.source.next it.world).0 ≡ item v
          → P (record it { world = (it.source.next it.world).1; current = some v }, true))
      → P (after_ctx it o)
  unfolding after_ctx
  after_ctx_cases P it (some e) ended got = ended it.world (some e) (inl refl)
  after_ctx_cases P it none ended got =
      let w = (it.source.next it.world).1 in
      after_pull_cases P (record it { world = w }) (it.source.next it.world).0
        (λ e. ended w e (inr refl)) got

  -- The three ways a `Next` goes.
  pub next_cases {ℓ} :
      (P : Iterator W E T × Bool → Type ℓ) (it : Iterator W E T)
      → (it.done ≡ true → P (it, false))
      → ((w : W) (e : Option E)
          → it.done ≡ false
          → (w ≡ it.world) ⊎ (w ≡ (it.source.next it.world).1)
          → P (finish (record it { world = w }) e, false))
      → ((v : T)
          → it.done ≡ false
          → (it.source.next it.world).0 ≡ item v
          → P (record it { world = (it.source.next it.world).1; current = some v }, true))
      → P (next it)
  unfolding next
  next_cases P it over ended got =
      if_cases P it.done (it, false) (after_ctx it (it.source.ctx_err it.world)) over
        λ d. after_ctx_cases P it (it.source.ctx_err it.world) (λ w e. ended w e d) (λ v. got v d)

  finish-done : (it : Iterator W E T) (e : Option E) → (finish it e).done ≡ true
  unfolding finish close
  finish-done it e = ground arith

  pub done-close : (it : Iterator W E T) → (close it).done ≡ true
  unfolding close
  done-close it = ground arith

  -- After the end, `Next` changes nothing and returns false, and `Close` changes nothing.
  pub next-done : (it : Iterator W E T) → it.done ≡ true → next it ≡ (it, false)
  unfolding next
  next-done it h = ground arith

  pub close-done : (it : Iterator W E T) → it.done ≡ true → close it ≡ it
  unfolding close
  close-done it h = ground arith

  unfoldable pub call : Iterator W E T → Call → Iterator W E T
  call it calls_next = (next it).0
  call it calls_close = close it

  unfoldable pub run : Iterator W E T → List Call → Iterator W E T
  run it [] = it
  run it (c ∷ cs) = run (call it c) cs

  -- A false `Next` leaves the iterator done with no current item; a true one leaves it open with
  -- one.
  next_result :
      (it : Iterator W E T)
      → ((next it).1 ≡ true → ((next it).0.done ≡ false) × ((v : T) × (value (next it).0 ≡ some v)))
        × ((next it).1 ≡ false → (next it).0.done ≡ true)
  unfolding value
  next_result it =
      next_cases
        (λ r.
          (r.1 ≡ true → (r.0.done ≡ false) × ((v : T) × (value r.0 ≡ some v)))
          × (r.1 ≡ false → r.0.done ≡ true))
        it (λ d. (λ h. cc, λ h. d))
        (λ w e d from. (λ h. cc, λ h. finish-done (record it { world = w }) e))
        (λ v d got. (λ h. (d, (v, refl)), λ h. cc))

module _ {W E T : Type 0} (opened : W → ℕ) (f : W → Option E × W)
    (closes : (w : W) → opened (f w).1 ≡ opened w + 1) where
  abbrev Counted : ℕ → Iterator W E T → Type 0
  Counted n it =
      (it.source.close ≡ some f)
      × ((w : W) → opened (it.source.next w).1 ≡ opened w)
      × (opened it.world ≡ (if it.done then n + 1 else n))

  close-Counted : (n : ℕ) (it : Iterator W E T) → Counted n it → Counted n (close it)
  unfolding close
  close-Counted n it (c, k, o) = ground (arith, closes it.world)

  finish-Counted :
      (n : ℕ) (it : Iterator W E T) (e : Option E) → Counted n it → Counted n (finish it e)
  unfolding finish
  finish-Counted n it e h = close-Counted n (record it { error = e }) h

  next-Counted : (n : ℕ) (it : Iterator W E T) → Counted n it → Counted n (next it).0
  next-Counted n it (c, k, o) =
      next_cases (λ r. Counted n r.0) it (λ d. (c, k, o))
        (λ w e d from.
          finish-Counted n (record it { world = w }) e (c, k, ground (arith, k it.world)))
        (λ v d got. (c, k, ground (arith, k it.world)))

  call-Counted : (n : ℕ) (it : Iterator W E T) (c : Call) → Counted n it → Counted n (call it c)
  unfolding call
  call-Counted n it calls_next h = next-Counted n it h
  call-Counted n it calls_close h = close-Counted n it h

  run-Counted :
      (n : ℕ) (it : Iterator W E T) (cs : List Call) → Counted n it → Counted n (run it cs)
  unfolding run
  run-Counted n it [] h = h
  run-Counted n it (c ∷ cs) h = run-Counted n (call it c) cs (call-Counted n it c h)

  -- Whatever a client calls, in any order, the close function of a new iterator has run exactly
  -- once if the iterator is done and not at all if it is not. `opened` counts its runs, which
  -- only it moves.
  pub closed_once :
      (src : Source W E T) (w : W) (cs : List Call)
      → src.close ≡ some f
      → ((v : W) → opened (src.next v).1 ≡ opened v)
      → opened (run (new_iterator src w) cs).world
        ≡ (if (run (new_iterator src w) cs).done then opened w + 1 else opened w)
  unfolding new_iterator
  closed_once src w cs c k = (run-Counted (opened w) (new_iterator src w) cs (c, k, refl)).2
