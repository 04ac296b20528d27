-- ===== src/Iter/Wrapped.antt =====
-- `Wrap`: closing, and the report of the source's error.
use eventsourcing.Shared.{
  ◌≡◌, refl, true, some, List, [], ◌∷◌, arith, length, inl, inr, Bool-cases, if◌then◌else◌,
}
use eventsourcing.Iter.{
  Iterator, Pulled, Wrapping, wrap, wrapped_close, wrapped_next, new_iterator, close, finish, err,
}
use eventsourcing.Iter.Laws.{
  Call, done-close, calls_next, calls_close, run, call, closed_once, next_cases,
}

module _ {W E T U : Type 0} (join : E → E → E) (src : Iterator W E T)
    (f : Iterator W E T → Pulled E U × Iterator W E T) where
  -- `done` has been called exactly once if the wrapping iterator is done, and not before.
  pub reported_once :
      (cs : List Call)
      → length (run (wrap join src f) cs).world.reports
        ≡ (if (run (wrap join src f) cs).done then 1 else 0)
  unfolding wrap wrapped_close wrapped_next
  reported_once cs =
      closed_once (λ (w : Wrapping W E T). length w.reports) (wrapped_close join) (λ w. omega arith)
        _ (record { inner = src; reports = [] }) cs refl (λ v. refl)

  abbrev Ended : Iterator (Wrapping W E T) E U → Type 0
  Ended it =
      (it.source.close ≡ some (wrapped_close join))
      × (it.done ≡ true → (it.world.inner.done ≡ true) × (it.close_error ≡ err join it.world.inner))

  close-Ended : (it : Iterator (Wrapping W E T) E U) → Ended it → Ended (close it)
  unfolding close wrapped_close
  close-Ended it (c, h) = elim (Bool-cases it.done) [
    | inl d ↦ (ground arith, λ _. (ground (arith, h d), ground (arith, h d)))
    | inr d ↦ (ground arith, λ _. (ground (arith, done-close it.world.inner), ground arith))
  ]

  call-Ended : (it : Iterator (Wrapping W E T) E U) (c : Call) → Ended it → Ended (call it c)
  unfolding call
  call-Ended it calls_close h = close-Ended it h
  call-Ended it calls_next h =
      next_cases (λ r. Ended r.0) it (λ d. h)
        (λ w e d from.
          unfold finish in close-Ended (record it { world = w; error = e }) (h.0, λ d'. cc))
        (λ v d got. (h.0, λ d'. cc))

  run-Ended : (it : Iterator (Wrapping W E T) E U) (cs : List Call) → Ended it → Ended (run it cs)
  unfolding run
  run-Ended it [] h = h
  run-Ended it (c ∷ cs) h = run-Ended (call it c) cs (call-Ended it c h)

  -- Once the wrapping iterator is done, so is its source, and the error that its close returned is
  -- the one that the source ended with.
  pub wrap_ends_source :
      (cs : List Call)
      → (run (wrap join src f) cs).done ≡ true
      → ((run (wrap join src f) cs).world.inner.done ≡ true)
        × ((run (wrap join src f) cs).close_error ≡ err join (run (wrap join src f) cs).world.inner)
  wrap_ends_source cs =
      (run-Ended (wrap join src f) cs (unfold wrap new_iterator in (refl, λ h. cc))).1
