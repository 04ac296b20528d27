-- ===== src/Iter/Drain.antt =====
-- `All` over an iterator whose state is an index: what the closure produces is what is collected.
use eventsourcing.Shared.{
  ℕ, zero, suc, ◌+◌, ◌<◌, ◌≡◌, true, false, Option, none, some, List, [], ◌∷◌, map, arith, length,
}
use eventsourcing.Iter.{
  Iterator, Source, Pulled, item, eof, failed, new_iterator, next, close, finish, value, collect,
  all, err,
}

module _ {W E T : Type 0} (join : E → E → E) (fuel : ℕ) (it it' : Iterator W E T) where
  all-true :
      (vs : List (Option T)) (e : Option E)
      → next it ≡ (it', true)
      → all join fuel it' ≡ some (vs, e)
      → all join (suc fuel) it ≡ some (value it' ∷ vs, e)
  unfolding all collect
  all-true vs e n c = ground arith

module _ {E T : Type 0} (ctx : ℕ → Option E) (pull : ℕ → Pulled E T × ℕ) where
  -- The end of an iteration: with no error, or with one.
  abbrev pub last : Option E → Pulled E T
  last none = eof
  last (some e) = failed e

  -- From index i the closure gives these items, and then ends so.
  abbrev pub Produces : ℕ → List T → Option E → Type 0
  Produces i [] e = (pull i).0 ≡ last e
  Produces i (v ∷ vs) e = (pull i ≡ (item v, i + 1)) × Produces (i + 1) vs e

  abbrev pub source : Source ℕ E T
  source = record { ctx_err = ctx; next = pull; close = none }

  abbrev at : ℕ → Option T → Iterator ℕ E T
  at i c = record {
    source = source;
    world = i;
    current = c;
    error = none;
    close_error = none;
    done = false;
  }

  at-last :
      (join : E → E → E) (f i : ℕ) (c : Option T) (e : Option E)
      → ctx i ≡ none
      → (pull i).0 ≡ last e
      → all join (suc f) (at i c) ≡ some ([], e)
  unfolding all collect next finish close err
  at-last join f i c none h p = ground arith
  at-last join f i c (some e) h p = ground arith

  drain_at :
      (join : E → E → E) (fuel i : ℕ) (c : Option T) (vs : List T) (e : Option E)
      → Produces i vs e
      → ((j : ℕ) → ctx j ≡ none)
      → length vs < fuel
      → all join fuel (at i c) ≡ some (map some vs, e)
  unfolding next value
  drain_at join zero i c vs e p alive enough = absurd (omega arith)
  drain_at join (suc f) i c [] e p alive enough = at-last join f i c e (alive i) p
  drain_at join (suc f) i c (v ∷ vs) e p alive enough =
      all-true join f (at i c) (at (i + 1) (some v)) (map some vs) e (ground (arith, alive i))
        (drain_at join f (i + 1) (some v) vs e p.1 alive (omega arith))

  -- While the context is alive, `All` returns the items and the error that ended them.
  pub drain :
      (join : E → E → E) (fuel i : ℕ) (vs : List T) (e : Option E)
      → Produces i vs e
      → ((j : ℕ) → ctx j ≡ none)
      → length vs < fuel
      → all join fuel (new_iterator source i) ≡ some (map some vs, e)
  unfolding new_iterator
  drain join fuel i vs e = drain_at join fuel i none vs e
