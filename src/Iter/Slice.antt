-- ===== src/Iter/Slice.antt =====
-- `NewSliceIterator` under `All`.
use eventsourcing.Shared.{
  ℕ, zero, suc, ◌+◌, ◌≤◌, ◌<◌, ◌≡◌, sym, subst, true, false, Option, none, some, List, [], ◌∷◌, map,
  arith, length, get_elem?, drop, take, drop-get_elem?, get_elem?-some, get_elem?-length,
  take-length,
}
use eventsourcing.Iter.{
  Iterator, slice_source, new_slice_iterator, new_iterator, slice_next, next, close, finish, value,
  collect, all, err,
}

module _ {W E T : Type 0} (fuel : ℕ) (it it' : Iterator W E T) where
  pub collect-true :
      (vs : List (Option T)) (end : Iterator W E T)
      → next it ≡ (it', true)
      → collect fuel it' ≡ some (vs, end)
      → collect (suc fuel) it ≡ some (value it' ∷ vs, end)
  unfolding collect
  collect-true vs end n c = ground arith

  pub collect-false : next it ≡ (it', false) → collect (suc fuel) it ≡ some ([], close it')
  unfolding collect
  collect-false n = rw n

module _ {W E T : Type 0} (join : E → E → E) (fuel : ℕ) (it end : Iterator W E T) where
  pub all-collect :
      (vs : List (Option T))
      → collect fuel it ≡ some (vs, end)
      → all join fuel it ≡ some (vs, err join end)
  unfolding all
  all-collect vs c = rw (c, all)

module _ {E T : Type 0} (ctx : ℕ → Option E) (s : List T) where
  abbrev at : ℕ → Option T → Iterator ℕ E T
  at i v = record {
    source = slice_source ctx s;
    world = i;
    current = v;
    error = none;
    close_error = none;
    done = false;
  }

  abbrev ended : ℕ → Option E → Iterator ℕ E T
  ended i e = record {
    source = slice_source ctx s;
    world = i;
    current = none;
    error = e;
    close_error = none;
    done = true;
  }

  next-item :
      (i : ℕ) (c : Option T) (v : T)
      → ctx i ≡ none
      → get_elem? s i ≡ some v
      → next (at i c) ≡ (at (suc i) (some v), true)
  unfolding next slice_next
  next-item i c v h g = ground arith

  next-end :
      (i : ℕ) (c : Option T)
      → ctx i ≡ none
      → get_elem? s i ≡ none
      → next (at i c) ≡ (ended i none, false)
  unfolding next slice_next finish close
  next-end i c h g = ground arith

  next-cancelled :
      (i : ℕ) (c : Option T) (e : E) → ctx i ≡ some e → next (at i c) ≡ (ended i (some e), false)
  unfolding next finish close
  next-cancelled i c e h = ground arith

  -- The items from index i, n of them, where the context is alive, and then what ends the loop.
  collect-items :
      (n i fuel : ℕ) (c : Option T) (end : Iterator ℕ E T)
      → ((j : ℕ) → j < i + n → ctx j ≡ none)
      → i + n ≤ length s
      → ((j k : ℕ) (d : Option T) → j ≡ i + n → collect (suc k) (at j d) ≡ some ([], end))
      → n < fuel
      → collect fuel (at i c) ≡ some (map some (take n (drop i s)), end)
  unfolding value
  collect-items n i zero c end alive fits stop enough = absurd (omega arith)
  collect-items zero i (suc f) c end alive fits stop enough = stop i f c (omega arith)
  collect-items (suc n) i (suc f) c end alive fits stop enough =
      let (v, g) = get_elem?-some s i (omega arith) in
      let rest : collect f (at (suc i) (some v)) ≡ some (map some (take n (drop (suc i) s)), end) =
        collect-items n (suc i) f (some v) end (λ j h. alive j (omega arith)) (omega arith)
          (λ j k d e. stop j k d (omega arith)) (omega arith) in
      rw (drop-get_elem? s i g) (
        collect-true f (at i c) (at (suc i) (some v)) _ end
          (next-item i c v (alive i (omega arith)) g) rest)

  stop-end :
      (k j : ℕ) (c : Option T)
      → j ≡ length s
      → ctx (length s) ≡ none
      → collect (suc k) (at j c) ≡ some ([], ended (length s) none)
  unfolding close
  stop-end k j c p h =
      subst (λ i. collect (suc k) (at i c) ≡ some ([], ended (length s) none)) (sym p)
        (collect-false k (at (length s) c) (ended (length s) none)
          (next-end (length s) c h (get_elem?-length s)))

  stop-cancelled :
      (k i j : ℕ) (c : Option T) (e : E)
      → j ≡ i
      → ctx i ≡ some e
      → collect (suc k) (at j c) ≡ some ([], ended i (some e))
  unfolding close
  stop-cancelled k i j c e p h =
      subst (λ l. collect (suc k) (at l c) ≡ some ([], ended i (some e))) (sym p)
        (collect-false k (at i c) (ended i (some e)) (next-cancelled i c e h))

  -- While the context is alive, `All` on a slice iterator returns the slice and no error.
  pub all_slice :
      (join : E → E → E) (fuel : ℕ)
      → ((j : ℕ) → j ≤ length s → ctx j ≡ none)
      → length s < fuel
      → all join fuel (new_slice_iterator ctx s) ≡ some (map some s, none)
  unfolding new_iterator err
  all_slice join fuel alive enough =
      all-collect join fuel (at 0 none) (ended (length s) none) (map some s) (
        rw take-length at (
          collect-items (length s) 0 fuel none (ended (length s) none)
            (λ j h. alive j (omega arith)) (omega arith)
            (λ j k d e. stop-end k j d (omega arith) (alive (length s) (omega arith))) enough))

  -- If the context is done when the k-th element is next, `All` returns the elements before it and
  -- the context's error.
  pub all_slice_cancelled :
      (join : E → E → E) (fuel k : ℕ) (e : E)
      → k ≤ length s
      → ((j : ℕ) → j < k → ctx j ≡ none)
      → ctx k ≡ some e
      → k < fuel
      → all join fuel (new_slice_iterator ctx s) ≡ some (map some (take k s), some e)
  unfolding new_iterator err
  all_slice_cancelled join fuel k e fits alive over enough =
      all-collect join fuel (at 0 none) (ended k (some e)) (map some (take k s)) (
        collect-items k 0 fuel none (ended k (some e)) (λ j h. alive j (omega arith)) (omega arith)
          (λ j f d q. stop-cancelled f k j d e (omega arith) over) enough)
