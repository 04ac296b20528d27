-- ===== src/CommandHandler/Folding.antt =====
-- The loop that evolves the state: it folds a part of the history onto what was folded before.
use mathlib.Core.Option
use eventsourcing.Shared.{
  ℕ, suc, ◌+◌, String, ◌≡◌, refl, ap, ◌⊎◌, inl, inr, some, List, [], ◌∷◌, ◌++◌, map, length, arith,
}
use eventsourcing.Revision.{revision}
use eventsourcing.Envelope.{Envelope, Codec}
use eventsourcing.Memory.EventStore.Invariant.{Numbered}
use eventsourcing.CommandHandler.{Aggregate, Progress, fold_events, wrap_events}

module _ (c : Codec) (agg : Aggregate c) where
  open agg use {State, evolve}

  -- The state of an aggregate with these events.
  abbrev pub fold_state : State → List (Envelope c.Event c.Metadata) → State
  fold_state t [] = t
  fold_state t (env ∷ envs) = fold_state (evolve t env) envs

  pub fold_state-append :
      (t : State) (es fs : List (Envelope c.Event c.Metadata))
      → fold_state t (es ++ fs) ≡ fold_state (fold_state t es) fs
  fold_state-append t [] fs = refl
  fold_state-append t (e ∷ es) fs = fold_state-append (evolve t e) es fs

  pub state-fold_events :
      (p : Progress State) (es : List (Envelope c.Event c.Metadata))
      → (fold_events c agg p es).state ≡ fold_state p.state es
  unfolding fold_events
  state-fold_events p [] = refl
  state-fold_events p (e ∷ es) =
      state-fold_events
        (record {
          state = evolve p.state e;
          load_state = revision e.version;
          last_version = e.version;
        })
        es

  pub last_version-fold_events :
      (p : Progress State) (es : List (Envelope c.Event c.Metadata))
      → Numbered (λ (e : Envelope c.Event c.Metadata). e.version) p.last_version es
      → (fold_events c agg p es).last_version ≡ p.last_version + length es
  unfolding fold_events
  last_version-fold_events p [] num = omega arith
  last_version-fold_events p (e ∷ es) (v, num) = omega (
    arith,
    v,
    last_version-fold_events
        (record {
          state = evolve p.state e;
          load_state = revision e.version;
          last_version = e.version;
        })
        es (rw v num),
  )

  follows-fold_events :
      (p : Progress State) (es : List (Envelope c.Event c.Metadata))
      → p.load_state ≡ revision p.last_version
      → (fold_events c agg p es).load_state ≡ revision (fold_events c agg p es).last_version
  unfolding fold_events
  follows-fold_events p [] h = h
  follows-fold_events p (e ∷ es) h =
      follows-fold_events
        (record {
          state = evolve p.state e;
          load_state = revision e.version;
          last_version = e.version;
        })
        es refl

  -- The next load starts after the last event folded, or where it did if there was none.
  pub load_state-fold_events :
      (p : Progress State) (es : List (Envelope c.Event c.Metadata))
      → ((fold_events c agg p es).load_state ≡ revision (fold_events c agg p es).last_version)
        ⊎ ((es ≡ []) × ((fold_events c agg p es).load_state ≡ p.load_state))
  unfolding fold_events
  load_state-fold_events p [] = inr (refl, refl)
  load_state-fold_events p (e ∷ es) = inl (
      follows-fold_events
        (record {
          state = evolve p.state e;
          load_state = revision e.version;
          last_version = e.version;
        })
        es refl)

  -- The events of the envelopes as they will be read back.
  pub read_back-wrap_events :
      (n : ℕ) (id : String) (meta : c.Metadata) (next i : ℕ) (chain : String) (evs : List c.Event)
      → map
          (λ (e : Envelope c.Event c.Metadata). Option.map c.read_back e.event)
          (wrap_events c agg n id meta next i chain evs)
        ≡ map (λ ev. some (c.read_back ev)) evs
  unfolding wrap_events
  read_back-wrap_events n id meta next i chain [] = refl
  read_back-wrap_events n id meta next i chain (ev ∷ evs) =
      ap (◌∷◌ (some (c.read_back ev))) (read_back-wrap_events n id meta next (suc i) _ evs)
