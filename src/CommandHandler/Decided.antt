-- ===== src/CommandHandler/Decided.antt =====
-- What the handler saves, it has decided on the whole history of the stream.
use mathlib.Core.Option
use eventsourcing.Shared.{
  ℕ, suc, ◌+◌, ◌-◌, ◌≤◌, String, ◌≡◌, refl, sym, subst, ap, ◌∙◌, ◌⊎◌, inl, inr, none, some, List,
  [], ◌∷◌, ◌++◌, map, length, take, drop, arith, take-append, take-append-drop, take-length,
  nil-cases, length-append, length-drop, nil_of_length, append-nil, if_cases,
}
use native.Mathlib.Nat.{zero-add}
use eventsourcing.Result.{Result, ok, err}
use eventsourcing.Revision.{StreamState, any, no_stream, stream_exists, revision, foreign}
use eventsourcing.Envelope.{Envelope, Codec, AppendResult}
use eventsourcing.Errors.{StoreError, revision_conflict}
use eventsourcing.Memory.EventStore.Invariant.{Numbered}
use eventsourcing.Memory.EventStore.Paging.{Numbered-drop}
use eventsourcing.Memory.EventStore.Contract.{Holds}
use eventsourcing.CommandHandler.{
  Aggregate, Progress, World, Outcome, finished, retriable, Ran, ends, gives_up, again,
  auto_converge, first_load_state, save_state, after_save_error, after_save, fold_events,
  wrap_events, attempt, loaded, deciding, saving, start, Handled, handle, base_metadata,
}
use eventsourcing.CommandHandler.Log.{EventLog}
use eventsourcing.CommandHandler.Folding.{
  fold_state, fold_state-append, state-fold_events, last_version-fold_events,
  load_state-fold_events, read_back-wrap_events,
}

-- `Any`, `StreamExists` and `NoStream`.
abbrev pub IsUnpinned : StreamState → Type 0
IsUnpinned any = Unit {0}
IsUnpinned stream_exists = Unit {0}
IsUnpinned no_stream = Unit {0}
IsUnpinned _ = ⊥

module _ (c : Codec) (agg : Aggregate c) (log : EventLog c) (others : ℕ → log.S → log.S)
    (state : StreamState) (command_id : String) (cmd : agg.Command)
    -- other clients only append
    (append_only : (n : ℕ) (s : log.S)
      → (more : List (Envelope c.Event c.Metadata)) × (log.history
            (others n s)
            (agg.stream_namer cmd)
          ≡ log.history s (agg.stream_namer cmd) ++ more)) where
  open agg use {State, Command, DomainError, evolve, decide, initial_state}
  open log use {S, history}

  abbrev stream : String
  stream = agg.stream_namer cmd

  -- The variables hold the fold of the first `last_version` events.
  record Follows (s : S) (p : Progress State) : Type 0 where
    within : p.last_version ≤ length (history s stream)
    folded : p.state ≡ fold_state c agg initial_state (take p.last_version (history s stream))
    next :
        (p.load_state ≡ revision p.last_version)
        ⊎ ((p.load_state ≡ first_load_state state) × (p.last_version ≡ 0))
    fresh : state ≡ no_stream → (p.load_state ≡ no_stream) × (p.last_version ≡ 0)

  -- They hold all of it.
  record Folded (s : S) (p : Progress State) : Type 0 where
    whole : p.last_version ≡ length (history s stream)
    folded : p.state ≡ fold_state c agg initial_state (history s stream)
    next :
        (p.load_state ≡ revision p.last_version)
        ⊎ ((p.load_state ≡ first_load_state state) × (p.last_version ≡ 0))
    fresh : state ≡ no_stream → (p.load_state ≡ no_stream) × (p.last_version ≡ 0)

  Follows-others : (n : ℕ) (s : S) (p : Progress State) → Follows s p → Follows (others n s) p
  Follows-others n s p f =
      let (more, e) = append_only n s in
      let within = f.within in
      record {
        within = omega (arith, ap length e, length-append (history s stream) more);
        folded = rw (e, take-append p.last_version (history s stream) more within) f.folded;
        next = f.next;
        fresh = f.fresh;
      }

  Follows-same :
      (s s' : S) (p : Progress State)
      → history s' stream ≡ history s stream
      → Follows s p
      → Follows s' p
  Follows-same s s' p e f = record {
    within = rw e f.within;
    folded = rw e f.folded;
    next = f.next;
    fresh = f.fresh;
  }

  Folded-Follows : (s : S) (p : Progress State) → Folded s p → Follows s p
  Folded-Follows s p f = record {
    within = let w = f.whole in omega arith;
    folded = rw (f.whole, take-length (history s stream)) f.folded;
    next = f.next;
    fresh = f.fresh;
  }

  Folded-fold_events :
      (s : S) (p : Progress State) (envs : List (Envelope c.Event c.Metadata))
      → Follows s p
      → envs ≡ drop p.last_version (history s stream)
      → (state ≡ no_stream → envs ≡ [])
      → Folded s (fold_events c agg p envs)
  Folded-fold_events s p envs f e new =
      let h = history s stream in
      let n = p.last_version in
      let num : Numbered (λ (x : Envelope c.Event c.Metadata). x.version) n (drop n h) =
        rw zero-add at (
          Numbered-drop (λ (x : Envelope c.Event c.Metadata). x.version) 0 n h
            (log.numbered s stream)) in
      let last = last_version-fold_events c agg p envs (rw e num) in
      let within = f.within in
      let len : length envs ≡ length h - n = ap length e ∙ length-drop n h in
      record {
        whole = omega arith;
        folded =
            state-fold_events c agg p envs
            ∙ ap (λ t. fold_state c agg t envs) f.folded
            ∙ sym (fold_state-append c agg initial_state (take n h) envs)
            ∙ ap (fold_state c agg initial_state) (ap (◌++◌ (take n h)) e ∙ take-append-drop n h);
        next = elim (load_state-fold_events c agg p envs) [
          | inl a ↦ inl a
          | inr (none_, same) ↦
              let still : (fold_events c agg p envs).last_version ≡ p.last_version =
                omega (arith, last, ap length none_) in
              elim f.next [
                | inl a ↦ inl (same ∙ a ∙ ap revision (sym still))
                | inr (a, z) ↦ inr (same ∙ a, still ∙ z)
              ]
        ];
        fresh = λ q.
            subst
              (λ l.
                ((fold_events c agg p l).load_state ≡ no_stream)
                × ((fold_events c agg p l).last_version ≡ 0))
              (sym (new q)) (unfold fold_events in f.fresh q);
      }

  load-first :
      (s : S) (st : StreamState) (envs : List (Envelope c.Event c.Metadata))
      → IsUnpinned st
      → log.load s stream (first_load_state st) ≡ ok (envs, none)
      → envs ≡ history s stream
  load-first s any envs u h = cc (h, log.load_start s stream)
  load-first s stream_exists envs u h = elim (nil-cases (history s stream)) [
    | inl e ↦ cc (h, log.load_missing s stream e)
    | inr ne ↦ cc (h, log.load_existing s stream ne)
  ]
  load-first s no_stream envs u h = elim (nil-cases (history s stream)) [
    | inl e ↦ cc (h, (log.load_new s stream).0 e, e)
    | inr ne ↦ cc (h, (log.load_new s stream).1 ne)
  ]
  load-first s (revision n) envs u h = absurd u
  load-first s (foreign z) envs u h = absurd u

  load-rest :
      (s : S) (p : Progress State) (envs : List (Envelope c.Event c.Metadata))
      → IsUnpinned state
      → Follows s p
      → log.load s stream p.load_state ≡ ok (envs, none)
      → envs ≡ drop p.last_version (history s stream)
  load-rest s p envs u f h = elim f.next [
    | inl e ↦ cc (h, e, log.load_after s stream p.last_version f.within)
    | inr (e, z) ↦ rw z (load-first s state envs u (rw e at h))
  ]

  load-new :
      (s : S) (p : Progress State) (envs : List (Envelope c.Event c.Metadata))
      → Follows s p
      → log.load s stream p.load_state ≡ ok (envs, none)
      → state ≡ no_stream
      → envs ≡ []
  load-new s p envs f h q = elim (nil-cases (history s stream)) [
    | inl e ↦ cc (h, (f.fresh q).0, (log.load_new s stream).0 e)
    | inr ne ↦ cc (h, (f.fresh q).0, (log.load_new s stream).1 ne)
  ]

  -- What the handler has done when it returns no error: the decision on the whole history gave no
  -- events, and the history is as it was, or it gave these events, and they follow that history.
  pub data Decides (s : S) : Type 0 where
    nothing : decide (fold_state c agg initial_state (history s stream)) cmd ≡ ok [] → Decides s
    appends :
        (before : S) (evs : List c.Event) (added : List (Envelope c.Event c.Metadata))
        → decide (fold_state c agg initial_state (history before stream)) cmd ≡ ok evs
        → history s stream ≡ history before stream ++ added
        → map (λ (e : Envelope c.Event c.Metadata). e.event) added
          ≡ map (λ ev. some (c.read_back ev)) evs
        → Decides s

  -- What an attempt leaves.
  Leaves : Outcome DomainError × World S State → Type 0
  Leaves (finished res none, w) = Decides w.store
  Leaves (finished res (some e), w) = Unit
  Leaves (retriable res e, w) = Follows w.store w.progress

  same-length :
      (st : StreamState) (n : ℕ) (k : ℕ)
      → IsUnpinned st
      → Holds (save_state st n) k
      → (st ≡ no_stream → n ≡ 0)
      → k ≡ n
  same-length any n k u h z = h
  same-length stream_exists n k u h z = h
  same-length no_stream n k u h z = h ∙ sym (z refl)
  same-length (revision r) n k u h z = absurd u
  same-length (foreign x) n k u h z = absurd u

  after_save_error-Leaves :
      (res : AppendResult) (f : StoreError) (w : World S State)
      → Follows w.store w.progress
      → Leaves (after_save_error state stream res f, w)
  unfolding after_save_error Leaves
  after_save_error-Leaves res (revision_conflict x e a) w h =
      if_cases (λ o. Leaves (o, w)) (auto_converge state) _ _ (λ _. h) (λ _. tt)
  after_save_error-Leaves res _ w h = tt

  -- The history just before a save that succeeds is the one that was folded.
  unchanged :
      (n : ℕ) (s : S) (p : Progress State)
      → IsUnpinned state
      → Folded s p
      → Holds (save_state state p.last_version) (length (history (others n s) stream))
      → history (others n s) stream ≡ history s stream
  unchanged n s p u f h =
      let (more, e) = append_only n s in
      let whole = f.whole in
      let same = same-length state p.last_version _ u h (λ q. (f.fresh q).1) in
      let none_ : more ≡ [] =
        nil_of_length more (omega (arith, ap length e, length-append (history s stream) more)) in
      e ∙ ap (◌++◌ (history s stream)) none_ ∙ append-nil (history s stream)

  saving-Leaves :
      (w : World S State) (p : Progress State) (ev : c.Event) (evs : List c.Event)
      → IsUnpinned state
      → Folded w.store p
      → decide p.state cmd ≡ ok (ev ∷ evs)
      → Leaves (saving c agg log others state command_id cmd w p (ev ∷ evs))
  unfolding saving wrap_events
  saving-Leaves w p ev evs u f d = after (saved.2) refl
    where
      k : ℕ
      k = w.attempt + w.attempt + 1

      envs : List (Envelope c.Event c.Metadata)
      envs =
          wrap_events c agg w.attempt stream (agg.to_metadata (base_metadata c agg command_id cmd))
            (p.last_version + 1) 0 agg.correlation (ev ∷ evs)

      saved : S × AppendResult × Option.Option StoreError
      saved = log.save (others k w.store) envs (save_state state p.last_version)

      after :
          (o : Option.Option StoreError)
          → saved.2 ≡ o
          → Leaves (
            after_save state stream saved.1 o,
            record { store = saved.0; progress = p; attempt = suc w.attempt },
          )
      after none e =
          let (h, more) =
            log.save_appends (others k w.store) _ _ (save_state state p.last_version) e in
          let (added, grown, same) = more in
          let was = unchanged k w.store p u f h in
          unfold Leaves in
          appends (others k w.store) (ev ∷ evs) added
            (rw was (ap (λ t. decide t cmd) (sym f.folded) ∙ d)) grown
            (same
              ∙ read_back-wrap_events c agg w.attempt stream _ (p.last_version + 1) 0
                  agg.correlation (ev ∷ evs))
      after (some e) q = after_save_error-Leaves saved.1 e _ (
          Follows-same _ _ p (log.save_fails _ _ _ e q stream)
            (Follows-others k w.store p (Folded-Follows w.store p f)))

  deciding-Leaves :
      (w : World S State) (p : Progress State) (r : Result DomainError (List c.Event))
      → IsUnpinned state
      → Folded w.store p
      → decide p.state cmd ≡ r
      → Leaves (deciding c agg log others state command_id cmd w p r)
  unfolding deciding
  deciding-Leaves w p (err d) u f e = unfold Leaves in tt
  deciding-Leaves w p (ok []) u f e =
      unfold Leaves in nothing (ap (λ t. decide t cmd) (sym f.folded) ∙ e)
  deciding-Leaves w p (ok (ev ∷ evs)) u f e = saving-Leaves w p ev evs u f e

  loaded-Leaves :
      (w : World S State)
      (r : Result StoreError (List (Envelope c.Event c.Metadata) × Option.Option StoreError))
      → IsUnpinned state
      → Follows w.store w.progress
      → log.load w.store stream w.progress.load_state ≡ r
      → Leaves (loaded c agg log others state command_id cmd w r)
  unfolding loaded
  loaded-Leaves w (err e) u f h = unfold Leaves in tt
  loaded-Leaves w (ok (envs, some e)) u f h = unfold Leaves in tt
  loaded-Leaves w (ok (envs, none)) u f h =
      deciding-Leaves w (fold_events c agg w.progress envs) _ u
        (Folded-fold_events w.store w.progress envs f (load-rest w.store w.progress envs u f h)
          (load-new w.store w.progress envs f h))
        refl

  attempt-Leaves :
      (w : World S State)
      → IsUnpinned state
      → Follows w.store w.progress
      → Leaves (attempt c agg log others state command_id cmd w)
  unfolding attempt
  attempt-Leaves w u f =
      loaded-Leaves (record w { store = others (w.attempt + w.attempt) w.store }) _ u
        (Follows-others (w.attempt + w.attempt) w.store w.progress f) refl

  Ran-Decides :
      (r : Handled c agg log others state command_id cmd) (w : World S State)
      → IsUnpinned state
      → Ran (attempt c agg log others state command_id cmd) r w
      → Follows w.store w.progress
      → r.1 ≡ none
      → Decides r.2.store
  unfolding Leaves
  Ran-Decides r _ u (ends w res e w' q t) f z =
      subst (λ (x : Handled c agg log others state command_id cmd). Decides x.2.store) (sym t)
        (subst Leaves {y = (finished res none, w')}
          (q
            ∙ ap (λ x. (finished res x, w'))
                (sym (ap (λ (x : Handled c agg log others state command_id cmd). x.1) t) ∙ z))
          (attempt-Leaves w u f))
  Ran-Decides r _ u (gives_up w res e e' w' q t) f z = cc
  Ran-Decides r _ u (again w res e w' q t) f z =
      Ran-Decides r w' u t (subst Leaves q (attempt-Leaves w u f)) z

  start-Follows : (s : S) → Follows s (start c agg log others state command_id cmd s).progress
  unfolding start
  start-Follows s = record {
    within = omega arith;
    folded = refl;
    next = inr (refl, refl);
    fresh = λ e. (ap first_load_state e, refl);
  }

  -- No lost update: with `Any`, `StreamExists` or `NoStream`, whatever other clients append between
  -- the handler's calls and however often it retries, a handler that returns no error has saved
  -- exactly the events that the decider gave on the whole history that they follow, or the decider
  -- gave none on the whole history.
  pub handle-Decides :
      (retry_with_data : (World S State → Outcome DomainError × World S State)
        → World S State
        → Handled c agg log others state command_id cmd)
      (s : S)
      → IsUnpinned state
      → Ran
          (attempt c agg log others state command_id cmd)
          (handle c agg log others state command_id cmd retry_with_data s)
          (start c agg log others state command_id cmd s)
      → (handle c agg log others state command_id cmd retry_with_data s).1 ≡ none
      → Decides (handle c agg log others state command_id cmd retry_with_data s).2.store
  handle-Decides retry_with_data s u ran = Ran-Decides _ _ u ran (unfold start in start-Follows s)
