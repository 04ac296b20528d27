-- ===== src/CommandHandler/MemoryLog.antt =====
-- The memory store fills the interface `EventLog`. A state is a store that is in order and whose
-- records all decode, as they do if it was filled by `Save`.
use mathlib.Core.Option
use eventsourcing.Shared.{
  ℕ, zero, suc, ◌+◌, ◌≤◌, ◌<◌, String, ◌≡◌, ◌≢◌, refl, sym, subst, ap, ◌∙◌, true, none, some, List,
  [], ◌∷◌, ◌++◌, ◌==◌, string_eq, map, length, take, drop, arith, Option-cases, inl, inr,
  length-take, take-append-drop, length-drop, nil_of_length, if_cases,
}
use eventsourcing.Shared.Dict
use eventsourcing.Result.{Result, ok, err, ok_injective}
use eventsourcing.Revision.{StreamState, any, no_stream, stream_exists, revision}
use eventsourcing.Envelope.{Envelope, Codec}
use eventsourcing.Errors.{StoreError, stream_not_found, stream_already_exists}
use eventsourcing.Iter.{all}
use eventsourcing.Memory.EventStore.{
  Record, EventStore, Events, stream, envelope, save, load_stream_from, start_offset, is_some,
}
use eventsourcing.Memory.EventStore.Invariant.{IsWellFormed, Numbered}
use eventsourcing.Memory.EventStore.Append.{stream-append_records}
use eventsourcing.Memory.EventStore.Encoded.{
  Decodes, length-Decodes, to_records-Decodes, read_all_as,
}
use eventsourcing.Memory.EventStore.Save.{save_cases}
use eventsourcing.Memory.EventStore.Contract.{
  Appends, Holds, save-Appends, save_atomic, save-IsWellFormed,
}
use eventsourcing.Memory.EventStore.Reading.{Yields, load_from_start, load_from_revision}
use eventsourcing.CommandHandler.Log.{EventLog}

module _ (c : Codec) where
  open c use {Event, Metadata}

  abbrev Env : Type 0
  Env = Envelope Event Metadata

  Decodes-append :
      (rs rs' : List (Record Event Metadata)) (es es' : List Env)
      → Decodes c rs es
      → Decodes c rs' es'
      → Decodes c (rs ++ rs') (es ++ es')
  Decodes-append [] rs' [] es' d d' = d'
  Decodes-append [] rs' (e ∷ es) es' d d' = absurd d
  Decodes-append (r ∷ rs) rs' [] es' d d' = absurd d
  Decodes-append (r ∷ rs) rs' (e ∷ es) es' d d' = (d.0, Decodes-append rs rs' es es' d.1 d')

  Decodes_unique :
      (rs : List (Record Event Metadata)) (es es' : List Env)
      → Decodes c rs es
      → Decodes c rs es'
      → es ≡ es'
  Decodes_unique [] [] [] d d' = refl
  Decodes_unique [] (e ∷ es) es' d d' = absurd d
  Decodes_unique [] [] (e ∷ es') d d' = absurd d'
  Decodes_unique (r ∷ rs) [] es' d d' = absurd d
  Decodes_unique (r ∷ rs) (e ∷ es) [] d d' = absurd d'
  Decodes_unique (r ∷ rs) (e ∷ es) (e' ∷ es') d d' =
      let tails = Decodes_unique rs es es' d.1 d'.1 in
      let heads : e ≡ e' = ok_injective (sym d.0 ∙ d'.0) in cc (heads, tails)

  Decodes-drop :
      (n : ℕ) (rs : List (Record Event Metadata)) (es : List Env)
      → Decodes c rs es
      → Decodes c (drop n rs) (drop n es)
  Decodes-drop zero rs es d = d
  Decodes-drop (suc n) [] [] d = tt
  Decodes-drop (suc n) [] (e ∷ es) d = absurd d
  Decodes-drop (suc n) (r ∷ rs) [] d = absurd d
  Decodes-drop (suc n) (r ∷ rs) (e ∷ es) d = Decodes-drop n rs es d.1

  version-envelope :
      (r : Record Event Metadata) (e : Env) → envelope c r ≡ ok e → e.version ≡ r.env.version
  unfolding envelope
  version-envelope r e h = ground arith

  pub Decodes-Numbered :
      (n : ℕ) (rs : List (Record Event Metadata)) (es : List Env)
      → Decodes c rs es
      → Numbered (λ (r : Record Event Metadata). r.env.version) n rs
      → Numbered (λ (e : Env). e.version) n es
  Decodes-Numbered n [] [] d num = tt
  Decodes-Numbered n [] (e ∷ es) d num = absurd d
  Decodes-Numbered n (r ∷ rs) [] d num = absurd d
  Decodes-Numbered n (r ∷ rs) (e ∷ es) d num =
      (version-envelope r e d.0 ∙ num.0, Decodes-Numbered (n + 1) rs es d.1 num.1)

  events-read_all_as :
      (clock : ℕ → ℕ) (i n g : ℕ) (envs : List Env)
      → map (λ (e : Env). e.event) (read_all_as c clock i n g envs)
        ≡ map (λ (e : Env). Option.map c.read_back e.event) envs
  events-read_all_as clock i n g [] = refl
  events-read_all_as clock i n g (e ∷ es) =
      ap (◌∷◌ (Option.map c.read_back e.event))
        (events-read_all_as clock (suc i) (n + 1) (g + 1) es)

  pub record InOrder : Type 0 where
    pub store : EventStore Event Metadata
    pub well_formed : IsWellFormed store
    pub readable : (id : String) → (es : List Env) × Decodes c (stream store id) es

  module _ (clock : ℕ → ℕ) (ctx : ℕ → Option.Option StoreError) (alive : (j : ℕ) → ctx j ≡ none)
      (join : StoreError → StoreError → StoreError) where
    pub readable-save :
        (m : EventStore Event Metadata) (envs : List Env) (state : StreamState)
        → ((id : String) → (es : List Env) × Decodes c (stream m id) es)
        → (id : String)
        → (es : List Env) × Decodes c (stream (save c clock m envs state).store id) es
    unfolding save
    readable-save m [] state r = r
    readable-save m (env ∷ envs) state r =
        save_cases c clock m env envs state
          (λ s. (id : String) → (es : List Env) × Decodes c (stream s.store id) es) (λ res e f. r)
          λ rs v t o k j.
            rw
              (stream-append_records env.stream_id j m (length (stream m env.stream_id))
                (length m.global) rs refl)
              (if_cases (λ l. (es : List Env) × Decodes c l es) (env.stream_id == j) _ _
                (λ _. (
                  (r env.stream_id).0 ++ _,
                  Decodes-append _ _ _ _ (r env.stream_id).1 (
                      to_records-Decodes c clock 0 (length (stream m env.stream_id))
                        (length m.global) (env ∷ envs) rs t),
                ))
                (λ _. r j))

    -- The iterator read to its end, as the handler's loop does.
    unfoldable pub present : List (Option.Option Env) → List Env
    present [] = []
    present (none ∷ es) = present es
    present (some e ∷ es) = e ∷ present es

    unfoldable pub drained :
        Option.Option (List (Option.Option Env) × Option.Option StoreError)
        → Result StoreError (List Env × Option.Option StoreError)
    drained none = ok ([], none)
    drained (some (es, e)) = ok (present es, e)

    unfoldable pub read :
        ℕ → Result StoreError (Events c) → Result StoreError (List Env × Option.Option StoreError)
    read fuel (err e) = err e
    read fuel (ok it) = drained (all join fuel it)

    present-map : (es : List Env) → present (map some es) ≡ es
    unfolding present
    present-map [] = refl
    present-map (e ∷ es) = ap (◌∷◌ e) (present-map es)

    read-Yields :
        (fuel : ℕ) (r : Result StoreError (Events c)) (es : List Env)
        → Yields c ctx r es
        → length es < fuel
        → read fuel r ≡ ok (es, none)
    unfolding read
    read-Yields fuel (err e) es y h = absurd y
    read-Yields fuel (ok it) es y h =
        ap drained (y join fuel h) ∙ (unfold drained in rw (present-map es) refl)

    Yields-read :
        (r : Result StoreError (Events c)) (es : List Env) (m : InOrder) (id : String)
        → Yields c ctx r es
        → length es ≤ length (stream m.store id)
        → read (length (stream m.store id) + 1) r ≡ ok (es, none)
    Yields-read r es m id y h =
        read-Yields (length (stream m.store id) + 1) r es y (omega (arith, h))

    abbrev load :
        InOrder → String → StreamState → Result StoreError (List Env × Option.Option StoreError)
    load m id state =
        read (length (stream m.store id) + 1) (load_stream_from c ctx m.store id state)

    abbrev history : InOrder → String → List Env
    history m id = (m.readable id).0

    abbrev saved : InOrder → List Env → StreamState → InOrder
    saved m envs state = record {
      store = (save c clock m.store envs state).store;
      well_formed = save-IsWellFormed c clock m.store envs state m.well_formed;
      readable = readable-save m.store envs state m.readable;
    }

    length-history :
        (m : InOrder) (id : String) → length (history m id) ≡ length (stream m.store id)
    length-history m id = length-Decodes c (stream m.store id) (history m id) (m.readable id).1

    pub load_start : (m : InOrder) (id : String) → load m id any ≡ ok (history m id, none)
    load_start m id =
        Yields-read _ (history m id) m id
          (load_from_start c ctx m.store id (history m id) alive (m.readable id).1)
          (omega (arith, length-history m id))

    pub load_after :
        (m : InOrder) (id : String) (n : ℕ)
        → n ≤ length (history m id)
        → load m id (revision n) ≡ ok (drop n (history m id), none)
    load_after m id n h =
        let all_ = stream m.store id in
        let len = length-history m id in
        let taken : length (take n all_) ≡ n = length-take n all_ (omega (arith, len)) in
        Yields-read _ (drop n (history m id)) m id
          (subst
            (λ k.
              Yields c ctx (load_stream_from c ctx m.store id (revision k)) (drop n (history m id)))
            taken
            (load_from_revision c ctx m.store id (take n all_) (drop n all_) (drop n (history m id))
              alive (sym (take-append-drop n all_))
              (Decodes-drop n all_ (history m id) (m.readable id).1)))
          (omega (arith, len, length-drop n (history m id)))

    unknown : (m : InOrder) (id : String) → history m id ≡ [] → Dict.get m.store.events id ≡ none
    unfolding stream
    unknown m id e = elim (Option-cases (Dict.get m.store.events id)) [
      | inl q ↦ q
      | inr (rs, q) ↦ absurd (
          m.well_formed.inhabited id rs q
            (nil_of_length rs (ground (arith, length-history m id, ap length e))))
    ]

    known :
        (m : InOrder) (id : String)
        → history m id ≢ []
        → is_some (Dict.get m.store.events id) ≡ true
    unfolding stream
    known m id ne = elim (Option-cases (Dict.get m.store.events id)) [
      | inl q ↦ absurd (ne (nil_of_length (history m id) (ground (arith, length-history m id))))
      | inr (rs, q) ↦ rw q refl
    ]

    pub load_missing :
        (m : InOrder) (id : String)
        → history m id ≡ []
        → load m id stream_exists ≡ err stream_not_found
    unfolding load_stream_from start_offset read
    load_missing m id e = rw (unknown m id e) refl

    same_existing :
        (m : InOrder) (id : String) → history m id ≢ [] → load m id stream_exists ≡ load m id any
    unfolding load_stream_from start_offset
    same_existing m id ne = rw (known m id ne) refl

    same_new : (m : InOrder) (id : String) → history m id ≡ [] → load m id no_stream ≡ load m id any
    unfolding load_stream_from start_offset
    same_new m id e = rw (unknown m id e) refl

    refused :
        (m : InOrder) (id : String)
        → history m id ≢ []
        → load m id no_stream ≡ err stream_already_exists
    unfolding load_stream_from start_offset read
    refused m id ne = rw (known m id ne) refl

    pub load_existing :
        (m : InOrder) (id : String)
        → history m id ≢ []
        → load m id stream_exists ≡ ok (history m id, none)
    load_existing m id ne = same_existing m id ne ∙ load_start m id

    pub load_new :
        (m : InOrder) (id : String)
        → (history m id ≡ [] → load m id no_stream ≡ ok ([], none))
          × (history m id ≢ [] → load m id no_stream ≡ err stream_already_exists)
    load_new m id =
        (λ e. same_new m id e ∙ load_start m id ∙ ap (λ l. ok (l, none)) e, refused m id)

    pub save_appends :
        (m : InOrder) (env : Env) (envs : List Env) (state : StreamState)
        → (save c clock m.store (env ∷ envs) state).error ≡ none
        → Holds state (length (history m env.stream_id))
          × ((added : List Env) × (history (saved m (env ∷ envs) state) env.stream_id
                ≡ history m env.stream_id ++ added)
              × (map (λ (e : Env). e.event) added
                  ≡ map (λ (e : Env). Option.map c.read_back e.event) (env ∷ envs)))
    save_appends m env envs state h =
        let id = env.stream_id in
        let a : Appends c clock m.store env envs state (save c clock m.store (env ∷ envs) state) =
          save-Appends c clock m.store env envs state h in
        let es =
          read_all_as c clock 0 (length (stream m.store id)) (length m.store.global) (env ∷ envs) in
        let after = (saved m (env ∷ envs) state).readable id in
        (
          subst (Holds state) (sym (length-history m id)) a.met,
          (
            es,
            Decodes_unique _ _ _ (subst (λ l. Decodes c l after.0) a.in_stream after.1) (
                Decodes-append (stream m.store id) a.added (history m id) es (m.readable id).1
                  a.decoded),
            events-read_all_as clock 0 (length (stream m.store id)) (length m.store.global)
                (env ∷ envs),
          ),
        )

    pub save_fails :
        (m : InOrder) (envs : List Env) (state : StreamState) (e : StoreError)
        → (save c clock m.store envs state).error ≡ some e
        → (id : String) → history (saved m envs state) id ≡ history m id
    save_fails m envs state e h id =
        let after = (saved m envs state).readable id in
        let same = (save_atomic c clock m.store envs state e h).0 in
        Decodes_unique _ _ _ (subst (λ s. Decodes c (stream s id) after.0) same after.1)
          (m.readable id).1

    -- The store of `NewMemoryStore`, with any clock and a context that stays alive.
    unfoldable pub memory_log : EventLog c
    memory_log = record {
      S = InOrder;
      load = load;
      save = λ m envs state.
          let s = save c clock m.store envs state in (saved m envs state, s.result, s.error);
      history = history;
      numbered = λ m id.
          Decodes-Numbered 0 (stream m.store id) (history m id) (m.readable id).1
            (m.well_formed.versions id);
      load_start = load_start;
      load_after = load_after;
      load_existing = load_existing;
      load_missing = load_missing;
      load_new = load_new;
      save_appends = save_appends;
      save_fails = save_fails;
    }
