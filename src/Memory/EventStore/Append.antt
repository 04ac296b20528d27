-- ===== src/Memory/EventStore/Append.antt =====
-- The two loops of `Save`: what encoding makes of a batch, and what appending makes of the store.
use eventsourcing.Shared.{
  ℕ, suc, ◌+◌, String, ◌≡◌, ◌≢◌, refl, sym, ap, ◌∙◌, none, List, [], ◌∷◌, ◌++◌, ◌==◌, string_eq,
  arith, length, eq_iff, append-nil, append_assoc, length-snoc, beq_refl, All, if◌then◌else◌,
}
use eventsourcing.Envelope.{Envelope}
use eventsourcing.Memory.EventStore.{
  Record, EventStore, stream, validate, numbered, append_record, append_records,
}
use eventsourcing.Memory.EventStore.Invariant.{stream-append_record}

module _ {E M : Type 0} where
  -- The records as they are stored, after n events of the stream and g of the log.
  abbrev pub placed : ℕ → ℕ → List (Record E M) → List (Record E M)
  placed n g [] = []
  placed n g (r ∷ rs) =
      record r { env = record r.env { version = n + 1; global_position = g + 1 } }
      ∷ placed (n + 1) (g + 1) rs

  pub length-placed : (n g : ℕ) (rs : List (Record E M)) → length (placed n g rs) ≡ length rs
  length-placed n g [] = refl
  length-placed n g (r ∷ rs) = ap suc (length-placed (n + 1) (g + 1) rs)

  -- Every envelope of a batch that passes is of the one stream and has an event ID.
  pub validate_lem :
      (id : String) (envs : List (Envelope E M))
      → validate id envs ≡ none
      → All (λ env. (env.stream_id ≡ id) × (env.event_id ≢ 0)) envs
  unfolding validate
  validate_lem id [] h = tt
  validate_lem id (env ∷ envs) h =
      (ground (arith, eq_iff env.stream_id id), validate_lem id envs (ground arith))

  pub current-append_records :
      (id : String) (m : EventStore E M) (n : ℕ) (rs : List (Record E M))
      → (append_records id m n rs).1 ≡ n + length rs
  unfolding append_records
  current-append_records id m n [] = omega arith
  current-append_records id m n (r ∷ rs) =
      omega (arith, current-append_records id (append_record id m n r) (n + 1) rs)

  pub closed-append_records :
      (id : String) (m : EventStore E M) (n : ℕ) (rs : List (Record E M))
      → (append_records id m n rs).0.closed ≡ m.closed
  unfolding append_records append_record
  closed-append_records id m n [] = refl
  closed-append_records id m n (r ∷ rs) =
      closed-append_records id (append_record id m n r) (n + 1) rs

  pub global-append_records :
      (id : String) (m : EventStore E M) (n g : ℕ) (rs : List (Record E M))
      → g ≡ length m.global
      → (append_records id m n rs).0.global ≡ m.global ++ placed n g rs
  unfolding append_records append_record
  global-append_records id m n g [] e = rw append-nil
  global-append_records id m n g (r ∷ rs) e =
      global-append_records id (append_record id m n r) (n + 1) (g + 1) rs
        (rw e (sym (length-snoc m.global (numbered m n r))))
      ∙ rw e (append_assoc m.global (numbered m n r ∷ []) (placed (n + 1) (length m.global + 1) rs))

  pub stream-append_records :
      (id j : String) (m : EventStore E M) (n g : ℕ) (rs : List (Record E M))
      → g ≡ length m.global
      → stream (append_records id m n rs).0 j
        ≡ (if id == j then stream m id ++ placed n g rs else stream m j)
  unfolding append_records
  stream-append_records id j m n g [] e = ground (arith, append-nil (stream m id), eq_iff id j)
  stream-append_records id j m n g (r ∷ rs) e =
      stream-append_records id j (append_record id m n r) (n + 1) (g + 1) rs
        (unfold append_record in rw e (sym (length-snoc m.global (numbered m n r))))
      ∙ rw (stream-append_record id id m n r, stream-append_record id j m n r, beq_refl, e)
          (ground (
            arith,
            append_assoc (stream m id) (numbered m n r ∷ [])
                (placed (n + 1) (length m.global + 1) rs),
          ))
