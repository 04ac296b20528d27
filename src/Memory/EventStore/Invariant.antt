-- ===== src/Memory/EventStore/Invariant.antt =====
-- The invariant of the store: the log and the streams are two views of the same records.
use eventsourcing.Shared.{
  ℕ, ◌+◌, String, ◌≡◌, ◌≢◌, refl, Bool, true, false, some, List, [], ◌∷◌, ◌++◌, ◌==◌, string_eq,
  arith, length, keep, eq_iff, keep-append, append-nil, length-append, All, if_cases, if◌then◌else◌,
}
use eventsourcing.Shared.Dict
use eventsourcing.Shared.Dict.{get-put, get-empty}
use eventsourcing.Memory.EventStore.{
  Record, EventStore, new_event_store, stream, append_record, append_records, numbered, close,
}

-- The field counts up by one, from n + 1.
abbrev pub Numbered {ℓ} : {A : Type ℓ} → (A → ℕ) → ℕ → List A → Type 0
Numbered f n [] = Unit
Numbered f n (x ∷ xs) = (f x ≡ n + 1) × Numbered f (n + 1) xs

pub Numbered-snoc {ℓ} :
    {A : Type ℓ} (f : A → ℕ) (n : ℕ) (xs : List A) (x : A)
    → Numbered f n xs
    → f x ≡ n + length xs + 1
    → Numbered f n (xs ++ x ∷ [])
Numbered-snoc f n [] x h e = (omega arith, tt)
Numbered-snoc f n (y ∷ xs) x h e = (h.0, Numbered-snoc f (n + 1) xs x h.1 (omega arith))

pub snoc-ne-nil {ℓ} : {A : Type ℓ} (xs : List A) (x : A) → xs ++ x ∷ [] ≢ []
snoc-ne-nil [] x h = cc
snoc-ne-nil (y ∷ xs) x h = cc

module _ {E M : Type 0} where
  abbrev pub position : Record E M → ℕ
  position r = r.env.global_position

  abbrev pub version : Record E M → ℕ
  version r = r.env.version

  abbrev pub in_stream : String → Record E M → Bool
  in_stream id r = r.env.stream_id == id

  -- The log is numbered from 1 by global position, the records of a stream are those of the log,
  -- in order, numbered from 1 by version, and no stream is empty.
  pub record IsWellFormed (m : EventStore E M) : Type 0 where
    pub positions : Numbered position 0 m.global
    pub split : (id : String) → stream m id ≡ keep (in_stream id) m.global
    pub versions : (id : String) → Numbered version 0 (stream m id)
    pub inhabited :
        (id : String) (rs : List (Record E M)) → Dict.get m.events id ≡ some rs → rs ≢ []

  abbrev blank : Bool → EventStore E M
  blank b = record { closed = b; global = []; events = [] }

  stream-blank : (b : Bool) (id : String) → stream (blank b) id ≡ []
  unfolding stream Dict.get
  stream-blank b id = refl

  blank-IsWellFormed : (b : Bool) → IsWellFormed (blank b)
  blank-IsWellFormed b = record {
    positions = tt;
    split = stream-blank b;
    versions = λ id. rw stream-blank tt;
    inhabited = λ id rs h. cc (get-empty {V = List (Record E M)} id);
  }

  pub new-IsWellFormed : IsWellFormed new_event_store
  new-IsWellFormed = blank-IsWellFormed false

  pub stream-append_record :
      (id j : String) (m : EventStore E M) (current : ℕ) (r : Record E M)
      → stream (append_record id m current r) j
        ≡ (if id == j then stream m id ++ numbered m current r ∷ [] else stream m j)
  unfolding stream append_record
  stream-append_record id j m current r =
      ground (arith, get-put m.events id j (stream m id ++ numbered m current r ∷ []))

  append_record-IsWellFormed :
      (id : String) (m : EventStore E M) (current : ℕ) (r : Record E M)
      → r.env.stream_id ≡ id
      → current ≡ length (stream m id)
      → IsWellFormed m
      → IsWellFormed (append_record id m current r)
  unfolding append_record
  append_record-IsWellFormed id m current r own at w =
      let r' : Record E M = numbered m current r in
      record {
        positions = Numbered-snoc position 0 m.global r' w.positions (omega arith);
        split = λ j. rw (stream-append_record id j m current r) (
            ground (
              arith,
              append-nil (keep (in_stream j) m.global),
              keep-append (in_stream j) m.global (r' ∷ []),
              w.split id,
              w.split j,
              eq_iff id j,
            ));
        versions = λ j. rw (stream-append_record id j m current r) (
            if_cases (Numbered version 0) (id == j) _ _
              (λ _. Numbered-snoc version 0 (stream m id) r' (w.versions id) (omega arith))
              (λ _. w.versions j));
        inhabited = λ j rs h. ground (
          arith,
          get-put m.events id j (stream m id ++ r' ∷ []),
          w.inhabited j rs,
          snoc-ne-nil (stream m id) r',
        );
      }

  pub append_records-IsWellFormed :
      (id : String) (m : EventStore E M) (current : ℕ) (rs : List (Record E M))
      → All (λ r. r.env.stream_id ≡ id) rs
      → current ≡ length (stream m id)
      → IsWellFormed m
      → IsWellFormed (append_records id m current rs).0
  unfolding append_records
  append_records-IsWellFormed id m current [] own at w = w
  append_records-IsWellFormed id m current (r ∷ rs) own at w =
      append_records-IsWellFormed id (append_record id m current r) (current + 1) rs own.1
        (ground (
          arith,
          stream-append_record id id m current r,
          eq_iff id id,
          length-append (stream m id) (numbered m current r ∷ []),
        ))
        (append_record-IsWellFormed id m current r own.0 at w)

  -- `Close` keeps the invariant.
  close-IsWellFormed : (m : EventStore E M) → IsWellFormed m → IsWellFormed (close m)
  unfolding close
  close-IsWellFormed m w =
      if_cases IsWellFormed m.closed _ _ (λ _. w) (λ _. blank-IsWellFormed true)
