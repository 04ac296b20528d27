-- ===== src/Memory/EventStore/Encoded.antt =====
-- The encoding of a batch, and what reading it back gives.
use mathlib.Core.Option
use eventsourcing.Shared.{
  ℕ, suc, ◌+◌, String, ◌≡◌, ◌≢◌, refl, subst, ap, Option-cases, inl, inr, ◌∙◌, none, some, List, [],
  ◌∷◌, ◌==◌, nat_eq, arith, length, All, if◌then◌else◌,
}
use eventsourcing.Result.{ok, >>=-eq-ok, ok_injective}
use eventsourcing.Envelope.{Envelope, Codec}
use eventsourcing.Memory.EventStore.{Record, envelope, to_record, to_records}
use eventsourcing.Memory.EventStore.Append.{placed}

module _ (c : Codec) where
  open c use {
    Event, Metadata, event_type, encode_event, encode_metadata, read_back, read_back_metadata,
  }

  -- The envelope that a reader gets of one saved at `now`, at its version and global position.
  abbrev pub read_as : ℕ → ℕ → ℕ → Envelope Event Metadata → Envelope Event Metadata
  read_as now v g env = record env {
    event = Option.map read_back env.event;
    metadata = some (read_back_metadata env.metadata);
    version = v;
    global_position = g;
    occurred_at = if env.occurred_at == 0 then now else env.occurred_at;
  }

  -- Those of a batch, after n events of the stream and g of the log.
  abbrev pub read_all_as :
      (ℕ → ℕ) → ℕ → ℕ → ℕ → List (Envelope Event Metadata) → List (Envelope Event Metadata)
  read_all_as clock i n g [] = []
  read_all_as clock i n g (env ∷ envs) =
      read_as (clock i) (n + 1) (g + 1) env ∷ read_all_as clock (suc i) (n + 1) (g + 1) envs

  -- The records decode to these envelopes.
  abbrev pub Decodes : List (Record Event Metadata) → List (Envelope Event Metadata) → Type 0
  Decodes [] [] = Unit
  Decodes [] (env ∷ envs) = ⊥
  Decodes (r ∷ rs) [] = ⊥
  Decodes (r ∷ rs) (env ∷ envs) = (envelope c r ≡ ok env) × Decodes rs envs

  pub length-Decodes :
      (rs : List (Record Event Metadata)) (es : List (Envelope Event Metadata))
      → Decodes rs es
      → length es ≡ length rs
  length-Decodes [] [] d = refl
  length-Decodes [] (e ∷ es) d = absurd d
  length-Decodes (r ∷ rs) [] d = absurd d
  length-Decodes (r ∷ rs) (e ∷ es) d = ap suc (length-Decodes rs es d.1)

  -- What a successful encoding has found and kept.
  record IsEncoded (now : ℕ) (env : Envelope Event Metadata) (r : Record Event Metadata)
      : Type 0 where
    held : Event
    holds : env.event ≡ some held
    payload : encode_event (some held) ≡ ok r.payload
    metadata : encode_metadata env.metadata ≡ ok r.metadata
    name : r.name ≡ event_type held
    kept : r.env ≡ record env {
      event = none;
      metadata = none;
      occurred_at = if env.occurred_at == 0 then now else env.occurred_at;
    }

  to_record-IsEncoded :
      (now : ℕ) (env : Envelope Event Metadata) (r : Record Event Metadata)
      → to_record c now env ≡ ok r
      → IsEncoded now env r
  unfolding to_record
  to_record-IsEncoded now env r h = elim (Option-cases env.event) [
    | inl e ↦ absurd (ground (arith, c.encode_event_nil))
    | inr (ev, e) ↦ record {
      held = ev;
      holds = e;
      payload = ground arith;
      metadata = ground arith;
      name = ground arith;
      kept = ground arith;
    }
  ]

  to_record-envelope :
      (now v g : ℕ) (env : Envelope Event Metadata) (r : Record Event Metadata)
      → to_record c now env ≡ ok r
      → envelope c (record r { env = record r.env { version = v; global_position = g } })
        ≡ ok (read_as now v g env)
  unfolding envelope
  to_record-envelope now v g env r h =
      let x : IsEncoded now env r = to_record-IsEncoded now env r h in
      let ev = x.held in
      let holds = x.holds in
      let name = x.name in
      let kept = x.kept in
      ground (
        arith,
        c.decode-encode_event ev r.payload x.payload,
        c.decode-encode_metadata env.metadata r.metadata x.metadata,
      )

  pub to_record-stream_id :
      (now : ℕ) (env : Envelope Event Metadata) (r : Record Event Metadata)
      → to_record c now env ≡ ok r
      → r.env.stream_id ≡ env.stream_id
  unfolding to_record
  to_record-stream_id now env r h = ground arith

  pub to_records-Decodes :
      (clock : ℕ → ℕ) (i n g : ℕ) (envs : List (Envelope Event Metadata))
      (rs : List (Record Event Metadata))
      → to_records c clock i envs ≡ ok rs
      → Decodes (placed n g rs) (read_all_as clock i n g envs)
  unfolding to_records
  to_records-Decodes clock i n g [] rs h = rw (← ok_injective h) tt
  to_records-Decodes clock i n g (env ∷ envs) rs h =
      let (r, e, h') = >>=-eq-ok (to_record c (clock i) env) _ h in
      let (rs', e', h'') = >>=-eq-ok (to_records c clock (suc i) envs) _ h' in
      subst (λ l. Decodes (placed n g l) (read_all_as clock i n g (env ∷ envs))) (ok_injective h'')
        (
          to_record-envelope (clock i) (n + 1) (g + 1) env r e,
          to_records-Decodes clock (suc i) (n + 1) (g + 1) envs rs' e',
        )

  pub to_records-stream_id :
      (id : String) (clock : ℕ → ℕ) (i : ℕ) (envs : List (Envelope Event Metadata))
      (rs : List (Record Event Metadata))
      → to_records c clock i envs ≡ ok rs
      → All (λ (env : Envelope Event Metadata). (env.stream_id ≡ id) × (env.event_id ≢ 0)) envs
      → (All (λ (r : Record Event Metadata). r.env.stream_id ≡ id) rs) × (length rs ≡ length envs)
  unfolding to_records
  to_records-stream_id id clock i [] rs h a = rw (← ok_injective h) (tt, refl)
  to_records-stream_id id clock i (env ∷ envs) rs h a =
      let (r, e, h') = >>=-eq-ok (to_record c (clock i) env) _ h in
      let (rs', e', h'') = >>=-eq-ok (to_records c clock (suc i) envs) _ h' in
      let (own, len) = to_records-stream_id id clock (suc i) envs rs' e' a.1 in
      rw (← ok_injective h'') ((to_record-stream_id (clock i) env r e ∙ a.0.0, own), ap suc len)
