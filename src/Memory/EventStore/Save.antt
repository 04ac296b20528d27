-- ===== src/Memory/EventStore/Save.antt =====
-- `Save` as a whole: it appends the batch, or it changes nothing.
use mathlib.Core.Option
use eventsourcing.Shared.{
  ℕ, String, ◌≡◌, refl, true, false, Option, none, some, List, ◌∷◌, string_eq, nat_eq, arith,
  length, if_cases,
}
use eventsourcing.Result.{Result, ok, err}
use eventsourcing.Revision.{StreamState, any, no_stream, stream_exists, revision, foreign}
use eventsourcing.Envelope.{Envelope, Codec, AppendResult}
use eventsourcing.Errors.{StoreError, store_closed}
use eventsourcing.Memory.EventStore.{
  Record, EventStore, Saved, stream, validate, check_revision, append_records, to_records,
  append_checked, append, save_encoded, save_validated, save, rejected, failed_append,
}

module _ (c : Codec) (clock : ℕ → ℕ) (m : EventStore c.Event c.Metadata)
    (env : Envelope c.Event c.Metadata) (envs : List (Envelope c.Event c.Metadata))
    (state : StreamState) where
  open c use {Event, Metadata}

  abbrev id : String
  id = env.stream_id

  -- The outcome of an append that goes through.
  abbrev appended : List (Record Event Metadata) → Saved Event Metadata
  appended rs = record {
    store = (append_records id m (length (stream m id)) rs).0;
    result = record {
      successful = true;
      stream_id = id;
      next_expected_version = (append_records id m (length (stream m id)) rs).1;
      global_position = length (append_records id m (length (stream m id)) rs).0.global;
    };
    error = none;
  }

  check_revision_failed :
      (n : ℕ) (s : StreamState) (res : AppendResult) (e : StoreError)
      → check_revision id n s ≡ some (res, e)
      → res.successful ≡ false
  unfolding check_revision
  check_revision_failed n any res e h = cc
  check_revision_failed n no_stream res e h = ground arith
  check_revision_failed n stream_exists res e h = ground arith
  check_revision_failed n (revision r) res e h = ground arith
  check_revision_failed n (foreign z) res e h = ground arith

  module _ {ℓ} (P : Saved Event Metadata → Type ℓ)
      (failing : (res : AppendResult) (e : StoreError)
        → res.successful ≡ false
        → P (rejected c m res e)) where
    append_cases :
        (rs : List (Record Event Metadata))
        → (m.closed ≡ false
            → check_revision id (length (stream m id)) state ≡ none
            → P (appended rs))
        → P (append c m id rs state)
    unfolding append
    append_cases rs going =
        if_cases P m.closed _ _ (λ _. failing (failed_append "") store_closed refl)
          (λ open_. checked (check_revision id (length (stream m id)) state) refl open_)
      where
        checked :
            (o : Option (AppendResult × StoreError))
            → check_revision id (length (stream m id)) state ≡ o
            → m.closed ≡ false
            → P (append_checked c m id rs o)
        checked none e open_ = going open_ e
        checked (some (res, f)) e open_ = failing res f (check_revision_failed _ state res f e)

    -- A save of a batch that is not empty is rejected, or all its checks passed and it appends.
    pub save_cases :
        ((rs : List (Record Event Metadata))
          → validate id (env ∷ envs) ≡ none
          → to_records c clock 0 (env ∷ envs) ≡ ok rs
          → m.closed ≡ false
          → check_revision id (length (stream m id)) state ≡ none
          → P (appended rs))
        → P (save c clock m (env ∷ envs) state)
    unfolding save
    save_cases going = validated (validate id (env ∷ envs)) refl
      where
        encoded :
            (r : Result StoreError (List (Record Event Metadata)))
            → validate id (env ∷ envs) ≡ none
            → to_records c clock 0 (env ∷ envs) ≡ r
            → P (save_encoded c m id r state)
        encoded (err e) v h = failing (failed_append id) e refl
        encoded (ok rs) v h = append_cases rs (going rs v h)

        validated :
            (o : Option StoreError)
            → validate id (env ∷ envs) ≡ o
            → P (save_validated c clock m id (env ∷ envs) o state)
        validated (some e) v = failing (failed_append id) e refl
        validated none v = encoded (to_records c clock 0 (env ∷ envs)) v refl

  -- On an open store, a valid batch that encodes comes to the check of the revision.
  pub save_valid :
      (rs : List (Record Event Metadata))
      → m.closed ≡ false
      → validate id (env ∷ envs) ≡ none
      → to_records c clock 0 (env ∷ envs) ≡ ok rs
      → (save c clock m (env ∷ envs) state).error
        ≡ Option.map
            (λ (x : AppendResult × StoreError). x.1)
            (check_revision id (length (stream m id)) state)
  unfolding save
  save_valid rs o v t = ground arith
